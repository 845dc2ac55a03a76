-- ===== src/Jsonrpc/Request/Tokens.antt =====
-- The first byte of a text behind its whitespace.
use truenas_ros_utils.Prelude.{
  ℕ, ◌≡◌, ◌∙◌, inl, inr, refl, ap, arith, true, false, Bool-cases, some, List, [], ◌∷◌, ◌++◌, All,
}
use truenas_ros_utils.Jsonrpc.Frame.{is_ws}
use truenas_ros_utils.Jsonrpc.Request.{first_token}
use truenas_ros_utils.Jsonrpc.Request.Spec.{IsSpace, Begins}

is_ws-IsSpace : (b : ℕ) → is_ws b ≡ true → IsSpace b
unfolding is_ws IsSpace
is_ws-IsSpace b h = ground arith

is_ws_of : (b : ℕ) → IsSpace b → is_ws b ≡ true
unfolding is_ws IsSpace
is_ws_of b h = ground arith

first_token_spaces :
    (spaces : List ℕ) (b : ℕ) (rest : List ℕ)
    → All IsSpace spaces
    → is_ws b ≡ false
    → first_token (spaces ++ (b ∷ rest)) ≡ some b
unfolding first_token
first_token_spaces [] b rest h solid = rw solid refl
first_token_spaces (s ∷ spaces) b rest h solid =
    rw (is_ws_of s h.0) (first_token_spaces spaces b rest h.1 solid)

pub first_token_of :
    (b : ℕ) (text : List ℕ) → is_ws b ≡ false → Begins b text → first_token text ≡ some b
unfolding Begins
first_token_of b text solid (spaces, rest, h, e) =
    ap first_token e ∙ first_token_spaces spaces b rest h solid

pub first_token-Begins : (b : ℕ) (text : List ℕ) → first_token text ≡ some b → Begins b text
unfolding first_token Begins
first_token-Begins b [] h = cc
first_token-Begins b (c ∷ text) h = elim (Bool-cases (is_ws c)) [
  | inl space ↦
      (let (spaces, rest, all, e) = first_token-Begins b text (rw space at h) in
        (c ∷ spaces, rest, (is_ws-IsSpace c space, all), ap (λ t. c ∷ t) e))
  | inr solid ↦
      (let found = rw solid at h in
        let same : c ≡ b = cc in ([], text, tt, ap (λ x. x ∷ text) same))
]
