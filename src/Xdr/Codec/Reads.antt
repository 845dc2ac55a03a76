-- ===== src/Xdr/Codec/Reads.antt =====
-- `Reads`: what it means that an action of the decoder reads given bytes as a given value, with a
-- rule for each way to build an action.
use truenas_ros_utils.Prelude.{
  ℕ, ◌+◌, ◌-◌, ◌≤◌, min, Bool, true, false, Option, none, some, List, [], ◌++◌, ◌≡◌, refl, ap, ◌∙◌,
  append_assoc, Result, ok, length, drop, length-append, drop_past, length-drop_past, take-append,
  arith, le→ltb, if◌then◌else◌,
}
use native.Mathlib.Nat.{add-zero}
use truenas_ros_utils.Prelude.Exec.{pure, lift, gets, ◌>>=◌}
use truenas_ros_utils.Xdr.Error.{Error}
use truenas_ros_utils.Xdr.Strict.{Strictness}
use truenas_ros_utils.Xdr.Unit4.{usize_max}
use truenas_ros_utils.Xdr.De.State.{Deserializer, De, take_bytes}

-- What a decoder keeps throughout.
pub record Env : Type 0 where
  pub input : List ℕ
  pub mode : Strictness
  pub max_depth : ℕ

-- What is pending from one call to the next.
pub record Flags : Type 0 where
  pub fixed_pending : Bool
  pub bound_pending : Option ℕ

-- A bound that the next length is held to, if there is one.
abbrev pub pending : Option ℕ → Flags
pending bound = record { fixed_pending = false; bound_pending = bound }

abbrev pub plain : Flags
plain = pending none

abbrev pub InBound : Option ℕ → ℕ → Type 0
InBound none len = Unit {0}
InBound (some limit) len = len ≤ limit

abbrev pub raw : Flags
raw = record { fixed_pending = true; bound_pending = none }

abbrev pub at : Env → Flags → ℕ → ℕ → Deserializer
at e f pos depth = record {
  input = e.input;
  pos = pos;
  mode = e.mode;
  fixed_pending = f.fixed_pending;
  bound_pending = f.bound_pending;
  span_start = none;
  depth = depth;
  max_depth = e.max_depth;
}

-- At `pos` the input goes on with `bytes`, and then `rest`.
pub record Holds (e : Env) (pos : ℕ) (bytes rest : List ℕ) : Type 0 where
  pub within : pos ≤ length e.input
  pub bounded : length e.input ≤ usize_max
  pub holds : drop pos e.input ≡ bytes ++ rest

pub Holds-end :
    {e : Env} {pos : ℕ} {bytes rest : List ℕ}
    → Holds e pos bytes rest
    → (pos + length bytes + length rest ≡ length e.input) × (length e.input ≤ usize_max)
Holds-end {e} {pos} {bytes} {rest} h =
    (length-drop_past pos e.input bytes rest h.within h.holds, h.bounded)

pub Holds-front :
    {e : Env} {pos : ℕ} (bs cs : List ℕ) {rest : List ℕ}
    → Holds e pos (bs ++ cs) rest
    → Holds e pos bs (cs ++ rest)
Holds-front bs cs {rest} h = record {
  within = h.within;
  bounded = h.bounded;
  holds = h.holds ∙ append_assoc bs cs rest;
}

pub Holds-back :
    {e : Env} {pos : ℕ} (bs cs : List ℕ) {rest : List ℕ}
    → Holds e pos (bs ++ cs) rest
    → Holds e (pos + length bs) cs rest
Holds-back {e} {pos} bs cs {rest} h = record {
  within = omega (arith, Holds-end h, length-append bs cs);
  bounded = h.bounded;
  holds = drop_past pos e.input bs (cs ++ rest) (h.holds ∙ append_assoc bs cs rest);
}

-- From the flags `f`, with room for `k` levels, `m` reads `bytes`, whatever follows them, returns
-- `a`, and leaves the flags `g` and the depth as it was.
pub record Reads (e : Env) (f g : Flags) (k : ℕ) {A : Type 0} (m : De A) (bytes : List ℕ) (a : A)
    : Type 0 where
  pub run :
      (pos depth : ℕ) (rest : List ℕ)
      → Holds e pos bytes rest
      → depth + k ≤ e.max_depth
      → m (at e f pos depth) ≡ (ok a, at e g (pos + length bytes) depth)

pub at-add :
    (e : Env) (f : Flags) (pos depth : ℕ) (bs cs : List ℕ)
    → at e f (pos + length bs + length cs) depth ≡ at e f (pos + length (bs ++ cs)) depth
at-add e f pos depth bs cs = ap (λ p. at e f p depth) (omega (arith, length-append bs cs))

module _ {e : Env} {f g h : Flags} {k : ℕ} {A B : Type 0} where
  pub Reads-bind :
      (m : De A) (n : A → De B) (bs cs : List ℕ) (a : A) (b : B)
      → Reads e f g k m bs a
      → Reads e g h k (n a) cs b
      → Reads e f h k (m >>= n) (bs ++ cs) b
  Reads-bind m n bs cs a b rm rn = record {
    run = λ pos depth rest here room.
        rw (rm.run pos depth (cs ++ rest) (Holds-front bs cs here) room) (
          rn.run (pos + length bs) depth rest (Holds-back bs cs here) room
          ∙ ap (λ d. (ok b, d)) (at-add e h pos depth bs cs));
  }

module _ {e : Env} {f : Flags} {k : ℕ} {A : Type 0} where
  pub Reads-lift : (r : Result Error A) (a : A) → r ≡ ok a → Reads e f f k (lift r) [] a
  Reads-lift r a p = record { run = λ pos depth rest here room. cc (p, add-zero pos) }

  pub Reads-pure : (a : A) → Reads e f f k (pure a) [] a
  Reads-pure a = Reads-lift (ok a) a refl

  pub Reads-gets :
      (read : Deserializer → A) (a : A)
      → ((pos depth : ℕ) → read (at e f pos depth) ≡ a)
      → Reads e f f k (gets read) [] a
  Reads-gets read a p = record { run = λ pos depth rest here room. cc (p pos depth, add-zero pos) }

  pub Reads-if :
      (b : Bool) (m n : De A) (bytes : List ℕ) (a : A) {g : Flags}
      → (b ≡ true → Reads e f g k m bytes a)
      → (b ≡ false → Reads e f g k n bytes a)
      → Reads e f g k (if b then m else n) bytes a
  Reads-if true m n bytes a rm rn = rm refl
  Reads-if false m n bytes a rm rn = rn refl

min_of_le : (a b : ℕ) → a ≤ b → min a b ≡ a
min_of_le a b h = omega arith

sub_self : (a b : ℕ) → a + b - a ≡ b
sub_self a b = omega arith

pub Reads-take_bytes :
    {e : Env} {f : Flags} {k : ℕ} (bs : List ℕ) → Reads e f f k (take_bytes (length bs)) bs bs
unfolding take_bytes
Reads-take_bytes {e} {f} {k} bs = record {
  run = λ pos depth rest here room. rw (
    min_of_le (pos + length bs) usize_max (omega (arith, Holds-end here)),
    le→ltb (length e.input) (pos + length bs) (omega (arith, Holds-end here)),
    sub_self pos (length bs),
    here.holds,
    take-append bs rest,
  );
}
