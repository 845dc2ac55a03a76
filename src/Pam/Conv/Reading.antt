-- ===== src/Pam/Conv/Reading.antt =====
-- Which rounds the trampoline admits, and what it reads of their messages.
use truenas_ros_utils.Prelude.{
  ℕ, zero, suc, ◌≡◌, ◌⊎◌, inl, inr, refl, ap, ◌∙◌, sym, subst, ==→eq, ◌==◌, arith, Bool, true,
  false, Bool-cases, List, [], ◌∷◌, take, Option, some, none, Result, ok, err, ◌≢◌, ltb, ltb→lt,
  ltb→le,
}
use truenas_ros_utils.Xdr.Signed.{ℤ, pos, negsuc}
use truenas_ros_utils.Pam.Code.{conv_err}
use truenas_ros_utils.Pam.Error.{Error, pam, unknown_msg_style}
use truenas_ros_utils.Pam.Conv.{
  Message, MsgStyle, RawMessage, prompt_echo_off, prompt_echo_on, error_msg, text_info, raw,
  style_of, from_raw, text_of, message_of, read_message, prepend, read_messages, count_of, offered,
}
use truenas_ros_utils.Pam.Conv.Rounds.{IsQuestion, Says, Unreadable, null_message, no_style, behind}

-- Whether a round is admitted, and that it is if and only if it is a question.
unfoldable pub Offer : Option (List (Option RawMessage)) → Bool → ℤ → Type 0
Offer messages has_resp num_msg =
    ((offered messages has_resp (count_of num_msg) ≡ none)
      × ((count : ℕ) (raws : List (Option RawMessage))
          → IsQuestion messages has_resp num_msg count raws
          → ⊥))
    ⊎ ((count : ℕ) × (raws : List (Option RawMessage)) × (offered messages has_resp
            (count_of num_msg)
          ≡ some (count, take count raws))
        × IsQuestion messages has_resp num_msg count raws)

pub offered_cases :
    (messages : Option (List (Option RawMessage))) (has_resp : Bool) (num_msg : ℤ)
    → Offer messages has_resp num_msg
unfolding Offer IsQuestion
offered_cases none has_resp num_msg = inl (refl, λ count raws q. cc)
offered_cases (some raws) false num_msg = inl (refl, λ count raws q. cc)
offered_cases (some raws) true (negsuc n) = inl (refl, λ count raws q. cc)
offered_cases (some raws) true (pos zero) =
    inl (refl, λ count raws q. let same : 0 ≡ count = cc in omega (arith, same, q.3))
offered_cases (some raws) true (pos (suc n)) = elim (Bool-cases (ltb n 32)) [
  | inl few ↦
      inr
        (suc n, raws, rw few refl, (refl, refl, refl, omega arith, omega (arith, ltb→lt n 32 few)))
  | inr many ↦ inl (
    rw many refl,
    λ count raws q. let same : suc n ≡ count = cc in omega (arith, same, q.4, ltb→le n 32 many),
  )
]

style_of_raw : (s : MsgStyle) → from_raw (raw s) ≡ some s
unfolding from_raw raw style_of
style_of_raw prompt_echo_off = refl
style_of_raw prompt_echo_on = refl
style_of_raw error_msg = refl
style_of_raw text_info = refl

number_of_style :
    (k : ℕ) (style s : MsgStyle) (n : ℕ)
    → (n == k) ≡ true
    → raw style ≡ pos k
    → ◌≡◌ {A = Option MsgStyle} (some style) (some s)
    → raw s ≡ pos n
number_of_style k style s n e r h =
    let same : s ≡ style = cc in ap raw same ∙ (r ∙ ap pos (sym (==→eq n k e)))

raw_of_style : (n : ℕ) (s : MsgStyle) → style_of n ≡ some s → raw s ≡ pos n
unfolding style_of raw
raw_of_style n s h = elim (Bool-cases (n == 1)) [
  | inl e ↦ number_of_style 1 prompt_echo_off s n e refl (rw e at h)
  | inr a ↦ (elim (Bool-cases (n == 2)) [
    | inl e ↦ number_of_style 2 prompt_echo_on s n e refl (rw (a, e) at h)
    | inr b ↦ (elim (Bool-cases (n == 3)) [
      | inl e ↦ number_of_style 3 error_msg s n e refl (rw (a, b, e) at h)
      | inr c ↦ (elim (Bool-cases (n == 4)) [
        | inl e ↦ number_of_style 4 text_info s n e refl (rw (a, b, c, e) at h)
        | inr d ↦ (let no_style = rw (a, b, c, d) at h in cc)
      ])
    ])
  ])
]

raw_of : (z : ℤ) (s : MsgStyle) → from_raw z ≡ some s → raw s ≡ z
unfolding from_raw
raw_of (pos n) s h = raw_of_style n s h
raw_of (negsuc n) s h = cc

message_of_says :
    (r : RawMessage) (found : Option MsgStyle) (m : Message)
    → from_raw r.msg_style ≡ found
    → message_of r found ≡ ok m
    → (raw m.style ≡ r.msg_style) × (m.text ≡ text_of r.msg)
message_of_says r none m e h = cc
message_of_says r (some style) m e h =
    let same : Path Message (record { style = style; text = text_of r.msg }) m = cc in
    (ap (λ x. raw x.style) (sym same) ∙ raw_of r.msg_style style e, ap Message.text (sym same))

prepend_ok :
    (first : Result Error Message) (rest : Result Error (List Message)) (messages : List Message)
    → prepend first rest ≡ ok messages
    → (m : Message) × (tail : List Message) × (first ≡ ok m)
      × (rest ≡ ok tail)
      × (messages ≡ m ∷ tail)
prepend_ok (err e) rest messages h = cc
prepend_ok (ok m) (err e) messages h = cc
prepend_ok (ok m) (ok tail) messages h = (m, tail, refl, refl, cc)

pub read_messages-Says :
    (raws : List (Option RawMessage)) (messages : List Message)
    → read_messages raws ≡ ok messages
    → Says raws messages
unfolding read_messages read_message Says
read_messages-Says [] messages h = (let e : [] ≡ messages = cc in subst (Says []) e tt)
read_messages-Says (none ∷ raws) messages h =
    let (m, tail, first, rest, e) =
      prepend_ok (read_message none) (read_messages raws) messages h in
    cc
read_messages-Says (some r ∷ raws) messages h =
    let (m, tail, first, rest, e) =
      prepend_ok (message_of r (from_raw r.msg_style)) (read_messages raws) messages h in
    let (style, text) = message_of_says r (from_raw r.msg_style) m refl first in
    subst (Says (some r ∷ raws)) (sym e) (style, text, read_messages-Says raws tail rest)

message_of_fails :
    (r : RawMessage) (found : Option MsgStyle) (e : Error)
    → from_raw r.msg_style ≡ found
    → message_of r found ≡ err e
    → ((style : MsgStyle) → raw style ≢ r.msg_style) × (e ≡ unknown_msg_style r.msg_style)
message_of_fails r none e f h =
    (λ style p. let found = ap from_raw (sym p) ∙ style_of_raw style in cc, cc)
message_of_fails r (some style) e f h = cc

prepend_err :
    (first : Result Error Message) (rest : Result Error (List Message)) (e : Error)
    → prepend first rest ≡ err e
    → (first ≡ err e) ⊎ ((m : Message) × (first ≡ ok m) × (rest ≡ err e))
prepend_err (err x) rest e h = inl cc
prepend_err (ok m) (err x) e h = inr (m, refl, cc)
prepend_err (ok m) (ok tail) e h = cc

pub read_messages-Unreadable :
    (raws : List (Option RawMessage)) (e : Error) → read_messages raws ≡ err e → Unreadable raws e
unfolding read_messages read_message
read_messages-Unreadable [] e h = cc
read_messages-Unreadable (none ∷ raws) e h =
    let same : pam conv_err ≡ e = cc in rw (← same) null_message
read_messages-Unreadable (some r ∷ raws) e h =
    elim (prepend_err (message_of r (from_raw r.msg_style)) (read_messages raws) e h) [
      | inl first ↦
          (let (none_has, same) = message_of_fails r (from_raw r.msg_style) e refl first in
            rw same (no_style none_has))
      | inr (m, first, rest) ↦
          (let (style, text) = message_of_says r (from_raw r.msg_style) m refl first in
            behind m.style style (read_messages-Unreadable raws e rest))
    ]
