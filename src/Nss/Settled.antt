-- ===== src/Nss/Settled.antt =====
-- What a call with a growing buffer ends with.
use truenas_ros_utils.Prelude.{
  ℕ, zero, suc, ◌≤◌, ◌≡◌, refl, arith, Bool, true, false, not, ◌||◌, Bool-cases, ◌⊎◌, inl, inr,
  Option, some, leb,
}
use truenas_ros_utils.Xdr.Signed.{ℤ}
use truenas_ros_utils.Nss.Service.{asks_more, doubled, max_buflen, grow_and_call}

-- After `n` doublings a buffer is at the ceiling or past it.
unfoldable pub Reaches : ℕ → ℕ → Type 0
Reaches zero len = max_buflen ≤ len
Reaches (suc n) len = Reaches n (doubled len)

leb_le : (a b : ℕ) → leb a b ≡ true → a ≤ b
leb_le a b h = ground arith

le_leb : (a b : ℕ) → a ≤ b → leb a b ≡ true
le_leb a b h = ground arith

or_true : (a : Bool) → (a || true) ≡ true
or_true true = refl
or_true false = refl

module _ {S : Type 0} (module_call : ℕ → S → (ℤ × ℤ) × S) where
  Settled : Option ((ℤ × ℤ) × ℕ) × S → Type 0
  Settled grown =
      (answer : ℤ × ℤ) × (last : ℕ) × (before : S) × (after : S) × (grown
        ≡ (some (answer, last), after))
      × (module_call last before ≡ (answer, after))
      × ((asks_more answer.0 answer.1 ≡ false) ⊎ (max_buflen ≤ last))

  once_more :
      (n len : ℕ) (s : S)
      → Settled (grow_and_call module_call n (doubled len) (module_call len s).1)
      → Settled (grow_and_call module_call (suc n) len s)
  unfolding grow_and_call Settled
  once_more n len s (answer, last, before, after, grown, asked, settled) =
      let r = module_call len s in
      elim (Bool-cases (asks_more r.0.0 r.0.1)) [
        | inr enough ↦ (r.0, len, s, r.1, rw enough refl, refl, inl enough)
        | inl more ↦ (elim (Bool-cases (leb max_buflen len)) [
          | inl full ↦
              (r.0, len, s, r.1, rw (more, full) refl, refl, inr (leb_le max_buflen len full))
          | inr room ↦ (answer, last, before, after, rw (more, room) grown, asked, settled)
        ])
      ]

  at_ceiling : (len : ℕ) (s : S) → max_buflen ≤ len → Settled (grow_and_call module_call 1 len s)
  unfolding grow_and_call Settled
  at_ceiling len s le =
      let r = module_call len s in
      let full = le_leb max_buflen len le in
      (r.0, len, s, r.1, rw (full, or_true (not (asks_more r.0.0 r.0.1))) refl, refl, inr le)

  -- The loop returns: what it returns is the module's answer to the buffer of the length that it is
  -- left with, and either the answer asks for no larger buffer or the buffer is at the ceiling.
  pub grow_and_call-settled :
      (n len : ℕ) (s : S)
      → Reaches n len
      → (answer : ℤ × ℤ) × (last : ℕ) × (before : S) × (after : S) × (grow_and_call module_call
            (suc n)
            len
            s
          ≡ (some (answer, last), after))
        × (module_call last before ≡ (answer, after))
        × ((asks_more answer.0 answer.1 ≡ false) ⊎ (max_buflen ≤ last))
  unfolding Reaches Settled
  grow_and_call-settled zero len s h = at_ceiling len s h
  grow_and_call-settled (suc n) len s h =
      once_more (suc n) len s (grow_and_call-settled n (doubled len) (module_call len s).1 h)
