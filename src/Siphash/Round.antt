-- ===== src/Siphash/Round.antt =====
-- One round of SipHash: it stays within the words, and can be undone.
use Prim.Native.Nat.{bit_xor}
use truenas_ros_utils.Prelude.{ℕ, zero, suc, ◌+◌, ◌-◌, ◌%◌, ◌<◌, ◌≡◌, refl, ap, ◌∙◌, sym, arith}
use truenas_ros_utils.Prelude.Bytes.{u64_mod}
use truenas_ros_utils.Prelude.Xor.{bit_xor_twice, bit_xor-lt}
use truenas_ros_utils.Siphash.{
  Words, wrapping_add, rotate_left, sip_round, rounds, compress, finalize,
}

abbrev pub IsWord : ℕ → Type 0
IsWord x = x < u64_mod

abbrev pub AreWords : Words → Type 0
AreWords v = IsWord v.v0 × IsWord v.v1 × IsWord v.v2 × IsWord v.v3

pub xor-IsWord : (a b : ℕ) → IsWord a → IsWord b → IsWord (bit_xor a b)
xor-IsWord a b h k = bit_xor-lt 64 a b h k

wrapping_add-IsWord : (a b : ℕ) → IsWord (wrapping_add a b)
unfolding wrapping_add
wrapping_add-IsWord a b = omega arith

abbrev pub wrapping_sub : ℕ → ℕ → ℕ
wrapping_sub a b = (a + u64_mod - b) % u64_mod

wrapping_sub-wrapping_add : (a b : ℕ) → IsWord a → IsWord b → wrapping_sub (wrapping_add a b) b ≡ a
unfolding wrapping_add
wrapping_sub-wrapping_add a b h k = omega arith

-- A rotation, and the one that turns back.
record Turn : Type 0 where
  turn : ℕ → ℕ
  back : ℕ → ℕ
  turn_is_word : (v : ℕ) → IsWord v → IsWord (turn v)
  turned_back : (v : ℕ) → IsWord v → back (turn v) ≡ v

abbrev turn13 : Turn
unfolding rotate_left
turn13 = record {
  turn = rotate_left 8192 2251799813685248;
  back = rotate_left 2251799813685248 8192;
  turn_is_word = λ v h. omega arith;
  turned_back = λ v h. omega arith;
}

abbrev turn16 : Turn
unfolding rotate_left
turn16 = record {
  turn = rotate_left 65536 281474976710656;
  back = rotate_left 281474976710656 65536;
  turn_is_word = λ v h. omega arith;
  turned_back = λ v h. omega arith;
}

abbrev turn17 : Turn
unfolding rotate_left
turn17 = record {
  turn = rotate_left 131072 140737488355328;
  back = rotate_left 140737488355328 131072;
  turn_is_word = λ v h. omega arith;
  turned_back = λ v h. omega arith;
}

abbrev turn21 : Turn
unfolding rotate_left
turn21 = record {
  turn = rotate_left 2097152 8796093022208;
  back = rotate_left 8796093022208 2097152;
  turn_is_word = λ v h. omega arith;
  turned_back = λ v h. omega arith;
}

abbrev turn32 : Turn
unfolding rotate_left
turn32 = record {
  turn = rotate_left 4294967296 4294967296;
  back = rotate_left 4294967296 4294967296;
  turn_is_word = λ v h. omega arith;
  turned_back = λ v h. omega arith;
}

-- Half a round: its left column and its right column are the same up to the rotations.
abbrev half : Turn → Turn → Words → Words
half s t v =
    let a = wrapping_add v.v0 v.v1 in
    let c = wrapping_add v.v2 v.v3 in
    record {
      v0 = turn32.turn a;
      v1 = bit_xor (s.turn v.v1) a;
      v2 = c;
      v3 = bit_xor (t.turn v.v3) c;
    }

abbrev unhalf : Turn → Turn → Words → Words
unhalf s t v =
    let a = turn32.back v.v0 in
    let b = s.back (bit_xor v.v1 a) in
    let d = t.back (bit_xor v.v3 v.v2) in
    record { v0 = wrapping_sub a b; v1 = b; v2 = wrapping_sub v.v2 d; v3 = d }

abbrev swap : Words → Words
swap v = record { v0 = v.v2; v1 = v.v1; v2 = v.v0; v3 = v.v3 }

sip_round-half : (v : Words) → sip_round v ≡ swap (half turn17 turn21 (swap (half turn13 turn16 v)))
unfolding sip_round
sip_round-half v = refl

pub Words-eq :
    {a b c d p q r s : ℕ}
    → a ≡ p
    → b ≡ q
    → c ≡ r
    → d ≡ s
    → Path Words
        (record { v0 = a; v1 = b; v2 = c; v3 = d })
        (record { v0 = p; v1 = q; v2 = r; v3 = s })
Words-eq e f g h = cc

half-AreWords : (s t : Turn) (v : Words) → AreWords v → AreWords (half s t v)
half-AreWords s t v h =
    let a : IsWord (wrapping_add v.v0 v.v1) = wrapping_add-IsWord v.v0 v.v1 in
    let c : IsWord (wrapping_add v.v2 v.v3) = wrapping_add-IsWord v.v2 v.v3 in
    (
      turn32.turn_is_word _ a,
      xor-IsWord _ _ (s.turn_is_word v.v1 h.1) a,
      c,
      xor-IsWord _ _ (t.turn_is_word v.v3 h.3) c,
    )

-- The column of a turned word: exclusive or taken off, then turned back.
column-back :
    (s : Turn) (x a a' : ℕ) → IsWord x → a' ≡ a → s.back (bit_xor (bit_xor (s.turn x) a) a') ≡ x
column-back s x a a' h e =
    ap (λ w. s.back (bit_xor (bit_xor (s.turn x) a) w)) e
    ∙ (ap s.back (bit_xor_twice (s.turn x) a) ∙ s.turned_back x h)

unhalf-half : (s t : Turn) (v : Words) → AreWords v → unhalf s t (half s t v) ≡ v
unhalf-half s t v h =
    let a = wrapping_add v.v0 v.v1 in
    let c = wrapping_add v.v2 v.v3 in
    let e : turn32.back (turn32.turn a) ≡ a =
      turn32.turned_back a (wrapping_add-IsWord v.v0 v.v1) in
    let b = column-back s v.v1 a (turn32.back (turn32.turn a)) h.1 e in
    let d = column-back t v.v3 c c h.3 refl in
    Words-eq
      (ap (λ x. wrapping_sub (turn32.back (turn32.turn a)) x) b
        ∙ (ap (λ x. wrapping_sub x v.v1) e ∙ wrapping_sub-wrapping_add v.v0 v.v1 h.0 h.1))
      b (ap (λ x. wrapping_sub c x) d ∙ wrapping_sub-wrapping_add v.v2 v.v3 h.2 h.3) d

-- The round run backwards.
pub sip_unround : Words → Words
sip_unround v = unhalf turn13 turn16 (swap (unhalf turn17 turn21 (swap v)))

pub sip_round-AreWords : (v : Words) → AreWords v → AreWords (sip_round v)
sip_round-AreWords v h =
    let a = half-AreWords turn13 turn16 v h in
    let b = half-AreWords turn17 turn21 (swap (half turn13 turn16 v)) (a.2, a.1, a.0, a.3) in
    rw (sip_round-half v) (b.2, b.1, b.0, b.3)

-- A round of four words gives four words, and running it backwards gives them back: no two states
-- become one.
pub sip_unround-sip_round :
    (v : Words) → AreWords v → AreWords (sip_round v) × (sip_unround (sip_round v) ≡ v)
unfolding sip_unround
sip_unround-sip_round v h =
    let a = half-AreWords turn13 turn16 v h in
    (
      sip_round-AreWords v h,
      ap sip_unround (sip_round-half v)
          ∙ (ap (λ w. unhalf turn13 turn16 (swap w))
                (unhalf-half turn17 turn21 (swap (half turn13 turn16 v)) (a.2, a.1, a.0, a.3))
              ∙ unhalf-half turn13 turn16 v h),
    )

pub sip_round_cancel : (v w : Words) → AreWords v → AreWords w → sip_round v ≡ sip_round w → v ≡ w
sip_round_cancel v w h k e =
    sym (sip_unround-sip_round v h).1 ∙ (ap sip_unround e ∙ (sip_unround-sip_round w k).1)

pub rounds-AreWords : (n : ℕ) (v : Words) → AreWords v → AreWords (rounds n v)
unfolding rounds
rounds-AreWords zero v h = h
rounds-AreWords (suc n) v h = rounds-AreWords n (sip_round v) (sip_round-AreWords v h)

pub rounds_cancel :
    (n : ℕ) (v w : Words) → AreWords v → AreWords w → rounds n v ≡ rounds n w → v ≡ w
unfolding rounds
rounds_cancel zero v w h k e = e
rounds_cancel (suc n) v w h k e = sip_round_cancel v w h k (
    rounds_cancel n (sip_round v) (sip_round w) (sip_round-AreWords v h) (sip_round-AreWords w k) e)

pub compress-AreWords : (v : Words) (m : ℕ) → AreWords v → IsWord m → AreWords (compress v m)
unfolding compress
compress-AreWords v m h k =
    let w : Words = record v { v3 = bit_xor v.v3 m } in
    let r = rounds-AreWords 2 w (h.0, h.1, h.2, xor-IsWord v.v3 m h.3 k) in
    (xor-IsWord (rounds 2 w).v0 m r.0 k, r.1, r.2, r.3)

pub finalize-AreWords : (v : Words) → AreWords v → AreWords (finalize v)
unfolding finalize
finalize-AreWords v h =
    rounds-AreWords 4 (record v { v2 = bit_xor v.v2 0xff })
      (h.0, h.1, xor-IsWord v.v2 0xff h.2 (omega arith), h.3)
