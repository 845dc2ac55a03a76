-- ===== src/Siphash/Paper.antt =====
-- SipHash-2-4 as the paper defines it, written without the code's rounds and constants: a SipRound is
-- two half-rounds of the ARX network, the second with the words v0 and v2 changed over.
use Prim.Native.Nat.{bit_xor}
use truenas_ros_utils.Prelude.{
  ℕ, zero, suc, ◌+◌, ◌-◌, ◌*◌, ◌/◌, ◌%◌, ◌^◌, ◌≡◌, refl, ap, ◌∙◌, List, [], ◌∷◌, take, drop,
}
use truenas_ros_utils.Siphash.{Words, le_value, new, hash, compress, finalize, sip_round, rounds}
use truenas_ros_utils.Siphash.Message.{parse, compress_all, absorb-parse}

-- The rotation of 64 bits to the left by `s`.
unfoldable pub rotl : ℕ → ℕ → ℕ
rotl s v = v * 2 ^ s % 2 ^ 64 + v / 2 ^ (64 - s)

unfoldable pub plus : ℕ → ℕ → ℕ
plus a b = (a + b) % 2 ^ 64

unfoldable pub half_round : ℕ → ℕ → Words → Words
unfolding rotl plus
half_round s t v =
    let a = plus v.v0 v.v1 in
    let c = plus v.v2 v.v3 in
    record { v0 = rotl 32 a; v1 = bit_xor (rotl s v.v1) a; v2 = c; v3 = bit_xor (rotl t v.v3) c }

unfoldable pub change_over : Words → Words
change_over v = record v { v0 = v.v2; v2 = v.v0 }

unfoldable pub paper_round : Words → Words
unfolding half_round change_over
paper_round v = change_over (half_round 17 21 (change_over (half_round 13 16 v)))

unfoldable pub times : ℕ → Words → Words
unfolding paper_round
times zero v = v
times (suc n) v = times n (paper_round v)

-- Section 2.1: the state that a key begins with, the ASCII text "somepseudorandomlygeneratedbytes".
unfoldable pub initialization : ℕ → ℕ → Words
initialization k0 k1 = record {
  v0 = bit_xor k0 8317987319222330741;
  v1 = bit_xor k1 7237128888997146477;
  v2 = bit_xor k0 7816392313619706465;
  v3 = bit_xor k1 8387220255154660723;
}

-- Section 2.2, for c = 2.
unfoldable pub compression : Words → List ℕ → Words
unfolding times
compression v [] = v
compression v (m ∷ ws) =
    let w = times 2 (record v { v3 = bit_xor v.v3 m }) in
    compression (record w { v0 = bit_xor w.v0 m }) ws

-- Section 2.3, for d = 4.
unfoldable pub finalization : Words → ℕ
unfolding times
finalization v =
    let w = times 4 (record v { v2 = bit_xor v.v2 255 }) in
    bit_xor (bit_xor (bit_xor w.v0 w.v1) w.v2) w.v3

unfoldable pub siphash_2_4 : List ℕ → List ℕ → ℕ
unfolding initialization compression finalization
siphash_2_4 key m =
    finalization
      (compression (initialization (le_value (take 8 key)) (le_value (drop 8 key))) (parse m))

round-paper_round : (v : Words) → sip_round v ≡ paper_round v
unfolding sip_round paper_round
round-paper_round v = refl

rounds-times : (n : ℕ) (v : Words) → rounds n v ≡ times n v
unfolding rounds times
rounds-times zero v = refl
rounds-times (suc n) v = ap (rounds n) (round-paper_round v) ∙ rounds-times n (paper_round v)

compress_all-compression : (ws : List ℕ) (v : Words) → compress_all v ws ≡ compression v ws
unfolding compress compression
compress_all-compression [] v = refl
compress_all-compression (m ∷ ws) v =
    ap (λ w. compress_all (record w { v0 = bit_xor w.v0 m }) ws)
      (rounds-times 2 (record v { v3 = bit_xor v.v3 m }))
    ∙ compress_all-compression ws _

-- The hash under a key of bytes is the SipHash-2-4 of the paper: its initial state, its rotations
-- and round counts, its words of the message and its finalization.
pub hash-siphash_2_4 : (key m : List ℕ) → hash (new key) m ≡ siphash_2_4 key m
unfolding hash new finalize siphash_2_4
hash-siphash_2_4 key m =
    let start = (new key).state in
    let absorbed = absorb-parse start m ∙ compress_all-compression (parse m) start in
    let folded : Words → ℕ = λ w. bit_xor (bit_xor (bit_xor w.v0 w.v1) w.v2) w.v3 in
    ap (λ v. folded (finalize v)) absorbed
    ∙ ap folded (
        rounds-times 4 (record (compression start (parse m)) {
          v2 = bit_xor (compression start (parse m)).v2 255;
        }))
