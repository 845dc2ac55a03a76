-- ===== src/Siphash/Keys.antt =====
-- No two keys meet in one state, before the hash folds it.
use Prim.Native.Nat.{bit_xor}
use truenas_ros_utils.Prelude.{
  ℕ, ◌≡◌, ◌≢◌, ap, ◌∙◌, sym, arith, List, [], ◌∷◌, ◌++◌, length, take, drop, All, take-drop,
  length-take, length-drop,
}
use truenas_ros_utils.Prelude.Bytes.{AreBytes}
use truenas_ros_utils.Prelude.Xor.{bit_xor_cancel}
use truenas_ros_utils.Siphash.{Words, initial, new, absorb, compress, finalize, rounds}
use truenas_ros_utils.Siphash.Round.{
  IsWord, AreWords, Words-eq, xor-IsWord, compress-AreWords, rounds_cancel,
}
use truenas_ros_utils.Siphash.Message.{
  parse, le_value_cancel, take-AreBytes, drop-AreBytes, absorb-parse, compress_all,
}
use truenas_ros_utils.Siphash.Distinct.{parse-AreWords}
use truenas_ros_utils.Siphash.Digest.{new-AreWords, absorb-AreWords}

-- The word goes into v3.
abbrev entered : Words → ℕ → Words
entered v m = record v { v3 = bit_xor v.v3 m }

entered-AreWords : (v : Words) (m : ℕ) → AreWords v → IsWord m → AreWords (entered v m)
entered-AreWords v m h k = (h.0, h.1, h.2, xor-IsWord v.v3 m h.3 k)

entered_cancel : (v w : Words) (m : ℕ) → entered v m ≡ entered w m → v ≡ w
entered_cancel v w m e =
    Words-eq (ap Words.v0 e) (ap Words.v1 e) (ap Words.v2 e)
      (bit_xor_cancel v.v3 w.v3 m (ap Words.v3 e))

left_cancel :
    (v w : Words) (m : ℕ)
    → Path Words (record v { v0 = bit_xor v.v0 m }) (record w { v0 = bit_xor w.v0 m })
    → v ≡ w
left_cancel v w m e =
    Words-eq (bit_xor_cancel v.v0 w.v0 m (ap Words.v0 e)) (ap Words.v1 e) (ap Words.v2 e)
      (ap Words.v3 e)

compress_cancel :
    (v w : Words) (m : ℕ) → AreWords v → AreWords w → IsWord m → compress v m ≡ compress w m → v ≡ w
unfolding compress
compress_cancel v w m h k b e = entered_cancel v w m (
    rounds_cancel 2 (entered v m) (entered w m) (entered-AreWords v m h b)
      (entered-AreWords w m k b)
      (left_cancel (rounds 2 (entered v m)) (rounds 2 (entered w m)) m e))

compress_all_cancel :
    (v w : Words) (ws : List ℕ)
    → AreWords v
    → AreWords w
    → All IsWord ws
    → compress_all v ws ≡ compress_all w ws
    → v ≡ w
compress_all_cancel v w [] h k b e = e
compress_all_cancel v w (m ∷ ws) h k b e = compress_cancel v w m h k b.0 (
    compress_all_cancel (compress v m) (compress w m) ws (compress-AreWords v m h b.0)
      (compress-AreWords w m k b.0) b.1 e)

finalize_cancel : (v w : Words) → AreWords v → AreWords w → finalize v ≡ finalize w → v ≡ w
unfolding finalize
finalize_cancel v w h k e =
    let marked : Words → Words = λ x. record x { v2 = bit_xor x.v2 0xff } in
    let r =
      rounds_cancel 4 (marked v) (marked w) (h.0, h.1, xor-IsWord v.v2 0xff h.2 (omega arith), h.3)
        (k.0, k.1, xor-IsWord w.v2 0xff k.2 (omega arith), k.3) e in
    Words-eq (ap Words.v0 r) (ap Words.v1 r) (bit_xor_cancel v.v2 w.v2 0xff (ap Words.v2 r))
      (ap Words.v3 r)

new_cancel :
    (k l : List ℕ)
    → AreBytes k
    → AreBytes l
    → length k ≡ 16
    → length l ≡ 16
    → (new k).state ≡ (new l).state
    → k ≡ l
unfolding new
new_cancel k l h i p q e =
    let low : take 8 k ≡ take 8 l =
      le_value_cancel _ _ (take-AreBytes 8 k h) (take-AreBytes 8 l i)
        (omega (arith, length-take 8 k (omega arith), length-take 8 l (omega arith)))
        (bit_xor_cancel _ _ initial.v0 (ap Words.v0 e)) in
    let high : drop 8 k ≡ drop 8 l =
      le_value_cancel _ _ (drop-AreBytes 8 k h) (drop-AreBytes 8 l i)
        (omega (arith, length-drop 8 k, length-drop 8 l))
        (bit_xor_cancel _ _ initial.v1 (ap Words.v1 e)) in
    sym (take-drop 8 k)
    ∙ (ap (λ t. t ++ drop 8 k) low ∙ (ap (λ t. take 8 l ++ t) high ∙ take-drop 8 l))

-- Two different keys of 16 bytes lead one message to two different final states: every step of
-- the hash up to the last fold can be undone.
pub finalize_distinct :
    (k l m : List ℕ)
    → AreBytes k
    → AreBytes l
    → length k ≡ 16
    → length l ≡ 16
    → AreBytes m
    → k ≢ l
    → finalize (absorb (length m) (new k).state m) ≢ finalize (absorb (length m) (new l).state m)
finalize_distinct k l m h i p q b ne e =
    let v = new-AreWords k h p in
    let w = new-AreWords l i q in
    let absorbed = finalize_cancel _ _ (absorb-AreWords _ m v b) (absorb-AreWords _ m w b) e in
    let words = sym (absorb-parse (new k).state m) ∙ (absorbed ∙ absorb-parse (new l).state m) in
    ne (new_cancel k l h i p q (compress_all_cancel _ _ (parse m) v w (parse-AreWords m b) words))
