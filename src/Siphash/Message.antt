-- ===== src/Siphash/Message.antt =====
-- The words that section 2 of the paper parses a message into, written without the code.
use truenas_ros_utils.Prelude.{
  ℕ, zero, suc, ◌+◌, ◌-◌, ◌*◌, ◌/◌, ◌%◌, ◌<◌, ◌≤◌, ◌≡◌, refl, ap, ◌∙◌, sym, arith, List, [], ◌∷◌,
  ◌++◌, length, take, drop, replicate, All, take-drop, length-take, length-drop,
}
use truenas_ros_utils.Prelude.Bytes.{AreBytes}
use truenas_ros_utils.Siphash.{Words, le_value, last_word, compress, absorb}
use truenas_ros_utils.Siphash.Round.{IsWord}

abbrev pub le_words : ℕ → List ℕ → List ℕ
le_words zero bs = []
le_words (suc n) bs = le_value (take 8 bs) ∷ le_words n (drop 8 bs)

-- Null bytes, and the length as the most significant byte of the last word.
abbrev pub ending : ℕ → List ℕ
ending len = replicate (7 - len % 8) 0 ++ (len % 256 ∷ [])

unfoldable pub parse : List ℕ → List ℕ
parse m = le_words (length m / 8 + 1) (m ++ ending (length m))

abbrev pub compress_all : Words → List ℕ → Words
compress_all v [] = v
compress_all v (w ∷ ws) = compress_all (compress v w) ws

-- The length byte is that of the whole message.
abbrev tail_words : ℕ → List ℕ → List ℕ
tail_words len m =
    le_words (length m / 8 + 1) (m ++ (replicate (7 - length m % 8) 0 ++ (len % 256 ∷ [])))

tail_words-chunk :
    (len b0 b1 b2 b3 b4 b5 b6 b7 : ℕ) (rest : List ℕ)
    → tail_words len (b0 ∷ b1 ∷ b2 ∷ b3 ∷ b4 ∷ b5 ∷ b6 ∷ b7 ∷ rest)
      ≡ le_value (b0 ∷ b1 ∷ b2 ∷ b3 ∷ b4 ∷ b5 ∷ b6 ∷ b7 ∷ []) ∷ tail_words len rest
tail_words-chunk len b0 b1 b2 b3 b4 b5 b6 b7 rest =
    let l = length rest in
    let l8 = length (b0 ∷ b1 ∷ b2 ∷ b3 ∷ b4 ∷ b5 ∷ b6 ∷ b7 ∷ rest) in
    let e : Path ℕ (l8 / 8 + 1) (suc (l / 8 + 1)) = omega arith in
    let r : Path ℕ (l8 % 8) (l % 8) = omega arith in
    let bs : ℕ → List ℕ = λ z.
      b0 ∷ b1 ∷ b2 ∷ b3 ∷ b4 ∷ b5 ∷ b6 ∷ b7 ∷ (rest ++ (replicate (7 - z) 0 ++ (len % 256 ∷ []))) in
    ap (λ n. le_words n (bs (l8 % 8))) e ∙ ap (λ z. le_words (suc (l / 8 + 1)) (bs z)) r

pub absorb-tail_words :
    (len : ℕ) (v : Words) (m : List ℕ) → absorb len v m ≡ compress_all v (tail_words len m)
unfolding absorb last_word
absorb-tail_words len v (b0 ∷ b1 ∷ b2 ∷ b3 ∷ b4 ∷ b5 ∷ b6 ∷ b7 ∷ rest) =
    absorb-tail_words len (compress v (le_value (b0 ∷ b1 ∷ b2 ∷ b3 ∷ b4 ∷ b5 ∷ b6 ∷ b7 ∷ []))) rest
    ∙ ap (compress_all v) (sym (tail_words-chunk len b0 b1 b2 b3 b4 b5 b6 b7 rest))
absorb-tail_words len v [] = refl
absorb-tail_words len v (b0 ∷ []) = refl
absorb-tail_words len v (b0 ∷ b1 ∷ []) = refl
absorb-tail_words len v (b0 ∷ b1 ∷ b2 ∷ []) = refl
absorb-tail_words len v (b0 ∷ b1 ∷ b2 ∷ b3 ∷ []) = refl
absorb-tail_words len v (b0 ∷ b1 ∷ b2 ∷ b3 ∷ b4 ∷ []) = refl
absorb-tail_words len v (b0 ∷ b1 ∷ b2 ∷ b3 ∷ b4 ∷ b5 ∷ []) = refl
absorb-tail_words len v (b0 ∷ b1 ∷ b2 ∷ b3 ∷ b4 ∷ b5 ∷ b6 ∷ []) = refl

pub absorb-parse : (v : Words) (m : List ℕ) → absorb (length m) v m ≡ compress_all v (parse m)
unfolding parse
absorb-parse v m = absorb-tail_words (length m) v m

-- 256 to the power of the length.
abbrev capacity : List ℕ → ℕ
capacity [] = 1
capacity (b ∷ bs) = 256 * capacity bs

le_value-lt : (bs : List ℕ) → AreBytes bs → le_value bs < capacity bs
unfolding le_value
le_value-lt [] h = omega arith
le_value-lt (b ∷ bs) h = omega (arith, h.0, le_value-lt bs h.1)

capacity_at : ℕ → ℕ
capacity_at zero = 1
capacity_at (suc n) = 256 * capacity_at n

capacity_of : (n : ℕ) (bs : List ℕ) → length bs ≡ n → capacity bs ≡ capacity_at n
unfolding capacity_at
capacity_of zero [] h = refl
capacity_of zero (b ∷ bs) h = absurd (omega arith)
capacity_of (suc n) [] h = absurd (omega arith)
capacity_of (suc n) (b ∷ bs) h = omega (arith, capacity_of n bs (omega arith))

pub le_value-IsWord : (bs : List ℕ) → AreBytes bs → length bs ≡ 8 → IsWord (le_value bs)
unfolding capacity_at
le_value-IsWord bs h k = omega (arith, le_value-lt bs h, capacity_of 8 bs k)

pub le_value_cancel :
    (xs ys : List ℕ)
    → AreBytes xs
    → AreBytes ys
    → length xs ≡ length ys
    → le_value xs ≡ le_value ys
    → xs ≡ ys
unfolding le_value
le_value_cancel [] [] h k l e = refl
le_value_cancel [] (y ∷ ys) h k l e = absurd (omega arith)
le_value_cancel (x ∷ xs) [] h k l e = absurd (omega arith)
le_value_cancel (x ∷ xs) (y ∷ ys) h k l e =
    let b : x ≡ y = omega (arith, h.0, k.0) in
    let r : xs ≡ ys = le_value_cancel xs ys h.1 k.1 (omega arith) (omega (arith, h.0, k.0)) in cc

pub take-AreBytes : (n : ℕ) (bs : List ℕ) → AreBytes bs → AreBytes (take n bs)
take-AreBytes zero bs h = tt
take-AreBytes (suc n) [] h = tt
take-AreBytes (suc n) (b ∷ bs) h = (h.0, take-AreBytes n bs h.1)

pub drop-AreBytes : (n : ℕ) (bs : List ℕ) → AreBytes bs → AreBytes (drop n bs)
drop-AreBytes zero bs h = h
drop-AreBytes (suc n) [] h = tt
drop-AreBytes (suc n) (b ∷ bs) h = drop-AreBytes n bs h.1

pub le_words-AreWords :
    (n : ℕ) (bs : List ℕ) → AreBytes bs → 8 * n ≤ length bs → All IsWord (le_words n bs)
le_words-AreWords zero bs h k = tt
le_words-AreWords (suc n) bs h k = (
  le_value-IsWord (take 8 bs) (take-AreBytes 8 bs h) (length-take 8 bs (omega arith)),
  le_words-AreWords n (drop 8 bs) (drop-AreBytes 8 bs h) (omega (arith, length-drop 8 bs)),
)

pub le_words_cancel :
    (n : ℕ) (xs ys : List ℕ)
    → AreBytes xs
    → AreBytes ys
    → length xs ≡ 8 * n
    → length ys ≡ 8 * n
    → le_words n xs ≡ le_words n ys
    → xs ≡ ys
le_words_cancel zero [] [] h k p q e = refl
le_words_cancel zero [] (y ∷ ys) h k p q e = absurd (omega arith)
le_words_cancel zero (x ∷ xs) ys h k p q e = absurd (omega arith)
le_words_cancel (suc n) xs ys h k p q e =
    let lx = length-take 8 xs (omega arith) in
    let ly = length-take 8 ys (omega arith) in
    let front : take 8 xs ≡ take 8 ys =
      le_value_cancel (take 8 xs) (take 8 ys) (take-AreBytes 8 xs h) (take-AreBytes 8 ys k)
        (lx ∙ sym ly) cc in
    let back : drop 8 xs ≡ drop 8 ys =
      le_words_cancel n (drop 8 xs) (drop 8 ys) (drop-AreBytes 8 xs h) (drop-AreBytes 8 ys k)
        (omega (arith, length-drop 8 xs)) (omega (arith, length-drop 8 ys)) cc in
    sym (take-drop 8 xs)
    ∙ (ap (λ t. t ++ drop 8 xs) front ∙ (ap (λ t. take 8 ys ++ t) back ∙ take-drop 8 ys))
