-- ===== src/Siphash/Distinct.antt =====
-- Which messages have the same words, and which keys the same state: none but equal ones.
use truenas_ros_utils.Prelude.{
  ℕ, zero, suc, ◌+◌, ◌-◌, ◌*◌, ◌/◌, ◌%◌, ◌≡◌, refl, ap, ◌∙◌, sym, arith, List, [], ◌∷◌, ◌++◌,
  length, take, drop, replicate, All, All-append, length-append, length-replicate, take-append,
  append_assoc,
}
use truenas_ros_utils.Prelude.Bytes.{AreBytes}
use truenas_ros_utils.Siphash.Round.{IsWord}
use truenas_ros_utils.Siphash.Message.{parse, ending, le_words, le_words_cancel, le_words-AreWords}

-- The last element, or the given one.
abbrev last : ℕ → List ℕ → ℕ
last d [] = d
last d (x ∷ xs) = last x xs

last-append : (d : ℕ) (xs : List ℕ) (x : ℕ) → last d (xs ++ (x ∷ [])) ≡ x
last-append d [] x = refl
last-append d (y ∷ xs) x = last-append y xs x

last-ending : (m : List ℕ) → last 0 (m ++ ending (length m)) ≡ length m % 256
last-ending m =
    let len = length m in
    ap (last 0) (sym (append_assoc m (replicate (7 - len % 8) 0) (len % 256 ∷ [])))
    ∙ last-append 0 (m ++ replicate (7 - len % 8) 0) (len % 256)

replicate-AreBytes : (n : ℕ) → AreBytes (replicate n 0)
replicate-AreBytes zero = tt
replicate-AreBytes (suc n) = (omega arith, replicate-AreBytes n)

padded-AreBytes : (m : List ℕ) → AreBytes m → AreBytes (m ++ ending (length m))
padded-AreBytes m h =
    let len = length m in
    All-append _ m (ending len) h (
      All-append _ (replicate (7 - len % 8) 0) (len % 256 ∷ []) (replicate-AreBytes (7 - len % 8))
        (omega arith, tt))

length-padded : (m : List ℕ) → length (m ++ ending (length m)) ≡ 8 * (length m / 8 + 1)
length-padded m =
    let len = length m in
    omega (
      arith,
      length-append m (ending len),
      length-append (replicate (7 - len % 8) 0) (len % 256 ∷ []),
      length-replicate {A = ℕ} (7 - len % 8) 0,
    )

length-le_words : (n : ℕ) (bs : List ℕ) → length (le_words n bs) ≡ n
length-le_words zero bs = refl
length-le_words (suc n) bs = ap suc (length-le_words n (drop 8 bs))

pub parse-AreWords : (m : List ℕ) → AreBytes m → All IsWord (parse m)
unfolding parse
parse-AreWords m h =
    le_words-AreWords (length m / 8 + 1) (m ++ ending (length m)) (padded-AreBytes m h)
      (omega (arith, length-padded m))

pub parse_cancel : (m n : List ℕ) → AreBytes m → AreBytes n → parse m ≡ parse n → m ≡ n
unfolding parse
parse_cancel m n h k e =
    let count : Path ℕ (length m / 8 + 1) (length n / 8 + 1) =
      sym (length-le_words _ (m ++ ending (length m)))
      ∙ (ap length e ∙ length-le_words _ (n ++ ending (length n))) in
    let padded : m ++ ending (length m) ≡ n ++ ending (length n) =
      le_words_cancel (length m / 8 + 1) _ _ (padded-AreBytes m h) (padded-AreBytes n k)
        (length-padded m) (omega (arith, length-padded n, count))
        (e ∙ ap (λ c. le_words c (n ++ ending (length n))) (sym count)) in
    let same : length m % 256 ≡ length n % 256 =
      sym (last-ending m) ∙ (ap (last 0) padded ∙ last-ending n) in
    let len : length m ≡ length n = omega arith in
    sym (take-append m (ending (length m)))
    ∙ (ap (take (length m)) padded
        ∙ (ap (λ l. take l (n ++ ending (length n))) len ∙ take-append n (ending (length n))))
