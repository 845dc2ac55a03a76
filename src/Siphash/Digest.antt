-- ===== src/Siphash/Digest.antt =====
-- The whole hash: the words of the message one after another, the bounds, and what a key decides.
use truenas_ros_utils.Prelude.{
  ℕ, ◌≡◌, ◌≢◌, arith, List, [], ◌∷◌, length, take, drop, All, length-take, length-drop,
}
use truenas_ros_utils.Prelude.Bytes.{AreBytes}
use truenas_ros_utils.Siphash.{Words, new, le_value, absorb, compress}
use truenas_ros_utils.Siphash.Round.{IsWord, AreWords, xor-IsWord, compress-AreWords}
use truenas_ros_utils.Siphash.Message.{
  parse, le_value-IsWord, take-AreBytes, drop-AreBytes, absorb-parse, compress_all,
}
use truenas_ros_utils.Siphash.Distinct.{parse-AreWords, parse_cancel}

-- Two different messages are absorbed as two different sequences of words.
pub absorb_distinct :
    (v : Words) (m n : List ℕ)
    → AreBytes m
    → AreBytes n
    → m ≢ n
    → (absorb (length m) v m ≡ compress_all v (parse m))
      × (absorb (length n) v n ≡ compress_all v (parse n))
      × (parse m ≢ parse n)
absorb_distinct v m n h k ne =
    (absorb-parse v m, absorb-parse v n, λ e. ne (parse_cancel m n h k e))

compress_all-AreWords :
    (v : Words) (ws : List ℕ) → AreWords v → All IsWord ws → AreWords (compress_all v ws)
compress_all-AreWords v [] h k = h
compress_all-AreWords v (w ∷ ws) h k =
    compress_all-AreWords (compress v w) ws (compress-AreWords v w h k.0) k.1

low-IsWord :
    (bytes : List ℕ) → AreBytes bytes → length bytes ≡ 16 → IsWord (le_value (take 8 bytes))
low-IsWord bytes h k =
    le_value-IsWord (take 8 bytes) (take-AreBytes 8 bytes h) (length-take 8 bytes (omega arith))

high-IsWord :
    (bytes : List ℕ) → AreBytes bytes → length bytes ≡ 16 → IsWord (le_value (drop 8 bytes))
high-IsWord bytes h k =
    le_value-IsWord (drop 8 bytes) (drop-AreBytes 8 bytes h) (omega (arith, length-drop 8 bytes))

pub new-AreWords :
    (bytes : List ℕ) → AreBytes bytes → length bytes ≡ 16 → AreWords ((new bytes).state)
unfolding new
new-AreWords bytes h k =
    let l = low-IsWord bytes h k in
    let r = high-IsWord bytes h k in
    (
      xor-IsWord _ _ l (omega arith),
      xor-IsWord _ _ r (omega arith),
      xor-IsWord _ _ l (omega arith),
      xor-IsWord _ _ r (omega arith),
    )

pub absorb-AreWords :
    (v : Words) (m : List ℕ) → AreWords v → AreBytes m → AreWords (absorb (length m) v m)
absorb-AreWords v m h k =
    rw (absorb-parse v m) (compress_all-AreWords v (parse m) h (parse-AreWords m k))
