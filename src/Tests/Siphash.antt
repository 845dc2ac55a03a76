-- ===== src/Tests/Siphash.antt =====
-- truenas_siphash: Appendix A of the paper, and section 2's examples.
use truenas_ros_utils.Prelude.{ℕ, List, [], ◌∷◌, ◌≡◌, ◌≢◌, refl, ap, arith, length}
use truenas_ros_utils.Prelude.Bytes.{AreBytes}
use truenas_ros_utils.Siphash.{new, hash, last_word, initial, absorb, finalize, sip_round}
use truenas_ros_utils.Siphash.Round.{AreWords, sip_unround, sip_unround-sip_round}
use truenas_ros_utils.Siphash.Message.{parse, compress_all}
use truenas_ros_utils.Siphash.Digest.{absorb_distinct}
use truenas_ros_utils.Siphash.Paper.{siphash_2_4, hash-siphash_2_4}
use truenas_ros_utils.Siphash.Keys.{finalize_distinct}

abbrev key_bytes : List ℕ
key_bytes = 0 ∷ 1 ∷ 2 ∷ 3 ∷ 4 ∷ 5 ∷ 6 ∷ 7 ∷ 8 ∷ 9 ∷ 10 ∷ 11 ∷ 12 ∷ 13 ∷ 14 ∷ 15 ∷ []

abbrev message : List ℕ
message = 0 ∷ 1 ∷ 2 ∷ 3 ∷ 4 ∷ 5 ∷ 6 ∷ 7 ∷ 8 ∷ 9 ∷ 10 ∷ 11 ∷ 12 ∷ 13 ∷ 14 ∷ []

hash_of_appendix_a : hash (new key_bytes) message ≡ 0xa129ca6149be45e5
unfolding hash new
hash_of_appendix_a = refl

last_word_of_one : last_word (0xab ∷ []) 1 ≡ 0x01000000000000ab
unfolding last_word
last_word_of_one = refl

last_word_wraps : last_word (1 ∷ 2 ∷ 3 ∷ []) 259 ≡ 0x0300000000030201
unfolding last_word
last_word_wraps = refl

abbrev other_key : List ℕ
other_key = 1 ∷ 1 ∷ 2 ∷ 3 ∷ 4 ∷ 5 ∷ 6 ∷ 7 ∷ 8 ∷ 9 ∷ 10 ∷ 11 ∷ 12 ∷ 13 ∷ 14 ∷ 15 ∷ []

abbrev first : List ℕ → ℕ
first [] = 0
first (b ∷ bs) = b

abbrev short : List ℕ
short = 7 ∷ 0 ∷ []

abbrev shorter : List ℕ
shorter = 7 ∷ []

key_bytes-AreBytes : AreBytes key_bytes
key_bytes-AreBytes = omega arith

other_key-AreBytes : AreBytes other_key
other_key-AreBytes = omega arith

message-AreBytes : AreBytes message
message-AreBytes = omega arith

hash-siphash_2_4_example : hash (new key_bytes) message ≡ siphash_2_4 key_bytes message
hash-siphash_2_4_example = hash-siphash_2_4 key_bytes message

absorb_distinct_example :
    (absorb (length short) (new key_bytes).state short
      ≡ compress_all (new key_bytes).state (parse short))
    × (absorb (length shorter) (new key_bytes).state shorter
        ≡ compress_all (new key_bytes).state (parse shorter))
    × (parse short ≢ parse shorter)
absorb_distinct_example =
    absorb_distinct (new key_bytes).state short shorter (omega arith) (omega arith)
      (λ e. omega (arith, ap length e))

finalize_distinct_example :
    finalize (absorb (length message) (new key_bytes).state message)
    ≢ finalize (absorb (length message) (new other_key).state message)
finalize_distinct_example =
    finalize_distinct key_bytes other_key message key_bytes-AreBytes other_key-AreBytes refl refl
      message-AreBytes (λ e. omega (arith, ap first e))

sip_unround-sip_round_example :
    AreWords (sip_round initial) × (sip_unround (sip_round initial) ≡ initial)
sip_unround-sip_round_example = sip_unround-sip_round initial (omega arith)
