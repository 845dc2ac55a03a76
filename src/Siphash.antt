-- ===== src/Siphash.antt =====
-- truenas_siphash/src/lib.rs
use Prim.Native.Nat.{bit_xor}
use truenas_ros_utils.Prelude.{
  ℕ, zero, suc, ◌+◌, ◌*◌, ◌/◌, ◌%◌, ◌-◌, List, [], ◌∷◌, ◌++◌, length, take, drop, replicate,
}
use truenas_ros_utils.Prelude.Bytes.{u64_mod}
pub mod Round
pub mod Message
pub mod Distinct
pub mod Digest
pub mod Keys
pub mod Paper

-- `[u64; 4]`
pub record Words : Type 0 where
  pub v0 : ℕ
  pub v1 : ℕ
  pub v2 : ℕ
  pub v3 : ℕ

-- `INITIAL`
abbrev pub initial : Words
initial = record {
  v0 = 0x736f6d6570736575;
  v1 = 0x646f72616e646f6d;
  v2 = 0x6c7967656e657261;
  v3 = 0x7465646279746573;
}

abbrev pub compression_rounds : ℕ
compression_rounds = 2

abbrev pub finalization_rounds : ℕ
finalization_rounds = 4

pub record Key : Type 0 where
  pub state : Words

-- `u64::wrapping_add`
unfoldable pub wrapping_add : ℕ → ℕ → ℕ
wrapping_add a b = (a + b) % u64_mod

-- `u64::rotate_left`: `above` is 2 ^ n and `below` is 2 ^ (64 - n).
unfoldable pub rotate_left : ℕ → ℕ → ℕ → ℕ
rotate_left above below v = v * above % u64_mod + v / below

-- `u64::from_le_bytes`, for an array of any length.
unfoldable pub le_value : List ℕ → ℕ
le_value [] = 0
le_value (b ∷ bs) = b + 256 * le_value bs

unfoldable pub sip_round : Words → Words
unfolding wrapping_add rotate_left
sip_round v =
    let v = record v { v0 = wrapping_add v.v0 v.v1 } in
    let v = record v { v2 = wrapping_add v.v2 v.v3 } in
    let v = record v { v1 = rotate_left 8192 2251799813685248 v.v1 } in
    let v = record v { v3 = rotate_left 65536 281474976710656 v.v3 } in
    let v = record v { v1 = bit_xor v.v1 v.v0 } in
    let v = record v { v3 = bit_xor v.v3 v.v2 } in
    let v = record v { v0 = rotate_left 4294967296 4294967296 v.v0 } in
    let v = record v { v2 = wrapping_add v.v2 v.v1 } in
    let v = record v { v0 = wrapping_add v.v0 v.v3 } in
    let v = record v { v1 = rotate_left 131072 140737488355328 v.v1 } in
    let v = record v { v3 = rotate_left 2097152 8796093022208 v.v3 } in
    let v = record v { v1 = bit_xor v.v1 v.v2 } in
    let v = record v { v3 = bit_xor v.v3 v.v0 } in
    record v { v2 = rotate_left 4294967296 4294967296 v.v2 }

-- `for _ in 0..n { sip_round(v); }`
unfoldable pub rounds : ℕ → Words → Words
unfolding sip_round
rounds zero v = v
rounds (suc n) v = rounds n (sip_round v)

unfoldable pub compress : Words → ℕ → Words
unfolding rounds
compress v m =
    let v = record v { v3 = bit_xor v.v3 m } in
    let v = rounds compression_rounds v in record v { v0 = bit_xor v.v0 m }

unfoldable pub finalize : Words → Words
unfolding rounds
finalize v = let v = record v { v2 = bit_xor v.v2 0xff } in rounds finalization_rounds v

-- `tail` has at most seven bytes; `len as u8`.
unfoldable pub last_word : List ℕ → ℕ → ℕ
unfolding le_value
last_word tail len = le_value (tail ++ (replicate (7 - length tail) 0 ++ (len % 256 ∷ [])))

-- The `Key::new` of 16 bytes.
unfoldable pub new : List ℕ → Key
unfolding le_value
new bytes =
    let k0 = le_value (take 8 bytes) in
    let k1 = le_value (drop 8 bytes) in
    record {
      state = record {
        v0 = bit_xor k0 initial.v0;
        v1 = bit_xor k1 initial.v1;
        v2 = bit_xor k0 initial.v2;
        v3 = bit_xor k1 initial.v3;
      };
    }

-- The loop over the chunks of `data.as_chunks::<8>()`, then the call for its tail.
unfoldable pub absorb : ℕ → Words → List ℕ → Words
unfolding compress last_word le_value
absorb len v (b0 ∷ b1 ∷ b2 ∷ b3 ∷ b4 ∷ b5 ∷ b6 ∷ b7 ∷ rest) =
    absorb len (compress v (le_value (b0 ∷ b1 ∷ b2 ∷ b3 ∷ b4 ∷ b5 ∷ b6 ∷ b7 ∷ []))) rest
absorb len v tail = compress v (last_word tail len)

unfoldable pub hash : Key → List ℕ → ℕ
unfolding absorb finalize
hash key bytes =
    let v = finalize (absorb (length bytes) key.state bytes) in
    bit_xor (bit_xor (bit_xor v.v0 v.v1) v.v2) v.v3
