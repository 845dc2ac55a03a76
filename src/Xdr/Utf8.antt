-- ===== src/Xdr/Utf8.antt =====
-- What `std::str::from_utf8` accepts: RFC 3629, without surrogates and overlong forms.
use truenas_ros_utils.Prelude.{
  ℕ, zero, suc, Bool, false, ◌&&◌, Option, none, some, List, [], ◌∷◌, ltb, leb, ◌==◌, if◌then◌else◌,
}

abbrev between : ℕ → ℕ → ℕ → Bool
between lo hi b = leb lo b && leb b hi

-- What a first byte asks for: how many bytes follow, and the bounds of the next one.
pub record Tail : Type 0 where
  pub need : ℕ
  pub lo : ℕ
  pub hi : ℕ

abbrev tail_of : ℕ → ℕ → ℕ → Option Tail
tail_of need lo hi = some (record { need = need; lo = lo; hi = hi })

pub lead : ℕ → Option Tail
lead b =
    if ltb b 0x80
    then tail_of 0 0 0
    else if between 0xc2 0xdf b
    then tail_of 1 0x80 0xbf
    else if b == 0xe0
    then tail_of 2 0xa0 0xbf
    else if b == 0xed
    then tail_of 2 0x80 0x9f
    else if between 0xe1 0xef b
    then tail_of 2 0x80 0xbf
    else if b == 0xf0
    then tail_of 3 0x90 0xbf
    else if between 0xf1 0xf3 b
    then tail_of 3 0x80 0xbf
    else if b == 0xf4
    then tail_of 3 0x80 0x8f
    else none

next_tail : Tail → ℕ → Option Tail
unfolding lead
next_tail t b = elim t.need [
  | zero ↦ lead b
  | suc n ↦ if between t.lo t.hi b then tail_of n 0x80 0xbf else none
]

scan : Tail → List ℕ → Bool
unfolding next_tail
scan t [] = t.need == 0
scan t (b ∷ bs) = elim (next_tail t b) [ none ↦ false | some u ↦ scan u bs ]

-- Whether the bytes are UTF-8.
unfoldable pub is_utf8 : List ℕ → Bool
unfolding scan
is_utf8 bs = scan (record { need = 0; lo = 0; hi = 0 }) bs
