-- ===== src/Jsonrpc/Frame.antt =====
-- truenas_jsonrpc/src/frame.rs: where the first message of a byte stream ends.
pub mod Stable
pub mod Nested
use truenas_ros_utils.Prelude.{
  ℕ, suc, ◌+◌, ◌-◌, Bool, true, false, not, ◌&&◌, ◌||◌, Option, none, some, List, [], ◌∷◌, ◌==◌,
  if◌then◌else◌, length, drop, get_elem?,
}

pub data Frame : Type 0 where
  complete : ℕ → Frame
  incomplete invalid : Frame

-- `b' ' | b'\t' | b'\n' | b'\r'`
unfoldable pub is_ws : ℕ → Bool
is_ws byte = byte == 32 || (byte == 9 || (byte == 10 || byte == 13))

-- `b'{' | b'['` and `b'}' | b']'`
abbrev pub is_opener : ℕ → Bool
is_opener byte = byte == 0x7b || byte == 0x5b

abbrev pub is_closer : ℕ → Bool
is_closer byte = byte == 0x7d || byte == 0x5d

abbrev pub quote : ℕ
quote = 0x22

abbrev pub backslash : ℕ
backslash = 0x5c

-- The variables of the loop over the bytes.
pub record Scan : Type 0 where
  pub depth : ℕ
  pub in_string : Bool
  pub escaped : Bool

-- `while i < buf.len() && is_ws(buf[i])`: the `i` that it ends with.
unfoldable pub leading_ws : List ℕ → ℕ
unfolding is_ws
leading_ws [] = 0
leading_ws (byte ∷ rest) = let more = suc (leading_ws rest) in if is_ws byte then more else 0

-- One byte of the loop.
unfoldable pub step : Scan → ℕ → Scan
step s byte =
    if s.in_string
    then (if s.escaped
        then record s { escaped = false }
        else if byte == backslash
        then record s { escaped = true }
        else if byte == quote
        then record s { in_string = false }
        else s)
    else if byte == quote
    then record s { in_string = true }
    else if is_opener byte
    then record s { depth = s.depth + 1 }
    else if is_closer byte
    then record s { depth = s.depth - 1 }
    else s

-- The byte closes the message: `depth -= 1; if depth == 0 { return … }`.
unfoldable pub closes : Scan → ℕ → Bool
closes s byte =
    not s.in_string
    && (not (byte == quote) && (not (is_opener byte) && (is_closer byte && s.depth - 1 == 0)))

unfoldable pub scan : List ℕ → ℕ → Scan → Frame
unfolding step closes
scan [] at s = incomplete
scan (byte ∷ rest) at s =
    let more = scan rest (at + 1) (step s byte) in if closes s byte then complete (at + 1) else more

abbrev pub start : Scan
start = record { depth = 0; in_string = false; escaped = false }

-- The two tests before the loop, on `buf.get(i)`.
unfoldable pub scan_from : List ℕ → ℕ → Frame
unfolding scan
scan_from [] i = incomplete
scan_from (byte ∷ rest) i = if is_opener byte then scan (byte ∷ rest) i start else invalid

unfoldable pub frame : List ℕ → Frame
unfolding leading_ws scan_from
frame buf = let i = leading_ws buf in scan_from (drop i buf) i
