-- ===== src/Xdr/De/State.antt =====
-- The state of the decoder and its readers: `Deserializer` and its own methods.
use truenas_ros_utils.Prelude.{
  ℕ, ◌+◌, ◌-◌, min, Bool, true, false, not, ◌&&◌, Option, none, some, List, ltb, ◌==◌,
  if◌then◌else◌, length, any, take, drop, ok, err,
}
use truenas_ros_utils.Prelude.Bytes.{be_value}
use truenas_ros_utils.Prelude.Exec.{Exec, pure, raise, gets, ◌>>=◌, ◌>>◌}
use truenas_ros_utils.Xdr.Error.{
  Error, eof, non_zero_padding, embedded_nul, invalid_bool, recursion_limit, too_long,
}
use truenas_ros_utils.Xdr.Strict.{Strictness, is_strict}
use truenas_ros_utils.Xdr.Unit4.{usize_max, pad4}
use truenas_ros_utils.Xdr.Utf8.{is_utf8}

pub record Deserializer : Type 0 where
  pub input : List ℕ
  pub pos : ℕ
  pub mode : Strictness
  pub fixed_pending : Bool
  pub bound_pending : Option ℕ
  pub span_start : Option ℕ
  pub depth : ℕ
  pub max_depth : ℕ

-- A method on `&mut Deserializer`.
abbrev pub De : Type 0 → Type 0
De A = Exec Error Deserializer A

abbrev pub default_max_depth : ℕ
default_max_depth = 128

unfoldable pub new : List ℕ → Strictness → Deserializer
new input mode = record {
  input = input;
  pos = 0;
  mode = mode;
  fixed_pending = false;
  bound_pending = none;
  span_start = none;
  depth = 0;
  max_depth = default_max_depth;
}

unfoldable pub with_max_depth : Deserializer → ℕ → Deserializer
with_max_depth d max_depth = record d { max_depth = max_depth }

unfoldable pub remaining : Deserializer → List ℕ
remaining d = drop d.pos d.input

unfoldable pub descend : De Unit
descend d =
    let d' = record d { depth = d.depth + 1 } in
    if ltb d'.max_depth d'.depth then (err (recursion_limit d'.max_depth), d') else (ok tt, d')

unfoldable pub ascend : Deserializer → Deserializer
ascend d = record d { depth = d.depth - 1 }

-- `take`: the sum saturates.
unfoldable pub take_bytes : ℕ → De (List ℕ)
take_bytes n d =
    let end = min (d.pos + n) usize_max in
    if ltb (length d.input) end
    then (err (eof (end - length d.input)), d)
    else (ok (take (end - d.pos) (drop d.pos d.input)), record d { pos = end })

unfoldable pub read_u32 : De ℕ
read_u32 = do b ← take_bytes 4; pure (be_value 0 b)

unfoldable pub read_u64 : De ℕ
read_u64 = do b ← take_bytes 8; pure (be_value 0 b)

unfoldable pub is_strict_mode : De Bool
is_strict_mode = gets (λ d. is_strict d.mode)

unfoldable pub read_pad : ℕ → De Unit
unfolding is_strict_mode
read_pad len =
    let p = pad4 len in
    if ltb 0 p
    then (do
      pad ← take_bytes p
      held ← is_strict_mode
      if held && any (λ b. not (b == 0)) pad then raise non_zero_padding else pure tt)
    else pure tt

-- The pending bound is taken whether or not the length passes.
unfoldable pub check_bound : ℕ → De Unit
check_bound len d =
    let d' = record d { bound_pending = none } in
    elim d.bound_pending [
      | none ↦ (ok tt, d')
      | some max ↦ if ltb max len then (err (too_long len max), d') else (ok tt, d')
    ]

unfoldable pub read_opaque : De (List ℕ)
read_opaque = do len ← read_u32; check_bound len; bytes ← take_bytes len; read_pad len; pure bytes

unfoldable pub read_fixed : ℕ → De (List ℕ)
read_fixed n = do bytes ← take_bytes n; read_pad n; pure bytes

unfoldable pub read_bool : De Bool
unfolding is_strict_mode
read_bool = do
  value ← read_u32
  held ← is_strict_mode
  if value == 0
      then pure false
      else if value == 1
      then pure true
      else if held
      then raise (invalid_bool value)
      else pure true

-- A `&str` is its bytes.
unfoldable pub read_str : De (List ℕ)
unfolding is_strict_mode
read_str = do
  bytes ← read_opaque
  held ← is_strict_mode
  if is_utf8 bytes
      then (if held && any (λ b. b == 0) bytes then raise embedded_nul else pure bytes)
      else raise Error.utf8
