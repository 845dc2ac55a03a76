-- ===== src/Xdr/De/Visit.antt =====
-- `serde::Deserializer for &mut Deserializer`: a visitor's method is an argument, a visitor that
-- goes on reading is an action.
use truenas_ros_utils.Prelude.{
  ℕ, ◌-◌, Bool, ◌&&◌, ◌||◌, Option, none, some, List, ltb, ◌==◌, if◌then◌else◌, Result, ok, err,
  map_ok,
}
use truenas_ros_utils.Prelude.Exec.{Exec, raise, lift, ◌>>=◌, ◌>>◌}
use truenas_ros_utils.Xdr.Error.{Error, range, unsupported}
use truenas_ros_utils.Xdr.Signed.{ℤ, to_signed, try_from, i8_limit, i16_limit, i32_limit, i64_limit}
use truenas_ros_utils.Xdr.De.State.{
  Deserializer, De, descend, ascend, read_u32, read_u64, read_opaque, read_bool, read_str,
}

-- The code points that are a `char`: all but the surrogates.
unfoldable pub is_char : ℕ → Bool
is_char w = ltb w 0xd800 || (ltb 0xdfff w && ltb w 0x110000)

-- `SeqReader` holds the decoder while a visitor reads elements.
pub record SeqReader : Type 0 where
  pub de : Deserializer
  pub remaining : ℕ

abbrev pub Seq : Type 0 → Type 0
Seq A = Exec Error SeqReader A

module _ {A : Type 0} where
  -- `self.seq(remaining)`, handed to the visitor's `visit_seq`.
  unfoldable pub seq : ℕ → Seq A → De A
  seq n visit d = let r = visit (record { de = d; remaining = n }) in (r.0, r.1.de)

  -- `self.descend()?; let out = …; self.ascend(); out`
  unfoldable pub nested : De A → De A
  nested m = descend >> λ d. let r = m d in (r.0, ascend r.1)

  unfoldable pub next_element_seed : De A → Seq (Option A)
  next_element_seed seed r =
      if r.remaining == 0
      then (ok none, r)
      else (let out = seed r.de in
          (map_ok some out.0, record { de = out.1; remaining = r.remaining - 1 }))

  unfoldable pub deserialize_any : De A
  deserialize_any = raise (unsupported "self-describing decoding")

  unfoldable pub deserialize_bool : (Bool → Result Error A) → De A
  deserialize_bool visit_bool = do b ← read_bool; lift (visit_bool b)

  -- `try_from(w).map_err(|_| Error::Range)?`
  abbrev in_range : {B : Type 0} → Option B → (B → Result Error A) → Result Error A
  in_range none visit = err range
  in_range (some b) visit = visit b

  unfoldable pub deserialize_i8 : (ℤ → Result Error A) → De A
  deserialize_i8 visit_i8 = do
    w ← read_u32
    lift (in_range (try_from i8_limit (to_signed i32_limit w)) visit_i8)

  unfoldable pub deserialize_i16 : (ℤ → Result Error A) → De A
  deserialize_i16 visit_i16 = do
    w ← read_u32
    lift (in_range (try_from i16_limit (to_signed i32_limit w)) visit_i16)

  unfoldable pub deserialize_i32 : (ℤ → Result Error A) → De A
  deserialize_i32 visit_i32 = do w ← read_u32; lift (visit_i32 (to_signed i32_limit w))

  unfoldable pub deserialize_i64 : (ℤ → Result Error A) → De A
  deserialize_i64 visit_i64 = do w ← read_u64; lift (visit_i64 (to_signed i64_limit w))

  unfoldable pub deserialize_u8 : (ℕ → Result Error A) → De A
  deserialize_u8 visit_u8 = do w ← read_u32; lift (if ltb w 256 then visit_u8 w else err range)

  unfoldable pub deserialize_u16 : (ℕ → Result Error A) → De A
  deserialize_u16 visit_u16 = do w ← read_u32; lift (if ltb w 65536 then visit_u16 w else err range)

  unfoldable pub deserialize_u32 : (ℕ → Result Error A) → De A
  deserialize_u32 visit_u32 = do w ← read_u32; lift (visit_u32 w)

  unfoldable pub deserialize_u64 : (ℕ → Result Error A) → De A
  deserialize_u64 visit_u64 = do w ← read_u64; lift (visit_u64 w)

  -- A float is its bit pattern.
  unfoldable pub deserialize_f32 : (ℕ → Result Error A) → De A
  deserialize_f32 visit_f32 = do w ← read_u32; lift (visit_f32 w)

  unfoldable pub deserialize_f64 : (ℕ → Result Error A) → De A
  deserialize_f64 visit_f64 = do w ← read_u64; lift (visit_f64 w)

  -- A `char` is its code point.
  unfoldable pub deserialize_char : (ℕ → Result Error A) → De A
  deserialize_char visit_char = do
    w ← read_u32
    lift (if is_char w then visit_char w else err range)

  unfoldable pub deserialize_str : (List ℕ → Result Error A) → De A
  deserialize_str visit_borrowed_str = do s ← read_str; lift (visit_borrowed_str s)

  unfoldable pub deserialize_string : (List ℕ → Result Error A) → De A
  deserialize_string visit_str = do s ← read_str; lift (visit_str s)

  unfoldable pub deserialize_bytes : (List ℕ → Result Error A) → De A
  deserialize_bytes visit_borrowed_bytes = do bytes ← read_opaque; lift (visit_borrowed_bytes bytes)

  unfoldable pub deserialize_byte_buf : (List ℕ → Result Error A) → De A
  deserialize_byte_buf visit_byte_buf = do bytes ← read_opaque; lift (visit_byte_buf bytes)

  unfoldable pub deserialize_option : Result Error A → De A → De A
  deserialize_option visit_none visit_some = do
    present ← read_bool
    if present then nested visit_some else lift visit_none

  unfoldable pub deserialize_unit : Result Error A → De A
  deserialize_unit visit_unit = lift visit_unit
