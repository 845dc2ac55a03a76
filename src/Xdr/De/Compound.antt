-- ===== src/Xdr/De/Compound.antt =====
-- `serde::Deserializer for &mut Deserializer`, the compounds, and the variants of `EnumReader`.
use truenas_ros_utils.Prelude.{
  ℕ, ◌-◌, ◌*◌, ◌/◌, min, Bool, true, false, none, some, List, ltb, if◌then◌else◌, length, take,
  drop, Result, ok, err,
}
use truenas_ros_utils.Prelude.Exec.{pure, raise, lift, gets, ◌>>=◌, ◌>>◌}
use truenas_ros_utils.Xdr.Error.{Error, eof, unsupported}
use truenas_ros_utils.Xdr.Unit4.{
  Name, sentinel_fixed, sentinel_bounded, sentinel_array_ref, plain, usize_max, bytes_per_xdr_unit,
}
use truenas_ros_utils.Xdr.De.State.{De, remaining, read_u32, check_bound, read_fixed}
use truenas_ros_utils.Xdr.De.Visit.{Seq, seq, nested}

set_fixed_pending : De Unit
set_fixed_pending d = (ok tt, record d { fixed_pending = true })

-- `std::mem::take(&mut self.fixed_pending)`
take_fixed_pending : De Bool
take_fixed_pending d = (ok d.fixed_pending, record d { fixed_pending = false })

set_bound_pending : ℕ → De Unit
set_bound_pending max d = (ok tt, record d { bound_pending = some max })

module _ {A : Type 0} where
  -- The input from the marked start to the current position.
  array_span : (List ℕ → Result Error A) → De A
  array_span visit_borrowed_bytes d = elim d.span_start [
    | none ↦ (err (unsupported "the span of an array that was not marked"), d)
    | some start ↦ (visit_borrowed_bytes (take (d.pos - start) (drop start d.input)), d)
  ]

  -- The visitor has a method for the span and one for the value of a plain newtype.
  unfoldable pub deserialize_newtype_struct : Name → (List ℕ → Result Error A) → De A → De A
  unfolding set_fixed_pending array_span
  deserialize_newtype_struct sentinel_array_ref visit_borrowed_bytes visit_newtype_struct =
      array_span visit_borrowed_bytes
  deserialize_newtype_struct sentinel_fixed visit_borrowed_bytes visit_newtype_struct =
      set_fixed_pending >> nested visit_newtype_struct
  deserialize_newtype_struct sentinel_bounded visit_borrowed_bytes visit_newtype_struct =
      nested visit_newtype_struct
  deserialize_newtype_struct (plain name) visit_borrowed_bytes visit_newtype_struct =
      nested visit_newtype_struct

  unfoldable pub deserialize_seq : Seq A → De A
  deserialize_seq visit_seq = do
    count ← read_u32
    check_bound count
    rem ← gets (λ d. length (remaining d))
    if ltb (rem / bytes_per_xdr_unit) count
        then raise (eof (min (count * bytes_per_xdr_unit) usize_max - rem))
        else nested (seq count visit_seq)

  unfoldable pub deserialize_tuple : ℕ → (List ℕ → Result Error A) → Seq A → De A
  unfolding take_fixed_pending
  deserialize_tuple len visit_borrowed_bytes visit_seq = do
    fixed ← take_fixed_pending
    if fixed
        then (do bytes ← read_fixed len; lift (visit_borrowed_bytes bytes))
        else nested (seq len visit_seq)

  -- `self.span_start.replace(self.pos)`, the visit, and the outer start put back.
  marked : De A → De A
  marked m d =
      let r = m (record d { span_start = some d.pos }) in
      (r.0, record r.1 { span_start = d.span_start })

  unfoldable pub deserialize_tuple_struct : Name → ℕ → De A → Seq A → De A
  unfolding set_bound_pending marked
  deserialize_tuple_struct sentinel_bounded len visit_newtype_struct visit_seq =
      nested (set_bound_pending len >> visit_newtype_struct)
  deserialize_tuple_struct sentinel_array_ref len visit_newtype_struct visit_seq =
      nested (marked (seq len visit_seq))
  deserialize_tuple_struct sentinel_fixed len visit_newtype_struct visit_seq =
      nested (seq len visit_seq)
  deserialize_tuple_struct (plain name) len visit_newtype_struct visit_seq =
      nested (seq len visit_seq)

  unfoldable pub deserialize_map : De A
  deserialize_map = raise (unsupported "maps")

  -- The codec uses the number of the fields alone.
  unfoldable pub deserialize_struct : ℕ → Seq A → De A
  deserialize_struct fields visit_seq = nested (seq fields visit_seq)

  -- `visit_enum` is handed the index that `EnumReader` holds.
  unfoldable pub deserialize_enum : (ℕ → De A) → De A
  deserialize_enum visit_enum = do tag ← read_u32; nested (visit_enum tag)

  -- The methods of `EnumReader`.
  unfoldable pub variant_seed : (ℕ → Result Error A) → ℕ → De A
  variant_seed seed variant_index = lift (seed variant_index)

  unfoldable pub newtype_variant_seed : De A → De A
  newtype_variant_seed seed = seed

  unfoldable pub tuple_variant : ℕ → Seq A → De A
  tuple_variant len visit_seq = seq len visit_seq

  unfoldable pub struct_variant : ℕ → Seq A → De A
  struct_variant fields visit_seq = seq fields visit_seq

unfoldable pub unit_variant : De Unit
unit_variant = pure tt
