-- ===== src/Xdr/De.antt =====
-- The decoder, truenas_xdr/src/de.rs, and the functions of truenas_xdr/src/lib.rs that run it.
pub mod State
pub mod Visit
pub mod Compound
use truenas_ros_utils.Prelude.{List, [], ◌∷◌, ℕ, length, Result, ok, err, map_ok}
use truenas_ros_utils.Xdr.Error.{Error, trailing_bytes}
use truenas_ros_utils.Xdr.Strict.{Strictness, lenient}
use State.{De, new, remaining}

module _ {A : Type 0} where
  -- `T::deserialize` is the argument `target`.
  unfoldable pub from_prefix_with : De A → List ℕ → Strictness → Result Error (A × List ℕ)
  from_prefix_with target bytes mode =
      let r = target (new bytes mode) in map_ok (λ value. (value, remaining r.1)) r.0

  unfoldable pub from_prefix : De A → List ℕ → Result Error (A × List ℕ)
  unfolding from_prefix_with
  from_prefix target bytes = from_prefix_with target bytes lenient

  -- `rest.is_empty()`, behind a `?`.
  abbrev whole : Result Error (A × List ℕ) → Result Error A
  whole (ok (value, [])) = ok value
  whole (ok (value, b ∷ rest)) = err (trailing_bytes (length (b ∷ rest)))
  whole (err e) = err e

  unfoldable pub from_bytes_with : De A → List ℕ → Strictness → Result Error A
  unfolding from_prefix_with
  from_bytes_with target bytes mode = whole (from_prefix_with target bytes mode)

  unfoldable pub from_bytes : De A → List ℕ → Result Error A
  unfolding from_bytes_with
  from_bytes target bytes = from_bytes_with target bytes lenient
