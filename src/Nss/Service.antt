-- ===== src/Nss/Service.antt =====
-- The shared calls of truenas_nss/src/service.rs: the growing buffer, the classification of what a
-- module answers, and the lookups over all modules. A module is a parameter.
use Prim.Native.String.{String}
use truenas_ros_utils.Prelude.{
  ℕ, zero, suc, ◌*◌, max, Bool, true, false, not, ◌||◌, Option, some, none, List, [], ◌∷◌, ◌++◌,
  Result, ok, err, any, leb, ◌==◌, if◌then◌else◌,
}
use truenas_ros_utils.Prelude.Exec.{Exec, pure, ◌>>=◌}
use truenas_ros_utils.Xdr.Signed.{ℤ, pos, negsuc}
use truenas_ros_utils.Nss.Error.{
  NssStatus, try_again, not_found, success, from_raw, Error, call, is_unavail,
}

pub data Source : Type 0 where
  files sss winbind : Source

abbrev pub lookup_order : List Source
lookup_order = files ∷ sss ∷ winbind ∷ []

abbrev pub initial_buflen : ℕ
initial_buflen = 1024

-- `1 << 24`
abbrev pub max_buflen : ℕ
max_buflen = 16777216

-- `libc::ERANGE`
abbrev pub erange : ℕ
erange = 34

-- The one answer that asks for a larger buffer.
unfoldable pub asks_more : ℤ → ℤ → Bool
asks_more (negsuc (suc zero)) (pos errno) = errno == erange
asks_more _ _ = false

-- A buffer that doubles, from one if it is empty.
abbrev pub doubled : ℕ → ℕ
doubled len = max len 1 * 2

module _ {S : Type 0} (module_call : ℕ → S → (ℤ × ℤ) × S) where
  -- The `loop`, by the length of the buffer; `none` when the fuel is used up.
  unfoldable pub grow_and_call : ℕ → ℕ → S → Option ((ℤ × ℤ) × ℕ) × S
  unfolding asks_more
  grow_and_call zero len s = (none, s)
  grow_and_call (suc fuel) len s =
      let r = module_call len s in
      let again = grow_and_call fuel (doubled len) r.1 in
      if not (asks_more r.0.0 r.0.1) || leb max_buflen len then (some (r.0, len), r.1) else again

-- A lookup's answer, when there is no errno.
abbrev pub of_status : String → String → ℤ → Option NssStatus → Result Error Bool
of_status module_name op code (some not_found) = ok false
of_status module_name op code (some success) = ok true
of_status module_name op code _ = err (call module_name op code (pos 0))

unfoldable pub classify_lookup : String → String → ℤ → ℤ → Result Error Bool
unfolding from_raw
classify_lookup module_name op code (pos zero) = of_status module_name op code (from_raw code)
classify_lookup module_name op code errno = err (call module_name op code errno)

abbrev pub of_ent_status : String → String → ℤ → Option NssStatus → Result Error Bool
of_ent_status module_name op code (some try_again) = err (call module_name op code (pos 0))
of_ent_status module_name op code (some success) = ok true
of_ent_status module_name op code _ = ok false

unfoldable pub classify_ent : String → String → ℤ → ℤ → Result Error Bool
unfolding from_raw
classify_ent module_name op code (pos zero) = of_ent_status module_name op code (from_raw code)
classify_ent module_name op code errno = err (call module_name op code errno)

abbrev pub contains : List ℕ → ℕ → Bool
contains gids gid = any (λ g. g == gid) gids

-- `seen.insert(gid)`: whether it was new, and the set after.
abbrev pub insert : ℕ → List ℕ → Bool × List ℕ
insert gid seen = (not (contains seen gid), (if contains seen gid then seen else gid ∷ seen))

abbrev pub push_new : Bool → ℕ → List ℕ → List ℕ
push_new true gid out = gid ∷ out
push_new false gid out = out

-- The loop of `dedup_gids`.
unfoldable pub dedup : List ℕ → List ℕ → List ℕ
dedup seen [] = []
dedup seen (gid ∷ gids) =
    let inserted = insert gid seen in push_new inserted.0 gid (dedup inserted.1 gids)

unfoldable pub dedup_gids : List ℕ → List ℕ
unfolding dedup
dedup_gids gids = dedup [] gids

module _ {S : Type 0} (lookup : Source → Exec Error S (List ℕ)) where
  abbrev pub extend :
      Result Error (List ℕ) → (List ℕ → Exec Error S (List ℕ)) → List ℕ → Exec Error S (List ℕ)
  extend (ok gids) next all s = next (all ++ gids) s
  extend (err e) next all s = if is_unavail e then next all s else (err e, s)

  -- The loop of `fan_out_groups`.
  unfoldable pub union : List Source → List ℕ → Exec Error S (List ℕ)
  union [] all s = (ok all, s)
  union (source ∷ rest) all s = let r = lookup source s in extend r.0 (union rest) all r.1

  unfoldable pub fan_out_groups : ℕ → Exec Error S (List ℕ)
  unfolding union dedup_gids
  fan_out_groups gid = union lookup_order (gid ∷ []) >>= λ all. pure (dedup_gids all)

module _ {S T : Type 0} (lookup : Source → Exec Error S (Option T)) where
  abbrev pub first : Result Error (Option T) → Exec Error S (Option T) → Exec Error S (Option T)
  first (ok (some entry)) rest s = (ok (some entry), s)
  first (ok none) rest s = rest s
  first (err e) rest s = if is_unavail e then rest s else (err e, s)

  unfoldable pub tried : List Source → Exec Error S (Option T)
  tried [] s = (ok none, s)
  tried (source ∷ rest) s = let r = lookup source s in first r.0 (tried rest) r.1

  unfoldable pub fan_out : Exec Error S (Option T)
  unfolding tried
  fan_out = tried lookup_order
