-- ===== src/Pam/Settings.antt =====
-- The items and the environment of a transaction, truenas_pam/src/txn.rs.
use truenas_ros_utils.Prelude.{
  ℕ, ◌-◌, ◌/◌, ◌^◌, min, Bool, true, false, ◌||◌, List, [], ◌∷◌, ◌++◌, any, Option, some, none,
  Result, ok, err, ◌==◌, if◌then◌else◌,
}
use truenas_ros_utils.Prelude.Exec.{Exec, pure, raise, lift, ◌>>=◌, ◌>>◌}
use truenas_ros_utils.Xdr.Signed.{ℤ, pos}
use truenas_ros_utils.Xdr.Utf8.{is_utf8}
use truenas_ros_utils.Pam.Code.{PamCode, bad_item, buf_err}
use truenas_ros_utils.Pam.Error.{Error, check, pam, nul_byte, invalid_name, not_utf8}
use truenas_ros_utils.Pam.Libpam.{Libpam}
use truenas_ros_utils.Pam.Transaction.{Transaction}
pub mod Entries

abbrev pub is_zero : ℕ → Bool
is_zero b = b == 0

-- `CString::new`, of a string and of a path: its bytes, unless one is NUL.
unfoldable pub cstring : List ℕ → Result Error (List ℕ)
cstring bytes = if any is_zero bytes then err nul_byte else ok bytes

abbrev pub is_equals : ℕ → Bool
is_equals b = b == 0x3d

abbrev is_empty : List ℕ → Bool
is_empty [] = true
is_empty (b ∷ bytes) = false

unfoldable pub check_env_name : List ℕ → Result Error (Unit {0})
check_env_name name = if is_empty name || any is_equals name then err invalid_name else ok tt

-- The entry up to its first `=`, and behind it.
abbrev pub cut : List ℕ → List ℕ × List ℕ
cut [] = ([], [])
cut (b ∷ bytes) = let rest = cut bytes in if is_equals b then ([], bytes) else (b ∷ rest.0, rest.1)

abbrev pub text_pair : List ℕ × List ℕ → Result Error (List ℕ × List ℕ)
text_pair (name, value) =
    if is_utf8 name
    then (if is_utf8 value then ok (name, value) else err not_utf8)
    else err not_utf8

unfoldable pub split_env : List ℕ → Result Error (List ℕ × List ℕ)
split_env entry = text_pair (cut entry)

abbrev pub readable :
    Result Error (List ℕ × List ℕ) → List (List ℕ × List ℕ) → List (List ℕ × List ℕ)
readable (ok pair) pairs = pair ∷ pairs
readable (err e) pairs = pairs

unfoldable pub read_entries : List (List ℕ) → List (List ℕ × List ℕ)
unfolding split_env
read_entries [] = []
read_entries (entry ∷ entries) = readable (split_env entry) (read_entries entries)

abbrev text_of : Option (List ℕ) → Result Error (Option (List ℕ))
text_of none = ok none
text_of (some bytes) = if is_utf8 bytes then ok (some bytes) else err not_utf8

module _ {A B : Type 0} where
  abbrev pub and_then : Result Error A → (A → Result Error B) → Result Error B
  and_then (ok a) f = f a
  and_then (err e) f = err e

abbrev found : Result Error (Unit {0}) → Result Error Bool
found (ok u) = ok true
found (err (pam bad_item)) = ok false
found (err e) = err e

unfoldable pub listed : Option (List (List ℕ)) → Result Error (List (List ℕ × List ℕ))
unfolding read_entries
listed none = err (pam buf_err)
listed (some entries) = ok (read_entries entries)

-- The item types of ffi.rs.
abbrev pub pam_service : ℕ
pam_service = 1

abbrev pub pam_user : ℕ
pam_user = 2

abbrev pub pam_tty : ℕ
pam_tty = 3

abbrev pub pam_rhost : ℕ
pam_rhost = 4

abbrev pub pam_ruser : ℕ
pam_ruser = 8

module _ {H C P : Type 0} (lib : Libpam H) where
  unfoldable pub item_str : ℕ → Transaction H C P → Result Error (Option (List ℕ))
  item_str item txn =
      and_then (check (lib.get_item item txn.hdl).0) (λ u. text_of (lib.get_item item txn.hdl).1)

  abbrev pub called : ℤ × H → Exec Error (Transaction H C P) (Unit {0})
  called (rc, hdl) txn = (check rc, record txn { hdl = hdl })

  unfoldable pub set_item_str : ℕ → List ℕ → Exec Error (Transaction H C P) (Unit {0})
  unfolding cstring
  set_item_str item value =
      lift (cstring value) >>= λ v txn. called (lib.set_item item v txn.hdl) txn

  -- `delay.as_micros().min(u32::MAX)`, of a delay in nanoseconds.
  unfoldable pub set_fail_delay : ℕ → Exec Error (Transaction H C P) (Unit {0})
  set_fail_delay nanos txn = called (lib.fail_delay (min (nanos / 1000) (2 ^ 32 - 1)) txn.hdl) txn

  unfoldable pub raw_putenv : List ℕ → Exec Error (Transaction H C P) (Unit {0})
  unfolding cstring
  raw_putenv entry = lift (cstring entry) >>= λ e txn. called (lib.putenv e txn.hdl) txn

  unfoldable pub getenv : List ℕ → Transaction H C P → Result Error (Option (List ℕ))
  getenv name txn = and_then (cstring name) (λ n. text_of (lib.getenv n txn.hdl))

  unfoldable pub putenv : List ℕ → List ℕ → Exec Error (Transaction H C P) (Unit {0})
  unfolding raw_putenv check_env_name
  putenv name value = lift (check_env_name name) >> raw_putenv (name ++ (0x3d ∷ value))

  unfoldable pub unsetenv : List ℕ → Exec Error (Transaction H C P) Bool
  unfolding raw_putenv check_env_name
  unsetenv name =
      lift (check_env_name name) >> λ txn. (found (raw_putenv name txn).0, (raw_putenv name txn).1)

  unfoldable pub env : Transaction H C P → Result Error (List (List ℕ × List ℕ))
  unfolding listed
  env txn = listed (lib.getenvlist txn.hdl)
