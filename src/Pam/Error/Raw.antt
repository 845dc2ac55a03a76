-- ===== src/Pam/Error/Raw.antt =====
-- The codes of libpam and their numbers name each other, and an error keeps what libpam returned.
use truenas_ros_utils.Prelude.{
  ℕ, zero, suc, ◌≡◌, ◌≢◌, ◌≤◌, ◌↔◌, refl, ap, arith, Option, some, none, ok, err, ne→==, ◌⊎◌, inl,
  inr,
}
use truenas_ros_utils.Xdr.Signed.{ℤ, pos, negsuc}
use truenas_ros_utils.Pam.Code.{
  PamCode, code_of, number, success, open_err, symbol_err, service_err, system_err, buf_err,
  perm_denied, auth_err, cred_insufficient, authinfo_unavail, user_unknown, max_tries,
  new_authtok_reqd, acct_expired, session_err, cred_unavail, cred_expired, cred_err, no_module_data,
  conv_err, authtok_err, authtok_recovery_err, authtok_lock_busy, authtok_disable_aging, try_again,
  ignore, abort, authtok_expired, module_unknown, bad_item, conv_again, incomplete,
}
use truenas_ros_utils.Pam.Code
use truenas_ros_utils.Pam.Error.{Error, from_raw, raw, check, classify}

code_of-number : (c : PamCode) → code_of (number c) ≡ some c
unfolding code_of number
code_of-number success = refl
code_of-number open_err = refl
code_of-number symbol_err = refl
code_of-number service_err = refl
code_of-number system_err = refl
code_of-number buf_err = refl
code_of-number perm_denied = refl
code_of-number auth_err = refl
code_of-number cred_insufficient = refl
code_of-number authinfo_unavail = refl
code_of-number user_unknown = refl
code_of-number max_tries = refl
code_of-number new_authtok_reqd = refl
code_of-number acct_expired = refl
code_of-number session_err = refl
code_of-number cred_unavail = refl
code_of-number cred_expired = refl
code_of-number cred_err = refl
code_of-number no_module_data = refl
code_of-number conv_err = refl
code_of-number authtok_err = refl
code_of-number authtok_recovery_err = refl
code_of-number authtok_lock_busy = refl
code_of-number authtok_disable_aging = refl
code_of-number try_again = refl
code_of-number ignore = refl
code_of-number abort = refl
code_of-number authtok_expired = refl
code_of-number module_unknown = refl
code_of-number bad_item = refl
code_of-number conv_again = refl
code_of-number incomplete = refl

number-code_of : (rc : ℕ) (c : PamCode) → code_of rc ≡ some c → number c ≡ rc
unfolding code_of number
number-code_of rc c h = ground arith

code_of_none : (rc : ℕ) → code_of rc ≡ none → 32 ≤ rc
unfolding code_of
code_of_none rc h = ground arith

-- `PamCode::from_raw` and `PamCode::raw` are inverse: a number is read as a code exactly when it
-- is that code's number.
from_raw_iff : (rc : ℤ) (c : PamCode) → (Code.from_raw rc ≡ some c) ↔ (Code.raw c ≡ rc)
unfolding Code.from_raw Code.raw
from_raw_iff (pos rc) c = (λ h. ap pos (number-code_of rc c h), λ h. cc (code_of-number c))
from_raw_iff (negsuc rc) c = (λ h. cc, λ h. cc)

raw_classified :
    (rc : ℤ) (r : Option PamCode) → Code.from_raw rc ≡ r → raw (classify rc r) ≡ some rc
unfolding raw classify
raw_classified rc (some c) h = ap some ((from_raw_iff rc c).0 h)
raw_classified rc none h = refl

-- A call into libpam is a success exactly at 0, and every other number, in the block of the
-- standard or outside it, becomes an error from which `raw` reads the number back.
pub check_classifies :
    (rc : ℤ)
    → ((rc ≡ pos 0) × (check rc ≡ ok tt))
      ⊎ ((rc ≢ pos 0) × ((e : Error) × (check rc ≡ err e) × (raw e ≡ some rc)))
unfolding check from_raw
check_classifies (pos zero) = inl (refl, refl)
check_classifies (pos (suc rc)) = inr (
  (λ h. cc),
  (from_raw (pos (suc rc)), rw (ne→== (suc rc) 0 (λ h. cc)) refl, raw_classified _ _ refl),
)
check_classifies (negsuc rc) =
    inr ((λ h. cc), (from_raw (negsuc rc), refl, raw_classified _ _ refl))
