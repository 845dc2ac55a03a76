-- ===== src/Pam/Code.antt =====
-- `PamCode` of truenas_pam/src/error.rs: what one call into libpam returned.
use Prim.Native.String.{String}
use truenas_ros_utils.Prelude.{ℕ, ◌==◌, if◌then◌else◌, Option, some, none}
use truenas_ros_utils.Xdr.Signed.{ℤ, pos, negsuc}

pub data PamCode : Type 0 where
  success open_err symbol_err service_err system_err buf_err : PamCode
  perm_denied auth_err cred_insufficient authinfo_unavail user_unknown max_tries : PamCode
  new_authtok_reqd acct_expired session_err cred_unavail cred_expired cred_err : PamCode
  no_module_data conv_err authtok_err authtok_recovery_err authtok_lock_busy authtok_disable_aging :
      PamCode
  try_again ignore abort authtok_expired module_unknown bad_item : PamCode
  conv_again incomplete : PamCode

-- The constants of ffi.rs that the match of `PamCode::from_raw` names.
unfoldable pub code_of : ℕ → Option PamCode
code_of rc =
    if rc == 0
    then some success
    else if rc == 1
    then some open_err
    else if rc == 2
    then some symbol_err
    else if rc == 3
    then some service_err
    else if rc == 4
    then some system_err
    else if rc == 5
    then some buf_err
    else if rc == 6
    then some perm_denied
    else if rc == 7
    then some auth_err
    else if rc == 8
    then some cred_insufficient
    else if rc == 9
    then some authinfo_unavail
    else if rc == 10
    then some user_unknown
    else if rc == 11
    then some max_tries
    else if rc == 12
    then some new_authtok_reqd
    else if rc == 13
    then some acct_expired
    else if rc == 14
    then some session_err
    else if rc == 15
    then some cred_unavail
    else if rc == 16
    then some cred_expired
    else if rc == 17
    then some cred_err
    else if rc == 18
    then some no_module_data
    else if rc == 19
    then some conv_err
    else if rc == 20
    then some authtok_err
    else if rc == 21
    then some authtok_recovery_err
    else if rc == 22
    then some authtok_lock_busy
    else if rc == 23
    then some authtok_disable_aging
    else if rc == 24
    then some try_again
    else if rc == 25
    then some ignore
    else if rc == 26
    then some abort
    else if rc == 27
    then some authtok_expired
    else if rc == 28
    then some module_unknown
    else if rc == 29
    then some bad_item
    else if rc == 30
    then some conv_again
    else if rc == 31
    then some incomplete
    else none

unfoldable pub from_raw : ℤ → Option PamCode
from_raw (pos rc) = code_of rc
from_raw (negsuc rc) = none

unfoldable pub number : PamCode → ℕ
number success = 0
number open_err = 1
number symbol_err = 2
number service_err = 3
number system_err = 4
number buf_err = 5
number perm_denied = 6
number auth_err = 7
number cred_insufficient = 8
number authinfo_unavail = 9
number user_unknown = 10
number max_tries = 11
number new_authtok_reqd = 12
number acct_expired = 13
number session_err = 14
number cred_unavail = 15
number cred_expired = 16
number cred_err = 17
number no_module_data = 18
number conv_err = 19
number authtok_err = 20
number authtok_recovery_err = 21
number authtok_lock_busy = 22
number authtok_disable_aging = 23
number try_again = 24
number ignore = 25
number abort = 26
number authtok_expired = 27
number module_unknown = 28
number bad_item = 29
number conv_again = 30
number incomplete = 31

unfoldable pub raw : PamCode → ℤ
raw c = pos (number c)

-- The symbol and the message.
unfoldable pub entry : PamCode → String × String
entry success = ("PAM_SUCCESS", "Success")
entry open_err = ("PAM_OPEN_ERR", "Failed to load module")
entry symbol_err = ("PAM_SYMBOL_ERR", "Symbol not found")
entry service_err = ("PAM_SERVICE_ERR", "Error in service module")
entry system_err = ("PAM_SYSTEM_ERR", "System error")
entry buf_err = ("PAM_BUF_ERR", "Memory buffer error")
entry perm_denied = ("PAM_PERM_DENIED", "Permission denied")
entry auth_err = ("PAM_AUTH_ERR", "Authentication failure")
entry cred_insufficient =
    ("PAM_CRED_INSUFFICIENT", "Insufficient credentials to access authentication data")
entry authinfo_unavail =
    ("PAM_AUTHINFO_UNAVAIL", "Authentication service cannot retrieve authentication info")
entry user_unknown = ("PAM_USER_UNKNOWN", "User not known to the underlying authentication module")
entry max_tries = ("PAM_MAXTRIES", "Have exhausted maximum number of retries for service")
entry new_authtok_reqd =
    ("PAM_NEW_AUTHTOK_REQD", "Authentication token is no longer valid; new one required")
entry acct_expired = ("PAM_ACCT_EXPIRED", "User account has expired")
entry session_err = ("PAM_SESSION_ERR", "Cannot make/remove an entry for the specified session")
entry cred_unavail = ("PAM_CRED_UNAVAIL", "Authentication service cannot retrieve user credentials")
entry cred_expired = ("PAM_CRED_EXPIRED", "User credentials expired")
entry cred_err = ("PAM_CRED_ERR", "Failure setting user credentials")
entry no_module_data = ("PAM_NO_MODULE_DATA", "No module specific data is present")
entry conv_err = ("PAM_CONV_ERR", "Conversation error")
entry authtok_err = ("PAM_AUTHTOK_ERR", "Authentication token manipulation error")
entry authtok_recovery_err =
    ("PAM_AUTHTOK_RECOVERY_ERR", "Authentication information cannot be recovered")
entry authtok_lock_busy = ("PAM_AUTHTOK_LOCK_BUSY", "Authentication token lock busy")
entry authtok_disable_aging = ("PAM_AUTHTOK_DISABLE_AGING", "Authentication token aging disabled")
entry try_again = ("PAM_TRY_AGAIN", "Failed preliminary check by password service")
entry ignore = ("PAM_IGNORE", "The return value should be ignored by PAM dispatch")
entry abort = ("PAM_ABORT", "Critical error - immediate abort")
entry authtok_expired = ("PAM_AUTHTOK_EXPIRED", "Authentication token expired")
entry module_unknown = ("PAM_MODULE_UNKNOWN", "Module is unknown")
entry bad_item = ("PAM_BAD_ITEM", "Bad item passed to pam_*_item()")
entry conv_again = ("PAM_CONV_AGAIN", "Conversation is waiting for event")
entry incomplete = ("PAM_INCOMPLETE", "Application needs to call libpam again")

unfoldable pub name : PamCode → String
name c = (entry c).0

unfoldable pub message : PamCode → String
message c = (entry c).1
