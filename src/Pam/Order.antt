-- ===== src/Pam/Order.antt =====
-- The order of the calls on a handle, newest first as a transaction keeps them, and what each
-- stage of truenas_pam/src/auth.rs asks of it.
use Prim.Native.Nat.{bit_or}
use truenas_ros_utils.Prelude.{ℕ, ◌≡◌, List, [], ◌∷◌}
use truenas_ros_utils.Xdr.Signed.{pos}
use truenas_ros_utils.Pam.Libpam.{
  pam_authenticate, pam_acct_mgmt, pam_setcred, pam_open_session, pam_close_session,
}
use truenas_ros_utils.Pam.Transaction.{Call, CredOp, raw, establish, delete}
use truenas_ros_utils.Pam.Authenticator.{
  Stage, start, authenticating, authenticated, account_checked, session_open, ended, refusal,
}
pub mod Calls
pub mod Exchange
pub mod Verdict
pub mod Invariant
pub mod Session
pub mod Sequence
pub mod Reach
pub mod Credentials

pub data Demand : Type 0 where
  accepted usable granted opened closed revoked : Demand

-- An argument of `pam_setcred` that carries the operation, with any flags.
abbrev pub IsFor : CredOp → ℕ → Type 0
IsFor op argument = (flags : ℕ) × (argument ≡ bit_or (raw op) flags)

unfoldable pub Meets : Demand → Call → Type 0
Meets accepted c = (c.entry ≡ pam_authenticate) × (c.code ≡ pos 0)
Meets usable c = (c.entry ≡ pam_acct_mgmt) × (c.code ≡ pos 0)
Meets granted c = (c.entry ≡ pam_setcred) × IsFor establish c.argument × (c.code ≡ pos 0)
Meets opened c = (c.entry ≡ pam_open_session) × (c.code ≡ pos 0)
Meets closed c = c.entry ≡ pam_close_session
Meets revoked c = (c.entry ≡ pam_setcred) × IsFor delete c.argument

-- The calls hold one for each demand, in the demands' order, other calls between them.
pub data InOrder : List Demand → List Call → Type 0 where
  none_left : {calls : List Call} → InOrder [] calls
  here :
      {d : Demand} {demands : List Demand} {c : Call} {calls : List Call}
      → Meets d c
      → InOrder demands calls
      → InOrder (d ∷ demands) (c ∷ calls)
  past :
      {demands : List Demand} {c : Call} {calls : List Call}
      → InOrder demands calls
      → InOrder demands (c ∷ calls)

unfoldable pub required : Stage → List Demand
required start = []
required authenticating = []
required refusal = []
required authenticated = accepted ∷ []
required account_checked = usable ∷ accepted ∷ []
required session_open = opened ∷ granted ∷ usable ∷ accepted ∷ []
required ended = revoked ∷ closed ∷ opened ∷ granted ∷ usable ∷ accepted ∷ []
