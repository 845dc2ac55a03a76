-- ===== src/Pam/Order/Sequence.antt =====
-- The opening and the closing of a session keep a login in sequence.
use Prim.Native.Nat.{bit_or}
use truenas_ros_utils.Prelude.{ℕ, refl, Option, ok, err, List, ◌∷◌}
use truenas_ros_utils.Prelude.Exec.{continue}
use truenas_ros_utils.Pam.Conv.{failed, panicked}
use truenas_ros_utils.Pam.Libpam.{pam_setcred, pam_open_session, pam_close_session}
use truenas_ros_utils.Pam.Transaction
use truenas_ros_utils.Pam.Transaction.{
  Transaction, Call, Flags, Txn, establish, delete, stack_op, raw,
}
use truenas_ros_utils.Pam.Worker.{Installed, Machine}
use truenas_ros_utils.Pam.Authenticator.{
  Held, transaction_held, Stage, account_checked, session_open, with_transaction,
}
use truenas_ros_utils.Pam.Session.{login, logout, grant, opened, close_out, logged_out, open_op}
use truenas_ros_utils.Pam.Order.{InOrder, required, Demand, Meets, closed}
use truenas_ros_utils.Pam.Order.Calls.{Ran}
use truenas_ros_utils.Pam.Order.Invariant.{InSequence, at}
use truenas_ros_utils.Pam.Order.Session.{
  Outcome, Grants, opened-Grants, op-Ran, Ran-InOrder, Ran-Meets, set_stage-InSequence,
}

module _ {H C P : Type 0} (machine : Machine H C P) where
  granted-Grants :
      {demands : List Demand} {calls : List Call} (flags : Flags) (outcome : Outcome P)
      (txn : Transaction H (Installed C) P)
      → Ran pam_setcred (bit_or (raw establish) flags.bits) calls outcome txn
      → InOrder demands calls
      → (let r =
            continue {B = Unit {0}} outcome
              (λ u t. opened machine flags (open_op machine flags t).0 (open_op machine flags t).1)
              txn in
          Grants machine demands r.0 r.1)
  unfolding Grants Meets Transaction.open_session
  granted-Grants flags (ok u) txn r v =
      opened-Grants machine flags _ _ (op-Ran machine pam_open_session flags.bits txn)
        (Ran-Meets r (r.entry_eq, (flags.bits, r.argument_eq), r.code_eq refl) v) (Ran-InOrder r v)
  granted-Grants flags (err e) txn r v = (Ran-InOrder r v, λ h. absurd cc)

  grant-Grants :
      {demands : List Demand} (flags : Flags) (txn : Transaction H (Installed C) P)
      → InOrder demands txn.calls
      → Grants machine demands (grant machine flags txn).0 (grant machine flags txn).1
  unfolding grant Transaction.setcred
  grant-Grants flags txn v = granted-Grants flags _ _ (op-Ran machine pam_setcred _ txn) v

  pub login-InSequence :
      (stage : Stage) (held : Held H C P) (flags : Flags) (limit : Option ℕ)
      → InSequence (at stage held flags limit)
      → InSequence (login machine (at stage held flags limit)).1
  unfolding login with_transaction InSequence required Grants
  login-InSequence account_checked (transaction_held txn) flags limit v =
      let g = grant-Grants flags txn v in
      set_stage-InSequence account_checked session_open _ _ flags limit g.0 g.1
  login-InSequence stage held flags limit v = v

  logged_out-InSequence :
      {calls : List Call} (out : Outcome P) (outcome : Outcome P)
      (txn : Transaction H (Installed C) P) (held : Held H C P) (flags : Flags) (limit : Option ℕ)
      → Ran pam_setcred (bit_or (raw delete) flags.bits) calls outcome txn
      → InOrder (required session_open) calls
      → InOrder (closed ∷ required session_open) calls
      → InSequence (logged_out machine out (outcome, txn) (at session_open held flags limit)).1
  unfolding InSequence required Meets
  logged_out-InSequence out (err (panicked p)) txn held flags limit r v c = Ran-InOrder r v
  logged_out-InSequence out (err (failed e)) txn held flags limit r v c =
      Ran-Meets r (r.entry_eq, (flags.bits, r.argument_eq)) c
  logged_out-InSequence out (ok u) txn held flags limit r v c =
      Ran-Meets r (r.entry_eq, (flags.bits, r.argument_eq)) c

  close_out-InSequence :
      {calls : List Call} {argument : ℕ} (outcome : Outcome P) (txn : Transaction H (Installed C) P)
      (held : Held H C P) (flags : Flags) (limit : Option ℕ)
      → Ran pam_close_session argument calls outcome txn
      → InOrder (required session_open) calls
      → InSequence (close_out machine flags (outcome, txn) (at session_open held flags limit)).1
  unfolding InSequence Meets Transaction.setcred
  close_out-InSequence (err (panicked p)) txn held flags limit r v = Ran-InOrder r v
  close_out-InSequence (err (failed e)) txn held flags limit r v =
      logged_out-InSequence (err (failed e)) _ _ held flags limit (op-Ran machine pam_setcred _ txn)
        (Ran-InOrder r v) (Ran-Meets r r.entry_eq v)
  close_out-InSequence (ok u) txn held flags limit r v =
      logged_out-InSequence (ok u) _ _ held flags limit (op-Ran machine pam_setcred _ txn)
        (Ran-InOrder r v) (Ran-Meets r r.entry_eq v)

  pub logout-InSequence :
      (stage : Stage) (held : Held H C P) (flags : Flags) (limit : Option ℕ)
      → InSequence (at stage held flags limit)
      → InSequence (logout machine (at stage held flags limit)).1
  unfolding logout InSequence Transaction.close_session
  logout-InSequence session_open (transaction_held txn) flags limit v =
      close_out-InSequence _ _ (transaction_held txn) flags limit
        (op-Ran machine pam_close_session flags.bits txn) v
  logout-InSequence stage held flags limit v = v
