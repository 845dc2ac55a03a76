-- ===== src/Pam/Order/Session.antt =====
-- The account check, the opening and the closing of a session keep a login in sequence.
use truenas_ros_utils.Prelude.{ℕ, ◌≡◌, refl, Option, Result, ok, err, List, ◌∷◌}
use truenas_ros_utils.Prelude.Exec.{continue}
use truenas_ros_utils.Pam.Error.{Error}
use truenas_ros_utils.Pam.Conv.{Failure, failed, panicked}
use truenas_ros_utils.Pam.Libpam.{Entry, pam_acct_mgmt, pam_setcred, pam_open_session}
use truenas_ros_utils.Pam.Transaction
use truenas_ros_utils.Pam.Transaction.{Transaction, Call, Flags, Txn, establish, delete, stack_op}
use truenas_ros_utils.Pam.Worker.{Installed, installed, Machine}
use truenas_ros_utils.Pam.Authenticator.{
  Held, transaction_held, Stage, authenticated, account_checked, with_transaction, set_stage,
}
use truenas_ros_utils.Pam.Session.{acct_mgmt, opened, given_up}
use truenas_ros_utils.Pam.Order
use truenas_ros_utils.Pam.Order.{
  InOrder, none_left, here, past, required, Demand, Meets, granted, usable,
}
use truenas_ros_utils.Pam.Order.Calls.{Ran, stack_op-Ran}
use truenas_ros_utils.Pam.Order.Invariant.{InSequence, at}

abbrev pub Outcome : Type 0 → Type 0
Outcome P = Result (Failure P) (Unit {0})

module _ {H C P : Type 0} where
  -- One call more leaves the others in order.
  pub Ran-InOrder :
      {entry : Entry} {argument : ℕ} {calls : List Call} {outcome : Outcome P}
      {txn : Transaction H C P} {demands : List Demand}
      → Ran entry argument calls outcome txn
      → InOrder demands calls
      → InOrder demands txn.calls
  Ran-InOrder r v = rw r.calls_eq (past v)

  pub Ran-Meets :
      {entry : Entry} {argument : ℕ} {calls : List Call} {outcome : Outcome P}
      {txn : Transaction H C P} {d : Demand} {demands : List Demand}
      → (r : Ran entry argument calls outcome txn) → Meets d r.call
      → InOrder demands calls
      → InOrder (d ∷ demands) txn.calls
  Ran-Meets r m v = rw r.calls_eq (here m v)

module _ {H C P : Type 0} where
  -- The stage moves on with a success only.
  pub set_stage-InSequence :
      (before next : Stage) (outcome : Outcome P) (txn : Transaction H (Installed C) P)
      (flags : Flags) (limit : Option ℕ)
      → InOrder (required before) txn.calls
      → (outcome ≡ ok tt → InOrder (required next) txn.calls)
      → InSequence
          (continue {B = Unit {0}} outcome
            (λ u. set_stage next)
            (at before (transaction_held txn) flags limit)).1
  unfolding InSequence
  set_stage-InSequence before next (ok u) txn flags limit v h = h refl
  set_stage-InSequence before next (err e) txn flags limit v h = v

module _ {H C P : Type 0} (machine : Machine H C P) where
  pub op-Ran :
      (entry : Entry) (argument : ℕ) (txn : Transaction H (Installed C) P)
      → (let r =
            stack_op machine.grants
              (installed machine.conversation)
              machine.lib
              entry
              argument
              txn in
          Ran entry argument txn.calls r.0 r.1)
  op-Ran = stack_op-Ran machine.grants (installed machine.conversation) machine.lib

  pub acct_mgmt-InSequence :
      (stage : Stage) (held : Held H C P) (flags : Flags) (limit : Option ℕ)
      → InSequence (at stage held flags limit)
      → InSequence (acct_mgmt machine (at stage held flags limit)).1
  unfolding acct_mgmt with_transaction InSequence required Meets Transaction.acct_mgmt
  acct_mgmt-InSequence authenticated (transaction_held txn) flags limit v =
      let r = op-Ran pam_acct_mgmt flags.bits txn in
      set_stage-InSequence authenticated account_checked _ _ flags limit (Ran-InOrder r v)
        (λ h. Ran-Meets r (r.entry_eq, r.code_eq h) v)
  acct_mgmt-InSequence stage held flags limit v = v

  unfoldable pub Grants : List Demand → Outcome P → Transaction H (Installed C) P → Type 0
  Grants demands outcome txn =
      InOrder demands txn.calls
      × (outcome ≡ ok tt → InOrder (Order.opened ∷ granted ∷ demands) txn.calls)

  given_up-InOrder :
      {demands : List Demand} {argument : ℕ} {calls : List Call} (e : Error) (outcome : Outcome P)
      (txn : Transaction H (Installed C) P)
      → Ran pam_setcred argument calls outcome txn
      → InOrder demands calls
      → Grants demands (given_up machine e (outcome, txn)).0 (given_up machine e (outcome, txn)).1
  unfolding Grants
  given_up-InOrder e (ok u) txn r v = (Ran-InOrder r v, λ h. absurd cc)
  given_up-InOrder e (err (failed f)) txn r v = (Ran-InOrder r v, λ h. absurd cc)
  given_up-InOrder e (err (panicked p)) txn r v = (Ran-InOrder r v, λ h. absurd cc)

  pub opened-Grants :
      {demands : List Demand} {argument : ℕ} {calls : List Call} (flags : Flags)
      (outcome : Outcome P) (txn : Transaction H (Installed C) P)
      → Ran pam_open_session argument calls outcome txn
      → InOrder (granted ∷ demands) calls
      → InOrder demands calls
      → Grants demands (opened machine flags outcome txn).0 (opened machine flags outcome txn).1
  unfolding Grants Meets Transaction.setcred
  opened-Grants flags (ok u) txn r g v =
      (Ran-InOrder r v, λ h. Ran-Meets r (r.entry_eq, r.code_eq refl) g)
  opened-Grants flags (err (failed e)) txn r g v =
      given_up-InOrder e _ _ (op-Ran pam_setcred _ txn) (Ran-InOrder r v)
  opened-Grants flags (err (panicked p)) txn r g v = (Ran-InOrder r v, λ h. absurd cc)
