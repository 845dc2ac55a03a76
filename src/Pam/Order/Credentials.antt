-- ===== src/Pam/Order/Credentials.antt =====
-- What the opening and the closing of a session leave of the user's credentials.
use Prim.Native.Nat.{bit_or}
use truenas_ros_utils.Prelude.{ℕ, ◌≡◌, refl, sym, ap, ◌∙◌, Option, ok, err, List, ◌∷◌}
use truenas_ros_utils.Prelude.Exec.{continue}
use truenas_ros_utils.Pam.Error.{Error}
use truenas_ros_utils.Pam.Conv.{failed, panicked}
use truenas_ros_utils.Pam.Libpam.{pam_setcred, pam_open_session}
use truenas_ros_utils.Pam.Transaction
use truenas_ros_utils.Pam.Transaction.{Transaction, Call, Flags, establish, delete, raw}
use truenas_ros_utils.Pam.Worker.{Installed, Machine}
use truenas_ros_utils.Pam.Authenticator.{
  Authenticator, transaction_held, Stage, account_checked, session_open, with_transaction,
  set_stage,
}
use truenas_ros_utils.Pam.Session.{login, grant, opened, given_up, open_op}
use truenas_ros_utils.Pam.Order
use truenas_ros_utils.Pam.Order.{Meets, IsFor, granted, revoked, closed}
use truenas_ros_utils.Pam.Order.Calls.{Ran}
use truenas_ros_utils.Pam.Order.Invariant.{at}
use truenas_ros_utils.Pam.Order.Session.{Outcome, op-Ran}

module _ {P : Type 0} where
  -- Where a login that held a transaction is afterwards.
  abbrev stage_after : Outcome P → Stage
  stage_after (ok u) = session_open
  stage_after (err e) = account_checked

  -- The calls that a login adds, by its outcome.
  pub data LoginCalls (calls : List Call) : Outcome P → List Call → Type 0 where
    not_granted :
        {e : Error} {grants : Call}
        → grants.entry ≡ pam_setcred
        → IsFor establish grants.argument
        → LoginCalls calls (err (failed e)) (grants ∷ calls)
    not_opened :
        {e : Error} {grants opens revokes : Call}
        → Meets granted grants
        → opens.entry ≡ pam_open_session
        → Meets revoked revokes
        → LoginCalls calls (err (failed e)) (revokes ∷ opens ∷ grants ∷ calls)
    opened_session :
        {grants opens : Call}
        → Meets granted grants
        → Meets Order.opened opens
        → LoginCalls calls (ok tt) (opens ∷ grants ∷ calls)
    in_panic : {payload : P} {after : List Call} → LoginCalls calls (err (panicked payload)) after

module _ {H C P : Type 0} where
  pub record LoggedIn (calls : List Call) (outcome : Outcome P) (a : Authenticator H C P)
      : Type 0 where
    pub txn : Transaction H (Installed C) P
    pub held_eq : a.held ≡ transaction_held txn
    pub stage_eq : a.stage ≡ stage_after outcome
    pub calls_in : LoginCalls calls outcome txn.calls

module _ {H C P : Type 0} (machine : Machine H C P) where
  given_up-LoginCalls :
      {calls middle : List Call} {grants opens : Call} (e : Error) (outcome : Outcome P)
      (txn : Transaction H (Installed C) P) (flags : Flags)
      → Ran pam_setcred (bit_or (raw delete) flags.bits) middle outcome txn
      → middle ≡ opens ∷ grants ∷ calls
      → Meets granted grants
      → opens.entry ≡ pam_open_session
      → LoginCalls calls
          (given_up machine e (outcome, txn)).0
          (given_up machine e (outcome, txn)).1.calls
  unfolding Meets
  given_up-LoginCalls e (ok u) txn flags r h g o =
      rw (r.calls_eq, h) (not_opened g o (r.entry_eq, (flags.bits, r.argument_eq)))
  given_up-LoginCalls e (err (failed f)) txn flags r h g o =
      rw (r.calls_eq, h) (not_opened g o (r.entry_eq, (flags.bits, r.argument_eq)))
  given_up-LoginCalls e (err (panicked p)) txn flags r h g o = in_panic

  opened-LoginCalls :
      {calls middle : List Call} {argument : ℕ} {grants : Call} (outcome : Outcome P)
      (txn : Transaction H (Installed C) P) (flags : Flags)
      → Ran pam_open_session argument middle outcome txn
      → middle ≡ grants ∷ calls
      → Meets granted grants
      → LoginCalls calls
          (opened machine flags outcome txn).0
          (opened machine flags outcome txn).1.calls
  unfolding Meets Transaction.setcred
  opened-LoginCalls (ok u) txn flags r h g =
      rw (r.calls_eq, h) (opened_session g (r.entry_eq, r.code_eq refl))
  opened-LoginCalls (err (failed e)) txn flags r h g =
      given_up-LoginCalls e _ _ flags (op-Ran machine pam_setcred _ txn)
        (r.calls_eq ∙ ap (λ l. r.call ∷ l) h) g r.entry_eq
  opened-LoginCalls (err (panicked p)) txn flags r h g = in_panic

  granted-LoginCalls :
      {calls : List Call} (outcome : Outcome P) (txn : Transaction H (Installed C) P)
      (flags : Flags)
      → Ran pam_setcred (bit_or (raw establish) flags.bits) calls outcome txn
      → (let r =
            continue {B = Unit {0}} outcome
              (λ u t. opened machine flags (open_op machine flags t).0 (open_op machine flags t).1)
              txn in
          LoginCalls calls r.0 r.1.calls)
  unfolding Meets Transaction.open_session
  granted-LoginCalls (ok u) txn flags r =
      opened-LoginCalls _ _ flags (op-Ran machine pam_open_session flags.bits txn) r.calls_eq
        (r.entry_eq, (flags.bits, r.argument_eq), r.code_eq refl)
  granted-LoginCalls (err (failed e)) txn flags r =
      rw r.calls_eq (not_granted r.entry_eq (flags.bits, r.argument_eq))
  granted-LoginCalls (err (panicked p)) txn flags r = in_panic

  staged-LoggedIn :
      {calls : List Call} (outcome : Outcome P) (txn : Transaction H (Installed C) P)
      (flags : Flags) (limit : Option ℕ)
      → LoginCalls calls outcome txn.calls
      → (let r =
            continue {B = Unit {0}} outcome
              (λ u. set_stage session_open)
              (at account_checked (transaction_held txn) flags limit) in
          LoggedIn calls r.0 r.1)
  staged-LoggedIn (ok u) txn flags limit l = record {
    txn = txn;
    held_eq = refl;
    stage_eq = refl;
    calls_in = l;
  }
  staged-LoggedIn (err e) txn flags limit l = record {
    txn = txn;
    held_eq = refl;
    stage_eq = refl;
    calls_in = l;
  }

  login_fields :
      (txn : Transaction H (Installed C) P) (flags : Flags) (limit : Option ℕ)
      → (let r = login machine (at account_checked (transaction_held txn) flags limit) in
          LoggedIn txn.calls r.0 r.1)
  unfolding login with_transaction grant Transaction.setcred
  login_fields txn flags limit =
      staged-LoggedIn _ _ flags limit
        (granted-LoginCalls _ _ flags (op-Ran machine pam_setcred _ txn))

  -- A login after the account check either fails to grant the credentials, and calls libpam no
  -- more, or opens the session after the grant, or fails to open it and revokes what was granted;
  -- only a panic of the conversation is left aside. The stage moves with a success alone, and the
  -- transaction is kept in every case.
  pub login-LoggedIn :
      (a : Authenticator H C P) (txn : Transaction H (Installed C) P)
      → a.stage ≡ account_checked
      → a.held ≡ transaction_held txn
      → LoggedIn txn.calls (login machine a).0 (login machine a).1
  login-LoggedIn a txn h k = rw (sym h, sym k) at (login_fields txn a.flags a.limit)
