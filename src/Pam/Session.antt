-- ===== src/Pam/Session.antt =====
-- The operations of `Authenticator` that the transaction itself runs, truenas_pam/src/auth.rs: the
-- account check, the session's opening and closing, and the transaction's return.
use truenas_ros_utils.Prelude.{Result, ok, err, if◌then◌else◌}
use truenas_ros_utils.Prelude.Exec.{◌>>◌}
use truenas_ros_utils.Pam.Error.{Error, out_of_sequence}
use truenas_ros_utils.Pam.Conv.{Failure, failed, panicked}
use truenas_ros_utils.Pam.Transaction
use truenas_ros_utils.Pam.Transaction.{Transaction, Flags, Txn, establish, delete}
use truenas_ros_utils.Pam.Worker.{Installed, installed, Machine}
use truenas_ros_utils.Pam.Stepped.{finish}
use truenas_ros_utils.Pam.Authenticator.{
  Authenticator, Login, Held, transaction_held, exchange, nothing, with_transaction, set_stage,
  out_of_turn, is_authenticated, is_checked, is_open, account_checked, session_open, ended,
}

module _ {H C P : Type 0} (machine : Machine H C P) where
  -- The transaction's own operations, on the conversation that it holds.
  abbrev pub acct_mgmt_op : Flags → Txn H (Installed C) P (Unit {0})
  acct_mgmt_op = Transaction.acct_mgmt machine.grants (installed machine.conversation) machine.lib

  abbrev pub establish_op : Flags → Txn H (Installed C) P (Unit {0})
  establish_op =
      Transaction.setcred machine.grants (installed machine.conversation) machine.lib establish

  abbrev pub delete_op : Flags → Txn H (Installed C) P (Unit {0})
  delete_op = Transaction.setcred machine.grants (installed machine.conversation) machine.lib delete

  abbrev pub open_op : Flags → Txn H (Installed C) P (Unit {0})
  open_op = Transaction.open_session machine.grants (installed machine.conversation) machine.lib

  abbrev pub close_op : Flags → Txn H (Installed C) P (Unit {0})
  close_op = Transaction.close_session machine.grants (installed machine.conversation) machine.lib

  unfoldable pub acct_mgmt : Login H C P (Unit {0})
  unfolding with_transaction
  acct_mgmt a =
      if is_authenticated a.stage
      then (with_transaction (acct_mgmt_op a.flags) >> set_stage account_checked) a
      else out_of_turn a

  -- `let _ = txn.setcred(CredOp::Delete, flags); return Err(e)`
  abbrev pub given_up :
      Error
      → Result (Failure P) (Unit {0}) × Transaction H (Installed C) P
      → Result (Failure P) (Unit {0}) × Transaction H (Installed C) P
  given_up e (err (panicked payload), txn) = (err (panicked payload), txn)
  given_up e (outcome, txn) = (err (failed e), txn)

  abbrev pub opened : Flags → Result (Failure P) (Unit {0}) → Txn H (Installed C) P (Unit {0})
  opened flags (ok u) txn = (ok u, txn)
  opened flags (err (panicked payload)) txn = (err (panicked payload), txn)
  opened flags (err (failed e)) txn = given_up e (delete_op flags txn)

  unfoldable pub grant : Flags → Txn H (Installed C) P (Unit {0})
  grant flags =
      establish_op flags >> λ txn. opened flags (open_op flags txn).0 (open_op flags txn).1

  unfoldable pub login : Login H C P (Unit {0})
  unfolding with_transaction grant
  login a =
      if is_checked a.stage
      then (with_transaction (grant a.flags) >> set_stage session_open) a
      else out_of_turn a

  -- The two results of `logout`: a panic goes on, and `closed.and(revoked)` is the first error.
  abbrev pub both :
      Result (Failure P) (Unit {0}) → Result (Failure P) (Unit {0}) → Result (Failure P) (Unit {0})
  both (ok u) revoked = revoked
  both (err e) revoked = err e

  abbrev pub logged_out :
      Result (Failure P) (Unit {0})
      → Result (Failure P) (Unit {0}) × Transaction H (Installed C) P
      → Login H C P (Unit {0})
  logged_out closed (err (panicked payload), txn) a =
      (err (panicked payload), record a { held = transaction_held txn })
  logged_out closed (revoked, txn) a =
      (both closed revoked, record a { held = transaction_held txn; stage = ended })

  abbrev pub close_out :
      Flags → Result (Failure P) (Unit {0}) × Transaction H (Installed C) P → Login H C P (Unit {0})
  close_out flags (err (panicked payload), txn) a =
      (err (panicked payload), record a { held = transaction_held txn })
  close_out flags (closed, txn) a = logged_out closed (delete_op flags txn) a

  abbrev pub logout_held : Held H C P → Login H C P (Unit {0})
  logout_held (transaction_held txn) a = close_out a.flags (close_op a.flags txn) a
  logout_held _ a = out_of_turn a

  unfoldable pub logout : Login H C P (Unit {0})
  logout a = if is_open a.stage then logout_held a.held a else out_of_turn a

  abbrev taken : Held H C P → Result (Failure P) (Transaction H (Installed C) P)
  taken (transaction_held txn) = ok txn
  taken (exchange s) = finish machine s
  taken nothing = err (failed out_of_sequence)

  unfoldable pub into_transaction :
      Authenticator H C P → Result (Failure P) (Transaction H (Installed C) P)
  unfolding finish
  into_transaction a = taken a.held
