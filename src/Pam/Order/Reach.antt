-- ===== src/Pam/Order/Reach.antt =====
-- Every sequence of operations on an `Authenticator` keeps the order of the standard.
use truenas_ros_utils.Prelude.{ℕ, ◌≡◌, subst, Option}
use truenas_ros_utils.Pam.Conv.{Answers}
use truenas_ros_utils.Pam.Libpam.{Entry}
use truenas_ros_utils.Pam.Transaction.{Transaction, Flags, Txn, stack_op}
use truenas_ros_utils.Pam.Worker.{Installed, installed, Machine}
use truenas_ros_utils.Pam.Authenticator.{
  Authenticator, Held, transaction_held, exchange, nothing, Stage, new, with_flags, with_timeout,
  with_transaction, begin, respond,
}
use truenas_ros_utils.Pam.Session.{acct_mgmt, login, logout}
use truenas_ros_utils.Pam.Order.{InOrder, none_left, required}
use truenas_ros_utils.Pam.Order.Invariant.{
  Fits, InSequence, at, begin-InSequence, respond_fields-InSequence,
}
use truenas_ros_utils.Pam.Order.Session.{op-Ran, Ran-InOrder, acct_mgmt-InSequence}
use truenas_ros_utils.Pam.Order.Sequence.{login-InSequence, logout-InSequence}

module _ {H C P : Type 0} (machine : Machine H C P) where
  -- An operation that the caller runs on the transaction itself.
  abbrev direct : Entry → ℕ → Txn H (Installed C) P (Unit {0})
  direct entry argument =
      stack_op machine.grants (installed machine.conversation) machine.lib entry argument

  direct-InSequence :
      (entry : Entry) (argument : ℕ) (stage : Stage) (held : Held H C P) (flags : Flags)
      (limit : Option ℕ)
      → InSequence (at stage held flags limit)
      → InSequence (with_transaction (direct entry argument) (at stage held flags limit)).1
  unfolding with_transaction InSequence
  direct-InSequence entry argument stage (transaction_held txn) flags limit v =
      Ran-InOrder (op-Ran machine entry argument txn) v
  direct-InSequence entry argument stage (exchange s) flags limit v = v
  direct-InSequence entry argument stage nothing flags limit v = v

  -- What a consumer may do with an authenticator, whatever each answer is.
  pub data Move (a : Authenticator H C P) : Authenticator H C P → Type 0 where
    begins : Move a (begin machine a).1
    responds : (responses : Answers) → Move a (respond machine responses a).1
    checks : Move a (acct_mgmt machine a).1
    logs_in : Move a (login machine a).1
    logs_out : Move a (logout machine a).1
    runs : (entry : Entry) (argument : ℕ) → Move a (with_transaction (direct entry argument) a).1
    sets_flags : (flags : Flags) → Move a (with_flags flags a)
    sets_timeout : (d : ℕ) → Move a (with_timeout d a)

  pub data Reach (a : Authenticator H C P) : Authenticator H C P → Type 0 where
    stays : Reach a a
    moves : {b c : Authenticator H C P} → Reach a b → Move b c → Reach a c

  Move-InSequence : {a b : Authenticator H C P} → Move a b → InSequence a → InSequence b
  unfolding with_flags with_timeout InSequence
  Move-InSequence {a} begins v = begin-InSequence machine a v
  Move-InSequence {a} (responds responses) v =
      respond_fields-InSequence machine responses a.stage a.held a.flags a.limit v
  Move-InSequence {a} checks v = acct_mgmt-InSequence machine a.stage a.held a.flags a.limit v
  Move-InSequence {a} logs_in v = login-InSequence machine a.stage a.held a.flags a.limit v
  Move-InSequence {a} logs_out v = logout-InSequence machine a.stage a.held a.flags a.limit v
  Move-InSequence {a} (runs entry argument) v =
      direct-InSequence entry argument a.stage a.held a.flags a.limit v
  Move-InSequence (sets_flags flags) v = v
  Move-InSequence (sets_timeout d) v = v

  Reach-InSequence : {a b : Authenticator H C P} → Reach a b → InSequence a → InSequence b
  Reach-InSequence stays v = v
  Reach-InSequence (moves r m) v = Move-InSequence m (Reach-InSequence r v)

  new-InSequence : (txn : Transaction H (Installed C) P) → InSequence (new txn)
  unfolding new InSequence required
  new-InSequence txn = none_left

  held-InOrder :
      (stage : Stage) (held : Held H C P) (txn : Transaction H (Installed C) P)
      → Fits stage held
      → held ≡ transaction_held txn
      → InOrder (required stage) txn.calls
  held-InOrder stage held txn v h = subst (λ h. Fits stage h) h v

  -- From a new authenticator on, whatever its operations and the caller's own calls on the
  -- transaction are and whatever libpam answers, the calls on a transaction that it holds are in
  -- the order that its stage asks for: an authentication that succeeded before the account check
  -- that passed, before the credentials that were granted, before the session that opened, and at
  -- the end the closing of the session before the revocation of the credentials.
  pub Reach-InOrder :
      (start_txn txn : Transaction H (Installed C) P) (a : Authenticator H C P)
      → Reach (new start_txn) a
      → a.held ≡ transaction_held txn
      → InOrder (required a.stage) txn.calls
  unfolding InSequence
  Reach-InOrder start_txn txn a r h =
      held-InOrder a.stage a.held txn (Reach-InSequence r (new-InSequence start_txn)) h
