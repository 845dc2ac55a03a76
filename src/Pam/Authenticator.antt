-- ===== src/Pam/Authenticator.antt =====
-- `Authenticator` of truenas_pam/src/auth.rs: the login sequence in the order of the standard.
use truenas_ros_utils.Prelude.{
  ℕ, Bool, true, false, Option, some, none, Result, ok, err, if◌then◌else◌,
}
use truenas_ros_utils.Prelude.Exec.{Exec, pure, raise, ◌>>◌}
use truenas_ros_utils.Pam.Error.{Error, timeout, out_of_sequence}
use truenas_ros_utils.Pam.Conv.{Failure, failed, panicked, Answers}
use truenas_ros_utils.Pam.Transaction.{Transaction, Flags, Txn, empty}
use truenas_ros_utils.Pam.Worker.{Installed, Machine}
use truenas_ros_utils.Pam.Stepped
use truenas_ros_utils.Pam.Stepped.{Stepped, Step, prompt, finished, wait, finish, begin_recover}

pub data Stage : Type 0 where
  start authenticating authenticated account_checked session_open ended refusal : Stage

abbrev pub may_begin : Stage → Bool
may_begin start = true
may_begin refusal = true
may_begin _ = false

abbrev pub is_authenticating : Stage → Bool
is_authenticating authenticating = true
is_authenticating _ = false

abbrev pub is_authenticated : Stage → Bool
is_authenticated authenticated = true
is_authenticated _ = false

abbrev pub is_checked : Stage → Bool
is_checked account_checked = true
is_checked _ = false

abbrev pub is_open : Stage → Bool
is_open session_open = true
is_open _ = false

-- The transaction here, or on the exchange's worker, or not handed back.
pub data Held (H C P : Type 0) : Type 0 where
  transaction_held : Transaction H (Installed C) P → Held H C P
  exchange : Stepped H C P → Held H C P
  nothing : Held H C P

pub record Authenticator (H C P : Type 0) : Type 0 where
  pub held : Held H C P
  pub stage : Stage
  pub flags : Flags
  pub limit : Option ℕ

abbrev pub Login : Type 0 → Type 0 → Type 0 → Type 0 → Type 0
Login H C P A = Exec (Failure P) (Authenticator H C P) A

module _ {H C P : Type 0} where
  unfoldable pub new : Transaction H (Installed C) P → Authenticator H C P
  new txn = record { held = transaction_held txn; stage = start; flags = empty; limit = none }

  unfoldable pub with_flags : Flags → Authenticator H C P → Authenticator H C P
  with_flags flags a = record a { flags = flags }

  unfoldable pub with_timeout : ℕ → Authenticator H C P → Authenticator H C P
  with_timeout d a = record a { limit = some d }

  abbrev pub held_txn : Held H C P → Result (Failure P) (Transaction H (Installed C) P)
  held_txn (transaction_held txn) = ok txn
  held_txn (exchange s) = err (failed out_of_sequence)
  held_txn nothing = err (failed out_of_sequence)

  unfoldable pub transaction :
      Authenticator H C P → Result (Failure P) (Transaction H (Installed C) P)
  transaction a = held_txn a.held

  -- What is done through `self.transaction_mut()?`.
  abbrev pub on_txn : Txn H (Installed C) P (Unit {0}) → Held H C P → Login H C P (Unit {0})
  on_txn m (transaction_held txn) a = ((m txn).0, record a { held = transaction_held (m txn).1 })
  on_txn m (exchange s) a = (err (failed out_of_sequence), a)
  on_txn m nothing a = (err (failed out_of_sequence), a)

  unfoldable pub with_transaction : Txn H (Installed C) P (Unit {0}) → Login H C P (Unit {0})
  with_transaction m a = on_txn m a.held a

  abbrev pub set_stage : Stage → Login H C P (Unit {0})
  set_stage stage a = (ok tt, record a { stage = stage })

  abbrev pub out_of_turn : {A : Type 0} → Login H C P A
  out_of_turn a = (err (failed out_of_sequence), a)

module _ {H C P : Type 0} (machine : Machine H C P) where
  abbrev kept : Result (Failure P) (Transaction H (Installed C) P) → Held H C P
  kept (ok txn) = transaction_held txn
  kept (err e) = nothing

  -- `mem::replace(&mut self.held, Held::Nothing)`, finished when it was an exchange. A panic that
  -- `finish` resumes leaves here before the stage is written.
  abbrev pub settled :
      Stage → Result (Failure P) (Transaction H (Installed C) P) → Login H C P (Unit {0})
  settled stage (err (panicked payload)) a = (err (panicked payload), record a { held = nothing })
  settled stage outcome a = (ok tt, record a { held = kept outcome; stage = stage })

  abbrev settle_held : Stage → Held H C P → Login H C P (Unit {0})
  settle_held stage (exchange s) a = settled stage (finish machine s) a
  settle_held stage _ a = (ok tt, record a { held = nothing; stage = stage })

  unfoldable pub settle : Stage → Login H C P (Unit {0})
  unfolding finish
  settle stage a = settle_held stage a.held a

  -- The match on what the exchange answered.
  unfoldable pub advance : Result (Failure P) Step → Login H C P Step
  unfolding settle
  advance (ok (prompt messages)) a = (ok (prompt messages), record a { stage = authenticating })
  advance (ok finished) a = (settle authenticated >> pure finished) a
  advance (err (failed timeout)) a = (err (failed timeout), record a { stage = refusal })
  advance (err (failed e)) a = (settle refusal >> raise (failed e)) a
  advance (err (panicked payload)) a = (err (panicked payload), a)

  abbrev pub ask :
      Option Answers → Option ℕ → Stepped H C P → Result (Failure P) Step × Stepped H C P
  ask none limit s = wait machine limit s
  ask (some responses) limit s = Stepped.respond machine responses limit s

  abbrev pub step_held : Option Answers → Held H C P → Login H C P Step
  step_held responses (exchange s) a =
      let asked = ask responses a.limit s in advance asked.0 (record a { held = exchange asked.1 })
  step_held responses _ a = (err (failed out_of_sequence), a)

  unfoldable pub step : Option Answers → Login H C P Step
  unfolding advance wait Stepped.respond
  step responses a = step_held responses a.held a

  abbrev pub launched :
      Result (Transaction H (Installed C) P × Error) (Stepped H C P) → Login H C P Step
  launched (ok s) a = step none (record a { held = exchange s; stage = authenticating })
  launched (err (txn, e)) a =
      (err (failed e), record a { held = transaction_held txn; stage = refusal })

  abbrev pub begin_held : Held H C P → Login H C P Step
  begin_held (transaction_held txn) a = launched (begin_recover machine a.flags txn) a
  begin_held _ a = (err (failed out_of_sequence), a)

  unfoldable pub begin : Login H C P Step
  unfolding step begin_recover
  begin a = if may_begin a.stage then begin_held a.held a else out_of_turn a

  unfoldable pub respond : Answers → Login H C P Step
  unfolding step
  respond responses a = if is_authenticating a.stage then step (some responses) a else out_of_turn a
