-- ===== src/Pam/Stepped.antt =====
-- `Stepped` of truenas_pam/src/step.rs: an exchange that is driven one round at a time.
use truenas_ros_utils.Prelude.{
  ℕ, Bool, true, false, List, Option, some, none, Result, ok, err, if◌then◌else◌,
}
use truenas_ros_utils.Prelude.Exec.{Exec, pure, ◌>>◌}
use truenas_ros_utils.Xdr.Signed.{ℤ, pos}
use truenas_ros_utils.Pam.Error.{Error, timeout, out_of_sequence, os}
use truenas_ros_utils.Pam.Conv.{Failure, failed, panicked, Answers, Message}
use truenas_ros_utils.Pam.Transaction.{Transaction, Flags}
use truenas_ros_utils.Pam.Worker.{
  Installed, Machine, Op, authenticate_op, chauthtok_op, Worker, parked, returned, torn, resume,
  cancel, launch,
}

pub data Step : Type 0 where
  prompt : List Message → Step
  finished : Step

pub data Phase : Type 0 where
  started prompting ended stopped : Phase

-- `answers` and `events` tell whether this side still holds its end of each channel.
pub record Stepped (H C P : Type 0) : Type 0 where
  pub worker : Option (Worker H C P)
  pub answers : Bool
  pub events : Bool
  pub phase : Phase
  pub handed_back : Option (Transaction H (Installed C) P)

abbrev pub Driver : Type 0 → Type 0 → Type 0 → Type 0 → Type 0
Driver H C P A = Exec (Failure P) (Stepped H C P) A

-- What a wait for the next event brings.
pub data Received : Type 0 where
  round : List Message → Received
  finish_event disconnected timed_out : Received

abbrev pub is_started : Phase → Bool
is_started started = true
is_started _ = false

abbrev pub is_prompting : Phase → Bool
is_prompting prompting = true
is_prompting _ = false

module _ {H C P : Type 0} (machine : Machine H C P) where
  -- `worker.join()`, once the ends of both channels are gone.
  unfoldable pub join :
      Worker H C P → Result P (Result (Failure P) (Unit {0}) × Transaction H (Installed C) P)
  unfolding cancel
  join (parked running slot count messages m rest) = ok (cancel machine running slot m rest)
  join (returned txn result) = ok (result, txn)
  join (torn payload) = err payload

  abbrev pub keep :
      Result P (Result (Failure P) (Unit {0}) × Transaction H (Installed C) P)
      → Driver H C P (Unit {0})
  keep (ok (result, txn)) s = (result, record s { handed_back = some txn })
  keep (err payload) s = (err (panicked payload), s)

  abbrev collected : Option (Worker H C P) → Driver H C P (Unit {0})
  collected none s = (ok tt, s)
  collected (some w) s = keep (join w) s

  unfoldable pub reap : Driver H C P (Unit {0})
  unfolding join
  reap s = collected s.worker (record s { answers = false; events = false; worker = none })

  -- The event that the worker sends, or waits to send.
  abbrev pub event_of : Worker H C P → Received
  event_of (parked running slot count messages m rest) = round messages
  event_of (returned txn result) = finish_event
  event_of (torn payload) = disconnected

  abbrev pub receive : Option ℕ → Option (Worker H C P) → Received
  receive limit none = disconnected
  receive none (some w) = event_of w
  receive (some d) (some w) = if machine.quiet w d then timed_out else event_of w

  unfoldable pub end_with_reap : Driver H C P Step
  unfolding reap
  end_with_reap s = (reap >> pure finished) (record s { phase = ended })

  abbrev pub on_event : Received → Driver H C P Step
  on_event (round messages) s = (ok (prompt messages), record s { phase = prompting })
  on_event finish_event s = end_with_reap s
  on_event disconnected s = end_with_reap s
  on_event timed_out s = (err (failed timeout), record s { phase = stopped })

  unfoldable pub collect : Option ℕ → Driver H C P Step
  unfolding end_with_reap
  collect limit s =
      if s.events then on_event (receive limit s.worker) s else (err (failed out_of_sequence), s)

  unfoldable pub wait : Option ℕ → Driver H C P Step
  unfolding collect
  wait limit s = if is_started s.phase then collect limit s else (err (failed out_of_sequence), s)

  -- `answers.send(responses)`: the worker that takes them, or none if nobody is there.
  unfoldable pub send : Bool → Option (Worker H C P) → Answers → Option (Worker H C P)
  unfolding resume
  send true (some (parked running slot count messages m rest)) responses =
      some (resume machine running slot count m rest responses)
  send _ _ responses = none

  abbrev pub after_send : Option ℕ → Option (Worker H C P) → Driver H C P Step
  after_send limit none s = end_with_reap s
  after_send limit (some w) s = collect limit (record s { worker = some w; phase = started })

  unfoldable pub respond : Answers → Option ℕ → Driver H C P Step
  unfolding send collect end_with_reap
  respond responses limit s =
      if is_prompting s.phase
      then after_send limit (send s.answers s.worker responses) s
      else (err (failed out_of_sequence), s)

  abbrev pub or_outcome :
      Result (Failure P) (Unit {0})
      → Option (Transaction H (Installed C) P)
      → Result (Failure P) (Transaction H (Installed C) P)
  or_outcome (err (panicked payload)) back = err (panicked payload)
  or_outcome outcome (some txn) = ok txn
  or_outcome (err (failed e)) none = err (failed e)
  or_outcome (ok u) none = err (failed out_of_sequence)

  -- `finish(self)`
  unfoldable pub finish : Stepped H C P → Result (Failure P) (Transaction H (Installed C) P)
  unfolding reap
  finish s = or_outcome (reap s).0 (reap s).1.handed_back

  -- `raw_os_error().unwrap_or(libc::EAGAIN)`
  abbrev errno_of : Option ℤ → ℤ
  errno_of none = pos 11
  errno_of (some e) = e

  abbrev pub spawned :
      Option (Option ℤ)
      → Op
      → Flags
      → Transaction H (Installed C) P
      → Result (Transaction H (Installed C) P × Error) (Stepped H C P)
  spawned (some e) op flags txn = err (txn, os (errno_of e))
  spawned none op flags txn = ok (record {
    worker = some (launch machine op flags txn);
    answers = true;
    events = true;
    phase = started;
    handed_back = none;
  })

  -- `Stepped::run`; a failed spawn gives the transaction back with its conversation in place.
  unfoldable pub run_op :
      Op
      → Flags
      → Transaction H (Installed C) P
      → Result (Transaction H (Installed C) P × Error) (Stepped H C P)
  unfolding launch
  run_op op flags txn = spawned (machine.spawn_error txn) op flags txn

  abbrev drop_txn :
      Result (Transaction H (Installed C) P × Error) (Stepped H C P) → Result Error (Stepped H C P)
  drop_txn (ok s) = ok s
  drop_txn (err (txn, e)) = err e

  unfoldable pub begin : Flags → Transaction H (Installed C) P → Result Error (Stepped H C P)
  unfolding run_op
  begin flags txn = drop_txn (run_op authenticate_op flags txn)

  unfoldable pub begin_chauthtok :
      Flags → Transaction H (Installed C) P → Result Error (Stepped H C P)
  unfolding run_op
  begin_chauthtok flags txn = drop_txn (run_op chauthtok_op flags txn)

  unfoldable pub begin_recover :
      Flags
      → Transaction H (Installed C) P
      → Result (Transaction H (Installed C) P × Error) (Stepped H C P)
  unfolding run_op
  begin_recover flags txn = run_op authenticate_op flags txn
