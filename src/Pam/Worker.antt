-- ===== src/Pam/Worker.antt =====
-- The thread that runs an exchange, truenas_pam/src/step.rs: the stack of modules runs until it
-- meets the conversation, whose channel hands the round to the driver.
use truenas_ros_utils.Prelude.{ℕ, List, Bool, Option, some, none, Result, ok, err}
use truenas_ros_utils.Xdr.Signed.{ℤ}
use truenas_ros_utils.Pam.Error.{Error, timeout}
use truenas_ros_utils.Pam.Responses.{Memory}
use truenas_ros_utils.Pam.Conv.{
  Failure, failed, Answers, Conversation, ConvSlot, Message, RawMessage, Round, Reply, admit,
  read_messages, conv_err_reply, record_round, deliver, marshal,
}
use truenas_ros_utils.Pam.Libpam.{
  Entry, pam_authenticate, pam_chauthtok, Script, returns, asks, Libpam,
}
use truenas_ros_utils.Pam.Transaction.{Transaction, Flags, set_conversation, after, conclude, run}
pub mod Same

-- Which conversation a transaction holds: the exchange's channel, or one of the caller's.
pub data Installed (C : Type 0) : Type 0 where
  channel : Installed C
  caller : C → Installed C

module _ {C P : Type 0} (conversation : Conversation C P) where
  abbrev said : Result (Failure P) Answers × C → Result (Failure P) Answers × Installed C
  said (answers, c) = (answers, caller c)

  -- `Channel::converse` is this once the driver has let go: neither end of the channel answers.
  abbrev converse : Installed C → List Message → Result (Failure P) Answers × Installed C
  converse channel messages = (err (failed timeout), channel)
  converse (caller c) messages = said (conversation.converse c messages)

  abbrev pub installed : Conversation (Installed C) P
  installed = record { converse = converse }

pub data Op : Type 0 where
  authenticate_op chauthtok_op : Op

unfoldable pub entry_of : Op → Entry
entry_of authenticate_op = pam_authenticate
entry_of chauthtok_op = pam_chauthtok

-- What the worker holds while the stack runs. The transaction's slot is passed beside it.
pub record Running (H C P : Type 0) : Type 0 where
  pub entry : Entry
  pub argument : ℕ
  pub txn : Transaction H (Installed C) P
  pub restore : Installed C

-- In the conversation with a round, at the end with the outcome, or come apart outside both.
pub data Worker (H C P : Type 0) : Type 0 where
  parked :
      Running H C P
      → ConvSlot (Installed C) P
      → ℕ
      → List Message
      → Memory
      → (Reply → Script H)
      → Worker H C P
  returned : Transaction H (Installed C) P → Result (Failure P) (Unit {0}) → Worker H C P
  torn : P → Worker H C P

-- What surrounds the exchanges: the C allocator, the caller's conversations, libpam, whether a
-- worker keeps quiet for longer than a limit, and the `errno` of a thread that is not created.
pub record Machine (H C P : Type 0) : Type 0 where
  pub grants : ℕ → ℕ → Bool
  pub conversation : Conversation C P
  pub lib : Libpam H
  pub quiet : Worker H C P → ℕ → Bool
  pub spawn_error : Transaction H (Installed C) P → Option (Option ℤ)

module _ {C P : Type 0} where
  abbrev pub reply_error :
      Error → Memory → ConvSlot (Installed C) P → Reply × ConvSlot (Installed C) P
  reply_error e m slot = deliver (err (failed e)) m slot

module _ {H C P : Type 0} where
  -- The operation returned: its status is recorded and the caller's conversation put back.
  unfoldable pub hand_over :
      Running H C P
      → (ℤ × H) × ConvSlot (Installed C) P
      → Result (Failure P) (Unit {0}) × Transaction H (Installed C) P
  unfolding conclude set_conversation
  hand_over running ran =
      let ended = conclude ran.0.0 (after running.entry running.argument ran running.txn) in
      (ended.0, (set_conversation running.restore ended.1).1)

  abbrev pub returned_with :
      Result (Failure P) (Unit {0}) × Transaction H (Installed C) P → Worker H C P
  returned_with (result, txn) = returned txn result

  -- A round of the stack: one that the trampoline refuses is replied to at once (`next`), and one
  -- that reaches the conversation parks the worker.
  abbrev pub meet_messages :
      (Reply → ConvSlot (Installed C) P → Worker H C P)
      → Running H C P
      → ConvSlot (Installed C) P
      → ℕ
      → Memory
      → (Reply → Script H)
      → Result Error (List Message)
      → Worker H C P
  meet_messages next running slot count m rest (err e) =
      next (reply_error e m slot).0 (reply_error e m slot).1
  meet_messages next running slot count m rest (ok messages) =
      parked running (record_round messages slot) count messages m rest

  abbrev pub meet :
      (Reply → ConvSlot (Installed C) P → Worker H C P)
      → Running H C P
      → ConvSlot (Installed C) P
      → Memory
      → (Reply → Script H)
      → Option (ℕ × List (Option RawMessage))
      → Worker H C P
  meet next running slot m rest none = next (conv_err_reply m) slot
  meet next running slot m rest (some (count, raws)) =
      meet_messages next running slot count m rest (read_messages raws)

  -- The stack, up to the next round that reaches the conversation.
  unfoldable pub drive : Running H C P → Script H → ConvSlot (Installed C) P → Worker H C P
  unfolding hand_over deliver admit read_messages
  drive running (returns rc hdl) slot = returned_with (hand_over running ((rc, hdl), slot))
  drive running (asks round rest) slot =
      meet (λ reply s. drive running (rest reply) s) running slot round.memory rest (admit round)

module _ {H C P : Type 0} (machine : Machine H C P) where
  -- The driver's answers arrive, and the stack goes on.
  unfoldable pub resume :
      Running H C P
      → ConvSlot (Installed C) P
      → ℕ
      → Memory
      → (Reply → Script H)
      → Answers
      → Worker H C P
  unfolding marshal deliver drive
  resume running slot count m rest answers =
      let built = marshal machine.grants count (ok answers) m in
      let back = deliver built.0 built.1 slot in drive running (rest back.0) back.1

  -- The driver has let go: this round and every later one is a timeout, and the stack unwinds.
  unfoldable pub cancel :
      Running H C P
      → ConvSlot (Installed C) P
      → Memory
      → (Reply → Script H)
      → Result (Failure P) (Unit {0}) × Transaction H (Installed C) P
  unfolding hand_over run deliver
  cancel running slot m rest =
      let back = reply_error timeout m slot in
      hand_over running (run machine.grants (installed machine.conversation) (rest back.0) back.1)

  -- The worker's thread: the transaction with the channel in place, then the stack.
  unfoldable pub launch : Op → Flags → Transaction H (Installed C) P → Worker H C P
  unfolding drive set_conversation entry_of
  launch op flags txn =
      let swapped = set_conversation channel txn in
      drive
        (record {
          entry = entry_of op;
          argument = flags.bits;
          txn = swapped.1;
          restore = swapped.0;
        })
        (machine.lib.stack (entry_of op) flags.bits swapped.1.hdl) swapped.1.slot
