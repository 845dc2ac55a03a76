-- ===== src/Pam/Worker/Same.antt =====
-- An exchange that is driven round by round ends as the same operation does on the caller's own
-- thread.
use truenas_ros_utils.Prelude.{
  ℕ, ◌≡◌, refl, sym, Option, some, none, Result, ok, err, List, [], ◌∷◌, ◌++◌,
}
use truenas_ros_utils.Xdr.Signed.{ℤ}
use truenas_ros_utils.Pam.Error.{Error}
use truenas_ros_utils.Pam.Responses.{Memory, Array}
use truenas_ros_utils.Pam.Conv.{
  Failure, failed, Answers, ConvSlot, Message, RawMessage, Reply, admit, read_messages, deliver,
  marshal, fail, first_failure, replace_conv, trampoline, enter, hear, answer_round, conv_err_reply,
  take_failure,
}
use truenas_ros_utils.Pam.Libpam.{Script, returns, asks}
use truenas_ros_utils.Pam.Transaction.{
  Transaction, Flags, stack_op, run, conclude, take_conv_failure, set_conversation,
}
use truenas_ros_utils.Pam.Worker.{
  Installed, channel, caller, installed, Machine, Running, Worker, parked, returned, hand_over,
  drive, meet, meet_messages, resume, Op, entry_of, launch,
}

module _ {H C P : Type 0} (machine : Machine H C P) where
  -- A driver that answers each round as a conversation of the caller does.
  pub data Drives
      : C
        → Worker H C P
        → Result (Failure P) (Unit {0}) × Transaction H (Installed C) P
        → Type 0 where
    over :
        {c : C} {txn : Transaction H (Installed C) P} {outcome : Result (Failure P) (Unit {0})}
        → Drives c (returned txn outcome) (outcome, txn)
    answers :
        {c c' : C} {running : Running H C P} {slot : ConvSlot (Installed C) P} {count : ℕ}
        {messages : List Message} {m : Memory} {rest : Reply → Script H} {given : Answers}
        {out : Result (Failure P) (Unit {0}) × Transaction H (Installed C) P}
        → machine.conversation.converse c messages ≡ (ok given, c')
        → Drives c' (resume machine running slot count m rest given) out
        → Drives c (parked running slot count messages m rest) out

  abbrev slot_of : Installed C → List (List Message) → Option (Failure P) → ConvSlot (Installed C) P
  slot_of i log failure = record { conv = i; log = log; failure = failure }

  -- The conversation that a slot holds is put back at the end, so it does not show in the outcome.
  hand_over_conv :
      (running : Running H C P) (rc : ℤ) (hdl : H) (log : List (List Message))
      (failure : Option (Failure P)) (i j : Installed C)
      → hand_over running ((rc, hdl), slot_of i log failure)
        ≡ hand_over running ((rc, hdl), slot_of j log failure)
  unfolding hand_over conclude take_conv_failure take_failure set_conversation replace_conv
  hand_over_conv running rc hdl log none i j = refl
  hand_over_conv running rc hdl log (some f) i j = refl

  -- The stack on the caller's own thread, with the caller's conversation.
  abbrev direct :
      Running H C P
      → Script H
      → C
      → List (List Message)
      → Option (Failure P)
      → Result (Failure P) (Unit {0}) × Transaction H (Installed C) P
  direct running script c log failure =
      hand_over running (
        run machine.grants (installed machine.conversation) script (slot_of (caller c) log failure))

  abbrev Follows : Running H C P → Script H → Type 0
  Follows running script =
      (c : C) (log : List (List Message)) (failure : Option (Failure P))
      → Drives c (drive running script (slot_of channel log failure))
          (direct running script c log failure)

  delivered_follows :
      (running : Running H C P) (rest : Reply → Script H) (built : Result (Failure P) Array)
      (m : Memory) (c : C) (log : List (List Message)) (failure : Option (Failure P))
      → ((reply : Reply) → Follows running (rest reply))
      → (let there = deliver built m (slot_of channel log failure) in
          let back = deliver built m (slot_of (caller c) log failure) in
          Drives c (drive running (rest there.0) there.1) (
            hand_over running
              (run machine.grants (installed machine.conversation) (rest back.0) back.1)))
  unfolding deliver fail
  delivered_follows running rest (ok array) m c log failure f = f _ c log failure
  delivered_follows running rest (err e) m c log failure f = f _ c log (first_failure failure e)

module _ {H C P : Type 0} (machine : Machine H C P)
    (answering : (c : C) (messages : List Message)
      → (given : Answers) × ((c' : C) × (machine.conversation.converse c messages
            ≡ (ok given, c')))) where
  heard_follows :
      (running : Running H C P) (rest : Reply → Script H) (count : ℕ) (m : Memory) (c : C)
      (log : List (List Message)) (failure : Option (Failure P))
      (read : Result Error (List Message))
      → ((reply : Reply) → Follows machine running (rest reply))
      → (let back =
            hear machine.grants
              (installed machine.conversation)
              count
              read
              m
              (slot_of machine (caller c) log failure) in
          Drives machine c
            (meet_messages
              (λ reply s. drive running (rest reply) s)
              running
              (slot_of machine channel log failure)
              count
              m
              rest
              read)
            (hand_over running
              (run machine.grants (installed machine.conversation) (rest back.0) back.1)))
  unfolding hear answer_round resume
  heard_follows running rest count m c log failure (err e) f =
      delivered_follows machine running rest (err (failed e)) m c log failure f
  heard_follows running rest count m c log failure (ok messages) f =
      let a = answering c messages in
      let built = marshal machine.grants count (ok a.0) m in
      answers a.1.1 (
        rw a.1.1 (
          delivered_follows machine running rest built.0 built.1 a.1.0 (log ++ (messages ∷ []))
            failure f))

  met_follows :
      (running : Running H C P) (rest : Reply → Script H) (m : Memory) (c : C)
      (log : List (List Message)) (failure : Option (Failure P))
      (offer : Option (ℕ × List (Option RawMessage)))
      → ((reply : Reply) → Follows machine running (rest reply))
      → (let back =
            enter machine.grants
              (installed machine.conversation)
              offer
              m
              (slot_of machine (caller c) log failure) in
          Drives machine c
            (meet
              (λ reply s. drive running (rest reply) s)
              running
              (slot_of machine channel log failure)
              m
              rest
              offer)
            (hand_over running
              (run machine.grants (installed machine.conversation) (rest back.0) back.1)))
  met_follows running rest m c log failure none f = f (conv_err_reply m) c log failure
  met_follows running rest m c log failure (some (count, raws)) f =
      heard_follows running rest count m c log failure (read_messages raws) f

  drive-Follows : (running : Running H C P) (script : Script H) → Follows machine running script
  unfolding drive run trampoline
  drive-Follows running (returns rc hdl) c log failure =
      rw (hand_over_conv machine running rc hdl log failure (caller c) channel) over
  drive-Follows running (asks round rest) c log failure =
      met_follows running rest round.memory c log failure (admit round)
        (λ reply. drive-Follows running (rest reply))

  installed_same :
      (op : Op) (flags : Flags) (txn : Transaction H (Installed C) P) (c : C)
      → (let held = record txn { slot = record txn.slot { conv = caller c } } in
          let r =
            stack_op machine.grants
              (installed machine.conversation)
              machine.lib
              (entry_of op)
              flags.bits
              held in
          Drives machine c
            (launch machine op flags held)
            (r.0, (set_conversation (caller c) r.1).1))
  unfolding launch stack_op set_conversation replace_conv hand_over
  installed_same op flags txn c =
      drive-Follows
        (record {
          entry = entry_of op;
          argument = flags.bits;
          txn = record txn { slot = record txn.slot { conv = channel } };
          restore = caller c;
        })
        (machine.lib.stack (entry_of op) flags.bits txn.hdl) c txn.slot.log txn.slot.failure

  -- Where the caller's conversation answers every round, an exchange whose driver answers as that
  -- conversation does ends, and with the outcome and the transaction that the same operation has
  -- on the caller's own thread, once the conversation is put back.
  pub launch_same :
      (op : Op) (flags : Flags) (txn : Transaction H (Installed C) P) (c : C)
      → txn.slot.conv ≡ caller c
      → (let r =
            stack_op machine.grants
              (installed machine.conversation)
              machine.lib
              (entry_of op)
              flags.bits
              txn in
          Drives machine c
            (launch machine op flags txn)
            (r.0, (set_conversation txn.slot.conv r.1).1))
  launch_same op flags txn c h = rw (sym h) at (installed_same op flags txn c)
