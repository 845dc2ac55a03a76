-- ===== src/Pam/Order/Exchange.antt =====
-- An exchange that authenticates: when it reports the end of a success, the transaction that it
-- gives back was authenticated.
use truenas_ros_utils.Prelude.{ℕ, ◌≡◌, ◌∙◌, Option, some, none, Result, ok, err, List, [], ◌∷◌}
use truenas_ros_utils.Xdr.Signed.{ℤ}
use truenas_ros_utils.Pam.Error.{Error}
use truenas_ros_utils.Pam.Responses.{Memory}
use truenas_ros_utils.Pam.Conv.{Failure, ConvSlot, Message, RawMessage, Reply, admit, read_messages}
use truenas_ros_utils.Pam.Libpam.{Entry, pam_authenticate, Script, returns, asks}
use truenas_ros_utils.Pam.Transaction.{Transaction, Call, set_conversation}
use truenas_ros_utils.Pam.Worker.{
  Installed, Running, Worker, parked, returned, torn, hand_over, drive, meet, meet_messages,
}
use truenas_ros_utils.Pam.Order.{InOrder, none_left, here, accepted, Meets}
use truenas_ros_utils.Pam.Order.Calls.{Ran, conclude-Ran}

abbrev pub Accepted : List Call → Type 0
Accepted = InOrder (accepted ∷ [])

module _ {H C P : Type 0} where
  pub Accepted-Ran :
      {entry : Entry} {argument : ℕ} {calls : List Call} {outcome : Result (Failure P) (Unit {0})}
      {txn : Transaction H C P}
      → entry ≡ pam_authenticate
      → Ran entry argument calls outcome txn
      → outcome ≡ ok tt
      → Accepted txn.calls
  unfolding Meets
  Accepted-Ran e r h = rw r.calls_eq (here (r.entry_eq ∙ e, r.code_eq h) none_left)

module _ {H C P : Type 0} where
  -- What a worker of an authentication promises.
  unfoldable pub IsLogin : Worker H C P → Type 0
  IsLogin (parked running slot count messages m rest) = running.entry ≡ pam_authenticate
  IsLogin (returned txn outcome) = outcome ≡ ok tt → Accepted txn.calls
  IsLogin (torn payload) = Unit {0}

  pub hand_over-Accepted :
      (running : Running H C P) (ran : (ℤ × H) × ConvSlot (Installed C) P)
      → running.entry ≡ pam_authenticate
      → (hand_over running ran).0 ≡ ok tt
      → Accepted (hand_over running ran).1.calls
  unfolding hand_over set_conversation
  hand_over-Accepted running ran e h =
      Accepted-Ran e (conclude-Ran running.entry running.argument ran running.txn) h

  abbrev Goes : (Reply → ConvSlot (Installed C) P → Worker H C P) → Type 0
  Goes next = (reply : Reply) (slot : ConvSlot (Installed C) P) → IsLogin (next reply slot)

  meet_messages-IsLogin :
      (next : Reply → ConvSlot (Installed C) P → Worker H C P) (running : Running H C P)
      (slot : ConvSlot (Installed C) P) (count : ℕ) (m : Memory) (rest : Reply → Script H)
      (read : Result Error (List Message))
      → running.entry ≡ pam_authenticate
      → Goes next
      → IsLogin (meet_messages next running slot count m rest read)
  unfolding IsLogin
  meet_messages-IsLogin next running slot count m rest (err e) h g = g _ _
  meet_messages-IsLogin next running slot count m rest (ok messages) h g = h

  meet-IsLogin :
      (next : Reply → ConvSlot (Installed C) P → Worker H C P) (running : Running H C P)
      (slot : ConvSlot (Installed C) P) (m : Memory) (rest : Reply → Script H)
      (offer : Option (ℕ × List (Option RawMessage)))
      → running.entry ≡ pam_authenticate
      → Goes next
      → IsLogin (meet next running slot m rest offer)
  meet-IsLogin next running slot m rest none h g = g _ _
  meet-IsLogin next running slot m rest (some (count, raws)) h g =
      meet_messages-IsLogin next running slot count m rest (read_messages raws) h g

  pub drive-IsLogin :
      (running : Running H C P) (script : Script H) (slot : ConvSlot (Installed C) P)
      → running.entry ≡ pam_authenticate
      → IsLogin (drive running script slot)
  unfolding drive IsLogin
  drive-IsLogin running (returns rc hdl) slot e = hand_over-Accepted running ((rc, hdl), slot) e
  drive-IsLogin running (asks r rest) slot e =
      meet-IsLogin _ running slot r.memory rest (admit r) e
        (λ reply s. drive-IsLogin running (rest reply) s e)
