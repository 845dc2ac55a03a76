-- ===== src/Pam/Conv/Rounds.antt =====
-- How the function that libpam calls ends each round, as the ADG and the source's comments have it.
use truenas_ros_utils.Prelude.{
  ℕ, ◌≤◌, ◌≡◌, ◌≢◌, Bool, true, List, [], ◌∷◌, ◌++◌, length, take, Option, some, none, ok, err,
}
use truenas_ros_utils.Xdr.Signed.{ℤ, pos}
use truenas_ros_utils.Pam.Code.{conv_err}
use truenas_ros_utils.Pam.Error.{Error, pam, unknown_msg_style}
use truenas_ros_utils.Pam.Responses.{Memory, Array, responses_to_c}
use truenas_ros_utils.Pam.Conv.{
  Failure, failed, Conversation, ConvSlot, Message, MsgStyle, RawMessage, Round, Reply, Answers,
  raw, text_of, pam_success, pam_conv_err,
}

-- A round that may reach the conversation: between one message and the ceiling of the header, and
-- somewhere to put the answers.
unfoldable pub IsQuestion :
    Option (List (Option RawMessage)) → Bool → ℤ → ℕ → List (Option RawMessage) → Type 0
IsQuestion messages has_resp num_msg count raws =
    (messages ≡ some raws) × (has_resp ≡ true) × (num_msg ≡ pos count) × (1 ≤ count) × (count ≤ 32)

abbrev pub Asks : Round → ℕ → List (Option RawMessage) → Type 0
Asks round = IsQuestion round.messages round.has_resp round.num_msg

-- The messages that the pointers of a round stand for: none is null, each has the number of its
-- style and its text.
unfoldable pub Says : List (Option RawMessage) → List Message → Type 0
Says [] [] = Unit {0}
Says (some r ∷ raws) (m ∷ messages) =
    (raw m.style ≡ r.msg_style) × (m.text ≡ text_of r.msg) × Says raws messages
Says _ _ = ⊥

-- The first of the pointers that stands for no message, and the error for it: it is null, or its
-- style has a number that is no style's.
pub data Unreadable : List (Option RawMessage) → Error → Type 0 where
  null_message : {raws : List (Option RawMessage)} → Unreadable (none ∷ raws) (pam conv_err)
  no_style :
      {r : RawMessage} {raws : List (Option RawMessage)}
      → ((style : MsgStyle) → raw style ≢ r.msg_style)
      → Unreadable (some r ∷ raws) (unknown_msg_style r.msg_style)
  behind :
      {r : RawMessage} {raws : List (Option RawMessage)} {e : Error}
      → (style : MsgStyle) → raw style ≡ r.msg_style
      → Unreadable raws e
      → Unreadable (some r ∷ raws) e

-- The failure that is reported after the call: the first one.
unfoldable pub earliest : {P : Type 0} → Option (Failure P) → Failure P → Failure P
earliest none f = f
earliest (some g) f = g

module _ {C P : Type 0} where
  -- A round is recorded behind the earlier ones, and the conversation has moved on.
  unfoldable pub Recorded : ConvSlot C P → C → List Message → ConvSlot C P → Type 0
  Recorded slot c messages after = (after.conv ≡ c) × (after.log ≡ slot.log ++ (messages ∷ []))

  -- The reply with a null array, and the slot that has the failure.
  unfoldable pub Refused : ConvSlot C P → Failure P → Memory → Reply → ConvSlot C P → Type 0
  Refused slot f heap reply after =
      (reply ≡ record { code = pam_conv_err; written = some none; heap = heap })
      × (after.failure ≡ some (earliest slot.failure f))

module _ {C P : Type 0} (grants : ℕ → ℕ → Bool) (conversation : Conversation C P) where
  pub data Replied (round : Round) (slot : ConvSlot C P) (reply : Reply) (after : ConvSlot C P)
      : Type 0 where
    -- No question: nothing is written and the slot is as it was.
    turned_away :
        ((count : ℕ) (raws : List (Option RawMessage)) → Asks round count raws → ⊥)
        → reply ≡ record { code = pam_conv_err; written = none; heap = round.memory }
        → after ≡ slot
        → Replied round slot reply after
    -- A null pointer or an unknown style: the conversation is not asked, and nothing is recorded.
    unreadable :
        (count : ℕ) (raws : List (Option RawMessage)) (e : Error)
        → Asks round count raws
        → Unreadable (take count raws) e
        → Refused slot (failed e) round.memory reply after
        → after.conv ≡ slot.conv
        → after.log ≡ slot.log
        → Replied round slot reply after
    -- The conversation raised an error or panicked.
    gave_up :
        (count : ℕ) (raws : List (Option RawMessage)) (messages : List Message) (f : Failure P)
        (c : C)
        → Asks round count raws
        → Says (take count raws) messages
        → conversation.converse slot.conv messages ≡ (err f, c)
        → Refused slot f round.memory reply after
        → Recorded slot c messages after
        → Replied round slot reply after
    -- It gave too few answers or too many.
    miscounted :
        (count : ℕ) (raws : List (Option RawMessage)) (messages : List Message) (answers : Answers)
        (c : C)
        → Asks round count raws
        → Says (take count raws) messages
        → conversation.converse slot.conv messages ≡ (ok answers, c)
        → length answers ≢ count
        → Refused slot (failed (pam conv_err)) round.memory reply after
        → Recorded slot c messages after
        → Replied round slot reply after
    -- The answers could not be copied out.
    not_copied :
        (count : ℕ) (raws : List (Option RawMessage)) (messages : List Message) (answers : Answers)
        (c : C) (e : Error) (heap : Memory)
        → Asks round count raws
        → Says (take count raws) messages
        → conversation.converse slot.conv messages ≡ (ok answers, c)
        → length answers ≡ count
        → responses_to_c grants answers round.memory ≡ (err e, heap)
        → Refused slot (failed e) heap reply after
        → Recorded slot c messages after
        → Replied round slot reply after
    -- The answers went out, and no failure was added.
    answered :
        (count : ℕ) (raws : List (Option RawMessage)) (messages : List Message) (answers : Answers)
        (c : C) (array : Array) (heap : Memory)
        → Asks round count raws
        → Says (take count raws) messages
        → conversation.converse slot.conv messages ≡ (ok answers, c)
        → length answers ≡ count
        → responses_to_c grants answers round.memory ≡ (ok array, heap)
        → reply ≡ record { code = pam_success; written = some (some array); heap = heap }
        → Recorded slot c messages after
        → after.failure ≡ slot.failure
        → Replied round slot reply after
