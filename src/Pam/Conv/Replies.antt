-- ===== src/Pam/Conv/Replies.antt =====
-- The trampoline answers every round as Rounds has it.
use truenas_ros_utils.Prelude.{
  ℕ, Bool, ◌≡◌, refl, inl, inr, Bool-cases, List, [], ◌∷◌, ◌++◌, length, take, Option, some, none,
  Result, ok, err, ◌==◌, ==→eq, eq→==,
}
use truenas_ros_utils.Pam.Code.{conv_err}
use truenas_ros_utils.Pam.Error.{Error, pam}
use truenas_ros_utils.Pam.Responses.{Memory, Array, responses_to_c}
use truenas_ros_utils.Pam.Conv.{
  Failure, failed, Conversation, ConvSlot, Message, RawMessage, Round, Reply, Answers,
  read_messages, admit, raised, deliver, marshal, fail, first_failure, trampoline, hear,
  answer_round,
}
use truenas_ros_utils.Pam.Conv.Rounds.{
  Asks, Says, earliest, Recorded, Refused, Replied, turned_away, unreadable, gave_up, miscounted,
  not_copied, answered,
}
use truenas_ros_utils.Pam.Conv.Reading.{
  Offer, offered_cases, read_messages-Unreadable, read_messages-Says,
}

first_failure_lem :
    {P : Type 0} (before : Option (Failure P)) (f : Failure P)
    → first_failure before f ≡ some (earliest before f)
unfolding earliest
first_failure_lem none f = refl
first_failure_lem (some g) f = refl

module _ {C P : Type 0} (grants : ℕ → ℕ → Bool) (conversation : Conversation C P) where
  Replies : Round → ConvSlot C P → Reply × ConvSlot C P → Type 0
  Replies round slot r = Replied grants conversation round slot r.0 r.1

  -- The part of the slot that the call left when the conversation has answered.
  abbrev heard : ConvSlot C P → List Message → C → ConvSlot C P
  heard slot messages c = record {
    conv = c;
    log = slot.log ++ (messages ∷ []);
    failure = slot.failure;
  }

  module _ (round : Round) (slot : ConvSlot C P) (count : ℕ) (raws : List (Option RawMessage))
      (messages : List Message) (asks : Asks round count raws)
      (says : Says (take count raws) messages) where
    copied_Replies :
        (answers : Answers) (c : C) (copied : Result Error Array × Memory)
        → conversation.converse slot.conv messages ≡ (ok answers, c)
        → length answers ≡ count
        → responses_to_c grants answers round.memory ≡ copied
        → Replies round slot
            (deliver (raised {P = P} copied).0 (raised {P = P} copied).1 (heard slot messages c))
    unfolding Replies deliver fail Refused Recorded
    copied_Replies answers c (ok array, heap) said size copied =
        answered count raws messages answers c array heap asks says said size copied refl
          (refl, refl) refl
    copied_Replies answers c (err e, heap) said size copied =
        not_copied count raws messages answers c e heap asks says said size copied
          (refl, first_failure_lem slot.failure (failed e)) (refl, refl)

    said_Replies :
        (said : Result (Failure P) Answers) (c : C)
        → conversation.converse slot.conv messages ≡ (said, c)
        → (let built = marshal grants count said round.memory in
            Replies round slot (deliver built.0 built.1 (heard slot messages c)))
    unfolding Replies marshal deliver fail Refused Recorded
    said_Replies (err f) c said =
        gave_up count raws messages f c asks says said (refl, first_failure_lem slot.failure f)
          (refl, refl)
    said_Replies (ok answers) c said = elim (Bool-cases (length answers == count)) [
      | inl same ↦
          (let size = ==→eq (length answers) count same in
            rw same (
              copied_Replies answers c (responses_to_c grants answers round.memory) said size refl))
      | inr other ↦ rw other (
          miscounted count raws messages answers c asks says said
            (λ e. let same = eq→== (length answers) count e in cc)
            (refl, first_failure_lem slot.failure (failed (pam conv_err))) (refl, refl))
    ]

  hear-Replies :
      (round : Round) (slot : ConvSlot C P) (count : ℕ) (raws : List (Option RawMessage))
      (found : Result Error (List Message))
      → Asks round count raws
      → read_messages (take count raws) ≡ found
      → Replies round slot (hear grants conversation count found round.memory slot)
  unfolding Replies hear answer_round deliver fail Refused
  hear-Replies round slot count raws (err e) asks found =
      unreadable count raws e asks (read_messages-Unreadable (take count raws) e found)
        (refl, first_failure_lem slot.failure (failed e)) refl refl
  hear-Replies round slot count raws (ok messages) asks found =
      let said = conversation.converse slot.conv messages in
      said_Replies round slot count raws messages asks
        (read_messages-Says (take count raws) messages found) said.0 said.1 refl

  -- Every round ends in one of six ways, each under its own condition. A round is turned away, with
  -- nothing written and the slot untouched, exactly when it is no question. A question is refused
  -- with a null array and the first failure kept if a message cannot be read, and then it is not
  -- recorded; and also if the conversation gives up, miscounts its answers or they cannot be copied
  -- out. It is answered with the array of the answers otherwise. A round whose messages could be
  -- read is recorded with these messages, last in the log.
  pub trampoline-Replied :
      (round : Round) (slot : ConvSlot C P)
      → (let r = trampoline grants conversation round slot in
          Replied grants conversation round slot r.0 r.1)
  unfolding trampoline admit Replies Offer
  trampoline-Replied round slot = elim (offered_cases round.messages round.has_resp round.num_msg) [
    | inl (off, none_asked) ↦ rw off (turned_away none_asked refl refl)
    | inr (count, raws, on, asks) ↦
        rw on (hear-Replies round slot count raws (read_messages (take count raws)) asks refl)
  ]
