-- ===== src/Pam/Conv.antt =====
-- The conversation of truenas_pam/src/conv.rs: messages, the slot that libpam's `appdata_ptr`
-- points at, and the function that libpam calls. A `Box<dyn Conversation>` is a state `C` with
-- its method; `P` is the payload of a panic.
use truenas_ros_utils.Prelude.{
  ℕ, zero, suc, Bool, true, false, ◌||◌, not, List, [], ◌∷◌, ◌++◌, map, Option, some, none, Result,
  ok, err, length, take, leb, ltb, ◌==◌, if◌then◌else◌,
}
use truenas_ros_utils.Xdr.Signed.{ℤ, pos, negsuc}
use truenas_ros_utils.Pam.Code.{conv_err}
use truenas_ros_utils.Pam.Error.{Error, pam, unknown_msg_style}
use truenas_ros_utils.Pam.Responses.{Secret, Memory, Array, responses_to_c}
pub mod Rounds
pub mod Reading
pub mod Replies

pub data MsgStyle : Type 0 where
  prompt_echo_off prompt_echo_on error_msg text_info : MsgStyle

unfoldable pub style_of : ℕ → Option MsgStyle
style_of style =
    if style == 1
    then some prompt_echo_off
    else if style == 2
    then some prompt_echo_on
    else if style == 3
    then some error_msg
    else if style == 4
    then some text_info
    else none

unfoldable pub from_raw : ℤ → Option MsgStyle
unfolding style_of
from_raw (pos style) = style_of style
from_raw (negsuc style) = none

unfoldable pub raw : MsgStyle → ℤ
raw prompt_echo_off = pos 1
raw prompt_echo_on = pos 2
raw error_msg = pos 3
raw text_info = pos 4

unfoldable pub wants_response : MsgStyle → Bool
wants_response prompt_echo_off = true
wants_response prompt_echo_on = true
wants_response _ = false

-- `Message` and `OwnedMessage`, which differ in who holds the text.
pub record Message : Type 0 where
  pub style : MsgStyle
  pub text : List ℕ

-- What `converse` raised: an error, or a panic.
pub data Failure (P : Type 0) : Type 0 where
  failed : Error → Failure P
  panicked : P → Failure P

abbrev pub Answers : Type 0
Answers = List (Option Secret)

-- The trait `Conversation`.
pub record Conversation (C P : Type 0) : Type 0 where
  pub converse : C → List Message → Result (Failure P) Answers × C

abbrev no_answer : Message → Option Secret
no_answer m = none

unfoldable pub unattended : {P : Type 0} → Conversation (Unit {0}) P
unattended = record { converse = λ c messages. (ok (map no_answer messages), c) }

pub record ConvSlot (C P : Type 0) : Type 0 where
  pub conv : C
  pub log : List (List Message)
  pub failure : Option (Failure P)

-- A `pam_message`, and a round of them as libpam passes it; `none` stands for a null pointer. The
-- heap is libpam's side of the call.
pub record RawMessage : Type 0 where
  pub msg_style : ℤ
  pub msg : Option (List ℕ)

pub record Round : Type 0 where
  pub num_msg : ℤ
  pub messages : Option (List (Option RawMessage))
  pub has_resp : Bool
  pub memory : Memory

-- What comes back to the module: the code, and what was written through `resp`, if anything was:
-- null or an array.
pub record Reply : Type 0 where
  pub code : ℤ
  pub written : Option (Option Array)
  pub heap : Memory

abbrev pub pam_success : ℤ
pam_success = pos 0

abbrev pub pam_conv_err : ℤ
pam_conv_err = pos 19

abbrev pub text_of : Option (List ℕ) → List ℕ
text_of none = []
text_of (some bytes) = bytes

abbrev pub message_of : RawMessage → Option MsgStyle → Result Error Message
message_of m none = err (unknown_msg_style m.msg_style)
message_of m (some style) = ok (record { style = style; text = text_of m.msg })

unfoldable pub read_message : Option RawMessage → Result Error Message
unfolding from_raw
read_message none = err (pam conv_err)
read_message (some m) = message_of m (from_raw m.msg_style)

abbrev pub prepend :
    Result Error Message → Result Error (List Message) → Result Error (List Message)
prepend (err e) rest = err e
prepend (ok m) (err e) = err e
prepend (ok m) (ok messages) = ok (m ∷ messages)

unfoldable pub read_messages : List (Option RawMessage) → Result Error (List Message)
unfolding read_message
read_messages [] = ok []
read_messages (m ∷ raws) = prepend (read_message m) (read_messages raws)

-- `(1..=PAM_MAX_NUM_MSG).contains(&num_msg)`, with the count as a `usize`.
abbrev pub count_of : ℤ → Option ℕ
count_of (negsuc n) = none
count_of (pos zero) = none
count_of (pos (suc n)) = if ltb n 32 then some (suc n) else none

-- The two early returns: the count and the pointers of a round that reaches the conversation.
abbrev pub offered :
    Option (List (Option RawMessage)) → Bool → Option ℕ → Option (ℕ × List (Option RawMessage))
offered (some raws) true (some count) = some (count, take count raws)
offered _ _ _ = none

unfoldable pub admit : Round → Option (ℕ × List (Option RawMessage))
admit round = offered round.messages round.has_resp (count_of round.num_msg)

abbrev pub conv_err_reply : Memory → Reply
conv_err_reply m = record { code = pam_conv_err; written = none; heap = m }

module _ {P : Type 0} where
  abbrev pub first_failure : Option (Failure P) → Failure P → Option (Failure P)
  first_failure none f = some f
  first_failure (some g) f = some g

  abbrev pub raised : Result Error Array × Memory → Result (Failure P) Array × Memory
  raised (ok array, m) = (ok array, m)
  raised (err e, m) = (err (failed e), m)

module _ {C P : Type 0} where
  abbrev pub new : C → ConvSlot C P
  new c = record { conv = c; log = []; failure = none }

  unfoldable pub replace_conv : C → ConvSlot C P → C × ConvSlot C P
  replace_conv c slot = (slot.conv, record slot { conv = c })

  unfoldable pub take_log : ConvSlot C P → List (List Message) × ConvSlot C P
  take_log slot = (slot.log, record slot { log = [] })

  unfoldable pub take_failure : ConvSlot C P → Option (Failure P) × ConvSlot C P
  take_failure slot = (slot.failure, record slot { failure = none })

  unfoldable pub fail : Failure P → ConvSlot C P → ConvSlot C P
  fail f slot = record slot { failure = first_failure slot.failure f }

  -- The last match of the trampoline.
  unfoldable pub deliver : Result (Failure P) Array → Memory → ConvSlot C P → Reply × ConvSlot C P
  unfolding fail
  deliver (ok array) m slot =
      (record { code = pam_success; written = some (some array); heap = m }, slot)
  deliver (err f) m slot =
      (record { code = pam_conv_err; written = some none; heap = m }, fail f slot)

  abbrev pub record_round : List Message → ConvSlot C P → ConvSlot C P
  record_round messages slot = record slot { log = slot.log ++ (messages ∷ []) }

module _ {P : Type 0} (grants : ℕ → ℕ → Bool) where
  -- The answers, checked against the count and copied out.
  unfoldable pub marshal :
      ℕ → Result (Failure P) Answers → Memory → Result (Failure P) Array × Memory
  unfolding responses_to_c
  marshal count (err f) m = (err f, m)
  marshal count (ok answers) m =
      if length answers == count
      then raised (responses_to_c grants answers m)
      else (err (failed (pam conv_err)), m)

module _ {C P : Type 0} (grants : ℕ → ℕ → Bool) (conversation : Conversation C P) where
  -- From the recorded round to the reply.
  unfoldable pub answer_round : ℕ → List Message → Memory → ConvSlot C P → Reply × ConvSlot C P
  unfolding marshal deliver
  answer_round count messages m slot =
      let said = conversation.converse slot.conv messages in
      let built = marshal grants count said.0 m in
      deliver built.0 built.1 (record slot { conv = said.1 })

  unfoldable pub hear :
      ℕ → Result Error (List Message) → Memory → ConvSlot C P → Reply × ConvSlot C P
  unfolding answer_round
  hear count (err e) m slot = deliver (err (failed e)) m slot
  hear count (ok messages) m slot = answer_round count messages m (record_round messages slot)

  abbrev pub enter :
      Option (ℕ × List (Option RawMessage)) → Memory → ConvSlot C P → Reply × ConvSlot C P
  enter none m slot = (conv_err_reply m, slot)
  enter (some (count, raws)) m slot = hear count (read_messages raws) m slot

  unfoldable pub trampoline : Round → ConvSlot C P → Reply × ConvSlot C P
  unfolding hear
  trampoline round slot = enter (admit round) round.memory slot
