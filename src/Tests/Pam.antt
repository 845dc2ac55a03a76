-- ===== src/Tests/Pam.antt =====
-- truenas_pam: a library whose stack asks for one password, and a caller that answers it.
use truenas_ros_utils.Prelude.{
  ℕ, ◌+◌, ◌≡◌, refl, Bool, true, false, [], ◌∷◌, map, take, Option, some, none, Result, ok, err,
}
use truenas_ros_utils.Xdr.Signed.{ℤ, pos}
use truenas_ros_utils.Xdr.Utf8.{is_utf8}
use truenas_ros_utils.Pam.Error.{nul_byte, check}
use truenas_ros_utils.Pam.Responses.{Secret, Memory, Array, responses_to_c, fill, free_responses}
use truenas_ros_utils.Pam.Responses.Built.{wipes}
use truenas_ros_utils.Pam.Responses.Read.{
  read_back, read_back-responses_to_c, responses_to_c_refused,
}
use truenas_ros_utils.Pam.Conv
use truenas_ros_utils.Pam.Conv.{
  Conversation, ConvSlot, Message, RawMessage, Round, Reply, Answers, prompt_echo_off, trampoline,
}
use truenas_ros_utils.Pam.Conv.Rounds.{Replied}
use truenas_ros_utils.Pam.Conv.Replies.{trampoline-Replied}
use truenas_ros_utils.Pam.Libpam.{
  Entry, pam_authenticate, pam_acct_mgmt, pam_setcred, pam_open_session, Script, returns, asks,
  Libpam,
}
use truenas_ros_utils.Pam.Transaction
use truenas_ros_utils.Pam.Transaction.{Transaction, Flags, Call, empty, stack_op, set_conversation}
use truenas_ros_utils.Pam.Settings.{split_env, check_env_name}
use truenas_ros_utils.Pam.Settings.Entries.{split_env-putenv}
use truenas_ros_utils.Pam.Builder.{Builder, builder, build}
use truenas_ros_utils.Pam.Builder.Outcome.{Built, build-Built}
use truenas_ros_utils.Pam.Worker.{
  Installed, caller, installed, Machine, authenticate_op, entry_of, launch,
}
use truenas_ros_utils.Pam.Worker.Same.{Drives, launch_same}
use truenas_ros_utils.Pam.Authenticator.{
  Authenticator, transaction_held, account_checked, new, begin, respond,
}
use truenas_ros_utils.Pam.Session.{acct_mgmt, login}
use truenas_ros_utils.Pam.Order.{InOrder, required}
use truenas_ros_utils.Pam.Order.Reach.{
  stays, moves, begins, responds, checks, logs_in, Reach-InOrder,
}
use truenas_ros_utils.Pam.Order.Credentials.{LoggedIn, login-LoggedIn}

abbrev serves : ℕ → ℕ → Bool
serves serial size = true

abbrev clean : Memory
clean = record { buffers = []; arrays = []; next = 1; freed = [] }

abbrev password : Secret
password = record { bytes = 0x70 ∷ 0x77 ∷ [] }

abbrev one_array : Array
one_array = record { start = 1; cells = some 2 ∷ none ∷ [] }

abbrev password_held : Memory
password_held = record {
  buffers = record { address = 2; content = 0x70 ∷ 0x77 ∷ 0 ∷ [] } ∷ [];
  arrays = 1 ∷ [];
  next = 3;
  freed = [];
}

password_stored :
    responses_to_c serves (some password ∷ none ∷ []) clean ≡ (ok one_array, password_held)
unfolding responses_to_c fill
password_stored = refl

read_back-responses_to_c_example :
    (read_back one_array password_held ≡ some password ∷ none ∷ [])
    × (password_held.arrays ≡ 1 ∷ [])
read_back-responses_to_c_example =
    read_back-responses_to_c serves (some password ∷ none ∷ []) clean password_held one_array tt
      password_stored

abbrev two_answers : Answers
two_answers = some password ∷ some (record { bytes = 0x61 ∷ 0 ∷ [] }) ∷ []

abbrev swept : Memory
swept = record { buffers = []; arrays = []; next = 3; freed = (0 ∷ 0 ∷ 0 ∷ []) ∷ [] }

nul_refused : responses_to_c serves two_answers clean ≡ (err nul_byte, swept)
unfolding responses_to_c fill free_responses
nul_refused = refl

responses_to_c_refused_example :
    (swept.buffers ≡ [])
    × (swept.arrays ≡ [])
    × ((k : ℕ) × (swept.freed ≡ wipes (take k two_answers) []))
responses_to_c_refused_example =
    responses_to_c_refused serves two_answers clean swept nul_byte tt nul_refused

abbrev answered : Message → Option Secret
answered m = some password

-- A caller that answers each round with the password, and counts the rounds.
abbrev counting : Conversation ℕ ℕ
counting = record { converse = λ rounds messages. (ok (map answered messages), rounds + 1) }

abbrev question : Round
question = record {
  num_msg = pos 1;
  messages = some (some (record { msg_style = pos 1; msg = none }) ∷ []);
  has_resp = true;
  memory = clean;
}

abbrev fresh_slot : ConvSlot ℕ ℕ
fresh_slot = Conv.new 0

trampoline-Replied_example :
    Replied serves counting question fresh_slot
      (trampoline serves counting question fresh_slot).0
      (trampoline serves counting question fresh_slot).1
trampoline-Replied_example = trampoline-Replied serves counting question fresh_slot

-- 0 for a password that arrived, `PAM_AUTH_ERR` for none.
abbrev verdict : Option (Option Array) → ℤ
verdict (some (some array)) = pos 0
verdict _ = pos 7

abbrev stack : Entry → ℕ → Unit {0} → Script (Unit {0})
stack pam_authenticate argument hdl = asks question (λ reply. returns (verdict reply.written) hdl)
stack entry argument hdl = returns (pos 0) hdl

abbrev library : Libpam (Unit {0})
library = record {
  stack = stack;
  start = λ service user confdir. (pos 0, tt);
  get_item = λ item hdl. (pos 0, none);
  set_item = λ item value hdl. (pos 29, hdl);
  fail_delay = λ usec hdl. (pos 0, hdl);
  getenv = λ name hdl. none;
  putenv = λ entry hdl. (pos 0, hdl);
  getenvlist = λ hdl. some [];
}

abbrev machine : Machine (Unit {0}) ℕ ℕ
machine = record {
  grants = serves;
  conversation = counting;
  lib = library;
  quiet = λ w limit. false;
  spawn_error = λ txn. none;
}

abbrev fresh : Transaction (Unit {0}) (Installed ℕ) ℕ
fresh = record { hdl = tt; slot = Conv.new (caller 0); last = pos 0; calls = [] }

abbrev after_begin : Authenticator (Unit {0}) ℕ ℕ
after_begin = (begin machine (new fresh)).1

abbrev after_answer : Authenticator (Unit {0}) ℕ ℕ
after_answer = (respond machine (some password ∷ []) after_begin).1

abbrev in_session : Authenticator (Unit {0}) ℕ ℕ
in_session = (login machine (acct_mgmt machine after_answer).1).1

abbrev call_of : Entry → ℕ → Call
call_of entry argument = record { entry = entry; argument = argument; code = pos 0 }

abbrev session_txn : Transaction (Unit {0}) (Installed ℕ) ℕ
session_txn = record {
  hdl = tt;
  slot = record {
    conv = caller 0;
    log = (record { style = prompt_echo_off; text = [] } ∷ []) ∷ [];
    failure = none;
  };
  last = pos 0;
  calls =
      call_of pam_open_session 0
      ∷ call_of pam_setcred 2
      ∷ call_of pam_acct_mgmt 0
      ∷ call_of pam_authenticate 0
      ∷ [];
}

session_is_held : in_session.held ≡ transaction_held session_txn
unfolding new begin respond acct_mgmt login stack_op check Transaction.acct_mgmt Transaction.setcred
    Transaction.open_session Transaction.raw
session_is_held = refl

Reach-InOrder_example : InOrder (required in_session.stage) session_txn.calls
Reach-InOrder_example =
    Reach-InOrder machine fresh session_txn in_session
      (moves (moves (moves (moves stays begins) (responds (some password ∷ []))) checks) logs_in)
      session_is_held

abbrev checked : Authenticator (Unit {0}) ℕ ℕ
checked = record {
  held = transaction_held fresh;
  stage = account_checked;
  flags = empty;
  limit = none;
}

login-LoggedIn_example : LoggedIn fresh.calls (login machine checked).0 (login machine checked).1
login-LoggedIn_example = login-LoggedIn machine checked fresh refl refl

abbrev direct_result : Result (Conv.Failure ℕ) (Unit {0}) × Transaction (Unit {0}) (Installed ℕ) ℕ
direct_result = stack_op serves (installed counting) library (entry_of authenticate_op) 0 fresh

launch_same_example :
    Drives machine 0
      (launch machine authenticate_op empty fresh)
      (direct_result.0, (set_conversation (caller 0) direct_result.1).1)
launch_same_example =
    launch_same machine (λ c messages. (map answered messages, (c + 1, refl))) authenticate_op empty
      fresh 0 refl

abbrev remote : Builder
remote = record (builder (0x61 ∷ [])) { rhost = some (0x62 ∷ []) }

build-Built_example : Built {C = ℕ} {P = ℕ} library remote 0 (build library remote 0)
build-Built_example = build-Built ℕ ℕ library remote 0

name_accepted : check_env_name (0x4e ∷ []) ≡ ok tt
unfolding check_env_name
name_accepted = refl

name_is_text : is_utf8 (0x4e ∷ []) ≡ true
unfolding is_utf8
name_is_text = refl

value_is_text : is_utf8 (0x3d ∷ 0x76 ∷ []) ≡ true
unfolding is_utf8
value_is_text = refl

split_env-putenv_example :
    split_env (0x4e ∷ 0x3d ∷ 0x3d ∷ 0x76 ∷ []) ≡ ok (0x4e ∷ [], 0x3d ∷ 0x76 ∷ [])
split_env-putenv_example =
    split_env-putenv (0x4e ∷ []) (0x3d ∷ 0x76 ∷ []) name_accepted name_is_text value_is_text
