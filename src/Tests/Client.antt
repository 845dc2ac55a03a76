-- ===== src/Tests/Client.antt =====
-- truenas_jsonrpc: a caller whose encoder writes digits as they are and refuses one method, and a
-- batch of two.
use Prim.Native.Nat.{Ordering}
use Prim.Native.String
use Prim.Native.String.{String}
use truenas_ros_utils.Prelude.{
  ℕ, ◌+◌, ◌≤◌, ◌≡◌, refl, arith, List, [], ◌∷◌, ◌++◌, Option, some, none, Result, ok, err, length,
}
use truenas_ros_utils.Xdr.Signed.{negsuc}
use truenas_ros_utils.Jsonrpc.Json.{Json, Value}
use truenas_ros_utils.Jsonrpc.Json
use truenas_ros_utils.Jsonrpc.Frame.{frame, complete}
use truenas_ros_utils.Jsonrpc.Frame.Nested.{Piece, group, no_more, bytes}
use truenas_ros_utils.Jsonrpc.Client.{Encoder, Caller, batch_of}
use truenas_ros_utils.Jsonrpc.Client.Ids.{requests, counting, requests_ids}
use truenas_ros_utils.Jsonrpc.Client.Batch.{frame-batch_of}
use truenas_ros_utils.Jsonrpc.Reply.{Values, parse_answer}
use truenas_ros_utils.Jsonrpc.Reply.Outcome.{Sound, parse_answer-Sound}

abbrev raw_method : List ℕ → Result ℕ (List ℕ)
raw_method [] = err 1
raw_method method = ok method

abbrev raw_params : List ℕ → Result ℕ (List ℕ)
raw_params params = ok params

abbrev encoder : Encoder ℕ (List ℕ)
encoder = record {
  to_raw_value = raw_params;
  str_to_writer = raw_method;
  id_to_writer = λ id. ok (0x31 ∷ []);
  digits = λ n. n ∷ [];
}

abbrev calls : List (List ℕ × Option (List ℕ))
calls =
    (0x61 ∷ [], none)
    ∷ ([], none)
    ∷ (0x62 ∷ [], some (0x37 ∷ []))
    ∷ (0x63 ∷ [], some (0x5b ∷ 0x5d ∷ []))
    ∷ []

abbrev first : Caller
first = record { next = 1 }

requests_ids_example :
    (n : ℕ) × (n ≤ length calls)
    × ((requests encoder calls first).0 ≡ counting encoder 1 n)
    × ((requests encoder calls first).1.next ≡ 1 + n)
requests_ids_example = requests_ids encoder calls first (omega arith)

-- `[]`
abbrev empty_array : Piece
empty_array = group 0x5b 0x5d refl refl no_more

frame-batch_of_example :
    (batch_of [] ≡ none)
    × ((out : List ℕ) × (batch_of (bytes empty_array ∷ bytes empty_array ∷ []) ≡ some out)
        × (frame (out ++ (0x7b ∷ [])) ≡ complete (length out)))
frame-batch_of_example = frame-batch_of empty_array (empty_array ∷ []) (0x7b ∷ [])

-- The members of a successful response: any but `error`.
abbrev member : String → Option (List ℕ)
member name = elim (String.compare name "error") [
  | Ordering.eq ↦ none
  | _ ↦ some (0x32 ∷ 0x2e ∷ 0x30 ∷ [])
]

abbrev library : Json
library = record {
  check = λ text. none;
  elements = λ text. some [];
  members = λ text. some member;
  as_str = λ text. some text;
  value = λ text. some Json.null;
}

abbrev values : Values
values = record {
  object = λ text. none;
  as_i64 = λ v. some (negsuc 0);
  as_string = λ v. some "fault";
}

abbrev object_text : List ℕ
object_text = 0x7b ∷ 0x7d ∷ []

parse_answer-Sound_example : Sound (parse_answer library values object_text)
parse_answer-Sound_example = parse_answer-Sound library values object_text
