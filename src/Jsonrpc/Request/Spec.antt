-- ===== src/Jsonrpc/Request/Spec.antt =====
-- What JSON-RPC 2.0 asks of a request and of a batch, written without the parser: on the members and
-- the elements that the JSON library finds.
use Prim.Native.String.{String}
use truenas_ros_utils.Prelude.{
  ℕ, ◌<◌, ◌≡◌, ◌⊎◌, Option, none, some, List, [], ◌∷◌, ◌++◌, All, length,
}
use truenas_ros_utils.Jsonrpc.Json
use truenas_ros_utils.Jsonrpc.Json.{Json}
use truenas_ros_utils.Jsonrpc.ErrorObject.{invalid_request}
use truenas_ros_utils.Jsonrpc.Request.{
  RequestId, number, string, null, Params, positional, named, Request, Call, invalid, borrowed, one,
}

-- The whitespace of JSON: space, tab, line feed and carriage return.
unfoldable pub IsSpace : ℕ → Type 0
IsSpace b = (b ≡ 0x20) ⊎ (b ≡ 0x09) ⊎ (b ≡ 0x0a) ⊎ (b ≡ 0x0d)

-- A text that begins with a byte, whitespace aside.
unfoldable pub Begins : ℕ → List ℕ → Type 0
unfolding IsSpace
Begins b text =
    (spaces : List ℕ) × (rest : List ℕ) × All IsSpace spaces × (text ≡ spaces ++ (b ∷ rest))

-- A member that is there and is a string.
unfoldable pub IsString : Json → Option (List ℕ) → List ℕ → Type 0
IsString json member text = (raw : List ℕ) × (member ≡ some raw) × (json.as_str raw ≡ some text)

-- The id that a member gives: none only if the member is missing.
pub data IsId (json : Json) : Option (List ℕ) → Option RequestId → Type 0 where
  no_id : IsId json none none
  null_id : {raw : List ℕ} → json.value raw ≡ some Json.null → IsId json (some raw) (some null)
  string_id :
      {raw s : List ℕ}
      → json.value raw ≡ some (Json.string s)
      → IsId json (some raw) (some (string s))
  number_id :
      {raw n : List ℕ}
      → json.value raw ≡ some (Json.number n)
      → IsId json (some raw) (some (number n))

-- The parameters that a member gives: an array, an object, or none if it is missing.
pub data IsParams : Option (List ℕ) → Option Params → Type 0 where
  no_params : IsParams none none
  by_position : {raw : List ℕ} → Begins 0x5b raw → IsParams (some raw) (some (positional raw))
  by_name : {raw : List ℕ} → Begins 0x7b raw → IsParams (some raw) (some (named raw))

-- An object of version "2.0", with its id, its method and its parameters.
unfoldable pub IsRequest : Json → List ℕ → Request → Type 0
IsRequest json text r =
    (members : String → Option (List ℕ)) × (json.members text ≡ some members)
    × IsString json (members "jsonrpc") (0x32 ∷ 0x2e ∷ 0x30 ∷ [])
    × IsId json (members "id") r.id
    × IsString json (members "method") r.method
    × IsParams (members "params") r.params

-- The call of one element of a batch: an object is taken as a request alone is, and anything else
-- is answered to null.
pub data IsElement (json : Json) (raw : List ℕ) : Call → Type 0 where
  object : Begins 0x7b raw → IsElement json raw (one json raw)
  no_object :
      (Begins 0x7b raw → ⊥)
      → IsElement json raw
          (invalid null invalid_request (borrowed "a batch element must be an Object"))

-- One call for each element, in their order.
unfoldable pub Elements : Json → List (List ℕ) → List Call → Type 0
Elements json [] [] = Unit {0}
Elements json (raw ∷ raws) (call ∷ calls) = IsElement json raw call × Elements json raws calls
Elements json _ _ = ⊥

-- A non-empty array, and the calls of its elements.
unfoldable pub IsBatch : Json → List ℕ → List Call → Type 0
IsBatch json text calls =
    Begins 0x5b text
    × ((elements : List (List ℕ)) × (json.elements text ≡ some elements)
        × (0 < length elements)
        × Elements json elements calls)
