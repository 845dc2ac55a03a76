-- ===== src/Jsonrpc/Reply/Outcome.antt =====
-- Each reply that is read has an outcome, so the `unreachable!` of `Reply::outcome` is not reached.
use Prim.Native.String.{String}
use truenas_ros_utils.Prelude.{
  ℕ, ◌≡◌, ◌≢◌, refl, Bool, true, false, List, [], ◌∷◌, Option, some, none, Result, ok, err, ◌==◌,
  if◌then◌else◌, All,
}
use truenas_ros_utils.Xdr.Utf8.{is_utf8}
use truenas_ros_utils.Jsonrpc.Json.{Json}
use truenas_ros_utils.Jsonrpc.ErrorObject.{ErrorObject}
use truenas_ros_utils.Jsonrpc.Request.{
  RequestId, Reason, borrowed, first_token, is_version, from_raw, string_member,
}
use truenas_ros_utils.Jsonrpc.Reply.{
  Reply, Said, result_said, failure_said, outcome, Answer, single, batch, invalid, Values,
  or_reason, error_object, failing, chosen, with_members, one, prepend, each, batched, of_elements,
  lone, of_token, checked, parse_answer,
}

abbrev pub HasOutcome : Reply → Type 0
HasOutcome r = (said : Said) × (outcome r ≡ some said)

pub Sound : Answer → Type 0
Sound (single r) = HasOutcome r
Sound (batch replies) = (replies ≢ []) × All HasOutcome replies
Sound (invalid reason) = Unit {0}

IsRead : Result Reason Reply → Type 0
IsRead (ok r) = HasOutcome r
IsRead (err reason) = Unit {0}

or_reason-IsRead :
    {A : Type 0} (o : Option A) (reason : String) (f : A → Result Reason Reply)
    → ((a : A) → IsRead (f a))
    → IsRead (or_reason o reason f)
unfolding IsRead
or_reason-IsRead none reason f h = tt
or_reason-IsRead (some a) reason f h = h a

module _ (json : Json) (values : Values) where
  failing-IsRead :
      (id : RequestId) (e : Result Reason ErrorObject) → IsRead (failing json values id e)
  unfolding IsRead outcome
  failing-IsRead id (ok e) = (failure_said e, refl)
  failing-IsRead id (err reason) = tt

  chosen-IsRead :
      (id : RequestId) (result error : Option (List ℕ))
      → IsRead (chosen json values id result error)
  unfolding IsRead outcome
  chosen-IsRead id (some raw) none = (result_said raw, refl)
  chosen-IsRead id none (some raw) = failing-IsRead id (error_object json values raw)
  chosen-IsRead id (some r) (some e) = tt
  chosen-IsRead id none none = tt

  with_members-IsRead :
      (members : String → Option (List ℕ)) → IsRead (with_members json values members)
  unfolding IsRead
  with_members-IsRead members =
      elim (is_version (string_member json (members "jsonrpc")))
        as (λ v. IsRead (
          if v
          then or_reason (members "id") "'id' is required in a response" (λ raw.
            or_reason (from_raw json raw) "'id' must be a String, a Number, or Null"
              (λ id. chosen json values id (members "result") (members "error")))
          else err (borrowed "'jsonrpc' must be exactly \"2.0\""))) [
            | true ↦ or_reason-IsRead (members "id") _ _ (λ raw.
                or_reason-IsRead (from_raw json raw) _ _
                  (λ id. chosen-IsRead id (members "result") (members "error")))
            | false ↦ tt
          ]

  one-IsRead : (text : List ℕ) → IsRead (one json values text)
  unfolding one
  one-IsRead text = or_reason-IsRead (json.members text) _ _ with_members-IsRead

  AreRead : Result Reason (List Reply) → Type 0
  AreRead (ok replies) = All HasOutcome replies
  AreRead (err reason) = Unit {0}

  prepend-AreRead :
      (r : Result Reason Reply) (rest : Result Reason (List Reply))
      → IsRead r
      → AreRead rest
      → AreRead (prepend json values r rest)
  unfolding IsRead AreRead
  prepend-AreRead (ok r) (ok replies) h k = (h, k)
  prepend-AreRead (ok r) (err reason) h k = tt
  prepend-AreRead (err reason) rest h k = tt

  each-AreRead : (raws : List (List ℕ)) → AreRead (each json values raws)
  unfolding each AreRead
  each-AreRead [] = tt
  each-AreRead (raw ∷ raws) =
      prepend-AreRead (one json values raw) (each json values raws) (one-IsRead raw)
        (each-AreRead raws)

  batched-Sound :
      (r : Result Reason Reply) (rest : Result Reason (List Reply))
      → IsRead r
      → AreRead rest
      → Sound (batched json values (prepend json values r rest))
  unfolding IsRead AreRead Sound
  batched-Sound (ok r) (ok replies) h k = ((λ e. cc), (h, k))
  batched-Sound (ok r) (err reason) h k = tt
  batched-Sound (err reason) rest h k = tt

  of_elements-Sound : (elements : Option (List (List ℕ))) → Sound (of_elements json values elements)
  unfolding Sound each
  of_elements-Sound none = tt
  of_elements-Sound (some []) = tt
  of_elements-Sound (some (raw ∷ raws)) =
      batched-Sound (one json values raw) (each json values raws) (one-IsRead raw)
        (each-AreRead raws)

  lone-Sound : (r : Result Reason Reply) → IsRead r → Sound (lone json values r)
  unfolding IsRead Sound
  lone-Sound (ok r) h = h
  lone-Sound (err reason) h = tt

  of_byte-Sound :
      (text : List ℕ) (object array : Bool)
      → Sound (
          if object
          then lone json values (one json values text)
          else if array
          then of_elements json values (json.elements text)
          else invalid (borrowed "a response must be an Object and a batch answer an Array"))
  unfolding Sound
  of_byte-Sound text true array = lone-Sound (one json values text) (one-IsRead text)
  of_byte-Sound text false true = of_elements-Sound (json.elements text)
  of_byte-Sound text false false = tt

  of_token-Sound : (text : List ℕ) (token : Option ℕ) → Sound (of_token json values text token)
  unfolding Sound
  of_token-Sound text none = tt
  of_token-Sound text (some b) = of_byte-Sound text (b == 0x7b) (b == 0x5b)

  checked-Sound :
      (text : List ℕ) (complaint : Option (List ℕ)) → Sound (checked json values text complaint)
  unfolding Sound
  checked-Sound text (some message) = tt
  checked-Sound text none = of_token-Sound text (first_token text)

  utf8-Sound :
      (frame : List ℕ) (valid : Bool)
      → Sound (
          if valid
          then checked json values frame (json.check frame)
          else invalid (borrowed "not UTF-8"))
  unfolding Sound
  utf8-Sound frame true = checked-Sound frame (json.check frame)
  utf8-Sound frame false = tt

  -- Whatever the frame holds, a lone reply that is read from it and every reply of a batch that is
  -- read from it has exactly one outcome, a result or a failure, and such a batch is not empty.
  pub parse_answer-Sound : (frame : List ℕ) → Sound (parse_answer json values frame)
  unfolding parse_answer
  parse_answer-Sound frame = utf8-Sound frame (is_utf8 frame)
