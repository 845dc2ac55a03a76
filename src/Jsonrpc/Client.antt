-- ===== src/Jsonrpc/Client.antt =====
-- truenas_jsonrpc/src/client.rs: the ids that a client mints and the frames that it builds.
use truenas_ros_utils.Prelude.{
  ℕ, ◌+◌, ◌^◌, ◌-◌, min, Bool, true, false, ◌||◌, List, [], ◌∷◌, ◌++◌, Option, some, none, Result,
  ok, err, ◌==◌, if◌then◌else◌,
}
use truenas_ros_utils.Prelude.Exec.{Exec}
use truenas_ros_utils.Jsonrpc.Request.{RequestId, number}
pub mod Ids
pub mod Batch

-- What serde_json writes: a value of `T` and a `str`, each of which may fail with `E`, an id, and
-- the digits of a `u64`.
pub record Encoder (E T : Type 0) : Type 0 where
  pub to_raw_value : T → Result E (List ℕ)
  pub str_to_writer : List ℕ → Result E (List ℕ)
  pub id_to_writer : RequestId → Result E (List ℕ)
  pub digits : ℕ → List ℕ

pub data BuildError (E : Type 0) : Type 0 where
  params_not_structured : BuildError E
  encode : E → BuildError E

pub record Caller : Type 0 where
  pub next : ℕ

unfoldable pub new : Caller
new = record { next = 1 }

-- `{"jsonrpc":"2.0","method":`
abbrev pub preamble : List ℕ
preamble =
    0x7b ∷ 0x22 ∷ 0x6a ∷ 0x73 ∷ 0x6f ∷ 0x6e ∷ 0x72 ∷ 0x70 ∷ 0x63 ∷ 0x22 ∷ 0x3a ∷ 0x22 ∷ 0x32 ∷ 0x2e
    ∷ 0x30 ∷ 0x22 ∷ 0x2c ∷ 0x22 ∷ 0x6d ∷ 0x65 ∷ 0x74 ∷ 0x68 ∷ 0x6f ∷ 0x64 ∷ 0x22 ∷ 0x3a ∷ []

-- `,"params":`
abbrev pub params_key : List ℕ
params_key = 0x2c ∷ 0x22 ∷ 0x70 ∷ 0x61 ∷ 0x72 ∷ 0x61 ∷ 0x6d ∷ 0x73 ∷ 0x22 ∷ 0x3a ∷ []

-- `,"id":`
abbrev pub id_key : List ℕ
id_key = 0x2c ∷ 0x22 ∷ 0x69 ∷ 0x64 ∷ 0x22 ∷ 0x3a ∷ []

module _ {E A B : Type 0} where
  abbrev pub and_then :
      Result (BuildError E) A → (A → Result (BuildError E) B) → Result (BuildError E) B
  and_then (ok a) f = f a
  and_then (err e) f = err e

abbrev pub encoded : {E A : Type 0} → Result E A → Result (BuildError E) A
encoded (ok a) = ok a
encoded (err e) = err (encode e)

-- `matches!(raw.get().as_bytes().first(), Some(b'[' | b'{'))`
abbrev pub is_structured : List ℕ → Bool
is_structured [] = false
is_structured (b ∷ bs) = b == 0x5b || b == 0x7b

-- `saturating_add(1)` on a `u64`
abbrev pub saturating_next : ℕ → ℕ
saturating_next n = min (n + 1) (2 ^ 64 - 1)

module _ {E T : Type 0} (encoder : Encoder E T) where
  abbrev with_params : List ℕ → List ℕ → Result (BuildError E) (List ℕ)
  with_params head raw =
      if is_structured raw then ok (head ++ params_key ++ raw) else err params_not_structured

  abbrev open_params : Option T → List ℕ → Result (BuildError E) (List ℕ)
  open_params none head = ok head
  open_params (some params) head =
      and_then (encoded (encoder.to_raw_value params)) (with_params head)

  -- `open`, which is a keyword here: the object is left open.
  unfoldable pub open_object : List ℕ → Option T → Result (BuildError E) (List ℕ)
  open_object method params =
      and_then (encoded (encoder.str_to_writer method)) (λ m. open_params params (preamble ++ m))

  unfoldable pub request_with_id : RequestId → List ℕ → Option T → Result (BuildError E) (List ℕ)
  unfolding open_object
  request_with_id id method params = and_then (open_object method params) (λ out.
      and_then (encoded (encoder.id_to_writer id)) (λ i. ok (out ++ id_key ++ i ++ (0x7d ∷ []))))

  unfoldable pub notification : List ℕ → Option T → Result (BuildError E) (List ℕ)
  unfolding open_object
  notification method params = and_then (open_object method params) (λ out. ok (out ++ (0x7d ∷ [])))

  unfoldable pub peek_id : Caller → RequestId
  peek_id caller = number (encoder.digits caller.next)

  abbrev pub taken :
      RequestId → Result (BuildError E) (List ℕ) → Exec (BuildError E) Caller (RequestId × List ℕ)
  taken id (ok frame) caller =
      (ok (id, frame), record caller { next = saturating_next caller.next })
  taken id (err e) caller = (err e, caller)

  unfoldable pub request : List ℕ → Option T → Exec (BuildError E) Caller (RequestId × List ℕ)
  unfolding request_with_id peek_id
  request method params caller =
      taken (peek_id caller) (request_with_id (peek_id caller) method params) caller

-- The objects behind the first, each behind its comma.
abbrev pub more_objects : List (List ℕ) → List ℕ
more_objects [] = []
more_objects (object ∷ objects) = 0x2c ∷ (object ++ more_objects objects)

unfoldable pub batch_of : List (List ℕ) → Option (List ℕ)
batch_of [] = none
batch_of (object ∷ objects) = some (0x5b ∷ (object ++ (more_objects objects ++ (0x5d ∷ []))))
