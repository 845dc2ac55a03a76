-- ===== src/Jsonrpc/Request/Calls.antt =====
-- What the calls of a frame say of it.
use Prim.Native.String.{String}
use truenas_ros_utils.Prelude.{
  ℕ, ◌≡◌, ◌↔◌, inl, inr, refl, ap, true, Bool-cases, Option, none, some, List,
}
use truenas_ros_utils.Jsonrpc.Json.{Json}
use truenas_ros_utils.Jsonrpc.ErrorObject.{ErrorObject}
use truenas_ros_utils.Jsonrpc.Request.Spec.{IsRequest}
use truenas_ros_utils.Jsonrpc.Request.Members.{
  two_point_zero, version_of, string_member-IsString, string_member_of, request_id-IsId,
  request_id_of, request_params-IsParams, request_params_of,
}
use truenas_ros_utils.Jsonrpc.Request.{
  RequestId, Params, Request, valid, is_version, string_member, request_id, request_params,
  with_params, with_method, with_id, with_members, one,
}

module _ (json : Json) where
  with_params_valid :
      (id : Option RequestId) (method : List ℕ) (params : Option (Option Params)) (r : Request)
      → with_params json id method params ≡ valid r
      → (id ≡ r.id) × (method ≡ r.method) × (params ≡ some r.params)
  with_params_valid id method none r h = cc
  with_params_valid id method (some params) r h =
      let e : Path Request (record { id = id; method = method; params = params }) r = cc in
      (ap Request.id e, ap Request.method e, ap (λ q. some (Request.params q)) e)

  with_method_valid :
      (id : Option RequestId) (method params : Option (List ℕ)) (r : Request)
      → with_method json id method params ≡ valid r
      → (id ≡ r.id) × (method ≡ some r.method) × (request_params json params ≡ some r.params)
  with_method_valid id none params r h = cc
  with_method_valid id (some method) params r h =
      let (i, m, p) = with_params_valid id method (request_params json params) r h in
      (i, ap some m, p)

  with_id_valid :
      (members : String → Option (List ℕ)) (id : Option (Option RequestId)) (r : Request)
      → with_id json members id ≡ valid r
      → (is_version (string_member json (members "jsonrpc")) ≡ true)
        × (id ≡ some r.id)
        × (string_member json (members "method") ≡ some r.method)
        × (request_params json (members "params") ≡ some r.params)
  with_id_valid members none r h = cc
  with_id_valid members (some id) r h =
      elim (Bool-cases (is_version (string_member json (members "jsonrpc")))) [
        | inl version ↦
            (let (i, m, p) =
                with_method_valid id (string_member json (members "method")) (members "params") r
                  (rw version at h) in
              (version, ap some i, m, p))
        | inr other ↦ (let e = rw other at h in cc)
      ]

  with_members_valid :
      (found : Option (String → Option (List ℕ))) (r : Request)
      → with_members json found ≡ valid r
      → (members : String → Option (List ℕ)) × (found ≡ some members)
        × (is_version (string_member json (members "jsonrpc")) ≡ true)
        × (request_id json (members "id") ≡ some r.id)
        × (string_member json (members "method") ≡ some r.method)
        × (request_params json (members "params") ≡ some r.params)
  with_members_valid none r h = cc
  with_members_valid (some members) r h =
      let (v, i, m, p) = with_id_valid members (request_id json (members "id")) r h in
      (members, refl, v, i, m, p)

  one-IsRequest : (text : List ℕ) (r : Request) → one json text ≡ valid r → IsRequest json text r
  unfolding one IsRequest
  one-IsRequest text r h =
      let (members, found, version, id, method, params) =
        with_members_valid (json.members text) r h in
      (
        members,
        found,
        string_member-IsString json (members "jsonrpc") two_point_zero (version_of _ version),
        request_id-IsId json (members "id") r.id id,
        string_member-IsString json (members "method") r.method method,
        request_params-IsParams json (members "params") r.params params,
      )

  one_of : (text : List ℕ) (r : Request) → IsRequest json text r → one json text ≡ valid r
  unfolding one IsRequest
  one_of text r (members, found, version, id, method, params) =
      rw
        (
          found,
          request_id_of json (members "id") r.id id,
          string_member_of json (members "jsonrpc") two_point_zero version,
          string_member_of json (members "method") r.method method,
          request_params_of json (members "params") r.params params,
        )
        refl

  -- A text passes as a request exactly when it is an object whose version is the string "2.0", whose
  -- method is a string, whose id is missing, null, a string or a number, and whose parameters are
  -- missing, an array or an object; and the request has that method, that id and those parameters.
  pub one_valid : (text : List ℕ) (r : Request) → (one json text ≡ valid r) ↔ IsRequest json text r
  one_valid text r = (one-IsRequest text r, one_of text r)
