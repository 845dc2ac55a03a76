-- ===== src/Jsonrpc/Request/Members.antt =====
-- The members of a request are read as the specification has them.
use truenas_ros_utils.Prelude.{
  ℕ, ◌≡◌, inl, inr, refl, Bool, true, false, Bool-cases, Option, none, some, List, [], ◌∷◌, ◌==◌,
  ==→eq, if◌then◌else◌, ◌&&◌,
}
use truenas_ros_utils.Jsonrpc.Json
use truenas_ros_utils.Jsonrpc.Json.{Json, Value}
use truenas_ros_utils.Jsonrpc.Frame.{is_ws}
use truenas_ros_utils.Jsonrpc.Request.{
  RequestId, number, string, null, Params, positional, named, is_version, id_of, from_raw,
  string_member, request_id, request_params, first_token,
}
use truenas_ros_utils.Jsonrpc.Request.Spec.{
  IsString, IsId, no_id, null_id, string_id, number_id, IsParams, no_params, by_position, by_name,
}
use truenas_ros_utils.Jsonrpc.Request.Tokens.{first_token_of, first_token-Begins}

abbrev pub two_point_zero : List ℕ
two_point_zero = 0x32 ∷ 0x2e ∷ 0x30 ∷ []

and_cases : (a b : Bool) → (a && b) ≡ true → (a ≡ true) × (b ≡ true)
and_cases true true h = (refl, refl)
and_cases true false h = cc
and_cases false b h = cc

pub version_of : (o : Option (List ℕ)) → is_version o ≡ true → o ≡ some two_point_zero
version_of none h = cc
version_of (some []) h = cc
version_of (some (a ∷ [])) h = cc
version_of (some (a ∷ b ∷ [])) h = cc
version_of (some (a ∷ b ∷ c ∷ d ∷ more)) h = cc
version_of (some (a ∷ b ∷ c ∷ [])) h =
    let (x, yz) = and_cases (a == 0x32) (b == 0x2e && c == 0x30) h in
    let (y, z) = and_cases (b == 0x2e) (c == 0x30) yz in
    let p = ==→eq a 0x32 x in let q = ==→eq b 0x2e y in let r = ==→eq c 0x30 z in cc

module _ (json : Json) where
  pub string_member-IsString :
      (member : Option (List ℕ)) (text : List ℕ)
      → string_member json member ≡ some text
      → IsString json member text
  unfolding IsString
  string_member-IsString none text h = cc
  string_member-IsString (some raw) text h = (raw, refl, h)

  pub string_member_of :
      (member : Option (List ℕ)) (text : List ℕ)
      → IsString json member text
      → string_member json member ≡ some text
  unfolding IsString
  string_member_of member text (raw, e, h) = rw e h

  id_of_value :
      (raw : List ℕ) (value : Option Value) (id : RequestId)
      → json.value raw ≡ value
      → id_of value ≡ some id
      → IsId json (some raw) (some id)
  id_of_value raw none id e h = cc
  id_of_value raw (some Json.other) id e h = cc
  id_of_value raw (some Json.null) id e h = let same : null ≡ id = cc in rw (← same) (null_id e)
  id_of_value raw (some (Json.string s)) id e h =
      let same : string s ≡ id = cc in rw (← same) (string_id e)
  id_of_value raw (some (Json.number n)) id e h =
      let same : number n ≡ id = cc in rw (← same) (number_id e)

  from_raw-IsId :
      (raw : List ℕ) (found : Option RequestId) (id : Option RequestId)
      → from_raw json raw ≡ found
      → (elim found [ none ↦ none | some i ↦ some (some i) ]) ≡ some id
      → IsId json (some raw) id
  unfolding from_raw
  from_raw-IsId raw none id e h = cc
  from_raw-IsId raw (some i) id e h =
      let same : some i ≡ id = cc in rw (← same) (id_of_value raw (json.value raw) i refl e)

  pub request_id-IsId :
      (member : Option (List ℕ)) (id : Option RequestId)
      → request_id json member ≡ some id
      → IsId json member id
  request_id-IsId none id h = (let same : none ≡ id = cc in rw (← same) no_id)
  request_id-IsId (some raw) id h = from_raw-IsId raw (from_raw json raw) id refl h

  pub request_id_of :
      (member : Option (List ℕ)) (id : Option RequestId)
      → IsId json member id
      → request_id json member ≡ some id
  unfolding from_raw
  request_id_of none none no_id = refl
  request_id_of none (some id) h = elim h [ ]
  request_id_of (some raw) none h = elim h [ ]
  request_id_of (some raw) (some id) (null_id e) = rw (request_id, from_raw, e) refl
  request_id_of (some raw) (some id) (string_id e) = rw (request_id, from_raw, e) refl
  request_id_of (some raw) (some id) (number_id e) = rw (request_id, from_raw, e) refl

  token-IsParams :
      (raw : List ℕ) (token : Option ℕ) (params : Option Params)
      → first_token raw ≡ token
      → (elim token [
        | none ↦ none
        | some b ↦
            if b == 0x5b
            then some (some (positional raw))
            else if b == 0x7b
            then some (some (named raw))
            else none
      ])
        ≡ some params
      → IsParams (some raw) params
  token-IsParams raw none params e h = cc
  token-IsParams raw (some b) params e h = elim (Bool-cases (b == 0x5b)) [
    | inl array ↦
        (let is = rw array at h in
          let same : some (positional raw) ≡ params = cc in
          let at : first_token raw ≡ some 0x5b = (let p = ==→eq b 0x5b array in cc) in
          rw (← same) (by_position (first_token-Begins 0x5b raw at)))
    | inr other ↦ (elim (Bool-cases (b == 0x7b)) [
      | inl object ↦
          (let is = rw (other, object) at h in
            let same : some (named raw) ≡ params = cc in
            let at : first_token raw ≡ some 0x7b = (let p = ==→eq b 0x7b object in cc) in
            rw (← same) (by_name (first_token-Begins 0x7b raw at)))
      | inr scalar ↦ (let is = rw (other, scalar) at h in cc)
    ])
  ]

  pub request_params-IsParams :
      (member : Option (List ℕ)) (params : Option Params)
      → request_params json member ≡ some params
      → IsParams member params
  request_params-IsParams none params h = (let same : none ≡ params = cc in rw (← same) no_params)
  request_params-IsParams (some raw) params h = token-IsParams raw (first_token raw) params refl h

  pub request_params_of :
      (member : Option (List ℕ)) (params : Option Params)
      → IsParams member params
      → request_params json member ≡ some params
  unfolding is_ws
  request_params_of none none no_params = refl
  request_params_of none (some params) h = elim h [ ]
  request_params_of (some raw) none h = elim h [ ]
  request_params_of (some raw) (some params) (by_position h) =
      rw (request_params, first_token_of 0x5b raw refl h) refl
  request_params_of (some raw) (some params) (by_name h) =
      rw (request_params, first_token_of 0x7b raw refl h) refl
