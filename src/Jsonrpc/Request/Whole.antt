-- ===== src/Jsonrpc/Request/Whole.antt =====
-- What a whole frame is taken for.
use truenas_ros_utils.Prelude.{
  ℕ, ◌<◌, ◌≡◌, ◌⊎◌, ◌↔◌, subst, sym, ==→eq, eq→==, if◌then◌else◌, inl, inr, refl, ap, arith, true,
  false, Bool-cases, Option, none, some, List, [], ◌∷◌, map, length, ◌==◌,
}
use truenas_ros_utils.Xdr.Utf8.{is_utf8}
use truenas_ros_utils.Jsonrpc.Json.{Json}
use truenas_ros_utils.Jsonrpc.ErrorObject.{ErrorObject, parse_error, invalid_request}
use truenas_ros_utils.Jsonrpc.Frame.{is_ws}
use truenas_ros_utils.Jsonrpc.Request.Spec.{IsElement, object, no_object, Elements, IsBatch}
use truenas_ros_utils.Jsonrpc.Request.Tokens.{first_token_of, first_token-Begins}
use truenas_ros_utils.Jsonrpc.Request.{
  Reason, Call, invalid, null, borrowed, one, batch, refused, element, of_elements, read_batch,
  of_token, checked, parse, first_token,
}

module _ (json : Json) where
  element-IsElement : (raw : List ℕ) → IsElement json raw (element json raw)
  unfolding is_ws
  element-IsElement raw = from (first_token raw) refl
    where
      from :
          (token : Option ℕ)
          → first_token raw ≡ token
          → IsElement json raw (elim token [
            | none ↦ invalid null invalid_request (borrowed "a batch element must be an Object")
            | some b ↦
                if b == 0x7b
                then one json raw
                else invalid null invalid_request (borrowed "a batch element must be an Object")
          ])
      from none e = no_object (λ h. let found = first_token_of 0x7b raw refl h in cc)
      from (some b) e = elim (Bool-cases (b == 0x7b)) [
        | inl brace ↦
            (let at : first_token raw ≡ some 0x7b = (let p = ==→eq b 0x7b brace in cc) in
              rw brace (object (first_token-Begins 0x7b raw at)))
        | inr other ↦ rw other (
            no_object (λ h.
              let found = first_token_of 0x7b raw refl h in
              let same : b ≡ 0x7b = cc in let is = eq→== b 0x7b same in cc))
      ]

  element_of : (raw : List ℕ) (call : Call) → IsElement json raw call → element json raw ≡ call
  unfolding is_ws
  element_of raw call (object h) = rw (element, first_token_of 0x7b raw refl h) refl
  element_of raw call (no_object h) = from (first_token raw) refl
    where
      from :
          (token : Option ℕ)
          → first_token raw ≡ token
          → (elim token [
            | none ↦ invalid null invalid_request (borrowed "a batch element must be an Object")
            | some b ↦
                if b == 0x7b
                then one json raw
                else invalid null invalid_request (borrowed "a batch element must be an Object")
          ])
            ≡ invalid null invalid_request (borrowed "a batch element must be an Object")
      from none e = refl
      from (some b) e = elim (Bool-cases (b == 0x7b)) [
        | inl brace ↦
            (let at : first_token raw ≡ some 0x7b = (let p = ==→eq b 0x7b brace in cc) in
              absurd (h (first_token-Begins 0x7b raw at)))
        | inr other ↦ rw other refl
      ]

  Elements-map : (raws : List (List ℕ)) → Elements json raws (map (element json) raws)
  unfolding Elements
  Elements-map [] = tt
  Elements-map (raw ∷ raws) = (element-IsElement raw, Elements-map raws)

  calls-map :
      (raws : List (List ℕ)) (calls : List Call)
      → Elements json raws calls
      → calls ≡ map (element json) raws
  unfolding Elements
  calls-map [] [] h = refl
  calls-map [] (call ∷ calls) h = absurd h
  calls-map (raw ∷ raws) [] h = absurd h
  calls-map (raw ∷ raws) (call ∷ calls) h =
      let first = element_of raw call h.0 in let rest = calls-map raws calls h.1 in cc

  of_elements_batch :
      (found : Option (List (List ℕ))) (calls : List Call)
      → of_elements json found ≡ batch calls
      → (elements : List (List ℕ)) × (found ≡ some elements)
        × (0 < length elements)
        × Elements json elements calls
  of_elements_batch none calls h = cc
  of_elements_batch (some []) calls h = cc
  of_elements_batch (some (raw ∷ rest)) calls h =
      let same : map (element json) (raw ∷ rest) ≡ calls = cc in
      (
        raw ∷ rest,
        refl,
        omega arith,
        subst (Elements json (raw ∷ rest)) same (Elements-map (raw ∷ rest)),
      )

  of_token_batch :
      (text : List ℕ) (token : Option ℕ) (calls : List Call)
      → first_token text ≡ token
      → of_token json text token ≡ batch calls
      → IsBatch json text calls
  unfolding read_batch IsBatch
  of_token_batch text none calls t h = cc
  of_token_batch text (some b) calls t h = elim (Bool-cases (b == 0x7b)) [
    | inl brace ↦ (let e = rw brace at h in cc)
    | inr other ↦
        (let e = rw other at h in
          elim (Bool-cases (b == 0x5b)) [
            | inl array ↦
                (let at : first_token text ≡ some 0x5b = (let p = ==→eq b 0x5b array in cc) in
                  (
                    first_token-Begins 0x5b text at,
                    of_elements_batch (json.elements text) calls (rw array at e),
                  ))
            | inr scalar ↦ (let f = rw scalar at e in cc)
          ])
  ]

  checked_batch :
      (text : List ℕ) (complaint : Option (List ℕ)) (calls : List Call)
      → checked json text complaint ≡ batch calls
      → (complaint ≡ none) × IsBatch json text calls
  checked_batch text none calls h = (refl, of_token_batch text (first_token text) calls refl h)
  checked_batch text (some message) calls h = cc

  parse-IsBatch :
      (frame : List ℕ) (calls : List Call)
      → parse json frame ≡ batch calls
      → (is_utf8 frame ≡ true) × (json.check frame ≡ none) × IsBatch json frame calls
  unfolding parse
  parse-IsBatch frame calls h = elim (Bool-cases (is_utf8 frame)) [
    | inl text ↦
        (let (valid, is_batch) = checked_batch frame (json.check frame) calls (rw text at h) in
          (text, valid, is_batch))
    | inr bytes ↦ (let e = rw bytes at h in cc)
  ]

  of_elements-batch :
      (elements : List (List ℕ)) (calls : List Call)
      → 0 < length elements
      → Elements json elements calls
      → of_elements json (some elements) ≡ batch calls
  of_elements-batch [] calls lt h = absurd (omega (arith, lt))
  of_elements-batch (raw ∷ rest) calls lt h = ap batch (sym (calls-map (raw ∷ rest) calls h))

  parse_of :
      (frame : List ℕ) (calls : List Call)
      → (is_utf8 frame ≡ true) × (json.check frame ≡ none) × IsBatch json frame calls
      → parse json frame ≡ batch calls
  unfolding parse IsBatch read_batch is_ws
  parse_of frame calls (text, valid, is_batch) =
      let (begins, (elements, found, some_there, each)) = is_batch in
      rw (text, valid, first_token_of 0x5b frame refl begins, found)
        (of_elements-batch elements calls some_there each)

  -- A frame is a batch exactly when it is UTF-8 and JSON, begins with a bracket and has an element at
  -- least. Its calls are one for each element, in their order: what the object alone would be, and
  -- an invalid request answered to null for an element that is no object.
  pub parse_batch :
      (frame : List ℕ) (calls : List Call)
      → (parse json frame ≡ batch calls)
        ↔ ((is_utf8 frame ≡ true) × (json.check frame ≡ none) × IsBatch json frame calls)
  parse_batch frame calls = (parse-IsBatch frame calls, parse_of frame calls)

  of_elements_refused :
      (found : Option (List (List ℕ))) (error : ErrorObject) (reason : Reason)
      → of_elements json found ≡ refused error reason
      → error ≡ invalid_request
  of_elements_refused none error reason h = cc
  of_elements_refused (some []) error reason h = cc
  of_elements_refused (some (raw ∷ rest)) error reason h = cc

  of_token_refused :
      (text : List ℕ) (token : Option ℕ) (error : ErrorObject) (reason : Reason)
      → of_token json text token ≡ refused error reason
      → error ≡ invalid_request
  unfolding read_batch
  of_token_refused text none error reason h = cc
  of_token_refused text (some b) error reason h = elim (Bool-cases (b == 0x7b)) [
    | inl brace ↦ (let e = rw brace at h in cc)
    | inr other ↦
        (let e = rw other at h in
          elim (Bool-cases (b == 0x5b)) [
            | inl array ↦ of_elements_refused (json.elements text) error reason (rw array at e)
            | inr scalar ↦ (let f = rw scalar at e in cc)
          ])
  ]

  checked_refused :
      (text : List ℕ) (complaint : Option (List ℕ)) (error : ErrorObject) (reason : Reason)
      → checked json text complaint ≡ refused error reason
      → ((message : List ℕ) × (complaint ≡ some message) × (error ≡ parse_error))
        ⊎ ((complaint ≡ none) × (error ≡ invalid_request))
  checked_refused text none error reason h =
      inr (refl, of_token_refused text (first_token text) error reason h)
  checked_refused text (some message) error reason h = inl (message, refl, cc)

  -- A frame that is refused as a whole is refused as a parse error if it is not UTF-8 or not JSON,
  -- and otherwise as an invalid request.
  pub parse_refused :
      (frame : List ℕ) (error : ErrorObject) (reason : Reason)
      → parse json frame ≡ refused error reason
      → ((is_utf8 frame ≡ false) × (error ≡ parse_error))
        ⊎ ((message : List ℕ) × (json.check frame ≡ some message) × (error ≡ parse_error))
        ⊎ ((is_utf8 frame ≡ true) × (json.check frame ≡ none) × (error ≡ invalid_request))
  unfolding parse
  parse_refused frame error reason h = elim (Bool-cases (is_utf8 frame)) [
    | inl text ↦ (elim (checked_refused frame (json.check frame) error reason (rw text at h)) [
      | inl bad ↦ inr (inl bad)
      | inr good ↦ inr (inr (text, good.0, good.1))
    ])
    | inr bytes ↦ (let e = rw bytes at h in inl (bytes, cc))
  ]
