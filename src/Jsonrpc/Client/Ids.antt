-- ===== src/Jsonrpc/Client/Ids.antt =====
-- The ids of the requests that one caller builds.
use truenas_ros_utils.Prelude.{
  ℕ, zero, suc, ◌+◌, ◌^◌, ◌<◌, ◌≤◌, ◌≡◌, refl, ap, arith, List, [], ◌∷◌, Option, Result, ok, err,
  length,
}
use truenas_ros_utils.Jsonrpc.Request.{RequestId, number}
use truenas_ros_utils.Jsonrpc.Client.{
  Encoder, BuildError, Caller, request, request_with_id, peek_id, taken, saturating_next,
}

saturating_next-lt : (n : ℕ) → n + 1 < 2 ^ 64 → saturating_next n ≡ n + 1
saturating_next-lt n h = omega arith

module _ {E T : Type 0} (encoder : Encoder E T) where
  -- The ids of the calls that could be built, and the caller after all of them.
  abbrev keep_id : Result (BuildError E) (RequestId × List ℕ) → List RequestId → List RequestId
  keep_id (ok built) ids = built.0 ∷ ids
  keep_id (err e) ids = ids

  pub requests : List (List ℕ × Option T) → Caller → List RequestId × Caller
  requests [] caller = ([], caller)
  requests (call ∷ calls) caller =
      let built = request encoder call.0 call.1 caller in
      let rest = requests calls built.1 in (keep_id built.0 rest.0, rest.1)

  pub counting : ℕ → ℕ → List RequestId
  counting from zero = []
  counting from (suc n) = number (encoder.digits from) ∷ counting (from + 1) n

  taken_request :
      (built : Result (BuildError E) (List ℕ)) (calls : List (List ℕ × Option T)) (caller : Caller)
      → ((next : Caller)
          → next.next + length calls < 2 ^ 64
          → (n : ℕ) × (n ≤ length calls)
            × ((requests calls next).0 ≡ counting next.next n)
            × ((requests calls next).1.next ≡ next.next + n))
      → caller.next + suc (length calls) < 2 ^ 64
      → (let r = taken encoder (number (encoder.digits caller.next)) built caller in
          let rest = requests calls r.1 in
          (n : ℕ) × (n ≤ suc (length calls))
          × (keep_id r.0 rest.0 ≡ counting caller.next n)
          × (rest.1.next ≡ caller.next + n))
  unfolding counting
  taken_request (ok frame) calls caller f h =
      let e = saturating_next-lt caller.next (omega arith) in
      let (n, l, i, s) = f (record { next = caller.next + 1 }) (omega arith) in
      rw e
        (suc n, omega arith, ap (λ ids. number (encoder.digits caller.next) ∷ ids) i, omega arith)
  taken_request (err e) calls caller f h =
      let (n, l, i, s) = f caller (omega arith) in (n, omega arith, i, s)

  -- The calls that could be built have consecutive ids, from the next id of the caller on and with
  -- none skipped for a call that could not be built, as long as the ids fit in 64 bits; and the
  -- caller is left at the id behind the last of them.
  pub requests_ids :
      (calls : List (List ℕ × Option T)) (caller : Caller)
      → caller.next + length calls < 2 ^ 64
      → (n : ℕ) × (n ≤ length calls)
        × ((requests calls caller).0 ≡ counting caller.next n)
        × ((requests calls caller).1.next ≡ caller.next + n)
  unfolding requests request counting peek_id
  requests_ids [] caller h = (0, omega arith, refl, omega arith)
  requests_ids (call ∷ calls) caller h =
      taken_request (request_with_id encoder (number (encoder.digits caller.next)) call.0 call.1)
        calls caller (requests_ids calls) h
