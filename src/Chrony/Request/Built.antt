-- ===== src/Chrony/Request/Built.antt =====
-- The datagrams that are sent.
use truenas_ros_utils.Prelude.{
  ℕ, zero, suc, ◌+◌, ◌-◌, ◌≤◌, ◌≡◌, refl, ap, ◌∙◌, arith, List, [], ◌∷◌, ◌++◌, length, take, drop,
  replicate, length-append, length-replicate,
}
use truenas_ros_utils.Prelude.Bytes.{u16_to_be_bytes, u32_to_be_bytes}
use truenas_ros_utils.Chrony.Wire.{Layout}
use truenas_ros_utils.Chrony.Request.{build, with_attempt}

take_whole : {A : Type 0} (n : ℕ) (xs : List A) → length xs ≤ n → take n xs ≡ xs
take_whole zero [] h = refl
take_whole zero (x ∷ xs) h = absurd (omega arith)
take_whole (suc n) [] h = refl
take_whole (suc n) (x ∷ xs) h = ap (λ t. x ∷ t) (take_whole n xs (omega arith))

-- A version-6 request as the protocol lays it out, of `len` bytes after its header.
abbrev pub request_bytes : ℕ → ℕ → ℕ → List ℕ → ℕ → List ℕ
request_bytes command attempt sequence body padding =
    6
    ∷ 1
    ∷ 0
    ∷ 0
    ∷ (u16_to_be_bytes command
        ++ (u16_to_be_bytes attempt
            ++ (u32_to_be_bytes sequence ++ (replicate 8 0 ++ (body ++ replicate padding 0)))))

length-request_bytes :
    (command attempt sequence : ℕ) (body : List ℕ) (padding : ℕ)
    → length (request_bytes command attempt sequence body padding) ≡ 20 + (length body + padding)
length-request_bytes command attempt sequence body padding =
    omega (arith, length-append body (replicate padding 0), length-replicate {A = ℕ} padding 0)

module _ {T : Type 0} where
  bytes-build :
      (layout : Layout T) (body : List ℕ) (sequence : ℕ)
      → length body ≤ 8 + layout.len
      → (build layout body sequence).bytes
        ≡ request_bytes layout.command 0 sequence body (8 + layout.len - length body)
  unfolding build
  bytes-build layout body sequence h =
      let header : List ℕ → List ℕ = λ rest.
        6
        ∷ 1
        ∷ 0
        ∷ 0
        ∷ (u16_to_be_bytes layout.command
            ++ (0 ∷ 0 ∷ (u32_to_be_bytes sequence ++ (replicate 8 0 ++ rest)))) in
      let pad : 28 + layout.len - length (header body) ≡ 8 + layout.len - length body =
        omega arith in
      ap (λ t. t ++ replicate (28 + layout.len - length (header body)) 0)
        (take_whole (28 + layout.len) (header body) (omega arith))
      ∙ ap (λ n. header (body ++ replicate n 0)) pad

  -- A request whose data fits is as long as its reply, and holds the version, the type, the
  -- command, the attempt, the sequence number and the data, each in its place, with zeros behind.
  -- The attempt changes nothing else.
  pub with_attempt-build :
      (layout : Layout T) (body : List ℕ) (sequence attempt : ℕ)
      → length body ≤ 8 + layout.len
      → ((with_attempt (build layout body sequence) attempt).bytes
          ≡ request_bytes layout.command attempt sequence body (8 + layout.len - length body))
        × (length (with_attempt (build layout body sequence) attempt).bytes ≡ 28 + layout.len)
        × ((with_attempt (build layout body sequence) attempt).sequence ≡ sequence)
        × ((with_attempt (build layout body sequence) attempt).command ≡ layout.command)
  unfolding with_attempt build
  with_attempt-build layout body sequence attempt h =
      let built = bytes-build layout body sequence h in
      let bytes : (with_attempt (build layout body sequence) attempt).bytes
          ≡ request_bytes layout.command attempt sequence body (8 + layout.len - length body) =
        ap (λ l. take 6 l ++ (u16_to_be_bytes attempt ++ drop 8 l)) built in
      (
        bytes,
        omega (
          arith,
          ap length bytes,
          length-request_bytes layout.command attempt sequence body (8 + layout.len - length body),
        ),
        refl,
        refl,
      )
