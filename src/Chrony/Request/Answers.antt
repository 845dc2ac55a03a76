-- ===== src/Chrony/Request/Answers.antt =====
-- Which datagrams answer a request, and how.
use truenas_ros_utils.Prelude.{
  ℕ, ◌≤◌, ◌<◌, ◌≡◌, ◌≢◌, ◌⊎◌, inl, inr, ap, arith, Bool, true, false, List, ◌∷◌, ◌++◌, length, take,
  drop, replicate, Result, err, ◌==◌, ltb, if◌then◌else◌, ltb→le, le→ltb, ==-self, Bool-cases,
}
use truenas_ros_utils.Prelude.Bytes.{
  u16_mod, u32_mod, u16_to_be_bytes, u32_to_be_bytes, u16-be_value, u32-be_value,
}
use truenas_ros_utils.Chrony.Code.Status
use truenas_ros_utils.Chrony.Error.{Error, status}
use truenas_ros_utils.Chrony.Wire
use truenas_ros_utils.Chrony.Wire.{Layout}
use truenas_ros_utils.Chrony.Request.{
  Request, Verdict, unrelated, answer, build, decode, judge, byte_at, u16_at, u32_at,
}

-- A header with version, type, command, reply code, status and sequence number, as chronyd sends it.
abbrev pub reply_bytes : ℕ → ℕ → ℕ → ℕ → ℕ → List ℕ → List ℕ
reply_bytes found command reply code sequence body =
    found
    ∷ 2
    ∷ 0
    ∷ 0
    ∷ (u16_to_be_bytes command
        ++ (u16_to_be_bytes reply
            ++ (u16_to_be_bytes code
                ++ (replicate 6 0 ++ (u32_to_be_bytes sequence ++ (replicate 8 0 ++ body))))))

module _ {T : Type 0} where
  is_unrelated : Verdict T → Bool
  is_unrelated unrelated = true
  is_unrelated (answer result) = false

  unrelated_answer : (result : Result Error T) → unrelated ≢ answer result
  unfolding is_unrelated
  unrelated_answer result e = absurd (ground (arith, ap is_unrelated e))

  judge_answer :
      (r : Request T) (found kind pad0 pad1 command reply code sequence : ℕ) (body : List ℕ)
      (result : Result Error T)
      → judge r found kind pad0 pad1 command reply code sequence body ≡ answer result
      → (kind ≡ 2)
        × (command ≡ r.command)
        × (sequence ≡ r.sequence)
        × ((found ≡ 6) ⊎ ((4 ≤ found) × (code ≡ 18)))
  unfolding judge
  judge_answer r found kind pad0 pad1 command reply code sequence body result h = ground arith

  -- A datagram that is taken for the answer has a whole header, is a reply, echoes the command and
  -- the sequence number of the request, and is of version 6, or of version 4 or above with the
  -- status of a version mismatch.
  pub decode_answer :
      (r : Request T) (datagram : List ℕ) (result : Result Error T)
      → decode r datagram ≡ answer result
      → (28 ≤ length datagram)
        × (byte_at (take 28 datagram) 1 ≡ 2)
        × (u16_at (take 28 datagram) 4 ≡ r.command)
        × (u32_at (take 28 datagram) 16 ≡ r.sequence)
        × ((byte_at (take 28 datagram) 0 ≡ 6)
            ⊎ ((4 ≤ byte_at (take 28 datagram) 0) × (u16_at (take 28 datagram) 8 ≡ 18)))
  unfolding decode
  decode_answer r datagram result h = elim (Bool-cases (ltb (length datagram) 28)) [
    | inl short ↦ absurd (unrelated_answer result (rw short at h))
    | inr long ↦
        let header = take 28 datagram in
        let (kind, command, sequence, found) =
          judge_answer r (byte_at header 0) (byte_at header 1) (byte_at header 2) (byte_at header 3)
            (u16_at header 4) (u16_at header 6) (u16_at header 8) (u32_at header 16)
            (drop 28 datagram) result (rw long at h) in
        (ltb→le (length datagram) 28 long, kind, command, sequence, found)
  ]

  judge_reply :
      (r : Request T) (reply code : ℕ) (body : List ℕ)
      → judge r 6 2 0 0 r.command reply code r.sequence body
        ≡ answer (if code == 0 then r.decoder reply body else err (status (Status.from_code code)))
  unfolding judge
  judge_reply r reply code body = ground (arith, ==-self r.command, ==-self r.sequence)

  -- A reply of version 6 that echoes the command and the sequence number of a request is its
  -- answer: the report that the data holds if the status is success, otherwise the status.
  pub decode-reply_bytes :
      (layout : Layout T) (sent body : List ℕ) (reply code sequence : ℕ)
      → layout.command < u16_mod
      → reply < u16_mod
      → code < u16_mod
      → sequence < u32_mod
      → decode (build layout sent sequence) (reply_bytes 6 layout.command reply code sequence body)
        ≡ answer (
            if code == 0
            then Wire.decode layout reply body
            else err (status (Status.from_code code)))
  unfolding decode build
  decode-reply_bytes layout sent body reply code sequence h i j k =
      rw
        (
          le→ltb (length (reply_bytes 6 layout.command reply code sequence body)) 28 (omega arith),
          u16-be_value layout.command h,
          u16-be_value reply i,
          u16-be_value code j,
          u32-be_value sequence k,
        )
        (judge_reply (build layout sent sequence) reply code body)
