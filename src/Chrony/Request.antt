-- ===== src/Chrony/Request.antt =====
-- truenas_chrony/src/request.rs
use truenas_ros_utils.Prelude.{
  ℕ, ◌+◌, ◌-◌, Bool, not, ◌&&◌, ◌||◌, List, [], ◌∷◌, ◌++◌, length, take, drop, replicate, Result,
  ok, err, ltb, leb, ◌==◌, if◌then◌else◌,
}
use truenas_ros_utils.Prelude.Bytes.{be_value, u16_to_be_bytes, u32_to_be_bytes}
use truenas_ros_utils.Chrony.Code.Status
use truenas_ros_utils.Chrony.Error.{Error, status, version}
use truenas_ros_utils.Chrony.Types.{Address}
use truenas_ros_utils.Chrony.Wire
use truenas_ros_utils.Chrony.Wire.{
  Layout, Clock, put_address, oldest_mismatch_version, type_request, type_reply, reply_header,
  status_ok, status_bad_version,
}
use truenas_ros_utils.Chrony.Tracking
use truenas_ros_utils.Chrony.Tracking.{Tracking}
use truenas_ros_utils.Chrony.Auth
use truenas_ros_utils.Chrony.Auth.{Authentication}
use truenas_ros_utils.Chrony.Source
use truenas_ros_utils.Chrony.Source.{Source, count_layout}
use truenas_ros_utils.Chrony.Selection
use truenas_ros_utils.Chrony.Selection.{Selection}
pub mod Built
pub mod Answers

pub record Request (T : Type 0) : Type 0 where
  pub command : ℕ
  pub sequence : ℕ
  pub bytes : List ℕ
  pub decoder : ℕ → List ℕ → Result Error T

pub data Verdict (T : Type 0) : Type 0 where
  unrelated : Verdict T
  answer : Result Error T → Verdict T

-- `Vec::resize(len, 0)`
abbrev pub resize : List ℕ → ℕ → List ℕ
resize bytes len = take len bytes ++ replicate (len - length bytes) 0

abbrev pub byte_at : List ℕ → ℕ → ℕ
byte_at header i = be_value 0 (take 1 (drop i header))

abbrev pub u16_at : List ℕ → ℕ → ℕ
u16_at header i = be_value 0 (take 2 (drop i header))

abbrev pub u32_at : List ℕ → ℕ → ℕ
u32_at header i = be_value 0 (take 4 (drop i header))

module _ {T : Type 0} where
  unfoldable pub build : Layout T → List ℕ → ℕ → Request T
  build layout body sequence =
      let len = reply_header + layout.len in
      let bytes : List ℕ = Wire.version ∷ type_request ∷ 0 ∷ 0 ∷ [] in
      let bytes : List ℕ = bytes ++ u16_to_be_bytes layout.command in
      let bytes : List ℕ = bytes ++ (0 ∷ 0 ∷ []) in
      let bytes : List ℕ = bytes ++ u32_to_be_bytes sequence in
      let bytes : List ℕ = bytes ++ replicate 8 0 in
      let bytes : List ℕ = bytes ++ body in
      record {
        command = layout.command;
        sequence = sequence;
        bytes = resize bytes len;
        decoder = Wire.decode layout;
      }

  unfoldable pub about : Layout T → Address → ℕ → Request T
  unfolding build
  about layout address sequence = build layout (put_address [] address) sequence

  unfoldable pub with_attempt : Request T → ℕ → Request T
  with_attempt r attempt = record r {
    bytes = take 6 r.bytes ++ (u16_to_be_bytes attempt ++ drop 8 r.bytes);
  }

  -- The tests of `decode` on the fields of a header, and what it answers.
  unfoldable pub judge : Request T → ℕ → ℕ → ℕ → ℕ → ℕ → ℕ → ℕ → ℕ → List ℕ → Verdict T
  judge r found kind pad0 pad1 command reply code sequence body =
      let mismatch =
        not (found == Wire.version)
        && (leb oldest_mismatch_version found && code == status_bad_version) in
      if (not (found == Wire.version) && not mismatch)
        || (not (kind == type_reply)
            || (not (pad0 == 0)
                || (not (pad1 == 0)
                    || (not (command == r.command) || not (sequence == r.sequence)))))
      then unrelated
      else if mismatch
      then answer (err (version found))
      else if not (code == status_ok)
      then answer (err (status (Status.from_code code)))
      else answer (r.decoder reply body)

  unfoldable pub decode : Request T → List ℕ → Verdict T
  unfolding judge
  decode r datagram =
      if ltb (length datagram) reply_header
      then unrelated
      else let header = take reply_header datagram in
        judge r (byte_at header 0) (byte_at header 1) (byte_at header 2) (byte_at header 3)
          (u16_at header 4) (u16_at header 6) (u16_at header 8) (u32_at header 16)
          (drop reply_header datagram)

unfoldable pub tracking : Clock → ℕ → Request Tracking
tracking clock sequence = build (Tracking.layout clock) [] sequence

unfoldable pub source_count : ℕ → Request ℕ
source_count sequence = build count_layout [] sequence

unfoldable pub source : ℕ → ℕ → Request Source
source index sequence = build Source.layout (u32_to_be_bytes index) sequence

unfoldable pub selection : ℕ → ℕ → Request Selection
selection index sequence = build Selection.layout (u32_to_be_bytes index) sequence

unfoldable pub authentication : Address → ℕ → Request Authentication
authentication address sequence = about Auth.layout address sequence
