-- ===== src/Tests/Chrony.antt =====
-- truenas_chrony: requests and replies, and a daemon with two sources.
use truenas_ros_utils.Prelude.{
  Option, some, ◌+◌, ℕ, ◌≤◌, ◌≡◌, ◌⊎◌, refl, arith, List, [], ◌∷◌, ◌++◌, length, take, replicate,
  none, ok, err, ◌==◌, if◌then◌else◌,
}
use truenas_ros_utils.Prelude.Exec.{Exec, pure}
use truenas_ros_utils.Xdr.Signed.{ℤ, pos, negsuc}
use truenas_ros_utils.Chrony.Code.Status
use truenas_ros_utils.Chrony.Code.SourceMode
use truenas_ros_utils.Chrony.Code.SourceState
use truenas_ros_utils.Chrony.Error.{Error, status}
use truenas_ros_utils.Chrony.Types.{v4, unspecified}
use truenas_ros_utils.Chrony.Wire
use truenas_ros_utils.Chrony.Wire.{
  put_address, address, take_chunk, Float, SystemTime, Duration, Clock,
}
use truenas_ros_utils.Chrony.Wire.Addresses.{address-put_address}
use truenas_ros_utils.Chrony.Tracking
use truenas_ros_utils.Chrony.Tracking.{Tracking}
use truenas_ros_utils.Chrony.Auth
use truenas_ros_utils.Chrony.Source
use truenas_ros_utils.Chrony.Source.{Source}
use truenas_ros_utils.Chrony.Selection
use truenas_ros_utils.Chrony.Selection.{Selection}
use truenas_ros_utils.Chrony.Request.{
  answer, build, with_attempt, decode, source_count, byte_at, u16_at, u32_at,
}
use truenas_ros_utils.Chrony.Request.Built.{request_bytes, with_attempt-build}
use truenas_ros_utils.Chrony.Request.Answers.{reply_bytes, decode_answer, decode-reply_bytes}
use truenas_ros_utils.Chrony.Client.{sources}
use truenas_ros_utils.Chrony.Client.Sources.{listing, sources_steady, sources_ok}

address-put_address_example :
    address (record { rest = put_address [] (v4 (192 ∷ 0 ∷ 2 ∷ 1 ∷ [])) ++ (9 ∷ []) })
    ≡ (ok (v4 (192 ∷ 0 ∷ 2 ∷ 1 ∷ [])), record { rest = 9 ∷ [] })
address-put_address_example = address-put_address (v4 (192 ∷ 0 ∷ 2 ∷ 1 ∷ [])) (9 ∷ []) refl

abbrev zeros : ℕ → List ℕ
zeros n = replicate n 0

-- A platform whose times begin at the epoch.
abbrev later_than : SystemTime → Duration → ℤ → Option SystemTime
later_than t d (pos s) = some (record { secs = pos (s + d.secs); nsec = t.nsec + d.nanos })
later_than t d (negsuc s) = none

abbrev unix : Clock
unix = record { checked_add = λ t d. later_than t d t.secs; checked_sub = λ t d. none }

with_attempt-build_example :
    ((with_attempt (build Source.layout (0 ∷ 0 ∷ 0 ∷ 5 ∷ []) 77) 2).bytes
      ≡ request_bytes 15 2 77 (0 ∷ 0 ∷ 0 ∷ 5 ∷ []) 52)
    × (length (with_attempt (build Source.layout (0 ∷ 0 ∷ 0 ∷ 5 ∷ []) 77) 2).bytes ≡ 76)
    × ((with_attempt (build Source.layout (0 ∷ 0 ∷ 0 ∷ 5 ∷ []) 77) 2).sequence ≡ 77)
    × ((with_attempt (build Source.layout (0 ∷ 0 ∷ 0 ∷ 5 ∷ []) 77) 2).command ≡ 15)
with_attempt-build_example =
    with_attempt-build Source.layout (0 ∷ 0 ∷ 0 ∷ 5 ∷ []) 77 2 (omega arith)

-- The answer to a request for the count, with sequence number 7: three sources.
abbrev three : List ℕ
three = reply_bytes 6 14 2 0 7 (0 ∷ 0 ∷ 0 ∷ 3 ∷ [])

decode_of_three : decode (source_count 7) three ≡ answer (ok 3)
unfolding decode source_count build Wire.decode Wire.u32 take_chunk
decode_of_three = refl

decode_answer_example :
    (28 ≤ length three)
    × (byte_at (take 28 three) 1 ≡ 2)
    × (u16_at (take 28 three) 4 ≡ (source_count 7).command)
    × (u32_at (take 28 three) 16 ≡ (source_count 7).sequence)
    × ((byte_at (take 28 three) 0 ≡ 6)
        ⊎ ((4 ≤ byte_at (take 28 three) 0) × (u16_at (take 28 three) 8 ≡ 18)))
decode_answer_example = decode_answer (source_count 7) three (ok 3) decode_of_three

decode-reply_bytes_example :
    decode (build Source.layout [] 7) (reply_bytes 6 15 3 4 7 [])
    ≡ answer (if 4 == 0 then Wire.decode Source.layout 3 [] else err (status (Status.from_code 4)))
decode-reply_bytes_example =
    decode-reply_bytes Source.layout [] [] 3 4 7 (omega arith) (omega arith) (omega arith)
      (omega arith)

abbrev still : Float
still = record { coef = pos 0; exponent = pos 0 }

-- The source at an index, whose stratum is that index.
abbrev numbered : ℕ → Source
numbered i = record {
  address = unspecified;
  poll = pos 6;
  stratum = i;
  state = SourceState.selectable;
  mode = SourceMode.server;
  reachability = 255;
  last_sample_ago = none;
  adjusted_offset = still;
  measured_offset = still;
  offset_error = still;
}

abbrev count_of_two : Exec Error Unit ℕ
count_of_two = pure 2

abbrev source_of_two : ℕ → Exec Error Unit Source
source_of_two i = pure (numbered i)

sources_steady_example : sources count_of_two source_of_two tt ≡ (ok (listing numbered 0 2), tt)
sources_steady_example = sources_steady count_of_two source_of_two numbered tt 2 refl (λ i lt. refl)

two_sources : sources count_of_two source_of_two tt ≡ (ok (numbered 0 ∷ numbered 1 ∷ []), tt)
unfolding sources
two_sources = refl

sources_ok_example :
    (before : Unit {0}) × (count_of_two before ≡ (ok (length (numbered 0 ∷ numbered 1 ∷ [])), tt))
sources_ok_example =
    sources_ok count_of_two source_of_two tt tt (numbered 0 ∷ numbered 1 ∷ []) two_sources
