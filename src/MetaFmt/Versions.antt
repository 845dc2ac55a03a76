-- ===== src/MetaFmt/Versions.antt =====
-- What `unpack` and `compare_stored` make of a header that is not of the current version.
use truenas_ros_utils.Prelude.{
  ℕ, ◌+◌, ◌≤◌, ◌<◌, some, List, ◌++◌, ◌≡◌, ap, ◌∙◌, ◌==◌, if◌then◌else◌, err, length, arith, ne→==,
}
use truenas_ros_utils.Prelude.Bytes.{u32_mod, u32_to_be_bytes}
use truenas_ros_utils.Xdr.Strict.{strict}
use truenas_ros_utils.Xdr.Unit4.{usize_max}
use truenas_ros_utils.Xdr.Codec.RoundTrip.{from_prefix_with-wire}
use truenas_ros_utils.MetaFmt.{
  MetaFmt, not_a_record, newer_version, newer, magic, version, header_shape, read_body, read_header,
  unpack, verdict_of, compare_stored,
}

abbrev header : ℕ → ℕ → List ℕ
header mark found = u32_to_be_bytes mark ++ u32_to_be_bytes found

unpack-header :
    (mark found : ℕ) (body : List ℕ)
    → mark < u32_mod
    → found < u32_mod
    → length body + 8 ≤ usize_max
    → unpack (header mark found ++ body)
      ≡ (if mark == magic then read_body found body else err not_a_record)
unfolding unpack
unpack-header mark found body hm hv short = ap read_header (
    from_prefix_with-wire strict header_shape (mark, (found, tt)) body (hm, (hv, tt)) (omega arith)
      (omega arith))

-- A record with the right magic and a version above the current one is `NewerVersion` with that
-- version, whatever its body, and its verdict is `Newer`, whatever is wanted.
pub unpack_newer :
    (wanted : MetaFmt) (found : ℕ) (body : List ℕ)
    → version < found
    → found < u32_mod
    → length body + 8 ≤ usize_max
    → (unpack (header magic found ++ body) ≡ err (newer_version found))
      × (compare_stored wanted (some (header magic found ++ body)) ≡ newer found)
unfolding read_body compare_stored
unpack_newer wanted found body newer_one hv short =
    let read = unpack-header magic found body (omega arith) hv short in
    let answer = read ∙ rw (ne→== found 0 (omega arith), ne→== found 1 (omega arith)) in
    (answer, ap (verdict_of wanted) answer)
