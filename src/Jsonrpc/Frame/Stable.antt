-- ===== src/Jsonrpc/Frame/Stable.antt =====
-- What the verdict on a buffer says of the buffer with more bytes, and of its prefixes.
use truenas_ros_utils.Prelude.{
  ℕ, zero, suc, ◌+◌, ◌≤◌, ◌<◌, List, [], ◌∷◌, ◌++◌, ◌≡◌, refl, sym, ap, ◌∙◌, inl, inr, Bool-cases,
  length, drop, take, arith, if◌then◌else◌,
}
use Prim.Native.Nat.add
use native.Mathlib.Nat.{add-zero}
use truenas_ros_utils.Jsonrpc.Frame.{
  Frame, complete, incomplete, invalid, Scan, is_ws, leading_ws, step, scan, scan_from, start,
  frame,
}

scan-append :
    (buf more : List ℕ) (at n : ℕ) (s : Scan)
    → scan buf at s ≡ complete n
    → scan (buf ++ more) at s ≡ complete n
unfolding scan
scan-append [] more at n s h = cc
scan-append (b ∷ buf) more at n s h = ground (arith, scan-append buf more (at + 1) n (step s b))

scan_bounds :
    (buf : List ℕ) (at n : ℕ) (s : Scan)
    → scan buf at s ≡ complete n
    → (at < n) × (n ≤ at + length buf)
unfolding scan
scan_bounds [] at n s h = cc
scan_bounds (b ∷ buf) at n s h = ground (arith, scan_bounds buf (at + 1) n (step s b))

scan-ne-invalid : (buf : List ℕ) (at : ℕ) (s : Scan) → scan buf at s ≡ invalid → ⊥
unfolding scan
scan-ne-invalid [] at s h = cc
scan-ne-invalid (b ∷ buf) at s h = ground (arith, scan-ne-invalid buf (at + 1) (step s b))

-- Short of the end that is found, there is no verdict.
scan-take :
    (buf : List ℕ) (at n k : ℕ) (s : Scan)
    → scan buf at s ≡ complete n
    → at + k < n
    → scan (take k buf) at s ≡ incomplete
unfolding scan
scan-take buf at n zero s h lt = refl
scan-take [] at n (suc k) s h lt = cc
scan-take (b ∷ buf) at n (suc k) s h lt = ground (arith, scan-take buf (at + 1) n k (step s b))

-- `frame` as one pass, from the byte at `at` on.
unfoldable pub seek : List ℕ → ℕ → Frame
seek [] at = incomplete
seek (byte ∷ rest) at =
    let more = seek rest (at + 1) in if is_ws byte then more else scan_from (byte ∷ rest) at

seek-leading_ws :
    (buf : List ℕ) (at : ℕ)
    → scan_from (drop (leading_ws buf) buf) (at + leading_ws buf) ≡ seek buf at
unfolding seek leading_ws
seek-leading_ws [] at = unfold scan_from in refl
seek-leading_ws (b ∷ buf) at = elim (Bool-cases (is_ws b)) [
  | inl ws ↦ rw ws (
      ap (λ i. scan_from (drop (leading_ws buf) buf) i) (omega arith)
      ∙ seek-leading_ws buf (at + 1))
  | inr text ↦ rw text (ap (λ i. scan_from (b ∷ buf) i) (add-zero at))
]

pub frame-seek : (buf : List ℕ) → frame buf ≡ seek buf 0
unfolding frame
frame-seek buf =
    ap (λ i. scan_from (drop (leading_ws buf) buf) i) (sym (add.zero (leading_ws buf)))
    ∙ seek-leading_ws buf 0

seek-append :
    (buf more : List ℕ) (at n : ℕ) → seek buf at ≡ complete n → seek (buf ++ more) at ≡ complete n
unfolding seek scan_from
seek-append [] more at n h = cc
seek-append (b ∷ buf) more at n h =
    ground (arith, seek-append buf more (at + 1) n, scan-append (b ∷ buf) more at n start)

seek-append_invalid :
    (buf more : List ℕ) (at : ℕ) → seek buf at ≡ invalid → seek (buf ++ more) at ≡ invalid
unfolding seek scan_from
seek-append_invalid [] more at h = cc
seek-append_invalid (b ∷ buf) more at h =
    ground (arith, seek-append_invalid buf more (at + 1), scan-ne-invalid (b ∷ buf) at start)

seek_bounds :
    (buf : List ℕ) (at n : ℕ) → seek buf at ≡ complete n → (at < n) × (n ≤ at + length buf)
unfolding seek scan_from
seek_bounds [] at n h = cc
seek_bounds (b ∷ buf) at n h =
    ground (arith, seek_bounds buf (at + 1) n, scan_bounds (b ∷ buf) at n start)

seek-take :
    (buf : List ℕ) (at n k : ℕ)
    → seek buf at ≡ complete n
    → at + k < n
    → seek (take k buf) at ≡ incomplete
unfolding seek scan_from
seek-take buf at n zero h lt = refl
seek-take [] at n (suc k) h lt = cc
seek-take (b ∷ buf) at n (suc k) h lt =
    ground (arith, seek-take buf (at + 1) n k, scan-take (b ∷ buf) at n (suc k) start)

-- Once a message is complete it ends within the buffer, bytes that arrive behind it do not move
-- its end, and on every shorter prefix of the buffer the verdict is to read on.
pub frame_complete :
    (buf more : List ℕ) (n : ℕ)
    → frame buf ≡ complete n
    → (0 < n)
      × (n ≤ length buf)
      × (frame (buf ++ more) ≡ complete n)
      × ((k : ℕ) → k < n → frame (take k buf) ≡ incomplete)
frame_complete buf more n h =
    let found = sym (frame-seek buf) ∙ h in
    let (low, high) = seek_bounds buf 0 n found in
    (
      low,
      omega arith,
      frame-seek (buf ++ more) ∙ seek-append buf more 0 n found,
      λ k lt. frame-seek (take k buf) ∙ seek-take buf 0 n k found (omega arith),
    )

-- Bytes that cannot begin a message do not become one when more arrive.
pub frame_invalid : (buf more : List ℕ) → frame buf ≡ invalid → frame (buf ++ more) ≡ invalid
frame_invalid buf more h =
    frame-seek (buf ++ more) ∙ seek-append_invalid buf more 0 (sym (frame-seek buf) ∙ h)
