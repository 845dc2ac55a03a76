-- ===== src/Pam/Responses/Filled.antt =====
-- The array of answers, whole or given up.
use truenas_ros_utils.Prelude.{
  ℕ, ◌+◌, ◌*◌, ◌≡◌, refl, Bool, List, [], ◌∷◌, ◌++◌, append_assoc, append-nil, Option, some, none,
  All, length, take, ==-self, Result, ok, err, inl, inr, Bool-cases, take-append,
}
use truenas_ros_utils.Pam.Code.{buf_err}
use truenas_ros_utils.Pam.Error.{Error, pam, nul_byte}
use truenas_ros_utils.Pam.Responses.{
  Secret, Buffer, Memory, Array, free_responses, stored, has_nul, partial, fill, responses_to_c,
  response_size,
}
use truenas_ros_utils.Pam.Responses.Built.{
  IsBelow, Holds, no_more, Holds-silent, Holds-spoken, free_cells-Holds, wipes, All-IsBelow-suc,
}

-- A heap whose live blocks are `blocks` behind those of another.
abbrev pub heap_of : List Buffer → List ℕ → ℕ → List (List ℕ) → Memory
heap_of buffers arrays next freed = record {
  buffers = buffers;
  arrays = arrays;
  next = next;
  freed = freed;
}

-- What `responses_to_c` leaves of the heap.
unfoldable pub Leaves :
    List Buffer
    → List ℕ
    → List (List ℕ)
    → ℕ
    → List (Option Secret)
    → Result Error Array × Memory
    → Type 0
Leaves base arrays freed lo answers (ok array, m) =
    (array.start ∷ arrays ≡ m.arrays)
    × (m.freed ≡ freed)
    × ((blocks : List Buffer) × (m.buffers ≡ base ++ blocks)
        × Holds lo m.next array.cells answers blocks)
Leaves base arrays freed lo answers (err e, m) =
    (m.arrays ≡ arrays) × (m.buffers ≡ base) × ((k : ℕ) × (m.freed ≡ wipes (take k answers) freed))

free_responses-Holds :
    {lo hi : ℕ} {cells : List (Option ℕ)} {answers : List (Option Secret)} {blocks : List Buffer}
    (start : ℕ) (base : List Buffer) (freed : List (List ℕ)) (arrays : List ℕ)
    (left : List (Option Secret))
    → All (IsBelow lo) base
    → Holds lo hi cells answers blocks
    → free_responses (partial start cells left) (heap_of (base ++ blocks) (start ∷ arrays) hi freed)
      ≡ heap_of base arrays hi (wipes answers freed)
unfolding free_responses
free_responses-Holds start base freed arrays left b h =
    rw (free_cells-Holds (length left) base freed (start ∷ arrays) _ b h, ==-self) refl

module _ (grants : ℕ → ℕ → Bool) where
  given_up :
      {lo hi : ℕ} {cells : List (Option ℕ)} {done : List (Option Secret)} {blocks : List Buffer}
      (e : Error) (start : ℕ) (base : List Buffer) (freed : List (List ℕ)) (arrays : List ℕ)
      (left : List (Option Secret))
      → All (IsBelow lo) base
      → Holds lo hi cells done blocks
      → Leaves base arrays freed lo (done ++ left) (
        err e,
        free_responses
            (partial start cells left)
            (heap_of (base ++ blocks) (start ∷ arrays) hi freed),
      )
  unfolding Leaves
  given_up {done = done} e start base freed arrays left b h =
      rw (free_responses-Holds start base freed arrays left b h)
        (refl, refl, (length done, rw take-append refl))

  fill-Leaves :
      (start : ℕ) (base : List Buffer) (freed : List (List ℕ)) (arrays : List ℕ)
      (left : List (Option Secret))
      → {lo hi : ℕ} {cells : List (Option ℕ)} {done : List (Option Secret)} {blocks : List Buffer}
      → All (IsBelow lo) base
      → Holds lo hi cells done blocks
      → Leaves base arrays freed lo
          (done ++ left)
          (fill grants start cells left (heap_of (base ++ blocks) (start ∷ arrays) hi freed))
  unfolding fill Leaves
  fill-Leaves start base freed arrays [] {blocks = blocks} b h =
      rw (append-nil, append-nil) (refl, refl, (blocks, refl, h))
  fill-Leaves start base freed arrays (none ∷ left) {done = done} b h =
      rw (append_assoc done (none ∷ []) left) at
        (fill-Leaves start base freed arrays left b (Holds-silent h))
  fill-Leaves start base freed arrays (some s ∷ left) {hi = hi} {done = done} {blocks = blocks} b
        h =
      elim (Bool-cases (has_nul s.bytes)) [
        | inl n ↦ rw n (given_up nul_byte start base freed arrays (some s ∷ left) b h)
        | inr n ↦ elim (Bool-cases (grants hi (length s.bytes + 1))) [
          | inl g ↦
              rw (n, g, append_assoc base blocks (stored s hi ∷ []))
                (rw (append_assoc done (some s ∷ []) left) at
                  (fill-Leaves start base freed arrays left b (Holds-spoken s n h)))
          | inr g ↦ rw (n, g) (given_up (pam buf_err) start base freed arrays (some s ∷ left) b h)
        ]
      ]

  pub responses_to_c-Leaves :
      (answers : List (Option Secret)) (m : Memory)
      → All (IsBelow m.next) m.buffers
      → Leaves m.buffers m.arrays m.freed (m.next + 1) answers (responses_to_c grants answers m)
  unfolding responses_to_c Leaves wipes
  responses_to_c-Leaves answers m b =
      elim (Bool-cases (grants m.next (length answers * response_size))) [
        | inl g ↦ rw g (
            rw append-nil at (
              fill-Leaves m.next m.buffers m.freed m.arrays answers
                (All-IsBelow-suc m.next m.buffers b) no_more))
        | inr g ↦ rw g (refl, refl, (0, refl))
      ]
