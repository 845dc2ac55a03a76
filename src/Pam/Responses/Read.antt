-- ===== src/Pam/Responses/Read.antt =====
-- What a module reads from the array of answers.
use truenas_ros_utils.Prelude.{
  ℕ, ◌+◌, ◌≡◌, refl, sym, ap, arith, Bool, false, List, [], ◌∷◌, ◌++◌, append_assoc, map, Option,
  some, none, All, All-append, take, take-append, ok, err,
}
use truenas_ros_utils.Pam.Error.{Error}
use truenas_ros_utils.Pam.Responses.{
  Secret, Buffer, Memory, Array, strlen, content_at, stored, has_nul, responses_to_c,
}
use truenas_ros_utils.Pam.Responses.Built.{
  IsBelow, Holds, no_more, silent, spoken, content_past, strlen_stored, All-IsBelow-suc, wipes,
}
use truenas_ros_utils.Pam.Responses.Filled.{Leaves, responses_to_c-Leaves}

-- The C string at a `resp` pointer.
pub read_cell : List Buffer → Option ℕ → Option Secret
read_cell buffers none = none
read_cell buffers (some p) =
    let c = content_at p buffers in some (record { bytes = take (strlen c) c })

pub read_back : Array → Memory → List (Option Secret)
read_back array m = map (read_cell m.buffers) array.cells

stored_read :
    (s : Secret) (lo : ℕ) (base blocks : List Buffer)
    → All (IsBelow lo) base
    → has_nul s.bytes ≡ false
    → read_cell (base ++ (stored s lo ∷ blocks)) (some lo) ≡ some s
unfolding read_cell
stored_read s lo base blocks b n =
    rw (content_past lo base (stored s lo) blocks b refl, strlen_stored s.bytes n, take-append) refl

cells_read :
    {lo hi : ℕ} {cells : List (Option ℕ)} {answers : List (Option Secret)} {blocks : List Buffer}
    (base : List Buffer)
    → All (IsBelow lo) base
    → Holds lo hi cells answers blocks
    → map (read_cell (base ++ blocks)) cells ≡ answers
unfolding read_cell IsBelow
cells_read base b no_more = refl
cells_read base b (silent h) = ap (λ l. none ∷ l) (cells_read base b h)
cells_read {cells = some lo ∷ cells} base b (spoken {blocks = blocks} {s = s} n h) =
    let below =
      All-append (IsBelow (lo + 1)) base (stored s lo ∷ []) (All-IsBelow-suc lo base b)
        (omega arith, tt) in
    let rest =
      rw (append_assoc base (stored s lo ∷ []) blocks) at
        (cells_read (base ++ (stored s lo ∷ [])) below h) in
    cc (stored_read s lo base blocks b n, rest)

module _ (grants : ℕ → ℕ → Bool) where
  -- The array that is handed to the module has one cell for each answer, and reading it as C
  -- strings gives back the answers in their order, an empty one and a missing one told apart.
  pub read_back-responses_to_c :
      (answers : List (Option Secret)) (m after : Memory) (array : Array)
      → All (IsBelow m.next) m.buffers
      → responses_to_c grants answers m ≡ (ok array, after)
      → (read_back array after ≡ answers) × (after.arrays ≡ array.start ∷ m.arrays)
  unfolding Leaves read_back
  read_back-responses_to_c answers m after array b h =
      let l = rw h at (responses_to_c-Leaves grants answers m b) in
      (rw l.2.1 (cells_read m.buffers (All-IsBelow-suc m.next m.buffers b) l.2.2), sym l.0)

  -- A refusal leaves the heap as it was: the live blocks and arrays are those before the call, and
  -- the copies of a first part of the answers that were made were zeroed before they were freed.
  pub responses_to_c_refused :
      (answers : List (Option Secret)) (m after : Memory) (e : Error)
      → All (IsBelow m.next) m.buffers
      → responses_to_c grants answers m ≡ (err e, after)
      → (after.buffers ≡ m.buffers)
        × (after.arrays ≡ m.arrays)
        × ((k : ℕ) × (after.freed ≡ wipes (take k answers) m.freed))
  unfolding Leaves
  responses_to_c_refused answers m after e b h =
      let l = rw h at (responses_to_c-Leaves grants answers m b) in (l.1, l.0, l.2)
