-- ===== src/Pam/Responses.antt =====
-- `responses_to_c` and `free_responses` of truenas_pam/src/conv.rs: the array of answers that a
-- module frees, built with `calloc` and `malloc`. `grants` says which request the C library
-- serves, by its serial number and its size.
use truenas_ros_utils.Prelude.{
  ℕ, ◌+◌, ◌*◌, Bool, true, false, not, List, [], ◌∷◌, ◌++◌, Option, some, none, Result, ok, err,
  length, drop, replicate, any, ◌==◌, if◌then◌else◌,
}
use truenas_ros_utils.Pam.Code.{buf_err}
use truenas_ros_utils.Pam.Error.{Error, pam, nul_byte}
pub mod Built
pub mod Filled
pub mod Read

pub record Secret : Type 0 where
  pub bytes : List ℕ

-- A block of `malloc`, at its address.
pub record Buffer : Type 0 where
  pub address : ℕ
  pub content : List ℕ

-- The C heap, as far as the conversation allocates from it: the live blocks, oldest first, the
-- live arrays, the next address, and what each block held when it was freed.
pub record Memory : Type 0 where
  pub buffers : List Buffer
  pub arrays : List ℕ
  pub next : ℕ
  pub freed : List (List ℕ)

-- The `resp` pointers of an array of `pam_response`, null or the address of a block; the
-- `resp_retcode` of each stays the zero that `calloc` wrote.
pub record Array : Type 0 where
  pub start : ℕ
  pub cells : List (Option ℕ)

-- `mem::size_of::<ffi::pam_response>()`, a pointer and an `int` with its padding.
abbrev pub response_size : ℕ
response_size = 16

abbrev pub is_nul : ℕ → Bool
is_nul b = b == 0

-- `strlen`
unfoldable pub strlen : List ℕ → ℕ
strlen [] = 0
strlen (b ∷ bytes) = if is_nul b then 0 else 1 + strlen bytes

-- `scrub(p, len)` of secret.rs
unfoldable pub scrub : ℕ → List ℕ → List ℕ
scrub len content = replicate len 0 ++ drop len content

unfoldable pub remove : ℕ → List Buffer → List Buffer
remove a [] = []
remove a (b ∷ buffers) = if b.address == a then buffers else b ∷ remove a buffers

unfoldable pub content_at : ℕ → List Buffer → List ℕ
content_at a [] = []
content_at a (b ∷ buffers) = if b.address == a then b.content else content_at a buffers

-- What is left in the block when it is freed.
unfoldable pub wiped : List ℕ → List ℕ
unfolding scrub strlen
wiped content = scrub (strlen content) content

unfoldable pub free_cell : Option ℕ → Memory → Memory
unfolding wiped remove content_at
free_cell none m = m
free_cell (some p) m = record m {
  buffers = remove p m.buffers;
  freed = wiped (content_at p m.buffers) ∷ m.freed;
}

unfoldable pub free_cells : List (Option ℕ) → Memory → Memory
unfolding free_cell
free_cells [] m = m
free_cells (c ∷ cells) m = free_cells cells (free_cell c m)

abbrev pub without : ℕ → List ℕ → List ℕ
without a [] = []
without a (b ∷ arrays) = if b == a then arrays else b ∷ without a arrays

unfoldable pub free_responses : Array → Memory → Memory
unfolding free_cells
free_responses array m =
    let swept = free_cells array.cells m in
    record swept { arrays = without array.start swept.arrays }

abbrev pub has_nul : List ℕ → Bool
has_nul = any is_nul

-- The block that a secret is copied to, with its terminator.
abbrev pub stored : Secret → ℕ → Buffer
stored s a = record { address = a; content = s.bytes ++ (0 ∷ []) }

abbrev pub store : Secret → Memory → Memory
store s m = record m { buffers = m.buffers ++ (stored s m.next ∷ []); next = m.next + 1 }

-- The array as it stands: the cells that are set, then the null ones.
abbrev pub partial : ℕ → List (Option ℕ) → List (Option Secret) → Array
partial start set left = record { start = start; cells = set ++ replicate (length left) none }

module _ (grants : ℕ → ℕ → Bool) where
  -- `for (i, answer) in answers.iter().enumerate()`, with the cells before `i` set.
  unfoldable pub fill :
      ℕ → List (Option ℕ) → List (Option Secret) → Memory → Result Error Array × Memory
  unfolding free_responses
  fill start set [] m = (ok (partial start set []), m)
  fill start set (none ∷ left) m = fill start (set ++ (none ∷ [])) left m
  fill start set (some s ∷ left) m =
      let rest = fill start (set ++ (some m.next ∷ [])) left (store s m) in
      if has_nul s.bytes
      then (err nul_byte, free_responses (partial start set (some s ∷ left)) m)
      else if grants m.next (length s.bytes + 1)
      then rest
      else (err (pam buf_err), free_responses (partial start set (some s ∷ left)) m)

  unfoldable pub responses_to_c : List (Option Secret) → Memory → Result Error Array × Memory
  unfolding fill
  responses_to_c answers m =
      if grants m.next (length answers * response_size)
      then fill m.next [] answers (record m { arrays = m.next ∷ m.arrays; next = m.next + 1 })
      else (err (pam buf_err), m)
