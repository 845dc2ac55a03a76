-- ===== src/Pam/Responses/Built.antt =====
-- The blocks that a filled array points at, and what is left of them when the array is given up.
use truenas_ros_utils.Prelude.{
  ℕ, zero, suc, ◌+◌, ◌<◌, ◌≡◌, refl, ap, ◌∙◌, arith, false, List, [], ◌∷◌, ◌++◌, append-nil, Option,
  some, none, All, length, replicate, ==-self, ne→==, drop-append, or_false,
}
use truenas_ros_utils.Pam.Responses.{
  Secret, Buffer, Memory, strlen, scrub, remove, content_at, wiped, free_cell, free_cells, stored,
  has_nul, is_nul,
}

-- The blocks live below an address.
unfoldable pub IsBelow : ℕ → Buffer → Type 0
IsBelow n b = b.address < n

-- The cells and blocks of the answers, at the addresses from `lo` up to `hi`.
pub data Holds : ℕ → ℕ → List (Option ℕ) → List (Option Secret) → List Buffer → Type 0 where
  no_more : {lo : ℕ} → Holds lo lo [] [] []
  silent :
      {lo hi : ℕ} {cells : List (Option ℕ)} {answers : List (Option Secret)} {blocks : List Buffer}
      → Holds lo hi cells answers blocks
      → Holds lo hi (none ∷ cells) (none ∷ answers) blocks
  spoken :
      {lo hi : ℕ} {cells : List (Option ℕ)} {answers : List (Option Secret)} {blocks : List Buffer}
      {s : Secret}
      → has_nul s.bytes ≡ false
      → Holds (lo + 1) hi cells answers blocks
      → Holds lo hi (some lo ∷ cells) (some s ∷ answers) (stored s lo ∷ blocks)

pub Holds-silent :
    {lo hi : ℕ} {cells : List (Option ℕ)} {answers : List (Option Secret)} {blocks : List Buffer}
    → Holds lo hi cells answers blocks
    → Holds lo hi (cells ++ (none ∷ [])) (answers ++ (none ∷ [])) blocks
Holds-silent no_more = silent no_more
Holds-silent (silent h) = silent (Holds-silent h)
Holds-silent (spoken n h) = spoken n (Holds-silent h)

pub Holds-spoken :
    {lo hi : ℕ} {cells : List (Option ℕ)} {answers : List (Option Secret)} {blocks : List Buffer}
    (s : Secret)
    → has_nul s.bytes ≡ false
    → Holds lo hi cells answers blocks
    → Holds lo
        (hi + 1)
        (cells ++ (some hi ∷ []))
        (answers ++ (some s ∷ []))
        (blocks ++ (stored s hi ∷ []))
Holds-spoken s n no_more = spoken n no_more
Holds-spoken s n (silent h) = silent (Holds-spoken s n h)
Holds-spoken s n (spoken k h) = spoken k (Holds-spoken s n h)

pub All-IsBelow-suc :
    (n : ℕ) (buffers : List Buffer) → All (IsBelow n) buffers → All (IsBelow (n + 1)) buffers
unfolding IsBelow
All-IsBelow-suc n [] h = tt
All-IsBelow-suc n (b ∷ buffers) h = (omega (arith, h.0), All-IsBelow-suc n buffers h.1)

pub remove_past :
    (a : ℕ) (base : List Buffer) (b : Buffer) (blocks : List Buffer)
    → All (IsBelow a) base
    → b.address ≡ a
    → remove a (base ++ (b ∷ blocks)) ≡ base ++ blocks
unfolding remove IsBelow
remove_past a [] b blocks h k = rw (k, ==-self) refl
remove_past a (c ∷ base) b blocks h k =
    rw (ne→== c.address a (λ e. omega (arith, h.0, e)))
      (ap (λ l. c ∷ l) (remove_past a base b blocks h.1 k))

pub content_past :
    (a : ℕ) (base : List Buffer) (b : Buffer) (blocks : List Buffer)
    → All (IsBelow a) base
    → b.address ≡ a
    → content_at a (base ++ (b ∷ blocks)) ≡ b.content
unfolding content_at IsBelow
content_past a [] b blocks h k = rw (k, ==-self) refl
content_past a (c ∷ base) b blocks h k =
    rw (ne→== c.address a (λ e. omega (arith, h.0, e))) (content_past a base b blocks h.1 k)

pub strlen_stored :
    (bytes : List ℕ) → has_nul bytes ≡ false → strlen (bytes ++ (0 ∷ [])) ≡ length bytes
unfolding strlen
strlen_stored [] h = refl
strlen_stored (b ∷ bytes) h =
    let n = or_false (is_nul b) (has_nul bytes) h in rw n.0 (omega (arith, strlen_stored bytes n.1))

wiped_stored :
    (bytes : List ℕ)
    → has_nul bytes ≡ false
    → wiped (bytes ++ (0 ∷ [])) ≡ replicate (length bytes) 0 ++ (0 ∷ [])
unfolding wiped scrub
wiped_stored bytes h = rw (strlen_stored bytes h, drop-append) refl

-- What the blocks of the answers hold when they are freed, the last one first.
abbrev pub zeroed : Secret → List ℕ
zeroed s = replicate (length s.bytes) 0 ++ (0 ∷ [])

unfoldable pub wipes : List (Option Secret) → List (List ℕ) → List (List ℕ)
wipes [] freed = freed
wipes (none ∷ answers) freed = wipes answers freed
wipes (some s ∷ answers) freed = wipes answers (zeroed s ∷ freed)

free_cell-stored :
    (lo : ℕ) (s : Secret) (base blocks : List Buffer) (freed : List (List ℕ)) (arrays : List ℕ)
    (next : ℕ)
    → All (IsBelow lo) base
    → has_nul s.bytes ≡ false
    → free_cell (some lo) (record {
      buffers = base ++ (stored s lo ∷ blocks);
      arrays = arrays;
      next = next;
      freed = freed;
    })
      ≡ record { buffers = base ++ blocks; arrays = arrays; next = next; freed = zeroed s ∷ freed }
unfolding free_cell
free_cell-stored lo s base blocks freed arrays next b n =
    rw
      (
        remove_past lo base (stored s lo) blocks b refl,
        content_past lo base (stored s lo) blocks b refl,
        wiped_stored s.bytes n,
      )
      refl

free_nulls : (k : ℕ) (m : Memory) → free_cells (replicate k none) m ≡ m
unfolding free_cells free_cell
free_nulls zero m = refl
free_nulls (suc k) m = free_nulls k m

-- The cells are freed, the null ones behind them too, and the blocks below stay.
pub free_cells-Holds :
    {lo hi : ℕ} {cells : List (Option ℕ)} {answers : List (Option Secret)} {blocks : List Buffer}
    (k : ℕ) (base : List Buffer) (freed : List (List ℕ)) (arrays : List ℕ) (next : ℕ)
    → All (IsBelow lo) base
    → Holds lo hi cells answers blocks
    → free_cells
        (cells ++ replicate k none)
        (record { buffers = base ++ blocks; arrays = arrays; next = next; freed = freed })
      ≡ record { buffers = base; arrays = arrays; next = next; freed = wipes answers freed }
unfolding free_cells free_cell wipes
free_cells-Holds k base freed arrays next b no_more =
    rw append-nil
      (free_nulls k (record { buffers = base; arrays = arrays; next = next; freed = freed }))
free_cells-Holds k base freed arrays next b (silent h) =
    free_cells-Holds k base freed arrays next b h
free_cells-Holds {cells = some lo ∷ cells} k base freed arrays next b (spoken {s = s} n h) =
    ap (free_cells (cells ++ replicate k none)) (free_cell-stored lo s base _ freed arrays next b n)
    ∙ free_cells-Holds k base (zeroed s ∷ freed) arrays next (All-IsBelow-suc lo base b) h
