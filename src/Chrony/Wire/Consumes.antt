-- ===== src/Chrony/Wire/Consumes.antt =====
-- Readers that take a fixed number of bytes, whatever these are.
use Prim.Native.Nat.add
use truenas_ros_utils.Prelude.{
  ℕ, zero, suc, ◌+◌, ◌≤◌, ◌≡◌, refl, ap, ◌∙◌, subst, arith, List, [], ◌∷◌, length, take, drop,
  length-drop, le→ltb, ok, err, Result, Option, some, none, ◌⊎◌, inl, inr,
}
use truenas_ros_utils.Prelude.Exec.{pure, ◌>>=◌, continue}
use truenas_ros_utils.Xdr.Signed.{ℤ}
use truenas_ros_utils.Chrony.Error.{Error, malformed}
use truenas_ros_utils.Chrony.Wire.{
  Read, Reader, take_chunk, skip, u8, u16, i16, u32, ago, float, timestamp, address, SystemTime,
  Clock, time_of, in_range, max_nsec,
}

abbrev over : List ℕ → Reader
over bs = record { rest = bs }

-- Given `n` bytes, the reader succeeds and leaves what is behind them.
pub record Consumes {A : Type 0} (n : ℕ) (m : Read A) : Type 0 where
  pub reads : (bs : List ℕ) → n ≤ length bs → (a : A) × (m (over bs) ≡ (ok a, over (drop n bs)))

drop-drop : (n k : ℕ) (bs : List ℕ) → drop k (drop n bs) ≡ drop (n + k) bs
drop-drop zero k bs = rw add.zero refl
drop-drop (suc n) zero [] = rw add.suc refl
drop-drop (suc n) (suc k) [] = rw add.suc refl
drop-drop (suc n) k (b ∷ bs) = rw add.suc (drop-drop n k bs)

pub Consumes-take_chunk : (n : ℕ) → Consumes n (take_chunk n)
unfolding take_chunk
Consumes-take_chunk n = record { reads = λ bs h. (take n bs, rw (le→ltb (length bs) n h) refl) }

module _ {A : Type 0} where
  pub Consumes-pure : (a : A) → Consumes 0 (pure a)
  Consumes-pure a = record { reads = λ bs h. (a, refl) }

  pub Consumes-eq : (n k : ℕ) (m : Read A) → n ≡ k → Consumes n m → Consumes k m
  Consumes-eq n k m e h = subst (λ l. Consumes l m) e h

module _ {A B : Type 0} where
  pub Consumes-bind :
      (n k : ℕ) (m : Read A) (f : A → Read B)
      → Consumes n m
      → ((a : A) → Consumes k (f a))
      → Consumes (n + k) (m >>= f)
  Consumes-bind n k m f h g = record {
    reads = λ bs long.
        let first = h.reads bs (omega arith) in
        let second = (g first.0).reads (drop n bs) (omega (arith, length-drop n bs)) in
        (
          second.0,
          ap (λ p. continue p.0 f p.1) first.1
              ∙ (second.1 ∙ ap (λ l. (ok second.0, over l)) (drop-drop n k bs)),
        );
  }

  -- A last step that takes nothing.
  pub Consumes-map :
      (n : ℕ) (m : Read A) (f : A → B) → Consumes n m → Consumes n (m >>= λ a. pure (f a))
  Consumes-map n m f h =
      Consumes-eq (n + 0) n _ (omega arith)
        (Consumes-bind n 0 m (λ a. pure (f a)) h (λ a. Consumes-pure (f a)))

pub Consumes-skip : (n : ℕ) → Consumes n (skip n)
unfolding skip
Consumes-skip n = Consumes-map n (take_chunk n) _ (Consumes-take_chunk n)

pub Consumes-u8 : Consumes 1 u8
unfolding u8
Consumes-u8 = Consumes-map 1 (take_chunk 1) _ (Consumes-take_chunk 1)

pub Consumes-u16 : Consumes 2 u16
unfolding u16
Consumes-u16 = Consumes-map 2 (take_chunk 2) _ (Consumes-take_chunk 2)

pub Consumes-i16 : Consumes 2 i16
unfolding i16
Consumes-i16 = Consumes-map 2 (take_chunk 2) _ (Consumes-take_chunk 2)

pub Consumes-u32 : Consumes 4 u32
unfolding u32
Consumes-u32 = Consumes-map 4 (take_chunk 4) _ (Consumes-take_chunk 4)

pub Consumes-ago : Consumes 4 ago
unfolding ago
Consumes-ago = Consumes-map 4 u32 _ Consumes-u32

pub Consumes-float : Consumes 4 float
unfolding float
Consumes-float = Consumes-map 4 u32 _ Consumes-u32

-- A time that std has no room for, and the error that says so.
unfoldable pub OutOfRange : Clock → Error → Type 0
OutOfRange clock e =
    (e ≡ malformed "timestamp out of range")
    × ((secs : ℤ) × (nsec : ℕ) × (nsec ≤ max_nsec) × (time_of clock secs nsec ≡ none))

-- Given `n` bytes, the reader succeeds and leaves what is behind them, or meets such a time.
pub record Settles {A : Type 0} (clock : Clock) (n : ℕ) (m : Read A) : Type 0 where
  pub reads :
      (bs : List ℕ)
      → n ≤ length bs
      → ((a : A) × (m (over bs) ≡ (ok a, over (drop n bs))))
        ⊎ ((e : Error) × ((m (over bs)).0 ≡ err e) × OutOfRange clock e)

continue_err :
    {A B : Type 0} (r : Result Error A) (f : A → Read B) (s : Reader) (e : Error)
    → r ≡ err e
    → (continue r f s).0 ≡ err e
continue_err (ok a) f s e h = cc
continue_err (err x) f s e h = cc

module _ {A B : Type 0} (clock : Clock) where
  pub Settles-after :
      (n k : ℕ) (m : Read A) (f : A → Read B)
      → Consumes n m
      → ((a : A) → Settles clock k (f a))
      → Settles clock (n + k) (m >>= f)
  Settles-after n k m f h g = record {
    reads = λ bs long.
        let first = h.reads bs (omega arith) in
        let joined = ap (λ p. continue p.0 f p.1) first.1 in
        elim ((g first.0).reads (drop n bs) (omega (arith, length-drop n bs))) [
          | inl (b, e) ↦ inl (b, joined ∙ (e ∙ ap (λ l. (ok b, over l)) (drop-drop n k bs)))
          | inr (x, e, bad) ↦ inr (x, ap (λ p. p.0) joined ∙ e, bad)
        ];
  }

  pub Settles-first :
      (n k : ℕ) (m : Read A) (f : A → Read B)
      → Settles clock n m
      → ((a : A) → Consumes k (f a))
      → Settles clock (n + k) (m >>= f)
  Settles-first n k m f h g = record {
    reads = λ bs long. elim (h.reads bs (omega arith)) [
      | inl (a, e) ↦
          (let second = (g a).reads (drop n bs) (omega (arith, length-drop n bs)) in
            inl (
              second.0,
              ap (λ p. continue p.0 f p.1) e
                  ∙ (second.1 ∙ ap (λ l. (ok second.0, over l)) (drop-drop n k bs)),
            ))
      | inr (x, e, bad) ↦ inr (x, continue_err (m (over bs)).0 f (m (over bs)).1 x e, bad)
    ];
  }

in_range-Settles :
    (clock : Clock) (secs : ℤ) (nsec : ℕ) (found : Option SystemTime)
    → nsec ≤ max_nsec
    → time_of clock secs nsec ≡ found
    → Settles clock 0 (in_range found)
unfolding OutOfRange
in_range-Settles clock secs nsec none small e = record {
  reads = λ bs h. inr (_, refl, (refl, (secs, nsec, small, e)));
}
in_range-Settles clock secs nsec (some t) small e = record { reads = λ bs h. inl (t, refl) }

pub Settles-timestamp : (clock : Clock) → Settles clock 12 (timestamp clock)
unfolding timestamp
Settles-timestamp clock = Settles-after clock 4 8 u32 _ Consumes-u32 λ high.
    Settles-after clock 4 4 u32 _ Consumes-u32 λ low.
      Settles-after clock 4 0 u32 _ Consumes-u32
        λ n. in_range-Settles clock _ _ _ (omega arith) refl

pub Consumes-address : Consumes 20 address
unfolding address
Consumes-address = Consumes-bind 16 4 (take_chunk 16) _ (Consumes-take_chunk 16) λ addr.
    Consumes-bind 2 2 u16 _ Consumes-u16 λ family. Consumes-map 2 (skip 2) _ (Consumes-skip 2)
