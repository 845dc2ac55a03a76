-- ===== src/Chrony/Client/Sources.antt =====
-- What the walk of the source list returns.
use truenas_ros_utils.Prelude.{
  ℕ, zero, suc, ◌+◌, ◌<◌, ◌≡◌, refl, ap, ◌∙◌, sym, arith, Bool-cases, inl, inr, Option, none, some,
  List, [], ◌∷◌, length, Result, ok, err, ◌==◌, ==→eq, ==-self,
}
use truenas_ros_utils.Prelude.Exec.{Exec, continue}
use truenas_ros_utils.Chrony.Error.{Error}
use truenas_ros_utils.Chrony.Source.{Source}
use truenas_ros_utils.Chrony.Client.{walk, walks, sources, with_source, walked, settled, is_missing}

continue_ok :
    {S A B : Type 0} (r : Result Error A) (f : A → Exec Error S B) (s s' : S) (b : B)
    → continue r f s ≡ (ok b, s')
    → (a : A) × (r ≡ ok a) × (f a s ≡ (ok b, s'))
continue_ok (ok a) f s s' b h = (a, refl, h)
continue_ok (err e) f s s' b h = cc

length_of : Option (List Source) → ℕ
length_of none = 0
length_of (some l) = length l

-- The sources from `index` on.
abbrev pub listing : (ℕ → Source) → ℕ → ℕ → List Source
listing f index zero = []
listing f index (suc n) = f index ∷ listing f (index + 1) n

module _ {S : Type 0} (source_count : Exec Error S ℕ) (source : ℕ → Exec Error S Source) where
  length-with_source :
      (a : Source) (found : Option (List Source)) (list : List Source) (n : ℕ)
      → ((l : List Source) → found ≡ some l → length l ≡ n)
      → with_source source_count source a found ≡ some list
      → length list ≡ suc n
  unfolding length_of
  length-with_source a none list n h e = cc
  length-with_source a (some l) list n h e = ap length_of (sym e) ∙ ap suc (h l refl)

  length-walked :
      (r : Result Error Source) (rest : Exec Error S (Option (List Source))) (n : ℕ)
      → ((s s' : S) (l : List Source) → rest s ≡ (ok (some l), s') → length l ≡ n)
      → (s s' : S) (list : List Source) → walked source_count source r rest s ≡ (ok (some list), s')
      → length list ≡ suc n
  length-walked (ok a) rest n h s s' list e =
      let (found, got, put) = continue_ok (rest s).0 _ (rest s).1 s' (some list) e in
      length-with_source a found list n (λ l eq. h s (rest s).1 l cc) cc
  length-walked (err x) rest n h s s' list e = elim (Bool-cases (is_missing x)) [
    | inl missing ↦ (let m = rw missing at e in cc)
    | inr other ↦ (let m = rw other at e in cc)
  ]

  length-walk :
      (index n : ℕ) (s s' : S) (list : List Source)
      → walk source_count source index n s ≡ (ok (some list), s')
      → length list ≡ n
  unfolding walk
  length-walk index zero s s' list h = let l : [] ≡ list = cc in ap length (sym l)
  length-walk index (suc n) s s' list h =
      length-walked (source index s).0 (walk source_count source (index + 1) n) n
        (length-walk (index + 1) n) (source index s).1 s' list h

  settled_ok :
      (count : ℕ) (again : Exec Error S (List Source)) (found : Option (List Source)) (s s' : S)
      (list : List Source)
      → ((t : S)
          → again t ≡ (ok list, s')
          → (before : S) × (source_count before ≡ (ok (length list), s')))
      → ((l : List Source) → found ≡ some l → length l ≡ count)
      → settled source_count source count again found s ≡ (ok list, s')
      → (before : S) × (source_count before ≡ (ok (length list), s'))
  settled_ok count again none s s' list h g e = h s e
  settled_ok count again (some l) s s' list h g e =
      let (now, got, put) = continue_ok (source_count s).0 _ (source_count s).1 s' list e in
      elim (Bool-cases (now == count)) [
        | inl same ↦
            (let p = rw same at put in
              let listed : l ≡ list = cc in
              let size : now ≡ length list =
                ==→eq now count same ∙ (sym (g l refl) ∙ ap length listed) in
              (s, cc))
        | inr other ↦ h (source_count s).1 (rw other at put)
      ]

  walks_settled :
      (n : ℕ) (s s' : S) (list : List Source)
      → walks source_count source n s ≡ (ok list, s')
      → (before : S) × (source_count before ≡ (ok (length list), s'))
  unfolding walks
  walks_settled zero s s' list h = cc
  walks_settled (suc n) s s' list h =
      let (count, got, put) = continue_ok (source_count s).0 _ (source_count s).1 s' list h in
      let after = walk source_count source 0 count (source_count s).1 in
      let (found, got_found, settle) = continue_ok after.0 _ after.1 s' list put in
      settled_ok count (walks source_count source n) found after.1 s' list
        (λ t e. walks_settled n t s' list e)
        (λ l e. length-walk 0 count (source_count s).1 after.1 l cc) settle

  -- A list that the walk returns is as long as the count that the daemon gave in the walk's very
  -- last exchange, which left the state in which it returns.
  pub sources_ok :
      (s s' : S) (list : List Source)
      → sources source_count source s ≡ (ok list, s')
      → (before : S) × (source_count before ≡ (ok (length list), s'))
  unfolding sources
  sources_ok s s' list h = walks_settled 3 s s' list h

  walk-listing :
      (f : ℕ → Source) (s : S) (index n : ℕ)
      → ((i : ℕ) → i < index + n → source i s ≡ (ok (f i), s))
      → walk source_count source index n s ≡ (ok (some (listing f index n)), s)
  unfolding walk
  walk-listing f s index zero h = refl
  walk-listing f s index (suc n) h =
      rw (h index (omega arith), walk-listing f s (index + 1) n (λ i lt. h i (omega arith))) refl

  -- While the daemon keeps its sources, the list has every one of them, in the order of their
  -- indices, on the first walk.
  pub sources_steady :
      (f : ℕ → Source) (s : S) (n : ℕ)
      → source_count s ≡ (ok n, s)
      → ((i : ℕ) → i < n → source i s ≡ (ok (f i), s))
      → sources source_count source s ≡ (ok (listing f 0 n), s)
  unfolding sources walks
  sources_steady f s n h g =
      rw (h, walk-listing f s 0 n (λ i lt. g i (omega arith)), h, ==-self n) refl
