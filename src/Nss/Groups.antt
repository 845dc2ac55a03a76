-- ===== src/Nss/Groups.antt =====
-- The group list that the lookup over all modules returns.
use truenas_ros_utils.Prelude.{
  append-nil, ℕ, ◌≡◌, refl, ap, ◌∙◌, sym, Bool, true, false, not, ◌&&◌, ◌||◌, Bool-cases, inl, inr,
  List, [], ◌∷◌, ◌++◌, Result, ok, err, ◌==◌, ==-self, ==→eq,
}
use truenas_ros_utils.Prelude.Exec.{Exec, continue, pure}
use truenas_ros_utils.Nss.Error.{Error, is_unavail}
use truenas_ros_utils.Nss.Service.{
  Source, files, sss, winbind, contains, dedup, dedup_gids, extend, union, fan_out_groups,
}

-- No gid stands twice.
unfoldable pub IsDistinct : List ℕ → Type 0
IsDistinct [] = Unit {0}
IsDistinct (gid ∷ gids) = (contains gids gid ≡ false) × IsDistinct gids

and_false : (a : Bool) → (a && false) ≡ false
and_false true = refl
and_false false = refl

and_true : (a : Bool) → (a && true) ≡ a
and_true true = refl
and_true false = refl

or_assoc : (a b c : Bool) → ((a || b) || c) ≡ (a || (b || c))
or_assoc true b c = refl
or_assoc false b c = refl

contains-append :
    (xs ys : List ℕ) (x : ℕ) → contains (xs ++ ys) x ≡ (contains xs x || contains ys x)
contains-append [] ys x = refl
contains-append (y ∷ xs) ys x =
    ap (λ b. (y == x) || b) (contains-append xs ys x)
    ∙ sym (or_assoc (y == x) (contains xs x) (contains ys x))

not_again :
    (old here later : Bool)
    → (here ≡ true → old ≡ true)
    → (later && not old) ≡ ((here || later) && not old)
not_again old false later h = refl
not_again false true later h = (let e = h refl in cc)
not_again true true later h = and_false later

at_last :
    (old here later : Bool)
    → (here ≡ true → old ≡ false)
    → (here || (later && not (here || old))) ≡ ((here || later) && not old)
at_last old false later h = refl
at_last false true later h = refl
at_last true true later h = (let e = h refl in cc)

contains-dedup :
    (seen gids : List ℕ) (x : ℕ)
    → contains (dedup seen gids) x ≡ (contains gids x && not (contains seen x))
unfolding dedup
contains-dedup seen [] x = refl
contains-dedup seen (gid ∷ gids) x = elim (Bool-cases (contains seen gid)) [
  | inl old ↦
      rw (old, contains-dedup seen gids x)
        (not_again (contains seen x) (gid == x) (contains gids x)
          (λ e. ap (contains seen) (sym (==→eq gid x e)) ∙ old))
  | inr new ↦
      rw (new, contains-dedup (gid ∷ seen) gids x)
        (at_last (contains seen x) (gid == x) (contains gids x)
          (λ e. ap (contains seen) (sym (==→eq gid x e)) ∙ new))
]

dedup-IsDistinct : (seen gids : List ℕ) → IsDistinct (dedup seen gids)
unfolding dedup IsDistinct
dedup-IsDistinct seen [] = tt
dedup-IsDistinct seen (gid ∷ gids) = elim (Bool-cases (contains seen gid)) [
  | inl old ↦ rw old (dedup-IsDistinct seen gids)
  | inr new ↦ rw new (
    (contains-dedup (gid ∷ seen) gids gid ∙ rw (==-self gid) (and_false (contains gids gid))),
    dedup-IsDistinct (gid ∷ seen) gids,
  )
]

-- A module that had an answer, or was not able to answer at all.
unfoldable pub Passes : Result Error (List ℕ) → Type 0
Passes (ok gids) = Unit {0}
Passes (err e) = is_unavail e ≡ true

-- What a module adds to the list.
unfoldable pub granted : Result Error (List ℕ) → List ℕ
granted (ok gids) = gids
granted (err e) = []

dedup_gids-seeded :
    (gid : ℕ) (gids : List ℕ) → (rest : List ℕ) × (dedup_gids (gid ∷ gids) ≡ gid ∷ rest)
unfolding dedup_gids dedup
dedup_gids-seeded gid gids = (_, refl)

contains-dedup_gids : (gids : List ℕ) (x : ℕ) → contains (dedup_gids gids) x ≡ contains gids x
unfolding dedup_gids
contains-dedup_gids gids x = contains-dedup [] gids x ∙ and_true (contains gids x)

module _ {S : Type 0} (lookup : Source → Exec Error S (List ℕ)) where
  extend-Passes :
      (r : Result Error (List ℕ)) (next : List ℕ → Exec Error S (List ℕ)) (all : List ℕ) (s : S)
      → Passes r
      → extend lookup r next all s ≡ next (all ++ granted r) s
  unfolding Passes granted
  extend-Passes (ok gids) next all s h = refl
  extend-Passes (err e) next all s h = rw (h, append-nil all) refl

  -- What each module answers, asked one after the other.
  unfoldable pub answer_of : Source → S → Result Error (List ℕ) × S
  answer_of files s = lookup files s
  answer_of sss s = lookup sss (lookup files s).1
  answer_of winbind s = lookup winbind (lookup sss (lookup files s).1).1

  unfoldable pub everything : ℕ → S → List ℕ
  unfolding answer_of
  everything gid s =
      ((gid ∷ granted (answer_of files s).0) ++ granted (answer_of sss s).0)
      ++ granted (answer_of winbind s).0

  fan_out_groups-all :
      (gid : ℕ) (s : S)
      → ((source : Source) → Passes (answer_of source s).0)
      → fan_out_groups lookup gid s ≡ (ok (dedup_gids (everything gid s)), (answer_of winbind s).1)
  unfolding fan_out_groups union answer_of everything
  fan_out_groups-all gid s h =
      let f = answer_of files s in
      let g = answer_of sss s in
      let w = answer_of winbind s in
      let one = gid ∷ granted f.0 in
      let seeded = extend-Passes f.0 (union lookup (sss ∷ winbind ∷ [])) (gid ∷ []) f.1 (h files) in
      let more = extend-Passes g.0 (union lookup (winbind ∷ [])) one g.1 (h sss) in
      let last = extend-Passes w.0 (union lookup []) (one ++ granted g.0) w.1 (h winbind) in
      ap (λ r. continue r.0 (λ all. pure (dedup_gids all)) r.1) (seeded ∙ (more ∙ last))

  contains-everything :
      (gid x : ℕ) (s : S)
      → contains (everything gid s) x ≡ (
          gid == x
          || (contains (granted (answer_of files s).0) x
              || (contains (granted (answer_of sss s).0) x
                  || contains (granted (answer_of winbind s).0) x)))
  unfolding everything
  contains-everything gid x s =
      let f = granted (answer_of files s).0 in
      let g = granted (answer_of sss s).0 in
      let w = granted (answer_of winbind s).0 in
      ap (λ b. (gid == x) || b)
        (contains-append (f ++ g) w x
          ∙ (ap (λ b. b || contains w x) (contains-append f g x)
              ∙ or_assoc (contains f x) (contains g x) (contains w x)))

  -- If every module answers or is unavailable, the lookup over all of them returns a list that
  -- begins with the seed, has no gid twice, and contains a gid exactly when it is the seed or one of
  -- the modules granted it.
  pub fan_out_groups-union :
      (gid : ℕ) (s : S)
      → ((source : Source) → Passes (answer_of source s).0)
      → (out : List ℕ) × (fan_out_groups lookup gid s ≡ (ok out, (answer_of winbind s).1))
        × ((rest : List ℕ) × (out ≡ gid ∷ rest))
        × IsDistinct out
        × ((x : ℕ)
            → contains out x ≡ (
                gid == x
                || (contains (granted (answer_of files s).0) x
                    || (contains (granted (answer_of sss s).0) x
                        || contains (granted (answer_of winbind s).0) x))))
  unfolding dedup_gids everything
  fan_out_groups-union gid s h = (
    dedup_gids (everything gid s),
    fan_out_groups-all gid s h,
    dedup_gids-seeded gid _,
    dedup-IsDistinct [] (everything gid s),
    λ x. contains-dedup_gids (everything gid s) x ∙ contains-everything gid x s,
  )
