-- ===== src/Pam/Builder/Outcome.antt =====
-- A transaction is begun whole, or nothing of it is left open.
use truenas_ros_utils.Prelude.{
  ℕ, zero, suc, ◌≡◌, ◌≢◌, ◌⊎◌, inl, inr, refl, Bool, true, false, ◌||◌, Bool-cases, ne→==, arith,
  List, [], Option, some, none, Result, ok, err, any, ◌==◌,
}
use truenas_ros_utils.Prelude.Exec.{Exec, continue, ◌>>◌}
use truenas_ros_utils.Xdr.Signed.{ℤ, pos, negsuc}
use truenas_ros_utils.Pam.Error.{Error, nul_byte, check, from_raw}
use truenas_ros_utils.Pam.Conv
use truenas_ros_utils.Pam.Conv.{ConvSlot}
use truenas_ros_utils.Pam.Libpam.{Libpam}
use truenas_ros_utils.Pam.Transaction.{Transaction}
use truenas_ros_utils.Pam.Settings.{
  is_zero, and_then, cstring, set_item_str, set_fail_delay, called, pam_ruser, pam_rhost, pam_tty,
}
use truenas_ros_utils.Pam.Builder.{
  Builder, Teardown, not_started, pam_end, optional, when, configure, configured, begun, started,
  build,
}

-- Whether a string has a NUL, and so no C string.
has_nul : List ℕ → Bool
has_nul bytes = any (λ b. b == 0) bytes

nul_in : Option (List ℕ) → Bool
unfolding has_nul
nul_in none = false
nul_in (some bytes) = has_nul bytes

-- Whether one of the strings of `pam_start` has a NUL.
names_nul : Builder → Bool
unfolding nul_in
names_nul b = has_nul b.service || (nul_in b.user || nul_in b.confdir)

-- The states of a handle after settings on it.
data Follows {H : Type 0} (lib : Libpam H) (begin : H) : H → Type 0 where
  nothing_set : Follows lib begin begin
  item_set :
      {hdl : H} (item : ℕ) (value : List ℕ)
      → Follows lib begin hdl
      → Follows lib begin (lib.set_item item value hdl).1
  delay_set :
      {hdl : H} (usec : ℕ) → Follows lib begin hdl → Follows lib begin (lib.fail_delay usec hdl).1

check_cases :
    (rc : ℤ)
    → ((rc ≡ pos 0) × (check rc ≡ ok tt)) ⊎ ((e : Error) × (rc ≢ pos 0) × (check rc ≡ err e))
unfolding check
check_cases (pos zero) = inl (refl, refl)
check_cases (pos (suc n)) =
    inr
      (from_raw (pos (suc n)), λ h. cc, rw (ne→== (suc n) 0 (λ h. absurd (omega (arith, h)))) refl)
check_cases (negsuc n) = inr (_, λ h. cc, refl)

cstring_cases :
    (bytes : List ℕ)
    → ((has_nul bytes ≡ true) × (cstring bytes ≡ err nul_byte))
      ⊎ ((has_nul bytes ≡ false) × (cstring bytes ≡ ok bytes))
unfolding cstring has_nul
cstring_cases bytes = elim (Bool-cases (any is_zero bytes)) [
  | inl nul ↦ inl (nul, rw nul refl)
  | inr clean ↦ inr (clean, rw clean refl)
]

optional_cases :
    (o : Option (List ℕ))
    → ((nul_in o ≡ true) × (optional o ≡ err nul_byte)) ⊎ ((nul_in o ≡ false) × (optional o ≡ ok o))
unfolding nul_in
optional_cases none = inr (refl, refl)
optional_cases (some bytes) = elim (cstring_cases bytes) [
  | inl (nul, e) ↦ inl (nul, rw e refl)
  | inr (clean, e) ↦ inr (clean, rw e refl)
]

-- What `build` passes to `pam_start`.
abbrev strings : Builder → Result Error (List ℕ × Option (List ℕ) × Option (List ℕ))
strings b = and_then (cstring b.service) (λ service.
    and_then (optional b.user)
      (λ user. and_then (optional b.confdir) (λ dir. ok (service, user, dir))))

strings_cases :
    (b : Builder)
    → ((names_nul b ≡ true) × (strings b ≡ err nul_byte))
      ⊎ ((names_nul b ≡ false) × (strings b ≡ ok (b.service, b.user, b.confdir)))
unfolding names_nul
strings_cases b = elim (cstring_cases b.service) [
  | inl (nul, e) ↦ inl (rw nul refl, rw e refl)
  | inr (clean, e) ↦ (elim (optional_cases b.user) [
    | inl (nul, f) ↦ inl (rw (clean, nul) refl, rw (e, f) refl)
    | inr (user, f) ↦ (elim (optional_cases b.confdir) [
      | inl (nul, g) ↦ inl (rw (clean, user, nul) refl, rw (e, f, g) refl)
      | inr (dir, g) ↦ inr (rw (clean, user, dir) refl, rw (e, f, g) refl)
    ])
  ])
]

module _ {H C P : Type 0} (lib : Libpam H) where
  -- What a build promises of the answer of `pam_start`. A transaction is on the started handle and
  -- the conversation, nothing has run on it and its status is a success. An error without an end
  -- means that no handle was started, and otherwise the started one was ended with `PAM_ABORT`.
  pub Built : Builder → C → Result (Error × Teardown H) (Transaction H C P) → Type 0
  unfolding names_nul
  Built b c (ok txn) =
      (names_nul b ≡ false)
      × ((lib.start b.service b.user b.confdir).0 ≡ pos 0)
      × Follows lib (lib.start b.service b.user b.confdir).1 txn.hdl
      × (txn.last ≡ pos 0)
      × (txn.slot ≡ Conv.new c)
      × (txn.calls ≡ [])
  Built b c (err (e, not_started)) =
      ((names_nul b ≡ true) × (e ≡ nul_byte))
      ⊎ ((names_nul b ≡ false) × ((lib.start b.service b.user b.confdir).0 ≢ pos 0))
  Built b c (err (e, pam_end hdl status)) =
      (names_nul b ≡ false)
      × ((lib.start b.service b.user b.confdir).0 ≡ pos 0)
      × Follows lib (lib.start b.service b.user b.confdir).1 hdl
      × (status ≡ pos 26)

  IsBegun : H → C → Transaction H C P → Type 0
  IsBegun begin c txn =
      (txn.last ≡ pos 26) × (txn.slot ≡ Conv.new c) × (txn.calls ≡ []) × Follows lib begin txn.hdl

  -- An operation that configures leaves the status, the slot and the calls, and keeps the handle.
  Configures : Exec Error (Transaction H C P) (Unit {0}) → Type 0
  Configures m =
      (begin : H) (c : C) (txn : Transaction H C P)
      → IsBegun begin c txn
      → IsBegun begin c (m txn).1

  continue-IsBegun :
      (r : Result Error (Unit {0})) (k : Exec Error (Transaction H C P) (Unit {0})) (begin : H)
      (c : C) (txn : Transaction H C P)
      → Configures k
      → IsBegun begin c txn
      → IsBegun begin c (continue {B = Unit {0}} r (λ u. k) txn).1
  unfolding Configures
  continue-IsBegun (ok u) k begin c txn g h = g begin c txn h
  continue-IsBegun (err e) k begin c txn g h = h

  then_Configures :
      (m k : Exec Error (Transaction H C P) (Unit {0}))
      → Configures m
      → Configures k
      → Configures (m >> k)
  unfolding Configures
  then_Configures m k f g begin c txn h =
      continue-IsBegun (m txn).0 k begin c (m txn).1 g (f begin c txn h)

  when-Configures :
      {A : Type 0} (o : Option A) (f : A → Exec Error (Transaction H C P) (Unit {0}))
      → ((a : A) → Configures (f a))
      → Configures (when lib o f)
  unfolding Configures
  when-Configures none f g begin c txn h = h
  when-Configures (some a) f g begin c txn h = g a begin c txn h

module _ {H : Type 0} (C P : Type 0) (lib : Libpam H) where
  set_item-Configures :
      (item : ℕ) (value : Result Error (List ℕ))
      → Configures {C = C} {P = P} lib (λ txn.
        continue {B = Unit {0}} value (λ v t. called lib (lib.set_item item v t.hdl) t) txn)
  unfolding Configures IsBegun
  set_item-Configures item (ok v) begin c txn h = (h.0, h.1, h.2, item_set item v h.3)
  set_item-Configures item (err e) begin c txn h = h

  set_item_str-Configures :
      (item : ℕ) (value : List ℕ) → Configures {C = C} {P = P} lib (set_item_str lib item value)
  unfolding set_item_str
  set_item_str-Configures item value = set_item-Configures item (cstring value)

  set_fail_delay-Configures :
      (nanos : ℕ) → Configures {C = C} {P = P} lib (set_fail_delay lib nanos)
  unfolding set_fail_delay Configures IsBegun
  set_fail_delay-Configures nanos begin c txn h = (h.0, h.1, h.2, delay_set _ h.3)

  configure-Configures : (b : Builder) → Configures {C = C} {P = P} lib (configure lib b)
  unfolding configure
  configure-Configures b =
      then_Configures lib _ _
        (then_Configures lib _ _
          (then_Configures lib _ _
            (when-Configures lib b.ruser _ (set_item_str-Configures pam_ruser))
            (when-Configures lib b.rhost _ (set_item_str-Configures pam_rhost)))
          (when-Configures lib b.tty _ (set_item_str-Configures pam_tty)))
        (when-Configures lib b.fail_delay _ set_fail_delay-Configures)

  configured-Built :
      (b : Builder) (c : C) (r : Result Error (Unit {0})) (txn : Transaction H C P)
      → names_nul b ≡ false
      → (lib.start b.service b.user b.confdir).0 ≡ pos 0
      → IsBegun lib (lib.start b.service b.user b.confdir).1 c txn
      → Built lib b c (configured lib (r, txn))
  unfolding Built IsBegun
  configured-Built b c (ok u) txn clean up h = (clean, up, h.3, refl, h.1, h.2)
  configured-Built b c (err e) txn clean up h = (clean, up, h.3, h.0)

  started-Built :
      (b : Builder) (c : C)
      → names_nul b ≡ false
      → (let r = lib.start b.service b.user b.confdir in
          Built {C = C} {P = P} lib b c (started lib b c (check r.0) r.1))
  unfolding Built Configures IsBegun
  started-Built b c clean =
      let handle = lib.start b.service b.user b.confdir in
      elim (check_cases handle.0) [
        | inl (code, fine) ↦
            (let r = configure lib b (begun lib c handle.1) in
              rw fine (
                configured-Built b c r.0 r.1 clean code (
                  configure-Configures b handle.1 c (begun lib c handle.1)
                    (refl, refl, refl, nothing_set))))
        | inr (e, code, bad) ↦ rw bad (inr (clean, code))
      ]

  -- A transaction that is built is on the handle that was started, after the settings on it; it has
  -- a success as its status, the given conversation and no call behind it. A build that fails leaves
  -- no handle: a string had a NUL or `pam_start` failed, so that none was started, or the one that
  -- was, after the settings on it, is ended once, with `PAM_ABORT`.
  pub build-Built : (b : Builder) (c : C) → Built {C = C} {P = P} lib b c (build lib b c)
  unfolding build Built
  build-Built b c = elim (strings_cases b) [
    | inl (nul, e) ↦ rw e (inl (nul, refl))
    | inr (clean, e) ↦ rw e (started-Built b c clean)
  ]
