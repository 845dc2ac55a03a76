-- ===== src/Tests/Nss.antt =====
-- truenas_nss: three modules of which one is down, and a module that asks for a larger buffer.
use truenas_ros_utils.Prelude.{
  ℕ, ◌≤◌, ◌≡◌, refl, arith, false, ◌||◌, ◌⊎◌, some, List, [], ◌∷◌, ok, err, leb, ◌==◌,
  if◌then◌else◌,
}
use truenas_ros_utils.Prelude.Exec.{Exec}
use truenas_ros_utils.Xdr.Signed.{ℤ, pos, negsuc}
use truenas_ros_utils.Nss.Error.{Error, call, is_unavail}
use truenas_ros_utils.Nss.Service.{
  Source, files, sss, winbind, asks_more, max_buflen, grow_and_call, fan_out_groups, contains,
}
use truenas_ros_utils.Nss.Groups.{Passes, granted, answer_of, IsDistinct, fan_out_groups-union}
use truenas_ros_utils.Nss.Settled.{Reaches, grow_and_call-settled}

-- SSSD is down; the other two know the user, each with a group of its own.
abbrev groups : Source → Exec Error Unit (List ℕ)
groups files s = (ok (100 ∷ 7 ∷ []), s)
groups sss s = (err (call "SSS" "initgroups_dyn" (negsuc 0) (pos 0)), s)
groups winbind s = (ok (100 ∷ 9 ∷ 7 ∷ []), s)

groups_union : fan_out_groups groups 100 tt ≡ (ok (100 ∷ 7 ∷ 9 ∷ []), tt)
unfolding fan_out_groups is_unavail
groups_union = refl

groups-Passes : (source : Source) → Passes (answer_of groups source tt).0
unfolding Passes answer_of is_unavail
groups-Passes files = tt
groups-Passes sss = refl
groups-Passes winbind = tt

fan_out_groups-union_example :
    (out : List ℕ) × (fan_out_groups groups 100 tt ≡ (ok out, (answer_of groups winbind tt).1))
    × ((rest : List ℕ) × (out ≡ 100 ∷ rest))
    × IsDistinct out
    × ((x : ℕ)
        → contains out x ≡ (
            100 == x
            || (contains (granted (answer_of groups files tt).0) x
                || (contains (granted (answer_of groups sss tt).0) x
                    || contains (granted (answer_of groups winbind tt).0) x))))
fan_out_groups-union_example = fan_out_groups-union groups 100 tt groups-Passes

-- A module whose entry takes 3000 bytes.
abbrev wide : ℕ → Unit {0} → (ℤ × ℤ) × Unit {0}
wide len s = if leb 3000 len then ((pos 1, pos 0), s) else ((negsuc 1, pos 34), s)

grown_twice : grow_and_call wide 4 1024 tt ≡ (some ((pos 1, pos 0), 4096), tt)
unfolding grow_and_call
grown_twice = refl

from_initial : Reaches 14 1024
unfolding Reaches
from_initial = omega arith

grow_and_call-settled_example :
    (answer : ℤ × ℤ) × (last : ℕ) × (before : Unit {0}) × (after : Unit {0}) × (grow_and_call wide
        15 1024 tt
      ≡ (some (answer, last), after))
    × (wide last before ≡ (answer, after))
    × ((asks_more answer.0 answer.1 ≡ false) ⊎ (max_buflen ≤ last))
grow_and_call-settled_example = grow_and_call-settled wide 14 1024 tt from_initial
