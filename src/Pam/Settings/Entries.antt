-- ===== src/Pam/Settings/Entries.antt =====
-- An entry of the environment is read as it was set.
use truenas_ros_utils.Prelude.{
  ℕ, ◌≡◌, refl, Bool, true, false, ◌||◌, List, [], ◌∷◌, ◌++◌, any, Result, ok, err, if◌then◌else◌,
  or_false,
}
use truenas_ros_utils.Xdr.Utf8.{is_utf8}
use truenas_ros_utils.Pam.Error.{Error, invalid_name}
use truenas_ros_utils.Pam.Settings.{check_env_name, cut, split_env, is_equals}

cut_at :
    (name value : List ℕ)
    → any is_equals name ≡ false
    → cut (name ++ (0x3d ∷ value)) ≡ (name, value)
cut_at [] value h = refl
cut_at (b ∷ name) value h =
    let n = or_false (is_equals b) (any is_equals name) h in rw (n.0, cut_at name value n.1) refl

accepted_name :
    (empty equals : Bool)
    → (let r : Result Error (Unit {0}) = if empty || equals then err invalid_name else ok tt in
        r ≡ ok tt)
    → equals ≡ false
accepted_name true equals h = absurd cc
accepted_name false true h = absurd cc
accepted_name false false h = refl

-- A name that `putenv` accepts: the entry `name=value`, where the two are UTF-8, is split into the
-- name and the value, whatever `=` the value holds.
pub split_env-putenv :
    (name value : List ℕ)
    → check_env_name name ≡ ok tt
    → is_utf8 name ≡ true
    → is_utf8 value ≡ true
    → split_env (name ++ (0x3d ∷ value)) ≡ ok (name, value)
unfolding split_env check_env_name
split_env-putenv name value h n v =
    rw (cut_at name value (accepted_name _ (any is_equals name) h), n, v) refl
