-- ===== src/Chrony/Client.antt =====
-- The walk of the source list, truenas_chrony/src/client.rs. One exchange with the daemon is a
-- parameter: `source_count` and `source` act on the state of the daemon and the socket.
use truenas_ros_utils.Prelude.{
  ℕ, zero, suc, ◌+◌, Bool, true, false, Option, none, some, List, [], ◌∷◌, Result, ok, err, ◌==◌,
  if◌then◌else◌,
}
use truenas_ros_utils.Prelude.Exec.{Exec, pure, raise, ◌>>=◌}
use truenas_ros_utils.Chrony.Code.Status.{no_such_source}
use truenas_ros_utils.Chrony.Error.{Error, status, changed}
use truenas_ros_utils.Chrony.Source.{Source}
pub mod Sources

abbrev pub source_walks : ℕ
source_walks = 3

-- `Err(Error::Status(Status::NoSuchSource))`
abbrev pub is_missing : Error → Bool
is_missing (status no_such_source) = true
is_missing _ = false

module _ {S : Type 0} (source_count : Exec Error S ℕ) (source : ℕ → Exec Error S Source) where
  abbrev pub with_source : Source → Option (List Source) → Option (List Source)
  with_source a none = none
  with_source a (some sources) = some (a ∷ sources)

  -- One index of the walk: `none` is `whole = false`.
  abbrev pub walked :
      Result Error Source
      → Exec Error S (Option (List Source))
      → Exec Error S (Option (List Source))
  walked (ok a) rest s = (rest >>= λ sources. pure (with_source a sources)) s
  walked (err e) rest s = if is_missing e then (ok none, s) else (err e, s)

  -- `for index in 0..count`, from `index` on.
  unfoldable pub walk : ℕ → ℕ → Exec Error S (Option (List Source))
  walk index zero s = (ok (some []), s)
  walk index (suc left) s = let r = source index s in walked r.0 (walk (index + 1) left) r.1

  -- `if whole && self.source_count()? == count`
  abbrev pub settled :
      ℕ → Exec Error S (List Source) → Option (List Source) → Exec Error S (List Source)
  settled count again none = again
  settled count again (some sources) =
      source_count >>= λ now. if now == count then pure sources else again

  unfoldable pub walks : ℕ → Exec Error S (List Source)
  unfolding walk
  walks zero = raise changed
  walks (suc n) =
      source_count >>= λ count. (walk 0 count >>= λ found. settled count (walks n) found)

  unfoldable pub sources : Exec Error S (List Source)
  unfolding walks
  sources = walks source_walks
