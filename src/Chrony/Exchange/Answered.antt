-- ===== src/Chrony/Exchange/Answered.antt =====
-- What a value that an exchange returns was decoded from.
use Prim.Native.String.{String}
use truenas_ros_utils.Prelude.{ℕ, ◌≤◌, ◌<◌, ◌≡◌, refl, ◌⊎◌, inl, inr, List, Result, ok, err}
use truenas_ros_utils.Prelude.Exec.{Exec, continue}
use truenas_ros_utils.Chrony.Request.{Request, answer, decode, with_attempt}
use truenas_ros_utils.Chrony.Exchange.{System, Stop, returned, recv_buf, attempt_number}

-- What stops a composition stopped one of its two parts.
pub continue_err :
    {E S A B : Type 0} (r : Result E A) (f : A → Exec E S B) (s s' : S) (e : E)
    → continue r f s ≡ (err e, s')
    → ((r ≡ err e) × (s ≡ s')) ⊎ ((a : A) × (r ≡ ok a) × (f a s ≡ (err e, s')))
continue_err (ok a) f s s' e h = inr (a, refl, h)
continue_err (err x) f s s' e h = inl (cc, cc)

module _ {W T : Type 0} (system : System W) (a : T) (after : W) where
  -- `a` was decoded from the datagram whose receipt led to `after`.
  unfoldable pub Heard : Request T → Type 0
  Heard request =
      (before : W) × (datagram : List ℕ) × (system.recv recv_buf before ≡ (ok datagram, after))
      × (decode request datagram ≡ answer (ok a))

  abbrev Stopped : Result (Stop T) (Unit {0}) × W → Type 0
  Stopped r = r ≡ (err (returned (ok a)), after)

  -- `a` answers an attempt numbered from `lo` to below `hi`, under a sequence number that was drawn
  -- for it.
  unfoldable pub AnsweredIn : (ℕ → Request T) → ℕ → ℕ → Type 0
  AnsweredIn make lo hi =
      (n : ℕ) × (start : W) × (drawn : W) × (sequence : List ℕ) × (lo ≤ n)
      × (n < hi)
      × (system.read_exact 4 start ≡ (ok sequence, drawn))
      × Heard (with_attempt (make (system.from_ne_bytes sequence)) (attempt_number n))
