-- ===== src/Pam/Order/Invariant.antt =====
-- The stage of a login and the calls that were made on its handle.
use truenas_ros_utils.Prelude.{
  ℕ, true, false, ◌≡◌, refl, subst, Option, some, none, Result, ok, err, if◌then◌else◌,
}
use truenas_ros_utils.Prelude.Exec.{continue}
use truenas_ros_utils.Pam.Error.{Error, timeout}
use truenas_ros_utils.Pam.Conv.{Failure, failed, panicked, Answers}
use truenas_ros_utils.Pam.Transaction.{Transaction, Flags}
use truenas_ros_utils.Pam.Worker.{Installed, Machine}
use truenas_ros_utils.Pam.Stepped
use truenas_ros_utils.Pam.Stepped.{
  Stepped, wait, Step, prompt, finished, finish, reap, begin_recover,
}
use truenas_ros_utils.Pam.Authenticator.{
  Authenticator, Held, transaction_held, exchange, nothing, Stage, authenticating, authenticated,
  refusal, launched, begin_held, may_begin, out_of_turn, begin, respond, settle, settled, advance,
  step,
}
use truenas_ros_utils.Pam.Order.{InOrder, none_left, required}
use truenas_ros_utils.Pam.Order.Exchange.{Accepted}
use truenas_ros_utils.Pam.Order.Verdict.{
  IsExchange, Verdict, wait-Verdict, respond-Verdict, IsLaunched, begin_recover-IsLaunched,
}

-- Only a login that authenticates, or whose round ran out of time, is on its exchange.
abbrev pub FitsExchange : {H C P : Type 0} → Stage → Stepped H C P → Type 0
FitsExchange authenticating s = IsExchange s
FitsExchange refusal s = Unit {0}
FitsExchange _ s = ⊥

abbrev pub Fits : {H C P : Type 0} → Stage → Held H C P → Type 0
Fits stage (transaction_held txn) = InOrder (required stage) txn.calls
Fits stage (exchange s) = FitsExchange stage s
Fits stage nothing = Unit {0}

module _ {H C P : Type 0} where
  unfoldable pub InSequence : Authenticator H C P → Type 0
  InSequence a = Fits a.stage a.held

  -- An authenticator, by its fields.
  abbrev pub at : Stage → Held H C P → Flags → Option ℕ → Authenticator H C P
  at stage held flags limit = record { held = held; stage = stage; flags = flags; limit = limit }

module _ {H C P : Type 0} (machine : Machine H C P) where
  -- `settle`, then an answer that is ready.
  settled-InSequence :
      (s : Stepped H C P) (stage : Stage)
      (outcome : Result (Failure P) (Transaction H (Installed C) P)) (flags : Flags)
      (limit : Option ℕ) (r : Result (Failure P) Step)
      → ((txn : Transaction H (Installed C) P)
          → outcome ≡ ok txn
          → InOrder (required stage) txn.calls)
      → (let done = settled machine stage outcome (at authenticating (exchange s) flags limit) in
          InSequence (continue {B = Step} done.0 (λ u t. (r, t)) done.1).1)
  unfolding InSequence
  settled-InSequence s stage (ok txn) flags limit r h = h txn refl
  settled-InSequence s stage (err (failed e)) flags limit r h = tt
  settled-InSequence s stage (err (panicked payload)) flags limit r h = tt

  finish_over :
      (s : Stepped H C P) (txn : Transaction H (Installed C) P)
      → s.worker ≡ none
      → s.handed_back ≡ some txn
      → finish machine s ≡ ok txn
  unfolding finish reap
  finish_over s txn h k = rw (h, k) refl

  refused-InSequence :
      (s : Stepped H C P) (flags : Flags) (limit : Option ℕ) (r : Result (Failure P) Step)
      → (let done =
            settled machine refusal
              (finish machine s)
              (at authenticating (exchange s) flags limit) in
          InSequence (continue {B = Step} done.0 (λ u t. (r, t)) done.1).1)
  unfolding required
  refused-InSequence s flags limit r =
      settled-InSequence s refusal (finish machine s) flags limit r (λ txn h. none_left)

  finished-Accepted :
      (s : Stepped H C P)
      → Verdict (ok finished) s
      → (txn : Transaction H (Installed C) P) → finish machine s ≡ ok txn
      → Accepted txn.calls
  finished-Accepted s v txn h =
      let e : v.1.0 ≡ txn = cc (finish_over s v.1.0 v.0 v.1.1) in
      subst (λ t. Accepted t.calls) e v.1.2

  advance-InSequence :
      (answer : Result (Failure P) Step) (s : Stepped H C P) (flags : Flags) (limit : Option ℕ)
      → Verdict answer s
      → InSequence (advance machine answer (at authenticating (exchange s) flags limit)).1
  unfolding advance settle InSequence required
  advance-InSequence (ok (prompt messages)) s flags limit v = v
  advance-InSequence (ok finished) s flags limit v =
      settled-InSequence s authenticated (finish machine s) flags limit (ok finished)
        (λ txn h. finished-Accepted s v txn h)
  advance-InSequence (err (failed timeout)) s flags limit v = tt
  advance-InSequence (err (failed e)) s flags limit v =
      refused-InSequence s flags limit (err (failed e))
  advance-InSequence (err (panicked payload)) s flags limit v = v

  step_held-InSequence :
      (responses : Option Answers) (s : Stepped H C P) (flags : Flags) (limit : Option ℕ)
      → IsExchange s
      → InSequence (step machine responses (at authenticating (exchange s) flags limit)).1
  unfolding step InSequence
  step_held-InSequence none s flags limit v =
      advance-InSequence (wait machine limit s).0 (wait machine limit s).1 flags limit
        (wait-Verdict machine limit s v)
  step_held-InSequence (some responses) s flags limit v =
      advance-InSequence (Stepped.respond machine responses limit s).0
        (Stepped.respond machine responses limit s).1 flags limit
        (respond-Verdict machine responses limit s v)

  launched-InSequence :
      (l : Result (Transaction H (Installed C) P × Error) (Stepped H C P)) (a : Authenticator H C P)
      → IsLaunched machine l
      → InSequence (launched machine l a).1
  unfolding IsLaunched InSequence required
  launched-InSequence (ok s) a v = step_held-InSequence none s a.flags a.limit v
  launched-InSequence (err (txn, e)) a v = none_left

  begin_held-InSequence :
      (held : Held H C P) (a : Authenticator H C P)
      → InSequence a
      → InSequence (begin_held machine held a).1
  begin_held-InSequence (transaction_held txn) a v =
      launched-InSequence (begin_recover machine a.flags txn) a
        (begin_recover-IsLaunched machine a.flags txn)
  begin_held-InSequence (exchange s) a v = v
  begin_held-InSequence nothing a v = v

  pub begin-InSequence : (a : Authenticator H C P) → InSequence a → InSequence (begin machine a).1
  unfolding begin
  begin-InSequence a v =
      elim (may_begin a.stage)
        as (λ t. InSequence (if t then begin_held machine a.held a else out_of_turn a).1) [
          | true ↦ begin_held-InSequence a.held a v
          | false ↦ v
        ]

  pub respond_fields-InSequence :
      (responses : Answers) (stage : Stage) (held : Held H C P) (flags : Flags) (limit : Option ℕ)
      → InSequence (at stage held flags limit)
      → InSequence (respond machine responses (at stage held flags limit)).1
  unfolding respond step InSequence
  respond_fields-InSequence responses authenticating (exchange s) flags limit v =
      step_held-InSequence (some responses) s flags limit v
  respond_fields-InSequence responses stage held flags limit v = v
