-- ===== src/Pam/Order/Verdict.antt =====
-- What the answers of an exchange that authenticates say of its state.
use truenas_ros_utils.Prelude.{ℕ, Bool, true, false, ◌≡◌, refl, Option, some, none, Result, ok, err}
use truenas_ros_utils.Prelude.Exec.{continue}
use truenas_ros_utils.Xdr.Signed.{ℤ}
use truenas_ros_utils.Pam.Error.{Error}
use truenas_ros_utils.Pam.Conv.{Failure, failed, panicked, Answers, deliver, marshal}
use truenas_ros_utils.Pam.Libpam.{pam_authenticate}
use truenas_ros_utils.Pam.Transaction.{Transaction, Flags, set_conversation}
use truenas_ros_utils.Pam.Worker.{
  Installed, channel, Machine, authenticate_op, Worker, parked, returned, torn, resume, cancel,
  launch, entry_of,
}
use truenas_ros_utils.Pam.Stepped.{
  Stepped, Step, finished, Phase, started, prompting, ended, stopped, join, keep, reap,
  end_with_reap, collect, wait, send, after_send, respond, Received, round, finish_event,
  disconnected, timed_out, on_event, receive, begin_recover, run_op, spawned, is_started,
  is_prompting,
}
use truenas_ros_utils.Pam.Order.Exchange.{Accepted, IsLogin, hand_over-Accepted, drive-IsLogin}

module _ {H C P : Type 0} where
  -- An exchange without a worker is neither to be waited for nor to be answered.
  abbrev pub IsDriven : Option (Worker H C P) → Phase → Type 0
  IsDriven (some w) phase = IsLogin w
  IsDriven none phase = (is_started phase ≡ false) × (is_prompting phase ≡ false)

  abbrev pub IsExchange : Stepped H C P → Type 0
  IsExchange s = IsDriven s.worker s.phase

  abbrev pub Verdict : Result (Failure P) Step → Stepped H C P → Type 0
  Verdict (ok finished) s =
      (s.worker ≡ none)
      × ((txn : Transaction H (Installed C) P) × (s.handed_back ≡ some txn) × Accepted txn.calls)
  Verdict _ s = IsExchange s

abbrev Joined : Type 0 → Type 0 → Type 0 → Type 0
Joined H C P = Result P (Result (Failure P) (Unit {0}) × Transaction H (Installed C) P)

module _ {H C P : Type 0} where
  IsJoined : Joined H C P → Type 0
  IsJoined (ok (outcome, txn)) = outcome ≡ ok tt → Accepted txn.calls
  IsJoined (err payload) = Unit {0}

  -- An exchange whose worker was joined.
  abbrev over : Option (Transaction H (Installed C) P) → Stepped H C P
  over back = record {
    worker = none;
    answers = false;
    events = false;
    phase = ended;
    handed_back = back;
  }

module _ {H C P : Type 0} (machine : Machine H C P) where
  join-IsJoined : (w : Worker H C P) → IsLogin w → IsJoined (join machine w)
  unfolding IsLogin IsJoined join cancel
  join-IsJoined (parked running slot count messages m rest) l = hand_over-Accepted running _ l
  join-IsJoined (returned txn outcome) l = l
  join-IsJoined (torn payload) l = tt

  -- What `reap` makes of the joined worker, as the end of the exchange.
  abbrev closing :
      Joined H C P
      → Option (Transaction H (Installed C) P)
      → Result (Failure P) Step × Stepped H C P
  closing j back =
      let r = keep machine j (over back) in
      continue {A = Unit {0}} {B = Step} r.0 (λ u s. (ok finished, s)) r.1

  closing-Verdict :
      (j : Joined H C P) (back : Option (Transaction H (Installed C) P))
      → IsJoined j
      → Verdict (closing j back).0 (closing j back).1
  unfolding IsJoined
  closing-Verdict (ok (ok u, txn)) back l = (refl, (txn, refl, l refl))
  closing-Verdict (ok (err (failed e), txn)) back l = (refl, refl)
  closing-Verdict (ok (err (panicked p), txn)) back l = (refl, refl)
  closing-Verdict (err payload) back l = (refl, refl)

  -- An exchange whose worker is there.
  abbrev with_worker : Worker H C P → Stepped H C P → Stepped H C P
  with_worker w s = record s { worker = some w }

  end_with_reap-Verdict :
      (w : Worker H C P) (s : Stepped H C P)
      → IsLogin w
      → Verdict
          (end_with_reap machine (with_worker w s)).0
          (end_with_reap machine (with_worker w s)).1
  unfolding end_with_reap reap
  end_with_reap-Verdict w s l = closing-Verdict (join machine w) s.handed_back (join-IsJoined w l)

  on_event-Verdict :
      (r : Received) (w : Worker H C P) (s : Stepped H C P)
      → IsLogin w
      → Verdict (on_event machine r (with_worker w s)).0 (on_event machine r (with_worker w s)).1
  on_event-Verdict (round messages) w s l = l
  on_event-Verdict finish_event w s l = end_with_reap-Verdict w s l
  on_event-Verdict disconnected w s l = end_with_reap-Verdict w s l
  on_event-Verdict timed_out w s l = l

  -- An exchange, by its fields.
  abbrev state :
      Option (Worker H C P)
      → Bool
      → Bool
      → Phase
      → Option (Transaction H (Installed C) P)
      → Stepped H C P
  state w answers events phase back = record {
    worker = w;
    answers = answers;
    events = events;
    phase = phase;
    handed_back = back;
  }

  collect-Verdict :
      (limit : Option ℕ) (w : Worker H C P) (a e : Bool) (p : Phase)
      (back : Option (Transaction H (Installed C) P))
      → IsLogin w
      → Verdict
          (collect machine limit (state (some w) a e p back)).0
          (collect machine limit (state (some w) a e p back)).1
  unfolding collect
  collect-Verdict limit w a true p back l =
      on_event-Verdict (receive machine limit (some w)) w (state none a true p back) l
  collect-Verdict limit w a false p back l = l

  wait_fields-Verdict :
      (limit : Option ℕ) (w : Option (Worker H C P)) (a e : Bool) (p : Phase)
      (back : Option (Transaction H (Installed C) P))
      → IsDriven w p
      → Verdict
          (wait machine limit (state w a e p back)).0
          (wait machine limit (state w a e p back)).1
  unfolding wait
  wait_fields-Verdict limit (some w) a e started back l = collect-Verdict limit w a e started back l
  wait_fields-Verdict limit none a e started back l = absurd cc
  wait_fields-Verdict limit w a e prompting back l = l
  wait_fields-Verdict limit w a e ended back l = l
  wait_fields-Verdict limit w a e stopped back l = l

  pub wait-Verdict :
      (limit : Option ℕ) (s : Stepped H C P)
      → IsExchange s
      → Verdict (wait machine limit s).0 (wait machine limit s).1
  wait-Verdict limit s l =
      wait_fields-Verdict limit s.worker s.answers s.events s.phase s.handed_back l

  IsSent : Option (Worker H C P) → Type 0
  IsSent none = Unit {0}
  IsSent (some w) = IsLogin w

  send-IsSent :
      (answers : Bool) (w : Worker H C P) (responses : Answers)
      → IsLogin w
      → IsSent (send machine answers (some w) responses)
  unfolding send resume IsLogin IsSent
  send-IsSent true (parked running slot count messages m rest) responses l =
      let built = marshal machine.grants count (ok responses) m in
      let back = deliver built.0 built.1 slot in drive-IsLogin running (rest back.0) back.1 l
  send-IsSent true (returned txn outcome) responses l = tt
  send-IsSent true (torn payload) responses l = tt
  send-IsSent false w responses l = tt

  after_send-Verdict :
      (limit : Option ℕ) (sent : Option (Worker H C P)) (w : Worker H C P) (a e : Bool)
      (back : Option (Transaction H (Installed C) P))
      → IsSent sent
      → IsLogin w
      → Verdict
          (after_send machine limit sent (state (some w) a e prompting back)).0
          (after_send machine limit sent (state (some w) a e prompting back)).1
  unfolding IsSent
  after_send-Verdict limit none w a e back k l =
      end_with_reap-Verdict w (state none a e prompting back) l
  after_send-Verdict limit (some next) w a e back k l =
      collect-Verdict limit next a e started back k

  respond_fields-Verdict :
      (responses : Answers) (limit : Option ℕ) (w : Option (Worker H C P)) (a e : Bool) (p : Phase)
      (back : Option (Transaction H (Installed C) P))
      → IsDriven w p
      → Verdict
          (respond machine responses limit (state w a e p back)).0
          (respond machine responses limit (state w a e p back)).1
  unfolding respond
  respond_fields-Verdict responses limit (some w) a e prompting back l =
      after_send-Verdict limit _ w a e back (send-IsSent a w responses l) l
  respond_fields-Verdict responses limit none a e prompting back l = absurd cc
  respond_fields-Verdict responses limit w a e started back l = l
  respond_fields-Verdict responses limit w a e ended back l = l
  respond_fields-Verdict responses limit w a e stopped back l = l

  pub respond-Verdict :
      (responses : Answers) (limit : Option ℕ) (s : Stepped H C P)
      → IsExchange s
      → Verdict (respond machine responses limit s).0 (respond machine responses limit s).1
  respond-Verdict responses limit s l =
      respond_fields-Verdict responses limit s.worker s.answers s.events s.phase s.handed_back l

  unfoldable pub IsLaunched :
      Result (Transaction H (Installed C) P × Error) (Stepped H C P) → Type 0
  IsLaunched (ok s) = IsExchange s
  IsLaunched (err back) = Unit {0}

  spawned-IsLaunched :
      (e : Option (Option ℤ)) (flags : Flags) (txn : Transaction H (Installed C) P)
      → IsLaunched (spawned machine e authenticate_op flags txn)
  unfolding IsLaunched launch entry_of
  spawned-IsLaunched none flags txn =
      let swapped = set_conversation channel txn in
      drive-IsLogin
        (record {
          entry = pam_authenticate;
          argument = flags.bits;
          txn = swapped.1;
          restore = swapped.0;
        })
        (machine.lib.stack pam_authenticate flags.bits swapped.1.hdl) swapped.1.slot refl
  spawned-IsLaunched (some e) flags txn = tt

  -- An exchange that begins, if its thread is created.
  pub begin_recover-IsLaunched :
      (flags : Flags) (txn : Transaction H (Installed C) P)
      → IsLaunched (begin_recover machine flags txn)
  unfolding begin_recover run_op
  begin_recover-IsLaunched flags txn = spawned-IsLaunched (machine.spawn_error txn) flags txn
