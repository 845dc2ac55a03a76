-- ===== src/Chrony/Exchange/Ends.antt =====
-- Fuel that is enough for an exchange, when the clock goes on at every receipt.
use Prim.Native.String.{String}
use truenas_ros_utils.Prelude.{
  ℕ, zero, suc, ◌+◌, ◌-◌, ◌≤◌, ◌<◌, ◌≡◌, refl, subst, arith, inl, inr, Bool, true, false,
  Bool-cases, Option, some, List, Result, ok, err, leb,
}
use truenas_ros_utils.Prelude.Exec.{Exec, ◌>>=◌}
use truenas_ros_utils.Chrony.Error.{Error}
use truenas_ros_utils.Chrony.Request.{Request, Verdict, unrelated, answer, decode, with_attempt}
use truenas_ros_utils.Chrony.Exchange.{
  System, Stop, returned, exhausted, ErrorKind, would_block, timed_out, interrupted, other, Client,
  Remaining, expired, left_over, recv_buf, call, failed, weigh, received, receive, turn,
  unless_zero, checked_duration_since, remaining, listen, send_failed, sent, transmit, dispatch,
  attempt_number, attempt_once, attempts_from, exchange, saturating_mul, concluded,
}

-- Each of the waits of the attempts, the first `wait` and every other twice the last, is at most
-- `longest`.
unfoldable pub IsWithin : ℕ → ℕ → ℕ → Type 0
IsWithin longest zero wait = Unit {0}
IsWithin longest (suc left) wait = (wait ≤ longest) × IsWithin longest left (saturating_mul wait 2)

is_left : (n : ℕ) (left : Option ℕ) → unless_zero (some n) ≡ left_over left → 0 < n
is_left zero left h = cc
is_left (suc n) left h = omega arith

before_deadline :
    (deadline t : ℕ) (left : Option ℕ)
    → unless_zero (checked_duration_since deadline t) ≡ left_over left
    → t < deadline
before_deadline deadline t left h = elim (Bool-cases (leb t deadline)) [
  | inl sooner ↦
      (let positive = is_left (deadline - t) left (rw sooner at h) in omega (arith, positive))
  | inr later ↦ (let gone = rw later at h in cc)
]

abbrev is_end : {T : Type 0} → Result (Stop T) (Unit {0}) → Bool
is_end (err exhausted) = false
is_end _ = true

module _ {W T : Type 0} (system : System W) where
  returning_ends :
      {A : Type 0} (m : Exec String W A) (f : A → Exec (Stop T) W (Unit {0})) (w v : W)
      (r : Result String A)
      → m w ≡ (r, v)
      → ((x : A) (u : W) → m w ≡ (ok x, u) → is_end (f x u).0 ≡ true)
      → is_end ((call {T = T} system (λ _. (r, v)) >>= f) w).0 ≡ true
  returning_ends m f w v (ok x) e g = g x v e
  returning_ends m f w v (err x) e g = refl

  call_ends :
      {A : Type 0} (m : Exec String W A) (f : A → Exec (Stop T) W (Unit {0})) (w : W)
      → ((x : A) (u : W) → m w ≡ (ok x, u) → is_end (f x u).0 ≡ true)
      → is_end ((call system m >>= f) w).0 ≡ true
  call_ends m f w g = returning_ends m f w (m w).1 (m w).0 refl g

  failed_ends :
      (again : Exec (Stop T) W (Unit {0})) (w : W) (k : ErrorKind) (e : String)
      → is_end (again w).0 ≡ true
      → is_end (failed system k e again w).0 ≡ true
  failed_ends again w interrupted e g = g
  failed_ends again w would_block e g = refl
  failed_ends again w timed_out e g = refl
  failed_ends again w other e g = refl

  weigh_ends :
      (again : Exec (Stop T) W (Unit {0})) (w : W) (v : Verdict T)
      → is_end (again w).0 ≡ true
      → is_end (weigh system v again w).0 ≡ true
  weigh_ends again w unrelated g = g
  weigh_ends again w (answer x) g = refl

  received_ends :
      (request : Request T) (again : Exec (Stop T) W (Unit {0})) (w : W)
      (got : Result String (List ℕ))
      → is_end (again w).0 ≡ true
      → is_end (received system request again got w).0 ≡ true
  received_ends request again w (ok datagram) g = weigh_ends again w (decode request datagram) g
  received_ends request again w (err e) g = failed_ends again w (system.kind e) e g

  send_failed_ends :
      (request : Request T) (w : W) (k : ErrorKind) (e : String)
      → is_end (send_failed {T = T} system k e w).0 ≡ true
  send_failed_ends request w would_block e = refl
  send_failed_ends request w timed_out e = refl
  send_failed_ends request w interrupted e = refl
  send_failed_ends request w other e = refl

  then_ends :
      (r : Result (Stop T) (Unit {0})) (f : Unit {0} → Exec (Stop T) W (Unit {0})) (w : W)
      → is_end r ≡ true
      → ((v : W) → is_end (f tt v).0 ≡ true)
      → is_end (((λ _. (r, w)) >>= f) w).0 ≡ true
  then_ends (ok u) f w e g = g w
  then_ends (err (returned x)) f w e g = refl
  then_ends (err exhausted) f w e g = cc

  concluded_ends :
      (r : Result (Stop T) (Unit {0}))
      → is_end r ≡ true
      → (x : Result Error T) × (concluded system r ≡ some x)
  concluded_ends (ok u) e = (_, refl)
  concluded_ends (err (returned x)) e = (x, refl)
  concluded_ends (err exhausted) e = cc

module _ {W T : Type 0} (system : System W) (time : W → ℕ) (longest : ℕ)
    (now_reads : (w : W) → (system.now w).0 ≡ time (system.now w).1)
    (now_keeps : (w : W) → time w ≤ time (system.now w).1)
    (read_keeps : (left : Option ℕ) (w : W) → time w ≤ time (system.set_read_timeout left w).1)
    (write_keeps : (left : Option ℕ) (w : W) → time w ≤ time (system.set_write_timeout left w).1)
    (send_keeps : (bytes : List ℕ) (w : W) → time w ≤ time (system.send bytes w).1)
    (recv_takes : (room : ℕ) (w : W) → time w < time (system.recv room w).1)
    (adds : (t wait : ℕ) → wait ≤ longest → system.checked_add t wait ≡ some (t + wait)) where
  turn_ends :
      (request : Request T) (again : Exec (Stop T) W (Unit {0})) (r : Remaining) (w : W)
      → ((left : Option ℕ) (w' : W)
          → r ≡ left_over left
          → time w < time w'
          → is_end (again w').0 ≡ true)
      → is_end (turn system request again r w).0 ≡ true
  turn_ends request again expired w g = refl
  turn_ends request again (left_over left) w g =
      call_ends system (system.set_read_timeout left) (λ _. receive system request again) w
        (λ u v set.
          let kept = subst (λ r. time w ≤ time r.1) set (read_keeps left w) in
          received_ends system request again (system.recv recv_buf v).1 (system.recv recv_buf v).0
            (g left (system.recv recv_buf v).1 refl (omega (arith, kept, recv_takes recv_buf v))))

  -- A turn of the loop for each unit of the time left, and one that sees that none is.
  listen_ends :
      (fuel : ℕ) (request : Request T) (deadline : ℕ) (w : W)
      → deadline - time w < fuel
      → is_end (listen system fuel request (some deadline) w).0 ≡ true
  unfolding listen
  listen_ends zero request deadline w lt = absurd (omega (arith, lt))
  listen_ends (suc fuel) request deadline w lt =
      turn_ends request (listen system fuel request (some deadline))
        (remaining system (some deadline) w).0 (system.now w).1
        (λ left w' e later.
          let soon = before_deadline deadline (system.now w).0 left e in
          let read = now_reads w in
          listen_ends fuel request deadline w' (omega (arith, lt, soon, read, later, now_keeps w)))

  sent_ends :
      (fuel : ℕ) (request : Request T) (deadline : ℕ) (r : Result String ℕ) (w : W)
      → deadline - time w < fuel
      → is_end (sent system fuel request (some deadline) r w).0 ≡ true
  sent_ends fuel request deadline (ok n) w lt = listen_ends fuel request deadline w lt
  sent_ends fuel request deadline (err e) w lt = send_failed_ends system request w (system.kind e) e

  dispatch_ends :
      (fuel : ℕ) (request : Request T) (wait : ℕ) (w : W)
      → wait ≤ longest
      → longest < fuel
      → is_end (dispatch system fuel request wait w).0 ≡ true
  dispatch_ends fuel request wait w le lt =
      let t = system.now w in
      call_ends system (system.set_write_timeout (some wait))
        (λ _. transmit system fuel request (system.checked_add t.0 wait)) t.1
        (λ u v set.
          let kept = subst (λ r. time t.1 ≤ time r.1) set (write_keeps (some wait) t.1) in
          let sending = system.send request.bytes v in
          rw (adds t.0 wait le) (
            sent_ends fuel request (t.0 + wait) sending.0 sending.1
              (omega (arith, kept, now_reads w, send_keeps request.bytes v, le, lt))))

  attempt_once_ends :
      (fuel : ℕ) (make : ℕ → Request T) (attempt wait : ℕ) (w : W)
      → wait ≤ longest
      → longest < fuel
      → is_end (attempt_once system fuel make attempt wait w).0 ≡ true
  unfolding attempt_once
  attempt_once_ends fuel make attempt wait w le lt =
      call_ends system (system.read_exact 4) _ w (λ sequence u read.
        dispatch_ends fuel
          (with_attempt (make (system.from_ne_bytes sequence)) (attempt_number attempt)) wait u le
          lt)

  attempts_end :
      (fuel : ℕ) (make : ℕ → Request T) (left attempt wait : ℕ) (w : W)
      → IsWithin longest left wait
      → longest < fuel
      → is_end (attempts_from system fuel make left attempt wait w).0 ≡ true
  unfolding attempts_from IsWithin
  attempts_end fuel make zero attempt wait w within lt = refl
  attempts_end fuel make (suc left) attempt wait w within lt =
      let once = attempt_once system fuel make attempt wait w in
      then_ends system once.0
        (λ _. attempts_from system fuel make left (attempt + 1) (saturating_mul wait 2)) once.1
        (attempt_once_ends fuel make attempt wait w within.0 lt)
        (λ v. attempts_end fuel make left (attempt + 1) (saturating_mul wait 2) v within.1 lt)

  -- An exchange returns, whatever the daemon sends and however long the socket is kept busy, if the
  -- clock goes on at every receipt, the deadlines can be told and none of its waits is longer than
  -- the fuel.
  pub exchange_ends :
      (fuel : ℕ) (c : Client) (make : ℕ → Request T) (w : W)
      → IsWithin longest c.attempts c.timeout
      → longest < fuel
      → (r : Result Error T) × ((exchange system fuel c make w).0 ≡ some r)
  unfolding exchange
  exchange_ends fuel c make w within lt =
      concluded_ends system (attempts_from system fuel make c.attempts 0 c.timeout w).0
        (attempts_end fuel make c.attempts 0 c.timeout w within lt)
