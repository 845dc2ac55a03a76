-- ===== src/Chrony/Exchange.antt =====
-- `Client::exchange` of truenas_chrony/src/client.rs: the attempts, their waits and the receipts.
-- The socket, the clock and /dev/urandom are parameters that act on a state of their own.
use Prim.Native.String.{String}
use truenas_ros_utils.Prelude.{
  ℕ, zero, suc, ◌+◌, ◌-◌, ◌*◌, min, max, Bool, true, false, Option, none, some, List, Result, ok,
  err, ltb, leb, if◌then◌else◌,
}
use truenas_ros_utils.Prelude.Exec.{Exec, pure, raise, ◌>>=◌, ◌>>◌}
use truenas_ros_utils.Chrony.Error.{Error, io, timeout}
use truenas_ros_utils.Chrony.Types.{Address}
use truenas_ros_utils.Chrony.Wire.{Clock}
use truenas_ros_utils.Chrony.Tracking.{Tracking}
use truenas_ros_utils.Chrony.Source.{Source}
use truenas_ros_utils.Chrony.Selection.{Selection}
use truenas_ros_utils.Chrony.Auth.{Authentication}
use truenas_ros_utils.Chrony.Request
use truenas_ros_utils.Chrony.Request.{Request, Verdict, unrelated, answer, decode, with_attempt}
pub mod Answered
pub mod Ends

-- `RECV_BUF`
abbrev pub recv_buf : ℕ
recv_buf = 1024

-- The kinds of `io::Error` that the exchange tells apart.
pub data ErrorKind : Type 0 where
  would_block timed_out interrupted other : ErrorKind

-- What std gives: an `io::Error` is its text, of which `kind` reads the kind, an `Instant` and a
-- `Duration` are nanoseconds, and `recv` gives at most as many bytes as it has room for.
pub record System (W : Type 0) : Type 0 where
  pub kind : String → ErrorKind
  pub read_exact : ℕ → Exec String W (List ℕ)
  pub from_ne_bytes : List ℕ → ℕ
  pub now : W → ℕ × W
  pub checked_add : ℕ → ℕ → Option ℕ
  pub set_write_timeout : Option ℕ → Exec String W (Unit {0})
  pub set_read_timeout : Option ℕ → Exec String W (Unit {0})
  pub send : List ℕ → Exec String W ℕ
  pub recv : ℕ → Exec String W (List ℕ)

-- `Duration::MAX`: `u64::MAX` seconds and the last nanosecond of one more.
abbrev pub max_duration : ℕ
max_duration = 18446744073709551615999999999

-- `Duration::saturating_mul`
abbrev pub saturating_mul : ℕ → ℕ → ℕ
saturating_mul duration n = min (duration * n) max_duration

-- `Instant::checked_duration_since`
abbrev pub checked_duration_since : ℕ → ℕ → Option ℕ
checked_duration_since later earlier = if leb earlier later then some (later - earlier) else none

-- `u16::try_from(attempt).unwrap_or(u16::MAX)`
abbrev pub attempt_number : ℕ → ℕ
attempt_number attempt = if leb attempt 65535 then attempt else 65535

-- The fields of `Client` that a request does not change.
pub record Client : Type 0 where
  pub timeout : ℕ
  pub attempts : ℕ

abbrev pub millisecond : ℕ
millisecond = 1000000

-- The timeout and the attempts of `Client::connect_in`.
abbrev pub connected : Client
connected = record { timeout = 1000 * millisecond; attempts = 3 }

abbrev pub set_timeout : ℕ → Client → Client
set_timeout wait c = record c { timeout = max wait millisecond }

abbrev pub set_attempts : ℕ → Client → Client
set_attempts n c = record c { attempts = max n 1 }

abbrev pub is_timeout : ErrorKind → Bool
is_timeout would_block = true
is_timeout timed_out = true
is_timeout _ = false

-- How an exchange stops: it returns, or the fuel for the receipts is used up.
pub data Stop (T : Type 0) : Type 0 where
  returned : Result Error T → Stop T
  exhausted : Stop T

-- `left`, or the `break` in its place.
pub data Remaining : Type 0 where
  expired : Remaining
  left_over : Option ℕ → Remaining

abbrev pub unless_zero : Option ℕ → Remaining
unless_zero none = expired
unless_zero (some zero) = expired
unless_zero (some (suc n)) = left_over (some (suc n))

abbrev pub remaining : {W : Type 0} → System W → Option ℕ → W → Remaining × W
remaining system none w = (left_over none, w)
remaining system (some deadline) w =
    let r = system.now w in (unless_zero (checked_duration_since deadline r.0), r.1)

module _ {W T : Type 0} (system : System W) where
  -- `?` on a call of std.
  abbrev pub returning : {A : Type 0} → Result String A → Exec (Stop T) W A
  returning (ok a) w = (ok a, w)
  returning (err e) w = (err (returned (err (io e))), w)

  abbrev pub call : {A : Type 0} → Exec String W A → Exec (Stop T) W A
  call m w = let r = m w in returning r.0 r.1

  abbrev pub failed : ErrorKind → String → Exec (Stop T) W (Unit {0}) → Exec (Stop T) W (Unit {0})
  failed interrupted e again = again
  failed would_block e again = pure tt
  failed timed_out e again = pure tt
  failed other e again = raise (returned (err (io e)))

  abbrev pub weigh : Verdict T → Exec (Stop T) W (Unit {0}) → Exec (Stop T) W (Unit {0})
  weigh unrelated again = again
  weigh (answer a) again = raise (returned a)

  abbrev pub received :
      Request T → Exec (Stop T) W (Unit {0}) → Result String (List ℕ) → Exec (Stop T) W (Unit {0})
  received request again (ok datagram) = weigh (decode request datagram) again
  received request again (err e) = failed (system.kind e) e again

  abbrev pub receive : Request T → Exec (Stop T) W (Unit {0}) → Exec (Stop T) W (Unit {0})
  receive request again w = let r = system.recv recv_buf w in received request again r.0 r.1

  abbrev pub turn : Request T → Exec (Stop T) W (Unit {0}) → Remaining → Exec (Stop T) W (Unit {0})
  turn request again expired = pure tt
  turn request again (left_over left) = call (system.set_read_timeout left) >> receive request again

  -- The inner `loop`; `ok` is its `break`.
  unfoldable pub listen : ℕ → Request T → Option ℕ → Exec (Stop T) W (Unit {0})
  listen zero request deadline w = (err exhausted, w)
  listen (suc fuel) request deadline w =
      let r = remaining system deadline w in turn request (listen fuel request deadline) r.0 r.1

  abbrev pub send_failed : ErrorKind → String → Exec (Stop T) W (Unit {0})
  send_failed k e = if is_timeout k then pure tt else raise (returned (err (io e)))

  abbrev pub sent : ℕ → Request T → Option ℕ → Result String ℕ → Exec (Stop T) W (Unit {0})
  sent fuel request deadline (ok n) = listen fuel request deadline
  sent fuel request deadline (err e) = send_failed (system.kind e) e

  abbrev pub transmit : ℕ → Request T → Option ℕ → Exec (Stop T) W (Unit {0})
  transmit fuel request deadline w =
      let r = system.send request.bytes w in sent fuel request deadline r.0 r.1

  abbrev pub dispatch : ℕ → Request T → ℕ → Exec (Stop T) W (Unit {0})
  dispatch fuel request wait w =
      let r = system.now w in
      (call (system.set_write_timeout (some wait))
          >> transmit fuel request (system.checked_add r.0 wait))
        r.1

  -- One turn of `for attempt in 0..self.attempts`: `ok` goes on to the next.
  unfoldable pub attempt_once : ℕ → (ℕ → Request T) → ℕ → ℕ → Exec (Stop T) W (Unit {0})
  unfolding listen
  attempt_once fuel make attempt wait = call (system.read_exact 4) >>= λ sequence.
      dispatch fuel (with_attempt (make (system.from_ne_bytes sequence)) (attempt_number attempt))
        wait

  -- The attempts from `attempt` on.
  unfoldable pub attempts_from : ℕ → (ℕ → Request T) → ℕ → ℕ → ℕ → Exec (Stop T) W (Unit {0})
  unfolding attempt_once
  attempts_from fuel make zero attempt wait = pure tt
  attempts_from fuel make (suc left) attempt wait =
      attempt_once fuel make attempt wait
      >> attempts_from fuel make left (attempt + 1) (saturating_mul wait 2)

  abbrev pub concluded : Result (Stop T) (Unit {0}) → Option (Result Error T)
  concluded (ok u) = some (err timeout)
  concluded (err (returned r)) = some r
  concluded (err exhausted) = none

  -- `none` when the fuel, a bound on the receipts of an attempt, is used up.
  unfoldable pub exchange : ℕ → Client → (ℕ → Request T) → W → Option (Result Error T) × W
  unfolding attempts_from
  exchange fuel c make w =
      let r = attempts_from fuel make c.attempts 0 c.timeout w in (concluded r.0, r.1)

-- The calls of one request each.
module _ {W : Type 0} (system : System W) (fuel : ℕ) (c : Client) where
  abbrev pub tracking : Clock → W → Option (Result Error Tracking) × W
  tracking clock = exchange system fuel c (Request.tracking clock)

  abbrev pub source_count : W → Option (Result Error ℕ) × W
  source_count = exchange system fuel c Request.source_count

  abbrev pub source : ℕ → W → Option (Result Error Source) × W
  source index = exchange system fuel c (Request.source index)

  abbrev pub selection : ℕ → W → Option (Result Error Selection) × W
  selection index = exchange system fuel c (Request.selection index)

  abbrev pub authentication : Address → W → Option (Result Error Authentication) × W
  authentication address = exchange system fuel c (Request.authentication address)
