-- ===== src/Tests/Exchange.antt =====
-- truenas_chrony: an exchange over a socket that holds two datagrams, of which one is a stray.
use Prim.Native.String.{String}
use truenas_ros_utils.Prelude.{
  ℕ, ◌+◌, ◌*◌, ◌<◌, ◌≡◌, refl, arith, List, [], ◌∷◌, length, take, some, Result, ok, err,
}
use truenas_ros_utils.Chrony.Error.{Error}
use truenas_ros_utils.Chrony.Wire
use truenas_ros_utils.Chrony.Request.{source_count}
use truenas_ros_utils.Chrony.Request.Answers.{reply_bytes}
use truenas_ros_utils.Chrony.Exchange.{System, timed_out, connected, exchange}
use truenas_ros_utils.Chrony.Exchange.Ends.{IsWithin, exchange_ends}

-- The clock and the datagrams that wait at the socket.
abbrev Desk : Type 0
Desk = ℕ × List (List ℕ)

abbrev receipt : ℕ → ℕ → List (List ℕ) → Result String (List ℕ) × Desk
receipt room t [] = (err "timed out", (t + 1, []))
receipt room t (datagram ∷ inbox) = (ok (take room datagram), (t + 1, inbox))

abbrev le_value : List ℕ → ℕ
le_value [] = 0
le_value (b ∷ bytes) = b + 256 * le_value bytes

abbrev desk : System Desk
desk = record {
  kind = λ e. timed_out;
  read_exact = λ n w. (ok (take n (7 ∷ 0 ∷ 0 ∷ 0 ∷ [])), w);
  from_ne_bytes = le_value;
  now = λ w. (w.0, w);
  checked_add = λ t wait. some (t + wait);
  set_write_timeout = λ left w. (ok tt, w);
  set_read_timeout = λ left w. (ok tt, w);
  send = λ bytes w. (ok (length bytes), w);
  recv = λ room w. receipt room w.0 w.1;
}

abbrev two_datagrams : Desk
two_datagrams = (0, (1 ∷ 2 ∷ []) ∷ reply_bytes 6 14 2 0 7 (0 ∷ 0 ∷ 0 ∷ 3 ∷ []) ∷ [])

waits-IsWithin : IsWithin 4000000000 3 1000000000
unfolding IsWithin
waits-IsWithin = (omega arith, (omega arith, (omega arith, tt)))

receipt_takes : (room t : ℕ) (inbox : List (List ℕ)) → t < (receipt room t inbox).1.0
receipt_takes room t [] = omega arith
receipt_takes room t (datagram ∷ inbox) = omega arith

exchange_ends_example :
    (r : Result Error ℕ) × ((exchange desk 4000000001 connected source_count two_datagrams).0
      ≡ some r)
exchange_ends_example =
    exchange_ends desk (λ w. w.0) 4000000000 (λ w. refl) (λ w. omega arith) (λ left w. omega arith)
      (λ left w. omega arith) (λ bytes w. omega arith) (λ room w. receipt_takes room w.0 w.1)
      (λ t wait le. refl) 4000000001 connected source_count two_datagrams waits-IsWithin
      (omega arith)
