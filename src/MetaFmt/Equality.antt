-- ===== src/MetaFmt/Equality.antt =====
-- The derived equality of settings.
use truenas_ros_utils.Prelude.{
  Bool, true, Option, none, some, List, [], ◌∷◌, ◌≡◌, refl, arith, ◌↔◌, ℕ,
}
use truenas_ros_utils.MetaFmt.{MetaFmt, StreamFormat, eq, eq_bytes, eq_bool, eq_streams}

eq_bytes_self : (a : List ℕ) → eq_bytes a a ≡ true
unfolding eq_bytes
eq_bytes_self [] = refl
eq_bytes_self (x ∷ a) = ground (arith, eq_bytes_self a)

eq_bytes-true : (a b : List ℕ) → eq_bytes a b ≡ true → a ≡ b
unfolding eq_bytes
eq_bytes-true [] [] h = refl
eq_bytes-true [] (y ∷ b) h = cc
eq_bytes-true (x ∷ a) [] h = cc
eq_bytes-true (x ∷ a) (y ∷ b) h = ground (arith, eq_bytes-true a b)

eq_bool-true : (a b : Bool) → eq_bool a b ≡ true → a ≡ b
unfolding eq_bool
eq_bool-true a b h = ground arith

eq_streams_self : (a : Option StreamFormat) → eq_streams a a ≡ true
unfolding eq_streams
eq_streams_self none = refl
eq_streams_self (some s) =
    ground (arith, eq_bytes_self s.stream_prefix, eq_bytes_self s.stream_suffix)

eq_streams-true : (a b : Option StreamFormat) → eq_streams a b ≡ true → a ≡ b
unfolding eq_streams
eq_streams-true none none h = refl
eq_streams-true none (some t) h = cc
eq_streams-true (some s) none h = cc
eq_streams-true (some s) (some t) h = ground (
  arith,
  eq_bytes-true s.stream_prefix t.stream_prefix,
  eq_bytes-true s.stream_suffix t.stream_suffix,
)

eq_self : (m : MetaFmt) → eq m m ≡ true
unfolding eq
eq_self m = ground (arith, eq_bytes_self m.filename_charset, eq_streams_self m.streams)

eq-true : (m n : MetaFmt) → eq m n ≡ true → m ≡ n
unfolding eq
eq-true m n h = ground (
  arith,
  eq_bytes-true m.filename_charset n.filename_charset,
  eq_streams-true m.streams n.streams,
)

-- The comparison answers `true` exactly on equal settings.
pub eq_iff : (m n : MetaFmt) → (eq m n ≡ true) ↔ (m ≡ n)
eq_iff m n = (eq-true m n, λ p. rw p (eq_self n))
