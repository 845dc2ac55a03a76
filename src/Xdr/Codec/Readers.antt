-- ===== src/Xdr/Codec/Readers.antt =====
-- What the readers of `Deserializer` read.
use truenas_ros_utils.Prelude.{
  ℕ, zero, suc, ◌+◌, ◌<◌, Bool, true, false, not, ◌&&◌, Option, none, some, List, [], ◌++◌, ◌≡◌,
  refl, sym, ap, Result, ok, length, arith, ltb, ◌==◌, le→ltb, if◌then◌else◌, replicate,
  length-replicate, any, subst,
}
use native.Mathlib.Nat.{add-zero}
use truenas_ros_utils.Prelude.Bytes.{
  u32_mod, u64_mod, u32_to_be_bytes, u64_to_be_bytes, be_value, u32-be_value, u64-be_value,
}
use truenas_ros_utils.Prelude.Exec.{pure, lift, ◌>>=◌, ◌>>◌}
use truenas_ros_utils.Xdr.Error.{Error}
use truenas_ros_utils.Xdr.Unit4.{pad4}
use truenas_ros_utils.Xdr.Utf8.{is_utf8}
use truenas_ros_utils.Xdr.De.State.{
  De, descend, ascend, take_bytes, read_u32, read_u64, read_pad, check_bound, read_opaque,
  read_fixed, read_bool, read_str,
}
use truenas_ros_utils.Xdr.De.Visit.{nested}
use truenas_ros_utils.Xdr.Codec.Wire.{padded, filler, NoNul}
use truenas_ros_utils.Xdr.Codec.Wire.Padding.{pad4-filler}
use truenas_ros_utils.Xdr.Codec.Reads.{
  Env, Flags, plain, pending, InBound, at, Reads, Reads-bind, Reads-pure, Reads-if,
  Reads-take_bytes,
}

module _ {e : Env} {f g : Flags} {k : ℕ} {A B : Type 0} where
  -- A step that only computes reads nothing more.
  pub Reads-bind-lift :
      (m : De A) (r : A → Result Error B) (bs : List ℕ) (a : A) (b : B)
      → Reads e f g k m bs a
      → r a ≡ ok b
      → Reads e f g k (m >>= λ x. lift (r x)) bs b
  Reads-bind-lift m r bs a b rm p = record {
    run = λ pos depth rest here room. rw (rm.run pos depth rest here room, p);
  }

module _ {e : Env} {f g : Flags} {k : ℕ} {A : Type 0} where
  pub Reads-cast :
      {m : De A} {bs cs : List ℕ} {a : A} → bs ≡ cs → Reads e f g k m bs a → Reads e f g k m cs a
  Reads-cast {m} {bs} {cs} {a} p = subst (λ t. Reads e f g k m t a) p

  -- A level deeper.
  pub Reads-nested :
      (m : De A) (bs : List ℕ) (a : A) → Reads e f g k m bs a → Reads e f g (suc k) (nested m) bs a
  unfolding nested descend ascend
  Reads-nested m bs a rm = record {
    run = λ pos depth rest here room.
        rw
          (
            le→ltb e.max_depth (depth + 1) (omega arith),
            rm.run pos (depth + 1) rest here (omega arith),
          )
          (ap (λ n. (ok a, at e g (pos + length bs) n)) (omega arith));
  }

module _ {e : Env} {f : Flags} {k : ℕ} where
  pub Reads-u32 : (v : ℕ) → v < u32_mod → Reads e f f k read_u32 (u32_to_be_bytes v) v
  unfolding read_u32
  Reads-u32 v h =
      Reads-bind-lift (take_bytes 4) (λ b. ok (be_value 0 b)) (u32_to_be_bytes v)
        (u32_to_be_bytes v) v (Reads-take_bytes (u32_to_be_bytes v)) (ap ok (u32-be_value v h))

  pub Reads-u64 : (v : ℕ) → v < u64_mod → Reads e f f k read_u64 (u64_to_be_bytes v) v
  unfolding read_u64
  Reads-u64 v h =
      Reads-bind-lift (take_bytes 8) (λ b. ok (be_value 0 b)) (u64_to_be_bytes v)
        (u64_to_be_bytes v) v (Reads-take_bytes (u64_to_be_bytes v)) (ap ok (u64-be_value v h))

any-replicate : (n : ℕ) → any (λ b. not (b == 0)) (replicate n 0) ≡ false
any-replicate zero = refl
any-replicate (suc n) = any-replicate n

and-false : (b : Bool) → (b && false) ≡ false
and-false true = refl
and-false false = refl

no_zeros : (n : ℕ) → ltb 0 n ≡ false → ◌≡◌ {A = List ℕ} [] (replicate n 0)
no_zeros zero h = refl
no_zeros (suc n) h = ground arith

module _ {e : Env} {f : Flags} {k : ℕ} where
  pub Reads-take : (n : ℕ) (bs : List ℕ) → length bs ≡ n → Reads e f f k (take_bytes n) bs bs
  Reads-take n bs h = subst (λ m. Reads e f f k (take_bytes m) bs bs) h (Reads-take_bytes bs)

  -- The zeros that complete a unit, in either mode.
  pub Reads-pad : (len : ℕ) → Reads e f f k (read_pad len) (replicate (filler len) 0) tt
  unfolding read_pad
  Reads-pad len =
      subst (λ p. Reads e f f k (read_pad len) (replicate p 0) tt) (pad4-filler len)
        (Reads-if (ltb 0 (pad4 len)) _ _ _ tt
          (λ some_zeros. record {
            run = λ pos depth rest here room. rw (
              (Reads-take (pad4 len) (replicate (pad4 len) 0) (length-replicate (pad4 len) 0)).run
                  pos depth rest here room,
              any-replicate,
              and-false,
            );
          })
          (λ none_left. Reads-cast (no_zeros (pad4 len) none_left) (Reads-pure tt)))

  pub Reads-fixed : (v : List ℕ) (n : ℕ) → length v ≡ n → Reads e f f k (read_fixed n) (padded v) v
  unfolding read_fixed padded
  Reads-fixed v n h = record {
    run = λ pos depth rest here room.
        (Reads-bind (take_bytes n) (λ bytes. read_pad n >> pure bytes) v
            (replicate (filler (length v)) 0) v v (Reads-take n v h)
            (Reads-bind-lift (read_pad n) (λ u. ok v) (replicate (filler (length v)) 0) tt v
              (subst (λ t. Reads e f f k (read_pad n) (replicate (filler t) 0) tt) (sym h)
                (Reads-pad n))
              refl)).run
          pos depth rest here room;
  }

module _ {e : Env} {k : ℕ} where
  pub Reads-check_bound :
      (bound : Option ℕ) (len : ℕ)
      → InBound bound len
      → Reads e (pending bound) plain k (check_bound len) [] tt
  unfolding check_bound
  Reads-check_bound none len h = record { run = λ pos depth rest here room. cc (add-zero pos) }
  Reads-check_bound (some limit) len h = record {
    run = λ pos depth rest here room. rw (le→ltb limit len h, add-zero);
  }

  -- The length, its bound, the bytes and their padding.
  pub Reads-opaque :
      (bound : Option ℕ) (v : List ℕ)
      → length v < u32_mod
      → InBound bound (length v)
      → Reads e (pending bound) plain k read_opaque (u32_to_be_bytes (length v) ++ padded v) v
  unfolding read_opaque read_fixed padded
  Reads-opaque bound v h held =
      Reads-bind read_u32 _ (u32_to_be_bytes (length v)) (padded v) (length v) v
        (Reads-u32 (length v) h)
        (Reads-bind (check_bound (length v)) _ [] (padded v) tt v
          (Reads-check_bound bound (length v) held) (Reads-fixed v (length v) refl))

  pub Reads-bool :
      (b : Bool) {f : Flags} → Reads e f f k read_bool (u32_to_be_bytes (if b then 1 else 0)) b
  unfolding read_bool
  Reads-bool true = record {
    run = λ pos depth rest here room. rw ((Reads-u32 1 (omega arith)).run pos depth rest here room);
  }
  Reads-bool false = record {
    run = λ pos depth rest here room. rw ((Reads-u32 0 (omega arith)).run pos depth rest here room);
  }

  pub Reads-str :
      (bound : Option ℕ) (v : List ℕ)
      → length v < u32_mod
      → InBound bound (length v)
      → is_utf8 v ≡ true
      → NoNul e.mode v
      → Reads e (pending bound) plain k read_str (u32_to_be_bytes (length v) ++ padded v) v
  unfolding read_str
  Reads-str bound v h held valid clean = record {
    run = λ pos depth rest here room.
        rw ((Reads-opaque bound v h held).run pos depth rest here room, valid, clean);
  }
