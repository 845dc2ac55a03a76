-- ===== src/Xdr/Codec/ReadsSeq.antt =====
-- `Reads` for the elements that a visitor takes from a `SeqReader`.
use truenas_ros_utils.Prelude.{
  ℕ, suc, ◌+◌, ◌-◌, ◌≤◌, ◌<◌, ◌/◌, ◌*◌, false, Option, some, List, [], ◌∷◌, ◌++◌, ◌≡◌, ap, ◌∙◌, ok,
  length, arith, le→ltb, All, length-drop, ltb, ◌==◌, if◌then◌else◌, min, drop,
}
use truenas_ros_utils.Prelude.Bytes.{u32_mod, u32_to_be_bytes}
use native.Mathlib.Nat.{add-zero}
use truenas_ros_utils.Prelude.Exec.{pure, raise, gets, ◌>>=◌}
use truenas_ros_utils.Xdr.Error.{eof}
use truenas_ros_utils.Xdr.Unit4.{bytes_per_xdr_unit, usize_max}
use truenas_ros_utils.Xdr.De.State.{Deserializer, De, read_u32, check_bound, remaining}
use truenas_ros_utils.Xdr.De.Visit.{SeqReader, Seq, seq, nested, next_element_seed}
use truenas_ros_utils.Xdr.De.Compound.{deserialize_seq}
use truenas_ros_utils.Xdr.Codec.Drive.{collect, next_field}
use truenas_ros_utils.Xdr.Codec.Wire.{wire_all, deepest}
use truenas_ros_utils.Xdr.Codec.Reads.{
  Env, Flags, plain, pending, InBound, at, at-add, Holds, Holds-front, Holds-back, Holds-end, Reads,
  Reads-bind,
}
use truenas_ros_utils.Xdr.Codec.Readers.{Reads-u32, Reads-check_bound, Reads-nested}

abbrev pub seq_at : Env → ℕ → ℕ → ℕ → SeqReader
seq_at e pos depth n = record { de = at e plain pos depth; remaining = n }

-- With `n` elements left, `m` reads `bytes`, returns `a`, and leaves `n'` of them.
pub record ReadsSeq (e : Env) (k n n' : ℕ) {A : Type 0} (m : Seq A) (bytes : List ℕ) (a : A)
    : Type 0 where
  pub run :
      (pos depth : ℕ) (rest : List ℕ)
      → Holds e pos bytes rest
      → depth + k ≤ e.max_depth
      → m (seq_at e pos depth n) ≡ (ok a, seq_at e (pos + length bytes) depth n')

module _ {e : Env} {f g : Flags} {A : Type 0} where
  -- Room for more levels does no harm.
  pub Reads-room :
      {k l : ℕ} {m : De A} {bs : List ℕ} {a : A}
      → k ≤ l
      → Reads e f g k m bs a
      → Reads e f g l m bs a
  Reads-room h r = record {
    run = λ pos depth rest here room. r.run pos depth rest here (omega arith);
  }

suc_sub_one : (m : ℕ) → suc m - 1 ≡ m
suc_sub_one m = omega arith

suc-ne-zero : (m : ℕ) → (suc m == 0) ≡ false
suc-ne-zero m = ground arith

module _ {e : Env} {k n : ℕ} {A : Type 0} where
  pub ReadsSeq-pure : (a : A) → ReadsSeq e k n n (pure a) [] a
  ReadsSeq-pure a = record { run = λ pos depth rest here room. cc (add-zero pos) }

  pub ReadsSeq-next :
      (seed : De A) (bs : List ℕ) (a : A)
      → Reads e plain plain k seed bs a
      → ReadsSeq e k (suc n) n (next_element_seed seed) bs (some a)
  unfolding next_element_seed
  ReadsSeq-next seed bs a r = record {
    run = λ pos depth rest here room.
        rw (r.run pos depth rest here room, suc-ne-zero n, suc_sub_one n);
  }

  pub Reads-seq :
      {n' : ℕ} (m : Seq A) (bs : List ℕ) (a : A)
      → ReadsSeq e k n n' m bs a
      → Reads e plain plain k (seq n m) bs a
  unfolding seq
  Reads-seq m bs a r = record {
    run = λ pos depth rest here room. rw (r.run pos depth rest here room);
  }

module _ {e : Env} {k n n' n'' : ℕ} {A B : Type 0} where
  pub ReadsSeq-bind :
      (m : Seq A) (next : A → Seq B) (bs cs : List ℕ) (a : A) (b : B)
      → ReadsSeq e k n n' m bs a
      → ReadsSeq e k n' n'' (next a) cs b
      → ReadsSeq e k n n'' (m >>= next) (bs ++ cs) b
  ReadsSeq-bind m next bs cs a b rm rn = record {
    run = λ pos depth rest here room.
        rw (rm.run pos depth (cs ++ rest) (Holds-front bs cs here) room) (
          rn.run (pos + length bs) depth rest (Holds-back bs cs here) room
          ∙ ap (λ (d : Deserializer). (ok b, record { de = d; remaining = n'' }))
              (at-add e plain pos depth bs cs));
  }

module _ {e : Env} {k n n' : ℕ} {A B : Type 0} where
  pub ReadsSeq-bind-pure :
      (m : Seq A) (f : A → B) (bs : List ℕ) (a : A)
      → ReadsSeq e k n n' m bs a
      → ReadsSeq e k n n' (m >>= λ x. pure (f x)) bs (f a)
  ReadsSeq-bind-pure m f bs a r = record {
    run = λ pos depth rest here room. rw (r.run pos depth rest here room);
  }

module _ {e : Env} {n n' : ℕ} {A : Type 0} where
  pub ReadsSeq-room :
      {k l : ℕ} {m : Seq A} {bs : List ℕ} {a : A}
      → k ≤ l
      → ReadsSeq e k n n' m bs a
      → ReadsSeq e l n n' m bs a
  ReadsSeq-room h r = record {
    run = λ pos depth rest here room. r.run pos depth rest here (omega arith);
  }

module _ {e : Env} {k n : ℕ} {A : Type 0} where
  pub ReadsSeq-next_field :
      (seed : De A) (bs : List ℕ) (a : A)
      → Reads e plain plain k seed bs a
      → ReadsSeq e k (suc n) n (next_field seed) bs a
  unfolding next_field
  ReadsSeq-next_field seed bs a r = record {
    run = λ pos depth rest here room.
        rw ((ReadsSeq-next {n = n} seed bs a r).run pos depth rest here room);
  }

module _ {A : Type 0} (seed : De A) (bytes : A → List ℕ) (depth_of : A → ℕ) where
  -- Every element of the list reads.
  abbrev pub AllRead : Env → List A → Type 0
  AllRead e xs = All (λ x. Reads e plain plain (depth_of x) seed (bytes x) x) xs

  pub ReadsSeq-collect :
      (e : Env) (k : ℕ) (xs : List A)
      → deepest depth_of xs ≤ k
      → AllRead e xs
      → ReadsSeq e k (length xs) 0 (collect seed (length xs)) (wire_all bytes xs) xs
  unfolding collect
  ReadsSeq-collect e k [] room h = ReadsSeq-pure []
  ReadsSeq-collect e k (x ∷ xs) room h =
      ReadsSeq-bind (next_element_seed seed) _ (bytes x) (wire_all bytes xs) (some x) (x ∷ xs)
        (ReadsSeq-next seed (bytes x) x (Reads-room (omega arith) h.0))
        (ReadsSeq-bind-pure (collect seed (length xs)) (λ rest. x ∷ rest) (wire_all bytes xs) xs
          (ReadsSeq-collect e k xs (omega arith) h.1))

module _ {e : Env} {A : Type 0} where
  -- The elements of a counted sequence, which take a unit each at least: the count is met.
  Reads-elements :
      (k count : ℕ) (visit : Seq A) (bs : List ℕ) (a : A)
      → count * 4 ≤ length bs
      → ReadsSeq e k count 0 visit bs a
      → Reads e plain plain
          (suc k)
          (gets (λ d. length (remaining d)) >>= λ rem.
            if ltb (rem / bytes_per_xdr_unit) count
            then raise (eof (min (count * bytes_per_xdr_unit) usize_max - rem))
            else nested (seq count visit))
          bs
          a
  unfolding remaining
  Reads-elements k count visit bs a full r = record {
    run = λ pos depth rest here room.
        rw
          (le→ltb (length (drop pos e.input) / 4) count
            (omega (arith, Holds-end here, length-drop pos e.input)))
          ((Reads-nested (seq count visit) bs a (Reads-seq visit bs a r)).run pos depth rest here
            room);
  }

  pub Reads-deserialize_seq :
      (k : ℕ) (bound : Option ℕ) (count : ℕ) (visit : Seq A) (bs : List ℕ) (a : A)
      → count < u32_mod
      → InBound bound count
      → count * 4 ≤ length bs
      → ReadsSeq e k count 0 visit bs a
      → Reads e
          (pending bound)
          plain
          (suc k)
          (deserialize_seq visit)
          (u32_to_be_bytes count ++ bs)
          a
  unfolding deserialize_seq
  Reads-deserialize_seq k bound count visit bs a small held full r =
      Reads-bind read_u32 _ (u32_to_be_bytes count) bs count a (Reads-u32 count small) (
        Reads-bind (check_bound count) _ [] bs tt a (Reads-check_bound bound count held)
          (Reads-elements k count visit bs a full r))
