-- ===== src/Pam/Order/Calls.antt =====
-- What one operation adds to the calls of a transaction.
use truenas_ros_utils.Prelude.{
  ℕ, Bool, ◌≡◌, refl, ap, Option, some, none, Result, ok, err, List, ◌∷◌, inl, inr,
}
use truenas_ros_utils.Prelude.Exec.{continue}
use truenas_ros_utils.Xdr.Signed.{ℤ, pos}
use truenas_ros_utils.Pam.Error.{Error, check}
use truenas_ros_utils.Pam.Error.Raw.{check_classifies}
use truenas_ros_utils.Pam.Conv.{Failure, Conversation, ConvSlot}
use truenas_ros_utils.Pam.Libpam.{Entry, Libpam}
use truenas_ros_utils.Pam.Transaction.{
  Transaction, Call, fault, unless_failed, take_conv_failure, conclude, stack_op, after, run,
}

-- An operation that ran: one call more, which returned 0 if the outcome is a success.
pub record Ran {H C P : Type 0} (entry : Entry) (argument : ℕ) (calls : List Call)
    (outcome : Result (Failure P) (Unit {0})) (txn : Transaction H C P) : Type 0 where
  pub call : Call
  pub calls_eq : txn.calls ≡ call ∷ calls
  pub entry_eq : call.entry ≡ entry
  pub argument_eq : call.argument ≡ argument
  pub code_eq : outcome ≡ ok tt → call.code ≡ pos 0

check_ok : (rc : ℤ) → check rc ≡ ok tt → rc ≡ pos 0
check_ok rc h = elim (check_classifies rc) [ inl (e, k) ↦ e | inr (n, (e, k, r)) ↦ absurd cc ]

fault_ok : {P : Type 0} (r : Result Error (Unit {0})) → fault {P = P} r ≡ ok tt → r ≡ ok tt
fault_ok (ok tt) h = refl
fault_ok (err e) h = absurd cc

module _ {H C P : Type 0} where
  conclude_ok :
      (rc : ℤ) (f : Option (Failure P)) (txn : Transaction H C P)
      → (continue (unless_failed f) (λ u s. (fault (check rc), s)) txn).0 ≡ ok tt
      → rc ≡ pos 0
  conclude_ok rc none txn h = check_ok rc (fault_ok (check rc) h)
  conclude_ok rc (some f) txn h = absurd cc

  conclude_calls :
      (r : Result (Failure P) (Unit {0})) (f : Option (Failure P)) (txn : Transaction H C P)
      → (continue (unless_failed f) (λ u s. (r, s)) txn).1 ≡ txn
  conclude_calls r none txn = refl
  conclude_calls r (some f) txn = refl

  pub conclude-Ran :
      (entry : Entry) (argument : ℕ) (ran : (ℤ × H) × ConvSlot C P) (txn : Transaction H C P)
      → Ran entry argument txn.calls
          (conclude ran.0.0 (after entry argument ran txn)).0
          (conclude ran.0.0 (after entry argument ran txn)).1
  unfolding conclude take_conv_failure
  conclude-Ran entry argument ((rc, hdl), slot) txn = record {
    call = record { entry = entry; argument = argument; code = rc };
    calls_eq = ap (λ t. t.calls) (conclude_calls (fault (check rc)) slot.failure _);
    entry_eq = refl;
    argument_eq = refl;
    code_eq = conclude_ok rc slot.failure _;
  }

module _ {H C P : Type 0} (grants : ℕ → ℕ → Bool) (conversation : Conversation C P) where
  pub stack_op-Ran :
      (lib : Libpam H) (entry : Entry) (argument : ℕ) (txn : Transaction H C P)
      → Ran entry argument txn.calls
          (stack_op grants conversation lib entry argument txn).0
          (stack_op grants conversation lib entry argument txn).1
  unfolding stack_op
  stack_op-Ran lib entry argument txn =
      conclude-Ran entry argument
        (run grants conversation (lib.stack entry argument txn.hdl) txn.slot) txn
