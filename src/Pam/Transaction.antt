-- ===== src/Pam/Transaction.antt =====
-- `Transaction` of truenas_pam/src/txn.rs: one PAM transaction. A method on `&mut self` is an
-- `Exec`; a panic of the conversation that it resumes is an error of the model.
use Prim.Native.Nat.{bit_or}
use truenas_ros_utils.Prelude.{ℕ, Bool, List, ◌∷◌, Option, some, none, Result, ok, err}
use truenas_ros_utils.Prelude.Exec.{Exec, lift, ◌>>◌}
use truenas_ros_utils.Xdr.Signed.{ℤ}
use truenas_ros_utils.Pam.Error.{Error, check}
use truenas_ros_utils.Pam.Conv.{
  Failure, failed, Conversation, ConvSlot, Message, trampoline, take_failure, take_log,
  replace_conv,
}
use truenas_ros_utils.Pam.Libpam.{
  Entry, pam_authenticate, pam_acct_mgmt, pam_chauthtok, pam_setcred, pam_open_session,
  pam_close_session, Script, returns, asks, Libpam,
}

-- `Flags`, by its bits.
pub record Flags : Type 0 where
  pub bits : ℕ

abbrev pub silent : Flags
silent = record { bits = 0x8000 }

abbrev pub disallow_null_authtok : Flags
disallow_null_authtok = record { bits = 0x0001 }

abbrev pub change_expired_authtok : Flags
change_expired_authtok = record { bits = 0x0020 }

abbrev pub empty : Flags
empty = record { bits = 0 }

pub data CredOp : Type 0 where
  establish delete reinitialize refresh : CredOp

unfoldable pub raw : CredOp → ℕ
raw establish = 0x0002
raw delete = 0x0004
raw reinitialize = 0x0008
raw refresh = 0x0010

-- An operation that ran, its argument, and what it returned.
pub record Call : Type 0 where
  pub entry : Entry
  pub argument : ℕ
  pub code : ℤ

-- `calls` is the history of `hdl`, newest first; the code keeps no such list, and nothing it does
-- depends on it.
pub record Transaction (H C P : Type 0) : Type 0 where
  pub hdl : H
  pub slot : ConvSlot C P
  pub last : ℤ
  pub calls : List Call

abbrev pub Txn : Type 0 → Type 0 → Type 0 → Type 0 → Type 0
Txn H C P A = Exec (Failure P) (Transaction H C P) A

abbrev pub fault : {A P : Type 0} → Result Error A → Result (Failure P) A
fault (ok a) = ok a
fault (err e) = err (failed e)

abbrev pub unless_failed : {P : Type 0} → Option (Failure P) → Result (Failure P) (Unit {0})
unless_failed none = ok tt
unless_failed (some f) = err f

module _ {H C P : Type 0} where
  unfoldable pub take_conv_failure : Txn H C P (Unit {0})
  unfolding take_failure
  take_conv_failure txn =
      let taken = take_failure txn.slot in (unless_failed taken.0, record txn { slot = taken.1 })

  -- The handle, the slot and the status after an operation.
  abbrev pub after : Entry → ℕ → (ℤ × H) × ConvSlot C P → Transaction H C P → Transaction H C P
  after entry argument ((rc, hdl), slot) txn = record txn {
    hdl = hdl;
    slot = slot;
    last = rc;
    calls = record { entry = entry; argument = argument; code = rc } ∷ txn.calls;
  }

  unfoldable pub conclude : ℤ → Txn H C P (Unit {0})
  unfolding take_conv_failure
  conclude rc = take_conv_failure >> lift (fault (check rc))

  unfoldable pub set_conversation : C → Transaction H C P → C × Transaction H C P
  unfolding replace_conv
  set_conversation c txn =
      let replaced = replace_conv c txn.slot in (replaced.0, record txn { slot = replaced.1 })

  unfoldable pub take_messages : Transaction H C P → List (List Message) × Transaction H C P
  unfolding take_log
  take_messages txn = let taken = take_log txn.slot in (taken.0, record txn { slot = taken.1 })

module _ {H C P : Type 0} (grants : ℕ → ℕ → Bool) (conversation : Conversation C P) where
  -- A stack on the caller's own thread: each round goes through the trampoline.
  unfoldable pub run : Script H → ConvSlot C P → (ℤ × H) × ConvSlot C P
  run (returns rc hdl) slot = ((rc, hdl), slot)
  run (asks round rest) slot =
      run (rest (trampoline grants conversation round slot).0)
        (trampoline grants conversation round slot).1

module _ {H C P : Type 0} (grants : ℕ → ℕ → Bool) (conversation : Conversation C P)
    (lib : Libpam H) where
  unfoldable pub stack_op : Entry → ℕ → Txn H C P (Unit {0})
  unfolding run conclude
  stack_op entry flags txn =
      let ran = run grants conversation (lib.stack entry flags txn.hdl) txn.slot in
      conclude ran.0.0 (after entry flags ran txn)

  unfoldable pub authenticate : Flags → Txn H C P (Unit {0})
  authenticate flags = stack_op pam_authenticate flags.bits

  unfoldable pub acct_mgmt : Flags → Txn H C P (Unit {0})
  acct_mgmt flags = stack_op pam_acct_mgmt flags.bits

  unfoldable pub chauthtok : Flags → Txn H C P (Unit {0})
  chauthtok flags = stack_op pam_chauthtok flags.bits

  unfoldable pub setcred : CredOp → Flags → Txn H C P (Unit {0})
  setcred op flags = stack_op pam_setcred (bit_or (raw op) flags.bits)

  unfoldable pub open_session : Flags → Txn H C P (Unit {0})
  open_session flags = stack_op pam_open_session flags.bits

  unfoldable pub close_session : Flags → Txn H C P (Unit {0})
  close_session flags = stack_op pam_close_session flags.bits
