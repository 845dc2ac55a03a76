-- ===== src/Pam/Libpam.antt =====
-- What truenas_pam/src/txn.rs calls of libpam, a parameter of the model: `H` is what the library
-- keeps behind a `pam_handle_t`. A stack of modules runs as a script that asks the conversation
-- and waits for each reply.
use truenas_ros_utils.Prelude.{ℕ, List, Option}
use truenas_ros_utils.Xdr.Signed.{ℤ}
use truenas_ros_utils.Pam.Conv.{Round, Reply}

-- The six operations that run a stack.
pub data Entry : Type 0 where
  pam_authenticate pam_acct_mgmt pam_chauthtok pam_setcred pam_open_session : Entry
  pam_close_session : Entry

pub data Script (H : Type 0) : Type 0 where
  returns : ℤ → H → Script H
  asks : Round → (Reply → Script H) → Script H

-- A string that libpam is handed, and one that it holds, is its bytes without the terminator.
pub record Libpam (H : Type 0) : Type 0 where
  pub stack : Entry → ℕ → H → Script H
  pub start : List ℕ → Option (List ℕ) → Option (List ℕ) → ℤ × H
  pub get_item : ℕ → H → ℤ × Option (List ℕ)
  pub set_item : ℕ → List ℕ → H → ℤ × H
  pub fail_delay : ℕ → H → ℤ × H
  pub getenv : List ℕ → H → Option (List ℕ)
  pub putenv : List ℕ → H → ℤ × H
  pub getenvlist : H → Option (List (List ℕ))
