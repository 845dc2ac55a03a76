-- ===== src/Pam/Builder.antt =====
-- `Builder` of truenas_pam/src/txn.rs: how a transaction begins, and what is ended if it cannot.
use truenas_ros_utils.Prelude.{ℕ, List, [], Option, some, none, Result, ok, err}
use truenas_ros_utils.Prelude.Exec.{Exec, pure, ◌>>=◌, ◌>>◌}
use truenas_ros_utils.Xdr.Signed.{ℤ, pos}
use truenas_ros_utils.Pam.Error.{Error, check}
use truenas_ros_utils.Pam.Conv
use truenas_ros_utils.Pam.Libpam.{Libpam}
use truenas_ros_utils.Pam.Transaction.{Transaction}
use truenas_ros_utils.Pam.Settings.{
  and_then, cstring, set_item_str, set_fail_delay, pam_ruser, pam_rhost, pam_tty,
}
pub mod Outcome

-- `Builder`; its conversation is an argument of `build`, the caller's or the default.
pub record Builder : Type 0 where
  pub service : List ℕ
  pub user : Option (List ℕ)
  pub confdir : Option (List ℕ)
  pub ruser : Option (List ℕ)
  pub rhost : Option (List ℕ)
  pub tty : Option (List ℕ)
  pub fail_delay : Option ℕ

unfoldable pub builder : List ℕ → Builder
builder service = record {
  service = service;
  user = none;
  confdir = none;
  ruser = none;
  rhost = none;
  tty = none;
  fail_delay = none;
}

-- `as_deref().map(cstring).transpose()`
abbrev pub optional : Option (List ℕ) → Result Error (Option (List ℕ))
optional none = ok none
optional (some bytes) = and_then (cstring bytes) (λ b. ok (some b))

-- How a `build` that fails leaves libpam: nothing was started, or the handle was ended with a
-- status by the `Drop` of the transaction.
pub data Teardown (H : Type 0) : Type 0 where
  not_started : Teardown H
  pam_end : H → ℤ → Teardown H

module _ {H C P : Type 0} (lib : Libpam H) where
  abbrev pub when :
      {A : Type 0}
      → Option A
      → (A → Exec Error (Transaction H C P) (Unit {0}))
      → Exec Error (Transaction H C P) (Unit {0})
  when none f = pure tt
  when (some a) f = f a

  unfoldable pub configure : Builder → Exec Error (Transaction H C P) (Unit {0})
  unfolding set_item_str set_fail_delay
  configure b =
      when b.ruser (set_item_str lib pam_ruser)
      >> when b.rhost (set_item_str lib pam_rhost)
      >> when b.tty (set_item_str lib pam_tty)
      >> when b.fail_delay (set_fail_delay lib)

  abbrev pub configured :
      Result Error (Unit {0}) × Transaction H C P → Result (Error × Teardown H) (Transaction H C P)
  configured (ok u, txn) = ok (record txn { last = pos 0 })
  configured (err e, txn) = err (e, pam_end txn.hdl txn.last)

  -- The transaction exists, with `PAM_ABORT` as its status until it is configured.
  abbrev pub begun : C → H → Transaction H C P
  begun c hdl = record { hdl = hdl; slot = Conv.new c; last = pos 26; calls = [] }

  abbrev pub started :
      Builder → C → Result Error (Unit {0}) → H → Result (Error × Teardown H) (Transaction H C P)
  started b c (err e) hdl = err (e, not_started)
  started b c (ok u) hdl = configured (configure b (begun c hdl))

  abbrev pub with_strings :
      Builder
      → C
      → Result Error (List ℕ × Option (List ℕ) × Option (List ℕ))
      → Result (Error × Teardown H) (Transaction H C P)
  with_strings b c (err e) = err (e, not_started)
  with_strings b c (ok (service, user, confdir)) =
      let handle = lib.start service user confdir in started b c (check handle.0) handle.1

  unfoldable pub build : Builder → C → Result (Error × Teardown H) (Transaction H C P)
  unfolding configure cstring
  build b c = with_strings b c (
      and_then (cstring b.service) (λ service.
        and_then (optional b.user)
          (λ user. and_then (optional b.confdir) (λ dir. ok (service, user, dir)))))
