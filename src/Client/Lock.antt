-- ===== src/Client/Lock.antt =====
-- `BoxLockGuard` of client.rs: a claim on the box that is given up when it goes out of scope.
pub mod Once
use lager_rs.Prelude.{Bool, true, false, Text, Result, ok, err, ℕ, if◌then◌else◌}
use lager_rs.Json.{Value}
use lager_rs.Error.{Error, Res}
use lager_rs.Action.{Action, and_then}
use lager_rs.Wire.Request.{HttpRequest}
use lager_rs.Client.Calls.{lock, unlock}

pub record BoxLockGuard : Type 0 where
  pub user : Text
  pub released : Bool

module _ {S A : Type 0} (execute : HttpRequest → Action S (ℕ × Value))
    (from_value : Value → Res A) where
  abbrev pub guard_for : Text → Res A × S → Res BoxLockGuard × S
  guard_for user (ok claim, s) = (ok (record { user = user; released = false }), s)
  guard_for user (err e, s) = (err e, s)

  unfoldable pub lock_guard : Text → Action S BoxLockGuard
  unfolding lock
  lock_guard user s = guard_for user (lock execute from_value user s)

  -- `Drop::drop`
  unfoldable pub drop : BoxLockGuard → S → S
  unfolding unlock
  drop g s = if g.released then s else (unlock execute from_value g.user s).1

  abbrev dropped : BoxLockGuard → Res Unit × S → Res Unit × S
  dropped g (r, s) = (r, drop g s)

  -- `BoxLockGuard::unlock`, which takes the guard: it is dropped at its end.
  unfoldable pub guard_unlock : BoxLockGuard → Action S Unit
  unfolding unlock drop
  guard_unlock g s = dropped (record g { released = true }) (unlock execute from_value g.user s)
