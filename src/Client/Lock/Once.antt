-- ===== src/Client/Lock/Once.antt =====
-- A claim on the box is asked for once and given up once, however its guard ends.
use lager_rs.Prelude.{ℕ, ◌≡◌, refl, ap, ◌∙◌, Bool, true, false, none, List, ◌∷◌, Text, str, ok, err}
use lager_rs.Json.{Value}
use lager_rs.Error.{Res}
use lager_rs.Action.{Action, and_then, give}
use lager_rs.Wire.Request as Request
use lager_rs.Wire.Request.{HttpRequest}
use lager_rs.Wire.Debug.{parse_lock}
use lager_rs.Client.Calls.{lock_call, lock, unlock}
use lager_rs.Client.Lock.{BoxLockGuard, guard_for, lock_guard, drop, guard_unlock}

-- `execute` with a list of the requests that it was given, the last one first
abbrev pub logged :
    {S A : Type 0} → (HttpRequest → Action S A) → HttpRequest → Action (List HttpRequest × S) A
logged execute req (log, s) = let (r, s') = execute req s in (r, (req ∷ log, s'))

abbrev pub acquire : Text → HttpRequest
acquire user = Request.lock_acquire user (str "user") none

abbrev pub release : Text → HttpRequest
release user = Request.unlock user false

module _ {S A : Type 0} (execute : HttpRequest → Action S (ℕ × Value))
    (from_value : Value → Res A) where
  abbrev Logged : Type 0
  Logged = List HttpRequest × S

  -- The guard goes out of scope, or its owner unlocks it.
  abbrev ended : Bool → BoxLockGuard → Action (List HttpRequest × S) Unit
  ended true g l = guard_unlock (logged execute) from_value g l
  ended false g l = (ok tt, drop (logged execute) from_value g l)

  -- A claim, what its holder does with the box, and the end of the guard
  abbrev pub guarded : Bool → Text → Action (List HttpRequest × S) Unit
  guarded explicit user l =
      and_then (lock_guard (logged execute) from_value user l) (ended explicit)

  give-log :
      {B C : Type 0} (f : B → Res C) (p : Res B × Logged)
      → (and_then p (λ b. give (f b))).1.0 ≡ p.1.0
  give-log f (ok b, l) = refl
  give-log f (err e, l) = refl

  lock-log :
      (user : Text) (l : Logged)
      → (lock (logged execute) from_value user l).1.0 ≡ acquire user ∷ l.0
  unfolding lock lock_call
  lock-log user l = give-log (λ p. parse_lock from_value p.0 p.1) (logged execute (acquire user) l)

  unlock-log :
      (user : Text) (l : Logged)
      → (unlock (logged execute) from_value user l).1.0 ≡ release user ∷ l.0
  unfolding unlock lock_call
  unlock-log user l =
      give-log (λ p. parse_lock from_value p.0 p.1) (logged execute (release user) l)

  ended-log :
      (explicit : Bool) (user : Text) (l : Logged)
      → (ended explicit (record { user = user; released = false }) l).1.0 ≡ release user ∷ l.0
  unfolding guard_unlock drop
  ended-log true user l = unlock-log user l
  ended-log false user l = unlock-log user l

  -- The requests of a claim: none to give it up where it was refused
  abbrev pub requests : Res A → Text → List HttpRequest → List HttpRequest
  requests (ok claim) user log = release user ∷ acquire user ∷ log
  requests (err e) user log = acquire user ∷ log

  guard_for-log :
      (explicit : Bool) (user : Text) (q : Res A × Logged) (log : List HttpRequest)
      → q.1.0 ≡ acquire user ∷ log
      → (and_then (guard_for (logged execute) from_value user q) (ended explicit)).1.0
        ≡ requests q.0 user log
  guard_for-log explicit user (ok claim, l) log h =
      ended-log explicit user l ∙ ap (λ log. release user ∷ log) h
  guard_for-log explicit user (err e, l) log h = h

  -- A guard asks for the lock once. Where it gets it, it gives it up once, whether its owner
  -- unlocks it or lets it go, and where it does not, it sends nothing more.
  pub guarded-requests :
      (explicit : Bool) (user : Text) (l : List HttpRequest × S)
      → (guarded explicit user l).1.0
        ≡ requests (lock (logged execute) from_value user l).0 user l.0
  unfolding lock_guard
  guarded-requests explicit user l =
      guard_for-log explicit user (lock (logged execute) from_value user l) l.0 (lock-log user l)
