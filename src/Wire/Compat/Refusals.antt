-- ===== src/Wire/Compat/Refusals.antt =====
-- What the readings of an old box's refusals have in common.
use lager_rs.Prelude.{
  ℕ, ◌≡◌, ◌≢◌, refl, inl, inr, Bool, true, ◌&&◌, ◌||◌, Text, Bool-cases, ◌==◌, arith,
}
use lager_rs.Error.{Error, box}
use lager_rs.Wire.Compat.{
  requires, names_action, at_400, unknown_action_compat, is_refusal, action_compat,
}

wider_guard : (a b c d : Bool) → (a && b) ≡ true → (a && (b || c || d)) ≡ true
wider_guard a b c d h = ground arith

-- A message that names the action is a refusal at 400 for both readings.
refused :
    (status : ℕ) (message action : Text)
    → at_400 (names_action action) (box status message) ≡ true
    → at_400 (is_refusal action) (box status message) ≡ true
unfolding is_refusal
refused status message action h = wider_guard (status == 400) (names_action action message) _ _ h

-- What `unknown_action_compat` takes for an old box, `action_compat` does too.
pub action_compat-unknown_action_compat :
    (e : Error) (action since : Text)
    → unknown_action_compat e action since ≢ e
    → action_compat e action since ≡ requires action since
unfolding action_compat unknown_action_compat
action_compat-unknown_action_compat (box status message) action since h =
    elim (Bool-cases (at_400 (names_action action) (box status message))) [
      | inl named ↦ rw (refused status message action named)
      | inr unnamed ↦ absurd (h (rw unnamed))
    ]
action_compat-unknown_action_compat e action since h = absurd (h refl)
