-- ===== src/Wire/Compat.antt =====
-- How wire.rs reads the refusals of a box that is too old.
pub mod Refusals
use lager_rs.Prelude.{
  ℕ, Bool, true, false, not, ◌&&◌, ◌||◌, Option, none, some, ◌++◌, Text, str, text_eq, any,
  contains, split, split_once, strip_prefix, trim_end_by, is_whitespace, ◌==◌, if◌then◌else◌,
  ◌>>=?◌,
}
use lager_rs.Error.{Error, box, unsupported_by_box}

abbrev pub requires : Text → Text → Error
requires action since =
    unsupported_by_box (str "the '" ++ (action ++ (str "' action requires box software " ++ since)))

abbrev pub names_action : Text → Text → Bool
names_action action message = contains (str "Unknown action '" ++ (action ++ str "'")) message

abbrev pub at_400 : (Text → Bool) → Error → Bool
at_400 test (box status message) = status == 400 && test message
at_400 test _ = false

unfoldable pub unknown_action_compat : Error → Text → Text → Error
unfolding contains
unknown_action_compat e action since =
    if at_400 (names_action action) e then requires action since else e

-- `action (a|b|...) is required`, with a list that leaves the action out
abbrev pub lists_others : Text → Text → Bool
lists_others action message =
    elim (strip_prefix (str "action (") message >>=? split_once (str ") is required")) [
      | none ↦ false
      | some p ↦ not (any (text_eq action) (split b'|' p.0))
    ]

unfoldable pub is_refusal : Text → Text → Bool
unfolding contains split split_once
is_refusal action message =
    names_action action message
    || text_eq (trim_end_by is_whitespace message) (str "Unknown action: " ++ action)
    || lists_others action message

unfoldable pub action_compat : Error → Text → Text → Error
unfolding is_refusal
action_compat e action since = if at_400 (is_refusal action) e then requires action since else e

abbrev pub is_not_found : Text → Bool
is_not_found message = text_eq message (str "Not found") || contains (str "non-JSON") message

unfoldable pub is_route_missing : Error → Bool
unfolding contains
is_route_missing (box status message) = (status == 404 || status == 405) && is_not_found message
is_route_missing _ = false

unfoldable pub map_route_missing : Error → Error → Error
unfolding is_route_missing
map_route_missing e unsupported = if is_route_missing e then unsupported else e

abbrev pub usb_devices_unsupported : Error
usb_devices_unsupported =
    unsupported_by_box
      (str "this box does not serve GET /usb/devices (requires box software >= 0.33.0)")

abbrev pub dfu_unsupported : Error
dfu_unsupported =
    unsupported_by_box
      (str "this box does not serve POST /usb/dfu (requires box software >= 0.33.0)")

abbrev pub lock_unsupported : Error
lock_unsupported =
    unsupported_by_box
      (str "this box does not serve the /lock endpoints on port 9000; update the box software")

abbrev pub safety_limits_unsupported : Error
safety_limits_unsupported =
    unsupported_by_box (
      str
        "this box does not serve PUT /nets/<name>/safety-limits (requires box software >= 0.35.0)")

abbrev pub nets_state_unsupported : Error
nets_state_unsupported =
    unsupported_by_box
      (str "this box does not serve GET /nets/state (requires box software >= 0.34.0)")

abbrev pub uart_sessions_unsupported : Error
uart_sessions_unsupported =
    unsupported_by_box
      (str "this box does not serve /uart/sessions (requires box software >= 0.46.0)")
