-- ===== src/Nets/Usb.antt =====
-- The operations of src/nets/usb.rs and the handle that runs them. `shown` is `{:?}` of a value, and
-- `problem` what serde says of a list that does not fit. `cycle_budget` gives the milliseconds of 30
-- seconds and an off time, and none where the code stops because they are no duration.
pub mod Handle
use lager_rs.Prelude.{
  ℕ, Bool, true, false, not, ◌&&◌, Option, none, some, List, [], ◌∷◌, ◌++◌, Text, Result, ok, err,
  str, text_eq, contains, leb, ◌==◌, ◌>>=?◌, if◌then◌else◌,
}
use lager_rs.Json.{
  Value, null, boolean, number, pos_int, string, object, array, Items, nil, cons, lookup, as_str,
  insert,
}
use lager_rs.Error.{Error, Res, box, decode, unsupported_by_box}
use lager_rs.Wire.Request.{HttpRequest, after, post_json, usb_command, entries}
use lager_rs.Wire.Envelope.{CommandResponse}
use lager_rs.Wire.Values.{shown_option, u32_max}
use lager_rs.Nets.Ops.{Op, unit, json_f64, insert_some}

pub data UsbCycleOutcome : Type 0 where
  reconnected not_reconnected no_device topology_unreadable : UsbCycleOutcome
  other : Text → UsbCycleOutcome

unfoldable pub parse_outcome : Text → UsbCycleOutcome
parse_outcome s =
    if text_eq s (str "reconnected")
    then reconnected
    else if text_eq s (str "not_reconnected")
    then not_reconnected
    else if text_eq s (str "no_device")
    then no_device
    else if text_eq s (str "topology_unreadable")
    then topology_unreadable
    else other s

pub record UsbCycleReport : Type 0 where
  pub was_reconnected : Option Bool
  pub outcome : Option UsbCycleOutcome
  pub message : Option Text

pub record UsbRecoverReport : Type 0 where
  pub ports : Option (List ℕ)
  pub message : Option Text

-- A 400 whose message passes the test is the refusal of an old box.
abbrev refused_at_400 : (Text → Bool) → Text → Error → Error
refused_at_400 test message (box status m) =
    if status == 400 && test m then unsupported_by_box message else box status m
refused_at_400 test message e = e

abbrev names_no_state : Text → Bool
names_no_state m = contains (str "(enable|disable|toggle)") m && not (contains (str "state") m)

abbrev names_no_cycle : Text → Bool
names_no_cycle m = contains (str "enable|disable|toggle") m && not (contains (str "cycle") m)

unfoldable pub state_compat : Error → Error
unfolding contains
state_compat e =
    refused_at_400 names_no_state
      (str
        "the 'state' action on /usb/command requires box software >= 0.29.0; update the box or use toggle/enable/disable")
      e

unfoldable pub cycle_compat : Error → Error
unfolding contains
cycle_compat e =
    refused_at_400 names_no_cycle
      (str
        "the 'cycle' and 'recover' actions on /usb/command require box software >= 0.39.0; update the box or sequence disable/enable yourself")
      e

-- `Vec<u32>` out of a JSON list
abbrev u32_items : Items → Option (List ℕ)
u32_items nil = some []
u32_items (cons (number (pos_int n)) vs) =
    u32_items vs >>=? λ ns. if leb n u32_max then some (n ∷ ns) else none
u32_items (cons v vs) = none

abbrev u32_list : Value → Option (List ℕ)
u32_list (array vs) = u32_items vs
u32_list _ = none

unfoldable pub usb_cycle : (Option ℕ → Option ℕ) → Text → Option ℕ → Option HttpRequest
unfolding insert json_f64
usb_cycle cycle_budget netname off_time = cycle_budget off_time >>=? λ ms. some (
    post_json (str "/usb/command")
      (object (
        insert_some (str "off_time") (off_time >>=? λ t. some (json_f64 t))
          (entries ((str "netname", string netname) ∷ (str "action", string (str "cycle")) ∷ []))))
      (after ms))

abbrev usb_op : {T : Type 0} → Text → Text → (CommandResponse → Res T) → Op T
usb_op name action parse = record { req = usb_command name action; parse = parse }

unfoldable pub enable : Text → Op Unit
unfolding usb_command insert unit
enable name = usb_op name (str "enable") unit

unfoldable pub disable : Text → Op Unit
unfolding usb_command insert unit
disable name = usb_op name (str "disable") unit

unfoldable pub recover : Text → Op Unit
unfolding usb_command insert unit
recover name = usb_op name (str "recover") unit

abbrev cycle_report_of :
    Res (Option Bool) → Option UsbCycleOutcome → Option Text → Res UsbCycleReport
cycle_report_of (err e) outcome message = err e
cycle_report_of (ok b) outcome message =
    ok (record { was_reconnected = b; outcome = outcome; message = message })

module _ (shown problem : Value → Text) where
  abbrev no_port_state : Option Value → Res Bool
  no_port_state o =
      err (decode (str "expected \"enabled\"/\"disabled\" state, got " ++ shown_option shown o))

  abbrev port_state : Option Value → Res Bool
  port_state (some (string s)) = ok (text_eq s (str "enabled"))
  port_state o = no_port_state o

  unfoldable pub parse_port_state : CommandResponse → Res Bool
  parse_port_state r = port_state r.state

  unfoldable pub toggle : Text → Op Bool
  unfolding usb_command insert parse_port_state
  toggle name = usb_op name (str "toggle") parse_port_state

  unfoldable pub state : Text → Op Bool
  unfolding usb_command insert parse_port_state
  state name = usb_op name (str "state") parse_port_state

  abbrev reconnected_of : Option Value → Res (Option Bool)
  reconnected_of none = ok none
  reconnected_of (some null) = ok none
  reconnected_of (some (boolean b)) = ok (some b)
  reconnected_of o =
      err (decode (str "expected boolean 'reconnected', got " ++ shown_option shown o))

  unfoldable pub parse_reconnected : CommandResponse → Res (Option Bool)
  unfolding lookup
  parse_reconnected r = reconnected_of (lookup (str "reconnected") r.extra)

  unfoldable pub parse_cycle_report : CommandResponse → Res UsbCycleReport
  unfolding lookup parse_reconnected parse_outcome
  parse_cycle_report r =
      cycle_report_of (parse_reconnected r)
        (lookup (str "outcome") r.extra >>=? as_str >>=? λ s. some (parse_outcome s)) r.message

  abbrev ports_of : Option Value → Res (Option (List ℕ))
  ports_of none = ok none
  ports_of (some null) = ok none
  ports_of (some v) = elim (u32_list v) [
    | none ↦ err (decode (str "invalid 'ports' in a recover response: " ++ problem v))
    | some ns ↦ ok (some ns)
  ]

  abbrev recover_report_of : Res (Option (List ℕ)) → Option Text → Res UsbRecoverReport
  recover_report_of (err e) message = err e
  recover_report_of (ok ports) message = ok (record { ports = ports; message = message })

  unfoldable pub parse_recover_report : CommandResponse → Res UsbRecoverReport
  unfolding lookup
  parse_recover_report r = recover_report_of (ports_of (lookup (str "ports") r.extra)) r.message

  unfoldable pub recover_report : Text → Op UsbRecoverReport
  unfolding usb_command insert parse_recover_report
  recover_report name = usb_op name (str "recover") parse_recover_report

  module _ (cycle_budget : Option ℕ → Option ℕ) where
    abbrev cycle_op : {T : Type 0} → (CommandResponse → Res T) → Text → Option ℕ → Option (Op T)
    cycle_op parse name off_time =
        usb_cycle cycle_budget name off_time >>=? λ req. some (record { req = req; parse = parse })

    unfoldable pub cycle : Text → Option ℕ → Option (Op (Option Bool))
    unfolding usb_cycle parse_reconnected
    cycle name off_time = cycle_op parse_reconnected name off_time

    unfoldable pub cycle_report : Text → Option ℕ → Option (Op UsbCycleReport)
    unfolding usb_cycle parse_cycle_report
    cycle_report name off_time = cycle_op parse_cycle_report name off_time
