-- ===== src/Admin/Ops/Typed.antt =====
-- The operations of admin.rs whose answer serde decodes into a record, the type `A`.
use lager_rs.Prelude.{ℕ, Bool, Option, none, some, ◌++◌, Text, Result, str, if◌then◌else◌}
use lager_rs.Json.{Value, object, string, end, insert}
use lager_rs.Codec.Percent.{path_segment, encode_query_value}
use lager_rs.Wire.Request.{get_method, post, put, delete}
use lager_rs.Http.{Codec, RawRequest}
use lager_rs.DebugNet.{number_of, set_some}
use lager_rs.Admin.{AdminOp, json_answer}
use lager_rs.Admin.Answers.{parse_as}
use lager_rs.Admin.Records.{NetMetadataUpdate, update_body, CableId, cable_body}
use lager_rs.Admin.Ops.{
  req, timed, drivers_path, text_or_null, unserved_net_metadata, unserved_box_metadata,
  unserved_instruments, unserved_drivers, unserved_binaries, unserved_custom_devices,
  unserved_diagnose,
}

module _ (codec : Codec) {A : Type 0} (from_value : Value → Result Text A) where
  abbrev pub typed : RawRequest → Text → AdminOp A
  typed req unsupported = record {
    req = req;
    parse = json_answer (parse_as from_value);
    unsupported = unsupported;
  }

  unfoldable pub net_metadata : Text → AdminOp A
  unfolding req parse_as path_segment
  net_metadata name =
      typed (req codec get_method (str "/nets/" ++ (path_segment name ++ str "/metadata")) none)
        unserved_net_metadata

  unfoldable pub set_net_metadata : Text → NetMetadataUpdate → AdminOp A
  unfolding req parse_as path_segment update_body
  set_net_metadata name update =
      typed
        (req codec put (str "/nets/" ++ (path_segment name ++ str "/metadata"))
          (some (update_body update)))
        unserved_net_metadata

  unfoldable pub box_metadata : AdminOp A
  unfolding req parse_as
  box_metadata = typed (req codec get_method (str "/box-metadata") none) unserved_box_metadata

  unfoldable pub set_box_metadata : Option Text → Option Text → AdminOp A
  unfolding req parse_as insert
  set_box_metadata description updated_at =
      typed
        (req codec put (str "/box-metadata") (
          some (
            object (
              insert (str "updated_at") (text_or_null updated_at)
                (insert (str "description") (text_or_null description) end)))))
        unserved_box_metadata

  unfoldable pub instruments : AdminOp A
  unfolding req parse_as
  instruments = typed (req codec get_method (str "/instruments/list") none) unserved_instruments

  unfoldable pub driver : Text → AdminOp A
  unfolding req parse_as path_segment
  driver driver_type = typed (req codec get_method (drivers_path driver_type) none) unserved_drivers

  unfoldable pub remove_driver : Text → Bool → AdminOp A
  unfolding req parse_as path_segment
  remove_driver driver_type force =
      typed
        (req codec delete (drivers_path driver_type ++ (if force then str "?force=1" else str ""))
          none)
        unserved_drivers

  unfoldable pub binaries : AdminOp A
  unfolding req parse_as
  binaries = typed (req codec get_method (str "/binaries/list") none) unserved_binaries

  unfoldable pub custom_devices : AdminOp A
  unfolding timed parse_as
  custom_devices =
      typed (timed codec get_method (str "/custom-devices/list") none 60) unserved_custom_devices

  unfoldable pub assign_custom_device : Text → CableId → Option ℕ → AdminOp A
  unfolding timed parse_as cable_body insert
  assign_custom_device instrument cable baud =
      typed
        (timed codec post (str "/custom-devices/assign")
          (some (
            object (
              set_some (str "baud") number_of baud
                (insert (str "instrument") (string instrument) (cable_body cable)))))
          60)
        unserved_custom_devices

  unfoldable pub remove_custom_device : CableId → AdminOp A
  unfolding req parse_as cable_body
  remove_custom_device cable =
      typed (req codec post (str "/custom-devices/remove") (some (object (cable_body cable))))
        unserved_custom_devices

  unfoldable pub diagnose : Text → Text → Text → ℕ → AdminOp A
  unfolding timed parse_as encode_query_value
  diagnose route key value secs =
      typed
        (timed codec get_method
          (str "/diagnose/"
            ++ (route ++ (str "?" ++ (key ++ (str "=" ++ encode_query_value value)))))
          none secs)
        unserved_diagnose

  unfoldable pub diagnose_usb : Text → AdminOp A
  unfolding diagnose
  diagnose_usb address = diagnose (str "usb") (str "address") address 15

  unfoldable pub diagnose_usbhub : Text → AdminOp A
  unfolding diagnose
  diagnose_usbhub address = diagnose (str "usbhub") (str "address") address 30

  unfoldable pub diagnose_visa : Text → AdminOp A
  unfolding diagnose
  diagnose_visa address = diagnose (str "visa") (str "address") address 15

  unfoldable pub diagnose_jlink : Text → AdminOp A
  unfolding diagnose
  diagnose_jlink net = diagnose (str "jlink") (str "net") net 60
