-- ===== src/Admin.antt =====
-- admin.rs: setting up and managing a box. An operation is a request and the reading of its answer,
-- and both clients run it on their `execute_raw`. `codec` is serde_json.
pub mod Answers
pub mod Records
pub mod Ops
pub mod Uploads
pub mod Refused
pub mod Told
pub mod Delivered
pub mod OwnFields
pub mod Saving
pub mod Agree
mod Tests
use lager_rs.Prelude.{ℕ, ◌++◌, Text, Bytes, Result, ok, err, str, ltb, if◌then◌else◌}
use lager_rs.Json.{Value}
use lager_rs.Error.{Error, Res, unsupported_by_box, decode}
use lager_rs.Action.{Action, and_then, give, map_result, on_error}
use lager_rs.Wire.Compat.{is_route_missing}
use lager_rs.Http.{Codec, RawRequest}
use lager_rs.Client.Http.{bare_error}

pub data Parse (T : Type 0) : Type 0 where
  json_answer : (ℕ → Value → Res T) → Parse T
  bytes_answer : (ℕ → Bytes → Res T) → Parse T

pub record AdminOp (T : Type 0) : Type 0 where
  pub req : RawRequest
  pub parse : Parse T
  pub unsupported : Text

unfoldable pub route_missing : Error → Text → Error
unfolding is_route_missing
route_missing e unsupported = if is_route_missing e then unsupported_by_box unsupported else e

abbrev pub unreadable : ℕ → Text → Error
unreadable status e =
    if ltb status 400 then decode (str "non-JSON response: " ++ e) else bare_error status

abbrev pub read_json : {T : Type 0} → (ℕ → Value → Res T) → ℕ → Result Text Value → Res T
read_json parse status (ok body) = parse status body
read_json parse status (err e) = err (unreadable status e)

module _ (codec : Codec) where
  unfoldable pub complete : {T : Type 0} → Parse T → ℕ → Bytes → Res T
  complete (json_answer parse) status bytes = read_json parse status (codec.from_slice bytes)
  complete (bytes_answer parse) status bytes = parse status bytes

  module _ {S : Type 0} (execute_raw : RawRequest → Action S (ℕ × Bytes)) where
    unfoldable pub run_admin : {T : Type 0} → AdminOp T → Action S T
    unfolding complete route_missing
    run_admin op =
        map_result (on_error (λ e. route_missing e op.unsupported))
          (λ s. and_then (execute_raw op.req s) (λ p. give (complete op.parse p.0 p.1)))
