-- ===== src/Wire/Tests.antt =====
-- Answers of a box on concrete data, and instances of the theorems on them.
use lager_rs.Prelude.{
  ℕ, ◌≡◌, ◌≢◌, sym, ◌∙◌, refl, true, false, none, some, List, [], ◌∷◌, Text, str, ok, err, utf8,
  ◌^◌, map, arith, contains, split, split_once, rsplit_once,
}
use lager_rs.Json.{Value, Fields, boolean, string, object, end, field, lookup}
use lager_rs.Error.{Error, box, unsupported_by_box}
use lager_rs.Codec.Percent.{path_segment}
use lager_rs.Codec.Percent.RoundTrip.{percent_decode}
use lager_rs.Wire.Request.{release_uart_session}
use lager_rs.Wire.Request.Paths.{release_uart_session-path}
use lager_rs.Wire.Envelope.{CommandResponse, read_envelope, failure, parse_command}
use lager_rs.Wire.Envelope.Failures.{Reports, parse_command-failure}
use lager_rs.Wire.Compat.{requires, action_compat, unknown_action_compat, is_refusal}
use lager_rs.Http.{RawBody}
use lager_rs.Wire.Multipart.{FormPart, multipart, disposition, quote}
use lager_rs.Wire.Multipart.RoundTrip.{ReadsAs, multipart-ReadsAs}
use lager_rs.Wire.Multipart.Reader.{as_read}
use lager_rs.Wire.Debug.{FlashReport, parse_flash, output_lines}
use lager_rs.Wire.Debug.Errors.{programmed, parse_flash-ok}

abbrev silent : Value → Text
silent v = []

abbrev one_line : Text → List Text
one_line t = t ∷ []

abbrev conflict_fields : Fields
conflict_fields =
    field (str "error") (string (str "in use")) (field (str "success") (boolean false) end)

abbrev conflict : Value
conflict = object conflict_fields

abbrev conflict_envelope : CommandResponse
conflict_envelope = record {
  success = false;
  action = none;
  message = none;
  value = none;
  state = none;
  error = some (str "in use");
  extra = end;
}

read_conflict : read_envelope conflict ≡ some conflict_envelope
unfolding read_envelope lookup
read_conflict = refl

-- A refusal with status 200 is an error of the box.
conflict_at_200 : parse_command silent 200 conflict ≡ err (box 200 (str "in use"))
unfolding parse_command read_envelope lookup failure
conflict_at_200 = refl

-- A box of the first kind words an unknown action with a colon.
colon_refusal :
    action_compat (box 400 (str "Unknown action: set_esr")) (str "set_esr") (str ">= 0.62.0")
    ≡ requires (str "set_esr") (str ">= 0.62.0")
unfolding action_compat is_refusal contains split split_once
colon_refusal = refl

other_action :
    action_compat (box 400 (str "action (scan|connect) is required")) (str "scan") (str ">= 0.62.0")
    ≡ box 400 (str "action (scan|connect) is required")
unfolding action_compat is_refusal contains split split_once
other_action = refl

abbrev ok_status : ℕ
ok_status = 200

parse_command-failure_example :
    (e : Error) × (parse_command silent 200 conflict ≡ err e) × Reports 200 conflict_fields e
unfolding lookup
parse_command-failure_example =
    parse_command-failure silent 200 conflict_fields conflict_envelope read_conflict refl

release_uart_session-path_example :
    (rsplit_once b'/' (release_uart_session (str "a/b")).path
      ≡ some (str "/uart/sessions", path_segment (str "a/b")))
    × (percent_decode (path_segment (str "a/b")) ≡ some (utf8 (str "a/b")))
release_uart_session-path_example = release_uart_session-path (str "a/b") refl

abbrev old_refusal : Error
old_refusal = box 400 (str "Unknown action 'enable' for eload")

old_refusal_read :
    unknown_action_compat old_refusal (str "enable") (str ">= 0.62.0")
    ≡ requires (str "enable") (str ">= 0.62.0")
unfolding unknown_action_compat contains
old_refusal_read = refl

box≢unsupported : (s : ℕ) (m t : Text) → unsupported_by_box t ≢ box s m
box≢unsupported s m t h = cc

old_refusal_changed :
    unknown_action_compat old_refusal (str "enable") (str ">= 0.62.0") ≢ old_refusal
old_refusal_changed h = box≢unsupported 400 _ _ (sym old_refusal_read ∙ h)

abbrev flashed : Value
flashed =
    object (field (str "output") (string (str "ok")) (field (str "programmed") (boolean true) end))

abbrev flash_report : FlashReport
flash_report = record { output = str "ok" ∷ []; backend = none; programmed = some true }

flashed_ok : parse_flash silent one_line flashed ≡ ok flash_report
unfolding parse_flash output_lines lookup
flashed_ok = refl

parse_flash-ok_example :
    (some true ≡ programmed flashed)
    × (some true ≢ some false)
    × (str "ok" ∷ [] ≡ output_lines silent one_line flashed)
parse_flash-ok_example = parse_flash-ok silent one_line flashed flash_report flashed_ok

-- An upload that holds the first candidate for its boundary
abbrev upload : List FormPart
upload =
    record {
      name = str "bundle";
      filename = some (str "pump.zip");
      content_type = some (str "application/zip");
      contents = str "lager-net-boundary-0";
    }
    ∷ []

upload_parts :
    map as_read upload
    ≡ (
      str "Content-Disposition: form-data; name=\"bundle\"; filename=\"pump.zip\""
          ∷ str "Content-Type: application/zip"
          ∷ [],
      str "lager-net-boundary-0",
    )
      ∷ []
unfolding disposition quote utf8
upload_parts = refl

multipart-ReadsAs_example :
    (body : RawBody) × (multipart (2 ^ 32) upload ≡ some body) × ReadsAs upload body
multipart-ReadsAs_example = multipart-ReadsAs (2 ^ 32) upload (refl, tt) (omega arith) (omega arith)
