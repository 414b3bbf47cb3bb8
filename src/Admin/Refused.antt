-- ===== src/Admin/Refused.antt =====
-- When an operation fails, from the answer of the box.
use lager_rs.Prelude.{ℕ, ◌≡◌, refl, ap, false, List, Text, Bytes, Result, ok, err, ◌>>=◌}
use lager_rs.Json.{Value}
use lager_rs.Error.{Error, Res}
use lager_rs.Http.{Codec}
use lager_rs.Client.Http.{bare_error}
use lager_rs.Admin.{Parse, json_answer, bytes_answer, complete, read_json, unreadable}
use lager_rs.Admin.Answers.{
  is_success, accepted, refusal, reason, parse_unit, parse_as, parse_manifest, parse_drivers,
  parse_packages, parse_file, BenchManifest, DriverList, Packages,
}

-- The readings that the operations use
pub data IsReading (codec : Codec) : (T : Type 0) → Parse T → Type 1 where
  unit_reading : IsReading codec Unit (json_answer parse_unit)
  typed_reading :
      {A : Type 0} (f : Value → Result Text A) → IsReading codec A (json_answer (parse_as f))
  manifest_reading : IsReading codec BenchManifest (json_answer parse_manifest)
  drivers_reading :
      {A : Type 0} (f : Value → Result Text (DriverList A))
      → IsReading codec (List A) (json_answer (parse_drivers f))
  packages_reading :
      (f : Value → Result Text Packages)
      → IsReading codec (List Text) (json_answer (parse_packages f))
  file_reading : IsReading codec Bytes (bytes_answer (parse_file codec))

-- A reading takes no answer but one of success.
abbrev Strict : {T : Type 0} → (ℕ → Value → Res T) → Type 0
Strict {T} parse =
    (status : ℕ) (body : Value)
    → is_success status ≡ false
    → parse status body ≡ err (refusal status body)

abbrev Refuses : {T : Type 0} → ℕ → Value → Res T → Type 0
Refuses status body r = is_success status ≡ false → r ≡ err (refusal status body)

accepted-Refuses : (status : ℕ) (body : Value) → Refuses status body (accepted status body)
unfolding accepted
accepted-Refuses status body h = rw h refl

then-Refuses :
    {A B : Type 0} (f : A → Res B) (status : ℕ) (body : Value) (r : Res A)
    → Refuses status body r
    → Refuses status body (r >>= f)
then-Refuses f status body r refused h = ap (λ q. q >>= f) (refused h)

-- The error of a reading for an answer that is no success
abbrev pub failed_with : {T : Type 0} → Parse T → ℕ → Result Text Value → Error
failed_with p status (ok body) = refusal status body
failed_with (json_answer parse) status (err e) = unreadable status e
failed_with (bytes_answer parse) status (err e) = bare_error status

read_json-failed :
    {T : Type 0} (parse : ℕ → Value → Res T) (status : ℕ) (r : Result Text Value)
    → Strict parse
    → is_success status ≡ false
    → read_json parse status r ≡ err (failed_with (json_answer parse) status r)
read_json-failed parse status (ok body) strict h = strict status body h
read_json-failed parse status (err e) strict h = refl

parse_as-Strict : {A : Type 0} (f : Value → Result Text A) → Strict (parse_as f)
unfolding parse_as
parse_as-Strict f status body = then-Refuses _ status body _ (accepted-Refuses status body)

file_failed :
    (parse : ℕ → Bytes → Res Bytes) (status : ℕ) (r : Result Text Value)
    → reason status r ≡ failed_with (bytes_answer parse) status r
file_failed parse status (ok body) = refl
file_failed parse status (err e) = refl

module _ (codec : Codec) where
  pub complete-failed :
      {T : Type 0} {p : Parse T} (reading : IsReading codec T p) (status : ℕ) (bytes : Bytes)
      → is_success status ≡ false
      → complete codec p status bytes ≡ err (failed_with p status (codec.from_slice bytes))
  unfolding complete parse_unit parse_manifest parse_drivers parse_packages parse_file
  complete-failed unit_reading status bytes h =
      read_json-failed parse_unit status (codec.from_slice bytes)
        (λ st body. then-Refuses _ st body _ (accepted-Refuses st body)) h
  complete-failed (typed_reading f) status bytes h =
      read_json-failed (parse_as f) status (codec.from_slice bytes) (parse_as-Strict f) h
  complete-failed manifest_reading status bytes h =
      read_json-failed parse_manifest status (codec.from_slice bytes)
        (λ st body. then-Refuses _ st body _ (accepted-Refuses st body)) h
  complete-failed (drivers_reading f) status bytes h =
      read_json-failed (parse_drivers f) status (codec.from_slice bytes)
        (λ st body. then-Refuses _ st body _ (parse_as-Strict f st body)) h
  complete-failed (packages_reading f) status bytes h =
      read_json-failed (parse_packages f) status (codec.from_slice bytes)
        (λ st body. then-Refuses _ st body _ (parse_as-Strict f st body)) h
  complete-failed file_reading status bytes h =
      rw h (ap err (file_failed (parse_file codec) status (codec.from_slice bytes)))
