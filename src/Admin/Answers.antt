-- ===== src/Admin/Answers.antt =====
-- How the operations of admin.rs read an answer. `from_value` is serde's decoding of a body into the
-- type of the answer, with its text where the body does not fit.
use lager_rs.Prelude.{
  ℕ, Bool, ◌&&◌, Option, none, some, List, ◌++◌, Text, Bytes, Result, ok, err, ◌>>=◌, ◌>>=?◌, str,
  decimal, leb, ltb, ◌==◌, if◌then◌else◌,
}
use lager_rs.Json.{Value, Fields, get, as_str, as_object}
use lager_rs.Error.{Error, Res, box, unsupported_by_box, decode}
use lager_rs.Http.{Codec}
use lager_rs.Client.Http.{bare_error}

abbrev pub message_of : ℕ → Option Text → Text
message_of status (some message) = message
message_of status none = str "HTTP " ++ decimal status

unfoldable pub refusal : ℕ → Value → Error
refusal status body =
    let message : Text = message_of status (get (str "error") body >>=? as_str) in
    if status == 501 then unsupported_by_box message else box status message

-- `(200..300).contains(&status)`
abbrev pub is_success : ℕ → Bool
is_success status = leb 200 status && ltb status 300

-- `ok` of the module `ops`
unfoldable pub accepted : ℕ → Value → Res Value
unfolding refusal
accepted status body = if is_success status then ok body else err (refusal status body)

abbrev pub dropped : Value → Res Unit
dropped body = ok tt

unfoldable pub parse_unit : ℕ → Value → Res Unit
unfolding accepted
parse_unit status body = accepted status body >>= dropped

abbrev pub shape : {A : Type 0} → Result Text A → Res A
shape (ok a) = ok a
shape (err e) = err (decode (str "unexpected response shape: " ++ e))

unfoldable pub parse_as : {A : Type 0} → (Value → Result Text A) → ℕ → Value → Res A
unfolding accepted
parse_as from_value status body = accepted status body >>= λ v. shape (from_value v)

pub record BenchManifest : Type 0 where
  pub document : Value

abbrev pub document_of : Value → Option Fields → Res BenchManifest
document_of document none = err (decode (str "bench manifest is not a JSON object"))
document_of document (some m) = ok (record { document = document })

unfoldable pub parse_manifest : ℕ → Value → Res BenchManifest
unfolding accepted
parse_manifest status body =
    accepted status body >>= λ document. document_of document (as_object document)

unfoldable pub schema_version : BenchManifest → Option Value
schema_version m = get (str "schema_version") m.document

unfoldable pub box_id : BenchManifest → Option Text
box_id m = get (str "box_id") m.document >>=? as_str

pub record DriverList (A : Type 0) : Type 0 where
  pub drivers : List A

abbrev pub drivers_in : {A : Type 0} → DriverList A → Res (List A)
drivers_in list = ok list.drivers

unfoldable pub parse_drivers :
    {A : Type 0} → (Value → Result Text (DriverList A)) → ℕ → Value → Res (List A)
unfolding parse_as
parse_drivers from_value status body = parse_as from_value status body >>= drivers_in

pub record Packages : Type 0 where
  pub packages : List Text

abbrev pub packages_in : Packages → Res (List Text)
packages_in p = ok p.packages

unfoldable pub parse_packages : (Value → Result Text Packages) → ℕ → Value → Res (List Text)
unfolding parse_as
parse_packages from_value status body = parse_as from_value status body >>= packages_in

-- Why an answer is no success, from its bytes read as JSON
abbrev pub reason : ℕ → Result Text Value → Error
reason status (ok body) = refusal status body
reason status (err e) = bare_error status

unfoldable pub parse_file : Codec → ℕ → Bytes → Res Bytes
unfolding refusal
parse_file codec status bytes =
    if is_success status then ok bytes else err (reason status (codec.from_slice bytes))
