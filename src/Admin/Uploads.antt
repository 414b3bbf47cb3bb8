-- ===== src/Admin/Uploads.antt =====
-- The uploads of admin.rs, `install_driver` and `add_binary`, with so many turns of the search for
-- a boundary, and what a box that reads their bodies finds.
use lager_rs.Prelude.{
  ℕ, ◌+◌, ◌<◌, ◌≤◌, ◌≡◌, refl, Option, none, some, List, [], ◌∷◌, ◌++◌, Text, Bytes, Result, str,
  utf8, ◌^◌, ◌>>=?◌,
}
use lager_rs.Json.{Value}
use lager_rs.Codec.Percent.{path_segment}
use lager_rs.Wire.Request.{Method, post, put, after}
use lager_rs.Wire.Multipart.{FormPart, multipart}
use lager_rs.Wire.Multipart.Boundary.{total}
use lager_rs.Wire.Multipart.RoundTrip.{ReadsAs, multipart-ReadsAs}
use lager_rs.Http.{RawBody, RawRequest}
use lager_rs.Admin.{AdminOp, json_answer}
use lager_rs.Admin.Answers.{parse_as}
use lager_rs.Admin.Ops.{pip_budget, drivers_path, unserved_drivers, unserved_binaries}

abbrev pub upload_budget : ℕ
upload_budget = 120000

unfoldable pub upload : Method → Text → RawBody → ℕ → RawRequest
upload method path body ms = record {
  method = method;
  path = path;
  body = some body;
  timeout = after ms;
}

abbrev pub bundle_parts : Text → Bytes → List FormPart
bundle_parts driver_type bundle =
    record {
      name = str "bundle";
      filename = some (driver_type ++ str ".zip");
      content_type = some (str "application/zip");
      contents = bundle;
    }
    ∷ []

abbrev pub binary_parts : Text → Bytes → List FormPart
binary_parts name contents =
    record {
      name = str "binary";
      filename = some name;
      content_type = some (str "application/octet-stream");
      contents = contents;
    }
    ∷ record { name = str "name"; filename = none; content_type = none; contents = utf8 name }
    ∷ []

module _ {A : Type 0} (from_value : Value → Result Text A) (turns : ℕ) where
  abbrev pub install_of : Text → RawBody → AdminOp A
  install_of driver_type body = record {
    req = upload put (drivers_path driver_type) body pip_budget;
    parse = json_answer (parse_as from_value);
    unsupported = unserved_drivers;
  }

  unfoldable pub install_driver : Text → Bytes → Option (AdminOp A)
  unfolding upload parse_as path_segment multipart
  install_driver driver_type bundle = multipart turns (bundle_parts driver_type bundle) >>=? λ body.
      some (install_of driver_type body)

  abbrev pub add_of : RawBody → AdminOp A
  add_of body = record {
    req = upload post (str "/binaries/add") body upload_budget;
    parse = json_answer (parse_as from_value);
    unsupported = unserved_binaries;
  }

  unfoldable pub add_binary : Text → Bytes → Option (AdminOp A)
  unfolding upload parse_as multipart
  add_binary name contents =
      multipart turns (binary_parts name contents) >>=? λ body. some (add_of body)

  -- The operation is there, and its request has a body that is read as these parts.
  abbrev pub Sends : Option (AdminOp A) → List FormPart → Type 0
  Sends o parts =
      (op : AdminOp A) × (o ≡ some op)
      × ((body : RawBody) × (op.req.body ≡ some body) × ReadsAs parts body)

  pub install_driver-Sends :
      (driver_type : Text) (bundle : Bytes)
      → total (bundle_parts driver_type bundle) + 10 ^ 9 < 2 ^ 32
      → 2 ^ 32 ≤ turns
      → Sends (install_driver driver_type bundle) (bundle_parts driver_type bundle)
  unfolding install_driver upload
  install_driver-Sends driver_type bundle few enough =
      let (body, made, reads) =
        multipart-ReadsAs turns (bundle_parts driver_type bundle) (refl, tt) few enough in
      (install_of driver_type body, rw made refl, (body, refl, reads))

  -- A file is sent under its name, whatever its bytes: the request of an upload is there, and its
  -- body, split at its boundary, has the file's bytes in the part of the file and the name in that of
  -- the name. Both have less than 2 ^ 32 - 10 ^ 9 bytes, and the loop has 2 ^ 32 turns or more.
  pub add_binary-Sends :
      (name : Text) (contents : Bytes)
      → total (binary_parts name contents) + 10 ^ 9 < 2 ^ 32
      → 2 ^ 32 ≤ turns
      → Sends (add_binary name contents) (binary_parts name contents)
  unfolding add_binary upload
  add_binary-Sends name contents few enough =
      let (body, made, reads) =
        multipart-ReadsAs turns (binary_parts name contents) (refl, (tt, tt)) few enough in
      (add_of body, rw made refl, (body, refl, reads))
