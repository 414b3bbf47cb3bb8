-- ===== src/Http.antt =====
-- The requests and answers that the clients exchange with the HTTP libraries, which are parameters.
use lager_rs.Prelude.{
  ℕ, Bool, true, false, Option, none, some, ◌++◌, Text, Bytes, Result, ok, err, str,
}
use lager_rs.Json.{Value}
use lager_rs.Auth.Denial.{is_denial}
use lager_rs.Wire.Request.{
  Method, get_method, post, put, delete, Timeout, default, after, unbounded,
}

-- A request as it is handed to the library: `authorization` and `content_type` are headers.
pub record Call : Type 0 where
  pub method : Text
  pub uri : Text
  pub authorization : Option Text
  pub content_type : Option Text
  pub body : Option Bytes

-- An error of the library: its text, and whether it is the library's timeout.
pub record Failure : Type 0 where
  pub message : Text
  pub is_timeout : Bool

-- An answer, with the two headers that are looked at where they are text. `body` is what reading it
-- to its end gives, `E` its errors.
pub record Reply (E : Type 0) : Type 0 where
  pub status : ℕ
  pub discovery : Option Text
  pub transfer_encoding : Option Text
  pub is_http_10 : Bool
  pub body : Result E Bytes

-- serde_json on bytes
pub record Codec : Type 0 where
  pub to_vec : Value → Result Text Bytes
  pub from_slice : Bytes → Result Text Value

-- `RawBody` and `RawRequest` of wire.rs
pub record RawBody : Type 0 where
  pub content_type : Text
  pub bytes : Bytes

pub record RawRequest : Type 0 where
  pub method : Method
  pub path : Text
  pub body : Option RawBody
  pub timeout : Timeout

abbrev pub or_empty : Result Text Bytes → Bytes
or_empty (ok b) = b
or_empty (err e) = str ""

-- `RawBody::json`
unfoldable pub json_body : Codec → Value → RawBody
json_body codec v = record {
  content_type = str "application/json";
  bytes = or_empty (codec.to_vec v);
}

abbrev pub verb : Method → Text
verb get_method = str "GET"
verb post = str "POST"
verb put = str "PUT"
verb delete = str "DELETE"

abbrev pub bearer : Option Text → Option Text
bearer none = none
bearer (some token) = some (str "Bearer " ++ token)

abbrev pub only_if : {A : Type 0} → Bool → Option A → Option A
only_if true o = o
only_if false o = none

unfoldable pub gateway_denial : {E : Type 0} → Reply E → Option Text
unfolding is_denial
gateway_denial r = only_if (is_denial r.status) r.discovery

-- How long to wait for an answer, `none` without end
abbrev pub limit : ℕ → Timeout → Option ℕ
limit default_timeout default = some default_timeout
limit default_timeout (after ms) = some ms
limit default_timeout unbounded = none
