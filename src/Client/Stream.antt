-- ===== src/Client/Stream.antt =====
-- `stream_debug_once` of client.rs, on the blocking client's HTTP library.
pub mod Panic
use lager_rs.Prelude.{
  ℕ, Bool, true, false, ◌&&◌, Option, none, some, ◌++◌, Text, Bytes, Result, ok, err, str, is_some,
  eq_ignore_ascii_case, trim, ltb, if◌then◌else◌,
}
use lager_rs.Json.{Value, null}
use lager_rs.Error.{Error, Res, connection}
use lager_rs.Auth.Denial.{denial_error}
use lager_rs.Wire.Request.{Method, post, HttpRequest}
use lager_rs.Wire.Debug.{parse_debug}
use lager_rs.Http.{Failure, Reply, Codec, gateway_denial}
use lager_rs.Client.{Client, Services, learn}
use lager_rs.Client.Http.{BodyError, Ureq, open_request, with_body, exchange}

-- The body of an answer, to be read on, with and without the framing that the client takes off, or
-- the end of the program.
pub data Opened : Type 0 where
  framed plain : Reply BodyError → Opened
  panicked : Opened

abbrev pub is_chunked : Option Text → Bool
is_chunked none = false
is_chunked (some te) = eq_ignore_ascii_case (trim te) (str "chunked")

unfoldable pub hand_framed : Reply BodyError → Bool
unfolding trim
hand_framed r = r.is_http_10 && is_chunked r.transfer_encoding

abbrev pub error_body : Codec → Result BodyError Bytes → Value
error_body codec (err e) = null
error_body codec (ok bytes) = elim (codec.from_slice bytes) [ ok v ↦ v | err e ↦ null ]

-- `unwrap_err`
abbrev pub unwrapped : Res Value → Res Opened
unwrapped (err e) = err e
unwrapped (ok v) = ok panicked

module _ {D N : Type 0} (s : Services D) (codec : Codec) (http : Ureq N) where
  abbrev pub refuse :
      Reply BodyError → Option Text → Option Text → Client D N → Res Opened × Client D N
  refuse r token none c = (unwrapped (parse_debug r.status (error_body codec r.body)), c)
  refuse r token (some url) c =
      let c' = learn s url c in
      (err (denial_error r.status c'.auth.box_host url (is_some token)), c')

  abbrev pub accept : Reply BodyError → Opened
  accept r = if hand_framed r then framed r else plain r

  abbrev pub judge_stream_reply :
      Option Text → Reply BodyError → Client D N → Res Opened × Client D N
  judge_stream_reply token r c =
      if ltb r.status 400 then (ok (accept r), c) else refuse r token (gateway_denial r) c

  abbrev pub judge_outcome :
      Option Text
      → Client D N
      → Res (Result Failure (Reply BodyError)) × N
      → Res Opened × Client D N
  judge_outcome token c (err e, n) = (err e, record c { network = n })
  judge_outcome token c (ok (err e), n) = (err (connection e.message), record c { network = n })
  judge_outcome token c (ok (ok r), n) = judge_stream_reply token r (record c { network = n })

  unfoldable pub stream_debug_once :
      Text → ℕ → HttpRequest → Option Text → Client D N → Res Opened × Client D N
  unfolding open_request parse_debug learn denial_error gateway_denial hand_framed
  stream_debug_once debug_base default_timeout req token c = judge_outcome token c (
      exchange codec http default_timeout
        (with_body codec http default_timeout post
          (open_request post (debug_base ++ req.path) token) req.body)
        req.timeout c.network)
