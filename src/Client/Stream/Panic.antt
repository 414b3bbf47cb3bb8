-- ===== src/Client/Stream/Panic.antt =====
-- The `unwrap_err` of `stream_debug_once` always finds an error.
use lager_rs.Prelude.{
  ℕ, ◌++◌, ◌≡◌, ◌≢◌, inl, inr, false, Option, none, some, Text, Result, ok, err, ltb, Bool-cases,
  arith,
}
use lager_rs.Json.{Value}
use lager_rs.Error.{Res}
use lager_rs.Wire.Request.{HttpRequest, post}
use lager_rs.Wire.Debug.{parse_debug}
use lager_rs.Http.{Failure, Reply, Codec, gateway_denial}
use lager_rs.Client.{Client, Services}
use lager_rs.Client.Http.{BodyError, Ureq, exchange, with_body, open_request}
use lager_rs.Client.Stream.{
  panicked, unwrapped, refuse, error_body, judge_stream_reply, judge_outcome, hand_framed,
  stream_debug_once,
}

parse_debug-refuses :
    (status : ℕ) (v : Value)
    → ltb status 400 ≡ false
    → unwrapped (parse_debug status v) ≢ ok panicked
unfolding parse_debug
parse_debug-refuses status v h k = ground arith

module _ {D N : Type 0} (s : Services D) (codec : Codec) (http : Ureq N) where
  refuse-fails :
      (r : Reply BodyError) (token url : Option Text) (c : Client D N)
      → ltb r.status 400 ≡ false
      → (refuse s codec http r token url c).0 ≢ ok panicked
  refuse-fails r token none c h k = parse_debug-refuses r.status (error_body codec r.body) h k
  refuse-fails r token (some url) c h k = cc

  judge_stream_reply-runs :
      (token : Option Text) (r : Reply BodyError) (c : Client D N)
      → (judge_stream_reply s codec http token r c).0 ≢ ok panicked
  judge_stream_reply-runs token r c = elim (Bool-cases (ltb r.status 400)) [
    | inl good ↦
        rw good
          (elim (Bool-cases (hand_framed r)) [ inl f ↦ rw f (λ k. cc) | inr p ↦ rw p (λ k. cc) ])
    | inr bad ↦ rw bad (refuse-fails r token (gateway_denial r) c bad)
  ]

  judge_outcome-runs :
      (token : Option Text) (c : Client D N) (p : Res (Result Failure (Reply BodyError)) × N)
      → (judge_outcome s codec http token c p).0 ≢ ok panicked
  judge_outcome-runs token c (err e, n) k = cc
  judge_outcome-runs token c (ok (err e), n) k = cc
  judge_outcome-runs token c (ok (ok r), n) k =
      judge_stream_reply-runs token r (record c { network = n }) k

  -- Whatever the debug service answers, opening one of its streams does not end the program.
  pub stream_debug_once-runs :
      (debug_base : Text) (default_timeout : ℕ) (req : HttpRequest) (token : Option Text)
      (c : Client D N)
      → (stream_debug_once s codec http debug_base default_timeout req token c).0 ≢ ok panicked
  unfolding stream_debug_once
  stream_debug_once-runs debug_base default_timeout req token c = judge_outcome-runs token c (
      exchange codec http default_timeout
        (with_body codec http default_timeout post
          (open_request post (debug_base ++ req.path) token) req.body)
        req.timeout c.network)
