-- ===== src/Wire/Envelope/Commands.antt =====
-- When a command succeeds.
use lager_rs.Prelude.{
  ℕ, ◌≡◌, ◌∙◌, sym, ◌↔◌, true, ◌&&◌, some, Text, ok, err, inl, inr, Bool-cases, Option-cases, ◌==◌,
  ==_iff, str, ◌++◌, ap, arith,
}
use lager_rs.Json.{Value}
use lager_rs.Error.{Error, Res, decode}
use lager_rs.Wire.Envelope.{CommandResponse, read_envelope, failure, judge_response, parse_command}

abbrev handed : CommandResponse → Res CommandResponse
handed r = ok r

abbrev refused : Error → Res CommandResponse
refused e = err e

judge_response-ok :
    (status : ℕ) (q r : CommandResponse)
    → judge_response status q ≡ ok r
    → (q ≡ r) × (status ≡ 200) × (q.success ≡ true)
judge_response-ok status q r h = elim (Bool-cases (status == 200 && q.success)) [
  | inl good ↦
      let same : handed q ≡ ok r = rw good at h in
      (cc, (==_iff status 200).0 (ground arith), ground arith)
  | inr bad ↦ let clash : refused (failure status q) ≡ ok r = rw bad at h in absurd cc
]

module _ (problem : Value → Text) (status : ℕ) (body : Value) where
  of_success :
      (r : CommandResponse)
      → parse_command problem status body ≡ ok r
      → (read_envelope body ≡ some r) × (status ≡ 200) × (r.success ≡ true)
  unfolding parse_command
  of_success r h = elim (Option-cases (read_envelope body)) [
    | inl bad ↦
        let clash : refused (decode (str "invalid response envelope: " ++ problem body)) ≡ ok r =
          rw (bad, parse_command) at h in
        absurd cc
    | inr (q, read) ↦
        let (same, fine, success) = judge_response-ok status q r (rw (read, parse_command) at h) in
        (read ∙ ap some same, fine, ap (λ x. x.success) (sym same) ∙ success)
  ]

  to_success :
      (r : CommandResponse)
      → read_envelope body ≡ some r
      → status ≡ 200
      → r.success ≡ true
      → parse_command problem status body ≡ ok r
  unfolding parse_command
  to_success r read fine success = rw (read, parse_command) (rw fine (rw success))

  -- A command succeeds just when its answer is an envelope with status 200 that says so, and what
  -- is then handed over is that envelope.
  pub parse_command-ok :
      (r : CommandResponse)
      → (parse_command problem status body ≡ ok r)
        ↔ ((read_envelope body ≡ some r) × (status ≡ 200) × (r.success ≡ true))
  parse_command-ok r = (of_success r, λ (read, fine, success). to_success r read fine success)
