-- ===== src/ScopeTrace/Streaming.antt =====
-- The capture that a socket gives is the one that the box acknowledged.
-- stream gives returns its credit.
use lager_rs.Prelude.{
  ℕ, ◌≡◌, ap, ◌∙◌, Bool, true, false, Option, none, some, List, [], ◌∷◌, Text, Result, ok, err, leb,
  Bool-cases, inl, inr, str, ◌>>=?◌, if◌then◌else◌,
}
use lager_rs.Json.{Value, get}
use lager_rs.Error.{Error}
use lager_rs.ScopeTrace.Yields.{yields, Anything}
use lager_rs.ScopeTrace.Socket.{
  Message, binary, text, Arriving, message, control, closing, broken, Socket, is_timeout, later,
  each_message, send,
}
use lager_rs.ScopeTrace.Commands.{
  reply, daemon_reply, failed, notice, is_number, capture_step, await_capture, after_ack,
  after_request, capture, u64_of, get_triggered_data,
}
use lager_rs.ScopeTrace.Sequence.{Only, peek_seq-Yields, HasSeq, is_number_eq, HasSeq-decode_frame}

-- What every result of a step has, and every failure, the result of the loop has.
module _ {R : Type 0} (P : R → Type 0) where
  either : (b : Bool) (x y : R × Socket) → P x.0 → P y.0 → P (if b then x else y).0
  either true x y h k = h
  either false x y h k = k

  after_step :
      (Error → R)
      → ℕ
      → Text
      → (Message → Option R)
      → List (ℕ × Arriving)
      → Socket
      → Option R
      → R × Socket
  after_step fail deadline what step rest s none = each_message fail deadline what step rest s
  after_step fail deadline what step rest s (some r) = (r, s)

  each_message-Only :
      (fail : Error → R) (deadline : ℕ) (what : Text) (step : Message → Option R)
      → ((e : Error) → P (fail e))
      → ((m : Message) → Only P (step m))
      → (arriving : List (ℕ × Arriving)) (s : Socket)
      → P (each_message fail deadline what step arriving s).0
  unfolding each_message Only after_step
  each_message-Only fail deadline what step h k [] s = h _
  each_message-Only fail deadline what step h k ((t, message m) ∷ rest) s =
      either (leb deadline s.now) _ _ (h _) (
        either (leb t deadline) _ _
          (elim (step m)
              as (λ o.
                Only P o
                → P
                    (after_step fail deadline what step rest
                      (record s { now = later s.now t; arriving = rest }) o).0) [
                        | none ↦ λ _.
                            each_message-Only fail deadline what step h k rest
                              (record s { now = later s.now t; arriving = rest })
                        | some r ↦ λ x. x
                      ]
            (k m))
          (h _))
  each_message-Only fail deadline what step h k ((t, control) ∷ rest) s =
      either (leb deadline s.now) _ _ (h _) (
        either (leb t deadline) _ _
          (each_message-Only fail deadline what step h k rest
            (record s { now = later s.now t; arriving = rest }))
          (h _))
  each_message-Only fail deadline what step h k ((t, closing) ∷ rest) s =
      either (leb deadline s.now) _ _ (h _) (either (leb t deadline) _ _ (h _) (h _))
  each_message-Only fail deadline what step h k ((t, broken e) ∷ rest) s =
      either (leb deadline s.now) _ _ (h _) (
        either (leb t deadline) _ _
          (either (is_timeout e) _ _
            (each_message-Only fail deadline what step h k rest
              (record s { now = later s.now t; arriving = rest }))
            (h _))
          (h _))

module _ (from_str : Text → Result Text Value) where
  capture_step-HasSeq : (n : ℕ) (m : Message) → Only (HasSeq n) (capture_step from_str (some n) m)
  unfolding capture_step Only HasSeq Anything
  capture_step-HasSeq n (text t) =
      elim (daemon_reply from_str t (str "GetTriggeredData")) as (λ r. Only (HasSeq n) (notice r)) [
        | err e ↦ tt
        | ok v ↦ tt
      ]
  capture_step-HasSeq n (binary frame) = elim (peek_seq-Yields frame) [
    | yields seq e _ ↦
        rw (e, capture_step)
          (elim (Bool-cases (is_number n seq)) [
            | inl same ↦
                rw same (HasSeq-decode_frame n frame (e ∙ ap some (is_number_eq n seq same)))
            | inr different ↦ rw different tt
          ])
  ]

  await_capture-HasSeq :
      (n deadline : ℕ) (s : Socket) → HasSeq n (await_capture from_str deadline (some n) s).0
  unfolding await_capture HasSeq
  await_capture-HasSeq n deadline s =
      each_message-Only (HasSeq n) failed deadline (str "capture") (capture_step from_str (some n))
        (λ e. tt) (capture_step-HasSeq n) s.arriving s

  -- When the box acknowledges a request for a capture with a sequence number, the request ends
  -- without a panic, by the capture with this number or by an error.
  pub capture-HasSeq :
      (deadline n : ℕ) (s s1 s2 : Socket) (ack : Value)
      → send get_triggered_data s ≡ (ok tt, s1)
      → reply from_str (str "GetTriggeredData") deadline s1 ≡ (ok ack, s2)
      → (get (str "seq") ack >>=? u64_of) ≡ some n
      → HasSeq n (capture from_str deadline s).0
  unfolding capture
  capture-HasSeq deadline n s s1 s2 ack sent acked number =
      rw (sent, capture)
        (rw (acked, after_request) (rw (number, after_ack) (await_capture-HasSeq n deadline s2)))
