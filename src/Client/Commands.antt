-- ===== src/Client/Commands.antt =====
-- When a command of a net succeeds, from the answer on the wire to the value that is returned.
use lager_rs.Prelude.{◌≡◌, ◌∙◌, ap, true, some, Text, ok}
use lager_rs.Json.{Value}
use lager_rs.Action.Inversion.{and_then-ok}
use lager_rs.Wire.Envelope.{CommandResponse, read_envelope, parse_command}
use lager_rs.Wire.Envelope.Commands.{parse_command-ok}
use lager_rs.Nets.Ops.{Op}
use lager_rs.Http.{Codec}
use lager_rs.Client.{Client, Services}
use lager_rs.Client.Http.{Ureq}
use lager_rs.Client.LagerBox.{LagerBox, execute}
use lager_rs.Client.Delivery.{Delivered, execute_at-Delivered}
use lager_rs.Client.Calls.{run}

module _ {D N : Type 0} (s : Services D) (codec : Codec) (http : Ureq N) (lager : LagerBox)
    (problem : Value → Text) where
  -- The box answered with an envelope of success, and the operation's parser made the value of it.
  abbrev pub Succeeded : {T : Type 0} → Op T → T → Type 0
  Succeeded op v =
      (body : Value) × (r : CommandResponse) × Delivered codec http 200 body
      × (read_envelope body ≡ some r)
      × (r.success ≡ true)
      × (op.parse r ≡ ok v)

  pub run-Succeeded :
      {T : Type 0} (op : Op T) (c : Client D N) {v : T}
      → (run (execute s codec http lager) problem op c).0 ≡ ok v
      → Succeeded op v
  unfolding run execute
  run-Succeeded op c h =
      let ((status, body), answered, rest) =
        and_then-ok _ (execute s codec http lager op.req c) h in
      let (r, judged, parsed) = and_then-ok _ (parse_command problem status body, _) rest in
      let (read, fine, success) = (parse_command-ok problem status body r).0 judged in
      (
        body,
        r,
        execute_at-Delivered s codec http lager lager.base op.req c
            (answered ∙ ap (λ st. ok (st, body)) fine),
        read,
        success,
        parsed,
      )
