-- ===== src/Wire/Debug/Errors.antt =====
-- When the debug service's answers are taken for success.
use lager_rs.Prelude.{
  ◌≡◌, ◌≢◌, Bool, true, false, Option, some, none, List, Text, str, ok, err, Bool-cases, inl, inr,
  ◌>>=?◌, ap, sym, ◌∙◌,
}
use lager_rs.Json.{Value, boolean_of, get}
use lager_rs.Error.{Error, Res, flash_failed}
use lager_rs.Wire.Debug.{FlashReport, is_false, parse_flash, output_lines, text_at, or_text}

abbrev pub programmed : Value → Option Bool
programmed body = get (str "programmed") body >>=? boolean_of

abbrev report : (Value → Text) → (Text → List Text) → Value → FlashReport
report show lines body = record {
  output = output_lines show lines body;
  backend = text_at (str "backend") body;
  programmed = programmed body;
}

abbrev done : FlashReport → Res FlashReport
done r = ok r

abbrev refused : Error → Res FlashReport
refused e = err e

is_false-false : (o : Option Bool) → is_false o ≡ false → o ≢ some false
is_false-false none h k = cc
is_false-false (some true) h k = cc
is_false-false (some false) h k = cc

-- A flash is reported as done only where the box does not say that nothing was programmed. The
-- report then has the box's verdict and its output.
pub parse_flash-ok :
    (show : Value → Text) (lines : Text → List Text) (body : Value) (r : FlashReport)
    → parse_flash show lines body ≡ ok r
    → (r.programmed ≡ programmed body)
      × (r.programmed ≢ some false)
      × (r.output ≡ output_lines show lines body)
unfolding parse_flash
parse_flash-ok show lines body r h = elim (Bool-cases (is_false (programmed body))) [
  | inl failed ↦
      let clash : refused (
            flash_failed
              (or_text (text_at (str "error") body)
                (str "the probe reported that nothing was programmed"))
              (output_lines show lines body))
          ≡ ok r =
        rw (failed, parse_flash) at h in
      absurd cc
  | inr passed ↦
      let same : done (report show lines body) ≡ ok r = rw (passed, parse_flash) at h in
      let equal : report show lines body ≡ r = cc in
      (
        ap (λ q. q.programmed) (sym equal),
        λ k. is_false-false (programmed body) passed (ap (λ q. q.programmed) equal ∙ k),
        ap (λ q. q.output) (sym equal),
      )
]
