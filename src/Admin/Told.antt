-- ===== src/Admin/Told.antt =====
-- What is told of an answer that is an error.
use lager_rs.Prelude.{
  ℕ, ◌&&◌, ◌≡◌, Bool, true, false, ◌||◌, some, ◌++◌, Text, Result, ok, err, str, decimal, text_eq,
  contains, ◌==◌,
}
use lager_rs.Json.{Value, string, get}
use lager_rs.Error.{Error, box, unsupported_by_box}
use lager_rs.Action.{Action}

-- The words of a refusal: the text under `error`, or the status where there is none
pub data Words (status : ℕ) (body : Value) : Text → Type 0 where
  own : (m : Text) → get (str "error") body ≡ some (string m) → Words status body m
  wordless :
      ((m : Text) → ¬ (get (str "error") body ≡ some (string m)))
      → Words status body (str "HTTP " ++ decimal status)

-- The words that a box without the route answers with
abbrev pub names_no_route : ℕ → Text → Bool
names_no_route status m =
    (status == 404 || status == 405) && (text_eq m (str "Not found") || contains (str "non-JSON") m)

-- What is told, from the body read as JSON: the operation's own words where the route is missing,
-- 501 as a box that is too old, and all else as it is
pub data Told (status : ℕ) (unsupported : Text) : Result Text Value → Error → Type 0 where
  no_route :
      {body : Value} (m : Text)
      → Words status body m
      → names_no_route status m ≡ true
      → Told status unsupported (ok body) (unsupported_by_box unsupported)
  too_old :
      {body : Value} (m : Text)
      → Words status body m
      → status ≡ 501
      → Told status unsupported (ok body) (unsupported_by_box m)
  refused :
      {body : Value} (m : Text)
      → Words status body m
      → names_no_route status m ≡ false
      → (status == 501) ≡ false
      → Told status unsupported (ok body) (box status m)
  page_for_route :
      {e : Text}
      → (status == 404 || status == 405) ≡ true
      → Told status unsupported (err e) (unsupported_by_box unsupported)
  page :
      {e : Text}
      → (status == 404 || status == 405) ≡ false
      → Told status unsupported
          (err e)
          (box status (str "HTTP " ++ (decimal status ++ str " (non-JSON body)")))
