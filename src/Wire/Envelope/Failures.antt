-- ===== src/Wire/Envelope/Failures.antt =====
-- What is told of a command that fails.
use lager_rs.Prelude.{
  ℕ, ◌≡◌, refl, subst, ◌⊎◌, inl, inr, Bool, false, ◌&&◌, Option, none, some, ◌++◌, Text, err, str,
  decimal, ◌==◌, ◌>>=?◌, if◌then◌else◌,
}
use lager_rs.Json.{Value, null, boolean, string, object, array, number, Fields, lookup}
use lager_rs.Error.{Error, box, unsupported_by_box}
use lager_rs.Wire.Envelope.{
  CommandResponse, bool_field, text_field, read_fields, read_envelope, first_of, failure,
  parse_command,
}

-- A field that is not there, or `null`
abbrev pub Silent : Option Value → Type 0
Silent o = (o ≡ none) ⊎ (o ≡ some null)

-- The words of an envelope: those under `error`, else those under `message`, else the status
pub data Words (status : ℕ) (m : Fields) : Text → Type 0 where
  own : (t : Text) → lookup (str "error") m ≡ some (string t) → Words status m t
  noted :
      (t : Text)
      → Silent (lookup (str "error") m)
      → lookup (str "message") m ≡ some (string t)
      → Words status m t
  wordless :
      Silent (lookup (str "error") m)
      → Silent (lookup (str "message") m)
      → Words status m (str "HTTP " ++ decimal status)

abbrev pub says_success : Option Value → Bool
says_success (some (boolean b)) = b
says_success o = false

-- The error has these words and this status: `UnsupportedByBox` for 501 alone.
abbrev pub Reports : ℕ → Fields → Error → Type 0
Reports status m e =
    (t : Text) × Words status m t
    × (e ≡ (if status == 501 then unsupported_by_box t else box status t))

bind_some :
    {A B : Type 0} (o : Option A) (f : A → Option B) {b : B}
    → (o >>=? f) ≡ some b
    → (a : A) × (o ≡ some a) × (f a ≡ some b)
bind_some none f h = cc
bind_some (some a) f h = (a, refl, h)

abbrev Says : Option Value → Option Text → Type 0
Says o none = Silent o
Says o (some t) = o ≡ some (string t)

text_field-Says : (o : Option Value) (t : Option Text) → text_field o ≡ some t → Says o t
text_field-Says none none h = inl refl
text_field-Says (some null) none h = inr refl
text_field-Says (some (string s)) (some t) h = cc
text_field-Says none (some t) h = cc
text_field-Says (some null) (some t) h = cc
text_field-Says (some (string s)) none h = cc
text_field-Says (some (object f)) t h = cc
text_field-Says (some (array f)) t h = cc
text_field-Says (some (number f)) t h = cc
text_field-Says (some (boolean f)) t h = cc

bool_field-says_success : (o : Option Value) (b : Bool) → bool_field o ≡ some b → says_success o ≡ b
bool_field-says_success none b h = cc
bool_field-says_success (some (boolean c)) b h = cc
bool_field-says_success (some null) b h = cc
bool_field-says_success (some (string c)) b h = cc
bool_field-says_success (some (object c)) b h = cc
bool_field-says_success (some (array c)) b h = cc
bool_field-says_success (some (number c)) b h = cc

first_of-Words :
    (status : ℕ) (m : Fields) (error message : Option Text)
    → Says (lookup (str "error") m) error
    → Says (lookup (str "message") m) message
    → Words status m (first_of error message (str "HTTP " ++ decimal status))
first_of-Words status m (some t) message e h = own t e
first_of-Words status m none (some t) e h = noted t e h
first_of-Words status m none none e h = wordless e h

-- What an envelope says, field by field
record IsRead (m : Fields) (r : CommandResponse) : Type 0 where
  success : says_success (lookup (str "success") m) ≡ r.success
  error : Says (lookup (str "error") m) r.error
  message : Says (lookup (str "message") m) r.message

response_inj : {q r : CommandResponse} → ◌≡◌ {A = Option CommandResponse} (some q) (some r) → q ≡ r
response_inj h = cc

read_fields-IsRead : (m : Fields) (r : CommandResponse) → read_fields m ≡ some r → IsRead m r
read_fields-IsRead m r h =
    let (success, s, h1) = bind_some (bool_field (lookup (str "success") m)) _ h in
    let (action, a, h2) = bind_some (text_field (lookup (str "action") m)) _ h1 in
    let (message, g, h3) = bind_some (text_field (lookup (str "message") m)) _ h2 in
    let (error, e, h4) = bind_some (text_field (lookup (str "error") m)) _ h3 in
    subst (IsRead m) (response_inj h4) (record {
      success = bool_field-says_success _ success s;
      error = text_field-Says _ error e;
      message = text_field-Says _ message g;
    })

module _ (problem : Value → Text) (status : ℕ) where
  -- An envelope that is no success, with another status than 200 or without a `success` that is
  -- true, is reported with its status, also when that is 200, and with 501 as a box that is too old,
  -- in the words that it has under `error`, or else under `message`.
  pub parse_command-failure :
      (m : Fields) (r : CommandResponse)
      → read_envelope (object m) ≡ some r
      → (status == 200 && says_success (lookup (str "success") m)) ≡ false
      → (e : Error) × (parse_command problem status (object m) ≡ err e) × Reports status m e
  unfolding parse_command read_envelope failure
  parse_command-failure m r read bad =
      let is_read = read_fields-IsRead m r read in
      let fails : (status == 200 && r.success) ≡ false =
        subst (λ b. (status == 200 && b) ≡ false) is_read.success bad in
      (
        failure status r,
        rw (read, parse_command) (rw fails),
        (
          first_of r.error r.message (str "HTTP " ++ decimal status),
          first_of-Words status m r.error r.message is_read.error is_read.message,
          refl,
        ),
      )
