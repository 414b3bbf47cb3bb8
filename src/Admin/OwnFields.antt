-- ===== src/Admin/OwnFields.antt =====
-- What the JSON of a net record holds under each key.
use lager_rs.Prelude.{
  ℕ, ◌≡◌, refl, ◌∙◌, ap, Bool, Option, none, some, Text, str, text_eq, text_eq_iff, subst,
  if◌then◌else◌, inl, inr, Bool-cases,
}
use lager_rs.Json.{Value, string, object, boolean, Fields, end, lookup, insert, get}
use lager_rs.Json.Map.{lookup-insert_if}
use lager_rs.Wire.Request.{SafetyLimits, float_entry, bool_entry, limits_value}
use lager_rs.DebugNet.{set_some}
use lager_rs.Admin.Records.{NetRecord, named_fields}

abbrev pub shown {ℓ} : {A : Type ℓ} → (A → Value) → Option A → Option Value
shown f none = none
shown f (some a) = some (f a)

-- A set of entries: at a key, or else what the rest has
abbrev pub entry : Text → Option Value → (Text → Option Value) → Text → Option Value
entry key o rest k = if text_eq key k then o else rest k

abbrev pub nothing : Text → Option Value
nothing k = none

module _ (float_value : ℕ → Value) where
  -- The fields of the limits, each under its name
  abbrev pub limit_at : SafetyLimits → Text → Option Value
  limit_at l = entry (str "max_voltage") (shown float_value l.max_voltage) (
      entry (str "max_current") (shown float_value l.max_current)
        (entry (str "allow_destructive") (shown boolean l.allow_destructive) nothing))

  -- The fields of a record, each under its name, and none that is not set
  abbrev pub own_field : NetRecord → Text → Option Value
  own_field r = entry (str "safety_limits") (shown (limits_value float_value) r.safety_limits) (
      entry (str "params") (shown object r.params) (
        entry (str "address") (shown string r.address) (
          entry (str "channel") r.channel (
            entry (str "pin") r.pin (
              entry (str "instrument") (shown string r.instrument) (
                entry (str "role") (some (string r.role))
                  (entry (str "name") (some (string r.name)) nothing)))))))

abbrev Reads : Fields → (Text → Option Value) → Type 0
Reads m spec = (k : Text) → lookup k m ≡ spec k

empty-Reads : Reads end nothing
unfolding lookup
empty-Reads k = refl

insert-Reads :
    (key : Text) (v : Value) (m : Fields) (spec : Text → Option Value)
    → Reads m spec
    → Reads (insert key v m) (entry key (some v) spec)
insert-Reads key v m spec h k = lookup-insert_if key k v m ∙ rw (h k) refl

absent-Reads :
    (key : Text) (m : Fields) (spec : Text → Option Value)
    → Reads m spec
    → spec key ≡ none
    → Reads m (entry key none spec)
absent-Reads key m spec h free k = elim (Bool-cases (text_eq key k)) [
  | inl same ↦ rw same (h k ∙ subst (λ x. spec x ≡ none) ((text_eq_iff key k).0 same) free)
  | inr differ ↦ rw differ (h k)
]

-- An optional entry, under a key that the others have not
set_some-Reads {ℓ} :
    {A : Type ℓ} (key : Text) (f : A → Value) (o : Option A) (m : Fields)
    (spec : Text → Option Value)
    → Reads m spec
    → spec key ≡ none
    → Reads (set_some key f o m) (entry key (shown f o) spec)
set_some-Reads key f none m spec h free = absent-Reads key m spec h free
set_some-Reads key f (some a) m spec h free = insert-Reads key (f a) m spec h

plain-Reads :
    (key : Text) (o : Option Value) (m : Fields) (spec : Text → Option Value)
    → Reads m spec
    → spec key ≡ none
    → Reads (set_some key (λ v. v) o m) (entry key o spec)
plain-Reads key none m spec h free = absent-Reads key m spec h free
plain-Reads key (some v) m spec h free = insert-Reads key v m spec h

float_entry-set_some :
    (f : ℕ → Value) (k : Text) (o : Option ℕ) (m : Fields) → float_entry f k o m ≡ set_some k f o m
float_entry-set_some f k none m = refl
float_entry-set_some f k (some x) m = refl

bool_entry-set_some :
    (k : Text) (o : Option Bool) (m : Fields) → bool_entry k o m ≡ set_some k boolean o m
bool_entry-set_some k none m = refl
bool_entry-set_some k (some b) m = refl

module _ (float_value : ℕ → Value) where
  pub limits_value-limit_at :
      (l : SafetyLimits) (k : Text) → get k (limits_value float_value l) ≡ limit_at float_value l k
  unfolding limits_value
  limits_value-limit_at l k =
      ap (lookup k) (
        float_entry-set_some float_value (str "max_voltage") l.max_voltage _
        ∙ ap (set_some (str "max_voltage") float_value l.max_voltage) (
            float_entry-set_some float_value (str "max_current") l.max_current _
            ∙ ap (set_some (str "max_current") float_value l.max_current)
                (bool_entry-set_some (str "allow_destructive") l.allow_destructive end)))
      ∙ set_some-Reads (str "max_voltage") float_value l.max_voltage _ _
          (set_some-Reads (str "max_current") float_value l.max_current _ _
            (set_some-Reads (str "allow_destructive") boolean l.allow_destructive _ _ empty-Reads
              refl)
            refl)
          refl k

  pub named_fields-own_field :
      (r : NetRecord) (k : Text) → lookup k (named_fields float_value r) ≡ own_field float_value r k
  named_fields-own_field r =
      set_some-Reads _ (limits_value float_value) r.safety_limits _ _
        (set_some-Reads _ object r.params _ _
          (set_some-Reads _ string r.address _ _
            (plain-Reads _ r.channel _ _
              (plain-Reads _ r.pin _ _
                (set_some-Reads _ string r.instrument _ _
                  (insert-Reads _ (string r.role) _ _
                    (insert-Reads _ (string r.name) _ _ empty-Reads))
                  refl)
                refl)
              refl)
            refl)
          refl)
        refl
