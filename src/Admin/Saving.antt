-- ===== src/Admin/Saving.antt =====
-- What a saved net is sent as.
use lager_rs.Prelude.{
  ℕ, ◌≡◌, refl, ◌∙◌, ap, true, Option, none, some, ◌++◌, Text, Bytes, ok, str, text_eq, text_eq_iff,
  all, utf8, subst, if◌then◌else◌, inl, inr, Bool-cases,
}
use lager_rs.Json.{Value, Fields, end, field, lookup, remove, get}
use lager_rs.Json.Sorted.{IsSorted, insert-IsSorted, lookup-remove, lookup-remove_other}
use lager_rs.Codec.Percent.{path_segment}
use lager_rs.Codec.Percent.RoundTrip.{is_char, percent_decode, percent_decode-path_segment}
use lager_rs.Http.{Codec, RawBody, json_body}
use lager_rs.DebugNet.{extend, set_some}
use lager_rs.DebugNet.Bodies.{first_value, lookup-extend}
use lager_rs.Admin.{AdminOp}
use lager_rs.Admin.Records.{NetRecord, named_fields, record_body}
use lager_rs.Wire.Request.{put, SafetyLimits, limits_value}
use lager_rs.Admin.OwnFields.{own_field, limit_at, named_fields-own_field, limits_value-limit_at}
use lager_rs.Admin.Ops.{rename_net, req}

set_some-IsSorted {ℓ} :
    {A : Type ℓ} (k : Text) (f : A → Value) (o : Option A) (m : Fields)
    → IsSorted m
    → IsSorted (set_some k f o m)
set_some-IsSorted k f none m sorted = sorted
set_some-IsSorted k f (some a) m sorted = insert-IsSorted k (f a) m sorted

extend-IsSorted : (extra obj : Fields) → IsSorted obj → IsSorted (extend extra obj)
unfolding extend
extend-IsSorted end obj sorted = sorted
extend-IsSorted (field k v extra) obj sorted =
    insert-IsSorted k v _ (extend-IsSorted extra obj sorted)

module _ (float_value : ℕ → Value) where
  named_fields-IsSorted : (r : NetRecord) → IsSorted (named_fields float_value r)
  named_fields-IsSorted r = set_some-IsSorted _ _ r.safety_limits _ (
      set_some-IsSorted _ _ r.params _ (
        set_some-IsSorted _ _ r.address _ (
          set_some-IsSorted _ _ r.channel _ (
            set_some-IsSorted _ _ r.pin _ (
              set_some-IsSorted _ _ r.instrument _
                (insert-IsSorted _ _ _ (insert-IsSorted _ _ _ tt)))))))

  -- What is saved under a key: nothing that the box derives, and else what the record has beside its
  -- own fields, or the field of that name
  abbrev pub saved : NetRecord → Text → Option Value
  saved r k =
      if text_eq (str "live_path") k
      then none
      else first_value (lookup k r.extra) (own_field float_value r k)

  abbrev pub Holds : NetRecord → Value → Type 0
  Holds r v =
      ((k : Text) → get k v ≡ saved r k)
      × ((l : SafetyLimits) (k : Text)
          → get k (limits_value float_value l) ≡ limit_at float_value l k)

  named-lookup :
      (r : NetRecord) (k : Text) (m : Fields)
      → IsSorted m
      → lookup k m ≡ first_value (lookup k r.extra) (own_field float_value r k)
      → lookup k (remove (str "live_path") m) ≡ saved r k
  named-lookup r k m sorted h = elim (Bool-cases (text_eq (str "live_path") k)) [
    | inl derived ↦ rw derived (
        subst (λ x. lookup x (remove (str "live_path") m) ≡ none)
          ((text_eq_iff (str "live_path") k).0 derived) (lookup-remove (str "live_path") m sorted))
    | inr other ↦ rw other (lookup-remove_other (str "live_path") k m other ∙ h)
  ]

  record_body-Holds : (r : NetRecord) → Holds r (record_body float_value r)
  unfolding record_body
  record_body-Holds r = (
    λ k.
        named-lookup r k _
          (extend-IsSorted r.extra (named_fields float_value r) (named_fields-IsSorted r))
          (lookup-extend k r.extra (named_fields float_value r)
            ∙ ap (first_value (lookup k r.extra)) (named_fields-own_field float_value r k)),
    limits_value-limit_at float_value,
  )

  -- The request names the net in its path, and its body is JSON that holds the record.
  abbrev pub Saves : Codec → Text → NetRecord → AdminOp Unit → Type 0
  Saves codec old_name r op =
      (segment : Text) × (op.req.method ≡ put)
      × (op.req.path ≡ str "/nets/" ++ segment)
      × (percent_decode segment ≡ some (utf8 old_name))
      × ((body : RawBody) × (op.req.body ≡ some body)
          × ((v : Value) × (codec.from_slice body.bytes ≡ ok v) × Holds r v))

  -- A record is put in place of the net that it is to replace: the path has the old name, of Unicode
  -- code points, and the body has each field of the record that is set, under its name, and each
  -- limit under its own, and all that the record has beside them, which comes first, but nothing
  -- under `live_path`. What the JSON library writes of the body, it reads back.
  pub rename_net-Saves :
      (codec : Codec) (old_name : Text) (r : NetRecord) {bytes : Bytes}
      → all is_char old_name ≡ true
      → codec.to_vec (record_body float_value r) ≡ ok bytes
      → codec.from_slice bytes ≡ ok (record_body float_value r)
      → Saves codec old_name r (rename_net codec float_value old_name r)
  unfolding rename_net req json_body
  rename_net-Saves codec old_name r {bytes} chars written read = (
    path_segment old_name,
    refl,
    refl,
    percent_decode-path_segment old_name chars,
    (
      json_body codec (record_body float_value r),
      refl,
      (record_body float_value r, rw written read, record_body-Holds r),
    ),
  )
