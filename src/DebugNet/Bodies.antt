-- ===== src/DebugNet/Bodies.antt =====
-- What the bodies of debug requests carry.
use lager_rs.Prelude.{
  Bool-cases, inl, inr, ℕ, ◌≡◌, refl, ◌∙◌, Bool, true, false, Option, none, some, Bytes, Text, str,
  all, text_eq, ◌>>=?◌,
}
use lager_rs.Json.{Value, boolean, object, Fields, end, field, lookup, insert, get, as_str}
use lager_rs.Json.Map.{lookup-insert_if, lookup-insert, lookup-insert_other}
use lager_rs.Codec.Base64.{base64_decode}
use lager_rs.Codec.Base64.RoundTrip.{is_byte, base64_decode-base64_encode}
use lager_rs.DebugNet.{
  extend, debug_body, set_some, set_true, base64_value, payload_key, payload, FirmwareKind, hex,
  elf, bin, FlashOptions, flash,
}

abbrev pub first_value : Option Value → Option Value → Option Value
first_value (some v) o = some v
first_value none o = o

pub lookup-extend :
    (k : Text) (extra obj : Fields)
    → lookup k (extend extra obj) ≡ first_value (lookup k extra) (lookup k obj)
unfolding extend lookup
lookup-extend k end obj = refl
lookup-extend k (field name v extra) obj = elim (Bool-cases (text_eq name k)) [
  | inl same ↦ lookup-insert_if name k v (extend extra obj) ∙ rw same
  | inr differ ↦
      lookup-insert_if name k v (extend extra obj) ∙ rw differ (lookup-extend k extra obj)
]

lookup-set_some {ℓ} :
    {A : Type ℓ} (k other : Text) (f : A → Value) (o : Option A) (m : Fields)
    → text_eq k other ≡ false
    → lookup other (set_some k f o m) ≡ lookup other m
lookup-set_some k other f none m h = refl
lookup-set_some k other f (some a) m h = lookup-insert_other k other (f a) m h

lookup-set_true :
    (k other : Text) (b : Bool) (m : Fields)
    → text_eq k other ≡ false
    → lookup other (set_true k b m) ≡ lookup other m
lookup-set_true k other false m h = refl
lookup-set_true k other true m h = lookup-insert_other k other (boolean true) m h

-- An extra entry goes through, and the net's record stands under its key unless one takes it.
get-debug_body :
    (k : Text) (net : Value) (extra : Fields) (v : Value)
    → lookup k extra ≡ some v
    → get k (debug_body net extra) ≡ some v
unfolding debug_body
get-debug_body k net extra v h = lookup-extend k extra (insert (str "net") net end) ∙ rw h

get_net-debug_body :
    (net : Value) (extra : Fields)
    → lookup (str "net") extra ≡ none
    → get (str "net") (debug_body net extra) ≡ some net
unfolding debug_body
get_net-debug_body net extra h =
    lookup-extend (str "net") extra (insert (str "net") net end)
    ∙ rw h (lookup-insert (str "net") net end)

module _ (contents : Bytes) (address : Option ℕ) (opts : FlashOptions) where
  abbrev flash_extra : FirmwareKind → Fields
  flash_extra kind = set_some (str "require_evidence") boolean opts.require_evidence (
      set_some (str "jlink_script") base64_value opts.jlink_script (
        set_true (str "verbose") opts.verbose
          (insert (payload_key kind) (object (payload kind contents address)) end)))

  -- A key that no option takes.
  lookup-flash_extra :
      (kind : FirmwareKind) (k : Text)
      → text_eq (str "require_evidence") k ≡ false
      → text_eq (str "jlink_script") k ≡ false
      → text_eq (str "verbose") k ≡ false
      → lookup k (flash_extra kind)
        ≡ lookup k (insert (payload_key kind) (object (payload kind contents address)) end)
  lookup-flash_extra kind k evidence script verbose =
      lookup-set_some (str "require_evidence") k boolean opts.require_evidence _ evidence
      ∙ lookup-set_some (str "jlink_script") k base64_value opts.jlink_script _ script
      ∙ lookup-set_true (str "verbose") k opts.verbose _ verbose

  payload_at :
      (kind : FirmwareKind)
      → lookup (payload_key kind) (flash_extra kind) ≡ some (object (payload kind contents address))
  payload_at hex =
      lookup-flash_extra hex (str "hexfile") refl refl refl ∙ lookup-insert (str "hexfile") _ end
  payload_at elf =
      lookup-flash_extra elf (str "elffile") refl refl refl ∙ lookup-insert (str "elffile") _ end
  payload_at bin =
      lookup-flash_extra bin (str "binfile") refl refl refl ∙ lookup-insert (str "binfile") _ end

  no_net : (kind : FirmwareKind) → lookup (str "net") (flash_extra kind) ≡ none
  unfolding lookup insert
  no_net hex = lookup-flash_extra hex (str "net") refl refl refl
  no_net elf = lookup-flash_extra elf (str "net") refl refl refl
  no_net bin = lookup-flash_extra bin (str "net") refl refl refl

  content_at :
      (kind : FirmwareKind)
      → lookup (str "content") (payload kind contents address) ≡ some (base64_value contents)
  unfolding lookup insert
  content_at hex = refl
  content_at elf = refl
  content_at bin = refl

  -- A flash request names its net, and holds the firmware's bytes, numbers below 256, in base64
  -- under the key of its kind, whatever the options are.
  pub flash-contents :
      (net : Value) (kind : FirmwareKind)
      → all is_byte contents ≡ true
      → (get (str "net") (flash net contents kind address opts).1 ≡ some net)
        × ((get (payload_key kind) (flash net contents kind address opts).1
              >>=? get (str "content")
              >>=? as_str
              >>=? base64_decode)
            ≡ some contents)
  unfolding flash
  flash-contents net kind h = (
    get_net-debug_body net (flash_extra kind) (no_net kind),
    rw (get-debug_body (payload_key kind) net (flash_extra kind) _ (payload_at kind))
        (rw (content_at kind) (base64_decode-base64_encode contents h)),
  )
