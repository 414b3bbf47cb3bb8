-- ===== src/Nets/Spi.antt =====
-- The operations of src/nets/spi.rs. `shown` is `{:?}` of a value, `display` is `{}` of it.
use lager_rs.Prelude.{
  ℕ, Bool, false, Option, some, List, [], ◌∷◌, Text, ok, err, str, ok_or, ◌>>=?◌,
}
use lager_rs.Json.{Value, boolean, string, object, lookup, end, insert}
use lager_rs.Error.{Res, decode}
use lager_rs.Wire.Request.{net_command, json}
use lager_rs.Wire.Envelope.{CommandResponse, value_of, warnings}
use lager_rs.Wire.Values.{Floats, as_i64, to_u32, value_int_list}
use lager_rs.Nets.Ops.{Op, command, insert_some, json_int, json_ints, with_warnings}

pub data BitOrder : Type 0 where
  msb lsb : BitOrder

abbrev pub bit_order_text : BitOrder → Text
bit_order_text msb = str "msb"
bit_order_text lsb = str "lsb"

pub data CsActive : Type 0 where
  low high : CsActive

abbrev pub cs_active_text : CsActive → Text
cs_active_text low = str "low"
cs_active_text high = str "high"

pub data CsMode : Type 0 where
  auto manual : CsMode

abbrev pub cs_mode_text : CsMode → Text
cs_mode_text auto = str "auto"
cs_mode_text manual = str "manual"

pub record SpiConfig : Type 0 where
  pub mode : Option ℕ
  pub bit_order : Option BitOrder
  pub frequency_hz : Option ℕ
  pub word_size : Option ℕ
  pub cs_active : Option CsActive
  pub cs_mode : Option CsMode

pub record SpiTransfer : Type 0 where
  pub words : List ℕ
  pub word_size : ℕ

pub record SpiOptions : Type 0 where
  pub fill : ℕ
  pub keep_cs : Bool

abbrev pub default_options : SpiOptions
default_options = record { fill = 0xFF; keep_cs = false }

abbrev pub role : Text
role = str "spi"

unfoldable pub config_params : SpiConfig → Value
unfolding insert
config_params c = object (
    insert_some (str "cs_mode") (c.cs_mode >>=? λ m. some (string (cs_mode_text m))) (
      insert_some (str "cs_active") (c.cs_active >>=? λ a. some (string (cs_active_text a))) (
        insert_some (str "word_size") (c.word_size >>=? λ n. some (json_int n)) (
          insert_some (str "frequency_hz") (c.frequency_hz >>=? λ n. some (json_int n)) (
            insert_some (str "bit_order") (c.bit_order >>=? λ b. some (string (bit_order_text b)))
              (insert_some (str "mode") (c.mode >>=? λ n. some (json_int n)) end))))))

abbrev transfer_of : Res ℕ → Res (List ℕ) → Res SpiTransfer
transfer_of (err e) words = err e
transfer_of (ok size) (err e) = err e
transfer_of (ok size) (ok words) = ok (record { words = words; word_size = size })

module _ (floats : Floats) (shown display : Value → Text) where
  -- Up to the typed decoding of the configuration
  unfoldable pub parse_config : CommandResponse → Res (Value × List Text)
  unfolding warnings value_of
  parse_config r = with_warnings (warnings display r) (value_of r)

  unfoldable pub parse_transfer : CommandResponse → Res SpiTransfer
  unfolding lookup as_i64 value_int_list
  parse_transfer r =
      transfer_of
        (ok_or (decode (str "SPI response missing 'word_size'"))
          (lookup (str "word_size") r.extra >>=? as_i64 floats >>=? to_u32))
        (value_int_list floats shown r)

  unfoldable pub configure : Text → SpiConfig → Op (Value × List Text)
  unfolding net_command config_params parse_config
  configure name config = command role name (str "config") (config_params config) parse_config

  unfoldable pub read : Text → ℕ → SpiOptions → Op SpiTransfer
  unfolding net_command insert parse_transfer
  read name n_words opts =
      command role name (str "read")
        (json (
          (str "n_words", json_int n_words)
          ∷ (str "fill", json_int opts.fill)
          ∷ (str "keep_cs", boolean opts.keep_cs)
          ∷ []))
        parse_transfer

  abbrev exchange : Text → Text → List ℕ → SpiOptions → Op SpiTransfer
  exchange action name words opts =
      command role name action
        (json ((str "data", json_ints words) ∷ (str "keep_cs", boolean opts.keep_cs) ∷ []))
        parse_transfer

  unfoldable pub write : Text → List ℕ → SpiOptions → Op SpiTransfer
  unfolding net_command insert parse_transfer
  write name words opts = exchange (str "write") name words opts

  unfoldable pub read_write : Text → List ℕ → SpiOptions → Op SpiTransfer
  unfolding net_command insert parse_transfer
  read_write name words opts = exchange (str "read_write") name words opts

  unfoldable pub transfer : Text → List ℕ → ℕ → SpiOptions → Op SpiTransfer
  unfolding net_command insert parse_transfer
  transfer name words n_words opts =
      command role name (str "transfer")
        (json (
          (str "data", json_ints words)
          ∷ (str "n_words", json_int n_words)
          ∷ (str "fill", json_int opts.fill)
          ∷ (str "keep_cs", boolean opts.keep_cs)
          ∷ []))
        parse_transfer
