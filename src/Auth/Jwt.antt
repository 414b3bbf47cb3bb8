-- ===== src/Auth/Jwt.antt =====
-- The expiry of a token: `token_expires_at` and `token_is_fresh` of auth.rs. The JSON parser, the
-- floating-point operations and the clock are parameters.
use lager_rs.Prelude.{
  ℕ, Bool, Option, none, some, List, ◌∷◌, Bytes, Text, ℤ, pos, negsuc, split, utf8, str,
  ◌>>=?◌ as ◌>>=◌,
}
use lager_rs.Json.{pos_int, neg_int, float, Value, number, get}
use lager_rs.Codec.Base64.{base64url_decode}

-- What the code uses of `f64`, on its 64 bits.
pub record Floats : Type 0 where
  pub of_int : ℤ → ℕ
  pub add : ℕ → ℕ → ℕ
  pub less : ℕ → ℕ → Bool

-- The JSON parser, the floats, and the clock: the seconds since the epoch as a float.
pub record Context : Type 0 where
  pub floats : Floats
  pub from_slice : Bytes → Option Value
  pub now_epoch : ℕ

-- `Value::as_f64`
abbrev pub as_f64 : Floats → Value → Option ℕ
as_f64 f (number (pos_int n)) = some (f.of_int (pos n))
as_f64 f (number (neg_int n)) = some (f.of_int (negsuc n))
as_f64 f (number (float x)) = some x
as_f64 f _ = none

abbrev pub second : List Text → Option Text
second (_ ∷ t ∷ _) = some t
second _ = none

abbrev pub claimed_expiry : Context → Text → Option ℕ
claimed_expiry w token = do
  payload_b64 ← second (split b'.' token)
  bytes ← base64url_decode (utf8 payload_b64)
  payload ← w.from_slice bytes
  exp ← get (str "exp") payload
  as_f64 w.floats exp

abbrev pub or_zero : Context → Option ℕ → ℕ
or_zero w none = w.floats.of_int (pos 0)
or_zero w (some x) = x

unfoldable pub token_expires_at : Context → Text → ℕ
token_expires_at w token = or_zero w (claimed_expiry w token)

abbrev pub expiry_margin_seconds : ℕ
expiry_margin_seconds = 60

unfoldable pub token_is_fresh : Context → Text → Bool
unfolding token_expires_at
token_is_fresh w token =
    w.floats.less (w.floats.add w.now_epoch (w.floats.of_int (pos expiry_margin_seconds)))
      (token_expires_at w token)
