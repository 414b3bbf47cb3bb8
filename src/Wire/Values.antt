-- ===== src/Wire/Values.antt =====
-- The lenient numbers of wire.rs, and what it takes out of an envelope. Floating-point numbers are
-- their bits, and what the code does with them is a parameter.
pub mod Integers
use lager_rs.Prelude.{
  ℕ, zero, suc, ◌-◌, ◌^◌, Bool, true, false, not, ◌||◌, Option, none, some, List, [], ◌∷◌, ◌++◌,
  Text, Result, ok, err, str, ℤ, pos, negsuc, decimal, length, map, any, text_eq, trim, is_empty,
  leb, ltb, ascii_lower, parse_digits, parse_radix, ok_or, ◌==◌, ◌>>=?◌, if◌then◌else◌,
}
use lager_rs.Json.{
  Value, null, boolean, number, Number, pos_int, neg_int, float, string, object, array, Items,
  items_list, as_array, lookup, remove, get, boolean_of,
}
use lager_rs.Error.{Error, Res, box, decode, dfu_failed, unsupported_by_box}
use lager_rs.Wire.Envelope.{CommandResponse, parse_command}

abbrev pub i64_max : ℕ
i64_max = 2 ^ 63 - 1

-- `-n`
abbrev pub negated : ℕ → ℤ
negated zero = pos 0
negated (suc n) = negsuc n

-- `str::parse::<i64>`
unfoldable pub parse_i64 : Text → Option ℤ
unfolding parse_radix parse_digits
parse_i64 [] = none
parse_i64 (c ∷ s) =
    if c == b'-'
    then (if is_empty s then none else parse_digits 10 (suc i64_max) 0 s >>=? λ n. some (negated n))
    else parse_radix 10 i64_max (c ∷ s) >>=? λ n. some (pos n)

pub record Floats : Type 0 where
  -- `Number::as_f64`, `str::parse::<f64>`, `f as i64`, `f != 0.0` and the two constants
  pub of_number : Number → Option ℕ
  pub parse_f64 : Text → Option ℕ
  pub to_i64 : ℕ → ℤ
  pub differs_from_zero : ℕ → Bool
  pub nought : ℕ
  pub one : ℕ

-- `Number::as_i64`
abbrev pub number_i64 : Number → Option ℤ
number_i64 (pos_int n) = if leb n i64_max then some (pos n) else none
number_i64 (neg_int n) = some (negsuc n)
number_i64 (float f) = none

abbrev pub or_else : Option ℤ → Option ℤ → Option ℤ
or_else none o = o
or_else (some n) o = some n

abbrev pub one_of : List Text → Text → Bool
one_of names s = any (text_eq s) names

abbrev pub true_names : List Text
true_names = str "true" ∷ str "on" ∷ str "1" ∷ str "yes" ∷ str "enabled" ∷ []

abbrev pub false_names : List Text
false_names = str "false" ∷ str "off" ∷ str "0" ∷ str "no" ∷ str "disabled" ∷ []

abbrev pub bool_of_name : Text → Option Bool
bool_of_name s =
    if one_of true_names s then some true else if one_of false_names s then some false else none

abbrev pub u32_max : ℕ
u32_max = 2 ^ 32 - 1

-- `u32::try_from`
abbrev pub to_u32 : ℤ → Option ℕ
to_u32 (pos n) = if leb n u32_max then some n else none
to_u32 (negsuc n) = none

abbrev pub prepend : {A : Type 0} → A → Res (List A) → Res (List A)
prepend a (err e) = err e
prepend a (ok more) = ok (a ∷ more)

module _ (floats : Floats) where
  unfoldable pub as_f64 : Value → Option ℕ
  unfolding trim
  as_f64 (number n) = floats.of_number n
  as_f64 (string s) = floats.parse_f64 (trim s)
  as_f64 (boolean b) = some (if b then floats.one else floats.nought)
  as_f64 _ = none

  unfoldable pub as_i64 : Value → Option ℤ
  unfolding trim parse_i64
  as_i64 (number n) = or_else (number_i64 n) (floats.of_number n >>=? λ f. some (floats.to_i64 f))
  as_i64 (string s) =
      or_else (parse_i64 (trim s)) (floats.parse_f64 (trim s) >>=? λ f. some (floats.to_i64 f))
  as_i64 (boolean b) = some (pos (if b then 1 else 0))
  as_i64 _ = none

  unfoldable pub as_bool : Value → Option Bool
  unfolding trim
  as_bool (boolean b) = some b
  as_bool (number n) = floats.of_number n >>=? λ f. some (floats.differs_from_zero f)
  as_bool (string s) = bool_of_name (map ascii_lower (trim s))
  as_bool _ = none

-- `{:?}` of an optional value, on that of a value
abbrev pub shown_option : (Value → Text) → Option Value → Text
shown_option shown none = str "None"
shown_option shown (some v) = str "Some(" ++ shown v ++ str ")"

-- `shown` prints a value for a message.
module _ (floats : Floats) (shown : Value → Text) where
  unfoldable pub value_f64 : CommandResponse → Res ℕ
  unfolding as_f64
  value_f64 r =
      ok_or (decode (str "expected numeric 'value', got " ++ shown_option shown r.value))
        (r.value >>=? as_f64 floats)

  unfoldable pub value_opt_f64 : CommandResponse → Res (Option ℕ)
  unfolding trim
  value_opt_f64 r = elim r.value [
    | none ↦ ok none
    | some v ↦ elim v [
      | null ↦ ok none
      | number n ↦ ok (floats.of_number n)
      | string s ↦ ok (floats.parse_f64 (trim s))
      | boolean b ↦ err (
          decode (
            str "expected numeric 'value' or a non-numeric reading, got "
            ++ shown_option shown (some (boolean b))))
      | object m ↦ err (
          decode (
            str "expected numeric 'value' or a non-numeric reading, got "
            ++ shown_option shown (some (object m))))
      | array vs ↦ err (
          decode (
            str "expected numeric 'value' or a non-numeric reading, got "
            ++ shown_option shown (some (array vs))))
    ]
  ]

  unfoldable pub value_i64 : CommandResponse → Res ℤ
  unfolding as_i64
  value_i64 r =
      ok_or (decode (str "expected integer 'value', got " ++ shown_option shown r.value))
        (r.value >>=? as_i64 floats)

  abbrev pub int_element : Value → Res ℕ
  int_element v =
      ok_or (decode (str "non-integer element in 'value': " ++ shown v))
        (as_i64 floats v >>=? to_u32)

  -- The first element that is no integer ends it.
  unfoldable pub int_elements : List Value → Res (List ℕ)
  unfolding as_i64
  int_elements [] = ok []
  int_elements (v ∷ vs) =
      let rest = int_elements vs in elim (int_element v) [ err e ↦ err e | ok n ↦ prepend n rest ]

  unfoldable pub value_int_list : CommandResponse → Res (List ℕ)
  unfolding int_elements
  value_int_list r = elim (r.value >>=? as_array) [
    | none ↦ err (decode (str "expected list 'value', got " ++ shown_option shown r.value))
    | some vs ↦ int_elements vs
  ]
