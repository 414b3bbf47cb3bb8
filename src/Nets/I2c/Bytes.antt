-- ===== src/Nets/I2c/Bytes.antt =====
-- What comes over the bus fits its type.
use lager_rs.Prelude.{
  ℕ, ◌≡◌, refl, subst, Bool, true, Option, none, some, List, [], ◌∷◌, Text, ◌++◌, str, ok, err, ℤ,
  pos, negsuc, all, leb, ok_or, ◌>>=?◌, arith,
}
use lager_rs.Json.{Value, as_array}
use lager_rs.Error.{Error, Res, decode}
use lager_rs.Wire.Envelope.{CommandResponse}
use lager_rs.Wire.Values.{Floats, as_i64, prepend, shown_option}
use lager_rs.Nets.I2c.{
  to_bounded, u8_max, u16_max, element, elements, parse_elements, parse_bytes, parse_addresses,
}

abbrev pub within : ℕ → ℕ → Bool
within top n = leb n top

to_bounded-fits : (top : ℕ) (z : ℤ) (n : ℕ) → to_bounded top z ≡ some n → leb n top ≡ true
to_bounded-fits top (pos m) n h = ground arith
to_bounded-fits top (negsuc m) n h = cc

ok_or-fits :
    (e : Error) (top : ℕ) (o : Option ℤ) (n : ℕ)
    → ok_or e (o >>=? to_bounded top) ≡ ok n
    → leb n top ≡ true
ok_or-fits e top none n h = cc
ok_or-fits e top (some (pos m)) n h = ground arith
ok_or-fits e top (some (negsuc m)) n h = cc

prepend-all :
    (p : ℕ → Bool) (r : Res ℕ) (rest : Res (List ℕ)) (ns : List ℕ)
    → ((n : ℕ) → r ≡ ok n → p n ≡ true)
    → ((ns : List ℕ) → rest ≡ ok ns → all p ns ≡ true)
    → elim r [ err e ↦ err e | ok n ↦ prepend n rest ] ≡ ok ns
    → all p ns ≡ true
prepend-all p (err e) rest ns one more h = cc
prepend-all p (ok n) (err e) ns one more h = cc
prepend-all p (ok n) (ok ms) ns one more h =
    let e : (n ∷ ms) ≡ ns = cc in subst (λ ns. all p ns ≡ true) e (rw (one n refl) (more ms refl))

module _ (floats : Floats) (shown display : Value → Text) where
  elements-all :
      (top : ℕ) (what : Text) (vs : List Value) (ns : List ℕ)
      → elements floats shown display top what vs ≡ ok ns
      → all (within top) ns ≡ true
  elements-all top what [] ns h =
      let e : [] ≡ ns = cc in subst (λ ns. all (within top) ns ≡ true) e refl
  elements-all top what (v ∷ vs) ns h =
      prepend-all (within top) (element floats shown display top what v)
        (elements floats shown display top what vs) ns
        (λ n k. ok_or-fits (decode (what ++ shown v)) top (as_i64 floats v) n k)
        (λ ms k. elements-all top what vs ms k) h

  parse_elements-all :
      (top : ℕ) (no_list what : Text) (r : CommandResponse) (ns : List ℕ)
      → parse_elements floats shown display top no_list what r ≡ ok ns
      → all (within top) ns ≡ true
  parse_elements-all top no_list what r ns h =
      elim (r.value >>=? as_array)
          as (λ o.
            elim o [
              | none ↦ err (decode (no_list ++ shown_option shown r.value))
              | some vs ↦ elements floats shown display top what vs
            ]
              ≡ ok ns
            → all (within top) ns ≡ true) [
              | none ↦ λ k. cc
              | some vs ↦ λ k. elements-all top what vs ns k
            ]
        h

  -- What an I2C read gives are bytes.
  pub parse_bytes-all :
      (r : CommandResponse) (ns : List ℕ)
      → parse_bytes floats shown display r ≡ ok ns
      → all (within u8_max) ns ≡ true
  unfolding parse_bytes
  parse_bytes-all r ns h =
      parse_elements-all u8_max (str "expected byte list, got ") (str "non-byte element: ") r ns h

  -- What an I2C scan gives are numbers of 16 bits.
  pub parse_addresses-all :
      (r : CommandResponse) (ns : List ℕ)
      → parse_addresses floats shown display r ≡ ok ns
      → all (within u16_max) ns ≡ true
  unfolding parse_addresses
  parse_addresses-all r ns h =
      parse_elements-all u16_max (str "expected address list, got ") (str "non-address element: ") r
        ns h
