-- ===== src/Codec/Base64/Url.antt =====
-- `base64url_decode` of auth.rs reads what an encoder with the URL alphabet writes.
use lager_rs.Prelude.{
  ℕ, zero, suc, ◌+◌, ◌*◌, ◌/◌, ◌%◌, ◌^◌, ◌≡◌, refl, ap, ◌∙◌, true, some, [], ◌∷◌, ◌++◌, Bytes, all,
  all_mono, ◌==◌, arith, trim_end_by, keep_end,
}
use lager_rs.Codec.Base64.{group_bytes, url_group, url_groups, base64url_decode}
use lager_rs.Codec.Base64.Groups.{url_letter, IsAlphabet-url_letter}
use lager_rs.Codec.Base64.RoundTrip.{
  is_byte, digits_with, low, group_three, group_two, group_one, is_plain, no_pad, digits_with-plain,
  length-digits_with,
}

url_four :
    (v w x y : ℕ)
    → url_group 4 (((v * 64 + w) * 64 + x) * 64 + y)
      ≡ group_bytes 4 (v * 2 ^ 18 + w * 2 ^ 12 + x * 2 ^ 6 + y)
unfolding url_group
url_four v w x y = ap (group_bytes 4) (omega arith)

url_three :
    (v w x : ℕ)
    → url_group 3 ((v * 64 + w) * 64 + x) ≡ group_bytes 3 (v * 2 ^ 18 + w * 2 ^ 12 + x * 2 ^ 6)
unfolding url_group
url_three v w x = ap (group_bytes 3) (omega arith)

url_two : (v w : ℕ) → url_group 2 (v * 64 + w) ≡ group_bytes 2 (v * 2 ^ 18 + w * 2 ^ 12)
unfolding url_group
url_two v w = ap (group_bytes 2) (omega arith)

url_groups-three :
    (a b c : ℕ) (bs : Bytes)
    → all is_byte (a ∷ b ∷ c ∷ bs) ≡ true
    → url_groups (digits_with url_letter bs) ≡ some bs
    → url_groups (digits_with url_letter (a ∷ b ∷ c ∷ bs)) ≡ some (a ∷ b ∷ c ∷ bs)
unfolding url_groups
url_groups-three a b c bs h ih =
    let A = IsAlphabet-url_letter in
    let n = a * 65536 + b * 256 + c in
    rw (A.reads (n / 2 ^ 18 % 64) (low _)) (
      rw (A.reads (n / 2 ^ 12 % 64) (low _)) (
        rw (A.reads (n / 2 ^ 6 % 64) (low _)) (
          rw (A.reads (n / 2 ^ 0 % 64) (low _)) (
            rw ih (
              ap (λ g. some (g ++ bs))
                (url_four (n / 2 ^ 18 % 64) (n / 2 ^ 12 % 64) (n / 2 ^ 6 % 64) (n / 2 ^ 0 % 64))
              ∙ ap some (group_three a b c bs (ground arith) (ground arith) (ground arith)))))))

url_groups-digits :
    (bs : Bytes) → all is_byte bs ≡ true → url_groups (digits_with url_letter bs) ≡ some bs
url_groups-digits [] h = unfold url_groups in refl
url_groups-digits (a ∷ []) h =
    let A = IsAlphabet-url_letter in
    let n = a * 65536 in
    unfold url_groups in
    rw (A.reads (n / 2 ^ 18 % 64) (low _)) (
      rw (A.reads (n / 2 ^ 12 % 64) (low _))
        (ap some (url_two (n / 2 ^ 18 % 64) (n / 2 ^ 12 % 64) ∙ group_one a (ground arith))))
url_groups-digits (a ∷ b ∷ []) h =
    let A = IsAlphabet-url_letter in
    let n = a * 65536 + b * 256 in
    unfold url_groups in
    rw (A.reads (n / 2 ^ 18 % 64) (low _)) (
      rw (A.reads (n / 2 ^ 12 % 64) (low _)) (
        rw (A.reads (n / 2 ^ 6 % 64) (low _)) (
          ap some (
            url_three (n / 2 ^ 18 % 64) (n / 2 ^ 12 % 64) (n / 2 ^ 6 % 64)
            ∙ group_two a b (ground arith) (ground arith)))))
url_groups-digits (a ∷ b ∷ c ∷ bs) h =
    url_groups-three a b c bs h (url_groups-digits bs (ground arith))

abbrev pub pads : ℕ → Bytes
pads zero = []
pads (suc k) = b'=' ∷ pads k

trim_pads : (k : ℕ) → trim_end_by (λ c. c == b'=') (pads k) ≡ []
trim_pads zero = refl
trim_pads (suc k) = rw (trim_pads k)

trim_end_by-plain : (d : Bytes) → all no_pad d ≡ true → trim_end_by (λ c. c == b'=') d ≡ d
trim_end_by-plain [] h = refl
trim_end_by-plain (c ∷ []) h = ground arith
trim_end_by-plain (c ∷ e ∷ d) h = rw (trim_end_by-plain (e ∷ d) (ground arith))

trim_end_by-pads :
    (d : Bytes) (k : ℕ)
    → all no_pad d ≡ true
    → trim_end_by (λ c. c == b'=') (d ++ pads k) ≡ trim_end_by (λ c. c == b'=') d
trim_end_by-pads [] k h = trim_pads k
trim_end_by-pads (c ∷ d) k h =
    ap (keep_end (λ c. c == b'=') c) (trim_end_by-pads d k (ground arith))

-- Bytes, numbers below 256, survive base64url encoding and decoding, with any number of `=` behind
-- the digits.
pub base64url_decode-digits :
    (bs : Bytes) (k : ℕ)
    → all is_byte bs ≡ true
    → base64url_decode (digits_with url_letter bs ++ pads k) ≡ some bs
unfolding base64url_decode
base64url_decode-digits bs k h =
    let d = digits_with url_letter bs in
    let plain =
      all_mono is_plain no_pad d (λ c e. ground arith)
        (digits_with-plain IsAlphabet-url_letter bs) in
    rw (trim_end_by-pads d k plain ∙ trim_end_by-plain d plain)
      (rw (length-digits_with url_letter bs) (url_groups-digits bs h))
