-- ===== src/Codec/Tests.antt =====
-- The codecs on concrete bytes, and instances of their theorems.
use lager_rs.Prelude.{
  ◌≡◌, refl, some, none, [], ◌∷◌, Bytes, Text, str, utf8, upper_hex_byte, char_bytes,
}
use lager_rs.Codec.Base64.{
  base64_encode, base64_decode, base64url_decode, strip_padding, decode_groups, group_bytes, sextet,
  letter, letter_at, url_groups, url_group, val,
}
use lager_rs.Codec.Base64.RoundTrip.{base64_decode-base64_encode}
use lager_rs.Codec.Percent.{path_segment, segment_bytes}

abbrev firmware : Bytes
firmware = 0 ∷ 251 ∷ 16 ∷ 255 ∷ []

abbrev net_name : Text
net_name = str "uart/0 "

encode_firmware : base64_encode firmware ≡ str "APsQ/w=="
unfolding base64_encode letter_at letter
encode_firmware = refl

decode_lines : base64_decode (str "APsQ\n/w==") ≡ some firmware
unfolding base64_decode strip_padding decode_groups group_bytes sextet
decode_lines = refl

decode_long_pad : base64_decode (str "APsQ/w===") ≡ none
unfolding base64_decode strip_padding decode_groups group_bytes sextet
decode_long_pad = refl

url_digits : base64url_decode (str "-_8") ≡ some (251 ∷ 255 ∷ [])
unfolding base64url_decode url_groups url_group group_bytes val
url_digits = refl

segment_of_name : path_segment net_name ≡ str "uart%2F0%20"
unfolding path_segment utf8 char_bytes segment_bytes upper_hex_byte
segment_of_name = refl

base64_decode-base64_encode_example : base64_decode (base64_encode firmware) ≡ some firmware
base64_decode-base64_encode_example = base64_decode-base64_encode firmware refl
