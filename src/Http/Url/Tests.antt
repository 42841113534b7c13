-- ===== src/Http/Url/Tests.antt =====
-- The URL codec at concrete texts.
use cpp_network_programming.Base.{
  ◌≡◌, ◌↔◌, refl, true, false, none, some, [], ◌∷◌, arith, Bytes, codes, All,
}
use cpp_network_programming.Http.Url.{
  to_hex, from_hex, high_bits, is_kept, encode_char, url_encode, decode_hex, decode_char,
  decode_loop, url_decode,
}
use cpp_network_programming.Http.Url.Decodes.{Decodes, url_decode-Decodes}
use cpp_network_programming.Http.Url.RoundTrip.{IsPlain, url_decode-url_encode_signed}

encode_test : url_encode true (codes "a b&c~") ≡ codes "a+b%26c~"
unfolding url_encode encode_char is_kept high_bits to_hex
encode_test = refl

-- The byte 0xE4 is written as "%54" where `char` is signed, and read back as 0x54.
encode_signed_test : url_encode true (0xE4 ∷ []) ≡ codes "%54"
unfolding url_encode encode_char is_kept high_bits to_hex
encode_signed_test = refl

encode_unsigned_test : url_encode false (0xE4 ∷ []) ≡ codes "%E4"
unfolding url_encode encode_char is_kept high_bits to_hex
encode_unsigned_test = refl

decode_test : url_decode (codes "x+%2B%3d") ≡ some (codes "x +=")
unfolding url_decode decode_loop decode_char decode_hex from_hex
decode_test = refl

-- 'G' counts as a digit of value 16.
decode_letter_test : url_decode (codes "%0G") ≡ some (16 ∷ [])
unfolding url_decode decode_loop decode_char decode_hex from_hex
decode_letter_test = refl

decode_short_test : url_decode (codes "ab%4") ≡ none
unfolding url_decode decode_loop decode_char decode_hex from_hex
decode_short_test = refl

abbrev latin : Bytes
latin = b'a' ∷ 0xE4 ∷ b' ' ∷ []

url_decode-Decodes_example :
    (url_decode (codes "a+%2B") ≡ some (codes "a +")) ↔ Decodes 26 (codes "a+%2B") (codes "a +")
url_decode-Decodes_example = url_decode-Decodes (codes "a+%2B") (codes "a +")

url_decode-url_encode_signed_example :
    (url_decode (url_encode true latin) ≡ some latin) ↔ All (IsPlain true) latin
url_decode-url_encode_signed_example = url_decode-url_encode_signed latin (omega arith)
