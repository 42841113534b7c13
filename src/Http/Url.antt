-- ===== src/Http/Url.antt =====
-- ToHex, FromHex, UrlEncode and UrlDecode of beast/http_server/src/http_connection.cpp.
-- A char is a byte, 0 to 255; whether `char` is signed is the implementation's choice and an
-- argument, `true` on x86-64. `none` is a failed assertion, which aborts the process.
pub mod Decodes
pub mod RoundTrip
pub mod Alphabet
pub mod Tests
use cpp_network_programming.Base.{
  ℕ, zero, suc, ◌+◌, ◌-◌, ◌*◌, ◌/◌, ◌%◌, Bool, ◌&&◌, ◌||◌, Option, none, some, List, [], ◌∷◌, ◌++◌,
  Bytes, length, leb, ltb, ◌==◌, if◌then◌else◌, ◌>>=◌,
}

-- `num + 55` is computed in int and narrowed to unsigned char.
pub to_hex : ℕ → ℕ
to_hex num = if ltb 9 num then (num + 55) % 256 else (num + 48) % 256

unfoldable pub from_hex : ℕ → Option ℕ
from_hex ch =
    if leb b'A' ch && leb ch b'Z'
    then some (ch - b'A' + 10)
    else if leb b'a' ch && leb ch b'z'
    then some (ch - b'a' + 10)
    else if leb b'0' ch && leb ch b'9'
    then some (ch - b'0')
    else none

-- isalnum in the "C" locale, on the code as unsigned char. The C standard leaves a negative argument
-- undefined, which a char from 128 on is where char is signed; glibc gives false for it.
abbrev isalnum : ℕ → Bool
isalnum ch = leb b'0' ch && leb ch b'9' || leb b'A' ch && leb ch b'Z' || leb b'a' ch && leb ch b'z'

-- `ch >> 4` on the promoted int, narrowed to unsigned char: a negative char is `ch - 256`, and the
-- arithmetic shift makes it `ch / 16 - 16`.
pub high_bits : Bool → ℕ → ℕ
high_bits signed ch = if signed && leb 128 ch then (ch / 16 + 256 - 16) % 256 else ch / 16

-- The characters that `UrlEncode` copies.
pub is_kept : ℕ → Bool
is_kept ch = isalnum ch || ch == b'-' || ch == b'_' || ch == b'.' || ch == b'~'

-- What one round of the loop of `UrlEncode` appends.
pub encode_char : Bool → ℕ → Bytes
encode_char signed ch =
    if is_kept ch
    then ch ∷ []
    else if ch == b' '
    then b'+' ∷ []
    else b'%' ∷ to_hex (high_bits signed ch) ∷ to_hex (ch % 16) ∷ []

encode_loop : Bool → Bytes → Bytes → Bytes
encode_loop signed [] str_temp = str_temp
encode_loop signed (ch ∷ str) str_temp = encode_loop signed str (str_temp ++ encode_char signed ch)

pub url_encode : Bool → Bytes → Bytes
unfolding encode_loop
url_encode signed str = encode_loop signed str []

-- The two characters behind a '%', and the text behind them.
unfoldable pub decode_hex : Bytes → Option (ℕ × Bytes)
decode_hex (h ∷ l ∷ rest) = do
  high ← from_hex h
  low ← from_hex l
  some ((high * 16 + low) % 256, rest)
decode_hex _ = none

-- One round of the loop of `UrlDecode`, at `str[i] = ch`: the byte that it appends, and what it
-- leaves to read.
unfoldable pub decode_char : ℕ → Bytes → Option (ℕ × Bytes)
unfolding decode_hex
decode_char ch rest =
    if ch == b'+'
    then some (b' ', rest)
    else if ch == b'%'
    then decode_hex rest
    else some (ch, rest)

-- Every round reads a character at least, so the length of the text is enough fuel.
unfoldable pub decode_loop : ℕ → Bytes → Bytes → Option Bytes
decode_loop fuel [] str_temp = some str_temp
decode_loop zero (ch ∷ rest) str_temp = none
decode_loop (suc fuel) (ch ∷ rest) str_temp = do
  (b, left) ← decode_char ch rest
  decode_loop fuel left (str_temp ++ b ∷ [])

unfoldable pub url_decode : Bytes → Option Bytes
url_decode str = decode_loop (length str) str []
