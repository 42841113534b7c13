-- ===== src/Http/Url/Alphabet.antt =====
-- The characters that UrlEncode writes, for either signedness of char.
use cpp_network_programming.Base.{
  ℕ, ◌%◌, ◌<◌, ◌≢◌, Bool, [], ◌∷◌, arith, Bytes, All, All-append, inl, ◌⊎◌, ◌≤◌,
}
use cpp_network_programming.Http.Url.{to_hex, high_bits, encode_char, url_encode}
use cpp_network_programming.Http.Url.RoundTrip.{IsByte, is_kept-ne, encoded, url_encode-encoded}

-- No character that ends a path, a key, or a pair in a query.
abbrev pub IsInert : ℕ → Type 0
IsInert c = (c ≢ b'&') × (c ≢ b'=') × (c ≢ b'?')

-- What the two shifts give: a nibble, or the wrapped high bits of a negative char.
abbrev IsDigitArg : ℕ → Type 0
IsDigitArg n = (n < 16) ⊎ ((248 ≤ n) × (n < 256))

to_hex-IsInert : (n : ℕ) → IsDigitArg n → IsInert (to_hex n)
unfolding to_hex
to_hex-IsInert n h = ground arith

high_bits-IsDigitArg : (signed : Bool) (c : ℕ) → IsByte c → IsDigitArg (high_bits signed c)
unfolding high_bits
high_bits-IsDigitArg signed c h = ground arith

encode_char-IsInert : (signed : Bool) (c : ℕ) → IsByte c → All IsInert (encode_char signed c)
unfolding encode_char
encode_char-IsInert signed c h = ground (
  arith,
  is_kept-ne c,
  to_hex-IsInert (high_bits signed c) (high_bits-IsDigitArg signed c h),
  to_hex-IsInert (c % 16) (inl (omega arith)),
)

encoded-IsInert : (signed : Bool) (s : Bytes) → All IsByte s → All IsInert (encoded signed s)
unfolding encoded
encoded-IsInert signed [] h = tt
encoded-IsInert signed (c ∷ s) h =
    All-append IsInert (encode_char signed c) (encoded signed s) (encode_char-IsInert signed c h.0)
      (encoded-IsInert signed s h.1)

-- UrlEncode leaves no '&', '=' or '?' in its output.
pub url_encode-IsInert :
    (signed : Bool) (s : Bytes) → All IsByte s → All IsInert (url_encode signed s)
url_encode-IsInert signed s h = rw url_encode-encoded (encoded-IsInert signed s h)
