-- ===== src/Http/Url/RoundTrip.antt =====
-- What UrlDecode makes of the output of UrlEncode, for either signedness of char.
use cpp_network_programming.Base.{
  ℕ, zero, suc, ◌+◌, ◌-◌, ◌/◌, ◌%◌, ◌≤◌, ◌<◌, ◌≡◌, ◌≢◌, ◌↔◌, inl, inr, refl, sym, ◌∙◌, ap, Bool,
  true, false, ◌&&◌, Option, none, some, [], ◌∷◌, ◌++◌, arith, Bytes, length, append-nil,
  append-snoc, append_assoc, length-append, leb, ltb, ◌==◌, if◌then◌else◌, ◌>>=◌, >>=_assoc,
  >>=-some, >>=-eq-some, Bool-cases, All,
}
use cpp_network_programming.Http.Url.{
  to_hex, from_hex, high_bits, is_kept, encode_char, encode_loop, url_encode, decode_hex,
  decode_char, decode_loop, url_decode,
}

abbrev pub IsByte : ℕ → Type 0
IsByte c = c < 256

-- The hexadecimal digits are read back as the nibble that they were written for.
from_hex-to_hex : (n : ℕ) → n < 16 → from_hex (to_hex n) ≡ some n
unfolding from_hex to_hex
from_hex-to_hex n h = ground arith

-- The high bits of a negative char: one less than '0' for the lowest, then '0' to '6'.
from_hex-to_hex_wrapped :
    (n : ℕ) → 248 ≤ n → n < 256 → from_hex (to_hex n) ≡ (if ltb n 249 then none else some (n - 249))
unfolding from_hex to_hex
from_hex-to_hex_wrapped n h k = ground arith

-- A character that is copied is none that the decoder or the query parser treats specially.
pub is_kept-ne :
    (c : ℕ) → is_kept c ≡ true → (c ≢ b'+') × (c ≢ b'%') × (c ≢ b'&') × (c ≢ b'=') × (c ≢ b'?')
unfolding is_kept
is_kept-ne c h = ground arith

-- The byte that is read back for `c`; `none` is a failed assertion.
reread : Bool → ℕ → Option ℕ
reread signed c = if signed && leb 128 c then if ltb c 144 then none else some (c - 144) else some c

reread_all : Bool → Bytes → Option Bytes
reread_all signed [] = some []
reread_all signed (c ∷ s) = do b ← reread signed c; t ← reread_all signed s; some (b ∷ t)

-- A step of the loop against a step of `reread_all`.
collect_step :
    (m : Option ℕ) (r : Option Bytes) (loop : ℕ → Option Bytes) (out : Bytes)
    → ((b : ℕ) → loop b ≡ (r >>= λ t. some ((out ++ b ∷ []) ++ t)))
    → (m >>= loop) ≡ ((m >>= λ b. r >>= λ t. some (b ∷ t)) >>= λ t. some (out ++ t))
collect_step none r loop out h = refl
collect_step (some b) none loop out h = h b
collect_step (some b) (some t) loop out h = h b ∙ ap some (append-snoc out b t)

module _ (signed : Bool) where
  decode_hex-encode_char :
      (c : ℕ) (s : Bytes)
      → IsByte c
      → decode_hex (to_hex (high_bits signed c) ∷ to_hex (c % 16) ∷ s)
        ≡ (reread signed c >>= λ b. some (b, s))
  unfolding decode_hex high_bits reread
  decode_hex-encode_char c s h = ground (
    arith,
    from_hex-to_hex (c % 16) (omega arith),
    from_hex-to_hex (c / 16),
    from_hex-to_hex_wrapped ((c / 16 + 256 - 16) % 256),
  )

  is_kept-lt : (c : ℕ) → is_kept c ≡ true → c < 128
  unfolding is_kept
  is_kept-lt c h = ground arith

  decode_loop-encode_char :
      (fuel c : ℕ) (s out : Bytes)
      → IsByte c
      → decode_loop (suc fuel) (encode_char signed c ++ s) out
        ≡ (reread signed c >>= λ b. decode_loop fuel s (out ++ b ∷ []))
  unfolding decode_loop encode_char decode_char reread
  decode_loop-encode_char fuel c s out h = elim (Bool-cases (is_kept c)) [
    | inl k ↦ rw k (ground (arith, is_kept-ne c k, is_kept-lt c k))
    | inr nk ↦ elim (Bool-cases (c == b' ')) [
      | inl sp ↦ rw (nk, sp) (ground arith)
      | inr nsp ↦ rw (nk, nsp) (rw (decode_hex-encode_char c s h) (>>=_assoc (reread signed c) _ _))
    ]
  ]

  -- The output of `UrlEncode`, without the accumulator.
  unfoldable pub encoded : Bytes → Bytes
  encoded [] = []
  encoded (c ∷ s) = encode_char signed c ++ encoded s

  encode_loop-encoded : (s out : Bytes) → encode_loop signed s out ≡ out ++ encoded s
  unfolding encode_loop encoded
  encode_loop-encoded [] out = sym (append-nil out)
  encode_loop-encoded (c ∷ s) out = simp (encode_loop-encoded s, append_assoc)

  pub url_encode-encoded : (s : Bytes) → url_encode signed s ≡ encoded s
  unfolding url_encode
  url_encode-encoded s = encode_loop-encoded s []

  length-encode_char : (c : ℕ) → 1 ≤ length (encode_char signed c)
  unfolding encode_char
  length-encode_char c = ground arith

  decode_loop-encoded :
      (s : Bytes) (fuel : ℕ) (out : Bytes)
      → All IsByte s
      → length (encoded s) ≤ fuel
      → decode_loop fuel (encoded s) out ≡ (reread_all signed s >>= λ t. some (out ++ t))
  unfolding encoded reread_all
  decode_loop-encoded [] zero out h k = unfold decode_loop in rw append-nil
  decode_loop-encoded [] (suc fuel) out h k = unfold decode_loop in rw append-nil
  decode_loop-encoded (c ∷ s) zero out h k =
      absurd (omega (arith, length-append (encode_char signed c) (encoded s), length-encode_char c))
  decode_loop-encoded (c ∷ s) (suc fuel) out h k =
      let room : length (encoded s) ≤ fuel =
        omega (arith, length-append (encode_char signed c) (encoded s), length-encode_char c) in
      decode_loop-encode_char fuel c (encoded s) out h.0
      ∙ collect_step (reread signed c) (reread_all signed s) _ out
          (λ b. decode_loop-encoded s fuel (out ++ b ∷ []) h.1 room)

-- Decoding an encoded text gives each byte as it is read back.
url_decode-url_encode :
    (signed : Bool) (s : Bytes)
    → All IsByte s
    → url_decode (url_encode signed s) ≡ reread_all signed s
unfolding url_decode
url_decode-url_encode signed s h = rw (url_encode-encoded signed s) (
    decode_loop-encoded signed s (length (encoded signed s)) [] h (omega arith)
    ∙ >>=-some (reread_all signed s))

-- The bytes for which `char` is no obstacle: all where it is unsigned, ASCII where it is signed.
abbrev pub IsPlain : Bool → ℕ → Type 0
IsPlain true c = c < 128
IsPlain false c = c < 256

IsPlain-IsByte : (signed : Bool) (c : ℕ) → IsPlain signed c → IsByte c
IsPlain-IsByte true c h = omega arith
IsPlain-IsByte false c h = h

reread_all-IsPlain :
    (signed : Bool) (s : Bytes) → All (IsPlain signed) s → reread_all signed s ≡ some s
unfolding reread_all reread
reread_all-IsPlain signed [] h = refl
reread_all-IsPlain true (c ∷ s) h = ground (arith, reread_all-IsPlain true s h.1)
reread_all-IsPlain false (c ∷ s) h = ground (arith, reread_all-IsPlain false s h.1)

pub All-IsByte : (signed : Bool) (s : Bytes) → All (IsPlain signed) s → All IsByte s
All-IsByte signed [] h = tt
All-IsByte signed (c ∷ s) h = (IsPlain-IsByte signed c h.0, All-IsByte signed s h.1)

-- UrlDecode undoes UrlEncode on every text where `char` is unsigned, and on every ASCII text where
-- it is signed.
pub url_decode-url_encode_plain :
    (signed : Bool) (s : Bytes) → All (IsPlain signed) s → url_decode (url_encode signed s) ≡ some s
url_decode-url_encode_plain signed s h =
    url_decode-url_encode signed s (All-IsByte signed s h) ∙ reread_all-IsPlain signed s h

reread_all-ascii : (s : Bytes) → reread_all true s ≡ some s → All (IsPlain true) s
unfolding reread_all reread
reread_all-ascii [] e = tt
reread_all-ascii (c ∷ s) e =
    let (b, eb, e') = >>=-eq-some (reread true c) _ e in
    let (t, et, e2) = >>=-eq-some (reread_all true s) _ e' in
    let same : b ≡ c = cc in
    let rest : t ≡ s = cc in (ground arith, reread_all-ascii s (et ∙ ap some rest))

-- Where `char` is signed, and isalnum is false of a negative one, a text survives the round trip
-- exactly when it is ASCII: any other byte is changed, or aborts the process.
pub url_decode-url_encode_signed :
    (s : Bytes) → All IsByte s → (url_decode (url_encode true s) ≡ some s) ↔ All (IsPlain true) s
url_decode-url_encode_signed s h = (
  λ e. reread_all-ascii s (sym (url_decode-url_encode true s h) ∙ e),
  url_decode-url_encode_plain true s,
)
