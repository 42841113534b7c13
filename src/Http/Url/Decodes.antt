-- ===== src/Http/Url/Decodes.antt =====
-- The decoding that UrlDecode promises, as a relation, and that the loop implements it.
use mathlib.Core.Path.{subst}
use cpp_network_programming.Base.{
  ◌<◌, leb, ◌&&◌, ◌-◌, sym, ℕ, zero, suc, ◌+◌, ◌*◌, ◌%◌, ◌≤◌, ◌≡◌, ◌≢◌, ◌↔◌, some, [], ◌∷◌, ◌++◌,
  arith, Bytes, length, append-nil, append-snoc, inl, inr, ◌==◌, ==_iff, Bool-cases, >>=-eq-some,
  ◌∙◌,
}
use cpp_network_programming.Http.Url.{from_hex, decode_hex, decode_char, decode_loop, url_decode}

-- The value of a digit, where the first `letters` letters are digits from 10 on, of either case:
-- with 6 letters these are the hexadecimal digits.
pub data Digit (letters : ℕ) : ℕ → ℕ → Type 0 where
  numeral : (k : ℕ) → k < 10 → Digit letters (b'0' + k) k
  upper : (k : ℕ) → k < letters → Digit letters (b'A' + k) (10 + k)
  lower : (k : ℕ) → k < letters → Digit letters (b'a' + k) (10 + k)

-- A '+' stands for a space, '%' and two digits for a byte, any other character for itself.
pub data Decodes (letters : ℕ) : Bytes → Bytes → Type 0 where
  done : Decodes letters [] []
  plus : {s t : Bytes} → Decodes letters s t → Decodes letters (b'+' ∷ s) (b' ' ∷ t)
  escaped :
      {h l high low : ℕ} {s t : Bytes}
      → Digit letters h high
      → Digit letters l low
      → Decodes letters s t
      → Decodes letters (b'%' ∷ h ∷ l ∷ s) ((high * 16 + low) % 256 ∷ t)
  plain :
      {c : ℕ} {s t : Bytes}
      → c ≢ b'+'
      → c ≢ b'%'
      → Decodes letters s t
      → Decodes letters (c ∷ s) (c ∷ t)

-- FromHex knows 26 letters.
from_hex-Digit : {c v : ℕ} → Digit 26 c v → from_hex c ≡ some v
unfolding from_hex
from_hex-Digit (numeral k h) = ground arith
from_hex-Digit (upper k h) = ground arith
from_hex-Digit (lower k h) = ground arith

letter_value : {c d v w : ℕ} → c ≡ d → v ≡ w → Digit 26 d w → Digit 26 c v
letter_value {d} {v} ec ev h =
    subst (λ x. Digit 26 x v) (sym ec) (subst (λ y. Digit 26 d y) (sym ev) h)

Digit-from_hex : (c : ℕ) {v : ℕ} → from_hex c ≡ some v → Digit 26 c v
unfolding from_hex
Digit-from_hex c {v} e = elim (Bool-cases (leb b'A' c && leb c b'Z')) [
  | inl up ↦ letter_value (ground arith) (ground arith) (upper (c - b'A') (ground arith))
  | inr no_up ↦ elim (Bool-cases (leb b'a' c && leb c b'z')) [
    | inl low ↦ letter_value (ground arith) (ground arith) (lower (c - b'a') (ground arith))
    | inr no_low ↦ letter_value (ground arith) (ground arith) (numeral (c - b'0') (ground arith))
  ]
]

-- A text that decodes is decoded, by any fuel from its length on.
decode_loop_complete :
    {s t : Bytes} (d : Decodes 26 s t) (fuel : ℕ) (out : Bytes)
    → length s ≤ fuel
    → decode_loop fuel s out ≡ some (out ++ t)
unfolding decode_loop decode_char
decode_loop_complete done fuel out h = rw append-nil
decode_loop_complete (plus d) zero out h = absurd (omega arith)
decode_loop_complete (plus {s} {t} d) (suc fuel) out h =
    rw (decode_loop_complete d fuel (out ++ b' ' ∷ []) (omega arith)) (rw append-snoc)
decode_loop_complete (escaped a b d) zero out h = absurd (omega arith)
decode_loop_complete (escaped {high} {low} a b d) (suc fuel) out h =
    let c = (high * 16 + low) % 256 in
    rw (from_hex-Digit a, from_hex-Digit b)
      (rw (decode_loop_complete d fuel (out ++ c ∷ []) (omega arith)) (rw append-snoc))
decode_loop_complete (plain p q d) zero out h = absurd (omega arith)
decode_loop_complete (plain {c} {t} p q d) (suc fuel) out h =
    ground (arith, decode_loop_complete d fuel (out ++ c ∷ []) (omega arith), append-snoc out c t)

decode_hex-Decodes :
    (rest : Bytes) {left t : Bytes} {b : ℕ}
    → decode_hex rest ≡ some (b, left)
    → Decodes 26 left t
    → Decodes 26 (b'%' ∷ rest) (b ∷ t)
unfolding decode_hex
decode_hex-Decodes [] e d = cc
decode_hex-Decodes (h ∷ []) e d = cc
decode_hex-Decodes (h ∷ l ∷ r) {left} {b} e d =
    let (high, eh, e') = >>=-eq-some (from_hex h) _ e in
    let (low, el, e2) = >>=-eq-some (from_hex l) _ e' in
    let eb : b ≡ (high * 16 + low) % 256 = cc in
    let er : r ≡ left = cc in rw eb (escaped (Digit-from_hex h eh) (Digit-from_hex l el) (rw er d))

decode_char-Decodes :
    (ch : ℕ) (rest : Bytes) {left t : Bytes} {b : ℕ}
    → decode_char ch rest ≡ some (b, left)
    → Decodes 26 left t
    → Decodes 26 (ch ∷ rest) (b ∷ t)
unfolding decode_char
decode_char-Decodes ch rest {left} {t} {b} e d = elim (Bool-cases (ch == b'+')) [
  | inl p ↦
      let eb : b ≡ b' ' = ground arith in
      let er : rest ≡ left = ground arith in rw ((==_iff ch b'+').0 p, eb, er) (plus d)
  | inr np ↦ elim (Bool-cases (ch == b'%')) [
    | inl p ↦ rw ((==_iff ch b'%').0 p) (decode_hex-Decodes rest (ground arith) d)
    | inr nq ↦
        let eb : b ≡ ch = ground arith in
        let er : rest ≡ left = ground arith in rw (eb, er) (plain (ground arith) (ground arith) d)
  ]
]

-- What the loop returns is what it had and a decoding of the rest.
decode_loop_sound :
    (fuel : ℕ) (s out r : Bytes)
    → decode_loop fuel s out ≡ some r
    → (t : Bytes) × Decodes 26 s t × (r ≡ out ++ t)
unfolding decode_loop
decode_loop_sound fuel [] out r e = ([], done, cc (append-nil out))
decode_loop_sound zero (ch ∷ rest) out r e = cc
decode_loop_sound (suc fuel) (ch ∷ rest) out r e =
    let ((b, left), ec, e') = >>=-eq-some (decode_char ch rest) _ e in
    let (t, d, er) = decode_loop_sound fuel left (out ++ b ∷ []) r e' in
    (b ∷ t, decode_char-Decodes ch rest ec d, er ∙ append-snoc out b t)

-- UrlDecode returns `t` exactly when `s` decodes to `t`, where all 26 letters count as digits, with
-- the values 10 to 35, and not the first 6 alone; on any other text an assertion fails.
pub url_decode-Decodes : (s t : Bytes) → (url_decode s ≡ some t) ↔ Decodes 26 s t
unfolding url_decode
url_decode-Decodes s t = (
  λ e. let (t', d, er) = decode_loop_sound (length s) s [] t e in rw er d,
  λ d. decode_loop_complete d (length s) [] (omega arith),
)

Digit-more : {letters c v : ℕ} → letters ≤ 26 → Digit letters c v → Digit 26 c v
Digit-more few (numeral k h) = numeral k h
Digit-more few (upper k h) = upper k (omega (arith, h, few))
Digit-more few (lower k h) = lower k (omega (arith, h, few))

Decodes-more : {letters : ℕ} {s t : Bytes} → letters ≤ 26 → Decodes letters s t → Decodes 26 s t
Decodes-more few done = done
Decodes-more few (plus d) = plus (Decodes-more few d)
Decodes-more few (escaped h l d) =
    escaped (Digit-more few h) (Digit-more few l) (Decodes-more few d)
Decodes-more few (plain p q d) = plain p q (Decodes-more few d)

-- So what is encoded with hexadecimal digits is decoded.
url_decode-hexadecimal : (s t : Bytes) → Decodes 6 s t → url_decode s ≡ some t
url_decode-hexadecimal s t d = (url_decode-Decodes s t).1 (Decodes-more (omega arith) d)
