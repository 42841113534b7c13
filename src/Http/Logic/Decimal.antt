-- ===== src/Http/Logic/Decimal.antt =====
-- The numbers that the handler of "/get_test" prints.
use cpp_network_programming.Base.{
  ℕ, zero, suc, ◌+◌, ◌-◌, ◌*◌, ◌/◌, ◌%◌, ◌≤◌, ◌<◌, ◌≡◌, ap, ◌∙◌, [], ◌∷◌, arith, Bytes, ltb, All,
  length, if_true, if_false, Bool-cases, inl, inr,
}
use cpp_network_programming.Http.Logic.{decimal, to_string}

-- The number that decimal digits stand for, after those of `n`.
abbrev pub read_decimal : ℕ → Bytes → ℕ
read_decimal n [] = n
read_decimal n (c ∷ s) = read_decimal (n * 10 + (c - b'0')) s

read_decimal-decimal :
    (fuel n : ℕ) (out : Bytes) → n < fuel → read_decimal 0 (decimal fuel n out) ≡ read_decimal n out
unfolding decimal
read_decimal-decimal zero n out h = absurd (omega arith)
read_decimal-decimal (suc fuel) n out h = elim (Bool-cases (ltb n 10)) [
  | inl one ↦
      let digit : 0 * 10 + (b'0' + n - b'0') ≡ n = omega arith in
      ap (read_decimal 0) (if_true _ _ _ one) ∙ ap (λ k. read_decimal k out) digit
  | inr more ↦
      let ten : 10 ≤ n = ground (arith, more) in
      let value : n / 10 * 10 + (b'0' + n % 10 - b'0') ≡ n = omega arith in
      ap (read_decimal 0) (if_false _ _ _ more)
      ∙ read_decimal-decimal fuel (n / 10) ((b'0' + n % 10) ∷ out) (omega (arith, ten))
      ∙ ap (λ k. read_decimal k out) value
]

-- `suc n` rounds are enough for all digits of `n`.
pub read_decimal-to_string : (n : ℕ) → read_decimal 0 (to_string n) ≡ n
unfolding to_string
read_decimal-to_string n = read_decimal-decimal (suc n) n [] (omega arith)

abbrev pub IsDigit : ℕ → Type 0
IsDigit c = (b'0' ≤ c) × (c ≤ b'9')

decimal-digits :
    (fuel n : ℕ) (out : Bytes) → All IsDigit out → n < fuel → All IsDigit (decimal fuel n out)
unfolding decimal
decimal-digits zero n out all h = absurd (omega arith)
decimal-digits (suc fuel) n out all h = elim (Bool-cases (ltb n 10)) [
  | inl one ↦ rw one ((omega arith, ground (arith, one)), all)
  | inr more ↦ rw more (
      decimal-digits fuel (n / 10) ((b'0' + n % 10) ∷ out) ((omega arith, omega arith), all)
        (ground (arith, more)))
]

decimal-longer :
    (fuel n : ℕ) (out : Bytes) → n < fuel → 1 + length out ≤ length (decimal fuel n out)
unfolding decimal
decimal-longer zero n out h = absurd (omega arith)
decimal-longer (suc fuel) n out h = elim (Bool-cases (ltb n 10)) [
  | inl one ↦ rw one (omega arith)
  | inr more ↦
      rw more
        (omega (arith, decimal-longer fuel (n / 10) ((b'0' + n % 10) ∷ out) (ground (arith, more))))
]

pub to_string-digits : (n : ℕ) → All IsDigit (to_string n) × (1 ≤ length (to_string n))
unfolding to_string
to_string-digits n = (
  decimal-digits (suc n) n [] tt (omega arith),
  omega (arith, decimal-longer (suc n) n [] (omega arith)),
)
