-- ===== src/SyncEcho/Servers/Port.antt =====
-- `main` of basic/blocking_tcp_echo_server.cpp up to the call of `server`: the port from the
-- command line, by std::atoi and the conversion to an unsigned short.
pub mod Tests
use cpp_network_programming.Base.{
  ℕ, zero, suc, ◌+◌, ◌-◌, ◌*◌, ◌/◌, ◌%◌, ◌^◌, ◌≤◌, ◌<◌, ◌≡◌, refl, sym, ap, ◌∙◌, Bool, true, false,
  ◌&&◌, ◌||◌, Option, none, some, List, [], ◌∷◌, arith, Bytes, ltb, leb, ◌==◌, if◌then◌else◌,
  if_true, if_false, All, length,
}
use cpp_network_programming.Http.Logic.{to_string}
use cpp_network_programming.Http.Logic.Decimal.{
  IsDigit, read_decimal, read_decimal-to_string, to_string-digits,
}

is_space : ℕ → Bool
is_space c = c == 32 || (leb 9 c && leb c 13)

is_digit : ℕ → Bool
is_digit c = leb b'0' c && leb c b'9'

skip_spaces : Bytes → Bytes
skip_spaces [] = []
skip_spaces (c ∷ s) = if is_space c then skip_spaces s else c ∷ s

-- The number that the digits at the beginning stand for, after those of `n`.
digits : ℕ → Bytes → ℕ
digits n [] = n
digits n (c ∷ s) = if is_digit c then digits (n * 10 + (c - b'0')) s else n

-- Whether the number is negative, and its size.
signed_number : Bytes → Bool × ℕ
unfolding digits is_digit
signed_number [] = (false, 0)
signed_number (c ∷ s) =
    if c == b'-'
    then (true, digits 0 s)
    else if c == b'+'
    then (false, digits 0 s)
    else (false, digits 0 (c ∷ s))

-- The `unsigned short` that an `int` becomes.
to_unsigned_short : Bool × ℕ → ℕ
to_unsigned_short (true, n) = (65536 - n % 65536) % 65536
to_unsigned_short (false, n) = n % 65536

abbrev int_bound : Bool → ℕ
int_bound true = 2 ^ 31 + 1
int_bound false = 2 ^ 31

-- `std::atoi(argv[1])` as a port; `none` is the undefined behaviour of a number that no `int` holds.
port_argument : Bytes → Option ℕ
unfolding skip_spaces is_space signed_number to_unsigned_short
port_argument arg =
    let number = signed_number (skip_spaces arg) in
    if ltb number.1 (int_bound number.0) then some (to_unsigned_short number) else none

-- `main` prints its usage and returns 1, or serves a port.
pub data Start : Type 0 where
  usage : Start
  serves : ℕ → Start
  undefined : Start

serve : Option ℕ → Start
serve none = undefined
serve (some port) = serves port

-- `argv` with the name of the program.
pub blocking_main : List Bytes → Start
unfolding port_argument serve
blocking_main [] = usage
blocking_main (name ∷ []) = usage
blocking_main (name ∷ arg ∷ []) = serve (port_argument arg)
blocking_main (name ∷ arg ∷ more ∷ argv) = usage

digits-read_decimal : (n : ℕ) (s : Bytes) → All IsDigit s → digits n s ≡ read_decimal n s
unfolding digits is_digit
digits-read_decimal n [] h = refl
digits-read_decimal n (c ∷ s) h =
    let digit : is_digit c ≡ true = ground (arith, h.0) in
    if_true _ _ _ digit ∙ digits-read_decimal (n * 10 + (c - b'0')) s h.1

-- Digits have no spaces or sign in front.
signed_number-digits :
    (s : Bytes)
    → All IsDigit s
    → 1 ≤ length s
    → signed_number (skip_spaces s) ≡ (false, read_decimal 0 s)
unfolding signed_number skip_spaces is_space
signed_number-digits [] h some_digit = absurd (omega arith)
signed_number-digits (c ∷ s) h some_digit =
    let no_space : is_space c ≡ false = ground (arith, h.0) in
    let no_minus : (c == b'-') ≡ false = ground (arith, h.0) in
    let no_plus : (c == b'+') ≡ false = ground (arith, h.0) in
    ap signed_number (if_false _ _ _ no_space)
    ∙ if_false _ _ _ no_minus
    ∙ if_false _ _ _ no_plus
    ∙ ap (λ n. (false, n)) (digits-read_decimal 0 (c ∷ s) h)

-- The port that stands on the command line in decimal digits is served modulo 65536: 0 and those
-- below 65536 as they are, and a larger one as another, as long as an int holds it.
pub blocking_main-to_string :
    (name : Bytes) (n : ℕ)
    → n < 2 ^ 31
    → blocking_main (name ∷ to_string n ∷ []) ≡ serves (n % 65536)
unfolding blocking_main port_argument to_unsigned_short serve
blocking_main-to_string name n h =
    let (all, some_digit) = to_string-digits n in
    let number =
      signed_number-digits (to_string n) all some_digit
      ∙ ap (λ k. (false, k)) (read_decimal-to_string n) in
    let in_int : ltb n (2 ^ 31) ≡ true = ground (arith, h) in
    ap
      (λ (m : Bool × ℕ).
        serve (if ltb m.1 (int_bound m.0) then some (to_unsigned_short m) else none))
      number
    ∙ ap serve (if_true _ _ _ in_int)
