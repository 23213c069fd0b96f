-- ===== src/Number.antt =====
-- Signed integers, and strconv.Itoa and strconv.Atoi on a 64-bit machine.
pub mod RoundTrip
use jsm.Common.{
  ℕ, zero, suc, ◌+◌, ◌-◌, ◌*◌, ◌/◌, ◌%◌, ◌^◌, Bool, true, false, ◌&&◌, Option, none, some, [], ◌∷◌,
  ltb, leb, ◌==◌, if◌then◌else◌, Bytes,
}

-- `negsuc n` is -(n + 1).
pub data ℤ : Type 0 where
  pos : ℕ → ℤ
  negsuc : ℕ → ℤ

-- a - b, as an integer.
abbrev pub sub_ℕ : ℕ → ℕ → ℤ
sub_ℕ a b = if leb b a then pos (a - b) else negsuc (b - a - 1)

abbrev pub is_positive : ℤ → Bool
is_positive (pos zero) = false
is_positive (pos (suc n)) = true
is_positive (negsuc n) = false

-- The int64 that a product which is not negative wraps to.
abbrev pub int64_of : ℕ → ℤ
int64_of n = let m = n % 2 ^ 64 in if ltb m (2 ^ 63) then pos m else negsuc (2 ^ 64 - 1 - m)

-- The int64 product with a positive number.
abbrev pub times : ℤ → ℕ → ℤ
times (pos n) k = int64_of (n * k)
times (negsuc n) k = int64_of (2 ^ 64 - suc n * k % 2 ^ 64)

abbrev pub ltb_ℤ : ℤ → ℤ → Bool
ltb_ℤ (pos a) (pos b) = ltb a b
ltb_ℤ (pos a) (negsuc b) = false
ltb_ℤ (negsuc a) (pos b) = true
ltb_ℤ (negsuc a) (negsuc b) = ltb b a

-- The lowest digit first goes in front of those already printed; `n + 1` rounds are enough.
digits_from : ℕ → ℕ → Bytes → Bytes
digits_from zero n printed = printed
digits_from (suc fuel) n printed =
    let longer = digits_from fuel (n / 10) ((b'0' + n % 10) ∷ printed) in
    if ltb n 10 then (b'0' + n) ∷ printed else longer

unfoldable pub print_nat : ℕ → Bytes
unfolding digits_from
print_nat n = digits_from (suc n) n []

unfoldable pub itoa : ℤ → Bytes
unfolding print_nat
itoa (pos n) = print_nat n
itoa (negsuc n) = b'-' ∷ print_nat (suc n)

abbrev pub is_digit : ℕ → Bool
is_digit c = leb b'0' c && leb c b'9'

unfoldable pub parse_digits : ℕ → Bytes → Option ℕ
parse_digits n [] = some n
parse_digits n (c ∷ s) =
    let rest = parse_digits (n * 10 + (c - b'0')) s in if is_digit c then rest else none

-- An empty string of digits is a syntax error.
unfoldable pub parse_nat : Bytes → Option ℕ
unfolding parse_digits
parse_nat [] = none
parse_nat (c ∷ s) = parse_digits 0 (c ∷ s)

abbrev pub int_limit : ℕ
int_limit = 2 ^ 63

positive : Option ℕ → Option ℤ
positive none = none
positive (some n) = if ltb n int_limit then some (pos n) else none

negative : Option ℕ → Option ℤ
negative none = none
negative (some zero) = some (pos 0)
negative (some (suc n)) = if ltb n int_limit then some (negsuc n) else none

-- `none` is any error: bad syntax, or a value that an int64 cannot hold.
unfoldable pub atoi : Bytes → Option ℤ
unfolding parse_nat positive negative
atoi [] = none
atoi (c ∷ s) =
    if c == b'-'
    then negative (parse_nat s)
    else if c == b'+'
    then positive (parse_nat s)
    else positive (parse_nat (c ∷ s))
