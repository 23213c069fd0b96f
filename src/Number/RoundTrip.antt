-- ===== src/Number/RoundTrip.antt =====
-- Printing and reading back.
use jsm.Common.{
  ℕ, zero, suc, ◌+◌, ◌/◌, ◌%◌, ◌<◌, ◌≡◌, refl, sym, ap, ◌∙◌, ◌≢◌, true, some, [], ◌∷◌, arith, Bytes,
  Without,
}
use jsm.Number.{
  ℤ, pos, negsuc, digits_from, print_nat, itoa, is_digit, parse_digits, parse_nat, int_limit, atoi,
  positive,
}

parse_digits-digits_from :
    (fuel n : ℕ) (printed : Bytes)
    → n < fuel
    → parse_digits 0 (digits_from fuel n printed) ≡ parse_digits n printed
unfolding digits_from parse_digits
parse_digits-digits_from zero n printed h = absurd (omega arith)
parse_digits-digits_from (suc fuel) n printed h =
    ground (arith, parse_digits-digits_from fuel (n / 10) ((b'0' + n % 10) ∷ printed))

-- What `print_nat` prints begins with a digit.
abbrev pub FirstDigit : Bytes → Type 0
FirstDigit [] = ⊥
FirstDigit (c ∷ s) = is_digit c ≡ true

digits_from-FirstDigit :
    (fuel n : ℕ) (printed : Bytes) → n < fuel → FirstDigit (digits_from fuel n printed)
unfolding digits_from
digits_from-FirstDigit zero n printed h = absurd (omega arith)
digits_from-FirstDigit (suc fuel) n printed h =
    ground (arith, digits_from-FirstDigit fuel (n / 10) ((b'0' + n % 10) ∷ printed))

pub print_nat-FirstDigit : (n : ℕ) → FirstDigit (print_nat n)
unfolding print_nat
print_nat-FirstDigit n = digits_from-FirstDigit (suc n) n [] (omega arith)

parse_nat_of_FirstDigit : (s : Bytes) → FirstDigit s → parse_nat s ≡ parse_digits 0 s
unfolding parse_nat
parse_nat_of_FirstDigit [] h = absurd h
parse_nat_of_FirstDigit (c ∷ s) h = refl

pub parse_nat-print_nat : (n : ℕ) → parse_nat (print_nat n) ≡ some n
unfolding parse_digits print_nat
parse_nat-print_nat n =
    parse_nat_of_FirstDigit (print_nat n) (print_nat-FirstDigit n)
    ∙ parse_digits-digits_from (suc n) n [] (omega arith)

pub print_nat-injective : (m n : ℕ) → print_nat m ≡ print_nat n → m ≡ n
print_nat-injective m n e = cc (parse_nat-print_nat m, parse_nat-print_nat n)

atoi_of_FirstDigit : (s : Bytes) → FirstDigit s → atoi s ≡ positive (parse_nat s)
unfolding atoi
atoi_of_FirstDigit [] h = absurd h
atoi_of_FirstDigit (c ∷ s) h = ground arith

-- The integers that an int64 holds.
abbrev pub IsInt : ℤ → Type 0
IsInt (pos n) = n < int_limit
IsInt (negsuc n) = n < int_limit

-- Atoi reads back every int64 that Itoa prints.
pub atoi-itoa : (z : ℤ) → IsInt z → atoi (itoa z) ≡ some z
unfolding itoa
atoi-itoa (pos n) h =
    atoi_of_FirstDigit (print_nat n) (print_nat-FirstDigit n)
    ∙ (unfold atoi in rw (parse_nat-print_nat n) (ground arith))
atoi-itoa (negsuc n) h = unfold atoi in rw (parse_nat-print_nat (suc n)) (ground arith)

FirstDigit-ne : (s t : Bytes) → FirstDigit s → s ≢ b'-' ∷ t
FirstDigit-ne [] t h = absurd h
FirstDigit-ne (c ∷ s) t h = ground arith

pub itoa-injective : (a b : ℤ) → itoa a ≡ itoa b → a ≡ b
unfolding itoa
itoa-injective (pos m) (pos n) e = ap pos (print_nat-injective m n e)
itoa-injective (pos m) (negsuc n) e = absurd (FirstDigit-ne _ _ (print_nat-FirstDigit m) e)
itoa-injective (negsuc m) (pos n) e = absurd (FirstDigit-ne _ _ (print_nat-FirstDigit n) (sym e))
itoa-injective (negsuc m) (negsuc n) e = cc (print_nat-injective (suc m) (suc n) (cc))

digits_from-Without :
    (fuel n : ℕ) (printed : Bytes)
    → Without b':' printed
    → Without b':' (digits_from fuel n printed)
unfolding digits_from
digits_from-Without zero n printed h = h
digits_from-Without (suc fuel) n printed h =
    ground (arith, digits_from-Without fuel (n / 10) ((b'0' + n % 10) ∷ printed))

-- No colon is printed.
pub print_nat-Without : (n : ℕ) → Without b':' (print_nat n)
unfolding print_nat
print_nat-Without n = digits_from-Without (suc n) n [] tt
