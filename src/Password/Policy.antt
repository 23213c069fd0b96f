-- ===== src/Password/Policy.antt =====
-- When a password is accepted.
use jsm.Common.{
  ℕ, ◌≤◌, ◌≡◌, ◌↔◌, Bool, true, false, not, ◌&&◌, ◌||◌, none, List, [], ◌∷◌, arith, length, any,
  Bytes,
}
use jsm.Text.Utf8.{runes}
use jsm.Password.{UnicodeTables, scan_classes, classes_error, enforce_password_complexity}

module _ (tables : UnicodeTables) where
  open tables use {is_upper, is_punct, is_symbol}

  abbrev pub is_special : ℕ → Bool
  is_special c = not (is_upper c) && (is_punct c || is_symbol c)

  scan_classes-any :
      (upper special : Bool) (cs : List ℕ)
      → ((scan_classes tables upper special cs).0 && (scan_classes tables upper special cs).1)
        ≡ ((upper || any is_upper cs) && (special || any is_special cs))
  unfolding scan_classes
  scan_classes-any upper special [] = ground arith
  scan_classes-any upper special (c ∷ cs) = ground (
    arith,
    scan_classes-any (upper || is_upper c)
        (special || not (is_upper c) && (is_punct c || is_symbol c)) cs,
  )

  -- A password passes exactly if it has 8 characters or more, 72 bytes at most, an uppercase
  -- letter, and a punctuation mark or symbol.
  pub enforce_password_complexity_iff :
      (password : Bytes)
      → (enforce_password_complexity tables password ≡ none) ↔ (
          (8 ≤ length (runes password))
          × (length password ≤ 72)
          × (any is_upper (runes password) ≡ true)
          × (any is_special (runes password) ≡ true))
  unfolding enforce_password_complexity classes_error
  enforce_password_complexity_iff password =
      ground (arith, scan_classes-any false false (runes password))
