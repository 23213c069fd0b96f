-- ===== src/Password.antt =====
-- The password policy of backend/internal/service/auth.go, and internal/authentication/password.go.
-- Package unicode's classes and bcrypt are parameters.
pub mod Policy
use jsm.Common.{
  ℕ, Bool, false, not, ◌&&◌, ◌||◌, Option, none, some, List, [], ◌∷◌, ltb, if◌then◌else◌, length,
  Bytes,
}
use jsm.Metrics.{
  AppError, Result, ok, err, insufficient_password_length, password_too_long, missing_uppercase,
  missing_special_characters,
}
use jsm.Text.Utf8.{runes}

pub record UnicodeTables : Type 0 where
  pub is_upper : ℕ → Bool
  pub is_punct : ℕ → Bool
  pub is_symbol : ℕ → Bool

-- bcrypt at the default cost; a hash is salted with the given bytes.
pub record Bcrypt : Type 0 where
  pub generate : (salt password : Bytes) → Result Bytes
  pub compare : (hash password : Bytes) → Bool

unfoldable pub hash_password : Bcrypt → (salt password : Bytes) → Result Bytes
hash_password b salt password = b.generate salt password

unfoldable pub verify_password : Bcrypt → (hash password : Bytes) → Bool
verify_password b hash password = b.compare hash password

abbrev pub min_password_runes : ℕ
min_password_runes = 8

abbrev pub max_password_bytes : ℕ
max_password_bytes = 72

module _ (tables : UnicodeTables) where
  open tables use {is_upper, is_punct, is_symbol}

  -- The loop, which stops as soon as both kinds are seen.
  unfoldable pub scan_classes : Bool → Bool → List ℕ → Bool × Bool
  scan_classes upper special [] = (upper, special)
  scan_classes upper special (c ∷ cs) =
      let upper' = upper || is_upper c in
      let special' = special || not (is_upper c) && (is_punct c || is_symbol c) in
      let rest = scan_classes upper' special' cs in
      if upper' && special' then (upper', special') else rest

  classes_error : Bool × Bool → Option AppError
  classes_error (upper, special) =
      if not upper
      then some missing_uppercase
      else if not special
      then some missing_special_characters
      else none

  unfoldable pub enforce_password_complexity : Bytes → Option AppError
  unfolding scan_classes classes_error
  enforce_password_complexity password =
      if ltb (length (runes password)) min_password_runes
      then some insufficient_password_length
      else if ltb max_password_bytes (length password)
      then some password_too_long
      else classes_error (scan_classes false false (runes password))
