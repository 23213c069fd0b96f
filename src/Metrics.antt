-- ===== src/Metrics.antt =====
-- backend/internal/common/metrics/def.go: the errors that every layer shares, and Go's
-- (value, error) results.
use jsm.Common.{ℕ, String, ◌≡◌, refl, ◌⊎◌, inl, inr, Bool, true, false, Option, none, some, ◌==◌}

-- The sentinel errors; `body_too_large` is jsmHttp's.
pub data Sentinel : Type 0 where
  user_not_found email_taken incorrect_credentials application_not_found body_too_large : Sentinel

-- `wrapped` is fmt.Errorf with %w; `max_bytes` is net/http's *MaxBytesError; `other` is any error
-- of a library.
pub data AppError : Type 0 where
  invalid_input : String → AppError
  sentinel : Sentinel → AppError
  max_bytes : AppError
  wrapped : String → AppError → AppError
  other : String → AppError

pub data Result {ℓ} (A : Type ℓ) : Type ℓ where
  ok : A → Result A
  err : AppError → Result A

-- `v, err := m; if err != nil { return err }; next(v)`
abbrev pub ◌>>=◌ {ℓ κ} : {V : Type ℓ} {W : Type κ} → Result V → (V → Result W) → Result W
err failure >>= next = err failure
ok v >>= next = next v

infixl 5 ◌>>=◌
-- A library's error, wrapped where the code wraps it.
abbrev pub wrap {ℓ} : {A : Type ℓ} → String → Result A → Result A
wrap context (ok a) = ok a
wrap context (err e) = err (wrapped context e)

abbrev index : Sentinel → ℕ
index user_not_found = 0
index email_taken = 1
index incorrect_credentials = 2
index application_not_found = 3
index body_too_large = 4

-- errors.Is against a sentinel.
unfoldable pub errors_is : AppError → Sentinel → Bool
errors_is (sentinel s) t = index s == index t
errors_is (wrapped context e) t = errors_is e t
errors_is (invalid_input reason) t = false
errors_is max_bytes t = false
errors_is (other message) t = false

-- errors.As into an InvalidInputError: its reason.
unfoldable pub as_invalid : AppError → Option String
as_invalid (invalid_input reason) = some reason
as_invalid (wrapped context e) = as_invalid e
as_invalid (sentinel s) = none
as_invalid max_bytes = none
as_invalid (other message) = none

-- errors.As into a *MaxBytesError.
unfoldable pub as_max_bytes : AppError → Bool
as_max_bytes max_bytes = true
as_max_bytes (wrapped context e) = as_max_bytes e
as_max_bytes (invalid_input reason) = false
as_max_bytes (sentinel s) = false
as_max_bytes (other message) = false

abbrev pub invalid_email : AppError
invalid_email = invalid_input "a valid email address is required"

abbrev pub insufficient_password_length : AppError
insufficient_password_length = invalid_input "password must be at least 8 characters"

abbrev pub password_too_long : AppError
password_too_long = invalid_input "password must be at most 72 bytes"

abbrev pub missing_uppercase : AppError
missing_uppercase = invalid_input "password must contain an uppercase letter"

abbrev pub missing_special_characters : AppError
missing_special_characters = invalid_input "password must contain a special character"

abbrev pub identical_passwords : AppError
identical_passwords = invalid_input "new password must differ from the current one"

pub Result-cases {ℓ} :
    {A : Type ℓ} (r : Result A) → ((a : A) × (r ≡ ok a)) ⊎ ((e : AppError) × (r ≡ err e))
Result-cases (ok a) = inl (a, refl)
Result-cases (err e) = inr (e, refl)
