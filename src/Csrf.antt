-- ===== src/Csrf.antt =====
-- backend/internal/authentication/csrf.go: signed double-submit tokens. HMAC-SHA256 is a parameter,
-- of which nothing is assumed; base64 is written out.
pub mod Binding
use jsm.Common.{
  ℕ, ◌+◌, ◌-◌, ◌*◌, ◌/◌, ◌%◌, Bool, false, not, Option, none, some, [], ◌∷◌, ◌++◌, ltb, ◌==◌,
  if◌then◌else◌, length, Bytes, text, same, cut_last,
}
use jsm.Metrics.{Result, ok, err, other}

abbrev base64_digit : ℕ → ℕ
base64_digit n =
    if ltb n 26
    then b'A' + n
    else if ltb n 52
    then b'a' + (n - 26)
    else if ltb n 62
    then b'0' + (n - 52)
    else if n == 62
    then b'-'
    else b'_'

-- base64.RawURLEncoding.EncodeToString
unfoldable pub raw_url_encode : Bytes → Bytes
raw_url_encode [] = []
raw_url_encode (a ∷ []) = base64_digit (a / 4) ∷ base64_digit (a % 4 * 16) ∷ []
raw_url_encode (a ∷ b ∷ []) =
    base64_digit (a / 4) ∷ base64_digit (a % 4 * 16 + b / 16) ∷ base64_digit (b % 16 * 4) ∷ []
raw_url_encode (a ∷ b ∷ c ∷ s) =
    base64_digit (a / 4)
    ∷ base64_digit (a % 4 * 16 + b / 16)
    ∷ base64_digit (b % 16 * 4 + c / 64)
    ∷ base64_digit (c % 64)
    ∷ raw_url_encode s

-- base64.URLEncoding.EncodeToString, with padding.
unfoldable pub url_encode : Bytes → Bytes
unfolding raw_url_encode
url_encode s =
    raw_url_encode s
    ++ (if length s % 3 == 1 then text "==" else if length s % 3 == 2 then text "=" else [])

abbrev pub csrf_sig_separator : ℕ
csrf_sig_separator = b'.'

abbrev pub csrf_binding_separator : ℕ
csrf_binding_separator = b'!'

module _ (hmac_sha256 : Bytes → Bytes → Bytes) (csrf_secret : Bytes) where
  unfoldable pub sign_csrf : Bytes → Bytes
  sign_csrf message = raw_url_encode (hmac_sha256 csrf_secret message)

  -- The random bytes, or a failure of rand.Read.
  unfoldable pub mint_csrf_token : Option Bytes → Bytes → Result Bytes
  mint_csrf_token none session_id = err (other "crypto/rand")
  mint_csrf_token (some nonce) session_id =
      let message = raw_url_encode nonce ++ csrf_binding_separator ∷ session_id in
      ok (message ++ csrf_sig_separator ∷ sign_csrf message)

  bound_to : Option (Bytes × Bytes) → Bytes → Bool
  bound_to none session_id = false
  bound_to (some (nonce, bound_session)) session_id = same bound_session session_id

  verify_parts : Option (Bytes × Bytes) → Bytes → Bool
  unfolding bound_to
  verify_parts none session_id = false
  verify_parts (some (message, sig)) session_id =
      if not (same sig (sign_csrf message))
      then false
      else bound_to (cut_last csrf_binding_separator message) session_id

  unfoldable pub verify_csrf_token : Bytes → Bytes → Bool
  unfolding verify_parts
  verify_csrf_token token session_id = verify_parts (cut_last csrf_sig_separator token) session_id
