-- ===== src/Examples/Access.antt =====
-- The theorems on who may do what, at concrete inputs.
use jsm.Common.{
  ◌≤◌, ◌≡◌, refl, ◌↔◌, ◌⊎◌, true, false, not, ◌&&◌, ◌||◌, none, some, List, [], ◌∷◌, ◌++◌, arith,
  leb, length, any, Bytes, text, same, split,
}
use jsm.Metrics.{ok}
use jsm.Http.{cookie, Request, Response, write_json_error}
use jsm.Csrf.{mint_csrf_token, verify_csrf_token, sign_csrf, raw_url_encode}
use jsm.Csrf.Binding.{verify_csrf_token-mint_csrf_token, verify_csrf_token_sound}
use jsm.Password.{UnicodeTables, enforce_password_complexity}
use jsm.Password.Policy.{enforce_password_complexity_iff}
use jsm.Text.Utf8.{runes}
use jsm.Session.Middleware.{csrf_middleware, session_required}
use jsm.Session.Middleware.Guards.{
  csrf_middleware_guard, session_required_guard, IsForbidden, IsAuthorised, IsSignedIn,
}
use jsm.Handlers.Routes.{Endpoints, new_router, public_target, segments, protected_mux}
use jsm.Handlers.Routes.Protected.{new_router-IsRefused, IsRefused}
use jsm.Examples.Samples.{plain_hmac, manager, table, request, serve}

abbrev pub sessions : List (Bytes × Bytes)
sessions = (text "session:k", text "ann") ∷ []

abbrev all_served : Endpoints (List (Bytes × Bytes))
all_served = record {
  health = serve;
  login = serve;
  signup = serve;
  logout = serve;
  me = serve;
  reset_password = serve;
  list = serve;
  create = serve;
  get = serve;
  update = serve;
  delete = serve;
}

-- Nobody's request, to list the applications.
abbrev anonymous : Request
anonymous = request (text "GET") (text "/applications") (text "w") [] []

anonymous_private : public_target (text "GET") (text "/applications") ≡ none
unfolding public_target segments split
anonymous_private = refl

anonymous_signed_out :
    (user_id : Bytes)
    → ¬ IsSignedIn table manager
        (λ s. s)
        (protected_mux plain_hmac table manager (λ s. s) all_served)
        anonymous
        sessions
        user_id
unfolding cookie
anonymous_signed_out user_id i = absurd (ground (arith, i.sent))

new_router-IsRefused_example :
    IsRefused plain_hmac table manager
      (λ s. s)
      all_served
      (some (text "n"))
      anonymous
      sessions
      (new_router plain_hmac table manager (λ s. s) all_served (some (text "n")) anonymous sessions)
new_router-IsRefused_example =
    new_router-IsRefused plain_hmac table manager (λ s. s) all_served (some (text "n")) anonymous
      sessions anonymous_private anonymous_signed_out

abbrev posted : Request
posted =
    request (text "POST") (text "/applications") (text "w") ((text "X-Csrf-Token", text "t") ∷ [])
      ((text "c", text "t") ∷ (text "s", text "k") ∷ [])

abbrev checked_answer : Response × List (Bytes × Bytes)
checked_answer = csrf_middleware plain_hmac manager (some (text "n")) serve posted sessions

csrf_middleware_guard_example :
    IsForbidden plain_hmac manager posted serve sessions checked_answer
    ⊎ (IsAuthorised plain_hmac manager posted × (checked_answer ≡ serve posted sessions))
csrf_middleware_guard_example =
    csrf_middleware_guard plain_hmac manager posted serve sessions (some (text "n")) refl

session_required_guard_example :
    (session_required table manager (λ s. s) serve posted sessions
      ≡ (write_json_error "unauthorized" 401, sessions))
    ⊎ ((user_id : Bytes) × IsSignedIn table manager (λ s. s) serve posted sessions user_id
        × (session_required table manager (λ s. s) serve posted sessions
            ≡ serve (record posted { user_id = some user_id }) sessions))
session_required_guard_example = session_required_guard table manager (λ s. s) serve posted sessions

abbrev message : Bytes
message = raw_url_encode (text "n") ++ text "!k"

abbrev pub token : Bytes
token = message ++ b'.' ∷ sign_csrf plain_hmac (text "key") message

token_minted : mint_csrf_token plain_hmac (text "key") (some (text "n")) (text "k") ≡ ok token
unfolding mint_csrf_token sign_csrf
token_minted = refl

verify_csrf_token-mint_csrf_token_example :
    verify_csrf_token plain_hmac (text "key") token (text "j") ≡ same (text "k") (text "j")
verify_csrf_token-mint_csrf_token_example =
    verify_csrf_token-mint_csrf_token plain_hmac (text "key") (text "n") (text "k") (text "j") token
      (ground arith, tt) token_minted

token_verifies : verify_csrf_token plain_hmac (text "key") token (text "k") ≡ true
token_verifies =
    verify_csrf_token-mint_csrf_token plain_hmac (text "key") (text "n") (text "k") (text "k") token
      (ground arith, tt) token_minted

verify_csrf_token_sound_example :
    (nonce : Bytes) × (token
      ≡ (nonce ++ b'!' ∷ text "k")
        ++ b'.' ∷ sign_csrf plain_hmac (text "key") (nonce ++ b'!' ∷ text "k"))
verify_csrf_token_sound_example =
    verify_csrf_token_sound plain_hmac (text "key") token (text "k") token_verifies

abbrev pub tables : UnicodeTables
tables = record {
  is_upper = λ c. leb 65 c && leb c 90;
  is_punct = λ c. leb 33 c && leb c 47;
  is_symbol = λ c. false;
}

enforce_password_complexity_iff_example :
    (enforce_password_complexity tables (text "Abcdefg!") ≡ none) ↔ (
      (8 ≤ length (runes (text "Abcdefg!")))
      × (length (text "Abcdefg!") ≤ 72)
      × (any tables.is_upper (runes (text "Abcdefg!")) ≡ true)
      × (any
            (λ c. not (tables.is_upper c) && (tables.is_punct c || tables.is_symbol c))
            (runes (text "Abcdefg!"))
          ≡ true))
enforce_password_complexity_iff_example = enforce_password_complexity_iff tables (text "Abcdefg!")
