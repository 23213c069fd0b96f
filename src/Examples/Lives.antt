-- ===== src/Examples/Lives.antt =====
-- The theorems on the life of accounts and sessions, at concrete inputs.
use jsm.Common.{
  ◌≡◌, refl, ◌⊎◌, true, none, some, List, [], ◌∷◌, ◌++◌, arith, Bytes, text, cut, split,
}
use jsm.Number.{pos, negsuc}
use jsm.Metrics.{AppError, Result, ok, err}
use jsm.Domain.{User}
use jsm.Http.{Request, Cookie, cookie, write_json_error}
use jsm.Csrf.{mint_csrf_token, sign_csrf, raw_url_encode, url_encode}
use jsm.Password.{enforce_password_complexity, hash_password, verify_password}
use jsm.Text.{to_lower, trim_space, escape_string}
use jsm.Text.Utf8.{runes}
use jsm.Sanitise.{clean}
use jsm.Mongo.{failed}
use jsm.Mongo.Users.{
  id_is, email_normalized_is, lookup_user_by_email, lookup_user_by_id, create_user, edit_password,
}
use jsm.Session.{
  delete_session, clear_session_cookie, session_key, session_cookie, csrf_cookie, create_session,
  new_csrf_cookie, get_user_id_from_request,
}
use jsm.Session.Middleware.{session_required}
use jsm.Accounts.{Stores, authenticate, logout, prepare_user, sign_up, change_password}
use jsm.Accounts.Email.{normalize_email, validate_email, is_email_domain}
use jsm.Accounts.Login.{IsLogin, IsSignedInCookies}
use jsm.Accounts.Passwords.{IsChange}
use jsm.Accounts.Life.{authenticate-session_required, logout-session_required}
use jsm.Accounts.Returning.{sign_up-authenticate, created_session, change_password-stored}
use jsm.Examples.Samples.{plain_hmac, request, serve}
use jsm.Examples.Accounts.{inputs, change, sign_up_request}
use jsm.Examples.Stores.{
  hash_at, hashes-IsHashStore, unique_users-AreUsers, unique_users-HasUniqueEmails, stored_deps,
  stored_deps-Matches, empty_stores,
}

abbrev sid : Bytes
sid = url_encode (text "u")

abbrev message : Bytes
message = raw_url_encode (text "n") ++ b'!' ∷ sid

abbrev cookies : List Cookie
cookies =
    session_cookie stored_deps.sm sid (pos 2)
    ∷ csrf_cookie stored_deps.sm (message ++ b'.' ∷ sign_csrf plain_hmac (text "key") message)
    ∷ []

abbrev signed_in : Result (List Cookie) × Stores stored_deps
signed_in = authenticate stored_deps inputs (text "a@x.y") (text "Secret!!") empty_stores

signs_in : signed_in.0 ≡ ok cookies
unfolding authenticate lookup_user_by_email normalize_email to_lower trim_space verify_password
    create_session new_csrf_cookie mint_csrf_token
signs_in = refl

abbrev visit : Request
visit = request (text "GET") (text "/me") (text "w") [] ((text "s", sid) ∷ [])

sends : cookie visit (text "s") ≡ some sid
unfolding cookie
sends = refl

authenticate-session_required_example :
    (user : User) × IsLogin stored_deps inputs (text "a@x.y") (text "Secret!!") empty_stores user
    × ((session_required stored_deps.rdb stored_deps.sm (λ s. s) serve visit signed_in.1.sessions
          ≡ serve (record visit { user_id = some (b'#' ∷ user.id) }) signed_in.1.sessions)
        ⊎ ((e : AppError) × (get_user_id_from_request stored_deps.rdb stored_deps.sm
                signed_in.1.sessions sid
              ≡ err e)))
authenticate-session_required_example =
    authenticate-session_required stored_deps hash_at hashes-IsHashStore inputs (λ s. s) serve visit
      signed_in.1.sessions (text "a@x.y") (text "Secret!!") empty_stores refl (λ e. ground arith)
      (λ id e. ground arith) signs_in refl sends

abbrev left : Stores stored_deps
left = (logout stored_deps inputs sid signed_in.1).1

logout-session_required_example :
    (session_required stored_deps.rdb stored_deps.sm (λ s. s) serve visit left.sessions
      ≡ (write_json_error "unauthorized" 401, left.sessions))
    ⊎ ((e : AppError) × ((stored_deps.rdb.del signed_in.1.sessions (session_key sid)).0 ≡ some e))
unfolding url_encode raw_url_encode
logout-session_required_example =
    logout-session_required stored_deps hash_at hashes-IsHashStore inputs (λ s. s) serve visit
      left.sessions sid signed_in.1 (λ e. ground arith) refl sends

abbrev bob : User
bob = record {
  id = text "7";
  email = text "a@x.yz";
  email_normalized = text "a@x.yz";
  password_hash = text "$Abcdefg!";
  name = text "Ann";
  email_verified = true;
  email_verified_at = some 5;
  created_at = 5;
  updated_at = 5;
}

abbrev signed_up : Result User × Stores stored_deps
signed_up = sign_up stored_deps inputs sign_up_request empty_stores

signs_up : signed_up.0 ≡ ok bob
unfolding sign_up prepare_user validate_email trim_space runes cut is_email_domain split clean
    escape_string enforce_password_complexity hash_password normalize_email to_lower create_user
signs_up = refl

as_given :
    normalize_email stored_deps.unicode_lower (text " A@x.yz")
    ≡ normalize_email stored_deps.unicode_lower sign_up_request.email
unfolding normalize_email to_lower trim_space
as_given = refl

sign_up-authenticate_example :
    ((cookies : List Cookie) × ((authenticate stored_deps inputs
          (text " A@x.yz")
          (text "Abcdefg!")
          signed_up.1).0
        ≡ ok cookies)
      × IsSignedInCookies stored_deps inputs (url_encode (text "u")) cookies)
    ⊎ (((e : AppError) × (stored_deps.users.find_one signed_up.1.accounts
              (email_normalized_is (text "a@x.yz"))
            ≡ failed e))
        ⊎ (((e : AppError) × ((created_session stored_deps
                  (λ st. st)
                  unique_users-AreUsers
                  inputs
                  bob
                  signed_up.1).0
                ≡ err e))
            ⊎ (inputs.nonce ≡ none)))
sign_up-authenticate_example =
    sign_up-authenticate stored_deps (λ st. st) unique_users-AreUsers stored_deps-Matches
      unique_users-HasUniqueEmails inputs inputs sign_up_request empty_stores signed_up.1
      (text " A@x.yz") {user = bob} signs_up refl as_given

abbrev changed : Result (List Cookie) × Stores stored_deps
changed = change_password stored_deps inputs (text "#ann") (text "k") change empty_stores

abbrev farewell : List Cookie
farewell =
    session_cookie stored_deps.sm [] (negsuc 0)
    ∷ csrf_cookie stored_deps.sm
        (text "bg!" ++ b'.' ∷ sign_csrf plain_hmac (text "key") (text "bg!"))
    ∷ []

changes : changed.0 ≡ ok farewell
unfolding change_password lookup_user_by_id verify_password enforce_password_complexity runes
    hash_password edit_password delete_session new_csrf_cookie mint_csrf_token clear_session_cookie
    raw_url_encode
changes = refl

change_password-stored_example :
    (user : User) × (hash : Bytes) × IsChange stored_deps inputs
      (text "#ann")
      (text "k")
      change
      empty_stores
      user
    × (verify_password stored_deps.bcrypt hash (text "Abcdefg!") ≡ true)
    × ((lookup_user_by_id stored_deps.users stored_deps.object_id_from_hex changed.1.accounts
            (text "#ann")
          ≡ ok (record user { password_hash = hash; updated_at = 5 }))
        ⊎ ((id : Bytes) × (e : AppError) × (stored_deps.users.find_one changed.1.accounts (id_is id)
              ≡ failed e)))
change_password-stored_example =
    change_password-stored stored_deps (λ st. st) unique_users-AreUsers stored_deps-Matches inputs
      (text "#ann") (text "k") change empty_stores {cookies = farewell} changes
