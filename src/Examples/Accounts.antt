-- ===== src/Examples/Accounts.antt =====
-- The theorems on the accounts, at concrete inputs.
use jsm.Common.{
  ◌≡◌, refl, ◌⊎◌, true, false, none, some, List, [], ◌∷◌, ◌++◌, Bytes, text, same, cut, split,
}
use jsm.Metrics.{Result, ok, err, sentinel, incorrect_credentials}
use jsm.Domain.{User, ChangePasswordRequest, SignUpRequest}
use jsm.Http.{Cookie}
use jsm.Csrf.{mint_csrf_token, sign_csrf, raw_url_encode, url_encode}
use jsm.Mongo.UserDocuments.{matches_user, apply_user}
use jsm.Password.{enforce_password_complexity, hash_password}
use jsm.Text.Utf8.{runes}
use jsm.Accounts.{Deps, Inputs, Stores, authenticate, prepare_user}
use jsm.Accounts.Login.{
  authenticate_guard, IsLogin, IsSignedInCookies, authenticate-IsSignedInCookies,
}
use jsm.Accounts.SignUp.{IsNewUser, prepare_user-IsNewUser}
use jsm.Accounts.Email.{validate_email, is_email_domain}
use jsm.Sanitise.{clean}
use jsm.Text.{escape_string}
use jsm.Number.{pos}
use jsm.Session.{session_cookie, csrf_cookie, create_session, new_csrf_cookie}
use jsm.Mongo.Users.{lookup_user_by_email}
use jsm.Accounts.Email.{normalize_email}
use jsm.Text.{to_lower, trim_space}
use jsm.Password.{verify_password}
use jsm.Examples.Samples.{plain_hmac, manager, table, listed}
use jsm.Examples.Access.{sessions, tables}

-- A hash is the password behind its salt of one byte.
abbrev behind_salt : Bytes → Bytes
behind_salt [] = []
behind_salt (c ∷ s) = s

abbrev pub deps : Deps
deps = record {
  users = listed matches_user apply_user;
  rdb = table;
  sm = manager;
  hmac_sha256 = plain_hmac;
  bcrypt = record {
    generate = λ salt password. ok (b'$' ∷ password);
    compare = λ hash password. same (behind_salt hash) password;
  };
  tables = tables;
  unicode_lower = λ s. s;
  mail = record { parse_address = λ s. some ([], s) };
  object_id_from_hex = λ s. some s;
  object_id_hex = λ s. s;
  require_email_verification = false;
}

abbrev pub inputs : Inputs
inputs = record {
  nonce = some (text "n");
  uuid = text "u";
  salt = [];
  new_id = text "7";
  now = 5;
  now_text = text "5";
}

abbrev pub ann : User
ann = record {
  id = text "ann";
  email = text "a@x.y";
  email_normalized = text "a@x.y";
  password_hash = text "$Secret!!";
  name = text "Ann";
  email_verified = true;
  email_verified_at = none;
  created_at = 0;
  updated_at = 0;
}

abbrev pub stores : Stores deps
stores = record { accounts = ann ∷ []; sessions = sessions }

abbrev login_answer : Result (List Cookie) × Stores deps
login_answer = authenticate deps inputs (text "a@x.y") (text "Secret!!") stores

authenticate_guard_example :
    (login_answer ≡ (err (sentinel incorrect_credentials), stores))
    ⊎ ((user : User) × IsLogin deps inputs (text "a@x.y") (text "Secret!!") stores user
        × (login_answer.1.accounts ≡ stores.accounts))
authenticate_guard_example = authenticate_guard deps inputs (text "a@x.y") (text "Secret!!") stores

abbrev pub change : ChangePasswordRequest
change = record { current_password = text "Secret!!"; new_password = text "Abcdefg!" }

abbrev new_id : Bytes
new_id = url_encode (text "u")

abbrev new_message : Bytes
new_message = raw_url_encode (text "n") ++ b'!' ∷ new_id

abbrev new_cookies : List Cookie
new_cookies =
    session_cookie manager new_id (pos 0)
    ∷ csrf_cookie manager (new_message ++ b'.' ∷ sign_csrf plain_hmac (text "key") new_message)
    ∷ []

ann_logs_in : login_answer.0 ≡ ok new_cookies
unfolding authenticate lookup_user_by_email normalize_email to_lower trim_space verify_password
    create_session new_csrf_cookie mint_csrf_token
ann_logs_in = refl

authenticate-IsSignedInCookies_example :
    IsSignedInCookies deps inputs (url_encode (text "u")) new_cookies
authenticate-IsSignedInCookies_example =
    authenticate-IsSignedInCookies deps inputs (text "a@x.y") (text "Secret!!") stores ann_logs_in

abbrev pub sign_up_request : SignUpRequest
sign_up_request = record { email = text " a@x.yz"; password = text "Abcdefg!"; name = text "Ann" }

abbrev new_user : User
new_user = record {
  id = [];
  email = text "a@x.yz";
  email_normalized = text "a@x.yz";
  password_hash = text "$Abcdefg!";
  name = text "Ann";
  email_verified = true;
  email_verified_at = some 5;
  created_at = 0;
  updated_at = 0;
}

ann_signs_up : prepare_user deps inputs sign_up_request ≡ ok new_user
unfolding prepare_user validate_email trim_space runes cut is_email_domain split clean escape_string
    enforce_password_complexity hash_password normalize_email to_lower
ann_signs_up = refl

prepare_user-IsNewUser_example : IsNewUser deps inputs sign_up_request new_user
prepare_user-IsNewUser_example =
    prepare_user-IsNewUser deps inputs sign_up_request {user = new_user} ann_signs_up
