-- ===== src/Handlers/Auth.antt =====
-- backend/internal/http/handlers/auth.go, over the service and the guard.
pub mod Calls
pub mod Guessing
pub mod Plain
use jsm.Common.{Option, none, some, List, [], ◌∷◌, if◌then◌else◌, Bytes}
use jsm.Metrics.{
  AppError, Result, ok, err, errors_is, as_invalid, incorrect_credentials, email_taken,
}
use jsm.Domain.{User, LogInRequest, ChangePasswordRequest, SignUpRequest}
use jsm.Http.{
  Request, Response, Cookie, status_ok, user_body, write_json_error, write_json, with_cookies,
  limit_body, decode,
}
use jsm.RateLimit.{Key, scope_login, scope_signup, scope_reset_password, key_email, key_user}
use jsm.RateLimit.Guard.{Guard}
use jsm.Handlers.{write_service_error, write_decode_error, require_user, unauthorized}

-- The interface service.Authenticator over the state `S`.
pub record Authenticator (S : Type 0) : Type 0 where
  pub authenticate : (email password : Bytes) → S → Result (List Cookie) × S
  pub change_password :
      (user_id session_id : Bytes) → ChangePasswordRequest → S → Result (List Cookie) × S
  pub create_user : SignUpRequest → S → Result User × S
  pub logout : (session_id : Bytes) → S → Result (List Cookie) × S

pub record AuthWire : Type 0 where
  pub unmarshal_log_in : Bytes → Result LogInRequest
  pub unmarshal_change_password : Bytes → Result ChangePasswordRequest
  pub unmarshal_sign_up : Bytes → Result SignUpRequest
  pub session_id : Request → Bytes
  pub normalize_email : Bytes → Bytes

abbrev pub server_error : Response
server_error = write_json_error "INTERNAL_SERVER_ERROR" 500

-- Setting the cookies and answering {"status":"ok"}.
abbrev pub done : List Cookie → Response
done cookies = with_cookies cookies (write_json status_ok 200)

module _ {S : Type 0} (w : AuthWire) (service : Authenticator S) (guard : Guard S) where
  logged_out : Result (List Cookie) × S → Response × S
  logged_out (err e, st) = (server_error, st)
  logged_out (ok cookies, st) = (done cookies, st)

  unfoldable pub logout_handler : Request → S → Response × S
  unfolding logged_out
  logout_handler r st = logged_out (service.logout (w.session_id r) st)

  abbrev pub email_key : LogInRequest → Key
  email_key req = record {
    scope = scope_login;
    kind = key_email;
    value = w.normalize_email req.email;
  }

  log_in_error : AppError → Response
  log_in_error e =
      if errors_is e incorrect_credentials
      then write_json_error "INCORRECT_CREDENTIALS" 401
      else server_error

  logged_in : Request → LogInRequest → Result (List Cookie) × S → Response × S
  unfolding log_in_error
  logged_in r req (err e, st) = (log_in_error e, st)
  logged_in r req (ok cookies, st) =
      (done cookies, guard.reset_request r scope_login (email_key req ∷ []) st)

  attempt_log_in : Request → LogInRequest → Option Response × S → Response × S
  unfolding logged_in
  attempt_log_in r req (some refusal, st) = (refusal, st)
  attempt_log_in r req (none, st) = logged_in r req (service.authenticate req.email req.password st)

  unfoldable pub authenticate_handler : Request → S → Response × S
  unfolding attempt_log_in
  authenticate_handler r st = elim (decode w.unmarshal_log_in (limit_body r.body)) [
    | err e ↦ (write_decode_error e, st)
    | ok req ↦ attempt_log_in r req (guard.allow_request r scope_login (email_key req ∷ []) st)
  ]

  reset_done : Result (List Cookie) × S → Response × S
  reset_done (err e, st) = (write_service_error e, st)
  reset_done (ok cookies, st) = (done cookies, st)

  attempt_reset : Request → Bytes → ChangePasswordRequest → Option Response × S → Response × S
  unfolding reset_done
  attempt_reset r user_id req (some refusal, st) = (refusal, st)
  attempt_reset r user_id req (none, st) =
      reset_done (service.change_password user_id (w.session_id r) req st)

  abbrev pub user_key : Bytes → Key
  user_key user_id = record { scope = scope_reset_password; kind = key_user; value = user_id }

  unfoldable pub reset_password_handler : Request → S → Response × S
  unfolding attempt_reset require_user
  reset_password_handler r st = elim (require_user r) [
    | err e ↦ (unauthorized, st)
    | ok user_id ↦ elim (decode w.unmarshal_change_password (limit_body r.body)) [
      | err e ↦ (write_decode_error e, st)
      | ok req ↦
          attempt_reset r user_id req
            (guard.allow_request r scope_reset_password (user_key user_id ∷ []) st)
    ]
  ]

  sign_up_error : AppError → Response
  sign_up_error e =
      if errors_is e email_taken
      then write_json_error "EMAIL_ALREADY_REGISTERED" 409
      else elim (as_invalid e) [ some reason ↦ write_json_error reason 400 | none ↦ server_error ]

  signed_up : Result User × S → Response × S
  unfolding sign_up_error
  signed_up (err e, st) = (sign_up_error e, st)
  signed_up (ok user, st) = (write_json (user_body user) 201, st)

  attempt_sign_up : SignUpRequest → Option Response × S → Response × S
  unfolding signed_up
  attempt_sign_up req (some refusal, st) = (refusal, st)
  attempt_sign_up req (none, st) = signed_up (service.create_user req st)

  unfoldable pub sign_up_handler : Request → S → Response × S
  unfolding attempt_sign_up
  sign_up_handler r st = elim (decode w.unmarshal_sign_up (limit_body r.body)) [
    | err e ↦ (write_decode_error e, st)
    | ok req ↦ attempt_sign_up req (guard.allow_request r scope_signup [] st)
  ]
