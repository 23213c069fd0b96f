-- ===== src/Handlers.antt =====
-- backend/internal/http/handlers: from a request to a service call and back. Decoding JSON and
-- reading the query string are parameters. Logging is left out.
pub mod Calls
pub mod Frame
pub mod Shown
pub mod Auth
pub mod Routes
use jsm.Common.{◌||◌, Option, none, some, List, [], ◌∷◌, if◌then◌else◌, Bytes, text, same}
use jsm.Number.{ℤ, pos, atoi}
use jsm.Metrics.{
  AppError, Result, ok, err, errors_is, as_invalid, as_max_bytes, application_not_found,
  incorrect_credentials, user_not_found, body_too_large,
}
use jsm.Domain.{
  ObjectId, User, Application, CreateApplicationRequest, UpdateApplicationRequest,
  ListApplicationsQuery, ApplicationPage,
}
use jsm.Http.{
  Request, Response, Body, no_body, status_ok, user_body, application_body, page_body,
  write_json_error, write_json, limit_body, decode,
}

-- writeServiceError
unfoldable pub write_service_error : AppError → Response
write_service_error e = elim (as_invalid e) [
  | some reason ↦ write_json_error reason 400
  | none ↦
      if errors_is e application_not_found
      then write_json_error "NOT_FOUND" 404
      else if errors_is e incorrect_credentials
      then write_json_error "INCORRECT_CREDENTIALS" 401
      else if errors_is e user_not_found
      then write_json_error "UNAUTHORIZED" 401
      else write_json_error "INTERNAL_SERVER_ERROR" 500
]

-- writeDecodeError
unfoldable pub write_decode_error : AppError → Response
write_decode_error e =
    if errors_is e body_too_large || as_max_bytes e
    then write_json_error "REQUEST_TOO_LARGE" 413
    else write_json_error "BAD_REQUEST" 400

unfoldable pub atoi_or : Bytes → ℤ → ℤ
atoi_or raw fallback =
    if same raw [] then fallback else elim (atoi raw) [ none ↦ fallback | some n ↦ n ]

-- requireUser
unfoldable pub require_user : Request → Result Bytes
require_user r = elim r.user_id [ none ↦ err (AppError.other "no user") | some id ↦ ok id ]

abbrev pub unauthorized : Response
unauthorized = write_json_error "UNAUTHORIZED" 401

-- The interface service.ApplicationService over the state `S`, and the service.UserReader and
-- service.HealthChecker.
pub record ApplicationService (S : Type 0) : Type 0 where
  pub create : Bytes → CreateApplicationRequest → S → Result Application × S
  pub get : Bytes → Bytes → S → Result Application
  pub list : Bytes → ListApplicationsQuery → S → Result ApplicationPage
  pub update : Bytes → Bytes → UpdateApplicationRequest → S → Result Application × S
  pub delete : Bytes → Bytes → S → Option AppError × S

-- What the handlers use of encoding/json, net/url and net/http's path values.
pub record Wire : Type 0 where
  pub unmarshal_create : Bytes → Result CreateApplicationRequest
  pub unmarshal_update : Bytes → Result UpdateApplicationRequest
  pub query_value : Request → Bytes → Bytes
  pub path_id : Request → Bytes

module _ {S : Type 0} (w : Wire) (service : ApplicationService S) where
  abbrev answer : (Application → Response) → Result Application × S → Response × S
  answer f (ok app, st) = (f app, st)
  answer f (err e, st) = (write_service_error e, st)

  -- A handler that needs a user: without one the answer is 401.
  abbrev as_user : (Bytes → S → Response × S) → Request → S → Response × S
  as_user f r st = elim (require_user r) [ err e ↦ (unauthorized, st) | ok id ↦ f id st ]

  pub query_of : Request → ListApplicationsQuery
  query_of r = record {
    status = w.query_value r (text "status");
    tag = w.query_value r (text "tag");
    search = w.query_value r (text "q");
    page = atoi_or (w.query_value r (text "page")) (pos 1);
    page_size = atoi_or (w.query_value r (text "page_size")) (pos 0);
  }

  unfoldable pub list_handler : Request → S → Response × S
  unfolding query_of require_user
  list_handler r =
      as_user
        (λ id st. elim (service.list id (query_of r) st) [
          | err e ↦ (write_service_error e, st)
          | ok page ↦ (write_json (page_body page) 200, st)
        ])
        r

  unfoldable pub get_handler : Request → S → Response × S
  unfolding require_user
  get_handler r =
      as_user
        (λ id st. elim (service.get id (w.path_id r) st) [
          | err e ↦ (write_service_error e, st)
          | ok app ↦ (write_json (application_body app) 200, st)
        ])
        r

  unfoldable pub create_handler : Request → S → Response × S
  unfolding require_user
  create_handler r =
      as_user
        (λ id st. elim (decode w.unmarshal_create (limit_body r.body)) [
          | err e ↦ (write_decode_error e, st)
          | ok req ↦
              answer (λ app. write_json (application_body app) 201) (service.create id req st)
        ])
        r

  unfoldable pub update_handler : Request → S → Response × S
  unfolding require_user
  update_handler r =
      as_user
        (λ id st. elim (decode w.unmarshal_update (limit_body r.body)) [
          | err e ↦ (write_decode_error e, st)
          | ok req ↦
              answer (λ app. write_json (application_body app) 200)
                (service.update id (w.path_id r) req st)
        ])
        r

  deleted : Option AppError × S → Response × S
  deleted (some e, st) = (write_service_error e, st)
  deleted (none, st) = (write_json no_body 204, st)

  unfoldable pub delete_handler : Request → S → Response × S
  unfolding require_user deleted
  delete_handler r = as_user (λ id st. deleted (service.delete id (w.path_id r) st)) r

-- userHandler.Me over the service.UserReader.
unfoldable pub me_handler : {S : Type 0} → (Bytes → S → Result User) → Request → S → Response × S
unfolding require_user
me_handler reader r st = elim (require_user r) [
  | err e ↦ (unauthorized, st)
  | ok id ↦ elim (reader id st) [
    | ok user ↦ (write_json (user_body user) 200, st)
    | err e ↦ (
      if errors_is e user_not_found
          then unauthorized
          else write_json_error "INTERNAL_SERVER_ERROR" 500,
      st,
    )
  ]
]

-- health.HealthCheck: both stores are always asked.
unfoldable pub health_check : (mongo redis : Option AppError) → List AppError
health_check none none = []
health_check (some e) none = AppError.wrapped "mongo" e ∷ []
health_check none (some e) = AppError.wrapped "redis" e ∷ []
health_check (some e) (some f) = AppError.wrapped "mongo" e ∷ AppError.wrapped "redis" f ∷ []

abbrev health_response : List AppError → Response
health_response [] = write_json status_ok 200
health_response (e ∷ es) = write_json_error "SERVICE_UNAVAILABLE" 503

-- healthHandler.HealthCheck
unfoldable pub health_handler : (mongo redis : Option AppError) → Response
unfolding health_check
health_handler mongo redis = health_response (health_check mongo redis)
