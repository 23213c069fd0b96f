-- ===== src/Handlers/Shown.antt =====
-- Which applications an answer shows.
use jsm.Common.{
  ◌≡◌, sym, inl, inr, Bool, true, false, Option, some, arith, Option-cases, All, Bytes,
}
use mathlib.Core.Path.{subst}
use jsm.Metrics.{AppError, Result, ok, Result-cases}
use jsm.Domain.{
  Application, ApplicationPage, CreateApplicationRequest, UpdateApplicationRequest, User,
}
use jsm.Http.{
  Request, Body, no_body, status_ok, error_body, user_body, application_body, page_body, write_json,
  write_json_error, decode, limit_body,
}
use jsm.Mongo.Documents.{All-map}
use jsm.Handlers.{
  Wire, ApplicationService, write_service_error, write_decode_error, query_of, list_handler,
  get_handler, create_handler, update_handler, delete_handler, me_handler, health_handler,
}

-- No application is in the body.
abbrev pub is_plain : Body → Bool
is_plain (application_body app) = false
is_plain (page_body page) = false
is_plain _ = true

-- Every application in the body satisfies `P`.
abbrev pub Shows : (Application → Type 0) → Body → Type 0
Shows P (application_body app) = P app
Shows P (page_body page) = All P page.applications
Shows P _ = Unit

pub plain-Shows : (P : Application → Type 0) (b : Body) → is_plain b ≡ true → Shows P b
plain-Shows P no_body h = tt
plain-Shows P status_ok h = tt
plain-Shows P (error_body m) h = tt
plain-Shows P (user_body u) h = tt
plain-Shows P (application_body app) h = cc
plain-Shows P (page_body page) h = cc

pub Shows-map :
    {P Q : Application → Type 0} (b : Body)
    → ((app : Application) → P app → Q app)
    → Shows P b
    → Shows Q b
Shows-map no_body h s = tt
Shows-map status_ok h s = tt
Shows-map (error_body m) h s = tt
Shows-map (user_body u) h s = tt
Shows-map (application_body app) h s = h app s
Shows-map (page_body page) h s = All-map page.applications h s

pub service_error_plain : (e : AppError) → is_plain (write_service_error e).body ≡ true
unfolding write_service_error write_json_error
service_error_plain e = ground arith

pub decode_error_plain : (e : AppError) → is_plain (write_decode_error e).body ≡ true
unfolding write_decode_error write_json_error
decode_error_plain e = ground arith

module _ (P : Application → Type 0) {S : Type 0} (w : Wire) (service : ApplicationService S)
    (r : Request) (st : S) where
  pub delete_handler_plain : is_plain (delete_handler w service r st).0.body ≡ true
  unfolding delete_handler write_json write_json_error
  delete_handler_plain = elim (Option-cases r.user_id) [
    | inl e ↦ ground (arith, e)
    | inr (id, e) ↦ elim (Option-cases (service.delete id (w.path_id r) st).0) [
      | inl f ↦ ground (arith, e, f)
      | inr (x, f) ↦ ground (arith, e, f, service_error_plain x)
    ]
  ]

  pub get_handler-Shows :
      ((id : Bytes) (app : Application)
        → r.user_id ≡ some id
        → service.get id (w.path_id r) st ≡ ok app
        → P app)
      → Shows P (get_handler w service r st).0.body
  unfolding get_handler write_json write_json_error
  get_handler-Shows h = elim (Option-cases r.user_id) [
    | inl e ↦ plain-Shows P (get_handler w service r st).0.body (ground (arith, e))
    | inr (id, e) ↦ elim (Result-cases (service.get id (w.path_id r) st)) [
      | inr (x, f) ↦
          plain-Shows P (get_handler w service r st).0.body
            (ground (arith, e, f, service_error_plain x))
      | inl (app, f) ↦
          let shown : (get_handler w service r st).0.body ≡ application_body app =
            ground (arith, e, f) in
          subst (Shows P) (sym shown) (h id app e f)
    ]
  ]

  pub list_handler-Shows :
      ((id : Bytes) (page : ApplicationPage)
        → r.user_id ≡ some id
        → service.list id (query_of w service r) st ≡ ok page
        → All P page.applications)
      → Shows P (list_handler w service r st).0.body
  unfolding list_handler write_json write_json_error
  list_handler-Shows h = elim (Option-cases r.user_id) [
    | inl e ↦ plain-Shows P (list_handler w service r st).0.body (ground (arith, e))
    | inr (id, e) ↦ elim (Result-cases (service.list id (query_of w service r) st)) [
      | inr (x, f) ↦
          plain-Shows P (list_handler w service r st).0.body
            (ground (arith, e, f, service_error_plain x))
      | inl (page, f) ↦
          let shown : (list_handler w service r st).0.body ≡ page_body page =
            ground (arith, e, f) in
          subst (Shows P) (sym shown) (h id page e f)
    ]
  ]

  pub create_handler-Shows :
      ((id : Bytes) (req : CreateApplicationRequest) (app : Application)
        → r.user_id ≡ some id
        → (service.create id req st).0 ≡ ok app
        → P app)
      → Shows P (create_handler w service r st).0.body
  unfolding create_handler write_json write_json_error
  create_handler-Shows h = elim (Option-cases r.user_id) [
    | inl e ↦ plain-Shows P (create_handler w service r st).0.body (ground (arith, e))
    | inr (id, e) ↦ elim (Result-cases (decode w.unmarshal_create (limit_body r.body))) [
      | inr (x, f) ↦
          plain-Shows P (create_handler w service r st).0.body
            (ground (arith, e, f, decode_error_plain x))
      | inl (req, f) ↦ elim (Result-cases (service.create id req st).0) [
        | inr (x, g) ↦
            plain-Shows P (create_handler w service r st).0.body
              (ground (arith, e, f, g, service_error_plain x))
        | inl (app, g) ↦
            let shown : (create_handler w service r st).0.body ≡ application_body app =
              ground (arith, e, f, g) in
            subst (Shows P) (sym shown) (h id req app e g)
      ]
    ]
  ]

  pub update_handler-Shows :
      ((id : Bytes) (req : UpdateApplicationRequest) (app : Application)
        → r.user_id ≡ some id
        → (service.update id (w.path_id r) req st).0 ≡ ok app
        → P app)
      → Shows P (update_handler w service r st).0.body
  unfolding update_handler write_json write_json_error
  update_handler-Shows h = elim (Option-cases r.user_id) [
    | inl e ↦ plain-Shows P (update_handler w service r st).0.body (ground (arith, e))
    | inr (id, e) ↦ elim (Result-cases (decode w.unmarshal_update (limit_body r.body))) [
      | inr (x, f) ↦
          plain-Shows P (update_handler w service r st).0.body
            (ground (arith, e, f, decode_error_plain x))
      | inl (req, f) ↦ elim (Result-cases (service.update id (w.path_id r) req st).0) [
        | inr (x, g) ↦
            plain-Shows P (update_handler w service r st).0.body
              (ground (arith, e, f, g, service_error_plain x))
        | inl (app, g) ↦
            let shown : (update_handler w service r st).0.body ≡ application_body app =
              ground (arith, e, f, g) in
            subst (Shows P) (sym shown) (h id req app e g)
      ]
    ]
  ]

pub me_handler_plain :
    {S : Type 0} (reader : Bytes → S → Result User) (r : Request) (st : S)
    → is_plain (me_handler reader r st).0.body ≡ true
unfolding me_handler write_json write_json_error
me_handler_plain reader r st = elim (Option-cases r.user_id) [
  | inl e ↦ ground (arith, e)
  | inr (id, e) ↦ elim (Result-cases (reader id st)) [
    | inl (u, f) ↦ ground (arith, e, f)
    | inr (x, f) ↦ ground (arith, e, f)
  ]
]

pub health_handler_plain :
    (mongo redis : Option AppError) → is_plain (health_handler mongo redis).body ≡ true
unfolding health_handler write_json write_json_error
health_handler_plain mongo redis = ground arith
