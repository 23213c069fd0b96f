-- ===== src/Handlers/Auth/Plain.antt =====
-- No application is in an answer of the authentication handlers.
use jsm.Common.{◌≡◌, inl, inr, true, some, List, [], ◌∷◌, arith, Option-cases, Bytes}
use jsm.Metrics.{Result-cases}
use jsm.Http.{Request, Response, write_json, write_json_error, decode, limit_body}
use jsm.RateLimit.{Key, scope_login, scope_signup, scope_reset_password}
use jsm.RateLimit.Guard.{Guard}
use jsm.Handlers.Shown.{is_plain, service_error_plain, decode_error_plain}
use jsm.Handlers.Auth.{
  AuthWire, Authenticator, authenticate_handler, logout_handler, reset_password_handler,
  sign_up_handler, email_key, user_key,
}

module _ {S : Type 0} (w : AuthWire) (service : Authenticator S) (guard : Guard S) (r : Request)
    (st : S) where
  pub logout_handler_plain : is_plain (logout_handler w service guard r st).0.body ≡ true
  unfolding logout_handler write_json write_json_error
  logout_handler_plain = elim (Result-cases (service.logout (w.session_id r) st).0) [
    | inl (cookies, e) ↦ ground (arith, e)
    | inr (x, e) ↦ ground (arith, e)
  ]

  module _
      (refusal_plain : (scope : Bytes) (keys : List Key) (s : S) (answer : Response)
        → (guard.allow_request r scope keys s).0 ≡ some answer
        → is_plain answer.body ≡ true) where
    pub authenticate_handler_plain :
        is_plain (authenticate_handler w service guard r st).0.body ≡ true
    unfolding authenticate_handler write_json write_json_error
    authenticate_handler_plain =
        elim (Result-cases (decode w.unmarshal_log_in (limit_body r.body))) [
          | inr (x, e) ↦ ground (arith, e, decode_error_plain x)
          | inl (req, e) ↦
              elim (Option-cases
                (guard.allow_request r scope_login (email_key w service guard req ∷ []) st).0) [
                  | inr (a, f) ↦ ground (
                    arith,
                    e,
                    f,
                    refusal_plain scope_login (email_key w service guard req ∷ []) st a,
                  )
                  | inl f ↦
                      elim (Result-cases
                        (service.authenticate req.email req.password
                          (guard.allow_request r scope_login (email_key w service guard req ∷ [])
                            st).1).0) [
                              | inl (cookies, g) ↦ ground (arith, e, f, g)
                              | inr (x, g) ↦ ground (arith, e, f, g)
                            ]
                ]
        ]

    pub reset_password_handler_plain :
        is_plain (reset_password_handler w service guard r st).0.body ≡ true
    unfolding reset_password_handler write_json write_json_error
    reset_password_handler_plain = elim (Option-cases r.user_id) [
      | inl u ↦ ground (arith, u)
      | inr (id, u) ↦ elim (Result-cases (decode w.unmarshal_change_password (limit_body r.body))) [
        | inr (x, e) ↦ ground (arith, u, e, decode_error_plain x)
        | inl (req, e) ↦
            let keys = user_key w service guard id ∷ [] in
            elim (Option-cases (guard.allow_request r scope_reset_password keys st).0) [
              | inr (a, f) ↦ ground (arith, u, e, f, refusal_plain scope_reset_password keys st a)
              | inl f ↦
                  elim (Result-cases
                    (service.change_password id (w.session_id r) req
                      (guard.allow_request r scope_reset_password keys st).1).0) [
                        | inl (cookies, g) ↦ ground (arith, u, e, f, g)
                        | inr (x, g) ↦ ground (arith, u, e, f, g, service_error_plain x)
                      ]
            ]
      ]
    ]

    pub sign_up_handler_plain : is_plain (sign_up_handler w service guard r st).0.body ≡ true
    unfolding sign_up_handler write_json write_json_error
    sign_up_handler_plain = elim (Result-cases (decode w.unmarshal_sign_up (limit_body r.body))) [
      | inr (x, e) ↦ ground (arith, e, decode_error_plain x)
      | inl (req, e) ↦ elim (Option-cases (guard.allow_request r scope_signup [] st).0) [
        | inr (a, f) ↦ ground (arith, e, f, refusal_plain scope_signup [] st a)
        | inl f ↦
            elim (Result-cases
              (service.create_user req (guard.allow_request r scope_signup [] st).1).0) [
                | inl (user, g) ↦ ground (arith, e, f, g)
                | inr (x, g) ↦ ground (arith, e, f, g)
              ]
      ]
    ]
