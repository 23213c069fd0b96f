-- ===== src/Handlers/Auth/Calls.antt =====
-- The call that a handler of backend/internal/handlers/auth.go makes, as far as the limiter's calls
-- around it leave alone what is looked at.
use jsm.Common.{◌≡◌, ◌⊎◌, inl, inr, some, List, [], ◌∷◌, arith, Option-cases, Bytes}
use jsm.Metrics.{Result-cases, ok}
use jsm.Domain.{LogInRequest, ChangePasswordRequest, SignUpRequest}
use jsm.Http.{Request, decode, limit_body}
use jsm.RateLimit.{Key, scope_login, scope_signup, scope_reset_password}
use jsm.RateLimit.Guard.{Guard}
use jsm.Handlers.Auth.{
  AuthWire, Authenticator, authenticate_handler, logout_handler, reset_password_handler,
  sign_up_handler, email_key, user_key,
}

-- `view` is what is looked at.
module _ {S V : Type 0} (view : S → V) (r : Request) (st : S) (w : AuthWire)
    (service : Authenticator S) (guard : Guard S)
    (allow_keeps : (scope : Bytes) (keys : List Key) (s : S)
      → view (guard.allow_request r scope keys s).1 ≡ view s) where
  -- The handler changes nothing that is looked at, or what the service's call changes.
  abbrev pub Calls : S → (S → S) → Type 0
  Calls after call =
      (view after ≡ view st) ⊎ ((s : S) × (view s ≡ view st) × (view after ≡ view (call s)))

  pub authenticate_handler-Calls :
      ((scope : Bytes) (keys : List Key) (s : S)
        → view (guard.reset_request r scope keys s) ≡ view s)
      → (view (authenticate_handler w service guard r st).1 ≡ view st)
        ⊎ ((req : LogInRequest) × (decode w.unmarshal_log_in (limit_body r.body) ≡ ok req)
            × Calls
                (authenticate_handler w service guard r st).1
                (λ s. (service.authenticate req.email req.password s).1))
  unfolding authenticate_handler
  authenticate_handler-Calls reset_keeps =
      elim (Result-cases (decode w.unmarshal_log_in (limit_body r.body))) [
        | inr (x, f) ↦ inl (ground arith)
        | inl (req, f) ↦
            let keys = email_key w service guard req ∷ [] in
            let (refusal, s) = guard.allow_request r scope_login keys st in
            inr (
              req,
              f,
              elim (Option-cases refusal) [
                | inr (x, g) ↦ inl (ground (arith, f, g, allow_keeps scope_login keys st))
                | inl g ↦ inr (
                  s,
                  allow_keeps scope_login keys st,
                  ground (
                    arith,
                    f,
                    g,
                    reset_keeps scope_login keys (service.authenticate req.email req.password s).1,
                  ),
                )
              ],
            )
      ]

  pub reset_password_handler-Calls :
      (view (reset_password_handler w service guard r st).1 ≡ view st)
      ⊎ ((id : Bytes) × (req : ChangePasswordRequest) × (r.user_id ≡ some id)
          × (decode w.unmarshal_change_password (limit_body r.body) ≡ ok req)
          × Calls
              (reset_password_handler w service guard r st).1
              (λ s. (service.change_password id (w.session_id r) req s).1))
  unfolding reset_password_handler
  reset_password_handler-Calls = elim (Option-cases r.user_id) [
    | inl e ↦ inl (ground arith)
    | inr (id, e) ↦ elim (Result-cases (decode w.unmarshal_change_password (limit_body r.body))) [
      | inr (x, f) ↦ inl (ground arith)
      | inl (req, f) ↦
          let keys = user_key w service guard id ∷ [] in
          let (refusal, s) = guard.allow_request r scope_reset_password keys st in
          inr (
            id,
            req,
            e,
            f,
            elim (Option-cases refusal) [
              | inr (x, g) ↦ inl (ground (arith, e, f, g, allow_keeps scope_reset_password keys st))
              | inl g ↦ inr (s, allow_keeps scope_reset_password keys st, ground (arith, e, f, g))
            ],
          )
    ]
  ]

  pub sign_up_handler-Calls :
      (view (sign_up_handler w service guard r st).1 ≡ view st)
      ⊎ ((req : SignUpRequest) × Calls
            (sign_up_handler w service guard r st).1
            (λ s. (service.create_user req s).1))
  unfolding sign_up_handler
  sign_up_handler-Calls = elim (Result-cases (decode w.unmarshal_sign_up (limit_body r.body))) [
    | inr (x, f) ↦ inl (ground arith)
    | inl (req, f) ↦
        let (refusal, s) = guard.allow_request r scope_signup [] st in
        inr (
          req,
          elim (Option-cases refusal) [
            | inr (x, g) ↦ inl (ground (arith, f, g, allow_keeps scope_signup [] st))
            | inl g ↦ inr (s, allow_keeps scope_signup [] st, ground (arith, f, g))
          ],
        )
  ]

module _ {S : Type 0} (w : AuthWire) (service : Authenticator S) (guard : Guard S) (r : Request)
    (st : S) where
  pub logout_handler_state :
      (logout_handler w service guard r st).1 ≡ (service.logout (w.session_id r) st).1
  unfolding logout_handler
  logout_handler_state = elim (Result-cases (service.logout (w.session_id r) st).0) [
    | inl (cookies, e) ↦ ground arith
    | inr (x, e) ↦ ground arith
  ]
