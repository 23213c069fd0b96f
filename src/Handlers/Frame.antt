-- ===== src/Handlers/Frame.antt =====
-- What a handler leaves unchanged: whatever the calls that it makes leave unchanged.
use jsm.Common.{◌≡◌, ap, ◌∙◌, inl, inr, some, List, arith, Bytes}
use jsm.Metrics.{Result}
use jsm.Domain.{
  ChangePasswordRequest, SignUpRequest, CreateApplicationRequest, UpdateApplicationRequest, User,
}
use jsm.Http.{Request}
use jsm.RateLimit.Guard.{Guard}
use jsm.RateLimit.{Key}
use jsm.Handlers.{
  Wire, ApplicationService, list_handler, get_handler, create_handler, update_handler,
  delete_handler, me_handler,
}
use jsm.Handlers.Auth.Calls.{
  authenticate_handler-Calls, reset_password_handler-Calls, sign_up_handler-Calls,
  logout_handler_state,
}
use jsm.Handlers.Calls.{create_handler_state, update_handler_state, delete_handler_state}
use jsm.Handlers.Auth.{
  AuthWire, Authenticator, authenticate_handler, logout_handler, reset_password_handler,
  sign_up_handler,
}

-- `view` is what is kept.
module _ {S V : Type 0} (view : S → V) (r : Request) (st : S) where
  module _ (w : Wire) (service : ApplicationService S) where
    pub list_handler-view : view (list_handler w service r st).1 ≡ view st
    unfolding list_handler
    list_handler-view = ground arith

    pub get_handler-view : view (get_handler w service r st).1 ≡ view st
    unfolding get_handler
    get_handler-view = ground arith

    pub create_handler-view :
        ((id : Bytes) (req : CreateApplicationRequest)
          → r.user_id ≡ some id
          → view (service.create id req st).1 ≡ view st)
        → view (create_handler w service r st).1 ≡ view st
    create_handler-view keeps = elim (create_handler_state w service r st) [
      | inl e ↦ ap view e
      | inr (id, req, e, f) ↦ ap view f ∙ keeps id req e
    ]

    pub update_handler-view :
        ((id : Bytes) (req : UpdateApplicationRequest)
          → r.user_id ≡ some id
          → view (service.update id (w.path_id r) req st).1 ≡ view st)
        → view (update_handler w service r st).1 ≡ view st
    update_handler-view keeps = elim (update_handler_state w service r st) [
      | inl e ↦ ap view e
      | inr (id, req, e, f) ↦ ap view f ∙ keeps id req e
    ]

    pub delete_handler-view :
        ((id : Bytes) → r.user_id ≡ some id → view (service.delete id (w.path_id r) st).1 ≡ view st)
        → view (delete_handler w service r st).1 ≡ view st
    delete_handler-view keeps = elim (delete_handler_state w service r st) [
      | inl e ↦ ap view e
      | inr (id, e, f) ↦ ap view f ∙ keeps id e
    ]

  module _ (w : AuthWire) (service : Authenticator S) (guard : Guard S) where
    pub logout_handler-view :
        (view (service.logout (w.session_id r) st).1 ≡ view st)
        → view (logout_handler w service guard r st).1 ≡ view st
    logout_handler-view keeps = ap view (logout_handler_state w service guard r st) ∙ keeps

    module _
        (allow_keeps : (scope : Bytes) (keys : List Key) (s : S)
          → view (guard.allow_request r scope keys s).1 ≡ view s) where
      pub authenticate_handler-view :
          ((scope : Bytes) (keys : List Key) (s : S)
            → view (guard.reset_request r scope keys s) ≡ view s)
          → ((email password : Bytes) (s : S)
              → view (service.authenticate email password s).1 ≡ view s)
          → view (authenticate_handler w service guard r st).1 ≡ view st
      authenticate_handler-view reset_keeps keeps =
          elim (authenticate_handler-Calls view r st w service guard allow_keeps reset_keeps) [
            | inl e ↦ e
            | inr (req, _, inl e) ↦ e
            | inr (req, _, inr (s, before, after)) ↦ after ∙ keeps req.email req.password s ∙ before
          ]

      pub reset_password_handler-view :
          ((user_id session_id : Bytes) (req : ChangePasswordRequest) (s : S)
            → view (service.change_password user_id session_id req s).1 ≡ view s)
          → view (reset_password_handler w service guard r st).1 ≡ view st
      reset_password_handler-view keeps =
          elim (reset_password_handler-Calls view r st w service guard allow_keeps) [
            | inl e ↦ e
            | inr (id, req, _, _, inl e) ↦ e
            | inr (id, req, _, _, inr (s, before, after)) ↦
                after ∙ keeps id (w.session_id r) req s ∙ before
          ]

      pub sign_up_handler-view :
          ((req : SignUpRequest) (s : S) → view (service.create_user req s).1 ≡ view s)
          → view (sign_up_handler w service guard r st).1 ≡ view st
      sign_up_handler-view keeps =
          elim (sign_up_handler-Calls view r st w service guard allow_keeps) [
            | inl e ↦ e
            | inr (req, inl e) ↦ e
            | inr (req, inr (s, before, after)) ↦ after ∙ keeps req s ∙ before
          ]

  pub me_handler-view :
      (reader : Bytes → S → Result User) → view (me_handler reader r st).1 ≡ view st
  unfolding me_handler
  me_handler-view reader = ground arith
