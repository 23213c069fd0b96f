-- ===== src/Server/History/Sessions.antt =====
-- What one request to the server does to the stored sessions.
use jsm.Common.{◌≡◌, refl, sym, ap, ◌∙◌, ◌⊎◌, inl, inr, some, List, [], Bytes}
use mathlib.Core.Path.{subst}
use jsm.Metrics.{ok}
use jsm.Domain.{User, LogInRequest}
use jsm.Http.{Request, decode, limit_body}
use jsm.Csrf.{url_encode}
use jsm.Session.{session_id_from_request}
use jsm.Session.Stored.{IsHashStore, owner_of}
use jsm.Accounts.{Inputs, authenticate, logout, change_password, me}
use jsm.Accounts.Login.{IsLogin}
use jsm.Accounts.Sessions.{
  authenticate-session_owner, logout-session_owner, change_password-session_owner, sign_up_sessions,
}
use jsm.Handlers.Auth.Calls.{
  authenticate_handler-Calls, reset_password_handler-Calls, sign_up_handler-Calls,
  logout_handler_state,
}
use jsm.Handlers.Frame.{
  list_handler-view, get_handler-view, create_handler-view, update_handler-view,
  delete_handler-view, me_handler-view,
}
use jsm.Handlers.Routes.{
  PublicRoute, ProtectedRoute, public_target, protected_target, serve_public, serve_protected,
}
use jsm.Server.{
  Parts, World, serve, auth_wire, authenticator, application_service, guard, endpoints,
}
use jsm.Server.Root.{root, root_cases, serve_cases}

module _ (p : Parts) (stored : p.deps.rdb.State → Bytes → List (Bytes × Bytes))
    (laws : IsHashStore p.deps.rdb stored) where
  abbrev pub owner : p.deps.rdb.State → Bytes → Bytes
  owner = owner_of p.deps.rdb stored

  -- The request is a login, with a user's address and password in its body, that makes the session
  -- for the user.
  pub record IsLogIn (io : Inputs) (r : Request) (at : World p) (sid user_id : Bytes) : Type 0 where
    pub asked : public_target r.method r.path ≡ some PublicRoute.login
    pub req : LogInRequest
    pub sent : decode (auth_wire p).unmarshal_log_in (limit_body r.body) ≡ ok req
    pub user : User
    pub login : IsLogin p.deps io req.email req.password at.stores user
    pub new_id : sid ≡ url_encode io.uuid
    pub users_own : user_id ≡ p.deps.object_id_hex user.id

  module _ (io : Inputs) where
    -- A session stays as it is, or ends.
    abbrev Kept : World p → Bytes → p.deps.rdb.State → Type 0
    Kept before sid after =
        (owner after sid ≡ owner before.stores.sessions sid) ⊎ (owner after sid ≡ [])

    -- A session stays as it is, ends, or is made by the request, a login.
    abbrev pub Effect : Request → World p → Bytes → p.deps.rdb.State → Type 0
    Effect r before sid after =
        (owner after sid ≡ owner before.stores.sessions sid)
        ⊎ ((owner after sid ≡ []) ⊎ IsLogIn io r before sid (owner after sid))

    module _ (r : Request) (w : World p) (sid : Bytes) where
      same_sessions : {after : p.deps.rdb.State} → after ≡ w.stores.sessions → Kept w sid after
      same_sessions e = inl (ap (λ s. owner s sid) e)

      Kept-Effect : (after : p.deps.rdb.State) → Kept w sid after → Effect r w sid after
      Kept-Effect after (inl e) = inl e
      Kept-Effect after (inr e) = inr (inl e)

      authenticate-Effect :
          public_target r.method r.path ≡ some PublicRoute.login
          → (req : LogInRequest)
          → decode (auth_wire p).unmarshal_log_in (limit_body r.body) ≡ ok req
          → Effect r w sid (authenticate p.deps io req.email req.password w.stores).1.sessions
      authenticate-Effect asked req sent =
          elim (authenticate-session_owner p.deps stored laws io req.email req.password w.stores
            sid) [
              | inl k ↦
                  Kept-Effect (authenticate p.deps io req.email req.password w.stores).1.sessions k
              | inr (user, login, named, e) ↦ inr (
                  inr (record {
                    asked = asked;
                    req = req;
                    sent = sent;
                    user = user;
                    login = login;
                    new_id = named;
                    users_own = e;
                  }))
            ]

      serve_public-Effect :
          (t : PublicRoute)
          → public_target r.method r.path ≡ some t
          → Effect r w sid (serve_public (endpoints p io) t r w).1.stores.sessions
      serve_public-Effect PublicRoute.health asked = inl refl
      serve_public-Effect PublicRoute.login asked =
          elim (authenticate_handler-Calls (λ s. s.stores) r w (auth_wire p) (authenticator p io)
            (guard p io) (λ scope keys s. refl) (λ scope keys s. refl)) [
              | inl e ↦ inl (ap (λ x. owner x.sessions sid) e)
              | inr (req, sent, inl e) ↦ inl (ap (λ x. owner x.sessions sid) e)
              | inr (req, sent, inr (s, before, after)) ↦
                  subst (λ x. Effect r w sid x.sessions)
                    (sym (
                      after ∙ ap (λ x. (authenticate p.deps io req.email req.password x).1) before))
                    (authenticate-Effect asked req sent)
            ]
      serve_public-Effect PublicRoute.signup asked =
          elim (sign_up_handler-Calls (λ s. s.stores.sessions) r w (auth_wire p)
            (authenticator p io) (guard p io) (λ scope keys s. refl)) [
              | inl e ↦ inl (ap (λ s. owner s sid) e)
              | inr (req, inl e) ↦ inl (ap (λ s. owner s sid) e)
              | inr (req, inr (s, before, after)) ↦ inl (
                  ap (λ s. owner s sid)
                    (after ∙ sign_up_sessions p.deps stored laws io req s.stores ∙ before))
            ]
      serve_public-Effect PublicRoute.logout asked =
          let session_id = session_id_from_request p.deps.sm r in
          subst (λ x. Effect r w sid x.stores.sessions)
            (sym (logout_handler_state (auth_wire p) (authenticator p io) (guard p io) r w))
            (Kept-Effect (logout p.deps io session_id w.stores).1.sessions
              (logout-session_owner p.deps stored laws io session_id sid w.stores))

      serve_protected-Kept :
          (t : ProtectedRoute)
          → Kept w sid (serve_protected (endpoints p io) t r w).1.stores.sessions
      serve_protected-Kept ProtectedRoute.me =
          same_sessions
            (me_handler-view (λ s. s.stores.sessions) r w (λ id s. me p.deps id s.stores))
      serve_protected-Kept ProtectedRoute.reset_password =
          let session_id = session_id_from_request p.deps.sm r in
          elim (reset_password_handler-Calls (λ s. s.stores) r w (auth_wire p) (authenticator p io)
            (guard p io) (λ scope keys s. refl)) [
              | inl e ↦ same_sessions (ap (λ x. x.sessions) e)
              | inr (id, req, _, _, inl e) ↦ same_sessions (ap (λ x. x.sessions) e)
              | inr (id, req, _, _, inr (s, before, after)) ↦
                  subst (λ x. Kept w sid x.sessions)
                    (sym
                      (after ∙ ap (λ x. (change_password p.deps io id session_id req x).1) before))
                    (change_password-session_owner p.deps stored laws io id session_id req sid
                      w.stores)
            ]
      serve_protected-Kept ProtectedRoute.list =
          same_sessions
            (list_handler-view (λ s. s.stores.sessions) r w p.wire (application_service p io))
      serve_protected-Kept ProtectedRoute.get =
          same_sessions
            (get_handler-view (λ s. s.stores.sessions) r w p.wire (application_service p io))
      serve_protected-Kept ProtectedRoute.create = same_sessions (
          create_handler-view (λ s. s.stores.sessions) r w p.wire (application_service p io)
            (λ id req e. refl))
      serve_protected-Kept ProtectedRoute.update = same_sessions (
          update_handler-view (λ s. s.stores.sessions) r w p.wire (application_service p io)
            (λ id req e. refl))
      serve_protected-Kept ProtectedRoute.delete = same_sessions (
          delete_handler-view (λ s. s.stores.sessions) r w p.wire (application_service p io)
            (λ id e. refl))
      serve_protected-Kept ProtectedRoute.not_found = inl refl
      serve_protected-Kept ProtectedRoute.method_not_allowed = inl refl

    module _ (r : Request) (w : World p) (sid : Bytes) where
      root-Effect : Effect r w sid (root p io r w r w).1.stores.sessions
      root-Effect = elim (root_cases p io r w) [
        | inl (t, asked, f) ↦
            subst (λ y. Effect r w sid y.1.stores.sessions) (sym f)
              (serve_public-Effect r w sid t asked)
        | inr (inl (_, _, f)) ↦ inl (ap (λ y. owner y.1.stores.sessions sid) f)
        | inr (inr (user_id, signed, f)) ↦
            let t = protected_target r.method r.path in
            let as_user = record r { user_id = some user_id } in
            subst (λ y. Effect r w sid y.1.stores.sessions) (sym f)
              (Kept-Effect r w sid (serve_protected (endpoints p io) t as_user w).1.stores.sessions
                (serve_protected-Kept as_user w sid t))
      ]

      pub serve-Effect : Effect r w sid (serve p io r w).1.stores.sessions
      serve-Effect = elim (serve_cases p io r w) [
        | inl (message, status, x) ↦ inl (ap (λ y. owner y.1.stores.sessions sid) x)
        | inr (cookies, x) ↦ subst (λ y. Effect r w sid y.1.stores.sessions) (sym x) root-Effect
      ]
