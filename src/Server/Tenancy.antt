-- ===== src/Server/Tenancy.antt =====
-- Whose applications a request to the whole server touches.
use jsm.Common.{
  ◌≡◌, refl, ap, ◌∙◌, inl, inr, Bool, false, some, List, Bool-cases, keep, Bytes, same, same_iff,
}
use mathlib.Core.Path.{subst}
use jsm.Domain.{ObjectId, Application, CreateApplicationRequest, UpdateApplicationRequest}
use jsm.Http.{Request}
use jsm.Mongo.{IsCollection}
use jsm.Mongo.Documents.{matches, apply_fields}
use jsm.Mongo.Tenancy.{create_application-keep, update_application-keep, delete_application-keep}
use jsm.Applications.Owner.{create_state, update_state, delete_state}
use jsm.Accounts.{Inputs, me}
use jsm.Handlers.Frame.{
  list_handler-view, get_handler-view, create_handler-view, update_handler-view,
  delete_handler-view, me_handler-view, logout_handler-view, authenticate_handler-view,
  reset_password_handler-view, sign_up_handler-view,
}
use jsm.Handlers.Routes.{
  PublicRoute, ProtectedRoute, protected_target, serve_public, serve_protected,
}
use jsm.Server.Root.{root, SignedInAs, root_cases, serve_cases}
use jsm.Server.{
  Parts, World, serve, parsers, auth_wire, authenticator, application_service, guard, endpoints,
}

-- The public endpoints touch no applications.
pub serve_public-applications :
    (p : Parts) (io : Inputs) (t : PublicRoute) (r : Request) (w : World p)
    → (serve_public (endpoints p io) t r w).1.applications ≡ w.applications
serve_public-applications p io PublicRoute.health r w = refl
serve_public-applications p io PublicRoute.login r w =
    authenticate_handler-view (λ s. s.applications) r w (auth_wire p) (authenticator p io)
      (guard p io) (λ scope keys s. refl) (λ scope keys s. refl) (λ email password s. refl)
serve_public-applications p io PublicRoute.signup r w =
    sign_up_handler-view (λ s. s.applications) r w (auth_wire p) (authenticator p io) (guard p io)
      (λ scope keys s. refl) (λ req s. refl)
serve_public-applications p io PublicRoute.logout r w =
    logout_handler-view (λ s. s.applications) r w (auth_wire p) (authenticator p io) (guard p io)
      refl

-- `like` is the meaning of the regular expressions, `docs` the stored applications, and `v` a user.
module _ (p : Parts) (io : Inputs) (like : Bytes → Application → Bool)
    (docs : p.apps.State → List Application)
    (laws : IsCollection p.apps (matches like) apply_fields docs) (v : ObjectId) where
  -- The applications of `v`, in order.
  abbrev pub applications_of : World p → List Application
  applications_of w = keep (λ a. same a.user_id v) (docs w.applications)

  -- The user ID names another user, or none.
  abbrev pub Names : Bytes → Type 0
  Names user_id = p.deps.object_id_from_hex user_id ≡ some v

  module _ (user_id : Bytes) (other : ¬ Names user_id) (w : World p) where
    not_v : (uid : ObjectId) → p.deps.object_id_from_hex user_id ≡ some uid → same uid v ≡ false
    not_v uid e = elim (Bool-cases (same uid v)) [
      | inr f ↦ f
      | inl t ↦ absurd (other (e ∙ ap some ((same_iff uid v).0 t)))
    ]

    create-applications_of :
        (req : CreateApplicationRequest)
        → applications_of ((application_service p io).create user_id req w).1 ≡ applications_of w
    create-applications_of req =
        elim (create_state (parsers p) p.apps user_id w.applications io.new_id io.now req) [
          | inl e ↦ ap (λ s. keep (λ a. same a.user_id v) (docs s)) e
          | inr (uid, app, e, storable, f) ↦
              ap (λ s. keep (λ a. same a.user_id v) (docs s)) f
              ∙ create_application-keep like p.apps docs laws w.applications uid (λ u. same u v)
                  (not_v uid e) io.new_id io.now app storable.owned
        ]

    update-applications_of :
        (id : Bytes) (req : UpdateApplicationRequest)
        → applications_of ((application_service p io).update user_id id req w).1 ≡ applications_of w
    update-applications_of id req =
        elim (update_state (parsers p) p.apps user_id w.applications io.now id req) [
          | inl e ↦ ap (λ s. keep (λ a. same a.user_id v) (docs s)) e
          | inr (uid, app_id, set, e, _, f) ↦
              ap (λ s. keep (λ a. same a.user_id v) (docs s)) f
              ∙ update_application-keep like p.apps docs laws w.applications uid (λ u. same u v)
                  (not_v uid e) io.now app_id set
        ]

    delete-applications_of :
        (id : Bytes)
        → applications_of ((application_service p io).delete user_id id w).1 ≡ applications_of w
    delete-applications_of id = elim (delete_state (parsers p) p.apps user_id w.applications id) [
      | inl e ↦ ap (λ s. keep (λ a. same a.user_id v) (docs s)) e
      | inr (uid, app_id, e, f) ↦
          ap (λ s. keep (λ a. same a.user_id v) (docs s)) f
          ∙ delete_application-keep like p.apps docs laws w.applications uid (λ u. same u v)
              (not_v uid e) app_id
    ]

  serve_public-applications_of :
      (t : PublicRoute) (r : Request) (w : World p)
      → applications_of (serve_public (endpoints p io) t r w).1 ≡ applications_of w
  serve_public-applications_of t r w =
      ap (λ s. keep (λ a. same a.user_id v) (docs s)) (serve_public-applications p io t r w)

  -- A request that another user's session has authorised.
  module _ (user_id : Bytes) (other : ¬ Names user_id) (r : Request) (w : World p) where
    abbrev as_them : Request
    as_them = record r { user_id = some user_id }

    named : (id : Bytes) → some user_id ≡ some id → ¬ Names id
    named id e = subst (λ x. ¬ Names x) (cc e) other

    serve_protected-applications_of :
        (t : ProtectedRoute)
        → applications_of (serve_protected (endpoints p io) t as_them w).1 ≡ applications_of w
    serve_protected-applications_of ProtectedRoute.me =
        me_handler-view applications_of as_them w (λ id s. me p.deps id s.stores)
    serve_protected-applications_of ProtectedRoute.reset_password =
        reset_password_handler-view applications_of as_them w (auth_wire p) (authenticator p io)
          (guard p io) (λ scope keys s. refl) (λ id sid req s. refl)
    serve_protected-applications_of ProtectedRoute.list =
        list_handler-view applications_of as_them w p.wire (application_service p io)
    serve_protected-applications_of ProtectedRoute.get =
        get_handler-view applications_of as_them w p.wire (application_service p io)
    serve_protected-applications_of ProtectedRoute.create =
        create_handler-view applications_of as_them w p.wire (application_service p io)
          (λ id req e. create-applications_of id (named id e) w req)
    serve_protected-applications_of ProtectedRoute.update =
        update_handler-view applications_of as_them w p.wire (application_service p io)
          (λ id req e. update-applications_of id (named id e) w (p.wire.path_id as_them) req)
    serve_protected-applications_of ProtectedRoute.delete =
        delete_handler-view applications_of as_them w p.wire (application_service p io)
          (λ id e. delete-applications_of id (named id e) w (p.wire.path_id as_them))
    serve_protected-applications_of ProtectedRoute.not_found = refl
    serve_protected-applications_of ProtectedRoute.method_not_allowed = refl

  module _ (r : Request) (w : World p) where
    root-applications_of :
        ((user_id : Bytes) → SignedInAs p io r w user_id → ¬ Names user_id)
        → applications_of (root p io r w r w).1 ≡ applications_of w
    root-applications_of strangers = elim (root_cases p io r w) [
      | inl (t, _, f) ↦ ap (λ y. applications_of y.1) f ∙ serve_public-applications_of t r w
      | inr (inl (_, _, f)) ↦ ap (λ y. applications_of y.1) f
      | inr (inr (user_id, signed, f)) ↦
          ap (λ y. applications_of y.1) f
          ∙ serve_protected-applications_of user_id (strangers user_id signed) r w
              (protected_target r.method r.path)
    ]

    -- A request to the server changes the applications of a user only if it presents a session
    -- that is stored for that user, whatever its method, path and body.
    pub serve-applications_of :
        ((user_id : Bytes) → SignedInAs p io r w user_id → ¬ Names user_id)
        → applications_of (serve p io r w).1 ≡ applications_of w
    serve-applications_of strangers = elim (serve_cases p io r w) [
      | inl (message, status, x) ↦ ap (λ y. applications_of y.1) x
      | inr (cookies, x) ↦ ap (λ y. applications_of y.1) x ∙ root-applications_of strangers
    ]
