-- ===== src/Server/Disclosure.antt =====
-- Whose applications the answers of the whole server show.
use jsm.Common.{
  ◌≡◌, sym, inl, inr, Bool, true, some, List, ◌∷◌, arith, Bool-cases, Option-cases, Bytes,
}
use mathlib.Core.Path.{subst}
use jsm.Domain.{Application}
use jsm.Http.{Request, Response, write_json_error}
use jsm.Mongo.{IsCollection}
use jsm.Mongo.Documents.{matches, apply_fields, All-map}
use jsm.RateLimit.{Key, allow}
use jsm.RateLimit.Guard.{allow_request, write_too_many_requests, client_key}
use jsm.Applications.Results.{create-IsOwned, get-IsOwned, list-IsOwned, update-IsOwned}
use jsm.Accounts.{Inputs, me}
use jsm.Handlers.{query_of}
use jsm.Handlers.Shown.{
  is_plain, Shows, plain-Shows, Shows-map, delete_handler_plain, get_handler-Shows,
  list_handler-Shows, create_handler-Shows, update_handler-Shows, me_handler_plain,
  health_handler_plain,
}
use jsm.Handlers.Auth.Plain.{
  logout_handler_plain, authenticate_handler_plain, reset_password_handler_plain,
  sign_up_handler_plain,
}
use jsm.Handlers.Routes.{
  PublicRoute, ProtectedRoute, protected_target, serve_public, serve_protected,
}
use jsm.Server.{
  Parts, World, serve, parsers, auth_wire, authenticator, application_service, guard, endpoints,
}
use jsm.Server.Root.{root, SignedInAs, root_cases, serve_cases}

module _ (p : Parts) (io : Inputs) where
  refusal_plain :
      (r : Request) (scope : Bytes) (keys : List Key) (w : World p) (answer : Response)
      → ((guard p io).allow_request r scope keys w).0 ≡ some answer
      → is_plain answer.body ≡ true
  unfolding allow_request write_too_many_requests write_json_error
  refusal_plain r scope keys w answer e =
      let d =
        allow p.sum256 io.now p.policy p.store
          (client_key p.net p.sum256 p.policy p.store p.resolver io.now r scope ∷ keys)
          w.counters in
      elim (Option-cases d.1) [
        | inr (x, f) ↦ ground (arith, e, f)
        | inl f ↦ elim (Bool-cases d.0.allowed) [
          | inl g ↦ absurd (ground (arith, e, f, g))
          | inr g ↦ ground (arith, e, f, g)
        ]
      ]

  public_plain :
      (t : PublicRoute) (r : Request) (w : World p)
      → is_plain (serve_public (endpoints p io) t r w).0.body ≡ true
  public_plain PublicRoute.health r w = health_handler_plain p.ping_mongo p.ping_redis
  public_plain PublicRoute.login r w =
      authenticate_handler_plain (auth_wire p) (authenticator p io) (guard p io) r w
        (λ scope keys s answer e. refusal_plain r scope keys s answer e)
  public_plain PublicRoute.signup r w =
      sign_up_handler_plain (auth_wire p) (authenticator p io) (guard p io) r w
        (λ scope keys s answer e. refusal_plain r scope keys s answer e)
  public_plain PublicRoute.logout r w =
      logout_handler_plain (auth_wire p) (authenticator p io) (guard p io) r w

  -- The application belongs to the user whom the ID names.
  abbrev pub BelongsTo : Bytes → Application → Type 0
  BelongsTo user_id app = p.deps.object_id_from_hex user_id ≡ some app.user_id

  module _ (like : Bytes → Application → Bool) (docs : p.apps.State → List Application)
      (laws : IsCollection p.apps (matches like) apply_fields docs) where
    module _ (user_id : Bytes) (r : Request) (w : World p) where
      abbrev as_user : Request
      as_user = record r { user_id = some user_id }

      named :
          (id : Bytes) (app : Application)
          → some user_id ≡ some id
          → BelongsTo id app
          → BelongsTo user_id app
      named id app e h = subst (λ x. BelongsTo x app) (cc e) h

      protected-Shows :
          (t : ProtectedRoute)
          → Shows (BelongsTo user_id) (serve_protected (endpoints p io) t as_user w).0.body
      unfolding write_json_error
      protected-Shows ProtectedRoute.me =
          plain-Shows (BelongsTo user_id)
            (serve_protected (endpoints p io) ProtectedRoute.me as_user w).0.body
            (me_handler_plain (λ id (s : World p). me p.deps id s.stores) as_user w)
      protected-Shows ProtectedRoute.reset_password =
          plain-Shows (BelongsTo user_id)
            (serve_protected (endpoints p io) ProtectedRoute.reset_password as_user w).0.body
            (reset_password_handler_plain (auth_wire p) (authenticator p io) (guard p io) as_user w
              (λ scope keys s answer e. refusal_plain as_user scope keys s answer e))
      protected-Shows ProtectedRoute.list =
          list_handler-Shows (BelongsTo user_id) p.wire (application_service p io) as_user w
            (λ id page e f.
              All-map page.applications (λ a. named id a e)
                (list-IsOwned (parsers p) p.apps like docs laws w.applications id
                  (query_of p.wire (application_service p io) as_user) {page = page} f))
      protected-Shows ProtectedRoute.get =
          get_handler-Shows (BelongsTo user_id) p.wire (application_service p io) as_user w
            (λ id app e f. named id app e (
              get-IsOwned (parsers p) p.apps like docs laws w.applications id
                (p.wire.path_id as_user) {app = app} f))
      protected-Shows ProtectedRoute.create =
          create_handler-Shows (BelongsTo user_id) p.wire (application_service p io) as_user w
            (λ id req app e f. named id app e (
              create-IsOwned (parsers p) p.apps like docs laws w.applications id io.new_id io.now
                req {app = app} f))
      protected-Shows ProtectedRoute.update =
          update_handler-Shows (BelongsTo user_id) p.wire (application_service p io) as_user w
            (λ id req app e f. named id app e (
              update-IsOwned (parsers p) p.apps like docs laws w.applications id io.now
                (p.wire.path_id as_user) req {app = app} f))
      protected-Shows ProtectedRoute.delete =
          plain-Shows (BelongsTo user_id)
            (serve_protected (endpoints p io) ProtectedRoute.delete as_user w).0.body
            (delete_handler_plain (BelongsTo user_id) p.wire (application_service p io) as_user w)
      protected-Shows ProtectedRoute.not_found = tt
      protected-Shows ProtectedRoute.method_not_allowed = tt

    module _ (r : Request) (w : World p) where
      -- A stored session that the request presents is the owner's.
      abbrev pub IsForOwner : Application → Type 0
      IsForOwner app = (user_id : Bytes) × SignedInAs p io r w user_id × BelongsTo user_id app

      root-Shows : Shows IsForOwner (root p io r w r w).0.body
      unfolding write_json_error
      root-Shows = elim (root_cases p io r w) [
        | inl (t, _, f) ↦
            subst (λ y. Shows IsForOwner y.0.body) (sym f)
              (plain-Shows IsForOwner (serve_public (endpoints p io) t r w).0.body
                (public_plain t r w))
        | inr (inl (refusal, plain, f)) ↦
            subst (λ y. Shows IsForOwner y.0.body) (sym f)
              (plain-Shows IsForOwner refusal.body plain)
        | inr (inr (user_id, signed, f)) ↦
            let t = protected_target r.method r.path in
            let answer = serve_protected (endpoints p io) t (as_user user_id r w) w in
            subst (λ y. Shows IsForOwner y.0.body) (sym f)
              (Shows-map {P = BelongsTo user_id} {Q = IsForOwner} answer.0.body
                (λ app h. (user_id, signed, h)) (protected-Shows user_id r w t))
      ]

      -- Every application in an answer of the server belongs to a user for whom a session is
      -- stored that the request presents, whatever the request is.
      pub serve-Shows : Shows IsForOwner (serve p io r w).0.body
      unfolding write_json_error
      serve-Shows = elim (serve_cases p io r w) [
        | inl (message, status, x) ↦ subst (λ y. Shows IsForOwner y.0.body) (sym x) tt
        | inr (cookies, x) ↦ subst (λ y. Shows IsForOwner y.0.body) (sym x) root-Shows
      ]
