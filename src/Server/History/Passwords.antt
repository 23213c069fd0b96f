-- ===== src/Server/History/Passwords.antt =====
-- Who changes an account, over any number of requests.
use jsm.Common.{◌≡◌, refl, sym, ap, ◌∙◌, ◌⊎◌, inl, inr, false, some, List, Bytes, same}
use mathlib.Core.Path.{subst}
use jsm.Domain.{ObjectId, User, ChangePasswordRequest}
use jsm.Metrics.{ok}
use jsm.Http.{cookie, Request, decode, limit_body}
use jsm.Session.{session_id_from_request}
use jsm.Mongo.UserDocuments.{AreUsers}
use jsm.Accounts.{Inputs, change_password, me}
use jsm.Accounts.Passwords.{IsChange}
use jsm.Accounts.Kept.{
  account_of, authenticate_accounts, logout_accounts, sign_up-account_of,
  change_password-account_of,
}
use jsm.Handlers.Auth.Calls.{reset_password_handler-Calls}
use jsm.Handlers.Frame.{
  list_handler-view, get_handler-view, create_handler-view, update_handler-view,
  delete_handler-view, me_handler-view, authenticate_handler-view, logout_handler-view,
  sign_up_handler-view,
}
use jsm.Handlers.Routes.{
  PublicRoute, ProtectedRoute, protected_target, serve_public, serve_protected,
}
use jsm.Server.{
  Parts, World, serve, auth_wire, authenticator, application_service, guard, endpoints,
}
use jsm.Server.Root.{root, SignedInAs, root_cases, serve_cases}
use jsm.Server.History.{History, Served, fresh, served, elapsed}

-- `docs` are the stored users, and `v` is a user's ID.
module _ (p : Parts) (docs : p.deps.users.State → List User) (laws : AreUsers p.deps.users docs)
    (v : ObjectId) (stored : p.deps.rdb.State → Bytes → List (Bytes × Bytes)) where
  abbrev pub account : World p → List User
  account w = account_of p.deps docs laws v w.stores.accounts

  module _ (io : Inputs) (r : Request) (w : World p) where
    -- The body asks for another password of the user, who knows the current one.
    abbrev pub Changes : Bytes → Type 0
    Changes user_id =
        (req : ChangePasswordRequest) × (user : User) × (p.deps.object_id_from_hex user_id ≡ some v)
        × (decode p.unmarshal_change_password (limit_body r.body) ≡ ok req)
        × IsChange p.deps io user_id (session_id_from_request p.deps.sm r) req w.stores user

    -- The request is for the endpoint of a change of password, of the user, who is signed in, and
    -- gives the current password.
    pub record IsAllowed : Type 0 where
      pub asked : protected_target r.method r.path ≡ ProtectedRoute.reset_password
      pub user_id : Bytes
      pub signed : SignedInAs p io r w user_id
      pub names : p.deps.object_id_from_hex user_id ≡ some v
      pub req : ChangePasswordRequest
      pub sent : decode p.unmarshal_change_password (limit_body r.body) ≡ ok req
      pub user : User
      pub change :
          IsChange p.deps io user_id (session_id_from_request p.deps.sm r) req w.stores user

    module _ (other : same io.new_id v ≡ false) where
      serve_public-account :
          (t : PublicRoute) → account (serve_public (endpoints p io) t r w).1 ≡ account w
      serve_public-account PublicRoute.health = refl
      serve_public-account PublicRoute.login =
          authenticate_handler-view account r w (auth_wire p) (authenticator p io) (guard p io)
            (λ scope keys s. refl) (λ scope keys s. refl)
            (λ email password s.
              ap (account_of p.deps docs laws v)
                (authenticate_accounts p.deps docs laws v io s.stores email password))
      serve_public-account PublicRoute.signup =
          sign_up_handler-view account r w (auth_wire p) (authenticator p io) (guard p io)
            (λ scope keys s. refl)
            (λ req s. sign_up-account_of p.deps docs laws v io s.stores req other)
      serve_public-account PublicRoute.logout =
          logout_handler-view account r w (auth_wire p) (authenticator p io) (guard p io) (
            ap (account_of p.deps docs laws v) (
              logout_accounts p.deps docs laws v io w.stores (session_id_from_request p.deps.sm r)))

  module _ (io : Inputs) (r : Request) (w : World p) (user_id : Bytes)
      (signed_as : r.user_id ≡ some user_id) where
    serve_protected-account :
        (t : ProtectedRoute)
        → (account (serve_protected (endpoints p io) t r w).1 ≡ account w)
          ⊎ ((t ≡ ProtectedRoute.reset_password) × Changes io r w user_id)
    serve_protected-account ProtectedRoute.me =
        inl (me_handler-view account r w (λ id s. me p.deps id s.stores))
    serve_protected-account ProtectedRoute.reset_password =
        elim (reset_password_handler-Calls (λ s. s.stores) r w (auth_wire p) (authenticator p io)
          (guard p io) (λ scope keys s. refl)) [
            | inl e ↦ inl (ap (λ x. account_of p.deps docs laws v x.accounts) e)
            | inr (id, req, named, sent, inl e) ↦
                inl (ap (λ x. account_of p.deps docs laws v x.accounts) e)
            | inr (id, req, named, sent, inr (s, before, after)) ↦
                let sid = session_id_from_request p.deps.sm r in
                let whole = after ∙ ap (λ x. (change_password p.deps io id sid req x).1) before in
                elim (change_password-account_of p.deps docs laws v io w.stores id sid req) [
                  | inl e ↦ inl (ap (λ x. account_of p.deps docs laws v x.accounts) whole ∙ e)
                  | inr (names, (user, change)) ↦ inr (
                    refl,
                    subst (Changes io r w) (cc (signed_as, named)) (req, user, names, sent, change),
                  )
                ]
          ]
    serve_protected-account ProtectedRoute.list =
        inl (list_handler-view account r w p.wire (application_service p io))
    serve_protected-account ProtectedRoute.get =
        inl (get_handler-view account r w p.wire (application_service p io))
    serve_protected-account ProtectedRoute.create =
        inl (create_handler-view account r w p.wire (application_service p io) (λ id req e. refl))
    serve_protected-account ProtectedRoute.update =
        inl (update_handler-view account r w p.wire (application_service p io) (λ id req e. refl))
    serve_protected-account ProtectedRoute.delete =
        inl (delete_handler-view account r w p.wire (application_service p io) (λ id e. refl))
    serve_protected-account ProtectedRoute.not_found = inl refl
    serve_protected-account ProtectedRoute.method_not_allowed = inl refl

  module _ (io : Inputs) (r : Request) (w : World p) (other : same io.new_id v ≡ false) where
    root-account : (account (root p io r w r w).1 ≡ account w) ⊎ IsAllowed io r w
    unfolding session_id_from_request cookie
    root-account = elim (root_cases p io r w) [
      | inl (t, _, f) ↦ inl (ap (λ y. account y.1) f ∙ serve_public-account io r w other t)
      | inr (inl (_, _, f)) ↦ inl (ap (λ y. account y.1) f)
      | inr (inr (user_id, signed, f)) ↦
          elim (serve_protected-account io (record r { user_id = some user_id }) w user_id refl
            (protected_target r.method r.path)) [
              | inl e ↦ inl (ap (λ y. account y.1) f ∙ e)
              | inr (asked, (req, user, names, sent, change)) ↦ inr (record {
                asked = asked;
                user_id = user_id;
                signed = signed;
                names = names;
                req = req;
                sent = sent;
                user = user;
                change = change;
              })
            ]
    ]

    serve-account : (account (serve p io r w).1 ≡ account w) ⊎ IsAllowed io r w
    serve-account = elim (serve_cases p io r w) [
      | inl (message, status, x) ↦ inl (ap (λ y. account y.1) x)
      | inr (cookies, x) ↦ elim root-account [
        | inl e ↦ inl (ap (λ y. account y.1) x ∙ e)
        | inr allowed ↦ inr allowed
      ]
    ]

  -- No sign-up is given the ID again.
  abbrev pub IsFresh : Inputs → Request → World p → Type 0
  IsFresh io r w = same io.new_id v ≡ false

  -- One of the history's requests is for another password, of the user, signed in, with the
  -- current one.
  abbrev pub HasChanged : {w w' : World p} → History p stored IsFresh w w' → Type 0
  HasChanged history = Served p stored IsFresh (λ io r at. IsAllowed io r at) history

  -- Only a user changes the own account: after any requests and any time, where no request is
  -- given the account's ID for a new user, the account is as it was, its password hash with it,
  -- or one of these requests, when it came, was for another password, presented a session stored
  -- for the user, and had the user's current password in its body.
  pub history-account :
      {w w' : World p} (history : History p stored IsFresh w w')
      → (account w' ≡ account w) ⊎ HasChanged history
  unfolding Served
  history-account fresh = inl refl
  history-account {w} {w'} (served {w₁ = w₁} io r before other e) = elim (history-account before) [
    | inr changed ↦ inr (inr changed)
    | inl f ↦ elim (serve-account io r w₁ other) [
      | inl g ↦ inl (ap account (sym e) ∙ g ∙ f)
      | inr allowed ↦ inr (inl allowed)
    ]
  ]
  history-account (elapsed before e) = elim (history-account before) [
    | inr changed ↦ inr changed
    | inl f ↦ inl (ap (account_of p.deps docs laws v) e.accounts ∙ f)
  ]
