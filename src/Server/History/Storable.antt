-- ===== src/Server/History/Storable.antt =====
-- Every stored application stays one that the rest of the program can rely on.
use jsm.Common.{
  ℕ, ◌≡◌, refl, sym, ap, ◌∙◌, inl, inr, Bool, Option, some, List, [], ◌∷◌, ◌++◌, All, All-append,
  Bytes,
}
use mathlib.Core.Path.{subst}
use jsm.Domain.{ObjectId, Application, CreateApplicationRequest, UpdateApplicationRequest}
use jsm.Sanitise.{Url}
use jsm.Http.{Request}
use jsm.Mongo.{IsCollection}
use jsm.Mongo.Applications.{FieldUpdate, updated_at}
use jsm.Mongo.Documents.{matches, apply_fields, apply_fields-user_id}
use jsm.Mongo.Kept.{create_application-All, update_application-All, delete_application-All}
use jsm.Applications.Owner.{create_state, update_state, delete_state}
use jsm.Applications.Patch.{IsStorable}
use jsm.Applications.Update.{IsSound, build_patch-Sound, apply_fields-IsStorable}
use jsm.Accounts.{Inputs, me}
use jsm.Handlers.Calls.{create_handler_state, update_handler_state, delete_handler_state}
use jsm.Handlers.Frame.{
  list_handler-view, get_handler-view, me_handler-view, reset_password_handler-view,
}
use jsm.Handlers.Routes.{ProtectedRoute, protected_target, serve_protected}
use jsm.Server.{
  Parts, World, serve, parsers, auth_wire, authenticator, application_service, guard, endpoints,
}
use jsm.Server.Root.{root, root_cases, serve_cases}
use jsm.Server.Tenancy.{serve_public-applications}
use jsm.Server.History.{AnyRequest, History, history-keeps}

module _ (parse_url : Bytes → Option Url) where
  -- An application that its own user could have stored.
  abbrev pub IsStored : Application → Type 0
  IsStored a = IsStorable parse_url a.user_id a

  stamped-IsStored :
      (uid new_id : ObjectId) (now : ℕ) (app : Application)
      → IsStorable parse_url uid app
      → IsStored (record app { id = new_id; created_at = now; updated_at = now })
  stamped-IsStored uid new_id now app s = record {
    owned = refl;
    company = s.company;
    position = s.position;
    status_valid = s.status_valid;
    link = s.link;
    description = s.description;
    notes_safe = s.notes_safe;
    locations = s.locations;
    tagged = s.tagged;
    pay = s.pay;
  }

  patched-IsStored :
      (now : ℕ) (set : List FieldUpdate) (a : Application)
      → All (IsSound parse_url) set
      → IsStored a
      → IsStored (apply_fields (set ++ updated_at now ∷ []) a)
  patched-IsStored now set a sound s =
      let us = set ++ updated_at now ∷ [] in
      subst (λ uid. IsStorable parse_url uid (apply_fields us a)) (sym (apply_fields-user_id us a))
        (apply_fields-IsStorable parse_url a.user_id us a
          (All-append (IsSound parse_url) set (updated_at now ∷ []) sound (tt, tt)) s)

module _ (p : Parts) (like : Bytes → Application → Bool) (docs : p.apps.State → List Application)
    (laws : IsCollection p.apps (matches like) apply_fields docs) where
  abbrev Sound : p.apps.State → Type 0
  Sound st = All (IsStored p.parse_url) (docs st)

  -- Every stored application is one that its own user could have stored.
  abbrev pub AllStored : World p → Type 0
  AllStored w = Sound w.applications

  module _ (io : Inputs) (user_id : Bytes) (w : World p) (all : AllStored w) where
    create-AllStored :
        (req : CreateApplicationRequest)
        → AllStored ((application_service p io).create user_id req w).1
    create-AllStored req =
        elim (create_state (parsers p) p.apps user_id w.applications io.new_id io.now req) [
          | inl e ↦ subst Sound (sym e) all
          | inr (uid, app, e, storable, f) ↦ subst Sound (sym f) (
              create_application-All like p.apps docs laws (IsStored p.parse_url) w.applications all
                io.new_id io.now app
                (stamped-IsStored p.parse_url uid io.new_id io.now app storable))
        ]

    update-AllStored :
        (id : Bytes) (req : UpdateApplicationRequest)
        → AllStored ((application_service p io).update user_id id req w).1
    update-AllStored id req =
        elim (update_state (parsers p) p.apps user_id w.applications io.now id req) [
          | inl e ↦ subst Sound (sym e) all
          | inr (uid, app_id, set, e, built, f) ↦ subst Sound (sym f) (
              update_application-All like p.apps docs laws (IsStored p.parse_url) w.applications all
                io.now app_id uid set
                (λ a.
                  patched-IsStored p.parse_url io.now set a
                    (build_patch-Sound (parsers p) req built)))
        ]

    delete-AllStored : (id : Bytes) → AllStored ((application_service p io).delete user_id id w).1
    delete-AllStored id = elim (delete_state (parsers p) p.apps user_id w.applications id) [
      | inl e ↦ subst Sound (sym e) all
      | inr (uid, app_id, e, f) ↦ subst Sound (sym f) (
          delete_application-All like p.apps docs laws (IsStored p.parse_url) w.applications all
            app_id uid)
    ]

  module _ (io : Inputs) (r : Request) (w : World p) (all : AllStored w) where
    unchanged : {s : p.apps.State} → s ≡ w.applications → Sound s
    unchanged e = subst Sound (sym e) all

    serve_protected-AllStored :
        (t : ProtectedRoute) → AllStored (serve_protected (endpoints p io) t r w).1
    serve_protected-AllStored ProtectedRoute.me =
        unchanged (me_handler-view (λ s. s.applications) r w (λ id s. me p.deps id s.stores))
    serve_protected-AllStored ProtectedRoute.reset_password = unchanged (
        reset_password_handler-view (λ s. s.applications) r w (auth_wire p) (authenticator p io)
          (guard p io) (λ scope keys s. refl) (λ id sid req s. refl))
    serve_protected-AllStored ProtectedRoute.list =
        unchanged (list_handler-view (λ s. s.applications) r w p.wire (application_service p io))
    serve_protected-AllStored ProtectedRoute.get =
        unchanged (get_handler-view (λ s. s.applications) r w p.wire (application_service p io))
    serve_protected-AllStored ProtectedRoute.create =
        elim (create_handler_state p.wire (application_service p io) r w) [
          | inl e ↦ subst AllStored (sym e) all
          | inr (id, req, _, e) ↦ subst AllStored (sym e) (create-AllStored io id w all req)
        ]
    serve_protected-AllStored ProtectedRoute.update =
        elim (update_handler_state p.wire (application_service p io) r w) [
          | inl e ↦ subst AllStored (sym e) all
          | inr (id, req, _, e) ↦
              subst AllStored (sym e) (update-AllStored io id w all (p.wire.path_id r) req)
        ]
    serve_protected-AllStored ProtectedRoute.delete =
        elim (delete_handler_state p.wire (application_service p io) r w) [
          | inl e ↦ subst AllStored (sym e) all
          | inr (id, _, e) ↦
              subst AllStored (sym e) (delete-AllStored io id w all (p.wire.path_id r))
        ]
    serve_protected-AllStored ProtectedRoute.not_found = all
    serve_protected-AllStored ProtectedRoute.method_not_allowed = all

  module _ (io : Inputs) (r : Request) (w : World p) (all : AllStored w) where
    root-AllStored : AllStored (root p io r w r w).1
    root-AllStored = elim (root_cases p io r w) [
      | inl (t, _, f) ↦
          unchanged io r w all (ap (λ y. y.1.applications) f ∙ serve_public-applications p io t r w)
      | inr (inl (_, _, f)) ↦ unchanged io r w all (ap (λ y. y.1.applications) f)
      | inr (inr (user_id, signed, f)) ↦
          subst (λ y. AllStored y.1) (sym f)
            (serve_protected-AllStored io (record r { user_id = some user_id }) w all
              (protected_target r.method r.path))
    ]

    pub serve-AllStored : AllStored (serve p io r w).1
    serve-AllStored = elim (serve_cases p io r w) [
      | inl (message, status, x) ↦ subst (λ y. AllStored y.1) (sym x) all
      | inr (cookies, x) ↦ subst (λ y. AllStored y.1) (sym x) root-AllStored
    ]

  -- If every stored application keeps to what Create checks and cleans (a company, a position, one
  -- of the six statuses; texts and list items within their bounds and without bytes of markup, no
  -- empty item, lists within their lengths, also those of a compensation; and no link but an http or
  -- https one to a host), then so does every one after any requests to the server and any time,
  -- whatever they carry and whatever the clock and the random sources give.
  pub history-AllStored :
      (stored : p.deps.rdb.State → Bytes → List (Bytes × Bytes)) {w w' : World p}
      → History p stored (AnyRequest p) w w'
      → AllStored w
      → AllStored w'
  history-AllStored stored =
      history-keeps p stored (AnyRequest p) AllStored (λ io r w _ all. serve-AllStored io r w all)
        (λ w w' e all. subst Sound (sym e.applications) all)
