-- ===== src/Applications/Results.antt =====
-- Whose applications the service answers with.
use jsm.Common.{ℕ, ◌≡◌, sym, ap, ◌∙◌, inl, inr, Bool, some, List, arith, Option-cases, All, Bytes}
use mathlib.Core.Path.{subst}
use jsm.Metrics.{ok, Result-cases}
use jsm.Domain.{
  ObjectId, Application, ApplicationPage, CreateApplicationRequest, UpdateApplicationRequest,
  ListApplicationsQuery,
}
use jsm.Mongo.{IsCollection}
use jsm.Mongo.Applications.{Apps, list_applications}
use jsm.Mongo.Documents.{matches, apply_fields, All-map}
use jsm.Mongo.Tenancy.{find_application_by_id-owner, list_applications-owner}
use jsm.Mongo.Results.{create_application-owner, update_application-owner}
use jsm.Applications.{
  Parsers, create, get, list, update, build_application, build_patch, check_query, parse_ids,
  user_oid, app_oid,
}
use jsm.Applications.Patch.{build_application-IsStorable}

module _ (p : Parsers) (apps : Apps) (like : Bytes → Application → Bool)
    (docs : apps.State → List Application)
    (laws : IsCollection apps (matches like) apply_fields docs) (st : apps.State)
    (user_id : Bytes) where
  -- The user ID names the application's owner.
  abbrev pub IsOwned : Application → Type 0
  IsOwned app = p.object_id_from_hex user_id ≡ some app.user_id

  pub create-IsOwned :
      (new_id : ObjectId) (now : ℕ) (req : CreateApplicationRequest) {app : Application}
      → (create p apps new_id now user_id req st).0 ≡ ok app
      → IsOwned app
  unfolding create user_oid
  create-IsOwned new_id now req {app = app} e = elim (Option-cases (p.object_id_from_hex user_id)) [
    | inl f ↦ absurd (ground (arith, e, f))
    | inr (uid, f) ↦ elim (Result-cases (build_application p now uid req)) [
      | inr (x, g) ↦ absurd (ground (arith, e, f, g))
      | inl (built, g) ↦
          let storable = build_application-IsStorable p now uid req g in
          let owned =
            create_application-owner apps st new_id now built {stored = app}
              (ground (arith, e, f, g)) in
          f ∙ ap (λ u. some u) (sym (owned ∙ storable.owned))
    ]
  ]

  pub get-IsOwned :
      (id : Bytes) {app : Application} → get p apps user_id id st ≡ ok app → IsOwned app
  unfolding get parse_ids user_oid app_oid
  get-IsOwned id {app = app} e = elim (Option-cases (p.object_id_from_hex user_id)) [
    | inl f ↦ absurd (ground (arith, e, f))
    | inr (uid, f) ↦ elim (Option-cases (p.object_id_from_hex id)) [
      | inl g ↦ absurd (ground (arith, e, f, g))
      | inr (app_id, g) ↦
          let owned =
            find_application_by_id-owner like apps docs laws st uid app_id {app = app}
              (ground (arith, e, f, g)) in
          f ∙ ap (λ u. some u) (sym owned.1)
    ]
  ]

  pub list-IsOwned :
      (query : ListApplicationsQuery) {page : ApplicationPage}
      → list p apps user_id query st ≡ ok page
      → All IsOwned page.applications
  unfolding list user_oid
  list-IsOwned query {page = page} e = elim (Option-cases (p.object_id_from_hex user_id)) [
    | inl f ↦ absurd (ground (arith, e, f))
    | inr (uid, f) ↦ elim (Result-cases (check_query query)) [
      | inr (x, g) ↦ absurd (ground (arith, e, f, g))
      | inl (q, g) ↦ elim (Result-cases (list_applications apps st uid q)) [
        | inr (x, h) ↦ absurd (ground (arith, e, f, g, h))
        | inl (r, h) ↦
            let owned = list_applications-owner like apps docs laws st uid q {r = r} h in
            let same_list : r.0 ≡ page.applications = ground (arith, e, f, g, h) in
            subst (All IsOwned) same_list (All-map r.0 (λ a o. f ∙ ap (λ u. some u) (sym o)) owned)
      ]
    ]
  ]

  pub update-IsOwned :
      (now : ℕ) (id : Bytes) (req : UpdateApplicationRequest) {app : Application}
      → (update p apps now user_id id req st).0 ≡ ok app
      → IsOwned app
  unfolding update parse_ids user_oid app_oid
  update-IsOwned now id req {app = app} e = elim (Option-cases (p.object_id_from_hex user_id)) [
    | inl f ↦ absurd (ground (arith, e, f))
    | inr (uid, f) ↦ elim (Option-cases (p.object_id_from_hex id)) [
      | inl g ↦ absurd (ground (arith, e, f, g))
      | inr (app_id, g) ↦ elim (Result-cases (build_patch p req)) [
        | inr (x, h) ↦ absurd (ground (arith, e, f, g, h))
        | inl (set, h) ↦
            let owned =
              update_application-owner apps st like docs laws uid now app_id set {stored = app}
                (ground (arith, e, f, g, h)) in
            f ∙ ap (λ u. some u) (sym owned)
      ]
    ]
  ]
