-- ===== src/Mongo/Tenancy.antt =====
-- Whose documents the queries on the applications touch. `like` is the meaning of the regular
-- expressions.
use jsm.Common.{
  ℕ, ◌≡◌, refl, sym, ap, ◌∙◌, inl, inr, Bool, true, false, not, List, [], ◌∷◌, ◌++◌, arith, All,
  keep, Bytes, same, same_iff, same_refl,
}
use jsm.Metrics.{ok, Result-cases}
use jsm.Domain.{ObjectId, Application, ListApplicationsQuery}
use jsm.Mongo.{Found-cases, IsCollection, first}
use jsm.Mongo.Applications.{
  Apps, FieldUpdate, updated_at, scope_filter, list_filter, create_application,
  create_application_state, find_application_by_id, list_applications, update_application,
  delete_application, delete_application_state, page_of,
}
use jsm.Mongo.Documents.{
  apply_fields, apply_fields-user_id, keep-insert, keep-remove_first, keep-update_first,
  first-found, All-map, matches,
}

module _ (like : Bytes → Application → Bool) where
  module _ (apps : Apps) (docs : apps.State → List Application)
      (laws : IsCollection apps (matches like) apply_fields docs) (st : apps.State)
      (user_id : ObjectId) where
    -- The documents of all other users, in order.
    abbrev pub others : List Application → List Application
    others ds = keep (λ a. not (same a.user_id user_id)) ds

    pub scope-owner :
        (id : ObjectId) (a : Application)
        → matches like (scope_filter id user_id) a ≡ true
        → (a.id ≡ id) × (a.user_id ≡ user_id)
    unfolding scope_filter
    scope-owner id a m = ground (arith, same_iff a.id id, same_iff a.user_id user_id)

    -- `of` chooses users, this one not among them.
    module _ (of : ObjectId → Bool) (away : of user_id ≡ false) where
      abbrev chosen : List Application → List Application
      chosen ds = keep (λ a. of a.user_id) ds

      scope-away :
          (id : ObjectId) (a : Application)
          → matches like (scope_filter id user_id) a ≡ true
          → of a.user_id ≡ false
      scope-away id a m = ap of (scope-owner id a m).1 ∙ away

      pub delete_application-keep :
          (id : ObjectId)
          → keep (λ a. of a.user_id) (docs (delete_application apps id user_id st).1)
            ≡ keep (λ a. of a.user_id) (docs st)
      delete_application-keep id =
          ap (λ s. chosen (docs s)) (delete_application_state apps id user_id st)
          ∙ (elim (laws.delete_one_law st (scope_filter id user_id)) [
            | inl (_, e) ↦
                ap chosen e
                ∙ keep-remove_first (matches like (scope_filter id user_id)) (λ a. of a.user_id)
                    (docs st) (scope-away id)
            | inr (x, _, e) ↦ ap chosen e
          ])

      pub update_application-keep :
          (now : ℕ) (id : ObjectId) (set : List FieldUpdate)
          → keep (λ a. of a.user_id) (docs (update_application apps now id user_id set st).1)
            ≡ keep (λ a. of a.user_id) (docs st)
      update_application-keep now id [] = unfold update_application in refl
      update_application-keep now id (u ∷ us) =
          let f = scope_filter id user_id in
          let set = (u ∷ us) ++ updated_at now ∷ [] in
          elim (laws.find_one_and_update_law st f set) [
            | inl (_, e) ↦
                unfold update_application in
                ap chosen e
                ∙ keep-update_first (matches like f) (λ a. of a.user_id) (apply_fields set)
                    (docs st) (scope-away id) (λ a. ap of (apply_fields-user_id set a))
            | inr (x, _, e) ↦ unfold update_application in ap chosen e
          ]

      pub create_application-keep :
          (new_id : ObjectId) (now : ℕ) (app : Application)
          → app.user_id ≡ user_id
          → keep (λ a. of a.user_id) (docs (create_application apps new_id now app st).1)
            ≡ keep (λ a. of a.user_id) (docs st)
      create_application-keep new_id now app owned =
          let stamped = record app { id = new_id; created_at = now; updated_at = now } in
          ap (λ s. chosen (docs s)) (create_application_state apps new_id now app st)
          ∙ (elim (laws.insert_one_law st stamped) [
            | inl (left, right, e, e') ↦
                ap chosen e'
                ∙ keep-insert (λ a. of a.user_id) left right stamped (ap of owned ∙ away)
                ∙ ap chosen (sym e)
            | inr (e, _) ↦ ap chosen e
          ])

    listed-owner :
        (query : ListApplicationsQuery) (a : Application)
        → matches like (list_filter user_id query) a ≡ true
        → a.user_id ≡ user_id
    unfolding list_filter
    listed-owner query a m = ground (arith, same_iff a.user_id user_id)

    -- On a collection that keeps the driver's laws, a document that FindApplicationByID returns is
    -- the one asked for, and the user's own.
    pub find_application_by_id-owner :
        (id : ObjectId) {app : Application}
        → find_application_by_id apps st id user_id ≡ ok app
        → (app.id ≡ id) × (app.user_id ≡ user_id)
    unfolding find_application_by_id
    find_application_by_id-owner id e = elim (laws.find_one_law st (scope_filter id user_id)) [
      | inl f ↦ elim (Found-cases (first (matches like (scope_filter id user_id)) (docs st))) [
        | inl (a, g) ↦
            let hit = first-found (matches like (scope_filter id user_id)) (docs st) g in
            ground (arith, f, g, scope-owner id a (unfold scope_filter in hit))
        | inr (inl g) ↦ absurd (ground (arith, f, g))
        | inr (inr (x, g)) ↦ absurd (ground (arith, f, g))
      ]
      | inr (x, f) ↦ absurd (ground (arith, f))
    ]

    -- On such a collection DeleteApplication leaves the documents of all other users as they were.
    delete_application-others :
        (id : ObjectId) → others (docs (delete_application apps id user_id st).1) ≡ others (docs st)
    delete_application-others id =
        delete_application-keep (λ u. not (same u user_id)) (ap not (same_refl user_id)) id

    -- On such a collection UpdateApplication leaves the documents of all other users as they were,
    -- whatever it sets.
    update_application-others :
        (now : ℕ) (id : ObjectId) (set : List FieldUpdate)
        → others (docs (update_application apps now id user_id set st).1) ≡ others (docs st)
    update_application-others now id set =
        update_application-keep (λ u. not (same u user_id)) (ap not (same_refl user_id)) now id set

    -- On such a collection every document of a listing that is answered is the user's own.
    pub list_applications-owner :
        (query : ListApplicationsQuery) {r : List Application × ℕ}
        → list_applications apps st user_id query ≡ ok r
        → All (λ a. a.user_id ≡ user_id) r.0
    unfolding list_applications
    list_applications-owner query e =
        let f = list_filter user_id query in
        elim (Result-cases (apps.count_documents st f)) [
          | inr (x, g) ↦ absurd (ground (arith, g))
          | inl (total, g) ↦ elim (Result-cases (apps.find st f (page_of apps query))) [
            | inr (x, h) ↦ absurd (ground (arith, g, h))
            | inl (ds, h) ↦
                let all =
                  All-map ds (listed-owner query) (laws.find_law st f (page_of apps query) h) in
                ground (arith, g, h)
          ]
        ]
