-- ===== src/Mongo/Results.antt =====
-- Whose documents the queries on the applications answer with, beside those of Mongo.Tenancy.
use jsm.Common.{ℕ, ◌≡◌, refl, ap, ◌∙◌, ◌⊎◌, inl, inr, Bool, List, [], ◌∷◌, ◌++◌, arith, Bytes}
use jsm.Metrics.{AppError, ok}
use jsm.Domain.{ObjectId, Application}
use jsm.Mongo.{Found-cases, IsCollection, Inserted, inserted, duplicate_key, insert_failed, first}
use jsm.Mongo.Applications.{
  Apps, FieldUpdate, updated_at, scope_filter, create_application, update_application,
}
use jsm.Mongo.Documents.{apply_fields, apply_fields-user_id, first-found, matches}
use jsm.Mongo.Tenancy.{find_application_by_id-owner, scope-owner}

Inserted-cases :
    (i : Inserted)
    → (i ≡ inserted) ⊎ ((i ≡ duplicate_key) ⊎ ((e : AppError) × (i ≡ insert_failed e)))
Inserted-cases inserted = inl refl
Inserted-cases duplicate_key = inr (inl refl)
Inserted-cases (insert_failed e) = inr (inr (e, refl))

module _ (apps : Apps) (st : apps.State) where
  pub create_application-owner :
      (new_id : ObjectId) (now : ℕ) (app : Application) {stored : Application}
      → (create_application apps new_id now app st).0 ≡ ok stored
      → stored.user_id ≡ app.user_id
  unfolding create_application
  create_application-owner new_id now app {stored = stored} e =
      let stamped = record app { id = new_id; created_at = now; updated_at = now } in
      elim (Inserted-cases (apps.insert_one st stamped).0) [
        | inl f ↦ ground (arith, e, f)
        | inr (inl f) ↦ absurd (ground (arith, e, f))
        | inr (inr (x, f)) ↦ absurd (ground (arith, e, f))
      ]

  module _ (like : Bytes → Application → Bool) (docs : apps.State → List Application)
      (laws : IsCollection apps (matches like) apply_fields docs) (user_id : ObjectId) where
    pub update_application-owner :
        (now : ℕ) (id : ObjectId) (set : List FieldUpdate) {stored : Application}
        → (update_application apps now id user_id set st).0 ≡ ok stored
        → stored.user_id ≡ user_id
    update_application-owner now id [] {stored = stored} e =
        (find_application_by_id-owner like apps docs laws st user_id id {app = stored}
          (unfold update_application in e)).1
    update_application-owner now id (f ∷ fs) {stored = stored} e =
        let set = (f ∷ fs) ++ updated_at now ∷ [] in
        let filter = scope_filter id user_id in
        unfold update_application in
        elim (laws.find_one_and_update_law st filter set) [
          | inr (x, g, _) ↦ absurd (ground (arith, e, g))
          | inl (inr (x, g), _) ↦ absurd (ground (arith, e, g))
          | inl (inl g, _) ↦ elim (Found-cases (first (matches like filter) (docs st))) [
            | inl (a, k) ↦
                let owned =
                  scope-owner like apps docs laws st user_id id a
                    (first-found (matches like filter) (docs st) k) in
                let answered : stored ≡ apply_fields set a = ground (arith, e, g, k) in
                ap (λ x. x.user_id) answered ∙ apply_fields-user_id set a ∙ owned.1
            | inr (inl k) ↦ absurd (ground (arith, e, g, k))
            | inr (inr (x, k)) ↦ absurd (ground (arith, e, g, k))
          ]
        ]
