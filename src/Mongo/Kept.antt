-- ===== src/Mongo/Kept.antt =====
-- What the writes of backend/internal/common/mongoWrap/application.go keep true of every stored
-- document. `like` is the meaning of the regular expressions.
use jsm.Common.{ℕ, sym, inl, inr, Bool, List, [], ◌∷◌, ◌++◌, Bool-cases, All, Bytes}
use mathlib.Core.Path.{subst}
use jsm.Domain.{ObjectId, Application}
use jsm.Mongo.{IsCollection, update_first, remove_first}
use jsm.Mongo.Applications.{
  Apps, FieldUpdate, updated_at, scope_filter, create_application, create_application_state,
  update_application, delete_application, delete_application_state,
}
use jsm.Mongo.Documents.{apply_fields, matches}

module _ {D : Type 0} (P : D → Type 0) where
  All-insert :
      (left right : List D) (d : D) → All P (left ++ right) → P d → All P (left ++ d ∷ right)
  All-insert [] right d h k = (k, h)
  All-insert (x ∷ left) right d (p, h) k = (p, All-insert left right d h k)

  All-remove_first : (p : D → Bool) (ds : List D) → All P ds → All P (remove_first p ds)
  All-remove_first p [] h = tt
  All-remove_first p (d ∷ ds) (k, h) = elim (Bool-cases (p d)) [
    | inl t ↦ rw t h
    | inr f ↦ rw f (k, All-remove_first p ds h)
  ]

  All-update_first :
      (p : D → Bool) (f : D → D) (ds : List D)
      → ((d : D) → P d → P (f d))
      → All P ds
      → All P (update_first p f ds)
  All-update_first p f [] keeps h = tt
  All-update_first p f (d ∷ ds) keeps (k, h) = elim (Bool-cases (p d)) [
    | inl t ↦ rw t (keeps d k, h)
    | inr g ↦ rw g (k, All-update_first p f ds keeps h)
  ]

module _ (like : Bytes → Application → Bool) (apps : Apps) (docs : apps.State → List Application)
    (laws : IsCollection apps (matches like) apply_fields docs) (P : Application → Type 0)
    (st : apps.State) (all : All P (docs st)) where
  abbrev Kept : apps.State → Type 0
  Kept s = All P (docs s)

  pub create_application-All :
      (new_id : ObjectId) (now : ℕ) (app : Application)
      → P (record app { id = new_id; created_at = now; updated_at = now })
      → Kept (create_application apps new_id now app st).1
  create_application-All new_id now app h =
      let stamped = record app { id = new_id; created_at = now; updated_at = now } in
      subst Kept (sym (create_application_state apps new_id now app st))
        (elim (laws.insert_one_law st stamped) [
          | inl (left, right, e, e') ↦
              subst (All P) (sym e') (All-insert P left right stamped (subst (All P) e all) h)
          | inr (e, _) ↦ subst (All P) (sym e) all
        ])

  pub update_application-All :
      (now : ℕ) (id user_id : ObjectId) (set : List FieldUpdate)
      → ((a : Application) → P a → P (apply_fields (set ++ updated_at now ∷ []) a))
      → Kept (update_application apps now id user_id set st).1
  update_application-All now id user_id [] keeps = unfold update_application in all
  update_application-All now id user_id (u ∷ us) keeps =
      let f = scope_filter id user_id in
      let set = (u ∷ us) ++ updated_at now ∷ [] in
      elim (laws.find_one_and_update_law st f set) [
        | inl (_, e) ↦
            unfold update_application in
            subst (All P) (sym e)
              (All-update_first P (matches like f) (apply_fields set) (docs st) keeps all)
        | inr (x, _, e) ↦ unfold update_application in subst (All P) (sym e) all
      ]

  pub delete_application-All :
      (id user_id : ObjectId) → Kept (delete_application apps id user_id st).1
  delete_application-All id user_id =
      let f = scope_filter id user_id in
      subst Kept (sym (delete_application_state apps id user_id st))
        (elim (laws.delete_one_law st f) [
          | inl (_, e) ↦ subst (All P) (sym e) (All-remove_first P (matches like f) (docs st) all)
          | inr (x, _, e) ↦ subst (All P) (sym e) all
        ])
