-- ===== src/Applications/Owner.antt =====
-- For which user the service's operations reach the store.
use jsm.Common.{ℕ, ◌≡◌, ◌⊎◌, inl, inr, some, List, arith, Option-cases, Bytes}
use jsm.Metrics.{ok, Result-cases}
use jsm.Domain.{ObjectId, Application, CreateApplicationRequest, UpdateApplicationRequest}
use jsm.Mongo.Applications.{
  Apps, FieldUpdate, create_application, update_application, delete_application,
}
use jsm.Applications.{
  Parsers, create, update, delete, build_application, build_patch, parse_ids, user_oid, app_oid,
}
use jsm.Applications.Patch.{IsStorable, build_application-IsStorable}

module _ (p : Parsers) (apps : Apps) (user_id : Bytes) (st : apps.State) where
  -- Nothing is stored, or one call is made, for the user that the ID names.
  pub create_state :
      (new_id : ObjectId) (now : ℕ) (req : CreateApplicationRequest)
      → ((create p apps new_id now user_id req st).1 ≡ st)
        ⊎ ((uid : ObjectId) × (app : Application) × (p.object_id_from_hex user_id ≡ some uid)
            × IsStorable p.parse_url uid app
            × ((create p apps new_id now user_id req st).1
                ≡ (create_application apps new_id now app st).1))
  unfolding create user_oid
  create_state new_id now req = elim (Option-cases (p.object_id_from_hex user_id)) [
    | inl e ↦ inl (ground arith)
    | inr (uid, e) ↦ elim (Result-cases (build_application p now uid req)) [
      | inr (x, f) ↦ inl (ground arith)
      | inl (app, f) ↦ inr (uid, app, e, build_application-IsStorable p now uid req f, ground arith)
    ]
  ]

  pub update_state :
      (now : ℕ) (id : Bytes) (req : UpdateApplicationRequest)
      → ((update p apps now user_id id req st).1 ≡ st)
        ⊎ ((uid : ObjectId) × (app_id : ObjectId) × (set : List FieldUpdate) × (p.object_id_from_hex
                user_id
              ≡ some uid)
            × (build_patch p req ≡ ok set)
            × ((update p apps now user_id id req st).1
                ≡ (update_application apps now app_id uid set st).1))
  unfolding update parse_ids user_oid app_oid
  update_state now id req = elim (Option-cases (p.object_id_from_hex user_id)) [
    | inl e ↦ inl (ground arith)
    | inr (uid, e) ↦ elim (Option-cases (p.object_id_from_hex id)) [
      | inl f ↦ inl (ground arith)
      | inr (app_id, f) ↦ elim (Result-cases (build_patch p req)) [
        | inr (x, g) ↦ inl (ground arith)
        | inl (set, g) ↦ inr (uid, app_id, set, e, g, ground arith)
      ]
    ]
  ]

  pub delete_state :
      (id : Bytes)
      → ((delete p apps user_id id st).1 ≡ st)
        ⊎ ((uid : ObjectId) × (app_id : ObjectId) × (p.object_id_from_hex user_id ≡ some uid)
            × ((delete p apps user_id id st).1 ≡ (delete_application apps app_id uid st).1))
  unfolding delete parse_ids user_oid app_oid
  delete_state id = elim (Option-cases (p.object_id_from_hex user_id)) [
    | inl e ↦ inl (ground arith)
    | inr (uid, e) ↦ elim (Option-cases (p.object_id_from_hex id)) [
      | inl f ↦ inl (ground arith)
      | inr (app_id, f) ↦ inr (uid, app_id, e, ground arith)
    ]
  ]
