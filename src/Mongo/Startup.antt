-- ===== src/Mongo/Startup.antt =====
-- EnsureIndexes of backend/internal/common/mongoWrap/client.go, and the migrations that it runs.
-- The database is a parameter; what a cursor reads may fail apart from the query, as in the code.
-- Logging is left out, and a context is the text before its `%s`.
pub mod Backfill
pub mod Order
use jsm.Common.{
  String, Bool, true, false, ◌&&◌, Option, none, some, List, [], ◌∷◌, if◌then◌else◌, drop, Bytes,
  text, same,
}
use jsm.Metrics.{AppError, Result, ok, err, wrapped, other, ◌>>=◌}
use jsm.Text.{trim_space, to_lower}
use jsm.Domain.{ObjectId}

-- What the code reads of a user that lacks `email_normalized`.
pub record Legacy : Type 0 where
  pub id : ObjectId
  pub email : Bytes

pub record Index : Type 0 where
  pub name : Bytes
  pub unique : Bool

pub data CollectionName : Type 0 where
  users applications : CollectionName

-- The keys of an index that is to be created.
pub record IndexModel : Type 0 where
  pub keys : List Bytes
  pub unique : Bool

pub record Database : Type 1 where
  pub State : Type 0
  pub find_missing : State → Result (Result (List Legacy))
  pub update_by_id : State → ObjectId → Bytes → Option AppError × State
  pub list_indexes : State → CollectionName → Result (Result (List Index))
  pub drop_one : State → CollectionName → Bytes → Option AppError × State
  pub create_one : State → CollectionName → IndexModel → Option AppError × State

abbrev pub legacy_unique_email_index : Bytes
legacy_unique_email_index = text "email_1"

abbrev pub legacy_unique_app_index : Bytes
legacy_unique_app_index = text "user_id_1_status_1"

abbrev pub user_collection_index : List Bytes
user_collection_index = text "email_normalized" ∷ []

abbrev pub application_collection_user_id_index : List Bytes
application_collection_user_id_index = text "user_id" ∷ []

abbrev pub application_collection_user_id_status_index : List Bytes
application_collection_user_id_status_index = text "user_id" ∷ text "status" ∷ []

abbrev pub application_collection_search_index : List Bytes
application_collection_search_index =
    text "user_id" ∷ text "company_name" ∷ text "position_title" ∷ []

-- Query, then cursor.All.
abbrev read_all : {A : Type 0} → (find read : String) → Result (Result A) → Result A
read_all find read (err e) = err (wrapped find e)
read_all find read (ok (err e)) = err (wrapped read e)
read_all find read (ok (ok rows)) = ok rows

module _ (unicode_lower : Bytes → Bytes) (db : Database) where
  open db use {State, update_by_id, drop_one, create_one}

  abbrev pub Done : Type 0
  Done = Option AppError × State

  -- A step, and the next one unless it failed.
  abbrev pub then_do : Done → (State → Done) → Done
  then_do (some e, st) next = (some e, st)
  then_do (none, st) next = next st

  abbrev pub in_context : String → Done → Done
  in_context context (none, st) = (none, st)
  in_context context (some e, st) = (some (wrapped context e), st)

  unfoldable pub backfill : List Legacy → State → Done
  backfill [] st = (none, st)
  backfill (u ∷ us) st =
      then_do
        (in_context "backfill email_normalized"
          (update_by_id st u.id (to_lower unicode_lower (trim_space u.email))))
        (backfill us)

  -- The loop of both droppers, over the indexes that were listed.
  unfoldable pub drop_where : String → CollectionName → (Index → Bool) → List Index → State → Done
  drop_where context c test [] st = (none, st)
  drop_where context c test (i ∷ is) st =
      if test i
      then then_do (in_context context (drop_one st c i.name)) (drop_where context c test is)
      else drop_where context c test is st

  unfoldable pub drop_index_if_present : CollectionName → Bytes → State → Done
  unfolding drop_where
  drop_index_if_present c name st =
      elim (read_all "list indexes" "read indexes" (db.list_indexes st c)) [
        | err e ↦ (some e, st)
        | ok existing ↦ drop_where "drop index" c (λ i. same i.name name) existing st
      ]

  -- Only an index that carries the unique flag is dropped.
  unfoldable pub drop_legacy_unique_app_index : State → Done
  unfolding drop_where
  drop_legacy_unique_app_index st =
      elim (read_all "list application indexes" "read application indexes"
        (db.list_indexes st applications)) [
          | err e ↦ (some e, st)
          | ok existing ↦
              drop_where "drop legacy unique index" applications
                (λ i. same i.name legacy_unique_app_index && i.unique) existing st
        ]

  unfoldable pub migrate_user_email_normalized : State → Done
  unfolding backfill drop_index_if_present
  migrate_user_email_normalized st =
      elim (read_all "find users needing email_normalized" "read users needing email_normalized"
        (db.find_missing st)) [
          | err e ↦ (some e, st)
          | ok legacy ↦
              then_do (backfill legacy st) (drop_index_if_present users legacy_unique_email_index)
        ]

  abbrev pub specs : List (CollectionName × IndexModel)
  specs =
      (users, record { keys = user_collection_index; unique = true })
      ∷ (applications, record { keys = application_collection_user_id_index; unique = false })
      ∷ (
        applications,
        record { keys = application_collection_user_id_status_index; unique = false },
      )
      ∷ (applications, record { keys = application_collection_search_index; unique = false })
      ∷ []

  -- Every index is tried; the failures are collected.
  unfoldable pub create_all : List (CollectionName × IndexModel) → State → List AppError × State
  create_all [] st = ([], st)
  create_all ((c, model) ∷ ms) st =
      let (failure, st') = create_one st c model in
      let (failures, last) = create_all ms st' in
      (elim failure [ none ↦ failures | some e ↦ e ∷ failures ], last)

  -- errors.New of the joined messages.
  abbrev pub joined : List AppError × State → Done
  joined ([], st) = (none, st)
  joined (e ∷ es, st) = (some (other "create indexes"), st)

  unfoldable pub ensure_indexes : State → Done
  unfolding drop_legacy_unique_app_index migrate_user_email_normalized create_all
  ensure_indexes st =
      then_do (drop_legacy_unique_app_index st) (λ st'.
        then_do (migrate_user_email_normalized st') (λ st''. joined (create_all specs st'')))
