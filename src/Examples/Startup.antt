-- ===== src/Examples/Startup.antt =====
-- The theorems on the migration of users, and on a PATCH, at concrete inputs.
use jsm.Common.{◌≡◌, refl, ◌⊎◌, inl, true, not, none, some, List, [], ◌∷◌, map, keep, text, same}
use jsm.Metrics.{ok}
use jsm.Mongo.Startup.{
  Database, Index, migrate_user_email_normalized, legacy_unique_email_index, backfill,
  drop_index_if_present, drop_where,
}
use jsm.Mongo.Startup.Backfill.{Person, Distinct, legacy_of, set_normalized, filled, IsDatabase}
use jsm.Mongo.Startup.Order.{after, Gone, migrate_order, migrate_complete}

abbrev Stored : Type 0
Stored = List Person × List Index

-- A database that never fails, with the indexes of one collection.
abbrev database : Database
database = record {
  State = Stored;
  find_missing = λ st. ok (ok (legacy_of st.0));
  update_by_id = λ st id n. (none, (map (set_normalized id n) st.0, st.1));
  list_indexes = λ st c. ok (ok st.1);
  drop_one = λ st c name. (none, (st.0, keep (λ i. not (same i.name name)) st.1));
  create_one = λ st c model. (none, st);
}

database-IsDatabase : IsDatabase database (λ st. st.0) (λ st. st.1)
database-IsDatabase = record {
  find_missing_law = λ st e. cc;
  update_law = λ st id n. inl (refl, refl);
  update_keeps = λ st id n. refl;
  list_law = λ st e. cc;
  drop_law = λ st name e. refl;
  drop_keeps = λ st name. refl;
}

-- One user of before, one of after the field came.
abbrev stored : Stored
stored = (
  record { id = text "1"; email = text " a@x.y"; normalized = none }
      ∷ record { id = text "2"; email = text "B@x.y"; normalized = some (text "b@x.y") }
      ∷ [],
  record { name = text "_id_"; unique = true }
      ∷ record { name = legacy_unique_email_index; unique = true }
      ∷ [],
)

stored-Distinct : Distinct stored.0
stored-Distinct = ((refl, tt), (tt, tt))

abbrev migrated : Stored
migrated =
    after (λ s. s) database (λ st. st.0) (λ st. st.1) database-IsDatabase stored stored-Distinct

migrate_order_example : (migrated.1 ≡ stored.1) ⊎ (migrated.0 ≡ map (filled (λ s. s)) stored.0)
migrate_order_example =
    migrate_order (λ s. s) database (λ st. st.0) (λ st. st.1) database-IsDatabase stored
      stored-Distinct

migration_done : (migrate_user_email_normalized (λ s. s) database stored).0 ≡ none
unfolding migrate_user_email_normalized backfill drop_index_if_present drop_where
migration_done = refl

migrate_complete_example :
    (migrated.0 ≡ map (filled (λ s. s)) stored.0)
    × Gone
        (λ s. s)
        database
        (λ st. st.0)
        (λ st. st.1)
        database-IsDatabase
        legacy_unique_email_index
        migrated.1
migrate_complete_example =
    migrate_complete (λ s. s) database (λ st. st.0) (λ st. st.1) database-IsDatabase stored
      stored-Distinct migration_done
