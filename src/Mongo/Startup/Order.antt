-- ===== src/Mongo/Startup/Order.antt =====
-- What a migration leaves in place, done or stopped halfway.
use jsm.Common.{
  String, ◌≡◌, refl, sym, ap, ◌∙◌, ◌⊎◌, inl, inr, Bool, true, false, not, none, List, [], ◌∷◌, map,
  arith, Bool-cases, Option-cases, any, All, keep, Bytes, same, same_iff,
}
use jsm.Metrics.{Result, ok, err, Result-cases}
use jsm.Mongo.Startup.{
  Index, Database, users, legacy_unique_email_index, migrate_user_email_normalized, backfill,
  drop_index_if_present, drop_where, read_all,
}
use jsm.Mongo.Startup.Backfill.{
  Person, Distinct, filled, IsDatabase, backfill-filled, backfill-indexes,
}

read_all-ok :
    {A : Type 0} (find read : String) (x : Result (Result A)) {rows : A}
    → read_all find read x ≡ ok rows
    → x ≡ ok (ok rows)
read_all-ok find read (err e) h = cc
read_all-ok find read (ok (err e)) h = cc
read_all-ok find read (ok (ok rows)) h = ap (λ r. ok r) h

module _ (unicode_lower : Bytes → Bytes) (db : Database) (people : db.State → List Person)
    (indexes : db.State → List Index) (laws : IsDatabase db people indexes) where
  drop_where-people :
      (context : String) (test : Index → Bool) (is : List Index) (st : db.State)
      → people (drop_where unicode_lower db context users test is st).1 ≡ people st
  unfolding drop_where
  drop_where-people context test [] st = refl
  drop_where-people context test (i ∷ is) st = ground (
    arith,
    drop_where-people context test is st,
    drop_where-people context test is (db.drop_one st users i.name).1,
    laws.drop_keeps st i.name,
  )

  drop_index-people :
      (name : Bytes) (st : db.State)
      → people (drop_index_if_present unicode_lower db users name st).1 ≡ people st
  unfolding drop_index_if_present
  drop_index-people name st =
      elim (Result-cases (read_all "list indexes" "read indexes" (db.list_indexes st users))) [
        | inr (e, f) ↦ ground arith
        | inl (is, f) ↦ ground (arith, drop_where-people "drop index" (λ i. same i.name name) is st)
      ]

  abbrev pub Gone : Bytes → List Index → Type 0
  Gone name is = All (λ i. same i.name name ≡ false) is

  keep-Gone : (name : Bytes) (is : List Index) → Gone name (keep (λ i. not (same i.name name)) is)
  keep-Gone name [] = tt
  keep-Gone name (i ∷ is) = ground (arith, keep-Gone name is)

  any_or_Gone :
      (name : Bytes) (is : List Index) → (any (λ i. same i.name name) is ≡ true) ⊎ Gone name is
  any_or_Gone name [] = inr tt
  any_or_Gone name (i ∷ is) = elim (Bool-cases (same i.name name)) [
    | inl e ↦ inl (ground arith)
    | inr e ↦ elim (any_or_Gone name is) [ inl h ↦ inl (ground arith) | inr h ↦ inr (e, h) ]
  ]

  drop_where-Gone :
      (name : Bytes) (is : List Index) (st : db.State)
      → (drop_where unicode_lower db "drop index" users (λ i. same i.name name) is st).0 ≡ none
      → (any (λ i. same i.name name) is ≡ true) ⊎ Gone name (indexes st)
      → Gone name
          (indexes (drop_where unicode_lower db "drop index" users (λ i. same i.name name) is st).1)
  unfolding drop_where
  drop_where-Gone name [] st done (inl e) = cc
  drop_where-Gone name [] st done (inr h) = h
  drop_where-Gone name (i ∷ is) st done h = elim (Bool-cases (same i.name name)) [
    | inr ne ↦
        let rest = drop_where-Gone name is st (ground (arith, ne)) (ground (arith, ne)) in
        ground (arith, ne)
    | inl eq ↦ elim (Option-cases (db.drop_one st users i.name).0) [
      | inr (e, f) ↦ absurd (ground (arith, eq, f))
      | inl f ↦
          let st' = (db.drop_one st users i.name).1 in
          let gone : Gone name (indexes st') =
            rw (laws.drop_law st i.name f, (same_iff i.name name).0 eq)
              (keep-Gone name (indexes st)) in
          let rest = drop_where-Gone name is st' (ground (arith, eq, f)) (inr gone) in
          ground (arith, eq, f)
    ]
  ]

  module _ (st : db.State) (distinct : Distinct (people st)) where
    abbrev pub after : db.State
    after = (migrate_user_email_normalized unicode_lower db st).1

    -- However a migration ends, the old unique index stands untouched, or every user has the
    -- field: those that lacked it the form that a login looks up, all others what they had.
    pub migrate_order :
        (indexes after ≡ indexes st) ⊎ (people after ≡ map (filled unicode_lower) (people st))
    unfolding migrate_user_email_normalized
    migrate_order =
        elim (Result-cases (
          read_all "find users needing email_normalized" "read users needing email_normalized"
            (db.find_missing st))) [
              | inr (e, f) ↦ inl (ground arith)
              | inl (legacy, f) ↦
                  let found = laws.find_missing_law st (
                    read_all-ok "find users needing email_normalized"
                      "read users needing email_normalized" (db.find_missing st) f) in
                  elim (Option-cases (backfill unicode_lower db legacy st).0) [
                    | inr (e, g) ↦ inl (
                        ground
                          (arith, backfill-indexes unicode_lower db people indexes laws legacy st))
                    | inl g ↦
                        let filled_up =
                          backfill-filled unicode_lower db people indexes laws st distinct
                            (rw (sym found) g) in
                        let step : people after ≡ people (backfill unicode_lower db legacy st).1 =
                          ground (
                            arith,
                            f,
                            g,
                            drop_index-people legacy_unique_email_index
                                (backfill unicode_lower db legacy st).1,
                          ) in
                        inr (step ∙ rw found filled_up)
                  ]
            ]

    -- A migration that ends without an error has filled in the field of every user and left no
    -- index under the old name.
    pub migrate_complete :
        (migrate_user_email_normalized unicode_lower db st).0 ≡ none
        → (people after ≡ map (filled unicode_lower) (people st))
          × Gone legacy_unique_email_index (indexes after)
    unfolding migrate_user_email_normalized drop_index_if_present
    migrate_complete done =
        elim (Result-cases (
          read_all "find users needing email_normalized" "read users needing email_normalized"
            (db.find_missing st))) [
              | inr (e, f) ↦ absurd (ground (arith, f))
              | inl (legacy, f) ↦
                  let found = laws.find_missing_law st (
                    read_all-ok "find users needing email_normalized"
                      "read users needing email_normalized" (db.find_missing st) f) in
                  elim (Option-cases (backfill unicode_lower db legacy st).0) [
                    | inr (e, g) ↦ absurd (ground (arith, f, g))
                    | inl g ↦
                        let st' = (backfill unicode_lower db legacy st).1 in
                        let filled_up =
                          backfill-filled unicode_lower db people indexes laws st distinct
                            (rw (sym found) g) in
                        elim (Result-cases
                          (read_all "list indexes" "read indexes" (db.list_indexes st' users))) [
                            | inr (e, k) ↦ absurd (ground (arith, f, g, k))
                            | inl (is, k) ↦
                                let listed = laws.list_law st' (
                                  read_all-ok "list indexes" "read indexes"
                                    (db.list_indexes st' users) k) in
                                let dropped =
                                  drop_where-Gone legacy_unique_email_index is st'
                                    (ground (arith, f, g, k))
                                    (rw listed
                                      (any_or_Gone legacy_unique_email_index (indexes st'))) in
                                let step : people after ≡ people st' = ground (
                                  arith,
                                  f,
                                  g,
                                  k,
                                  drop_where-people "drop index"
                                      (λ i. same i.name legacy_unique_email_index) is st',
                                ) in
                                (step ∙ rw found filled_up, ground (arith, f, g, k))
                          ]
                  ]
            ]
