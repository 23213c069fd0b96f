-- ===== src/Mongo/Startup/Backfill.antt =====
-- The users of the database before and after the backfill, and the laws of the driver's calls.
use jsm.Common.{
  ◌≡◌, refl, sym, ap, ◌∙◌, ◌≢◌, ◌⊎◌, inl, inr, false, not, Option, none, some, List, [], ◌∷◌, map,
  arith, if◌then◌else◌, Option-cases, All, keep, Bytes, same, same_iff, same_refl,
}
use jsm.Metrics.{AppError, ok}
use jsm.Text.{trim_space, to_lower}
use jsm.Domain.{ObjectId}
use jsm.Accounts.Email.{normalize_email}
use jsm.Mongo.Startup.{Legacy, Index, users, Database, backfill}

-- A user as far as the migration sees it; `normalized` is `none` where the field is missing.
pub record Person : Type 0 where
  pub id : ObjectId
  pub email : Bytes
  pub normalized : Option Bytes

-- The users that lack the field.
abbrev pub legacy_of : List Person → List Legacy
legacy_of [] = []
legacy_of (u ∷ us) = elim u.normalized [
  | some n ↦ legacy_of us
  | none ↦ record { id = u.id; email = u.email } ∷ legacy_of us
]

abbrev pub set_normalized : ObjectId → Bytes → Person → Person
set_normalized id n u = if same u.id id then record u { normalized = some n } else u

-- The field, filled in where it is missing.
abbrev pub filled : (Bytes → Bytes) → Person → Person
filled unicode_lower u = elim u.normalized [
  | some n ↦ u
  | none ↦ record u { normalized = some (normalize_email unicode_lower u.email) }
]

-- No two users share an ID.
abbrev pub Distinct : List Person → Type 0
Distinct [] = Unit
Distinct (u ∷ us) = All (λ v. same u.id v.id ≡ false) us × Distinct us

pub record IsDatabase (db : Database) (people : db.State → List Person)
    (indexes : db.State → List Index) : Type 0 where
  pub find_missing_law :
      (st : db.State) {legacy : List Legacy}
      → db.find_missing st ≡ ok (ok legacy)
      → legacy ≡ legacy_of (people st)
  -- An update fails and changes nothing, or sets the field of the user with that ID.
  pub update_law :
      (st : db.State) (id : ObjectId) (n : Bytes)
      → (((db.update_by_id st id n).0 ≡ none)
          × (people (db.update_by_id st id n).1 ≡ map (set_normalized id n) (people st)))
        ⊎ ((e : AppError) × ((db.update_by_id st id n).0 ≡ some e))
  pub update_keeps :
      (st : db.State) (id : ObjectId) (n : Bytes) → indexes (db.update_by_id st id n).1 ≡ indexes st
  pub list_law :
      (st : db.State) {is : List Index} → db.list_indexes st users ≡ ok (ok is) → is ≡ indexes st
  pub drop_law :
      (st : db.State) (name : Bytes)
      → (db.drop_one st users name).0 ≡ none
      → indexes (db.drop_one st users name).1 ≡ keep (λ i. not (same i.name name)) (indexes st)
  pub drop_keeps : (st : db.State) (name : Bytes) → people (db.drop_one st users name).1 ≡ people st

module _ (unicode_lower : Bytes → Bytes) where
  -- The updates of a list of users, on one user.
  abbrev pub sets : List Legacy → Person → Person
  sets [] u = u
  sets (l ∷ ls) u = sets ls (set_normalized l.id (to_lower unicode_lower (trim_space l.email)) u)

  sets_elsewhere :
      (us : List Person) (u : Person)
      → All (λ v. same u.id v.id ≡ false) us
      → sets (legacy_of us) u ≡ u
  sets_elsewhere [] u h = refl
  sets_elsewhere (v ∷ us) u (ne, h) = ground (arith, sets_elsewhere us u h)

  sets_skip :
      (u : Person) (us : List Person) (v : Person)
      → same u.id v.id ≡ false
      → sets (legacy_of (u ∷ us)) v ≡ sets (legacy_of us) v
  sets_skip u us v ne = ground (arith, same_iff u.id v.id, same_iff v.id u.id)

  skip-All :
      (u : Person) (us vs : List Person)
      → All (λ v. same u.id v.id ≡ false) vs
      → All (λ v. sets (legacy_of us) v ≡ filled unicode_lower v) vs
      → All (λ v. sets (legacy_of (u ∷ us)) v ≡ filled unicode_lower v) vs
  skip-All u us [] ne h = tt
  skip-All u us (v ∷ vs) (d, ne) (e, h) = (sets_skip u us v d ∙ e, skip-All u us vs ne h)

  sets_head :
      (u : Person) (us : List Person)
      → All (λ v. same u.id v.id ≡ false) us
      → sets (legacy_of (u ∷ us)) u ≡ filled unicode_lower u
  unfolding normalize_email
  sets_head u us ne = elim (Option-cases u.normalized) [
    | inr (n, e) ↦ ground (arith, sets_elsewhere us u ne)
    | inl e ↦
        let new = to_lower unicode_lower (trim_space u.email) in
        let u' = record u { normalized = some new } in
        ground (arith, same_refl u.id, sets_elsewhere us u' ne)
  ]

  sets-filled :
      (us : List Person)
      → Distinct us
      → All (λ u. sets (legacy_of us) u ≡ filled unicode_lower u) us
  sets-filled [] h = tt
  sets-filled (u ∷ us) (ne, h) = (sets_head u us ne, skip-All u us us ne (sets-filled us h))

  map-sets :
      (ls : List Legacy) (l : Legacy) (us : List Person)
      → map (sets ls) (map (set_normalized l.id (to_lower unicode_lower (trim_space l.email))) us)
        ≡ map (sets (l ∷ ls)) us
  map-sets ls l [] = refl
  map-sets ls l (u ∷ us) = ap (λ r. sets (l ∷ ls) u ∷ r) (map-sets ls l us)

map-eq : (f g : Person → Person) (us : List Person) → All (λ u. f u ≡ g u) us → map f us ≡ map g us
map-eq f g [] h = refl
map-eq f g (u ∷ us) (e, h) = ground (arith, map-eq f g us h)

map-id : (us : List Person) → map (λ u. u) us ≡ us
map-id [] = refl
map-id (u ∷ us) = ap (λ r. u ∷ r) (map-id us)

module _ (unicode_lower : Bytes → Bytes) (db : Database) (people : db.State → List Person)
    (indexes : db.State → List Index) (laws : IsDatabase db people indexes) where
  backfill_step :
      (l : Legacy) (ls : List Legacy) (st : db.State)
      → (db.update_by_id st l.id (to_lower unicode_lower (trim_space l.email))).0 ≡ none
      → backfill unicode_lower db (l ∷ ls) st
        ≡ backfill unicode_lower db ls
            (db.update_by_id st l.id (to_lower unicode_lower (trim_space l.email))).1
  unfolding backfill
  backfill_step l ls st e = ground arith

  backfill_failed :
      (l : Legacy) (ls : List Legacy) (st : db.State) (x : AppError)
      → (db.update_by_id st l.id (to_lower unicode_lower (trim_space l.email))).0 ≡ some x
      → (backfill unicode_lower db (l ∷ ls) st).0 ≢ none
  unfolding backfill
  backfill_failed l ls st x e = ground arith

  -- A backfill that ends without an error has made every update.
  backfill-sets :
      (ls : List Legacy) (st : db.State)
      → (backfill unicode_lower db ls st).0 ≡ none
      → people (backfill unicode_lower db ls st).1 ≡ map (sets unicode_lower ls) (people st)
  backfill-sets [] st e = unfold backfill in sym (map-id (people st))
  backfill-sets (l ∷ ls) st e =
      let n = to_lower unicode_lower (trim_space l.email) in
      elim (laws.update_law st l.id n) [
        | inr (x, f) ↦ absurd (backfill_failed l ls st x f e)
        | inl (f, g) ↦
            let step = backfill_step l ls st f in
            ap (λ d. people d.1) step
            ∙ backfill-sets ls (db.update_by_id st l.id n).1 (ap (λ d. d.0) (sym step) ∙ e)
            ∙ ap (map (sets unicode_lower ls)) g
            ∙ map-sets unicode_lower ls l (people st)
      ]

  pub backfill-filled :
      (st : db.State)
      → Distinct (people st)
      → (backfill unicode_lower db (legacy_of (people st)) st).0 ≡ none
      → people (backfill unicode_lower db (legacy_of (people st)) st).1
        ≡ map (filled unicode_lower) (people st)
  backfill-filled st d e =
      backfill-sets (legacy_of (people st)) st e
      ∙ map-eq (sets unicode_lower (legacy_of (people st))) (filled unicode_lower) (people st)
          (sets-filled unicode_lower (people st) d)

  pub backfill-indexes :
      (ls : List Legacy) (st : db.State) → indexes (backfill unicode_lower db ls st).1 ≡ indexes st
  unfolding backfill
  backfill-indexes [] st = refl
  backfill-indexes (l ∷ ls) st =
      let n = to_lower unicode_lower (trim_space l.email) in
      ground (arith, laws.update_keeps st l.id n, backfill-indexes ls (db.update_by_id st l.id n).1)
