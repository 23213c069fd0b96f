-- ===== src/Mongo/Documents.antt =====
-- What filters and updates of applications mean, and what a write to one document leaves alone.
use jsm.Common.{
  ◌≡◌, refl, ◌∙◌, inl, inr, Bool, true, false, ◌&&◌, List, [], ◌∷◌, ◌++◌, arith, Bool-cases, all,
  any, All, keep, Bytes, same,
}
use jsm.Domain.{Application}
use jsm.Mongo.{found, first, update_first, remove_first}
use jsm.Mongo.Applications.{
  Condition, id_is, user_id_is, status_is, tags_has, matches_any, FieldUpdate, company_name,
  position_title, status, job_link, job_description, notes, location, tags, applied_at, updated_at,
  next_follow_up_at, compensation,
}

-- The meaning of an entry of `$set`.
abbrev pub apply_field : FieldUpdate → Application → Application
apply_field (company_name v) a = record a { company_name = v }
apply_field (position_title v) a = record a { position_title = v }
apply_field (status v) a = record a { status = v }
apply_field (job_link v) a = record a { job_link = v }
apply_field (job_description v) a = record a { job_description = v }
apply_field (notes v) a = record a { notes = v }
apply_field (location v) a = record a { location = v }
apply_field (tags v) a = record a { tags = v }
apply_field (applied_at v) a = record a { applied_at = v }
apply_field (updated_at v) a = record a { updated_at = v }
apply_field (next_follow_up_at v) a = record a { next_follow_up_at = v }
apply_field (compensation v) a = record a { compensation = v }

abbrev pub apply_fields : List FieldUpdate → Application → Application
apply_fields [] a = a
apply_fields (f ∷ fs) a = apply_fields fs (apply_field f a)

apply_field-user_id : (f : FieldUpdate) (a : Application) → (apply_field f a).user_id ≡ a.user_id
apply_field-user_id (company_name v) a = refl
apply_field-user_id _ a = refl

pub apply_fields-user_id :
    (fs : List FieldUpdate) (a : Application) → (apply_fields fs a).user_id ≡ a.user_id
apply_fields-user_id [] a = refl
apply_fields-user_id (f ∷ fs) a =
    apply_fields-user_id fs (apply_field f a) ∙ apply_field-user_id f a

-- A write to one matching document leaves the documents alone that match neither before nor after.
module _ {D : Type 0} (p q : D → Bool) where
  pub keep-remove_first :
      (ds : List D) → ((d : D) → p d ≡ true → q d ≡ false) → keep q (remove_first p ds) ≡ keep q ds
  keep-remove_first [] h = refl
  keep-remove_first (d ∷ ds) h = ground (arith, keep-remove_first ds h, h d)

  pub keep-update_first :
      (f : D → D) (ds : List D)
      → ((d : D) → p d ≡ true → q d ≡ false)
      → ((d : D) → q (f d) ≡ q d)
      → keep q (update_first p f ds) ≡ keep q ds
  keep-update_first f [] h k = refl
  keep-update_first f (d ∷ ds) h k = ground (arith, keep-update_first f ds h k, h d, k d)

pub keep-insert :
    {D : Type 0} (q : D → Bool) (left right : List D) (d : D)
    → q d ≡ false
    → keep q (left ++ d ∷ right) ≡ keep q (left ++ right)
keep-insert q [] right d h = ground arith
keep-insert q (x ∷ left) right d h = ground (arith, keep-insert q left right d h)

module _ {D : Type 0} (p : D → Bool) where
  pub first-found : (ds : List D) {d : D} → first p ds ≡ found d → p d ≡ true
  first-found [] e = cc
  first-found (x ∷ ds) e = elim (Bool-cases (p x)) [
    | inl t ↦ ground arith
    | inr f ↦ first-found ds (ground arith)
  ]

pub All-map :
    {D : Type 0} {P Q : D → Type 0} (ds : List D) → ((d : D) → P d → Q d) → All P ds → All Q ds
All-map [] h all = all
All-map (d ∷ ds) h (x, all) = (h d x, All-map ds h all)

-- `like pattern app` is the meaning of the regular expressions.
module _ (like : Bytes → Application → Bool) where
  abbrev pub holds : Condition → Application → Bool
  holds (id_is id) a = same a.id id
  holds (user_id_is user_id) a = same a.user_id user_id
  holds (status_is s) a = same a.status s
  holds (tags_has t) a = any (λ x. same x t) a.tags
  holds (matches_any pattern) a = like pattern a

  abbrev pub matches : List Condition → Application → Bool
  matches [] a = true
  matches (c ∷ cs) a = holds c a && matches cs a
