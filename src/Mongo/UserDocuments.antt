-- ===== src/Mongo/UserDocuments.antt =====
-- What the filters and the update of backend/internal/common/mongoWrap/query.go mean, and what the
-- user records hold after its writes.
use jsm.Common.{◌≡◌, refl, inl, inr, Bool, true, false, List, [], ◌∷◌, ◌++◌, Bool-cases, All, same}
use jsm.Domain.{User}
use jsm.Mongo.{found, inserted, IsCollection, first, update_first, found_map}
use jsm.Mongo.Users.{Users, UserFilter, UserUpdate, id_is, email_normalized_is, set_password}

abbrev pub matches_user : UserFilter → User → Bool
matches_user (id_is id) u = same u.id id
matches_user (email_normalized_is e) u = same u.email_normalized e

abbrev pub apply_user : UserUpdate → User → User
apply_user (set_password hash now) u = record u { password_hash = hash; updated_at = now }

abbrev pub AreUsers : (users : Users) → (users.State → List User) → Type 0
AreUsers users docs = IsCollection users matches_user apply_user docs

-- The unique index on `email_normalized`: no document is inserted beside one with its address.
abbrev pub HasUniqueEmails : (users : Users) → (users.State → List User) → Type 0
HasUniqueEmails users docs =
    (st : users.State) (u : User)
    → (users.insert_one st u).0 ≡ inserted
    → All (λ x. same x.email_normalized u.email_normalized ≡ false) (docs st)

module _ {D : Type 0} (p : D → Bool) where
  -- A document is the first of its kind where no other is of the kind.
  pub first-insert :
      (left right : List D) (d : D)
      → All (λ x. p x ≡ false) (left ++ right)
      → p d ≡ true
      → first p (left ++ d ∷ right) ≡ found d
  first-insert [] right d h t = rw t refl
  first-insert (x ∷ left) right d (f, h) t = rw f (first-insert left right d h t)

  pub first-update_first :
      (f : D → D) (ds : List D)
      → ((d : D) → p (f d) ≡ p d)
      → first p (update_first p f ds) ≡ found_map f (first p ds)
  first-update_first f [] keeps = refl
  first-update_first f (d ∷ ds) keeps = elim (Bool-cases (p d)) [
    | inl t ↦ rw (t, keeps d, t) refl
    | inr n ↦ rw (n, n) (first-update_first f ds keeps)
  ]
