-- ===== src/Mongo.antt =====
-- The MongoDB driver's collection, which is a parameter, and what its documentation says of the
-- calls in backend/internal/common/mongoWrap.
pub mod Users
pub mod UserDocuments
pub mod Applications
pub mod Documents
pub mod Tenancy
pub mod Kept
pub mod Results
pub mod Startup
use jsm.Common.{
  ℕ, ◌≤◌, ◌≡◌, refl, ◌≢◌, ◌⊎◌, inl, inr, Bool, true, List, [], ◌∷◌, ◌++◌, if◌then◌else◌, length,
  All,
}
use jsm.Number.{ℤ, pos}
use jsm.Metrics.{AppError, Result, ok, err}

-- The answer of FindOne and FindOneAndUpdate after Decode; `no_documents` is mongo.ErrNoDocuments.
pub data Found (D : Type 0) : Type 0 where
  found : D → Found D
  no_documents : Found D
  failed : AppError → Found D

pub Found-cases :
    {D : Type 0} (x : Found D)
    → ((d : D) × (x ≡ found d)) ⊎ ((x ≡ no_documents) ⊎ ((e : AppError) × (x ≡ failed e)))
Found-cases (found d) = inl (d, refl)
Found-cases no_documents = inr (inl refl)
Found-cases (failed e) = inr (inr (e, refl))

-- `duplicate_key` is what mongo.IsDuplicateKeyError recognises.
pub data Inserted : Type 0 where
  inserted duplicate_key : Inserted
  insert_failed : AppError → Inserted

-- A sorted page of a listing.
pub record Page : Type 0 where
  pub skip : ℤ
  pub limit : ℤ

pub record Collection (D F U : Type 0) : Type 1 where
  pub State : Type 0
  pub find_one : State → F → Found D
  pub insert_one : State → D → Inserted × State
  -- The number of matched documents.
  pub update_one : State → F → U → Result ℕ × State
  -- Returns the document as it is after the update.
  pub find_one_and_update : State → F → U → Found D × State
  -- The number of deleted documents.
  pub delete_one : State → F → Result ℕ × State
  pub count_documents : State → F → Result ℕ
  pub find : State → F → Page → Result (List D)

module _ {D : Type 0} where
  abbrev pub first : (D → Bool) → List D → Found D
  first p [] = no_documents
  first p (d ∷ ds) = if p d then found d else first p ds

  abbrev pub update_first : (D → Bool) → (D → D) → List D → List D
  update_first p f [] = []
  update_first p f (d ∷ ds) = if p d then f d ∷ ds else d ∷ update_first p f ds

  abbrev pub remove_first : (D → Bool) → List D → List D
  remove_first p [] = []
  remove_first p (d ∷ ds) = if p d then ds else d ∷ remove_first p ds

  abbrev pub found_map : (D → D) → Found D → Found D
  found_map f (found d) = found (f d)
  found_map f no_documents = no_documents
  found_map f (failed e) = failed e

  abbrev pub how_many : Found D → ℕ
  how_many (found d) = 1
  how_many no_documents = 0
  how_many (failed e) = 0

-- A write acts on the first document that matches, once, or on none; the driver may return an error
-- in either case, but no other answer than the write's own if it was made. `matches` is the meaning
-- of a filter and `apply` that of an update, `docs` the stored documents.
pub record IsCollection {D F U : Type 0} (c : Collection D F U) (matches : F → D → Bool)
    (apply : U → D → D) (docs : c.State → List D) : Type 0 where
  pub find_one_law :
      (st : c.State) (f : F)
      → (c.find_one st f ≡ first (matches f) (docs st))
        ⊎ ((e : AppError) × (c.find_one st f ≡ failed e))
  -- An inserted document may stand anywhere; a duplicate or a failed one leaves nothing.
  pub insert_one_law :
      (st : c.State) (d : D)
      → ((left : List D) × (right : List D) × (docs st ≡ left ++ right)
          × (docs (c.insert_one st d).1 ≡ left ++ d ∷ right))
        ⊎ ((docs (c.insert_one st d).1 ≡ docs st) × ((c.insert_one st d).0 ≢ inserted))
  pub update_one_law :
      (st : c.State) (f : F) (u : U)
      → ((((c.update_one st f u).0 ≡ ok (how_many (first (matches f) (docs st))))
            ⊎ ((e : AppError) × ((c.update_one st f u).0 ≡ err e)))
          × (docs (c.update_one st f u).1 ≡ update_first (matches f) (apply u) (docs st)))
        ⊎ ((e : AppError) × ((c.update_one st f u).0 ≡ err e)
            × (docs (c.update_one st f u).1 ≡ docs st))
  pub find_one_and_update_law :
      (st : c.State) (f : F) (u : U)
      → ((((c.find_one_and_update st f u).0 ≡ found_map (apply u) (first (matches f) (docs st)))
            ⊎ ((e : AppError) × ((c.find_one_and_update st f u).0 ≡ failed e)))
          × (docs (c.find_one_and_update st f u).1 ≡ update_first (matches f) (apply u) (docs st)))
        ⊎ ((e : AppError) × ((c.find_one_and_update st f u).0 ≡ failed e)
            × (docs (c.find_one_and_update st f u).1 ≡ docs st))
  pub delete_one_law :
      (st : c.State) (f : F)
      → ((((c.delete_one st f).0 ≡ ok (how_many (first (matches f) (docs st))))
            ⊎ ((e : AppError) × ((c.delete_one st f).0 ≡ err e)))
          × (docs (c.delete_one st f).1 ≡ remove_first (matches f) (docs st)))
        ⊎ ((e : AppError) × ((c.delete_one st f).0 ≡ err e)
            × (docs (c.delete_one st f).1 ≡ docs st))
  pub find_law :
      (st : c.State) (f : F) (page : Page) {ds : List D}
      → c.find st f page ≡ ok ds
      → All (λ d. matches f d ≡ true) ds
  -- A limit of 0 is none.
  pub find_limit_law :
      (st : c.State) (f : F) (page : Page) {ds : List D} {n : ℕ}
      → c.find st f page ≡ ok ds
      → page.limit ≡ pos n
      → 1 ≤ n
      → length ds ≤ n
