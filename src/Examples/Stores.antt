-- ===== src/Examples/Stores.antt =====
-- A session store that keeps hashes, and a collection of users with a unique index.
use jsm.Common.{
  zero, suc, ◌≡◌, refl, ◌⊎◌, inl, inr, Bool, true, false, none, some, List, [], ◌∷◌, ◌++◌, arith,
  if◌then◌else◌, Bool-cases, any, All, Bytes, same, same_refl,
}
use mathlib.Core.Path.{subst}
use jsm.Number.{ℤ, pos, negsuc, is_positive}
use jsm.Metrics.{ok}
use jsm.Domain.{User}
use jsm.Mongo.{inserted, duplicate_key}
use jsm.Mongo.Users.{Users}
use jsm.Mongo.UserDocuments.{matches_user, apply_user, AreUsers, HasUniqueEmails}
use jsm.Session.{Redis}
use jsm.Session.Stored.{IsHashStore}
use jsm.Accounts.{Deps, Stores}
use jsm.Accounts.Returning.{Matches}
use jsm.Examples.Samples.{listed, listed-IsCollection}
use jsm.Examples.Accounts.{deps, ann}

abbrev Hashes : Type 0
Hashes = List (Bytes × List (Bytes × Bytes))

abbrev pub hash_at : Hashes → Bytes → List (Bytes × Bytes)
hash_at [] key = []
hash_at ((k, fields) ∷ st) key = if same k key then fields else hash_at st key

abbrev expire_at : Hashes → Bytes → ℤ → Hashes
expire_at st key ttl = if is_positive ttl then st else (key, []) ∷ st

abbrev hashes : Redis
hashes = record {
  State = Hashes;
  hset = λ st key fields. (none, (key, fields ++ hash_at st key) ∷ st);
  expire = λ st key ttl. (none, expire_at st key ttl);
  hgetall = λ st key. ok (hash_at st key);
  del = λ st key. (none, (key, []) ∷ st);
}

expire_at-own :
    (st : Hashes) (key : Bytes) (ttl : ℤ)
    → (hash_at (expire_at st key ttl) key ≡ hash_at st key)
      ⊎ ((is_positive ttl ≡ false) × (hash_at (expire_at st key ttl) key ≡ []))
expire_at-own st key (pos (suc n)) = inl refl
expire_at-own st key (pos zero) = inr (refl, rw (same_refl key) refl)
expire_at-own st key (negsuc n) = inr (refl, rw (same_refl key) refl)

expire_at-elsewhere :
    (st : Hashes) (key : Bytes) (ttl : ℤ) (other : Bytes)
    → same key other ≡ false
    → hash_at (expire_at st key ttl) other ≡ hash_at st other
expire_at-elsewhere st key (pos (suc n)) other e = refl
expire_at-elsewhere st key (pos zero) other e = rw e refl
expire_at-elsewhere st key (negsuc n) other e = rw e refl

pub hashes-IsHashStore : IsHashStore hashes hash_at
hashes-IsHashStore = record {
  hset_law = λ st key fields. inl (λ name. rw (same_refl key) refl);
  expire_law = expire_at-own;
  hgetall_law = λ st key. inl refl;
  del_law = λ st key. inl (rw (same_refl key) refl);
  hset_elsewhere = λ st key fields other e. rw e refl;
  expire_elsewhere = expire_at-elsewhere;
  del_elsewhere = λ st key other e. rw e refl;
}

abbrev taken : List User → User → Bool
taken us u = any (λ x. same x.email_normalized u.email_normalized) us

abbrev unique_users : Users
unique_users = record (listed matches_user apply_user) {
  insert_one = λ st u. if taken st u then (duplicate_key, st) else (inserted, u ∷ st);
}

pub unique_users-AreUsers : AreUsers unique_users (λ st. st)
unique_users-AreUsers =
    let plain = listed-IsCollection matches_user apply_user in
    record {
      find_one_law = plain.find_one_law;
      update_one_law = plain.update_one_law;
      find_one_and_update_law = plain.find_one_and_update_law;
      delete_one_law = plain.delete_one_law;
      find_law = plain.find_law;
      find_limit_law = plain.find_limit_law;
      insert_one_law = λ st u. elim (Bool-cases (taken st u)) [
        | inl t ↦ inr (rw t refl, rw t (λ e. cc))
        | inr f ↦ inl ([], st, refl, rw f refl)
      ];
    }

not_taken :
    (us : List User) (u : User)
    → taken us u ≡ false
    → All (λ x. same x.email_normalized u.email_normalized ≡ false) us
not_taken [] u e = tt
not_taken (x ∷ us) u e = (ground arith, not_taken us u (ground arith))

pub unique_users-HasUniqueEmails : HasUniqueEmails unique_users (λ st. st)
unique_users-HasUniqueEmails st u e = elim (Bool-cases (taken st u)) [
  | inl t ↦ absurd (ground (arith, t, e))
  | inr f ↦ not_taken st u f
]

-- The two stores in the place of the ones that know less.
abbrev pub stored_deps : Deps
stored_deps = record deps {
  users = unique_users;
  rdb = hashes;
  sm = record deps.sm { ttl = pos 2000000000 };
  object_id_hex = λ s. b'#' ∷ s;
  object_id_from_hex = λ s. elim s [ [] ↦ none | c ∷ id ↦ some id ];
}

pub stored_deps-Matches : Matches stored_deps.bcrypt
stored_deps-Matches salt password hash e =
    let hashed : b'$' ∷ password ≡ hash = cc in
    subst (λ h. stored_deps.bcrypt.compare h password ≡ true) hashed (same_refl password)

abbrev pub empty_stores : Stores stored_deps
empty_stores = record { accounts = ann ∷ []; sessions = [] }
