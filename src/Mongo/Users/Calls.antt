-- ===== src/Mongo/Users/Calls.antt =====
-- What the operations on the user records of backend/internal/common/mongoWrap/query.go leave, call
-- by call.
use jsm.Common.{
  ℕ, zero, suc, ◌≡◌, refl, sym, ◌⊎◌, inl, inr, Option, none, some, [], arith, Bool-cases,
  Option-cases, Bytes, same,
}
use mathlib.Core.Path.{subst}
use jsm.Metrics.{Result, ok, err}
use jsm.Domain.{ObjectId, User}
use jsm.Mongo.{Found-cases, found, Inserted, inserted, duplicate_key, insert_failed}
use jsm.Mongo.Users.{
  Users, id_is, email_normalized_is, set_password, lookup_user_by_email, created_user, create_user,
  lookup_user_by_id, edited, edit_password,
}

module _ (users : Users) where
  open users use {State, find_one, insert_one, update_one}

  created_user_ok :
      (u : User) (x : Inserted × State) {user : User}
      → (created_user users u x).0 ≡ ok user
      → (user ≡ u) × (x.0 ≡ inserted) × ((created_user users u x).1 ≡ x.1)
  unfolding created_user
  created_user_ok u (inserted, st) e = (cc, refl, refl)
  created_user_ok u (duplicate_key, st) e = cc
  created_user_ok u (insert_failed x, st) e = cc

  -- A user that is created without an error has been inserted, stamped.
  pub create_user_ok :
      (new_id : ObjectId) (now : ℕ) (user : User) (st : State) {created : User}
      → (create_user users new_id now user st).0 ≡ ok created
      → (created ≡ record user { id = new_id; created_at = now; updated_at = now })
        × ((insert_one st created).0 ≡ inserted)
        × ((create_user users new_id now user st).1 ≡ (insert_one st created).1)
  unfolding create_user
  create_user_ok new_id now user st {created = created} e =
      let u = record user { id = new_id; created_at = now; updated_at = now } in
      elim (Bool-cases (same user.email_normalized [])) [
        | inl t ↦ absurd (ground arith)
        | inr f ↦
            let (is, went, left) =
              created_user_ok u (insert_one st u) {user = created} (ground (arith, f)) in
            subst
              (λ x.
                (x ≡ u)
                × ((insert_one st x).0 ≡ inserted)
                × ((create_user users new_id now user st).1 ≡ (insert_one st x).1))
              (sym is) (refl, went, rw f left)
      ]

  created_user_state : (u : User) (x : Inserted × State) → (created_user users u x).1 ≡ x.1
  unfolding created_user
  created_user_state u (inserted, st) = refl
  created_user_state u (duplicate_key, st) = refl
  created_user_state u (insert_failed e, st) = refl

  -- Nothing is stored, or the stamped user is inserted.
  pub create_user_state :
      (new_id : ObjectId) (now : ℕ) (user : User) (st : State)
      → ((create_user users new_id now user st).1 ≡ st)
        ⊎ ((create_user users new_id now user st).1
            ≡ (insert_one st (record user { id = new_id; created_at = now; updated_at = now })).1)
  unfolding create_user
  create_user_state new_id now user st =
      let u = record user { id = new_id; created_at = now; updated_at = now } in
      elim (Bool-cases (same user.email_normalized [])) [
        | inl t ↦ inl (ground (arith, t))
        | inr f ↦ inr (ground (arith, f, created_user_state u (insert_one st u)))
      ]

  pub lookup_user_by_email_found :
      (st : State) (email : Bytes) {u : User}
      → find_one st (email_normalized_is email) ≡ found u
      → lookup_user_by_email users st email ≡ ok u
  unfolding lookup_user_by_email
  lookup_user_by_email_found st email e = ground arith

  module _ (object_id_from_hex : Bytes → Option ObjectId) where
    edited_ok :
        (x : Result ℕ × State)
        → (edited users object_id_from_hex x).0 ≡ none
        → ((n : ℕ) × (x.0 ≡ ok n)) × ((edited users object_id_from_hex x).1 ≡ x.1)
    unfolding edited
    edited_ok (err e, st) f = cc
    edited_ok (ok zero, st) f = cc
    edited_ok (ok (suc matched), st) f = ((suc matched, refl), refl)

    pub edit_password_ok :
        (now : ℕ) (user_id password_hash : Bytes) (st : State)
        → (edit_password users object_id_from_hex now user_id password_hash st).0 ≡ none
        → (id : ObjectId) × (object_id_from_hex user_id ≡ some id)
          × ((n : ℕ) × ((update_one st (id_is id) (set_password password_hash now)).0 ≡ ok n))
          × ((edit_password users object_id_from_hex now user_id password_hash st).1
              ≡ (update_one st (id_is id) (set_password password_hash now)).1)
    unfolding edit_password
    edit_password_ok now user_id password_hash st e =
        elim (Option-cases (object_id_from_hex user_id)) [
          | inl f ↦ absurd (ground (arith, f))
          | inr (id, f) ↦
              let (went, left) =
                edited_ok (update_one st (id_is id) (set_password password_hash now))
                  (ground (arith, e, f)) in
              (id, f, went, ground (arith, f, left))
        ]

    pub lookup_user_by_id_found :
        (st : State) (user_id : Bytes) (id : ObjectId) {u : User}
        → object_id_from_hex user_id ≡ some id
        → find_one st (id_is id) ≡ found u
        → lookup_user_by_id users object_id_from_hex st user_id ≡ ok u
    unfolding lookup_user_by_id
    lookup_user_by_id_found st user_id id named e = ground arith

    pub lookup_user_by_id_ok :
        (st : State) (user_id : Bytes) (id : ObjectId) {u : User}
        → object_id_from_hex user_id ≡ some id
        → lookup_user_by_id users object_id_from_hex st user_id ≡ ok u
        → find_one st (id_is id) ≡ found u
    unfolding lookup_user_by_id
    lookup_user_by_id_ok st user_id id {u} named e = elim (Found-cases (find_one st (id_is id))) [
      | inl (v, f) ↦ ground (arith, f)
      | inr (inl f) ↦ absurd (ground (arith, f))
      | inr (inr (x, f)) ↦ absurd (ground (arith, f))
    ]

    edited_state : (x : Result ℕ × State) → (edited users object_id_from_hex x).1 ≡ x.1
    unfolding edited
    edited_state (err e, st) = refl
    edited_state (ok zero, st) = refl
    edited_state (ok (suc matched), st) = refl

    -- Nothing is stored, or the user that the ID names is updated.
    pub edit_password_state :
        (now : ℕ) (user_id password_hash : Bytes) (st : State)
        → ((edit_password users object_id_from_hex now user_id password_hash st).1 ≡ st)
          ⊎ ((id : ObjectId) × (object_id_from_hex user_id ≡ some id)
              × ((edit_password users object_id_from_hex now user_id password_hash st).1
                  ≡ (update_one st (id_is id) (set_password password_hash now)).1))
    unfolding edit_password
    edit_password_state now user_id password_hash st =
        elim (Option-cases (object_id_from_hex user_id)) [
          | inl e ↦ inl (ground (arith, e))
          | inr (id, e) ↦ inr (
            id,
            e,
            ground (
              arith,
              e,
              edited_state (update_one st (id_is id) (set_password password_hash now)),
            ),
          )
        ]
