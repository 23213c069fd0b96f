-- ===== src/Mongo/Users.antt =====
-- backend/internal/common/mongoWrap/query.go and internal/store/mongo/auth.go: the user records.
-- `bson.ObjectIDFromHex` and `bson.NewObjectID` are parameters.
pub mod Calls
use jsm.Common.{ℕ, zero, suc, String, Option, none, some, [], if◌then◌else◌, Bytes, same}
use mathlib.Core.Path.{subst}
use jsm.Metrics.{
  AppError, Result, ok, err, sentinel, wrapped, other, wrap, user_not_found, email_taken,
}
use jsm.Domain.{ObjectId, User}
use jsm.Mongo.{
  Collection, Found, Found-cases, found, no_documents, failed, Inserted, inserted, duplicate_key,
  insert_failed,
}

-- The filters and the one update that the file builds.
pub data UserFilter : Type 0 where
  id_is : ObjectId → UserFilter
  email_normalized_is : Bytes → UserFilter

pub data UserUpdate : Type 0 where
  set_password : (password_hash : Bytes) (updated_at : ℕ) → UserUpdate

abbrev pub Users : Type 1
Users = Collection User UserFilter UserUpdate

-- A missing user is a sentinel, any other failure is wrapped.
abbrev found_user : String → Found User → Result User
found_user context (found u) = ok u
found_user context no_documents = err (sentinel user_not_found)
found_user context (failed e) = err (wrapped context e)

module _ (users : Users) where
  open users use {State, find_one, insert_one, update_one}

  unfoldable pub find_user_by_email : State → Bytes → Result User
  find_user_by_email st normalized_email =
      found_user "find user by email" (find_one st (email_normalized_is normalized_email))

  -- userStore.LookupUserByEmail
  unfoldable pub lookup_user_by_email : State → Bytes → Result User
  unfolding find_user_by_email
  lookup_user_by_email st email = wrap "find user by email" (find_user_by_email st email)

  created_user : User → Inserted × State → Result User × State
  created_user u (inserted, st) = (ok u, st)
  created_user u (duplicate_key, st) = (err (sentinel email_taken), st)
  created_user u (insert_failed e, st) = (err (wrapped "create user" e), st)

  -- CreateUser; `new_id` is bson.NewObjectID and `now` the clock's reading.
  unfoldable pub create_user : (new_id : ObjectId) (now : ℕ) → User → State → Result User × State
  unfolding created_user
  create_user new_id now user st =
      let u = record user { id = new_id; created_at = now; updated_at = now } in
      if same user.email_normalized []
      then (err (other "create user: EmailNormalized must be set"), st)
      else created_user u (insert_one st u)

  module _ (object_id_from_hex : Bytes → Option ObjectId) where
    -- FindUserByID and userStore.LookupUserByID
    unfoldable pub lookup_user_by_id : State → Bytes → Result User
    lookup_user_by_id st id = elim (object_id_from_hex id) [
      | none ↦ err (sentinel user_not_found)
      | some obj_id ↦ found_user "find user by id" (find_one st (id_is obj_id))
    ]

    edited : Result ℕ × State → Option AppError × State
    edited (err e, st) = (some (wrapped "edit user password" e), st)
    edited (ok zero, st) = (some (sentinel user_not_found), st)
    edited (ok (suc matched), st) = (none, st)

    -- EditUserPassword and userStore.EditPassword
    unfoldable pub edit_password :
        (now : ℕ) → (user_id password_hash : Bytes) → State → Option AppError × State
    unfolding edited
    edit_password now user_id password_hash st = elim (object_id_from_hex user_id) [
      | none ↦ (some (sentinel user_not_found), st)
      | some obj_id ↦ edited (update_one st (id_is obj_id) (set_password password_hash now))
    ]
