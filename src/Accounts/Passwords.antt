-- ===== src/Accounts/Passwords.antt =====
-- ChangePassword of backend/internal/service/auth.go.
use jsm.Common.{
  ◌≡◌, ◌≢◌, ◌⊎◌, inl, inr, true, none, arith, Bool-cases, Option-cases, Bytes, same, same_iff,
}
use jsm.Metrics.{AppError, ok, err, sentinel, incorrect_credentials, Result-cases}
use jsm.Domain.{User, ChangePasswordRequest}
use jsm.Password.{hash_password, verify_password, enforce_password_complexity}
use jsm.Mongo.Users.{lookup_user_by_id}
use jsm.Accounts.{Deps, Inputs, Stores, change_password, store_password, identical_passwords}

module _ (d : Deps) (io : Inputs) (user_id session_id : Bytes) (req : ChangePasswordRequest)
    (st : Stores d) where
  -- The request knows the user's password, and the new one is another that the policy accepts.
  pub record IsChange (user : User) : Type 0 where
    pub account : lookup_user_by_id d.users d.object_id_from_hex st.accounts user_id ≡ ok user
    pub current_matches : verify_password d.bcrypt user.password_hash req.current_password ≡ true
    pub new : req.current_password ≢ req.new_password
    pub complex : enforce_password_complexity d.tables req.new_password ≡ none

  -- A change of password either fails and leaves both stores as they are, or is of a user whose
  -- current password the request knows, to another that the policy accepts, and goes on to store
  -- that password's hash.
  pub change_password_guard :
      ((e : AppError) × (change_password d io user_id session_id req st ≡ (err e, st)))
      ⊎ ((user : User) × IsChange user
          × (change_password d io user_id session_id req st
              ≡ store_password d io user_id session_id
                  (hash_password d.bcrypt io.salt req.new_password)
                  st))
  unfolding change_password
  change_password_guard =
      elim (Result-cases (lookup_user_by_id d.users d.object_id_from_hex st.accounts user_id)) [
        | inr (x, f) ↦ inl (x, ground arith)
        | inl (user, f) ↦
            elim (Bool-cases (verify_password d.bcrypt user.password_hash req.current_password)) [
              | inr g ↦ inl (sentinel incorrect_credentials, ground arith)
              | inl g ↦ elim (Bool-cases (same req.current_password req.new_password)) [
                | inl h ↦ inl (identical_passwords, ground arith)
                | inr h ↦
                    elim (Option-cases (enforce_password_complexity d.tables req.new_password)) [
                      | inr (x, k) ↦ inl (x, ground arith)
                      | inl k ↦ inr (
                        user,
                        record {
                          account = f;
                          current_matches = g;
                          new = λ q. ground (arith, same_iff req.current_password req.new_password);
                          complex = k;
                        },
                        ground arith,
                      )
                    ]
              ]
            ]
      ]
