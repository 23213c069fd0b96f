-- ===== src/Accounts/Kept.antt =====
-- What the operations of backend/internal/service/auth.go do to the account of one user.
use jsm.Common.{
  ℕ, ◌≡◌, refl, sym, ap, ◌∙◌, ◌⊎◌, inl, inr, false, some, List, [], arith, Bool-cases, Option-cases,
  keep, Bytes, same, same_iff,
}
use mathlib.Core.Path.{subst}
use jsm.Metrics.{Result, ok, err, Result-cases}
use jsm.Domain.{ObjectId, User, ChangePasswordRequest, SignUpRequest}
use jsm.Mongo.Users.Calls.{create_user_state, edit_password_state}
use jsm.Mongo.Users.{id_is, set_password, create_user, edit_password}
use jsm.Mongo.Documents.{keep-insert, keep-update_first}
use jsm.Mongo.UserDocuments.{matches_user, apply_user, AreUsers}
use jsm.Password.{hash_password}
use jsm.Accounts.{
  Deps, Inputs, Stores, prepare_user, sign_up, authenticate, logout, end_session, store_password,
  change_password,
}
use jsm.Accounts.Login.{authenticate_guard}
use jsm.Accounts.Passwords.{change_password_guard, IsChange}

-- `docs` are the stored users, and `v` is a user's ID.
module _ (d : Deps) (docs : d.users.State → List User) (laws : AreUsers d.users docs)
    (v : ObjectId) where
  -- The account of `v`.
  abbrev pub account_of : d.users.State → List User
  account_of s = keep (λ u. same u.id v) (docs s)

  insert_one-account_of :
      (s : d.users.State) (u : User)
      → same u.id v ≡ false
      → account_of (d.users.insert_one s u).1 ≡ account_of s
  insert_one-account_of s u other = elim (laws.insert_one_law s u) [
    | inr (e, _) ↦ ap (keep (λ x. same x.id v)) e
    | inl (left, right, before, after) ↦
        ap (keep (λ x. same x.id v)) after
        ∙ keep-insert (λ x. same x.id v) left right u other
        ∙ ap (keep (λ x. same x.id v)) (sym before)
  ]

  update_one-account_of :
      (s : d.users.State) (id : ObjectId) (hash : Bytes) (now : ℕ)
      → same id v ≡ false
      → account_of (d.users.update_one s (id_is id) (set_password hash now)).1 ≡ account_of s
  update_one-account_of s id hash now other =
      elim (laws.update_one_law s (id_is id) (set_password hash now)) [
        | inr (x, _, e) ↦ ap (keep (λ u. same u.id v)) e
        | inl (_, e) ↦
            ap (keep (λ u. same u.id v)) e
            ∙ keep-update_first (matches_user (id_is id)) (λ u. same u.id v)
                (apply_user (set_password hash now)) (docs s)
                (λ u m. subst (λ x. same x v ≡ false) (sym ((same_iff u.id id).0 m)) other)
                (λ u. refl)
      ]

  module _ (io : Inputs) (st : Stores d) where
    pub authenticate_accounts :
        (email password : Bytes) → (authenticate d io email password st).1.accounts ≡ st.accounts
    authenticate_accounts email password = elim (authenticate_guard d io email password st) [
      | inl e ↦ ap (λ x. x.1.accounts) e
      | inr (user, login, e) ↦ e
    ]

    pub logout_accounts :
        (session_id : Bytes) → (logout d io session_id st).1.accounts ≡ st.accounts
    unfolding logout end_session
    logout_accounts session_id = elim (Bool-cases (same session_id [])) [
      | inl t ↦ ground (arith, t)
      | inr f ↦ ground (arith, f)
    ]

    sign_up_accounts :
        (req : SignUpRequest)
        → ((sign_up d io req st).1.accounts ≡ st.accounts)
          ⊎ ((user : User) × ((sign_up d io req st).1.accounts
                ≡ (create_user d.users io.new_id io.now user st.accounts).1))
    unfolding sign_up
    sign_up_accounts req = elim (Result-cases (prepare_user d io req)) [
      | inr (x, e) ↦ inl (ground (arith, e))
      | inl (user, e) ↦ inr (user, ground (arith, e))
    ]

    -- A sign-up leaves the account alone, unless it is given that account's ID.
    pub sign_up-account_of :
        (req : SignUpRequest)
        → same io.new_id v ≡ false
        → account_of (sign_up d io req st).1.accounts ≡ account_of st.accounts
    sign_up-account_of req other = elim (sign_up_accounts req) [
      | inl e ↦ ap account_of e
      | inr (user, e) ↦
          ap account_of e ∙ (elim (create_user_state d.users io.new_id io.now user st.accounts) [
            | inl f ↦ ap account_of f
            | inr f ↦
                let u = record user { id = io.new_id; created_at = io.now; updated_at = io.now } in
                ap account_of f ∙ insert_one-account_of st.accounts u other
          ])
    ]

    store_password_accounts :
        (user_id session_id : Bytes) (hash : Result Bytes)
        → ((store_password d io user_id session_id hash st).1.accounts ≡ st.accounts)
          ⊎ ((h : Bytes) × ((store_password d io user_id session_id hash st).1.accounts
                ≡ (edit_password d.users d.object_id_from_hex io.now user_id h st.accounts).1))
    unfolding store_password end_session
    store_password_accounts user_id session_id (err e) = inl refl
    store_password_accounts user_id session_id (ok h) =
        elim (Option-cases
          (edit_password d.users d.object_id_from_hex io.now user_id h st.accounts).0) [
            | inr (x, e) ↦ inr (h, ground (arith, e))
            | inl e ↦ elim (Bool-cases (same session_id [])) [
              | inl t ↦ inr (h, ground (arith, e, t))
              | inr f ↦ inr (h, ground (arith, e, f))
            ]
          ]

    edit_password-account_of :
        (user_id hash : Bytes)
        → (account_of (edit_password d.users d.object_id_from_hex io.now user_id hash st.accounts).1
            ≡ account_of st.accounts)
          ⊎ (d.object_id_from_hex user_id ≡ some v)
    edit_password-account_of user_id hash =
        elim (edit_password_state d.users d.object_id_from_hex io.now user_id hash st.accounts) [
          | inl e ↦ inl (ap account_of e)
          | inr (id, named, e) ↦ elim (Bool-cases (same id v)) [
            | inl t ↦ inr (named ∙ ap some ((same_iff id v).0 t))
            | inr f ↦ inl (ap account_of e ∙ update_one-account_of st.accounts id hash io.now f)
          ]
        ]

    -- A change of password leaves the account alone, unless it is that user's and knows the
    -- current password.
    pub change_password-account_of :
        (user_id session_id : Bytes) (req : ChangePasswordRequest)
        → (account_of (change_password d io user_id session_id req st).1.accounts
            ≡ account_of st.accounts)
          ⊎ ((d.object_id_from_hex user_id ≡ some v)
              × ((user : User) × IsChange d io user_id session_id req st user))
    change_password-account_of user_id session_id req =
        elim (change_password_guard d io user_id session_id req st) [
          | inl (x, e) ↦ inl (ap (λ x. account_of x.1.accounts) e)
          | inr (user, change, e) ↦
              let hash = hash_password d.bcrypt io.salt req.new_password in
              elim (store_password_accounts user_id session_id hash) [
                | inl f ↦ inl (ap account_of (ap (λ x. x.1.accounts) e ∙ f))
                | inr (h, f) ↦ elim (edit_password-account_of user_id h) [
                  | inl g ↦ inl (ap account_of (ap (λ x. x.1.accounts) e ∙ f) ∙ g)
                  | inr named ↦ inr (named, (user, change))
                ]
              ]
        ]
