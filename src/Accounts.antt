-- ===== src/Accounts.antt =====
-- backend/internal/service/auth.go and user.go. What lies outside the repository comes in `Deps`;
-- `Inputs` is what the clock, the random sources and the ID generator give to one request. Logging
-- is left out.
pub mod Email
pub mod Login
pub mod Passwords
pub mod SignUp
pub mod Sessions
pub mod Life
pub mod Returning
pub mod Kept
use jsm.Common.{ℕ, Bool, not, Option, none, some, List, [], ◌∷◌, if◌then◌else◌, Bytes, same}
use jsm.Metrics.{
  AppError, Result, ok, err, sentinel, incorrect_credentials, invalid_input, identical_passwords,
  ◌>>=◌,
}
use jsm.Domain.{ObjectId, User, ChangePasswordRequest, SignUpRequest}
use jsm.Http.{Cookie}
use jsm.Sanitise.{clean}
use jsm.Password.{
  UnicodeTables, Bcrypt, hash_password, verify_password, enforce_password_complexity,
}
use jsm.Mongo.Users.{Users, lookup_user_by_email, lookup_user_by_id, edit_password, create_user}
use jsm.Session.{
  Redis, SessionManager, create_session, delete_session, new_csrf_cookie, clear_session_cookie,
}
use Email.{Mail, normalize_email, validate_email}

pub record Deps : Type 1 where
  pub users : Users
  pub rdb : Redis
  pub sm : SessionManager
  pub hmac_sha256 : Bytes → Bytes → Bytes
  pub bcrypt : Bcrypt
  pub tables : UnicodeTables
  pub unicode_lower : Bytes → Bytes
  pub mail : Mail
  pub object_id_from_hex : Bytes → Option ObjectId
  pub object_id_hex : ObjectId → Bytes
  pub require_email_verification : Bool

pub record Inputs : Type 0 where
  pub nonce : Option Bytes
  pub uuid : Bytes
  pub salt : Bytes
  pub new_id : ObjectId
  pub now : ℕ
  pub now_text : Bytes

abbrev pub max_user_name : ℕ
max_user_name = 100

module _ (d : Deps) where
  open d use {users, rdb, sm, hmac_sha256, bcrypt, tables, unicode_lower, object_id_from_hex}

  -- The two stores.
  pub record Stores : Type 0 where
    pub accounts : users.State
    pub sessions : rdb.State

  abbrev pub Answer : Type 0 → Type 0
  Answer A = Result A × Stores

  pub sign_in : Inputs → Result (Bytes × Cookie) × rdb.State → Stores → Answer (List Cookie)
  sign_in io (err e, sessions) st = (err e, record st { sessions = sessions })
  sign_in io (ok (sid, session_cookie), sessions) st = (
    (do csrf ← new_csrf_cookie hmac_sha256 sm io.nonce sid; ok (session_cookie ∷ csrf ∷ [])),
    record st { sessions = sessions },
  )

  -- The comparison that BurnPasswordComparison makes on the first branch has no result.
  log_in_as : Inputs → Result User → (password : Bytes) → Stores → Answer (List Cookie)
  unfolding sign_in
  log_in_as io (err e) password st = (err (sentinel incorrect_credentials), st)
  log_in_as io (ok user) password st =
      if not (verify_password bcrypt user.password_hash password)
      then (err (sentinel incorrect_credentials), st)
      else sign_in io
          (create_session rdb sm io.uuid io.now_text (d.object_id_hex user.id) user.email user.name
            st.sessions)
          st

  unfoldable pub authenticate : Inputs → (email password : Bytes) → Stores → Answer (List Cookie)
  unfolding log_in_as
  authenticate io email password st =
      log_in_as io (lookup_user_by_email users st.accounts (normalize_email unicode_lower email))
        password st

  -- The session store after `if sessionID != "" { DeleteSession }`, whose failure is only logged.
  end_session : Bytes → Stores → Stores
  end_session session_id st =
      if same session_id []
      then st
      else record st { sessions = (delete_session rdb sm session_id st.sessions).1 }

  signed_out : Inputs → Result (List Cookie)
  signed_out io = do
    csrf ← new_csrf_cookie hmac_sha256 sm io.nonce []
    ok (clear_session_cookie sm ∷ csrf ∷ [])

  unfoldable pub logout : Inputs → (session_id : Bytes) → Stores → Answer (List Cookie)
  unfolding end_session signed_out
  logout io session_id st = (signed_out io, end_session session_id st)

  -- From the new password's hash on.
  pub store_password :
      Inputs → (user_id session_id : Bytes) → Result Bytes → Stores → Answer (List Cookie)
  unfolding end_session signed_out
  store_password io user_id session_id (err e) st = (err e, st)
  store_password io user_id session_id (ok hash) st =
      let (failure, accounts) =
        edit_password users object_id_from_hex io.now user_id hash st.accounts in
      let st' = record st { accounts = accounts } in
      elim failure [ some e ↦ (err e, st') | none ↦ (signed_out io, end_session session_id st') ]

  unfoldable pub change_password :
      Inputs → (user_id session_id : Bytes) → ChangePasswordRequest → Stores → Answer (List Cookie)
  unfolding store_password
  change_password io user_id session_id req st =
      elim (lookup_user_by_id users object_id_from_hex st.accounts user_id) [
        | err e ↦ (err e, st)
        | ok user ↦
            if not (verify_password bcrypt user.password_hash req.current_password)
            then (err (sentinel incorrect_credentials), st)
            else if same req.current_password req.new_password
            then (err identical_passwords, st)
            else elim (enforce_password_complexity tables req.new_password) [
              | some e ↦ (err e, st)
              | none ↦
                  store_password io user_id session_id
                    (hash_password bcrypt io.salt req.new_password) st
            ]
      ]

  -- Everything before the store: the user that is to be inserted.
  unfoldable pub prepare_user : Inputs → SignUpRequest → Result User
  prepare_user io req = do
    user_email ← validate_email d.mail req.email
    let name = clean req.name max_user_name
    hash ←
        (if same name []
          then err (invalid_input "name is required")
          else elim (enforce_password_complexity tables req.password) [
            | some e ↦ err e
            | none ↦ hash_password bcrypt io.salt req.password
          ])
    ok (record {
      id = [];
      email = user_email;
      email_normalized = normalize_email unicode_lower user_email;
      password_hash = hash;
      name = name;
      email_verified = not d.require_email_verification;
      email_verified_at = if not d.require_email_verification then some io.now else none;
      created_at = 0;
      updated_at = 0;
    })

  unfoldable pub sign_up : Inputs → SignUpRequest → Stores → Answer User
  unfolding prepare_user
  sign_up io req st = elim (prepare_user io req) [
    | err e ↦ (err e, st)
    | ok user ↦
        (let (answer, accounts) = create_user users io.new_id io.now user st.accounts in
          (answer, record st { accounts = accounts }))
  ]

  -- users.Me
  unfoldable pub me : (user_id : Bytes) → Stores → Result User
  me user_id st = lookup_user_by_id users object_id_from_hex st.accounts user_id
