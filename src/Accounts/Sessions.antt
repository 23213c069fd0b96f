-- ===== src/Accounts/Sessions.antt =====
-- What the operations of backend/internal/service/auth.go do to the stored sessions.
use jsm.Common.{◌≡◌, refl, ◌⊎◌, inl, inr, List, [], arith, Bool-cases, Option-cases, Bytes, same}
use jsm.Metrics.{Result, ok, err, Result-cases}
use jsm.Domain.{User, ChangePasswordRequest, SignUpRequest}
use jsm.Http.{Cookie}
use jsm.Csrf.{url_encode}
use jsm.Password.{verify_password, hash_password}
use jsm.Mongo.Users.{lookup_user_by_email, edit_password}
use jsm.Session.{create_session}
use jsm.Session.Stored.{IsHashStore, owner_of, delete_session-owner_of}
use jsm.Session.Stored.Creation.{create_session-owner_of}
use jsm.Accounts.{
  Deps, Inputs, Stores, authenticate, log_in_as, sign_in, end_session, logout, store_password,
  change_password, sign_up, prepare_user,
}
use jsm.Accounts.Email.{normalize_email}
use jsm.Accounts.Login.{IsLogin}
use jsm.Accounts.Passwords.{change_password_guard}

module _ (d : Deps) (stored : d.rdb.State → Bytes → List (Bytes × Bytes))
    (laws : IsHashStore d.rdb stored) where
  -- The user that a session ID stands for.
  abbrev pub session_owner : Stores d → Bytes → Bytes
  session_owner st sid = owner_of d.rdb stored st.sessions sid

  -- The session is what it was, or ended.
  abbrev pub KeptOrEnded : Stores d → Stores d → Bytes → Type 0
  KeptOrEnded before after sid =
      (session_owner after sid ≡ session_owner before sid) ⊎ (session_owner after sid ≡ [])

  module _ (io : Inputs) where
    pub sign_in_sessions :
        (answer : Result (Bytes × Cookie) × d.rdb.State) (st : Stores d)
        → (sign_in d io answer st).1.sessions ≡ answer.1
    unfolding sign_in
    sign_in_sessions (err e, s) st = refl
    sign_in_sessions (ok (sid, c), s) st = refl

    -- A login leaves every session as it is, but for the one of the new ID, which it makes the
    -- session of a user whose address and password it was given.
    pub authenticate-session_owner :
        (email password : Bytes) (st : Stores d) (sid : Bytes)
        → KeptOrEnded st (authenticate d io email password st).1 sid
          ⊎ ((user : User) × IsLogin d io email password st user
              × (sid ≡ url_encode io.uuid)
              × (session_owner (authenticate d io email password st).1 sid
                  ≡ d.object_id_hex user.id))
    unfolding authenticate log_in_as
    authenticate-session_owner email password st sid =
        elim (Result-cases
          (lookup_user_by_email d.users st.accounts (normalize_email d.unicode_lower email))) [
            | inr (x, f) ↦ rw f (inl (inl refl))
            | inl (user, f) ↦
                elim (Bool-cases (verify_password d.bcrypt user.password_hash password)) [
                  | inr g ↦ rw (f, g) (inl (inl refl))
                  | inl g ↦
                      let answer =
                        create_session d.rdb d.sm io.uuid io.now_text (d.object_id_hex user.id)
                          user.email user.name st.sessions in
                      rw (f, g, sign_in_sessions answer st)
                        (elim (create_session-owner_of d.rdb stored laws d.sm io.uuid io.now_text
                          (d.object_id_hex user.id) user.email user.name st.sessions sid) [
                            | inl e ↦ inl (inl e)
                            | inr (inl e) ↦ inl (inr e)
                            | inr (inr (named, e)) ↦
                                inr (user, record { account = f; password_matches = g }, named, e)
                          ])
                ]
          ]

    end_session-session_owner :
        (session_id sid : Bytes) (st : Stores d) → KeptOrEnded st (end_session d session_id st) sid
    unfolding end_session
    end_session-session_owner session_id sid st = elim (Bool-cases (same session_id [])) [
      | inl t ↦ rw t (inl refl)
      | inr f ↦ rw f (delete_session-owner_of d.rdb stored laws d.sm session_id sid st.sessions)
    ]

    pub logout-session_owner :
        (session_id sid : Bytes) (st : Stores d) → KeptOrEnded st (logout d io session_id st).1 sid
    unfolding logout
    logout-session_owner session_id sid st = end_session-session_owner session_id sid st

    store_password_sessions :
        (user_id session_id : Bytes) (hash : Result Bytes) (st : Stores d)
        → ((store_password d io user_id session_id hash st).1.sessions ≡ st.sessions)
          ⊎ ((store_password d io user_id session_id hash st).1.sessions
              ≡ (end_session d session_id st).sessions)
    unfolding store_password end_session
    store_password_sessions user_id session_id (err e) st = inl refl
    store_password_sessions user_id session_id (ok hash) st =
        elim (Option-cases
          (edit_password d.users d.object_id_from_hex io.now user_id hash st.accounts).0) [
            | inr (x, e) ↦ inl (ground arith)
            | inl e ↦ elim (Bool-cases (same session_id [])) [
              | inl t ↦ inl (ground arith)
              | inr f ↦ inr (ground arith)
            ]
          ]

    store_password-session_owner :
        (user_id session_id sid : Bytes) (hash : Result Bytes) (st : Stores d)
        → KeptOrEnded st (store_password d io user_id session_id hash st).1 sid
    store_password-session_owner user_id session_id sid hash st =
        elim (store_password_sessions user_id session_id hash st) [
          | inl e ↦ rw e (inl refl)
          | inr e ↦ rw e (end_session-session_owner session_id sid st)
        ]

    pub change_password-session_owner :
        (user_id session_id : Bytes) (req : ChangePasswordRequest) (sid : Bytes) (st : Stores d)
        → KeptOrEnded st (change_password d io user_id session_id req st).1 sid
    change_password-session_owner user_id session_id req sid st =
        elim (change_password_guard d io user_id session_id req st) [
          | inl (x, e) ↦ rw e (inl refl)
          | inr (user, _, e) ↦ rw e (
              store_password-session_owner user_id session_id sid
                (hash_password d.bcrypt io.salt req.new_password) st)
        ]

    pub sign_up_sessions :
        (req : SignUpRequest) (st : Stores d) → (sign_up d io req st).1.sessions ≡ st.sessions
    unfolding sign_up
    sign_up_sessions req st = elim (Result-cases (prepare_user d io req)) [
      | inl (user, e) ↦ ground arith
      | inr (x, e) ↦ ground arith
    ]
