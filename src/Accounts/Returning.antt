-- ===== src/Accounts/Returning.antt =====
-- What SignUp and ChangePassword of backend/internal/service/auth.go leave for later logins.
use jsm.Common.{
  ℕ, ◌≡◌, refl, sym, ap, ◌∙◌, ◌⊎◌, inl, inr, true, false, none, List, [], ◌∷◌, ◌++◌, arith,
  Option-cases, All, Bytes, same, same_refl,
}
use mathlib.Core.Path.{subst}
use jsm.Metrics.{AppError, Result, ok, err, Result-cases}
use jsm.Domain.{ObjectId, User, SignUpRequest, ChangePasswordRequest}
use jsm.Http.{Cookie}
use jsm.Mongo.{found, found_map, failed, inserted, first}
use jsm.Mongo.Users.Calls.{
  create_user_ok, edit_password_ok, lookup_user_by_email_found, lookup_user_by_id_found,
  lookup_user_by_id_ok,
}
use jsm.Mongo.Users.{
  UserUpdate, set_password, id_is, email_normalized_is, lookup_user_by_email, lookup_user_by_id,
  create_user, edit_password,
}
use jsm.Mongo.UserDocuments.{
  matches_user, apply_user, AreUsers, HasUniqueEmails, first-insert, first-update_first,
}
use jsm.Password.{Bcrypt, hash_password, verify_password}
use jsm.Session.{create_session, new_csrf_cookie, csrf_cookie}
use jsm.Csrf.{mint_csrf_token, raw_url_encode, sign_csrf, url_encode}
use jsm.Accounts.{
  Deps, Inputs, Stores, prepare_user, sign_up, authenticate, log_in_as, sign_in, store_password,
  change_password, end_session,
}
use jsm.Accounts.Email.{normalize_email}
use jsm.Accounts.Login.{IsLogin, IsSignedInCookies, authenticate-IsSignedInCookies}
use jsm.Accounts.SignUp.{prepare_user-IsNewUser, new_user_address}
use jsm.Accounts.Passwords.{change_password_guard, IsChange}

-- bcrypt's hash of a password matches the password.
abbrev pub Matches : Bcrypt → Type 0
Matches b =
    (salt password hash : Bytes)
    → b.generate salt password ≡ ok hash
    → b.compare hash password ≡ true

-- A sign-in answers with cookies, unless there is no session, or no token.
sign_in_answer :
    (d : Deps) (io : Inputs) (answer : Result (Bytes × Cookie) × d.rdb.State) (st : Stores d)
    → ((cookies : List Cookie) × ((sign_in d io answer st).0 ≡ ok cookies))
      ⊎ (((e : AppError) × (answer.0 ≡ err e)) ⊎ (io.nonce ≡ none))
unfolding sign_in new_csrf_cookie mint_csrf_token
sign_in_answer d io (err e, sessions) st = inr (inl (e, refl))
sign_in_answer d io (ok (sid, c), sessions) st = elim (Option-cases io.nonce) [
  | inl none_left ↦ inr (inr none_left)
  | inr (bytes, e) ↦
      let message = raw_url_encode bytes ++ b'!' ∷ sid in
      let token = message ++ b'.' ∷ sign_csrf d.hmac_sha256 d.sm.csrf_secret message in
      inl (c ∷ csrf_cookie d.sm token ∷ [], ground (arith, e))
]

module _ (d : Deps) (docs : d.users.State → List User) (laws : AreUsers d.users docs) where
  -- A document that was inserted is the one that its address finds.
  inserted-first :
      HasUniqueEmails d.users docs
      → (st : d.users.State) (u : User) → (d.users.insert_one st u).0 ≡ inserted
      → first
          (matches_user (email_normalized_is u.email_normalized))
          (docs (d.users.insert_one st u).1)
        ≡ found u
  inserted-first unique st u e = elim (laws.insert_one_law st u) [
    | inr (_, n) ↦ absurd (n e)
    | inl (left, right, before, after) ↦
        ap (first (matches_user (email_normalized_is u.email_normalized))) after
        ∙ first-insert (matches_user (email_normalized_is u.email_normalized)) left right u
            (subst (All (λ x. same x.email_normalized u.email_normalized ≡ false)) before
              (unique st u e))
            (same_refl u.email_normalized)
  ]

  -- A document that was found and updated is found as it is after the update.
  updated_first :
      (st : d.users.State) (id : ObjectId) (u : UserUpdate) (user : User)
      → ((n : ℕ) × ((d.users.update_one st (id_is id) u).0 ≡ ok n))
      → d.users.find_one st (id_is id) ≡ found user
      → first (matches_user (id_is id)) (docs (d.users.update_one st (id_is id) u).1)
        ≡ found (apply_user u user)
  updated_first st id (set_password h now) user (n, went) e =
      let u = set_password h now in
      elim (laws.update_one_law st (id_is id) u) [
        | inr (x, f, _) ↦ absurd (ground (arith, went, f))
        | inl (_, f) ↦ elim (laws.find_one_law st (id_is id)) [
          | inr (x, g) ↦ absurd (ground (arith, e, g))
          | inl g ↦
              ap (first (matches_user (id_is id))) f
              ∙ first-update_first (matches_user (id_is id)) (apply_user u) (docs st) (λ x. refl)
              ∙ ap (found_map (apply_user u)) (sym g ∙ e)
        ]
      ]

  module _ (io : Inputs) (st : Stores d) where
    sign_up_ok :
        (req : SignUpRequest) {user : User}
        → (sign_up d io req st).0 ≡ ok user
        → (prepared : User) × (prepare_user d io req ≡ ok prepared)
          × ((create_user d.users io.new_id io.now prepared st.accounts).0 ≡ ok user)
          × ((sign_up d io req st).1.accounts
              ≡ (create_user d.users io.new_id io.now prepared st.accounts).1)
    unfolding sign_up
    sign_up_ok req e = elim (Result-cases (prepare_user d io req)) [
      | inl (prepared, f) ↦ (prepared, f, ground arith, ground arith)
      | inr (x, f) ↦ absurd (ground arith)
    ]

    store_password_ok :
        (user_id session_id : Bytes) (hash : Result Bytes) {cookies : List Cookie}
        → (store_password d io user_id session_id hash st).0 ≡ ok cookies
        → (h : Bytes) × (hash ≡ ok h)
          × ((edit_password d.users d.object_id_from_hex io.now user_id h st.accounts).0 ≡ none)
          × ((store_password d io user_id session_id hash st).1.accounts
              ≡ (edit_password d.users d.object_id_from_hex io.now user_id h st.accounts).1)
    unfolding store_password end_session
    store_password_ok user_id session_id (err x) e = cc
    store_password_ok user_id session_id (ok h) e =
        elim (Option-cases
          (edit_password d.users d.object_id_from_hex io.now user_id h st.accounts).0) [
            | inr (x, f) ↦ absurd (ground arith)
            | inl f ↦ (h, refl, f, ground arith)
          ]

  -- What storing a session for the user does and answers.
  abbrev pub created_session : Inputs → User → Stores d → Result (Bytes × Cookie) × d.rdb.State
  created_session io user st =
      create_session d.rdb d.sm io.uuid io.now_text (d.object_id_hex user.id) user.email user.name
        st.sessions

  authenticate_login :
      (io : Inputs) (email password : Bytes) (st : Stores d) (user : User)
      → IsLogin d io email password st user
      → authenticate d io email password st ≡ sign_in d io (created_session io user st) st
  unfolding authenticate log_in_as
  authenticate_login io email password st user login =
      ground (arith, login.account, login.password_matches)

  module _ (bcrypt_law : Matches d.bcrypt) where
    -- After a sign-up a login with the address and the password given, the address as it was or in
    -- any other spelling with the same normal form, answers with the cookies of a new session,
    -- unless the database cannot look the address up, Redis cannot store the session, or there are
    -- no random bytes for the CSRF token.
    pub sign_up-authenticate :
        HasUniqueEmails d.users docs
        → (io io' : Inputs) (req : SignUpRequest) (st st' : Stores d) (email : Bytes) {user : User}
        → (sign_up d io req st).0 ≡ ok user
        → st'.accounts ≡ (sign_up d io req st).1.accounts
        → normalize_email d.unicode_lower email ≡ normalize_email d.unicode_lower req.email
        → ((cookies : List Cookie) × ((authenticate d io' email req.password st').0 ≡ ok cookies)
            × IsSignedInCookies d io' (url_encode io'.uuid) cookies)
          ⊎ (((e : AppError) × (d.users.find_one st'.accounts
                    (email_normalized_is user.email_normalized)
                  ≡ failed e))
              ⊎ (((e : AppError) × ((created_session io' user st').0 ≡ err e))
                  ⊎ (io'.nonce ≡ none)))
    unfolding hash_password verify_password
    sign_up-authenticate unique io io' req st st' email {user = user} e at alike =
        let (prepared, made, created, accounts) = sign_up_ok io st req {user = user} e in
        let new = prepare_user-IsNewUser d io req made in
        let (is, went, left) =
          create_user_ok d.users io.new_id io.now prepared st.accounts {created = user} created in
        let f = email_normalized_is user.email_normalized in
        let normal : normalize_email d.unicode_lower email ≡ user.email_normalized =
          alike ∙ sym (new_user_address d io req new) ∙ sym (ap (λ u. u.email_normalized) is) in
        elim (laws.find_one_law st'.accounts f) [
          | inr lost ↦ inr (inl lost)
          | inl g ↦
              let e' = authenticate_login io' email req.password st' user (record {
                account =
                    ap (lookup_user_by_email d.users st'.accounts) normal
                    ∙ lookup_user_by_email_found d.users st'.accounts user.email_normalized (
                        g
                        ∙ ap (λ s. first (matches_user f) (docs s)) (at ∙ accounts ∙ left)
                        ∙ inserted-first unique st.accounts user went);
                password_matches =
                    ap (λ u. d.bcrypt.compare u.password_hash req.password) is
                    ∙ bcrypt_law io.salt req.password prepared.password_hash new.hashed;
              }) in
              elim (sign_in_answer d io' (created_session io' user st') st') [
                | inl (cookies, signed) ↦
                    let answered = ap (λ x. x.0) e' ∙ signed in
                    inl (
                      cookies,
                      answered,
                      authenticate-IsSignedInCookies d io' email req.password st'
                          {cookies = cookies} answered,
                    )
                | inr (inl failure) ↦ inr (inr (inl failure))
                | inr (inr silent) ↦ inr (inr (inr silent))
              ]
        ]

    -- After a change of password that succeeds, the account that the ID names is as it was, but
    -- for the time of its update and for its hash, which matches the new password; unless the
    -- database cannot look the ID up.
    pub change_password-stored :
        (io : Inputs) (user_id session_id : Bytes) (req : ChangePasswordRequest) (st : Stores d)
        {cookies : List Cookie}
        → (change_password d io user_id session_id req st).0 ≡ ok cookies
        → (user : User) × (hash : Bytes) × IsChange d io user_id session_id req st user
          × (verify_password d.bcrypt hash req.new_password ≡ true)
          × ((lookup_user_by_id d.users d.object_id_from_hex
                  (change_password d io user_id session_id req st).1.accounts
                  user_id
                ≡ ok (record user { password_hash = hash; updated_at = io.now }))
              ⊎ ((id : ObjectId) × (e : AppError) × (d.users.find_one
                      (change_password d io user_id session_id req st).1.accounts
                      (id_is id)
                    ≡ failed e)))
    unfolding hash_password verify_password
    change_password-stored io user_id session_id req st {cookies = cookies} e =
        elim (change_password_guard d io user_id session_id req st) [
          | inl (x, f) ↦ absurd (ground (arith, e, f))
          | inr (user, change, f) ↦
              let hash = d.bcrypt.generate io.salt req.new_password in
              let (h, hashed, edited, accounts) =
                store_password_ok io st user_id session_id hash {cookies = cookies}
                  (sym (ap (λ x. x.0) f) ∙ e) in
              let changed = (change_password d io user_id session_id req st).1 in
              let (id, named, went, left) =
                edit_password_ok d.users d.object_id_from_hex io.now user_id h st.accounts edited in
              (
                user,
                h,
                change,
                bcrypt_law io.salt req.new_password h hashed,
                elim (laws.find_one_law changed.accounts (id_is id)) [
                  | inr (x, lost) ↦ inr (id, x, lost)
                  | inl g ↦ inl (
                      lookup_user_by_id_found d.users d.object_id_from_hex changed.accounts user_id
                        id named
                        (g
                          ∙ ap (λ s. first (matches_user (id_is id)) (docs s))
                              (ap (λ x. x.1.accounts) f ∙ accounts ∙ left)
                          ∙ updated_first st.accounts id (set_password h io.now) user went (
                              lookup_user_by_id_ok d.users d.object_id_from_hex st.accounts user_id
                                id named change.account)))
                ],
              )
        ]
