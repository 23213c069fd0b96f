-- ===== src/Accounts/Life.antt =====
-- The life of a session: from the login that makes it to the logout that ends it, as the middleware
-- of backend/internal/authentication/middleware.go sees it.
use jsm.Common.{
  ◌≡◌, ap, ◌∙◌, ◌≢◌, ◌⊎◌, inl, inr, true, some, List, [], arith, Bool-cases, Bytes, same-ne,
}
use jsm.Metrics.{AppError, ok, err, Result-cases}
use jsm.Domain.{ObjectId, User}
use jsm.Http.{Request, Response, Cookie, cookie, write_json_error}
use jsm.Number.{is_positive}
use jsm.Csrf.{url_encode}
use jsm.Csrf.Binding.{url_encode_nonempty}
use jsm.Password.{verify_password}
use jsm.Mongo.Users.{lookup_user_by_email}
use jsm.Session.{session_key, create_session, delete_session, get_user_id_from_request}
use jsm.Session.Middleware.{Handler, session_required}
use jsm.Session.Middleware.Guards.{session_required_guard, session_required_signed}
use jsm.Session.Stored.{
  IsHashStore, owner_of, get_user_id_from_request-owner_of, delete_session_ends,
}
use jsm.Session.Stored.Creation.{create_session_ok}
use jsm.Accounts.{Deps, Inputs, Stores, authenticate, log_in_as, end_session, logout}
use jsm.Accounts.Email.{normalize_email}
use jsm.Accounts.Login.{IsLogin, sign_in_cookies}
use jsm.Accounts.Sessions.{session_owner, sign_in_sessions}

module _ (d : Deps) (stored : d.rdb.State → Bytes → List (Bytes × Bytes))
    (laws : IsHashStore d.rdb stored) (io : Inputs) where
  -- A login that succeeds leaves the new session in Redis, as the user's.
  authenticate_owner :
      (email password : Bytes) (st : Stores d) {cookies : List Cookie}
      → is_positive d.sm.ttl ≡ true
      → (authenticate d io email password st).0 ≡ ok cookies
      → (user : User) × IsLogin d io email password st user
        × (session_owner d stored laws (authenticate d io email password st).1 (url_encode io.uuid)
            ≡ d.object_id_hex user.id)
  unfolding authenticate log_in_as
  authenticate_owner email password st {cookies = cookies} positive e =
      elim (Result-cases
        (lookup_user_by_email d.users st.accounts (normalize_email d.unicode_lower email))) [
          | inr (x, f) ↦ absurd (ground (arith, f))
          | inl (user, f) ↦
              elim (Bool-cases (verify_password d.bcrypt user.password_hash password)) [
                | inr g ↦ absurd (ground (arith, f, g))
                | inl g ↦
                    let answer =
                      create_session d.rdb d.sm io.uuid io.now_text (d.object_id_hex user.id)
                        user.email user.name st.sessions in
                    let (sid, c, csrf, made, _, _) =
                      sign_in_cookies d io answer st {cookies = cookies} (ground (arith, f, g)) in
                    (
                      user,
                      record { account = f; password_matches = g },
                      rw (f, g, sign_in_sessions d stored laws io answer st)
                          (create_session_ok d.rdb stored laws d.sm io.uuid io.now_text
                            (d.object_id_hex user.id) user.email user.name st.sessions positive
                            made),
                    )
              ]
        ]

  module _ {S : Type 0} (sessions : S → d.rdb.State) (next : Handler S) (r : Request) (s : S) where
    abbrev pub answered : Response × S
    answered = session_required d.rdb d.sm sessions next r s

    -- If sessions have a positive time to live, the UUID is not empty and no user's ID is: after a
    -- login that succeeds, a request with the new session's ID is handled as that of the user
    -- whose address and password were given, unless Redis cannot read the session.
    pub authenticate-session_required :
        (email password : Bytes) (st : Stores d) {cookies : List Cookie}
        → is_positive d.sm.ttl ≡ true
        → io.uuid ≢ []
        → ((id : ObjectId) → d.object_id_hex id ≢ [])
        → (authenticate d io email password st).0 ≡ ok cookies
        → sessions s ≡ (authenticate d io email password st).1.sessions
        → cookie r d.sm.session_cookie_name ≡ some (url_encode io.uuid)
        → (user : User) × IsLogin d io email password st user
          × ((answered ≡ next (record r { user_id = some (d.object_id_hex user.id) }) s)
              ⊎ ((e : AppError) × (get_user_id_from_request d.rdb d.sm
                      (sessions s)
                      (url_encode io.uuid)
                    ≡ err e)))
    authenticate-session_required email password st {cookies = cookies} positive named ids e at
          sent =
        let sid = url_encode io.uuid in
        let (user, login, owned) =
          authenticate_owner email password st {cookies = cookies} positive e in
        (
          user,
          login,
          elim (get_user_id_from_request-owner_of d.rdb stored laws d.sm (sessions s) sid) [
            | inr failed ↦ inr failed
            | inl f ↦ inl (
                session_required_signed d.rdb d.sm sessions next r s (d.object_id_hex user.id)
                  (record {
                    session_id = sid;
                    sent = sent;
                    nonempty_id = url_encode_nonempty io.uuid named;
                    stored = f ∙ ap ok (ap (λ x. owner_of d.rdb stored x sid) at ∙ owned);
                    nonempty_user = ids user.id;
                  }))
          ],
        )

    signed_out :
        (sid : Bytes)
        → cookie r d.sm.session_cookie_name ≡ some sid
        → owner_of d.rdb stored (sessions s) sid ≡ []
        → answered ≡ (write_json_error "unauthorized" 401, s)
    signed_out sid sent ended = elim (session_required_guard d.rdb d.sm sessions next r s) [
      | inl e ↦ e
      | inr (user_id, i, _) ↦
          elim (get_user_id_from_request-owner_of d.rdb stored laws d.sm (sessions s) sid) [
            | inl f ↦ absurd (i.nonempty_user (ground (arith, f, i.stored, i.sent, sent, ended)))
            | inr (x, f) ↦ absurd (ground (arith, f, i.stored, i.sent, sent))
          ]
    ]

    logout_sessions :
        (sid : Bytes) (st : Stores d)
        → sid ≢ []
        → (logout d io sid st).1.sessions ≡ (delete_session d.rdb d.sm sid st.sessions).1
    unfolding logout end_session
    logout_sessions sid st named = ground (arith, same-ne sid [] named)

    -- After a logout nobody gets in with the session that it was for, unless Redis has refused
    -- to delete it.
    pub logout-session_required :
        (sid : Bytes) (st : Stores d)
        → sid ≢ []
        → sessions s ≡ (logout d io sid st).1.sessions
        → cookie r d.sm.session_cookie_name ≡ some sid
        → (answered ≡ (write_json_error "unauthorized" 401, s))
          ⊎ ((e : AppError) × ((d.rdb.del st.sessions (session_key sid)).0 ≡ some e))
    logout-session_required sid st named at sent =
        elim (delete_session_ends d.rdb stored laws d.sm sid st.sessions) [
          | inr failed ↦ inr failed
          | inl e ↦ inl (
              signed_out sid sent
                (ap (λ x. owner_of d.rdb stored x sid) (at ∙ logout_sessions sid st named) ∙ e))
        ]
