-- ===== src/Accounts/Login.antt =====
-- Authenticate of backend/internal/service/auth.go.
use jsm.Common.{
  ◌≡◌, refl, sym, ap, ◌∙◌, ◌⊎◌, inl, inr, true, Option, none, some, List, [], ◌∷◌, ◌++◌, arith,
  Bool-cases, Bytes, same, Without,
}
use jsm.Metrics.{Result, ok, err, sentinel, incorrect_credentials, Result-cases}
use mathlib.Core.Path.{subst}
use jsm.Csrf.{verify_csrf_token, mint_csrf_token, url_encode, raw_url_encode, sign_csrf}
use jsm.Csrf.Binding.{verify_csrf_token-mint_csrf_token, url_encode-Without}
use jsm.Session.{seconds, session_cookie, csrf_cookie, create_session, new_csrf_cookie}
use jsm.Http.{Cookie}
use jsm.Domain.{User}
use jsm.Http.{Cookie}
use jsm.Password.{verify_password}
use jsm.Mongo.Users.{lookup_user_by_email}
use jsm.Accounts.{Deps, Inputs, Stores, authenticate, log_in_as, sign_in, new_csrf_cookie}
use jsm.Accounts.Email.{normalize_email}

sign_in-accounts :
    (d : Deps) (io : Inputs) (answer : Result (Bytes × Cookie) × d.rdb.State) (st : Stores d)
    → (sign_in d io answer st).1.accounts ≡ st.accounts
unfolding sign_in
sign_in-accounts d io (err e, sessions) st = refl
sign_in-accounts d io (ok (sid, c), sessions) st = refl

module _ (d : Deps) (io : Inputs) (email password : Bytes) (st : Stores d) where
  -- The account that the address names and the password opens.
  pub record IsLogin (user : User) : Type 0 where
    pub account :
        lookup_user_by_email d.users st.accounts (normalize_email d.unicode_lower email) ≡ ok user
    pub password_matches : verify_password d.bcrypt user.password_hash password ≡ true

  -- An unknown address and a wrong password get the same answer, and change nothing. Any other
  -- answer is to a user's own password, and leaves the accounts as they are.
  pub authenticate_guard :
      (authenticate d io email password st ≡ (err (sentinel incorrect_credentials), st))
      ⊎ ((user : User) × IsLogin user
          × ((authenticate d io email password st).1.accounts ≡ st.accounts))
  unfolding authenticate log_in_as
  authenticate_guard =
      elim (Result-cases
        (lookup_user_by_email d.users st.accounts (normalize_email d.unicode_lower email))) [
          | inr (x, f) ↦ inl (ground arith)
          | inl (user, f) ↦
              elim (Bool-cases (verify_password d.bcrypt user.password_hash password)) [
                | inr g ↦ inl (ground arith)
                | inl g ↦ inr (
                  user,
                  record { account = f; password_matches = g },
                  let answer =
                        create_session d.rdb d.sm io.uuid io.now_text (d.object_id_hex user.id)
                          user.email user.name st.sessions in
                      ground (arith, f, g, sign_in-accounts d io answer st),
                )
              ]
        ]

module _ (d : Deps) (io : Inputs) where
  -- The cookies of a signed-in client: the session's, and a CSRF token for that session and no
  -- other.
  pub record IsSignedInCookies (session_id : Bytes) (cookies : List Cookie) : Type 0 where
    pub token : Bytes
    pub both :
        cookies ≡ session_cookie d.sm session_id (seconds d.sm.ttl) ∷ csrf_cookie d.sm token ∷ []
    pub binding :
        (presented : Bytes)
        → verify_csrf_token d.hmac_sha256 d.sm.csrf_secret token presented
          ≡ same session_id presented

  abbrev IsBound : Bytes → Cookie → Type 0
  IsBound sid c =
      (token : Bytes) × (c ≡ csrf_cookie d.sm token)
      × ((presented : Bytes)
          → verify_csrf_token d.hmac_sha256 d.sm.csrf_secret token presented ≡ same sid presented)

  new_csrf_cookie-IsBound :
      (nonce : Option Bytes) (sid : Bytes) {c : Cookie}
      → Without b'!' sid
      → new_csrf_cookie d.hmac_sha256 d.sm nonce sid ≡ ok c
      → IsBound sid c
  unfolding new_csrf_cookie mint_csrf_token
  new_csrf_cookie-IsBound none sid h e = cc
  new_csrf_cookie-IsBound (some bytes) sid h e =
      let message = raw_url_encode bytes ++ b'!' ∷ sid in
      let token = message ++ b'.' ∷ sign_csrf d.hmac_sha256 d.sm.csrf_secret message in
      (
        token,
        ground arith,
        λ presented.
            verify_csrf_token-mint_csrf_token d.hmac_sha256 d.sm.csrf_secret bytes sid presented
              token h (unfold mint_csrf_token in refl),
      )

  create_session_cookie :
      (user_id email name : Bytes) (s : d.rdb.State) {sid : Bytes} {c : Cookie}
      → (create_session d.rdb d.sm io.uuid io.now_text user_id email name s).0 ≡ ok (sid, c)
      → (sid ≡ url_encode io.uuid)
        × (c ≡ session_cookie d.sm (url_encode io.uuid) (seconds d.sm.ttl))
  unfolding create_session
  create_session_cookie user_id email name s e = ground arith

  pub sign_in_cookies :
      (answer : Result (Bytes × Cookie) × d.rdb.State) (st : Stores d) {cookies : List Cookie}
      → (sign_in d io answer st).0 ≡ ok cookies
      → (sid : Bytes) × (c : Cookie) × (csrf : Cookie) × (answer.0 ≡ ok (sid, c))
        × (new_csrf_cookie d.hmac_sha256 d.sm io.nonce sid ≡ ok csrf)
        × (cookies ≡ c ∷ csrf ∷ [])
  unfolding sign_in
  sign_in_cookies (err x, s) st e = cc
  sign_in_cookies (ok (sid, c), s) st e =
      elim (Result-cases (new_csrf_cookie d.hmac_sha256 d.sm io.nonce sid)) [
        | inl (csrf, f) ↦ (sid, c, csrf, refl, f, ground (arith, f))
        | inr (x, f) ↦ absurd (ground (arith, f))
      ]

  -- A login that succeeds sets two cookies: the session's, under the ID made from the UUID, and a
  -- CSRF token that verifies for that session and for no other.
  pub authenticate-IsSignedInCookies :
      (email password : Bytes) (st : Stores d) {cookies : List Cookie}
      → (authenticate d io email password st).0 ≡ ok cookies
      → IsSignedInCookies (url_encode io.uuid) cookies
  unfolding authenticate log_in_as
  authenticate-IsSignedInCookies email password st {cookies = cookies} e =
      elim (Result-cases
        (lookup_user_by_email d.users st.accounts (normalize_email d.unicode_lower email))) [
          | inr (x, f) ↦ absurd (ground (arith, f))
          | inl (user, f) ↦
              elim (Bool-cases (verify_password d.bcrypt user.password_hash password)) [
                | inr g ↦ absurd (ground (arith, f, g))
                | inl g ↦
                    let answer =
                      create_session d.rdb d.sm io.uuid io.now_text (d.object_id_hex user.id)
                        user.email user.name st.sessions in
                    let (sid, c, csrf, made, minted, both) =
                      sign_in_cookies answer st {cookies = cookies} (ground (arith, f, g)) in
                    let (sid_eq, c_eq) =
                      create_session_cookie (d.object_id_hex user.id) user.email user.name
                        st.sessions made in
                    let (token, csrf_eq, bound) =
                      new_csrf_cookie-IsBound io.nonce sid
                        (subst (λ x. Without b'!' x) (sym sid_eq) (url_encode-Without io.uuid))
                        minted in
                    record {
                      token = token;
                      both = cc (both, c_eq, csrf_eq);
                      binding = λ presented. bound presented ∙ ap (λ x. same x presented) sid_eq;
                    }
              ]
        ]
