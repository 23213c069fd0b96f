-- ===== src/Session.antt =====
-- backend/internal/authentication/session.go and csrf.go (cookies), internal/store/redis/
-- session_store.go and the CSRF secret of internal/common/redisWrap/client.go. The Redis client, the
-- random bytes, UUIDs and the clock are parameters.
pub mod Redirect
pub mod Middleware
pub mod Manager
pub mod Stored
use jsm.Common.{
  ℕ, suc, ◌/◌, Bool, true, false, not, ◌&&◌, Option, none, some, List, [], ◌∷◌, ◌++◌, if◌then◌else◌,
  Bytes, text, same,
}
use jsm.Number.{ℤ, pos, negsuc, sub_ℕ}
use jsm.Metrics.{AppError, Result, ok, err, wrapped, ◌>>=◌}
use jsm.Http.{Request, cookie, Cookie}
use jsm.Csrf.{url_encode, mint_csrf_token, verify_csrf_token}
use jsm.RateLimit.{second}

-- The commands that the session store sends.
pub record Redis : Type 1 where
  pub State : Type 0
  pub hset : State → Bytes → List (Bytes × Bytes) → Option AppError × State
  pub expire : State → Bytes → ℤ → Option AppError × State
  pub hgetall : State → Bytes → Result (List (Bytes × Bytes))
  pub del : State → Bytes → Option AppError × State

pub record SessionManager : Type 0 where
  pub ttl : ℤ
  pub session_cookie_name : Bytes
  pub csrf_cookie_name : Bytes
  pub redirect_cookie_name : Bytes
  pub redirect_ttl : ℕ
  pub domain : Bytes
  pub secure : Bool
  pub csrf_secret : Bytes

-- int(d.Seconds())
abbrev pub seconds : ℤ → ℤ
seconds (pos n) = pos (n / second)
seconds (negsuc n) = sub_ℕ 0 (suc n / second)

abbrev pub session_key : Bytes → Bytes
session_key sid = text "session:" ++ sid

-- csrfSecret of redisWrap: the configured secret, or 32 random bytes.
unfoldable pub csrf_secret_of : Bytes → Option Bytes → Result Bytes
csrf_secret_of configured random = if not (same configured []) then ok configured else elim random [
  | none ↦ err (wrapped "generate CSRF secret" (AppError.other "crypto/rand"))
  | some secret ↦ ok secret
]

-- A field of a session hash; a missing one reads as "".
unfoldable pub field : List (Bytes × Bytes) → Bytes → Bytes
field [] name = []
field ((k, v) ∷ fs) name = if same k name then v else field fs name

abbrev pub session_cookie : SessionManager → Bytes → ℤ → Cookie
session_cookie sm value max_age = record {
  name = sm.session_cookie_name;
  value = value;
  path = text "/";
  domain = sm.domain;
  max_age = max_age;
  http_only = true;
  secure = sm.secure;
  same_site_lax = true;
}

unfoldable pub clear_session_cookie : SessionManager → Cookie
clear_session_cookie sm = session_cookie sm [] (negsuc 0)

unfoldable pub csrf_cookie : SessionManager → Bytes → Cookie
csrf_cookie sm token = record {
  name = sm.csrf_cookie_name;
  value = token;
  path = text "/";
  domain = sm.domain;
  max_age = pos 0;
  http_only = false;
  secure = true;
  same_site_lax = true;
}

unfoldable pub session_id_from_request : SessionManager → Request → Bytes
session_id_from_request sm r = elim (cookie r sm.session_cookie_name) [ none ↦ [] | some v ↦ v ]

module _ (hmac_sha256 : Bytes → Bytes → Bytes) (sm : SessionManager) where
  unfoldable pub new_csrf_cookie : Option Bytes → Bytes → Result Cookie
  new_csrf_cookie nonce session_id = do
    token ← mint_csrf_token hmac_sha256 sm.csrf_secret nonce session_id
    ok (csrf_cookie sm token)

  presented_token : Option Bytes → Bytes → Bool
  presented_token none session_id = false
  presented_token (some value) session_id =
      not (same value []) && verify_csrf_token hmac_sha256 sm.csrf_secret value session_id

  -- The cookies to set: none where the request's token still applies.
  unfoldable pub ensure_csrf_token : Option Bytes → Request → Result (List Cookie)
  unfolding presented_token
  ensure_csrf_token nonce r =
      let session_id = session_id_from_request sm r in
      let fresh = (do c ← new_csrf_cookie nonce session_id; ok (c ∷ [])) in
      if presented_token (cookie r sm.csrf_cookie_name) session_id then ok [] else fresh

module _ (rdb : Redis) (sm : SessionManager) where
  open rdb use {State, hset, expire, hgetall, del}

  -- SessionStore.Create
  unfoldable pub store_create : Bytes → List (Bytes × Bytes) → ℤ → State → Option AppError × State
  store_create sid fields ttl st =
      let (failure, st') = hset st (session_key sid) fields in
      elim failure [ some e ↦ (some e, st') | none ↦ expire st' (session_key sid) ttl ]

  -- SessionManager.CreateSession; `uuid` is uuid.New and `now` the clock's reading as text.
  unfoldable pub create_session :
      (uuid now user_id email username : Bytes) → State → Result (Bytes × Cookie) × State
  unfolding store_create
  create_session uuid now user_id email username st =
      let sid = url_encode uuid in
      let fields =
        (text "user_id", user_id)
        ∷ (text "email", email)
        ∷ (text "user_name", username)
        ∷ (text "lastLoginAttempt", now)
        ∷ [] in
      let (failure, st') = store_create sid fields sm.ttl st in
      elim failure [
        | some e ↦ (err e, st')
        | none ↦ (ok (sid, session_cookie sm sid (seconds sm.ttl)), st')
      ]

  -- SessionManager.DeleteSession
  unfoldable pub delete_session : Bytes → State → Result Cookie × State
  delete_session sid st =
      let (failure, st') = del st (session_key sid) in
      elim failure [ some e ↦ (err e, st') | none ↦ (ok (clear_session_cookie sm), st') ]

  -- SessionManager.GetUserIDFromRequest
  unfoldable pub get_user_id_from_request : State → Bytes → Result Bytes
  unfolding field
  get_user_id_from_request st sid = do
    sess ← hgetall st (session_key sid)
    ok (field sess (text "user_id"))
