-- ===== src/Session/Manager.antt =====
-- NewSessionManager of backend/internal/common/redisWrap/client.go, which calls the one of
-- internal/authentication/session.go.
use jsm.Common.{ℕ, ◌*◌, Option, Bytes, text}
use jsm.Metrics.{Result, ok, ◌>>=◌}
use jsm.Config.{CookieConfig}
use jsm.RateLimit.{second}
use jsm.Session.{SessionManager, csrf_secret_of}

abbrev default_redirect_cookie_name : Bytes
default_redirect_cookie_name = text "jsm_redirect"

abbrev default_redirect_ttl : ℕ
default_redirect_ttl = 600 * second

-- `random` is what crypto/rand gives for a secret.
unfoldable pub new_session_manager : CookieConfig → (random : Option Bytes) → Result SessionManager
new_session_manager cookie random = do
  secret ← csrf_secret_of cookie.secret random
  ok (record {
    ttl = cookie.ttl;
    session_cookie_name = cookie.session_cookie_name;
    csrf_cookie_name = cookie.csrf_cookie_name;
    redirect_cookie_name = default_redirect_cookie_name;
    redirect_ttl = default_redirect_ttl;
    domain = cookie.domain;
    secure = cookie.secure;
    csrf_secret = secret;
  })
