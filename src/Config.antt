-- ===== src/Config.antt =====
-- backend/internal/config/config.go and localOnly of backend/cmd/api/main.go. The environment is a
-- list of variables; the lines of the .env file are those that bufio.Scanner yields.
pub mod Env
use jsm.Common.{
  ◌*◌, Bool, true, false, not, ◌&&◌, ◌||◌, Option, none, some, List, [], ◌∷◌, ◌++◌, ◌==◌,
  if◌then◌else◌, any, Bytes, text, same, has_prefix, cut,
}
use jsm.RateLimit.{second}
use jsm.Number.{times, ℤ, pos, atoi}
use jsm.Text.{trim_space}
use jsm.RateLimit.{hour}

abbrev pub Environment : Type 0
Environment = List (Bytes × Bytes)

unfoldable pub lookup_env : Environment → Bytes → Option Bytes
lookup_env [] key = none
lookup_env ((k, v) ∷ env) key = if same k key then some v else lookup_env env key

unfoldable pub get_env : Environment → (key fallback : Bytes) → Bytes
get_env env key fallback = elim (lookup_env env key) [
  | none ↦ fallback
  | some v ↦ if same v [] then fallback else v
]

-- os.Setenv fails, and sets nothing, for an empty key and for a NUL byte; the failure is ignored.
abbrev can_set : (key value : Bytes) → Bool
can_set key value = not (same key []) && not (any (λ c. c == 0) (key ++ value))

set_default : Environment → Option (Bytes × Bytes) → Environment
set_default env none = env
set_default env (some (raw_key, raw_value)) =
    let key = trim_space raw_key in
    let value = trim_space raw_value in
    elim (lookup_env env key) [
      | some v ↦ env
      | none ↦ if can_set key value then (key, value) ∷ env else env
    ]

load_line : Environment → Bytes → Environment
unfolding set_default
load_line env raw =
    let line = trim_space raw in
    if same line [] || has_prefix line (text "#") then env else set_default env (cut b'=' line)

-- loadDotEnvIfPresent; a file that cannot be opened has no lines.
unfoldable pub load_dot_env : Environment → List Bytes → Environment
unfolding load_line
load_dot_env env [] = env
load_dot_env env (line ∷ lines) = load_dot_env (load_line env line) lines

-- strconv.ParseBool
unfoldable pub parse_bool : Bytes → Option Bool
parse_bool s =
    if any (λ t. same t s)
      (text "1" ∷ text "t" ∷ text "T" ∷ text "true" ∷ text "TRUE" ∷ text "True" ∷ [])
    then some true
    else if any (λ t. same t s)
        (text "0" ∷ text "f" ∷ text "F" ∷ text "false" ∷ text "FALSE" ∷ text "False" ∷ [])
    then some false
    else none

abbrev or_else {ℓ} : {A : Type ℓ} → A → Option A → A
or_else d none = d
or_else d (some a) = a

pub record CookieConfig : Type 0 where
  pub session_cookie_name : Bytes
  pub csrf_cookie_name : Bytes
  pub domain : Bytes
  pub secure : Bool
  pub ttl : ℤ
  pub secret : Bytes

pub record MongoConfig : Type 0 where
  pub uri : Bytes
  pub database : Bytes
  pub users_collection : Bytes
  pub apps_collection : Bytes

pub record RedisConfig : Type 0 where
  pub addr : Bytes
  pub password : Bytes
  pub db : ℤ

pub record RateLimitConfig : Type 0 where
  pub enabled : Bool
  pub trusted_proxies : Bytes
  pub client_ip_header : Bytes

pub record MailConfig : Type 0 where
  pub require_email_verification : Bool
  pub from_address : Bytes

pub record Config : Type 0 where
  pub env : Bytes
  pub http_port : Bytes
  pub mongo : MongoConfig
  pub redis : RedisConfig
  pub cookie : CookieConfig
  pub mail : MailConfig
  pub rate_limit : RateLimitConfig

unfoldable pub load : Environment → List Bytes → Config
unfolding get_env lookup_env parse_bool
load process_env dot_env =
    let env = load_dot_env process_env dot_env in
    let get = λ (key : Bytes) (fallback : Bytes). get_env env key fallback in
    record {
      env = get (text "APP_ENV") (text "dev");
      http_port = get (text "HTTP_PORT") (text ":8080");
      mongo = record {
        uri = get (text "MONGO_URI") (text "mongodb://127.0.0.1:27017");
        database = get (text "MONGO_DB") (text "jobtracker");
        users_collection = get (text "MONGO_USERS_COLLECTION") (text "users");
        apps_collection = get (text "MONGO_APPLICATIONS_COLLECTION") (text "applications");
      };
      redis = record {
        addr = get (text "REDIS_ADDR") (text "127.0.0.1:6379");
        password = get (text "REDIS_PASSWORD") [];
        db = or_else (pos 0) (atoi (get (text "REDIS_DB") (text "0")));
      };
      cookie = record {
        session_cookie_name = get (text "SESSION_COOKIE_NAME") (text "jsm_session");
        csrf_cookie_name = get (text "CSRF_COOKIE_NAME") (text "jsm_csrf");
        domain = get (text "COOKIE_DOMAIN") [];
        secure = or_else false (parse_bool (get (text "COOKIE_SECURE") (text "false")));
        ttl =
            times (or_else (pos 168) (atoi (get (text "SESSION_TTL_HOURS") (text "168"))))
              (3600 * second);
        secret = get (text "SESSION_SECRET") [];
      };
      mail = record {
        require_email_verification =
            or_else false (parse_bool (get (text "REQUIRE_EMAIL_VERIFICATION") (text "false")));
        from_address = get (text "MAIL_FROM") (text "jsm@localhost");
      };
      rate_limit = record {
        enabled = or_else true (parse_bool (get (text "RATE_LIMIT_ENABLED") (text "true")));
        trusted_proxies = get (text "TRUSTED_PROXIES") [];
        client_ip_header = get (text "CLIENT_IP_HEADER") [];
      };
    }

-- localOnly
unfoldable pub local_only : Bytes → Bytes
local_only addr = if has_prefix addr (text ":") then text "127.0.0.1" ++ addr else addr
