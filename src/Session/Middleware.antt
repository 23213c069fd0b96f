-- ===== src/Session/Middleware.antt =====
-- backend/internal/authentication/middleware.go. A handler is a function of the request and of the
-- state of the stores; logging is left out.
pub mod Guards
use jsm.Common.{String, Bool, not, ◌||◌, Option, none, some, [], if◌then◌else◌, Bytes, text, same}
use jsm.Metrics.{Result, ok, err}
use jsm.Http.{Request, Response, cookie, header_get, write_json_error, with_cookies}
use jsm.Csrf.{verify_csrf_token}
use jsm.Session.{
  Redis, SessionManager, session_id_from_request, ensure_csrf_token, get_user_id_from_request,
}

abbrev pub is_safe : Bytes → Bool
is_safe method =
    same method (text "OPTIONS") || same method (text "HEAD") || same method (text "GET")

-- A handler over the state `S`.
abbrev pub Handler : Type 0 → Type 0
Handler S = Request → S → Response × S

module _ (hmac_sha256 : Bytes → Bytes → Bytes) (sm : SessionManager) {S : Type 0} where
  forbidden : String → S → Response × S
  forbidden message st = (write_json_error message 403, st)

  checked : Bytes → Handler S → Handler S
  unfolding forbidden
  checked cookie_value next r st =
      let header = header_get r (text "X-CSRF-TOKEN") in
      if same header []
      then forbidden "csrf token missing" st
      else if not (same cookie_value header)
      then forbidden "csrf token mismatch" st
      else if not
          (verify_csrf_token hmac_sha256 sm.csrf_secret cookie_value (session_id_from_request sm r))
      then forbidden "csrf token invalid" st
      else next r st

  issue : Option Bytes → Handler S → Handler S
  issue nonce next r st = elim (ensure_csrf_token hmac_sha256 sm nonce r) [
    | err e ↦ (write_json_error "INTERNAL_SERVER_ERROR" 500, st)
    | ok cookies ↦ (let (answer, st') = next r st in (with_cookies cookies answer, st'))
  ]

  -- `nonce` is what crypto/rand gives for a new token.
  unfoldable pub csrf_middleware : Option Bytes → Handler S → Handler S
  unfolding checked issue
  csrf_middleware nonce next r st =
      if is_safe r.method then issue nonce next r st else elim (cookie r sm.csrf_cookie_name) [
        | none ↦ forbidden "csrf token missing" st
        | some value ↦
            if same value [] then forbidden "csrf token missing" st else checked value next r st
      ]

module _ (rdb : Redis) (sm : SessionManager) {S : Type 0} (sessions : S → rdb.State) where
  unauthorized : S → Response × S
  unauthorized st = (write_json_error "unauthorized" 401, st)

  with_user : Result Bytes → Handler S → Handler S
  unfolding unauthorized
  with_user (err e) next r st = unauthorized st
  with_user (ok user_id) next r st =
      if same user_id [] then unauthorized st else next (record r { user_id = some user_id }) st

  unfoldable pub session_required : Handler S → Handler S
  unfolding with_user
  session_required next r st = elim (cookie r sm.session_cookie_name) [
    | none ↦ unauthorized st
    | some sid ↦
        if same sid []
        then unauthorized st
        else with_user (get_user_id_from_request rdb sm (sessions st) sid) next r st
  ]
