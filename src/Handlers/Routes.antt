-- ===== src/Handlers/Routes.antt =====
-- backend/internal/http/routers.go: the two muxes and the middleware around them, over handlers of
-- the state `S`. A request's path is the escaped path of its URL, as net/http's ServeMux reads it.
-- No handler of the model panics, and logging is left out, so RecoverMiddleware and
-- LoggingMiddleware hand every request through.
pub mod Protected
use jsm.Common.{
  ℕ, ◌+◌, ◌-◌, ◌*◌, ◌/◌, Bool, true, false, not, ◌&&◌, ◌||◌, Option, none, some, List, [], ◌∷◌, map,
  leb, ◌==◌, if◌then◌else◌, drop, Bytes, text, same, split,
}
use mathlib.Core.Option
use jsm.Http.{Request, Response, no_body, write_json_error}
use jsm.Session.{Redis, SessionManager}
use jsm.Session.Middleware.{Handler, csrf_middleware, session_required}

pub data PublicRoute : Type 0 where
  health login signup logout : PublicRoute

pub data ProtectedRoute : Type 0 where
  me reset_password list create get update delete : ProtectedRoute
  not_found method_not_allowed : ProtectedRoute

-- A GET pattern matches HEAD too.
abbrev pub is_get : Bytes → Bool
is_get method = same method (text "GET") || same method (text "HEAD")

abbrev pub is_post : Bytes → Bool
is_post method = same method (text "POST")

abbrev is_connect : Bytes → Bool
is_connect method = same method (text "CONNECT")

-- How much of an escape `%XX` has been read.
pub data Escape : Type 0 where
  outside percent : Escape
  half : ℕ → Escape

abbrev hex_digit : ℕ → Option ℕ
hex_digit c =
    if leb b'0' c && leb c b'9'
    then some (c - b'0')
    else if leb b'a' c && leb c b'f'
    then some (c - b'a' + 10)
    else if leb b'A' c && leb c b'F'
    then some (c - b'A' + 10)
    else none

-- url.PathUnescape
unescape : Escape → Bytes → Option Bytes
unescape outside [] = some []
unescape outside (c ∷ s) =
    let rest = unescape (if c == b'%' then percent else outside) s in
    if c == b'%' then rest else Option.map (λ u. c ∷ u) rest
unescape percent [] = none
unescape percent (c ∷ s) = elim (hex_digit c) [ none ↦ none | some h ↦ unescape (half h) s ]
unescape (half h) [] = none
unescape (half h) (c ∷ s) = elim (hex_digit c) [
  | none ↦ none
  | some l ↦ Option.map (λ u. (16 * h + l) ∷ u) (unescape outside s)
]

-- What a segment is matched as: a malformed one as it is.
segment_of : Bytes → Bytes
unfolding unescape
segment_of s = Option.get_or (unescape outside s) s

unfoldable pub segments : Bytes → List Bytes
unfolding segment_of
segments path = map segment_of (drop 1 (split b'/' path))

abbrev is_only : Bytes → List Bytes → Bool
is_only name (s ∷ []) = same s name
is_only name _ = false

-- The patterns of the root mux but "/"; any other request falls through to "/".
unfoldable pub public_target : (method path : Bytes) → Option PublicRoute
unfolding segments
public_target method path =
    let parts = segments path in
    if is_get method && is_only (text "health") parts
    then some health
    else if is_post method && is_only (text "login") parts
    then some login
    else if is_post method && is_only (text "signup") parts
    then some signup
    else if is_post method && is_only (text "logout") parts
    then some logout
    else none

-- `/applications/{id}`; the segment of a trailing slash is none, nor is one that reads as one.
abbrev is_application : List Bytes → Bool
is_application (s ∷ id ∷ []) =
    same s (text "applications") && not (same id []) && not (same id (text "/"))
is_application _ = false

-- The patterns of the protected mux.
unfoldable pub protected_target : (method path : Bytes) → ProtectedRoute
unfolding segments
protected_target method path =
    let parts = segments path in
    if is_only (text "me") parts
    then (if is_get method then me else method_not_allowed)
    else if is_only (text "reset-password") parts
    then (if is_post method then reset_password else method_not_allowed)
    else if is_only (text "applications") parts
    then (if is_get method then list else if is_post method then create else method_not_allowed)
    else if is_application parts
    then (if is_get method
        then get
        else if same method (text "PATCH")
        then update
        else if same method (text "DELETE")
        then delete
        else method_not_allowed)
    else not_found

clean_segments : List Bytes → Bool
clean_segments [] = true
clean_segments ([] ∷ []) = true
clean_segments (s ∷ ss) =
    not (same s []) && not (same s (text ".")) && not (same s (text "..")) && clean_segments ss

-- The path is what net/http's cleanPath makes of it.
unfoldable pub is_clean : Bytes → Bool
unfolding clean_segments
is_clean [] = false
is_clean (c ∷ s) = c == b'/' && clean_segments (split b'/' s)

abbrev bare : ℕ → Response
bare status = record { status = status; set_cookies = []; retry_after = none; body = no_body }

-- What a mux answers before a pattern is tried: `*` is refused, a path that is not clean is
-- redirected, unless the method is CONNECT, and the empty path that is then left has no pattern.
-- The target of the redirect and its link are left out.
unfoldable pub unmatched : (method path : Bytes) → Option Response
unfolding is_clean
unmatched method path =
    if same path (text "*")
    then some (bare 400)
    else if not (is_connect method) && not (is_clean path)
    then some (bare 301)
    else if same path []
    then some (write_json_error "404 page not found" 404)
    else none

pub record Endpoints (S : Type 0) : Type 0 where
  pub health : Handler S
  pub login : Handler S
  pub signup : Handler S
  pub logout : Handler S
  pub me : Handler S
  pub reset_password : Handler S
  pub list : Handler S
  pub create : Handler S
  pub get : Handler S
  pub update : Handler S
  pub delete : Handler S

abbrev pub serve_public : {S : Type 0} → Endpoints S → PublicRoute → Handler S
serve_public e health = e.health
serve_public e login = e.login
serve_public e signup = e.signup
serve_public e logout = e.logout

abbrev pub serve_protected : {S : Type 0} → Endpoints S → ProtectedRoute → Handler S
serve_protected e me = e.me
serve_protected e reset_password = e.reset_password
serve_protected e list = e.list
serve_protected e create = e.create
serve_protected e get = e.get
serve_protected e update = e.update
serve_protected e delete = e.delete
serve_protected e not_found = λ r st. (write_json_error "404 page not found" 404, st)
serve_protected e method_not_allowed = λ r st. (write_json_error "Method Not Allowed" 405, st)

-- `chain`: the last middleware ends up outermost.
unfoldable pub chain {ℓ} : {H : Type ℓ} → H → List (H → H) → H
chain h [] = h
chain h (m ∷ ms) = chain (m h) ms

module _ (hmac_sha256 : Bytes → Bytes → Bytes) (rdb : Redis) (sm : SessionManager) {S : Type 0}
    (sessions : S → rdb.State) (e : Endpoints S) where
  unfoldable pub protected_mux : Handler S
  protected_mux r st = serve_protected e (protected_target r.method r.path) r st

  -- The handlers of the root mux's patterns, "/" for `none`.
  matched : Option PublicRoute → Handler S
  matched none r st = session_required rdb sm sessions protected_mux r st
  matched (some t) r st = serve_public e t r st

  unfoldable pub root_mux : Handler S
  unfolding protected_mux matched
  root_mux r st = elim (unmatched r.method r.path) [
    | some answer ↦ (answer, st)
    | none ↦ matched (public_target r.method r.path) r st
  ]

  -- `nonce` is what crypto/rand gives for a new CSRF token.
  unfoldable pub new_router : Option Bytes → Handler S
  unfolding root_mux chain
  new_router nonce = chain root_mux (csrf_middleware hmac_sha256 sm nonce ∷ [])
