-- ===== src/Session/Middleware/Guards.antt =====
-- What a request has shown when the middleware lets it through.
use jsm.Common.{
  String, ◌≡◌, sym, ◌≢◌, ◌⊎◌, inl, inr, true, false, Option, some, List, [], arith, Bool-cases,
  Option-cases, Bytes, text, same, same_iff, same-ne,
}
use jsm.Metrics.{ok, Result-cases}
use jsm.Http.{Request, Response, cookie, header_get, write_json_error, Cookie, with_cookies}
use jsm.Csrf.{verify_csrf_token}
use jsm.Session.{
  Redis, SessionManager, session_id_from_request, get_user_id_from_request, ensure_csrf_token,
}
use jsm.Session.Middleware.{
  Handler, is_safe, csrf_middleware, checked, session_required, with_user, issue,
}

module _ (hmac_sha256 : Bytes → Bytes → Bytes) (sm : SessionManager) (r : Request) where
  -- The cookie and the header agree on a token that verifies for the presented session.
  pub record IsAuthorised : Type 0 where
    pub token : Bytes
    pub sent : cookie r sm.csrf_cookie_name ≡ some token
    pub echoed : header_get r (text "X-CSRF-TOKEN") ≡ token
    pub signed :
        verify_csrf_token hmac_sha256 sm.csrf_secret token (session_id_from_request sm r) ≡ true

  module _ {S : Type 0} (next : Handler S) (st : S) where
    abbrev pub IsForbidden : Response × S → Type 0
    IsForbidden answer = (message : String) × (answer ≡ (write_json_error message 403, st))

    checked-guard :
        (token : Bytes)
        → cookie r sm.csrf_cookie_name ≡ some token
        → IsForbidden (checked hmac_sha256 sm token next r st)
          ⊎ (IsAuthorised × (checked hmac_sha256 sm token next r st ≡ next r st))
    unfolding checked
    checked-guard token sent =
        let header = header_get r (text "X-CSRF-TOKEN") in
        let verified =
          verify_csrf_token hmac_sha256 sm.csrf_secret token (session_id_from_request sm r) in
        elim (Bool-cases (same header [])) [
          | inl e ↦ inl ("csrf token missing", rw e)
          | inr e ↦ elim (Bool-cases (same token header)) [
            | inr m ↦ inl ("csrf token mismatch", rw (e, m))
            | inl m ↦ elim (Bool-cases verified) [
              | inr v ↦ inl ("csrf token invalid", rw (e, m, v))
              | inl v ↦ inr (
                record {
                  token = token;
                  sent = sent;
                  echoed = sym ((same_iff token header).0 m);
                  signed = v;
                },
                rw (e, m, v),
              )
            ]
          ]
        ]

    -- A request with an unsafe method either gets 403 and changes nothing, or carries a token,
    -- in the cookie and in the header, that verifies for its session, and is handled.
    pub csrf_middleware_guard :
        (nonce : Option Bytes)
        → is_safe r.method ≡ false
        → IsForbidden (csrf_middleware hmac_sha256 sm nonce next r st)
          ⊎ (IsAuthorised × (csrf_middleware hmac_sha256 sm nonce next r st ≡ next r st))
    unfolding csrf_middleware
    csrf_middleware_guard _ unsafe = elim (Option-cases (cookie r sm.csrf_cookie_name)) [
      | inl e ↦ inl ("csrf token missing", rw (unsafe, e))
      | inr (value, e) ↦ elim (Bool-cases (same value [])) [
        | inl m ↦ inl ("csrf token missing", rw (unsafe, e, m))
        | inr m ↦ rw (unsafe, e, m) (checked-guard value e)
      ]
    ]

module _ (hmac_sha256 : Bytes → Bytes → Bytes) (sm : SessionManager) {S : Type 0} (next : Handler S)
    (r : Request) (st : S) where
  -- A safe request gets 500 if no token can be made, and is handled otherwise, with cookies added.
  pub csrf_middleware_safe :
      (nonce : Option Bytes)
      → is_safe r.method ≡ true
      → (csrf_middleware hmac_sha256 sm nonce next r st
          ≡ (write_json_error "INTERNAL_SERVER_ERROR" 500, st))
        ⊎ ((cookies : List Cookie) × (csrf_middleware hmac_sha256 sm nonce next r st
              ≡ (with_cookies cookies (next r st).0, (next r st).1)))
  unfolding csrf_middleware issue
  csrf_middleware_safe bytes safe = elim (Result-cases (ensure_csrf_token hmac_sha256 sm bytes r)) [
    | inl (cookies, e) ↦ inr (cookies, ground arith)
    | inr (x, e) ↦ inl (ground arith)
  ]

module _ (rdb : Redis) (sm : SessionManager) {S : Type 0} (sessions : S → rdb.State)
    (next : Handler S) (r : Request) (st : S) where
  -- The presented session is stored, for a user.
  pub record IsSignedIn (user_id : Bytes) : Type 0 where
    pub session_id : Bytes
    pub sent : cookie r sm.session_cookie_name ≡ some session_id
    pub nonempty_id : session_id ≢ []
    pub stored : get_user_id_from_request rdb sm (sessions st) session_id ≡ ok user_id
    pub nonempty_user : user_id ≢ []

  -- A request either gets 401 and changes nothing, or presents a stored session, and is handled
  -- as that session's user, whatever user it names itself.
  pub session_required_guard :
      (session_required rdb sm sessions next r st ≡ (write_json_error "unauthorized" 401, st))
      ⊎ ((user_id : Bytes) × IsSignedIn user_id
          × (session_required rdb sm sessions next r st
              ≡ next (record r { user_id = some user_id }) st))
  unfolding session_required with_user
  session_required_guard = elim (Option-cases (cookie r sm.session_cookie_name)) [
    | inl e ↦ inl (ground arith)
    | inr (sid, e) ↦ elim (Bool-cases (same sid [])) [
      | inl m ↦ inl (ground arith)
      | inr m ↦ elim (Result-cases (get_user_id_from_request rdb sm (sessions st) sid)) [
        | inr (x, f) ↦ inl (ground arith)
        | inl (user, f) ↦ elim (Bool-cases (same user [])) [
          | inl z ↦ inl (ground arith)
          | inr z ↦ inr (
            user,
            record {
              session_id = sid;
              sent = e;
              nonempty_id = λ q. ground (arith, same_iff sid []);
              stored = f;
              nonempty_user = λ q. ground (arith, same_iff user []);
            },
            ground arith,
          )
        ]
      ]
    ]
  ]

  -- Whoever presents a stored session is let in.
  pub session_required_signed :
      (user_id : Bytes)
      → IsSignedIn user_id
      → session_required rdb sm sessions next r st ≡ next (record r { user_id = some user_id }) st
  unfolding session_required with_user
  session_required_signed user_id i = ground (
    arith,
    i.sent,
    i.stored,
    same-ne i.session_id [] i.nonempty_id,
    same-ne user_id [] i.nonempty_user,
  )
