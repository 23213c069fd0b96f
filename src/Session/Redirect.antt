-- ===== src/Session/Redirect.antt =====
-- The redirect cookie of session.go, which package gin reads and writes.
use jsm.Common.{
  ◌/◌, ◌≡◌, ◌≢◌, inl, inr, Bool, true, false, not, ◌||◌, List, [], ◌∷◌, arith, if◌then◌else◌,
  Bool-cases, Bytes, text, same, has_prefix,
}
use jsm.Number.{pos, negsuc}
use jsm.Http.{Cookie}
use jsm.RateLimit.{second}
use jsm.Session.{SessionManager}

unfoldable pub sanitize_return_to : Bytes → Bytes
sanitize_return_to p =
    if same p [] || not (has_prefix p (text "/"))
    then []
    else if has_prefix p (text "//")
    then []
    else p

redirect_cookie : SessionManager → Bytes → Cookie
redirect_cookie sm value = record {
  name = sm.redirect_cookie_name;
  value = value;
  path = text "/";
  domain = sm.domain;
  max_age = if same value [] then negsuc 0 else pos (sm.redirect_ttl / second);
  http_only = true;
  secure = sm.secure;
  same_site_lax = true;
}

-- The cookies to set.
unfoldable pub set_redirect_cookie : SessionManager → Bytes → List Cookie
unfolding sanitize_return_to redirect_cookie
set_redirect_cookie sm return_to =
    let p = sanitize_return_to return_to in if same p [] then [] else redirect_cookie sm p ∷ []

-- What gin's Context.Cookie returns: the value, and whether there was an error.
pub record Read : Type 0 where
  pub value : Bytes
  pub failed : Bool

-- The target, and the cookie that clears the stored one.
unfoldable pub pop_redirect_cookie : SessionManager → Read → Bytes → Bytes × Cookie
unfolding sanitize_return_to redirect_cookie
pop_redirect_cookie sm read fallback =
    let val = if read.failed then sanitize_return_to read.value else [] in
    (if same val [] then fallback else val, redirect_cookie sm [])

-- What is set is a path on this host: it starts with one slash and no second.
sanitize_return_to_local :
    (p : Bytes)
    → sanitize_return_to p ≢ []
    → (sanitize_return_to p ≡ p)
      × (has_prefix p (text "/") ≡ true)
      × (has_prefix p (text "//") ≡ false)
unfolding sanitize_return_to
sanitize_return_to_local p h = ground arith

-- The stored target is never used: if gin returns no value with an error, as it documents, the
-- answer is the fallback, whether a cookie was read or not.
pub pop_redirect_cookie-fallback :
    (sm : SessionManager) (read : Read) (fallback : Bytes)
    → (read.failed ≡ true → read.value ≡ [])
    → (pop_redirect_cookie sm read fallback).0 ≡ fallback
unfolding pop_redirect_cookie
pop_redirect_cookie-fallback sm read fallback h = elim (Bool-cases read.failed) [
  | inl f ↦ rw (f, h f)
  | inr f ↦ rw f
]
