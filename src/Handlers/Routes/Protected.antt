-- ===== src/Handlers/Routes/Protected.antt =====
-- What the router does with a request that presents no session.
use jsm.Common.{
  ℕ, ◌≡◌, refl, ◌⊎◌, inl, inr, false, not, ◌&&◌, Option, none, some, List, [], arith, Bool-cases,
  Option-cases, Bytes, text, same, same_iff,
}
use jsm.Http.{Request, Response, Cookie, with_cookies, write_json_error}
use jsm.Session.{Redis, SessionManager}
use jsm.Session.Middleware.{is_safe}
use jsm.Session.Middleware.Guards.{
  IsSignedIn, csrf_middleware_guard, csrf_middleware_safe, session_required_guard,
}
use jsm.Handlers.Routes.{
  Endpoints, public_target, unmatched, is_clean, protected_mux, root_mux, chain, new_router,
}

module _ (hmac_sha256 : Bytes → Bytes → Bytes) (rdb : Redis) (sm : SessionManager) {S : Type 0}
    (sessions : S → rdb.State) (e : Endpoints S) (nonce : Option Bytes) (r : Request) (st : S) where
  -- What net/http answers where no pattern is tried.
  abbrev pub IsUnmatched : ℕ → Type 0
  IsUnmatched status =
      ((status ≡ 301) × (is_clean r.path ≡ false))
      ⊎ (((status ≡ 400) × (r.path ≡ text "*")) ⊎ ((status ≡ 404) × (r.path ≡ [])))

  -- A refusal: 401, 403, 500 or net/http's own, and nothing has changed.
  abbrev pub IsRefused : Response × S → Type 0
  IsRefused answer =
      (answer.1 ≡ st)
      × ((answer.0.status ≡ 401)
          ⊎ ((answer.0.status ≡ 403) ⊎ ((answer.0.status ≡ 500) ⊎ IsUnmatched answer.0.status)))

  unmatched-IsUnmatched :
      {answer : Response} → unmatched r.method r.path ≡ some answer → IsUnmatched answer.status
  unfolding unmatched write_json_error
  unmatched-IsUnmatched {answer = answer} e = elim (Bool-cases (same r.path (text "*"))) [
    | inl t ↦ inr (inl (ground (arith, e, t), (same_iff r.path (text "*")).0 t))
    | inr f ↦ elim (Bool-cases (not (same r.method (text "CONNECT")) && not (is_clean r.path))) [
      | inl g ↦ inl (ground (arith, e, f, g), ground (arith, g))
      | inr g ↦ elim (Bool-cases (same r.path [])) [
        | inl h ↦ inr (inr (ground (arith, e, f, g, h), (same_iff r.path []).0 h))
        | inr h ↦ absurd (ground (arith, e, f, g, h))
      ]
    ]
  ]

  root_mux-signed_out :
      public_target r.method r.path ≡ none
      → ((user_id : Bytes)
          → ¬ IsSignedIn rdb sm sessions (protected_mux hmac_sha256 rdb sm sessions e) r st user_id)
      → (root_mux hmac_sha256 rdb sm sessions e r st ≡ (write_json_error "unauthorized" 401, st))
        ⊎ ((answer : Response) × (unmatched r.method r.path ≡ some answer)
            × (root_mux hmac_sha256 rdb sm sessions e r st ≡ (answer, st)))
  unfolding root_mux
  root_mux-signed_out private out = elim (Option-cases (unmatched r.method r.path)) [
    | inr (answer, f) ↦ inr (answer, f, ground (arith, f))
    | inl f ↦
        elim (session_required_guard rdb sm sessions (protected_mux hmac_sha256 rdb sm sessions e) r
          st) [
            | inl refused ↦ inl (ground (arith, f, private, refused))
            | inr (user_id, signed_in, _) ↦ absurd (out user_id signed_in)
          ]
  ]

  -- What the muxes refuse is refused through the CSRF layer too, which only adds cookies.
  root_mux-IsRefused :
      (cookies : List Cookie)
      → public_target r.method r.path ≡ none
      → ((user_id : Bytes)
          → ¬ IsSignedIn rdb sm sessions (protected_mux hmac_sha256 rdb sm sessions e) r st user_id)
      → IsRefused (
        with_cookies cookies (root_mux hmac_sha256 rdb sm sessions e r st).0,
        (root_mux hmac_sha256 rdb sm sessions e r st).1,
      )
  unfolding write_json_error
  root_mux-IsRefused cookies private out = elim (root_mux-signed_out private out) [
    | inl x ↦ rw x (refl, inl refl)
    | inr (answer, f, x) ↦ rw x (refl, inr (inr (inr (unmatched-IsUnmatched f))))
  ]

  -- A request outside the four public endpoints that presents no stored session is refused and
  -- changes nothing, whatever its method, path and CSRF token: with 401, 403 or 500, or by net/http
  -- itself, with 301 for a path that is not clean, 400 for `*` and 404 for none.
  pub new_router-IsRefused :
      public_target r.method r.path ≡ none
      → ((user_id : Bytes)
          → ¬ IsSignedIn rdb sm sessions (protected_mux hmac_sha256 rdb sm sessions e) r st user_id)
      → IsRefused (new_router hmac_sha256 rdb sm sessions e nonce r st)
  unfolding new_router chain write_json_error
  new_router-IsRefused private out =
      let root = root_mux hmac_sha256 rdb sm sessions e in
      elim (Bool-cases (is_safe r.method)) [
        | inl safe ↦ elim (csrf_middleware_safe hmac_sha256 sm root r st nonce safe) [
          | inl x ↦ rw x (refl, inr (inr (inl refl)))
          | inr (cookies, x) ↦ rw x (root_mux-IsRefused cookies private out)
        ]
        | inr unsafe ↦ elim (csrf_middleware_guard hmac_sha256 sm r root st nonce unsafe) [
          | inl (message, x) ↦ rw x (refl, inr (inl refl))
          | inr (_, x) ↦ rw x (root_mux-IsRefused [] private out)
        ]
      ]
