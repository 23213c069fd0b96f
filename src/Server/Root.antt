-- ===== src/Server/Root.antt =====
-- The ways a request takes through the layers of the whole server.
use jsm.Common.{
  ℕ, String, ◌≡◌, refl, ◌∙◌, ◌⊎◌, inl, inr, true, none, some, List, [], arith, Bool-cases,
  Option-cases, Bytes,
}
use jsm.Http.{Request, Response, Cookie, write_json_error, with_cookies}
use jsm.Handlers.Shown.{is_plain}
use jsm.Session.Middleware.{is_safe, session_required}
use jsm.Session.Middleware.Guards.{
  IsSignedIn, session_required_guard, csrf_middleware_guard, csrf_middleware_safe,
}
use jsm.Accounts.{Inputs}
use jsm.Handlers.Routes.{
  PublicRoute, public_target, unmatched, protected_target, serve_public, serve_protected,
  protected_mux, root_mux, new_router, chain,
}
use jsm.Server.{Parts, World, serve, endpoints, sessions_of}

module _ (p : Parts) (io : Inputs) (r : Request) (w : World p) where
  abbrev inner : Request → World p → Response × World p
  inner = protected_mux p.deps.hmac_sha256 p.deps.rdb p.deps.sm (sessions_of p io) (endpoints p io)

  abbrev pub root : Request → World p → Response × World p
  root = root_mux p.deps.hmac_sha256 p.deps.rdb p.deps.sm (sessions_of p io) (endpoints p io)

  -- The request presents a session that is stored for the user.
  abbrev pub SignedInAs : Bytes → Type 0
  SignedInAs user_id = IsSignedIn p.deps.rdb p.deps.sm (sessions_of p io) inner r w user_id

  root_private :
      unmatched r.method r.path ≡ none
      → public_target r.method r.path ≡ none
      → root r w ≡ session_required p.deps.rdb p.deps.sm (sessions_of p io) inner r w
  unfolding root_mux
  root_private open_to e = ground (arith, open_to, e)

  root_public :
      (t : PublicRoute)
      → unmatched r.method r.path ≡ none
      → public_target r.method r.path ≡ some t
      → root r w ≡ serve_public (endpoints p io) t r w
  unfolding root_mux
  root_public t open_to e = ground (arith, open_to, e)

  unmatched_plain :
      {answer : Response} → unmatched r.method r.path ≡ some answer → is_plain answer.body ≡ true
  unfolding unmatched write_json_error
  unmatched_plain e = ground (arith, e)

  root-unmatched :
      {answer : Response} → unmatched r.method r.path ≡ some answer → root r w ≡ (answer, w)
  unfolding root_mux
  root-unmatched e = ground (arith, e)

  -- A request is for a public endpoint, is refused, for want of a session or by net/http itself,
  -- or is served as its session's user.
  pub root_cases :
      ((t : PublicRoute) × (public_target r.method r.path ≡ some t)
        × (root r w ≡ serve_public (endpoints p io) t r w))
      ⊎ (((refusal : Response) × (is_plain refusal.body ≡ true) × (root r w ≡ (refusal, w)))
          ⊎ ((user_id : Bytes) × SignedInAs user_id
              × (root r w
                  ≡ serve_protected
                      (endpoints p io)
                      (protected_target r.method r.path)
                      (record r { user_id = some user_id })
                      w)))
  unfolding protected_mux write_json_error
  root_cases = elim (Option-cases (unmatched r.method r.path)) [
    | inr (answer, k) ↦ inr (inl (answer, unmatched_plain k, root-unmatched k))
    | inl k ↦ elim (Option-cases (public_target r.method r.path)) [
      | inr (t, e) ↦ inl (t, e, root_public t k e)
      | inl e ↦ elim (session_required_guard p.deps.rdb p.deps.sm (sessions_of p io) inner r w) [
        | inl f ↦ inr (inl (write_json_error "unauthorized" 401, refl, root_private k e ∙ f))
        | inr (user_id, signed, f) ↦ inr (inr (user_id, signed, root_private k e ∙ f))
      ]
    ]
  ]

  -- The CSRF layer answers with an error and changes nothing, or adds cookies to the root's answer.
  pub serve_cases :
      ((message : String) × (status : ℕ) × (serve p io r w ≡ (write_json_error message status, w)))
      ⊎ ((cookies : List Cookie) × (serve p io r w
            ≡ (with_cookies cookies (root r w).0, (root r w).1)))
  unfolding serve new_router chain
  serve_cases = elim (Bool-cases (is_safe r.method)) [
    | inl safe ↦ elim (csrf_middleware_safe p.deps.hmac_sha256 p.deps.sm root r w io.nonce safe) [
      | inl x ↦ inl ("INTERNAL_SERVER_ERROR", 500, x)
      | inr (cookies, x) ↦ inr (cookies, x)
    ]
    | inr unsafe ↦
        elim (csrf_middleware_guard p.deps.hmac_sha256 p.deps.sm r root w io.nonce unsafe) [
          | inl (message, x) ↦ inl (message, 403, x)
          | inr (_, x) ↦ inr ([], x)
        ]
  ]
