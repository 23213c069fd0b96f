-- ===== src/RateLimit/Guard/Refusal.antt =====
-- Guard.Middleware and AllowRequest of backend/internal/rate-limiter/middleware.go.
use jsm.Common.{
  ℕ, ◌≡◌, ◌⊎◌, inl, inr, true, false, Option, none, some, [], ◌∷◌, arith, Bool-cases, Option-cases,
  Bytes,
}
use jsm.Http.{Request, Response}
use jsm.RateLimit.{Policy, Store, Decision, allow, AppError}
use jsm.RateLimit.ClientIp.{NetIp, Resolver}
use jsm.RateLimit.Guard.{
  client_key, write_too_many_requests, limit_route, new_guard, allow_request, refusal,
}

module _ (net : NetIp) (sum256 : Bytes → Bytes) (policy : Policy) (store : Store) (r : Resolver net)
    (now : ℕ) (scope : Bytes) (next : Request → store.State → Response × store.State)
    (req : Request) (st : store.State) where
  -- What the limiter says of the request's address.
  abbrev verdict : Decision × Option AppError × store.State
  verdict =
      allow sum256 now policy store (client_key net sum256 policy store r now req scope ∷ []) st

  -- The route runs exactly if the limiter allows the address without an error of the store: a
  -- store that fails refuses. Otherwise the answer is 429.
  limit_route_verdict :
      ((verdict.0.allowed ≡ true)
        × (verdict.1 ≡ none)
        × (limit_route (new_guard net sum256 policy store r now) scope next req st
            ≡ next req verdict.2))
      ⊎ (((verdict.0.allowed ≡ false) ⊎ ((e : AppError) × (verdict.1 ≡ some e)))
          × (limit_route (new_guard net sum256 policy store r now) scope next req st
              ≡ (write_too_many_requests verdict.0.retry_after, verdict.2)))
  unfolding limit_route allow_request refusal
  limit_route_verdict = elim (Option-cases verdict.1) [
    | inr (e, f) ↦ inr (inr (e, f), ground arith)
    | inl f ↦ elim (Bool-cases verdict.0.allowed) [
      | inl a ↦ inl (a, f, ground arith)
      | inr a ↦ inr (inl a, ground arith)
    ]
  ]
