-- ===== src/RateLimit/Guard.antt =====
-- backend/internal/rate-limiter/middleware.go: what the handlers are given. Logging is left out.
pub mod Refusal
use jsm.Common.{ℕ, ◌/◌, not, Option, none, some, List, [], ◌∷◌, ltb, if◌then◌else◌, Bytes}
use jsm.Number.{pos, itoa}
use jsm.Metrics.{AppError}
use jsm.Http.{Request, Response, write_json_error}
use jsm.RateLimit.{Key, Decision, Policy, Store, key_ip, second, allow, reset}
use jsm.RateLimit.ClientIp.{NetIp, Resolver, client_ip, bucket_value}

-- The interface Guard, over the state `S` of the counters. AllowRequest returns the 429 that it
-- has written where it returns false.
pub record Guard (S : Type 0) : Type 0 where
  pub allow_request : Request → Bytes → List Key → S → Option Response × S
  pub reset_request : Request → Bytes → List Key → S → S

-- int(retryAfter.Seconds()), at least 1.
abbrev pub retry_seconds : ℕ → ℕ
retry_seconds retry_after =
    let seconds = retry_after / second in if ltb seconds 1 then 1 else seconds

unfoldable pub write_too_many_requests : ℕ → Response
write_too_many_requests retry_after = record (write_json_error "TOO_MANY_REQUESTS" 429) {
  retry_after = some (itoa (pos (retry_seconds retry_after)));
}

module _ (net : NetIp) (sum256 : Bytes → Bytes) (policy : Policy) (store : Store) (r : Resolver net)
    (now : ℕ) where
  unfoldable pub client_key : Request → Bytes → Key
  client_key req scope = record {
    scope = scope;
    kind = key_ip;
    value = bucket_value net (client_ip net r req);
  }

  refusal : Decision → Option AppError → Option Response
  unfolding write_too_many_requests
  refusal d (some e) = some (write_too_many_requests d.retry_after)
  refusal d none = if not d.allowed then some (write_too_many_requests d.retry_after) else none

  unfoldable pub allow_request :
      Request → Bytes → List Key → store.State → Option Response × store.State
  unfolding refusal client_key
  allow_request req scope extra st =
      let (d, failure, st') = allow sum256 now policy store (client_key req scope ∷ extra) st in
      (refusal d failure, st')

  unfoldable pub reset_request : Request → Bytes → List Key → store.State → store.State
  unfolding client_key
  reset_request req scope extra st =
      (reset sum256 now policy store (client_key req scope ∷ extra) st).1

  abbrev pub new_guard : Guard store.State
  new_guard = record { allow_request = allow_request; reset_request = reset_request }

-- Guard.Middleware: the route runs only if the address may proceed.
unfoldable pub limit_route :
    {S : Type 0} → Guard S → Bytes → (Request → S → Response × S) → Request → S → Response × S
limit_route g scope next req st =
    let (refused, st') = g.allow_request req scope [] st in
    elim refused [ some answer ↦ (answer, st') | none ↦ next req st' ]
