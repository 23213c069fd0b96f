-- ===== src/Run/Listening.antt =====
-- What a server that listens is set up with.
use jsm.Common.{
  ◌≡◌, refl, sym, ◌≢◌, ◌⊎◌, inl, inr, Bool, true, false, Option, none, some, List, [], ◌∷◌, ◌++◌,
  arith, Bool-cases, Option-cases, All, All-append, Bytes, text, same, same_iff, has_prefix,
}
use mathlib.Core.Path.{subst}
use jsm.Metrics.{ok, Result-cases}
use jsm.RateLimit.{Policy, default_policy, new_limiter, with_policy}
use jsm.RateLimit.ClientIp.{NetIp, parse_trusted_proxies}
use jsm.Session.{SessionManager, csrf_secret_of}
use jsm.Session.Manager.{new_session_manager}
use jsm.Config.{Config, local_only}
use jsm.Run.{
  Event, mongo, redis, closed, listening, Ending, stopped, signalled, Outside, run, limits,
  serve_until, before, wired, with_redis, indexed, opened,
}

module _ (net : NetIp) (cfg : Config) (o : Outside) where
  -- The limits that the configuration asks for: the default policy, counted in Redis, or none.
  abbrev pub AreLimits : Policy → Bool → Type 0
  AreLimits policy in_redis =
      ((cfg.rate_limit.enabled ≡ true) × (policy ≡ default_policy) × (in_redis ≡ true))
      ⊎ ((cfg.rate_limit.enabled ≡ false) × (policy ≡ []) × (in_redis ≡ false))

  abbrev pub IsSafe : Event → Type 0
  IsSafe (listening addr policy in_redis sm) =
      (sm.csrf_secret ≢ []) × (has_prefix addr (text ":") ≡ false) × AreLimits policy in_redis
  IsSafe _ = Unit

  local_only_lem : (addr : Bytes) → has_prefix (local_only addr) (text ":") ≡ false
  unfolding local_only
  local_only_lem addr = elim (Bool-cases (has_prefix addr (text ":"))) [
    | inl t ↦ rw t refl
    | inr f ↦ rw (f, f) refl
  ]

  secret_nonempty :
      (configured : Bytes) (random : Option Bytes) {s : Bytes}
      → ((b : Bytes) → random ≡ some b → b ≢ [])
      → csrf_secret_of configured random ≡ ok s
      → s ≢ []
  unfolding csrf_secret_of
  secret_nonempty configured none {s = s} fresh e = elim (Bool-cases (same configured [])) [
    | inl t ↦ absurd (ground (arith, e, t))
    | inr f ↦ λ q. ground (arith, e, f, q, same_iff configured [])
  ]
  secret_nonempty configured (some b) {s = s} fresh e = elim (Bool-cases (same configured [])) [
    | inl t ↦ λ q. absurd (fresh b refl (ground (arith, e, t, q)))
    | inr f ↦ λ q. ground (arith, e, f, q, same_iff configured [])
  ]

  manager_secret :
      {sm : SessionManager}
      → new_session_manager cfg.cookie o.random_secret ≡ ok sm
      → csrf_secret_of cfg.cookie.secret o.random_secret ≡ ok sm.csrf_secret
  unfolding new_session_manager
  manager_secret {sm} e = elim (Result-cases (csrf_secret_of cfg.cookie.secret o.random_secret)) [
    | inl (secret, f) ↦ ground (arith, e, f)
    | inr (x, f) ↦ absurd (ground (arith, e, f))
  ]

  limits-IsSafe : (sm : SessionManager) → sm.csrf_secret ≢ [] → IsSafe (limits net cfg o sm)
  unfolding limits new_limiter with_policy
  limits-IsSafe sm secret = elim (Bool-cases cfg.rate_limit.enabled) [
    | inl t ↦ rw t (secret, local_only_lem cfg.http_port, inl (refl, refl, refl))
    | inr f ↦ rw f (secret, local_only_lem cfg.http_port, inr (refl, refl, refl))
  ]

  served-IsSafe :
      (sm : SessionManager) (ending : Ending)
      → sm.csrf_secret ≢ []
      → All IsSafe (before (limits net cfg o sm) (serve_until ending)).0
  unfolding serve_until
  served-IsSafe sm (stopped failure) secret = (limits-IsSafe sm secret, tt)
  served-IsSafe sm (signalled failure) secret = (limits-IsSafe sm secret, (tt, tt))

  wired_cases :
      ((wired net cfg o).0 ≡ [])
      ⊎ ((sm : SessionManager) × (new_session_manager cfg.cookie o.random_secret ≡ ok sm)
          × ((wired net cfg o).0 ≡ (before (limits net cfg o sm) (serve_until o.ending)).0))
  unfolding wired
  wired_cases = elim (Result-cases (new_session_manager cfg.cookie o.random_secret)) [
    | inr (x, e) ↦ inl (ground (arith, e))
    | inl (sm, e) ↦ elim (Result-cases (parse_trusted_proxies net cfg.rate_limit.trusted_proxies)) [
      | inr (x, f) ↦ inl (ground (arith, e, f))
      | inl (proxies, f) ↦ inr (sm, e, ground (arith, e, f))
    ]
  ]

  wired-IsSafe : ((s : Bytes) → o.random_secret ≡ some s → s ≢ []) → All IsSafe (wired net cfg o).0
  wired-IsSafe random = elim wired_cases [
    | inl e ↦ subst (All IsSafe) (sym e) tt
    | inr (sm, e, f) ↦ subst (All IsSafe) (sym f) (
        served-IsSafe sm o.ending
          (secret_nonempty cfg.cookie.secret o.random_secret random (manager_secret e)))
  ]

  abbrev full : List Event
  full =
      opened mongo ∷ (opened redis ∷ (wired net cfg o).0 ++ closed redis ∷ []) ++ closed mongo ∷ []

  run_cases :
      ((run net cfg o).0 ≡ [])
      ⊎ (((run net cfg o).0 ≡ opened mongo ∷ closed mongo ∷ [])
          ⊎ (((run net cfg o).0 ≡ opened mongo ∷ opened redis ∷ closed redis ∷ closed mongo ∷ [])
              ⊎ ((run net cfg o).0 ≡ full)))
  unfolding run indexed with_redis
  run_cases = elim (Option-cases o.connect_mongo) [
    | inr (x, a) ↦ inl (ground arith)
    | inl a ↦ elim (Option-cases o.ping_mongo) [
      | inr (x, b) ↦ inr (inl (ground arith))
      | inl b ↦ elim (Option-cases o.ensure_indexes) [
        | inr (x, c) ↦ inr (inl (ground arith))
        | inl c ↦ elim (Option-cases o.ping_redis) [
          | inr (x, r) ↦ inr (inr (inl (ground arith)))
          | inl r ↦ inr (inr (inr (ground arith)))
        ]
      ]
    ]
  ]

  -- However a run goes, the server listens only with a CSRF secret that is not empty, if random
  -- bytes are not; not on every interface by a bare port; and with the default limits, counted in
  -- Redis, unless the configuration turns them off.
  pub run-IsSafe : ((s : Bytes) → o.random_secret ≡ some s → s ≢ []) → All IsSafe (run net cfg o).0
  run-IsSafe random =
      let wired_events = (wired net cfg o).0 in
      let closing : All IsSafe full = (
        tt,
        All-append IsSafe (opened redis ∷ wired_events ++ closed redis ∷ []) (closed mongo ∷ [])
            (tt, All-append IsSafe wired_events (closed redis ∷ []) (wired-IsSafe random) (tt, tt))
            (tt, tt),
      ) in
      elim run_cases [
        | inl e ↦ subst (All IsSafe) (sym e) tt
        | inr (inl e) ↦ subst (All IsSafe) (sym e) (tt, (tt, tt))
        | inr (inr (inl e)) ↦ subst (All IsSafe) (sym e) (tt, (tt, (tt, (tt, tt))))
        | inr (inr (inr e)) ↦ subst (All IsSafe) (sym e) closing
      ]
