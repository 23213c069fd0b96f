-- ===== src/Run/Brackets.antt =====
-- What is open at each point of a run.
use jsm.Common.{
  ◌≡◌, inl, inr, Bool, true, false, Option, none, some, List, [], ◌∷◌, ◌++◌, arith, if◌then◌else◌,
  append_assoc,
}
use jsm.Metrics.{Result-cases}
use jsm.RateLimit.ClientIp.{NetIp, parse_trusted_proxies}
use jsm.Session.{SessionManager}
use jsm.Session.Manager.{new_session_manager}
use jsm.Config.{Config}
use jsm.Run.{
  Resource, mongo, redis, Event, opened, closed, listening, shut_down, Ending, stopped, signalled,
  Outside, run, limits, serve_until, before, wired, with_redis, indexed,
}

abbrev top_is : Resource → List Resource → Bool
top_is mongo (mongo ∷ open_now) = true
top_is redis (redis ∷ open_now) = true
top_is _ _ = false

abbrev rest : List Resource → List Resource
rest [] = []
rest (r ∷ open_now) = open_now

-- Both stores are open, Redis last.
abbrev both_open : List Resource → Bool
both_open (redis ∷ mongo ∷ []) = true
both_open _ = false

-- The open resources, the last opened first, after an event that is in order.
abbrev pub step : Event → List Resource → Option (List Resource)
step (opened r) open_now = some (r ∷ open_now)
step (closed r) open_now = if top_is r open_now then some (rest open_now) else none
step (listening addr policy in_redis sm) open_now =
    if both_open open_now then some open_now else none
step shut_down open_now = if both_open open_now then some open_now else none

abbrev pub replay : List Event → List Resource → Option (List Resource)
replay [] open_now = some open_now
replay (e ∷ es) open_now = elim (step e open_now) [
  | none ↦ none
  | some open_now' ↦ replay es open_now'
]

module _ (net : NetIp) (cfg : Config) (o : Outside) where
  replay-served :
      (sm : SessionManager) (ending : Ending) (more : List Event)
      → replay ((before (limits net cfg o sm) (serve_until ending)).0 ++ more) (redis ∷ mongo ∷ [])
        ≡ replay more (redis ∷ mongo ∷ [])
  unfolding limits serve_until
  replay-served sm (stopped failure) more = ground arith
  replay-served sm (signalled failure) more = ground arith

  replay-wired :
      (more : List Event)
      → replay ((wired net cfg o).0 ++ more) (redis ∷ mongo ∷ []) ≡ replay more (redis ∷ mongo ∷ [])
  unfolding wired
  replay-wired more = elim (Result-cases (new_session_manager cfg.cookie o.random_secret)) [
    | inr (x, e) ↦ ground arith
    | inl (sm, e) ↦ elim (Result-cases (parse_trusted_proxies net cfg.rate_limit.trusted_proxies)) [
      | inr (x, f) ↦ ground arith
      | inl (proxies, f) ↦ ground (arith, replay-served sm o.ending more)
    ]
  ]

  -- Whatever fails, all that a run has opened is closed when it returns, the last first; and the
  -- server listens, and is shut down, only while both stores are open.
  pub replay-run : replay (run net cfg o).0 [] ≡ some []
  unfolding run indexed with_redis
  replay-run =
      let events = (wired net cfg o).0 in
      ground (
        arith,
        replay-wired (closed redis ∷ closed mongo ∷ []),
        append_assoc events (closed redis ∷ []) (closed mongo ∷ []),
      )
