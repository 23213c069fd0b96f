-- ===== src/Run.antt =====
-- run of backend/cmd/api/main.go, with what it calls of redisWrap and mongoWrap: the order in which
-- resources are opened, used and closed. What the outside answers comes in `Outside`; logging and
-- the timeouts are left out.
pub mod Brackets
pub mod Listening
use jsm.Common.{Bool, true, false, Option, none, some, List, [], ◌∷◌, ◌++◌, if◌then◌else◌, Bytes}
use jsm.Metrics.{AppError, Result, ok, err}
use jsm.RateLimit.{Policy, new_limiter, with_policy}
use jsm.RateLimit.ClientIp.{NetIp, parse_trusted_proxies}
use jsm.Session.{SessionManager}
use jsm.Session.Manager.{new_session_manager}
use jsm.Config.{Config, local_only}

pub data Resource : Type 0 where
  mongo redis : Resource

pub data Event : Type 0 where
  opened closed : Resource → Event
  -- The address, the limits in force, whether the counters are in Redis, and the sessions' manager.
  listening : (addr : Bytes) (policy : Policy) (in_redis : Bool) → SessionManager → Event
  shut_down : Event

-- How serving ends: the listener stops, or a signal comes and Shutdown answers.
pub data Ending : Type 0 where
  stopped : Option AppError → Ending
  signalled : Option AppError → Ending

pub record Outside : Type 0 where
  pub connect_mongo : Option AppError
  pub ping_mongo : Option AppError
  pub ensure_indexes : Option AppError
  pub ping_redis : Option AppError
  pub random_secret : Option Bytes
  pub ending : Ending

abbrev pub Trace : Type 0
Trace = List Event × Option AppError

-- A deferred close runs however the body ends; its own error is only logged.
abbrev pub holding : Resource → Trace → Trace
holding r (events, failure) = (opened r ∷ events ++ closed r ∷ [], failure)

-- An opened client whose ping fails is closed before the constructor returns.
abbrev pub half_open : Resource → AppError → Trace
half_open r e = (opened r ∷ closed r ∷ [], some e)

serve_until : Ending → Trace
serve_until (stopped failure) = ([], failure)
serve_until (signalled failure) = (shut_down ∷ [], failure)

abbrev before : Event → Trace → Trace
before event (events, failure) = (event ∷ events, failure)

module _ (net : NetIp) (cfg : Config) (o : Outside) where
  limits : SessionManager → Event
  limits sm =
      if cfg.rate_limit.enabled
      then listening (local_only cfg.http_port) (new_limiter []) true sm
      else listening (local_only cfg.http_port) (new_limiter (with_policy [] ∷ [])) false sm

  -- From the wiring on.
  wired : Trace
  unfolding limits serve_until
  wired = elim (new_session_manager cfg.cookie o.random_secret) [
    | err e ↦ ([], some e)
    | ok sm ↦ elim (parse_trusted_proxies net cfg.rate_limit.trusted_proxies) [
      | err e ↦ ([], some e)
      | ok proxies ↦ before (limits sm) (serve_until o.ending)
    ]
  ]

  with_redis : Trace
  unfolding wired
  with_redis = elim o.ping_redis [ some e ↦ half_open redis e | none ↦ holding redis wired ]

  indexed : Trace
  unfolding with_redis
  indexed = elim o.ensure_indexes [ some e ↦ ([], some e) | none ↦ with_redis ]

  unfoldable pub run : Trace
  unfolding indexed
  run = elim o.connect_mongo [
    | some e ↦ ([], some e)
    | none ↦ elim o.ping_mongo [ some e ↦ half_open mongo e | none ↦ holding mongo indexed ]
  ]
