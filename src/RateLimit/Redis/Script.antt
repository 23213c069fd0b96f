-- ===== src/RateLimit/Redis/Script.antt =====
-- incrScript of backend/internal/rate-limiter/redis.go: INCR, PEXPIRE on a new counter, and PTTL.
-- The commands of the server are parameters. One run of the script reads the clock once.
use jsm.Common.{ℕ, Option, none, some, List, [], ◌∷◌, ◌==◌, if◌then◌else◌, Bytes}
use jsm.Number.{ℤ, pos, negsuc}
use jsm.Metrics.{AppError, Result, ok, err}
use jsm.RateLimit.Redis.{Client, Reply, int64}

pub record Commands : Type 1 where
  pub State : Type 0
  pub incr : State → Bytes → Result ℤ × State
  pub pexpire : State → Bytes → ℕ → Option AppError × State
  pub pttl : State → Bytes → Result ℤ
  pub del : State → List Bytes → Option AppError × State

module _ (c : Commands) where
  open c use {State, incr, pexpire, pttl}

  -- `if count == 1`
  unfoldable pub expire_new : Bytes → ℕ → ℤ → State → Option AppError × State
  expire_new key millis (pos n) st = if n == 1 then pexpire st key millis else (none, st)
  expire_new key millis (negsuc n) st = (none, st)

  reply : Bytes → ℤ → Option AppError × State → Result (List Reply) × State
  reply key count (some e, st) = (err e, st)
  reply key count (none, st) = elim (pttl st key) [
    | err e ↦ (err e, st)
    | ok ttl ↦ (ok (int64 count ∷ int64 ttl ∷ []), st)
  ]

  count_and_ask : Bytes → ℕ → Result ℤ × State → Result (List Reply) × State
  unfolding expire_new reply
  count_and_ask key millis (err e, st) = (err e, st)
  count_and_ask key millis (ok count, st) = reply key count (expire_new key millis count st)

  unfoldable pub incr_script : State → Bytes → ℕ → Result (List Reply) × State
  unfolding count_and_ask
  incr_script st key millis = count_and_ask key millis (incr st key)

  -- The connection that the Redis store uses.
  abbrev pub connection : Client
  connection = record { State = State; run_script = incr_script; del = c.del }
