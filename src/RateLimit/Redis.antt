-- ===== src/RateLimit/Redis.antt =====
-- backend/internal/rate-limiter/redis.go. The client is a parameter: running the script answers a
-- list of replies.
pub mod Script
pub mod Counters
pub mod Agreement
pub mod Decisions
pub mod Resets
use jsm.Common.{ℕ, ◌*◌, ◌/◌, Option, none, some, List, [], ◌∷◌, Bytes}
use jsm.Number.{ℤ, pos, negsuc}
use jsm.Metrics.{AppError, Result, ok, err, wrapped}
use jsm.RateLimit.{Store}

-- A reply is an int64, or of some other type.
pub data Reply : Type 0 where
  int64 : ℤ → Reply
  other_type : Reply

-- `run_script key millis` runs incrScript; the keys of `del` are never empty.
pub record Client : Type 1 where
  pub State : Type 0
  pub run_script : State → Bytes → ℕ → Result (List Reply) × State
  pub del : State → List Bytes → Option AppError × State

abbrev pub millisecond : ℕ
millisecond = 1_000_000

abbrev bad_reply : AppError
bad_reply = AppError.other "rate limiter incr: unexpected reply"

-- A negative time to live falls back to the window.
abbrev pub ttl_of : ℕ → ℤ → ℕ
ttl_of window (pos millis) = millis * millisecond
ttl_of window (negsuc n) = window

-- The count is at least 1 after an INCR of a counter of ours.
abbrev pub count_of : ℤ → ℕ
count_of (pos n) = n
count_of (negsuc n) = 0

unfoldable pub read_replies : ℕ → Result (List Reply) → Result (ℕ × ℕ)
read_replies window (err e) = err (wrapped "rate limiter incr" e)
read_replies window (ok (int64 count ∷ int64 ttl_millis ∷ [])) =
    ok (count_of count, ttl_of window ttl_millis)
read_replies window (ok _) = err bad_reply

module _ (c : Client) where
  open c use {State, run_script}

  unfoldable pub incr : State → Bytes → ℕ → Result (ℕ × ℕ) × State
  unfolding read_replies
  incr st key window =
      let (replies, st') = run_script st key (window / millisecond) in
      (read_replies window replies, st')

  abbrev wrapped_failure : Option AppError → Option AppError
  wrapped_failure none = none
  wrapped_failure (some e) = some (wrapped "rate limiter del" e)

  unfoldable pub del : State → List Bytes → Option AppError × State
  del st [] = (none, st)
  del st (k ∷ keys) = let (failure, st') = c.del st (k ∷ keys) in (wrapped_failure failure, st')

  abbrev pub redis_store : Store
  redis_store = record { State = State; incr = incr; del = del }
