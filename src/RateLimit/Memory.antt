-- ===== src/RateLimit/Memory.antt =====
-- backend/internal/rate-limiter/memory.go: counters in process memory. Each operation holds the
-- mutex from its first line to its return, so it is one step on the map of buckets.
pub mod View
pub mod Quota
pub mod Limiter
pub mod Attempts
use jsm.Common.{
  ℕ, ◌+◌, ◌-◌, not, Option, none, some, List, [], ◌∷◌, ltb, if◌then◌else◌, Bytes, same,
}
use jsm.Metrics.{AppError, Result, ok}
use jsm.RateLimit.{Store}

pub record MemoryBucket : Type 0 where
  pub count : ℕ
  pub expires_at : ℕ

-- The map from bucket names to buckets, without repeated names.
abbrev pub Buckets : Type 0
Buckets = List (Bytes × MemoryBucket)

unfoldable pub find : Bytes → Buckets → Option MemoryBucket
find name [] = none
find name ((k, b) ∷ bs) = if same k name then some b else find name bs

unfoldable pub delete : Bytes → Buckets → Buckets
delete name [] = []
delete name ((k, b) ∷ bs) = if same k name then delete name bs else (k, b) ∷ delete name bs

unfoldable pub put : Bytes → MemoryBucket → Buckets → Buckets
put name b bs = (name, b) ∷ delete name bs

unfoldable pub sweep : ℕ → Buckets → Buckets
sweep now [] = []
sweep now ((k, b) ∷ bs) =
    let rest = sweep now bs in if ltb now b.expires_at then (k, b) ∷ rest else rest

-- `if !ok || !bucket.expiresAt.After(now)`: a new bucket, else the one that was found.
abbrev current : ℕ → ℕ → Option MemoryBucket → MemoryBucket
current now window none = record { count = 0; expires_at = now + window }
current now window (some b) =
    if not (ltb now b.expires_at) then record { count = 0; expires_at = now + window } else b

abbrev bump : MemoryBucket → MemoryBucket
bump b = record b { count = b.count + 1 }

unfoldable pub incr : ℕ → Buckets → Bytes → ℕ → (ℕ × ℕ) × Buckets
unfolding sweep find put delete
incr now bs name window =
    let swept = sweep now bs in
    let b = bump (current now window (find name swept)) in
    ((b.count, b.expires_at - now), put name b swept)

unfoldable pub del : Buckets → List Bytes → Buckets
unfolding delete
del bs [] = bs
del bs (name ∷ names) = del (delete name bs) names

-- The store at an instant; it has no way to fail. It shares the limiter's clock.
abbrev pub memory_store : ℕ → Store
memory_store now = record {
  State = Buckets;
  incr = λ bs name window. let (answer, bs') = incr now bs name window in (ok answer, bs');
  del = λ bs names. (none, del bs names);
}
