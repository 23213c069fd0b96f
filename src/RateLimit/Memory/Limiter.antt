-- ===== src/RateLimit/Memory/Limiter.antt =====
-- The limiter over the counters in memory: how many requests of one key a rule lets through.
use jsm.Common.{
  ℕ, ◌+◌, ◌≤◌, ◌<◌, min, ◌≡◌, refl, ap, ◌∙◌, none, List, [], ◌∷◌, map, arith, leb, if◌then◌else◌,
  length, All, Bytes, same_refl,
}
use jsm.RateLimit.Bucket.{bucket-within}
use jsm.RateLimit.{
  Key, Rule, Policy, rules_of, policy_key, bucket, truncate, allow, charge_rules, charge_keys,
}
use jsm.RateLimit.Memory.{Buckets, incr, memory_store}
use jsm.RateLimit.Memory.View.{IsMap, live}
use jsm.RateLimit.Memory.Quota.{Call, Ordered, calls_on, grants, InWindow, grants-eq-min}

-- The clock does not run backwards, from `t` on.
abbrev pub Ascending : ℕ → List ℕ → Type 0
Ascending t [] = Unit
Ascending t (u ∷ us) = (t ≤ u) × Ascending u us

module _ (sum256 : Bytes → Bytes) (policy : Policy) (k : Key) (r : Rule)
    (one : rules_of policy (policy_key k.scope k.kind) ≡ r ∷ []) where
  -- How many of the requests at these instants are allowed.
  unfoldable pub allowed_at : List ℕ → Buckets → ℕ
  allowed_at [] bs = 0
  allowed_at (t ∷ ts) bs =
      let (d, failure, bs') = allow sum256 t policy (memory_store t) (k ∷ []) bs in
      (if d.allowed then 1 else 0) + allowed_at ts bs'

  abbrev call : ℕ → Call
  call t = record { at = t; name = bucket sum256 t k r; window = r.window }

  -- One request is one count on its bucket.
  allow_lem :
      (t : ℕ) (bs : Buckets)
      → ((allow sum256 t policy (memory_store t) (k ∷ []) bs).0.allowed
          ≡ leb (incr t bs (bucket sum256 t k r) r.window).0.0 r.limit)
        × ((allow sum256 t policy (memory_store t) (k ∷ []) bs).2
            ≡ (incr t bs (bucket sum256 t k r) r.window).1)
  unfolding allow charge_keys charge_rules
  allow_lem t bs = ground (arith, one)

  module _ (start : ℕ) (aligned : truncate start r.window ≡ start) (positive : 0 < r.window) where
    calls-InWindow :
        (ts : List ℕ)
        → All (λ t. (start ≤ t) × (t < start + r.window)) ts
        → InWindow (bucket sum256 start k r) start r.window (map call ts)
    calls-InWindow [] h = tt
    calls-InWindow (t ∷ ts) ((le, lt), h) = ((λ e. (le, lt, refl)), calls-InWindow ts h)

    calls-Ordered : (from : ℕ) (ts : List ℕ) → Ascending from ts → Ordered from (map call ts)
    calls-Ordered from [] h = tt
    calls-Ordered from (t ∷ ts) (le, h) = (le, calls-Ordered t ts h)

    calls_on-All :
        (ts : List ℕ)
        → All (λ t. (start ≤ t) × (t < start + r.window)) ts
        → calls_on (bucket sum256 start k r) (map call ts) ≡ length ts
    calls_on-All [] h = refl
    calls_on-All (t ∷ ts) ((le, lt), h) = ground (
      arith,
      calls_on-All ts h,
      bucket-within sum256 k r start t positive aligned le lt,
      same_refl (bucket sum256 start k r),
    )

    allowed_at-eq-grants :
        (ts : List ℕ) (bs : Buckets)
        → All (λ t. (start ≤ t) × (t < start + r.window)) ts
        → allowed_at ts bs ≡ grants (bucket sum256 start k r) r.limit (map call ts) bs
    unfolding allowed_at grants
    allowed_at-eq-grants [] bs h = refl
    allowed_at-eq-grants (t ∷ ts) bs ((le, lt), h) = ground (
      arith,
      allow_lem t bs,
      allowed_at-eq-grants ts (incr t bs (bucket sum256 t k r) r.window).1 h,
      bucket-within sum256 k r start t positive aligned le lt,
      same_refl (bucket sum256 start k r),
    )

    -- In one window of a rule that is the only one of its key's kind, the limiter over fresh
    -- counters in memory allows exactly the first `limit` requests of the key.
    pub allowed_at-eq-min :
        (ts : List ℕ) (bs : Buckets)
        → IsMap bs
        → live start (bucket sum256 start k r) bs ≡ none
        → Ascending start ts
        → All (λ t. (start ≤ t) × (t < start + r.window)) ts
        → allowed_at ts bs ≡ min r.limit (length ts)
    allowed_at-eq-min ts bs m fresh o h =
        allowed_at-eq-grants ts bs h
        ∙ grants-eq-min (bucket sum256 start k r) start r.window r.limit (map call ts) bs m fresh
            (calls-Ordered start ts o) (calls-InWindow ts h)
        ∙ ap (min r.limit) (calls_on-All ts h)
