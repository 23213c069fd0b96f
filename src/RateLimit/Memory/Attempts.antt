-- ===== src/RateLimit/Memory/Attempts.antt =====
-- The limiter over the counters in memory: requests that charge several keys by several rules.
pub mod Bound
use jsm.Common.{
  ℕ, ◌+◌, ◌≤◌, ◌≡◌, refl, ◌⊎◌, inl, inr, true, none, List, [], ◌∷◌, ◌++◌, arith, if◌then◌else◌, All,
  Bytes, same_refl,
}
use jsm.RateLimit.{Key, Rule, Policy, allow, bucket, rules_of, second, truncate, policy_key}
use mathlib.Core.Path.{subst}
use jsm.RateLimit.Bucket.{bucket-within, bucket_iff}
use jsm.RateLimit.Verdict.{charges, run_counters, within, allow-judge, charges_of}
use jsm.RateLimit.Memory.{Buckets, incr, memory_store}
use jsm.RateLimit.Memory.Quota.{Call, grants, Ordered, InWindow}

-- A request that charges its keys at an instant.
pub record Attempt : Type 0 where
  pub at : ℕ
  pub keys : List Key

abbrev pub Among : {A : Type 0} → A → List A → Type 0
Among a [] = ⊥
Among a (b ∷ bs) = (a ≡ b) ⊎ Among a bs

abbrev pub calls_at : ℕ → List (Bytes × Rule) → List Call
calls_at t [] = []
calls_at t ((name, r) ∷ cs) = record { at = t; name = name; window = r.window } ∷ calls_at t cs

abbrev run_calls : List Call → Buckets → Buckets
run_calls [] bs = bs
run_calls (c ∷ cs) bs = run_calls cs (incr c.at bs c.name c.window).1

grants-append :
    (name : Bytes) (limit : ℕ) (cs ds : List Call) (bs : Buckets)
    → grants name limit (cs ++ ds) bs
      ≡ grants name limit cs bs + grants name limit ds (run_calls cs bs)
unfolding grants
grants-append name limit [] ds bs = ground arith
grants-append name limit (c ∷ cs) ds bs =
    ground (arith, grants-append name limit cs ds (incr c.at bs c.name c.window).1)

module _ (sum256 : Bytes → Bytes) (policy : Policy) where
  -- The counters in memory do not fail, and a bucket whose count is within its limit was granted.
  run_counters_lem :
      (t : ℕ) (cs : List (Bytes × Rule)) (bs : Buckets)
      → ((run_counters sum256 t policy (memory_store t) cs bs).1 ≡ none)
        × ((run_counters sum256 t policy (memory_store t) cs bs).2 ≡ run_calls (calls_at t cs) bs)
  unfolding run_counters
  run_counters_lem t [] bs = (refl, refl)
  run_counters_lem t ((name, r) ∷ cs) bs = run_counters_lem t cs (incr t bs name r.window).1

  granted :
      (t : ℕ) (name : Bytes) (r : Rule) (cs : List (Bytes × Rule)) (bs : Buckets)
      → Among (name, r) cs
      → within sum256 t policy
          (memory_store t)
          (run_counters sum256 t policy (memory_store t) cs bs).0
        ≡ true
      → 1 ≤ grants name r.limit (calls_at t cs) bs
  unfolding run_counters grants
  granted t name r [] bs a h = absurd a
  granted t name r ((other, s) ∷ cs) bs (inl e) h = ground (arith, e, h, same_refl name)
  granted t name r ((other, s) ∷ cs) bs (inr a) h =
      ground (arith, h, granted t name r cs (incr t bs other s.window).1 a)

  -- How many of the requests are allowed.
  unfoldable pub allowed_among : List Attempt → Buckets → ℕ
  allowed_among [] bs = 0
  allowed_among (a ∷ more) bs =
      let (d, failure, bs') = allow sum256 a.at policy (memory_store a.at) a.keys bs in
      (if d.allowed then 1 else 0) + allowed_among more bs'

  abbrev pub charges_in : Attempt → List (Bytes × Rule)
  charges_in a = charges sum256 a.at policy (memory_store a.at) a.keys

  abbrev pub all_calls : List Attempt → List Call
  all_calls [] = []
  all_calls (a ∷ more) = calls_at a.at (charges_in a) ++ all_calls more

  allow_lem :
      (a : Attempt) (bs : Buckets)
      → ((allow sum256 a.at policy (memory_store a.at) a.keys bs).0.allowed
          ≡ within sum256 a.at policy
              (memory_store a.at)
              (run_counters sum256 a.at policy (memory_store a.at) (charges_in a) bs).0)
        × ((allow sum256 a.at policy (memory_store a.at) a.keys bs).2
            ≡ run_calls (calls_at a.at (charges_in a)) bs)
  allow_lem a bs =
      let (fine, last) = run_counters_lem a.at (charges_in a) bs in
      ground (arith, allow-judge sum256 a.at policy (memory_store a.at) a.keys bs, fine, last)

  pub allow_fine :
      (a : Attempt) (bs : Buckets)
      → (allow sum256 a.at policy (memory_store a.at) a.keys bs).1 ≡ none
  allow_fine a bs =
      let (fine, last) = run_counters_lem a.at (charges_in a) bs in
      ground (arith, allow-judge sum256 a.at policy (memory_store a.at) a.keys bs, fine)

  pub allowed_among-le-grants :
      (name : Bytes) (r : Rule) (attempts : List Attempt) (bs : Buckets)
      → All (λ a. Among (name, r) (charges_in a)) attempts
      → allowed_among attempts bs ≤ grants name r.limit (all_calls attempts) bs
  unfolding allowed_among
  allowed_among-le-grants name r [] bs h = omega arith
  allowed_among-le-grants name r (a ∷ more) bs (h, hs) =
      let (verdict, last) = allow_lem a bs in
      ground (
        arith,
        verdict,
        last,
        granted a.at name r (charges_in a) bs h,
        grants-append name r.limit (calls_at a.at (charges_in a)) (all_calls more) bs,
        allowed_among-le-grants name r more (run_calls (calls_at a.at (charges_in a)) bs) hs,
      )
