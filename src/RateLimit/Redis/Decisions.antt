-- ===== src/RateLimit/Redis/Decisions.antt =====
-- The limiter over the counters in Redis against the one over those in memory.
use jsm.Common.{
  ℕ, ◌*◌, ◌<◌, ◌≡◌, refl, sym, ap, ◌∙◌, inl, inr, true, Option, none, List, [], ◌∷◌, arith,
  Option-cases, All, Bytes,
}
use mathlib.Core.Path.{subst}
use jsm.Metrics.{ok, Result-cases}
use jsm.RateLimit.{Key, Rule, Policy, Decision, Store, allow, bucket, rules_of, policy_key}
use jsm.RateLimit.Verdict.{
  charges_of, charges, join, judge, run_counters, run_counters_ok, allow-judge,
}
use jsm.RateLimit.Memory.{Buckets, incr, memory_store}
use jsm.RateLimit.Memory.View.{IsMap, incr-IsMap}
use jsm.RateLimit.Redis
use jsm.RateLimit.Redis.{millisecond, redis_store}
use jsm.RateLimit.Redis.Script.{Commands, connection}
use jsm.RateLimit.Redis.Counters.{Counter, IsCommands}
use jsm.RateLimit.Redis.Agreement.{Agree, incr-Agree}

-- Windows of whole milliseconds.
abbrev pub IsWhole : Bytes × Rule → Type 0
IsWhole (name, r) = (n : ℕ) × (0 < n) × (r.window ≡ n * millisecond)

-- What is charged, and how counts are judged, does not depend on the store.
module _ (sum256 : Bytes → Bytes) (t : ℕ) (policy : Policy) (a b : Store) where
  charges_of_any :
      (k : Key) (rs : List Rule)
      → charges_of sum256 t policy a k rs ≡ charges_of sum256 t policy b k rs
  charges_of_any k [] = refl
  charges_of_any k (r ∷ rs) = ap (λ x. (bucket sum256 t k r, r) ∷ x) (charges_of_any k rs)

  charges_any : (keys : List Key) → charges sum256 t policy a keys ≡ charges sum256 t policy b keys
  charges_any [] = refl
  charges_any (k ∷ keys) =
      cc (charges_any keys, charges_of_any k (rules_of policy (policy_key k.scope k.kind)))

  join_any :
      (d : Decision) (seen : List (Rule × ℕ × ℕ))
      → join sum256 t policy a d seen ≡ join sum256 t policy b d seen
  join_any d [] = refl
  join_any d ((r, count, ttl) ∷ seen) = ground (arith, join_any d seen)

module _ (sum256 : Bytes → Bytes) (policy : Policy) (c : Commands) (now : ℕ)
    (view : c.State → Bytes → Option Counter) (laws : IsCommands c now view) where
  abbrev here : Store
  here = memory_store (now * millisecond)

  abbrev there : Store
  there = redis_store (connection c)

  window-Agree :
      (st : c.State) (bs : Buckets) (key : Bytes) (w n : ℕ) {answer : ℕ × ℕ}
      → IsMap bs
      → 0 < n
      → w ≡ n * millisecond
      → Agree c now view laws st bs
      → (Redis.incr (connection c) st key w).0 ≡ ok answer
      → (answer ≡ (incr (now * millisecond) bs key w).0)
        × Agree c now view laws
            (Redis.incr (connection c) st key w).1
            (incr (now * millisecond) bs key w).1
  window-Agree st bs key w n {answer = answer} m positive whole agree =
      subst
        (λ x.
          (Redis.incr (connection c) st key x).0 ≡ ok answer
          → (answer ≡ (incr (now * millisecond) bs key x).0)
            × Agree c now view laws (Redis.incr (connection c) st key x).1
                (incr (now * millisecond) bs key x).1)
        (sym whole) (incr-Agree c now view laws st bs key n m positive agree {answer = answer})

  run_counters-Agree :
      (cs : List (Bytes × Rule)) (st : c.State) (bs : Buckets)
      → IsMap bs
      → Agree c now view laws st bs
      → All IsWhole cs
      → (run_counters sum256 (now * millisecond) policy there cs st).1 ≡ none
      → ((run_counters sum256 (now * millisecond) policy there cs st).0
          ≡ (run_counters sum256 (now * millisecond) policy here cs bs).0)
        × ((run_counters sum256 (now * millisecond) policy here cs bs).1 ≡ none)
        × Agree c now view laws
            (run_counters sum256 (now * millisecond) policy there cs st).2
            (run_counters sum256 (now * millisecond) policy here cs bs).2
  run_counters-Agree [] st bs m agree h e = unfold run_counters in (refl, refl, agree)
  run_counters-Agree ((name, r) ∷ cs) st bs m agree ((n, positive, whole), h) e =
      elim (Result-cases (Redis.incr (connection c) st name r.window).0) [
        | inr (x, f) ↦ absurd (unfold run_counters in ground (arith, e, f))
        | inl (answer, f) ↦
            let (same_answer, agree') =
              window-Agree st bs name r.window n {answer = answer} m positive whole agree f in
            let st' = (Redis.incr (connection c) st name r.window).1 in
            let bs' = (incr (now * millisecond) bs name r.window).1 in
            let left =
              run_counters_ok sum256 (now * millisecond) policy there name r cs st answer.0 answer.1
                f in
            let right =
              run_counters_ok sum256 (now * millisecond) policy here name r cs bs answer.0 answer.1
                (ap (λ a. ok a) (sym same_answer)) in
            let (seen, fine, last) =
              run_counters-Agree cs st' bs' (incr-IsMap (now * millisecond) bs name r.window m)
                agree' h (ap (λ x. x.1) (sym left) ∙ e) in
            (
              ap (λ x. x.0) left
                  ∙ ap (λ x. (r, answer.0, answer.1) ∷ x) seen
                  ∙ ap (λ x. x.0) (sym right),
              ap (λ x. x.1) right ∙ fine,
              subst
                  (λ x.
                    Agree c now view laws x.2
                      (run_counters sum256 (now * millisecond) policy here ((name, r) ∷ cs) bs).2)
                  (sym left)
                  (subst
                    (λ x.
                      Agree c now view laws
                        (run_counters sum256 (now * millisecond) policy there cs st').2 x.2)
                    (sym right) last),
            )
      ]

  -- Where Redis answers all calls, in windows of whole milliseconds, the limiter over its counters
  -- decides as the one over the counters in memory does, and the stores agree again, for commands
  -- that keep what Redis documents.
  pub allow-Agree :
      (keys : List Key) (st : c.State) (bs : Buckets)
      → IsMap bs
      → Agree c now view laws st bs
      → All IsWhole (charges sum256 (now * millisecond) policy there keys)
      → (allow sum256 (now * millisecond) policy there keys st).1 ≡ none
      → ((allow sum256 (now * millisecond) policy there keys st).0
          ≡ (allow sum256 (now * millisecond) policy here keys bs).0)
        × Agree c now view laws
            (allow sum256 (now * millisecond) policy there keys st).2
            (allow sum256 (now * millisecond) policy here keys bs).2
  allow-Agree keys st bs m agree h e =
      let t = now * millisecond in
      let d : Decision = record { allowed = true; retry_after = 0 } in
      let cs = charges sum256 t policy there keys in
      let left = allow-judge sum256 t policy there keys st in
      let right =
        allow-judge sum256 t policy here keys bs
        ∙ ap (λ x. judge sum256 t policy here d (run_counters sum256 t policy here x bs))
            (sym (charges_any sum256 t policy there here keys)) in
      elim (Option-cases (run_counters sum256 t policy there cs st).1) [
        | inr ((r, x), f) ↦ absurd (ground (arith, left, e, f))
        | inl f ↦
            let (seen, fine, last) = run_counters-Agree cs st bs m agree h f in
            let pl : (allow sum256 t policy there keys st).2
                ≡ (run_counters sum256 t policy there cs st).2 =
              ground (arith, left, f) in
            let pr : (allow sum256 t policy here keys bs).2
                ≡ (run_counters sum256 t policy here cs bs).2 =
              ground (arith, right, fine) in
            (
              ground (
                arith,
                left,
                right,
                f,
                seen,
                fine,
                join_any sum256 t policy there here d (run_counters sum256 t policy there cs st).0,
              ),
              rw (pl, pr) last,
            )
      ]
