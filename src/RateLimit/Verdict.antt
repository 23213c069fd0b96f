-- ===== src/RateLimit/Verdict.antt =====
-- What Allow decides, against a plain reading: run the counters in order, then judge all counts.
use jsm.Common.{
  ℕ, max, ◌≡◌, refl, sym, ap, ◌∙◌, inl, inr, Bool, true, false, ◌&&◌, Option, none, some, List, [],
  ◌∷◌, ◌++◌, arith, ltb, leb, if◌then◌else◌, Bytes,
}
use jsm.Metrics.{AppError, ok, err, Result-cases}
use jsm.RateLimit.{
  Key, Rule, Decision, Policy, policy_key, rules_of, Store, bucket, Answer, trip, charge_rules,
  charge_keys, allow,
}

module _ (sum256 : Bytes → Bytes) (now : ℕ) (policy : Policy) (store : Store) where
  open store use {State, incr}

  -- The buckets that a call charges, in order.
  abbrev pub charges_of : Key → List Rule → List (Bytes × Rule)
  charges_of k [] = []
  charges_of k (r ∷ rs) = (bucket sum256 now k r, r) ∷ charges_of k rs

  abbrev pub charges : List Key → List (Bytes × Rule)
  charges [] = []
  charges (k ∷ ks) = charges_of k (rules_of policy (policy_key k.scope k.kind)) ++ charges ks

  -- Increments in order up to the first failure: each rule with its count and time to live.
  abbrev pub Counts : Type 0
  Counts = List (Rule × ℕ × ℕ) × Option (Rule × AppError) × State

  unfoldable pub run_counters : List (Bytes × Rule) → State → Counts
  run_counters [] st = ([], none, st)
  run_counters ((name, r) ∷ cs) st =
      let (result, st') = incr st name r.window in
      elim result [
        | err e ↦ ([], some (r, e), st')
        | ok (count, ttl) ↦
            let (seen, failure, last) = run_counters cs st' in
            ((r, count, ttl) ∷ seen, failure, last)
      ]

  -- All counts within their limits.
  abbrev pub within : List (Rule × ℕ × ℕ) → Bool
  within [] = true
  within ((r, count, ttl) ∷ seen) = leb count r.limit && within seen

  -- The longest time to live among the exceeded rules.
  abbrev pub longest_wait : List (Rule × ℕ × ℕ) → ℕ
  longest_wait [] = 0
  longest_wait ((r, count, ttl) ∷ seen) =
      if ltb r.limit count then max ttl (longest_wait seen) else longest_wait seen

  abbrev pub join : Decision → List (Rule × ℕ × ℕ) → Decision
  join d seen = record {
    allowed = d.allowed && within seen;
    retry_after = max d.retry_after (longest_wait seen);
  }

  -- The answer that the counts call for.
  abbrev pub judge : Decision → Counts → Answer sum256 now policy store
  judge d (seen, none, st) = (join d seen, none, st)
  judge d (seen, some (r, e), st) = (record { allowed = false; retry_after = r.window }, some e, st)

  -- The counts with one more in front.
  abbrev pub cons_count : Rule × ℕ × ℕ → Counts → Counts
  cons_count c (seen, failure, st) = (c ∷ seen, failure, st)

  judge-trip :
      (r : Rule) (count ttl : ℕ) (d : Decision) (c : Counts)
      → judge (trip sum256 now policy store r count ttl d) c
        ≡ judge d (cons_count (r, count, ttl) c)
  judge-trip r count ttl d (seen, none, st) = ground arith
  judge-trip r count ttl d (seen, some (s, e), st) = refl

  module _ (k : Key) (r : Rule) (rs : List Rule) (d : Decision) (st : State) where
    abbrev after : State
    after = (incr st (bucket sum256 now k r) r.window).1

    charge_rules_ok :
        (count ttl : ℕ)
        → (incr st (bucket sum256 now k r) r.window).0 ≡ ok (count, ttl)
        → charge_rules sum256 now policy store k (r ∷ rs) d st
          ≡ charge_rules sum256 now policy store k rs
              (trip sum256 now policy store r count ttl d)
              after
    unfolding charge_rules
    charge_rules_ok count ttl e = rw (e, charge_rules)

  module _ (name : Bytes) (r : Rule) (cs : List (Bytes × Rule)) (st : State) where
    pub run_counters_ok :
        (count ttl : ℕ)
        → (incr st name r.window).0 ≡ ok (count, ttl)
        → run_counters ((name, r) ∷ cs) st
          ≡ cons_count (r, count, ttl) (run_counters cs (incr st name r.window).1)
    unfolding run_counters
    run_counters_ok count ttl e = rw (e, run_counters)

    run_counters_err :
        (x : AppError)
        → (incr st name r.window).0 ≡ err x
        → run_counters ((name, r) ∷ cs) st ≡ ([], some (r, x), (incr st name r.window).1)
    unfolding run_counters
    run_counters_err x e = rw (e, run_counters)

  charge_rules-judge :
      (k : Key) (rs : List Rule) (d : Decision) (st : State)
      → charge_rules sum256 now policy store k rs d st ≡ judge d (run_counters (charges_of k rs) st)
  charge_rules-judge k [] d st = unfold charge_rules run_counters in ground arith
  charge_rules-judge k (r ∷ rs) d st =
      elim (Result-cases (incr st (bucket sum256 now k r) r.window).0) [
        | inl ((count, ttl), e) ↦
            charge_rules_ok k r rs d st count ttl e
            ∙ charge_rules-judge k rs (trip sum256 now policy store r count ttl d)
                (after k r rs d st)
            ∙ judge-trip r count ttl d (run_counters (charges_of k rs) (after k r rs d st))
            ∙ ap (judge d)
                (sym (run_counters_ok (bucket sum256 now k r) r (charges_of k rs) st count ttl e))
        | inr (x, e) ↦ unfold charge_rules run_counters in rw (e, charge_rules, run_counters)
      ]

  -- Counting the first part of the buckets, and then the rest unless a counter has failed.
  abbrev pub then_count : Counts → List (Bytes × Rule) → Counts
  then_count (seen, some e, st) cs = (seen, some e, st)
  then_count (seen, none, st) cs =
      let (seen', failure, st') = run_counters cs st in (seen ++ seen', failure, st')

  then_count-cons :
      (c : Rule × ℕ × ℕ) (x : Counts) (cs : List (Bytes × Rule))
      → then_count (cons_count c x) cs ≡ cons_count c (then_count x cs)
  then_count-cons c (seen, none, st) cs = refl
  then_count-cons c (seen, some e, st) cs = refl

  run_counters-append :
      (cs ds : List (Bytes × Rule)) (st : State)
      → run_counters (cs ++ ds) st ≡ then_count (run_counters cs st) ds
  unfolding run_counters
  run_counters-append [] ds st = refl
  run_counters-append ((name, r) ∷ cs) ds st = elim (Result-cases (incr st name r.window).0) [
    | inl ((count, ttl), e) ↦
        run_counters_ok name r (cs ++ ds) st count ttl e
        ∙ ap (cons_count (r, count, ttl)) (run_counters-append cs ds (incr st name r.window).1)
        ∙ sym (then_count-cons (r, count, ttl) (run_counters cs (incr st name r.window).1) ds)
        ∙ ap (λ x. then_count x ds) (sym (run_counters_ok name r cs st count ttl e))
    | inr (x, e) ↦
        run_counters_err name r (cs ++ ds) st x e
        ∙ ap (λ c. then_count c ds) (sym (run_counters_err name r cs st x e))
  ]

  -- The outer loop's next round, from the answer of the last.
  abbrev go_on : List Key → Answer sum256 now policy store → Answer sum256 now policy store
  go_on ks (d, none, st) = charge_keys sum256 now policy store ks d st
  go_on ks (d, some e, st) = (d, some e, st)

  charge_keys-go_on :
      (k : Key) (ks : List Key) (d : Decision) (st : State)
      → charge_keys sum256 now policy store (k ∷ ks) d st
        ≡ go_on ks (
            charge_rules sum256 now policy store k
              (rules_of policy (policy_key k.scope k.kind))
              d
              st)
  unfolding charge_keys
  charge_keys-go_on k ks d st = ground arith

  join-append :
      (d : Decision) (seen seen' : List (Rule × ℕ × ℕ))
      → join (join d seen) seen' ≡ join d (seen ++ seen')
  join-append d [] seen' = ground arith
  join-append d ((r, count, ttl) ∷ seen) seen' = ground (arith, join-append d seen seen')

  judge-join :
      (d : Decision) (seen : List (Rule × ℕ × ℕ)) (c : Counts)
      → judge (join d seen) c ≡ judge d (seen ++ c.0, c.1, c.2)
  judge-join d seen (seen', none, st) = ap (λ x. (x, none, st)) (join-append d seen seen')
  judge-join d seen (seen', some (r, e), st) = refl

  judge-then_count :
      (ks : List Key) (d : Decision) (c : Counts)
      → ((d' : Decision) (st : State)
          → charge_keys sum256 now policy store ks d' st ≡ judge d' (run_counters (charges ks) st))
      → go_on ks (judge d c) ≡ judge d (then_count c (charges ks))
  judge-then_count ks d (seen, some (r, e), st) ih = refl
  judge-then_count ks d (seen, none, st) ih =
      ih (join d seen) st ∙ judge-join d seen (run_counters (charges ks) st)

  charge_keys-judge :
      (ks : List Key) (d : Decision) (st : State)
      → charge_keys sum256 now policy store ks d st ≡ judge d (run_counters (charges ks) st)
  charge_keys-judge [] d st = unfold charge_keys run_counters in ground arith
  charge_keys-judge (k ∷ ks) d st =
      let rs = rules_of policy (policy_key k.scope k.kind) in
      charge_keys-go_on k ks d st
      ∙ ap (go_on ks) (charge_rules-judge k rs d st)
      ∙ judge-then_count ks d (run_counters (charges_of k rs) st) (charge_keys-judge ks)
      ∙ ap (judge d) (sym (run_counters-append (charges_of k rs) (charges ks) st))

  -- Allow answers what the counters of all buckets of all keys call for, in order: without a
  -- failure, allowed exactly if every count is within its limit, with the longest wait among the
  -- exceeded rules; at the first failure of the store, a refusal for that rule's window, with the
  -- error.
  pub allow-judge :
      (keys : List Key) (st : State)
      → allow sum256 now policy store keys st
        ≡ judge (record { allowed = true; retry_after = 0 }) (run_counters (charges keys) st)
  unfolding allow
  allow-judge keys st = charge_keys-judge keys (record { allowed = true; retry_after = 0 }) st
