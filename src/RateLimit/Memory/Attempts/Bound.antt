-- ===== src/RateLimit/Memory/Attempts/Bound.antt =====
-- How many requests of one key, among others, a rule lets through.
use jsm.Common.{
  ℕ, ◌+◌, ◌*◌, ◌≤◌, ◌<◌, ◌≡◌, refl, sym, ap, ◌⊎◌, inl, inr, none, List, [], ◌∷◌, ◌++◌, arith, All,
  Bytes, Without,
}
use mathlib.Core.Path.{subst}
use jsm.RateLimit.{Key, Rule, Policy, bucket, rules_of, second, truncate, policy_key}
use jsm.RateLimit.Bucket.{bucket-within, bucket_iff}
use jsm.RateLimit.Verdict.{charges, charges_of}
use jsm.RateLimit.Memory.{Buckets, memory_store}
use jsm.RateLimit.Memory.View.{IsMap, live}
use jsm.RateLimit.Memory.Quota.{Call, Ordered, InWindow, grants-eq-min}
use jsm.RateLimit.Memory.Attempts.{
  Attempt, Among, calls_at, charges_in, all_calls, allowed_among, allowed_among-le-grants,
}

Among-append : {A : Type 0} (a : A) (xs ys : List A) → Among a xs ⊎ Among a ys → Among a (xs ++ ys)
Among-append a [] ys (inl h) = absurd h
Among-append a [] ys (inr h) = h
Among-append a (x ∷ xs) ys (inl (inl e)) = inl e
Among-append a (x ∷ xs) ys (inl (inr h)) = inr (Among-append a xs ys (inl h))
Among-append a (x ∷ xs) ys (inr h) = inr (Among-append a xs ys (inr h))

All-Among : {A : Type 0} (P : A → Type 0) (a : A) (xs : List A) → All P xs → Among a xs → P a
All-Among P a [] h i = absurd i
All-Among P a (x ∷ xs) (p, h) (inl e) = subst P (sym e) p
All-Among P a (x ∷ xs) (p, h) (inr i) = All-Among P a xs h i

Ordered-le : (u t : ℕ) (cs : List Call) → u ≤ t → Ordered t cs → Ordered u cs
Ordered-le u t [] le o = tt
Ordered-le u t (c ∷ cs) le (o, os) = (omega (arith, le, o), os)

calls_at-Ordered :
    (u t : ℕ) (cs : List (Bytes × Rule)) (ds : List Call)
    → u ≤ t
    → Ordered t ds
    → Ordered u (calls_at t cs ++ ds)
calls_at-Ordered u t [] ds le o = Ordered-le u t ds le o
calls_at-Ordered u t ((name, r) ∷ cs) ds le o = (le, calls_at-Ordered t t cs ds (omega arith) o)

InWindow-append :
    (name : Bytes) (start window : ℕ) (cs ds : List Call)
    → InWindow name start window cs
    → InWindow name start window ds
    → InWindow name start window (cs ++ ds)
InWindow-append name start window [] ds h h' = h'
InWindow-append name start window (c ∷ cs) ds (w, h) h' =
    (w, InWindow-append name start window cs ds h h')

calls_at-append :
    (t : ℕ) (cs ds : List (Bytes × Rule)) → calls_at t (cs ++ ds) ≡ calls_at t cs ++ calls_at t ds
calls_at-append t [] ds = refl
calls_at-append t ((name, r) ∷ cs) ds =
    ap (λ r'. record { at = t; name = name; window = r.window } ∷ r') (calls_at-append t cs ds)

-- The clock does not run backwards, from `t` on.
abbrev pub Later : ℕ → List Attempt → Type 0
Later t [] = Unit
Later t (a ∷ more) = (t ≤ a.at) × Later a.at more

module _ (sum256 : Bytes → Bytes) (policy : Policy) where
  -- Windows are whole seconds, and a bucket's name can be read back.
  abbrev pub IsPlain : Key → Type 0
  IsPlain k =
      Without b':' k.scope
      × Without b':' k.kind
      × All (λ r. (n : ℕ) × (r.window ≡ n * second)) (rules_of policy (policy_key k.scope k.kind))

  charges_of-Among :
      (t : ℕ) (k : Key) (r : Rule) (rs : List Rule)
      → Among r rs
      → Among (bucket sum256 t k r, r) (charges_of sum256 t policy (memory_store t) k rs)
  charges_of-Among t k r [] h = absurd h
  charges_of-Among t k r (s ∷ rs) (inl e) = inl (ap (λ x. (bucket sum256 t k x, x)) e)
  charges_of-Among t k r (s ∷ rs) (inr h) = inr (charges_of-Among t k r rs h)

  charges-Among :
      (t : ℕ) (k : Key) (r : Rule) (keys : List Key)
      → Among r (rules_of policy (policy_key k.scope k.kind))
      → Among k keys
      → Among (bucket sum256 t k r, r) (charges sum256 t policy (memory_store t) keys)
  charges-Among t k r [] h i = absurd i
  charges-Among t k r (j ∷ keys) h (inl e) =
      Among-append (bucket sum256 t k r, r)
        (charges_of sum256 t policy (memory_store t) j
          (rules_of policy (policy_key j.scope j.kind)))
        (charges sum256 t policy (memory_store t) keys)
        (inl (
          subst
            (λ x.
              Among (bucket sum256 t k r, r)
                (charges_of sum256 t policy (memory_store t) x
                  (rules_of policy (policy_key x.scope x.kind))))
            e (charges_of-Among t k r (rules_of policy (policy_key k.scope k.kind)) h)))
  charges-Among t k r (j ∷ keys) h (inr i) =
      Among-append (bucket sum256 t k r, r)
        (charges_of sum256 t policy (memory_store t) j
          (rules_of policy (policy_key j.scope j.kind)))
        (charges sum256 t policy (memory_store t) keys) (inr (charges-Among t k r keys h i))

  module _ (k : Key) (r : Rule) (start : ℕ) (aligned : truncate start r.window ≡ start)
      (positive : 0 < r.window) (plain : IsPlain k)
      (ruled : Among r (rules_of policy (policy_key k.scope k.kind))) where
    abbrev its_bucket : Bytes
    its_bucket = bucket sum256 start k r

    same_window :
        (t : ℕ) (j : Key) (s : Rule)
        → Without b':' j.scope
        → Without b':' j.kind
        → (n : ℕ) × (s.window ≡ n * second)
        → bucket sum256 t j s ≡ its_bucket
        → s.window ≡ r.window
    same_window t j s hs hk (n, e) same_name =
        let (m, f) =
          All-Among (λ s. (n : ℕ) × (s.window ≡ n * second)) r
            (rules_of policy (policy_key k.scope k.kind)) plain.2 ruled in
        let shown = (bucket_iff sum256 t start j k s r hs plain.0 hk plain.1).0 same_name in
        omega (arith, e, f, shown.window)

    module _ (t : ℕ) (from : start ≤ t) (lt : t < start + r.window) where
      rules-InWindow :
          (j : Key) (rs : List Rule)
          → Without b':' j.scope
          → Without b':' j.kind
          → All (λ s. (n : ℕ) × (s.window ≡ n * second)) rs
          → InWindow its_bucket start r.window
              (calls_at t (charges_of sum256 t policy (memory_store t) j rs))
      rules-InWindow j [] hs hk h = tt
      rules-InWindow j (s ∷ rs) hs hk (whole, h) =
          ((λ e. (from, lt, same_window t j s hs hk whole e)), rules-InWindow j rs hs hk h)

      keys-InWindow :
          (keys : List Key)
          → All IsPlain keys
          → InWindow its_bucket start r.window
              (calls_at t (charges sum256 t policy (memory_store t) keys))
      keys-InWindow [] h = tt
      keys-InWindow (j ∷ keys) ((hs, hk, whole), h) =
          let rs = rules_of policy (policy_key j.scope j.kind) in
          rw
            (calls_at-append t (charges_of sum256 t policy (memory_store t) j rs)
              (charges sum256 t policy (memory_store t) keys))
            (InWindow-append its_bucket start r.window
              (calls_at t (charges_of sum256 t policy (memory_store t) j rs))
              (calls_at t (charges sum256 t policy (memory_store t) keys))
              (rules-InWindow j rs hs hk whole) (keys-InWindow keys h))

    -- A request of the window that charges the key, and perhaps others.
    abbrev pub IsAttempt : Attempt → Type 0
    IsAttempt a = (start ≤ a.at) × (a.at < start + r.window) × Among k a.keys × All IsPlain a.keys

    attempts-charged :
        (attempts : List Attempt)
        → All IsAttempt attempts
        → All (λ a. Among (its_bucket, r) (charges_in sum256 policy a)) attempts
    attempts-charged [] h = tt
    attempts-charged (a ∷ more) ((from, lt, charged, plain_keys), h) = (
      subst (λ n. Among (n, r) (charges_in sum256 policy a))
          (bucket-within sum256 k r start a.at positive aligned from lt)
          (charges-Among a.at k r a.keys ruled charged),
      attempts-charged more h,
    )

    attempts-Ordered :
        (t : ℕ) (attempts : List Attempt)
        → Later t attempts
        → Ordered t (all_calls sum256 policy attempts)
    attempts-Ordered t [] o = tt
    attempts-Ordered t (a ∷ more) (le, o) =
        calls_at-Ordered t a.at (charges_in sum256 policy a) (all_calls sum256 policy more) le
          (attempts-Ordered a.at more o)

    attempts-InWindow :
        (attempts : List Attempt)
        → All IsAttempt attempts
        → InWindow its_bucket start r.window (all_calls sum256 policy attempts)
    attempts-InWindow [] h = tt
    attempts-InWindow (a ∷ more) ((from, lt, charged, plain_keys), h) =
        InWindow-append its_bucket start r.window (calls_at a.at (charges_in sum256 policy a))
          (all_calls sum256 policy more) (keys-InWindow a.at from lt a.keys plain_keys)
          (attempts-InWindow more h)

    -- In one window of any rule of a key, the limiter over fresh counters in memory allows at most
    -- `limit` of the requests that charge the key, whatever other keys they charge, where all
    -- windows are whole seconds.
    pub allowed_among-bound :
        (attempts : List Attempt) (bs : Buckets)
        → IsMap bs
        → live start its_bucket bs ≡ none
        → Later start attempts
        → All IsAttempt attempts
        → allowed_among sum256 policy attempts bs ≤ r.limit
    allowed_among-bound attempts bs m fresh o h =
        let calls = all_calls sum256 policy attempts in
        let granted_at_most =
          allowed_among-le-grants sum256 policy its_bucket r attempts bs
            (attempts-charged attempts h) in
        let exactly =
          grants-eq-min its_bucket start r.window r.limit calls bs m fresh
            (attempts-Ordered start attempts o) (attempts-InWindow attempts h) in
        omega (arith, granted_at_most, exactly)
