-- ===== src/RateLimit/Redis/Resets.antt =====
-- Reset over the counters in Redis against Reset over those in memory.
use jsm.Common.{
  ℕ, ◌*◌, ◌≡◌, refl, sym, ap, ◌∙◌, inl, inr, Bool, ◌||◌, Option, none, List, [], ◌∷◌, ◌++◌, map,
  arith, if◌then◌else◌, Bool-cases, any, Bytes, same,
}
use jsm.RateLimit.{del_names, Key, Policy, Store, bucket, bucket_names, rules_of, policy_key, reset}
use jsm.RateLimit.Memory.{Buckets, memory_store}
use jsm.RateLimit.Memory
use jsm.RateLimit.Memory.View.{live, live-del}
use jsm.RateLimit.Redis
use jsm.RateLimit.Redis.{millisecond, redis_store}
use jsm.RateLimit.Redis.Script.{Commands, connection}
use jsm.RateLimit.Redis.Counters.{Counter, IsCommands}
use jsm.RateLimit.Redis.Agreement.{Agree}

bucket_names_any :
    (sum256 : Bytes → Bytes) (t : ℕ) (policy : Policy) (there here : Store) (keys : List Key)
    → bucket_names sum256 t policy there keys ≡ bucket_names sum256 t policy here keys
unfolding bucket_names
bucket_names_any sum256 t policy there here [] = refl
bucket_names_any sum256 t policy there here (k ∷ ks) =
    ap (λ x. map (bucket sum256 t k) (rules_of policy (policy_key k.scope k.kind)) ++ x)
      (bucket_names_any sum256 t policy there here ks)

any-append :
    {A : Type 0} (p : A → Bool) (xs ys : List A) → any p (xs ++ ys) ≡ (any p xs || any p ys)
any-append p [] ys = refl
any-append p (x ∷ xs) ys = ground (arith, any-append p xs ys)

any-map :
    {A B : Type 0} (p : B → Bool) (f : A → B) (xs : List A)
    → any p (map f xs) ≡ any (λ x. p (f x)) xs
any-map p f [] = refl
any-map p f (x ∷ xs) = rw (any-map p f xs) refl

any_or : {a a' b b' : Bool} → a ≡ a' → b ≡ b' → (a || b) ≡ (a' || b')
any_or e f = rw (e, f) refl

module _ (c : Commands) (now : ℕ) (view : c.State → Bytes → Option Counter)
    (laws : IsCommands c now view) where
  del-Agree :
      (st : c.State) (bs : Buckets) (names : List Bytes)
      → Agree c now view laws st bs
      → (Redis.del (connection c) st names).0 ≡ none
      → Agree c now view laws (Redis.del (connection c) st names).1 (Memory.del bs names)
  unfolding Redis.del
  del-Agree st bs [] agree e j = unfold Memory.del in agree j
  del-Agree st bs (k ∷ ks) agree e j =
      let names = k ∷ ks in
      let fine : (c.del st names).0 ≡ none = ground (arith, e) in
      let gone = laws.del_law st names fine j in
      elim (Bool-cases (any (λ x. same x j) names)) [
        | inl t ↦ rw (gone, live-del (now * millisecond) j names bs, t) tt
        | inr f ↦ rw (gone, live-del (now * millisecond) j names bs, f) (agree j)
      ]

  del_view :
      (st : c.State) (names : List Bytes)
      → (Redis.del (connection c) st names).0 ≡ none
      → (j : Bytes)
      → view (Redis.del (connection c) st names).1 j
        ≡ (if any (λ x. same x j) names then none else view st j)
  unfolding Redis.del
  del_view st [] e j = refl
  del_view st (k ∷ ks) e j = laws.del_law st (k ∷ ks) (ground (arith, e)) j

  module _ (sum256 : Bytes → Bytes) (policy : Policy) where
    abbrev there : Store
    there = redis_store (connection c)

    abbrev here : Store
    here = memory_store (now * millisecond)

    del_names-there :
        (names : List Bytes) (st : c.State)
        → del_names sum256 (now * millisecond) policy there names st
          ≡ Redis.del (connection c) st names
    unfolding del_names Redis.del
    del_names-there [] st = refl
    del_names-there (n ∷ names) st = refl

    del_names-here :
        (names : List Bytes) (bs : Buckets)
        → del_names sum256 (now * millisecond) policy here names bs ≡ (none, Memory.del bs names)
    unfolding del_names Memory.del
    del_names-here [] bs = refl
    del_names-here (n ∷ names) bs = refl

    -- The name is that of a key's current bucket for one of the rules on the key's scope and kind.
    abbrev pub charged : List Key → Bytes → Bool
    charged keys j =
        any
          (λ k.
            any (λ r. same (bucket sum256 (now * millisecond) k r) j)
              (rules_of policy (policy_key k.scope k.kind)))
          keys

    charged-bucket_names :
        (keys : List Key) (j : Bytes)
        → any (λ x. same x j) (bucket_names sum256 (now * millisecond) policy there keys)
          ≡ charged keys j
    unfolding bucket_names
    charged-bucket_names [] j = refl
    charged-bucket_names (k ∷ ks) j =
        any-append (λ x. same x j)
          (map (bucket sum256 (now * millisecond) k) (rules_of policy (policy_key k.scope k.kind)))
          (bucket_names sum256 (now * millisecond) policy there ks)
        ∙ any_or
            (any-map (λ x. same x j) (bucket sum256 (now * millisecond) k)
              (rules_of policy (policy_key k.scope k.kind)))
            (charged-bucket_names ks j)

    -- Where Redis deletes what it is asked to, a Reset over its counters and one over those in
    -- memory remove the current counter of every rule on each of the keys, and no other, and leave
    -- stores that agree, if they did; the one in memory does not fail.
    pub reset-Agree :
        (keys : List Key) (st : c.State) (bs : Buckets)
        → Agree c now view laws st bs
        → (reset sum256 (now * millisecond) policy there keys st).0 ≡ none
        → ((reset sum256 (now * millisecond) policy here keys bs).0 ≡ none)
          × Agree c now view laws
              (reset sum256 (now * millisecond) policy there keys st).1
              (reset sum256 (now * millisecond) policy here keys bs).1
          × ((j : Bytes)
              → (view (reset sum256 (now * millisecond) policy there keys st).1 j
                  ≡ (if charged keys j then none else view st j))
                × (live
                      (now * millisecond)
                      j
                      (reset sum256 (now * millisecond) policy here keys bs).1
                    ≡ (if charged keys j then none else live (now * millisecond) j bs)))
    unfolding reset
    reset-Agree keys st bs agree e =
        let names = bucket_names sum256 (now * millisecond) policy there keys in
        let fine = ap (λ x. x.0) (sym (del_names-there names st)) ∙ e in
        rw
          (
            del_names-there names st,
            bucket_names_any sum256 (now * millisecond) policy here there keys,
            del_names-here names bs,
          )
          (
            refl,
            del-Agree st bs names agree fine,
            λ j. (
              del_view st names fine j
                  ∙ ap (λ b. if b then none else view st j) (charged-bucket_names keys j),
              live-del (now * millisecond) j names bs
                  ∙ ap (λ b. if b then none else live (now * millisecond) j bs)
                      (charged-bucket_names keys j),
            ),
          )
