-- ===== src/RateLimit/Redis/Agreement.antt =====
-- The script over Redis's commands against Incr in memory.
use jsm.Common.{
  ℕ, ◌+◌, ◌*◌, ◌/◌, ◌<◌, ◌≡◌, sym, ap, ◌∙◌, inl, inr, Option, none, some, List, [], ◌∷◌, arith,
  ◌==◌, if◌then◌else◌, Bool-cases, Option-cases, Bytes, same, same_iff, same_refl,
}
use jsm.Number.{ℤ, pos}
use jsm.Metrics.{ok, Result-cases}
use jsm.RateLimit.Redis
use jsm.RateLimit.Redis.{Client, Reply, int64, millisecond, read_replies}
use jsm.RateLimit.Redis.Script.{Commands, incr_script, connection, expire_new}
use jsm.RateLimit.Memory.{MemoryBucket, Buckets, incr}
use jsm.RateLimit.Memory.View.{IsMap, live, counted, live-incr, incr_count, incr_ttl}
use jsm.RateLimit.Redis.Counters.{
  Counter, raised, IsCommands, Agrees, scripted, scripted-Agrees, Agrees-answer, Agrees-alive,
  scripted-count,
}

module _ (c : Commands) (now : ℕ) (view : c.State → Bytes → Option Counter)
    (laws : IsCommands c now view) where
  script_ok :
      (st : c.State) (key : Bytes) (millis : ℕ) {replies : List Reply}
      → (incr_script c st key millis).0 ≡ ok replies
      → (n ttl : ℤ) × ((c.incr st key).0 ≡ ok n)
        × ((expire_new c key millis n (c.incr st key).1).0 ≡ none)
        × (c.pttl (expire_new c key millis n (c.incr st key).1).1 key ≡ ok ttl)
        × (incr_script c st key millis
            ≡ (ok (int64 n ∷ int64 ttl ∷ []), (expire_new c key millis n (c.incr st key).1).1))
  unfolding incr_script
  script_ok st key millis e = elim (Result-cases (c.incr st key).0) [
    | inr (x, f) ↦ absurd (ground arith)
    | inl (n, f) ↦ elim (Option-cases (expire_new c key millis n (c.incr st key).1).0) [
      | inr (x, g) ↦ absurd (ground arith)
      | inl g ↦ elim (Result-cases (c.pttl (expire_new c key millis n (c.incr st key).1).1 key)) [
        | inr (x, k) ↦ absurd (ground arith)
        | inl (ttl, k) ↦ (n, ttl, f, g, k, ground arith)
      ]
    ]
  ]

  view-script :
      (st : c.State) (key : Bytes) (millis : ℕ) (n : ℤ) (j : Bytes)
      → 0 < millis
      → (c.incr st key).0 ≡ ok n
      → (expire_new c key millis n (c.incr st key).1).0 ≡ none
      → view (expire_new c key millis n (c.incr st key).1).1 j
        ≡ (if same key j then scripted (now + millis) (view st key) else view st j)
  unfolding expire_new
  view-script st key millis n j h f g =
      let (count, views) = laws.incr_law st key f in
      elim (Bool-cases ((raised (view st key)).count == 1)) [
        | inr q ↦ ground (arith, count, q, views j)
        | inl q ↦
            let asked : (c.pexpire (c.incr st key).1 key millis).0 ≡ none =
              ground (arith, count, q, g) in
            ground (
              arith,
              count,
              q,
              views j,
              laws.pexpire_law (c.incr st key).1 key millis h asked j,
              same_iff key j,
            )
      ]

  -- All counters agree.
  abbrev pub Agree : c.State → Buckets → Type 0
  Agree st bs = (j : Bytes) → Agrees now (view st j) (live (now * millisecond) j bs)

  incr_lem :
      (st : c.State) (key : Bytes) (millis : ℕ)
      → Redis.incr (connection c) st key (millis * millisecond) ≡ (
        read_replies (millis * millisecond) (incr_script c st key millis).0,
        (incr_script c st key millis).1,
      )
  unfolding Redis.incr
  incr_lem st key millis =
      let whole : (millis * millisecond) / millisecond ≡ millis = omega arith in
      ap
        (λ x. (
          read_replies (millis * millisecond) (incr_script c st key x).0,
          (incr_script c st key x).1,
        ))
        whole

  module _ (st : c.State) (bs : Buckets) (key : Bytes) (millis : ℕ) (m : IsMap bs) (h : 0 < millis)
      (agree : Agree st bs) where
    abbrev bucket_after : MemoryBucket
    bucket_after =
        counted (now * millisecond) (millis * millisecond) (live (now * millisecond) key bs)

    abbrev buckets_after : Buckets
    buckets_after = (incr (now * millisecond) bs key (millis * millisecond)).1

    key-Agrees : Agrees now (scripted (now + millis) (view st key)) (some bucket_after)
    key-Agrees =
        scripted-Agrees now millis (view st key) (live (now * millisecond) key bs) h (agree key)

    -- Stores that show what the script leaves agree with the counters in memory.
    shown-Agree :
        (st' : c.State)
        → ((j : Bytes)
            → view st' j
              ≡ (if same key j then scripted (now + millis) (view st key) else view st j))
        → Agree st' buckets_after
    shown-Agree st' shows j =
        let memory =
          live-incr (now * millisecond) (now * millisecond) bs key j (millis * millisecond) m
            (omega arith) in
        elim (Bool-cases (same key j)) [
          | inr q ↦ rw (shows j, memory, q) (agree j)
          | inl q ↦
              rw
                (
                  shows j,
                  memory,
                  q,
                  Agrees-alive now (scripted (now + millis) (view st key)) bucket_after key-Agrees,
                )
                key-Agrees
        ]

    reply_lem :
        (n ttl : ℤ) (st' : c.State)
        → n ≡ pos (raised (view st key)).count
        → view st' key ≡ scripted (now + millis) (view st key)
        → c.pttl st' key ≡ ok ttl
        → read_replies (millis * millisecond) (ok (int64 n ∷ int64 ttl ∷ []))
          ≡ ok (incr (now * millisecond) bs key (millis * millisecond)).0
    unfolding read_replies
    reply_lem n ttl st' count shows asked =
        let (k, t, seen, expiry, counts, wait) =
          Agrees-answer now (scripted (now + millis) (view st key)) bucket_after key-Agrees in
        let left = laws.pttl_law st' key {k = k} asked (shows ∙ seen) expiry in
        let same_count = scripted-count (now + millis) (view st key) k seen in
        ground (
          arith,
          count,
          left,
          same_count,
          counts,
          wait,
          incr_count (now * millisecond) bs key (millis * millisecond) m,
          incr_ttl (now * millisecond) bs key (millis * millisecond) m,
        )

    -- An Incr that Redis answers, in a window of whole milliseconds, answers the count and the
    -- wait that the counters in memory do, and leaves stores that agree, if they did.
    pub incr-Agree :
        {answer : ℕ × ℕ}
        → (Redis.incr (connection c) st key (millis * millisecond)).0 ≡ ok answer
        → (answer ≡ (incr (now * millisecond) bs key (millis * millisecond)).0)
          × Agree (Redis.incr (connection c) st key (millis * millisecond)).1 buckets_after
    incr-Agree {answer = answer} e =
        let step = incr_lem st key millis in
        let answered = ap (λ x. x.0) (sym step) ∙ e in
        elim (Result-cases (incr_script c st key millis).0) [
          | inr (x, f) ↦ absurd (unfold read_replies in ground (arith, f, answered))
          | inl (replies, f) ↦
              let (n, ttl, i, g, asked, whole) = script_ok st key millis f in
              let st' = (expire_new c key millis n (c.incr st key).1).1 in
              let shows = λ (j : Bytes). view-script st key millis n j h i g in
              let shows_key : view st' key ≡ scripted (now + millis) (view st key) =
                ground (arith, shows key, same_refl key) in
              let reply = reply_lem n ttl st' (laws.incr_law st key i).0 shows_key asked in
              (cc (answered, whole, reply), rw (step, whole) (shown-Agree st' shows))
        ]
