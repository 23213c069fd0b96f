-- ===== src/RateLimit/Redis/Counters.antt =====
-- Counters in Redis and in memory, and when two of them agree.
use jsm.Common.{
  ℕ, ◌+◌, ◌-◌, ◌*◌, ◌<◌, ◌≡◌, refl, ap, true, false, Option, none, some, List, arith, ltb, ◌==◌,
  if◌then◌else◌, any, Bytes, same,
}
use jsm.Number.{ℤ, pos}
use jsm.Metrics.{ok}
use jsm.RateLimit.Redis.{millisecond}
use jsm.RateLimit.Redis.Script.{Commands}
use jsm.RateLimit.Memory.{MemoryBucket}
use jsm.RateLimit.Memory.View.{alive, counted}

-- A key that holds a number; `expires_at` is in milliseconds, `none` without an expiry.
pub record Counter : Type 0 where
  pub count : ℕ
  pub expires_at : Option ℕ

abbrev pub raised : Option Counter → Counter
raised none = record { count = 1; expires_at = none }
raised (some c) = record c { count = c.count + 1 }

abbrev pub set_expiry : ℕ → Option Counter → Option Counter
set_expiry t none = none
set_expiry t (some c) = some (record c { expires_at = some t })

-- What Redis documents of the commands at an instant. `view` shows the counters that have not
-- expired by then.
pub record IsCommands (c : Commands) (now : ℕ) (view : c.State → Bytes → Option Counter)
    : Type 0 where
  pub incr_law :
      (st : c.State) (key : Bytes) {n : ℤ}
      → (c.incr st key).0 ≡ ok n
      → (n ≡ pos (raised (view st key)).count)
        × ((j : Bytes)
            → view (c.incr st key).1 j
              ≡ (if same key j then some (raised (view st key)) else view st j))
  pub pexpire_law :
      (st : c.State) (key : Bytes) (millis : ℕ)
      → 0 < millis
      → (c.pexpire st key millis).0 ≡ none
      → (j : Bytes)
      → view (c.pexpire st key millis).1 j
        ≡ (if same key j then set_expiry (now + millis) (view st j) else view st j)
  pub pttl_law :
      (st : c.State) (key : Bytes) {n : ℤ} {k : Counter} {t : ℕ}
      → c.pttl st key ≡ ok n
      → view st key ≡ some k
      → k.expires_at ≡ some t
      → n ≡ pos (t - now)
  pub del_law :
      (st : c.State) (keys : List Bytes)
      → (c.del st keys).0 ≡ none
      → (j : Bytes)
      → view (c.del st keys).1 j ≡ (if any (λ k. same k j) keys then none else view st j)

-- A live counter in Redis and one in memory agree.
abbrev pub Agrees : ℕ → Option Counter → Option MemoryBucket → Type 0
Agrees now none none = Unit
Agrees now (some k) (some b) =
    (0 < k.count)
    × (k.count ≡ b.count)
    × ((t : ℕ) × (now < t) × (k.expires_at ≡ some t) × (b.expires_at ≡ t * millisecond))
Agrees now _ _ = ⊥

-- A counter once the script has run.
abbrev pub scripted : ℕ → Option Counter → Option Counter
scripted expiry o =
    if (raised o).count == 1 then set_expiry expiry (some (raised o)) else some (raised o)

pub scripted-Agrees :
    (now millis : ℕ) (o : Option Counter) (m : Option MemoryBucket)
    → 0 < millis
    → Agrees now o m
    → Agrees now
        (scripted (now + millis) o)
        (some (counted (now * millisecond) (millis * millisecond) m))
scripted-Agrees now millis none none h a =
    (omega arith, refl, (now + millis, omega arith, refl, omega arith))
scripted-Agrees now millis none (some b) h a = absurd a
scripted-Agrees now millis (some k) none h a = absurd a
scripted-Agrees now millis (some k) (some b) h (p, e, (t, l, x, y)) =
    let fresh : ((k.count + 1) == 1) ≡ false = ground (arith, p) in
    let alive_there : ltb (now * millisecond) b.expires_at ≡ true = ground (arith, l, y) in
    rw (fresh, alive_there) (omega arith, ap (λ n. n + 1) e, (t, l, x, y))

pub Agrees-answer :
    (now : ℕ) (o : Option Counter) (b : MemoryBucket)
    → Agrees now o (some b)
    → (k : Counter) × (t : ℕ) × (o ≡ some k)
      × (k.expires_at ≡ some t)
      × (k.count ≡ b.count)
      × ((t - now) * millisecond ≡ b.expires_at - now * millisecond)
Agrees-answer now none b h = absurd h
Agrees-answer now (some k) b (p, e, (t, l, x, y)) = (k, t, refl, x, e, omega (arith, y))

pub Agrees-alive :
    (now : ℕ) (o : Option Counter) (b : MemoryBucket)
    → Agrees now o (some b)
    → alive (now * millisecond) (some b) ≡ some b
Agrees-alive now none b h = absurd h
Agrees-alive now (some k) b (p, e, (t, l, x, y)) = ground (arith, l, y)

pub scripted-count :
    (expiry : ℕ) (o : Option Counter) (k : Counter)
    → scripted expiry o ≡ some k
    → k.count ≡ (raised o).count
scripted-count expiry none k e = ground (arith, e)
scripted-count expiry (some _) k e = ground (arith, e)
