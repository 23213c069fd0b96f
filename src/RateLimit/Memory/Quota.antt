-- ===== src/RateLimit/Memory/Quota.antt =====
-- How many Incr calls on one bucket a limit lets through, whatever other calls come in between.
-- Each call is one step on the map, so a list of calls is any interleaving of requests.
use jsm.Common.{
  ℕ, ◌+◌, ◌-◌, ◌≤◌, ◌<◌, min, dec_lt, ◌≡◌, refl, ap, inl, inr, false, ◌&&◌, Option, none, some,
  List, [], ◌∷◌, arith, leb, if◌then◌else◌, Bool-cases, Bytes, same, same_iff, same_refl,
}
use jsm.RateLimit.Memory.{MemoryBucket, Buckets, incr, find}
use jsm.RateLimit.Memory.View.{alive, counted, IsMap, live, live-incr, incr-IsMap, incr_count}

pub record Call : Type 0 where
  pub at : ℕ
  pub name : Bytes
  pub window : ℕ

-- The clock does not run backwards, from `t` on.
abbrev pub Ordered : ℕ → List Call → Type 0
Ordered t [] = Unit
Ordered t (c ∷ cs) = (t ≤ c.at) × Ordered c.at cs

module _ (name : Bytes) where
  abbrev pub calls_on : List Call → ℕ
  calls_on [] = 0
  calls_on (c ∷ cs) = (if same c.name name then 1 else 0) + calls_on cs

  -- The calls on the bucket whose count is within the limit.
  unfoldable pub grants : ℕ → List Call → Buckets → ℕ
  grants limit [] bs = 0
  grants limit (c ∷ cs) bs =
      let ((count, ttl), bs') = incr c.at bs c.name c.window in
      (if same c.name name && leb count limit then 1 else 0) + grants limit cs bs'

  module _ (start window : ℕ) where
    -- All calls on the bucket lie in one window, which the bucket's name stands for.
    abbrev pub InWindow : List Call → Type 0
    InWindow [] = Unit
    InWindow (c ∷ cs) =
        (c.name ≡ name → (start ≤ c.at) × (c.at < start + window) × (c.window ≡ window))
        × InWindow cs

    abbrev pub count_of : Option MemoryBucket → ℕ
    count_of none = 0
    count_of (some b) = b.count

    -- A live bucket lasts to the end of the window.
    abbrev pub Lasts : Option MemoryBucket → Type 0
    Lasts none = Unit
    Lasts (some b) = start + window ≤ b.expires_at

    calls_on_late :
        (t : ℕ) (cs : List Call) → Ordered t cs → InWindow cs → start + window ≤ t → calls_on cs ≡ 0
    calls_on_late t [] o w le = refl
    calls_on_late t (c ∷ cs) (o, os) (w, ws) le =
        ground (arith, calls_on_late c.at cs os ws, same_iff c.name name)

    grants-le-calls_on :
        (limit : ℕ) (cs : List Call) (bs : Buckets) → grants limit cs bs ≤ calls_on cs
    unfolding grants
    grants-le-calls_on limit [] bs = omega arith
    grants-le-calls_on limit (c ∷ cs) bs =
        ground (arith, grants-le-calls_on limit cs (incr c.at bs c.name c.window).1)

    alive-Lasts :
        (t later : ℕ) (o : Option MemoryBucket)
        → Lasts (alive t o)
        → t ≤ later
        → later < start + window
        → alive later o ≡ alive t o
    alive-Lasts t later none l le lt = refl
    alive-Lasts t later (some b) l le lt = ground arith

    counted-Lasts :
        (t : ℕ) (o : Option MemoryBucket)
        → Lasts (alive t o)
        → start ≤ t
        → t < start + window
        → (Lasts (alive t (some (counted t window (alive t o)))))
          × (count_of (alive t (some (counted t window (alive t o)))) ≡ count_of (alive t o) + 1)
    counted-Lasts t none l le lt = ground arith
    counted-Lasts t (some b) l le lt = ground arith

    module _ (t at : ℕ) (bs : Buckets) (m : IsMap bs) (le : t ≤ at) (lasts : Lasts (live t name bs))
        (lt : at < start + window) where
      hit :
          start ≤ at
          → Lasts (live at name (incr at bs name window).1)
            × (count_of (live at name (incr at bs name window).1) ≡ count_of (live t name bs) + 1)
            × ((incr at bs name window).0.0 ≡ count_of (live t name bs) + 1)
      hit from =
          let (stays, up) =
            counted-Lasts at (find name bs) (rw (alive-Lasts t at (find name bs) lasts le lt) lasts)
              from lt in
          ground (
            arith,
            live-incr at at bs name name window m,
            same_refl name,
            incr_count at bs name window m,
            alive-Lasts t at (find name bs) lasts le lt,
          )

      miss :
          (other : Bytes) (w : ℕ)
          → same other name ≡ false
          → live at name (incr at bs other w).1 ≡ live t name bs
      miss other w ne =
          ground
            (arith, live-incr at at bs other name w m, alive-Lasts t at (find name bs) lasts le lt)

    grants_lem :
        (limit t : ℕ) (cs : List Call) (bs : Buckets)
        → IsMap bs
        → Ordered t cs
        → InWindow cs
        → Lasts (live t name bs)
        → grants limit cs bs ≡ min (limit - count_of (live t name bs)) (calls_on cs)
    unfolding grants
    grants_lem limit t [] bs m o w l = omega arith
    grants_lem limit t (c ∷ cs) bs m (le, os) (w, ws) l = elim (Bool-cases (same c.name name)) [
      | inl e ↦
          let eq = (same_iff c.name name).0 e in
          let (from, lt, win) = w eq in
          let (lasts, up, answer) = hit t c.at bs m le l lt from in
          let step : incr c.at bs c.name c.window ≡ incr c.at bs name window = cc (eq, win) in
          let ih =
            grants_lem limit c.at cs (incr c.at bs name window).1 (incr-IsMap c.at bs name window m)
              os ws lasts in
          ground (arith, ih, ap (λ x. grants limit cs x.1) step, ap (λ x. x.0.0) step)
      | inr e ↦ elim (dec_lt c.at (start + window)) [
        | yes lt ↦
            let same_view = miss t c.at bs m le l lt c.name c.window e in
            let ih =
              grants_lem limit c.at cs (incr c.at bs c.name c.window).1
                (incr-IsMap c.at bs c.name c.window m) os ws (rw same_view l) in
            ground (arith, ih, same_view)
        | no ge ↦ ground (
          arith,
          grants-le-calls_on limit cs (incr c.at bs c.name c.window).1,
          calls_on_late c.at cs os ws (omega arith),
        )
      ]
    ]

-- In one window of a bucket that does not exist yet, exactly the first `limit` calls on it are
-- within the limit, whatever calls on other buckets come in between and whatever is swept.
pub grants-eq-min :
    (name : Bytes) (start window limit : ℕ) (cs : List Call) (bs : Buckets)
    → IsMap bs
    → live start name bs ≡ none
    → Ordered start cs
    → InWindow name start window cs
    → grants name limit cs bs ≡ min limit (calls_on name cs)
grants-eq-min name start window limit cs bs m e o w =
    let lasts : Lasts name start window (live start name bs) = rw e tt in
    ground (arith, grants_lem name start window limit start cs bs m o w lasts)
