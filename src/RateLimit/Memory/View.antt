-- ===== src/RateLimit/Memory/View.antt =====
-- The counters that callers can observe, and what the operations do to them.
use jsm.Common.{
  ℕ, ◌+◌, ◌-◌, ◌≤◌, ◌≡◌, refl, ◌∙◌, Option, none, some, List, [], ◌∷◌, arith, ltb, if◌then◌else◌,
  any, Bytes, same, same_iff, same_refl,
}
use jsm.RateLimit.Memory.{
  del, MemoryBucket, Buckets, find, delete, put, sweep, incr, del, current, bump,
}

-- A bucket that has expired counts as absent.
abbrev pub alive : ℕ → Option MemoryBucket → Option MemoryBucket
alive now none = none
alive now (some b) = if ltb now b.expires_at then some b else none

-- The live bucket of a name at an instant.
abbrev pub live : ℕ → Bytes → Buckets → Option MemoryBucket
live now name bs = alive now (find name bs)

-- No name is listed twice.
abbrev pub IsMap : Buckets → Type 0
IsMap [] = Unit
IsMap ((k, b) ∷ bs) = (find k bs ≡ none) × IsMap bs

find-delete :
    (j name : Bytes) (bs : Buckets)
    → find j (delete name bs) ≡ (if same name j then none else find j bs)
unfolding find delete
find-delete j name [] = ground arith
find-delete j name ((k, b) ∷ bs) =
    ground (arith, find-delete j name bs, same_iff k j, same_iff k name, same_iff name j)

find-put :
    (j name : Bytes) (b : MemoryBucket) (bs : Buckets)
    → find j (put name b bs) ≡ (if same name j then some b else find j bs)
unfolding find put
find-put j name b bs = ground (arith, find-delete j name bs)

delete-IsMap : (name : Bytes) (bs : Buckets) → IsMap bs → IsMap (delete name bs)
unfolding delete
delete-IsMap name [] h = tt
delete-IsMap name ((k, b) ∷ bs) (p, h) =
    ground (arith, delete-IsMap name bs h, find-delete k name bs)

put-IsMap : (name : Bytes) (b : MemoryBucket) (bs : Buckets) → IsMap bs → IsMap (put name b bs)
unfolding put
put-IsMap name b bs h =
    ground (arith, delete-IsMap name bs h, find-delete name name bs, same_refl name)

find-sweep-none :
    (now : ℕ) (j : Bytes) (bs : Buckets) → find j bs ≡ none → find j (sweep now bs) ≡ none
unfolding find sweep
find-sweep-none now j [] e = e
find-sweep-none now j ((k, b) ∷ bs) e = ground (arith, find-sweep-none now j bs)

sweep-IsMap : (now : ℕ) (bs : Buckets) → IsMap bs → IsMap (sweep now bs)
unfolding sweep
sweep-IsMap now [] h = tt
sweep-IsMap now ((k, b) ∷ bs) (p, h) =
    ground (arith, sweep-IsMap now bs h, find-sweep-none now k bs p)

-- What a sweep keeps is what is alive.
pub find-sweep :
    (now : ℕ) (j : Bytes) (bs : Buckets) → IsMap bs → find j (sweep now bs) ≡ live now j bs
unfolding find sweep
find-sweep now j [] h = refl
find-sweep now j ((k, b) ∷ bs) (p, h) =
    ground (arith, find-sweep now j bs h, find-sweep-none now j bs, same_iff k j, same_iff j k)

-- The counter that an Incr leaves, without the sweep: the live one, or a new one, plus one.
abbrev pub counted : ℕ → ℕ → Option MemoryBucket → MemoryBucket
counted now window o = bump (current now window o)

-- Every Incr keeps the map a map.
pub incr-IsMap :
    (now : ℕ) (bs : Buckets) (name : Bytes) (window : ℕ)
    → IsMap bs
    → IsMap (incr now bs name window).1
unfolding incr
incr-IsMap now bs name window h =
    put-IsMap name (counted now window (find name (sweep now bs))) (sweep now bs)
      (sweep-IsMap now bs h)

alive-alive :
    (now later : ℕ) (o : Option MemoryBucket)
    → now ≤ later
    → alive later (alive now o) ≡ alive later o
alive-alive now later none h = refl
alive-alive now later (some b) h = ground arith

-- After an Incr of `name` at `now`, the live bucket of any name at any later instant is that
-- name's own, one higher, and every other name's as it was.
pub live-incr :
    (now later : ℕ) (bs : Buckets) (name j : Bytes) (window : ℕ)
    → IsMap bs
    → now ≤ later
    → live later j (incr now bs name window).1 ≡ (
        if same name j
        then alive later (some (counted now window (live now name bs)))
        else live later j bs)
unfolding incr
live-incr now later bs name j window h le =
    rw (find-put j name (counted now window (find name (sweep now bs))) (sweep now bs)) (
      ground (
        arith,
        find-sweep now j bs h,
        find-sweep now name bs h,
        alive-alive now later (find j bs) le,
      ))

-- Del leaves no bucket for a deleted name, and every other bucket as it was.
find-del :
    (bs : Buckets) (j : Bytes) (names : List Bytes)
    → find j (del bs names) ≡ (if any (λ n. same n j) names then none else find j bs)
unfolding del
find-del bs j [] = refl
find-del bs j (name ∷ names) =
    ground (arith, find-del (delete name bs) j names, find-delete j name bs)

-- The count that an Incr answers is that of the counter it leaves.
pub incr_count :
    (now : ℕ) (bs : Buckets) (name : Bytes) (window : ℕ)
    → IsMap bs
    → (incr now bs name window).0.0 ≡ (counted now window (live now name bs)).count
unfolding incr
incr_count now bs name window h = ground (arith, find-sweep now name bs h)

pub incr_ttl :
    (now : ℕ) (bs : Buckets) (name : Bytes) (window : ℕ)
    → IsMap bs
    → (incr now bs name window).0.1 ≡ (counted now window (live now name bs)).expires_at - now
unfolding incr
incr_ttl now bs name window h = ground (arith, find-sweep now name bs h)

-- A caller who waits as long as an Incr's answer says finds the counter gone.
pub live-incr_wait :
    (now : ℕ) (bs : Buckets) (name : Bytes) (window : ℕ)
    → IsMap bs
    → live (now + (incr now bs name window).0.1) name (incr now bs name window).1 ≡ none
live-incr_wait now bs name window h =
    let ttl = (incr now bs name window).0.1 in
    live-incr now (now + ttl) bs name name window h (omega arith)
    ∙ (let b = counted now window (live now name bs) in
        ground (arith, same_refl name, incr_ttl now bs name window h))

-- A Del leaves no named bucket, and every other as it was.
pub live-del :
    (now : ℕ) (j : Bytes) (names : List Bytes) (bs : Buckets)
    → live now j (del bs names) ≡ (if any (λ k. same k j) names then none else live now j bs)
unfolding del
live-del now j [] bs = refl
live-del now j (name ∷ names) bs =
    ground (arith, live-del now j names (delete name bs), find-delete j name bs)
