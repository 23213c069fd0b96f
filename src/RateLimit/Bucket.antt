-- ===== src/RateLimit/Bucket.antt =====
-- Which calls share a counter: limiter.bucket.
use native.Mathlib.Nat.{div-eq_of_lt-le}
use jsm.Common.{
  ℕ, ◌+◌, ◌*◌, ◌/◌, ◌≤◌, ◌<◌, ◌≡◌, refl, sym, ap, ◌∙◌, ◌↔◌, [], ◌∷◌, ◌++◌, arith, take, Bytes,
  Without,
}
use jsm.Number.{sub_ℕ, itoa, print_nat}
use jsm.Number.RoundTrip.{print_nat-Without, itoa-injective, print_nat-injective}
use jsm.RateLimit.{Key, Rule, bucket, truncate, second, epoch, hex}

-- What stands before the first separator, and behind it, is determined.
separated-injective :
    (c : ℕ) (a b : Bytes) {s t : Bytes}
    → Without c a
    → Without c b
    → a ++ c ∷ s ≡ b ++ c ∷ t
    → (a ≡ b) × (s ≡ t)
separated-injective c [] [] {s = s} {t = t} ha hb e = (refl, cc)
separated-injective c [] (y ∷ b) ha (ne, hb) e = absurd (ne (cc))
separated-injective c (x ∷ a) [] (ne, ha) hb e = absurd (ne (cc))
separated-injective c (x ∷ a) (y ∷ b) {s = s} {t = t} (n, ha) (m, hb) e =
    let tails : a ++ c ∷ s ≡ b ++ c ∷ t = cc in
    let (same_front, same_back) = separated-injective c a b {s = s} {t = t} ha hb tails in
    (cc, same_back)

sub_ℕ-injective : (a b c : ℕ) → sub_ℕ a c ≡ sub_ℕ b c → a ≡ b
sub_ℕ-injective a b c e = ground arith

truncate_lem : (t d : ℕ) → 0 < d → truncate t d ≡ (t / d) * d
truncate_lem t d h = grind arith

truncate-within :
    (t start w : ℕ)
    → 0 < w
    → truncate start w ≡ start
    → start ≤ t
    → t < start + w
    → truncate t w ≡ start
truncate-within t start w h aligned le lt =
    let floor : start / w * w ≡ start = sym (truncate_lem start w h) ∙ aligned in
    let quotient : t / w ≡ start / w =
      div-eq_of_lt-le w (omega (arith, floor)) (grind (arith, floor)) in
    truncate_lem t w h ∙ ap (λ q. q * w) quotient ∙ floor

-- In one window of a rule a key has one bucket.
pub bucket-within :
    (sum256 : Bytes → Bytes) (k : Key) (r : Rule) (start t : ℕ)
    → 0 < r.window
    → truncate start r.window ≡ start
    → start ≤ t
    → t < start + r.window
    → bucket sum256 t k r ≡ bucket sum256 start k r
unfolding bucket
bucket-within sum256 k r start t positive aligned le lt =
    let same_start = truncate-within t start r.window positive aligned le lt in
    ground (arith, aligned, same_start)

hex-Without : (s : Bytes) → Without b':' (hex s)
unfolding hex
hex-Without [] = tt
hex-Without (b ∷ s) = ground (arith, hex-Without s)

-- What a bucket's name shows of a call.
pub record SameBucket (sum256 : Bytes → Bytes) (t t' : ℕ) (k k' : Key) (r r' : Rule) : Type 0 where
  pub scope : k.scope ≡ k'.scope
  pub kind : k.kind ≡ k'.kind
  pub digest : hex (take 16 (sum256 k.value)) ≡ hex (take 16 (sum256 k'.value))
  pub window : r.window / second ≡ r'.window / second
  pub starts : truncate t r.window / second ≡ truncate t' r'.window / second

module _ (sum256 : Bytes → Bytes) (t t' : ℕ) (k k' : Key) (r r' : Rule) where
  abbrev start_of : ℕ → Rule → Bytes
  start_of now rule = itoa (sub_ℕ (truncate now rule.window / second) epoch)

  abbrev window_of : ℕ → Rule → Bytes
  window_of now rule = print_nat (rule.window / second) ++ b':' ∷ start_of now rule

  abbrev digest_of : ℕ → Key → Rule → Bytes
  digest_of now key rule = hex (take 16 (sum256 key.value)) ++ b':' ∷ window_of now rule

  -- Two calls charge one bucket exactly if scope, kind, the digest's first half, the window's
  -- length and its start, in seconds, agree, for scopes and kinds without a colon.
  pub bucket_iff :
      Without b':' k.scope
      → Without b':' k'.scope
      → Without b':' k.kind
      → Without b':' k'.kind
      → (bucket sum256 t k r ≡ bucket sum256 t' k' r') ↔ SameBucket sum256 t t' k k' r r'
  unfolding bucket
  bucket_iff hs hs' hk hk' = (
    λ e.
        let front : k.scope ++ b':' ∷ (k.kind ++ b':' ∷ digest_of t k r)
            ≡ k'.scope ++ b':' ∷ (k'.kind ++ b':' ∷ digest_of t' k' r') =
          cc e in
        let (scope, e1) =
          separated-injective b':' k.scope k'.scope {s = k.kind ++ b':' ∷ digest_of t k r}
            {t = k'.kind ++ b':' ∷ digest_of t' k' r'} hs hs' front in
        let (kind, e2) =
          separated-injective b':' k.kind k'.kind {s = digest_of t k r} {t = digest_of t' k' r'} hk
            hk' e1 in
        let (digest, e3) =
          separated-injective b':' (hex (take 16 (sum256 k.value)))
            (hex (take 16 (sum256 k'.value))) {s = window_of t r} {t = window_of t' r'}
            (hex-Without (take 16 (sum256 k.value))) (hex-Without (take 16 (sum256 k'.value))) e2 in
        let (window, e4) =
          separated-injective b':' (print_nat (r.window / second)) (print_nat (r'.window / second))
            {s = start_of t r} {t = start_of t' r'} (print_nat-Without (r.window / second))
            (print_nat-Without (r'.window / second)) e3 in
        record {
          scope = scope;
          kind = kind;
          digest = digest;
          window = print_nat-injective (r.window / second) (r'.window / second) window;
          starts =
              sub_ℕ-injective (truncate t r.window / second) (truncate t' r'.window / second) epoch
                (itoa-injective (sub_ℕ (truncate t r.window / second) epoch)
                  (sub_ℕ (truncate t' r'.window / second) epoch) e4);
        },
    λ b. cc (b.scope, b.kind, b.digest, b.window, b.starts),
  )
