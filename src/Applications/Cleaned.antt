-- ===== src/Applications/Cleaned.antt =====
-- What clean, cleanList, cleanCompensation and validateJobLink of
-- backend/internal/service/application.go let through to the store.
use jsm.Common.{
  ℕ, ◌≤◌, ◌<◌, ◌≡◌, sym, ◌≢◌, ◌⊎◌, inl, inr, Bool, not, Option, none, some, List, [], ◌∷◌, map,
  arith, Bool-cases, length, length-take-le, All, All-take, keep, keep_pass, keep_drop, Bytes, text,
  same, same_iff,
}
use mathlib.Core.Path.{subst}
use jsm.Domain.{CompensationInfo}
use jsm.Sanitise.{Url, clean, clean_list, max_equity, max_benefit_item, max_benefits}
use jsm.Sanitise.Bounds.{IsInert, clean_safe}
use jsm.Sanitise.Lists.{distinct, candidates, clean_list-eq-take}
use jsm.Applications.{clean_compensation}

-- At most `limit` bytes, and none that starts or ends markup.
abbrev pub IsSafe : ℕ → Bytes → Type 0
IsSafe limit v = (length v ≤ limit) × IsInert v

abbrev pub IsNamed : ℕ → Bytes → Type 0
IsNamed limit v = (v ≢ []) × IsSafe limit v

abbrev pub AreNamed : (max_item max_len : ℕ) → List Bytes → Type 0
AreNamed max_item max_len vs = All (IsNamed max_item) vs × (length vs ≤ max_len)

-- No link, or one to a host over http or https.
abbrev pub IsLink : (Bytes → Option Url) → Bytes → Type 0
IsLink parse_url link =
    (link ≡ [])
    ⊎ ((url : Url) × (parse_url link ≡ some url)
        × (length link ≤ 2000)
        × (url.host ≢ [])
        × ((url.scheme ≡ text "http") ⊎ (url.scheme ≡ text "https")))

abbrev pub IsPay : Option CompensationInfo → Type 0
IsPay none = Unit
IsPay (some c) = IsSafe max_equity c.equity × AreNamed max_benefit_item max_benefits c.benefits

module _ (P : Bytes → Type 0) where
  All-keep : (q : Bytes → Bool) (vs : List Bytes) → All P vs → All P (keep q vs)
  All-keep q [] h = tt
  All-keep q (v ∷ vs) (k, h) = elim (Bool-cases (q v)) [
    | inl t ↦ subst (All P) (sym (keep_pass q v vs t)) (k, All-keep q vs h)
    | inr f ↦ subst (All P) (sym (keep_drop q v vs f)) (All-keep q vs h)
  ]

  All-distinct : (vs : List Bytes) → All P vs → All P (distinct vs)
  All-distinct [] h = tt
  All-distinct (v ∷ vs) (k, h) =
      (k, All-keep (λ w. not (same w v)) (distinct vs) (All-distinct vs h))

cleaned-IsNamed :
    (max_item : ℕ) (values : List Bytes)
    → All (IsNamed max_item) (keep (λ v. not (same v [])) (map (λ v. clean v max_item) values))
cleaned-IsNamed max_item [] = tt
cleaned-IsNamed max_item (v ∷ values) =
    let rest = cleaned-IsNamed max_item values in
    elim (Bool-cases (same (clean v max_item) [])) [
      | inl t ↦
          subst (All (IsNamed max_item))
            (sym (
              keep_drop (λ x. not (same x [])) (clean v max_item)
                (map (λ x. clean x max_item) values) (rw t)))
            rest
      | inr f ↦
          subst (All (IsNamed max_item))
            (sym (
              keep_pass (λ x. not (same x [])) (clean v max_item)
                (map (λ x. clean x max_item) values) (rw f)))
            ((λ e. ground (arith, f, same_iff (clean v max_item) []), clean_safe v max_item), rest)
    ]

pub clean_list-AreNamed :
    (values : List Bytes) (max_item max_len : ℕ)
    → 0 < max_len
    → AreNamed max_item max_len (clean_list values max_item max_len)
clean_list-AreNamed values max_item max_len h =
    subst (AreNamed max_item max_len) (sym (clean_list-eq-take values max_item max_len h)) (
      All-take (IsNamed max_item) max_len (candidates max_item values) (
          All-distinct (IsNamed max_item)
            (keep (λ v. not (same v [])) (map (λ v. clean v max_item) values))
            (cleaned-IsNamed max_item values)),
      length-take-le max_len (candidates max_item values),
    )

pub clean_compensation-IsPay : (o : Option CompensationInfo) → IsPay (clean_compensation o)
unfolding clean_compensation
clean_compensation-IsPay none = tt
clean_compensation-IsPay (some c) = (
  clean_safe c.equity max_equity,
  clean_list-AreNamed c.benefits max_benefit_item max_benefits (omega arith),
)
