-- ===== src/Applications/Checks.antt =====
-- What holds of every field that a PATCH sets: what each of its checks ensures.
use jsm.Common.{
  ◌≡◌, refl, ◌⊎◌, inl, inr, Option, none, some, List, [], ◌∷◌, Bool-cases, All, All-append, Bytes,
  text, same,
}
use jsm.Metrics.{Result, ok, err, Result-cases}
use jsm.Mongo.Applications.{FieldUpdate}
use jsm.Applications.{gather, patch, apply_nullable}

module _ (P : FieldUpdate → Type 0) where
  -- Every update that a check lets through satisfies `P`.
  abbrev pub Passes : Result (List FieldUpdate) → Type 0
  Passes (ok us) = All P us
  Passes (err e) = Unit

  pub gather-Passes : (rs : List (Result (List FieldUpdate))) → All Passes rs → Passes (gather rs)
  unfolding gather
  gather-Passes [] h = tt
  gather-Passes (err e ∷ rs) h = tt
  gather-Passes (ok us ∷ rs) (h, hs) = elim (Result-cases (gather rs)) [
    | inr (x, f) ↦ rw f tt
    | inl (vs, f) ↦ rw f (All-append P us vs h (rw f at (gather-Passes rs hs)))
  ]

  pub patch-Passes :
      {A : Type 0} (o : Option A) (f : A → Result FieldUpdate)
      → ((a : A) (u : FieldUpdate) → o ≡ some a → f a ≡ ok u → P u)
      → Passes (patch o f)
  patch-Passes none f h = tt
  patch-Passes (some a) f h = elim (Result-cases (f a)) [
    | inr (x, e) ↦ rw e tt
    | inl (u, e) ↦ rw e (h a u refl e, tt)
  ]

  pub apply_nullable-Passes :
      {A : Type 0} (field : Option A → FieldUpdate) (o : Option Bytes)
      (parse : Bytes → Result (Option A))
      → ((raw : Bytes) (x : Option A)
          → o ≡ some raw
          → (x ≡ none) ⊎ (parse raw ≡ ok x)
          → P (field x))
      → Passes (apply_nullable field o parse)
  unfolding apply_nullable
  apply_nullable-Passes field none parse h = tt
  apply_nullable-Passes field (some raw) parse h = elim (Bool-cases (same raw (text "null"))) [
    | inl e ↦ rw e (h raw none refl (inl refl), tt)
    | inr e ↦ elim (Result-cases (parse raw)) [
      | inl (x, f) ↦ rw (e, f) (h raw x refl (inr f), tt)
      | inr (x, f) ↦ rw (e, f) tt
    ]
  ]
