-- ===== src/Common/Strings.antt =====
-- Go strings are byte sequences: the functions of package strings that the program calls with
-- one-byte separators, over lists of bytes.
use Prim.Native.Nat.{ℕ}
use Prim.Native.Char.{code}
use Prim.Native.String.{String}
use mathlib.Core.Path.{◌≡◌, refl}
use mathlib.Core.Logic.{◌↔◌, ◌≢◌, inl, inr}
use mathlib.Core.Bool.{Bool, true, false, ◌&&◌}
use mathlib.Core.Option.{Option, none, some}
use mathlib.Core.List.{List, [], ◌∷◌, ◌++◌}
use native.Mathlib.Omega.{arith}
use jsm.Common.Tests.{◌==◌, if◌then◌else◌, Option-cases}
use jsm.Common.Lists.{All}

abbrev pub Bytes : Type 0
Bytes = List ℕ

-- An ASCII literal.
abbrev pub text : String → Bytes
text String.[] = []
text (String.◌∷◌ c s) = code c ∷ text s

-- `a == b` on strings.
abbrev pub same : Bytes → Bytes → Bool
same [] [] = true
same [] (y ∷ ys) = false
same (x ∷ xs) [] = false
same (x ∷ xs) (y ∷ ys) = (x == y) && same xs ys

pub same_iff : (a b : Bytes) → (same a b ≡ true) ↔ (a ≡ b)
same_iff [] [] = ground arith
same_iff [] (y ∷ ys) = ground arith
same_iff (x ∷ xs) [] = ground arith
same_iff (x ∷ xs) (y ∷ ys) = ground (arith, same_iff xs ys)

pub same_refl : (a : Bytes) → same a a ≡ true
same_refl a = (same_iff a a).1 refl

pub same-ne : (a b : Bytes) → a ≢ b → same a b ≡ false
same-ne a b h = ground (arith, same_iff a b)

-- strings.HasPrefix
abbrev pub has_prefix : Bytes → Bytes → Bool
has_prefix s [] = true
has_prefix [] (p ∷ ps) = false
has_prefix (x ∷ xs) (p ∷ ps) = (x == p) && has_prefix xs ps

-- strings.Cut around the first separator; `none` where `found` is false.
unfoldable pub cut : ℕ → Bytes → Option (Bytes × Bytes)
cut c [] = none
cut c (x ∷ xs) =
    if x == c
    then some ([], xs)
    else elim (cut c xs) [ none ↦ none | some (before, after) ↦ some (x ∷ before, after) ]

-- The text before and after the last separator, as strings.LastIndex and two slices give it.
unfoldable pub cut_last : ℕ → Bytes → Option (Bytes × Bytes)
cut_last c [] = none
cut_last c (x ∷ xs) = elim (cut_last c xs) [
  | some (before, after) ↦ some (x ∷ before, after)
  | none ↦ if x == c then some ([], xs) else none
]

abbrev push_head : ℕ → List Bytes → List Bytes
push_head x [] = (x ∷ []) ∷ []
push_head x (p ∷ ps) = (x ∷ p) ∷ ps

-- strings.Split
unfoldable pub split : ℕ → Bytes → List Bytes
split c [] = [] ∷ []
split c (x ∷ xs) = let rest = split c xs in if x == c then [] ∷ rest else push_head x rest

abbrev pub Without : ℕ → Bytes → Type 0
Without c s = All (λ x. x ≢ c) s

pub cut_last-Without : (c : ℕ) (s : Bytes) → Without c s → cut_last c s ≡ none
unfolding cut_last
cut_last-Without c [] h = refl
cut_last-Without c (x ∷ xs) (p, h) = ground (arith, cut_last-Without c xs h)

pub cut_last-append : (c : ℕ) (s t : Bytes) → Without c t → cut_last c (s ++ c ∷ t) ≡ some (s, t)
unfolding cut_last
cut_last-append c [] t h = ground (arith, cut_last-Without c t h)
cut_last-append c (x ∷ xs) t h = ground (arith, cut_last-append c xs t h)

pub cut_last-eq-none : (c : ℕ) (s : Bytes) → cut_last c s ≡ none → Without c s
unfolding cut_last
cut_last-eq-none c [] e = tt
cut_last-eq-none c (x ∷ xs) e = elim (Option-cases (cut_last c xs)) [
  | inl q ↦ ground (arith, cut_last-eq-none c xs q)
  | inr (r, q) ↦ absurd (ground arith)
]

-- What `cut_last` returns puts the text together again, and the second part has no separator.
pub cut_last_sound :
    (c : ℕ) (s : Bytes) {before after : Bytes}
    → cut_last c s ≡ some (before, after)
    → (s ≡ before ++ c ∷ after) × Without c after
unfolding cut_last
cut_last_sound c [] e = cc
cut_last_sound c (x ∷ xs) e = elim (Option-cases (cut_last c xs)) [
  | inl q ↦ ground (arith, cut_last-eq-none c xs q)
  | inr ((b, a), q) ↦ ground (arith, cut_last_sound c xs q)
]
