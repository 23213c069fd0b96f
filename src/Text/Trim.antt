-- ===== src/Text/Trim.antt =====
-- The fuel of trimming.
use jsm.Common.{
  ℕ, zero, suc, ◌≤◌, ◌≡◌, refl, sym, ap, ◌∙◌, ◌≢◌, ◌⊎◌, inl, inr, List, [], ◌∷◌, ◌++◌, reverse,
  arith, length, drop, length-reverse, Bytes, append-nil, append_assoc,
}
use mathlib.Core.List.{reverse-reverse, reverse-cons}
use jsm.Text.{space_width, space_width_back, strip, trim_space}

Zero-cases : (n : ℕ) → (n ≡ 0) ⊎ ((w : ℕ) × (n ≡ suc w))
Zero-cases zero = inl refl
Zero-cases (suc w) = inr (w, refl)

length-drop_le : {A : Type 0} (n : ℕ) (xs : List A) → length (drop n xs) ≤ length xs
length-drop_le zero xs = omega arith
length-drop_le (suc n) [] = omega arith
length-drop_le (suc n) (x ∷ xs) = ground (arith, length-drop_le n xs)

strip-stop :
    (width : Bytes → ℕ) (fuel : ℕ) (s : Bytes)
    → width [] ≡ 0
    → length s ≤ fuel
    → width (strip width fuel s) ≡ 0
unfolding strip
strip-stop width zero [] z h = z
strip-stop width zero (c ∷ s) z h = absurd (ground arith)
strip-stop width (suc fuel) s z h = elim (Zero-cases (width s)) [
  | inl e ↦ ground arith
  | inr (w, e) ↦
      let rest =
        strip-stop width fuel (drop (suc w) s) z (shorter w s h (λ q. ground (arith, e, q, z))) in
      ground (arith, e, rest)
]
  where
    shorter :
        {A : Type 0} {m : ℕ} (w : ℕ) (xs : List A)
        → length xs ≤ suc m
        → xs ≢ []
        → length (drop (suc w) xs) ≤ m
    shorter w [] h ne = absurd (ne refl)
    shorter w (x ∷ xs) h ne = ground (arith, length-drop_le w xs)

-- No white space is left in front before the end is trimmed, and none at the end.
pub trim_space_stops :
    (s : Bytes)
    → (space_width (strip space_width (length s) s) ≡ 0)
      × (space_width_back (reverse (trim_space s)) ≡ 0)
unfolding trim_space space_width space_width_back
trim_space_stops s =
    let front = strip space_width (length s) s in
    let back = strip space_width_back (length front) (reverse front) in
    (
      strip-stop space_width (length s) s refl (omega arith),
      rw (reverse-reverse back) (
          strip-stop space_width_back (length front) (reverse front) refl
            (ground (arith, length-reverse front))),
    )

-- Where there is no white space in front of a text, there is none in front of what it begins with.
space_width-prefix : (p q : Bytes) → space_width (p ++ q) ≡ 0 → space_width p ≡ 0
unfolding space_width
space_width-prefix [] q e = refl
space_width-prefix (a ∷ []) [] e = e
space_width-prefix (a ∷ []) (b ∷ []) e = ground (arith, e)
space_width-prefix (a ∷ []) (b ∷ c ∷ q) e = ground (arith, e)
space_width-prefix (a ∷ b ∷ []) [] e = e
space_width-prefix (a ∷ b ∷ []) (c ∷ q) e = ground (arith, e)
space_width-prefix (a ∷ b ∷ c ∷ p) q e = e

drop_rest : {A : Type 0} (n : ℕ) (xs : List A) → (d : List A) × (xs ≡ d ++ drop n xs)
drop_rest zero xs = ([], refl)
drop_rest (suc n) [] = ([], refl)
drop_rest (suc n) (x ∷ xs) = let (d, e) = drop_rest n xs in (x ∷ d, ap (λ ys. x ∷ ys) e)

-- What is stripped stood in front.
strip_rest :
    (width : Bytes → ℕ) (fuel : ℕ) (s : Bytes) → (d : Bytes) × (s ≡ d ++ strip width fuel s)
unfolding strip
strip_rest width zero s = ([], refl)
strip_rest width (suc fuel) s =
    let (d, f) = drop_rest (width s) s in
    let (d', f') = strip_rest width fuel (drop (width s) s) in
    elim (Zero-cases (width s)) [
      | inl e ↦ ([], ground (arith, e))
      | inr (w, e) ↦ (
        d ++ d',
        let stripped : strip width (suc fuel) s ≡ strip width fuel (drop (width s) s) =
              ground (arith, e) in
            f
            ∙ ap (λ x. d ++ x) (f' ∙ ap (λ x. d' ++ x) (sym stripped))
            ∙ sym (append_assoc d d' (strip width (suc fuel) s)),
      )
    ]

strip_none : (width : Bytes → ℕ) (fuel : ℕ) (s : Bytes) → width s ≡ 0 → strip width fuel s ≡ s
unfolding strip
strip_none width zero s e = refl
strip_none width (suc fuel) s e = ground (arith, e)

reverse_append : {A : Type 0} (xs ys : List A) → reverse (xs ++ ys) ≡ reverse ys ++ reverse xs
reverse_append [] ys = sym (append-nil (reverse ys))
reverse_append (x ∷ xs) ys =
    reverse-cons x (xs ++ ys)
    ∙ ap (λ zs. zs ++ x ∷ []) (reverse_append xs ys)
    ∙ append_assoc (reverse ys) (reverse xs) (x ∷ [])
    ∙ ap (λ zs. reverse ys ++ zs) (sym (reverse-cons x xs))

trimmed_stops :
    (s : Bytes) → space_width (strip space_width (length s) s) ≡ 0 → space_width (trim_space s) ≡ 0
unfolding trim_space
trimmed_stops s e =
    let front = strip space_width (length s) s in
    let back = strip space_width_back (length front) (reverse front) in
    let (d, f) = strip_rest space_width_back (length front) (reverse front) in
    let is : front ≡ reverse back ++ reverse d =
      sym (reverse-reverse front) ∙ ap reverse f ∙ reverse_append d back in
    space_width-prefix (reverse back) (reverse d) (ap space_width (sym is) ∙ e)

-- A text without white space at its ends is trimmed as it is.
trim_space_none :
    (s : Bytes) → space_width s ≡ 0 → space_width_back (reverse s) ≡ 0 → trim_space s ≡ s
unfolding trim_space
trim_space_none s e f =
    rw (strip_none space_width (length s) s e, strip_none space_width_back (length s) (reverse s) f)
      (reverse-reverse s)

-- Trimming twice is trimming once.
pub trim_space_twice : (s : Bytes) → trim_space (trim_space s) ≡ trim_space s
trim_space_twice s =
    let (front, back) = trim_space_stops s in
    trim_space_none (trim_space s) (trimmed_stops s front) back
