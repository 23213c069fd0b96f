-- ===== src/Sanitise/Lists.antt =====
-- cleanList returns the first distinct non-empty items.
use jsm.Common.{
  ℕ, ◌-◌, ◌<◌, ◌≡◌, refl, sym, ap, ◌∙◌, inl, inr, Bool, true, false, not, ◌||◌, List, [], ◌∷◌, ◌++◌,
  map, arith, ◌==◌, Bool-cases, length, take, length-append, keep, keep-keep, take-nil, take-cons,
  keep_pass, keep_drop, Bytes, same, same_iff, append-nil, append_assoc,
}
use jsm.Sanitise.{clean, member, clean_from, clean_list}

abbrev non_empty : Bytes → Bool
non_empty v = not (same v [])

-- Each text at its first place only.
abbrev pub distinct : List Bytes → List Bytes
distinct [] = []
distinct (v ∷ vs) = v ∷ keep (λ w. not (same w v)) (distinct vs)

-- The items that the caller's list offers, in order.
abbrev pub candidates : ℕ → List Bytes → List Bytes
candidates max_item values =
    distinct (keep (λ v. not (same v [])) (map (λ v. clean v max_item) values))

abbrev pub outside : List Bytes → Bytes → Bool
outside seen v = not (member v seen)

member-append :
    (v w : Bytes) (seen : List Bytes) → member v (seen ++ w ∷ []) ≡ (member v seen || same w v)
member-append v w [] = ground arith
member-append v w (x ∷ seen) = ground (arith, member-append v w seen)

same_comm : (v w : Bytes) → same v w ≡ same w v
same_comm v w = ground (arith, same_iff v w, same_iff w v)

member-same : (v w : Bytes) (seen : List Bytes) → same w v ≡ true → member w seen ≡ member v seen
member-same v w seen e = ap (λ x. member x seen) ((same_iff w v).0 e)

-- Leaving out what is seen, and `v`.
keep-outside_new :
    (seen : List Bytes) (v : Bytes) (vs : List Bytes)
    → keep (outside seen) (keep (λ w. not (same w v)) vs) ≡ keep (outside (seen ++ v ∷ [])) vs
keep-outside_new seen v vs =
    keep-keep _ _ _ vs λ x. ground (arith, member-append x v seen, same_comm v x)

keep-outside_old :
    (seen : List Bytes) (v : Bytes) (vs : List Bytes)
    → member v seen ≡ true
    → keep (outside seen) (keep (λ w. not (same w v)) vs) ≡ keep (outside seen) vs
keep-outside_old seen v vs e = keep-keep _ _ _ vs λ x. ground (arith, member-same v x seen)

module _ (max_item : ℕ) (v : Bytes) (values : List Bytes) where
  candidates_skip :
      same (clean v max_item) [] ≡ true
      → candidates max_item (v ∷ values) ≡ candidates max_item values
  candidates_skip e = ap distinct (
      keep_drop (λ x. not (same x [])) (clean v max_item) (map (λ x. clean x max_item) values)
        (rw e))

  candidates_cons :
      same (clean v max_item) [] ≡ false
      → candidates max_item (v ∷ values)
        ≡ clean v max_item
          ∷ keep (λ w. not (same w (clean v max_item))) (candidates max_item values)
  candidates_cons e = ap distinct (
      keep_pass (λ x. not (same x [])) (clean v max_item) (map (λ x. clean x max_item) values)
        (rw e))

-- The rest of the result, behind `out`.
abbrev tail_of : ℕ → ℕ → List Bytes → List Bytes → List Bytes
tail_of max_item max_len out values =
    take (max_len - length out) (keep (outside out) (candidates max_item values))

module _ (max_item max_len : ℕ) (out : List Bytes) (v : Bytes) (values : List Bytes)
    (h : length out < max_len) where
  abbrev item : Bytes
  item = clean v max_item

  tail_of_skip :
      same item [] ≡ true
      → tail_of max_item max_len out (v ∷ values) ≡ tail_of max_item max_len out values
  tail_of_skip e =
      ap (λ vs. take (max_len - length out) (keep (outside out) vs))
        (candidates_skip max_item v values e)

  tail_of_old :
      same item [] ≡ false
      → member item out ≡ true
      → tail_of max_item max_len out (v ∷ values) ≡ tail_of max_item max_len out values
  tail_of_old e m =
      ap (λ vs. take (max_len - length out) (keep (outside out) vs))
        (candidates_cons max_item v values e)
      ∙ ap (take (max_len - length out)) (
          keep_drop (outside out) item _ (rw m)
          ∙ (keep-outside_old out item (candidates max_item values) m))

  tail_of_new :
      same item [] ≡ false
      → member item out ≡ false
      → tail_of max_item max_len out (v ∷ values)
        ≡ item
          ∷ take
              (max_len - length out - 1)
              (keep (outside (out ++ item ∷ [])) (candidates max_item values))
  tail_of_new e m =
      ap (λ vs. take (max_len - length out) (keep (outside out) vs))
        (candidates_cons max_item v values e)
      ∙ ap (take (max_len - length out)) (keep_pass (outside out) item _ (rw m))
      ∙ (take-cons (max_len - length out) item _ (omega arith)
          ∙ ap (λ vs. item ∷ take (max_len - length out - 1) vs)
              (keep-outside_new out item (candidates max_item values)))

clean_from-eq-take :
    (max_item max_len : ℕ) (out values : List Bytes)
    → length out < max_len
    → clean_from max_item max_len out values ≡ out ++ tail_of max_item max_len out values
unfolding clean_from
clean_from-eq-take max_item max_len out [] h =
    sym (rw (take-nil (max_len - length out)) (append-nil out))
clean_from-eq-take max_item max_len out (v ∷ values) h =
    let c = clean v max_item in
    let len = length-append out (c ∷ []) in
    elim (Bool-cases (same c [])) [
      | inl e ↦
          rw (tail_of_skip max_item max_len out v values h e)
            (rw e (clean_from-eq-take max_item max_len out values h))
      | inr e ↦ elim (Bool-cases (member c out)) [
        | inl m ↦
            rw (tail_of_old max_item max_len out v values h e m)
              (rw (e, m) (clean_from-eq-take max_item max_len out values h))
        | inr m ↦
            rw (tail_of_new max_item max_len out v values h e m)
              (elim (Bool-cases (length (out ++ c ∷ []) == max_len)) [
                | inl l ↦
                    rw (e, m, l)
                      (ap
                        (λ n.
                          out
                          ++ c
                            ∷ take n (keep (outside (out ++ c ∷ [])) (candidates max_item values)))
                        (let z : 0 ≡ max_len - length out - 1 = ground (arith, len) in z))
                | inr l ↦
                    rw (e, m, l)
                      (clean_from-eq-take max_item max_len (out ++ c ∷ []) values
                          (ground (arith, len))
                        ∙ append_assoc out (c ∷ []) _
                        ∙ ap
                            (λ n.
                              out
                              ++ c
                                ∷ take n
                                    (keep (outside (out ++ c ∷ [])) (candidates max_item values)))
                            (let z : max_len - length (out ++ c ∷ []) ≡ max_len - length out - 1 =
                                omega (arith, len) in
                              z))
              ])
      ]
    ]

keep-outside_nil : (vs : List Bytes) → keep (outside []) vs ≡ vs
keep-outside_nil [] = refl
keep-outside_nil (v ∷ vs) = ap (◌∷◌ v) (keep-outside_nil vs)

-- cleanList returns the first `max_len` distinct items among the cleaned, non-empty ones, for a
-- positive `max_len`.
pub clean_list-eq-take :
    (values : List Bytes) (max_item max_len : ℕ)
    → 0 < max_len
    → clean_list values max_item max_len ≡ take max_len (candidates max_item values)
unfolding clean_list
clean_list-eq-take values max_item max_len h =
    clean_from-eq-take max_item max_len [] values h
    ∙ ap (take (max_len - 0)) (keep-outside_nil (candidates max_item values))
    ∙ ap (λ n. take n (candidates max_item values)) (omega arith)
