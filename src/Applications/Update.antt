-- ===== src/Applications/Update.antt =====
-- The service's Update: what a PATCH sets.
use jsm.Common.{
  ℕ, String, ◌≡◌, sym, ◌⊎◌, inl, inr, true, Option, none, some, List, [], ◌∷◌, arith, Bool-cases,
  Option-cases, All, Bytes, same, same_iff,
}
use mathlib.Core.Path.{subst}
use jsm.Metrics.{◌>>=◌, ok, Result-cases}
use jsm.Domain.{
  CompensationInfo, ObjectId, Application, UpdateApplicationRequest, is_valid_application_status,
}
use jsm.Applications.Cleaned.{
  IsSafe, IsNamed, AreNamed, IsLink, IsPay, clean_list-AreNamed, clean_compensation-IsPay,
}
use jsm.Sanitise.Links.{validate_job_link_sound}
use jsm.Sanitise.{
  Url, max_location_item, max_locations, max_tag_length, max_tags, clean, validate_job_link,
  max_company_name, max_position_title, max_notes, max_job_description,
}
use jsm.Sanitise.Bounds.{clean_safe}
use jsm.Mongo.Applications.{
  FieldUpdate, company_name, position_title, status, job_link, location, tags, job_description,
  notes, next_follow_up_at, compensation,
}
use jsm.Mongo.Documents.{apply_field, apply_fields}
use jsm.Applications.{Parsers, checks, build_patch, required, or_invalid, clean_compensation}
use jsm.Applications.Patch.{IsStorable}
use jsm.Applications.Checks.{Passes, gather-Passes, patch-Passes, apply_nullable-Passes}

-- What one update may set.
abbrev pub IsSound : (Bytes → Option Url) → FieldUpdate → Type 0
IsSound parse_url (company_name v) = IsNamed max_company_name v
IsSound parse_url (position_title v) = IsNamed max_position_title v
IsSound parse_url (status v) = is_valid_application_status v ≡ true
IsSound parse_url (job_link v) = IsLink parse_url v
IsSound parse_url (job_description v) = IsSafe max_job_description v
IsSound parse_url (notes v) = IsSafe max_notes v
IsSound parse_url (location v) = AreNamed max_location_item max_locations v
IsSound parse_url (tags v) = AreNamed max_tag_length max_tags v
IsSound parse_url (compensation v) = IsPay v
IsSound parse_url _ = Unit

-- A text that must be there is set as it is cleaned.
required_sound :
    (reason : String) (limit : ℕ) (v : Bytes) (field : Bytes → FieldUpdate) {u : FieldUpdate}
    → (do c ← required reason (clean v limit); ok (field c)) ≡ ok u
    → (field (clean v limit) ≡ u) × IsNamed limit (clean v limit)
required_sound reason limit v field e = elim (Bool-cases (same (clean v limit) [])) [
  | inl t ↦ absurd (ground (arith, e, t))
  | inr f ↦ (
    ground (arith, e, f),
    ((λ q. ground (arith, f, same_iff (clean v limit) [])), clean_safe v limit),
  )
]

module _ (p : Parsers) (req : UpdateApplicationRequest) where
  abbrev Sound : FieldUpdate → Type 0
  Sound u = IsSound p.parse_url u

  company-Sound :
      (v : Bytes) (u : FieldUpdate)
      → (do
        c ← required "company_name cannot be empty" (clean v max_company_name)
        ok (company_name c))
        ≡ ok u
      → Sound u
  company-Sound v u e =
      let (is, named) =
        required_sound "company_name cannot be empty" max_company_name v company_name {u = u} e in
      subst Sound is named

  position-Sound :
      (v : Bytes) (u : FieldUpdate)
      → (do
        c ← required "position_title cannot be empty" (clean v max_position_title)
        ok (position_title c))
        ≡ ok u
      → Sound u
  position-Sound v u e =
      let (is, named) =
        required_sound "position_title cannot be empty" max_position_title v position_title {u = u}
          e in
      subst Sound is named

  link-Sound :
      (v : Bytes) (u : FieldUpdate)
      → (do l ← validate_job_link p.parse_url v; ok (job_link l)) ≡ ok u
      → Sound u
  link-Sound v u e = elim (Result-cases (validate_job_link p.parse_url v)) [
    | inr (x, f) ↦ absurd (ground (arith, e, f))
    | inl (l, f) ↦
        let is : job_link l ≡ u = ground (arith, e, f) in
        subst Sound is (validate_job_link_sound p.parse_url v l f).1
  ]

  pay-Sound :
      (raw : Bytes) (x : Option CompensationInfo)
      → (x ≡ none)
        ⊎ ((do
          v ← or_invalid "compensation must be an object or null" (p.unmarshal_compensation raw)
          ok (clean_compensation (some v)))
            ≡ ok x)
      → Sound (compensation x)
  pay-Sound raw x (inl e) = subst IsPay (sym e) tt
  pay-Sound raw x (inr e) = elim (Option-cases (p.unmarshal_compensation raw)) [
    | inl f ↦ absurd (ground (arith, e, f))
    | inr (c, f) ↦
        let is : clean_compensation (some c) ≡ x = ground (arith, e, f) in
        subst IsPay is (clean_compensation-IsPay (some c))
  ]

  set-Sound : {v u : FieldUpdate} → ok v ≡ ok u → Sound v → Sound u
  set-Sound {v = v} {u = u} e h = let is : v ≡ u = cc e in subst Sound is h

  checks-Passes : All (Passes Sound) (checks p req)
  unfolding checks
  checks-Passes = (
    patch-Passes Sound req.company_name _ (λ v u q e. company-Sound v u e),
    (
      patch-Passes Sound req.position_title _ (λ v u q e. position-Sound v u e),
      (
        patch-Passes Sound req.status _ (λ v u q e. ground arith),
        (
          patch-Passes Sound req.job_link _ (λ v u q e. link-Sound v u e),
          (
            patch-Passes Sound req.job_description _
                (λ v u q e. set-Sound e (clean_safe v max_job_description)),
            (
              patch-Passes Sound req.notes _ (λ v u q e. set-Sound e (clean_safe v max_notes)),
              (
                patch-Passes Sound req.location _ (λ v u q e.
                    set-Sound e
                      (clean_list-AreNamed v max_location_item max_locations (omega arith))),
                (
                  patch-Passes Sound req.tags _ (λ v u q e.
                      set-Sound e (clean_list-AreNamed v max_tag_length max_tags (omega arith))),
                  (
                    patch-Passes Sound req.applied_at _ (λ v u q e. set-Sound e tt),
                    (
                      apply_nullable-Passes Sound next_follow_up_at req.next_follow_up_at _
                          (λ raw x q e. tt),
                      (
                        apply_nullable-Passes Sound compensation req.compensation _
                            (λ raw x q e. pay-Sound raw x e),
                        tt,
                      ),
                    ),
                  ),
                ),
              ),
            ),
          ),
        ),
      ),
    ),
  )

  pub build_patch-Sound : {set : List FieldUpdate} → build_patch p req ≡ ok set → All Sound set
  unfolding build_patch
  build_patch-Sound {set = set} e =
      subst (Passes Sound) e (gather-Passes Sound (checks p req) checks-Passes)

module _ (parse_url : Bytes → Option Url) (uid : ObjectId) where
  apply_field-IsStorable :
      (u : FieldUpdate) (a : Application)
      → IsSound parse_url u
      → IsStorable parse_url uid a
      → IsStorable parse_url uid (apply_field u a)
  apply_field-IsStorable (company_name v) a h s = ground arith
  apply_field-IsStorable (position_title v) a h s = ground arith
  apply_field-IsStorable (status v) a h s = ground arith
  apply_field-IsStorable (job_link v) a h s = ground arith
  apply_field-IsStorable (job_description v) a h s = ground arith
  apply_field-IsStorable (notes v) a h s = ground arith
  apply_field-IsStorable (location v) a h s = ground arith
  apply_field-IsStorable (tags v) a h s = ground arith
  apply_field-IsStorable (compensation v) a h s = ground arith
  apply_field-IsStorable _ a h s = ground arith

  pub apply_fields-IsStorable :
      (us : List FieldUpdate) (a : Application)
      → All (IsSound parse_url) us
      → IsStorable parse_url uid a
      → IsStorable parse_url uid (apply_fields us a)
  apply_fields-IsStorable [] a h s = s
  apply_fields-IsStorable (u ∷ us) a (h, hs) s =
      apply_fields-IsStorable us (apply_field u a) hs (apply_field-IsStorable u a h s)

module _ (p : Parsers) (req : UpdateApplicationRequest) where
  -- A PATCH that the service accepts keeps an application as Create makes them: it belongs to the
  -- user, names a company and a position, has one of the six statuses, and keeps to the bounds on
  -- its texts, its lists and its link.
  pub build_patch-IsStorable :
      (uid : ObjectId) (app : Application) {set : List FieldUpdate}
      → IsStorable p.parse_url uid app
      → build_patch p req ≡ ok set
      → IsStorable p.parse_url uid (apply_fields set app)
  build_patch-IsStorable uid app {set = set} s e =
      apply_fields-IsStorable p.parse_url uid set app (build_patch-Sound p req {set = set} e) s
