-- ===== src/Applications/Untouched.antt =====
-- The service's Update: what a PATCH leaves alone.
use jsm.Common.{◌≡◌, refl, ap, ◌∙◌, ◌≢◌, inl, inr, Option, none, some, List, [], ◌∷◌, arith, All}
use mathlib.Core.Path.{subst}
use jsm.Metrics.{ok, Result-cases}
use jsm.Domain.{Application, UpdateApplicationRequest}
use jsm.Sanitise.{validate_job_link}
use jsm.Mongo.Applications.{
  FieldUpdate, company_name, position_title, status, job_link, job_description, notes, location,
  tags, applied_at, updated_at, next_follow_up_at, compensation,
}
use jsm.Mongo.Documents.{apply_field, apply_fields}
use jsm.Applications.{Parsers, checks, build_patch}
use jsm.Applications.Checks.{Passes, gather-Passes, patch-Passes, apply_nullable-Passes}

-- A field that the body mentions, put to `d`, or else as it is.
abbrev masked : {A B : Type 0} → Option B → A → A → A
masked none d a = a
masked (some b) d a = d

-- An application without the fields that the body mentions.
abbrev pub unmentioned : UpdateApplicationRequest → Application → Application
unmentioned req a = record a {
  company_name = masked req.company_name [] a.company_name;
  position_title = masked req.position_title [] a.position_title;
  status = masked req.status [] a.status;
  location = masked req.location [] a.location;
  job_link = masked req.job_link [] a.job_link;
  job_description = masked req.job_description [] a.job_description;
  tags = masked req.tags [] a.tags;
  notes = masked req.notes [] a.notes;
  applied_at = masked req.applied_at 0 a.applied_at;
  next_follow_up_at = masked req.next_follow_up_at none a.next_follow_up_at;
  compensation = masked req.compensation none a.compensation;
}

module _ (req : UpdateApplicationRequest) where
  -- The body mentions the field that an update sets.
  abbrev IsMentioned : FieldUpdate → Type 0
  IsMentioned (company_name v) = req.company_name ≢ none
  IsMentioned (position_title v) = req.position_title ≢ none
  IsMentioned (status v) = req.status ≢ none
  IsMentioned (job_link v) = req.job_link ≢ none
  IsMentioned (job_description v) = req.job_description ≢ none
  IsMentioned (notes v) = req.notes ≢ none
  IsMentioned (location v) = req.location ≢ none
  IsMentioned (tags v) = req.tags ≢ none
  IsMentioned (applied_at v) = req.applied_at ≢ none
  IsMentioned (updated_at v) = ⊥
  IsMentioned (next_follow_up_at v) = req.next_follow_up_at ≢ none
  IsMentioned (compensation v) = req.compensation ≢ none

  masked-eq : {A B : Type 0} (o : Option B) (d a b : A) → o ≢ none → masked o d a ≡ masked o d b
  masked-eq none d a b h = absurd (h refl)
  masked-eq (some x) d a b h = refl

  apply_field-unmentioned :
      (u : FieldUpdate) (a : Application)
      → IsMentioned u
      → unmentioned req (apply_field u a) ≡ unmentioned req a
  apply_field-unmentioned (company_name v) a h =
      ap (λ x. record (unmentioned req a) { company_name = x })
        (masked-eq req.company_name [] v a.company_name h)
  apply_field-unmentioned (position_title v) a h =
      ap (λ x. record (unmentioned req a) { position_title = x })
        (masked-eq req.position_title [] v a.position_title h)
  apply_field-unmentioned (status v) a h =
      ap (λ x. record (unmentioned req a) { status = x }) (masked-eq req.status [] v a.status h)
  apply_field-unmentioned (job_link v) a h =
      ap (λ x. record (unmentioned req a) { job_link = x })
        (masked-eq req.job_link [] v a.job_link h)
  apply_field-unmentioned (job_description v) a h =
      ap (λ x. record (unmentioned req a) { job_description = x })
        (masked-eq req.job_description [] v a.job_description h)
  apply_field-unmentioned (notes v) a h =
      ap (λ x. record (unmentioned req a) { notes = x }) (masked-eq req.notes [] v a.notes h)
  apply_field-unmentioned (location v) a h =
      ap (λ x. record (unmentioned req a) { location = x })
        (masked-eq req.location [] v a.location h)
  apply_field-unmentioned (tags v) a h =
      ap (λ x. record (unmentioned req a) { tags = x }) (masked-eq req.tags [] v a.tags h)
  apply_field-unmentioned (applied_at v) a h =
      ap (λ x. record (unmentioned req a) { applied_at = x })
        (masked-eq req.applied_at 0 v a.applied_at h)
  apply_field-unmentioned (next_follow_up_at v) a h =
      ap (λ x. record (unmentioned req a) { next_follow_up_at = x })
        (masked-eq req.next_follow_up_at none v a.next_follow_up_at h)
  apply_field-unmentioned (compensation v) a h =
      ap (λ x. record (unmentioned req a) { compensation = x })
        (masked-eq req.compensation none v a.compensation h)
  apply_field-unmentioned (updated_at v) a h = absurd h

  apply_fields-unmentioned :
      (us : List FieldUpdate) (a : Application)
      → All IsMentioned us
      → unmentioned req (apply_fields us a) ≡ unmentioned req a
  apply_fields-unmentioned [] a h = refl
  apply_fields-unmentioned (u ∷ us) a (h, hs) =
      apply_fields-unmentioned us (apply_field u a) hs ∙ apply_field-unmentioned u a h

  module _ (p : Parsers) where
    checks-Passes : All (Passes IsMentioned) (checks p req)
    unfolding checks
    checks-Passes = (
      patch-Passes IsMentioned req.company_name _ (λ v u q e. ground (arith, q, e)),
      (
        patch-Passes IsMentioned req.position_title _ (λ v u q e. ground (arith, q, e)),
        (
          patch-Passes IsMentioned req.status _ (λ v u q e. ground (arith, q, e)),
          (
            patch-Passes IsMentioned req.job_link _ (λ v u q e.
                elim (Result-cases (validate_job_link p.parse_url v)) [
                  | inl (l, f) ↦ ground (arith, q, e, f)
                  | inr (x, f) ↦ absurd (ground (arith, e, f))
                ]),
            (
              patch-Passes IsMentioned req.job_description _ (λ v u q e. ground (arith, q, e)),
              (
                patch-Passes IsMentioned req.notes _ (λ v u q e. ground (arith, q, e)),
                (
                  patch-Passes IsMentioned req.location _ (λ v u q e. ground (arith, q, e)),
                  (
                    patch-Passes IsMentioned req.tags _ (λ v u q e. ground (arith, q, e)),
                    (
                      patch-Passes IsMentioned req.applied_at _ (λ v u q e. ground (arith, q, e)),
                      (
                        apply_nullable-Passes IsMentioned next_follow_up_at req.next_follow_up_at _
                            (λ raw x q _ f. ground (arith, q, f)),
                        (
                          apply_nullable-Passes IsMentioned compensation req.compensation _
                              (λ raw x q _ f. ground (arith, q, f)),
                          tt,
                        ),
                      ),
                    ),
                  ),
                ),
              ),
            ),
          ),
        ),
      ),
    )

    -- A PATCH that the service accepts sets no field that its body does not mention, and never the
    -- ID, the owner, the résumés and the creation time.
    pub build_patch-unmentioned :
        (app : Application) {set : List FieldUpdate}
        → build_patch p req ≡ ok set
        → unmentioned req (apply_fields set app) ≡ unmentioned req app
    unfolding build_patch
    build_patch-unmentioned app {set = set} e =
        apply_fields-unmentioned set app
          (subst (Passes IsMentioned) e (gather-Passes IsMentioned (checks p req) checks-Passes))
