-- ===== src/Applications/Patch.antt =====
-- The service's Create: what reaches the store.
use jsm.Common.{
  ℕ, ◌≡◌, refl, inl, inr, true, false, Option, [], arith, Bool-cases, Bytes, text, same, same_iff,
}
use jsm.Metrics.{ok, Result-cases}
use jsm.Domain.{ObjectId, Application, CreateApplicationRequest, is_valid_application_status}
use mathlib.Core.Path.{subst}
use jsm.Sanitise.Links.{validate_job_link_sound}
use jsm.Applications.Cleaned.{
  IsSafe, IsNamed, AreNamed, IsLink, IsPay, clean_list-AreNamed, clean_compensation-IsPay,
}
use jsm.Sanitise.{
  Url, clean_list, max_location_item, max_locations, max_tag_length, max_tags, clean,
  validate_job_link, max_company_name, max_position_title, max_notes, max_job_description,
}
use jsm.Sanitise.Bounds.{clean_safe}
use jsm.Text.{trim_space}
use jsm.Applications.{Parsers, build_application, clean_compensation, or_default, or_now}

-- What the store relies on: the owner, and for each text, list and link what Create checks and
-- cleans.
pub record IsStorable (parse_url : Bytes → Option Url) (uid : ObjectId) (app : Application)
    : Type 0 where
  pub owned : app.user_id ≡ uid
  pub company : IsNamed max_company_name app.company_name
  pub position : IsNamed max_position_title app.position_title
  pub status_valid : is_valid_application_status app.status ≡ true
  pub link : IsLink parse_url app.job_link
  pub description : IsSafe max_job_description app.job_description
  pub notes_safe : IsSafe max_notes app.notes
  pub locations : AreNamed max_location_item max_locations app.location
  pub tagged : AreNamed max_tag_length max_tags app.tags
  pub pay : IsPay app.compensation

module _ (p : Parsers) (now : ℕ) (uid : ObjectId) (req : CreateApplicationRequest) where
  -- The document, from what has been checked.
  abbrev built : (state link : Bytes) → Application
  built state link = record {
    id = [];
    user_id = uid;
    company_name = clean req.company_name max_company_name;
    position_title = clean req.position_title max_position_title;
    status = state;
    location = clean_list req.location max_location_item max_locations;
    job_link = link;
    job_description = clean req.job_description max_job_description;
    tags = clean_list req.tags max_tag_length max_tags;
    notes = clean req.notes max_notes;
    compensation = clean_compensation req.compensation;
    resumes = [];
    applied_at = or_now req.applied_at now;
    next_follow_up_at = req.next_follow_up_at;
    created_at = 0;
    updated_at = 0;
  }

  built-IsStorable :
      (state link : Bytes)
      → same (clean req.company_name max_company_name) [] ≡ false
      → same (clean req.position_title max_position_title) [] ≡ false
      → is_valid_application_status state ≡ true
      → validate_job_link p.parse_url req.job_link ≡ ok link
      → IsStorable p.parse_url uid (built state link)
  built-IsStorable state link a b c l = record {
    owned = refl;
    company = (
      λ e. ground (arith, a, same_iff (clean req.company_name max_company_name) []),
      clean_safe req.company_name max_company_name,
    );
    position = (
      λ e. ground (arith, b, same_iff (clean req.position_title max_position_title) []),
      clean_safe req.position_title max_position_title,
    );
    status_valid = c;
    link = (validate_job_link_sound p.parse_url req.job_link link l).1;
    description = clean_safe req.job_description max_job_description;
    notes_safe = clean_safe req.notes max_notes;
    locations = clean_list-AreNamed req.location max_location_item max_locations (omega arith);
    tagged = clean_list-AreNamed req.tags max_tag_length max_tags (omega arith);
    pay = clean_compensation-IsPay req.compensation;
  }

  -- An application that Create accepts belongs to the user, names a company and a position, has
  -- one of the six statuses, and keeps to the bounds on its texts, its lists and its link.
  pub build_application-IsStorable :
      {app : Application}
      → build_application p now uid req ≡ ok app
      → IsStorable p.parse_url uid app
  unfolding build_application
  build_application-IsStorable {app = app} e =
      let company = clean req.company_name max_company_name in
      let position = clean req.position_title max_position_title in
      let state = or_default (trim_space req.status) (text "applied") in
      elim (Bool-cases (same company [])) [
        | inl a ↦ absurd (ground arith)
        | inr a ↦ elim (Bool-cases (same position [])) [
          | inl b ↦ absurd (ground arith)
          | inr b ↦ elim (Bool-cases (is_valid_application_status state)) [
            | inr c ↦ absurd (ground arith)
            | inl c ↦ elim (Result-cases (validate_job_link p.parse_url req.job_link)) [
              | inr (x, l) ↦ absurd (ground arith)
              | inl (link, l) ↦
                  let is : built state link ≡ app = ground arith in
                  subst (IsStorable p.parse_url uid) is (built-IsStorable state link a b c l)
            ]
          ]
        ]
      ]
