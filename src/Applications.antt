-- ===== src/Applications.antt =====
-- backend/internal/service/application.go: the service behind /applications. `url.Parse`,
-- `bson.ObjectIDFromHex`, `json.Unmarshal` of the two raw fields and the store are parameters.
pub mod Cleaned
pub mod Patch
pub mod Checks
pub mod Update
pub mod Untouched
pub mod Owner
pub mod Results
pub mod Paging
use jsm.Common.{
  ℕ, String, not, ◌&&◌, Option, none, some, List, [], ◌∷◌, ◌++◌, ltb, if◌then◌else◌, length, Bytes,
  text, same,
}
use jsm.Number.{ℤ, pos, negsuc, ltb_ℤ}
use jsm.Metrics.{AppError, Result, ok, err, sentinel, application_not_found, invalid_input, ◌>>=◌}
use jsm.Domain.{
  ObjectId, Application, CompensationInfo, CreateApplicationRequest, UpdateApplicationRequest,
  ListApplicationsQuery, ApplicationPage, is_valid_application_status,
}
use jsm.Text.{trim_space}
use jsm.Sanitise.{
  Url, clean, clean_list, validate_job_link, max_company_name, max_position_title,
  max_job_description, max_notes, max_location_item, max_locations, max_tag_length, max_tags,
  max_equity, max_benefit_item, max_benefits,
}
use jsm.Mongo.Applications.{
  Apps, FieldUpdate, company_name, position_title, status, job_link, job_description, notes,
  location, tags, applied_at, next_follow_up_at, compensation, create_application,
  find_application_by_id, list_applications, update_application, delete_application,
}

pub record Parsers : Type 0 where
  pub parse_url : Bytes → Option Url
  pub object_id_from_hex : Bytes → Option ObjectId
  pub unmarshal_time : Bytes → Option ℕ
  pub unmarshal_compensation : Bytes → Option CompensationInfo

unfoldable pub clean_compensation : Option CompensationInfo → Option CompensationInfo
clean_compensation none = none
clean_compensation (some c) = some (record {
  base_salary = c.base_salary;
  bonus = c.bonus;
  equity = clean c.equity max_equity;
  benefits = clean_list c.benefits max_benefit_item max_benefits;
})

abbrev pub status_error : AppError
status_error =
    invalid_input "status must be one of: applied, phone_screen, onsite, offer, rejected, withdrawn"

-- A field that must not be empty once it is cleaned.
abbrev pub required : String → Bytes → Result Bytes
required reason v = if same v [] then err (invalid_input reason) else ok v

abbrev pub valid_status : Bytes → Result Bytes
valid_status s = if not (is_valid_application_status s) then err status_error else ok s

abbrev or_default : Bytes → Bytes → Bytes
or_default s d = if same s [] then d else s

abbrev pub or_now : Option ℕ → ℕ → ℕ
or_now none now = now
or_now (some t) now = t

-- `applyNullable`: absent, null or a value.
unfoldable pub apply_nullable {ℓ} :
    {A : Type ℓ}
    → (Option A → FieldUpdate)
    → Option Bytes
    → (Bytes → Result (Option A))
    → Result (List FieldUpdate)
apply_nullable field none parse = ok []
apply_nullable field (some raw) parse =
    if same raw (text "null")
    then ok (field none ∷ [])
    else (do value ← parse raw; ok (field value ∷ []))

-- A field that the request may leave out.
abbrev pub patch : {A : Type 0} → Option A → (A → Result FieldUpdate) → Result (List FieldUpdate)
patch none f = ok []
patch (some a) f = do u ← f a; ok (u ∷ [])

abbrev pub or_invalid : {A : Type 0} → String → Option A → Result A
or_invalid reason none = err (invalid_input reason)
or_invalid reason (some a) = ok a

abbrev pub bound_page : ℤ → ℤ
bound_page n = if ltb_ℤ n (pos 1) then pos 1 else n

abbrev pub bound_page_size : ℤ → ℤ
bound_page_size n =
    let size = (if ltb_ℤ n (pos 1) then pos 20 else n) in
    if ltb_ℤ (pos 200) size then pos 200 else size

unfoldable pub bound_query : ListApplicationsQuery → ListApplicationsQuery
bound_query q = record q { page = bound_page q.page; page_size = bound_page_size q.page_size }

check_query : ListApplicationsQuery → Result ListApplicationsQuery
unfolding bound_query
check_query q =
    if not (same q.status []) && not (is_valid_application_status q.status)
    then err status_error
    else if ltb 200 (length q.search)
    then err (invalid_input "q must be at most 200 characters")
    else ok (bound_query q)

unfoldable pub gather : List (Result (List FieldUpdate)) → Result (List FieldUpdate)
gather [] = ok []
gather (r ∷ rs) = do us ← r; vs ← gather rs; ok (us ++ vs)

module _ (p : Parsers) where
  open p use {parse_url, object_id_from_hex, unmarshal_time, unmarshal_compensation}

  user_oid : Option ObjectId → Result ObjectId
  user_oid none = err (invalid_input "invalid user id")
  user_oid (some uid) = ok uid

  app_oid : Option ObjectId → Result ObjectId
  app_oid none = err (sentinel application_not_found)
  app_oid (some id) = ok id

  unfoldable pub parse_ids : (user_id id : Bytes) → Result (ObjectId × ObjectId)
  unfolding user_oid app_oid
  parse_ids user_id id = do
    uid ← user_oid (object_id_from_hex user_id)
    app_id ← app_oid (object_id_from_hex id)
    ok (uid, app_id)

  -- The document that Create hands to the store, which stamps the ID and the two times.
  unfoldable pub build_application :
      (now : ℕ) → ObjectId → CreateApplicationRequest → Result Application
  unfolding clean_compensation
  build_application now uid req = do
    company ← required "company_name is required" (clean req.company_name max_company_name)
    position ← required "position_title is required" (clean req.position_title max_position_title)
    state ← valid_status (or_default (trim_space req.status) (text "applied"))
    link ← validate_job_link parse_url req.job_link
    ok (record {
      id = [];
      user_id = uid;
      company_name = company;
      position_title = position;
      status = state;
      location = clean_list req.location max_location_item max_locations;
      job_link = link;
      job_description = clean req.job_description max_job_description;
      tags = clean_list req.tags max_tag_length max_tags;
      notes = clean req.notes max_notes;
      compensation = clean_compensation req.compensation;
      resumes = [];
      applied_at = or_now req.applied_at now;
      next_follow_up_at = req.next_follow_up_at;
      created_at = 0;
      updated_at = 0;
    })

  -- The fields of Update, in the order in which they are checked.
  unfoldable pub checks : UpdateApplicationRequest → List (Result (List FieldUpdate))
  unfolding apply_nullable clean_compensation
  checks req =
      patch req.company_name (λ v. do
        c ← required "company_name cannot be empty" (clean v max_company_name)
        ok (company_name c))
      ∷ patch req.position_title (λ v. do
        c ← required "position_title cannot be empty" (clean v max_position_title)
        ok (position_title c))
      ∷ patch req.status (λ v. do s ← valid_status (trim_space v); ok (status s))
      ∷ patch req.job_link (λ v. do l ← validate_job_link parse_url v; ok (job_link l))
      ∷ patch req.job_description (λ v. ok (job_description (clean v max_job_description)))
      ∷ patch req.notes (λ v. ok (notes (clean v max_notes)))
      ∷ patch req.location (λ v. ok (location (clean_list v max_location_item max_locations)))
      ∷ patch req.tags (λ v. ok (tags (clean_list v max_tag_length max_tags)))
      ∷ patch req.applied_at (λ v. ok (applied_at v))
      ∷ apply_nullable next_follow_up_at req.next_follow_up_at (λ raw. do
        t ← or_invalid "next_follow_up_at must be an RFC3339 timestamp or null" (unmarshal_time raw)
        ok (some t))
      ∷ apply_nullable compensation req.compensation (λ raw. do
        v ← or_invalid "compensation must be an object or null" (unmarshal_compensation raw)
        ok (clean_compensation (some v)))
      ∷ []

  -- The `$set` document; the first check that fails is the answer.
  unfoldable pub build_patch : UpdateApplicationRequest → Result (List FieldUpdate)
  unfolding checks gather
  build_patch req = gather (checks req)

  module _ (apps : Apps) where
    open apps use {State}

    unfoldable pub create :
        (new_id : ObjectId) (now : ℕ) (user_id : Bytes)
        → CreateApplicationRequest
        → State
        → Result Application × State
    unfolding user_oid build_application
    create new_id now user_id req st =
        elim (do uid ← user_oid (object_id_from_hex user_id); build_application now uid req) [
          | err e ↦ (err e, st)
          | ok app ↦ create_application apps new_id now app st
        ]

    unfoldable pub get : (user_id id : Bytes) → State → Result Application
    unfolding parse_ids
    get user_id id st = do ids ← parse_ids user_id id; find_application_by_id apps st ids.1 ids.0

    unfoldable pub list : (user_id : Bytes) → ListApplicationsQuery → State → Result ApplicationPage
    unfolding user_oid check_query
    list user_id query st = do
      uid ← user_oid (object_id_from_hex user_id)
      q ← check_query query
      r ← list_applications apps st uid q
      ok (record { applications = r.0; page = q.page; page_size = q.page_size; total = r.1 })

    unfoldable pub update :
        (now : ℕ) (user_id id : Bytes)
        → UpdateApplicationRequest
        → State
        → Result Application × State
    unfolding parse_ids build_patch
    update now user_id id req st = elim (parse_ids user_id id) [
      | err e ↦ (err e, st)
      | ok (uid, app_id) ↦ elim (build_patch req) [
        | err e ↦ (err e, st)
        | ok set ↦ update_application apps now app_id uid set st
      ]
    ]

    unfoldable pub delete : (user_id id : Bytes) → State → Option AppError × State
    unfolding parse_ids
    delete user_id id st = elim (parse_ids user_id id) [
      | err e ↦ (some e, st)
      | ok (uid, app_id) ↦ delete_application apps app_id uid st
    ]
