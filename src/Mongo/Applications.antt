-- ===== src/Mongo/Applications.antt =====
-- backend/internal/common/mongoWrap/application.go and internal/store/mongo/application.go.
use jsm.Common.{
  ℕ, zero, suc, ◌-◌, ◌*◌, String, ◌≡◌, refl, Bool, true, false, not, Option, none, some, List, [],
  ◌∷◌, ◌++◌, ◌==◌, if◌then◌else◌, any, Bytes, text, same,
}
use jsm.Number.{ℤ, pos, negsuc, int64_of}
use jsm.Metrics.{AppError, Result, ok, err, sentinel, wrapped, wrap, application_not_found, ◌>>=◌}
use jsm.Domain.{ObjectId, Application, CompensationInfo, ListApplicationsQuery}
use jsm.Mongo.{
  Collection, Page, Found, found, no_documents, failed, Inserted, inserted, duplicate_key,
  insert_failed,
}

-- One condition of a filter document; `matches_any` is the `$or` of four case-insensitive regular
-- expressions, on company_name, position_title, tags and notes.
pub data Condition : Type 0 where
  id_is : ObjectId → Condition
  user_id_is : ObjectId → Condition
  status_is : Bytes → Condition
  tags_has : Bytes → Condition
  matches_any : (pattern : Bytes) → Condition

-- One entry of the `$set` document.
pub data FieldUpdate : Type 0 where
  company_name position_title status job_link job_description notes : Bytes → FieldUpdate
  location tags : List Bytes → FieldUpdate
  applied_at updated_at : ℕ → FieldUpdate
  next_follow_up_at : Option ℕ → FieldUpdate
  compensation : Option CompensationInfo → FieldUpdate

abbrev pub Apps : Type 1
Apps = Collection Application (List Condition) (List FieldUpdate)

unfoldable pub scope_filter : ObjectId → ObjectId → List Condition
scope_filter id user_id = id_is id ∷ user_id_is user_id ∷ []

abbrev is_meta : ℕ → Bool
is_meta c = any (λ m. m == c) (text "\\.+*?()|[]{}^$")

-- regexp.QuoteMeta
unfoldable pub quote_meta : Bytes → Bytes
quote_meta [] = []
quote_meta (c ∷ s) = let rest = quote_meta s in if is_meta c then b'\\' ∷ c ∷ rest else c ∷ rest

abbrev when : Bool → Condition → List Condition
when true c = c ∷ []
when false c = []

unfoldable pub list_filter : ObjectId → ListApplicationsQuery → List Condition
unfolding quote_meta
list_filter user_id query =
    user_id_is user_id ∷ when (not (same query.status [])) (status_is query.status)
    ++ when (not (same query.tag [])) (tags_has query.tag)
    ++ when (not (same query.search [])) (matches_any (quote_meta query.search))

-- A page that the service has bounded is positive.
abbrev to_nat : ℤ → ℕ
to_nat (pos n) = n
to_nat (negsuc n) = 0

found_app : String → Found Application → Result Application
found_app context (found app) = ok app
found_app context no_documents = err (sentinel application_not_found)
found_app context (failed e) = err (wrapped context e)

module _ (apps : Apps) where
  open apps use {
    State, find_one, insert_one, find_one_and_update, delete_one, count_documents, find,
  }

  created_application : Application → Inserted × State → Result Application × State
  created_application app (inserted, st) = (ok app, st)
  created_application app (duplicate_key, st) =
      (err (wrapped "create application" (AppError.other "duplicate key")), st)
  created_application app (insert_failed e, st) = (err (wrapped "create application" e), st)

  unfoldable pub create_application :
      (new_id : ObjectId) (now : ℕ) → Application → State → Result Application × State
  unfolding created_application
  create_application new_id now app st =
      let stamped = record app { id = new_id; created_at = now; updated_at = now } in
      created_application stamped (insert_one st stamped)

  created_application_state :
      (app : Application) (x : Inserted × State) → (created_application app x).1 ≡ x.1
  unfolding created_application
  created_application_state app (inserted, st) = refl
  created_application_state app (duplicate_key, st) = refl
  created_application_state app (insert_failed e, st) = refl

  pub create_application_state :
      (new_id : ObjectId) (now : ℕ) (app : Application) (st : State)
      → (create_application new_id now app st).1
        ≡ (insert_one st (record app { id = new_id; created_at = now; updated_at = now })).1
  unfolding create_application
  create_application_state new_id now app st =
      let stamped = record app { id = new_id; created_at = now; updated_at = now } in
      created_application_state stamped (insert_one st stamped)

  unfoldable pub find_application_by_id : State → ObjectId → ObjectId → Result Application
  unfolding found_app scope_filter
  find_application_by_id st id user_id =
      found_app "find application" (find_one st (scope_filter id user_id))

  -- SetSkip and SetLimit; the product wraps as an int64 does.
  abbrev pub page_of : ListApplicationsQuery → Page
  page_of query = record {
    skip = int64_of ((to_nat query.page - 1) * to_nat query.page_size);
    limit = query.page_size;
  }

  -- Find and cursor.All are one call of the model; All's failures are its failures.
  unfoldable pub list_applications :
      State → ObjectId → ListApplicationsQuery → Result (List Application × ℕ)
  unfolding list_filter
  list_applications st user_id query = do
    let filter = list_filter user_id query
    total ← wrap "count applications" (count_documents st filter)
    found_apps ← wrap "list applications" (find st filter (page_of query))
    ok (found_apps, total)

  updated : Found Application × State → Result Application × State
  unfolding found_app
  updated (answer, st) = (found_app "update application" answer, st)

  unfoldable pub update_application :
      (now : ℕ) → ObjectId → ObjectId → List FieldUpdate → State → Result Application × State
  unfolding updated find_application_by_id scope_filter
  update_application now id user_id [] st = (find_application_by_id st id user_id, st)
  update_application now id user_id (f ∷ fs) st =
      updated (find_one_and_update st (scope_filter id user_id) ((f ∷ fs) ++ updated_at now ∷ []))

  deleted : Result ℕ × State → Option AppError × State
  deleted (err e, st) = (some (wrapped "delete application" e), st)
  deleted (ok zero, st) = (some (sentinel application_not_found), st)
  deleted (ok (suc n), st) = (none, st)

  unfoldable pub delete_application : ObjectId → ObjectId → State → Option AppError × State
  unfolding deleted scope_filter
  delete_application id user_id st = deleted (delete_one st (scope_filter id user_id))

  deleted_state : (x : Result ℕ × State) → (deleted x).1 ≡ x.1
  unfolding deleted
  deleted_state (err e, st) = refl
  deleted_state (ok zero, st) = refl
  deleted_state (ok (suc n), st) = refl

  -- What a Delete leaves behind is what the driver's call leaves.
  pub delete_application_state :
      (id user_id : ObjectId) (st : State)
      → (delete_application id user_id st).1 ≡ (delete_one st (scope_filter id user_id)).1
  unfolding delete_application
  delete_application_state id user_id st = deleted_state (delete_one st (scope_filter id user_id))
