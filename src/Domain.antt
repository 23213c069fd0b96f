-- ===== src/Domain.antt =====
-- backend/internal/domain: the documents, the request bodies and the page envelope. An instant is
-- in nanoseconds, an ObjectID is its 12 bytes; Go's `int` and `int64` are integers.
use jsm.Common.{ℕ, Bool, true, false, Option, List, [], ◌∷◌, if◌then◌else◌, Bytes, text, same}
use jsm.Number.{ℤ}

abbrev pub ObjectId : Type 0
ObjectId = Bytes

pub record CompensationInfo : Type 0 where
  pub base_salary : ℤ
  pub bonus : ℤ
  pub equity : Bytes
  pub benefits : List Bytes

pub record ResumeVersion : Type 0 where
  pub id : ObjectId
  pub label : Bytes
  pub storage_key : Bytes
  pub file_name : Bytes
  pub uploaded_at : ℕ

pub record Application : Type 0 where
  pub id : ObjectId
  pub user_id : ObjectId
  pub company_name : Bytes
  pub position_title : Bytes
  pub status : Bytes
  pub location : List Bytes
  pub job_link : Bytes
  pub job_description : Bytes
  pub tags : List Bytes
  pub notes : Bytes
  pub compensation : Option CompensationInfo
  pub resumes : List ResumeVersion
  pub applied_at : ℕ
  pub next_follow_up_at : Option ℕ
  pub created_at : ℕ
  pub updated_at : ℕ

abbrev pub application_statuses : List Bytes
application_statuses =
    text "applied"
    ∷ text "phone_screen"
    ∷ text "onsite"
    ∷ text "offer"
    ∷ text "rejected"
    ∷ text "withdrawn"
    ∷ []

status_among : List Bytes → Bytes → Bool
status_among [] status = false
status_among (s ∷ ss) status = if same s status then true else status_among ss status

unfoldable pub is_valid_application_status : Bytes → Bool
unfolding status_among
is_valid_application_status status = status_among application_statuses status

pub record CreateApplicationRequest : Type 0 where
  pub company_name : Bytes
  pub position_title : Bytes
  pub status : Bytes
  pub location : List Bytes
  pub job_link : Bytes
  pub job_description : Bytes
  pub tags : List Bytes
  pub notes : Bytes
  pub compensation : Option CompensationInfo
  pub applied_at : Option ℕ
  pub next_follow_up_at : Option ℕ

-- A pointer that is nil is `none`. The two raw messages are `none` where the key is absent.
pub record UpdateApplicationRequest : Type 0 where
  pub company_name : Option Bytes
  pub position_title : Option Bytes
  pub status : Option Bytes
  pub location : Option (List Bytes)
  pub job_link : Option Bytes
  pub job_description : Option Bytes
  pub tags : Option (List Bytes)
  pub notes : Option Bytes
  pub applied_at : Option ℕ
  pub next_follow_up_at : Option Bytes
  pub compensation : Option Bytes

pub record ListApplicationsQuery : Type 0 where
  pub status : Bytes
  pub tag : Bytes
  pub search : Bytes
  pub page : ℤ
  pub page_size : ℤ

pub record ApplicationPage : Type 0 where
  pub applications : List Application
  pub page : ℤ
  pub page_size : ℤ
  pub total : ℕ

pub record LogInRequest : Type 0 where
  pub email : Bytes
  pub password : Bytes

pub record ChangePasswordRequest : Type 0 where
  pub current_password : Bytes
  pub new_password : Bytes

pub record User : Type 0 where
  pub id : ObjectId
  pub email : Bytes
  pub email_normalized : Bytes
  pub password_hash : Bytes
  pub name : Bytes
  pub email_verified : Bool
  pub email_verified_at : Option ℕ
  pub created_at : ℕ
  pub updated_at : ℕ

pub record SignUpRequest : Type 0 where
  pub email : Bytes
  pub password : Bytes
  pub name : Bytes
