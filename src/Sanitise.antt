-- ===== src/Sanitise.antt =====
-- backend/internal/service/application.go: what free text goes through before it is stored.
pub mod Bounds
pub mod Lists
pub mod Links
use jsm.Common.{
  ℕ, Bool, not, ◌&&◌, Option, none, some, List, [], ◌∷◌, ◌++◌, ltb, ◌==◌, if◌then◌else◌, length,
  take, any, Bytes, text, same,
}
use jsm.Metrics.{Result, ok, err, invalid_input}
use jsm.Text.{trim_space, escape_string}

abbrev pub max_company_name : ℕ
max_company_name = 200

abbrev pub max_position_title : ℕ
max_position_title = 200

abbrev pub max_job_link : ℕ
max_job_link = 2000

abbrev pub max_job_description : ℕ
max_job_description = 50_000

abbrev pub max_notes : ℕ
max_notes = 20_000

abbrev pub max_location_item : ℕ
max_location_item = 200

abbrev pub max_locations : ℕ
max_locations = 20

abbrev pub max_tag_length : ℕ
max_tag_length = 50

abbrev pub max_tags : ℕ
max_tags = 30

abbrev pub max_equity : ℕ
max_equity = 200

abbrev pub max_benefit_item : ℕ
max_benefit_item = 100

abbrev pub max_benefits : ℕ
max_benefits = 30

unfoldable pub clean : Bytes → ℕ → Bytes
clean value limit =
    let escaped = escape_string (trim_space value) in
    if ltb limit (length escaped) then take limit escaped else escaped

abbrev pub member : Bytes → List Bytes → Bool
member v seen = any (λ w. same w v) seen

-- The loop of `cleanList`. The list `out` is also the set `seen`: both get the same values.
unfoldable pub clean_from : ℕ → ℕ → List Bytes → List Bytes → List Bytes
clean_from max_item max_len out [] = out
clean_from max_item max_len out (v ∷ values) =
    let cleaned = clean v max_item in
    let skipped = clean_from max_item max_len out values in
    let longer = out ++ cleaned ∷ [] in
    let rest = clean_from max_item max_len longer values in
    if same cleaned []
    then skipped
    else if member cleaned out
    then skipped
    else if length longer == max_len
    then longer
    else rest

unfoldable pub clean_list : List Bytes → ℕ → ℕ → List Bytes
unfolding clean_from
clean_list values max_item max_len = clean_from max_item max_len [] values

-- What net/url.Parse reads off a link: its scheme in lower case and its host.
pub record Url : Type 0 where
  pub scheme : Bytes
  pub host : Bytes

unfoldable pub validate_job_link : (Bytes → Option Url) → Bytes → Result Bytes
validate_job_link parse_url raw =
    let link = trim_space raw in
    if same link []
    then ok []
    else if ltb max_job_link (length link)
    then err (invalid_input "job_link must be at most 2000 characters")
    else elim (parse_url link) [
      | none ↦ err (invalid_input "job_link is not a valid URL")
      | some url ↦
          if not (same url.scheme (text "http")) && not (same url.scheme (text "https"))
          then err (invalid_input "job_link must be an http or https URL")
          else if same url.host []
          then err (invalid_input "job_link must include a host")
          else ok link
    ]
