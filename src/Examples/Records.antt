-- ===== src/Examples/Records.antt =====
-- The theorems on the stored applications, at concrete inputs.
use jsm.Common.{◌≤◌, ◌≡◌, refl, none, some, List, [], ◌∷◌, length, text}
use jsm.Number.{pos}
use jsm.Metrics.{ok}
use jsm.Domain.{Application, ListApplicationsQuery, ApplicationPage}
use jsm.Mongo.Applications.{FieldUpdate, notes, list_applications}
use jsm.Mongo.Documents.{apply_fields}
use jsm.Sanitise.{clean}
use jsm.Text.{escape_string, trim_space}
use jsm.Applications.{Parsers, list, build_patch, checks, gather}
use jsm.Domain.{UpdateApplicationRequest}
use jsm.Mongo.Applications.{company_name}
use jsm.Applications.Untouched.{unmentioned, build_patch-unmentioned}
use jsm.Applications.Paging.{IsPage, list-IsPage}
use jsm.Examples.Samples.{applications, never, listed-IsCollection, application, two_owners}

abbrev anns : Application
anns = application (text "1") (text "ann") (text "X")

abbrev everything : ListApplicationsQuery
everything = record { status = []; tag = []; search = []; page = pos 0; page_size = pos 999 }

abbrev parsers : Parsers
parsers = record {
  parse_url = λ s. none;
  object_id_from_hex = λ s. some s;
  unmarshal_time = λ s. none;
  unmarshal_compensation = λ s. none;
}

abbrev page : ApplicationPage
page = record { applications = anns ∷ []; page = pos 1; page_size = pos 200; total = 1 }

ann_pages : list parsers applications (text "ann") everything two_owners ≡ ok page
unfolding list
ann_pages = unfold list_applications in refl

list-IsPage_example :
    (is : IsPage parsers applications two_owners (text "ann") everything page) × (length
        page.applications
      ≤ is.size)
list-IsPage_example =
    list-IsPage parsers applications two_owners never (λ st. st) (listed-IsCollection _ _)
      (text "ann") everything {page = page} ann_pages

abbrev stored : Application
stored = record (application [] (text "ann") (text "X")) { applied_at = 5 }

abbrev renaming : UpdateApplicationRequest
renaming = record {
  company_name = some (text " Y ");
  position_title = none;
  status = none;
  location = none;
  job_link = none;
  job_description = none;
  tags = none;
  notes = some (text "n");
  applied_at = none;
  next_follow_up_at = none;
  compensation = none;
}

abbrev renamed : List FieldUpdate
renamed = company_name (text "Y") ∷ notes (text "n") ∷ []

renaming_builds : build_patch parsers renaming ≡ ok renamed
unfolding build_patch clean escape_string trim_space
renaming_builds = unfold checks gather in refl

build_patch-unmentioned_example :
    unmentioned renaming (apply_fields renamed stored) ≡ unmentioned renaming stored
build_patch-unmentioned_example =
    build_patch-unmentioned renaming parsers stored {set = renamed} renaming_builds
