-- ===== src/Logging.antt =====
-- backend/internal/common/logbuilder. A logger is its level; a line is a value. Package logrus's
-- parser of levels is a parameter. Times and durations are left out of the lines.
pub mod Fields
use jsm.Common.{
  ℕ, Bool, false, Option, none, some, List, [], ◌∷◌, ◌++◌, ltb, if◌then◌else◌, all, Bytes, text,
  same,
}
use jsm.Metrics.{AppError, Result, ok, err, other, ◌>>=◌}

-- logrus's levels, the more severe the lower: a logger writes a line of its own level or below.
abbrev pub info_level : ℕ
info_level = 4

abbrev pub debug_level : ℕ
debug_level = 5

-- A map of fields; no key is listed twice.
abbrev pub FieldMap : Type 0
FieldMap = List (Bytes × Bytes)

pub record LogConfig : Type 0 where
  pub level : Option Bytes
  pub disable_colors : Option Bool

-- `plain` is whether colours are disabled.
pub record Logger : Type 0 where
  pub level : ℕ
  pub plain : Bool

pub record Line : Type 0 where
  pub level : ℕ
  pub message : Bytes
  pub fields : FieldMap
  -- Further arguments, which logrus prints behind the message.
  pub arguments : List FieldMap

unfoldable pub new_default_info_level_logger : Logger
new_default_info_level_logger = record { level = info_level; plain = false }

unset : AppError
unset = other "all fields must be set"

unfoldable pub new_jsm_logger : (Bytes → Result ℕ) → LogConfig → Result Logger
unfolding unset
new_jsm_logger parse_level config = elim config.level [
  | none ↦ err unset
  | some level ↦ if same level [] then err unset else elim config.disable_colors [
    | none ↦ err unset
    | some disable ↦ (do n ← parse_level level; ok (record { level = n; plain = disable }))
  ]
]

unfoldable pub get_field : FieldMap → Bytes → Option Bytes
get_field [] key = none
get_field ((k, v) ∷ m) key = if same k key then some v else get_field m key

-- result[key] = value
unfoldable pub set_field : Bytes → Bytes → FieldMap → FieldMap
set_field key value [] = (key, value) ∷ []
set_field key value ((k, v) ∷ m) =
    let rest = set_field key value m in if same k key then (key, value) ∷ m else (k, v) ∷ rest

unfoldable pub copy_fields : FieldMap → FieldMap → FieldMap
unfolding set_field
copy_fields [] result = result
copy_fields ((k, v) ∷ fields) result = copy_fields fields (set_field k v result)

merge_into : List FieldMap → FieldMap → FieldMap
unfolding copy_fields
merge_into [] result = result
merge_into (fields ∷ sets) result = merge_into sets (copy_fields fields result)

unfoldable pub merge_fields : List FieldMap → FieldMap
unfolding merge_into
merge_fields sets = merge_into sets []

unfoldable pub merge_with_additional : List FieldMap → FieldMap → FieldMap
unfolding merge_fields
merge_with_additional existing additional = merge_fields (existing ++ additional ∷ [])

-- A line at a level, through `entry`.
unfoldable pub log_at : ℕ → Logger → Bytes → List FieldMap → List Line
unfolding merge_fields
log_at level logger message sets =
    if ltb logger.level level
    then []
    else record { level = level; message = message; fields = merge_fields sets; arguments = [] }
      ∷ []

operation_field : Bytes → FieldMap
operation_field operation = (text "operation", operation) ∷ []

-- Track: what it writes, and what the function that it returns writes when it is called. That
-- function hands the fields to logger.Info as an argument.
unfoldable pub track : Logger → Bytes → List FieldMap → List Line × (FieldMap → List Line)
unfolding log_at merge_with_additional operation_field
track logger operation sets = (
  log_at debug_level logger (text "operation started")
      (merge_with_additional sets (operation_field operation) ∷ []),
  λ timing.
      if ltb logger.level info_level
      then []
      else record {
        level = info_level;
        message = text "operation completed";
        fields = [];
        arguments = merge_with_additional sets (operation_field operation ++ timing) ∷ [];
      }
        ∷ [],
)

-- `defer func() { logger.Track(operation) }()`, as the handlers and the services have it: the
-- function that Track returns is dropped.
unfoldable pub deferred_track : Logger → Bytes → List FieldMap → List Line
unfolding track
deferred_track logger operation sets = (track logger operation sets).0
