-- ===== src/Logging/Fields.antt =====
-- Merged fields as a map.
use jsm.Common.{
  ◌≡◌, refl, ap, ◌∙◌, Option, none, some, List, [], ◌∷◌, ◌++◌, arith, if◌then◌else◌, All, Bytes,
  same, same_iff,
}
use jsm.Logging.{
  FieldMap, get_field, set_field, copy_fields, merge_into, merge_fields, merge_with_additional,
}

get-set_field :
    (key j value : Bytes) (m : FieldMap)
    → get_field (set_field key value m) j ≡ (if same key j then some value else get_field m j)
unfolding get_field set_field
get-set_field key j value [] = refl
get-set_field key j value ((k, v) ∷ m) =
    ground (arith, get-set_field key j value m, same_iff k key, same_iff k j, same_iff key j)

-- The first map's entry, or else the second's.
abbrev pub or_else : Option Bytes → Option Bytes → Option Bytes
or_else (some v) o = some v
or_else none o = o

-- No key is listed twice.
abbrev pub IsMap : FieldMap → Type 0
IsMap [] = Unit
IsMap ((k, v) ∷ m) = (get_field m k ≡ none) × IsMap m

get-copy_fields :
    (fields result : FieldMap) (j : Bytes)
    → IsMap fields
    → get_field (copy_fields fields result) j ≡ or_else (get_field fields j) (get_field result j)
unfolding get_field copy_fields
get-copy_fields [] result j h = refl
get-copy_fields ((k, v) ∷ fields) result j (new, h) = ground (
  arith,
  get-copy_fields fields (set_field k v result) j h,
  get-set_field k j v result,
  same_iff k j,
)

abbrev pub AreMaps : List FieldMap → Type 0
AreMaps sets = All IsMap sets

merge_into-append :
    (sets more : List FieldMap) (result : FieldMap)
    → merge_into (sets ++ more) result ≡ merge_into more (merge_into sets result)
unfolding merge_into
merge_into-append [] more result = refl
merge_into-append (m ∷ sets) more result = merge_into-append sets more (copy_fields m result)

-- Of the maps that hold a key the last one's value is kept; so a key that Track adds is never
-- overwritten by a caller's.
pub get-merge_with_additional :
    (existing : List FieldMap) (additional : FieldMap) (j : Bytes)
    → IsMap additional
    → get_field (merge_with_additional existing additional) j
      ≡ or_else (get_field additional j) (get_field (merge_fields existing) j)
unfolding merge_with_additional merge_fields
get-merge_with_additional existing additional j h =
    ap (λ m. get_field m j) (merge_into-append existing (additional ∷ []) [])
    ∙ get-copy_fields additional (merge_into existing []) j h
