-- ===== src/Sources/Tests.antt =====
-- A layout, and the theorems at it.
use property_tax_data_platfo.Base.{
  ℕ, String, true, none, some, List, [], ◌∷◌, Except, ok, ◌≡◌, refl,
}
use property_tax_data_platfo.Sources.Pacs.{
  PacsField, PacsLayout, LayoutError, field_post_init, new_layout, check_order, slice_record,
}
use property_tax_data_platfo.Sources.Written.{
  Row, fields_of, IsRow, write_rows, whole_record, slice_record-written,
}

abbrev year : PacsField
year = record { name = "year"; start = 1; end_at = 4; required = true; declared_length = some 4 }

abbrev kind : PacsField
kind = record { name = "kind"; start = 6; end_at = 6; required = true; declared_length = none }

abbrev two_rows : List Row
two_rows = (year, 50 ∷ 48 ∷ 50 ∷ 53 ∷ []) ∷ (kind, 82 ∷ []) ∷ []

abbrev layout : PacsLayout
layout = record { layout_id = "pacs"; layout_version = "8"; fields = year ∷ kind ∷ [] }

layout-made : new_layout "pacs" "8" (fields_of two_rows) ≡ ok layout
unfolding new_layout check_order
layout-made = refl

year-IsRow : IsRow (year, 50 ∷ 48 ∷ 50 ∷ 53 ∷ [])
unfolding field_post_init
year-IsRow = (refl, refl)

kind-IsRow : IsRow (kind, 82 ∷ [])
unfolding field_post_init
kind-IsRow = (refl, refl)

abbrev encoded : List ℕ → Except LayoutError (List ℕ)
encoded text = ok text

abbrev digest : List ℕ → String
digest bytes = ""

slice_record-written_example :
    slice_record encoded digest layout (write_rows 1 two_rows) ≡ ok (whole_record two_rows)
slice_record-written_example =
    slice_record-written encoded digest "pacs" "8" two_rows layout layout-made
      (year-IsRow, (kind-IsRow, tt))
