-- ===== src/Sources/Pacs.antt =====
-- sources/pacs.py: fixed-width layouts at 1-indexed inclusive positions, and the slicing of a record.
-- A record is its code points.
use property_tax_data_platfo.Base.{
  ℕ, ◌+◌, ◌-◌, String, Bool, true, false, not, ◌||◌, ◌==◌, Option, none, some, List, [], ◌∷◌,
  Except, Check, ok, err, refuse_if, ◌>>◌, ◌>>=◌, leb, ltb, length, take, drop, any, str_eq,
  if◌then◌else◌,
}

pub record PacsField : Type 0 where
  pub name : String
  pub start : ℕ
  pub end_at : ℕ
  pub required : Bool
  pub declared_length : Option ℕ

pub data LayoutError : Type 0 where
  unnamed not_one_indexed ends_early wrong_length unidentified repeated_name out_of_order overlaps :
      LayoutError

abbrev pub is_blank_name : String → Bool
is_blank_name name = str_eq name ""

-- `PacsField.length`; it is asked for behind the test on the positions.
unfoldable pub field_length : PacsField → ℕ
field_length f = f.end_at - f.start + 1

abbrev disagrees : Option ℕ → ℕ → Bool
disagrees none width = false
disagrees (some declared) width = not (declared == width)

unfoldable pub field_post_init : PacsField → Check LayoutError
unfolding field_length
field_post_init f = do
  refuse_if (is_blank_name f.name) unnamed
  refuse_if (ltb f.start 1) not_one_indexed
  refuse_if (ltb f.end_at f.start) ends_early
  refuse_if (disagrees f.declared_length (field_length f)) wrong_length

-- some name stands twice
abbrev pub names_twice : List PacsField → Bool
names_twice [] = false
names_twice (f ∷ fs) = any (λ other. str_eq f.name other.name) fs || names_twice fs

-- the loop of `PacsLayout.__init__`, behind its previous field
unfoldable pub check_order : PacsField → List PacsField → Check LayoutError
check_order previous [] = ok tt
check_order previous (f ∷ fs) =
    refuse_if (leb f.start previous.start) out_of_order
    >> (refuse_if (leb f.start previous.end_at) overlaps >> check_order f fs)

abbrev pub check_fields : List PacsField → Check LayoutError
check_fields [] = err unidentified
check_fields (f ∷ fs) = refuse_if (names_twice (f ∷ fs)) repeated_name >> check_order f fs

-- The fingerprint is a digest of these fields.
pub record PacsLayout : Type 0 where
  pub layout_id : String
  pub layout_version : String
  pub fields : List PacsField

unfoldable pub new_layout : String → String → List PacsField → Except LayoutError PacsLayout
unfolding check_order
new_layout layout_id layout_version fields = do
  refuse_if (is_blank_name layout_id) unidentified
  refuse_if (is_blank_name layout_version) unidentified
  check_fields fields
  ok (record { layout_id = layout_id; layout_version = layout_version; fields = fields })

-- `self._fields[-1].end`
abbrev pub last_end : ℕ → List PacsField → ℕ
last_end end_at [] = end_at
last_end end_at (f ∷ fs) = last_end f.end_at fs

unfoldable pub declared_width : PacsLayout → ℕ
declared_width layout = last_end 0 layout.fields

-- `record[start - 1 : end]`
unfoldable pub slice : PacsField → List ℕ → List ℕ
slice f text = drop (f.start - 1) (take f.end_at text)

pub record TrailingRegion : Type 0 where
  pub byte_length : ℕ
  pub digest : String

pub record SlicedRecord : Type 0 where
  pub values : List (String × List ℕ)
  pub truncated_required : List String
  pub absent_optional : List String
  pub trailing : Option TrailingRegion

-- The three lists that the loop of `slice_record` fills.
pub record Sliced : Type 0 where
  pub values : List (String × List ℕ)
  pub truncated : List String
  pub absent : List String

abbrev pub add_field : PacsField → List ℕ → Bool → Bool → Sliced → Sliced
add_field f text true true s = record s { truncated = f.name ∷ s.truncated }
add_field f text true false s = record s { absent = f.name ∷ s.absent }
add_field f text false required s = record s { values = (f.name, slice f text) ∷ s.values }

-- the loop, its fields in their order
unfoldable pub slice_fields : List PacsField → List ℕ → Sliced
unfolding slice
slice_fields [] text = record { values = []; truncated = []; absent = [] }
slice_fields (f ∷ fs) text =
    add_field f text (ltb (length text) f.end_at) f.required (slice_fields fs text)

-- `str.encode` under the encoding, which may raise, and the digest, are Python's.
module _ {E : Type 0} (encode : List ℕ → Except E (List ℕ)) (sha256 : List ℕ → String) where
  abbrev trailing_of : List ℕ → Except E (Option TrailingRegion)
  trailing_of region = do
    encoded ← encode region
    ok (some (record { byte_length = length encoded; digest = sha256 encoded }))

  unfoldable pub slice_record : PacsLayout → List ℕ → Except E SlicedRecord
  unfolding slice_fields declared_width
  slice_record layout text = do
    let sliced : Sliced = slice_fields layout.fields text
    trailing ←
        if ltb (declared_width layout) (length text)
        then trailing_of (drop (declared_width layout) text)
        else ok none
    ok (record {
      values = sliced.values;
      truncated_required = sliced.truncated;
      absent_optional = sliced.absent;
      trailing = trailing;
    })
