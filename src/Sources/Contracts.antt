-- ===== src/Sources/Contracts.antt =====
-- sources/contracts.py: the source-native values that every county adapter hands over.
-- A field's type stands for the `isinstance` tests; each other rule of a `__post_init__` is a line
-- of the function of that name, in the order of the source.
use property_tax_data_platfo.Base.{
  ℕ, zero, suc, String, Bool, true, false, not, ◌&&◌, ◌||◌, Option, none, some, List, [], ◌∷◌, ℤ,
  pos, negsuc, Check, ok, refuse_if, ◌>>◌, leb, ◌==◌, is_some, codes, is_blank, str_eq,
}

-- `ValueError`, with the field or the rule that its message names
pub data ValueError : Type 0 where
  blank not_positive bad_jurisdiction jurisdictions_differ unpaired : String → ValueError
  misnamed : String → String → ValueError
  bad_identifier bad_code bad_version bad_row bad_notices bad_name bad_outcome : String → ValueError

unfoldable pub is_lower : ℕ → Bool
is_lower c = leb b'a' c && leb c b'z'

unfoldable pub is_digit : ℕ → Bool
is_digit c = leb b'0' c && leb c b'9'

-- one or more `[a-z0-9]`, then groups of the same behind a hyphen; the flag is whether the group
-- at hand has a character yet
unfoldable pub slug : Bool → List ℕ → Bool
unfolding is_lower is_digit
slug begun [] = begun
slug begun (c ∷ cs) = elim (is_lower c || is_digit c) [
  | true ↦ slug true cs
  | false ↦ elim (begun && c == b'-') [ true ↦ slug false cs | false ↦ false ]
]

-- `_JURISDICTION_PATTERN.fullmatch`
unfoldable pub is_jurisdiction : List ℕ → Bool
unfolding slug
is_jurisdiction (a ∷ b ∷ h ∷ rest) = is_lower a && is_lower b && h == b'-' && slug false rest
is_jurisdiction _ = false

unfoldable pub require_text : String → String → Check ValueError
unfolding is_blank
require_text value field_name = refuse_if (is_blank value) (blank field_name)

unfoldable pub require_optional_text : Option String → String → Check ValueError
unfolding require_text
require_optional_text none field_name = ok tt
require_optional_text (some value) field_name = require_text value field_name

unfoldable pub require_jurisdiction : String → String → Check ValueError
unfolding require_text is_jurisdiction
require_jurisdiction value field_name = do
  require_text value field_name
  refuse_if (not (is_jurisdiction (codes value))) (bad_jurisdiction field_name)

-- `value >= 1`
abbrev pub is_positive : ℤ → Bool
is_positive (pos zero) = false
is_positive (pos (suc _)) = true
is_positive (negsuc _) = false

unfoldable pub require_positive_int : ℤ → String → Check ValueError
require_positive_int value field_name =
    refuse_if (not (is_positive value)) (not_positive field_name)

-- `str | int | Decimal`; a decimal is a coefficient and a power of ten
pub data NativeScalar : Type 0 where
  text : String → NativeScalar
  int : ℤ → NativeScalar
  decimal : ℤ → ℤ → NativeScalar

pub record SourceNativeValue : Type 0 where
  pub source_field : String
  pub value : NativeScalar
  pub lexical_text : Option String
  pub precision : Option ℤ
  pub scale : Option ℤ

-- `a != b` for two flags
abbrev pub bool_ne : Bool → Bool → Bool
bool_ne true b = not b
bool_ne false b = b

unfoldable pub native_value_post_init : SourceNativeValue → Check ValueError
unfolding require_text
native_value_post_init v = do
  require_text v.source_field "source_field"
  refuse_if (bool_ne (is_some v.precision) (is_some v.scale)) (unpaired "precision and scale")

pub record SourceProvenance : Type 0 where
  pub jurisdiction_code : String
  pub release_identifier : String
  pub source_member_name : String
  pub source_row_number : ℤ
  pub parser_contract_version : ℤ
  pub layout_fingerprint : String
  pub table_name : Option String
  pub source_family : Option String
  pub source_year : Option ℤ
  pub source_status : Option String
  pub observed_fields : Option (List String)
  pub normalized_fields : Option (List String)

-- the test on `source_year`
unfoldable pub require_optional_year : Option ℤ → Check ValueError
unfolding require_positive_int
require_optional_year none = ok tt
require_optional_year (some year) = require_positive_int year "source_year"

unfoldable pub provenance_post_init : SourceProvenance → Check ValueError
unfolding require_jurisdiction require_optional_text require_optional_year
provenance_post_init p = do
  require_jurisdiction p.jurisdiction_code "jurisdiction_code"
  require_text p.release_identifier "release_identifier"
  require_text p.source_member_name "source_member_name"
  require_positive_int p.source_row_number "source_row_number"
  require_positive_int p.parser_contract_version "parser_contract_version"
  require_text p.layout_fingerprint "layout_fingerprint"
  require_optional_text p.table_name "table_name"
  require_optional_text p.source_family "source_family"
  require_optional_text p.source_status "source_status"
  require_optional_year p.source_year

-- The two mappings are association lists, frozen by being values.
pub record AppraisalSourceRecord : Type 0 where
  pub jurisdiction_code : String
  pub appraisal_year : ℤ
  pub provenance : SourceProvenance
  pub source_account_id : Option String
  pub source_family : Option String
  pub source_status : Option String
  pub parcel_reference : Option String
  pub source_native_identifiers : List (String × String)
  pub source_native_values : List (String × SourceNativeValue)

unfoldable pub require_identifiers : List (String × String) → Check ValueError
unfolding require_text
require_identifiers [] = ok tt
require_identifiers ((name, identifier) ∷ rest) = do
  require_text name "source_native_identifiers key"
  require_text identifier name
  require_identifiers rest

unfoldable pub require_native_values : List (String × SourceNativeValue) → Check ValueError
require_native_values [] = ok tt
require_native_values ((name, native) ∷ rest) = do
  refuse_if (not (str_eq native.source_field name)) (misnamed name native.source_field)
  require_native_values rest

unfoldable pub source_record_post_init : AppraisalSourceRecord → Check ValueError
unfolding require_jurisdiction require_positive_int require_optional_text require_identifiers
    require_native_values
source_record_post_init r = do
  require_jurisdiction r.jurisdiction_code "jurisdiction_code"
  require_positive_int r.appraisal_year "appraisal_year"
  refuse_if (not (str_eq r.provenance.jurisdiction_code r.jurisdiction_code))
      (jurisdictions_differ r.jurisdiction_code)
  require_optional_text r.source_account_id "source_account_id"
  require_optional_text r.source_family "source_family"
  require_optional_text r.source_status "source_status"
  require_optional_text r.parcel_reference "parcel_reference"
  require_identifiers r.source_native_identifiers
  require_native_values r.source_native_values
