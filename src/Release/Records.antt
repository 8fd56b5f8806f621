-- ===== src/Release/Records.antt =====
-- release/records.py: the identity of a release, one envelope per row, and bounded notices.
use property_tax_data_platfo.Base.{
  ℕ, ◌+◌, String, Bool, true, false, not, ◌&&◌, ◌||◌, Option, none, some, List, [], ◌∷◌, ◌++◌, ℤ,
  min, length, Except, Check, ok, refuse_if, ◌>>◌, leb, ltb, ◌==◌, int_eq, str_eq, if◌then◌else◌,
  codes, is_blank,
}
use property_tax_data_platfo.Sources.Contracts.{
  ValueError, blank, bad_identifier, bad_jurisdiction, bad_notices, bad_row, is_lower, is_digit,
  is_jurisdiction, is_positive, bool_ne, AppraisalSourceRecord,
}
use property_tax_data_platfo.Release.Outcome.{ReleaseNotice, require_optional_name}

abbrev pub max_carrier_notices : ℕ
max_carrier_notices = 100

-- `[A-Za-z0-9._-]`
abbrev is_identifier_char : ℕ → Bool
is_identifier_char c =
    leb b'A' c && leb c b'Z' || is_lower c || is_digit c || c == b'.' || c == b'_' || c == b'-'

all_identifier_chars : List ℕ → Bool
unfolding is_lower is_digit
all_identifier_chars [] = true
all_identifier_chars (c ∷ cs) = is_identifier_char c && all_identifier_chars cs

-- `_IDENTIFIER_PATTERN.fullmatch`, and the test on the first character
unfoldable pub is_identifier : List ℕ → Bool
unfolding all_identifier_chars
is_identifier [] = false
is_identifier (c ∷ cs) =
    all_identifier_chars (c ∷ cs) && leb (length (c ∷ cs)) 128 && not (c == b'.') && not (c == b'-')

unfoldable pub require_identifier : String → String → Check ValueError
unfolding is_identifier
require_identifier value field_name =
    refuse_if (not (is_identifier (codes value))) (bad_identifier field_name)

unfoldable pub require_jurisdiction_code : String → Check ValueError
unfolding is_jurisdiction
require_jurisdiction_code value =
    refuse_if (not (is_jurisdiction (codes value))) (bad_jurisdiction "jurisdiction_code")

pub record NoticeSet : Type 0 where
  pub retained : List ReleaseNotice
  pub total : ℕ
  pub truncated : Bool

unfoldable pub notice_set_post_init : NoticeSet → Check ValueError
notice_set_post_init s = do
  refuse_if (not (length s.retained == min s.total max_carrier_notices)) (bad_notices "retained")
  refuse_if (bool_ne s.truncated (ltb max_carrier_notices s.total)) (bad_notices "truncated")

-- the loop of `NoticeSet.from_observations`
unfoldable pub observe : List ReleaseNotice → List ReleaseNotice → ℕ → List ReleaseNotice × ℕ
observe [] retained total = (retained, total)
observe (notice ∷ rest) retained total =
    observe rest
      (if ltb (length retained) max_carrier_notices then retained ++ notice ∷ [] else retained)
      (total + 1)

-- `NoticeSet.from_observations`
unfoldable pub from_observations : List ReleaseNotice → Except ValueError NoticeSet
unfolding observe notice_set_post_init
from_observations observations =
    let (retained, total) = observe observations [] 0 in
    let s : NoticeSet = record {
      retained = retained;
      total = total;
      truncated = ltb max_carrier_notices total;
    } in
    notice_set_post_init s >> ok s

pub record PreparedRelease : Type 0 where
  pub jurisdiction_code : String
  pub release_identifier : String
  pub source_member_name : String
  pub layout_fingerprint : String
  pub parser_contract_version : ℤ
  pub notices : NoticeSet

unfoldable pub prepared_post_init : PreparedRelease → Check ValueError
unfolding require_jurisdiction_code require_identifier is_blank
prepared_post_init p = do
  require_jurisdiction_code p.jurisdiction_code
  require_identifier p.release_identifier "release_identifier"
  require_identifier p.source_member_name "source_member_name"
  refuse_if (is_blank p.layout_fingerprint) (blank "layout_fingerprint")

pub record SourceRowEnvelope : Type 0 where
  pub physical_row_number : ℤ
  pub records : List AppraisalSourceRecord
  pub rejected : Bool
  pub field_name : Option String
  pub notices : NoticeSet

-- `notice.physical_row_number not in (None, row)`
abbrev names_other_row : ℤ → Option ℤ → Bool
names_other_row row none = false
names_other_row row (some n) = not (int_eq n row)

unfoldable pub require_own_notices : ℤ → List ReleaseNotice → Check ValueError
require_own_notices row [] = ok tt
require_own_notices row (notice ∷ rest) = do
  refuse_if (names_other_row row notice.physical_row_number) (bad_row "notices")
  require_own_notices row rest

unfoldable pub envelope_post_init : SourceRowEnvelope → Check ValueError
unfolding require_optional_name require_own_notices
envelope_post_init e = do
  refuse_if (not (is_positive e.physical_row_number)) (bad_row "physical_row_number")
  require_optional_name e.field_name "field_name"
  require_own_notices e.physical_row_number e.notices.retained

-- the loop over the six fields: the name of the first that is not as expected
unfoldable pub first_differing : List (String × Bool) → Option String
first_differing [] = none
first_differing ((name, is_expected) ∷ rest) =
    if is_expected then first_differing rest else some name

abbrev pub compared_fields :
    AppraisalSourceRecord → PreparedRelease → SourceRowEnvelope → List (String × Bool)
compared_fields r p e =
    ("jurisdiction_code", str_eq r.jurisdiction_code p.jurisdiction_code)
    ∷ ("release_identifier", str_eq r.provenance.release_identifier p.release_identifier)
    ∷ ("source_member_name", str_eq r.provenance.source_member_name p.source_member_name)
    ∷ (
      "parser_contract_version",
      int_eq r.provenance.parser_contract_version p.parser_contract_version,
    )
    ∷ ("layout_fingerprint", str_eq r.provenance.layout_fingerprint p.layout_fingerprint)
    ∷ ("source_row_number", int_eq r.provenance.source_row_number e.physical_row_number)
    ∷ []

-- The first field on which a record disagrees with where it arrived.
unfoldable pub record_disagreement :
    AppraisalSourceRecord → PreparedRelease → SourceRowEnvelope → Option String
unfolding first_differing
record_disagreement r p e = first_differing (compared_fields r p e)
