-- ===== src/Release/Outcome.antt =====
-- release/outcome.py: the bounded result of one release. Counts are native numbers, so that a
-- negative one cannot be written; a field's type stands for the `isinstance` tests.
use property_tax_data_platfo.Base.{
  ℕ, String, Bool, true, false, not, ◌&&◌, ◌||◌, Option, none, some, List, [], ◌∷◌, ℤ, min, length,
  Check, ok, refuse_if, ◌>>◌, leb, ltb, ◌==◌, is_some, codes, is_blank, opt_str_eq,
}
use property_tax_data_platfo.Sources.Contracts.{
  ValueError, bad_code, bad_version, bad_row, bad_name, bad_outcome, unpaired, is_lower, is_digit,
  is_positive, bool_ne,
}

abbrev pub boundary_contract_version : ℕ
boundary_contract_version = 1

abbrev pub diagnostic_retention_limit : ℕ
diagnostic_retention_limit = 100

pub data ReleaseDisposition : Type 0 where
  accepted rejected : ReleaseDisposition

pub data ReleaseDiagnosticCode : Type 0 where
  source_open_failed layout_rejected record_rejected duplicate_record_key : ReleaseDiagnosticCode
  stage_open_failed stage_write_failed stage_finalize_failed : ReleaseDiagnosticCode
  stage_commit_failed stage_abort_failed source_close_failed : ReleaseDiagnosticCode
  progress_callback_failed resource_limit_exceeded : ReleaseDiagnosticCode

unfoldable pub require_optional_name : Option String → String → Check ValueError
unfolding is_blank
require_optional_name none field_name = ok tt
require_optional_name (some value) field_name = refuse_if (is_blank value) (bad_name field_name)

unfoldable pub require_optional_row : Option ℤ → String → Check ValueError
require_optional_row none field_name = ok tt
require_optional_row (some value) field_name =
    refuse_if (not (is_positive value)) (bad_row field_name)

pub record ReleaseDiagnostic : Type 0 where
  pub code : ReleaseDiagnosticCode
  pub field_name : Option String
  pub physical_row_number : Option ℤ
  pub layout_fingerprint : Option String

unfoldable pub diagnostic_post_init : ReleaseDiagnostic → Check ValueError
unfolding require_optional_name require_optional_row
diagnostic_post_init d = do
  require_optional_name d.field_name "field_name"
  require_optional_row d.physical_row_number "physical_row_number"
  require_optional_name d.layout_fingerprint "layout_fingerprint"

pub record ReleaseNotice : Type 0 where
  pub code : String
  pub field_name : Option String
  pub physical_row_number : Option ℤ

-- `[a-z0-9_]`
abbrev is_code_char : ℕ → Bool
is_code_char c = is_lower c || is_digit c || c == b'_'

all_code_chars : List ℕ → Bool
unfolding is_lower is_digit
all_code_chars [] = true
all_code_chars (c ∷ cs) = is_code_char c && all_code_chars cs

-- `_NOTICE_CODE_PATTERN.fullmatch`
unfoldable pub is_notice_code : List ℕ → Bool
unfolding all_code_chars
is_notice_code [] = false
is_notice_code (c ∷ cs) = is_lower c && all_code_chars cs && leb (length cs) 63

unfoldable pub notice_post_init : ReleaseNotice → Check ValueError
unfolding is_notice_code require_optional_name require_optional_row
notice_post_init n = do
  refuse_if (not (is_notice_code (codes n.code))) (bad_code n.code)
  require_optional_name n.field_name "field_name"
  require_optional_row n.physical_row_number "physical_row_number"

pub record ReleaseOutcome : Type 0 where
  pub disposition : ReleaseDisposition
  pub boundary_contract_version : ℕ
  pub parser_contract_version : Option ℤ
  pub layout_fingerprint : Option String
  pub diagnostics : List ReleaseDiagnostic
  pub total_diagnostic_count : ℕ
  pub diagnostics_truncated : Bool
  pub notices : List ReleaseNotice
  pub total_notice_count : ℕ
  pub notices_truncated : Bool
  pub physical_rows_processed : ℕ
  pub staged_record_count : ℕ
  pub committed_record_count : ℕ
  pub rejected_row_count : ℕ

abbrev pub is_accepted : ReleaseDisposition → Bool
is_accepted accepted = true
is_accepted rejected = false

-- `_require_retention`
unfoldable pub require_retention {ℓ} : {A : Type ℓ} → List A → ℕ → Bool → String → Check ValueError
require_retention entries observed flag name = do
  refuse_if (not (length entries == min observed diagnostic_retention_limit)) (bad_outcome name)
  refuse_if (bool_ne flag (ltb diagnostic_retention_limit observed)) (bad_outcome name)

-- the loop over `self.diagnostics`
unfoldable pub require_one_layout : List ReleaseDiagnostic → Option String → Check ValueError
require_one_layout [] fingerprint = ok tt
require_one_layout (entry ∷ rest) fingerprint = do
  refuse_if (not (opt_str_eq entry.layout_fingerprint fingerprint))
      (bad_outcome "layout_fingerprint")
  require_one_layout rest fingerprint

-- the rules that tie the disposition to the counts
unfoldable pub require_disposition : ReleaseOutcome → Check ValueError
require_disposition o = do
  refuse_if (bool_ne (is_accepted o.disposition) (o.total_diagnostic_count == 0))
      (bad_outcome "disposition")
  refuse_if (not (is_accepted o.disposition) && not (o.committed_record_count == 0))
      (bad_outcome "committed")
  refuse_if (is_accepted o.disposition && not (o.committed_record_count == o.staged_record_count))
      (bad_outcome "staged")
  refuse_if (is_accepted o.disposition && not (o.rejected_row_count == 0)) (bad_outcome "rejected")

unfoldable pub outcome_post_init : ReleaseOutcome → Check ValueError
unfolding require_optional_name require_retention require_one_layout require_disposition
outcome_post_init o = do
  refuse_if (not (o.boundary_contract_version == boundary_contract_version))
      (bad_version "boundary_contract_version")
  require_optional_name o.layout_fingerprint "layout_fingerprint"
  refuse_if (bool_ne (is_some o.parser_contract_version) (is_some o.layout_fingerprint))
      (unpaired "parser_contract_version and layout_fingerprint")
  require_retention o.diagnostics o.total_diagnostic_count o.diagnostics_truncated "diagnostics"
  require_retention o.notices o.total_notice_count o.notices_truncated "notices"
  require_one_layout o.diagnostics o.layout_fingerprint
  require_disposition o
