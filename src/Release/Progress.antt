-- ===== src/Release/Progress.antt =====
-- release/progress.py: one progress observation.
use property_tax_data_platfo.Base.{ℕ, String, Bool, not, ℤ, Check, refuse_if, ◌>>◌, ◌==◌, is_blank}
use property_tax_data_platfo.Sources.Contracts.{ValueError, blank, bad_version}
use property_tax_data_platfo.Release.Records.{require_identifier, require_jurisdiction_code}

abbrev pub progress_contract_version : ℕ
progress_contract_version = 1

abbrev pub progress_row_interval : ℕ
progress_row_interval = 100_000

pub record ReleaseProgressEvent : Type 0 where
  pub jurisdiction_code : String
  pub release_identifier : String
  pub source_member_name : String
  pub parser_contract_version : ℤ
  pub layout_fingerprint : String
  pub physical_rows_processed : ℕ
  pub staged_record_count : ℕ
  pub sequence_number : ℕ
  pub final : Bool
  pub progress_contract_version : ℕ

unfoldable pub progress_event_post_init : ReleaseProgressEvent → Check ValueError
unfolding require_jurisdiction_code require_identifier is_blank
progress_event_post_init e = do
  refuse_if (not (e.progress_contract_version == progress_contract_version))
      (bad_version "progress_contract_version")
  require_jurisdiction_code e.jurisdiction_code
  require_identifier e.release_identifier "release_identifier"
  require_identifier e.source_member_name "source_member_name"
  refuse_if (is_blank e.layout_fingerprint) (blank "layout_fingerprint")
