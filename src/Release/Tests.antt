-- ===== src/Release/Tests.antt =====
-- Runs of `process_release` on a small release, and the theorems at it.
use property_tax_data_platfo.Base.{
  ◌≡◌, refl, true, false, none, some, List, [], ◌∷◌, pos, Except, ok, err, length, take, ltb, ◌↔◌,
}
use property_tax_data_platfo.Sources.Contracts.{AppraisalSourceRecord}
use property_tax_data_platfo.Release.Outcome.{
  ReleaseNotice, ReleaseDisposition, ReleaseOutcome, ReleaseDiagnosticCode, outcome_post_init,
  diagnostic_post_init,
}
use property_tax_data_platfo.Release.Records.{
  from_observations, NoticeSet, PreparedRelease, SourceRowEnvelope, prepared_post_init,
  notice_set_post_init, envelope_post_init, record_disagreement,
}
use property_tax_data_platfo.Release.Progress.{progress_event_post_init}
use property_tax_data_platfo.Release.Run.{
  Call, Reply, reader_iter, raised, propagated, returned, Caller, Raise, fail, note, keep_notices,
  ◌>>=◌,
}
use property_tax_data_platfo.Release.Steps.{
  record_failure, make_outcome, first_disagreement, perform, attempt, emit, close_reader, ask_guard,
  reject_row, write_row, count_row, judge_row, checkpoint, read_rows, iterate, begin_iteration,
  settle_iteration,
}
use property_tax_data_platfo.Release.Processor.{
  open_reader, prepare, open_stage, reject_if_failed, finalize, body, record_rejection, abort_stage,
  close_again, clean_up, leave_stage, process_release,
}
use property_tax_data_platfo.Release.Books.{IsConstructed, process_release-accepted}
use property_tax_data_platfo.Release.Atomic.{IsAtomic, records_of, process_release-IsAtomic}
use property_tax_data_platfo.Release.Carriers.{
  Agrees, from_observations_lem, record_disagreement-none,
}
use property_tax_data_platfo.Release.Lifecycle.{IsOver, process_release-IsOver}

abbrev no_notices : NoticeSet
no_notices = record { retained = []; total = 0; truncated = false }

abbrev release : PreparedRelease
release = record {
  jurisdiction_code = "tx-dallas";
  release_identifier = "2026-certified";
  source_member_name = "ACCOUNT_INFO.CSV";
  layout_fingerprint = "abc123";
  parser_contract_version = pos 1;
  notices = no_notices;
}

abbrev good_record : AppraisalSourceRecord
good_record = record {
  jurisdiction_code = "tx-dallas";
  appraisal_year = pos 2026;
  provenance = record {
    jurisdiction_code = "tx-dallas";
    release_identifier = "2026-certified";
    source_member_name = "ACCOUNT_INFO.CSV";
    source_row_number = pos 1;
    parser_contract_version = pos 1;
    layout_fingerprint = "abc123";
    table_name = none;
    source_family = none;
    source_year = none;
    source_status = none;
    observed_fields = none;
    normalized_fields = none;
  };
  source_account_id = some "000001";
  source_family = none;
  source_status = none;
  parcel_reference = none;
  source_native_identifiers = [];
  source_native_values = [];
}

abbrev good_row : SourceRowEnvelope
good_row = record {
  physical_row_number = pos 1;
  records = good_record ∷ [];
  rejected = false;
  field_name = none;
  notices = no_notices;
}

abbrev bad_row : SourceRowEnvelope
bad_row = record {
  physical_row_number = pos 2;
  records = [];
  rejected = true;
  field_name = some "ACCOUNT_NUM";
  notices = no_notices;
}

-- objects that never fail
abbrev obliging : List SourceRowEnvelope → Caller
obliging rows = record {
  prepared = release;
  rows = rows;
  has_progress = true;
  has_guard = true;
  answer = λ _ _. returned;
}

abbrev reply_to : Call → Reply
reply_to reader_iter = raised
reply_to _ = returned

abbrev accepted_outcome : ReleaseOutcome
accepted_outcome = record {
  disposition = ReleaseDisposition.accepted;
  boundary_contract_version = 1;
  parser_contract_version = some (pos 1);
  layout_fingerprint = some "abc123";
  diagnostics = [];
  total_diagnostic_count = 0;
  diagnostics_truncated = false;
  notices = [];
  total_notice_count = 0;
  notices_truncated = false;
  physical_rows_processed = 1;
  staged_record_count = 1;
  committed_record_count = 1;
  rejected_row_count = 0;
}

abbrev rejected_outcome : ReleaseOutcome
rejected_outcome = record {
  disposition = ReleaseDisposition.rejected;
  boundary_contract_version = 1;
  parser_contract_version = some (pos 1);
  layout_fingerprint = some "abc123";
  diagnostics =
      record {
        code = ReleaseDiagnosticCode.record_rejected;
        field_name = some "ACCOUNT_NUM";
        physical_row_number = some (pos 2);
        layout_fingerprint = some "abc123";
      }
      ∷ [];
  total_diagnostic_count = 1;
  diagnostics_truncated = false;
  notices = [];
  total_notice_count = 0;
  notices_truncated = false;
  physical_rows_processed = 2;
  staged_record_count = 1;
  committed_record_count = 0;
  rejected_row_count = 1;
}

-- what a run by evaluation has to see
result_of : Caller → Except Raise ReleaseOutcome
unfolding process_release body open_reader prepare open_stage reject_if_failed finalize
    record_rejection abort_stage close_again clean_up leave_stage ask_guard emit close_reader
    iterate begin_iteration settle_iteration read_rows checkpoint judge_row write_row count_row
    reject_row first_disagreement record_disagreement make_outcome outcome_post_init
    progress_event_post_init attempt perform record_failure fail note keep_notices
    diagnostic_post_init ◌>>=◌
result_of c = (process_release c).0

accepts : (process_release (obliging (good_row ∷ []))).0 ≡ ok accepted_outcome
unfolding result_of
accepts = refl

rejects : (process_release (obliging (good_row ∷ bad_row ∷ []))).0 ≡ ok rejected_outcome
unfolding result_of
rejects = refl

-- a reader whose `__iter__` raises, and objects that never fail otherwise
abbrev uniterable : Caller
uniterable = record (obliging []) { answer = λ _ call. reply_to call }

escapes : (process_release uniterable).0 ≡ err propagated
unfolding result_of
escapes = refl

built : IsConstructed (obliging (good_row ∷ bad_row ∷ []))
unfolding prepared_post_init notice_set_post_init envelope_post_init
built = record {
  prepared = refl;
  notices = refl;
  rows = (
    record { accepted = refl; notices = refl },
    (record { accepted = refl; notices = refl }, tt),
  );
}

process_release-accepted_example :
    (o : ReleaseOutcome) × ((process_release (obliging (good_row ∷ bad_row ∷ []))).0 ≡ ok o)
    × (outcome_post_init o ≡ ok tt)
process_release-accepted_example =
    process_release-accepted (obliging (good_row ∷ bad_row ∷ [])) built (λ _. refl) (λ _. refl)

process_release-IsAtomic_example :
    IsAtomic
      (records_of (good_row ∷ []))
      accepted_outcome
      (process_release (obliging (good_row ∷ []))).1
process_release-IsAtomic_example =
    process_release-IsAtomic (obliging (good_row ∷ [])) accepted_outcome accepts

process_release-IsOver_example :
    IsOver (process_release (obliging (good_row ∷ bad_row ∷ []))).1.trace
process_release-IsOver_example =
    process_release-IsOver (obliging (good_row ∷ bad_row ∷ [])) rejected_outcome rejects

abbrev blank_phone : ReleaseNotice
blank_phone = record {
  code = "blank_value";
  field_name = some "PHONE";
  physical_row_number = some (pos 1);
}

from_observations_lem_example :
    from_observations (blank_phone ∷ [])
    ≡ ok (record {
      retained = take 100 (blank_phone ∷ []);
      total = length (blank_phone ∷ []);
      truncated = ltb 100 (length (blank_phone ∷ []));
    })
from_observations_lem_example = from_observations_lem (blank_phone ∷ [])

record_disagreement-none_example :
    record_disagreement good_record release good_row ≡ none ↔ Agrees good_record release good_row
record_disagreement-none_example = record_disagreement-none good_record release good_row
