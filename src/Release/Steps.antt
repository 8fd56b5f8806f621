-- ===== src/Release/Steps.antt =====
-- release/processor.py: the nested functions of `process_release` and its loop over the rows.
use property_tax_data_platfo.Base.{
  ℕ, ◌+◌, ◌%◌, String, Bool, true, false, not, ◌&&◌, ◌||◌, Option, none, some, List, [], ◌∷◌, ℤ,
  length, Except, ok, err, ltb, ◌==◌, if◌then◌else◌,
}
use property_tax_data_platfo.Sources.Contracts.{AppraisalSourceRecord}
use property_tax_data_platfo.Release.Outcome.{
  ReleaseDisposition, ReleaseDiagnosticCode, record_rejected, duplicate_record_key,
  stage_write_failed, source_close_failed, progress_callback_failed, resource_limit_exceeded,
  ReleaseOutcome, outcome_post_init, boundary_contract_version, diagnostic_retention_limit,
}
use property_tax_data_platfo.Release.Records.{
  PreparedRelease, SourceRowEnvelope, record_disagreement,
}
use property_tax_data_platfo.Release.Progress.{
  ReleaseProgressEvent, progress_event_post_init, progress_contract_version, progress_row_interval,
}
use property_tax_data_platfo.Release.Run.{
  Call, reader_iter, reader_next, reader_exit, stage_write, progress, guard_check, Reply, returned,
  duplicate_key, raised, Caller, Run, Raise, rejection, propagated, Action, ◌>>=◌, ◌>>◌, pure,
  raise, modify, fail, note,
}

-- `except Exception`: every exception of the call is the rejection named
unfoldable pub settle : ReleaseDiagnosticCode → Reply → Action Unit
settle code returned = pure tt
settle code _ = raise (rejection code)

-- `except DuplicateRecordKey` before `except Exception`
unfoldable pub settle_key : ReleaseDiagnosticCode → Reply → Action Unit
settle_key code returned = pure tt
settle_key code duplicate_key = raise (rejection duplicate_record_key)
settle_key code raised = raise (rejection code)

abbrev pub fingerprint_of : Option PreparedRelease → Option String
fingerprint_of none = none
fingerprint_of (some p) = some p.layout_fingerprint

abbrev pub version_of : Option PreparedRelease → Option ℤ
version_of none = none
version_of (some p) = some p.parser_contract_version

-- `recorder.fail` as a step of the run
unfoldable pub record_failure :
    ReleaseDiagnosticCode → Option String → Option ℤ → Option String → Action Unit
record_failure code field_name row fingerprint r =
    elim (fail code field_name row fingerprint r.recorder) [
      | ok rec ↦ (ok tt, record r { recorder = rec })
      | err e ↦ (err e, r)
    ]

-- the fields that `_outcome` gives
abbrev pub outcome_of : ℕ → Run → ReleaseOutcome
outcome_of committed r = record {
  disposition =
      if r.recorder.total_diagnostics == 0
      then ReleaseDisposition.accepted
      else ReleaseDisposition.rejected;
  boundary_contract_version = boundary_contract_version;
  parser_contract_version = version_of r.prepared;
  layout_fingerprint = fingerprint_of r.prepared;
  diagnostics = r.recorder.diagnostics;
  total_diagnostic_count = r.recorder.total_diagnostics;
  diagnostics_truncated = ltb diagnostic_retention_limit r.recorder.total_diagnostics;
  notices = r.recorder.notices;
  total_notice_count = r.recorder.total_notices;
  notices_truncated = ltb diagnostic_retention_limit r.recorder.total_notices;
  physical_rows_processed = r.rows;
  staged_record_count = r.staged;
  committed_record_count = if r.recorder.total_diagnostics == 0 then committed else 0;
  rejected_row_count = r.rejected_rows;
}

-- `_outcome`
unfoldable pub make_outcome : ℕ → Run → Except Raise ReleaseOutcome
make_outcome committed r =
    let o = outcome_of committed r in
    elim (outcome_post_init o) [ ok _ ↦ ok o | err _ ↦ err propagated ]

-- the event of `emit`
abbrev pub event_of : PreparedRelease → Bool → Run → ReleaseProgressEvent
event_of p final r = record {
  jurisdiction_code = p.jurisdiction_code;
  release_identifier = p.release_identifier;
  source_member_name = p.source_member_name;
  parser_contract_version = p.parser_contract_version;
  layout_fingerprint = p.layout_fingerprint;
  physical_rows_processed = r.rows;
  staged_record_count = r.staged;
  sequence_number = r.sequence;
  final = final;
  progress_contract_version = progress_contract_version;
}

-- the name on which the first disagreeing record disagrees
unfoldable pub first_disagreement :
    List AppraisalSourceRecord → PreparedRelease → SourceRowEnvelope → Option String
first_disagreement [] p e = none
first_disagreement (x ∷ xs) p e =
    let rest = first_disagreement xs p e in
    elim (record_disagreement x p e) [ some name ↦ some name | none ↦ rest ]

abbrev pub is_nonempty {ℓ} : {A : Type ℓ} → List A → Bool
is_nonempty [] = false
is_nonempty (_ ∷ _) = true

-- the loop body's two rejections
unfoldable pub reject_row : PreparedRelease → SourceRowEnvelope → Option String → Action Unit
unfolding ◌>>=◌ record_failure
reject_row p e field_name = do
  modify (λ r. record r { rejected_rows = r.rejected_rows + 1; writing = false })
  record_failure record_rejected field_name (some e.physical_row_number) (some p.layout_fingerprint)

unfoldable pub count_row : SourceRowEnvelope → Action Unit
count_row e = modify (λ r. record r {
  rows = r.rows + 1;
  recorder = note e.notices.retained e.notices.total r.recorder;
})

-- what follows an `iter(reader)`
unfoldable pub settle_iteration : Reply → Action Unit
settle_iteration returned r = (ok tt, r)
settle_iteration _ r = (err propagated, r)

module _ (c : Caller) where
  unfoldable pub perform : Call → Action Reply
  perform call r =
      let reply = c.answer r.trace call in
      (ok reply, record r { trace = record { call = call; reply = reply } ∷ r.trace })

  unfoldable pub attempt : Call → ReleaseDiagnosticCode → Action Unit
  unfolding ◌>>=◌ perform settle
  attempt call code = do reply ← perform call; settle code reply

  -- `emit` where there is a callback and a prepared release
  unfoldable pub publish : PreparedRelease → Bool → Action Unit
  unfolding attempt
  publish p final r = elim (progress_event_post_init (event_of p final r)) [
    | ok _ ↦
        attempt (progress (event_of p final r)) progress_callback_failed
          (record r { sequence = r.sequence + 1 })
    | err _ ↦ (err propagated, r)
  ]

  unfoldable pub emit_as : Option PreparedRelease → Bool → Action Unit
  unfolding publish
  emit_as none final r = (ok tt, record r { sequence = r.sequence + 1 })
  emit_as (some p) final r =
      if c.has_progress then publish p final r else (ok tt, record r { sequence = r.sequence + 1 })

  unfoldable pub emit : Bool → Action Unit
  unfolding emit_as
  emit final r = emit_as r.prepared final r

  unfoldable pub close_reader : Action Unit
  unfolding attempt
  close_reader r =
      if not r.reader_entered || r.reader_closed
      then (ok tt, r)
      else attempt reader_exit source_close_failed (record r { reader_closed = true })

  unfoldable pub ask_guard : Action Unit
  unfolding attempt
  ask_guard r =
      if c.has_guard
      then attempt (guard_check r.rows r.staged) resource_limit_exceeded r
      else (ok tt, r)

  -- `_write`
  unfoldable pub write_records : List AppraisalSourceRecord → Action Unit
  unfolding ◌>>=◌ perform settle_key
  write_records records = do
    reply ← perform (stage_write records)
    settle_key stage_write_failed reply

  -- a row's records are staged while no row was rejected
  unfoldable pub write_row : SourceRowEnvelope → Action Unit
  unfolding ◌>>=◌ write_records
  write_row e r =
      if r.writing && is_nonempty e.records
      then (do
        write_records e.records
        modify (λ r. record r { staged = r.staged + length e.records }))
          r
      else (ok tt, r)

  unfoldable pub judge_row : PreparedRelease → SourceRowEnvelope → Action Unit
  judge_row p e =
      if e.rejected then reject_row p e e.field_name else elim (first_disagreement e.records p e) [
        | some name ↦ reject_row p e (some name)
        | none ↦ write_row e
      ]

  unfoldable pub checkpoint : Action Unit
  unfolding ◌>>=◌
  checkpoint r =
      if r.rows % progress_row_interval == 0 then (do ask_guard; emit false) r else (ok tt, r)

  -- its loop, and the `while` loop of `_iterate`
  unfoldable pub read_rows : PreparedRelease → List SourceRowEnvelope → Action Unit
  read_rows p [] = attempt reader_next record_rejected
  read_rows p (e ∷ rest) = do
    attempt reader_next record_rejected
    count_row e
    judge_row p e
    checkpoint
    read_rows p rest

  -- `iter(reader)`, whose exception no handler catches
  unfoldable pub begin_iteration : Action Unit
  unfolding ◌>>=◌ perform settle_iteration
  begin_iteration = do reply ← perform reader_iter; settle_iteration reply

  -- the `for` statement over `_iterate`
  unfoldable pub iterate : PreparedRelease → List SourceRowEnvelope → Action Unit
  iterate p rows = do begin_iteration; read_rows p rows
