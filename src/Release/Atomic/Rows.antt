-- ===== src/Release/Atomic/Rows.antt =====
-- The loop stages the records of every row while no row is rejected, and shows none.
use mathlib.Core.List.{append-nil, append_assoc}
use property_tax_data_platfo.Base.{
  ◌+◌, ◌<◌, ◌%◌, ◌≡◌, refl, ap, String, Bool, true, false, not, ◌&&◌, ◌||◌, ◌==◌, Option, none,
  some, List, [], ◌∷◌, ◌++◌, ℤ, length, length-append, Except, Check, ok, err, arith,
}
use property_tax_data_platfo.Sources.Contracts.{ValueError, AppraisalSourceRecord}
use property_tax_data_platfo.Release.Outcome.{
  ReleaseDiagnosticCode, record_rejected, stage_write_failed, resource_limit_exceeded,
  progress_callback_failed, source_close_failed,
}
use property_tax_data_platfo.Release.Records.{PreparedRelease, SourceRowEnvelope}
use property_tax_data_platfo.Release.Progress.{progress_event_post_init, progress_row_interval}
use property_tax_data_platfo.Release.Run.{
  Call, Reply, returned, reader_next, reader_exit, stage_write, progress, guard_check, Recorder,
  Run, Raise, Caller, propagated, ◌>>=◌, ◌>>◌, modify, fail, note,
}
use property_tax_data_platfo.Release.Steps.{
  attempt, record_failure, reject_row, count_row, write_records, write_row, judge_row, checkpoint,
  emit, emit_as, publish, event_of, ask_guard, close_reader, read_rows, iterate, first_disagreement,
  is_nonempty,
}
use property_tax_data_platfo.Release.Triple.{
  Triple, Post, Triple-bind, Triple-attempt, Triple-begin_iteration, Triple-perform_key, Triple-if,
  Triple-cond, Post-weaken, log,
}
use property_tax_data_platfo.Release.Atomic.Store.{store_of, records_of}

-- `done` are the records of the rows read so far.
pub record Pending (done : List AppraisalSourceRecord) (r : Run) : Type 0 where
  pub invisible : (store_of r.trace).visible ≡ []
  pub complete : r.writing ≡ true → (store_of r.trace).staged ≡ done
  pub counted : length (store_of r.trace).staged ≡ r.staged
  pub doubted : r.writing ≡ false → 0 < r.recorder.total_diagnostics

-- Nothing is visible, however the step was left.
abbrev pub Hidden : Raise → Run → Type 0
Hidden e r = (store_of r.trace).visible ≡ []

-- one more diagnostic and no other change
pub record Tallied (before after : Run) : Type 0 where
  pub trace : after.trace ≡ before.trace
  pub writing : after.writing ≡ before.writing
  pub staged : after.staged ≡ before.staged
  pub total : after.recorder.total_diagnostics ≡ before.recorder.total_diagnostics + 1

abbrev pub TalliedOr : Run → Raise → Run → Type 0
TalliedOr before e after = (after.trace ≡ before.trace) × (e ≡ propagated)

abbrev Counts : Recorder → Except Raise Recorder → Type 0
Counts before (ok after) = after.total_diagnostics ≡ before.total_diagnostics + 1
Counts before (err e) = e ≡ propagated

fail-Counts :
    (code : ReleaseDiagnosticCode) (name : Option String) (row : Option ℤ)
    (fingerprint : Option String) (rec : Recorder)
    → Counts rec (fail code name row fingerprint rec)
unfolding fail
fail-Counts code name row fingerprint rec = ground arith

tallied :
    (r : Run) (x : Except Raise Recorder)
    → Counts r.recorder x
    → Post
        (λ (_ : Unit {0}). Tallied r)
        (TalliedOr r)
        (elim x [ ok rec ↦ (ok tt, record r { recorder = rec }) | err e ↦ (err e, r) ])
tallied r (ok rec) h = record { trace = refl; writing = refl; staged = refl; total = h }
tallied r (err e) h = (refl, h)

pub record_failure-Tallied :
    (code : ReleaseDiagnosticCode) (name : Option String) (row : Option ℤ)
    (fingerprint : Option String) (r : Run)
    → Post (λ _. Tallied r) (TalliedOr r) (record_failure code name row fingerprint r)
unfolding record_failure
record_failure-Tallied code name row fingerprint r =
    tallied r (fail code name row fingerprint r.recorder)
      (fail-Counts code name row fingerprint r.recorder)

reject_row-Pending :
    (p : PreparedRelease) (e : SourceRowEnvelope) (name : Option String)
    (done : List AppraisalSourceRecord)
    → Triple (Pending done) (reject_row p e name) (λ _. Pending (done ++ e.records)) Hidden
unfolding reject_row ◌>>=◌
reject_row-Pending p e name done = record {
  at = λ r h.
      let s : Run = record r { rejected_rows = r.rejected_rows + 1; writing = false } in
      Post-weaken
        (record_failure record_rejected name (some e.physical_row_number)
          (some p.layout_fingerprint) s)
        (λ _ t k. record {
          invisible = rw k.trace h.invisible;
          complete = λ w. absurd (cc (k.writing, w));
          counted = rw (k.trace, k.staged) h.counted;
          doubted = λ _. omega (arith, k.total);
        })
        (λ _ t k. rw k.0 h.invisible)
        (record_failure-Tallied record_rejected name (some e.physical_row_number)
          (some p.layout_fingerprint) s);
}

count_row-Pending :
    (e : SourceRowEnvelope) (done : List AppraisalSourceRecord)
    → Triple (Pending done) (count_row e) (λ _. Pending done) Hidden
unfolding count_row note
count_row-Pending e done = record {
  at = λ r h. record {
    invisible = h.invisible;
    complete = h.complete;
    counted = h.counted;
    doubted = h.doubted;
  };
}

module _ (c : Caller) where
  -- a call that leaves the stage's records alone
  pub attempt-Pending :
      (done : List AppraisalSourceRecord) (call : Call) (code : ReleaseDiagnosticCode)
      → ((r : Run) (reply : Reply) → store_of (log call reply r).trace ≡ store_of r.trace)
      → Triple (Pending done) (attempt c call code) (λ _. Pending done) Hidden
  attempt-Pending done call code same =
      Triple-attempt c call code
        (λ r h. record {
          invisible = rw same h.invisible;
          complete = rw same h.complete;
          counted = rw same h.counted;
          doubted = h.doubted;
        })
        (λ r reply _ h. rw same h.invisible)

  write_records-Hidden :
      (xs : List AppraisalSourceRecord) (r : Run) (reply : Reply)
      → (store_of r.trace).visible ≡ []
      → (store_of (log (stage_write xs) reply r).trace).visible ≡ []
  unfolding store_of
  write_records-Hidden xs r returned h = h
  write_records-Hidden xs r _ h = h

  -- the records of a row that is written are the next ones staged
  record Written (done xs : List AppraisalSourceRecord) (r : Run) : Type 0 where
    invisible : (store_of r.trace).visible ≡ []
    staged : (store_of r.trace).staged ≡ done ++ xs
    counted : length (store_of r.trace).staged ≡ r.staged + length xs
    writing : r.writing ≡ true

  write_records-Written :
      (done xs : List AppraisalSourceRecord)
      → Triple
          (λ r. Pending done r × (r.writing ≡ true))
          (write_records c xs)
          (λ _. Written done xs)
          Hidden
  unfolding write_records
  write_records-Written done xs =
      Triple-perform_key c (stage_write xs) stage_write_failed
        (λ r h. record {
          invisible = unfold store_of in h.0.invisible;
          staged = unfold store_of in ap (λ ys. ys ++ xs) (h.0.complete h.1);
          counted =
              unfold store_of in
              omega (arith, h.0.counted, length-append (store_of r.trace).staged xs);
          writing = h.1;
        })
        (λ r reply _ _ h. write_records-Hidden xs r reply h.0.invisible)

  staged_more :
      (done xs : List AppraisalSourceRecord) (r : Run)
      → Written done xs r
      → Pending (done ++ xs) (record r { staged = r.staged + length xs })
  staged_more done xs r w = record {
    invisible = w.invisible;
    complete = λ _. w.staged;
    counted = w.counted;
    doubted = λ e. absurd (cc (w.writing, e));
  }

  unwritten :
      (done xs : List AppraisalSourceRecord) (r : Run)
      → Pending done r
      → (r.writing && is_nonempty xs) ≡ false
      → Pending (done ++ xs) r
  unwritten done [] r h e = rw append-nil h
  unwritten done (x ∷ xs) r h e = record {
    invisible = h.invisible;
    complete = λ w. absurd (cc (w, e));
    counted = h.counted;
    doubted = h.doubted;
  }

  write_row-Pending :
      (e : SourceRowEnvelope) (done : List AppraisalSourceRecord)
      → Triple (Pending done) (write_row c e) (λ _. Pending (done ++ e.records)) Hidden
  unfolding write_row
  write_row-Pending e done =
      Triple-if (λ r. r.writing && is_nonempty e.records)
        (write_records c e.records
          >> modify (λ r. record r { staged = r.staged + length e.records }))
        (λ r. (ok tt, r))
        (λ r h t.
          (Triple-bind (λ _. modify (λ r. record r { staged = r.staged + length e.records }))
              (write_records-Written done e.records)
              (λ _. record { at = λ s w. staged_more done e.records s w })).at
            r (h, ground arith))
        (λ r h t. unwritten done e.records r h t)

  judge_row-Pending :
      (p : PreparedRelease) (e : SourceRowEnvelope) (done : List AppraisalSourceRecord)
      → Triple (Pending done) (judge_row c p e) (λ _. Pending (done ++ e.records)) Hidden
  unfolding judge_row
  judge_row-Pending p e done =
      Triple-cond e.rejected _ _ (reject_row-Pending p e e.field_name done)
        (settled (first_disagreement e.records p e))
    where
      settled :
          (o : Option String)
          → Triple
              (Pending done)
              (elim o [ some name ↦ reject_row p e (some name) | none ↦ write_row c e ])
              (λ _. Pending (done ++ e.records))
              Hidden
      settled none = write_row-Pending e done
      settled (some name) = reject_row-Pending p e (some name) done

  pub ask_guard-Pending :
      (done : List AppraisalSourceRecord)
      → Triple (Pending done) (ask_guard c) (λ _. Pending done) Hidden
  unfolding ask_guard
  ask_guard-Pending done =
      Triple-if (λ r. c.has_guard)
        (λ r. attempt c (guard_check r.rows r.staged) resource_limit_exceeded r) (λ r. (ok tt, r))
        (λ r h _.
          (attempt-Pending done (guard_check r.rows r.staged) resource_limit_exceeded
              (λ _ _. unfold store_of in refl)).at
            r h)
        (λ r h _. h)

  published :
      (done : List AppraisalSourceRecord) (p : PreparedRelease) (final : Bool) (r : Run)
      (x : Check ValueError)
      → Pending done r
      → Post
          (λ (_ : Unit {0}). Pending done)
          Hidden
          (elim x [
            | ok _ ↦
                attempt c
                  (progress (event_of p final r))
                  progress_callback_failed
                  (record r { sequence = r.sequence + 1 })
            | err _ ↦ (err propagated, r)
          ])
  published done p final r (ok _) h =
      (attempt-Pending done (progress (event_of p final r)) progress_callback_failed
          (λ _ _. unfold store_of in refl)).at
        (record r { sequence = r.sequence + 1 })
        (record {
          invisible = h.invisible;
          complete = h.complete;
          counted = h.counted;
          doubted = h.doubted;
        })
  published done p final r (err _) h = h.invisible

  emit_as-Pending :
      (o : Option PreparedRelease) (final : Bool) (done : List AppraisalSourceRecord)
      → Triple (Pending done) (emit_as c o final) (λ _. Pending done) Hidden
  unfolding emit_as publish
  emit_as-Pending none final done = record {
    at = λ r h. record {
      invisible = h.invisible;
      complete = h.complete;
      counted = h.counted;
      doubted = h.doubted;
    };
  }
  emit_as-Pending (some p) final done =
      Triple-if (λ r. c.has_progress) (publish c p final)
        (λ r. (ok tt, record r { sequence = r.sequence + 1 }))
        (λ r h _. published done p final r (progress_event_post_init (event_of p final r)) h)
        (λ r h _. record {
          invisible = h.invisible;
          complete = h.complete;
          counted = h.counted;
          doubted = h.doubted;
        })

  pub emit-Pending :
      (final : Bool) (done : List AppraisalSourceRecord)
      → Triple (Pending done) (emit c final) (λ _. Pending done) Hidden
  unfolding emit
  emit-Pending final done = record { at = λ r h. (emit_as-Pending r.prepared final done).at r h }

  checkpoint-Pending :
      (done : List AppraisalSourceRecord)
      → Triple (Pending done) (checkpoint c) (λ _. Pending done) Hidden
  unfolding checkpoint
  checkpoint-Pending done =
      Triple-if (λ r. r.rows % progress_row_interval == 0) (ask_guard c >> emit c false)
        (λ r. (ok tt, r))
        (λ r h _.
          (Triple-bind (λ _. emit c false) (ask_guard-Pending done)
              (λ _. emit-Pending false done)).at
            r h)
        (λ r h _. h)

  pub read_rows-Pending :
      (p : PreparedRelease) (rows : List SourceRowEnvelope) (done : List AppraisalSourceRecord)
      → Triple (Pending done) (read_rows c p rows) (λ _. Pending (done ++ records_of rows)) Hidden
  unfolding read_rows records_of
  read_rows-Pending p [] done =
      rw append-nil
        (attempt-Pending done reader_next record_rejected (λ _ _. unfold store_of in refl))
  read_rows-Pending p (e ∷ rest) done =
      Triple-bind _
        (attempt-Pending done reader_next record_rejected (λ _ _. unfold store_of in refl))
        λ _. Triple-bind _ (count_row-Pending e done) λ _.
          Triple-bind _ (judge_row-Pending p e done) λ _.
            Triple-bind _ (checkpoint-Pending (done ++ e.records))
              λ _. rw (← append_assoc) (read_rows-Pending p rest (done ++ e.records))

  pub iterate-Pending :
      (p : PreparedRelease) (rows : List SourceRowEnvelope) (done : List AppraisalSourceRecord)
      → Triple (Pending done) (iterate c p rows) (λ _. Pending (done ++ records_of rows)) Hidden
  unfolding iterate store_of
  iterate-Pending p rows done =
      Triple-bind _
        (Triple-begin_iteration c
          (λ r h. record {
            invisible = h.invisible;
            complete = h.complete;
            counted = h.counted;
            doubted = h.doubted;
          })
          (λ r reply _ _ h. h.invisible))
        λ _. read_rows-Pending p rows done

  pub close_reader-Pending :
      (done : List AppraisalSourceRecord)
      → Triple (Pending done) (close_reader c) (λ _. Pending done) Hidden
  unfolding close_reader
  close_reader-Pending done =
      Triple-if (λ r. not r.reader_entered || r.reader_closed) (λ r. (ok tt, r))
        (λ r. attempt c reader_exit source_close_failed (record r { reader_closed = true }))
        (λ r h _. h)
        (λ r h _.
          (attempt-Pending done reader_exit source_close_failed (λ _ _. unfold store_of in refl)).at
            (record r { reader_closed = true })
            (record {
              invisible = h.invisible;
              complete = h.complete;
              counted = h.counted;
              doubted = h.doubted;
            }))
