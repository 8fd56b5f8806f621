-- ===== src/Release/Lifecycle/Rows.antt =====
-- The steps of the `try` block make their calls in order.
use property_tax_data_platfo.Base.{
  ℕ, ◌+◌, ◌%◌, ◌≡◌, refl, String, Bool, true, false, ◌&&◌, ◌==◌, Option, none, some, List, [], ◌∷◌,
  ℤ, length, Except, Check, ok, err,
}
use property_tax_data_platfo.Sources.Contracts.{AppraisalSourceRecord, ValueError}
use property_tax_data_platfo.Release.Outcome.{
  ReleaseDiagnosticCode, record_rejected, stage_write_failed, resource_limit_exceeded,
  progress_callback_failed,
}
use property_tax_data_platfo.Release.Records.{PreparedRelease, SourceRowEnvelope}
use property_tax_data_platfo.Release.Progress.{
  ReleaseProgressEvent, progress_event_post_init, progress_row_interval,
}
use property_tax_data_platfo.Release.Run.{
  Call, Reply, returned, reader_iter, reader_next, stage_write, progress, guard_check, Recorder,
  Run, Raise, Caller, propagated, ◌>>=◌, ◌>>◌, modify, fail, note,
}
use property_tax_data_platfo.Release.Steps.{
  attempt, record_failure, reject_row, count_row, write_records, write_row, judge_row, checkpoint,
  emit, emit_as, publish, event_of, ask_guard, read_rows, iterate, first_disagreement, is_nonempty,
}
use property_tax_data_platfo.Release.Triple.{
  Triple, Post, Triple-bind, Triple-attempt, Triple-begin_iteration, Triple-perform_key, Triple-if,
  Triple-cond, Post-weaken, log,
}
use property_tax_data_platfo.Release.Lifecycle.Monitor.{
  ReaderLife, unopened, opened, prepared, closed, StageLife, absent, entered, finalized, at_life,
  life_of,
}

-- The flags of the run say what the reader and the stage still need.
abbrev pub ReaderAgrees : ReaderLife → Bool → Bool → Type 0
ReaderAgrees unopened false false = Unit
ReaderAgrees opened true false = Unit
ReaderAgrees prepared true false = Unit
ReaderAgrees closed true true = Unit
ReaderAgrees _ _ _ = ⊥

abbrev pub StageAgrees : StageLife → Bool → Type 0
StageAgrees absent false = Unit
StageAgrees entered true = Unit
StageAgrees finalized true = Unit
StageAgrees _ _ = ⊥

-- every call so far was in order, and the flags are right for the cleanup
pub record Coherent (r : Run) : Type 0 where
  pub reader : ReaderLife
  pub stage : StageLife
  pub life : life_of r.trace ≡ at_life reader stage
  pub reader_agrees : ReaderAgrees reader r.reader_entered r.reader_closed
  pub stage_agrees : StageAgrees stage r.stage_entered

-- a point of the program where the lives are known
pub record At (reader : ReaderLife) (stage : StageLife) (r : Run) : Type 0 where
  pub life : life_of r.trace ≡ at_life reader stage
  pub reader_agrees : ReaderAgrees reader r.reader_entered r.reader_closed
  pub stage_agrees : StageAgrees stage r.stage_entered

pub At-Coherent :
    {reader : ReaderLife} {stage : StageLife} {r : Run} → At reader stage r → Coherent r
At-Coherent {reader} {stage} a = record {
  reader = reader;
  stage = stage;
  life = a.life;
  reader_agrees = a.reader_agrees;
  stage_agrees = a.stage_agrees;
}

abbrev pub Streaming : Run → Type 0
Streaming = At prepared entered

-- calls of the loop, which change neither life
pub data IsLoopCall : Call → Type 0 where
  begin : IsLoopCall reader_iter
  next : IsLoopCall reader_next
  write : (xs : List AppraisalSourceRecord) → IsLoopCall (stage_write xs)
  report : (e : ReleaseProgressEvent) → IsLoopCall (progress e)
  check : (rows staged : ℕ) → IsLoopCall (guard_check rows staged)

log-Streaming :
    (call : Call) (reply : Reply) (r : Run)
    → IsLoopCall call
    → Streaming r
    → Streaming (log call reply r)
unfolding life_of
log-Streaming call reply r begin s = record {
  life = rw s.life refl;
  reader_agrees = s.reader_agrees;
  stage_agrees = s.stage_agrees;
}
log-Streaming call reply r next s = record {
  life = rw s.life refl;
  reader_agrees = s.reader_agrees;
  stage_agrees = s.stage_agrees;
}
log-Streaming call reply r (write xs) s = record {
  life = rw s.life refl;
  reader_agrees = s.reader_agrees;
  stage_agrees = s.stage_agrees;
}
log-Streaming call reply r (report e) s = record {
  life = rw s.life refl;
  reader_agrees = s.reader_agrees;
  stage_agrees = s.stage_agrees;
}
log-Streaming call reply r (check n m) s = record {
  life = rw s.life refl;
  reader_agrees = s.reader_agrees;
  stage_agrees = s.stage_agrees;
}

-- what a step does to the calls and the flags: nothing
pub record SameCalls (before after : Run) : Type 0 where
  pub trace : after.trace ≡ before.trace
  pub reader_entered : after.reader_entered ≡ before.reader_entered
  pub reader_closed : after.reader_closed ≡ before.reader_closed
  pub stage_entered : after.stage_entered ≡ before.stage_entered

pub At-same :
    {reader : ReaderLife} {stage : StageLife} (r s : Run)
    → SameCalls r s
    → At reader stage r
    → At reader stage s
At-same {reader} {stage} r s e a = record {
  life = rw e.trace a.life;
  reader_agrees = rw (e.reader_entered, e.reader_closed) a.reader_agrees;
  stage_agrees = rw e.stage_entered a.stage_agrees;
}

same :
    (r : Run) (x : Except Raise Recorder)
    → Post
        (λ (_ : Unit {0}). SameCalls r)
        (λ _. SameCalls r)
        (elim x [ ok rec ↦ (ok tt, record r { recorder = rec }) | err e ↦ (err e, r) ])
same r (ok rec) = record {
  trace = refl;
  reader_entered = refl;
  reader_closed = refl;
  stage_entered = refl;
}
same r (err e) = record {
  trace = refl;
  reader_entered = refl;
  reader_closed = refl;
  stage_entered = refl;
}

-- a diagnostic calls nothing
pub record_failure-SameCalls :
    (code : ReleaseDiagnosticCode) (name : Option String) (row : Option ℤ)
    (fingerprint : Option String) (r : Run)
    → Post (λ _. SameCalls r) (λ _. SameCalls r) (record_failure code name row fingerprint r)
unfolding record_failure
record_failure-SameCalls code name row fingerprint r =
    same r (fail code name row fingerprint r.recorder)

reject_row-Streaming :
    (p : PreparedRelease) (e : SourceRowEnvelope) (name : Option String)
    → Triple Streaming (reject_row p e name) (λ _. Streaming) (λ _. Coherent)
unfolding reject_row ◌>>=◌
reject_row-Streaming p e name = record {
  at = λ r h.
      let s : Run = record r { rejected_rows = r.rejected_rows + 1; writing = false } in
      let k : Streaming s = record {
        life = h.life;
        reader_agrees = h.reader_agrees;
        stage_agrees = h.stage_agrees;
      } in
      Post-weaken
        (record_failure record_rejected name (some e.physical_row_number)
          (some p.layout_fingerprint) s)
        (λ _ t m. At-same s t m k) (λ _ t m. At-Coherent (At-same s t m k))
        (record_failure-SameCalls record_rejected name (some e.physical_row_number)
          (some p.layout_fingerprint) s);
}

count_row-Streaming :
    (e : SourceRowEnvelope) → Triple Streaming (count_row e) (λ _. Streaming) (λ _. Coherent)
unfolding count_row note
count_row-Streaming e = record {
  at = λ r h. record {
    life = h.life;
    reader_agrees = h.reader_agrees;
    stage_agrees = h.stage_agrees;
  };
}

module _ (c : Caller) where
  attempt-Streaming :
      (call : Call) (code : ReleaseDiagnosticCode)
      → IsLoopCall call
      → Triple Streaming (attempt c call code) (λ _. Streaming) (λ _. Coherent)
  attempt-Streaming call code k =
      Triple-attempt c call code (λ r h. log-Streaming call returned r k h)
        (λ r reply _ h. At-Coherent (log-Streaming call reply r k h))

  write_row-Streaming :
      (e : SourceRowEnvelope) → Triple Streaming (write_row c e) (λ _. Streaming) (λ _. Coherent)
  unfolding write_row write_records
  write_row-Streaming e =
      Triple-if (λ r. r.writing && is_nonempty e.records)
        (write_records c e.records
          >> modify (λ r. record r { staged = r.staged + length e.records }))
        (λ r. (ok tt, r))
        (λ r h _.
          (Triple-bind (λ _. modify (λ r. record r { staged = r.staged + length e.records }))
              (Triple-perform_key c {P = Streaming} {Q = Streaming} {X = λ _. Coherent}
                (stage_write e.records) stage_write_failed
                (λ s k. log-Streaming (stage_write e.records) returned s (write e.records) k)
                (λ s reply _ _ k.
                  At-Coherent (log-Streaming (stage_write e.records) reply s (write e.records) k)))
              (λ _. record {
                at = λ s k. record {
                  life = k.life;
                  reader_agrees = k.reader_agrees;
                  stage_agrees = k.stage_agrees;
                };
              })).at
            r h)
        (λ r h _. h)

  judge_row-Streaming :
      (p : PreparedRelease) (e : SourceRowEnvelope)
      → Triple Streaming (judge_row c p e) (λ _. Streaming) (λ _. Coherent)
  unfolding judge_row
  judge_row-Streaming p e =
      Triple-cond e.rejected _ _ (reject_row-Streaming p e e.field_name)
        (settled (first_disagreement e.records p e))
    where
      settled :
          (o : Option String)
          → Triple Streaming
              (elim o [ some name ↦ reject_row p e (some name) | none ↦ write_row c e ])
              (λ _. Streaming)
              (λ _. Coherent)
      settled none = write_row-Streaming e
      settled (some name) = reject_row-Streaming p e (some name)

  pub ask_guard-Streaming : Triple Streaming (ask_guard c) (λ _. Streaming) (λ _. Coherent)
  unfolding ask_guard
  ask_guard-Streaming =
      Triple-if (λ r. c.has_guard)
        (λ r. attempt c (guard_check r.rows r.staged) resource_limit_exceeded r) (λ r. (ok tt, r))
        (λ r h _.
          (attempt-Streaming (guard_check r.rows r.staged) resource_limit_exceeded
              (check r.rows r.staged)).at
            r h)
        (λ r h _. h)

  published :
      (p : PreparedRelease) (final : Bool) (r : Run) (x : Check ValueError)
      → Streaming r
      → Post
          (λ (_ : Unit {0}). Streaming)
          (λ _. Coherent)
          (elim x [
            | ok _ ↦
                attempt c
                  (progress (event_of p final r))
                  progress_callback_failed
                  (record r { sequence = r.sequence + 1 })
            | err _ ↦ (err propagated, r)
          ])
  published p final r (ok _) h =
      (attempt-Streaming (progress (event_of p final r)) progress_callback_failed
          (report (event_of p final r))).at
        (record r { sequence = r.sequence + 1 })
        (record { life = h.life; reader_agrees = h.reader_agrees; stage_agrees = h.stage_agrees })
  published p final r (err _) h = At-Coherent h

  emit_as-Streaming :
      (o : Option PreparedRelease) (final : Bool)
      → Triple Streaming (emit_as c o final) (λ _. Streaming) (λ _. Coherent)
  unfolding emit_as publish
  emit_as-Streaming none final = record {
    at = λ r h. record {
      life = h.life;
      reader_agrees = h.reader_agrees;
      stage_agrees = h.stage_agrees;
    };
  }
  emit_as-Streaming (some p) final =
      Triple-if (λ r. c.has_progress) (publish c p final)
        (λ r. (ok tt, record r { sequence = r.sequence + 1 }))
        (λ r h _. published p final r (progress_event_post_init (event_of p final r)) h)
        (λ r h _. record {
          life = h.life;
          reader_agrees = h.reader_agrees;
          stage_agrees = h.stage_agrees;
        })

  pub emit-Streaming :
      (final : Bool) → Triple Streaming (emit c final) (λ _. Streaming) (λ _. Coherent)
  unfolding emit
  emit-Streaming final = record { at = λ r h. (emit_as-Streaming r.prepared final).at r h }

  checkpoint-Streaming : Triple Streaming (checkpoint c) (λ _. Streaming) (λ _. Coherent)
  unfolding checkpoint
  checkpoint-Streaming =
      Triple-if (λ r. r.rows % progress_row_interval == 0) (ask_guard c >> emit c false)
        (λ r. (ok tt, r))
        (λ r h _.
          (Triple-bind (λ _. emit c false) ask_guard-Streaming (λ _. emit-Streaming false)).at r h)
        (λ r h _. h)

  pub read_rows-Streaming :
      (p : PreparedRelease) (rows : List SourceRowEnvelope)
      → Triple Streaming (read_rows c p rows) (λ _. Streaming) (λ _. Coherent)
  unfolding read_rows
  read_rows-Streaming p [] = attempt-Streaming reader_next record_rejected next
  read_rows-Streaming p (e ∷ rest) =
      Triple-bind _ (attempt-Streaming reader_next record_rejected next) λ _.
        Triple-bind _ (count_row-Streaming e) λ _.
          Triple-bind _ (judge_row-Streaming p e)
            λ _. Triple-bind _ checkpoint-Streaming λ _. read_rows-Streaming p rest

  pub iterate-Streaming :
      (p : PreparedRelease) (rows : List SourceRowEnvelope)
      → Triple Streaming (iterate c p rows) (λ _. Streaming) (λ _. Coherent)
  unfolding iterate
  iterate-Streaming p rows =
      Triple-bind _
        (Triple-begin_iteration c (λ r h. log-Streaming reader_iter returned r begin h)
          (λ r reply _ _ h. At-Coherent (log-Streaming reader_iter reply r begin h)))
        λ _. read_rows-Streaming p rows
