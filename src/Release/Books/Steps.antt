-- ===== src/Release/Books/Steps.antt =====
-- Each step of the `try` block keeps the counts, whatever the caller's objects answer.
use property_tax_data_platfo.Base.{
  ◌+◌, ◌≤◌, ◌<◌, ◌≡◌, refl, sym, String, Bool, true, false, Option, none, some, List, [], ◌∷◌, ℤ,
  All, Except, ok, err, arith, length, ◌∙◌, ◌%◌, ◌==◌, ◌&&◌, ◌||◌, not,
}
use property_tax_data_platfo.Release.Outcome.{
  ReleaseDiagnosticCode, require_optional_name, require_optional_row, record_rejected,
  progress_callback_failed, source_close_failed, resource_limit_exceeded, stage_write_failed,
}
use property_tax_data_platfo.Release.Records.{
  PreparedRelease, SourceRowEnvelope, prepared_post_init,
}
use mathlib.Core.Path.{subst}
use property_tax_data_platfo.Sources.Contracts.{AppraisalSourceRecord}
use property_tax_data_platfo.Release.Progress.{progress_row_interval}
use property_tax_data_platfo.Release.Run.{
  Call, Event, reader_iter, returned, reader_exit, progress, guard_check, stage_write, ◌>>◌,
  Recorder, modify, reader_next, Reply, Run, Raise, rejection, propagated, Caller, ◌>>=◌, note,
  fail,
}
use property_tax_data_platfo.Release.Steps.{
  fingerprint_of, record_failure, attempt, emit, close_reader, ask_guard, reject_row, write_row,
  count_row, judge_row, checkpoint, read_rows, iterate, first_disagreement, event_of, is_nonempty,
  publish, emit_as, write_records,
}
use property_tax_data_platfo.Release.Triple.{
  Triple, Post, Triple-bind, Triple-attempt, Triple-begin_iteration, Triple-perform_key, Triple-if,
  Triple-cond, Post-weaken, log,
}
use property_tax_data_platfo.Release.Books.Recorder.{
  Retains, note-Retains, HasLayout, FailedOr, fail-Failed,
}
use property_tax_data_platfo.Release.Books.Valid.{
  IsEnvelope, notice_set-Retains, valid_diagnostic, valid_fingerprint, valid_row, valid_field,
  IsNamed, first_disagreement-IsNamed, valid_event,
}

abbrev pub IsIdentity : Option PreparedRelease → Type 0
IsIdentity none = Unit
IsIdentity (some p) = prepared_post_init p ≡ ok tt

-- What holds of the recorder and the counts at every point of a run.
pub record Books (r : Run) : Type 0 where
  pub diagnostics : Retains r.recorder.diagnostics r.recorder.total_diagnostics
  pub notices : Retains r.recorder.notices r.recorder.total_notices
  pub one_layout : All (HasLayout (fingerprint_of r.prepared)) r.recorder.diagnostics
  pub rejections : r.rejected_rows ≤ r.recorder.total_diagnostics
  pub identity : IsIdentity r.prepared

-- A step may reject, and never ends in an exception that no handler catches.
abbrev pub Refused : Raise → Run → Type 0
Refused (rejection code) r = Books r
Refused propagated r = ⊥

-- `iter(reader)` returns
abbrev pub Iterates : Caller → Type 0
Iterates c = (trace : List Event) → c.answer trace reader_iter ≡ returned

-- the identity, once prepared, stays the same
pub record Ready (p : PreparedRelease) (r : Run) : Type 0 where
  pub books : Books r
  pub prepared : r.prepared ≡ some p

-- the same run after one more diagnostic
pub record Recorded (before after : Run) : Type 0 where
  pub books : Books after
  pub prepared : after.prepared ≡ before.prepared
  pub some_diagnostic : 0 < after.recorder.total_diagnostics

-- what a diagnostic needs: the counts before it, with at most one rejected row that is not recorded
pub record Recordable (r : Run) : Type 0 where
  pub diagnostics : Retains r.recorder.diagnostics r.recorder.total_diagnostics
  pub notices : Retains r.recorder.notices r.recorder.total_notices
  pub one_layout : All (HasLayout (fingerprint_of r.prepared)) r.recorder.diagnostics
  pub rejections : r.rejected_rows ≤ r.recorder.total_diagnostics + 1
  pub identity : IsIdentity r.prepared

pub Books-Recordable : {r : Run} → Books r → Recordable r
Books-Recordable b = record {
  diagnostics = b.diagnostics;
  notices = b.notices;
  one_layout = b.one_layout;
  rejections = omega (arith, b.rejections);
  identity = b.identity;
}

pub valid_layout :
    (o : Option PreparedRelease)
    → IsIdentity o
    → require_optional_name (fingerprint_of o) "layout_fingerprint" ≡ ok tt
unfolding require_optional_name
valid_layout none h = refl
valid_layout (some p) h = valid_fingerprint p h

recorded :
    (r : Run) (x : Except Raise Recorder)
    → Recordable r
    → FailedOr (fingerprint_of r.prepared) r.recorder x
    → Post
        (λ (_ : Unit {0}) s. Recorded r s)
        (λ _ _. ⊥)
        (elim x [ ok rec ↦ (ok tt, record r { recorder = rec }) | err e ↦ (err e, r) ])
recorded r (ok rec) k f = record {
  books = record {
    diagnostics = f.kept;
    notices = rw (f.same_notices, f.same_total) k.notices;
    one_layout = f.one_layout;
    rejections = omega (arith, f.counted, k.rejections);
    identity = k.identity;
  };
  prepared = refl;
  some_diagnostic = omega (arith, f.counted);
}
recorded r (err e) k f = f

-- A diagnostic that names the run's own layout is recorded.
pub record_failure-Recorded :
    (code : ReleaseDiagnosticCode) (name : Option String) (row : Option ℤ) (r : Run)
    → require_optional_name name "field_name" ≡ ok tt
    → require_optional_row row "physical_row_number" ≡ ok tt
    → Recordable r
    → Post
        (λ _ s. Recorded r s)
        (λ _ _. ⊥)
        (record_failure code name row (fingerprint_of r.prepared) r)
unfolding record_failure
record_failure-Recorded code name row r hn hr k =
    recorded r (fail code name row (fingerprint_of r.prepared) r.recorder) k (
      fail-Failed code name row (fingerprint_of r.prepared) r.recorder
        (valid_diagnostic code name row (fingerprint_of r.prepared) hn hr
          (valid_layout r.prepared k.identity))
        k.diagnostics k.one_layout)

pub Books-log : (call : Call) (reply : Reply) (r : Run) → Books r → Books (log call reply r)
Books-log call reply r b = ground arith

module _ (c : Caller) where
  -- A call changes nothing but the trace.
  pub attempt-Ready :
      (p : PreparedRelease) (call : Call) (code : ReleaseDiagnosticCode)
      → Triple (Ready p) (attempt c call code) (λ _. Ready p) Refused
  attempt-Ready p call code =
      Triple-attempt c call code (λ r h. ground arith)
        (λ r reply _ h. Books-log call reply r h.books)

  publish-Ready :
      (p q : PreparedRelease) (final : Bool)
      → prepared_post_init q ≡ ok tt
      → Triple (Ready p) (publish c q final) (λ _. Ready p) Refused
  unfolding publish
  publish-Ready p q final valid = record {
    at = λ r h.
        rw (valid_event q final r valid, publish)
          ((attempt-Ready p (progress (event_of q final r)) progress_callback_failed).at
            (record r { sequence = r.sequence + 1 }) (ground arith));
  }

  emit_as-Ready :
      (p : PreparedRelease) (o : Option PreparedRelease) (final : Bool)
      → IsIdentity o
      → Triple (Ready p) (emit_as c o final) (λ _. Ready p) Refused
  unfolding emit_as
  emit_as-Ready p none final id = record { at = λ r h. ground arith }
  emit_as-Ready p (some q) final id =
      Triple-if (λ r. c.has_progress) (publish c q final)
        (λ r. (ok tt, record r { sequence = r.sequence + 1 }))
        (λ r h _. (publish-Ready p q final id).at r h) (λ r h _. ground arith)

  pub emit-Ready :
      (p : PreparedRelease) (final : Bool) → Triple (Ready p) (emit c final) (λ _. Ready p) Refused
  unfolding emit
  emit-Ready p final = record {
    at = λ r h. (emit_as-Ready p r.prepared final h.books.identity).at r h;
  }

  pub close_reader-Ready :
      (p : PreparedRelease) → Triple (Ready p) (close_reader c) (λ _. Ready p) Refused
  unfolding close_reader
  close_reader-Ready p =
      Triple-if (λ r. not r.reader_entered || r.reader_closed) (λ r. (ok tt, r))
        (λ r. attempt c reader_exit source_close_failed (record r { reader_closed = true }))
        (λ r h _. h)
        (λ r h _.
          (attempt-Ready p reader_exit source_close_failed).at (record r { reader_closed = true })
            (ground arith))

  pub ask_guard-Ready :
      (p : PreparedRelease) → Triple (Ready p) (ask_guard c) (λ _. Ready p) Refused
  unfolding ask_guard
  ask_guard-Ready p =
      Triple-if (λ r. c.has_guard)
        (λ r. attempt c (guard_check r.rows r.staged) resource_limit_exceeded r) (λ r. (ok tt, r))
        (λ r h _. (attempt-Ready p (guard_check r.rows r.staged) resource_limit_exceeded).at r h)
        (λ r h _. h)

  reject_row-Ready :
      (p : PreparedRelease) (e : SourceRowEnvelope) (name : Option String)
      → IsEnvelope e
      → require_optional_name name "field_name" ≡ ok tt
      → Triple (Ready p) (reject_row p e name) (λ _. Ready p) Refused
  unfolding reject_row ◌>>=◌
  reject_row-Ready p e name valid named = record {
    at = λ r h.
        let s : Run = record r { rejected_rows = r.rejected_rows + 1; writing = false } in
        Post-weaken
          (record_failure record_rejected name (some e.physical_row_number)
            (some p.layout_fingerprint) s)
          (λ _ t k. record { books = k.books; prepared = k.prepared ∙ h.prepared })
          (λ _ _ k. absurd k)
          (subst
            (λ o.
              Post (λ (_ : Unit {0}) t. Recorded s t) (λ _ _. ⊥)
                (record_failure record_rejected name (some e.physical_row_number) (fingerprint_of o)
                  s))
            h.prepared
            (record_failure-Recorded record_rejected name (some e.physical_row_number) s named
              (valid_row e valid)
              (record {
                diagnostics = h.books.diagnostics;
                notices = h.books.notices;
                one_layout = h.books.one_layout;
                rejections = omega (arith, h.books.rejections);
                identity = h.books.identity;
              })));
  }

  write_records-Ready :
      (p : PreparedRelease) (xs : List AppraisalSourceRecord)
      → Triple (Ready p) (write_records c xs) (λ _. Ready p) Refused
  unfolding write_records
  write_records-Ready p xs =
      Triple-perform_key c (stage_write xs) stage_write_failed (λ r h. ground arith)
        (λ r reply _ _ h. Books-log (stage_write xs) reply r h.books)

  write_row-Ready :
      (p : PreparedRelease) (e : SourceRowEnvelope)
      → Triple (Ready p) (write_row c e) (λ _. Ready p) Refused
  unfolding write_row
  write_row-Ready p e =
      Triple-if (λ r. r.writing && is_nonempty e.records)
        (write_records c e.records
          >> modify (λ r. record r { staged = r.staged + length e.records }))
        (λ r. (ok tt, r))
        (λ r h _.
          (Triple-bind (λ _. modify (λ r. record r { staged = r.staged + length e.records }))
              (write_records-Ready p e.records) (λ _. record { at = λ s k. ground arith })).at
            r h)
        (λ r h _. h)

  judge_row-Ready :
      (p : PreparedRelease) (e : SourceRowEnvelope)
      → IsEnvelope e
      → Triple (Ready p) (judge_row c p e) (λ _. Ready p) Refused
  unfolding judge_row
  judge_row-Ready p e valid =
      Triple-cond e.rejected _ _ (reject_row-Ready p e e.field_name valid (valid_field e valid))
        (settled (first_disagreement e.records p e) (first_disagreement-IsNamed e.records p e))
    where
      settled :
          (o : Option String)
          → IsNamed o
          → Triple
              (Ready p)
              (elim o [ some name ↦ reject_row p e (some name) | none ↦ write_row c e ])
              (λ _. Ready p)
              Refused
      settled none n = write_row-Ready p e
      settled (some name) n = reject_row-Ready p e (some name) valid n.named

  count_row-Ready :
      (p : PreparedRelease) (e : SourceRowEnvelope)
      → IsEnvelope e
      → Triple (Ready p) (count_row e) (λ _. Ready p) Refused
  unfolding count_row
  count_row-Ready p e valid = record {
    at = λ r h. record {
      books = record {
        diagnostics = unfold note in h.books.diagnostics;
        notices =
            note-Retains e.notices.retained e.notices.total r.recorder
              (notice_set-Retains e.notices valid.notices) h.books.notices;
        one_layout = unfold note in h.books.one_layout;
        rejections = unfold note in h.books.rejections;
        identity = h.books.identity;
      };
      prepared = h.prepared;
    };
  }

  checkpoint-Ready : (p : PreparedRelease) → Triple (Ready p) (checkpoint c) (λ _. Ready p) Refused
  unfolding checkpoint
  checkpoint-Ready p =
      Triple-if (λ r. r.rows % progress_row_interval == 0) (ask_guard c >> emit c false)
        (λ r. (ok tt, r))
        (λ r h _.
          (Triple-bind (λ _. emit c false) (ask_guard-Ready p) (λ _. emit-Ready p false)).at r h)
        (λ r h _. h)

  -- The loop keeps the counts, over rows that were constructed.
  pub read_rows-Ready :
      (p : PreparedRelease) (rows : List SourceRowEnvelope)
      → All IsEnvelope rows
      → Triple (Ready p) (read_rows c p rows) (λ _. Ready p) Refused
  unfolding read_rows
  read_rows-Ready p [] h = attempt-Ready p reader_next record_rejected
  read_rows-Ready p (e ∷ rest) h = Triple-bind _ (attempt-Ready p reader_next record_rejected) λ _.
      Triple-bind _ (count_row-Ready p e h.0) λ _.
        Triple-bind _ (judge_row-Ready p e h.0)
          λ _. Triple-bind _ (checkpoint-Ready p) λ _. read_rows-Ready p rest h.1

  pub iterate-Ready :
      (p : PreparedRelease)
      → Iterates c
      → (rows : List SourceRowEnvelope) → All IsEnvelope rows
      → Triple (Ready p) (iterate c p rows) (λ _. Ready p) Refused
  unfolding iterate
  iterate-Ready p iterates rows h =
      Triple-bind _
        (Triple-begin_iteration c (λ r h. ground arith)
          (λ r reply e other _. absurd (other (sym e ∙ iterates r.trace))))
        λ _. read_rows-Ready p rows h
