-- ===== src/Release/Books/Body.antt =====
-- The `try` block of `process_release` keeps the counts.
use mathlib.Core.Path.{subst}
use property_tax_data_platfo.Base.{◌≡◌, refl, sym, none, some, [], All, ok, true, ◌==◌, arith}
use property_tax_data_platfo.Release.Outcome.{
  source_open_failed, layout_rejected, stage_open_failed, stage_finalize_failed,
  stage_commit_failed,
}
use property_tax_data_platfo.Release.Records.{PreparedRelease}
use property_tax_data_platfo.Release.Run.{
  Reply, Run, reader_enter, reader_prepare, stage_enter, stage_commit, stage_finalize, Caller, ◌>>◌,
  note,
}
use property_tax_data_platfo.Release.Steps.{attempt, emit, close_reader, ask_guard, iterate}
use property_tax_data_platfo.Release.Processor.{
  open_reader, prepare, open_stage, reject_if_failed, finalize, body,
}
use property_tax_data_platfo.Release.Triple.{
  Triple, Triple-bind, Triple-attempt, Triple-perform_key, Triple-if,
}
use property_tax_data_platfo.Release.Books.Recorder.{HasLayout, note-Retains}
use property_tax_data_platfo.Release.Books.Valid.{IsConstructed, notice_set-Retains}
use property_tax_data_platfo.Release.Books.Steps.{
  Books, Books-log, Ready, Refused, attempt-Ready, ask_guard-Ready, emit-Ready, close_reader-Ready,
  iterate-Ready, Iterates,
}

-- before `prepare` nothing is recorded
pub record Start (r : Run) : Type 0 where
  pub books : Books r
  pub unprepared : r.prepared ≡ none
  pub nothing : r.recorder.diagnostics ≡ []

module _ (c : Caller) (built : IsConstructed c) (iterates : Iterates c) where
  open_reader-Start : Triple Start (open_reader c) (λ _. Start) Refused
  unfolding open_reader
  open_reader-Start =
      Triple-bind _
        (Triple-attempt c {Q = Start} reader_enter source_open_failed (λ r h. ground arith)
          (λ r reply _ h. Books-log reader_enter reply r h.books))
        (λ _. record { at = λ r h. ground arith })

  prepared-Ready :
      (r : Run)
      → Start r
      → Ready c.prepared (record r {
        prepared = some c.prepared;
        recorder = note c.prepared.notices.retained c.prepared.notices.total r.recorder;
      })
  unfolding note
  prepared-Ready r h = record {
    books = record {
      diagnostics = h.books.diagnostics;
      notices =
          unfold note in
          note-Retains c.prepared.notices.retained c.prepared.notices.total r.recorder
            (notice_set-Retains c.prepared.notices built.notices) h.books.notices;
      one_layout = subst (All (HasLayout (some c.prepared.layout_fingerprint))) (sym h.nothing) tt;
      rejections = h.books.rejections;
      identity = built.prepared;
    };
    prepared = refl;
  }

  prepare-Ready : Triple Start (prepare c) Ready Refused
  unfolding prepare
  prepare-Ready =
      Triple-bind _
        (Triple-attempt c {Q = Start} reader_prepare layout_rejected (λ r h. ground arith)
          (λ r reply _ h. Books-log reader_prepare reply r h.books))
        (λ _. record { at = λ r h. prepared-Ready r h })

  open_stage-Ready : (p : PreparedRelease) → Triple (Ready p) (open_stage c) (λ _. Ready p) Refused
  unfolding open_stage
  open_stage-Ready p =
      Triple-bind _ (attempt-Ready c p stage_enter stage_open_failed)
        (λ _. record { at = λ r h. ground arith })

  reject_if_failed-Ready :
      (p : PreparedRelease) → Triple (Ready p) reject_if_failed (λ _. Ready p) Refused
  unfolding reject_if_failed
  reject_if_failed-Ready p =
      Triple-if (λ r. r.recorder.total_diagnostics == 0) (λ r. (ok tt, r)) _ (λ r h _. h)
        (λ r h _. h.books)

  finalize-Ready : (p : PreparedRelease) → Triple (Ready p) (finalize c) (λ _. Ready p) Refused
  unfolding finalize
  finalize-Ready p =
      Triple-perform_key c stage_finalize stage_finalize_failed (λ r h. ground arith)
        (λ r reply _ _ h. Books-log stage_finalize reply r h.books)

  -- `p` is what `prepare` returned
  after_prepare :
      (p : PreparedRelease)
      → Triple
          (Ready p)
          (do
            open_stage c
            ask_guard c
            iterate c p c.rows
            ask_guard c
            emit c true
            close_reader c
            reject_if_failed
            finalize c
            attempt c stage_commit stage_commit_failed)
          (λ _. Books)
          Refused
  after_prepare p = Triple-bind _ (open_stage-Ready p) λ _. Triple-bind _ (ask_guard-Ready c p) λ _.
      Triple-bind _ (iterate-Ready c p iterates c.rows built.rows) λ _.
        Triple-bind _ (ask_guard-Ready c p) λ _. Triple-bind _ (emit-Ready c p true) λ _.
          Triple-bind _ (close_reader-Ready c p) λ _. Triple-bind _ (reject_if_failed-Ready p) λ _.
            Triple-bind _ (finalize-Ready p) λ _.
              Triple-attempt c stage_commit stage_commit_failed
                (λ r h. Books-log stage_commit Reply.returned r h.books)
                (λ r reply _ h. Books-log stage_commit reply r h.books)

  pub body-Books : Triple Start (body c) (λ _. Books) Refused
  unfolding body
  body-Books = Triple-bind _ open_reader-Start λ _. Triple-bind _ prepare-Ready after_prepare
