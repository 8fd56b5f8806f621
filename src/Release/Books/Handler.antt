-- ===== src/Release/Books/Handler.antt =====
-- The `except _Rejected` block of `process_release` leaves counts with at least one diagnostic.
use property_tax_data_platfo.Base.{
  ◌<◌, ◌≡◌, refl, Bool, true, false, not, ◌||◌, ◌==◌, none, Except, ok, err, arith, if◌then◌else◌,
}
use property_tax_data_platfo.Release.Outcome.{
  ReleaseDiagnosticCode, require_optional_name, require_optional_row, record_rejected,
  source_close_failed, stage_abort_failed,
}
use property_tax_data_platfo.Release.Run.{
  Call, Reply, returned, duplicate_key, raised, reader_exit, stage_abort, Run, Raise, rejection,
  propagated, Caller,
}
use property_tax_data_platfo.Release.Steps.{fingerprint_of, record_failure, attempt, close_reader}
use property_tax_data_platfo.Release.Processor.{
  record_rejection, settle_abort, abort_stage, close_again, recover,
}
use property_tax_data_platfo.Release.Triple.{
  Triple, Post, Triple-attempt, Triple-if, Post-weaken, log,
}
use property_tax_data_platfo.Release.Books.Steps.{
  Books, Books-log, Books-Recordable, record_failure-Recorded,
}

-- the counts of a run that will be rejected
pub record Failing (r : Run) : Type 0 where
  pub books : Books r
  pub some_diagnostic : 0 < r.recorder.total_diagnostics

-- no exception leaves the handler
abbrev pub Never : Raise → Run → Type 0
Never e r = ⊥

abbrev FailingOr : Raise → Run → Type 0
FailingOr (rejection code) r = Failing r
FailingOr propagated r = ⊥

Failing-log : (call : Call) (reply : Reply) (r : Run) → Failing r → Failing (log call reply r)
Failing-log call reply r f = record {
  books = Books-log call reply r f.books;
  some_diagnostic = f.some_diagnostic;
}

plain_failure :
    (code : ReleaseDiagnosticCode) (r : Run)
    → Books r
    → Post (λ _. Failing) Never (record_failure code none none (fingerprint_of r.prepared) r)
plain_failure code r b =
    Post-weaken (record_failure code none none (fingerprint_of r.prepared) r)
      (λ _ s k. record { books = k.books; some_diagnostic = k.some_diagnostic }) (λ _ _ k. k)
      (record_failure-Recorded code none none r (unfold require_optional_name in refl)
        (unfold require_optional_row in refl) (Books-Recordable b))

counted_before :
    (r : Run)
    → Books r
    → (b : Bool) → r.recorder.total_diagnostics == 0 ≡ b
    → Post
        (λ _. Failing)
        Never
        (if b
          then record_failure record_rejected none none (fingerprint_of r.prepared) r
          else (ok tt, r))
counted_before r h true e = plain_failure record_rejected r h
counted_before r h false e = record { books = h; some_diagnostic = ground arith }

pub record_rejection-Failing :
    (code : ReleaseDiagnosticCode) → Triple Books (record_rejection code) (λ _. Failing) Never
unfolding record_rejection
record_rejection-Failing record_rejected = record {
  at = λ r h. counted_before r h (r.recorder.total_diagnostics == 0) refl;
}
record_rejection-Failing code = record { at = λ r h. plain_failure code r h }

module _ (c : Caller) where
  pub abort_stage-Failing : Triple Failing (abort_stage c) (λ _. Failing) Never
  unfolding abort_stage settle_abort
  abort_stage-Failing =
      Triple-if (λ r. r.stage_entered) _ (λ r. (ok tt, r))
        (λ r h _. aborted r (c.answer r.trace stage_abort) h) (λ r h _. h)
    where
      aborted :
          (r : Run) (reply : Reply)
          → Failing r
          → Post (λ _. Failing) Never (settle_abort reply (log stage_abort reply r))
      aborted r returned h = Failing-log stage_abort returned r h
      aborted r duplicate_key h =
          plain_failure stage_abort_failed (log stage_abort duplicate_key r)
            (Books-log stage_abort duplicate_key r h.books)
      aborted r raised h =
          plain_failure stage_abort_failed (log stage_abort raised r)
            (Books-log stage_abort raised r h.books)

  close_reader-Failing : Triple Failing (close_reader c) (λ _. Failing) FailingOr
  unfolding close_reader
  close_reader-Failing =
      Triple-if (λ r. not r.reader_entered || r.reader_closed) (λ r. (ok tt, r))
        (λ r. attempt c reader_exit source_close_failed (record r { reader_closed = true }))
        (λ r h _. h)
        (λ r h _.
          (Triple-attempt c reader_exit source_close_failed
              (λ s k. Failing-log reader_exit returned s k)
              (λ s reply _ k. Failing-log reader_exit reply s k)).at
            (record r { reader_closed = true })
            (record { books = ground arith; some_diagnostic = h.some_diagnostic }))

  recovered :
      (x : Except Raise Unit × Run)
      → Post (λ _. Failing) FailingOr x
      → Post (λ _. Failing) Never (recover c x)
  recovered (ok _, r) h = h
  recovered (err (rejection code), r) h = plain_failure code r h.books
  recovered (err propagated, r) h = h

  pub close_again-Failing : Triple Failing (close_again c) (λ _. Failing) Never
  unfolding close_again
  close_again-Failing = record {
    at = λ r h. recovered (close_reader c r) (close_reader-Failing.at r h);
  }
