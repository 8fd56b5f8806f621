-- ===== src/Release/Atomic/Result.antt =====
-- `process_release` shows a release whole when it accepts it, and not at all when it rejects it.
use mathlib.Core.Path.{subst}
use property_tax_data_platfo.Base.{
  ◌<◌, ◌≡◌, refl, ap, Bool, true, false, not, ◌||◌, ◌==◌, none, List, [], length, Except, Check, ok,
  err, arith, if◌then◌else◌,
}
use property_tax_data_platfo.Release.Outcome.{
  ReleaseDiagnosticCode, ReleaseOutcome, record_rejected, source_close_failed, stage_abort_failed,
  is_accepted, outcome_post_init,
}
use property_tax_data_platfo.Sources.Contracts.{AppraisalSourceRecord, ValueError}
use property_tax_data_platfo.Release.Run.{
  Reply, returned, duplicate_key, raised, reader_exit, stage_abort, stage_exit, Run, Raise,
  rejection, propagated, Caller, fresh,
}
use property_tax_data_platfo.Release.Steps.{
  fingerprint_of, record_failure, attempt, close_reader, outcome_of, make_outcome,
}
use property_tax_data_platfo.Release.Processor.{
  record_rejection, settle_abort, abort_stage, recover, close_again, clean_up, leave_stage,
  settle_exit, finish, conclude, body, process_release,
}
use property_tax_data_platfo.Release.Triple.{
  Triple, Post, Triple-bind, Triple-attempt, Triple-if, Post-weaken, log,
}
use property_tax_data_platfo.Release.Atomic.Store.{store_of, records_of}
use property_tax_data_platfo.Release.Atomic.Rows.{Hidden, record_failure-Tallied}
use property_tax_data_platfo.Release.Atomic.Body.{Shown, body-Shown, fresh-Pending}

-- nothing is visible, and the outcome will be a rejection
record Doomed (r : Run) : Type 0 where
  invisible : (store_of r.trace).visible ≡ []
  some_diagnostic : 0 < r.recorder.total_diagnostics

abbrev DoomedOr : Raise → Run → Type 0
DoomedOr (rejection code) r = Doomed r
DoomedOr propagated r = Unit

abbrev Anything : Raise → Run → Type 0
Anything e r = Unit

Doomed-failure :
    (code : ReleaseDiagnosticCode) (r : Run)
    → (store_of r.trace).visible ≡ []
    → Post (λ _. Doomed) Anything (record_failure code none none (fingerprint_of r.prepared) r)
Doomed-failure code r h =
    Post-weaken (record_failure code none none (fingerprint_of r.prepared) r)
      (λ _ s k. record { invisible = rw k.trace h; some_diagnostic = omega (arith, k.total) })
      (λ _ _ _. tt) (record_failure-Tallied code none none (fingerprint_of r.prepared) r)

counted_before :
    (r : Run)
    → (store_of r.trace).visible ≡ []
    → (b : Bool) → r.recorder.total_diagnostics == 0 ≡ b
    → Post
        (λ _. Doomed)
        Anything
        (if b
          then record_failure record_rejected none none (fingerprint_of r.prepared) r
          else (ok tt, r))
counted_before r h true e = Doomed-failure record_rejected r h
counted_before r h false e = record { invisible = h; some_diagnostic = ground arith }

abbrev IsHidden : Run → Type 0
IsHidden r = (store_of r.trace).visible ≡ []

record_rejection-Doomed :
    (code : ReleaseDiagnosticCode) → Triple IsHidden (record_rejection code) (λ _. Doomed) Anything
unfolding record_rejection
record_rejection-Doomed record_rejected = record {
  at = λ r h. counted_before r h (r.recorder.total_diagnostics == 0) refl;
}
record_rejection-Doomed code = record { at = λ r h. Doomed-failure code r h }

-- what the final state has to show for an outcome
pub record IsAtomic (rows : List AppraisalSourceRecord) (o : ReleaseOutcome) (r : Run)
    : Type 0 where
  pub visible : (store_of r.trace).visible ≡ (if is_accepted o.disposition then rows else [])
  pub committed : o.committed_record_count ≡ length (store_of r.trace).visible

module _ (c : Caller) where
  abort_stage-Doomed : Triple Doomed (abort_stage c) (λ _. Doomed) Anything
  unfolding abort_stage settle_abort store_of
  abort_stage-Doomed =
      Triple-if (λ r. r.stage_entered) _ (λ r. (ok tt, r))
        (λ r h _. aborted r (c.answer r.trace stage_abort) h) (λ r h _. h)
    where
      aborted :
          (r : Run) (reply : Reply)
          → Doomed r
          → Post (λ _. Doomed) Anything (settle_abort reply (log stage_abort reply r))
      aborted r returned h = record { invisible = h.invisible; some_diagnostic = h.some_diagnostic }
      aborted r duplicate_key h =
          Doomed-failure stage_abort_failed (log stage_abort duplicate_key r) h.invisible
      aborted r raised h = Doomed-failure stage_abort_failed (log stage_abort raised r) h.invisible

  close_reader-Doomed : Triple Doomed (close_reader c) (λ _. Doomed) DoomedOr
  unfolding close_reader store_of
  close_reader-Doomed =
      Triple-if (λ r. not r.reader_entered || r.reader_closed) (λ r. (ok tt, r))
        (λ r. attempt c reader_exit source_close_failed (record r { reader_closed = true }))
        (λ r h _. h)
        (λ r h _.
          (Triple-attempt c {P = Doomed} {Q = Doomed} {X = DoomedOr} reader_exit source_close_failed
              (λ s k. record { invisible = k.invisible; some_diagnostic = k.some_diagnostic })
              (λ s reply _ k. record {
                invisible = k.invisible;
                some_diagnostic = k.some_diagnostic;
              })).at
            (record r { reader_closed = true })
            (record { invisible = h.invisible; some_diagnostic = h.some_diagnostic }))

  recovered :
      (x : Check Raise × Run)
      → Post (λ _. Doomed) DoomedOr x
      → Post (λ _. Doomed) Anything (recover c x)
  recovered (ok _, r) h = h
  recovered (err (rejection code), r) h = Doomed-failure code r h.invisible
  recovered (err propagated, r) h = tt

  close_again-Doomed : Triple Doomed (close_again c) (λ _. Doomed) Anything
  unfolding close_again
  close_again-Doomed = record {
    at = λ r h. recovered (close_reader c r) (close_reader-Doomed.at r h);
  }

  Doomed-outcome :
      (r : Run) (x : Check ValueError)
      → Doomed r
      → Post
          (IsAtomic (records_of c.rows))
          Anything
          (elim x [ ok _ ↦ ok (outcome_of 0 r) | err _ ↦ err propagated ], r)
  Doomed-outcome r (err _) h = tt
  Doomed-outcome r (ok _) h = record {
    visible = ground (arith, h.invisible);
    committed = ground (arith, ap length h.invisible);
  }

  Shown-outcome :
      (r : Run) (x : Check ValueError)
      → Shown (records_of c.rows) r
      → Post
          (IsAtomic (records_of c.rows))
          Anything
          (elim x [ ok _ ↦ ok (outcome_of r.staged r) | err _ ↦ err propagated ], r)
  Shown-outcome r (err _) h = tt
  Shown-outcome r (ok _) h = record {
    visible = ground (arith, h.visible);
    committed = ground (arith, ap length h.visible);
  }

  clean_up-Atomic :
      (code : ReleaseDiagnosticCode)
      → Triple IsHidden (clean_up c code) (IsAtomic (records_of c.rows)) Anything
  unfolding clean_up make_outcome
  clean_up-Atomic code = Triple-bind _ (record_rejection-Doomed code) λ _.
      Triple-bind _ abort_stage-Doomed λ _.
        Triple-bind _ close_again-Doomed
          λ _. record { at = λ r h. Doomed-outcome r (outcome_post_init (outcome_of 0 r)) h }

  settled :
      {A : Type 0} (Q : A → Run → Type 0)
      → ((a : A) (r : Run) (reply : Reply) → Q a r → Q a (log stage_exit reply r))
      → (reply : Reply) (result : Except Raise A) (r : Run) → Post Q Anything (result, r)
      → Post Q Anything (settle_exit reply result, log stage_exit reply r)
  settled Q keep returned (ok a) r h = keep a r returned h
  settled Q keep _ (ok a) r h = tt
  settled Q keep returned (err e) r h = tt
  settled Q keep _ (err e) r h = tt

  -- The last call of the stage shows nothing, and can only turn a result into a raise.
  left :
      {A : Type 0} (Q : A → Run → Type 0)
      → ((a : A) (r : Run) (reply : Reply) → Q a r → Q a (log stage_exit reply r))
      → (x : Except Raise A × Run) → Post Q Anything x
      → Post Q Anything (leave_stage c x)
  unfolding leave_stage
  left Q keep (result, r) h = go r.stage_entered
    where
      go :
          (entered : Bool)
          → Post Q Anything (
              if entered
              then (
                settle_exit (c.answer r.trace stage_exit) result,
                log stage_exit (c.answer r.trace stage_exit) r,
              )
              else (result, r))
      go true = settled Q keep (c.answer r.trace stage_exit) result r h
      go false = h

  finished :
      (y : Check Raise × Run)
      → Post (λ (_ : Unit {0}). Shown (records_of c.rows)) Anything y
      → Post (IsAtomic (records_of c.rows)) Anything (finish c y)
  unfolding make_outcome
  finished (ok _, r) h = Shown-outcome r (outcome_post_init (outcome_of r.staged r)) h
  finished (err e, r) h = tt

  concluded :
      (x : Check Raise × Run)
      → Post (λ (_ : Unit {0}). Shown (records_of c.rows)) Hidden x
      → Post (IsAtomic (records_of c.rows)) Anything (conclude c x)
  concluded (ok _, r) h = finished (leave_stage c (ok tt, r)) (
      left (λ (_ : Unit {0}). Shown (records_of c.rows))
        (λ _ s reply k.
          unfold store_of in record { visible = k.visible; counted = k.counted; clean = k.clean })
        (ok tt, r) h)
  concluded (err (rejection code), r) h =
      left (IsAtomic (records_of c.rows))
        (λ _ s reply k. unfold store_of in record { visible = k.visible; committed = k.committed })
        (clean_up c code r) ((clean_up-Atomic code).at r h)
  concluded (err propagated, r) h =
      left (IsAtomic (records_of c.rows))
        (λ _ s reply k. unfold store_of in record { visible = k.visible; committed = k.committed })
        (err propagated, r) tt

-- a postcondition, read at the outcome that was returned
at_outcome :
    (Q : ReleaseOutcome → Run → Type 0) (x : Except Raise ReleaseOutcome × Run)
    → Post Q Anything x
    → (o : ReleaseOutcome) → x.0 ≡ ok o
    → Q o x.1
at_outcome Q (ok a, r) h o e = subst (λ a. Q a r) (cc) h
at_outcome Q (err e', r) h o e = absurd cc

-- Whatever the caller's objects do, when `process_release` returns an outcome, a stage that keeps
-- its contract shows the records of all rows, in order, if the outcome is accepted, and nothing if
-- it is rejected, and the outcome's committed count is the number of records shown.
pub process_release-IsAtomic :
    (c : Caller) (o : ReleaseOutcome)
    → (process_release c).0 ≡ ok o
    → IsAtomic (records_of c.rows) o (process_release c).1
unfolding process_release
process_release-IsAtomic c o e =
    at_outcome (IsAtomic (records_of c.rows)) (conclude c (body c fresh))
      (concluded c (body c fresh) ((body-Shown c).at fresh fresh-Pending)) o e
