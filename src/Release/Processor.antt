-- ===== src/Release/Processor.antt =====
-- release/processor.py: the `try` block of `process_release`, its handler and its `finally`.
use property_tax_data_platfo.Base.{
  true, ◌∷◌, none, some, Except, Check, ok, err, ◌==◌, if◌then◌else◌,
}
use property_tax_data_platfo.Release.Outcome.{
  ReleaseDiagnosticCode, source_open_failed, layout_rejected, record_rejected, stage_open_failed,
  stage_finalize_failed, stage_commit_failed, stage_abort_failed, ReleaseOutcome,
}
use property_tax_data_platfo.Release.Records.{PreparedRelease}
use property_tax_data_platfo.Release.Run.{
  reader_enter, reader_prepare, stage_enter, stage_finalize, stage_commit, stage_abort, stage_exit,
  returned, Reply, Caller, Run, Raise, rejection, propagated, Action, ◌>>=◌, ◌>>◌, pure, modify,
  note, fresh,
}
use property_tax_data_platfo.Release.Steps.{
  settle_key, fingerprint_of, record_failure, make_outcome, perform, attempt, emit, close_reader,
  ask_guard, iterate,
}

unfoldable pub reject_if_failed : Action Unit
reject_if_failed r =
    if r.recorder.total_diagnostics == 0 then (ok tt, r) else (err (rejection record_rejected), r)

-- A row rejection already recorded its own diagnostic.
unfoldable pub record_rejection : ReleaseDiagnosticCode → Action Unit
unfolding record_failure
record_rejection record_rejected r =
    if r.recorder.total_diagnostics == 0
    then record_failure record_rejected none none (fingerprint_of r.prepared) r
    else (ok tt, r)
record_rejection code r = record_failure code none none (fingerprint_of r.prepared) r

-- what follows a `stage.abort`: its failure is one more diagnostic
unfoldable pub settle_abort : Reply → Action Unit
unfolding record_failure
settle_abort returned r = (ok tt, r)
settle_abort _ r = record_failure stage_abort_failed none none (fingerprint_of r.prepared) r

-- an exception of `stage.__exit__` replaces the result
abbrev pub settle_exit : {A : Type 0} → Reply → Except Raise A → Except Raise A
settle_exit returned result = result
settle_exit _ result = err propagated

module _ (c : Caller) where
  unfoldable pub open_reader : Action Unit
  unfolding ◌>>=◌ attempt
  open_reader = do
    attempt c reader_enter source_open_failed
    modify (λ r. record r { reader_entered = true })

  unfoldable pub prepare : Action PreparedRelease
  unfolding ◌>>=◌ attempt
  prepare = do
    attempt c reader_prepare layout_rejected
    modify (λ r. record r {
      prepared = some c.prepared;
      recorder = note c.prepared.notices.retained c.prepared.notices.total r.recorder;
    })
    pure c.prepared

  unfoldable pub open_stage : Action Unit
  unfolding ◌>>=◌ attempt
  open_stage = do
    attempt c stage_enter stage_open_failed
    modify (λ r. record r { stage_entered = true })

  unfoldable pub finalize : Action Unit
  unfolding ◌>>=◌ perform settle_key
  finalize = do reply ← perform c stage_finalize; settle_key stage_finalize_failed reply

  -- the `try` block
  unfoldable pub body : Action Unit
  body = do
    open_reader
    p ← prepare
    open_stage
    ask_guard c
    iterate c p c.rows
    ask_guard c
    emit c true
    close_reader c
    reject_if_failed
    finalize
    attempt c stage_commit stage_commit_failed

  unfoldable pub abort_stage : Action Unit
  unfolding ◌>>=◌ perform settle_abort
  abort_stage r =
      if r.stage_entered
      then (do reply ← perform c stage_abort; settle_abort reply) r
      else (ok tt, r)

  abbrev pub recover : Check Raise × Run → Check Raise × Run
  recover (ok _, r) = (ok tt, r)
  recover (err (rejection code), r) = record_failure code none none (fingerprint_of r.prepared) r
  recover (err propagated, r) = (err propagated, r)

  -- `close_reader` in the handler, where its failure is one more diagnostic
  unfoldable pub close_again : Action Unit
  unfolding close_reader record_failure
  close_again r = recover (close_reader c r)

  -- the `except _Rejected` block
  unfoldable pub clean_up : ReleaseDiagnosticCode → Action ReleaseOutcome
  unfolding ◌>>=◌
  clean_up code = do record_rejection code; abort_stage; close_again; λ r. (make_outcome 0 r, r)

  -- the `finally` block, around a result that is returned or raised
  unfoldable pub leave_stage : {A : Type 0} → Except Raise A × Run → Except Raise A × Run
  leave_stage (result, r) =
      if r.stage_entered
      then (
        settle_exit (c.answer r.trace stage_exit) result,
        record r {
          trace = record { call = stage_exit; reply = c.answer r.trace stage_exit } ∷ r.trace;
        },
      )
      else (result, r)

  -- the `_outcome` that follows the `try` statement
  abbrev pub finish : Check Raise × Run → Except Raise ReleaseOutcome × Run
  finish (ok _, r) = (make_outcome r.staged r, r)
  finish (err e, r) = (err e, r)

  abbrev pub conclude : Check Raise × Run → Except Raise ReleaseOutcome × Run
  conclude (ok _, r) = finish (leave_stage (ok tt, r))
  conclude (err (rejection code), r) = leave_stage (clean_up code r)
  conclude (err propagated, r) = leave_stage (err propagated, r)

  unfoldable pub process_release : Except Raise ReleaseOutcome × Run
  process_release = conclude (body fresh)
