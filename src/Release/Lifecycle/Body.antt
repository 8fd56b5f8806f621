-- ===== src/Release/Lifecycle/Body.antt =====
-- The `try` block calls in order and leaves flags from which the cleanup can start.
use mathlib.Core.Path.{subst}
use property_tax_data_platfo.Base.{
  ◌≡◌, ◌≢◌, refl, sym, ap, ◌∙◌, Bool, true, false, not, ◌||◌, ◌==◌, ok,
}
use property_tax_data_platfo.Release.Outcome.{
  source_open_failed, source_close_failed, layout_rejected, stage_open_failed,
  stage_finalize_failed, stage_commit_failed,
}
use property_tax_data_platfo.Release.Records.{PreparedRelease}
use property_tax_data_platfo.Release.Run.{
  Call, Reply, returned, duplicate_key, raised, Run, reader_enter, reader_prepare, reader_exit,
  stage_enter, stage_commit, stage_finalize, Caller, ◌>>◌, note, fresh,
}
use property_tax_data_platfo.Release.Steps.{attempt, emit, close_reader, ask_guard, iterate}
use property_tax_data_platfo.Release.Processor.{
  open_reader, prepare, open_stage, reject_if_failed, finalize, body,
}
use property_tax_data_platfo.Release.Triple.{
  Triple, Triple-bind, Triple-attempt, Triple-perform_key, Triple-if, log,
}
use property_tax_data_platfo.Release.Lifecycle.Monitor.{
  ReaderLife, unopened, opened, prepared, closed, StageLife, absent, entered, finalized, committed,
  at_life, advance_life, life_of,
}
use property_tax_data_platfo.Release.Lifecycle.Rows.{
  ReaderAgrees, StageAgrees, Coherent, At, At-Coherent, Streaming, ask_guard-Streaming,
  emit-Streaming, iterate-Streaming,
}

-- the flags lag behind a call that returned
abbrev Opened : Run → Type 0
Opened r = At opened absent (record r { reader_entered = true })

abbrev Entered : Run → Type 0
Entered r = At prepared entered (record r { stage_entered = true })

-- after the commit
pub record Committed (r : Run) : Type 0 where
  pub life : life_of r.trace ≡ at_life closed committed
  pub stage_entered : r.stage_entered ≡ true

-- how the flags follow the reader
opened_agrees : (e d : Bool) → ReaderAgrees unopened e d → ReaderAgrees opened true d
opened_agrees false false a = tt
opened_agrees false true a = a
opened_agrees true d a = absurd a

prepared_agrees : (e d : Bool) → ReaderAgrees opened e d → ReaderAgrees prepared e d
prepared_agrees true false a = tt
prepared_agrees true true a = a
prepared_agrees false d a = a

closed_agrees : (e d : Bool) → ReaderAgrees prepared e d → ReaderAgrees closed e true
closed_agrees true d a = tt
closed_agrees false d a = a

still_open : (e d : Bool) → ReaderAgrees prepared e d → (not e || d) ≡ false
still_open true false a = refl
still_open true true a = absurd a
still_open false d a = absurd a

-- the same flags after a call
logged :
    {reader reader' : ReaderLife} {stage stage' : StageLife} (call : Call) (reply : Reply) (r : Run)
    → At reader stage r
    → advance_life call reply (at_life reader stage) ≡ at_life reader' stage'
    → (ReaderAgrees reader r.reader_entered r.reader_closed
        → ReaderAgrees reader' r.reader_entered r.reader_closed)
    → (StageAgrees stage r.stage_entered → StageAgrees stage' r.stage_entered)
    → At reader' stage' (log call reply r)
unfolding life_of
logged call reply r a e f g = record {
  life = ap (advance_life call reply) a.life ∙ e;
  reader_agrees = f a.reader_agrees;
  stage_agrees = g a.stage_agrees;
}

-- a call that fails, where a failure leaves the lives as they were
failed :
    {reader : ReaderLife} {stage : StageLife} (call : Call)
    → advance_life call duplicate_key (at_life reader stage) ≡ at_life reader stage
    → advance_life call raised (at_life reader stage) ≡ at_life reader stage
    → (r : Run) (reply : Reply) → reply ≢ returned
    → At reader stage r
    → Coherent (log call reply r)
failed call d f r returned ne a = absurd (ne refl)
failed {reader} {stage} call d f r duplicate_key ne a =
    At-Coherent
      (logged {reader' = reader} {stage' = stage} call duplicate_key r a d (λ h. h) (λ h. h))
failed {reader} {stage} call d f r raised ne a =
    At-Coherent (logged {reader' = reader} {stage' = stage} call raised r a f (λ h. h) (λ h. h))

module _ (c : Caller) where
  open_reader-At :
      Triple (At unopened absent) (open_reader c) (λ _. At opened absent) (λ _. Coherent)
  unfolding open_reader life_of advance_life
  open_reader-At =
      Triple-bind _
        (Triple-attempt c {Q = Opened} reader_enter source_open_failed
          (λ r a. record {
            life = rw a.life refl;
            reader_agrees = opened_agrees r.reader_entered r.reader_closed a.reader_agrees;
            stage_agrees = a.stage_agrees;
          })
          (λ r reply ne a. failed reader_enter refl refl r reply ne a))
        (λ _. record { at = λ r h. h })

  prepare-At : Triple (At opened absent) (prepare c) (λ _. At prepared absent) (λ _. Coherent)
  unfolding prepare note advance_life
  prepare-At =
      Triple-bind _
        (Triple-attempt c {Q = At prepared absent} reader_prepare layout_rejected
          (λ r a.
            logged reader_prepare returned r a refl
              (prepared_agrees r.reader_entered r.reader_closed) (λ h. h))
          (λ r reply ne a. failed reader_prepare refl refl r reply ne a))
        (λ _. record {
          at = λ r h. record {
            life = h.life;
            reader_agrees = h.reader_agrees;
            stage_agrees = h.stage_agrees;
          };
        })

  open_stage-At : Triple (At prepared absent) (open_stage c) (λ _. Streaming) (λ _. Coherent)
  unfolding open_stage life_of advance_life
  open_stage-At =
      Triple-bind _
        (Triple-attempt c {Q = Entered} stage_enter stage_open_failed
          (λ r a. record {
            life = rw a.life refl;
            reader_agrees = a.reader_agrees;
            stage_agrees = tt;
          })
          (λ r reply ne a. failed stage_enter refl refl r reply ne a))
        (λ _. record { at = λ r h. h })

  closing :
      (r : Run) (reply : Reply)
      → Streaming r
      → At closed entered (log reader_exit reply (record r { reader_closed = true }))
  unfolding life_of
  closing r reply a = record {
    life = rw a.life refl;
    reader_agrees = closed_agrees r.reader_entered r.reader_closed a.reader_agrees;
    stage_agrees = a.stage_agrees;
  }

  close_reader-At : Triple Streaming (close_reader c) (λ _. At closed entered) (λ _. Coherent)
  unfolding close_reader
  close_reader-At =
      Triple-if (λ r. not r.reader_entered || r.reader_closed) (λ r. (ok tt, r))
        (λ r. attempt c reader_exit source_close_failed (record r { reader_closed = true }))
        (λ r h e. absurd (cc (e, still_open r.reader_entered r.reader_closed h.reader_agrees)))
        (λ r h _.
          (Triple-attempt c {P = λ s. s ≡ record r { reader_closed = true }} {Q = At closed entered}
              {X = λ _. Coherent} reader_exit source_close_failed
              (λ s e.
                subst (λ (t : Run). At closed entered (log reader_exit returned t)) (sym e)
                  (closing r returned h))
              (λ s reply _ e.
                subst (λ (t : Run). Coherent (log reader_exit reply t)) (sym e)
                  (At-Coherent (closing r reply h)))).at
            (record r { reader_closed = true }) refl)

  reject_if_failed-At :
      Triple (At closed entered) reject_if_failed (λ _. At closed entered) (λ _. Coherent)
  unfolding reject_if_failed
  reject_if_failed-At =
      Triple-if (λ r. r.recorder.total_diagnostics == 0) (λ r. (ok tt, r)) _ (λ r h _. h)
        (λ r h _. At-Coherent h)

  finalized_agrees : (d : Bool) → StageAgrees entered d → StageAgrees finalized d
  finalized_agrees true a = tt
  finalized_agrees false a = a

  finalize-At : Triple (At closed entered) (finalize c) (λ _. At closed finalized) (λ _. Coherent)
  unfolding finalize advance_life
  finalize-At =
      Triple-perform_key c stage_finalize stage_finalize_failed
        (λ r a. logged stage_finalize returned r a refl (λ h. h) (finalized_agrees r.stage_entered))
        (λ r reply _ ne a. failed stage_finalize refl refl r reply ne a)

  was_entered : (d : Bool) → StageAgrees finalized d → d ≡ true
  was_entered true a = refl
  was_entered false a = absurd a

  commit-Committed :
      Triple
        (At closed finalized)
        (attempt c stage_commit stage_commit_failed)
        (λ _. Committed)
        (λ _. Coherent)
  unfolding life_of advance_life
  commit-Committed =
      Triple-attempt c stage_commit stage_commit_failed
        (λ r a. record {
          life = rw a.life refl;
          stage_entered = was_entered r.stage_entered a.stage_agrees;
        })
        (λ r reply ne a. failed stage_commit refl refl r reply ne a)

  after_prepare :
      (p : PreparedRelease)
      → Triple
          (At prepared absent)
          (do
            open_stage c
            ask_guard c
            iterate c p c.rows
            ask_guard c
            emit c true
            close_reader c
            reject_if_failed
            finalize c
            attempt c stage_commit stage_commit_failed)
          (λ _. Committed)
          (λ _. Coherent)
  after_prepare p = Triple-bind _ open_stage-At λ _. Triple-bind _ (ask_guard-Streaming c) λ _.
      Triple-bind _ (iterate-Streaming c p c.rows) λ _. Triple-bind _ (ask_guard-Streaming c) λ _.
        Triple-bind _ (emit-Streaming c true) λ _. Triple-bind _ close_reader-At λ _.
          Triple-bind _ reject_if_failed-At λ _. Triple-bind _ finalize-At λ _. commit-Committed

  pub body-Committed : Triple (At unopened absent) (body c) (λ _. Committed) (λ _. Coherent)
  unfolding body
  body-Committed =
      Triple-bind _ open_reader-At
        λ _. Triple-bind {Q = λ _. At prepared absent} _ prepare-At after_prepare

pub fresh-At : At unopened absent fresh
unfolding life_of
fresh-At = record { life = refl; reader_agrees = tt; stage_agrees = tt }
