-- ===== src/Release/Lifecycle/Result.antt =====
-- When `process_release` returns, the reader and the stage were called in order and closed.
use mathlib.Core.Path.{subst}
use property_tax_data_platfo.Base.{
  ◌≡◌, refl, sym, ap, ◌∙◌, Bool, true, false, not, ◌||◌, ℕ, Except, Check, ok, err, if◌then◌else◌,
}
use property_tax_data_platfo.Release.Outcome.{
  ReleaseDiagnosticCode, ReleaseOutcome, source_close_failed, stage_abort_failed, outcome_post_init,
}
use property_tax_data_platfo.Sources.Contracts.{ValueError}
use property_tax_data_platfo.Release.Run.{
  Reply, returned, duplicate_key, raised, Run, Raise, rejection, propagated, reader_exit,
  stage_abort, stage_exit, Caller, fresh,
}
use property_tax_data_platfo.Release.Steps.{attempt, close_reader, outcome_of, make_outcome}
use property_tax_data_platfo.Release.Processor.{
  settle_abort, abort_stage, recover, close_again, clean_up, leave_stage, settle_exit, finish,
  conclude, body, process_release,
}
use property_tax_data_platfo.Release.Triple.{
  Triple, Post, Triple-bind, Triple-attempt, Triple-if, log,
}
use property_tax_data_platfo.Release.Lifecycle.Monitor.{
  ReaderLife, closed, StageLife, absent, entered, finalized, committed, aborted, released, at_life,
  advance_life, life_of, StageOver, IsOver,
}
use property_tax_data_platfo.Release.Lifecycle.Rows.{Coherent}
use property_tax_data_platfo.Release.Lifecycle.Body.{Committed, body-Committed, fresh-At}
use property_tax_data_platfo.Release.Lifecycle.Ends.{
  Anything, recorded, record_rejection-Coherent, StageDone, Aborted, Aborted-same, Aborted-now,
  no_stage, Closed, Closed-same, no_reader, Closed-now,
}

module _ (c : Caller) where
  abort_stage-Aborted : Triple Coherent (abort_stage c) (λ _. Aborted) Anything
  unfolding abort_stage settle_abort
  abort_stage-Aborted =
      Triple-if (λ r. r.stage_entered) _ (λ r. (ok tt, r))
        (λ r h e.
          go r (c.answer r.trace stage_abort) (Aborted-now r (c.answer r.trace stage_abort) h e))
        (λ r h e. no_stage r h e)
    where
      go :
          (r : Run) (reply : Reply)
          → Aborted (log stage_abort reply r)
          → Post (λ _. Aborted) Anything (settle_abort reply (log stage_abort reply r))
      go r returned h = h
      go r duplicate_key h =
          recorded Aborted Aborted-same stage_abort_failed (log stage_abort duplicate_key r) h
      go r raised h = recorded Aborted Aborted-same stage_abort_failed (log stage_abort raised r) h

  close_reader-Closed : Triple Aborted (close_reader c) (λ _. Closed) (λ _. Closed)
  unfolding close_reader
  close_reader-Closed =
      Triple-if (λ r. not r.reader_entered || r.reader_closed) (λ r. (ok tt, r))
        (λ r. attempt c reader_exit source_close_failed (record r { reader_closed = true }))
        (λ r h e. no_reader r h e)
        (λ r h e.
          (Triple-attempt c {P = λ s. s ≡ record r { reader_closed = true }} {Q = Closed}
              {X = λ _. Closed} reader_exit source_close_failed
              (λ s q.
                subst (λ (t : Run). Closed (log reader_exit returned t)) (sym q)
                  (Closed-now r returned h e))
              (λ s reply _ q.
                subst (λ (t : Run). Closed (log reader_exit reply t)) (sym q)
                  (Closed-now r reply h e))).at
            (record r { reader_closed = true }) refl)

  recovered :
      (x : Check Raise × Run)
      → Post (λ _. Closed) (λ _. Closed) x
      → Post (λ _. Closed) Anything (recover c x)
  recovered (ok _, r) h = h
  recovered (err (rejection code), r) h = recorded Closed Closed-same code r h
  recovered (err propagated, r) h = tt

  close_again-Closed : Triple Aborted (close_again c) (λ _. Closed) Anything
  unfolding close_again
  close_again-Closed = record {
    at = λ r h. recovered (close_reader c r) (close_reader-Closed.at r h);
  }

  unmade :
      (r : Run) (x : Check ValueError) (committed_count : ℕ)
      → Closed r
      → Post
          (λ (_ : ReleaseOutcome). Closed)
          Anything
          (elim x [ ok _ ↦ ok (outcome_of committed_count r) | err _ ↦ err propagated ], r)
  unmade r (ok _) n h = h
  unmade r (err _) n h = tt

  clean_up-Closed :
      (code : ReleaseDiagnosticCode) → Triple Coherent (clean_up c code) (λ _. Closed) Anything
  unfolding clean_up make_outcome
  clean_up-Closed code = Triple-bind _ (record_rejection-Coherent code) λ _.
      Triple-bind _ abort_stage-Aborted λ _.
        Triple-bind _ close_again-Closed
          λ _. record { at = λ r h. unmade r (outcome_post_init (outcome_of 0 r)) 0 h }

  settled :
      {A : Type 0} (P : Run → Type 0) (reply : Reply) (result : Except Raise A) (r : Run)
      → P r
      → Post (λ (_ : A). P) Anything (settle_exit reply result, r)
  settled P returned (ok a) r h = h
  settled P _ (ok a) r h = tt
  settled P returned (err e) r h = tt
  settled P _ (err e) r h = tt

  left :
      {A : Type 0} (P Q : Run → Type 0)
      → ((r : Run) (reply : Reply) → P r → r.stage_entered ≡ true → Q (log stage_exit reply r))
      → ((r : Run) → P r → r.stage_entered ≡ false → Q r)
      → (x : Except Raise A × Run) → Post (λ (_ : A). P) Anything x
      → Post (λ (_ : A). Q) Anything (leave_stage c x)
  unfolding leave_stage
  left P Q exit stay (ok a, r) h = go r.stage_entered refl
    where
      go :
          (b : Bool)
          → r.stage_entered ≡ b
          → Post
              (λ _. Q)
              Anything
              (if b
                then (
                  settle_exit (c.answer r.trace stage_exit) (ok a),
                  log stage_exit (c.answer r.trace stage_exit) r,
                )
                else (ok a, r))
      go true e =
          settled Q (c.answer r.trace stage_exit) (ok a)
            (log stage_exit (c.answer r.trace stage_exit) r)
            (exit r (c.answer r.trace stage_exit) h e)
      go false e = stay r h e
  left {A} P Q exit stay (err x, r) h = go r.stage_entered
    where
      raised_again :
          (reply : Reply) (s : Run) → Post (λ (_ : A). Q) Anything (settle_exit reply (err x), s)
      raised_again returned s = tt
      raised_again _ s = tt

      go :
          (b : Bool)
          → Post
              (λ (_ : A). Q)
              Anything
              (if b
                then (
                  settle_exit (c.answer r.trace stage_exit) (err x),
                  log stage_exit (c.answer r.trace stage_exit) r,
                )
                else (err x, r))
      go true =
          raised_again (c.answer r.trace stage_exit)
            (log stage_exit (c.answer r.trace stage_exit) r)
      go false = tt

  released_now :
      (r : Run) (reply : Reply)
      → Closed r
      → r.stage_entered ≡ true
      → IsOver (log stage_exit reply r).trace
  unfolding life_of
  released_now r reply h e = record {
    reader = h.reader;
    stage = released;
    life =
        ap (advance_life stage_exit reply) h.life
        ∙ go h.reader h.stage (subst (StageDone h.stage) e h.stage_done);
    reader_over = h.reader_over;
    stage_over = tt;
  }
    where
      go :
          (reader : ReaderLife) (stage : StageLife)
          → StageDone stage true
          → advance_life stage_exit reply (at_life reader stage) ≡ at_life reader released
      go reader aborted a = refl
      go reader absent a = absurd a
      go reader entered a = absurd a
      go reader finalized a = absurd a
      go reader committed a = absurd a
      go reader released a = absurd a

  nothing_left : (r : Run) → Closed r → r.stage_entered ≡ false → IsOver r.trace
  nothing_left r h e = record {
    reader = h.reader;
    stage = h.stage;
    life = h.life;
    reader_over = h.reader_over;
    stage_over = go h.stage (subst (StageDone h.stage) e h.stage_done);
  }
    where
      go : (stage : StageLife) → StageDone stage false → StageOver stage
      go absent a = tt
      go aborted a = a
      go entered a = a
      go finalized a = a
      go committed a = a
      go released a = absurd a

  Committed-IsOver :
      (r : Run) (reply : Reply)
      → Committed r
      → r.stage_entered ≡ true
      → IsOver (log stage_exit reply r).trace
  unfolding life_of
  Committed-IsOver r reply h e = record {
    reader = closed;
    stage = released;
    life = ap (advance_life stage_exit reply) h.life;
    reader_over = tt;
    stage_over = tt;
  }

  finished :
      (y : Check Raise × Run)
      → Post (λ (_ : Unit {0}) r. IsOver r.trace) Anything y
      → Post (λ (_ : ReleaseOutcome) r. IsOver r.trace) Anything (finish c y)
  unfolding make_outcome
  finished (ok _, r) h = go (outcome_post_init (outcome_of r.staged r))
    where
      go :
          (x : Check ValueError)
          → Post
              (λ (_ : ReleaseOutcome) r. IsOver r.trace)
              Anything
              (elim x [ ok _ ↦ ok (outcome_of r.staged r) | err _ ↦ err propagated ], r)
      go (ok _) = h
      go (err _) = tt
  finished (err e, r) h = tt

  concluded :
      (x : Check Raise × Run)
      → Post (λ (_ : Unit {0}). Committed) (λ _. Coherent) x
      → Post (λ (_ : ReleaseOutcome) r. IsOver r.trace) Anything (conclude c x)
  concluded (ok _, r) h = finished (leave_stage c (ok tt, r)) (
      left Committed (λ r. IsOver r.trace) Committed-IsOver
        (λ r k e. absurd (cc (k.stage_entered, e))) (ok tt, r) h)
  concluded (err (rejection code), r) h =
      left Closed (λ r. IsOver r.trace) released_now nothing_left (clean_up c code r)
        ((clean_up-Closed code).at r h)
  concluded (err propagated, r) h =
      left Closed (λ r. IsOver r.trace) released_now nothing_left (err propagated, r) tt

-- a postcondition, read where an outcome was returned
at_outcome :
    (Q : Run → Type 0) (x : Except Raise ReleaseOutcome × Run) (o : ReleaseOutcome)
    → Post (λ (_ : ReleaseOutcome). Q) Anything x
    → x.0 ≡ ok o
    → Q x.1
at_outcome Q (ok a, r) o h e = h
at_outcome Q (err x, r) o h e = absurd cc

-- Whatever the caller's objects do, when `process_release` returns an outcome, every call that it
-- made of the reader, the stage, the callback and the guard came in the order of the contract, a
-- reader that was opened is closed, and a stage that was entered has been committed or aborted and
-- then left.
pub process_release-IsOver :
    (c : Caller) (o : ReleaseOutcome)
    → (process_release c).0 ≡ ok o
    → IsOver (process_release c).1.trace
unfolding process_release
process_release-IsOver c o e =
    at_outcome (λ r. IsOver r.trace) (conclude c (body c fresh)) o
      (concluded c (body c fresh) ((body-Committed c).at fresh fresh-At)) e
