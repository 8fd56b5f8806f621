-- ===== src/Release/Lifecycle/Ends.antt =====
-- What the handler of `process_release` leaves: the stage aborted, the reader closed.
use mathlib.Core.Path.{subst}
use property_tax_data_platfo.Base.{
  ◌≡◌, refl, sym, ap, ◌∙◌, Bool, true, false, not, ◌||◌, ◌==◌, none, ok, if◌then◌else◌,
}
use property_tax_data_platfo.Release.Outcome.{ReleaseDiagnosticCode, record_rejected}
use property_tax_data_platfo.Release.Run.{Reply, Run, Raise, reader_exit, stage_abort}
use property_tax_data_platfo.Release.Steps.{record_failure, fingerprint_of}
use property_tax_data_platfo.Release.Processor.{record_rejection}
use property_tax_data_platfo.Release.Triple.{Triple, Post, Post-weaken, log}
use property_tax_data_platfo.Release.Lifecycle.Monitor.{
  ReaderLife, unopened, opened, prepared, closed, StageLife, absent, entered, finalized, committed,
  aborted, released, at_life, advance_life, life_of, ReaderOver,
}
use property_tax_data_platfo.Release.Lifecycle.Rows.{
  ReaderAgrees, StageAgrees, Coherent, SameCalls, record_failure-SameCalls,
}

abbrev pub Anything : Raise → Run → Type 0
Anything e r = Unit

pub Coherent-same : (r s : Run) → SameCalls r s → Coherent r → Coherent s
Coherent-same r s e h = record {
  reader = h.reader;
  stage = h.stage;
  life = rw e.trace h.life;
  reader_agrees = rw (e.reader_entered, e.reader_closed) h.reader_agrees;
  stage_agrees = rw e.stage_entered h.stage_agrees;
}

-- a failure that is recorded keeps what depends on the calls alone
pub recorded :
    (P : Run → Type 0)
    → ((r s : Run) → SameCalls r s → P r → P s)
    → (code : ReleaseDiagnosticCode) (r : Run) → P r
    → Post (λ _. P) Anything (record_failure code none none (fingerprint_of r.prepared) r)
recorded P keep code r h =
    Post-weaken (record_failure code none none (fingerprint_of r.prepared) r)
      (λ _ s k. keep r s k h) (λ _ _ _. tt)
      (record_failure-SameCalls code none none (fingerprint_of r.prepared) r)

pub counted_before :
    (r : Run)
    → Coherent r
    → (b : Bool)
    → Post
        (λ _. Coherent)
        Anything
        (if b
          then record_failure record_rejected none none (fingerprint_of r.prepared) r
          else (ok tt, r))
counted_before r h true = recorded Coherent Coherent-same record_rejected r h
counted_before r h false = h

pub record_rejection-Coherent :
    (code : ReleaseDiagnosticCode)
    → Triple Coherent (record_rejection code) (λ _. Coherent) Anything
unfolding record_rejection
record_rejection-Coherent record_rejected = record {
  at = λ r h. counted_before r h (r.recorder.total_diagnostics == 0);
}
record_rejection-Coherent code = record { at = λ r h. recorded Coherent Coherent-same code r h }

-- the stage, if there was one, is aborted
abbrev pub StageDone : StageLife → Bool → Type 0
StageDone absent false = Unit
StageDone aborted true = Unit
StageDone _ _ = ⊥

pub record Aborted (r : Run) : Type 0 where
  pub reader : ReaderLife
  pub stage : StageLife
  pub life : life_of r.trace ≡ at_life reader stage
  pub reader_agrees : ReaderAgrees reader r.reader_entered r.reader_closed
  pub stage_done : StageDone stage r.stage_entered

pub Aborted-same : (r s : Run) → SameCalls r s → Aborted r → Aborted s
Aborted-same r s e h = record {
  reader = h.reader;
  stage = h.stage;
  life = rw e.trace h.life;
  reader_agrees = rw (e.reader_entered, e.reader_closed) h.reader_agrees;
  stage_done = rw e.stage_entered h.stage_done;
}

pub Aborted-now :
    (r : Run) (reply : Reply)
    → Coherent r
    → r.stage_entered ≡ true
    → Aborted (log stage_abort reply r)
unfolding life_of
Aborted-now r reply h e = record {
  reader = h.reader;
  stage = aborted;
  life =
      ap (advance_life stage_abort reply) h.life
      ∙ allowed reply h.reader h.stage (subst (StageAgrees h.stage) e h.stage_agrees);
  reader_agrees = h.reader_agrees;
  stage_done = subst (StageDone aborted) (sym e) tt;
}
  where
    allowed :
        (reply : Reply) (reader : ReaderLife) (stage : StageLife)
        → StageAgrees stage true
        → advance_life stage_abort reply (at_life reader stage) ≡ at_life reader aborted
    allowed reply reader entered a = refl
    allowed reply reader finalized a = refl
    allowed reply reader absent a = absurd a
    allowed reply reader committed a = absurd a
    allowed reply reader aborted a = absurd a
    allowed reply reader released a = absurd a

pub no_stage : (r : Run) → Coherent r → r.stage_entered ≡ false → Aborted r
no_stage r h e = record {
  reader = h.reader;
  stage = h.stage;
  life = h.life;
  reader_agrees = h.reader_agrees;
  stage_done =
      subst (StageDone h.stage) (sym e) (go h.stage (subst (StageAgrees h.stage) e h.stage_agrees));
}
  where
    go : (stage : StageLife) → StageAgrees stage false → StageDone stage false
    go absent a = tt
    go entered a = a
    go finalized a = a
    go committed a = a
    go aborted a = a
    go released a = a

-- the reader, if it was opened, is closed
pub record Closed (r : Run) : Type 0 where
  pub reader : ReaderLife
  pub stage : StageLife
  pub life : life_of r.trace ≡ at_life reader stage
  pub reader_over : ReaderOver reader
  pub stage_done : StageDone stage r.stage_entered

pub Closed-same : (r s : Run) → SameCalls r s → Closed r → Closed s
Closed-same r s e h = record {
  reader = h.reader;
  stage = h.stage;
  life = rw e.trace h.life;
  reader_over = h.reader_over;
  stage_done = rw e.stage_entered h.stage_done;
}

pub no_reader : (r : Run) → Aborted r → (not r.reader_entered || r.reader_closed) ≡ true → Closed r
no_reader r h e = record {
  reader = h.reader;
  stage = h.stage;
  life = h.life;
  reader_over = go h.reader r.reader_entered r.reader_closed h.reader_agrees e;
  stage_done = h.stage_done;
}
  where
    go :
        (reader : ReaderLife) (e d : Bool)
        → ReaderAgrees reader e d
        → (not e || d) ≡ true
        → ReaderOver reader
    go unopened e d a t = tt
    go closed e d a t = tt
    go opened true false a t = cc
    go opened true true a t = a
    go opened false d a t = a
    go prepared true false a t = cc
    go prepared true true a t = a
    go prepared false d a t = a

pub Closed-now :
    (r : Run) (reply : Reply)
    → Aborted r
    → (not r.reader_entered || r.reader_closed) ≡ false
    → Closed (log reader_exit reply (record r { reader_closed = true }))
unfolding life_of
Closed-now r reply h e = record {
  reader = closed;
  stage = h.stage;
  life =
      ap (advance_life reader_exit reply) h.life
      ∙ go h.reader h.stage r.reader_entered r.reader_closed h.reader_agrees e;
  reader_over = tt;
  stage_done = h.stage_done;
}
  where
    go :
        (reader : ReaderLife) (stage : StageLife) (e d : Bool)
        → ReaderAgrees reader e d
        → (not e || d) ≡ false
        → advance_life reader_exit reply (at_life reader stage) ≡ at_life closed stage
    go opened stage e d a t = refl
    go prepared stage e d a t = refl
    go unopened stage false d a t = cc
    go unopened stage true d a t = absurd a
    go closed stage true true a t = cc
    go closed stage true false a t = absurd a
    go closed stage false d a t = absurd a
