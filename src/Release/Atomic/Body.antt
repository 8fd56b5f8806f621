-- ===== src/Release/Atomic/Body.antt =====
-- The `try` block shows every record of the release, or nothing.
use property_tax_data_platfo.Base.{
  ◌≡◌, refl, sym, ◌∙◌, ap, true, ◌==◌, List, [], length, ok, arith, inl, inr, Bool-cases,
}
use property_tax_data_platfo.Sources.Contracts.{AppraisalSourceRecord}
use property_tax_data_platfo.Release.Outcome.{
  source_open_failed, layout_rejected, stage_open_failed, stage_finalize_failed,
  stage_commit_failed,
}
use property_tax_data_platfo.Release.Records.{PreparedRelease}
use property_tax_data_platfo.Release.Run.{
  Reply, returned, Run, reader_enter, reader_prepare, stage_enter, stage_commit, stage_finalize,
  Caller, ◌>>◌, note, fresh,
}
use property_tax_data_platfo.Release.Steps.{attempt, emit, close_reader, ask_guard, iterate}
use property_tax_data_platfo.Release.Processor.{
  open_reader, prepare, open_stage, reject_if_failed, finalize, body,
}
use property_tax_data_platfo.Release.Triple.{
  Triple, Triple-bind, Triple-attempt, Triple-perform_key, Triple-if, log,
}
use property_tax_data_platfo.Release.Atomic.Store.{store_of, records_of}
use property_tax_data_platfo.Release.Atomic.Rows.{
  Pending, Hidden, attempt-Pending, ask_guard-Pending, emit-Pending, close_reader-Pending,
  iterate-Pending,
}

-- every record is staged and no diagnostic was recorded
record Full (done : List AppraisalSourceRecord) (r : Run) : Type 0 where
  invisible : (store_of r.trace).visible ≡ []
  staged : (store_of r.trace).staged ≡ done
  counted : length done ≡ r.staged
  clean : r.recorder.total_diagnostics ≡ 0

-- every record is visible
pub record Shown (done : List AppraisalSourceRecord) (r : Run) : Type 0 where
  pub visible : (store_of r.trace).visible ≡ done
  pub counted : length done ≡ r.staged
  pub clean : r.recorder.total_diagnostics ≡ 0

Pending-Full :
    (done : List AppraisalSourceRecord) (r : Run)
    → Pending done r
    → (r.recorder.total_diagnostics == 0) ≡ true
    → Full done r
Pending-Full done r h e = elim (Bool-cases r.writing) [
  | inl w ↦ record {
    invisible = h.invisible;
    staged = h.complete w;
    counted = ap length (sym (h.complete w)) ∙ h.counted;
    clean = ground arith;
  }
  | inr w ↦ absurd (ground (arith, h.doubted w))
]

module _ (c : Caller) where
  reject_if_failed-Full :
      (done : List AppraisalSourceRecord)
      → Triple (Pending done) reject_if_failed (λ _. Full done) Hidden
  unfolding reject_if_failed
  reject_if_failed-Full done =
      Triple-if (λ r. r.recorder.total_diagnostics == 0) (λ r. (ok tt, r)) _
        (λ r h e. Pending-Full done r h e) (λ r h _. h.invisible)

  finalize-Full :
      (done : List AppraisalSourceRecord) → Triple (Full done) (finalize c) (λ _. Full done) Hidden
  unfolding finalize store_of
  finalize-Full done =
      Triple-perform_key c stage_finalize stage_finalize_failed
        (λ r h. record {
          invisible = h.invisible;
          staged = h.staged;
          counted = h.counted;
          clean = h.clean;
        })
        (λ r reply _ _ h. h.invisible)

  uncommitted :
      (done : List AppraisalSourceRecord) (r : Run) (reply : Reply)
      → (reply ≡ returned → ⊥)
      → Full done r
      → (store_of (log stage_commit reply r).trace).visible ≡ []
  unfolding store_of
  uncommitted done r returned ne h = absurd (ne refl)
  uncommitted done r _ ne h = h.invisible

  commit-Shown :
      (done : List AppraisalSourceRecord)
      → Triple (Full done) (attempt c stage_commit stage_commit_failed) (λ _. Shown done) Hidden
  unfolding store_of
  commit-Shown done =
      Triple-attempt c stage_commit stage_commit_failed
        (λ r h. record {
          visible = rw (h.invisible, h.staged) refl;
          counted = h.counted;
          clean = h.clean;
        })
        (λ r reply ne h. uncommitted done r reply ne h)

  after_prepare :
      (p : PreparedRelease)
      → Triple
          (Pending [])
          (do
            open_stage c
            ask_guard c
            iterate c p c.rows
            ask_guard c
            emit c true
            close_reader c
            reject_if_failed
            finalize c
            attempt c stage_commit stage_commit_failed)
          (λ _. Shown (records_of c.rows))
          Hidden
  unfolding open_stage
  after_prepare p =
      Triple-bind _
        (Triple-bind _
          (attempt-Pending c [] stage_enter stage_open_failed (λ _ _. unfold store_of in refl))
          (λ _. record { at = λ r h. again [] r h }))
        λ _. Triple-bind _ (ask_guard-Pending c []) λ _.
          Triple-bind _ (iterate-Pending c p c.rows []) λ _.
            Triple-bind _ (ask_guard-Pending c (records_of c.rows)) λ _.
              Triple-bind _ (emit-Pending c true (records_of c.rows)) λ _.
                Triple-bind _ (close_reader-Pending c (records_of c.rows)) λ _.
                  Triple-bind _ (reject_if_failed-Full (records_of c.rows)) λ _.
                    Triple-bind _ (finalize-Full (records_of c.rows))
                      λ _. commit-Shown (records_of c.rows)
    where
      again :
          (done : List AppraisalSourceRecord) (r : Run)
          → Pending done r
          → Pending done (record r { stage_entered = true })
      again done r h = record {
        invisible = h.invisible;
        complete = h.complete;
        counted = h.counted;
        doubted = h.doubted;
      }

  pub body-Shown : Triple (Pending []) (body c) (λ _. Shown (records_of c.rows)) Hidden
  unfolding body open_reader prepare note
  body-Shown =
      Triple-bind _
        (Triple-bind _
          (attempt-Pending c [] reader_enter source_open_failed (λ _ _. unfold store_of in refl))
          (λ _. record {
            at = λ r h. record {
              invisible = h.invisible;
              complete = h.complete;
              counted = h.counted;
              doubted = h.doubted;
            };
          }))
        λ _.
          Triple-bind {Q = λ _. Pending []} _
            (Triple-bind _
              (attempt-Pending c [] reader_prepare layout_rejected (λ _ _. unfold store_of in refl))
              (λ _. record {
                at = λ r h. record {
                  invisible = h.invisible;
                  complete = h.complete;
                  counted = h.counted;
                  doubted = h.doubted;
                };
              }))
            after_prepare

pub fresh-Pending : Pending [] fresh
unfolding store_of
fresh-Pending = record {
  invisible = refl;
  complete = λ _. refl;
  counted = refl;
  doubted = λ e. absurd cc;
}
