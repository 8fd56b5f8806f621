-- ===== src/Release/Books/Result.antt =====
-- `process_release` returns an outcome that its own constructor accepts.
use text.Mathlib.TextPositions.{eq_refl}
use property_tax_data_platfo.Base.{
  ℕ, ◌<◌, ◌≡◌, refl, true, ◌⊎◌, inl, inr, Option, none, some, String, List, [], ◌∷◌, All, Except,
  Check, ok, err, opt_str_eq, is_some, ltb, arith, ◌∙◌,
}
use property_tax_data_platfo.Release.Outcome.{
  ReleaseDiagnostic, ReleaseDiagnosticCode, ReleaseOutcome, outcome_post_init, require_retention,
  require_one_layout, require_disposition,
}
use property_tax_data_platfo.Release.Records.{PreparedRelease}
use property_tax_data_platfo.Release.Run.{
  Run, Raise, rejection, propagated, Event, stage_exit, returned, Caller, fresh,
}
use property_tax_data_platfo.Release.Steps.{fingerprint_of, version_of, outcome_of, make_outcome}
use property_tax_data_platfo.Release.Books.Recorder.{Retains, HasLayout}
use property_tax_data_platfo.Release.Books.Steps.{Books, Books-log, Refused, Iterates, valid_layout}
use property_tax_data_platfo.Release.Books.Handler.{
  Never, record_rejection-Failing, abort_stage-Failing, close_again-Failing,
}
use property_tax_data_platfo.Release.Books.Valid.{IsConstructed}
use property_tax_data_platfo.Release.Books.Body.{Start, body-Books}
use property_tax_data_platfo.Release.Triple.{Triple, Post, Triple-bind}
use property_tax_data_platfo.Release.Processor.{
  body, clean_up, leave_stage, conclude, finish, process_release,
}

retention_accepted {ℓ} :
    {A : Type ℓ} (xs : List A) (n : ℕ) (name : String)
    → Retains xs n
    → require_retention xs n (ltb 100 n) name ≡ ok tt
unfolding require_retention
retention_accepted xs n name h = ground arith

same_layout : (o : Option String) → opt_str_eq o o ≡ true
same_layout none = refl
same_layout (some s) = eq_refl s

one_layout_accepted :
    (ds : List ReleaseDiagnostic) (o : Option String)
    → All (HasLayout o) ds
    → require_one_layout ds o ≡ ok tt
unfolding require_one_layout
one_layout_accepted [] o h = refl
one_layout_accepted (d ∷ ds) o h = ground (arith, same_layout o, one_layout_accepted ds o h.1, h.0)

paired : (o : Option PreparedRelease) → is_some (version_of o) ≡ is_some (fingerprint_of o)
paired none = refl
paired (some p) = refl

disposition_accepted :
    (committed : ℕ) (r : Run)
    → Books r
    → (committed ≡ r.staged) ⊎ (0 < r.recorder.total_diagnostics)
    → require_disposition (outcome_of committed r) ≡ ok tt
unfolding require_disposition
disposition_accepted committed r b h = ground arith

pub outcome_accepted :
    (committed : ℕ) (r : Run)
    → Books r
    → (committed ≡ r.staged) ⊎ (0 < r.recorder.total_diagnostics)
    → outcome_post_init (outcome_of committed r) ≡ ok tt
unfolding outcome_post_init
outcome_accepted committed r b h = ground (
  arith,
  valid_layout r.prepared b.identity,
  paired r.prepared,
  retention_accepted r.recorder.diagnostics r.recorder.total_diagnostics "diagnostics"
      b.diagnostics,
  retention_accepted r.recorder.notices r.recorder.total_notices "notices" b.notices,
  one_layout_accepted r.recorder.diagnostics (fingerprint_of r.prepared) b.one_layout,
  disposition_accepted committed r b h,
)

-- an outcome that its constructor accepts
abbrev IsAccepted : ReleaseOutcome → Run → Type 0
IsAccepted o r = outcome_post_init o ≡ ok tt

made :
    (committed : ℕ) (r : Run)
    → Books r
    → (committed ≡ r.staged) ⊎ (0 < r.recorder.total_diagnostics)
    → Post IsAccepted Never (make_outcome committed r, r)
unfolding make_outcome
made committed r b h =
    rw (outcome_accepted committed r b h, Post) (outcome_accepted committed r b h)

module _ (c : Caller) where
  clean_up-Accepted :
      (code : ReleaseDiagnosticCode) → Triple Books (clean_up c code) IsAccepted Never
  unfolding clean_up
  clean_up-Accepted code = Triple-bind _ (record_rejection-Failing code) λ _.
      Triple-bind _ (abort_stage-Failing c) λ _.
        Triple-bind _ (close_again-Failing c)
          λ _. record { at = λ r h. made 0 r h.books (inr h.some_diagnostic) }

-- `__exit__` of the stage returns, as release/protocols.py requires of it
abbrev pub ExitsCleanly : Caller → Type 0
ExitsCleanly c = (trace : List Event) → c.answer trace stage_exit ≡ returned

module _ (c : Caller) (exits : ExitsCleanly c) where
  left : {A : Type 0} (x : Except Raise A × Run) → (leave_stage c x).0 ≡ x.0
  unfolding leave_stage
  left (result, r) = ground (arith, exits r.trace)

  left-Books : {A : Type 0} (x : Except Raise A × Run) → Books x.1 → Books (leave_stage c x).1
  unfolding leave_stage
  left-Books (result, r) b = ground (arith, Books-log stage_exit (c.answer r.trace stage_exit) r b)

  abbrev Accepted : Except Raise ReleaseOutcome × Run → Type 0
  Accepted y = (o : ReleaseOutcome) × (y.0 ≡ ok o) × (outcome_post_init o ≡ ok tt)

  Accepted-result : (y : Except Raise ReleaseOutcome × Run) → Post IsAccepted Never y → Accepted y
  Accepted-result (ok o, r) h = (o, refl, h)
  Accepted-result (err e, r) h = absurd h

  finished : (y : Check Raise × Run) → y.0 ≡ ok tt → Books y.1 → Accepted (finish c y)
  finished (ok _, r) e b =
      Accepted-result (make_outcome r.staged r, r) (made r.staged r b (inl refl))
  finished (err e, r) h b = absurd cc

  concluded : (x : Check Raise × Run) → Post (λ _. Books) Refused x → Accepted (conclude c x)
  concluded (ok _, r) b =
      finished (leave_stage c (ok tt, r)) (left (ok tt, r)) (left-Books (ok tt, r) b)
  concluded (err (rejection code), r) b =
      let (o, e, h) = Accepted-result (clean_up c code r) ((clean_up-Accepted c code).at r b) in
      (o, left (clean_up c code r) ∙ e, h)
  concluded (err propagated, r) b = absurd b

fresh-Start : Start fresh
fresh-Start = record {
  books = record {
    diagnostics = refl;
    notices = refl;
    one_layout = tt;
    rejections = omega arith;
    identity = tt;
  };
  unprepared = refl;
  nothing = refl;
}

-- When the reader's values were constructed, the reader's `__iter__` returns and the stage's
-- `__exit__` returns, `process_release` returns an outcome, whatever else fails, and the checks of
-- `ReleaseOutcome` accept it.
pub process_release-accepted :
    (c : Caller)
    → IsConstructed c
    → Iterates c
    → ExitsCleanly c
    → (o : ReleaseOutcome) × ((process_release c).0 ≡ ok o) × (outcome_post_init o ≡ ok tt)
unfolding process_release
process_release-accepted c built iterates exits =
    concluded c exits (body c fresh) ((body-Books c built iterates).at fresh fresh-Start)
