-- ===== src/Release/Run.antt =====
-- release/protocols.py and the local state of `process_release`. The caller's objects (reader,
-- stage, progress callback, guard) are not implemented here: each call of them is answered by a
-- function of all the calls before it, so a theorem holds for every way in which they behave.
use property_tax_data_platfo.Base.{
  ℕ, ◌+◌, String, Bool, true, false, Option, none, List, [], ◌∷◌, ◌++◌, ℤ, length, Except, ok, err,
  ltb, if◌then◌else◌,
}
use property_tax_data_platfo.Sources.Contracts.{ValueError, AppraisalSourceRecord}
use property_tax_data_platfo.Release.Outcome.{
  ReleaseDiagnosticCode, ReleaseDiagnostic, ReleaseNotice, diagnostic_post_init,
  diagnostic_retention_limit,
}
use property_tax_data_platfo.Release.Records.{PreparedRelease, SourceRowEnvelope}
use property_tax_data_platfo.Release.Progress.{ReleaseProgressEvent}

-- the methods of `PreparedReader`, `ReleaseStage`, `ProgressCallback` and `ResourceGuard`
pub data Call : Type 0 where
  reader_enter reader_prepare reader_iter reader_next reader_exit : Call
  stage_enter stage_finalize stage_commit stage_abort stage_exit : Call
  stage_write : List AppraisalSourceRecord → Call
  progress : ReleaseProgressEvent → Call
  guard_check : ℕ → ℕ → Call

-- How a call ends: it returns, raises `DuplicateRecordKey`, or raises another exception.
pub data Reply : Type 0 where
  returned duplicate_key raised : Reply

pub record Event : Type 0 where
  pub call : Call
  pub reply : Reply

-- What the caller supplies. `prepared` is the result of a `prepare` that returns, and `rows` are
-- the envelopes of the `next` calls that return, after which the reader stops. `answer` is given
-- the calls made so far, the latest first.
pub record Caller : Type 0 where
  pub prepared : PreparedRelease
  pub rows : List SourceRowEnvelope
  pub has_progress : Bool
  pub has_guard : Bool
  pub answer : List Event → Call → Reply

-- `_Recorder`
pub record Recorder : Type 0 where
  pub diagnostics : List ReleaseDiagnostic
  pub notices : List ReleaseNotice
  pub total_diagnostics : ℕ
  pub total_notices : ℕ

-- The local variables of `process_release`, and the calls that it has made.
pub record Run : Type 0 where
  pub recorder : Recorder
  pub prepared : Option PreparedRelease
  pub rows : ℕ
  pub staged : ℕ
  pub rejected_rows : ℕ
  pub sequence : ℕ
  pub reader_entered : Bool
  pub reader_closed : Bool
  pub stage_entered : Bool
  pub writing : Bool
  pub trace : List Event

-- `_Rejected`, or any other exception, which no handler of `process_release` catches
pub data Raise : Type 0 where
  rejection : ReleaseDiagnosticCode → Raise
  propagated : Raise

-- Code that changes the local state; what it changed before a raise stays changed.
abbrev pub Action : Type 0 → Type 0
Action A = Run → Except Raise A × Run

abbrev pub continue : {A B : Type 0} → Except Raise A → (A → Action B) → Action B
continue (ok a) f r = f a r
continue (err e) f r = (err e, r)

infixl 5 ◌>>=◌ ◌>>◌
unfoldable pub ◌>>=◌ : {A B : Type 0} → Action A → (A → Action B) → Action B
◌>>=◌ m f r = let (result, r') = m r in continue result f r'

abbrev pub ◌>>◌ : {B : Type 0} → Action Unit → Action B → Action B
m >> k = m >>= λ _. k

abbrev pub pure : {A : Type 0} → A → Action A
pure a r = (ok a, r)

abbrev pub raise : {A : Type 0} → Raise → Action A
raise e r = (err e, r)

abbrev pub modify : (Run → Run) → Action Unit
modify f r = (ok tt, f r)

-- a `ValueError` of a constructor is no `_Rejected`
abbrev pub or_propagate {ℓ} : {A : Type ℓ} → Except ValueError A → Except Raise A
or_propagate (ok a) = ok a
or_propagate (err e) = err propagated

-- `_Recorder.fail`
unfoldable pub fail :
    ReleaseDiagnosticCode
    → Option String
    → Option ℤ
    → Option String
    → Recorder
    → Except Raise Recorder
fail code field_name row fingerprint rec =
    let entry : ReleaseDiagnostic = record {
      code = code;
      field_name = field_name;
      physical_row_number = row;
      layout_fingerprint = fingerprint;
    } in
    if ltb (length rec.diagnostics) diagnostic_retention_limit
    then elim (diagnostic_post_init entry) [
      | ok _ ↦ ok (record rec {
        diagnostics = rec.diagnostics ++ entry ∷ [];
        total_diagnostics = rec.total_diagnostics + 1;
      })
      | err _ ↦ err propagated
    ]
    else ok (record rec { total_diagnostics = rec.total_diagnostics + 1 })

-- the loop of `_Recorder.note`
unfoldable pub keep_notices : List ReleaseNotice → List ReleaseNotice → List ReleaseNotice
keep_notices kept [] = kept
keep_notices kept (notice ∷ rest) =
    keep_notices
      (if ltb (length kept) diagnostic_retention_limit then kept ++ notice ∷ [] else kept) rest

-- `_Recorder.note`
unfoldable pub note : List ReleaseNotice → ℕ → Recorder → Recorder
note notices total rec = record rec {
  notices = keep_notices rec.notices notices;
  total_notices = rec.total_notices + total;
}

abbrev pub fresh : Run
fresh = record {
  recorder = record { diagnostics = []; notices = []; total_diagnostics = 0; total_notices = 0 };
  prepared = none;
  rows = 0;
  staged = 0;
  rejected_rows = 0;
  sequence = 0;
  reader_entered = false;
  reader_closed = false;
  stage_entered = false;
  writing = true;
  trace = [];
}
