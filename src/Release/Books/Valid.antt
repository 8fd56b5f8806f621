-- ===== src/Release/Books/Valid.antt =====
-- What the constructors of release/records.py ensure, and what follows for diagnostics and events.
use property_tax_data_platfo.Base.{
  ◌≡◌, refl, String, Bool, true, false, Option, none, some, List, [], ◌∷◌, ℤ, All, ok, arith,
}
use property_tax_data_platfo.Sources.Contracts.{AppraisalSourceRecord}
use property_tax_data_platfo.Release.Outcome.{
  ReleaseDiagnosticCode, diagnostic_post_init, require_optional_name, require_optional_row,
}
use property_tax_data_platfo.Release.Records.{
  PreparedRelease, SourceRowEnvelope, NoticeSet, notice_set_post_init, prepared_post_init,
  envelope_post_init, record_disagreement, first_differing, compared_fields,
}
use property_tax_data_platfo.Release.Progress.{progress_event_post_init}
use property_tax_data_platfo.Release.Run.{Run, Caller}
use property_tax_data_platfo.Release.Steps.{first_disagreement, event_of}
use property_tax_data_platfo.Release.Books.Recorder.{Retains}

-- An envelope that its constructor, and that of its notices, accepted.
pub record IsEnvelope (e : SourceRowEnvelope) : Type 0 where
  pub accepted : envelope_post_init e ≡ ok tt
  pub notices : notice_set_post_init e.notices ≡ ok tt

-- The values that the reader hands over were constructed.
pub record IsConstructed (c : Caller) : Type 0 where
  pub prepared : prepared_post_init c.prepared ≡ ok tt
  pub notices : notice_set_post_init c.prepared.notices ≡ ok tt
  pub rows : All IsEnvelope c.rows

pub notice_set-Retains :
    (s : NoticeSet) → notice_set_post_init s ≡ ok tt → Retains s.retained s.total
unfolding notice_set_post_init
notice_set-Retains s h = ground arith

pub valid_diagnostic :
    (code : ReleaseDiagnosticCode) (name : Option String) (row : Option ℤ)
    (fingerprint : Option String)
    → require_optional_name name "field_name" ≡ ok tt
    → require_optional_row row "physical_row_number" ≡ ok tt
    → require_optional_name fingerprint "layout_fingerprint" ≡ ok tt
    → diagnostic_post_init (record {
      code = code;
      field_name = name;
      physical_row_number = row;
      layout_fingerprint = fingerprint;
    })
      ≡ ok tt
valid_diagnostic code name row fingerprint hn hr hf = unfold diagnostic_post_init in rw (hn, hr, hf)

pub valid_fingerprint :
    (p : PreparedRelease)
    → prepared_post_init p ≡ ok tt
    → require_optional_name (some p.layout_fingerprint) "layout_fingerprint" ≡ ok tt
unfolding prepared_post_init require_optional_name
valid_fingerprint p h = ground arith

pub valid_row :
    (e : SourceRowEnvelope)
    → IsEnvelope e
    → require_optional_row (some e.physical_row_number) "physical_row_number" ≡ ok tt
unfolding envelope_post_init require_optional_row
valid_row e h = ground arith

pub valid_field :
    (e : SourceRowEnvelope) → IsEnvelope e → require_optional_name e.field_name "field_name" ≡ ok tt
unfolding envelope_post_init
valid_field e h = ground arith

abbrev pub NamedBy : Option String → Type 0
NamedBy none = Unit
NamedBy (some name) = require_optional_name (some name) "field_name" ≡ ok tt

-- A name that a diagnostic may carry, or none.
pub record IsNamed (o : Option String) : Type 0 where
  pub named : NamedBy o

-- every listed name is one that a diagnostic may carry
first_differing-IsNamed :
    (fields : List (String × Bool))
    → All (λ (f : String × Bool). NamedBy (some f.0)) fields
    → IsNamed (first_differing fields)
unfolding first_differing
first_differing-IsNamed [] h = record { named = tt }
first_differing-IsNamed ((name, true) ∷ rest) h = first_differing-IsNamed rest h.1
first_differing-IsNamed ((name, false) ∷ rest) h = record { named = h.0 }

-- A disagreement is named by one of six field names.
disagreement-IsNamed :
    (x : AppraisalSourceRecord) (p : PreparedRelease) (e : SourceRowEnvelope)
    → IsNamed (record_disagreement x p e)
unfolding record_disagreement require_optional_name
disagreement-IsNamed x p e =
    first_differing-IsNamed (compared_fields x p e)
      (refl, (refl, (refl, (refl, (refl, (refl, tt))))))

first-IsNamed :
    (o : Option String) {rest : Option String}
    → IsNamed o
    → IsNamed rest
    → IsNamed (elim o [ some name ↦ some name | none ↦ rest ])
first-IsNamed none ho hr = hr
first-IsNamed (some name) ho hr = ho

pub first_disagreement-IsNamed :
    (xs : List AppraisalSourceRecord) (p : PreparedRelease) (e : SourceRowEnvelope)
    → IsNamed (first_disagreement xs p e)
unfolding first_disagreement
first_disagreement-IsNamed [] p e = record { named = tt }
first_disagreement-IsNamed (x ∷ xs) p e =
    first-IsNamed (record_disagreement x p e) (disagreement-IsNamed x p e)
      (first_disagreement-IsNamed xs p e)

-- The event repeats the tests of the prepared release.
pub valid_event :
    (p : PreparedRelease) (final : Bool) (r : Run)
    → prepared_post_init p ≡ ok tt
    → progress_event_post_init (event_of p final r) ≡ ok tt
unfolding prepared_post_init progress_event_post_init
valid_event p final r h = ground arith
