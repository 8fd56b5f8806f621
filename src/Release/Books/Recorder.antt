-- ===== src/Release/Books/Recorder.antt =====
-- `_Recorder`: what is retained and what is counted.
use property_tax_data_platfo.Base.{
  ℕ, ◌+◌, ◌≡◌, refl, String, Option, List, [], ◌∷◌, ◌++◌, ℤ, min, length, length-append, All,
  All-append, Except, ok, err, arith, ltb, ltb→lt, ltb-false→le, Bool-cases, inl, inr,
}
use property_tax_data_platfo.Release.Outcome.{
  ReleaseDiagnosticCode, ReleaseDiagnostic, ReleaseNotice, diagnostic_post_init,
}
use property_tax_data_platfo.Release.Run.{Recorder, Raise, fail, keep_notices, note}

-- `kept` is the first hundred of `total`
abbrev pub Retains {ℓ} : {A : Type ℓ} → List A → ℕ → Type 0
Retains kept total = length kept ≡ min total 100

keep_notices-Retains :
    (kept new : List ReleaseNotice) (total : ℕ)
    → Retains kept total
    → Retains (keep_notices kept new) (total + length new)
unfolding keep_notices
keep_notices-Retains kept [] total h = omega arith
keep_notices-Retains kept (n ∷ rest) total h = elim (Bool-cases (ltb (length kept) 100)) [
  | inl room ↦ rw room (
      omega (
        arith,
        ltb→lt (length kept) 100 room,
        keep_notices-Retains (kept ++ n ∷ []) rest (total + 1)
            (omega (arith, ltb→lt (length kept) 100 room, length-append kept (n ∷ []))),
      ))
  | inr full ↦ rw full (
      omega (
        arith,
        ltb-false→le (length kept) 100 full,
        keep_notices-Retains kept rest (total + 1)
            (omega (arith, ltb-false→le (length kept) 100 full)),
      ))
]

-- A carrier that retains the first hundred of its own notices can be added to the recorder's.
pub note-Retains :
    (notices : List ReleaseNotice) (total : ℕ) (rec : Recorder)
    → Retains notices total
    → Retains rec.notices rec.total_notices
    → Retains (note notices total rec).notices (note notices total rec).total_notices
unfolding note
note-Retains notices total rec h k =
    omega (arith, keep_notices-Retains rec.notices notices rec.total_notices k)

abbrev pub HasLayout : Option String → ReleaseDiagnostic → Type 0
HasLayout fingerprint d = d.layout_fingerprint ≡ fingerprint

-- What `fail` leaves when the diagnostic is one that can be constructed.
pub record Failed (fingerprint : Option String) (before after : Recorder) : Type 0 where
  pub kept : Retains after.diagnostics after.total_diagnostics
  pub one_layout : All (HasLayout fingerprint) after.diagnostics
  pub counted : after.total_diagnostics ≡ before.total_diagnostics + 1
  pub same_notices : after.notices ≡ before.notices
  pub same_total : after.total_notices ≡ before.total_notices

abbrev pub FailedOr : Option String → Recorder → Except Raise Recorder → Type 0
FailedOr fingerprint before (ok after) = Failed fingerprint before after
FailedOr fingerprint before (err e) = ⊥

pub fail-Failed :
    (code : ReleaseDiagnosticCode) (name : Option String) (row : Option ℤ)
    (fingerprint : Option String) (rec : Recorder)
    → diagnostic_post_init (record {
      code = code;
      field_name = name;
      physical_row_number = row;
      layout_fingerprint = fingerprint;
    })
      ≡ ok tt
    → Retains rec.diagnostics rec.total_diagnostics
    → All (HasLayout fingerprint) rec.diagnostics
    → FailedOr fingerprint rec (fail code name row fingerprint rec)
unfolding fail
fail-Failed code name row fingerprint rec valid kept one =
    elim (Bool-cases (ltb (length rec.diagnostics) 100)) [
      | inl room ↦
          rw (room, valid)
            (record {
              kept = omega (
                arith,
                ltb→lt (length rec.diagnostics) 100 room,
                length-append rec.diagnostics (
                    record {
                      code = code;
                      field_name = name;
                      physical_row_number = row;
                      layout_fingerprint = fingerprint;
                    }
                    ∷ []),
              );
              one_layout = All-append (HasLayout fingerprint) rec.diagnostics _ one (refl, tt);
              counted = refl;
              same_notices = refl;
              same_total = refl;
            })
      | inr full ↦ rw full (record {
        kept = omega (arith, ltb-false→le (length rec.diagnostics) 100 full);
        one_layout = one;
        counted = refl;
        same_notices = refl;
        same_total = refl;
      })
    ]
