-- ===== src/Release/Carriers.antt =====
-- What release/records.py hands over: bounded notices, and records that agree with their row.
use mathlib.Core.List.{append-nil, append_assoc}
use property_tax_data_platfo.Base.{
  ℕ, zero, suc, ◌+◌, ◌≡◌, refl, sym, ap, ◌↔◌, String, Bool, true, false, none, List, [], ◌∷◌, ◌++◌,
  ℤ, pos, negsuc, int_eq, str_eq, eq_iff, length, take, All, length-append, length-take, min, ok,
  ltb, lt→ltb, ◌==◌, if◌then◌else◌, arith, Bool-cases, inl, inr,
}
use property_tax_data_platfo.Sources.Contracts.{AppraisalSourceRecord, bool_ne}
use property_tax_data_platfo.Release.Outcome.{ReleaseNotice}
use property_tax_data_platfo.Release.Records.{
  notice_set_post_init, observe, from_observations, PreparedRelease, SourceRowEnvelope,
  record_disagreement, first_differing, compared_fields,
}

take-nil {ℓ} : {A : Type ℓ} (k : ℕ) → take {A = A} k [] ≡ []
take-nil zero = refl
take-nil (suc k) = refl

-- one more element under a cap
take_snoc {ℓ} :
    {A : Type ℓ} (k : ℕ) (xs : List A) (x : A)
    → (if ltb (length (take k xs)) k then take k xs ++ x ∷ [] else take k xs)
      ≡ take k (xs ++ x ∷ [])
take_snoc zero xs x = ground arith
take_snoc (suc k) [] x = rw (lt→ltb 0 (suc k) (omega arith), take-nil k) refl
take_snoc (suc k) (y ∷ xs) x = elim (Bool-cases (ltb (length (take k xs)) k)) [
  | inl h ↦ ground (arith, h, take_snoc k xs x)
  | inr h ↦ ground (arith, h, take_snoc k xs x)
]

length-snoc {ℓ} : {A : Type ℓ} (xs : List A) (x : A) → length (xs ++ x ∷ []) ≡ length xs + 1
length-snoc xs x = length-append xs (x ∷ [])

observe-take :
    (seen rest : List ReleaseNotice)
    → observe rest (take 100 seen) (length seen) ≡ (take 100 (seen ++ rest), length (seen ++ rest))
unfolding observe
observe-take seen [] = rw append-nil
observe-take seen (n ∷ rest) =
    rw
      (
        take_snoc 100 seen n,
        sym (length-snoc seen n),
        observe-take (seen ++ n ∷ []) rest,
        append_assoc seen (n ∷ []) rest,
      )
      refl

==→≡ : (a b : ℕ) → (a == b) ≡ true → a ≡ b
==→≡ a b h = ground arith

int_eq→≡ : (a b : ℤ) → int_eq a b ≡ true → a ≡ b
int_eq→≡ (pos a) (pos b) h = ap pos (==→≡ a b h)
int_eq→≡ (negsuc a) (negsuc b) h = ap negsuc (==→≡ a b h)
int_eq→≡ (pos a) (negsuc b) h = absurd cc
int_eq→≡ (negsuc a) (pos b) h = absurd cc

==-refl : (a : ℕ) → (a == a) ≡ true
==-refl a = ground arith

int_eq_refl : (a : ℤ) → int_eq a a ≡ true
int_eq_refl (pos a) = ground arith
int_eq_refl (negsuc a) = ground arith

≡→int_eq : {a b : ℤ} → a ≡ b → int_eq a b ≡ true
≡→int_eq {a} h = rw (sym h, int_eq_refl a) refl

retained_is_min : (n : ℕ) → (min 100 n == min n 100) ≡ true
retained_is_min n = ground arith

bool_ne_refl : (b : Bool) → bool_ne b b ≡ false
bool_ne_refl true = refl
bool_ne_refl false = refl

-- `NoticeSet.from_observations` never raises: it retains the first hundred notices, counts every one,
-- and says truncated exactly when there were more than a hundred.
pub from_observations_lem :
    (notices : List ReleaseNotice)
    → from_observations notices
      ≡ ok (record {
        retained = take 100 notices;
        total = length notices;
        truncated = ltb 100 (length notices);
      })
unfolding from_observations notice_set_post_init
from_observations_lem notices =
    rw
      (
        observe-take [] notices,
        length-take 100 notices,
        retained_is_min (length notices),
        bool_ne_refl (ltb 100 (length notices)),
      )
      refl

-- the six fields of a record that say where it came from
pub record Agrees (r : AppraisalSourceRecord) (p : PreparedRelease) (e : SourceRowEnvelope)
    : Type 0 where
  pub jurisdiction_code : r.jurisdiction_code ≡ p.jurisdiction_code
  pub release_identifier : r.provenance.release_identifier ≡ p.release_identifier
  pub source_member_name : r.provenance.source_member_name ≡ p.source_member_name
  pub parser_contract_version : r.provenance.parser_contract_version ≡ p.parser_contract_version
  pub layout_fingerprint : r.provenance.layout_fingerprint ≡ p.layout_fingerprint
  pub source_row_number : r.provenance.source_row_number ≡ e.physical_row_number

str_eq→≡ : (s t : String) → str_eq s t ≡ true → s ≡ t
str_eq→≡ s t h = (eq_iff s t).0 h

first_differing-All :
    (fields : List (String × Bool))
    → first_differing fields ≡ none
    → All (λ (field : String × Bool). field.1 ≡ true) fields
unfolding first_differing
first_differing-All [] h = tt
first_differing-All ((name, true) ∷ rest) h = (refl, first_differing-All rest h)
first_differing-All ((name, false) ∷ rest) h = absurd cc

-- No field is named exactly when the record states all six as its release and its row do.
pub record_disagreement-none :
    (r : AppraisalSourceRecord) (p : PreparedRelease) (e : SourceRowEnvelope)
    → record_disagreement r p e ≡ none ↔ Agrees r p e
unfolding record_disagreement first_differing
record_disagreement-none r p e = (
  λ h.
      let q = first_differing-All (compared_fields r p e) h in
      record {
        jurisdiction_code = str_eq→≡ _ _ (q.0);
        release_identifier = str_eq→≡ _ _ (q.1.0);
        source_member_name = str_eq→≡ _ _ (q.1.1.0);
        parser_contract_version = int_eq→≡ _ _ (q.1.1.1.0);
        layout_fingerprint = str_eq→≡ _ _ (q.1.1.1.1.0);
        source_row_number = int_eq→≡ _ _ (q.1.1.1.1.1.0);
      },
  λ h.
      rw
        (
          (eq_iff _ _).1 h.jurisdiction_code,
          (eq_iff _ _).1 h.release_identifier,
          (eq_iff _ _).1 h.source_member_name,
          ≡→int_eq h.parser_contract_version,
          (eq_iff _ _).1 h.layout_fingerprint,
          ≡→int_eq h.source_row_number,
        )
        refl,
)
