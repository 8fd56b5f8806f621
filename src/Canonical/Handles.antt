-- ===== src/Canonical/Handles.antt =====
-- Sets of handles, as the lists that the code makes of them and as what they hold.
use mathlib.Core.Path.{subst}
use property_tax_data_platfo.Base.{
  ℕ, ◌≤◌, suc, Bool, true, false, ◌||◌, ◌==◌, List, [], ◌∷◌, ◌++◌, ◌≡◌, refl, sym, ap, ◌∙◌, ◌↔◌,
  inl, inr, ok, err, int_eq, ℤ, pos, negsuc, length, All, Among, Bool-cases, or-false, arith,
  if◌then◌else◌,
}
use property_tax_data_platfo.Canonical.Records.{introduced_twice, Handle}
use property_tax_data_platfo.Canonical.Batch.{is_in, introduced_handles, as_set, meets}

nat_eq_iff : (a b : ℕ) → ((a == b) ≡ true) ↔ (a ≡ b)
nat_eq_iff a b = (λ e. ground arith, λ e. ground arith)

pub int_eq_iff : (a b : ℤ) → (int_eq a b ≡ true) ↔ (a ≡ b)
int_eq_iff (pos a) (pos b) = (λ e. ap pos ((nat_eq_iff a b).0 e), λ e. (nat_eq_iff a b).1 cc)
int_eq_iff (negsuc a) (negsuc b) =
    (λ e. ap negsuc ((nat_eq_iff a b).0 e), λ e. (nat_eq_iff a b).1 cc)
int_eq_iff (pos a) (negsuc b) = (λ e. absurd cc, λ e. absurd cc)
int_eq_iff (negsuc a) (pos b) = (λ e. absurd cc, λ e. absurd cc)

abbrev pub IsIn : Handle → List Handle → Type 0
IsIn handle handles = Among (λ other. handle ≡ other) handles

abbrev pub IsFree : Handle → List Handle → Type 0
IsFree handle handles = IsIn handle handles → ⊥

abbrev pub Distinct : List Handle → Type 0
Distinct [] = Unit
Distinct (handle ∷ handles) = IsFree handle handles × Distinct handles

-- No handle of the one is in the other.
abbrev pub Disjoint : List Handle → List Handle → Type 0
Disjoint handles others = All (λ handle. IsFree handle others) handles

is_in-IsIn :
    (handle : Handle) (handles : List Handle) → is_in handle handles ≡ true → IsIn handle handles
is_in-IsIn handle [] e = absurd cc
is_in-IsIn handle (other ∷ handles) e = elim (Bool-cases (int_eq handle other)) [
  | inl same ↦ inl ((int_eq_iff handle other).0 same)
  | inr differs ↦
      inr (is_in-IsIn handle handles (sym (ap (λ b. b || is_in handle handles) differs) ∙ e))
]

is_in-IsFree :
    (handle : Handle) (handles : List Handle) → is_in handle handles ≡ false → IsFree handle handles
is_in-IsFree handle [] e there = there
is_in-IsFree handle (other ∷ handles) e (inl same) =
    let (first, rest) = or-false (int_eq handle other) _ e in
    absurd (cc (first, (int_eq_iff handle other).1 same))
is_in-IsFree handle (other ∷ handles) e (inr there) =
    let (first, rest) = or-false (int_eq handle other) _ e in is_in-IsFree handle handles rest there

IsFree-is_in :
    (handle : Handle) (handles : List Handle) → IsFree handle handles → is_in handle handles ≡ false
IsFree-is_in handle handles free = elim (Bool-cases (is_in handle handles)) [
  | inr clear ↦ clear
  | inl there ↦ absurd (free (is_in-IsIn handle handles there))
]

-- Disjoint from a list with one more in front, and back.
Disjoint-more :
    (handle : Handle) (others seen : List Handle)
    → IsFree handle others
    → Disjoint others seen
    → Disjoint others (handle ∷ seen)
Disjoint-more handle [] seen free disjoint = tt
Disjoint-more handle (other ∷ others) seen free (here, disjoint) = (
  λ there. elim there [ inl same ↦ free (inl (sym same)) | inr old ↦ here old ],
  Disjoint-more handle others seen (λ there. free (inr there)) disjoint,
)

Disjoint-less :
    (handle : Handle) (others seen : List Handle)
    → Disjoint others (handle ∷ seen)
    → IsFree handle others × Disjoint others seen
Disjoint-less handle [] seen disjoint = (λ never. never, tt)
Disjoint-less handle (other ∷ others) seen (here, disjoint) =
    let (free, rest) = Disjoint-less handle others seen disjoint in
    (
      λ there. elim there [ inl same ↦ here (inl (sym same)) | inr later ↦ free later ],
      (λ old. here (inr old), rest),
    )

-- The loop passes where the handles are distinct and none was seen.
pub introduced_handles_iff :
    (handles seen : List Handle)
    → (introduced_handles handles seen ≡ ok tt) ↔ (Distinct handles × Disjoint handles seen)
unfolding introduced_handles
introduced_handles_iff [] seen = (λ passes. (tt, tt), λ distinct. refl)
introduced_handles_iff (handle ∷ handles) seen = (
  split (is_in handle seen) refl (introduced_handles_iff handles (handle ∷ seen)).0,
  λ holds. rw (IsFree-is_in handle seen holds.1.0) (
      (introduced_handles_iff handles (handle ∷ seen)).1
        (holds.0.1, Disjoint-more handle handles seen holds.0.0 holds.1.1)),
)
  where
    split :
        (known : Bool)
        → is_in handle seen ≡ known
        → (introduced_handles handles (handle ∷ seen) ≡ ok tt
            → Distinct handles × Disjoint handles (handle ∷ seen))
        → (if known then err introduced_twice else introduced_handles handles (handle ∷ seen))
          ≡ ok tt
        → Distinct (handle ∷ handles) × Disjoint (handle ∷ handles) seen
    split true e rest passes = absurd cc
    split false e rest passes =
        let (distinct, disjoint) = rest passes in
        let (free, unseen) = Disjoint-less handle handles seen disjoint in
        ((free, distinct), (is_in-IsFree handle seen e, unseen))

-- A set is at most as long as the list that it is of, and has the same members.
length-as_set : (handles : List Handle) → length (as_set handles) ≤ length handles
length-as_set [] = omega arith
length-as_set (handle ∷ handles) =
    elim (is_in handle (as_set handles))
      as (λ b.
        length (if b then as_set handles else handle ∷ as_set handles) ≤ suc (length handles)) [
          | true ↦ omega (arith, length-as_set handles)
          | false ↦ omega (arith, length-as_set handles)
        ]

into-as_set :
    (handle : Handle) (handles : List Handle) → IsIn handle handles → IsIn handle (as_set handles)
into-as_set handle [] there = there
into-as_set handle (other ∷ handles) (inl same) = split (is_in other (as_set handles)) refl
  where
    split :
        (known : Bool)
        → is_in other (as_set handles) ≡ known
        → IsIn handle (if known then as_set handles else other ∷ as_set handles)
    split true e =
        subst (λ h. IsIn h (as_set handles)) (sym same) (is_in-IsIn other (as_set handles) e)
    split false e = inl same
into-as_set handle (other ∷ handles) (inr there) =
    elim (is_in other (as_set handles))
      as (λ b. IsIn handle (if b then as_set handles else other ∷ as_set handles)) [
        | true ↦ into-as_set handle handles there
        | false ↦ inr (into-as_set handle handles there)
      ]

from-as_set :
    (handle : Handle) (handles : List Handle) → IsIn handle (as_set handles) → IsIn handle handles
from-as_set handle [] there = there
from-as_set handle (other ∷ handles) there =
    split (is_in other (as_set handles)) there (from-as_set handle handles)
  where
    split :
        (known : Bool)
        → IsIn handle (if known then as_set handles else other ∷ as_set handles)
        → (IsIn handle (as_set handles) → IsIn handle handles)
        → IsIn handle (other ∷ handles)
    split true there' rest = inr (rest there')
    split false (inl same) rest = inl same
    split false (inr there') rest = inr (rest there')

-- The set is as long as the list exactly where the list is distinct.
pub as_set-Distinct :
    (handles : List Handle) → (length (as_set handles) ≡ length handles) ↔ Distinct handles
as_set-Distinct [] = (λ same. tt, λ distinct. refl)
as_set-Distinct (handle ∷ handles) = (
  to (is_in handle (as_set handles)) refl (length-as_set handles) (as_set-Distinct handles).0,
  λ holds.
      rw
        (IsFree-is_in handle (as_set handles) (λ there. holds.0 (from-as_set handle handles there)))
        (ap suc ((as_set-Distinct handles).1 holds.1)),
)
  where
    to :
        (known : Bool)
        → is_in handle (as_set handles) ≡ known
        → length (as_set handles) ≤ length handles
        → (length (as_set handles) ≡ length handles → Distinct handles)
        → length (if known then as_set handles else handle ∷ as_set handles) ≡ suc (length handles)
        → Distinct (handle ∷ handles)
    to true e short rest same = absurd (omega (arith, short, same))
    to false e short rest same = (
      λ there. is_in-IsFree handle (as_set handles) e (into-as_set handle handles there),
      rest (omega (arith, same)),
    )

pub meets-Disjoint :
    (handles others : List Handle) → (meets handles others ≡ false) ↔ Disjoint handles others
meets-Disjoint [] others = (λ clear. tt, λ disjoint. refl)
meets-Disjoint (handle ∷ handles) others = (
  λ clear.
      let (here, rest) = or-false (is_in handle others) _ clear in
      (is_in-IsFree handle others here, (meets-Disjoint handles others).0 rest),
  λ disjoint.
      rw (IsFree-is_in handle others disjoint.0) ((meets-Disjoint handles others).1 disjoint.1),
)

-- The parts of a distinct list.
pub Distinct-append :
    (handles others : List Handle)
    → Distinct (handles ++ others)
    → Distinct handles × Distinct others × Disjoint handles others
Distinct-append [] others distinct = (tt, distinct, tt)
Distinct-append (handle ∷ handles) others (free, distinct) =
    let (first, second, disjoint) = Distinct-append handles others distinct in
    (
      (λ there. free (append-left handles there), first),
      second,
      (λ there. free (append-right handles there), disjoint),
    )
  where
    append-left : (xs : List Handle) → IsIn handle xs → IsIn handle (xs ++ others)
    append-left [] there = absurd there
    append-left (x ∷ xs) (inl same) = inl same
    append-left (x ∷ xs) (inr there) = inr (append-left xs there)

    append-right : (xs : List Handle) → IsIn handle others → IsIn handle (xs ++ others)
    append-right [] there = there
    append-right (x ∷ xs) there = inr (append-right xs there)

pub Disjoint-IsFree :
    (handle : Handle) (handles others : List Handle)
    → Disjoint handles others
    → IsIn handle handles
    → IsFree handle others
Disjoint-IsFree handle [] others disjoint there = absurd there
Disjoint-IsFree handle (other ∷ handles) others (here, disjoint) (inl same) =
    subst (λ h. IsFree h others) (sym same) here
Disjoint-IsFree handle (other ∷ handles) others (here, disjoint) (inr there) =
    Disjoint-IsFree handle handles others disjoint there
