-- ===== src/Canonical/Bound.antt =====
-- What the dictionary of the objects by their handles holds.
use mathlib.Core.Path.{subst}
use property_tax_data_platfo.Base.{
  ℕ, Bool, true, false, Option, none, some, List, [], ◌∷◌, ◌≡◌, refl, sym, ap, ◌∙◌, ◌⊎◌, inl, inr,
  int_eq, Among, Bool-cases, if◌then◌else◌,
}
use property_tax_data_platfo.Canonical.Records.{
  address_of, Handle, CorrelatedRecord, AdoptedParent, CanonicalRecordBatch,
}
use property_tax_data_platfo.Canonical.Batch.{
  with_handle, entry_handles, adopted_handles, introduced, Bindings, lookup, bind_entry,
  bind_entries, bind_adoptions, by_handle,
}
use property_tax_data_platfo.Canonical.Handles.{
  int_eq_iff, IsIn, IsFree, Distinct, Distinct-append, Disjoint-IsFree,
}

-- An entry of the list has this handle, and its record is this object.
abbrev pub EntersAs : List CorrelatedRecord → Handle → ℕ → Type 0
EntersAs entries handle object =
    Among (λ e. (e.handle ≡ some handle) × (address_of e.carried ≡ object)) entries

-- An adoption of the list has this handle, and its snapshot is this object.
abbrev pub AdoptsAs : List AdoptedParent → Handle → ℕ → Type 0
AdoptsAs adoptions handle object =
    Among (λ a. (a.handle ≡ handle) × (a.snapshot.address ≡ object)) adoptions

-- The batch introduces the object by this handle.
abbrev pub Introduces : CanonicalRecordBatch → Handle → ℕ → Type 0
Introduces b handle object = EntersAs b.entries handle object ⊎ AdoptsAs b.adoptions handle object

lookup-cons :
    (handle key : Handle) (object found : ℕ) (bound : Bindings)
    → lookup handle ((key, object) ∷ bound) ≡ some found
    → ((key ≡ handle) × (object ≡ found)) ⊎ (lookup handle bound ≡ some found)
lookup-cons handle key object found bound e = split (int_eq handle key) refl e
  where
    split :
        (same : Bool)
        → int_eq handle key ≡ same
        → (if same then some object else lookup handle bound) ≡ some found
        → ((key ≡ handle) × (object ≡ found)) ⊎ (lookup handle bound ≡ some found)
    split true same e' = inl (sym ((int_eq_iff handle key).0 same), cc)
    split false differs e' = inr e'

lookup-here :
    (handle : Handle) (object : ℕ) (bound : Bindings)
    → lookup handle ((handle, object) ∷ bound) ≡ some object
lookup-here handle object bound =
    ap (λ b. if b then some object else lookup handle bound) ((int_eq_iff handle handle).1 refl)

lookup-past :
    (handle key : Handle) (object : ℕ) (bound : Bindings)
    → (handle ≡ key → ⊥)
    → lookup handle ((key, object) ∷ bound) ≡ lookup handle bound
lookup-past handle key object bound differs = elim (Bool-cases (int_eq handle key)) [
  | inl same ↦ absurd (differs ((int_eq_iff handle key).0 same))
  | inr other ↦ ap (λ b. if b then some object else lookup handle bound) other
]

-- What is found was bound by an entry, or before.
bind_entries_sound :
    (es : List CorrelatedRecord) (bound : Bindings) (handle : Handle) (found : ℕ)
    → lookup handle (bind_entries es bound) ≡ some found
    → EntersAs es handle found ⊎ (lookup handle bound ≡ some found)
bind_entries_sound [] bound handle found e = inr e
bind_entries_sound (entry ∷ es) bound handle found e =
    elim (bind_entries_sound es (bind_entry entry.handle (address_of entry.carried) bound) handle
      found e) [ inl later ↦ inl (inr later) | inr here ↦ split entry.handle refl here ]
  where
    split :
        (named : Option Handle)
        → entry.handle ≡ named
        → lookup handle (bind_entry named (address_of entry.carried) bound) ≡ some found
        → EntersAs (entry ∷ es) handle found ⊎ (lookup handle bound ≡ some found)
    split none names e' = inr e'
    split (some key) names e' =
        elim (lookup-cons handle key (address_of entry.carried) found bound e') [
          | inl (same, object) ↦ inl (inl (names ∙ ap some same, object))
          | inr before ↦ inr before
        ]

bind_adoptions_sound :
    (parents : List AdoptedParent) (bound : Bindings) (handle : Handle) (found : ℕ)
    → lookup handle (bind_adoptions parents bound) ≡ some found
    → AdoptsAs parents handle found ⊎ (lookup handle bound ≡ some found)
bind_adoptions_sound [] bound handle found e = inr e
bind_adoptions_sound (a ∷ rest) bound handle found e =
    elim (bind_adoptions_sound rest ((a.handle, a.snapshot.address) ∷ bound) handle found e) [
      | inl later ↦ inl (inr later)
      | inr here ↦ elim (lookup-cons handle a.handle a.snapshot.address found bound here) [
        | inl (same, object) ↦ inl (inl (same, object))
        | inr before ↦ inr before
      ]
    ]

-- A handle that the entries do not have is found as before.
bind_entries_free :
    (es : List CorrelatedRecord) (bound : Bindings) (handle : Handle)
    → IsFree handle (entry_handles es)
    → lookup handle (bind_entries es bound) ≡ lookup handle bound
bind_entries_free [] bound handle free = refl
bind_entries_free (entry ∷ es) bound handle free =
    split entry.handle free (λ bound' free'. bind_entries_free es bound' handle free')
  where
    split :
        (named : Option Handle)
        → IsFree handle (with_handle named (entry_handles es))
        → ((bound' : Bindings)
            → IsFree handle (entry_handles es)
            → lookup handle (bind_entries es bound') ≡ lookup handle bound')
        → lookup handle (bind_entries es (bind_entry named (address_of entry.carried) bound))
          ≡ lookup handle bound
    split none free' rest = rest bound free'
    split (some key) free' rest =
        rest ((key, address_of entry.carried) ∷ bound) (λ there. free' (inr there))
        ∙ lookup-past handle key (address_of entry.carried) bound (λ same. free' (inl same))

bind_adoptions_free :
    (parents : List AdoptedParent) (bound : Bindings) (handle : Handle)
    → IsFree handle (adopted_handles parents)
    → lookup handle (bind_adoptions parents bound) ≡ lookup handle bound
bind_adoptions_free [] bound handle free = refl
bind_adoptions_free (a ∷ rest) bound handle free =
    bind_adoptions_free rest ((a.handle, a.snapshot.address) ∷ bound) handle
      (λ there. free (inr there))
    ∙ lookup-past handle a.handle a.snapshot.address bound (λ same. free (inl same))

Distinct-tail :
    (named : Option Handle) (handles : List Handle)
    → Distinct (with_handle named handles)
    → Distinct handles
Distinct-tail none handles distinct = distinct
Distinct-tail (some handle) handles distinct = distinct.1

-- What an entry binds is found, where the handles are distinct.
bind_entries_complete :
    (es : List CorrelatedRecord) (bound : Bindings) (handle : Handle) (object : ℕ)
    → Distinct (entry_handles es)
    → EntersAs es handle object
    → lookup handle (bind_entries es bound) ≡ some object
bind_entries_complete [] bound handle object distinct there = absurd there
bind_entries_complete (entry ∷ es) bound handle object distinct (inl (names, at)) =
    ap
      (λ named. lookup handle (bind_entries es (bind_entry named (address_of entry.carried) bound)))
      names
    ∙ bind_entries_free es ((handle, address_of entry.carried) ∷ bound) handle
        (subst (λ named. Distinct (with_handle named (entry_handles es))) names distinct).0
    ∙ lookup-here handle (address_of entry.carried) bound
    ∙ ap some at
bind_entries_complete (entry ∷ es) bound handle object distinct (inr later) =
    bind_entries_complete es (bind_entry entry.handle (address_of entry.carried) bound) handle
      object (Distinct-tail entry.handle (entry_handles es) distinct) later

bind_adoptions_complete :
    (parents : List AdoptedParent) (bound : Bindings) (handle : Handle) (object : ℕ)
    → Distinct (adopted_handles parents)
    → AdoptsAs parents handle object
    → lookup handle (bind_adoptions parents bound) ≡ some object
bind_adoptions_complete [] bound handle object distinct there = absurd there
bind_adoptions_complete (a ∷ rest) bound handle object distinct (inl (names, at)) =
    bind_adoptions_free rest ((a.handle, a.snapshot.address) ∷ bound) handle
      (subst (λ h. IsFree h (adopted_handles rest)) names distinct.0)
    ∙ ap (λ h. lookup handle ((h, a.snapshot.address) ∷ bound)) names
    ∙ lookup-here handle (a.snapshot.address) bound
    ∙ ap some at
bind_adoptions_complete (a ∷ rest) bound handle object distinct (inr later) =
    bind_adoptions_complete rest ((a.handle, a.snapshot.address) ∷ bound) handle object (distinct.1)
      later

EntersAs-IsIn :
    (es : List CorrelatedRecord) (handle : Handle) (object : ℕ)
    → EntersAs es handle object
    → IsIn handle (entry_handles es)
EntersAs-IsIn [] handle object there = there
EntersAs-IsIn (entry ∷ es) handle object (inl (names, at)) =
    subst (λ named. IsIn handle (with_handle named (entry_handles es))) (sym names) (inl refl)
EntersAs-IsIn (entry ∷ es) handle object (inr later) =
    split entry.handle (EntersAs-IsIn es handle object later)
  where
    split :
        (named : Option Handle)
        → IsIn handle (entry_handles es)
        → IsIn handle (with_handle named (entry_handles es))
    split none there = there
    split (some key) there = inr there

-- The dictionary is of what the batch introduces.
pub by_handle-Introduces :
    (b : CanonicalRecordBatch) (handle : Handle) (object : ℕ)
    → lookup handle (by_handle b) ≡ some object
    → Introduces b handle object
unfolding by_handle
by_handle-Introduces b handle object e =
    elim (bind_adoptions_sound b.adoptions (bind_entries b.entries []) handle object e) [
      | inl adopted ↦ inr adopted
      | inr before ↦ elim (bind_entries_sound b.entries [] handle object before) [
        | inl entered ↦ inl entered
        | inr never ↦ absurd (cc never)
      ]
    ]

pub Introduces-by_handle :
    (b : CanonicalRecordBatch) (handle : Handle) (object : ℕ)
    → Distinct (introduced b)
    → Introduces b handle object
    → lookup handle (by_handle b) ≡ some object
unfolding by_handle introduced
Introduces-by_handle b handle object distinct (inl entered) =
    let (first, second, disjoint) =
      Distinct-append (entry_handles b.entries) (adopted_handles b.adoptions) distinct in
    bind_adoptions_free b.adoptions (bind_entries b.entries []) handle (
      Disjoint-IsFree handle (entry_handles b.entries) (adopted_handles b.adoptions) disjoint
        (EntersAs-IsIn b.entries handle object entered))
    ∙ bind_entries_complete b.entries [] handle object first entered
Introduces-by_handle b handle object distinct (inr adopted) =
    let (first, second, disjoint) =
      Distinct-append (entry_handles b.entries) (adopted_handles b.adoptions) distinct in
    bind_adoptions_complete b.adoptions (bind_entries b.entries []) handle object second adopted
