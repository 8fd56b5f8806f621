-- ===== src/Canonical/Accepted.antt =====
-- The batches that `CanonicalRecordBatch` accepts.
use property_tax_data_platfo.Base.{
  ℕ, Bool, true, false, not, ◌==◌, Option, none, some, List, [], ◌∷◌, ◌≡◌, refl, ap, ◌∙◌, ◌↔◌,
  Check, ok, err, refuse_if, ◌>>◌, length, All, All-map, arith, >>-eq-ok, refuse_if-ok,
}
use property_tax_data_platfo.Canonical.Records.{
  parent_object_of, BatchError, repeated, contradicted, redundant, wrong_parent,
  continued_and_closed, Handle, CorrelatedRecord, CanonicalRecordBatch,
}
use property_tax_data_platfo.Canonical.Batch.{
  introduced, introduced_handles, as_set, require_no_repetition, require_no_contradiction,
  require_no_release_of_introduced, Bindings, lookup, by_handle, check_held, check_bound,
  check_parent, check_parents, require_in_batch_parents, is_both, require_one_continuation,
  batch_post_init,
}
use property_tax_data_platfo.Canonical.Handles.{
  Distinct, Disjoint, introduced_handles_iff, as_set-Distinct, meets-Disjoint,
}
use property_tax_data_platfo.Canonical.Bound.{
  Introduces, by_handle-Introduces, Introduces-by_handle,
}

-- Every object that the batch introduces by the entry's parent handle is the one the record holds.
abbrev pub HoldsParent : CanonicalRecordBatch → CorrelatedRecord → Type 0
HoldsParent b e =
    (parent : Handle) (object : ℕ)
    → e.parent ≡ some parent
    → Introduces b parent object
    → parent_object_of e.carried ≡ some object

-- What the rules B2 to B5 and B7 to B10 say of a batch.
pub record IsWellFormed (b : CanonicalRecordBatch) : Type 0 where
  pub introduces_once : Distinct (introduced b)
  pub retains_once : Distinct b.retain
  pub releases_once : Distinct b.released
  pub no_contradiction : Disjoint b.retain b.released
  pub no_redundancy : Disjoint (introduced b) b.released
  pub parents_held : All (HoldsParent b) b.entries
  pub one_continuation : is_both b.continuing b.closing ≡ false

refuse_if_iff : (test : Bool) (e : BatchError) → (refuse_if test e ≡ ok tt) ↔ (test ≡ false)
refuse_if_iff true e = (λ passes. absurd cc, λ clear. absurd cc)
refuse_if_iff false e = (λ passes. refl, λ clear. refl)

>>-ok : (m k : Check BatchError) → m ≡ ok tt → k ≡ ok tt → (m >> k) ≡ ok tt
>>-ok (ok tt) k first second = second
>>-ok (err e) k first second = absurd cc

length_iff : (a b : ℕ) → (not (a == b) ≡ false) ↔ (a ≡ b)
length_iff a b = (λ e. ground arith, λ e. ground arith)

check_bound_iff :
    (e : CorrelatedRecord) (bound : Option ℕ)
    → (check_bound e bound ≡ ok tt)
      ↔ ((object : ℕ) → bound ≡ some object → parent_object_of e.carried ≡ some object)
check_bound_iff e none = (λ passes object never. absurd (cc never), λ held. refl)
check_bound_iff e (some object) = (
  λ passes other same. to (parent_object_of e.carried) passes ∙ same,
  λ held. from (parent_object_of e.carried) (held object refl),
)
  where
    to : (held : Option ℕ) → check_held held object ≡ ok tt → held ≡ some object
    to none passes = absurd cc
    to (some h) passes =
        ap some ((length_iff h object).0 (refuse_if-ok (not (h == object)) wrong_parent passes))

    from : (held : Option ℕ) → held ≡ some object → check_held held object ≡ ok tt
    from none same = absurd cc
    from (some h) same =
        (refuse_if_iff (not (h == object)) wrong_parent).1 ((length_iff h object).1 cc)

-- What the check of one entry says of a dictionary.
abbrev Held : Bindings → CorrelatedRecord → Type 0
Held bound e =
    (parent : Handle) (object : ℕ)
    → e.parent ≡ some parent
    → lookup parent bound ≡ some object
    → parent_object_of e.carried ≡ some object

check_parent_iff :
    (e : CorrelatedRecord) (named : Option Handle) (bound : Bindings)
    → (check_parent e named bound ≡ ok tt) ↔ (
        (parent : Handle) (object : ℕ)
        → named ≡ some parent
        → lookup parent bound ≡ some object
        → parent_object_of e.carried ≡ some object)
check_parent_iff e none bound = (λ passes parent object never. absurd (cc never), λ held. refl)
check_parent_iff e (some parent) bound = (
  λ passes other object same finds.
      (check_bound_iff e (lookup parent bound)).0 passes object
        (ap (λ p. lookup p bound) (same-handle parent other same) ∙ finds),
  λ held.
      (check_bound_iff e (lookup parent bound)).1 (λ object finds. held parent object refl finds),
)
  where
    same-handle : (p q : Handle) → ◌≡◌ {A = Option Handle} (some p) (some q) → p ≡ q
    same-handle p q e' = cc

check_parents_iff :
    (es : List CorrelatedRecord) (bound : Bindings)
    → (check_parents es bound ≡ ok tt) ↔ All (Held bound) es
unfolding check_parents
check_parents_iff [] bound = (λ passes. tt, λ held. refl)
check_parents_iff (e ∷ es) bound = (
  λ passes.
      let (here, rest) = >>-eq-ok (check_parent e e.parent bound) passes in
      ((check_parent_iff e e.parent bound).0 here, (check_parents_iff es bound).0 rest),
  λ held.
      >>-ok (check_parent e e.parent bound) (check_parents es bound)
        ((check_parent_iff e e.parent bound).1 held.0) ((check_parents_iff es bound).1 held.1),
)

-- The dictionary says of a parent what the batch does.
parents_iff :
    (b : CanonicalRecordBatch)
    → Distinct (introduced b)
    → (require_in_batch_parents b ≡ ok tt) ↔ All (HoldsParent b) b.entries
unfolding require_in_batch_parents
parents_iff b distinct = (
  λ passes.
      All-map (Held (by_handle b)) (HoldsParent b)
        (λ e held parent object names introduces.
          held parent object names (Introduces-by_handle b parent object distinct introduces))
        b.entries ((check_parents_iff b.entries (by_handle b)).0 passes),
  λ held. (check_parents_iff b.entries (by_handle b)).1 (
      All-map (HoldsParent b) (Held (by_handle b))
        (λ e holds parent object names finds.
          holds parent object names (by_handle-Introduces b parent object finds))
        b.entries held),
)

repetition_iff :
    (b : CanonicalRecordBatch)
    → (require_no_repetition b ≡ ok tt) ↔ (Distinct b.retain × Distinct b.released)
unfolding require_no_repetition
repetition_iff b = (
  λ passes.
      let (first, second) =
        >>-eq-ok (refuse_if (not (length (as_set b.retain) == length b.retain)) repeated) passes in
      (
        (as_set-Distinct b.retain).0 ((length_iff _ _).0 ((refuse_if_iff _ repeated).0 first)),
        (as_set-Distinct b.released).0 ((length_iff _ _).0 ((refuse_if_iff _ repeated).0 second)),
      ),
  λ distinct.
      >>-ok (refuse_if (not (length (as_set b.retain) == length b.retain)) repeated) _
        ((refuse_if_iff _ repeated).1
          ((length_iff _ _).1 ((as_set-Distinct b.retain).1 distinct.0)))
        ((refuse_if_iff _ repeated).1
          ((length_iff _ _).1 ((as_set-Distinct b.released).1 distinct.1))),
)

accepted-IsWellFormed : (b : CanonicalRecordBatch) → batch_post_init b ≡ ok tt → IsWellFormed b
unfolding batch_post_init require_no_contradiction require_no_release_of_introduced
    require_one_continuation
accepted-IsWellFormed b passes =
    let (b2, r1) = >>-eq-ok (introduced_handles (introduced b) []) passes in
    let (b3, r2) = >>-eq-ok (require_no_repetition b) r1 in
    let (b4, r3) = >>-eq-ok (require_no_contradiction b) r2 in
    let (b5, r4) = >>-eq-ok (require_no_release_of_introduced b) r3 in
    let (b7, b8) = >>-eq-ok (require_in_batch_parents b) r4 in
    let once = ((introduced_handles_iff (introduced b) []).0 b2).0 in
    record {
      introduces_once = once;
      retains_once = ((repetition_iff b).0 b3).0;
      releases_once = ((repetition_iff b).0 b3).1;
      no_contradiction =
          (meets-Disjoint b.retain b.released).0 ((refuse_if_iff _ contradicted).0 b4);
      no_redundancy =
          (meets-Disjoint (introduced b) b.released).0 ((refuse_if_iff _ redundant).0 b5);
      parents_held = (parents_iff b once).0 b7;
      one_continuation = (refuse_if_iff _ continued_and_closed).0 b8;
    }

unseen : (handles : List Handle) → Disjoint handles []
unseen [] = tt
unseen (handle ∷ handles) = (λ never. never, unseen handles)

IsWellFormed-accepted : (b : CanonicalRecordBatch) → IsWellFormed b → batch_post_init b ≡ ok tt
unfolding batch_post_init require_no_contradiction require_no_release_of_introduced
    require_one_continuation
IsWellFormed-accepted b w =
    >>-ok (introduced_handles (introduced b) []) _
      ((introduced_handles_iff (introduced b) []).1 (w.introduces_once, unseen (introduced b)))
      (>>-ok (require_no_repetition b) _ ((repetition_iff b).1 (w.retains_once, w.releases_once)) (
        >>-ok (require_no_contradiction b) _
          ((refuse_if_iff _ contradicted).1
            ((meets-Disjoint b.retain b.released).1 w.no_contradiction))
          (>>-ok (require_no_release_of_introduced b) _
            ((refuse_if_iff _ redundant).1
              ((meets-Disjoint (introduced b) b.released).1 w.no_redundancy))
            (>>-ok (require_in_batch_parents b) _
              ((parents_iff b w.introduces_once).1 w.parents_held)
              ((refuse_if_iff _ continued_and_closed).1 w.one_continuation)))))

-- CanonicalRecordBatch accepts a batch exactly where its entries and adoptions together introduce no
-- handle twice, no delta names a handle twice, no handle is in both deltas, none is introduced and
-- released, every object that the batch introduces by a handle is the very object that each record
-- whose parent has this handle holds as its parent, and no account is both continuing and closing.
pub batch_post_init-IsWellFormed :
    (b : CanonicalRecordBatch) → (batch_post_init b ≡ ok tt) ↔ IsWellFormed b
batch_post_init-IsWellFormed b = (accepted-IsWellFormed b, IsWellFormed-accepted b)
