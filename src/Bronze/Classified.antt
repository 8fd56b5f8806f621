-- ===== src/Bronze/Classified.antt =====
-- `classify`, against what a complete listing refers to.
use mathlib.Core.Path.{subst}
use property_tax_data_platfo.Base.{
  Among, String, Bool, true, false, Option, none, some, List, [], ◌∷◌, ◌++◌, ◌≡◌, ◌≢◌, refl, sym,
  ap, ◌∙◌, ◌⊎◌, inl, inr, Except, ok, str_eq, eq_iff, Bool-cases, if◌then◌else◌, any, ◌||◌,
  >>=-eq-ok, or-false,
}
use property_tax_data_platfo.Bronze.Keys.{ReleasePartition, partition_prefix, referenced}
use property_tax_data_platfo.Bronze.Manifest.{BronzeConflict, new, identical, diverged}
use property_tax_data_platfo.Bronze.Store.{
  S3, Listing, last_page, page, cut_short, unlisted, StoreError, add_checksum, note_entry,
  note_entries, read_listing, judge_checksums, referenced_checksums, classify,
}

-- The keys of all pages.
abbrev pub keys_of : Listing → List String
keys_of (last_page keys) = keys
keys_of (page keys rest) = keys ++ keys_of rest
keys_of (cut_short keys) = keys
keys_of (unlisted fault) = []

-- A key of the listing refers to the checksum.
abbrev pub Refers : List String → String → Type 0
Refers keys checksum = Among (λ key. referenced key ≡ some checksum) keys

abbrev pub IsIn : String → List String → Type 0
IsIn checksum seen = Among (λ c. c ≡ checksum) seen

abbrev Distinct : List String → Type 0
Distinct [] = Unit
Distinct (c ∷ cs) = (IsIn c cs → ⊥) × Distinct cs

-- The checksums that were seen are those of `R`, each once.
record Represents (R : String → Type 0) (seen : List String) : Type 0 where
  pub complete : (c : String) → R c → IsIn c seen
  pub sound : (c : String) → IsIn c seen → R c
  pub distinct : Distinct seen

any-IsIn : (c : String) (seen : List String) → any (str_eq c) seen ≡ true → IsIn c seen
any-IsIn c [] e = absurd cc
any-IsIn c (x ∷ xs) e = elim (Bool-cases (str_eq c x)) [
  | inl same ↦ inl (sym ((eq_iff c x).0 same))
  | inr other ↦ inr (any-IsIn c xs (sym (ap (λ b. b || any (str_eq c) xs) other) ∙ e))
]

none-IsIn : (c : String) (seen : List String) → any (str_eq c) seen ≡ false → IsIn c seen → ⊥
none-IsIn c [] e there = there
none-IsIn c (x ∷ xs) e (inl same) =
    let (first, rest) = or-false (str_eq c x) _ e in absurd (cc (first, (eq_iff c x).1 (sym same)))
none-IsIn c (x ∷ xs) e (inr there) =
    let (first, rest) = or-false (str_eq c x) _ e in none-IsIn c xs rest there

add_checksum-Represents :
    (R : String → Type 0) (checksum : String) (seen : List String)
    → Represents R seen
    → Represents (λ c. R c ⊎ (checksum ≡ c)) (add_checksum checksum seen)
add_checksum-Represents R checksum seen rep = split (any (str_eq checksum) seen) refl
  where
    split :
        (known : Bool)
        → any (str_eq checksum) seen ≡ known
        → Represents (λ c. R c ⊎ (checksum ≡ c)) (if known then seen else checksum ∷ seen)
    split true e = record {
      complete = λ c there. elim there [
        | inl old ↦ rep.complete c old
        | inr same ↦ subst (λ x. IsIn x seen) same (any-IsIn checksum seen e)
      ];
      sound = λ c there. inl (rep.sound c there);
      distinct = rep.distinct;
    }
    split false e = record {
      complete = λ c there. elim there [ inl old ↦ inr (rep.complete c old) | inr same ↦ inl same ];
      sound = λ c there. elim there [ inl same ↦ inr same | inr old ↦ inl (rep.sound c old) ];
      distinct = (none-IsIn checksum seen e, rep.distinct);
    }

-- The same checksums, described otherwise.
Represents-iff :
    (R Q : String → Type 0) (seen : List String)
    → ((c : String) → Q c → R c)
    → ((c : String) → R c → Q c)
    → Represents R seen
    → Represents Q seen
Represents-iff R Q seen to from rep = record {
  complete = λ c there. rep.complete c (to c there);
  sound = λ c there. from c (rep.sound c there);
  distinct = rep.distinct;
}

note_entry-Represents :
    (R : String → Type 0) (entry : Option String) (seen : List String)
    → Represents R seen
    → Represents (λ c. R c ⊎ (entry ≡ some c)) (note_entry entry seen)
note_entry-Represents R none seen rep =
    Represents-iff R (λ c. R c ⊎ (none ≡ some c)) seen
      (λ c there. elim there [ inl old ↦ old | inr never ↦ absurd (cc never) ]) (λ c old. inl old)
      rep
note_entry-Represents R (some checksum) seen rep =
    Represents-iff (λ c. R c ⊎ (checksum ≡ c)) (λ c. R c ⊎ (some checksum ≡ some c))
      (add_checksum checksum seen) (λ c there. elim there [ inl old ↦ inl old | inr same ↦ inr cc ])
      (λ c there. elim there [ inl old ↦ inl old | inr same ↦ inr (ap some same) ])
      (add_checksum-Represents R checksum seen rep)

note_entries-Represents :
    (keys : List String) (R : String → Type 0) (seen : List String)
    → Represents R seen
    → Represents (λ c. R c ⊎ Refers keys c) (note_entries keys seen)
unfolding note_entries
note_entries-Represents [] R seen rep =
    Represents-iff R (λ c. R c ⊎ ⊥) seen
      (λ c there. elim there [ inl old ↦ old | inr never ↦ absurd never ]) (λ c old. inl old) rep
note_entries-Represents (key ∷ keys) R seen rep =
    Represents-iff (λ c. (R c ⊎ (referenced key ≡ some c)) ⊎ Refers keys c)
      (λ c. R c ⊎ Refers (key ∷ keys) c) (note_entries keys (note_entry (referenced key) seen))
      (λ c there. elim there [
        | inl old ↦ inl (inl old)
        | inr (inl here) ↦ inl (inr here)
        | inr (inr later) ↦ inr later
      ])
      (λ c there. elim there [
        | inl (inl old) ↦ inl old
        | inl (inr here) ↦ inr (inl here)
        | inr later ↦ inr (inr later)
      ])
      (note_entries-Represents keys (λ c. R c ⊎ (referenced key ≡ some c))
        (note_entry (referenced key) seen) (note_entry-Represents R (referenced key) seen rep))

Refers-append :
    (keys more : List String) (c : String) → Refers (keys ++ more) c → Refers keys c ⊎ Refers more c
Refers-append [] more c there = inr there
Refers-append (key ∷ keys) more c (inl here) = inl (inl here)
Refers-append (key ∷ keys) more c (inr later) = elim (Refers-append keys more c later) [
  | inl first ↦ inl (inr first)
  | inr second ↦ inr second
]

append-Refers :
    (keys more : List String) (c : String) → Refers keys c ⊎ Refers more c → Refers (keys ++ more) c
append-Refers [] more c (inl never) = absurd never
append-Refers [] more c (inr there) = there
append-Refers (key ∷ keys) more c (inl (inl here)) = inl here
append-Refers (key ∷ keys) more c (inl (inr first)) = inr (append-Refers keys more c (inl first))
append-Refers (key ∷ keys) more c (inr second) = inr (append-Refers keys more c (inr second))

-- The listing came to its last page.
abbrev pub IsComplete : Listing → Type 0
IsComplete (last_page keys) = Unit
IsComplete (page keys rest) = IsComplete rest
IsComplete (cut_short keys) = ⊥
IsComplete (unlisted fault) = ⊥

read_listing-Represents :
    (listing : Listing) (R : String → Type 0) (seen result : List String)
    → Represents R seen
    → read_listing listing seen ≡ ok result
    → IsComplete listing × Represents (λ c. R c ⊎ Refers (keys_of listing) c) result
unfolding read_listing
read_listing-Represents (last_page keys) R seen result rep returns = (
  tt,
  subst (Represents (λ c. R c ⊎ Refers keys c)) (same-list (note_entries keys seen) result returns)
      (note_entries-Represents keys R seen rep),
)
  where
    same-list :
        (xs ys : List String) → ◌≡◌ {A = Except StoreError (List String)} (ok xs) (ok ys) → xs ≡ ys
    same-list xs ys e = cc
read_listing-Represents (page keys rest) R seen result rep returns =
    let (complete, found) =
      read_listing-Represents rest (λ c. R c ⊎ Refers keys c) (note_entries keys seen) result
        (note_entries-Represents keys R seen rep) returns in
    (
      complete,
      Represents-iff (λ c. (R c ⊎ Refers keys c) ⊎ Refers (keys_of rest) c)
          (λ c. R c ⊎ Refers (keys ++ keys_of rest) c) result
          (λ c there. elim there [
            | inl old ↦ inl (inl old)
            | inr new' ↦ elim (Refers-append keys (keys_of rest) c new') [
              | inl first ↦ inl (inr first)
              | inr second ↦ inr second
            ]
          ])
          (λ c there. elim there [
            | inl (inl old) ↦ inl old
            | inl (inr first) ↦ inr (append-Refers keys (keys_of rest) c (inl first))
            | inr second ↦ inr (append-Refers keys (keys_of rest) c (inr second))
          ])
          found,
    )
read_listing-Represents (cut_short keys) R seen result rep returns = absurd cc
read_listing-Represents (unlisted fault) R seen result rep returns = absurd cc

-- What each answer says of the keys.
abbrev pub Judged : (String → Type 0) → String → BronzeConflict → Type 0
Judged R sha256 new = (c : String) → R c → ⊥
Judged R sha256 identical = R sha256 × ((c : String) → R c → c ≡ sha256)
Judged R sha256 diverged = (c : String) × R c × (c ≢ sha256)

judge_checksums-Judged :
    (R : String → Type 0) (seen : List String) (sha256 : String)
    → Represents R seen
    → Judged R sha256 (judge_checksums seen sha256)
unfolding judge_checksums
judge_checksums-Judged R [] sha256 rep = rep.complete
judge_checksums-Judged R (one ∷ []) sha256 rep = split (str_eq sha256 one) refl
  where
    only : (c : String) → IsIn c (one ∷ []) → c ≡ one
    only c (inl same) = sym same
    only c (inr never) = absurd never

    split :
        (same : Bool)
        → str_eq sha256 one ≡ same
        → Judged R sha256 (if same then identical else diverged)
    split true e =
        let at : sha256 ≡ one = (eq_iff sha256 one).0 e in
        (rep.sound sha256 (inl (sym at)), λ c there. only c (rep.complete c there) ∙ sym at)
    split false e =
        (one, rep.sound one (inl refl), λ same. absurd (cc ((eq_iff sha256 one).1 (sym same), e)))
judge_checksums-Judged R (one ∷ another ∷ rest) sha256 rep = elim (Bool-cases (str_eq one sha256)) [
  | inr other ↦
      (one, rep.sound one (inl refl), λ same. absurd (cc ((eq_iff one sha256).1 same, other)))
  | inl same ↦ (
    another,
    rep.sound another (inr (inl refl)),
    λ equal. rep.distinct.0 (inl (equal ∙ sym ((eq_iff one sha256).0 same))),
  )
]

module _ (s : S3) where
  -- The listing of the partition's prefix
  abbrev pub listing_of : s.Objects → ReleasePartition → Listing
  listing_of o p = s.list_objects o (partition_prefix s.str_of p)

  -- If classify returns, the listing of the partition came to its last page, and it returns, by the
  -- keys on all of its pages: new only where no key refers to a checksum, identical only where one
  -- refers to this checksum and none to another, and diverged only where one refers to another.
  pub classify-Judged :
      (o : s.Objects) (p : ReleasePartition) (sha256 : String) (conflict : BronzeConflict)
      → classify s o p sha256 ≡ ok conflict
      → IsComplete (listing_of o p) × Judged (Refers (keys_of (listing_of o p))) sha256 conflict
  unfolding classify referenced_checksums
  classify-Judged o p sha256 conflict returns =
      let (seen, lists, judges) = >>=-eq-ok (referenced_checksums s o p) _ returns in
      let (complete, rep) =
        read_listing-Represents (listing_of o p) (λ c. ⊥) [] seen
          (record {
            complete = λ c never. absurd never;
            sound = λ c never. absurd never;
            distinct = tt;
          })
          lists in
      (
        complete,
        subst (Judged (Refers (keys_of (listing_of o p))) sha256) (same-conflict _ conflict judges)
            (judge_checksums-Judged (Refers (keys_of (listing_of o p))) seen sha256 (
              Represents-iff (λ c. ⊥ ⊎ Refers (keys_of (listing_of o p)) c)
                (Refers (keys_of (listing_of o p))) seen (λ c there. inr there)
                (λ c there. elim there [ inl never ↦ absurd never | inr there' ↦ there' ]) rep)),
      )
    where
      same-conflict :
          (a b : BronzeConflict) → ◌≡◌ {A = Except StoreError BronzeConflict} (ok a) (ok b) → a ≡ b
      same-conflict a b e = cc
