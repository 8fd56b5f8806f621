-- ===== src/Archives/Bounded.antt =====
-- `_find_eocd` and `_preflight`: the record that is found, and the bound on the directory.
use property_tax_data_platfo.Base.{
  ℕ, zero, suc, ◌+◌, ◌<◌, ◌≡◌, refl, sym, Bool, true, false, not, Option, none, some, List, [], ◌∷◌,
  ok, refuse_if->>, refuse_if-ok, >>=-eq-ok, ltb, ◌==◌, length, drop, if◌then◌else◌, arith,
}
use property_tax_data_platfo.Archives.Policy.{Host, ArchivePolicy, max_directory_bytes, over}
use property_tax_data_platfo.Archives.Declared.{Declares, resolve_zip64-Declares}
use property_tax_data_platfo.Archives.Preflight.{
  eocd_signature, has_signature, rfind, comment_length, find_eocd, Reader, Declared, tail_of,
  bound_declared, bound_directory, preflight,
}

-- where the last signature stands
abbrev IsLast : List ℕ → Option ℕ → Type 0
IsLast bytes none = (q : ℕ) → has_signature eocd_signature (drop q bytes) ≡ false
IsLast bytes (some p) =
    (has_signature eocd_signature (drop p bytes) ≡ true)
    × ((q : ℕ) → p < q → has_signature eocd_signature (drop q bytes) ≡ false)

later :
    (b : ℕ) (bytes : List ℕ) (o : Option ℕ)
    → IsLast bytes o
    → IsLast (b ∷ bytes) (elim o [
      | some found ↦ some (suc found)
      | none ↦ if has_signature eocd_signature (b ∷ bytes) then some 0 else none
    ])
later b bytes (some p) (here, beyond) = (here, past)
  where
    past : (q : ℕ) → suc p < q → has_signature eocd_signature (drop q (b ∷ bytes)) ≡ false
    past zero lt = absurd (omega (arith, lt))
    past (suc q) lt = beyond q (omega (arith, lt))
later b bytes none nowhere = at_start (has_signature eocd_signature (b ∷ bytes)) refl
  where
    past : (q : ℕ) → 0 < q → has_signature eocd_signature (drop q (b ∷ bytes)) ≡ false
    past zero lt = absurd (omega (arith, lt))
    past (suc q) lt = nowhere q

    none_at :
        has_signature eocd_signature (b ∷ bytes) ≡ false
        → (q : ℕ) → has_signature eocd_signature (drop q (b ∷ bytes)) ≡ false
    none_at h zero = h
    none_at h (suc q) = nowhere q

    at_start :
        (t : Bool)
        → has_signature eocd_signature (b ∷ bytes) ≡ t
        → IsLast (b ∷ bytes) (if t then some 0 else none)
    at_start true h = (h, past)
    at_start false h = none_at h

rfind-IsLast : (bytes : List ℕ) → IsLast bytes (rfind eocd_signature bytes)
rfind-IsLast [] = nothing
  where
    nothing : (q : ℕ) → has_signature eocd_signature (drop q []) ≡ false
    nothing zero = refl
    nothing (suc q) = refl
rfind-IsLast (b ∷ bytes) = later b bytes (rfind eocd_signature bytes) (rfind-IsLast bytes)

-- The end record of an archive whose last bytes these are: the last signature among them stands
-- there, and the record and its comment take up all that follows.
pub record IsEocd (tail : List ℕ) (position : ℕ) : Type 0 where
  pub has_record : has_signature eocd_signature (drop position tail) ≡ true
  pub is_last : (q : ℕ) → position < q → has_signature eocd_signature (drop q tail) ≡ false
  pub takes_up_the_rest : position + 22 + comment_length position tail ≡ length tail

unequal : (n m : ℕ) → not (n == m) ≡ false → n ≡ m
unequal n m h = ground arith

find_eocd-IsEocd :
    (tail : List ℕ) (position : ℕ) → find_eocd tail ≡ some position → IsEocd tail position
unfolding find_eocd
find_eocd-IsEocd tail position = at_last (rfind eocd_signature tail) (rfind-IsLast tail)
  where
    passed :
        (found : ℕ)
        → IsLast tail (some found)
        → (a b : Bool) → (not (found + 22 + comment_length found tail == length tail) ≡ b)
        → (if a then none else if b then none else some found) ≡ some position
        → IsEocd tail position
    passed found last true b is e = absurd cc
    passed found last false true is e = absurd cc
    passed found (here, beyond) false false is e =
        let same : found ≡ position = cc in
        rw (sym same)
          (record { has_record = here; is_last = beyond; takes_up_the_rest = unequal _ _ is })

    at_last :
        (o : Option ℕ)
        → IsLast tail o
        → (elim o [
          | none ↦ none
          | some found ↦
              if ltb (length tail) (found + 22)
              then none
              else if not (found + 22 + comment_length found tail == length tail)
              then none
              else some found
        ])
          ≡ some position
        → IsEocd tail position
    at_last none last e = absurd cc
    at_last (some found) last e = passed found last _ _ refl e

module _ (h : Host) (policy : ArchivePolicy h) (reader : Reader) where
  -- What `_preflight` lets pass: the end record it took is the one at the end of the file, and what
  -- the record declares, or the zip64 record it leads to, is within the policy's limits.
  pub record IsBounded : Type 0 where
    pub position : ℕ
    pub is_eocd : IsEocd (tail_of reader.bytes) position
    pub declared : Declared
    pub declares : Declares reader.bytes (tail_of reader.bytes) position declared
    pub has_few_entries : over declared.0 policy.max_members ≡ false
    pub has_small_directory : over declared.1 (max_directory_bytes h policy) ≡ false

  bound_directory-IsBounded :
      (o : Option ℕ)
      → find_eocd (tail_of reader.bytes) ≡ o
      → bound_directory h policy reader o ≡ ok tt
      → IsBounded
  unfolding bound_directory bound_declared
  bound_directory-IsBounded none is e = absurd cc
  bound_directory-IsBounded (some position) is e =
      let (declared, found, bound) = >>=-eq-ok _ _ e in
      let q = refuse_if->> _ _ bound in
      let eocd = find_eocd-IsEocd (tail_of reader.bytes) position is in
      record {
        position = position;
        is_eocd = eocd;
        declared = declared;
        declares =
            resolve_zip64-Declares reader (tail_of reader.bytes) position eocd.takes_up_the_rest
              declared found;
        has_few_entries = refuse_if-ok _ _ q.1;
        has_small_directory = q.0;
      }

  -- When `_preflight` passes, the end record it took is the last signature of the file's tail and
  -- takes up the rest of it, and the numbers of entries and of directory bytes that the archive
  -- declares are within the policy's limits: those that are spelled 10 and 12 bytes into that record,
  -- or, where one of these is the largest, a zip64 locator stands 20 bytes before it and a zip64
  -- record of 56 bytes stands where that one says, those spelled 32 and 40 bytes into this.
  pub preflight-IsBounded : preflight h policy reader ≡ ok tt → IsBounded
  unfolding preflight
  preflight-IsBounded e =
      bound_directory-IsBounded (find_eocd (tail_of reader.bytes)) refl (refuse_if->> _ _ e).1
