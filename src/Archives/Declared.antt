-- ===== src/Archives/Declared.antt =====
-- What the end record of an archive declares, and the zip64 record that it may lead to.
use mathlib.Core.Path.{subst}
use property_tax_data_platfo.Base.{
  ℕ, zero, suc, ◌+◌, ◌*◌, ◌-◌, ◌^◌, ◌≤◌, ◌≡◌, refl, sym, ap, ◌∙◌, ◌⊎◌, inl, inr, Bool, true, false,
  ◌&&◌, List, [], ◌∷◌, Except, ok, refuse_if->>, and-true, leb, leb→le, ◌==◌, length, take, drop,
  if◌then◌else◌, arith,
}
use property_tax_data_platfo.Archives.Policy.{
  ArchiveError, value_error, unsafe_archive, unreadable_archive,
}
use property_tax_data_platfo.Archives.Preflight.{
  zip64_locator_signature, zip64_eocd_signature, has_signature, little_endian, comment_length,
  Reader, Declared, declared_at, is_saturated, read_record, resolve_zip64,
}

-- These bytes spell the number, the least significant first.
abbrev pub Spells : List ℕ → ℕ → Type 0
Spells [] n = n ≡ 0
Spells (b ∷ bytes) n = (rest : ℕ) × (n ≡ b + 256 * rest) × Spells bytes rest

-- The number of this width stands at the offset.
abbrev pub NumberAt : List ℕ → ℕ → ℕ → ℕ → Type 0
NumberAt bytes offset width n =
    (length (take width (drop offset bytes)) ≡ width) × Spells (take width (drop offset bytes)) n

Spells-unique : (bytes : List ℕ) (n m : ℕ) → Spells bytes n → Spells bytes m → n ≡ m
Spells-unique [] n m s t = s ∙ sym t
Spells-unique (b ∷ bytes) n m (i, e, s) (j, e', t) =
    e ∙ ap (λ k. b + 256 * k) (Spells-unique bytes i j s t) ∙ sym e'

little_endian-Spells :
    (width : ℕ) (bytes : List ℕ)
    → width ≤ length bytes
    → (length (take width bytes) ≡ width) × Spells (take width bytes) (little_endian width bytes)
little_endian-Spells zero bytes fits = (refl, refl)
little_endian-Spells (suc width) [] fits = absurd (omega (arith, fits))
little_endian-Spells (suc width) (b ∷ bytes) fits =
    let (long, spells) = little_endian-Spells width bytes (omega (arith, fits)) in
    (ap (λ n. suc n) long, (little_endian width bytes, refl, spells))

length-drop :
    (offset : ℕ) (bytes : List ℕ)
    → offset ≤ length bytes
    → length (drop offset bytes) + offset ≡ length bytes
length-drop zero bytes fits = omega arith
length-drop (suc offset) [] fits = absurd (omega (arith, fits))
length-drop (suc offset) (b ∷ bytes) fits =
    omega (arith, length-drop offset bytes (omega (arith, fits)))

number_at :
    (bytes : List ℕ) (offset width : ℕ)
    → offset + width ≤ length bytes
    → NumberAt bytes offset width (little_endian width (drop offset bytes))
number_at bytes offset width fits =
    little_endian-Spells width (drop offset bytes)
      (omega (arith, fits, length-drop offset bytes (omega (arith, fits))))

-- The end record leads to this zip64 record: one of its numbers is the largest, a locator stands
-- before it, and the record of 56 bytes at the locator's offset gives these two numbers.
pub record FollowsZip64 (bytes tail : List ℕ) (position entries size : ℕ) (there : Declared)
    : Type 0 where
  pub saturated : (entries ≡ 0xFFFF) ⊎ (size ≡ 0xFFFFFFFF)
  pub fits : 20 ≤ position
  pub has_locator : has_signature zip64_locator_signature (drop (position - 20) tail) ≡ true
  pub offset : ℕ
  pub offset_at : NumberAt tail (position - 20 + 8) 8 offset
  pub complete : length (take 56 (drop offset bytes)) ≡ 56
  pub has_record : has_signature zip64_eocd_signature (take 56 (drop offset bytes)) ≡ true
  pub entries_at : NumberAt (take 56 (drop offset bytes)) 32 8 (there.0)
  pub size_at : NumberAt (take 56 (drop offset bytes)) 40 8 (there.1)

-- The number of entries and the bytes of the directory that an archive with these bytes, and this
-- end record in its tail, declares: those of the zip64 record that it leads to, or its own.
pub data Declares (bytes tail : List ℕ) (position : ℕ) : Declared → Type 0 where
  in_end_record :
      (entries size : ℕ)
      → NumberAt tail (position + 10) 2 entries
      → NumberAt tail (position + 12) 4 size
      → ((there : Declared) → FollowsZip64 bytes tail position entries size there → ⊥)
      → Declares bytes tail position (entries, size)
  in_zip64_record :
      (entries size : ℕ) (there : Declared)
      → NumberAt tail (position + 10) 2 entries
      → NumberAt tail (position + 12) 4 size
      → FollowsZip64 bytes tail position entries size there
      → Declares bytes tail position there

is_saturated-or :
    (entries size : ℕ)
    → is_saturated (entries, size) ≡ true
    → (entries ≡ 0xFFFF) ⊎ (size ≡ 0xFFFFFFFF)
is_saturated-or entries size e = ground arith

or-is_saturated :
    (entries size : ℕ)
    → (entries ≡ 0xFFFF) ⊎ (size ≡ 0xFFFFFFFF)
    → is_saturated (entries, size) ≡ true
or-is_saturated entries size (inl e) = ground arith
or-is_saturated entries size (inr e) = ground arith

le-leb : (n m : ℕ) → n ≤ m → leb n m ≡ true
le-leb n m h = ground arith

is_equal : (n m : ℕ) → (n == m) ≡ true → n ≡ m
is_equal n m e = ground arith

equal-is : (n m : ℕ) → n ≡ m → (n == m) ≡ true
equal-is n m e = ground arith

all-three : (a b c : Bool) → a ≡ true → b ≡ true → c ≡ true → a && b && c ≡ true
all-three true true true e e' e'' = refl
all-three false b c e e' e'' = absurd cc
all-three true false c e e' e'' = absurd cc
all-three true true false e e' e'' = absurd cc

same-declared : (a b : Declared) → ◌≡◌ {A = Except ArchiveError Declared} (ok a) (ok b) → a ≡ b
same-declared a b e = cc

module _ (reader : Reader) (tail : List ℕ) (position : ℕ)
    (ends : position + 22 + comment_length position tail ≡ length tail) where
  abbrev own_entries : ℕ
  own_entries = little_endian 2 (drop (position + 10) tail)

  abbrev own_size : ℕ
  own_size = little_endian 4 (drop (position + 12) tail)

  abbrev located : ℕ
  located = little_endian 8 (drop (position - 20 + 8) tail)

  abbrev record_bytes : List ℕ
  record_bytes = take 56 (drop located reader.bytes)

  entries_here : NumberAt tail (position + 10) 2 own_entries
  entries_here = number_at tail (position + 10) 2 (omega (arith, ends))

  size_here : NumberAt tail (position + 12) 4 own_size
  size_here = number_at tail (position + 12) 4 (omega (arith, ends))

  -- A zip64 record that is led to is the one at the offset that is read.
  same-record :
      (there : Declared)
      → (f : FollowsZip64 reader.bytes tail position own_entries own_size there) → 20 ≤ position
      → f.offset ≡ located
  same-record there f fits =
      Spells-unique _ f.offset located (f.offset_at.1)
        (number_at tail (position - 20 + 8) 8 (omega (arith, ends, fits))).1

  abbrev record_test : Bool
  record_test = length record_bytes == 56 && has_signature zip64_eocd_signature record_bytes

  both : (a b : Bool) → a ≡ true → b ≡ true → a && b ≡ true
  both true true e e' = refl
  both false b e e' = absurd cc
  both true false e e' = absurd cc

  recorded :
      (there : Declared)
      → FollowsZip64 reader.bytes tail position own_entries own_size there
      → record_test ≡ true
  recorded there f =
      subst
        (λ offset.
          (length (take 56 (drop offset reader.bytes)) == 56
            && has_signature zip64_eocd_signature (take 56 (drop offset reader.bytes)))
          ≡ true)
        (same-record there f f.fits) (both _ _ (equal-is _ _ f.complete) f.has_record)

  abbrev test : Bool
  test =
      is_saturated (own_entries, own_size)
      && leb 20 position
      && has_signature zip64_locator_signature (drop (position - 20) tail)

  from_record-Declares :
      (b : Bool) (declared : Declared)
      → record_test ≡ b
      → test ≡ true
      → (if b
          then (little_endian 8 (drop 32 record_bytes), little_endian 8 (drop 40 record_bytes))
          else (own_entries, own_size))
        ≡ declared
      → Declares reader.bytes tail position declared
  from_record-Declares true declared is led same =
      let (first, signed) =
        and-true (is_saturated (own_entries, own_size) && leb 20 position) _ led in
      let (saturated, fits) = and-true (is_saturated (own_entries, own_size)) _ first in
      let (long, marked) = and-true (length record_bytes == 56) _ is in
      let whole = is_equal _ _ long in
      subst (Declares reader.bytes tail position) same (
        in_zip64_record own_entries own_size
          (little_endian 8 (drop 32 record_bytes), little_endian 8 (drop 40 record_bytes))
          entries_here size_here
          (record {
            saturated = is_saturated-or own_entries own_size saturated;
            fits = leb→le _ _ fits;
            has_locator = signed;
            offset = located;
            offset_at = number_at tail (position - 20 + 8) 8 (omega (arith, ends, leb→le _ _ fits));
            complete = whole;
            has_record = marked;
            entries_at = number_at record_bytes 32 8 (omega (arith, whole));
            size_at = number_at record_bytes 40 8 (omega (arith, whole));
          }))
  from_record-Declares false declared is led same =
      subst (Declares reader.bytes tail position) same (
        in_end_record own_entries own_size entries_here size_here
          (λ there f. absurd (cc (recorded there f, is))))

  resolved :
      (b : Bool) (declared : Declared)
      → test ≡ b
      → (if b
          then read_record reader (own_entries, own_size) located
          else ok (own_entries, own_size))
        ≡ ok declared
      → Declares reader.bytes tail position declared
  resolved true declared is e =
      let (_, read) = refuse_if->> (leb (2 ^ 63) located) (value_error "seek") e in
      let (_, found) =
        refuse_if->> reader.record_fails (unsafe_archive unreadable_archive "") read in
      from_record-Declares record_test declared refl is (same-declared _ declared found)
  resolved false declared is e =
      let same : (own_entries, own_size) ≡ declared = cc in
      subst (Declares reader.bytes tail position) same (
        in_end_record own_entries own_size entries_here size_here (λ there f. absurd (
          cc (
            all-three _ _ _ (or-is_saturated own_entries own_size f.saturated)
                (le-leb 20 position f.fits) f.has_locator,
            is,
          ))))

  pub resolve_zip64-Declares :
      (declared : Declared)
      → resolve_zip64 reader tail position (declared_at position tail) ≡ ok declared
      → Declares reader.bytes tail position declared
  resolve_zip64-Declares declared e = resolved test declared refl e
