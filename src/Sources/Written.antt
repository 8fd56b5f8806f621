-- ===== src/Sources/Written.antt =====
-- A record that is written at a layout's positions, and sliced.
use mathlib.Core.List.{append_assoc, append-nil}
use mathlib.Core.Path.{subst}
use property_tax_data_platfo.Base.{
  ℕ, ◌+◌, ◌-◌, ◌≤◌, ◌<◌, zero, suc, String, Bool, true, false, none, List, [], ◌∷◌, ◌++◌, ◌≡◌, refl,
  sym, ap, ◌∙◌, Except, ok, refuse_if->>, >>-eq-ok, leb, ltb, ltb-false→le, leb-false→lt, length,
  length-append, take, drop, All, arith,
}
use property_tax_data_platfo.Sources.Pacs.{
  PacsField, LayoutError, is_blank_name, unidentified, repeated_name, unnamed, not_one_indexed,
  ends_early, out_of_order, overlaps, field_length, field_post_init, names_twice, check_order,
  check_fields, PacsLayout, new_layout, last_end, declared_width, slice, SlicedRecord, Sliced,
  add_field, slice_fields, slice_record,
}

-- A field and its value
abbrev pub Row : Type 0
Row = PacsField × List ℕ

abbrev spaces : ℕ → List ℕ
spaces zero = []
spaces (suc n) = 32 ∷ spaces n

-- The values at their positions, from a position on, with spaces between them.
unfoldable pub write_rows : ℕ → List Row → List ℕ
write_rows position [] = []
write_rows position ((f, value) ∷ rows) =
    spaces (f.start - position) ++ (value ++ write_rows (suc f.end_at) rows)

abbrev pub fields_of : List Row → List PacsField
fields_of [] = []
fields_of ((f, value) ∷ rows) = f ∷ fields_of rows

abbrev pub values_of : List Row → List (String × List ℕ)
values_of [] = []
values_of ((f, value) ∷ rows) = (f.name, value) ∷ values_of rows

-- The field is accepted, and the value is as wide as the field.
abbrev pub IsRow : Row → Type 0
IsRow (f, value) = (field_post_init f ≡ ok tt) × (length value ≡ field_length f)

length-spaces : (n : ℕ) → length (spaces n) ≡ n
length-spaces zero = refl
length-spaces (suc n) = ap suc (length-spaces n)

take-append : (xs ys : List ℕ) → take (length xs) (xs ++ ys) ≡ xs
take-append [] ys = refl
take-append (x ∷ xs) ys = ap (λ l. x ∷ l) (take-append xs ys)

drop-append : (xs ys : List ℕ) → drop (length xs) (xs ++ ys) ≡ ys
drop-append [] ys = refl
drop-append (x ∷ xs) ys = drop-append xs ys

-- What stands at a field's positions is its slice.
slice-append :
    (f : PacsField) (front value after : List ℕ)
    → length front ≡ f.start - 1
    → length (front ++ value) ≡ f.end_at
    → slice f (front ++ (value ++ after)) ≡ value
unfolding slice
slice-append f front value after begins ends =
    ap (λ t. drop (f.start - 1) t)
      (ap (λ n. take n (front ++ (value ++ after))) (sym ends)
        ∙ ap (take (length (front ++ value))) (sym (append_assoc front value after))
        ∙ take-append (front ++ value) after)
    ∙ ap (λ n. drop n (front ++ value)) (sym begins)
    ∙ drop-append front value

-- Where a field stands, and how wide its value is.
record Stands (f : PacsField) (value : List ℕ) : Type 0 where
  pub starts : 1 ≤ f.start
  pub ends : f.start ≤ f.end_at
  pub width : length value + f.start ≡ suc f.end_at

IsRow-Stands : (f : PacsField) (value : List ℕ) → IsRow (f, value) → Stands f value
unfolding field_post_init field_length
IsRow-Stands f value (valid, width) =
    let (_, r1) = refuse_if->> (is_blank_name f.name) unnamed valid in
    let (indexed, r2) = refuse_if->> (ltb f.start 1) not_one_indexed r1 in
    let (ordered, _) = refuse_if->> (ltb f.end_at f.start) ends_early r2 in
    let starts = ltb-false→le f.start 1 indexed in
    let ends = ltb-false→le f.end_at f.start ordered in
    record { starts = starts; ends = ends; width = omega (arith, width, ends, starts) }

-- The rows follow this end.
abbrev Follows : ℕ → List Row → Type 0
Follows end_at [] = Unit
Follows end_at ((f, value) ∷ rows) = (end_at < f.start) × Stands f value × Follows f.end_at rows

abbrev sliced_as : List (String × List ℕ) → Sliced
sliced_as values = record { values = values; truncated = []; absent = [] }

abbrev with_value : String → List ℕ → Sliced → Sliced
with_value name value s = record s { values = (name, value) ∷ s.values }

add_field-fits :
    (f : PacsField) (text value : List ℕ) (long required : Bool) (s : Sliced)
    (values : List (String × List ℕ))
    → long ≡ false
    → slice f text ≡ value
    → s ≡ sliced_as values
    → add_field f text long required s ≡ sliced_as ((f.name, value) ∷ values)
add_field-fits f text value true required s values fits at rest = absurd cc
add_field-fits f text value false required s values fits at rest =
    ap (λ v. with_value f.name v s) at ∙ ap (with_value f.name value) rest

le-not-ltb : (a b : ℕ) → b ≤ a → ltb a b ≡ false
le-not-ltb a b h = ground arith

-- What stands in front of the next field: the gap and the value.
abbrev front_of : PacsField → List ℕ → List ℕ → List ℕ
front_of f value front = (front ++ spaces (f.start - suc (length front))) ++ value

module _ (f : PacsField) (value front : List ℕ) (later : length front < f.start)
    (stands : Stands f value) where
  begins : length (front ++ spaces (f.start - suc (length front))) ≡ f.start - 1
  begins = omega (
    arith,
    later,
    length-append front (spaces (f.start - suc (length front))),
    length-spaces (f.start - suc (length front)),
  )

  length-front_of : length (front_of f value front) ≡ f.end_at
  length-front_of = omega (
    arith,
    begins,
    stands.width,
    stands.starts,
    length-append (front ++ spaces (f.start - suc (length front))) value,
  )

  -- The text is what stands in front, and the rest.
  text-front_of :
      (rest : List ℕ)
      → front ++ (spaces (f.start - suc (length front)) ++ (value ++ rest))
        ≡ front_of f value front ++ rest
  text-front_of rest =
      sym (append_assoc front (spaces (f.start - suc (length front))) (value ++ rest))
      ∙ sym (append_assoc (front ++ spaces (f.start - suc (length front))) value rest)

slice_fields-written :
    (rows : List Row) (front : List ℕ)
    → Follows (length front) rows
    → slice_fields (fields_of rows) (front ++ write_rows (suc (length front)) rows)
      ≡ sliced_as (values_of rows)
unfolding slice_fields write_rows
slice_fields-written [] front follows = refl
slice_fields-written ((f, value) ∷ rows) front (later, stands, follows) =
    add_field-fits f _ value _ f.required _ (values_of rows)
      (le-not-ltb _ f.end_at (
        omega (
          arith,
          ap length (text-front_of f value front later stands rest),
          length-append (front_of f value front) rest,
          length-front_of f value front later stands,
        )))
      (ap (slice f)
          (sym (append_assoc front (spaces (f.start - suc (length front))) (value ++ rest)))
        ∙ slice-append f (front ++ spaces (f.start - suc (length front))) value rest
            (begins f value front later stands) (length-front_of f value front later stands))
      (ap (slice_fields (fields_of rows)) (
          text-front_of f value front later stands rest
          ∙ ap (λ n. front_of f value front ++ write_rows (suc n) rows)
              (sym (length-front_of f value front later stands)))
        ∙ slice_fields-written rows (front_of f value front) (
            subst (λ n. Follows n rows) (sym (length-front_of f value front later stands)) follows))
  where
    rest : List ℕ
    rest = write_rows (suc f.end_at) rows

-- The text ends where the last field does.
length-written :
    (rows : List Row) (front : List ℕ)
    → Follows (length front) rows
    → length (front ++ write_rows (suc (length front)) rows)
      ≡ last_end (length front) (fields_of rows)
unfolding write_rows
length-written [] front follows = ap length (append-nil front)
length-written ((f, value) ∷ rows) front (later, stands, follows) =
    ap length (
      text-front_of f value front later stands (write_rows (suc f.end_at) rows)
      ∙ ap (λ n. front_of f value front ++ write_rows (suc n) rows)
          (sym (length-front_of f value front later stands)))
    ∙ length-written rows (front_of f value front)
        (subst (λ n. Follows n rows) (sym (length-front_of f value front later stands)) follows)
    ∙ ap (λ n. last_end n (fields_of rows)) (length-front_of f value front later stands)

-- The order that the layout checks is the one in which the rows follow.
check_order-Follows :
    (previous : PacsField) (rows : List Row)
    → check_order previous (fields_of rows) ≡ ok tt
    → All IsRow rows
    → Follows previous.end_at rows
unfolding check_order
check_order-Follows previous [] ordered valid = tt
check_order-Follows previous ((f, value) ∷ rows) ordered (row, valid) =
    let (_, r1) = refuse_if->> (leb f.start previous.start) out_of_order ordered in
    let (apart, r2) = refuse_if->> (leb f.start previous.end_at) overlaps r1 in
    (
      leb-false→lt f.start previous.end_at apart,
      IsRow-Stands f value row,
      check_order-Follows f rows r2 valid,
    )

check_fields-Follows :
    (rows : List Row) → check_fields (fields_of rows) ≡ ok tt → All IsRow rows → Follows 0 rows
check_fields-Follows [] checks valid = tt
check_fields-Follows ((f, value) ∷ rows) checks (row, valid) =
    let (_, ordered) = refuse_if->> (names_twice (f ∷ fields_of rows)) repeated_name checks in
    let stands = IsRow-Stands f value row in
    (omega (arith, stands.starts), stands, check_order-Follows f rows ordered valid)

-- Every value is there, and nothing else.
abbrev pub whole_record : List Row → SlicedRecord
whole_record rows = record {
  values = values_of rows;
  truncated_required = [];
  absent_optional = [];
  trailing = none;
}

module _ {E : Type 0} (encode : List ℕ → Except E (List ℕ)) (sha256 : List ℕ → String) where
  -- For a layout that PacsLayout accepts, of fields that PacsField accepts, a record that is written
  -- with a value as wide as each field at the field's positions, and spaces between them, is sliced
  -- into exactly these values, in their order; no field is truncated or absent, and nothing trails.
  pub slice_record-written :
      (layout_id layout_version : String) (rows : List Row) (layout : PacsLayout)
      → new_layout layout_id layout_version (fields_of rows) ≡ ok layout
      → All IsRow rows
      → slice_record encode sha256 layout (write_rows 1 rows) ≡ ok (whole_record rows)
  unfolding slice_record new_layout declared_width
  slice_record-written layout_id layout_version rows layout made valid =
      let (_, r1) = refuse_if->> (is_blank_name layout_id) unidentified made in
      let (_, r2) = refuse_if->> (is_blank_name layout_version) unidentified r1 in
      let (checks, r3) = >>-eq-ok (check_fields (fields_of rows)) r2 in
      let follows = check_fields-Follows rows checks valid in
      subst (λ l. slice_record encode sha256 l (write_rows 1 rows) ≡ ok (whole_record rows))
        (same-layout _ layout r3)
        (rw
          (
            slice_fields-written rows [] follows,
            le-not-ltb (last_end 0 (fields_of rows)) (length (write_rows 1 rows))
                (omega (arith, length-written rows [] follows)),
          )
          refl)
    where
      same-layout :
          (a b : PacsLayout) → ◌≡◌ {A = Except LayoutError PacsLayout} (ok a) (ok b) → a ≡ b
      same-layout a b e = cc
