-- ===== src/Bronze/Reads.antt =====
-- A reference's key, and the checksum that is read from it.
use Prim.Native.Char.{Char}
use property_tax_data_platfo.Base.{
  ◌+◌, ◌<◌, suc, String, Bool, true, false, ◌||◌, none, some, ℤ, ◌≡◌, refl, sym, ap, ◌∙◌,
  if◌then◌else◌, str_eq, eq_iff, arith, Bool-cases, inl, inr,
}
use property_tax_data_platfo.Acquire.Characters.{chars}
use property_tax_data_platfo.Bronze.Keys.{
  ReleasePartition, append, slashed, is_slash, has_slash, part_after_slash, in_front, strip_suffix,
  or_whole, reference_suffix, manifest_key, artifact_prefix, partition_path, partition_prefix,
  partition_ref_key, referenced,
}

chars-append : (a b : String) → chars (append a b) ≡ chars a + chars b
chars-append String.[] b = omega arith
chars-append (String.◌∷◌ c a) b = omega (arith, chars-append a b)

append_assoc : (a b c : String) → append (append a b) c ≡ append a (append b c)
append_assoc String.[] b c = refl
append_assoc (String.◌∷◌ d a) b c = ap (λ t. String.◌∷◌ d t) (append_assoc a b c)

longer-differs : (a b : String) → chars b < chars a → str_eq a b ≡ false
longer-differs a b longer = elim (Bool-cases (str_eq a b)) [
  | inr different ↦ different
  | inl same ↦ absurd (omega (arith, longer, ap chars ((eq_iff a b).0 same)))
]

strip_suffix-longer :
    (suffix : String) (c : Char) (text : String)
    → chars suffix < suc (chars text)
    → strip_suffix suffix (String.◌∷◌ c text) ≡ in_front c (strip_suffix suffix text)
strip_suffix-longer suffix c text longer =
    rw (longer-differs (String.◌∷◌ c text) suffix longer) refl

-- The suffix `.ref.json` is taken from where it was put.
strip_reference :
    (text : String) → strip_suffix reference_suffix (append text reference_suffix) ≡ some text
strip_reference String.[] = refl
strip_reference (String.◌∷◌ c text) =
    strip_suffix-longer reference_suffix c (append text reference_suffix)
      (omega (arith, chars-append text reference_suffix))
    ∙ ap (in_front c) (strip_reference text)

-- A manifest's key has not the suffix of a reference.
strip_manifest :
    (text : String) → strip_suffix reference_suffix (append text ".manifest.json") ≡ none
strip_manifest String.[] = refl
strip_manifest (String.◌∷◌ c text) =
    strip_suffix-longer reference_suffix c (append text ".manifest.json")
      (omega (arith, chars-append text ".manifest.json"))
    ∙ ap (in_front c) (strip_manifest text)

has_slash-append : (a b : String) → has_slash b ≡ false → has_slash (append a b) ≡ has_slash a
has_slash-append String.[] b clear = clear
has_slash-append (String.◌∷◌ c a) b clear = ap (λ t. is_slash c || t) (has_slash-append a b clear)

or-true : (b : Bool) → b || true ≡ true
or-true true = refl
or-true false = refl

has_slash-slashed : (a b : String) → has_slash (slashed a b) ≡ true
has_slash-slashed String.[] b = refl
has_slash-slashed (String.◌∷◌ c a) b =
    ap (λ t. is_slash c || t) (has_slash-slashed a b) ∙ or-true (is_slash c)

part_after_slash-whole : (text : String) → has_slash text ≡ false → part_after_slash text ≡ text
part_after_slash-whole String.[] clear = refl
part_after_slash-whole (String.◌∷◌ c text) clear =
    ap (λ b. if b then part_after_slash text else String.◌∷◌ c text) clear

-- The last part is what stands behind the last slash.
part_after_slash-slashed : (a b : String) → has_slash b ≡ false → part_after_slash (slashed a b) ≡ b
part_after_slash-slashed String.[] b clear = part_after_slash-whole b clear
part_after_slash-slashed (String.◌∷◌ c a) b clear =
    ap (λ t. if t then part_after_slash (slashed a b) else String.◌∷◌ c (slashed a b))
      (ap (λ t. is_slash c || t) (has_slash-slashed a b) ∙ or-true (is_slash c))
    ∙ part_after_slash-slashed a b clear

-- What is read from a key that ends in a part without a slash and the suffix.
referenced-slashed :
    (path sha256 : String)
    → has_slash sha256 ≡ false
    → referenced (slashed path (append sha256 reference_suffix)) ≡ some sha256
unfolding referenced
referenced-slashed path sha256 clear =
    let part : part_after_slash (slashed path (append sha256 reference_suffix))
        ≡ append sha256 reference_suffix =
      part_after_slash-slashed path (append sha256 reference_suffix)
        (has_slash-append sha256 reference_suffix refl ∙ clear) in
    let whole : strip_suffix reference_suffix (slashed path (append sha256 reference_suffix))
        ≡ some (slashed path sha256) =
      ap (strip_suffix reference_suffix)
        (sym (append_assoc path (String.◌∷◌ "/" sha256) reference_suffix))
      ∙ strip_reference (slashed path sha256) in
    rw (whole, part)
      (ap (λ o. some (or_whole o (append sha256 reference_suffix))) (strip_reference sha256))

-- The key of a manifest is read as no reference.
pub referenced-manifest_key : (sha256 : String) → referenced (manifest_key sha256) ≡ none
unfolding referenced manifest_key
referenced-manifest_key sha256 =
    rw
      (
        ap (strip_suffix reference_suffix)
            (sym (append_assoc artifact_prefix (String.◌∷◌ "/" sha256) ".manifest.json")),
        strip_manifest (slashed artifact_prefix sha256),
      )
      refl

-- What referenced_checksums reads from the key that partition_ref_key makes of a partition and a
-- checksum is that checksum, for every partition, where the checksum holds no slash.
pub referenced-partition_ref_key :
    (str_of : ℤ → String) (p : ReleasePartition) (sha256 : String)
    → has_slash sha256 ≡ false
    → referenced (partition_ref_key str_of p sha256) ≡ some sha256
unfolding partition_ref_key partition_prefix
referenced-partition_ref_key str_of p sha256 clear =
    ap referenced (append_assoc (partition_path str_of p) "/" (append sha256 reference_suffix))
    ∙ referenced-slashed (partition_path str_of p) sha256 clear
