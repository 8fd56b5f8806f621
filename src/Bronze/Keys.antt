-- ===== src/Bronze/Keys.antt =====
-- s3.py: the keys of artifacts, manifests and references, and the reading of a reference's key.
use Prim.Native.Char.{Char, code}
use property_tax_data_platfo.Base.{
  String, Bool, false, ◌||◌, ◌==◌, Option, none, some, ℤ, if◌then◌else◌, str_eq, is_some,
}

-- `a + b`
abbrev pub append : String → String → String
append String.[] b = b
append (String.◌∷◌ c a) b = String.◌∷◌ c (append a b)

-- `f"{a}/{b}"`
abbrev pub slashed : String → String → String
slashed a b = append a (String.◌∷◌ "/" b)

abbrev pub is_slash : Char → Bool
is_slash c = code c == 47

abbrev pub has_slash : String → Bool
has_slash String.[] = false
has_slash (String.◌∷◌ c text) = is_slash c || has_slash text

-- `text.rsplit("/", 1)[-1]`
abbrev pub part_after_slash : String → String
part_after_slash String.[] = String.[]
part_after_slash (String.◌∷◌ c text) =
    let rest = part_after_slash text in
    if is_slash c || has_slash text then rest else String.◌∷◌ c text

-- a character in front of what is left
abbrev pub in_front : Char → Option String → Option String
in_front c none = none
in_front c (some text) = some (String.◌∷◌ c text)

-- the text without a suffix that it has
abbrev pub strip_suffix : String → String → Option String
strip_suffix suffix String.[] = if str_eq String.[] suffix then some String.[] else none
strip_suffix suffix (String.◌∷◌ c text) =
    let rest = strip_suffix suffix text in
    if str_eq (String.◌∷◌ c text) suffix then some String.[] else in_front c rest

-- `text.endswith(suffix)`
abbrev pub ends_with : String → String → Bool
ends_with text suffix = is_some (strip_suffix suffix text)

-- the text that is left, or the whole
abbrev pub or_whole : Option String → String → String
or_whole none text = text
or_whole (some rest) text = rest

-- `text.removesuffix(suffix)`
abbrev pub remove_suffix : String → String → String
remove_suffix text suffix = or_whole (strip_suffix suffix text) text

abbrev pub artifact_prefix : String
artifact_prefix = "bronze/artifacts"

abbrev pub release_prefix : String
release_prefix = "bronze/releases"

abbrev pub staging_prefix : String
staging_prefix = "bronze/staging"

abbrev pub reference_suffix : String
reference_suffix = ".ref.json"

unfoldable pub artifact_key : String → String
artifact_key sha256 = slashed artifact_prefix sha256

unfoldable pub manifest_key : String → String
manifest_key sha256 = slashed artifact_prefix (append sha256 ".manifest.json")

-- the fields of a release partition
pub record ReleasePartition : Type 0 where
  pub jurisdiction_code : String
  pub tax_year : ℤ
  pub release_kind : String

-- `str_of` is Python's rendering of an int.
module _ (str_of : ℤ → String) where
  -- the prefix without its last slash
  unfoldable pub partition_path : ReleasePartition → String
  partition_path p =
      slashed (slashed (slashed release_prefix p.jurisdiction_code) (str_of p.tax_year))
        p.release_kind

  unfoldable pub partition_prefix : ReleasePartition → String
  unfolding partition_path
  partition_prefix p = slashed (partition_path p) ""

  unfoldable pub partition_ref_key : ReleasePartition → String → String
  unfolding partition_prefix
  partition_ref_key p sha256 = append (partition_prefix p) (append sha256 reference_suffix)

-- what `referenced_checksums` takes from the key of one entry
unfoldable pub referenced : String → Option String
referenced key =
    if ends_with key reference_suffix
    then some (remove_suffix (part_after_slash key) reference_suffix)
    else none
