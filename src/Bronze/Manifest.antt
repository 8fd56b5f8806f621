-- ===== src/Bronze/Manifest.antt =====
-- bronze.py: the manifest and its checks. A field's type stands for the `isinstance` tests.
use property_tax_data_platfo.Base.{
  ℕ, String, Bool, true, false, not, ◌&&◌, ◌||◌, ◌==◌, Option, none, some, List, [], ◌∷◌, ℤ, pos,
  negsuc, str_eq, Except, Check, ok, refuse_if, ◌>>◌, ◌>>=◌, ltb, leb, codes, is_blank, int_eq, any,
}
use property_tax_data_platfo.Sources.Contracts.{is_jurisdiction}
use property_tax_data_platfo.Acquire.Characters.{chars, has_control, is_sha256}
use property_tax_data_platfo.Acquire.Contract.{
  Host, Raised, value_error, max_locator_chars, below_zero, sanitize_url,
}
use property_tax_data_platfo.Acquire.Headers.{
  ResponseMetadata, RedirectHop, AcquiredArtifact, media_type,
}
use property_tax_data_platfo.Bronze.Keys.{ReleasePartition}

abbrev pub bronze_manifest_version : ℕ
bronze_manifest_version = 1

pub data BronzeConflict : Type 0 where
  new identical diverged : BronzeConflict

-- `[A-Za-z0-9._-]`
abbrev is_bronze_char : ℕ → Bool
is_bronze_char c =
    leb b'A' c && leb c b'Z'
    || leb b'a' c && leb c b'z'
    || leb b'0' c && leb c b'9'
    || c == b'.'
    || c == b'_'
    || c == b'-'

-- the character is none of `.` and `-`
abbrev starts_well : List ℕ → Bool
starts_well [] = false
starts_well (c ∷ cs) = not (c == b'.' || c == b'-')

abbrev pub is_bronze_identifier : String → Bool
is_bronze_identifier value =
    not (any (λ c. not (is_bronze_char c)) (codes value))
    && leb (chars value) 128
    && starts_well (codes value)

unfoldable pub require_bronze_identifier : String → String → Check Raised
require_bronze_identifier value field_name =
    refuse_if (not (is_bronze_identifier value)) (value_error field_name)

-- `1900 <= year <= 2200`
abbrev is_plausible : ℤ → Bool
is_plausible (pos year) = leb 1900 year && leb year 2200
is_plausible (negsuc _) = false

unfoldable pub partition_post_init : ReleasePartition → Check Raised
unfolding is_jurisdiction require_bronze_identifier
partition_post_init p = do
  refuse_if (not (is_jurisdiction (codes p.jurisdiction_code))) (value_error "jurisdiction_code")
  refuse_if (not (is_plausible p.tax_year)) (value_error "tax_year")
  require_bronze_identifier p.release_kind "release_kind"

pub record StoredArtifact : Type 0 where
  pub locator : String
  pub sha256 : String
  pub byte_count : ℤ
  pub media_type : Option String

abbrev is_blank_text : Option String → Bool
is_blank_text none = false
is_blank_text (some text) = is_blank text

unfoldable pub stored_artifact_post_init : StoredArtifact → Check Raised
unfolding is_blank
stored_artifact_post_init a = do
  refuse_if (is_blank a.locator) (value_error "locator")
  refuse_if (ltb max_locator_chars (chars a.locator)) (value_error "locator")
  refuse_if (has_control a.locator) (value_error "locator")
  refuse_if (not (is_sha256 a.sha256)) (value_error "sha256")
  refuse_if (below_zero a.byte_count) (value_error "byte_count")
  refuse_if (is_blank_text a.media_type) (value_error "media_type")

-- `datetime`: whether it has a zone and an offset, and its rendering in UTC.
pub record Instant : Type 0 where
  pub is_aware : Bool
  pub iso_utc : String

pub record ReleaseManifest : Type 0 where
  pub partitions : List ReleasePartition
  pub artifact : StoredArtifact
  pub acquired_at : Instant
  pub source_url : String
  pub response : ResponseMetadata
  pub redirects : List RedirectHop
  pub manifest_version : ℕ
  pub tool_versions : List (String × String)

abbrev pub same_partition : ReleasePartition → ReleasePartition → Bool
same_partition p q =
    str_eq p.jurisdiction_code q.jurisdiction_code
    && int_eq p.tax_year q.tax_year
    && str_eq p.release_kind q.release_kind

abbrev pub repeats : List ReleasePartition → Bool
repeats [] = false
repeats (p ∷ ps) = any (same_partition p) ps || repeats ps

abbrev lists_none : List ReleasePartition → Bool
lists_none [] = true
lists_none (_ ∷ _) = false

unfoldable pub require_tool_names : List (String × String) → Check Raised
unfolding require_bronze_identifier
require_tool_names [] = ok tt
require_tool_names ((name, version) ∷ rest) =
    require_bronze_identifier name "tool_versions" >> require_tool_names rest

module _ (h : Host) where
  unfoldable pub manifest_post_init : ReleaseManifest → Check Raised
  unfolding sanitize_url require_tool_names
  manifest_post_init m = do
    refuse_if (lists_none m.partitions) (value_error "partitions")
    refuse_if (repeats m.partitions) (value_error "partitions")
    refuse_if (not m.acquired_at.is_aware) (value_error "acquired_at")
    refuse_if (not (m.manifest_version == bronze_manifest_version)) (value_error "manifest_version")
    url ← sanitize_url h m.source_url
    refuse_if (not (str_eq m.source_url url)) (value_error "source_url")
    require_tool_names m.tool_versions

  -- the artifact of `from_acquisition`
  abbrev stored_from : AcquiredArtifact → StoredArtifact
  stored_from acquired = record {
    locator = acquired.locator;
    sha256 = acquired.sha256;
    byte_count = pos acquired.byte_count;
    media_type = media_type h acquired.response;
  }

  abbrev manifest_from :
      AcquiredArtifact → List ReleasePartition → Instant → List (String × String) → ReleaseManifest
  manifest_from acquired partitions acquired_at tool_versions = record {
    partitions = partitions;
    artifact = stored_from acquired;
    acquired_at = acquired_at;
    source_url = acquired.final_url;
    response = acquired.response;
    redirects = acquired.redirects;
    manifest_version = bronze_manifest_version;
    tool_versions = tool_versions;
  }

  unfoldable pub from_acquisition :
      AcquiredArtifact
      → List ReleasePartition
      → Instant
      → List (String × String)
      → Except Raised ReleaseManifest
  unfolding stored_artifact_post_init manifest_post_init media_type
  from_acquisition acquired partitions acquired_at tool_versions = do
    stored_artifact_post_init (stored_from acquired)
    manifest_post_init (manifest_from acquired partitions acquired_at tool_versions)
    ok (manifest_from acquired partitions acquired_at tool_versions)
