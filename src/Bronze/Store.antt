-- ===== src/Bronze/Store.antt =====
-- s3.py: S3BronzeStore, on the objects of a bucket. S3 itself is a parameter.
use property_tax_data_platfo.Base.{
  ℕ, String, Bool, false, not, ◌||◌, ◌==◌, Option, none, some, List, [], ◌∷◌, ℤ, if◌then◌else◌,
  str_eq, int_eq, Except, Check, ok, err, refuse_if, ◌>>◌, ◌>>=◌, any, opt_str_eq,
}
use property_tax_data_platfo.Bronze.Keys.{
  ReleasePartition, append, slashed, artifact_key, manifest_key, partition_prefix,
  partition_ref_key, referenced,
}
use property_tax_data_platfo.Bronze.Manifest.{
  BronzeConflict, new, identical, diverged, StoredArtifact, ReleaseManifest,
}

-- What a client's exception carries: its own `code`, and its `response` where that is a dict.
pub record ErrorResponse : Type 0 where
  pub error_code : Option String
  pub http_status : Option ℕ

pub record ClientError : Type 0 where
  pub code : Option String
  pub response : Option ErrorResponse

-- What a call of the client raises: an `Exception`, or what is none.
pub data Fault : Type 0 where
  client : ClientError → Fault
  interrupted : Fault

pub data StoreError : Type 0 where
  faulted : Fault → StoreError
  artifact_mismatch missing_artifact truncated_listing : StoreError

abbrev response_code : Option ErrorResponse → Option String
response_code none = none
response_code (some response) = response.error_code

abbrev own_or : Option String → Option String → Option String
own_or none other = other
own_or (some code) other = some code

-- `_error_code`
unfoldable pub client_error_code : ClientError → Option String
client_error_code e = own_or e.code (response_code e.response)

-- `code in codes`
abbrev is_one_of : Option String → List String → Bool
is_one_of code codes = any (λ c. opt_str_eq code (some c)) codes

abbrev pub absent_codes : List String
absent_codes = "404" ∷ "NoSuchKey" ∷ "NotFound" ∷ []

abbrev pub precondition_codes : List String
precondition_codes = "PreconditionFailed" ∷ "ConditionalRequestConflict" ∷ []

abbrev answers_404 : Option ErrorResponse → Bool
answers_404 none = false
answers_404 (some response) = elim (response.http_status) [
  | none ↦ false
  | some status ↦ status == 404
]

unfoldable pub is_absent : ClientError → Bool
unfolding client_error_code
is_absent e = is_one_of (client_error_code e) absent_codes || answers_404 e.response

unfoldable pub is_precondition_failure : ClientError → Bool
unfolding client_error_code
is_precondition_failure e = is_one_of (client_error_code e) precondition_codes

-- The pages of one listing: a last page, a page with a token for the rest, a page that is truncated
-- without one, or a call that raised.
pub data Listing : Type 0 where
  last_page : List String → Listing
  page : List String → Listing → Listing
  cut_short : List String → Listing
  unlisted : Fault → Listing

-- `json.dumps` with sorted keys is given the fields of a reference.
pub record Reference : Type 0 where
  pub artifact_sha256 : String
  pub artifact_locator : String
  pub partition : ReleasePartition

-- The client, on the objects of one bucket: `head_object` with the length that it reports,
-- `list_objects_v2`, and `put_object` with its `IfNoneMatch`, where it is given one, its key and
-- its body.
pub record S3 : Type 1 where
  pub Objects : Type 0
  pub bucket : String
  pub head_object : Objects → String → Except Fault (Option ℤ)
  pub list_objects : Objects → String → Listing
  pub put_object : Objects → Option String → String → String → Except Fault (Unit {0}) × Objects
  pub str_of : ℤ → String
  pub dumps_reference : Reference → String
  pub dumps_manifest : ReleaseManifest → String

-- `seen.add(checksum)`
abbrev pub add_checksum : String → List String → List String
add_checksum checksum seen = if any (str_eq checksum) seen then seen else checksum ∷ seen

abbrev pub note_entry : Option String → List String → List String
note_entry none seen = seen
note_entry (some checksum) seen = add_checksum checksum seen

-- the loop over one page's entries
unfoldable pub note_entries : List String → List String → List String
unfolding referenced
note_entries [] seen = seen
note_entries (key ∷ keys) seen = note_entries keys (note_entry (referenced key) seen)

-- the loop of `referenced_checksums`
unfoldable pub read_listing : Listing → List String → Except StoreError (List String)
unfolding note_entries
read_listing (last_page keys) seen = ok (note_entries keys seen)
read_listing (page keys rest) seen = read_listing rest (note_entries keys seen)
read_listing (cut_short keys) seen = err truncated_listing
read_listing (unlisted fault) seen = err (faulted fault)

-- `classify`, on the checksums that are referenced
unfoldable pub judge_checksums : List String → String → BronzeConflict
judge_checksums [] sha256 = new
judge_checksums (one ∷ []) sha256 = if str_eq sha256 one then identical else diverged
judge_checksums (one ∷ another ∷ rest) sha256 = diverged

module _ (s : S3) where
  abbrev pub Step : Type 0
  Step = Except StoreError (Unit {0}) × s.Objects

  unfoldable pub referenced_checksums :
      s.Objects → ReleasePartition → Except StoreError (List String)
  unfolding read_listing partition_prefix
  referenced_checksums o p = read_listing (s.list_objects o (partition_prefix s.str_of p)) []

  unfoldable pub classify : s.Objects → ReleasePartition → String → Except StoreError BronzeConflict
  unfolding referenced_checksums judge_checksums
  classify o p sha256 = do seen ← referenced_checksums o p; ok (judge_checksums seen sha256)

  -- `f"s3://{bucket}/{key}"`
  unfoldable pub locator_of : String → String
  locator_of key = append "s3://" (slashed s.bucket key)

  unfoldable pub reference_body : ReleasePartition → String → String
  unfolding locator_of artifact_key
  reference_body p sha256 = s.dumps_reference (record {
    artifact_sha256 = sha256;
    artifact_locator = locator_of (artifact_key sha256);
    partition = p;
  })

  abbrev mismatched_length : Option ℤ → ℤ → Bool
  mismatched_length none count = false
  mismatched_length (some stored) count = not (int_eq stored count)

  -- `_require_artifact` once the object is there
  unfoldable pub require_described : Option StoredArtifact → String → Option ℤ → Check StoreError
  unfolding locator_of artifact_key
  require_described none sha256 stored = ok tt
  require_described (some artifact) sha256 stored = do
    refuse_if (not (str_eq artifact.locator (locator_of (artifact_key sha256)))) artifact_mismatch
    refuse_if (mismatched_length stored artifact.byte_count) artifact_mismatch

  -- `_require_artifact`, with the reply of `head_object`
  unfoldable pub settle_head :
      Except Fault (Option ℤ) → Option StoredArtifact → String → Check StoreError
  unfolding require_described is_absent
  settle_head (ok stored) artifact sha256 = require_described artifact sha256 stored
  settle_head (err interrupted) artifact sha256 = err (faulted interrupted)
  settle_head (err (client e)) artifact sha256 =
      err (if is_absent e then missing_artifact else faulted (client e))

  unfoldable pub require_artifact : s.Objects → Option StoredArtifact → String → Check StoreError
  unfolding settle_head
  require_artifact o artifact sha256 =
      settle_head (s.head_object o (artifact_key sha256)) artifact sha256

  -- the `except` of `_put_if_absent`
  unfoldable pub settle_put : Except Fault (Unit {0}) → Check StoreError
  unfolding is_precondition_failure
  settle_put (ok _) = ok tt
  settle_put (err interrupted) = err (faulted interrupted)
  settle_put (err (client e)) =
      if is_precondition_failure e then ok tt else err (faulted (client e))

  unfoldable pub put_if_absent : s.Objects → String → String → Step
  unfolding settle_put
  put_if_absent o key body =
      let (reply, after) = s.put_object o (some "*") key body in (settle_put reply, after)

  -- a step, and what follows it
  abbrev pub next_step : Step → (s.Objects → Step) → Step
  next_step (err e, o) next = (err e, o)
  next_step (ok _, o) next = next o

  unfoldable pub put_references : List ReleasePartition → String → s.Objects → Step
  unfolding put_if_absent partition_ref_key reference_body
  put_references [] sha256 o = (ok tt, o)
  put_references (p ∷ ps) sha256 o =
      next_step (put_if_absent o (partition_ref_key s.str_of p sha256) (reference_body p sha256))
        (put_references ps sha256)

  abbrev pub if_artifact : Check StoreError → s.Objects → (s.Objects → Step) → Step
  if_artifact (err e) o next = (err e, o)
  if_artifact (ok _) o next = next o

  -- the locator that a step returns
  abbrev pub returning : String → Step → Except StoreError String × s.Objects
  returning locator (err e, o) = (err e, o)
  returning locator (ok _, o) = (ok locator, o)

  -- the calls of `record`
  unfoldable pub record_steps : ReleaseManifest → s.Objects → Step
  unfolding require_artifact put_if_absent put_references manifest_key
  record_steps m o = if_artifact (require_artifact o (some m.artifact) m.artifact.sha256) o (λ o.
      next_step (put_if_absent o (manifest_key m.artifact.sha256) (s.dumps_manifest m))
        (put_references m.partitions m.artifact.sha256))

  unfoldable pub record_manifest :
      ReleaseManifest → s.Objects → Except StoreError String × s.Objects
  unfolding record_steps locator_of manifest_key
  record_manifest m o = returning (locator_of (manifest_key m.artifact.sha256)) (record_steps m o)

  -- the calls of `reference_partition`
  unfoldable pub reference_steps : ReleasePartition → String → s.Objects → Step
  unfolding require_artifact put_if_absent partition_ref_key reference_body
  reference_steps p sha256 o =
      if_artifact (require_artifact o none sha256) o
        (λ o. put_if_absent o (partition_ref_key s.str_of p sha256) (reference_body p sha256))

  unfoldable pub reference_partition :
      ReleasePartition → String → s.Objects → Except StoreError String × s.Objects
  unfolding reference_steps locator_of partition_ref_key
  reference_partition p sha256 o =
      returning (locator_of (partition_ref_key s.str_of p sha256)) (reference_steps p sha256 o)
