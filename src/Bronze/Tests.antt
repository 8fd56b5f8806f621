-- ===== src/Bronze/Tests.antt =====
-- Runs on a small bucket, and the theorems at them.
use property_tax_data_platfo.Base.{
  String, Bool, true, false, Option, none, some, [], ◌∷◌, ℤ, pos, ◌≡◌, ◌≢◌, refl, ap, Except, ok,
  err, str_eq, eq_iff, if◌then◌else◌,
}
use property_tax_data_platfo.Bronze.Keys.{ReleasePartition, partition_ref_key, referenced}
use property_tax_data_platfo.Bronze.Manifest.{diverged}
use property_tax_data_platfo.Bronze.Store.{
  is_precondition_failure, client_error_code, Fault, client, S3, Listing, last_page, page, classify,
  referenced_checksums, read_listing, note_entries, judge_checksums,
}
use property_tax_data_platfo.Bronze.Open.{is_open}
use property_tax_data_platfo.Bronze.Cleared.{publish_artifact-abort}
use property_tax_data_platfo.Bronze.Sink.{
  S3Call, SinkReply, copy_object, abort_sink, Sink, Setting, SinkReply, copy_in_parts, copy_parts,
  settle_parts, complete_copy, call_client, fresh_sink, new_sink, enter_sink, flush, flush_while,
  write_chunk, flush_rest, copy_final, settle_copy, final_key, commit_sink,
}
use property_tax_data_platfo.Bronze.Reads.{referenced-partition_ref_key}
use property_tax_data_platfo.Bronze.Immutable.{
  Documented, referencing, Safe, perform_operations, perform_operations-Safe,
}
use property_tax_data_platfo.Bronze.Classified.{
  IsComplete, Judged, Refers, keys_of, listing_of, classify-Judged,
}
use property_tax_data_platfo.Bronze.Parts.{write_all}
use property_tax_data_platfo.Bronze.Copied.{Tiles, copy_in_parts-Tiles}
use property_tax_data_platfo.Bronze.Published.{
  IsPublished, publish_artifact, publish_artifact-IsPublished,
}

abbrev dallas : ReleasePartition
dallas = record { jurisdiction_code = "tx-dallas"; tax_year = pos 2025; release_kind = "certified" }

abbrev year : ℤ → String
year n = "2025"

referenced-partition_ref_key_example :
    referenced (partition_ref_key year dallas "0a1b") ≡ some "0a1b"
referenced-partition_ref_key_example = referenced-partition_ref_key year dallas "0a1b" refl

abbrev Bucket : Type 0
Bucket = String → Option String

abbrev taken_already : Fault
taken_already = client (record { code = some "PreconditionFailed"; response = none })

abbrev absent : Fault
absent = client (record { code = some "404"; response = none })

abbrev put_at :
    Option String → Option String → Bucket → String → String → Except Fault (Unit {0}) × Bucket
put_at (some condition) (some old) o key body = (err taken_already, o)
put_at none (some old) o key body = (ok tt, λ at. if str_eq at key then some body else o at)
put_at condition none o key body = (ok tt, λ at. if str_eq at key then some body else o at)

abbrev head_at : Option String → Except Fault (Option ℤ)
head_at none = err absent
head_at (some body) = ok none

abbrev two_pages : Listing
two_pages =
    page ("bronze/releases/tx-dallas/2025/certified/0a.ref.json" ∷ [])
      (last_page ("bronze/releases/tx-dallas/2025/certified/0b.ref.json" ∷ []))

abbrev small : S3
small = record {
  Objects = Bucket;
  bucket = "b";
  head_object = λ o key. head_at (o key);
  list_objects = λ o prefix. two_pages;
  put_object = λ o condition key body. put_at condition (o key) o key body;
  str_of = year;
  dumps_reference = λ reference. "{}";
  dumps_manifest = λ manifest. "{}";
}

abbrev look : Bucket → String → Option String
look o key = o key

put_at-keeps :
    (o : Bucket) (key body content : String) (old : Option String)
    → o key ≡ old
    → o key ≡ some content
    → (put_at (some "*") old o key body).1 key ≡ some content
put_at-keeps o key body content (some b) e there = there
put_at-keeps o key body content none e there = absurd (cc (e, there))

elsewhere :
    (o : Bucket) (key body at : String)
    → at ≢ key
    → (if str_eq at key then some body else o at) ≡ o at
elsewhere o key body at other = split (str_eq at key) refl
  where
    split : (same : Bool) → str_eq at key ≡ same → (if same then some body else o at) ≡ o at
    split true same = absurd (other ((eq_iff at key).0 same))
    split false differs = refl

put_at-elsewhere :
    (o : Bucket) (condition : Option String) (key body at : String) (old : Option String)
    → at ≢ key
    → (put_at condition old o key body).1 at ≡ o at
put_at-elsewhere o (some condition) key body at (some b) other = refl
put_at-elsewhere o none key body at (some b) other = elsewhere o key body at other
put_at-elsewhere o (some condition) key body at none other = elsewhere o key body at other
put_at-elsewhere o none key body at none other = elsewhere o key body at other

put_at-stores :
    (o : Bucket) (condition : Option String) (key body : String) (old : Option String)
    → (put_at condition old o key body).0 ≡ ok tt
    → (put_at condition old o key body).1 key ≡ some body
put_at-stores o (some condition) key body (some b) returns = absurd cc
put_at-stores o none key body (some b) returns =
    ap (λ b. if b then some body else o key) ((eq_iff key key).1 refl)
put_at-stores o (some condition) key body none returns =
    ap (λ b. if b then some body else o key) ((eq_iff key key).1 refl)
put_at-stores o none key body none returns =
    ap (λ b. if b then some body else o key) ((eq_iff key key).1 refl)

head_at-finds :
    (old : Option String) (length : Option ℤ)
    → head_at old ≡ ok length
    → (content : String) × (old ≡ some content)
head_at-finds none length finds = absurd cc
head_at-finds (some body) length finds = (body, refl)

small-Documented : Documented small look
small-Documented = record {
  put_keeps = λ o key body content there. put_at-keeps o key body content (o key) refl there;
  put_elsewhere =
      λ o condition key body at other. put_at-elsewhere o condition key body at (o key) other;
  put_stores = λ o condition key body returns. put_at-stores o condition key body (o key) returns;
  head_finds = λ o key length finds. head_at-finds (o key) length finds;
}

-- the artifact alone
abbrev one_artifact : Bucket
one_artifact key = if str_eq key "bronze/artifacts/0a" then some "bytes" else none

perform_operations-Safe_example :
    Safe small look small-Documented one_artifact (
      perform_operations small
        (referencing dallas "0a" ∷ referencing dallas "0b" ∷ [])
        one_artifact)
perform_operations-Safe_example =
    perform_operations-Safe small look small-Documented
      (referencing dallas "0a" ∷ referencing dallas "0b" ∷ []) one_artifact (refl, (refl, tt))

small-diverged : classify small one_artifact dallas "0a" ≡ ok diverged
unfolding classify referenced_checksums read_listing note_entries referenced judge_checksums
small-diverged = refl

classify-Judged_example :
    IsComplete (listing_of small one_artifact dallas)
    × Judged (Refers (keys_of (listing_of small one_artifact dallas))) "0a" diverged
classify-Judged_example = classify-Judged small one_artifact dallas "0a" diverged small-diverged

abbrev setting : Setting
setting = record {
  reply = λ n call. ok "1";
  sha256 = λ bytes. "0a";
  bucket = "b";
  part_bytes = 5242880;
  artifact_prefix = "bronze/artifacts";
  staging_key = "bronze/staging/1";
}

-- A sink that was given three bytes
abbrev given : Sink
given = record fresh_sink { written = 3 }

unfoldable after_copy : SinkReply (Unit {0})
unfolding copy_in_parts copy_parts settle_parts complete_copy call_client
after_copy = copy_in_parts setting "bronze/artifacts/0a" given

copied : copy_in_parts setting "bronze/artifacts/0a" given ≡ (ok tt, after_copy.1)
unfolding after_copy
copied = refl

copy_in_parts-Tiles_example : Tiles (after_copy.1).calls 3
copy_in_parts-Tiles_example =
    copy_in_parts-Tiles setting "bronze/artifacts/0a" given (after_copy.1) refl copied

unfoldable after_publish : SinkReply String
unfolding publish_artifact enter_sink call_client write_all write_chunk flush_while flush
    commit_sink flush_rest copy_final settle_copy final_key
after_publish = publish_artifact setting ((1 ∷ 2 ∷ []) ∷ (3 ∷ []) ∷ [])

published :
    publish_artifact setting ((1 ∷ 2 ∷ []) ∷ (3 ∷ []) ∷ [])
    ≡ (ok "s3://b/bronze/artifacts/0a", after_publish.1)
unfolding after_publish
published = refl

made : new_sink 5242880 ≡ some fresh_sink
unfolding new_sink
made = refl

publish_artifact-IsPublished_example :
    IsPublished setting (1 ∷ 2 ∷ 3 ∷ []) (after_publish.1) "s3://b/bronze/artifacts/0a"
publish_artifact-IsPublished_example =
    publish_artifact-IsPublished setting ((1 ∷ 2 ∷ []) ∷ (3 ∷ []) ∷ []) "s3://b/bronze/artifacts/0a"
      (after_publish.1) made published

-- The copy is refused as not authorized.
abbrev refuse_copy : S3Call → Except Fault String
refuse_copy (copy_object key source condition) =
    err (client (record { code = some "AccessDenied"; response = none }))
refuse_copy call = ok "1"

abbrev refusing : Setting
refusing = record setting { reply = λ n call. refuse_copy call }

unfoldable after_refusal : SinkReply (Unit {0})
unfolding publish_artifact enter_sink call_client write_all write_chunk flush_while flush
    commit_sink flush_rest copy_final settle_copy is_precondition_failure client_error_code
    final_key abort_sink
after_refusal = abort_sink refusing (publish_artifact refusing ((1 ∷ []) ∷ [])).1

aborted :
    abort_sink refusing (publish_artifact refusing ((1 ∷ []) ∷ [])).1 ≡ (ok tt, after_refusal.1)
unfolding after_refusal
aborted = refl

publish_artifact-abort_example : is_open "bronze/staging/1" "1" (after_refusal.1).calls ≡ false
publish_artifact-abort_example =
    publish_artifact-abort refusing ((1 ∷ []) ∷ []) (after_refusal.1) aborted "bronze/staging/1" "1"
