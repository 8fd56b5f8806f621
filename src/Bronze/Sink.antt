-- ===== src/Bronze/Sink.antt =====
-- s3.py: S3ArtifactSink, with the calls that it makes, the latest in front, and what each answered
-- where it returned.
use property_tax_data_platfo.Base.{
  ℕ, ◌+◌, ◌-◌, zero, suc, min, String, Bool, true, false, not, ◌||◌, Option, none, some, List, [],
  ◌∷◌, ◌++◌, Except, ok, err, if◌then◌else◌, leb, ltb, length, take, drop,
}
use property_tax_data_platfo.Bronze.Keys.{append, slashed}
use property_tax_data_platfo.Bronze.Store.{Fault, client, interrupted, is_precondition_failure}

abbrev pub minimum_part_bytes : ℕ
minimum_part_bytes = 5242880

abbrev pub max_single_copy_bytes : ℕ
max_single_copy_bytes = 5000000000

abbrev pub multipart_copy_part_bytes : ℕ
multipart_copy_part_bytes = 536870912

-- an entry of `Parts`: its tag and its number
abbrev pub Part : Type 0
Part = String × ℕ

-- The calls with their arguments but the bucket, which is always the sink's: the key first, then
-- the upload's id; then the part's number and body, or the parts and `IfNoneMatch`, or the key of
-- `CopySource` and `IfNoneMatch`, or the part's number, that key and the range's first and last.
pub data S3Call : Type 0 where
  create_upload : String → S3Call
  upload_part : String → Option String → ℕ → List ℕ → S3Call
  complete_upload : String → Option String → List Part → Option String → S3Call
  copy_object : String → String → Option String → S3Call
  copy_part : String → Option String → ℕ → String → ℕ → ℕ → S3Call
  abort_upload : String → Option String → S3Call
  delete_object : String → S3Call

abbrev pub Calls : Type 0
Calls = List (S3Call × Option String)

-- The sink's attributes, and its calls.
pub record Sink : Type 0 where
  pub buffer : List ℕ
  pub parts : List Part
  pub upload_id : Option String
  pub hashed : List ℕ
  pub written : ℕ
  pub copy_upload : Option (String × String)
  pub calls : Calls

-- What the sink is made with: the client, which is told the number of the call and answers an
-- upload's id or a part's tag; the hash; and the keys.
pub record Setting : Type 0 where
  pub reply : ℕ → S3Call → Except Fault String
  pub sha256 : List ℕ → String
  pub bucket : String
  pub part_bytes : ℕ
  pub artifact_prefix : String
  pub staging_key : String

abbrev pub SinkReply : Type 0 → Type 0
SinkReply A = Except Fault A × Sink

-- `S3ArtifactSink(…)`; a part size that is too small raises.
abbrev pub fresh_sink : Sink
fresh_sink = record {
  buffer = [];
  parts = [];
  upload_id = none;
  hashed = [];
  written = 0;
  copy_upload = none;
  calls = [];
}

unfoldable pub new_sink : ℕ → Option Sink
new_sink part_bytes = if ltb part_bytes minimum_part_bytes then none else some fresh_sink

abbrev pub answer_of : Except Fault String → Option String
answer_of (ok answer) = some answer
answer_of (err _) = none

abbrev pub noted : S3Call → Option String → Sink → Sink
noted call answer s = record s { calls = (call, answer) ∷ s.calls }

abbrev pub with_buffer : List ℕ → Sink → Sink
with_buffer bytes s = record s { buffer = bytes }

abbrev pub with_upload : Option String → Sink → Sink
with_upload id s = record s { upload_id = id }

abbrev pub with_copy : Option (String × String) → Sink → Sink
with_copy copy s = record s { copy_upload = copy }

abbrev pub part_number : List Part → ℕ
part_number parts = suc (length parts)

abbrev pub with_part : String → Sink → Sink
with_part tag s = record s { parts = s.parts ++ (tag, part_number s.parts) ∷ [] }

abbrev pub taken : List ℕ → Sink → Sink
taken chunk s = record s {
  hashed = s.hashed ++ chunk;
  written = s.written + length chunk;
  buffer = s.buffer ++ chunk;
}

-- a step, and what follows it where it returned
abbrev pub then_next :
    {A : Type 0} {B : Type 0} → SinkReply A → (A → Sink → SinkReply B) → SinkReply B
then_next (err fault, s) next = (err fault, s)
then_next (ok value, s) next = next value s

-- a round of a loop, or the end of it
abbrev pub if_full : Bool → SinkReply (Unit {0}) → Sink → SinkReply (Unit {0})
if_full true flushed s = flushed
if_full false flushed s = (ok tt, s)

abbrev pub if_more : {A : Type 0} → Bool → SinkReply A → SinkReply A → SinkReply A
if_more true more done = more
if_more false more done = done

-- the `except` around the copy in `commit`
unfoldable pub settle_copy : SinkReply (Unit {0}) → SinkReply (Unit {0})
unfolding is_precondition_failure
settle_copy (ok _, s) = (ok tt, s)
settle_copy (err interrupted, s) = (err interrupted, s)
settle_copy (err (client e), s) = (if is_precondition_failure e then ok tt else err (client e), s)

abbrev pub is_zero : ℕ → Bool
is_zero zero = true
is_zero (suc _) = false

module _ (c : Setting) where
  unfoldable pub call_client : S3Call → Sink → SinkReply String
  call_client call s =
      let reply = c.reply (length s.calls) call in (reply, noted call (answer_of reply) s)

  -- `__enter__`
  unfoldable pub enter_sink : Sink → SinkReply (Unit {0})
  unfolding call_client
  enter_sink s =
      then_next (call_client (create_upload c.staging_key) s)
        (λ id s. (ok tt, with_upload (some id) s))

  unfoldable pub flush : ℕ → Sink → SinkReply (Unit {0})
  unfolding call_client
  flush size s =
      then_next
        (call_client
          (upload_part c.staging_key s.upload_id (part_number s.parts) (take size s.buffer))
          (with_buffer (drop size s.buffer) s))
        (λ tag s. (ok tt, with_part tag s))

  -- the loop of `write`
  unfoldable pub flush_while : ℕ → Sink → SinkReply (Unit {0})
  unfolding flush
  flush_while zero s = (ok tt, s)
  flush_while (suc fuel) s =
      if_full (leb c.part_bytes (length s.buffer))
        (then_next (flush c.part_bytes s) (λ _ s. flush_while fuel s)) s

  -- `write`: as many rounds as there are bytes are enough
  unfoldable pub write_chunk : List ℕ → Sink → SinkReply (Unit {0})
  unfolding flush_while
  write_chunk chunk s = flush_while (length (s.buffer ++ chunk)) (taken chunk s)

  -- `final_key`
  unfoldable pub final_key : Sink → String
  final_key s = slashed c.artifact_prefix (c.sha256 s.hashed)

  -- the first flush of `commit`
  unfoldable pub flush_rest : Sink → SinkReply (Unit {0})
  unfolding flush
  flush_rest s =
      if_full (not (is_zero (length s.buffer)) || is_zero (length s.parts))
        (flush (length s.buffer) s) s

  -- the end of the range that starts here
  abbrev pub range_end : ℕ → Sink → ℕ
  range_end start s = min (start + multipart_copy_part_bytes) s.written

  -- the loop of `_copy_in_parts`
  unfoldable pub copy_parts : ℕ → String → String → List Part → ℕ → Sink → SinkReply (List Part)
  unfolding call_client
  copy_parts zero key id parts start s = (ok parts, s)
  copy_parts (suc fuel) key id parts start s =
      if_more (ltb start s.written)
        (then_next
          (call_client
            (copy_part key (some id) (part_number parts) c.staging_key start
              (range_end start s - 1))
            s)
          (λ tag s'.
            copy_parts fuel key id (parts ++ (tag, part_number parts) ∷ []) (range_end start s) s'))
        (ok parts, s)

  -- the `except` of `_copy_in_parts`, and its last line
  unfoldable pub settle_parts : String → String → SinkReply (Unit {0}) → SinkReply (Unit {0})
  unfolding call_client
  settle_parts key id (ok _, s) = (ok tt, with_copy none s)
  settle_parts key id (err interrupted, s) = (err interrupted, s)
  settle_parts key id (err (client e), s) =
      then_next (call_client (abort_upload key (some id)) s)
        (λ _ s. (err (client e), with_copy none s))

  -- the last call in its `try`
  unfoldable pub complete_copy : String → String → List Part → Sink → SinkReply (Unit {0})
  unfolding call_client
  complete_copy key id parts s =
      then_next (call_client (complete_upload key (some id) parts (some "*")) s) (λ _ s. (ok tt, s))

  -- `_copy_in_parts`: as many rounds as there are bytes are enough
  unfoldable pub copy_in_parts : String → Sink → SinkReply (Unit {0})
  unfolding call_client copy_parts settle_parts complete_copy
  copy_in_parts key s = then_next (call_client (create_upload key) s) (λ id s. settle_parts key id (
      then_next (copy_parts s.written key id [] 0 (with_copy (some (key, id)) s))
        (complete_copy key id)))

  -- the call for an object that one copy can hold
  abbrev pub copy_once : String → S3Call
  copy_once key = copy_object key c.staging_key (some "*")

  unfoldable pub copy_final : Sink → SinkReply (Unit {0})
  unfolding call_client copy_in_parts final_key
  copy_final s =
      if leb s.written max_single_copy_bytes
      then then_next (call_client (copy_once (final_key s)) s) (λ _ s. (ok tt, s))
      else copy_in_parts (final_key s) s

  -- the call that completes the staging upload
  abbrev pub complete_staging : Sink → S3Call
  complete_staging s = complete_upload c.staging_key s.upload_id s.parts none

  unfoldable pub commit_sink : Sink → SinkReply String
  unfolding flush_rest call_client copy_final settle_copy final_key
  commit_sink s = then_next (flush_rest s) (λ _ s.
      then_next (call_client (complete_staging s) s) (λ _ s.
        then_next (settle_copy (copy_final (with_upload none s))) (λ _ s.
          then_next (call_client (delete_object c.staging_key) s)
            (λ _ s. (ok (append "s3://" (slashed c.bucket (final_key s))), s)))))

  -- the first upload that `abort` discards
  abbrev pub abort_staging : Option String → Sink → SinkReply (Unit {0})
  abort_staging none s = (ok tt, s)
  abort_staging (some id) s =
      then_next (call_client (abort_upload c.staging_key (some id)) s)
        (λ _ s. (ok tt, with_upload none s))

  -- the second
  abbrev pub abort_copy : Option (String × String) → Sink → SinkReply (Unit {0})
  abort_copy none s = (ok tt, s)
  abort_copy (some (key, id)) s =
      then_next (call_client (abort_upload key (some id)) (with_copy none s)) (λ _ s. (ok tt, s))

  unfoldable pub abort_sink : Sink → SinkReply (Unit {0})
  unfolding call_client
  abort_sink s = then_next (abort_staging s.upload_id (with_buffer [] s)) (λ _ s.
      then_next (abort_copy s.copy_upload s)
        (λ _ s. then_next (call_client (delete_object c.staging_key) s) (λ _ s. (ok tt, s))))
