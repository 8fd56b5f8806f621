-- ===== src/Bronze/Published.antt =====
-- An acquisition's use of S3ArtifactSink, from `__enter__` to `commit`.
use mathlib.Core.Path.{subst}
use property_tax_data_platfo.Base.{
  ℕ, ◌≤◌, String, Bool, true, false, Option, none, some, List, [], ◌∷◌, ◌++◌, ◌≡◌, refl, sym, ap,
  ◌∙◌, ok, ltb, ltb-false→le, ◌<◌, length, arith, if◌then◌else◌,
}
use property_tax_data_platfo.Bronze.Keys.{append, slashed}
use property_tax_data_platfo.Bronze.Sink.{
  complete_upload, delete_object, Part, Calls, Sink, Setting, SinkReply, with_upload, then_next,
  call_client, settle_copy, copy_final, complete_staging, commit_sink, flush_rest, final_key,
  fresh_sink, enter_sink, new_sink, minimum_part_bytes, create_upload,
}
use property_tax_data_platfo.Bronze.Parts.{
  uploaded, listed, Numbered, AllButLastSized, concat, same, then_next-ok, call_client-ok,
  write_all, write_all-IsWritten, flush_rest-IsFlushed, IsBuffered,
}
use property_tax_data_platfo.Bronze.Copies.{IsCopied, copy_final-Finished}

last-sink : {a b : String} {s t : Sink} → ◌≡◌ {A = SinkReply String} (ok a, s) (ok b, t) → s ≡ t
last-sink e = cc

last-locator : {a b : String} {s t : Sink} → ◌≡◌ {A = SinkReply String} (ok a, s) (ok b, t) → a ≡ b
last-locator e = cc

module _ (c : Setting) where
  -- What a commit that returned published: the calls end in the completion of the staging upload,
  -- with all of its parts, then the copy, then the removal of the staged object.
  pub record IsPublished (bytes : List ℕ) (s : Sink) (locator : String) : Type 0 where
    pub upload : Option String
    pub completed : String
    pub deleted : String
    pub before : Calls
    pub copying : Calls
    pub ends :
        s.calls
        ≡ (delete_object c.staging_key, some deleted) ∷ copying
          ++ (complete_upload c.staging_key upload (listed before) none, some completed) ∷ before
    pub numbered : Numbered c.staging_key upload before
    pub whole : uploaded before ≡ bytes
    pub sized : AllButLastSized c.part_bytes before
    pub copied :
        IsCopied c.staging_key (slashed c.artifact_prefix (c.sha256 bytes)) (length bytes) copying
    pub located :
        locator ≡ append "s3://" (slashed c.bucket (slashed c.artifact_prefix (c.sha256 bytes)))

  commit_sink-IsPublished :
      (s s' : Sink) (locator : String)
      → IsBuffered c s
      → length s.buffer < c.part_bytes
      → commit_sink c s ≡ (ok locator, s')
      → IsPublished s.hashed s' locator
  unfolding commit_sink final_key
  commit_sink-IsPublished s s' locator b rests returns =
      let (u, s1, flushes, r1) = then_next-ok (flush_rest c s) _ returns in
      let (id, s2, completes, r2) = then_next-ok (call_client c (complete_staging c s1) s1) _ r1 in
      let (v, s3, copies, r3) =
        then_next-ok (settle_copy (copy_final c (with_upload none s2))) _ r2 in
      let (tag, s4, deletes, r4) =
        then_next-ok (call_client c (delete_object c.staging_key) s3) _ r3 in
      let f = flush_rest-IsFlushed c s s1 b rests flushes in
      let is2 = call_client-ok c (complete_staging c s1) s1 s2 id completes in
      let is4 = call_client-ok c (delete_object c.staging_key) s3 s4 tag deletes in
      let g = copy_final-Finished c (with_upload none s2) s3 copies in
      let calls2 : s2.calls
          ≡ (complete_upload c.staging_key s1.upload_id (listed s1.calls) none, some id)
            ∷ s1.calls =
        sym (ap (λ t. t.calls) is2)
        ∙ ap
            (λ (parts : List Part).
              (complete_upload c.staging_key s1.upload_id parts none, some id) ∷ s1.calls)
            (sym f.lists) in
      let hash2 : s2.hashed ≡ s.hashed = sym (ap (λ t. t.hashed) is2) ∙ f.hashes in
      let size2 : s2.written ≡ length s.hashed =
        sym (ap (λ t. t.written) is2) ∙ f.counts ∙ ap (λ (l : List ℕ). length l) f.hashes in
      let hash4 : s4.hashed ≡ s.hashed = sym (ap (λ t. t.hashed) is4) ∙ g.hashes ∙ hash2 in
      let calls3 = g.grows ∙ ap (λ l. g.copying ++ l) calls2 in
      subst (λ t. IsPublished s.hashed t locator) (last-sink r4)
        (record {
          upload = s1.upload_id;
          completed = id;
          deleted = tag;
          before = s1.calls;
          copying = g.copying;
          ends =
              sym (ap (λ t. t.calls) is4)
              ∙ ap (λ (l : Calls). (delete_object c.staging_key, some tag) ∷ l) calls3;
          numbered = f.numbered;
          whole = f.whole;
          sized = f.sized;
          copied =
              subst
                (λ size.
                  IsCopied c.staging_key (slashed c.artifact_prefix (c.sha256 s.hashed)) size
                    g.copying)
                size2
                (subst
                  (λ bytes.
                    IsCopied c.staging_key (slashed c.artifact_prefix (c.sha256 bytes)) s2.written
                      g.copying)
                  hash2 g.copied);
          located =
              sym (last-locator r4)
              ∙ ap
                  (λ bytes.
                    append "s3://" (slashed c.bucket (slashed c.artifact_prefix (c.sha256 bytes))))
                  hash4;
        })

  -- A sink that is entered, given chunks and committed.
  unfoldable pub publish_artifact : List (List ℕ) → SinkReply String
  unfolding enter_sink write_all commit_sink
  publish_artifact chunks =
      then_next (enter_sink c fresh_sink)
        (λ _ s. then_next (write_all c chunks s) (λ _ s. commit_sink c s))

  entered-IsBuffered :
      (s : Sink)
      → enter_sink c fresh_sink ≡ (ok tt, s)
      → IsBuffered c s × (s.buffer ≡ []) × (s.hashed ≡ [])
  unfolding enter_sink
  entered-IsBuffered s enters =
      let (id, s1, creates, r) =
        then_next-ok (call_client c (create_upload c.staging_key) fresh_sink) _ enters in
      subst (λ t. IsBuffered c t × (t.buffer ≡ []) × (t.hashed ≡ []))
        (ap (with_upload (some id))
            (call_client-ok c (create_upload c.staging_key) fresh_sink s1 id creates)
          ∙ same _ s r)
        (
          record { whole = refl; counts = refl; lists = refl; numbered = tt; sized = tt },
          refl,
          refl,
        )

  positive-part : new_sink c.part_bytes ≡ some fresh_sink → 1 ≤ c.part_bytes
  unfolding new_sink
  positive-part made = split (ltb c.part_bytes minimum_part_bytes) refl made
    where
      split :
          (small : Bool)
          → ltb c.part_bytes minimum_part_bytes ≡ small
          → (if small then none else some fresh_sink) ≡ some fresh_sink
          → 1 ≤ c.part_bytes
      split true e made' = absurd cc
      split false e made' = omega (arith, ltb-false→le _ _ e)

  -- If a sink whose part size S3ArtifactSink accepts is entered, given chunks and committed, and all
  -- of these return, then the parts that it uploaded to the staging key are numbered from 1, hold
  -- exactly the bytes of the chunks in their order, and all but the last have the part size and the
  -- last at most that; behind them come, in this order, the completion of their upload with all of
  -- them listed, the copy from the staging key to the key made of the digest of these bytes, and the
  -- removal of the staged object; the copy is one conditional call where the bytes are few enough,
  -- and otherwise, unless a call of it was refused, the creation of an upload at that key, copies of
  -- ranges to it, numbered from 1, and its conditional completion with all of them listed; and the
  -- locator names that key.
  pub publish_artifact-IsPublished :
      (chunks : List (List ℕ)) (locator : String) (s : Sink)
      → new_sink c.part_bytes ≡ some fresh_sink
      → publish_artifact chunks ≡ (ok locator, s)
      → IsPublished (concat chunks) s locator
  unfolding publish_artifact
  publish_artifact-IsPublished chunks locator s made returns =
      let (u, s1, enters, r1) = then_next-ok (enter_sink c fresh_sink) _ returns in
      let (v, s2, writes, r2) = then_next-ok (write_all c chunks s1) _ r1 in
      let (b, empty, unhashed) = entered-IsBuffered s1 enters in
      let (b', hashes, rests) =
        write_all-IsWritten c chunks s1 s2 (positive-part made) b
          (omega (arith, positive-part made, ap length empty)) writes in
      subst (λ bytes. IsPublished bytes s locator) (hashes ∙ ap (λ l. l ++ concat chunks) unhashed)
        (commit_sink-IsPublished s2 s locator b' rests r2)
