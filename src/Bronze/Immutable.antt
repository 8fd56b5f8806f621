-- ===== src/Bronze/Immutable.antt =====
-- What a bucket holds after the operations of S3BronzeStore, on what S3 documents of its calls.
use mathlib.Core.Path.{subst}
use property_tax_data_platfo.Base.{
  String, true, false, Option, none, some, List, [], ◌∷◌, ℤ, ◌≡◌, ◌≢◌, All, refl, sym, ap, ◌∙◌, ◌⊎◌,
  inl, inr, Except, Check, ok, err, str_eq, eq_iff, Bool-cases,
}
use property_tax_data_platfo.Bronze.Keys.{
  ReleasePartition, has_slash, artifact_key, manifest_key, partition_ref_key, referenced,
}
use property_tax_data_platfo.Bronze.Manifest.{StoredArtifact, ReleaseManifest}
use property_tax_data_platfo.Bronze.Store.{
  Fault, client, StoreError, S3, Step, next_step, if_artifact, settle_head, require_artifact,
  put_if_absent, reference_body, put_references, record_steps, record_manifest, reference_steps,
  reference_partition, returning,
}
use property_tax_data_platfo.Bronze.Reads.{referenced-manifest_key, referenced-partition_ref_key}

-- What S3 documents: a put changes no other object than the one at its key, and not that one either
-- where there is one and `IfNoneMatch` is "*"; a put that returned stored its body; and the head of
-- a key is answered only where there is an object.
pub record Documented (s : S3) (stored : s.Objects → String → Option String) : Type 0 where
  pub put_keeps :
      (o : s.Objects) (key body content : String)
      → stored o key ≡ some content
      → stored (s.put_object o (some "*") key body).1 key ≡ some content
  pub put_elsewhere :
      (o : s.Objects) (condition : Option String) (key body at : String)
      → at ≢ key
      → stored (s.put_object o condition key body).1 at ≡ stored o at
  pub put_stores :
      (o : s.Objects) (condition : Option String) (key body : String)
      → (s.put_object o condition key body).0 ≡ ok tt
      → stored (s.put_object o condition key body).1 key ≡ some body
  pub head_finds :
      (o : s.Objects) (key : String) (length : Option ℤ)
      → s.head_object o key ≡ ok length
      → (content : String) × (stored o key ≡ some content)

-- One call of a store's operation.
pub data Operation : Type 0 where
  recording : ReleaseManifest → Operation
  referencing : ReleasePartition → String → Operation

module _ (s : S3) where
  -- What the operation leaves in the bucket, whether it returns or raises.
  unfoldable pub perform_operation : Operation → s.Objects → s.Objects
  unfolding record_manifest reference_partition
  perform_operation (recording m) o = (record_manifest s m o).1
  perform_operation (referencing p sha256) o = (reference_partition s p sha256 o).1

  unfoldable pub perform_operations : List Operation → s.Objects → s.Objects
  unfolding perform_operation
  perform_operations [] o = o
  perform_operations (operation ∷ operations) o =
      perform_operations operations (perform_operation operation o)

-- The checksum that an operation refers to holds no slash.
abbrev pub IsPlain : Operation → Type 0
IsPlain (recording m) = has_slash (m.artifact.sha256) ≡ false
IsPlain (referencing p sha256) = has_slash sha256 ≡ false

module _ (s : S3) (stored : s.Objects → String → Option String) (d : Documented s stored) where
  -- Every object that was there is there with its content.
  abbrev pub Keeps : s.Objects → s.Objects → Type 0
  Keeps o o' = (at content : String) → stored o at ≡ some content → stored o' at ≡ some content

  abbrev pub IsStored : s.Objects → String → Type 0
  IsStored o key = (content : String) × (stored o key ≡ some content)

  -- No reference is to an artifact that is not there.
  abbrev pub NoDangling : s.Objects → Type 0
  NoDangling o =
      (key content sha256 : String)
      → stored o key ≡ some content
      → referenced key ≡ some sha256
      → IsStored o (artifact_key sha256)

  -- What a step keeps.
  pub record Safe (o o' : s.Objects) : Type 0 where
    pub keeps : Keeps o o'
    pub no_dangling : NoDangling o → NoDangling o'

  Safe-refl : (o : s.Objects) → Safe o o
  Safe-refl o = record { keeps = λ at content there. there; no_dangling = λ inv. inv }

  Safe-trans : (a b c : s.Objects) → Safe a b → Safe b c → Safe a c
  Safe-trans a b c first second = record {
    keeps = λ at content there. second.keeps at content (first.keeps at content there);
    no_dangling = λ inv. second.no_dangling (first.no_dangling inv);
  }

  -- The put of the store leaves every object as it is.
  put-Keeps : (o : s.Objects) (key body : String) → Keeps o (put_if_absent s o key body).1
  unfolding put_if_absent
  put-Keeps o key body at content there = elim (Bool-cases (str_eq at key)) [
    | inl same ↦
        subst (λ k. stored (s.put_object o (some "*") key body).1 k ≡ some content)
          (sym ((eq_iff at key).0 same))
          (d.put_keeps o key body content (ap (stored o) (sym ((eq_iff at key).0 same)) ∙ there))
    | inr different ↦
        d.put_elsewhere o (some "*") key body at
          (λ same. absurd (cc ((eq_iff at key).1 same, different)))
        ∙ there
  ]

  -- A put is safe where what its key refers to, if anything, is there.
  put-Safe :
      (o : s.Objects) (key body : String)
      → ((sha256 : String) → referenced key ≡ some sha256 → IsStored o (artifact_key sha256))
      → Safe o (put_if_absent s o key body).1
  unfolding put_if_absent
  put-Safe o key body refers = record {
    keeps = put-Keeps o key body;
    no_dangling = λ inv at content sha256 there reads.
        let (old, was) = found inv at content sha256 there reads (Bool-cases (str_eq at key)) in
        (old, put-Keeps o key body (artifact_key sha256) old was);
  }
    where
      found :
          NoDangling o
          → (at content sha256 : String)
          → stored (s.put_object o (some "*") key body).1 at ≡ some content
          → referenced at ≡ some sha256
          → (str_eq at key ≡ true) ⊎ (str_eq at key ≡ false)
          → IsStored o (artifact_key sha256)
      found inv at content sha256 there reads (inl same) =
          refers sha256 (ap referenced (sym ((eq_iff at key).0 same)) ∙ reads)
      found inv at content sha256 there reads (inr different) =
          inv at content sha256
            (sym (
                d.put_elsewhere o (some "*") key body at
                  (λ same. absurd (cc ((eq_iff at key).1 same, different))))
              ∙ there)
            reads

  next_step-Safe :
      (o : s.Objects) (step : Step s) (next : s.Objects → Step s)
      → Safe o (step.1)
      → ((o' : s.Objects) → Safe o o' → Safe o' (next o').1)
      → Safe o (next_step s step next).1
  next_step-Safe o (err e, o') next safe after = safe
  next_step-Safe o (ok _, o') next safe after = Safe-trans o o' _ safe (after o' safe)

  -- The keys that refer to nothing but an artifact that is there
  reference-Safe :
      (o : s.Objects) (p : ReleasePartition) (sha256 body : String)
      → has_slash sha256 ≡ false
      → IsStored o (artifact_key sha256)
      → Safe o (put_if_absent s o (partition_ref_key s.str_of p sha256) body).1
  reference-Safe o p sha256 body clear there =
      put-Safe o (partition_ref_key s.str_of p sha256) body (λ other reads.
        subst (λ c. IsStored o (artifact_key c))
          (only sha256 other (sym (referenced-partition_ref_key s.str_of p sha256 clear) ∙ reads))
          there)
    where
      only : (a b : String) → ◌≡◌ {A = Option String} (some a) (some b) → a ≡ b
      only a b e = cc

  put_references-Safe :
      (ps : List ReleasePartition) (sha256 : String) (o : s.Objects)
      → has_slash sha256 ≡ false
      → IsStored o (artifact_key sha256)
      → Safe o (put_references s ps sha256 o).1
  unfolding put_references
  put_references-Safe [] sha256 o clear there = Safe-refl o
  put_references-Safe (p ∷ ps) sha256 o clear (content, there) =
      next_step-Safe o
        (put_if_absent s o (partition_ref_key s.str_of p sha256) (reference_body s p sha256))
        (put_references s ps sha256)
        (reference-Safe o p sha256 (reference_body s p sha256) clear (content, there))
        (λ o' safe. put_references-Safe ps sha256 o' clear (content, safe.keeps _ content there))

  -- What passes `_require_artifact` is there.
  settle_head-ok :
      (reply : Except Fault (Option ℤ)) (artifact : Option StoredArtifact) (sha256 : String)
      → settle_head s reply artifact sha256 ≡ ok tt
      → (length : Option ℤ) × (reply ≡ ok length)
  unfolding settle_head
  settle_head-ok (ok length) artifact sha256 passes = (length, refl)
  settle_head-ok (err Fault.interrupted) artifact sha256 passes = absurd cc
  settle_head-ok (err (client e)) artifact sha256 passes = absurd cc

  require_artifact-IsStored :
      (o : s.Objects) (artifact : Option StoredArtifact) (sha256 : String)
      → require_artifact s o artifact sha256 ≡ ok tt
      → IsStored o (artifact_key sha256)
  unfolding require_artifact
  require_artifact-IsStored o artifact sha256 passes =
      let (length, finds) =
        settle_head-ok (s.head_object o (artifact_key sha256)) artifact sha256 passes in
      d.head_finds o (artifact_key sha256) length finds

  if_artifact-Safe :
      (o : s.Objects) (check : Check StoreError) (next : s.Objects → Step s)
      → (check ≡ ok tt → Safe o (next o).1)
      → Safe o (if_artifact s check o next).1
  if_artifact-Safe o (err e) next safe = Safe-refl o
  if_artifact-Safe o (ok tt) next safe = safe refl

  returning-Safe :
      (o : s.Objects) (locator : String) (step : Step s)
      → Safe o (step.1)
      → Safe o (returning s locator step).1
  returning-Safe o locator (err e, o') safe = safe
  returning-Safe o locator (ok _, o') safe = safe

  manifest-Safe :
      (o : s.Objects) (sha256 body : String)
      → Safe o (put_if_absent s o (manifest_key sha256) body).1
  manifest-Safe o sha256 body =
      put-Safe o (manifest_key sha256) body
        (λ other reads. absurd (cc (referenced-manifest_key sha256, reads)))

  perform_operation-Safe :
      (operation : Operation) (o : s.Objects)
      → IsPlain operation
      → Safe o (perform_operation s operation o)
  unfolding perform_operation record_manifest record_steps reference_partition reference_steps
  perform_operation-Safe (recording m) o plain = returning-Safe o _ (record_steps s m o) (
      if_artifact-Safe o (require_artifact s o (some m.artifact) m.artifact.sha256) _ (λ passes.
        next_step-Safe o (put_if_absent s o (manifest_key m.artifact.sha256) (s.dumps_manifest m))
          (put_references s m.partitions m.artifact.sha256)
          (manifest-Safe o m.artifact.sha256 (s.dumps_manifest m))
          (λ o' safe.
            let (content, there) =
              require_artifact-IsStored o (some m.artifact) m.artifact.sha256 passes in
            put_references-Safe m.partitions m.artifact.sha256 o' plain
              (content, safe.keeps _ content there))))
  perform_operation-Safe (referencing p sha256) o plain =
      returning-Safe o _ (reference_steps s p sha256 o) (
        if_artifact-Safe o (require_artifact s o none sha256) _ (λ passes.
          reference-Safe o p sha256 (reference_body s p sha256) plain
            (require_artifact-IsStored o none sha256 passes)))

  -- On a bucket that does what S3 documents, any sequence of record and reference_partition, with
  -- checksums that hold no slash, and whether they return or raise, keeps every object that was
  -- there with its content; and where no reference is to an artifact that is not stored, none is
  -- afterwards.
  pub perform_operations-Safe :
      (operations : List Operation) (o : s.Objects)
      → All IsPlain operations
      → Safe o (perform_operations s operations o)
  unfolding perform_operations
  perform_operations-Safe [] o plain = Safe-refl o
  perform_operations-Safe (operation ∷ operations) o (here, plain) =
      Safe-trans o (perform_operation s operation o) _ (perform_operation-Safe operation o here)
        (perform_operations-Safe operations (perform_operation s operation o) plain)
