-- ===== src/Acquire/Drains.antt =====
-- `_drain` as a whole: what it returns or raises, and the calls that it has made by then.
use mathlib.Core.Option.{some}
use mathlib.Core.Path.{subst}
use property_tax_data_platfo.Base.{
  ℕ, String, Bool, true, false, not, Option, none, List, [], ◌∷◌, ◌≡◌, refl, sym, ◌∙◌, ap, Except,
  Check, ok, err, length, Except-cases, >>=-eq-ok, refuse_if->>, >>-eq-ok, inl, inr, ◌⊎◌, str_eq,
  eq_iff, refuse_if-ok, is_blank, arith, ◌==◌,
}
use property_tax_data_platfo.Acquire.Contract.{Host, Raised, AcquisitionPolicy, sanitize_url}
use property_tax_data_platfo.Acquire.Headers.{
  ResponseMetadata, RedirectHop, AcquiredArtifact, artifact_post_init, differs,
}
use property_tax_data_platfo.Acquire.Stream.{
  Response, Exchange, committing, Log, returned, raised, endless, Ended, Outcome, exceeds, Received,
  received, stopped, unfinished, ended,
}
use property_tax_data_platfo.Acquire.Drain.{
  drain, settle_received, read_metadata, enough, require_whole, finish, artifact_at, settle_commit,
  build_artifact, artifact_with, unless_blank, if_whole, drain_body,
}
use property_tax_data_platfo.Acquire.Rounds.{not-false}
use property_tax_data_platfo.Acquire.Limits.{IsFinished, receive-enough}
use property_tax_data_platfo.Acquire.Bodies.{Reads, ReadsFrom, receive-Reads}
use property_tax_data_platfo.Acquire.Calls.{written, Grown, IsWriting, Drained, receive-Drained}

module _ (h : Host) (x : Exchange h) (policy : AcquisitionPolicy h) (expected : Option String) where
  -- The checksum is the expected one, where there is one.
  abbrev pub Agrees : Option String → String → Type 0
  Agrees none checksum = Unit
  Agrees (some wanted) checksum = checksum ≡ wanted

  -- The artifact is of these bytes: its count and its digest are theirs, within the limit and as
  -- expected; it is where the commit says, and its own checks pass.
  pub record IsOf (final_url : String) (redirects : List RedirectHop) (bytes : List ℕ)
      (a : AcquiredArtifact) : Type 0 where
    pub counts : a.byte_count ≡ length bytes
    pub within : exceeds a.byte_count policy.max_artifact_bytes ≡ false
    pub digests : a.sha256 ≡ h.sha256 bytes
    pub agrees : Agrees expected a.sha256
    pub located : x.commit ≡ ok (some a.locator)
    pub sanitized : sanitize_url h final_url ≡ ok a.final_url
    pub follows : a.redirects ≡ redirects
    pub valid : artifact_post_init h a ≡ ok tt

  -- The declared length, where there is one, is the count.
  abbrev pub Fits : Option ℕ → ℕ → Type 0
  Fits none count = Unit
  Fits (some declared) count = declared ≡ count

  -- `commit` raised, or returned no locator.
  abbrev pub Unlocated : Except Raised (Option String) → Type 0
  Unlocated (err error) = Unit
  Unlocated (ok none) = Unit
  Unlocated (ok (some text)) = is_blank text ≡ true

  -- The artifact could not be built at what `commit` returned.
  abbrev pub Unfit : ResponseMetadata → String → List RedirectHop → List ℕ → Type 0
  Unfit metadata final_url redirects bytes =
      (locator : String) × (error : Raised) × (x.commit ≡ ok (some locator))
      × (artifact_at h x policy metadata final_url redirects (length bytes) (h.sha256 bytes) locator
          ≡ err error)

  -- What was committed, and came to nothing: bytes within the limit, of the declared length and the
  -- expected digest, where `commit` raised or returned no locator, or where the artifact of these
  -- bytes could not be built.
  pub record CommitRefused (response : Response) (final_url : String) (redirects : List RedirectHop)
      (bytes : List ℕ) : Type 0 where
    pub metadata : ResponseMetadata
    pub declared : Option ℕ
    pub reads : read_metadata h x policy response ≡ ok (metadata, declared)
    pub fits : Fits declared (length bytes)
    pub within : exceeds (length bytes) policy.max_artifact_bytes ≡ false
    pub agrees : Agrees expected (h.sha256 bytes)
    pub why : Unlocated x.commit ⊎ Unfit metadata final_url redirects bytes

  -- What `_drain` comes to.
  abbrev pub DrainResult : Response → String → List RedirectHop → Log → Outcome → Type 0
  DrainResult response final_url redirects log (log', returned a) =
      (before : Log) × (log' ≡ committing ∷ before)
      × Grown IsWriting log before
      × Reads (λ i. response.body i policy.chunk_bytes) 0 (written before)
      × IsOf final_url redirects (written before) a
  DrainResult response final_url redirects log (log', raised error) =
      Grown IsWriting log log'
      ⊎ ((before : Log) × (log' ≡ committing ∷ before)
          × Grown IsWriting log before
          × Reads (λ i. response.body i policy.chunk_bytes) 0 (written before)
          × CommitRefused response final_url redirects (written before))
  DrainResult response final_url redirects log (log', endless) = ⊥

  unless_blank-ok :
      (blank : Bool) (text locator : String)
      → unless_blank h x policy blank text ≡ ok locator
      → text ≡ locator
  unless_blank-ok true text locator e = absurd cc
  unless_blank-ok false text locator e = cc

  settle_commit-ok :
      (reply : Except Raised (Option String)) (locator : String)
      → settle_commit h x policy reply ≡ ok locator
      → reply ≡ ok (some locator)
  unfolding settle_commit
  settle_commit-ok (err error) locator e = absurd cc
  settle_commit-ok (ok none) locator e = absurd cc
  settle_commit-ok (ok (some text)) locator e =
      ap (λ t. ok (some t)) (unless_blank-ok (is_blank text) text locator e)

  settle_commit-err :
      (reply : Except Raised (Option String)) (error : Raised)
      → settle_commit h x policy reply ≡ err error
      → Unlocated reply
  unfolding settle_commit
  settle_commit-err (err other) error e = tt
  settle_commit-err (ok none) error e = tt
  settle_commit-err (ok (some text)) error e = blank (is_blank text) refl e
    where
      blank :
          (b : Bool)
          → is_blank text ≡ b
          → unless_blank h x policy b text ≡ err error
          → is_blank text ≡ true
      blank true is e' = is
      blank false is e' = absurd cc

  require_whole-Fits :
      (declared : Option ℕ) (count : ℕ) (checksum : String) (wanted : Option String)
      → require_whole h x policy declared count checksum wanted ≡ ok tt
      → Fits declared count
  unfolding require_whole
  require_whole-Fits none count checksum wanted passes = tt
  require_whole-Fits (some declared) count checksum wanted passes =
      let (same, _) = refuse_if->> (differs h (some declared) count) _ passes in
      equal declared count same
    where
      equal : (n m : ℕ) → not (n == m) ≡ false → n ≡ m
      equal n m e = ground arith

  require_whole-Agrees :
      (declared : Option ℕ) (count : ℕ) (checksum : String) (wanted : Option String)
      → require_whole h x policy declared count checksum wanted ≡ ok tt
      → Agrees wanted checksum
  unfolding require_whole
  require_whole-Agrees declared count checksum none passes = tt
  require_whole-Agrees declared count checksum (some text) passes =
      let (_, same) = refuse_if->> (differs h declared count) _ passes in
      (eq_iff checksum text).0 (not-false _ (refuse_if-ok (not (str_eq checksum text)) _ same))

  build_artifact-ok :
      (artifact a : AcquiredArtifact)
      → build_artifact h x policy artifact ≡ ok a
      → (artifact_post_init h artifact ≡ ok tt) × (artifact ≡ a)
  unfolding build_artifact
  build_artifact-ok artifact a built =
      let (valid, same) = >>-eq-ok (artifact_post_init h artifact) built in (valid, cc)

  artifact_at-IsOf :
      (metadata : ResponseMetadata) (final_url : String) (redirects : List RedirectHop)
      (bytes : List ℕ) (count : ℕ) (locator : String) (a : AcquiredArtifact)
      → count ≡ length bytes
      → exceeds count policy.max_artifact_bytes ≡ false
      → Agrees expected (h.sha256 bytes)
      → x.commit ≡ ok (some locator)
      → artifact_at h x policy metadata final_url redirects count (h.sha256 bytes) locator ≡ ok a
      → IsOf final_url redirects bytes a
  unfolding artifact_at build_artifact
  artifact_at-IsOf metadata final_url redirects bytes count locator a counts within agrees at e =
      let (url, sanitized, built) = >>=-eq-ok (sanitize_url h final_url) _ e in
      let (valid, same) =
        build_artifact-ok
          (artifact_with h x policy metadata redirects count (h.sha256 bytes) locator url) a
          built in
      subst (IsOf final_url redirects bytes) same (record {
        counts = counts;
        within = within;
        digests = refl;
        agrees = agrees;
        located = at;
        sanitized = sanitized;
        follows = refl;
        valid = valid;
      })

  -- What is committed was read whole and tested.
  record Tested (response : Response) (metadata : ResponseMetadata) (log before : Log)
      : Type 0 where
    pub declared : Option ℕ
    pub reads : read_metadata h x policy response ≡ ok (metadata, declared)
    pub fits : Fits declared (length (written before))
    pub within : exceeds (length (written before)) policy.max_artifact_bytes ≡ false
    pub agrees : Agrees expected (h.sha256 (written before))
    pub grown : Grown IsWriting log before
    pub whole : Reads (λ i. response.body i policy.chunk_bytes) 0 (written before)

  too-late :
      (response : Response) (metadata : ResponseMetadata) (final_url : String)
      (redirects : List RedirectHop) (log before : Log) (error : Raised)
      → Tested response metadata log before
      → Unlocated x.commit ⊎ Unfit metadata final_url redirects (written before)
      → DrainResult response final_url redirects log (committing ∷ before, raised error)
  too-late response metadata final_url redirects log before error t why = inr (
    before,
    refl,
    t.grown,
    t.whole,
    record {
      metadata = metadata;
      declared = t.declared;
      reads = t.reads;
      fits = t.fits;
      within = t.within;
      agrees = t.agrees;
      why = why;
    },
  )

  finish-DrainResult :
      (response : Response) (metadata : ResponseMetadata) (final_url : String)
      (redirects : List RedirectHop) (log before : Log)
      → Tested response metadata log before
      → DrainResult response final_url redirects log (
        committing ∷ before,
        ended (
            finish h x policy metadata final_url redirects
              (length (written before))
              (h.sha256 (written before))),
      )
  unfolding finish
  finish-DrainResult response metadata final_url redirects log before t =
      elim (Except-cases (settle_commit h x policy x.commit)) [
        | inr (error, e) ↦ rw e (
            too-late response metadata final_url redirects log before error t
              (inl (settle_commit-err x.commit error e)))
        | inl (locator, e) ↦ rw e (at_locator locator (settle_commit-ok x.commit locator e))
      ]
    where
      at_locator :
          (locator : String)
          → x.commit ≡ ok (some locator)
          → DrainResult response final_url redirects log (
            committing ∷ before,
            ended (
                artifact_at h x policy metadata final_url redirects
                  (length (written before))
                  (h.sha256 (written before))
                  locator),
          )
      at_locator locator at =
          elim (Except-cases (
            artifact_at h x policy metadata final_url redirects (length (written before))
              (h.sha256 (written before)) locator)) [
                | inr (error, e) ↦ rw e (
                    too-late response metadata final_url redirects log before error t
                      (inr (locator, error, at, e)))
                | inl (a, e) ↦ rw e (
                  before,
                  refl,
                  t.grown,
                  t.whole,
                  artifact_at-IsOf metadata final_url redirects (written before)
                      (length (written before)) locator a refl t.within t.agrees at e,
                )
              ]

  if_whole-DrainResult :
      (response : Response) (tests : Check Raised) (final_url : String)
      (redirects : List RedirectHop) (log before : Log) (after : Ended AcquiredArtifact)
      → Grown IsWriting log before
      → (tests ≡ ok tt → DrainResult response final_url redirects log (committing ∷ before, after))
      → DrainResult response final_url redirects log (if_whole h x policy tests before after)
  if_whole-DrainResult response (err error) final_url redirects log before after grown whole =
      inl grown
  if_whole-DrainResult response (ok tt) final_url redirects log before after grown whole =
      whole refl

  settle_received-DrainResult :
      (response : Response) (metadata : ResponseMetadata) (declared : Option ℕ) (final_url : String)
      (redirects : List RedirectHop) (log : Log) (r : Received)
      → read_metadata h x policy response ≡ ok (metadata, declared)
      → IsFinished h policy r
      → Drained (λ count. exceeds count policy.max_artifact_bytes) log r
      → ReadsFrom (λ i. response.body i policy.chunk_bytes) 0 [] r
      → DrainResult response final_url redirects log
          (settle_received h x policy metadata declared final_url redirects expected r)
  unfolding settle_received
  settle_received-DrainResult response metadata declared final_url redirects log (unfinished log')
        reads finished grown whole =
      absurd finished
  settle_received-DrainResult response metadata declared final_url redirects log
        (stopped log' error) reads finished grown whole =
      inl grown
  settle_received-DrainResult response metadata declared final_url redirects log
        (received before count bytes) reads finished (at, counts, within, grown)
        (rest, all_of, whole) =
      if_whole-DrainResult response
        (require_whole h x policy declared count (h.sha256 bytes) expected) final_url redirects log
        before _ grown
        (λ passes.
          let size : count ≡ length (written before) = counts ∙ ap length (sym at) in
          subst2
            (λ count bytes. DrainResult response final_url redirects log (
              committing ∷ before,
              ended (finish h x policy metadata final_url redirects count (h.sha256 bytes)),
            ))
            (sym size) at
            (finish-DrainResult response metadata final_url redirects log before (record {
              declared = declared;
              reads = reads;
              fits =
                  subst (Fits declared) size
                    (require_whole-Fits declared count (h.sha256 bytes) expected passes);
              within = subst (λ n. exceeds n policy.max_artifact_bytes ≡ false) size within;
              agrees =
                  subst (λ bytes. Agrees expected (h.sha256 bytes)) (sym at)
                    (require_whole-Agrees declared count (h.sha256 bytes) expected passes);
              grown = grown;
              whole =
                  subst (Reads (λ i. response.body i policy.chunk_bytes) 0) (sym (at ∙ all_of))
                    whole;
            })))
    where
      subst2 : (Q : ℕ → List ℕ → Type 0) {n m : ℕ} {a b : List ℕ} → n ≡ m → a ≡ b → Q n a → Q m b
      subst2 Q {n} {m} {a} {b} e e' q = subst (λ l. Q m l) e' (subst (λ k. Q k a) e q)

  pub drain-DrainResult :
      (response : Response) (final_url : String) (redirects : List RedirectHop) (log : Log)
      → written log ≡ []
      → exceeds 0 policy.max_artifact_bytes ≡ false
      → DrainResult response final_url redirects log
          (drain h x policy response final_url redirects expected log)
  unfolding drain drain_body
  drain-DrainResult response final_url redirects log fresh within =
      split (read_metadata h x policy response) refl
    where
      split :
          (read : Except Raised (ResponseMetadata × Option ℕ))
          → read_metadata h x policy response ≡ read
          → DrainResult response final_url redirects log
              (drain_body h x policy read response final_url redirects expected log)
      split (err error) reads = inl ([], refl, tt)
      split (ok (metadata, declared)) reads =
          settle_received-DrainResult response metadata declared final_url redirects log _ reads
            (receive-enough h policy x response log within)
            (receive-Drained h x policy (enough h x policy policy.max_artifact_bytes) response 0 0
              [] log fresh refl within)
            (receive-Reads h x policy (enough h x policy policy.max_artifact_bytes) response 0 0 []
              log)
