-- ===== src/Acquire/Drain.antt =====
-- streaming.py: `_drain`.
use mathlib.Core.Option.{Option, none, some}
use property_tax_data_platfo.Base.{
  ℕ, suc, String, Bool, false, not, true, false, List, [], ◌∷◌, ℤ, pos, negsuc, Except, Check, ok,
  err, refuse_if, ◌>>◌, ◌>>=◌, ltb, is_blank, str_eq, if◌then◌else◌,
}
use property_tax_data_platfo.Acquire.Contract.{
  Host, Raised, failed, AcquisitionPolicy, artifact_too_large, truncated_artifact,
  declared_length_mismatch, checksum_mismatch, sink_failed, sanitize_url,
}
use property_tax_data_platfo.Acquire.Headers.{
  sanitize_headers, ResponseMetadata, metadata_post_init, declared_length, RedirectHop,
  AcquiredArtifact, artifact_post_init, acquisition_contract_version, differs,
}
use property_tax_data_platfo.Acquire.Stream.{
  Response, Exchange, committing, Log, raised, endless, Outcome, Ended, ended, sink_error, exceeds,
  Received, received, stopped, unfinished, receive,
}

module _ (h : Host) (x : Exchange h) (policy : AcquisitionPolicy h) where
  -- the reads that are enough for any body
  abbrev pub enough : ℤ → ℕ
  enough (pos limit) = suc limit
  enough (negsuc _) = 1

  -- `declared is not None and declared > policy.max_artifact_bytes`
  abbrev pub is_too_large : Option ℕ → Bool
  is_too_large none = false
  is_too_large (some declared) = exceeds declared policy.max_artifact_bytes

  abbrev shorter : Option ℕ → ℕ → Bool
  shorter none count = false
  shorter (some declared) count = ltb count declared

  -- the tests behind the loop of `_drain`
  unfoldable pub require_whole : Option ℕ → ℕ → String → Option String → Check Raised
  require_whole declared count checksum expected = do
    refuse_if (differs h declared count)
        (failed (if shorter declared count then truncated_artifact else declared_length_mismatch))
    refuse_if (elim expected [ none ↦ false | some wanted ↦ not (str_eq checksum wanted) ])
        (failed checksum_mismatch)

  -- `AcquiredArtifact(…)`
  unfoldable pub build_artifact : AcquiredArtifact → Except Raised AcquiredArtifact
  unfolding artifact_post_init
  build_artifact artifact = do artifact_post_init h artifact; ok artifact

  -- the artifact at the locator
  abbrev pub artifact_with :
      ResponseMetadata → List RedirectHop → ℕ → String → String → String → AcquiredArtifact
  artifact_with metadata redirects count checksum locator url = record {
    sha256 = checksum;
    byte_count = count;
    final_url = url;
    locator = locator;
    response = metadata;
    redirects = redirects;
    acquisition_contract_version = acquisition_contract_version;
  }

  unfoldable pub artifact_at :
      ResponseMetadata
      → String
      → List RedirectHop
      → ℕ
      → String
      → String
      → Except Raised AcquiredArtifact
  unfolding sanitize_url build_artifact
  artifact_at metadata final_url redirects count checksum locator = do
    url ← sanitize_url h final_url
    build_artifact (artifact_with metadata redirects count checksum locator url)

  -- the locator, where it is not blank
  abbrev pub unless_blank : Bool → String → Except Raised String
  unless_blank true locator = err (failed sink_failed)
  unless_blank false locator = ok locator

  -- what `commit` returned or raised, and the tests on its locator
  unfoldable pub settle_commit : Except Raised (Option String) → Except Raised String
  unfolding sink_error is_blank
  settle_commit (err error) = err (sink_error error)
  settle_commit (ok none) = err (failed sink_failed)
  settle_commit (ok (some locator)) = unless_blank (is_blank locator) locator

  -- `_drain` from the commit on
  unfoldable pub finish :
      ResponseMetadata → String → List RedirectHop → ℕ → String → Except Raised AcquiredArtifact
  unfolding settle_commit artifact_at
  finish metadata final_url redirects count checksum = do
    locator ← settle_commit x.commit
    artifact_at metadata final_url redirects count checksum locator

  -- `_drain` from the tests on: `after` is the rest, where they pass
  abbrev pub if_whole : Check Raised → Log → Ended AcquiredArtifact → Outcome
  if_whole (err error) log after = (log, raised error)
  if_whole (ok _) log after = (committing ∷ log, after)

  -- `_drain` behind the loop
  unfoldable pub settle_received :
      ResponseMetadata → Option ℕ → String → List RedirectHop → Option String → Received → Outcome
  unfolding require_whole finish
  settle_received metadata declared final_url redirects expected (unfinished log) = (log, endless)
  settle_received metadata declared final_url redirects expected (stopped log error) =
      (log, raised error)
  settle_received metadata declared final_url redirects expected (received log count bytes) =
      if_whole (require_whole declared count (h.sha256 bytes) expected) log
        (ended (finish metadata final_url redirects count (h.sha256 bytes)))

  -- `metadata`, and `declared` where it is not too large
  unfoldable pub read_metadata : Response → Except Raised (ResponseMetadata × Option ℕ)
  unfolding sanitize_headers metadata_post_init declared_length
  read_metadata response = do
    let metadata : ResponseMetadata = record {
      status = response.status;
      headers = sanitize_headers h response.headers;
    }
    metadata_post_init metadata
    declared ← declared_length h metadata
    refuse_if (is_too_large declared) (failed artifact_too_large)
    ok (metadata, declared)

  -- `_drain`, once the headers are read or refused
  unfoldable pub drain_body :
      Except Raised (ResponseMetadata × Option ℕ)
      → Response
      → String
      → List RedirectHop
      → Option String
      → Log
      → Outcome
  unfolding receive settle_received
  drain_body (err error) response final_url redirects expected log = (log, raised error)
  drain_body (ok (metadata, declared)) response final_url redirects expected log =
      settle_received metadata declared final_url redirects expected
        (receive h x policy (enough policy.max_artifact_bytes) response 0 0 [] log)

  unfoldable pub drain : Response → String → List RedirectHop → Option String → Log → Outcome
  unfolding read_metadata drain_body
  drain response final_url redirects expected log =
      drain_body (read_metadata response) response final_url redirects expected log
