-- ===== src/Acquire/Stream.antt =====
-- streaming.py and `resolve_location`: `acquire_artifact`, with the calls that it makes to the
-- transport and to the sink, the latest in front.
use mathlib.Core.Option.{Option, none, some}
use property_tax_data_platfo.Base.{
  ℕ, ◌+◌, zero, suc, String, Bool, true, ◌||◌, List, [], ◌∷◌, ◌++◌, ℤ, pos, negsuc, Except, Check,
  ok, err, refuse_if, ◌>>◌, ◌>>=◌, ltb, is_blank, if◌then◌else◌, length,
}
use property_tax_data_platfo.Acquire.Characters.{strip, is_empty}
use property_tax_data_platfo.Acquire.Contract.{
  Host, Parts, Raised, value_error, exception, interrupt, failed, AcquisitionPolicy,
  unapproved_host, missing_redirect_target, request_failed, artifact_too_large, sink_failed,
  permits, sanitize_url,
}
use property_tax_data_platfo.Acquire.Headers.{Headers, RedirectHop, hop_post_init, AcquiredArtifact}

-- One reply of `read_chunk`; no bytes are the end of the body.
pub data Read : Type 0 where
  chunk : List ℕ → Read
  unread : Raised → Read

-- A response: the reads of its body are numbered, and told the size that is asked for.
pub record Response : Type 0 where
  pub status : ℕ
  pub location : Option String
  pub headers : Headers
  pub body : ℕ → ℤ → Read

-- The transport, of a numbered request and of leaving its response, which may raise but suppresses
-- nothing; and the sink, of a numbered write. Leaving the sink raises nothing, as its protocol says;
-- `commit` may return what is no `str`.
pub record Exchange (h : Host) : Type 0 where
  pub request : ℕ → String → h.Float → Except Raised Response
  pub close : ℕ → Check Raised
  pub enter : Check Raised
  pub write : ℕ → List ℕ → Check Raised
  pub commit : Except Raised (Option String)
  pub abort : Check Raised

pub data Event : Type 0 where
  entering committing aborting leaving closing : Event
  opening : String → Event
  writing : List ℕ → Event

abbrev pub Log : Type 0
Log = List Event

-- `except AcquisitionError: raise` and `except Exception`, around a read
unfoldable pub read_error : Raised → Raised
read_error (value_error _) = failed request_failed
read_error (exception _) = failed request_failed
read_error error = error

-- `except Exception`, around a call of the sink
unfoldable pub sink_error : Raised → Raised
sink_error (interrupt what) = interrupt what
sink_error _ = failed sink_failed

-- `count > limit`
abbrev pub exceeds : ℕ → ℤ → Bool
exceeds count (pos limit) = ltb limit count
exceeds count (negsuc _) = true

abbrev pub redirect_statuses : List ℕ
redirect_statuses = 301 ∷ 302 ∷ 303 ∷ 307 ∷ 308 ∷ []

abbrev pub transient_statuses : List ℕ
transient_statuses = 408 ∷ 425 ∷ 429 ∷ 500 ∷ 502 ∷ 503 ∷ 504 ∷ []

-- The loop of `_drain`: the body ended, with its count and its bytes; it stopped; or it goes on for
-- more reads than it was given.
pub data Received : Type 0 where
  received : Log → ℕ → List ℕ → Received
  stopped : Log → Raised → Received
  unfinished : Log → Received

-- What a call of the code comes to; `endless` where the model ran out of reads.
pub data Ended {ℓ} (A : Type ℓ) : Type ℓ where
  returned : A → Ended A
  raised : Raised → Ended A
  endless : Ended A

abbrev pub Outcome : Type 0
Outcome = Log × Ended AcquiredArtifact

abbrev pub ended {ℓ} : {A : Type ℓ} → Except Raised A → Ended A
ended (ok value) = returned value
ended (err error) = raised error

-- what follows a write
abbrev pub after_write : Check Raised → Log → Received → Received
after_write (ok tt) log more = more
after_write (err error) log more = stopped log (sink_error error)

module _ (h : Host) where
  unfoldable pub require_host : AcquisitionPolicy h → Parts → Option String → Check Raised
  unfolding permits
  require_host policy parts none = err (failed unapproved_host)
  require_host policy parts (some host) = permits h policy parts.scheme host

  unfoldable pub require_permitted : String → AcquisitionPolicy h → Check Raised
  unfolding require_host
  require_permitted url policy = do parts ← h.urlsplit url; require_host policy parts parts.hostname

  abbrev lacks_host : Parts → Bool
  lacks_host parts =
      is_empty parts.scheme || elim (parts.hostname) [ none ↦ true | some host ↦ is_empty host ]

  unfoldable pub resolve_location : String → String → Except Raised String
  unfolding is_blank
  resolve_location current location = do
    refuse_if (is_blank location) (failed missing_redirect_target)
    resolved ← h.urljoin current (strip location)
    parts ← h.urlsplit resolved
    refuse_if (lacks_host parts) (failed missing_redirect_target)
    ok resolved

  -- `_hop`, with the location that is there
  unfoldable pub follow_location :
      AcquisitionPolicy h
      → String
      → ℕ
      → List RedirectHop
      → Option String
      → Except Raised (String × List RedirectHop)
  unfolding resolve_location require_permitted sanitize_url hop_post_init
  follow_location policy current status redirects none = err (failed missing_redirect_target)
  follow_location policy current status redirects (some location) = do
    destination ← resolve_location current location
    require_permitted destination policy
    from_url ← sanitize_url h current
    to_url ← sanitize_url h destination
    let hop : RedirectHop = record { from_url = from_url; to_url = to_url; status = status }
    hop_post_init h hop
    ok (destination, redirects ++ (hop ∷ []))

  unfoldable pub hop :
      Response
      → String
      → AcquisitionPolicy h
      → List RedirectHop
      → Except Raised (String × List RedirectHop)
  unfolding follow_location
  hop response current policy redirects =
      follow_location policy current response.status redirects response.location

  module _ (x : Exchange h) (policy : AcquisitionPolicy h) where
    -- What one read leads to; `more` is the rest of the loop, from a count, bytes and a log.
    unfoldable pub take_chunk :
        Read → ℕ → ℕ → List ℕ → Log → (ℕ → List ℕ → Log → Received) → Received
    unfolding read_error sink_error
    take_chunk (unread error) i count bytes log more = stopped log (read_error error)
    take_chunk (chunk []) i count bytes log more = received log count bytes
    take_chunk (chunk (b ∷ bs)) i count bytes log more =
        if exceeds (count + suc (length bs)) policy.max_artifact_bytes
        then stopped log (failed artifact_too_large)
        else after_write (x.write i (b ∷ bs)) (writing (b ∷ bs) ∷ log)
            (more (count + suc (length bs)) (bytes ++ (b ∷ bs)) (writing (b ∷ bs) ∷ log))

    unfoldable pub receive : ℕ → Response → ℕ → ℕ → List ℕ → Log → Received
    unfolding take_chunk
    receive zero response i count bytes log = unfinished log
    receive (suc fuel) response i count bytes log =
        take_chunk (response.body i policy.chunk_bytes) i count bytes log
          (λ count bytes log. receive fuel response (suc i) count bytes log)
