-- ===== src/Acquire/Bodies.antt =====
-- The bytes that the loop of `_drain` reads, as the response gives them.
use mathlib.Core.List.{append_assoc, append-nil}
use property_tax_data_platfo.Base.{
  ℕ, ◌+◌, suc, Bool, true, false, List, [], ◌∷◌, ◌++◌, ◌≡◌, refl, sym, ◌∙◌, Check, ok, err, length,
  if◌then◌else◌,
}
use property_tax_data_platfo.Acquire.Contract.{
  Host, Raised, AcquisitionPolicy, failed, artifact_too_large,
}
use property_tax_data_platfo.Acquire.Stream.{
  Read, chunk, unread, Response, Exchange, writing, Log, exceeds, Received, received, stopped,
  unfinished, receive, take_chunk, after_write,
}

-- From this read on, up to the one that ends the body, the reads give these bytes.
pub data Reads (body : ℕ → Read) : ℕ → List ℕ → Type 0 where
  ends : (i : ℕ) → body i ≡ chunk [] → Reads body i []
  gives :
      (i b : ℕ) (bs rest : List ℕ)
      → body i ≡ chunk (b ∷ bs)
      → Reads body (suc i) rest
      → Reads body i ((b ∷ bs) ++ rest)

-- A loop that ended put what it read behind the bytes that it began with.
abbrev pub ReadsFrom : (ℕ → Read) → ℕ → List ℕ → Received → Type 0
ReadsFrom body i bytes (received log count all_bytes) =
    (rest : List ℕ) × (all_bytes ≡ bytes ++ rest) × Reads body i rest
ReadsFrom body i bytes (stopped log error) = Unit
ReadsFrom body i bytes (unfinished log) = Unit

ReadsFrom-step :
    (body : ℕ → Read) (i b : ℕ) (bs bytes : List ℕ) (r : Received)
    → body i ≡ chunk (b ∷ bs)
    → ReadsFrom body (suc i) (bytes ++ (b ∷ bs)) r
    → ReadsFrom body i bytes r
ReadsFrom-step body i b bs bytes (received log count all_bytes) e (rest, all_of, reads) =
    ((b ∷ bs) ++ rest, all_of ∙ append_assoc bytes (b ∷ bs) rest, gives i b bs rest e reads)
ReadsFrom-step body i b bs bytes (stopped log error) e reads = tt
ReadsFrom-step body i b bs bytes (unfinished log) e reads = tt

written-ReadsFrom :
    (body : ℕ → Read) (i : ℕ) (bytes : List ℕ) (reply : Check Raised) (log : Log) (r : Received)
    → ReadsFrom body i bytes r
    → ReadsFrom body i bytes (after_write reply log r)
written-ReadsFrom body i bytes (ok tt) log r reads = reads
written-ReadsFrom body i bytes (err error) log r reads = tt

unless-ReadsFrom :
    (body : ℕ → Read) (i : ℕ) (bytes : List ℕ) (over : Bool) (log : Log) (error : Raised)
    (r : Received)
    → ReadsFrom body i bytes r
    → ReadsFrom body i bytes (if over then stopped log error else r)
unless-ReadsFrom body i bytes true log error r reads = tt
unless-ReadsFrom body i bytes false log error r reads = reads

module _ (h : Host) (x : Exchange h) (policy : AcquisitionPolicy h) where
  take_chunk-Reads :
      (body : ℕ → Read) (read : Read) (i count : ℕ) (bytes : List ℕ) (log : Log)
      (more : ℕ → List ℕ → Log → Received)
      → body i ≡ read
      → ((count' : ℕ) (bytes' : List ℕ) (log' : Log)
          → ReadsFrom body (suc i) bytes' (more count' bytes' log'))
      → ReadsFrom body i bytes (take_chunk h x policy read i count bytes log more)
  unfolding take_chunk
  take_chunk-Reads body (unread error) i count bytes log more e next = tt
  take_chunk-Reads body (chunk []) i count bytes log more e next =
      ([], sym (append-nil bytes), ends i e)
  take_chunk-Reads body (chunk (b ∷ bs)) i count bytes log more e next =
      unless-ReadsFrom body i bytes (exceeds (count + suc (length bs)) policy.max_artifact_bytes)
        log (failed artifact_too_large) _
        (written-ReadsFrom body i bytes (x.write i (b ∷ bs)) (writing (b ∷ bs) ∷ log) _ (
          ReadsFrom-step body i b bs bytes _ e
            (next (count + suc (length bs)) (bytes ++ (b ∷ bs)) (writing (b ∷ bs) ∷ log))))

  pub receive-Reads :
      (fuel : ℕ) (response : Response) (i count : ℕ) (bytes : List ℕ) (log : Log)
      → ReadsFrom
          (λ i. response.body i policy.chunk_bytes)
          i
          bytes
          (receive h x policy fuel response i count bytes log)
  unfolding receive
  receive-Reads Prim.Native.Nat.zero response i count bytes log = tt
  receive-Reads (suc fuel) response i count bytes log =
      take_chunk-Reads (λ i. response.body i policy.chunk_bytes)
        (response.body i policy.chunk_bytes) i count bytes log _ refl
        (λ count' bytes' log'. receive-Reads fuel response (suc i) count' bytes' log')
