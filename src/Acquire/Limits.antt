-- ===== src/Acquire/Limits.antt =====
-- What a policy that AcquisitionPolicy accepts says of the limit, and why the reads of the model are
-- enough for any body.
use property_tax_data_platfo.Base.{
  ℕ, ◌+◌, ◌≤◌, zero, suc, Bool, true, false, List, [], ◌∷◌, ◌++◌, ◌≡◌, refl, Check, ok, err, ℤ, pos,
  negsuc, refuse_if->>, arith, if◌then◌else◌, length, lt→ltb,
}
use property_tax_data_platfo.Acquire.Contract.{
  Host, Raised, AcquisitionPolicy, policy_post_init, is_none_listed, any_unfolded, below_zero,
  below_one, failed, artifact_too_large,
}
use property_tax_data_platfo.Acquire.Stream.{
  Read, chunk, unread, Response, Exchange, Log, Received, stopped, unfinished, receive, take_chunk,
  after_write, exceeds, writing,
}
use property_tax_data_platfo.Acquire.Drain.{enough}

below_one-exceeds : (limit : ℤ) → below_one limit ≡ false → exceeds 0 limit ≡ false
below_one-exceeds (pos zero) e = absurd cc
below_one-exceeds (pos (suc n)) e = ground arith
below_one-exceeds (negsuc n) e = absurd cc

module _ (h : Host) (policy : AcquisitionPolicy h) where
  -- An empty body is within the limit.
  pub policy-within :
      policy_post_init h policy ≡ ok tt → exceeds 0 policy.max_artifact_bytes ≡ false
  unfolding policy_post_init
  policy-within valid =
      let (_, r1) = refuse_if->> (is_none_listed policy.allowed_hosts) _ valid in
      let (_, r2) = refuse_if->> (is_none_listed policy.allowed_schemes) _ r1 in
      let (_, r3) = refuse_if->> (any_unfolded h policy.allowed_hosts) _ r2 in
      let (_, r4) = refuse_if->> (any_unfolded h policy.allowed_schemes) _ r3 in
      let (_, r5) = refuse_if->> (below_zero policy.max_redirects) _ r4 in
      let (_, r6) = refuse_if->> (below_one policy.chunk_bytes) _ r5 in
      let (limit, _) = refuse_if->> (below_one policy.max_artifact_bytes) _ r6 in
      below_one-exceeds policy.max_artifact_bytes limit

  enough-exceeds :
      (x : Exchange h) (limit : ℤ) (count : ℕ)
      → enough h x policy limit ≤ count
      → exceeds count limit ≡ true
  enough-exceeds x (pos n) count past = lt→ltb n count past
  enough-exceeds x (negsuc n) count past = refl

  -- The loop came to its end.
  abbrev pub IsFinished : Received → Type 0
  IsFinished (unfinished log) = ⊥
  IsFinished _ = Unit

  after_write-IsFinished :
      (reply : Check Raised) (log : Log) (more : Received)
      → IsFinished more
      → IsFinished (after_write reply log more)
  after_write-IsFinished (ok tt) log more finished = finished
  after_write-IsFinished (err error) log more finished = tt

  module _ (x : Exchange h) where
    -- Where one read leads to an end, if the rest does from any larger count within the limit.
    take_chunk-IsFinished :
        (read : Read) (i count : ℕ) (bytes : List ℕ) (log : Log)
        (more : ℕ → List ℕ → Log → Received)
        → ((count' : ℕ) (bytes' : List ℕ) (log' : Log)
            → suc count ≤ count'
            → exceeds count' policy.max_artifact_bytes ≡ false
            → IsFinished (more count' bytes' log'))
        → IsFinished (take_chunk h x policy read i count bytes log more)
    unfolding take_chunk
    take_chunk-IsFinished (unread error) i count bytes log more next = tt
    take_chunk-IsFinished (chunk []) i count bytes log more next = tt
    take_chunk-IsFinished (chunk (b ∷ bs)) i count bytes log more next =
        split (exceeds (count + suc (length bs)) policy.max_artifact_bytes) refl
      where
        split :
            (test : Bool)
            → exceeds (count + suc (length bs)) policy.max_artifact_bytes ≡ test
            → IsFinished (
                if test
                then stopped log (failed artifact_too_large)
                else after_write
                    (x.write i (b ∷ bs))
                    (writing (b ∷ bs) ∷ log)
                    (more (count + suc (length bs)) (bytes ++ (b ∷ bs)) (writing (b ∷ bs) ∷ log)))
        split true e = tt
        split false e = after_write-IsFinished (x.write i (b ∷ bs)) _ _ (next _ _ _ (omega arith) e)

    receive-IsFinished :
        (fuel : ℕ) (response : Response) (i count : ℕ) (bytes : List ℕ) (log : Log)
        → exceeds count policy.max_artifact_bytes ≡ false
        → ((count' : ℕ) → fuel + count ≤ count' → exceeds count' policy.max_artifact_bytes ≡ true)
        → IsFinished (receive h x policy fuel response i count bytes log)
    unfolding receive
    receive-IsFinished zero response i count bytes log within past =
        absurd (cc (within, past count (omega arith)))
    receive-IsFinished (suc fuel) response i count bytes log within past =
        take_chunk-IsFinished (response.body i policy.chunk_bytes) i count bytes log _
          (λ count' bytes' log' larger within'.
            receive-IsFinished fuel response (suc i) count' bytes' log' within'
              (λ n further. past n (omega (arith, further, larger))))

    -- The reads of the model are enough.
    pub receive-enough :
        (response : Response) (log : Log)
        → exceeds 0 policy.max_artifact_bytes ≡ false
        → IsFinished
            (receive h x policy (enough h x policy policy.max_artifact_bytes) response 0 0 [] log)
    receive-enough response log within =
        receive-IsFinished _ response 0 0 [] log within
          (λ count past. enough-exceeds x policy.max_artifact_bytes count (omega (arith, past)))
