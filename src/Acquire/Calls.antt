-- ===== src/Acquire/Calls.antt =====
-- What the calls of an acquisition add up to, and which calls each step adds.
use mathlib.Core.List.{append_assoc}
use property_tax_data_platfo.Base.{
  ℕ, ◌+◌, suc, Bool, true, false, List, [], ◌∷◌, ◌++◌, ◌≡◌, refl, ap, sym, ◌∙◌, Check, ok, err, All,
  All-append, length, length-append, if◌then◌else◌, arith,
}
use property_tax_data_platfo.Acquire.Contract.{
  Host, Raised, AcquisitionPolicy, failed, artifact_too_large,
}
use property_tax_data_platfo.Acquire.Stream.{
  Read, chunk, unread, Response, Exchange, Event, committing, aborting, leaving, opening, writing,
  Log, exceeds, Received, received, stopped, unfinished, receive, take_chunk, after_write,
}

-- The bytes that the sink was given, in their order.
abbrev pub written : Log → List ℕ
written [] = []
written (writing bytes ∷ log) = written log ++ bytes
written (_ ∷ log) = written log

-- How many of the calls pass a test.
abbrev pub bit : Bool → ℕ
bit true = 1
bit false = 0

abbrev pub tally : (Event → Bool) → Log → ℕ
tally test [] = 0
tally test (event ∷ log) = bit (test event) + tally test log

abbrev pub is_opening : Event → Bool
is_opening (opening _) = true
is_opening _ = false

abbrev pub is_committing : Event → Bool
is_committing committing = true
is_committing _ = false

-- A call of `abort` or of `__exit__`
abbrev pub is_last : Event → Bool
is_last aborting = true
is_last leaving = true
is_last _ = false

-- The log grew by calls that satisfy `Q`.
abbrev pub Grown : (Event → Type 0) → Log → Log → Type 0
Grown Q log log' = (calls : Log) × (log' ≡ calls ++ log) × All Q calls

abbrev pub IsWriting : Event → Type 0
IsWriting (writing _) = Unit
IsWriting _ = ⊥

pub Grown-trans : (Q : Event → Type 0) (a b c : Log) → Grown Q a b → Grown Q b c → Grown Q a c
Grown-trans Q a b c (first, grows, holds) (second, grows', holds') = (
  second ++ first,
  grows' ∙ ap (λ log. second ++ log) grows ∙ sym (append_assoc second first a),
  All-append Q second first holds' holds,
)

-- The log at which the loop of `_drain` came to its end.
abbrev pub log_of : Received → Log
log_of (received log count bytes) = log
log_of (stopped log error) = log
log_of (unfinished log) = log

-- What the loop comes to, from a log: it only wrote, and where it ends, its count and its bytes are
-- those of all writes and within the limit.
abbrev pub Drained : (ℕ → Bool) → Log → Received → Type 0
Drained over log (received log' count bytes) =
    (written log' ≡ bytes)
    × (count ≡ length bytes)
    × (over count ≡ false)
    × Grown IsWriting log log'
Drained over log (stopped log' error) = Grown IsWriting log log'
Drained over log (unfinished log') = Grown IsWriting log log'

Drained-step :
    (over : ℕ → Bool) (log : Log) (bytes : List ℕ) (r : Received)
    → Drained over (writing bytes ∷ log) r
    → Drained over log r
Drained-step over log bytes (received log' count all_bytes) (at, counts, within, grown) = (
  at,
  counts,
  within,
  Grown-trans IsWriting log (writing bytes ∷ log) log' (writing bytes ∷ [], refl, (tt, tt)) grown,
)
Drained-step over log bytes (stopped log' error) grown =
    Grown-trans IsWriting log (writing bytes ∷ log) log' (writing bytes ∷ [], refl, (tt, tt)) grown
Drained-step over log bytes (unfinished log') grown =
    Grown-trans IsWriting log (writing bytes ∷ log) log' (writing bytes ∷ [], refl, (tt, tt)) grown

after_write-Drained :
    (over : ℕ → Bool) (log : Log) (bytes : List ℕ) (reply : Check Raised) (r : Received)
    → Drained over (writing bytes ∷ log) r
    → Drained over log (after_write reply (writing bytes ∷ log) r)
after_write-Drained over log bytes (ok tt) r drained = Drained-step over log bytes r drained
after_write-Drained over log bytes (err error) r drained = (writing bytes ∷ [], refl, (tt, tt))

module _ (h : Host) (x : Exchange h) (policy : AcquisitionPolicy h) where
  abbrev over : ℕ → Bool
  over count = exceeds count policy.max_artifact_bytes

  take_chunk-Drained :
      (read : Read) (i count : ℕ) (bytes : List ℕ) (log : Log) (more : ℕ → List ℕ → Log → Received)
      → written log ≡ bytes
      → count ≡ length bytes
      → over count ≡ false
      → ((count' : ℕ) (bytes' : List ℕ) (log' : Log)
          → written log' ≡ bytes'
          → count' ≡ length bytes'
          → over count' ≡ false
          → Drained over log' (more count' bytes' log'))
      → Drained over log (take_chunk h x policy read i count bytes log more)
  unfolding take_chunk
  take_chunk-Drained (unread error) i count bytes log more at counts within next = ([], refl, tt)
  take_chunk-Drained (chunk []) i count bytes log more at counts within next =
      (at, counts, within, ([], refl, tt))
  take_chunk-Drained (chunk (b ∷ bs)) i count bytes log more at counts within next =
      split (over (count + suc (length bs))) refl
    where
      split :
          (test : Bool)
          → over (count + suc (length bs)) ≡ test
          → Drained over log (
              if test
              then stopped log (failed artifact_too_large)
              else after_write
                  (x.write i (b ∷ bs))
                  (writing (b ∷ bs) ∷ log)
                  (more (count + suc (length bs)) (bytes ++ (b ∷ bs)) (writing (b ∷ bs) ∷ log)))
      split true e = ([], refl, tt)
      split false e = after_write-Drained over log (b ∷ bs) (x.write i (b ∷ bs)) _ (
          next _ _ _ (ap (λ l. l ++ (b ∷ bs)) at)
            (omega (arith, counts, length-append bytes (b ∷ bs))) e)

  pub receive-Drained :
      (fuel : ℕ) (response : Response) (i count : ℕ) (bytes : List ℕ) (log : Log)
      → written log ≡ bytes
      → count ≡ length bytes
      → over count ≡ false
      → Drained over log (receive h x policy fuel response i count bytes log)
  unfolding receive
  receive-Drained Prim.Native.Nat.zero response i count bytes log at counts within = ([], refl, tt)
  receive-Drained (suc fuel) response i count bytes log at counts within =
      take_chunk-Drained (response.body i policy.chunk_bytes) i count bytes log _ at counts within
        (λ count' bytes' log'. receive-Drained fuel response (suc i) count' bytes' log')
