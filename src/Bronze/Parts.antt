-- ===== src/Bronze/Parts.antt =====
-- The parts that S3ArtifactSink uploads, against the bytes that were written to it.
use mathlib.Core.List.{append_assoc, append-nil}
use mathlib.Core.Path.{subst}
use property_tax_data_platfo.Base.{
  ℕ, ◌+◌, ◌≤◌, ◌<◌, zero, suc, String, Bool, true, false, Option, none, some, List, [], ◌∷◌, ◌++◌,
  ◌≡◌, refl, sym, ap, ◌∙◌, Except, ok, err, leb, leb→le, leb-false→lt, length, length-append,
  length-take, take, drop, arith, not, ◌||◌, or-false,
}
use property_tax_data_platfo.Bronze.Store.{Fault}
use property_tax_data_platfo.Bronze.Sink.{
  S3Call, upload_part, Sink, Setting, SinkReply, answer_of, noted, part_number, Part, Calls,
  with_buffer, with_part, taken, then_next, if_full, call_client, flush, flush_while, write_chunk,
  flush_rest, is_zero,
}

-- What the parts that were uploaded hold, in their order.
abbrev pub uploaded : Calls → List ℕ
uploaded [] = []
uploaded ((upload_part key id number body, some tag) ∷ calls) = uploaded calls ++ body
uploaded (_ ∷ calls) = uploaded calls

-- The tags and numbers of the parts that were uploaded, in their order.
abbrev pub listed : Calls → List Part
listed [] = []
listed ((upload_part key id number body, some tag) ∷ calls) = listed calls ++ (tag, number) ∷ []
listed (_ ∷ calls) = listed calls

-- The parts are of this upload, and numbered from 1 in their order.
abbrev pub Numbered : String → Option String → Calls → Type 0
Numbered at upload [] = Unit
Numbered at upload ((upload_part key id number body, some tag) ∷ calls) =
    (key ≡ at) × (id ≡ upload) × (number ≡ suc (length (listed calls))) × Numbered at upload calls
Numbered at upload (_ ∷ calls) = Numbered at upload calls

-- Every part has this size.
abbrev pub AllSized : ℕ → Calls → Type 0
AllSized size [] = Unit
AllSized size ((upload_part key id number body, some tag) ∷ calls) =
    (length body ≡ size) × AllSized size calls
AllSized size (_ ∷ calls) = AllSized size calls

-- Every part but the last has this size, and the last at most this.
abbrev pub AllButLastSized : ℕ → Calls → Type 0
AllButLastSized size [] = Unit
AllButLastSized size ((upload_part key id number body, some tag) ∷ calls) =
    (length body ≤ size) × AllSized size calls
AllButLastSized size (_ ∷ calls) = AllButLastSized size calls

pub then_next-ok :
    {A B : Type 0} (r : SinkReply A) (next : A → Sink → SinkReply B) {value : B} {s' : Sink}
    → then_next r next ≡ (ok value, s')
    → (a : A) × (s : Sink) × (r ≡ (ok a, s)) × (next a s ≡ (ok value, s'))
then_next-ok (err fault, s) next e = absurd cc
then_next-ok (ok a, s) next e = (a, s, refl, e)

take-drop : {A : Type 0} (n : ℕ) (xs : List A) → take n xs ++ drop n xs ≡ xs
take-drop zero xs = refl
take-drop (suc n) [] = refl
take-drop (suc n) (x ∷ xs) = ap (λ l. x ∷ l) (take-drop n xs)

length-drop :
    {A : Type 0} (n : ℕ) (xs : List A) → n ≤ length xs → length (drop n xs) + n ≡ length xs
length-drop zero xs h = omega arith
length-drop (suc n) [] h = absurd (omega (arith, h))
length-drop (suc n) (x ∷ xs) h = omega (arith, length-drop n xs (omega (arith, h)))

take-all : {A : Type 0} (xs : List A) → take (length xs) xs ≡ xs
take-all [] = refl
take-all (x ∷ xs) = ap (λ l. x ∷ l) (take-all xs)

-- the chunks one behind the other
abbrev pub concat : List (List ℕ) → List ℕ
concat [] = []
concat (chunk ∷ chunks) = chunk ++ concat chunks

pub same : (a b : Sink) → ◌≡◌ {A = SinkReply (Unit {0})} (ok tt, a) (ok tt, b) → a ≡ b
same a b e = cc

module _ (c : Setting) where
  -- The parts and the buffer hold what was written; every part is of the part size.
  pub record IsBuffered (s : Sink) : Type 0 where
    pub whole : uploaded s.calls ++ s.buffer ≡ s.hashed
    pub counts : s.written ≡ length s.hashed
    pub lists : listed s.calls ≡ s.parts
    pub numbered : Numbered c.staging_key s.upload_id s.calls
    pub sized : AllSized c.part_bytes s.calls

  -- A call that returned is noted as such.
  pub call_client-ok :
      (call : S3Call) (s s' : Sink) (answer : String)
      → call_client c call s ≡ (ok answer, s')
      → noted call (some answer) s ≡ s'
  unfolding call_client
  call_client-ok call s s' answer returns = split (c.reply (length s.calls) call) returns
    where
      split :
          (reply : Except Fault String)
          → ◌≡◌ {A = SinkReply String} (reply, noted call (answer_of reply) s) (ok answer, s')
          → noted call (some answer) s ≡ s'
      split (ok a) e = cc
      split (err fault) e = absurd cc

  -- the call of a flush
  abbrev pub part_call : ℕ → Sink → S3Call
  part_call size s =
      upload_part c.staging_key s.upload_id (part_number s.parts) (take size s.buffer)

  abbrev flushed : String → ℕ → Sink → Sink
  flushed tag size s =
      with_part tag (noted (part_call size s) (some tag) (with_buffer (drop size s.buffer) s))

  flush-ok :
      (size : ℕ) (s s' : Sink)
      → flush c size s ≡ (ok tt, s')
      → (tag : String) × (flushed tag size s ≡ s')
  unfolding flush
  flush-ok size s s' returns =
      let (tag, s1, calls, ends) =
        then_next-ok (call_client c (part_call size s) (with_buffer (drop size s.buffer) s)) _
          returns in
      (tag, ap (with_part tag) (call_client-ok _ _ s1 tag calls) ∙ same _ s' ends)

  flushed-whole :
      (tag : String) (size : ℕ) (s : Sink)
      → uploaded (flushed tag size s).calls ++ (flushed tag size s).buffer
        ≡ uploaded s.calls ++ s.buffer
  flushed-whole tag size s =
      append_assoc (uploaded s.calls) (take size s.buffer) (drop size s.buffer)
      ∙ ap (λ l. uploaded s.calls ++ l) (take-drop size s.buffer)

  -- The new part is the next of the upload.
  flushed-lists :
      (tag : String) (size : ℕ) (s : Sink)
      → listed s.calls ≡ s.parts
      → listed (flushed tag size s).calls ≡ (flushed tag size s).parts
  flushed-lists tag size s lists = ap (λ l. l ++ (tag, part_number s.parts) ∷ []) lists

  flushed-Numbered :
      (tag : String) (size : ℕ) (s : Sink)
      → listed s.calls ≡ s.parts
      → Numbered c.staging_key s.upload_id s.calls
      → Numbered c.staging_key s.upload_id (flushed tag size s).calls
  flushed-Numbered tag size s lists numbered =
      (refl, refl, ap (λ (l : List Part). suc (length l)) (sym lists), numbered)

  -- What is written stays in the parts and the buffer, and a full part leaves less in the buffer.
  flushed-IsBuffered :
      (tag : String) (s : Sink)
      → IsBuffered s
      → c.part_bytes ≤ length s.buffer
      → IsBuffered (flushed tag c.part_bytes s)
  flushed-IsBuffered tag s b fits = record {
    whole = flushed-whole tag c.part_bytes s ∙ b.whole;
    counts = b.counts;
    lists = flushed-lists tag c.part_bytes s b.lists;
    numbered = flushed-Numbered tag c.part_bytes s b.lists b.numbered;
    sized = (omega (arith, length-take c.part_bytes s.buffer, fits), b.sized);
  }

  -- What a write leaves: less than a part in the buffer.
  pub record IsWritten (s s' : Sink) : Type 0 where
    pub buffered : IsBuffered s'
    pub hashes : s'.hashed ≡ s.hashed
    pub rests : length s'.buffer < c.part_bytes

  flush_while-IsWritten :
      (fuel : ℕ) (s s' : Sink)
      → 1 ≤ c.part_bytes
      → length s.buffer ≤ fuel
      → IsBuffered s
      → flush_while c fuel s ≡ (ok tt, s')
      → IsWritten s s'
  unfolding flush_while
  flush_while-IsWritten zero s s' positive enough b returns =
      subst (IsWritten s) (same s s' returns)
        (record { buffered = b; hashes = refl; rests = omega (arith, positive, enough) })
  flush_while-IsWritten (suc fuel) s s' positive enough b returns =
      split (leb c.part_bytes (length s.buffer)) refl returns (λ s1 flushes fits rest.
        let (tag, is) = flush-ok c.part_bytes s s1 flushes in
        flush_while-IsWritten fuel s1 s' positive
          (subst (λ t. length t.buffer ≤ fuel) is
            (omega (arith, enough, positive, length-drop c.part_bytes s.buffer fits)))
          (subst IsBuffered is (flushed-IsBuffered tag s b fits)) rest)
    where
      split :
          (full : Bool)
          → leb c.part_bytes (length s.buffer) ≡ full
          → if_full full (then_next (flush c c.part_bytes s) (λ _ s. flush_while c fuel s)) s
            ≡ (ok tt, s')
          → ((s1 : Sink)
              → flush c c.part_bytes s ≡ (ok tt, s1)
              → c.part_bytes ≤ length s.buffer
              → flush_while c fuel s1 ≡ (ok tt, s')
              → IsWritten s1 s')
          → IsWritten s s'
      split true e returns' next =
          let (u, s1, flushes, rest) = then_next-ok (flush c c.part_bytes s) _ returns' in
          let w = next s1 flushes (leb→le _ _ e) rest in
          record {
            buffered = w.buffered;
            hashes = w.hashes ∙ sym (ap (λ t. t.hashed) (flush-ok c.part_bytes s s1 flushes).1);
            rests = w.rests;
          }
      split false e returns' next =
          subst (IsWritten s) (same s s' returns')
            (record { buffered = b; hashes = refl; rests = leb-false→lt _ _ e })

  -- A write that returned appended its chunk.
  pub write_chunk-IsWritten :
      (chunk : List ℕ) (s s' : Sink)
      → 1 ≤ c.part_bytes
      → IsBuffered s
      → write_chunk c chunk s ≡ (ok tt, s')
      → IsWritten (taken chunk s) s'
  unfolding write_chunk
  write_chunk-IsWritten chunk s s' positive b returns =
      flush_while-IsWritten (length (s.buffer ++ chunk)) (taken chunk s) s' positive (omega arith)
        (record {
          whole =
              sym (append_assoc (uploaded s.calls) s.buffer chunk) ∙ ap (λ l. l ++ chunk) b.whole;
          counts = omega (arith, b.counts, length-append s.hashed chunk);
          lists = b.lists;
          numbered = b.numbered;
          sized = b.sized;
        })
        returns

  unfoldable pub write_all : List (List ℕ) → Sink → SinkReply (Unit {0})
  write_all [] s = (ok tt, s)
  write_all (chunk ∷ chunks) s = then_next (write_chunk c chunk s) (λ _ s. write_all chunks s)

  -- All of the chunks were appended.
  pub write_all-IsWritten :
      (chunks : List (List ℕ)) (s s' : Sink)
      → 1 ≤ c.part_bytes
      → IsBuffered s
      → length s.buffer < c.part_bytes
      → write_all chunks s ≡ (ok tt, s')
      → IsBuffered s' × (s'.hashed ≡ s.hashed ++ concat chunks) × (length s'.buffer < c.part_bytes)
  unfolding write_all
  write_all-IsWritten [] s s' positive b rests returns =
      subst (λ t. IsBuffered t × (t.hashed ≡ s.hashed ++ []) × (length t.buffer < c.part_bytes))
        (same s s' returns) (b, sym (append-nil s.hashed), rests)
  write_all-IsWritten (chunk ∷ chunks) s s' positive b rests returns =
      let (u, s1, writes, rest) = then_next-ok (write_chunk c chunk s) _ returns in
      let w = write_chunk-IsWritten chunk s s1 positive b writes in
      let (b', hashes, rests') =
        write_all-IsWritten chunks s1 s' positive w.buffered w.rests rest in
      (
        b',
        hashes
            ∙ ap (λ l. l ++ concat chunks) w.hashes
            ∙ append_assoc s.hashed chunk (concat chunks),
        rests',
      )

  -- What the first flush of a commit leaves: everything is in the parts.
  pub record IsFlushed (s s' : Sink) : Type 0 where
    pub whole : uploaded s'.calls ≡ s.hashed
    pub lists : listed s'.calls ≡ s'.parts
    pub numbered : Numbered c.staging_key s'.upload_id s'.calls
    pub counts : s'.written ≡ length s'.hashed
    pub sized : AllButLastSized c.part_bytes s'.calls
    pub hashes : s'.hashed ≡ s.hashed

  Sized-ButLast : (calls : Calls) → AllSized c.part_bytes calls → AllButLastSized c.part_bytes calls
  Sized-ButLast [] sized = tt
  Sized-ButLast ((upload_part key id number body, some tag) ∷ calls) (here, sized) =
      (omega (arith, here), sized)
  Sized-ButLast ((upload_part key id number body, none) ∷ calls) sized = Sized-ButLast calls sized
  Sized-ButLast ((call, returned) ∷ calls) sized = Sized-ButLast calls sized

  is_empty-nil : (bytes : List ℕ) → not (is_zero (length bytes)) ≡ false → bytes ≡ []
  is_empty-nil [] e = refl
  is_empty-nil (b ∷ bytes) e = absurd cc

  pub flush_rest-IsFlushed :
      (s s' : Sink)
      → IsBuffered s
      → length s.buffer < c.part_bytes
      → flush_rest c s ≡ (ok tt, s')
      → IsFlushed s s'
  unfolding flush_rest
  flush_rest-IsFlushed s s' b rests returns =
      split (not (is_zero (length s.buffer)) || is_zero (length s.parts)) refl returns
    where
      split :
          (test : Bool)
          → not (is_zero (length s.buffer)) || is_zero (length s.parts) ≡ test
          → if_full test (flush c (length s.buffer) s) s ≡ (ok tt, s')
          → IsFlushed s s'
      split true e returns' =
          let (tag, is) = flush-ok (length s.buffer) s s' returns' in
          subst (IsFlushed s) is (record {
            whole = ap (λ l. uploaded s.calls ++ l) (take-all s.buffer) ∙ b.whole;
            lists = flushed-lists tag (length s.buffer) s b.lists;
            numbered = flushed-Numbered tag (length s.buffer) s b.lists b.numbered;
            counts = b.counts;
            sized = (omega (arith, rests, length-take (length s.buffer) s.buffer), b.sized);
            hashes = refl;
          })
      split false e returns' =
          let (empty, _) = or-false (not (is_zero (length s.buffer))) _ e in
          subst (IsFlushed s) (same s s' returns') (record {
            whole =
                sym (append-nil (uploaded s.calls))
                ∙ ap (λ l. uploaded s.calls ++ l) (sym (is_empty-nil s.buffer empty))
                ∙ b.whole;
            lists = b.lists;
            numbered = b.numbered;
            counts = b.counts;
            sized = Sized-ButLast s.calls b.sized;
            hashes = refl;
          })
