-- ===== src/Bronze/Copies.antt =====
-- The calls by which `commit` of S3ArtifactSink copies the staged object to its final key.
use mathlib.Core.List.{append_assoc}
use property_tax_data_platfo.Base.{
  ℕ, ◌≤◌, ◌<◌, zero, suc, String, Bool, true, false, Option, none, some, List, [], ◌∷◌, ◌++◌, ◌≡◌,
  refl, sym, ap, ◌∙◌, Except, ok, err, All, All-append, ltb, leb, leb→le, leb-false→lt, length,
  if◌then◌else◌,
}
use property_tax_data_platfo.Bronze.Store.{Fault, client}
use property_tax_data_platfo.Bronze.Sink.{
  S3Call, create_upload, complete_upload, copy_part, abort_upload, Part, Calls, Sink, Setting,
  SinkReply, answer_of, noted, with_copy, part_number, then_next, if_more, call_client,
  max_single_copy_bytes, copy_parts, complete_copy, copy_once, copy_in_parts, settle_parts,
  settle_copy, copy_final, final_key, range_end,
}
use property_tax_data_platfo.Bronze.Parts.{same, then_next-ok, call_client-ok}
use property_tax_data_platfo.Bronze.Copied.{range_call, next_parts, settle_parts-ok}

-- One of the calls did not return.
abbrev pub has_refusal : Calls → Bool
has_refusal [] = false
has_refusal ((call, none) ∷ calls) = true
has_refusal ((call, some answer) ∷ calls) = has_refusal calls

more-refusals : (a b : Calls) → has_refusal b ≡ true → has_refusal (a ++ b) ≡ true
more-refusals [] b e = e
more-refusals ((call, none) ∷ a) b e = refl
more-refusals ((call, some answer) ∷ a) b e = more-refusals a b e

refusal-before : (a b : Calls) → has_refusal a ≡ true → has_refusal (a ++ b) ≡ true
refusal-before [] b e = absurd cc
refusal-before ((call, none) ∷ a) b e = refl
refusal-before ((call, some answer) ∷ a) b e = refusal-before a b e

-- A call of a copy in parts, from one key to another.
abbrev pub CopiesTo : String → String → S3Call × Option String → Type 0
CopiesTo source key (create_upload at, answer) = at ≡ key
CopiesTo source key (copy_part at id number from first last, answer) = (at ≡ key) × (from ≡ source)
CopiesTo source key (complete_upload at id parts condition, answer) =
    (at ≡ key) × (condition ≡ some "*")
CopiesTo source key (abort_upload at id, answer) = at ≡ key
CopiesTo source key _ = ⊥

-- The tags and numbers of the ranges that were copied, in their order.
abbrev pub copied_parts : Calls → List Part
copied_parts [] = []
copied_parts ((copy_part key id number source first last, some tag) ∷ calls) =
    copied_parts calls ++ (tag, number) ∷ []
copied_parts (_ ∷ calls) = copied_parts calls

-- These calls copied ranges of one key to this upload of another, numbered from 1 in their order.
abbrev pub CopiesRanges : String → String → String → Calls → Type 0
CopiesRanges source key id [] = Unit
CopiesRanges source key id ((copy_part at upload number from first last, some tag) ∷ calls) =
    (at ≡ key)
    × (upload ≡ some id)
    × (number ≡ suc (length (copied_parts calls)))
    × (from ≡ source)
    × CopiesRanges source key id calls
CopiesRanges source key id (_ ∷ calls) = ⊥

-- The calls that copy the object, of this size, to the key: one copy where it is small enough, and
-- otherwise a copy in parts, which is the creation of an upload, the copies of its ranges and the
-- completion of the upload with all of them listed, unless a call was refused.
pub data IsCopied (source key : String) (size : ℕ) (copying : Calls) : Type 0 where
  at_once :
      (answer : Option String)
      → size ≤ max_single_copy_bytes
      → copying ≡ (S3Call.copy_object key source (some "*"), answer) ∷ []
      → IsCopied source key size copying
  in_parts :
      (id tag : String) (ranges : Calls)
      → max_single_copy_bytes < size
      → CopiesRanges source key id ranges
      → copying
        ≡ (complete_upload key (some id) (copied_parts ranges) (some "*"), some tag) ∷ ranges
          ++ (create_upload key, some id) ∷ []
      → IsCopied source key size copying
  refused :
      max_single_copy_bytes < size
      → All (CopiesTo source key) copying
      → has_refusal copying ≡ true
      → IsCopied source key size copying

-- Where an action raised, one of its calls did.
abbrev Shows {ℓ} : {A : Type ℓ} → Except Fault A → Calls → Type 0
Shows (ok a) calls = Unit
Shows (err fault) calls = has_refusal calls ≡ true

ok-same :
    (parts all : List Part) (s s' : Sink)
    → ◌≡◌ {A = SinkReply (List Part)} (ok parts, s) (ok all, s')
    → (parts ≡ all) × (s ≡ s')
ok-same parts all s s' e = (cc, cc)

module _ (c : Setting) where
  -- The log grew by calls of a copy, and the digest is left as it is.
  record Grew {A : Type 0} (key : String) (s : Sink) (r : SinkReply A) : Type 0 where
    pub more : Calls
    pub grows : (r.1).calls ≡ more ++ s.calls
    pub copies : All (CopiesTo c.staging_key key) more
    pub hashes : (r.1).hashed ≡ s.hashed
    pub shows : Shows (r.0) more

  Grew-nothing : {A : Type 0} (key : String) (s : Sink) (a : A) → Grew key s (ok a, s)
  Grew-nothing key s a = record { more = []; grows = refl; copies = tt; hashes = refl; shows = tt }

  -- A copy's record changes nothing of it.
  Grew-copy :
      {A : Type 0} (key : String) (copy : Option (String × String)) (s : Sink) (r : SinkReply A)
      → Grew key (with_copy copy s) r
      → Grew key s r
  Grew-copy key copy s r g = record {
    more = g.more;
    grows = g.grows;
    copies = g.copies;
    hashes = g.hashes;
    shows = g.shows;
  }

  Grew-call :
      (key : String) (call : S3Call) (s : Sink)
      → ((answer : Option String) → CopiesTo c.staging_key key (call, answer))
      → Grew key s (call_client c call s)
  unfolding call_client
  Grew-call key call s copies = split (c.reply (length s.calls) call)
    where
      split : (reply : Except Fault String) → Grew key s (reply, noted call (answer_of reply) s)
      split (ok answer) = record {
        more = (call, some answer) ∷ [];
        grows = refl;
        copies = (copies (some answer), tt);
        hashes = refl;
        shows = tt;
      }
      split (err fault) = record {
        more = (call, none) ∷ [];
        grows = refl;
        copies = (copies none, tt);
        hashes = refl;
        shows = refl;
      }

  Shows-more : {A : Type 0} (r : Except Fault A) (a b : Calls) → Shows r a → Shows r (a ++ b)
  Shows-more (ok value) a b shows = tt
  Shows-more (err fault) a b shows = refusal-before a b shows

  Grew-then :
      {A B : Type 0} (key : String) (s : Sink) (r : SinkReply A) (next : A → Sink → SinkReply B)
      → Grew key s r
      → ((a : A) (t : Sink) → Grew key t (next a t))
      → Grew key s (then_next r next)
  Grew-then key s (err fault, t) next g after = record {
    more = g.more;
    grows = g.grows;
    copies = g.copies;
    hashes = g.hashes;
    shows = g.shows;
  }
  Grew-then key s (ok a, t) next g after =
      let g' = after a t in
      record {
        more = g'.more ++ g.more;
        grows =
            g'.grows ∙ ap (λ l. g'.more ++ l) g.grows ∙ sym (append_assoc g'.more g.more s.calls);
        copies = All-append _ g'.more g.more g'.copies g.copies;
        hashes = g'.hashes ∙ g.hashes;
        shows = Shows-more ((next a t).0) g'.more g.more g'.shows;
      }

  Grew-more :
      {A : Type 0} (key : String) (s : Sink) (more : Bool) (r done : SinkReply A)
      → Grew key s r
      → Grew key s done
      → Grew key s (if_more more r done)
  Grew-more key s true r done g g' = g
  Grew-more key s false r done g g' = g'

  copy_parts-Grew :
      (fuel : ℕ) (key id : String) (parts : List Part) (start : ℕ) (s : Sink)
      → Grew key s (copy_parts c fuel key id parts start s)
  unfolding copy_parts
  copy_parts-Grew zero key id parts start s = Grew-nothing key s parts
  copy_parts-Grew (suc fuel) key id parts start s =
      Grew-more key s (ltb start s.written) _ (ok parts, s)
        (Grew-then key s (call_client c (range_call c key id parts start s) s) _
          (Grew-call key (range_call c key id parts start s) s (λ answer. (refl, refl)))
          (λ tag t. copy_parts-Grew fuel key id (next_parts c parts tag) (range_end c start s) t))
        (Grew-nothing key s parts)

  settle_parts-Grew :
      (key id : String) (s : Sink) (r : SinkReply (Unit {0}))
      → Grew key s r
      → Grew key s (settle_parts c key id r)
  unfolding settle_parts
  settle_parts-Grew key id s (ok _, t) g = record {
    more = g.more;
    grows = g.grows;
    copies = g.copies;
    hashes = g.hashes;
    shows = tt;
  }
  settle_parts-Grew key id s (err Fault.interrupted, t) g = g
  settle_parts-Grew key id s (err (client e), t) g =
      aborted (call_client c (abort_upload key (some id)) t)
        (Grew-call key (abort_upload key (some id)) t (λ answer. refl))
    where
      aborted :
          (r : SinkReply String)
          → Grew key t r
          → Grew {A = Unit {0}} key s (then_next r (λ _ s. (err (client e), with_copy none s)))
      aborted (ok answer, u) g' = record {
        more = g'.more ++ g.more;
        grows =
            g'.grows ∙ ap (λ l. g'.more ++ l) g.grows ∙ sym (append_assoc g'.more g.more s.calls);
        copies = All-append _ g'.more g.more g'.copies g.copies;
        hashes = g'.hashes ∙ g.hashes;
        shows = more-refusals g'.more g.more g.shows;
      }
      aborted (err fault, u) g' = record {
        more = g'.more ++ g.more;
        grows =
            g'.grows ∙ ap (λ l. g'.more ++ l) g.grows ∙ sym (append_assoc g'.more g.more s.calls);
        copies = All-append _ g'.more g.more g'.copies g.copies;
        hashes = g'.hashes ∙ g.hashes;
        shows = more-refusals g'.more g.more g.shows;
      }

  copy_in_parts-Grew : (key : String) (s : Sink) → Grew key s (copy_in_parts c key s)
  unfolding copy_in_parts complete_copy
  copy_in_parts-Grew key s =
      Grew-then key s (call_client c (create_upload key) s) _
        (Grew-call key (create_upload key) s (λ answer. refl))
        (λ id t. settle_parts-Grew key id t _ (
          Grew-then key t (copy_parts c t.written key id [] 0 (with_copy (some (key, id)) t)) _
            (Grew-copy key (some (key, id)) t _
              (copy_parts-Grew t.written key id [] 0 (with_copy (some (key, id)) t)))
            (λ parts t'.
              Grew-then key t' (call_client c (complete_upload key (some id) parts (some "*")) t') _
                (Grew-call key (complete_upload key (some id) parts (some "*")) t'
                  (λ answer. (refl, refl)))
                (λ _ t''. Grew-nothing key t'' tt))))

  -- The loop that returned copied ranges behind those before it, and lists them all.
  copy_parts-Ranges :
      (fuel : ℕ) (key id : String) (parts all : List Part) (start : ℕ) (s s' : Sink)
      (ranges base : Calls)
      → s.calls ≡ ranges ++ base
      → parts ≡ copied_parts ranges
      → CopiesRanges c.staging_key key id ranges
      → copy_parts c fuel key id parts start s ≡ (ok all, s')
      → (ranges' : Calls) × (s'.calls ≡ ranges' ++ base)
        × (all ≡ copied_parts ranges')
        × CopiesRanges c.staging_key key id ranges'
  unfolding copy_parts
  copy_parts-Ranges zero key id parts all start s s' ranges base at lists copies returns =
      let (parts_same, sink_same) = ok-same parts all s s' returns in
      (ranges, sym (ap (λ t. t.calls) sink_same) ∙ at, sym parts_same ∙ lists, copies)
  copy_parts-Ranges (suc fuel) key id parts all start s s' ranges base at lists copies returns =
      split (ltb start s.written) returns (λ tag s1 is rest.
        copy_parts-Ranges fuel key id (next_parts c parts tag) all (range_end c start s) s1 s'
          ((range_call c key id parts start s, some tag) ∷ ranges) base
          (sym (ap (λ t. t.calls) is)
            ∙ ap (λ (l : Calls). (range_call c key id parts start s, some tag) ∷ l) at)
          (ap (λ l. l ++ (tag, part_number parts) ∷ []) lists)
          (refl, refl, ap (λ (l : List Part). suc (length l)) lists, refl, copies) rest)
    where
      split :
          (more : Bool)
          → if_more more
              (then_next (call_client c (range_call c key id parts start s) s) (λ tag s'.
                copy_parts c fuel key id (next_parts c parts tag) (range_end c start s) s'))
              (ok parts, s)
            ≡ (ok all, s')
          → ((tag : String) (s1 : Sink)
              → noted (range_call c key id parts start s) (some tag) s ≡ s1
              → copy_parts c fuel key id (next_parts c parts tag) (range_end c start s) s1
                ≡ (ok all, s')
              → (ranges' : Calls) × (s'.calls ≡ ranges' ++ base)
                × (all ≡ copied_parts ranges')
                × CopiesRanges c.staging_key key id ranges')
          → (ranges' : Calls) × (s'.calls ≡ ranges' ++ base)
            × (all ≡ copied_parts ranges')
            × CopiesRanges c.staging_key key id ranges'
      split true returns' next =
          let (tag, s1, copied, rest) =
            then_next-ok (call_client c (range_call c key id parts start s) s) _ returns' in
          next tag s1 (call_client-ok c _ s s1 tag copied) rest
      split false returns' next =
          let (parts_same, sink_same) = ok-same parts all s s' returns' in
          (ranges, sym (ap (λ t. t.calls) sink_same) ∙ at, sym parts_same ∙ lists, copies)

  -- A copy in parts that returned created an upload, copied ranges to it and completed it.
  copy_in_parts-completes :
      (key : String) (s s' : Sink)
      → copy_in_parts c key s ≡ (ok tt, s')
      → (id : String) × (tag : String) × (ranges : Calls) × (s'.calls
          ≡ (complete_upload key (some id) (copied_parts ranges) (some "*"), some tag) ∷ ranges
            ++ (create_upload key, some id) ∷ s.calls)
        × CopiesRanges c.staging_key key id ranges
  unfolding copy_in_parts complete_copy
  copy_in_parts-completes key s s' returns =
      let (id, s1, creates, r1) = then_next-ok (call_client c (create_upload key) s) _ returns in
      let (s4, r4, ends) = settle_parts-ok c key id _ s' r1 in
      let (parts, s2, copies, r2) =
        then_next-ok (copy_parts c s1.written key id [] 0 (with_copy (some (key, id)) s1)) _ r4 in
      let finishes = complete_upload key (some id) parts (some "*") in
      let (tag, s3, completes, r3) = then_next-ok (call_client c finishes s2) _ r2 in
      let (ranges, grows, lists, copied) =
        copy_parts-Ranges s1.written key id [] parts 0 (with_copy (some (key, id)) s1) s2 []
          s1.calls refl refl tt copies in
      (
        id,
        tag,
        ranges,
        ap (λ t. t.calls)
              (sym (
                ap (with_copy none) (call_client-ok c finishes s2 s3 tag completes ∙ same s3 s4 r3)
                ∙ ends))
            ∙ ap (λ (l : Calls). (finishes, some tag) ∷ l)
                (grows
                  ∙ ap (λ l. ranges ++ l)
                      (sym
                        (ap (λ t. t.calls) (call_client-ok c (create_upload key) s s1 id creates))))
            ∙ ap
                (λ (parts : List Part).
                  (complete_upload key (some id) parts (some "*"), some tag) ∷ ranges
                  ++ (create_upload key, some id) ∷ s.calls)
                lists,
        copied,
      )

  -- What the copy of a commit that went on did.
  pub record Finished (key : String) (s s' : Sink) : Type 0 where
    pub copying : Calls
    pub grows : s'.calls ≡ copying ++ s.calls
    pub hashes : s'.hashed ≡ s.hashed
    pub copied : IsCopied c.staging_key key s.written copying

  settled : (r : SinkReply (Unit {0})) (s' : Sink) → settle_copy r ≡ (ok tt, s') → r.1 ≡ s'
  unfolding settle_copy
  settled (ok _, s) s' returns = same s s' returns
  settled (err Fault.interrupted, s) s' returns = absurd cc
  settled (err (client e), s) s' returns = ap (λ q. q.1) returns

  parts-Finished :
      (key : String) (s s' : Sink) (r : SinkReply (Unit {0}))
      → max_single_copy_bytes < s.written
      → copy_in_parts c key s ≡ r
      → Grew key s r
      → r.1 ≡ s'
      → Finished key s s'
  parts-Finished key s s' (ok tt, t) large is g e =
      let (id, tag, ranges, ends, copies) = copy_in_parts-completes key s t is in
      record {
        copying =
            (complete_upload key (some id) (copied_parts ranges) (some "*"), some tag) ∷ ranges
            ++ (create_upload key, some id) ∷ [];
        grows =
            sym (ap (λ u. u.calls) e)
            ∙ ends
            ∙ ap
                (λ (l : Calls).
                  (complete_upload key (some id) (copied_parts ranges) (some "*"), some tag) ∷ l)
                (sym (append_assoc ranges ((create_upload key, some id) ∷ []) s.calls));
        hashes = sym (ap (λ u. u.hashed) e) ∙ g.hashes;
        copied = in_parts id tag ranges large copies refl;
      }
  parts-Finished key s s' (err fault, t) large is g e = record {
    copying = g.more;
    grows = sym (ap (λ u. u.calls) e) ∙ g.grows;
    hashes = sym (ap (λ u. u.hashed) e) ∙ g.hashes;
    copied = refused large g.copies g.shows;
  }

  once-Finished :
      (key : String) (s s' : Sink) (reply : Except Fault String)
      → s.written ≤ max_single_copy_bytes
      → (then_next {B = Unit {0}}
          (reply, noted (copy_once c key) (answer_of reply) s)
          (λ _ s. (ok tt, s))).1
        ≡ s'
      → Finished key s s'
  once-Finished key s s' (ok tag) small e = record {
    copying = (copy_once c key, some tag) ∷ [];
    grows = sym (ap (λ u. u.calls) e);
    hashes = sym (ap (λ u. u.hashed) e);
    copied = at_once (some tag) small refl;
  }
  once-Finished key s s' (err fault) small e = record {
    copying = (copy_once c key, none) ∷ [];
    grows = sym (ap (λ u. u.calls) e);
    hashes = sym (ap (λ u. u.hashed) e);
    copied = at_once none small refl;
  }

  pub copy_final-Finished :
      (s s' : Sink) → settle_copy (copy_final c s) ≡ (ok tt, s') → Finished (final_key c s) s s'
  unfolding copy_final call_client
  copy_final-Finished s s' returns =
      split (leb s.written max_single_copy_bytes) refl (settled (copy_final c s) s' returns)
    where
      split :
          (small : Bool)
          → leb s.written max_single_copy_bytes ≡ small
          → (if small
              then then_next (call_client c (copy_once c (final_key c s)) s) (λ _ s. (ok tt, s))
              else copy_in_parts c (final_key c s) s).1
            ≡ s'
          → Finished (final_key c s) s s'
      split true e at =
          once-Finished (final_key c s) s s'
            (c.reply (length s.calls) (copy_once c (final_key c s))) (leb→le _ _ e) at
      split false e at =
          parts-Finished (final_key c s) s s' _ (leb-false→lt _ _ e) refl
            (copy_in_parts-Grew (final_key c s) s) at
