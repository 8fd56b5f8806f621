-- ===== src/Bronze/Copying.antt =====
-- The uploads that S3ArtifactSink has open while it copies.
use mathlib.Core.Path.{subst}
use property_tax_data_platfo.Base.{
  ℕ, zero, suc, String, List, [], true, false, not, ◌&&◌, none, some, ◌∷◌, ◌≡◌, refl, sym, ap, ◌∙◌,
  inl, inr, Except, ok, err, ltb, leb, length, if◌then◌else◌,
}
use property_tax_data_platfo.Bronze.Store.{ClientError, Fault, client}
use property_tax_data_platfo.Bronze.Sink.{
  S3Call, create_upload, complete_upload, abort_upload, Sink, Setting, SinkReply, answer_of, Part,
  range_end, complete_copy, copy_once, noted, with_copy, then_next, call_client,
  max_single_copy_bytes, copy_parts, copy_in_parts, settle_parts, settle_copy, copy_final,
  final_key,
}
use property_tax_data_platfo.Bronze.Copied.{range_call, next_parts}
use property_tax_data_platfo.Bronze.Parts.{same, call_client-ok}
use property_tax_data_platfo.Bronze.Open.{
  is_open, names, names-same, if_more-holds, IsQuiet, or-cases, is_open-failed, Known, Tracked,
  quiet-Tracked, uncopy, then_next-holds, Staged, quiet-call_Tracked,
}

module _ (c : Setting) where
  pub call-failed :
      (call : S3Call) (s : Sink) (reply : Except Fault String)
      → ((answer : String) → reply ≡ ok answer → Tracked c (noted call (some answer) s))
      → Tracked c s
      → Tracked c (noted call (answer_of reply) s)
  call-failed call s (ok answer) returned tracked = returned answer refl
  call-failed call s (err fault) returned tracked =
      λ key id opened. tracked key id (sym (is_open-failed key id call s.calls) ∙ opened)

  pub call-Tracked :
      (call : S3Call) (s : Sink)
      → ((answer : String) → Tracked c (noted call (some answer) s))
      → Tracked c s
      → Tracked c (call_client c call s).1
  unfolding call_client
  call-Tracked call s returned tracked =
      call-failed call s (c.reply (length s.calls) call) (λ answer e. returned answer) tracked

  -- A call that returned, and what is then set.
  pub set-Tracked :
      (call : S3Call) (s t : Sink) (answer : String) (set : Sink → Sink)
      → Tracked c (set (noted call (some answer) s))
      → call_client c call s ≡ (ok answer, t)
      → Tracked c (set t)
  set-Tracked call s t answer set tracked returned =
      subst (λ u. Tracked c (set u)) (call_client-ok c call s t answer returned) tracked

  -- While the ranges are copied: the copy's upload is known.
  abbrev pub Copying : String → String → Sink → Type 0
  Copying key id s = Tracked c s × (s.copy_upload ≡ some (key, id))

  pub quiet-Copying :
      (key id : String) (call : S3Call) (s : Sink)
      → IsQuiet call
      → Copying key id s
      → Copying key id (call_client c call s).1
  unfolding call_client
  quiet-Copying key id call s quiet (tracked, copies) =
      (quiet-Tracked c call _ s quiet tracked, copies)

  pub copy_parts-Copying :
      (fuel : ℕ) (key id : String) (parts : List Part) (start : ℕ) (s : Sink)
      → Copying key id s
      → Copying key id (copy_parts c fuel key id parts start s).1
  unfolding copy_parts
  copy_parts-Copying zero key id parts start s copying = copying
  copy_parts-Copying (suc fuel) key id parts start s copying =
      if_more-holds c (Copying key id) (ltb start s.written) _ (ok parts, s)
        (then_next-holds c (Copying key id) (call_client c (range_call c key id parts start s) s) _
          (quiet-Copying key id (range_call c key id parts start s) s tt copying)
          (λ tag t returned copying'.
            copy_parts-Copying fuel key id (next_parts c parts tag) (range_end c start s) t
              copying'))
        copying

  -- The copy's upload was closed by the latest call.
  pub closed-Tracked :
      (key id : String) (call : S3Call) (answer : String) (s : Sink)
      → ((at other : String)
          → is_open at other ((call, some answer) ∷ s.calls)
            ≡ not (names key (some id) at other) && is_open at other s.calls)
      → Copying key id s
      → Tracked c (with_copy none (noted call (some answer) s))
  closed-Tracked key id call answer s closes (tracked, copies) = λ at other opened.
      uncopy c key id s.upload_id s.calls
        (subst (λ copy. Known c s.upload_id copy s.calls) copies tracked) at other
        (sym (closes at other) ∙ opened)

  -- What the `try` of `_copy_in_parts` comes to.
  abbrev pub Inner : String → String → SinkReply (Unit {0}) → Type 0
  Inner key id (ok _, s) = Tracked c (with_copy none s)
  Inner key id (err fault, s) = Copying key id s

  pub completing-Inner :
      (key id : String) (parts : List Part) (s : Sink)
      → Copying key id s
      → Inner key id (complete_copy c key id parts s)
  unfolding complete_copy call_client
  completing-Inner key id parts s copying =
      split (c.reply (length s.calls) (complete_upload key (some id) parts (some "*")))
    where
      split :
          (reply : Except Fault String)
          → Inner key id (
              then_next {A = String} {B = Unit {0}}
                (reply, noted (complete_upload key (some id) parts (some "*")) (answer_of reply) s)
                (λ _ s. (ok tt, s)))
      split (ok tag) =
          closed-Tracked key id (complete_upload key (some id) parts (some "*")) tag s
            (λ at other. refl) copying
      split (err fault) = ((λ at other opened. copying.0 at other opened), copying.1)

  pub Copying-Inner :
      (key id : String) (r : SinkReply (List Part))
      → Copying key id (r.1)
      → Inner key id (then_next r (complete_copy c key id))
  Copying-Inner key id (ok parts, s) copying = completing-Inner key id parts s copying
  Copying-Inner key id (err fault, s) copying = copying

  pub refused-noted :
      (call : S3Call) (s t : Sink) (fault : Fault)
      → call_client c call s ≡ (err fault, t)
      → noted call none s ≡ t
  unfolding call_client
  refused-noted call s t fault returned = split (c.reply (length s.calls) call) returned
    where
      split :
          (reply : Except Fault String)
          → ◌≡◌ {A = SinkReply String} (reply, noted call (answer_of reply) s) (err fault, t)
          → noted call none s ≡ t
      split (ok answer) e = absurd cc
      split (err other) e = cc

  -- A call that was refused closed nothing.
  pub refused-Tracked :
      (call : S3Call) (s t : Sink) (fault : Fault)
      → Tracked c s
      → call_client c call s ≡ (err fault, t)
      → Tracked c t
  refused-Tracked call s t fault tracked returned =
      subst (Tracked c) (refused-noted call s t fault returned)
        (λ key id opened. tracked key id (sym (is_open-failed key id call s.calls) ∙ opened))

  pub aborting-Tracked :
      (key id : String) (e : ClientError) (s : Sink)
      → Copying key id s
      → Tracked c
          (then_next {B = Unit {0}}
            (call_client c (abort_upload key (some id)) s)
            (λ _ s. (err (client e), with_copy none s))).1
  aborting-Tracked key id e s copying = split (call_client c (abort_upload key (some id)) s) refl
    where
      split :
          (r : SinkReply String)
          → call_client c (abort_upload key (some id)) s ≡ r
          → Tracked c (then_next {B = Unit {0}} r (λ _ s. (err (client e), with_copy none s))).1
      split (ok answer, t) returned =
          set-Tracked (abort_upload key (some id)) s t answer (with_copy none)
            (closed-Tracked key id (abort_upload key (some id)) answer s (λ at other. refl) copying)
            returned
      split (err fault, t) returned =
          refused-Tracked (abort_upload key (some id)) s t fault (copying.0) returned

  pub settle_parts-Tracked :
      (key id : String) (r : SinkReply (Unit {0}))
      → Inner key id r
      → Tracked c (settle_parts c key id r).1
  unfolding settle_parts
  settle_parts-Tracked key id (ok _, s) inner = inner
  settle_parts-Tracked key id (err Fault.interrupted, s) inner = inner.0
  settle_parts-Tracked key id (err (client e), s) inner = aborting-Tracked key id e s inner

  pub copy_in_parts-Tracked :
      (key : String) (s : Sink) → Staged c s → Tracked c (copy_in_parts c key s).1
  unfolding copy_in_parts
  copy_in_parts-Tracked key s (tracked, uncopied) = split (call_client c (create_upload key) s) refl
    where
      created :
          (id : String)
          → Copying key id (with_copy (some (key, id)) (noted (create_upload key) (some id) s))
      created id = (
        λ at other opened.
            elim (or-cases (names key (some id) at other) (is_open at other s.calls) opened) [
              | inl same ↦
                  let (keys, ids) = names-same key id at other same in
                  inr
                    (ap (λ (k : String). some (k, id)) keys ∙ ap (λ (i : String). some (at, i)) ids)
              | inr still ↦ elim (tracked at other still) [
                | inl staging ↦ inl staging
                | inr copies ↦ absurd (cc (copies, uncopied))
              ]
            ],
        refl,
      )

      split :
          (r : SinkReply String)
          → call_client c (create_upload key) s ≡ r
          → Tracked c
              (then_next r (λ id s. settle_parts c key id (
                then_next
                  (copy_parts c s.written key id [] 0 (with_copy (some (key, id)) s))
                  (complete_copy c key id)))).1
      split (ok id, t) returned = settle_parts-Tracked key id _ (
          Copying-Inner key id (copy_parts c t.written key id [] 0 (with_copy (some (key, id)) t)) (
            copy_parts-Copying t.written key id [] 0 (with_copy (some (key, id)) t) (
              subst (λ u. Copying key id (with_copy (some (key, id)) u))
                (call_client-ok c (create_upload key) s t id returned) (created id))))
      split (err fault, t) returned = refused-Tracked (create_upload key) s t fault tracked returned

  pub copy_final-Tracked : (s : Sink) → Staged c s → Tracked c (copy_final c s).1
  unfolding copy_final
  copy_final-Tracked s staged =
      elim (leb s.written max_single_copy_bytes)
        as (λ b.
          Tracked c
            (if b
              then then_next (call_client c (copy_once c (final_key c s)) s) (λ _ s. (ok tt, s))
              else copy_in_parts c (final_key c s) s).1) [
                | true ↦
                    then_next-holds c (Tracked c) (call_client c (copy_once c (final_key c s)) s)
                      (λ _ s. (ok tt, s))
                      (quiet-call_Tracked c (copy_once c (final_key c s)) s tt (staged.0))
                      (λ tag t returned tracked. tracked)
                | false ↦ copy_in_parts-Tracked (final_key c s) s staged
              ]

  pub settle_copy-Tracked :
      (r : SinkReply (Unit {0})) → Tracked c (r.1) → Tracked c (settle_copy r).1
  unfolding settle_copy
  settle_copy-Tracked (ok _, s) tracked = tracked
  settle_copy-Tracked (err Fault.interrupted, s) tracked = tracked
  settle_copy-Tracked (err (client e), s) tracked = tracked
