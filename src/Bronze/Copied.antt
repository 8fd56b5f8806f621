-- ===== src/Bronze/Copied.antt =====
-- `_copy_in_parts` and `commit` of S3ArtifactSink.
use mathlib.Core.Path.{subst}
use property_tax_data_platfo.Base.{
  ℕ, ◌+◌, ◌-◌, ◌≤◌, ◌<◌, zero, suc, min, String, Bool, true, false, ◌++◌, none, some, List, [], ◌∷◌,
  ◌≡◌, refl, sym, ap, ◌∙◌, ok, err, ltb, ltb→lt, ltb-false→le, arith,
}
use property_tax_data_platfo.Bronze.Store.{Fault, client}
use property_tax_data_platfo.Bronze.Sink.{
  S3Call, create_upload, complete_upload, copy_part, abort_upload, Sink, Setting, SinkReply, noted,
  with_copy, then_next, if_more, Part, Calls, part_number, range_end, complete_copy, call_client,
  multipart_copy_part_bytes, copy_parts, copy_in_parts, settle_parts,
}
use property_tax_data_platfo.Bronze.Parts.{same, then_next-ok, call_client-ok}

-- The ranges that were copied lie one behind the other from 0 to this end, none is empty, and none
-- is larger than a part.
abbrev pub Tiles : Calls → ℕ → Type 0
Tiles [] end = end ≡ 0
Tiles ((copy_part key id number source first last, some tag) ∷ calls) end =
    (suc last ≡ end)
    × (first ≤ last)
    × (end ≤ first + multipart_copy_part_bytes)
    × Tiles calls first
Tiles (_ ∷ calls) end = Tiles calls end

same-sink :
    (a b : Sink) (parts all : List Part)
    → ◌≡◌ {A = SinkReply (List Part)} (ok parts, a) (ok all, b)
    → a ≡ b
same-sink a b parts all e = cc

module _ (c : Setting) where
  -- the call for one range, and the parts with it
  abbrev pub range_call : String → String → List Part → ℕ → Sink → S3Call
  range_call key id parts start s =
      copy_part key (some id) (part_number parts) c.staging_key start (range_end c start s - 1)

  abbrev pub next_parts : List Part → String → List Part
  next_parts parts tag = parts ++ (tag, part_number parts) ∷ []

  copy_parts-Tiles :
      (fuel : ℕ) (key id : String) (parts all : List Part) (start : ℕ) (s s' : Sink)
      → s.written ≤ start + fuel
      → start ≤ s.written
      → Tiles s.calls start
      → copy_parts c fuel key id parts start s ≡ (ok all, s')
      → Tiles s'.calls s.written
  unfolding copy_parts
  copy_parts-Tiles zero key id parts all start s s' enough within tiles returns =
      subst (λ t. Tiles t.calls s.written) (same-sink s s' parts all returns)
        (subst (Tiles s.calls) (omega (arith, enough, within)) tiles)
  copy_parts-Tiles (suc fuel) key id parts all start s s' enough within tiles returns =
      split (ltb start s.written) refl returns (λ tag s1 noted_at more copies.
        let went : s1.written ≡ s.written = sym (ap (λ t. t.written) noted_at) in
        subst (Tiles s'.calls) went (
          copy_parts-Tiles fuel key id (next_parts parts tag) all (range_end c start s) s1 s'
            (omega (arith, went, enough, more)) (omega (arith, went))
            (subst (λ t. Tiles t.calls (min (start + multipart_copy_part_bytes) s.written)) noted_at
              (omega (arith, more), omega (arith, more), omega (arith, more), tiles))
            copies))
    where
      split :
          (more : Bool)
          → ltb start s.written ≡ more
          → if_more more
              (then_next (call_client c (range_call key id parts start s) s) (λ tag s'.
                copy_parts c fuel key id (next_parts parts tag) (range_end c start s) s'))
              (ok parts, s)
            ≡ (ok all, s')
          → ((tag : String) (s1 : Sink)
              → noted (range_call key id parts start s) (some tag) s ≡ s1
              → start < s.written
              → copy_parts c fuel key id (next_parts parts tag) (range_end c start s) s1
                ≡ (ok all, s')
              → Tiles s'.calls s.written)
          → Tiles s'.calls s.written
      split true e returns' next =
          let (tag, s1, copied, rest) =
            then_next-ok (call_client c (range_call key id parts start s) s) _ returns' in
          next tag s1 (call_client-ok c _ s s1 tag copied) (ltb→lt _ _ e) rest
      split false e returns' next =
          subst (λ t. Tiles t.calls s.written) (same-sink s s' parts all returns')
            (subst (Tiles s.calls) (omega (arith, within, ltb-false→le start s.written e)) tiles)

  pub settle_parts-ok :
      (key id : String) (r : SinkReply (Unit {0})) (s' : Sink)
      → settle_parts c key id r ≡ (ok tt, s')
      → (s : Sink) × (r ≡ (ok tt, s)) × (with_copy none s ≡ s')
  unfolding settle_parts
  settle_parts-ok key id (ok tt, s) s' returns = (s, refl, same (with_copy none s) s' returns)
  settle_parts-ok key id (err Fault.interrupted, s) s' returns = absurd cc
  settle_parts-ok key id (err (client e), s) s' returns =
      let (a, s1, r1, r2) = then_next-ok (call_client c (abort_upload key (some id)) s) _ returns in
      absurd cc

  -- If _copy_in_parts returns, on a sink that has copied nothing before, the ranges that it copied
  -- lie one behind the other from the first byte that was written to the last, none is empty, and
  -- none is larger than a copy's part.
  pub copy_in_parts-Tiles :
      (key : String) (s s' : Sink)
      → Tiles s.calls 0
      → copy_in_parts c key s ≡ (ok tt, s')
      → Tiles s'.calls s.written
  unfolding copy_in_parts complete_copy
  copy_in_parts-Tiles key s s' tiles returns =
      let (id, s1, creates, r1) = then_next-ok (call_client c (create_upload key) s) _ returns in
      let created = call_client-ok c (create_upload key) s s1 id creates in
      let (s4, r4, ends) = settle_parts-ok key id _ s' r1 in
      let (parts, s2, copies, r2) =
        then_next-ok (copy_parts c s1.written key id [] 0 (with_copy (some (key, id)) s1)) _ r4 in
      let finishes = complete_upload key (some id) parts (some "*") in
      let (tag, s3, completes, r3) = then_next-ok (call_client c finishes s2) _ r2 in
      let completed = call_client-ok c finishes s2 s3 tag completes in
      let went : s1.written ≡ s.written = sym (ap (λ t. t.written) created) in
      subst (λ t. Tiles t.calls s.written) (ap (with_copy none) (completed ∙ same s3 s4 r3) ∙ ends)
        (subst (Tiles s2.calls) went (
          copy_parts-Tiles s1.written key id [] parts 0 (with_copy (some (key, id)) s1) s2
            (omega arith) (omega arith) (subst (λ t. Tiles t.calls 0) created tiles) copies))
