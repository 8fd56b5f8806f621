-- ===== src/Bronze/Cleared.antt =====
-- The uploads that S3ArtifactSink leaves open.
use mathlib.Core.Path.{subst}
use property_tax_data_platfo.Base.{
  ℕ, String, false, not, ◌||◌, Option, none, some, List, [], ◌≡◌, refl, sym, ap, ◌∙◌, inl, inr, ok,
  err, Bool-cases, length,
}
use property_tax_data_platfo.Bronze.Sink.{
  Calls, complete_staging, create_upload, abort_upload, delete_object, Sink, Setting, SinkReply,
  noted, with_buffer, with_upload, with_copy, then_next, call_client, is_zero, flush_rest,
  settle_copy, copy_final, commit_sink, fresh_sink, enter_sink, abort_staging, abort_copy,
  abort_sink,
}
use property_tax_data_platfo.Bronze.Published.{publish_artifact}
use property_tax_data_platfo.Bronze.Parts.{same, then_next-ok, call_client-ok, write_all}
use property_tax_data_platfo.Bronze.Open.{
  is_open, names, names-same, or-cases, Known, Tracked, closed, unstage, uncopy, then_next-holds,
  if_full-holds, Staged, quiet-call_Tracked, flush-Staged, write_all-Staged,
}
use property_tax_data_platfo.Bronze.Copying.{
  call-Tracked, refused-noted, copy_final-Tracked, settle_copy-Tracked,
}

module _ (c : Setting) where
  commit_sink-Tracked : (s : Sink) → Staged c s → Tracked c (commit_sink c s).1
  unfolding commit_sink flush_rest
  commit_sink-Tracked s staged =
      then_next-holds c (Tracked c) (flush_rest c s) _ (rest-Staged.0) (λ u t returned _.
        let staged' = subst (λ q. Staged c (q.1)) returned rest-Staged in
        then_next-holds c (Tracked c) (call_client c (complete_staging c t) t) _
          (call-Tracked c (complete_staging c t) t (still-Tracked t (staged'.0)) (staged'.0))
          (λ id t2 completes _.
            then_next-holds c (Tracked c) (settle_copy (copy_final c (with_upload none t2))) _
              (settle_copy-Tracked c (copy_final c (with_upload none t2)) (
                copy_final-Tracked c (with_upload none t2) (
                  subst (λ u. Staged c (with_upload none u))
                    (call_client-ok c (complete_staging c t) t t2 id completes)
                    (unstage c t.copy_upload t.upload_id t.calls (staged'.0), staged'.1))))
              (λ v t3 copies tracked.
                then_next-holds c (Tracked c) (call_client c (delete_object c.staging_key) t3) _
                  (quiet-call_Tracked c (delete_object c.staging_key) t3 tt tracked)
                  (λ tag t4 deletes tracked'. tracked'))))
    where
      rest-Staged : Staged c (flush_rest c s).1
      rest-Staged =
          if_full-holds c (Staged c) (not (is_zero (length s.buffer)) || is_zero (length s.parts)) _
            s (flush-Staged c (length s.buffer) s staged) staged

      still-Tracked :
          (t : Sink)
          → Tracked c t
          → (answer : String) → Tracked c (noted (complete_staging c t) (some answer) t)
      still-Tracked t tracked answer = λ key id opened.
          tracked key id
            (closed c c.staging_key t.upload_id key id (is_open key id t.calls) opened).1

  entered-Staged :
      (r : SinkReply String)
      → call_client c (create_upload c.staging_key) fresh_sink ≡ r
      → Staged c (then_next {B = Unit {0}} r (λ id s. (ok tt, with_upload (some id) s))).1
  entered-Staged (ok id, t) returned =
      subst (λ u. Staged c (with_upload (some id) u))
        (call_client-ok c (create_upload c.staging_key) fresh_sink t id returned)
        (
          λ key other opened.
              elim (or-cases (names c.staging_key (some id) key other) false opened) [
                | inl same ↦
                    let (keys, ids) = names-same c.staging_key id key other same in
                    inl (sym keys, ap (λ (i : String). some i) ids)
                | inr never ↦ absurd (cc never)
              ],
          refl,
        )
  entered-Staged (err fault, t) returned =
      subst (Staged c) (refused-noted c (create_upload c.staging_key) fresh_sink t fault returned)
        (λ key other opened. absurd (cc opened), refl)

  -- Until it commits or something raises, the sink knows what it left open.
  publish_artifact-Tracked : (chunks : List (List ℕ)) → Tracked c (publish_artifact c chunks).1
  unfolding publish_artifact enter_sink
  publish_artifact-Tracked chunks =
      then_next-holds c (Tracked c) (enter_sink c fresh_sink) _ (entered.0) (λ u s returned _.
        let staged = subst (λ q. Staged c (q.1)) returned entered in
        then_next-holds c (Tracked c) (write_all c chunks s) _
          (write_all-Staged c chunks s staged).0
          (λ v t writes _.
            commit_sink-Tracked t
              (subst (λ q. Staged c (q.1)) writes (write_all-Staged c chunks s staged))))
    where
      entered : Staged c (enter_sink c fresh_sink).1
      entered = entered-Staged (call_client c (create_upload c.staging_key) fresh_sink) refl

  -- What each step of `abort` leaves to be known.
  abort_staging-Known :
      (upload : Option String) (s t : Sink)
      → Known c upload s.copy_upload s.calls
      → abort_staging c upload s ≡ (ok tt, t)
      → Known c none t.copy_upload t.calls
  abort_staging-Known none s t known returned =
      subst (λ u. Known c none u.copy_upload u.calls) (same s t returned) known
  abort_staging-Known (some id) s t known returned =
      let (answer, s1, aborts, ends) =
        then_next-ok (call_client c (abort_upload c.staging_key (some id)) s) _ returned in
      subst (λ u. Known c none u.copy_upload u.calls)
        (ap (with_upload none)
            (call_client-ok c (abort_upload c.staging_key (some id)) s s1 answer aborts)
          ∙ same (with_upload none s1) t ends)
        (unstage c s.copy_upload (some id) s.calls known)

  abort_copy-Known :
      (copy : Option (String × String)) (s t : Sink)
      → Known c none copy s.calls
      → abort_copy c copy s ≡ (ok tt, t)
      → Known c none none t.calls
  abort_copy-Known none s t known returned =
      subst (λ u. Known c none none u.calls) (same s t returned) known
  abort_copy-Known (some (key, id)) s t known returned =
      let (answer, s1, aborts, ends) =
        then_next-ok (call_client c (abort_upload key (some id)) (with_copy none s)) _ returned in
      subst (λ u. Known c none none u.calls)
        (call_client-ok c (abort_upload key (some id)) (with_copy none s) s1 answer aborts
          ∙ same s1 t ends)
        (uncopy c key id none s.calls known)

  Known-none :
      (calls : Calls) → Known c none none calls → (key id : String) → is_open key id calls ≡ false
  Known-none calls known key id = elim (Bool-cases (is_open key id calls)) [
    | inr clear ↦ clear
    | inl opened ↦ elim (known key id opened) [
      | inl (staging, never) ↦ absurd (cc never)
      | inr never ↦ absurd (cc never)
    ]
  ]

  abort_sink-closes :
      (s t : Sink)
      → Tracked c s
      → abort_sink c s ≡ (ok tt, t)
      → (key id : String) → is_open key id t.calls ≡ false
  unfolding abort_sink
  abort_sink-closes s t tracked returned key id =
      let (u, s1, first, r1) =
        then_next-ok (abort_staging c s.upload_id (with_buffer [] s)) _ returned in
      let (v, s2, second, r2) = then_next-ok (abort_copy c s1.copy_upload s1) _ r1 in
      let (tag, s3, deletes, r3) =
        then_next-ok (call_client c (delete_object c.staging_key) s2) _ r2 in
      let known =
        abort_copy-Known s1.copy_upload s1 s2
          (abort_staging-Known s.upload_id (with_buffer [] s) s1 tracked first) second in
      subst (λ u. is_open key id u.calls ≡ false)
        (call_client-ok c (delete_object c.staging_key) s2 s3 tag deletes ∙ same s3 t r3)
        (Known-none s2.calls known key id)

  -- If a sink was entered, given chunks and committed, up to the first of these that raised, and
  -- abort then returns, no multipart upload that the sink created is left open, whatever the client
  -- answered: each was completed or aborted, at its own key and with its own id.
  pub publish_artifact-abort :
      (chunks : List (List ℕ)) (s : Sink)
      → abort_sink c (publish_artifact c chunks).1 ≡ (ok tt, s)
      → (key id : String) → is_open key id s.calls ≡ false
  publish_artifact-abort chunks s returned =
      abort_sink-closes (publish_artifact c chunks).1 s (publish_artifact-Tracked chunks) returned
