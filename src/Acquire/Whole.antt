-- ===== src/Acquire/Whole.antt =====
-- `acquire_artifact`: a complete artifact is returned, or the sink is aborted.
use mathlib.Core.Path.{subst}
use property_tax_data_platfo.Base.{
  String, Bool, true, false, Option, List, [], ◌∷◌, ◌≡◌, ◌≢◌, refl, sym, ap, Check, ok, err, inl,
  inr,
}
use property_tax_data_platfo.Acquire.Contract.{Host, Raised, AcquisitionPolicy, policy_post_init}
use property_tax_data_platfo.Acquire.Headers.{AcquiredArtifact, RedirectHop}
use property_tax_data_platfo.Acquire.Stream.{
  Exchange, entering, committing, aborting, leaving, closing, Log, Outcome, Ended, exceeds,
  returned, raised, endless,
}
use property_tax_data_platfo.Acquire.Drains.{IsOf}
use property_tax_data_platfo.Acquire.Attempt.{
  rounds, leave, abort_if_raised, entered_or, unless_bad, is_bad_checksum, acquire_artifact,
}
use property_tax_data_platfo.Acquire.Limits.{policy-within}
use property_tax_data_platfo.Acquire.Calls.{written, Grown}
use property_tax_data_platfo.Acquire.Results.{
  IsRunning, Linked, LoopResult, Served, TooLate, attempt_from-LoopResult,
}

same-artifact :
    (b a : AcquiredArtifact) → ◌≡◌ {A = Ended AcquiredArtifact} (returned b) (returned a) → b ≡ a
same-artifact b a e = cc

module _ (h : Host) (x : Exchange h) (policy : AcquisitionPolicy h) (expected : Option String) where
  -- The sink was entered, given the artifact's bytes, committed once and left, and not aborted. The
  -- artifact is of what it was given, which is the body of the response to the last request; its
  -- hops lead from the URL to that request's.
  pub record IsWhole (url : String) (log : Log) (a : AcquiredArtifact) : Type 0 where
    pub before : Log
    pub final_url : String
    pub ends : log ≡ leaving ∷ closing ∷ committing ∷ before
    pub runs : Grown IsRunning (entering ∷ []) before
    pub served : Served h x policy expected final_url before
    pub linked : Linked h x policy expected url a.redirects final_url
    pub is_of : IsOf h x policy expected final_url a.redirects (written before) a

  -- What an acquisition that raised did with the sink.
  pub data IsCleaned (log : Log) : Type 0 where
    untouched : is_bad_checksum expected ≡ true → log ≡ [] → IsCleaned log
    unentered :
        (error : Raised) → x.enter ≡ err error → log ≡ aborting ∷ entering ∷ [] → IsCleaned log
    uncommitted :
        (before : Log)
        → log ≡ leaving ∷ aborting ∷ before
        → Grown IsRunning (entering ∷ []) before
        → IsCleaned log
    refused :
        (before : Log) (final_url : String) (redirects : List RedirectHop)
        (served : Served h x policy expected final_url before)
        → log ≡ leaving ∷ aborting ∷ closing ∷ committing ∷ before
        → Grown IsRunning (entering ∷ []) before
        → TooLate h x policy expected final_url redirects before served
        → IsCleaned log

  abbrev Settled : String → Outcome → Type 0
  Settled url (log, returned a) = IsWhole url log a
  Settled url (log, raised error) = IsCleaned log
  Settled url (log, endless) = ⊥

  leave-Settled :
      (url : String) (outcome : Outcome)
      → LoopResult h x policy expected url [] (entering ∷ []) outcome
      → Settled url (leave h x policy (abort_if_raised h x policy outcome))
  leave-Settled url (log, returned a) (before, steps, final_url, at, grown, served, linked, is_of) =
      record {
        before = before;
        final_url = final_url;
        ends = ap (λ l. leaving ∷ l) at;
        runs = grown;
        served = served;
        linked = rw is_of.follows linked;
        is_of =
            subst (λ hops. IsOf h x policy expected final_url hops (written before) a)
              (sym is_of.follows) is_of;
      }
  leave-Settled url (log, raised error) (inl grown) = uncommitted log refl grown
  leave-Settled url (log, raised error) (inr (before, final_url, steps, served, at, grown, why)) =
      refused before final_url steps served (ap (λ l. leaving ∷ aborting ∷ l) at) grown why
  leave-Settled url (log, endless) never = never

  entered_or-Settled :
      exceeds 0 policy.max_artifact_bytes ≡ false
      → (entry : Check Raised) → x.enter ≡ entry
      → (url : String) → Settled url (entered_or h x policy entry url expected)
  unfolding entered_or
  entered_or-Settled within (err error) enters url = unentered error enters refl
  entered_or-Settled within (ok _) enters url = leave-Settled url _ (
      attempt_from-LoopResult h x policy expected within (rounds policy.max_redirects) 0 url []
        (entering ∷ []) refl)

  unless_bad-Settled :
      (url : String) (bad : Bool) (outcome : Outcome)
      → is_bad_checksum expected ≡ bad
      → Settled url outcome
      → Settled url (unless_bad h x policy bad outcome)
  unless_bad-Settled url true outcome bad settled = untouched bad refl
  unless_bad-Settled url false outcome bad settled = settled

  acquire_artifact-Settled :
      (url : String)
      → policy_post_init h policy ≡ ok tt
      → Settled url (acquire_artifact h x policy url expected)
  unfolding acquire_artifact
  acquire_artifact-Settled url valid =
      unless_bad-Settled url (is_bad_checksum expected) _ refl
        (entered_or-Settled (policy-within h policy valid) x.enter refl url)

  returned-IsWhole :
      (url : String) (outcome : Outcome) (a : AcquiredArtifact)
      → Settled url outcome
      → outcome.1 ≡ returned a
      → IsWhole url (outcome.0) a
  returned-IsWhole url (log, returned b) a settled result =
      subst (IsWhole url log) (same-artifact b a result) settled
  returned-IsWhole url (log, raised e) a settled result = absurd cc
  returned-IsWhole url (log, endless) a settled result = absurd cc

  -- If acquire_artifact returns an artifact, under a policy that AcquisitionPolicy accepts, then the
  -- sink was entered, committed once behind all writes, left, and never aborted; what was written
  -- is the whole body of the response, of status 200, to the last request; the artifact's
  -- count and digest are those of exactly the bytes that were written, in their order, within the
  -- policy's limit, and the digest is the expected one where one was given; its locator is what
  -- commit returned; its URL is the sanitized form of that request's; and its hops lead, through
  -- URLs that the policy permits, from the URL that was given to that request's.
  pub acquire_artifact-IsWhole :
      (url : String) (a : AcquiredArtifact)
      → policy_post_init h policy ≡ ok tt
      → (acquire_artifact h x policy url expected).1 ≡ returned a
      → IsWhole url (acquire_artifact h x policy url expected).0 a
  acquire_artifact-IsWhole url a valid result =
      returned-IsWhole url (acquire_artifact h x policy url expected) a
        (acquire_artifact-Settled url valid) result

  Settled-ends : (url : String) (outcome : Outcome) → Settled url outcome → outcome.1 ≢ endless
  Settled-ends url (log, returned a) settled = λ e. absurd cc
  Settled-ends url (log, raised e) settled = λ e'. absurd cc
  Settled-ends url (log, endless) settled = absurd settled

  -- Under a policy that AcquisitionPolicy accepts, acquire_artifact comes to an end, by returning or
  -- by raising, for every transport and every sink, also where a body never ends.
  pub acquire_artifact-ends :
      (url : String)
      → policy_post_init h policy ≡ ok tt
      → (acquire_artifact h x policy url expected).1 ≢ endless
  acquire_artifact-ends url valid =
      Settled-ends url (acquire_artifact h x policy url expected)
        (acquire_artifact-Settled url valid)
