-- ===== src/Acquire/Permitted.antt =====
-- What `acquire_artifact` contacts.
use mathlib.Core.Path.{subst}
use property_tax_data_platfo.Base.{
  ℕ, ◌+◌, ◌≤◌, suc, String, Bool, true, false, Option, List, [], ◌∷◌, ◌++◌, ◌≡◌, refl, sym, ap,
  Check, ok, err, All, All-append, All-map, arith, inl, inr,
}
use property_tax_data_platfo.Acquire.Contract.{Host, Raised, AcquisitionPolicy, policy_post_init}
use property_tax_data_platfo.Acquire.Headers.{RedirectHop}
use property_tax_data_platfo.Acquire.Stream.{
  Response, Exchange, Event, entering, committing, closing, opening, writing, Log, Outcome, exceeds,
  hop, returned, raised, endless,
}
use property_tax_data_platfo.Acquire.Limits.{policy-within}
use property_tax_data_platfo.Acquire.Drain.{drain}
use property_tax_data_platfo.Acquire.Drains.{DrainResult, drain-DrainResult}
use property_tax_data_platfo.Acquire.Attempt.{
  attempt_from, close, leave, abort_if_raised, entered_or, rounds, acquire_artifact, unless_bad,
  is_bad_checksum,
}
use property_tax_data_platfo.Acquire.Calls.{
  written, tally, is_opening, bit, Grown, Grown-trans, IsWriting,
}
use property_tax_data_platfo.Acquire.Rounds.{Permitted, attempt_from-P}

-- A call that contacts nothing
abbrev Offline : Event → Type 0
Offline event = is_opening event ≡ false

writing-Offline : (event : Event) → IsWriting event → Offline event
writing-Offline (writing bytes) here = refl
writing-Offline event here = absurd here

tally-Offline :
    (calls log : Log) → All Offline calls → tally is_opening (calls ++ log) ≡ tally is_opening log
tally-Offline [] log holds = refl
tally-Offline (event ∷ calls) log (here, holds) =
    omega (arith, tally-Offline calls log holds, ap bit here)

module _ (h : Host) (x : Exchange h) (policy : AcquisitionPolicy h) (expected : Option String) where
  -- Every URL that is opened is permitted.
  abbrev pub Allowed : Event → Type 0
  Allowed (opening url) = Permitted h policy url
  Allowed _ = Unit

  Offline-Allowed : (event : Event) → Offline event → Allowed event
  Offline-Allowed (opening url) here = absurd cc
  Offline-Allowed event here = tt

  DrainResult-Offline :
      (response : Response) (final_url : String) (redirects : List RedirectHop) (log : Log)
      (outcome : Outcome)
      → DrainResult h x policy expected response final_url redirects log outcome
      → Grown Offline log outcome.0
  DrainResult-Offline response final_url redirects log (log', returned a)
        (before, at, (calls, grows, holds), whole, is_of) =
      (
        committing ∷ calls,
        rw (at, grows) refl,
        (refl, All-map IsWriting Offline writing-Offline calls holds),
      )
  DrainResult-Offline response final_url redirects log (log', raised e)
        (inl (calls, grows, holds)) =
      (calls, grows, All-map IsWriting Offline writing-Offline calls holds)
  DrainResult-Offline response final_url redirects log (log', raised e)
        (inr (before, at, (calls, grows, holds), whole, why)) =
      (
        committing ∷ calls,
        rw (at, grows) refl,
        (refl, All-map IsWriting Offline writing-Offline calls holds),
      )
  DrainResult-Offline response final_url redirects log (log', endless) never = absurd never

  -- From a log without writes: only permitted URLs were opened, at most one in each round.
  abbrev Contacts : ℕ → String → List RedirectHop → Log → Outcome → Type 0
  Contacts rounds current redirects log outcome =
      written log ≡ []
      → Grown Allowed log outcome.0 × (tally is_opening (outcome.0) ≤ tally is_opening log + rounds)

  served-Contacts :
      exceeds 0 policy.max_artifact_bytes ≡ false
      → (rounds n : ℕ) (current : String) (redirects : List RedirectHop) (log : Log)
        (response : Response)
      → Permitted h policy current
      → x.request n current policy.timeout_seconds ≡ ok response
      → response.status ≡ 200
      → Contacts (suc rounds) current redirects log (
          close h x policy
            (x.close n)
            (drain h x policy response current redirects expected (opening current ∷ log)))
  served-Contacts within rounds n current redirects log response permitted asked succeeds fresh =
      let (calls, grows, holds) =
        DrainResult-Offline response current redirects (opening current ∷ log)
          (drain h x policy response current redirects expected (opening current ∷ log))
          (drain-DrainResult h x policy expected response current redirects (opening current ∷ log)
            fresh within) in
      (
        Grown-trans Allowed log (opening current ∷ log) _
            (opening current ∷ [], refl, (permitted, tt))
            (
              closing ∷ calls,
              ap (λ l. closing ∷ l) grows,
              (tt, All-map Offline Allowed Offline-Allowed calls holds),
            ),
        omega
            (arith, ap (tally is_opening) grows, tally-Offline calls (opening current ∷ log) holds),
      )

  redirected-Contacts :
      (left : ℕ) (current : String) (redirects : List RedirectHop) (log : Log) (response : Response)
      (destination : String) (more : List RedirectHop) (outcome : Outcome)
      → Permitted h policy current
      → hop h response current policy redirects ≡ ok (destination, more)
      → Contacts left destination more (closing ∷ opening current ∷ log) outcome
      → Contacts (suc left) current redirects log outcome
  redirected-Contacts left current redirects log response destination more outcome permitted hops
        rest fresh =
      let (grown, count) = rest fresh in
      (
        Grown-trans Allowed log (closing ∷ opening current ∷ log) _
            (closing ∷ opening current ∷ [], refl, (tt, (permitted, tt))) grown,
        omega (arith, count),
      )

  attempt_from-Contacts :
      exceeds 0 policy.max_artifact_bytes ≡ false
      → (rounds n : ℕ) (current : String) (redirects : List RedirectHop) (log : Log)
      → Contacts rounds current redirects log
          (attempt_from h x policy rounds n current redirects expected log)
  attempt_from-Contacts within =
      attempt_from-P h x policy expected Contacts
        (λ current redirects log fresh. (([], refl, tt), omega arith))
        (λ left current redirects log error fresh. (([], refl, tt), omega arith))
        (λ left current redirects log error permitted fresh.
          ((opening current ∷ [], refl, (permitted, tt)), omega arith))
        (λ left current redirects log error permitted fresh.
          ((closing ∷ opening current ∷ [], refl, (tt, (permitted, tt))), omega arith))
        (served-Contacts within) redirected-Contacts

  -- What `acquire_artifact` contacts: every URL that it opens is permitted, and it opens at most
  -- one for each round of its loop.
  pub record ContactsPermitted (outcome : Outcome) : Type 0 where
    pub only_permitted : All Allowed (outcome.0)
    pub bounded : tally is_opening (outcome.0) ≤ rounds policy.max_redirects

  leave-Contacts :
      (outcome : Outcome)
      → All Allowed (outcome.0)
      → tally is_opening (outcome.0) ≤ rounds policy.max_redirects
      → ContactsPermitted (leave h x policy (abort_if_raised h x policy outcome))
  leave-Contacts (log, returned a) all_allowed count = record {
    only_permitted = (tt, all_allowed);
    bounded = omega (arith, count);
  }
  leave-Contacts (log, raised e) all_allowed count = record {
    only_permitted = (tt, (tt, all_allowed));
    bounded = omega (arith, count);
  }
  leave-Contacts (log, endless) all_allowed count = record {
    only_permitted = (tt, all_allowed);
    bounded = omega (arith, count);
  }

  entered_or-ContactsPermitted :
      exceeds 0 policy.max_artifact_bytes ≡ false
      → (entry : Check Raised) (url : String)
      → ContactsPermitted (entered_or h x policy entry url expected)
  unfolding entered_or
  entered_or-ContactsPermitted within (err error) url = record {
    only_permitted = (tt, (tt, tt));
    bounded = omega arith;
  }
  entered_or-ContactsPermitted within (ok tt) url =
      let ((calls, grows, holds), count) =
        attempt_from-Contacts within (rounds policy.max_redirects) 0 url [] (entering ∷ []) refl in
      leave-Contacts
        (attempt_from h x policy (rounds policy.max_redirects) 0 url [] expected (entering ∷ []))
        (subst (All Allowed) (sym grows) (All-append Allowed calls (entering ∷ []) holds (tt, tt)))
        (omega (arith, count))

  unless_bad-ContactsPermitted :
      (bad : Bool) (outcome : Outcome)
      → ContactsPermitted outcome
      → ContactsPermitted (unless_bad h x policy bad outcome)
  unless_bad-ContactsPermitted true outcome holds = record {
    only_permitted = tt;
    bounded = omega arith;
  }
  unless_bad-ContactsPermitted false outcome holds = holds

  -- Every URL that acquire_artifact opens, the first and each redirect's, has a scheme and a host on
  -- the policy's lists, and it opens at most one URL more than the policy allows redirects, whatever
  -- the transport and the sink reply, provided that the policy is one that AcquisitionPolicy accepts.
  pub acquire_artifact-ContactsPermitted :
      (url : String)
      → policy_post_init h policy ≡ ok tt
      → ContactsPermitted (acquire_artifact h x policy url expected)
  unfolding acquire_artifact
  acquire_artifact-ContactsPermitted url valid =
      unless_bad-ContactsPermitted (is_bad_checksum expected) _
        (entered_or-ContactsPermitted (policy-within h policy valid) x.enter url)
