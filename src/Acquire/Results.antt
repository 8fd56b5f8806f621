-- ===== src/Acquire/Results.antt =====
-- What the loop of `acquire_artifact` comes to, and the calls that it has made by then.
use mathlib.Core.Path.{subst}
use mathlib.Core.List.{append_assoc, append-nil}
use property_tax_data_platfo.Base.{
  ℕ, String, false, Option, none, some, List, [], ◌∷◌, ◌++◌, ◌≡◌, refl, sym, ap, ◌∙◌, ◌⊎◌, Except,
  Check, err, ok, All-map, inl, inr, >>=-eq-ok, >>-eq-ok,
}
use property_tax_data_platfo.Acquire.Contract.{Host, Raised, AcquisitionPolicy, sanitize_url}
use property_tax_data_platfo.Acquire.Headers.{RedirectHop, hop_post_init}
use property_tax_data_platfo.Acquire.Stream.{
  Response, Exchange, Event, committing, closing, opening, writing, Log, Outcome, exceeds, hop,
  returned, raised, endless, follow_location, resolve_location, require_permitted,
}
use property_tax_data_platfo.Acquire.Drains.{IsOf, CommitRefused, DrainResult, drain-DrainResult}
use property_tax_data_platfo.Acquire.Attempt.{attempt_from, close}
use property_tax_data_platfo.Acquire.Bodies.{Reads}
use property_tax_data_platfo.Acquire.Calls.{written, Grown, Grown-trans, IsWriting}
use property_tax_data_platfo.Acquire.Rounds.{Permitted, attempt_from-P, require_permitted-Permitted}

-- A call between `__enter__` and `commit`
abbrev pub IsRunning : Event → Type 0
IsRunning (opening _) = Unit
IsRunning (writing _) = Unit
IsRunning closing = Unit
IsRunning _ = ⊥

writing-IsRunning : (event : Event) → IsWriting event → IsRunning event
writing-IsRunning (writing bytes) here = tt
writing-IsRunning event here = absurd here

Grown-IsRunning : (log log' : Log) → Grown IsWriting log log' → Grown IsRunning log log'
Grown-IsRunning log log' (calls, grows, holds) =
    (calls, grows, All-map IsWriting IsRunning writing-IsRunning calls holds)

-- From the log to where the request was opened, and on.
past-opening :
    (current : String) (log log' : Log)
    → Grown IsRunning (opening current ∷ log) log'
    → Grown IsRunning log log'
past-opening current log log' =
    Grown-trans IsRunning log (opening current ∷ log) log' (opening current ∷ [], refl, (tt, tt))

closed : (log log' : Log) → Grown IsRunning log log' → Grown IsRunning log (closing ∷ log')
closed log log' (calls, grows, holds) = (closing ∷ calls, ap (λ l. closing ∷ l) grows, (tt, holds))

past-closing : (log log' : Log) → Grown IsRunning (closing ∷ log) log' → Grown IsRunning log log'
past-closing log log' =
    Grown-trans IsRunning log (closing ∷ log) log' (closing ∷ [], refl, (tt, tt))

ok-pair :
    (a b : String) (c d : List RedirectHop)
    → ◌≡◌ {A = Except Raised (String × List RedirectHop)} (ok (a, c)) (ok (b, d))
    → (a ≡ b) × (c ≡ d)
ok-pair a b c d e = (cc, cc)

module _ (h : Host) (x : Exchange h) (policy : AcquisitionPolicy h) (expected : Option String) where
  -- The hops lead from the first URL to the last; each is between the sanitized forms of two URLs,
  -- and the one it leads to is permitted.
  abbrev pub Linked : String → List RedirectHop → String → Type 0
  Linked current [] final_url = current ≡ final_url
  Linked current (step ∷ steps) final_url =
      (next : String) × (sanitize_url h current ≡ ok step.from_url)
      × (sanitize_url h next ≡ ok step.to_url)
      × Permitted h policy next
      × Linked next steps final_url

  -- The body that was read: a request for the URL was answered with a response of status 200, the
  -- last one that was opened is for the URL, and what was written since is the response's body.
  pub record Served (final_url : String) (before : Log) : Type 0 where
    pub number : ℕ
    pub response : Response
    pub earlier : Log
    pub asked : x.request number final_url policy.timeout_seconds ≡ ok response
    pub succeeds : response.status ≡ 200
    pub unwritten : written earlier ≡ []
    pub writes : Grown IsWriting (opening final_url ∷ earlier) before
    pub whole : Reads (λ i. response.body i policy.chunk_bytes) 0 (written before)

  -- Why what was committed came to nothing: the commit was refused in one of the ways that are
  -- named there, or leaving the response raised.
  pub data TooLate (final_url : String) (redirects : List RedirectHop) (before : Log)
      (served : Served final_url before) : Type 0 where
    refused :
        CommitRefused h x policy expected served.response final_url redirects (written before)
        → TooLate final_url redirects before served
    unclosed :
        (error : Raised)
        → x.close served.number ≡ err error
        → TooLate final_url redirects before served

  -- What the loop comes to, from where it stands.
  abbrev pub LoopResult : String → List RedirectHop → Log → Outcome → Type 0
  LoopResult current redirects log (log', returned a) =
      (before : Log) × (steps : List RedirectHop) × (final_url : String) × (log'
        ≡ closing ∷ committing ∷ before)
      × Grown IsRunning log before
      × Served final_url before
      × Linked current steps final_url
      × IsOf h x policy expected final_url (redirects ++ steps) (written before) a
  LoopResult current redirects log (log', raised error) =
      Grown IsRunning log log'
      ⊎ ((before : Log) × (final_url : String) × (steps : List RedirectHop) × (served : Served
            final_url before)
          × (log' ≡ closing ∷ committing ∷ before)
          × Grown IsRunning log before
          × TooLate final_url steps before served)
  LoopResult current redirects log (log', endless) = ⊥

  late-LoopResult :
      (current : String) (redirects : List RedirectHop) (log before log' : Log) (error : Raised)
      (served : Served current before)
      → log' ≡ committing ∷ before
      → Grown IsWriting (opening current ∷ log) before
      → TooLate current redirects before served
      → LoopResult current redirects log (closing ∷ log', raised error)
  late-LoopResult current redirects log before log' error served at grown why = inr (
    before,
    current,
    redirects,
    served,
    ap (λ l. closing ∷ l) at,
    past-opening current log before (Grown-IsRunning (opening current ∷ log) before grown),
    why,
  )

  early-LoopResult :
      (current : String) (redirects : List RedirectHop) (log log' : Log) (error : Raised)
      → Grown IsWriting (opening current ∷ log) log'
      → LoopResult current redirects log (closing ∷ log', raised error)
  early-LoopResult current redirects log log' error grown = inl (
      closed log log'
        (past-opening current log log' (Grown-IsRunning (opening current ∷ log) log' grown)))

  serving :
      (n : ℕ) (response : Response) (current : String) (log before : Log)
      → x.request n current policy.timeout_seconds ≡ ok response
      → response.status ≡ 200
      → written log ≡ []
      → Grown IsWriting (opening current ∷ log) before
      → Reads (λ i. response.body i policy.chunk_bytes) 0 (written before)
      → Served current before
  serving n response current log before asked succeeds fresh grown whole = record {
    number = n;
    response = response;
    earlier = log;
    asked = asked;
    succeeds = succeeds;
    unwritten = fresh;
    writes = grown;
    whole = whole;
  }

  close-LoopResult :
      (n : ℕ) (response : Response) (current : String) (redirects : List RedirectHop) (log : Log)
      (closes : Check Raised) (outcome : Outcome)
      → x.close n ≡ closes
      → x.request n current policy.timeout_seconds ≡ ok response
      → response.status ≡ 200
      → written log ≡ []
      → DrainResult h x policy expected response current redirects (opening current ∷ log) outcome
      → LoopResult current redirects log (close h x policy closes outcome)
  unfolding serving
  close-LoopResult n response current redirects log (ok _) (log', returned a) is asked succeeds
        fresh (before, at, grown, whole, is_of) =
      (
        before,
        [],
        current,
        ap (λ l. closing ∷ l) at,
        past-opening current log before (Grown-IsRunning (opening current ∷ log) before grown),
        serving n response current log before asked succeeds fresh grown whole,
        refl,
        subst (λ hops. IsOf h x policy expected current hops (written before) a)
            (sym (append-nil redirects)) is_of,
      )
  close-LoopResult n response current redirects log (err error) (log', returned a) is asked succeeds
        fresh (before, at, grown, whole, is_of) =
      late-LoopResult current redirects log before log' error
        (serving n response current log before asked succeeds fresh grown whole) at grown
        (unclosed error is)
  close-LoopResult n response current redirects log (ok _) (log', raised error) is asked succeeds
        fresh (inl grown) =
      early-LoopResult current redirects log log' error grown
  close-LoopResult n response current redirects log (err other) (log', raised error) is asked
        succeeds fresh (inl grown) =
      early-LoopResult current redirects log log' other grown
  close-LoopResult n response current redirects log (ok _) (log', raised error) is asked succeeds
        fresh (inr (before, at, grown, whole, why)) =
      late-LoopResult current redirects log before log' error
        (serving n response current log before asked succeeds fresh grown whole) at grown
        (refused why)
  close-LoopResult n response current redirects log (err other) (log', raised error) is asked
        succeeds fresh (inr (before, at, grown, whole, why)) =
      late-LoopResult current redirects log before log' other
        (serving n response current log before asked succeeds fresh grown whole) at grown
        (refused why)
  close-LoopResult n response current redirects log closes (log', endless) is asked succeeds fresh
        never =
      absurd never

  -- A hop that was followed: the step that it appends.
  record Hopped (current destination : String) (redirects more : List RedirectHop) : Type 0 where
    pub step : RedirectHop
    pub appends : more ≡ redirects ++ (step ∷ [])
    pub leaves_from : sanitize_url h current ≡ ok step.from_url
    pub leads_to : sanitize_url h destination ≡ ok step.to_url
    pub permitted : Permitted h policy destination

  follow_location-Hopped :
      (status : ℕ) (location : Option String) (current destination : String)
      (redirects more : List RedirectHop)
      → follow_location h policy current status redirects location ≡ ok (destination, more)
      → Hopped current destination redirects more
  unfolding follow_location
  follow_location-Hopped status none current destination redirects more follows = absurd cc
  follow_location-Hopped status (some location) current destination redirects more follows =
      let (target, _, r1) = >>=-eq-ok (resolve_location h current location) _ follows in
      let (passes, r2) = >>-eq-ok (require_permitted h target policy) r1 in
      let (from_url, leaves_from, r3) = >>=-eq-ok (sanitize_url h current) _ r2 in
      let (to_url, leads_to, r4) = >>=-eq-ok (sanitize_url h target) _ r3 in
      let (_, r5) =
        >>-eq-ok
          (hop_post_init h (record { from_url = from_url; to_url = to_url; status = status })) r4 in
      let (same, appends) = ok-pair target destination _ more r5 in
      subst (λ d. Hopped current d redirects more) same
        (record {
          step = record { from_url = from_url; to_url = to_url; status = status };
          appends = sym appends;
          leaves_from = leaves_from;
          leads_to = leads_to;
          permitted = require_permitted-Permitted h policy target passes;
        })

  redirected-LoopResult :
      (current destination : String) (redirects more : List RedirectHop) (log : Log)
      (outcome : Outcome)
      → Hopped current destination redirects more
      → LoopResult destination more (closing ∷ opening current ∷ log) outcome
      → LoopResult current redirects log outcome
  redirected-LoopResult current destination redirects more log (log', returned a) hopped
        (before, steps, final_url, at, grown, served, linked, is_of) =
      (
        before,
        hopped.step ∷ steps,
        final_url,
        at,
        past-opening current log before (past-closing (opening current ∷ log) before grown),
        served,
        (destination, hopped.leaves_from, hopped.leads_to, hopped.permitted, linked),
        subst (λ hops. IsOf h x policy expected final_url hops (written before) a)
            (ap (λ l. l ++ steps) hopped.appends ∙ append_assoc redirects (hopped.step ∷ []) steps)
            is_of,
      )
  redirected-LoopResult current destination redirects more log (log', raised error) hopped
        (inl grown) =
      inl (past-opening current log log' (past-closing (opening current ∷ log) log' grown))
  redirected-LoopResult current destination redirects more log (log', raised error) hopped
        (inr (before, final_url, steps, served, at, grown, why)) =
      inr (
        before,
        final_url,
        steps,
        served,
        at,
        past-opening current log before (past-closing (opening current ∷ log) before grown),
        why,
      )
  redirected-LoopResult current destination redirects more log (log', endless) hopped never = never

  pub attempt_from-LoopResult :
      exceeds 0 policy.max_artifact_bytes ≡ false
      → (left n : ℕ) (current : String) (redirects : List RedirectHop) (log : Log)
      → written log ≡ []
      → LoopResult current redirects log
          (attempt_from h x policy left n current redirects expected log)
  unfolding hop
  attempt_from-LoopResult within =
      attempt_from-P h x policy expected
        (λ left current redirects log outcome.
          written log ≡ [] → LoopResult current redirects log outcome)
        (λ current redirects log fresh. inl ([], refl, tt))
        (λ left current redirects log error fresh. inl ([], refl, tt))
        (λ left current redirects log error permitted fresh.
          inl (opening current ∷ [], refl, (tt, tt)))
        (λ left current redirects log error permitted fresh.
          inl (closing ∷ opening current ∷ [], refl, (tt, (tt, tt))))
        (λ left n current redirects log response permitted asked succeeds fresh.
          close-LoopResult n response current redirects log (x.close n) _ refl asked succeeds fresh
            (drain-DrainResult h x policy expected response current redirects
              (opening current ∷ log) fresh within))
        (λ left current redirects log response destination more outcome permitted hops rest fresh.
          redirected-LoopResult current destination redirects more log outcome
            (follow_location-Hopped response.status response.location current destination redirects
              more hops)
            (rest fresh))
