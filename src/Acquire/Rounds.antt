-- ===== src/Acquire/Rounds.antt =====
-- The loop of `acquire_artifact`: a property of where it stands and what comes of it holds when it
-- holds of each way to leave the loop and is handed back along a redirect.
use property_tax_data_platfo.Base.{
  ℕ, zero, suc, String, Bool, true, false, not, Option, none, some, List, ◌∷◌, ◌≡◌, refl, Except,
  Check, ok, err, if◌then◌else◌, ◌==◌, any, >>=-eq-ok, inl, inr, Except-cases, refuse_if->>,
  refuse_if-ok, arith,
}
use property_tax_data_platfo.Acquire.Characters.{is_among}
use property_tax_data_platfo.Acquire.Contract.{
  Host, Parts, Raised, AcquisitionPolicy, failed, too_many_redirects, permits, unapproved_scheme,
  unapproved_host,
}
use property_tax_data_platfo.Acquire.Headers.{RedirectHop}
use property_tax_data_platfo.Acquire.Stream.{
  Response, Exchange, closing, opening, Log, Outcome, raised, redirect_statuses, require_permitted,
  require_host, hop,
}
use property_tax_data_platfo.Acquire.Drain.{drain}
use property_tax_data_platfo.Acquire.Attempt.{
  attempt_from, contact, handle_response, follow_hop, close,
}

-- The scheme and the host of the URL are on the policy's lists.
pub record Permitted (h : Host) (policy : AcquisitionPolicy h) (url : String) : Type 0 where
  pub parts : Parts
  pub host : String
  pub splits : h.urlsplit url ≡ ok parts
  pub names : parts.hostname ≡ some host
  pub scheme_allowed : is_among (h.casefold parts.scheme) policy.allowed_schemes ≡ true
  pub host_allowed : is_among (h.casefold host) policy.allowed_hosts ≡ true

pub not-false : (b : Bool) → not b ≡ false → b ≡ true
not-false true e = refl
not-false false e = absurd cc

module _ (h : Host) (policy : AcquisitionPolicy h) where
  require_host-Permitted :
      (url : String) (parts : Parts) (named : Option String)
      → h.urlsplit url ≡ ok parts
      → parts.hostname ≡ named
      → require_host h policy parts named ≡ ok tt
      → Permitted h policy url
  unfolding require_host permits
  require_host-Permitted url parts none splits names passes = absurd cc
  require_host-Permitted url parts (some host) splits names passes =
      let (scheme_passes, rest) =
        refuse_if->> (not (is_among (h.casefold parts.scheme) policy.allowed_schemes))
          (failed unapproved_scheme) passes in
      record {
        parts = parts;
        host = host;
        splits = splits;
        names = names;
        scheme_allowed = not-false _ scheme_passes;
        host_allowed = not-false _ (
            refuse_if-ok (not (is_among (h.casefold host) policy.allowed_hosts))
              (failed unapproved_host) rest);
      }

  pub require_permitted-Permitted :
      (url : String) → require_permitted h url policy ≡ ok tt → Permitted h policy url
  unfolding require_permitted
  require_permitted-Permitted url passes =
      let (parts, splits, rest) = >>=-eq-ok (h.urlsplit url) _ passes in
      require_host-Permitted url parts parts.hostname splits refl rest

module _ (h : Host) (x : Exchange h) (policy : AcquisitionPolicy h) (expected : Option String)
    (P : ℕ → String → List RedirectHop → Log → Outcome → Type 0)
    (exhausted : (current : String) (redirects : List RedirectHop) (log : Log)
      → P 0 current redirects log (log, raised (failed too_many_redirects)))
    (refused : (rounds : ℕ) (current : String) (redirects : List RedirectHop) (log : Log)
        (error : Raised)
      → P (suc rounds) current redirects log (log, raised error))
    (unreached : (rounds : ℕ) (current : String) (redirects : List RedirectHop) (log : Log)
        (error : Raised)
      → Permitted h policy current
      → P (suc rounds) current redirects log (opening current ∷ log, raised error))
    (rejected : (rounds : ℕ) (current : String) (redirects : List RedirectHop) (log : Log)
        (error : Raised)
      → Permitted h policy current
      → P (suc rounds) current redirects log (closing ∷ opening current ∷ log, raised error))
    (served : (rounds n : ℕ) (current : String) (redirects : List RedirectHop) (log : Log)
        (response : Response)
      → Permitted h policy current
      → x.request n current policy.timeout_seconds ≡ ok response
      → response.status ≡ 200
      → P (suc rounds) current redirects log (
          close h x policy
            (x.close n)
            (drain h x policy response current redirects expected (opening current ∷ log))))
    (redirected : (rounds : ℕ) (current : String) (redirects : List RedirectHop) (log : Log)
        (response : Response) (destination : String) (more : List RedirectHop) (outcome : Outcome)
      → Permitted h policy current
      → hop h response current policy redirects ≡ ok (destination, more)
      → P rounds destination more (closing ∷ opening current ∷ log) outcome
      → P (suc rounds) current redirects log outcome) where
  if-cases :
      (Q : Outcome → Type 0) (b : Bool) (o o' : Outcome)
      → (b ≡ true → Q o)
      → (b ≡ false → Q o')
      → Q (if b then o else o')
  if-cases Q true o o' holds holds' = holds refl
  if-cases Q false o o' holds holds' = holds' refl

  is_200 : (status : ℕ) → not (status == 200) ≡ false → status ≡ 200
  is_200 status e = ground arith

  closed-P :
      (rounds : ℕ) (closed : Check Raised) (current : String) (redirects : List RedirectHop)
      (log : Log) (error : Raised)
      → Permitted h policy current
      → P
          (suc rounds)
          current
          redirects
          log
          (close h x policy closed (opening current ∷ log, raised error))
  closed-P rounds (ok _) current redirects log error permitted =
      rejected rounds current redirects log error permitted
  closed-P rounds (err other) current redirects log error permitted =
      rejected rounds current redirects log other permitted

  follow_hop-P :
      (rounds : ℕ) (closed : Check Raised) (current : String) (redirects : List RedirectHop)
      (log : Log) (response : Response) (more : String → List RedirectHop → Outcome)
      → Permitted h policy current
      → ((destination : String) (redirects' : List RedirectHop)
          → P rounds destination redirects'
              (closing ∷ opening current ∷ log)
              (more destination redirects'))
      → P (suc rounds) current redirects log (
          follow_hop h x policy closed
            (hop h response current policy redirects)
            (opening current ∷ log)
            more)
  follow_hop-P rounds closed current redirects log response more permitted next =
      elim (Except-cases (hop h response current policy redirects)) [
        | inr (error, e) ↦ rw e (closed-P rounds closed current redirects log error permitted)
        | inl ((destination, redirects'), e) ↦ rw e (left closed destination redirects' e)
      ]
    where
      left :
          (reply : Check Raised) (destination : String) (redirects' : List RedirectHop)
          → hop h response current policy redirects ≡ ok (destination, redirects')
          → P (suc rounds) current redirects log (
              follow_hop h x policy reply
                (ok (destination, redirects'))
                (opening current ∷ log)
                more)
      left (ok _) destination redirects' e =
          redirected rounds current redirects log response destination redirects'
            (more destination redirects') permitted e (next destination redirects')
      left (err error) destination redirects' e =
          rejected rounds current redirects log error permitted

  contact-P :
      (rounds n : ℕ) (current : String) (redirects : List RedirectHop) (log : Log)
      (check : Check Raised) (reply : Except Raised Response)
      (more : String → List RedirectHop → Outcome)
      → x.request n current policy.timeout_seconds ≡ reply
      → (check ≡ ok tt → Permitted h policy current)
      → ((destination : String) (redirects' : List RedirectHop)
          → P rounds destination redirects'
              (closing ∷ opening current ∷ log)
              (more destination redirects'))
      → P
          (suc rounds)
          current
          redirects
          log
          (contact h x policy check reply (x.close n) current redirects expected log more)
  unfolding contact handle_response
  contact-P rounds n current redirects log (err error) reply more asked permitted next =
      refused rounds current redirects log error
  contact-P rounds n current redirects log (ok tt) (err error) more asked permitted next =
      unreached rounds current redirects log error (permitted refl)
  contact-P rounds n current redirects log (ok tt) (ok response) more asked permitted next =
      if-cases (P (suc rounds) current redirects log)
        (any (λ n. n == response.status) redirect_statuses) _ _
        (λ _.
          follow_hop-P rounds (x.close n) current redirects log response more (permitted refl) next)
        (λ _.
          if-cases (P (suc rounds) current redirects log) (not (response.status == 200)) _ _
            (λ _. closed-P rounds (x.close n) current redirects log _ (permitted refl))
            (λ e.
              served rounds n current redirects log response (permitted refl) asked
                (is_200 response.status e)))

  pub attempt_from-P :
      (rounds n : ℕ) (current : String) (redirects : List RedirectHop) (log : Log)
      → P rounds current redirects log
          (attempt_from h x policy rounds n current redirects expected log)
  unfolding attempt_from
  attempt_from-P zero n current redirects log = exhausted current redirects log
  attempt_from-P (suc rounds) n current redirects log =
      contact-P rounds n current redirects log (require_permitted h current policy)
        (x.request n current policy.timeout_seconds) _ refl
        (require_permitted-Permitted h policy current)
        (λ destination redirects'.
          attempt_from-P rounds (suc n) destination redirects' (closing ∷ opening current ∷ log))
