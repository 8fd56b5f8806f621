-- ===== src/Acquire/Attempt.antt =====
-- streaming.py: `acquire_artifact`.
use mathlib.Core.Option.{Option, none, some}
use property_tax_data_platfo.Base.{
  ℕ, zero, suc, String, Bool, true, false, not, List, [], ◌∷◌, ℤ, pos, negsuc, Except, Check, ok,
  err, ◌==◌, any, if◌then◌else◌,
}
use property_tax_data_platfo.Acquire.Characters.{is_sha256}
use property_tax_data_platfo.Acquire.Contract.{
  Host, Raised, acquisition_error, value_error, interrupt, failed, AcquisitionPolicy,
  AcquisitionFailure, too_many_redirects, unsupported_status, transient_status,
}
use property_tax_data_platfo.Acquire.Headers.{RedirectHop}
use property_tax_data_platfo.Acquire.Stream.{
  Response, Exchange, entering, aborting, leaving, closing, opening, Log, raised, endless, Ended,
  Outcome, redirect_statuses, transient_statuses, hop, require_permitted,
}
use property_tax_data_platfo.Acquire.Drain.{drain}

module _ (h : Host) (x : Exchange h) (policy : AcquisitionPolicy h) where
  -- leaving the response, whatever came of it: what it raises replaces that
  abbrev pub settle_close : {A : Type 0} → Check Raised → Ended A → Ended A
  settle_close (ok _) result = result
  settle_close (err error) endless = endless
  settle_close (err error) _ = raised error

  abbrev pub close : Check Raised → Outcome → Outcome
  close closed (log, result) = (closing ∷ log, settle_close closed result)

  -- What a redirect leads to; `more` is the rest of the loop of `acquire_artifact`.
  abbrev pub follow_hop :
      Check Raised
      → Except Raised (String × List RedirectHop)
      → Log
      → (String → List RedirectHop → Outcome)
      → Outcome
  follow_hop closed (err error) log more = close closed (log, raised error)
  follow_hop (ok _) (ok (destination, redirects)) log more = more destination redirects
  follow_hop (err error) (ok hop) log more = (closing ∷ log, raised error)

  -- `AcquisitionError(failure, str(status))`
  abbrev status_failure : ℕ → AcquisitionFailure
  status_failure status =
      if any (λ n. n == status) transient_statuses then transient_status else unsupported_status

  -- The body of the `with` block, and leaving it; `more` is the rest of the loop.
  unfoldable pub handle_response :
      Check Raised
      → Response
      → String
      → List RedirectHop
      → Option String
      → Log
      → (String → List RedirectHop → Outcome)
      → Outcome
  unfolding hop drain
  handle_response closed response current redirects expected log more =
      if any (λ n. n == response.status) redirect_statuses
      then follow_hop closed (hop h response current policy redirects) log more
      else if not (response.status == 200)
      then close closed (log, raised (failed (status_failure response.status)))
      else close closed (drain h x policy response current redirects expected log)

  unfoldable pub contact :
      Check Raised
      → Except Raised Response
      → Check Raised
      → String
      → List RedirectHop
      → Option String
      → Log
      → (String → List RedirectHop → Outcome)
      → Outcome
  unfolding handle_response
  contact (err error) reply closed current redirects expected log more = (log, raised error)
  contact (ok _) (err error) closed current redirects expected log more =
      (opening current ∷ log, raised error)
  contact (ok _) (ok response) closed current redirects expected log more =
      handle_response closed response current redirects expected (opening current ∷ log) more

  -- The loop of `acquire_artifact`, with its rounds left and the number of the request.
  unfoldable pub attempt_from : ℕ → ℕ → String → List RedirectHop → Option String → Log → Outcome
  unfolding require_permitted contact
  attempt_from zero n current redirects expected log = (log, raised (failed too_many_redirects))
  attempt_from (suc rounds) n current redirects expected log =
      contact (require_permitted h current policy) (x.request n current policy.timeout_seconds)
        (x.close n) current redirects expected log
        (λ destination redirects.
          attempt_from rounds (suc n) destination redirects expected
            (closing ∷ opening current ∷ log))

-- `range(policy.max_redirects + 1)`
abbrev pub rounds : ℤ → ℕ
rounds (pos limit) = suc limit
rounds (negsuc _) = 0

-- what is raised once `abort` has been called
unfoldable pub after_abort : Check Raised → Raised → Raised
after_abort (ok _) error = error
after_abort (err (interrupt what)) error = interrupt what
after_abort (err _) (acquisition_error failure _) = acquisition_error failure true
after_abort (err _) error = error

-- `expected_sha256 is not None`, and no checksum
abbrev pub is_bad_checksum : Option String → Bool
is_bad_checksum none = false
is_bad_checksum (some text) = not (is_sha256 text)

module _ (h : Host) (x : Exchange h) (policy : AcquisitionPolicy h) where
  -- `except BaseException`
  abbrev pub abort_if_raised : Outcome → Outcome
  abort_if_raised (log, raised error) = (aborting ∷ log, raised (after_abort x.abort error))
  abort_if_raised outcome = outcome

  -- `finally`
  abbrev pub leave : Outcome → Outcome
  leave (log, result) = (leaving ∷ log, result)

  -- the `try` statement, once `__enter__` returned or raised
  unfoldable pub entered_or : Check Raised → String → Option String → Outcome
  unfolding attempt_from after_abort
  entered_or (err error) url expected = abort_if_raised (entering ∷ [], raised error)
  entered_or (ok _) url expected = leave (
      abort_if_raised
        (attempt_from h x policy (rounds policy.max_redirects) 0 url [] expected (entering ∷ [])))

  -- the first test of `acquire_artifact`
  abbrev pub unless_bad : Bool → Outcome → Outcome
  unless_bad true outcome = ([], raised (value_error "expected_sha256"))
  unless_bad false outcome = outcome

  unfoldable pub acquire_artifact : String → Option String → Outcome
  unfolding entered_or
  acquire_artifact url expected =
      unless_bad (is_bad_checksum expected) (entered_or x.enter url expected)
