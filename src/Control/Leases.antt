-- ===== src/Control/Leases.antt =====
-- leases.py: the lease is acquired, renewed, released, and recovered once it has expired. A duration
-- is not negative.
use property_tax_data_platfo.Base.{
  ℕ, ◌+◌, ◌*◌, String, Bool, true, false, not, ◌&&◌, ◌||◌, Option, none, some, Except, Check, ok,
  err, refuse_if, ◌>>=◌, ◌>>◌, ltb, leb, ◌==◌, str_eq, is_some, if◌then◌else◌,
}
use property_tax_data_platfo.Control.State.{
  ControlError, control_plane_error, invalid_document, overflow_error, Lease, Transition, Contracts,
  CanonicalState, Lifecycle, queued, failed, stale, active_states, is_one_of, is_terminal,
  lifecycle_eq, checked, transition_state,
}

-- `DEFAULT_LEASE_TTL_SECONDS`
abbrev pub default_lease_ttl_seconds : ℕ
default_lease_ttl_seconds = 14400

abbrev pub preclaim_ttl_seconds : ℕ
preclaim_ttl_seconds = 1800

abbrev pub invalid_timestamp : ControlError
invalid_timestamp = control_plane_error "invalid_timestamp"

module _ (c : Contracts) where
  -- `_parse_time`
  unfoldable pub parse_time : String → Except ControlError ℕ
  parse_time value = elim (c.instant_of value) [ some t ↦ ok t | none ↦ err invalid_timestamp ]

  -- `instant + timedelta(seconds=seconds)`
  unfoldable pub add_seconds : ℕ → ℕ → Except ControlError ℕ
  add_seconds instant seconds = do
    refuse_if (not (c.is_instant (instant + seconds * 1000000))) overflow_error
    ok (instant + seconds * 1000000)

  unfoldable pub lease_expired : Lease → String → Except ControlError Bool
  unfolding parse_time
  lease_expired lease at_time = do
    refuse_if (not (c.accepts_lease lease)) invalid_document
    now ← parse_time at_time
    expires ← parse_time lease.expires_at
    ok (leb expires now)

  -- the refusal of a lease that exists
  unfoldable pub refuse_existing : Option Lease → String → Check ControlError
  unfolding lease_expired
  refuse_existing none at_time = ok tt
  refuse_existing (some existing) at_time = do
    expired ← lease_expired existing at_time
    err (control_plane_error (if expired then "lease_expired" else "lease_held"))

  abbrev pub with_lease : CanonicalState c → Option Lease → String → CanonicalState c
  with_lease s lease at_time = record {
    command = s.command;
    target_head_sha = s.target_head_sha;
    idempotency_key = s.idempotency_key;
    revision = s.revision;
    lifecycle_state = s.lifecycle_state;
    workflow_run_id = s.workflow_run_id;
    workflow_run_attempt = s.workflow_run_attempt;
    lease = lease;
    disposition = s.disposition;
    created_at = s.created_at;
    updated_at = at_time;
    details = s.details;
  }

  abbrev pub with_owner : CanonicalState c → ℕ → ℕ → CanonicalState c
  with_owner s owner attempt = record {
    command = s.command;
    target_head_sha = s.target_head_sha;
    idempotency_key = s.idempotency_key;
    revision = s.revision;
    lifecycle_state = s.lifecycle_state;
    workflow_run_id = some owner;
    workflow_run_attempt = attempt;
    lease = s.lease;
    disposition = s.disposition;
    created_at = s.created_at;
    updated_at = s.updated_at;
    details = s.details;
  }

  abbrev pub new_lease : CanonicalState c → ℕ → ℕ → String → String → String → Lease
  new_lease s owner attempt at_time expires_at nonce = record {
    owner_workflow_run_id = owner;
    owner_run_attempt = attempt;
    idempotency_key = s.idempotency_key;
    command = s.command;
    target_sha = s.target_head_sha;
    acquired_at = at_time;
    heartbeat_at = at_time;
    expires_at = expires_at;
    nonce = nonce;
  }

  -- `acquire_lease`; the nonce that is given is that of `nonce or secrets.token_urlsafe(18)`
  unfoldable pub acquire_lease :
      CanonicalState c → ℕ → ℕ → String → ℕ → String → Except ControlError (CanonicalState c)
  unfolding refuse_existing parse_time add_seconds
  acquire_lease s owner attempt at_time ttl_seconds nonce = do
    refuse_if (ltb ttl_seconds 60 || ltb 86400 ttl_seconds)
        (control_plane_error "invalid_lease_ttl")
    refuse_if (is_terminal s.lifecycle_state) (control_plane_error "lease_terminal_state")
    refuse_existing s.lease at_time
    acquired ← parse_time at_time
    expires ← add_seconds acquired ttl_seconds
    let lease = new_lease s owner attempt at_time (c.text_of expires) nonce
    refuse_if (not (c.accepts_lease lease)) invalid_document
    checked c (with_owner (with_lease s (some lease) at_time) owner attempt)

  abbrev pub is_not_owner : Lease → ℕ → String → Bool
  is_not_owner lease owner nonce =
      not (lease.owner_workflow_run_id == owner) || not (str_eq lease.nonce nonce)

  abbrev pub renewed : Lease → String → String → Lease
  renewed lease at_time expires_at = record {
    owner_workflow_run_id = lease.owner_workflow_run_id;
    owner_run_attempt = lease.owner_run_attempt;
    idempotency_key = lease.idempotency_key;
    command = lease.command;
    target_sha = lease.target_sha;
    acquired_at = lease.acquired_at;
    heartbeat_at = at_time;
    expires_at = expires_at;
    nonce = lease.nonce;
  }

  unfoldable pub renew :
      CanonicalState c
      → Option Lease
      → ℕ
      → String
      → String
      → ℕ
      → Except ControlError (CanonicalState c)
  unfolding lease_expired parse_time add_seconds
  renew s none owner nonce at_time ttl_seconds = err (control_plane_error "lease_missing")
  renew s (some lease) owner nonce at_time ttl_seconds = do
    refuse_if (is_not_owner lease owner nonce) (control_plane_error "lease_ownership_mismatch")
    expired ← lease_expired lease at_time
    refuse_if expired (control_plane_error "lease_expired")
    now ← parse_time at_time
    expires ← add_seconds now ttl_seconds
    checked c (with_lease s (some (renewed lease at_time (c.text_of expires))) at_time)

  -- `heartbeat_lease`
  unfoldable pub heartbeat_lease :
      CanonicalState c → ℕ → String → String → ℕ → Except ControlError (CanonicalState c)
  unfolding renew
  heartbeat_lease s owner nonce at_time ttl_seconds =
      renew s s.lease owner nonce at_time ttl_seconds

  unfoldable pub drop_lease :
      CanonicalState c → Option Lease → ℕ → String → String → Except ControlError (CanonicalState c)
  drop_lease s none owner nonce at_time = ok s
  drop_lease s (some lease) owner nonce at_time = do
    refuse_if (is_not_owner lease owner nonce) (control_plane_error "lease_ownership_mismatch")
    checked c (with_lease s none at_time)

  -- `release_lease`
  unfoldable pub release_lease :
      CanonicalState c → ℕ → String → String → Except ControlError (CanonicalState c)
  unfolding drop_lease
  release_lease s owner nonce at_time = drop_lease s s.lease owner nonce at_time

  abbrev pub recovery : Lifecycle → Lifecycle → String → String → Transition
  recovery from_state to_state at_time reason = record {
    from_state = from_state;
    to_state = to_state;
    at_time = at_time;
    reason_code = reason;
    expected_revision = none;
  }

  unfoldable pub recover_if :
      Bool → CanonicalState c → Transition → Except ControlError (CanonicalState c)
  unfolding transition_state
  recover_if false s t = ok s
  recover_if true s t = transition_state c s t

  -- the last part of `mark_expired_stale`, for the lease that is there
  unfoldable pub recover_leased :
      CanonicalState c → Option Lease → String → Except ControlError (CanonicalState c)
  unfolding lease_expired recover_if
  recover_leased s none at_time = ok s
  recover_leased s (some lease) at_time = do
    expired ← lease_expired lease at_time
    recover_if expired s (recovery s.lifecycle_state stale at_time "lease_expired")

  -- the part of `mark_expired_stale` for a queued run that nothing claimed
  unfoldable pub recover_unclaimed :
      CanonicalState c → String → Except ControlError (CanonicalState c)
  unfolding parse_time add_seconds recover_if
  recover_unclaimed s at_time = do
    now ← parse_time at_time
    created ← parse_time s.created_at
    deadline ← add_seconds created preclaim_ttl_seconds
    recover_if (leb deadline now) s (recovery queued failed at_time "workflow_claim_timeout")

  abbrev pub is_unclaimed : CanonicalState c → Bool
  is_unclaimed s =
      lifecycle_eq s.lifecycle_state queued
      && not (is_some s.lease)
      && not (is_some s.workflow_run_id)

  unfoldable pub mark_expired_stale :
      CanonicalState c → String → Except ControlError (CanonicalState c)
  unfolding recover_leased recover_unclaimed
  mark_expired_stale s at_time =
      if not (is_one_of s.lifecycle_state active_states)
      then ok s
      else if is_unclaimed s
      then recover_unclaimed s at_time
      else recover_leased s s.lease at_time
