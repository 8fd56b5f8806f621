-- ===== src/Control/Tests.antt =====
-- A run on an issue, and the theorems at it.
use property_tax_data_platfo.Base.{
  ◌≢◌, false, inl, inr, eq_iff, ℕ, ◌≡◌, refl, String, true, Option, none, some, List, [], ◌∷◌,
  arith, str_eq, if◌then◌else◌,
}
use property_tax_data_platfo.Control.State.{
  Contracts, CanonicalState, Lease, Lifecycle, received, authorized, queued, running, succeeded,
  transition_state, bump_revision,
}
use property_tax_data_platfo.Control.Leases.{
  acquire_lease, heartbeat_lease, release_lease, mark_expired_stale, refuse_existing, parse_time,
  add_seconds, lease_expired, renew, drop_lease, recover_if, recover_leased, recover_unclaimed,
}
use property_tax_data_platfo.Control.Operations.{
  Operation, acquire, heartbeat, release, recover, move, apply, keep, run,
}
use property_tax_data_platfo.Control.Lifecycle.{
  HasNoLeaseWhenOver, run-HasNoLeaseWhenOver, EndedAs, run-EndedAs, Spends, moves_of, run-Spends,
}
use property_tax_data_platfo.Control.Exclusive.{acquires, renews, releases, recovers, run-intruders}

abbrev instant : String → Option ℕ
instant text =
    if str_eq text "08:00"
    then some 28800000000
    else if str_eq text "09:00"
    then some 32400000000
    else if str_eq text "12:00"
    then some 43200000000
    else none

abbrev contracts : Contracts
contracts = record {
  Details = Unit;
  accepts_state = λ _. true;
  accepts_lease = λ _. true;
  accepts_transition = λ _. true;
  instant_of = instant;
  text_of = λ _. "12:00";
  is_instant = λ _. true;
}

abbrev fresh_state : CanonicalState contracts
fresh_state = record {
  command = "plan";
  target_head_sha = "3f";
  idempotency_key = "a1";
  revision = 1;
  lifecycle_state = received;
  workflow_run_id = none;
  workflow_run_attempt = 1;
  lease = none;
  disposition = none;
  created_at = "08:00";
  updated_at = "08:00";
  details = tt;
}

abbrev moving : Lifecycle → Lifecycle → Operation
moving a b = move (record {
  from_state = a;
  to_state = b;
  at_time = "08:00";
  reason_code = "next_step";
  expected_revision = none;
})

abbrev whole_run : List Operation
whole_run =
    moving received authorized
    ∷ moving authorized queued
    ∷ acquire 7 1 "08:00" 14400 "abcdefghijklmnop"
    ∷ moving queued running
    ∷ heartbeat 7 "abcdefghijklmnop" "09:00" 14400
    ∷ moving running succeeded
    ∷ acquire 8 1 "12:00" 14400 "qrstuvwxyzabcdef"
    ∷ []

after : List Operation → CanonicalState contracts → CanonicalState contracts
unfolding run keep apply acquire_lease heartbeat_lease release_lease mark_expired_stale
    transition_state bump_revision refuse_existing parse_time add_seconds lease_expired renew
    drop_lease recover_if recover_leased recover_unclaimed
after operations s = run contracts operations s

runs_to_success : (run contracts whole_run fresh_state).lifecycle_state ≡ succeeded
unfolding after
runs_to_success = refl

counts_revisions : (run contracts whole_run fresh_state).revision ≡ 5
unfolding after
counts_revisions = refl

not_over : HasNoLeaseWhenOver contracts fresh_state
not_over over = refl

run-HasNoLeaseWhenOver_example : HasNoLeaseWhenOver contracts (run contracts whole_run fresh_state)
run-HasNoLeaseWhenOver_example = run-HasNoLeaseWhenOver contracts whole_run fresh_state not_over

abbrev ended : CanonicalState contracts
ended = record {
  command = "plan";
  target_head_sha = "3f";
  idempotency_key = "a1";
  revision = 5;
  lifecycle_state = succeeded;
  workflow_run_id = some 7;
  workflow_run_attempt = 1;
  lease = none;
  disposition = some "next_step";
  created_at = "08:00";
  updated_at = "09:00";
  details = tt;
}

run-EndedAs_example : EndedAs contracts succeeded (run contracts whole_run ended)
run-EndedAs_example =
    run-EndedAs contracts succeeded whole_run ended
      (record { is_over = refl; same_lifecycle = refl; holds_no_lease = refl })

run-Spends_example :
    Spends contracts
      (moves_of contracts whole_run fresh_state)
      fresh_state
      (run contracts whole_run fresh_state)
run-Spends_example = run-Spends contracts whole_run fresh_state

abbrev lease : Lease
lease = record {
  owner_workflow_run_id = 7;
  owner_run_attempt = 1;
  idempotency_key = "a1";
  command = "plan";
  target_sha = "3f";
  acquired_at = "08:00";
  heartbeat_at = "08:00";
  expires_at = "12:00";
  nonce = "abcdefghijklmnop";
}

abbrev leased : CanonicalState contracts
leased = record {
  command = "plan";
  target_head_sha = "3f";
  idempotency_key = "a1";
  revision = 3;
  lifecycle_state = queued;
  workflow_run_id = some 7;
  workflow_run_attempt = 1;
  lease = some lease;
  disposition = none;
  created_at = "08:00";
  updated_at = "08:00";
  details = tt;
}

abbrev intrusion : List Operation
intrusion =
    acquire 8 1 "09:00" 14400 "qrstuvwxyzabcdef"
    ∷ heartbeat 7 "qrstuvwxyzabcdef" "09:00" 14400
    ∷ release 8 "abcdefghijklmnop" "09:00"
    ∷ recover "09:00"
    ∷ []

other_nonce : lease.nonce ≢ "qrstuvwxyzabcdef"
other_nonce same = absurd (no_less ((eq_iff "abcdefghijklmnop" "qrstuvwxyzabcdef").1 same))
  where
    no_less : false ≡ true → ⊥
    no_less h = absurd cc

other_owner : lease.owner_workflow_run_id ≢ 8
other_owner same = omega arith

run-intruders_example : run contracts intrusion leased ≡ leased
run-intruders_example = run-intruders contracts lease intrusion leased refl (
  acquires 8 1 "09:00" 14400 "qrstuvwxyzabcdef",
  (
    renews 7 "qrstuvwxyzabcdef" "09:00" 14400 (inr other_nonce),
    (
      releases 8 "abcdefghijklmnop" "09:00" (inl other_owner),
      (recovers "09:00" 32400000000 43200000000 refl refl (omega arith), tt),
    ),
  ),
)
