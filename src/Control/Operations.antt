-- ===== src/Control/Operations.antt =====
-- The operations of state.py and leases.py on one canonical state, and a sequence of them: each
-- starts from the state that the last one that did not raise returned, as the control plane
-- publishes it.
use property_tax_data_platfo.Base.{ℕ, String, List, [], ◌∷◌, Except, ok, err}
use property_tax_data_platfo.Control.State.{
  ControlError, Transition, Contracts, CanonicalState, transition_state, bump_revision,
}
use property_tax_data_platfo.Control.Leases.{
  acquire_lease, heartbeat_lease, release_lease, mark_expired_stale,
}

pub data Operation : Type 0 where
  acquire : (owner attempt : ℕ) (at_time : String) (ttl_seconds : ℕ) (nonce : String) → Operation
  heartbeat : (owner : ℕ) (nonce at_time : String) (ttl_seconds : ℕ) → Operation
  release : (owner : ℕ) (nonce at_time : String) → Operation
  recover : (at_time : String) → Operation
  move : Transition → Operation
  bump : (at_time : String) → Operation

module _ (c : Contracts) where
  unfoldable pub apply : Operation → CanonicalState c → Except ControlError (CanonicalState c)
  unfolding acquire_lease heartbeat_lease release_lease mark_expired_stale transition_state
      bump_revision
  apply (acquire owner attempt at_time ttl nonce) s =
      acquire_lease c s owner attempt at_time ttl nonce
  apply (heartbeat owner nonce at_time ttl) s = heartbeat_lease c s owner nonce at_time ttl
  apply (release owner nonce at_time) s = release_lease c s owner nonce at_time
  apply (recover at_time) s = mark_expired_stale c s at_time
  apply (move t) s = transition_state c s t
  apply (bump at_time) s = bump_revision c s at_time

  unfoldable pub keep : CanonicalState c → Except ControlError (CanonicalState c) → CanonicalState c
  keep s (ok after) = after
  keep s (err e) = s

  unfoldable pub run : List Operation → CanonicalState c → CanonicalState c
  unfolding apply keep
  run [] s = s
  run (o ∷ operations) s = run operations (keep s (apply o s))
