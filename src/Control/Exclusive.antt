-- ===== src/Control/Exclusive.antt =====
-- A lease keeps everyone but its owner from the run, until it expires.
use mathlib.Core.Path.{subst}
use property_tax_data_platfo.Base.{
  ◌≢◌, ◌⊎◌, inl, inr, ◌==◌, str_eq, eq_iff, ◌||◌, ℕ, ◌<◌, ◌≡◌, refl, sym, String, Bool, true, false,
  not, ◌||◌, ◌&&◌, is_some, some, List, [], ◌∷◌, Except, ok, err, refuse_if, ◌>>=◌, ◌>>◌, leb, ltb,
  if◌then◌else◌, arith, All,
}
use property_tax_data_platfo.Control.State.{
  ControlError, control_plane_error, invalid_document, Transition, Lease, Contracts, CanonicalState,
  is_one_of, active_states, lifecycle_eq, queued, is_terminal,
}
use property_tax_data_platfo.Control.Leases.{
  is_not_owner, acquire_lease, refuse_existing, renew, drop_lease, heartbeat_lease, release_lease,
  mark_expired_stale, lease_expired, recover_leased, recover_if, recover_unclaimed, parse_time,
}
use property_tax_data_platfo.Control.Operations.{
  Operation, acquire, heartbeat, release, recover, apply, keep, run,
}

module _ (c : Contracts) (lease : Lease) where
  -- Another owner, or another nonce.
  abbrev pub IsOther : ℕ → String → Type 0
  IsOther owner nonce = (lease.owner_workflow_run_id ≢ owner) ⊎ (lease.nonce ≢ nonce)

  -- What another workflow tries while the lease has not expired: to acquire one, to renew or release
  -- this one without being its owner or knowing its nonce, or to recover the run.
  pub data IsIntruder : Operation → Type 0 where
    acquires :
        (owner attempt : ℕ) (at_time : String) (ttl : ℕ) (nonce : String)
        → IsIntruder (acquire owner attempt at_time ttl nonce)
    renews :
        (owner : ℕ) (nonce at_time : String) (ttl : ℕ)
        → IsOther owner nonce
        → IsIntruder (heartbeat owner nonce at_time ttl)
    releases :
        (owner : ℕ) (nonce at_time : String)
        → IsOther owner nonce
        → IsIntruder (release owner nonce at_time)
    recovers :
        (at_time : String) (now expires : ℕ)
        → c.instant_of at_time ≡ some now
        → c.instant_of lease.expires_at ≡ some expires
        → now < expires
        → IsIntruder (recover at_time)

  unequal_numbers : (n m : ℕ) → n ≢ m → not (n == m) ≡ true
  unequal_numbers n m h = ground arith

  or_true : (a b : Bool) → b ≡ true → a || b ≡ true
  or_true true b h = refl
  or_true false b h = h

  unequal_texts : (a b : String) → a ≢ b → not (str_eq a b) ≡ true
  unequal_texts a b h = by_test (str_eq a b) refl
    where
      by_test : (t : Bool) → str_eq a b ≡ t → not t ≡ true
      by_test true is = absurd (h ((eq_iff a b).0 is))
      by_test false is = refl

  is_not_owner-true :
      (owner : ℕ) (nonce : String) → IsOther owner nonce → is_not_owner c lease owner nonce ≡ true
  is_not_owner-true owner nonce (inl other) = rw (unequal_numbers _ _ other) refl
  is_not_owner-true owner nonce (inr other) =
      or_true (not (lease.owner_workflow_run_id == owner)) (not (str_eq lease.nonce nonce))
        (unequal_texts lease.nonce nonce other)

  -- what raises, or returns the state it was given
  abbrev ReturnsOnly : CanonicalState c → Except ControlError (CanonicalState c) → Type 0
  ReturnsOnly s (ok u) = u ≡ s
  ReturnsOnly s (err e) = Unit

  -- nothing is returned
  abbrev IsRaised {ℓ} : {A : Type ℓ} → Except ControlError A → Type 0
  IsRaised (ok a) = ⊥
  IsRaised (err e) = Unit

  raised->>= {ℓ} :
      {A : Type ℓ} (m : Except ControlError A) (f : A → Except ControlError (CanonicalState c))
      (s : CanonicalState c)
      → IsRaised m
      → ReturnsOnly s (m >>= f)
  raised->>= (ok a) f s raised = absurd raised
  raised->>= (err e) f s raised = tt

  refused :
      (test : Bool) (e : ControlError) (k : Except ControlError (CanonicalState c))
      (s : CanonicalState c)
      → (test ≡ false → ReturnsOnly s k)
      → ReturnsOnly s (refuse_if test e >> k)
  refused true e k s go = tt
  refused false e k s go = go refl

  existing_refused : (at_time : String) → IsRaised (refuse_existing c (some lease) at_time)
  unfolding refuse_existing
  existing_refused at_time = after (lease_expired c lease at_time)
    where
      after :
          (m : Except ControlError Bool)
          → IsRaised {A = Unit {0}} (
              m >>= λ expired.
              err (control_plane_error (if expired then "lease_expired" else "lease_held")))
      after (ok b) = tt
      after (err e) = tt

  acquire_lease-ReturnsOnly :
      (s : CanonicalState c) (owner attempt : ℕ) (at_time : String) (ttl : ℕ) (nonce : String)
      → s.lease ≡ some lease
      → ReturnsOnly s (acquire_lease c s owner attempt at_time ttl nonce)
  unfolding acquire_lease
  acquire_lease-ReturnsOnly s owner attempt at_time ttl nonce held =
      refused (ltb ttl 60 || ltb 86400 ttl) _ _ s λ _.
        refused (is_terminal s.lifecycle_state) _ _ s λ _.
          raised->>= (refuse_existing c s.lease at_time) _ s (rw held (existing_refused at_time))

  raised_if :
      (b : Bool) (e : ControlError) (k : Except ControlError (CanonicalState c))
      (s : CanonicalState c)
      → b ≡ true
      → ReturnsOnly s (refuse_if b e >> k)
  raised_if true e k s is = tt
  raised_if false e k s is = absurd cc

  renew-ReturnsOnly :
      (s : CanonicalState c) (owner : ℕ) (nonce at_time : String) (ttl : ℕ)
      → is_not_owner c lease owner nonce ≡ true
      → ReturnsOnly s (renew c s (some lease) owner nonce at_time ttl)
  unfolding renew
  renew-ReturnsOnly s owner nonce at_time ttl other =
      raised_if (is_not_owner c lease owner nonce) (control_plane_error "lease_ownership_mismatch")
        _ s other

  drop_lease-ReturnsOnly :
      (s : CanonicalState c) (owner : ℕ) (nonce at_time : String)
      → is_not_owner c lease owner nonce ≡ true
      → ReturnsOnly s (drop_lease c s (some lease) owner nonce at_time)
  unfolding drop_lease
  drop_lease-ReturnsOnly s owner nonce at_time other =
      raised_if (is_not_owner c lease owner nonce) (control_plane_error "lease_ownership_mismatch")
        _ s other

  not_expired : (now expires : ℕ) → now < expires → leb expires now ≡ false
  not_expired now expires lt = ground arith

  -- what raises, or says no
  abbrev SaysNo : Except ControlError Bool → Type 0
  SaysNo (ok b) = b ≡ false
  SaysNo (err e) = Unit

  checked_no :
      (test : Bool) (e : ControlError) (k : Except ControlError Bool)
      → SaysNo k
      → SaysNo (refuse_if test e >> k)
  checked_no true e k no_k = tt
  checked_no false e k no_k = no_k

  parse_time-ok : (value : String) (t : ℕ) → c.instant_of value ≡ some t → parse_time c value ≡ ok t
  unfolding parse_time
  parse_time-ok value t is = rw (is, parse_time) refl

  lease_expired-SaysNo :
      (at_time : String) (now expires : ℕ)
      → c.instant_of at_time ≡ some now
      → c.instant_of lease.expires_at ≡ some expires
      → now < expires
      → SaysNo (lease_expired c lease at_time)
  unfolding lease_expired
  lease_expired-SaysNo at_time now expires is_now is_expiry early =
      checked_no (not (c.accepts_lease lease)) invalid_document _ (
        rw (parse_time-ok at_time now is_now)
          (rw (parse_time-ok lease.expires_at expires is_expiry) (not_expired now expires early)))

  recover_if-ReturnsOnly :
      (m : Except ControlError Bool) (s : CanonicalState c) (t : Transition)
      → SaysNo m
      → ReturnsOnly s (m >>= λ b. recover_if c b s t)
  unfolding recover_if
  recover_if-ReturnsOnly (ok true) s t h = absurd cc
  recover_if-ReturnsOnly (ok false) s t h = refl
  recover_if-ReturnsOnly (err e) s t h = tt

  recover_leased-ReturnsOnly :
      (s : CanonicalState c) (at_time : String)
      → SaysNo (lease_expired c lease at_time)
      → ReturnsOnly s (recover_leased c s (some lease) at_time)
  unfolding recover_leased
  recover_leased-ReturnsOnly s at_time no_expiry =
      recover_if-ReturnsOnly (lease_expired c lease at_time) s _ no_expiry

  and_false : (a b : Bool) → b ≡ false → a && b ≡ false
  and_false true b h = h
  and_false false b h = refl

  recovered-ReturnsOnly :
      (inactive a b : Bool) (s : CanonicalState c) (at_time : String)
      → SaysNo (lease_expired c lease at_time)
      → ReturnsOnly s (
          if inactive
          then ok s
          else if a && false && b
          then recover_unclaimed c s at_time
          else recover_leased c s (some lease) at_time)
  recovered-ReturnsOnly true a b s at_time no_expiry = refl
  recovered-ReturnsOnly false true b s at_time no_expiry =
      recover_leased-ReturnsOnly s at_time no_expiry
  recovered-ReturnsOnly false false b s at_time no_expiry =
      recover_leased-ReturnsOnly s at_time no_expiry

  intruder-ReturnsOnly :
      (o : Operation) (s : CanonicalState c)
      → s.lease ≡ some lease
      → IsIntruder o
      → ReturnsOnly s (apply c o s)
  unfolding apply heartbeat_lease release_lease mark_expired_stale
  intruder-ReturnsOnly o s held (acquires owner attempt at_time ttl nonce) =
      acquire_lease-ReturnsOnly s owner attempt at_time ttl nonce held
  intruder-ReturnsOnly o s held (renews owner nonce at_time ttl other) =
      subst (λ held_lease. ReturnsOnly s (renew c s held_lease owner nonce at_time ttl)) (sym held)
        (renew-ReturnsOnly s owner nonce at_time ttl (is_not_owner-true owner nonce other))
  intruder-ReturnsOnly o s held (releases owner nonce at_time other) =
      subst (λ held_lease. ReturnsOnly s (drop_lease c s held_lease owner nonce at_time)) (sym held)
        (drop_lease-ReturnsOnly s owner nonce at_time (is_not_owner-true owner nonce other))
  intruder-ReturnsOnly o s held (recovers at_time now expires is_now is_expiry early) =
      subst
        (λ held_lease. ReturnsOnly s (
          if not (is_one_of s.lifecycle_state active_states)
          then ok s
          else if lifecycle_eq s.lifecycle_state queued
              && not (is_some held_lease)
              && not (is_some s.workflow_run_id)
          then recover_unclaimed c s at_time
          else recover_leased c s held_lease at_time))
        (sym held)
        (recovered-ReturnsOnly (not (is_one_of s.lifecycle_state active_states))
          (lifecycle_eq s.lifecycle_state queued) (not (is_some s.workflow_run_id)) s at_time
          (lease_expired-SaysNo at_time now expires is_now is_expiry early))

  keep-same :
      (s : CanonicalState c) (r : Except ControlError (CanonicalState c))
      → ReturnsOnly s r
      → keep c s r ≡ s
  unfolding keep
  keep-same s (ok u) same = same
  keep-same s (err e) same = refl

  -- While a state holds a lease, no sequence of attempts by others to acquire one, to renew or release
  -- it without its owner's id and nonce, or to recover the run before the lease expires, changes
  -- the state.
  pub run-intruders :
      (operations : List Operation) (s : CanonicalState c)
      → s.lease ≡ some lease
      → All IsIntruder operations
      → run c operations s ≡ s
  unfolding run
  run-intruders [] s held all_intruders = refl
  run-intruders (o ∷ operations) s held (intruder, rest) =
      rw (keep-same s (apply c o s) (intruder-ReturnsOnly o s held intruder))
        (run-intruders operations s held rest)
