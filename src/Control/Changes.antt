-- ===== src/Control/Changes.antt =====
-- What an operation that does not raise does to the lifecycle, the revision and the lease.
use property_tax_data_platfo.Base.{
  ℕ, ◌+◌, ◌≤◌, ◌≡◌, refl, ap, String, Bool, true, false, not, ◌||◌, ltb, Option, none, some, Except,
  ok, refuse_if->>, >>=-eq-ok, >>-eq-ok, ◌==◌, if◌then◌else◌, arith,
}
use property_tax_data_platfo.Control.State.{
  ControlError, control_plane_error, invalid_document, with_default, Lease, Transition, Contracts,
  CanonicalState, is_terminal, is_one_of, legal_transitions, checked, moved, transition_state,
  bump_revision, active_states, stale,
}
use property_tax_data_platfo.Control.Leases.{
  acquire_lease, heartbeat_lease, renew, release_lease, drop_lease, recover_if, recover_leased,
  recover_unclaimed, is_unclaimed, recovery, mark_expired_stale, refuse_existing, parse_time,
  add_seconds, lease_expired, new_lease, is_not_owner, renewed, with_lease, with_owner,
}
use property_tax_data_platfo.Control.Operations.{
  Operation, acquire, heartbeat, release, recover, move, bump, apply,
}

module _ (c : Contracts) where
  -- The lifecycle stays, and a run that is over is given no lease.
  pub record Stays (s u : CanonicalState c) : Type 0 where
    pub same_lifecycle : u.lifecycle_state ≡ s.lifecycle_state
    pub keeps_revision : s.revision ≤ u.revision
    pub gives_no_lease : is_terminal s.lifecycle_state ≡ true → s.lease ≡ none → u.lease ≡ none

  -- The lifecycle moves along a legal edge, with the next revision; a run that ends has no lease.
  pub record Moves (s u : CanonicalState c) : Type 0 where
    pub is_legal : is_one_of u.lifecycle_state (legal_transitions s.lifecycle_state) ≡ true
    pub next_revision : u.revision ≡ s.revision + 1
    pub ends_lease : is_terminal u.lifecycle_state ≡ true → u.lease ≡ none

  pub data Change (s u : CanonicalState c) : Type 0 where
    stays : Stays s u → Change s u
    moves : Moves s u → Change s u

  same_result :
      (s u : CanonicalState c) → Path (Except ControlError (CanonicalState c)) (ok s) (ok u) → u ≡ s
  same_result s u e = cc

  checked-ok : (s u : CanonicalState c) → checked c s ≡ ok u → u ≡ s
  checked-ok s u e = same_result s u (refuse_if->> (not (c.accepts_state s)) invalid_document e).1

  Stays-by : (s u v : CanonicalState c) → u ≡ v → Stays s v → Stays s u
  Stays-by s u v same x = rw same x

  Moves-by : (s u v : CanonicalState c) → u ≡ v → Moves s v → Moves s u
  Moves-by s u v same x = rw same x

  not-false : (b : Bool) → not b ≡ false → b ≡ true
  not-false true h = refl
  not-false false h = absurd cc

  no_lease_if : (b : Bool) (lease : Option Lease) → b ≡ true → (if b then none else lease) ≡ none
  no_lease_if true lease h = refl
  no_lease_if false lease h = absurd cc

  same_number : (n m : ℕ) → not (n == m) ≡ false → n ≡ m
  same_number n m h = ground arith

  transition_state-Moves :
      (s u : CanonicalState c) (t : Transition) → transition_state c s t ≡ ok u → Moves s u
  unfolding transition_state
  transition_state-Moves s u t e =
      let a = refuse_if->> (not (c.accepts_state s)) invalid_document e in
      let b = refuse_if->> (not (c.accepts_transition (with_default c t s))) invalid_document a.1 in
      let r = refuse_if->> _ _ b.1 in
      let f = refuse_if->> _ _ r.1 in
      let l = refuse_if->> _ _ f.1 in
      Moves-by s u (moved c s t) (checked-ok (moved c s t) u l.1) (record {
        is_legal = not-false _ l.0;
        next_revision = ap (λ n. n + 1) (same_number _ _ r.0);
        ends_lease = no_lease_if (is_terminal t.to_state) s.lease;
      })

  bump_revision-Stays :
      (s u : CanonicalState c) (at_time : String) → bump_revision c s at_time ≡ ok u → Stays s u
  unfolding bump_revision
  bump_revision-Stays s u at_time e = rw (checked-ok _ u e) (record {
    same_lifecycle = refl;
    keeps_revision = omega arith;
    gives_no_lease = λ over no_lease. no_lease;
  })

  clash : {b : Bool} {A : Type 0} → b ≡ true → b ≡ false → A
  clash is isnt = absurd cc

  acquire_lease-Stays :
      (s u : CanonicalState c) (owner attempt : ℕ) (at_time : String) (ttl : ℕ) (nonce : String)
      → acquire_lease c s owner attempt at_time ttl nonce ≡ ok u
      → Stays s u
  unfolding acquire_lease
  acquire_lease-Stays s u owner attempt at_time ttl nonce e =
      let a =
        refuse_if->> (ltb ttl 60 || ltb 86400 ttl) (control_plane_error "invalid_lease_ttl") e in
      let b =
        refuse_if->> (is_terminal s.lifecycle_state) (control_plane_error "lease_terminal_state")
          a.1 in
      let x = >>-eq-ok (refuse_existing c s.lease at_time) b.1 in
      let (acquired, _, y) = >>=-eq-ok (parse_time c at_time) _ x.1 in
      let (expires, _, z) = >>=-eq-ok (add_seconds c acquired ttl) _ y in
      let l =
        refuse_if->>
          (not (c.accepts_lease (new_lease c s owner attempt at_time (c.text_of expires) nonce)))
          invalid_document z in
      Stays-by s u
        (with_owner c
          (with_lease c s (some (new_lease c s owner attempt at_time (c.text_of expires) nonce))
            at_time)
          owner attempt)
        (checked-ok
          (with_owner c
            (with_lease c s (some (new_lease c s owner attempt at_time (c.text_of expires) nonce))
              at_time)
            owner attempt)
          u l.1)
        (record {
          same_lifecycle = refl;
          keeps_revision = omega arith;
          gives_no_lease = λ over no_lease. clash over b.0;
        })

  some_none : {o : Option Lease} {lease : Lease} {A : Type 0} → o ≡ some lease → o ≡ none → A
  some_none is isnt = absurd cc

  renew-Stays :
      (s u : CanonicalState c) (lease : Option Lease) (owner : ℕ) (nonce at_time : String) (ttl : ℕ)
      → s.lease ≡ lease
      → renew c s lease owner nonce at_time ttl ≡ ok u
      → Stays s u
  unfolding renew
  renew-Stays s u none owner nonce at_time ttl is e = absurd cc
  renew-Stays s u (some lease) owner nonce at_time ttl is e =
      let a =
        refuse_if->> (is_not_owner c lease owner nonce)
          (control_plane_error "lease_ownership_mismatch") e in
      let (expired, _, b) = >>=-eq-ok (lease_expired c lease at_time) _ a.1 in
      let x = refuse_if->> expired (control_plane_error "lease_expired") b in
      let (now, _, y) = >>=-eq-ok (parse_time c at_time) _ x.1 in
      let (expires, _, z) = >>=-eq-ok (add_seconds c now ttl) _ y in
      Stays-by s u (with_lease c s (some (renewed c lease at_time (c.text_of expires))) at_time)
        (checked-ok (with_lease c s (some (renewed c lease at_time (c.text_of expires))) at_time) u
          z)
        (record {
          same_lifecycle = refl;
          keeps_revision = omega arith;
          gives_no_lease = λ over no_lease. some_none is no_lease;
        })

  same_state :
      (s u : CanonicalState c)
      → Path (Except ControlError (CanonicalState c)) (ok s) (ok u)
      → Stays s u
  same_state s u e = Stays-by s u s (same_result s u e) (record {
    same_lifecycle = refl;
    keeps_revision = omega arith;
    gives_no_lease = λ over no_lease. no_lease;
  })

  drop_lease-Stays :
      (s u : CanonicalState c) (lease : Option Lease) (owner : ℕ) (nonce at_time : String)
      → drop_lease c s lease owner nonce at_time ≡ ok u
      → Stays s u
  unfolding drop_lease
  drop_lease-Stays s u none owner nonce at_time e = same_state s u e
  drop_lease-Stays s u (some lease) owner nonce at_time e =
      let a =
        refuse_if->> (is_not_owner c lease owner nonce)
          (control_plane_error "lease_ownership_mismatch") e in
      Stays-by s u (with_lease c s none at_time) (checked-ok (with_lease c s none at_time) u a.1)
        (record {
          same_lifecycle = refl;
          keeps_revision = omega arith;
          gives_no_lease = λ over no_lease. refl;
        })

  recover_if-Change :
      (b : Bool) (s u : CanonicalState c) (t : Transition) → recover_if c b s t ≡ ok u → Change s u
  unfolding recover_if
  recover_if-Change false s u t e = stays (same_state s u e)
  recover_if-Change true s u t e = moves (transition_state-Moves s u t e)

  recover_leased-Change :
      (s u : CanonicalState c) (lease : Option Lease) (at_time : String)
      → recover_leased c s lease at_time ≡ ok u
      → Change s u
  unfolding recover_leased
  recover_leased-Change s u none at_time e = stays (same_state s u e)
  recover_leased-Change s u (some lease) at_time e =
      let (expired, _, a) =
        >>=-eq-ok (lease_expired c lease at_time)
          (λ b. recover_if c b s (recovery c s.lifecycle_state stale at_time "lease_expired")) e in
      recover_if-Change expired s u _ a

  recover_unclaimed-Change :
      (s u : CanonicalState c) (at_time : String)
      → recover_unclaimed c s at_time ≡ ok u
      → Change s u
  unfolding recover_unclaimed
  recover_unclaimed-Change s u at_time e =
      let (now, _, a) = >>=-eq-ok (parse_time c at_time) _ e in
      let (created, _, b) = >>=-eq-ok (parse_time c s.created_at) _ a in
      let (deadline, _, d) = >>=-eq-ok (add_seconds c created 1800) _ b in
      recover_if-Change _ s u _ d

  recovered :
      (inactive unclaimed : Bool) (s u : CanonicalState c) (at_time : String)
      → (if inactive
          then ok s
          else if unclaimed
          then recover_unclaimed c s at_time
          else recover_leased c s s.lease at_time)
        ≡ ok u
      → Change s u
  recovered true unclaimed s u at_time e = stays (same_state s u e)
  recovered false true s u at_time e = recover_unclaimed-Change s u at_time e
  recovered false false s u at_time e = recover_leased-Change s u s.lease at_time e

  pub apply-Change : (o : Operation) (s u : CanonicalState c) → apply c o s ≡ ok u → Change s u
  unfolding apply heartbeat_lease release_lease mark_expired_stale
  apply-Change (acquire owner attempt at_time ttl nonce) s u e =
      stays (acquire_lease-Stays s u owner attempt at_time ttl nonce e)
  apply-Change (heartbeat owner nonce at_time ttl) s u e =
      stays (renew-Stays s u s.lease owner nonce at_time ttl refl e)
  apply-Change (release owner nonce at_time) s u e =
      stays (drop_lease-Stays s u s.lease owner nonce at_time e)
  apply-Change (recover at_time) s u e =
      recovered (not (is_one_of s.lifecycle_state active_states)) (is_unclaimed c s) s u at_time e
  apply-Change (move t) s u e = moves (transition_state-Moves s u t e)
  apply-Change (bump at_time) s u e = stays (bump_revision-Stays s u at_time e)
