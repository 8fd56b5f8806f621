-- ===== src/Control/Lifecycle.antt =====
-- Whatever operations are tried on a canonical state, in whatever order.
use property_tax_data_platfo.Base.{
  ℕ, ◌+◌, ◌≤◌, ◌≡◌, refl, sym, ◌∙◌, Bool, true, false, none, List, [], ◌∷◌, Except, ok, err,
  if◌then◌else◌, arith,
}
use property_tax_data_platfo.Control.State.{
  Lifecycle, received, authorized, deduplicated, queued, preparing, running, cancel_requested,
  succeeded, failed, cancelled, timed_out, stale, not_implemented, Contracts, CanonicalState,
  is_terminal, is_one_of, lifecycle_eq, legal_transitions,
}
use property_tax_data_platfo.Control.Operations.{Operation, apply, keep, run}
use property_tax_data_platfo.Control.Changes.{Change, stays, moves, apply-Change}

-- How many transitions a run can still make.
abbrev pub height : Lifecycle → ℕ
height received = 6
height authorized = 5
height queued = 4
height preparing = 3
height running = 2
height cancel_requested = 1
height _ = 0

legal-height :
    (a b : Lifecycle) → is_one_of b (legal_transitions a) ≡ true → height b + 1 ≤ height a
legal-height received b h = ground arith
legal-height authorized b h = ground arith
legal-height deduplicated b h = absurd cc
legal-height queued b h = ground arith
legal-height preparing b h = ground arith
legal-height running b h = ground arith
legal-height cancel_requested b h = ground arith
legal-height succeeded b h = absurd cc
legal-height failed b h = absurd cc
legal-height cancelled b h = absurd cc
legal-height timed_out b h = absurd cc
legal-height stale b h = absurd cc
legal-height not_implemented b h = absurd cc

terminal-height : (a : Lifecycle) → is_terminal a ≡ true → height a ≡ 0
terminal-height a h = ground arith

module _ (c : Contracts) where
  -- A run that is over holds no lease.
  abbrev pub HasNoLeaseWhenOver : CanonicalState c → Type 0
  HasNoLeaseWhenOver s = is_terminal s.lifecycle_state ≡ true → s.lease ≡ none

  Change-HasNoLease :
      (s u : CanonicalState c) → Change c s u → HasNoLeaseWhenOver s → HasNoLeaseWhenOver u
  Change-HasNoLease s u (moves m) before over = m.ends_lease over
  Change-HasNoLease s u (stays k) before over =
      let was_over : is_terminal s.lifecycle_state ≡ true = rw (sym k.same_lifecycle) over in
      k.gives_no_lease was_over (before was_over)

  -- what holds of a state that nothing changed, and of one that a change leads to
  keep-cases :
      (P : CanonicalState c → Type 0) (o : Operation) (s : CanonicalState c)
      → P s
      → ((u : CanonicalState c) → Change c s u → P u)
      → P (keep c s (apply c o s))
  unfolding keep
  keep-cases P o s same after = by_result (apply c o s) refl
    where
      by_result : (r : Except _ (CanonicalState c)) → apply c o s ≡ r → P (keep c s r)
      by_result (ok u) is = after u (apply-Change c o s u is)
      by_result (err e) is = same

  -- In every state that operations lead to, a run that is over holds no lease, if it was so at first.
  pub run-HasNoLeaseWhenOver :
      (operations : List Operation) (s : CanonicalState c)
      → HasNoLeaseWhenOver s
      → HasNoLeaseWhenOver (run c operations s)
  unfolding run
  run-HasNoLeaseWhenOver [] s before = before
  run-HasNoLeaseWhenOver (o ∷ operations) s before =
      run-HasNoLeaseWhenOver operations (keep c s (apply c o s))
        (keep-cases HasNoLeaseWhenOver o s before λ u change. Change-HasNoLease s u change before)

  -- A run that ended with this lifecycle state.
  pub record EndedAs (a : Lifecycle) (s : CanonicalState c) : Type 0 where
    pub is_over : is_terminal a ≡ true
    pub same_lifecycle : s.lifecycle_state ≡ a
    pub holds_no_lease : s.lease ≡ none

  Change-EndedAs :
      (a : Lifecycle) (s u : CanonicalState c) → EndedAs a s → Change c s u → EndedAs a u
  Change-EndedAs a s u ended (stays k) = record {
    is_over = ended.is_over;
    same_lifecycle = k.same_lifecycle ∙ ended.same_lifecycle;
    holds_no_lease = k.gives_no_lease (rw ended.same_lifecycle ended.is_over) ended.holds_no_lease;
  }
  Change-EndedAs a s u ended (moves m) = absurd (
      no_move (height a) (height u.lifecycle_state) (terminal-height a ended.is_over)
        (legal-height a u.lifecycle_state (rw (sym ended.same_lifecycle) m.is_legal)))
    where
      no_move : (n k : ℕ) → n ≡ 0 → k + 1 ≤ n → ⊥
      no_move n k is le = omega arith

  -- A run that is over stays over: no operation moves it, and none gives it a lease.
  pub run-EndedAs :
      (a : Lifecycle) (operations : List Operation) (s : CanonicalState c)
      → EndedAs a s
      → EndedAs a (run c operations s)
  unfolding run
  run-EndedAs a [] s ended = ended
  run-EndedAs a (o ∷ operations) s ended =
      run-EndedAs a operations (keep c s (apply c o s))
        (keep-cases (EndedAs a) o s ended λ u change. Change-EndedAs a s u ended change)

  -- how many of the operations moved the lifecycle
  abbrev pub moved_by : CanonicalState c → CanonicalState c → ℕ
  moved_by s u = if lifecycle_eq u.lifecycle_state s.lifecycle_state then 0 else 1

  unfoldable pub moves_of : List Operation → CanonicalState c → ℕ
  moves_of [] s = 0
  moves_of (o ∷ operations) s =
      moved_by s (keep c s (apply c o s)) + moves_of operations (keep c s (apply c o s))

  -- Each move takes one of the transitions that were left, and raises the revision.
  pub record Spends (moved : ℕ) (s u : CanonicalState c) : Type 0 where
    pub transitions : moved + height u.lifecycle_state ≤ height s.lifecycle_state
    pub revisions : s.revision + moved ≤ u.revision

  lifecycle_eq_refl : (a : Lifecycle) → lifecycle_eq a a ≡ true
  lifecycle_eq_refl a = ground arith

  at_most_one : (b : Bool) → (if b then 0 else 1) ≤ 1
  at_most_one true = omega arith
  at_most_one false = omega arith

  unmoved : (s : CanonicalState c) → Spends (moved_by s s) s s
  unmoved s =
      rw (lifecycle_eq_refl s.lifecycle_state)
        (record { transitions = omega arith; revisions = omega arith })

  Change-Spends : (s u : CanonicalState c) → Change c s u → Spends (moved_by s u) s u
  Change-Spends s u (stays k) =
      rw (k.same_lifecycle, lifecycle_eq_refl s.lifecycle_state)
        (record { transitions = omega arith; revisions = omega (arith, k.keeps_revision) })
  Change-Spends s u (moves m) =
      let one = at_most_one (lifecycle_eq u.lifecycle_state s.lifecycle_state) in
      let less = legal-height s.lifecycle_state u.lifecycle_state m.is_legal in
      record {
        transitions = omega (arith, one, less);
        revisions = omega (arith, one, m.next_revision);
      }

  both : (n k : ℕ) (s u v : CanonicalState c) → Spends n s u → Spends k u v → Spends (n + k) s v
  both n k s u v a b = record {
    transitions = omega (arith, a.transitions, b.transitions);
    revisions = omega (arith, a.revisions, b.revisions);
  }

  -- However long the sequence of operations, the lifecycle moves at most as often as the height of
  -- the first state says, six times from `received` on, and the revision grows by at least one
  -- with each move and never falls.
  pub run-Spends :
      (operations : List Operation) (s : CanonicalState c)
      → Spends (moves_of operations s) s (run c operations s)
  unfolding run moves_of
  run-Spends [] s = record { transitions = omega arith; revisions = omega arith }
  run-Spends (o ∷ operations) s =
      both (moved_by s (keep c s (apply c o s))) (moves_of operations (keep c s (apply c o s))) s
        (keep c s (apply c o s)) (run c operations (keep c s (apply c o s)))
        (keep-cases (λ u. Spends (moved_by s u) s u) o s (unmoved s) (Change-Spends s))
        (run-Spends operations (keep c s (apply c o s)))
