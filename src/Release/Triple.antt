-- ===== src/Release/Triple.antt =====
-- Pre- and postconditions of the actions of release/processor.py.
use property_tax_data_platfo.Base.{
  ◌≡◌, ◌≢◌, refl, Bool, true, false, ◌∷◌, Except, ok, err, if◌then◌else◌,
}
use property_tax_data_platfo.Release.Outcome.{ReleaseDiagnosticCode, duplicate_record_key}
use property_tax_data_platfo.Release.Steps.{
  settle, settle_key, settle_iteration, perform, attempt, begin_iteration,
}
use property_tax_data_platfo.Release.Run.{
  Call, Reply, reader_iter, propagated, returned, duplicate_key, raised, Caller, Run, Raise,
  rejection, Action, continue, ◌>>=◌,
}

abbrev pub Post :
    {A : Type 0} → (A → Run → Type 0) → (Raise → Run → Type 0) → Except Raise A × Run → Type 0
Post Q X (ok a, r) = Q a r
Post Q X (err e, r) = X e r

-- From `P` the action ends in `Q` if it returns and in `X` if it raises.
pub record Triple {A : Type 0} (P : Run → Type 0) (m : Action A) (Q : A → Run → Type 0)
    (X : Raise → Run → Type 0) : Type 0 where
  pub at : (r : Run) → P r → Post Q X (m r)

module _ {A B : Type 0} {P : Run → Type 0} {Q : A → Run → Type 0} {R : B → Run → Type 0}
    {X : Raise → Run → Type 0} where
  -- One step, then the rest from where it ended.
  pub Triple-bind :
      {m : Action A} (f : A → Action B)
      → Triple P m Q X
      → ((a : A) → Triple (Q a) (f a) R X)
      → Triple P (m >>= f) R X
  unfolding ◌>>=◌
  Triple-bind {m} f t k = record { at = λ r p. go (m r) (t.at r p) }
    where
      go : (x : Except Raise A × Run) → Post Q X x → Post R X (let (e, s) = x in continue e f s)
      go (ok a, s) h = (k a).at s h
      go (err e, s) h = h

-- the run after a call
abbrev pub log : Call → Reply → Run → Run
log call reply r = record r { trace = record { call = call; reply = reply } ∷ r.trace }

module _ (c : Caller) {P Q : Run → Type 0} {X : Raise → Run → Type 0} where
  -- A call either returns, or is the rejection that is named.
  pub Triple-attempt :
      (call : Call) (code : ReleaseDiagnosticCode)
      → ((r : Run) → P r → Q (log call returned r))
      → ((r : Run) (reply : Reply) → reply ≢ returned → P r → X (rejection code) (log call reply r))
      → Triple P (attempt c call code) (λ _. Q) X
  unfolding attempt perform settle ◌>>=◌
  Triple-attempt call code good bad = record { at = λ r p. go r (c.answer r.trace call) p }
    where
      go :
          (r : Run) (reply : Reply)
          → P r
          → Post (λ (_ : Unit {0}). Q) X (settle code reply (log call reply r))
      go r returned p = good r p
      go r duplicate_key p = bad r duplicate_key (λ e. cc) p
      go r raised p = bad r raised (λ e. cc) p

  -- `iter(reader)` either returns, or its exception is what the action raises.
  pub Triple-begin_iteration :
      ((r : Run) → P r → Q (log reader_iter returned r))
      → ((r : Run) (reply : Reply)
          → c.answer r.trace reader_iter ≡ reply
          → reply ≢ returned
          → P r
          → X propagated (log reader_iter reply r))
      → Triple P (begin_iteration c) (λ _. Q) X
  unfolding begin_iteration perform settle_iteration ◌>>=◌
  Triple-begin_iteration good bad = record {
    at = λ r p. go r (c.answer r.trace reader_iter) refl p;
  }
    where
      go :
          (r : Run) (reply : Reply)
          → c.answer r.trace reader_iter ≡ reply
          → P r
          → Post (λ (_ : Unit {0}). Q) X (settle_iteration reply (log reader_iter reply r))
      go r returned e p = good r p
      go r duplicate_key e p = bad r duplicate_key e (λ e. cc) p
      go r raised e p = bad r raised e (λ e. cc) p

  -- A call after which a repeated key is told from another failure.
  pub Triple-perform_key :
      (call : Call) (code : ReleaseDiagnosticCode)
      → ((r : Run) → P r → Q (log call returned r))
      → ((r : Run) (reply : Reply) (code : ReleaseDiagnosticCode)
          → reply ≢ returned
          → P r
          → X (rejection code) (log call reply r))
      → Triple P (perform c call >>= settle_key code) (λ _. Q) X
  unfolding perform settle_key ◌>>=◌
  Triple-perform_key call code good bad = record { at = λ r p. go r (c.answer r.trace call) p }
    where
      go :
          (r : Run) (reply : Reply)
          → P r
          → Post (λ (_ : Unit {0}). Q) X (settle_key code reply (log call reply r))
      go r returned p = good r p
      go r duplicate_key p = bad r duplicate_key duplicate_record_key (λ e. cc) p
      go r raised p = bad r raised code (λ e. cc) p

module _ {A : Type 0} {P : Run → Type 0} {Q : A → Run → Type 0} {X : Raise → Run → Type 0} where
  pub Triple-if :
      (test : Run → Bool) (m n : Action A)
      → ((r : Run) → P r → test r ≡ true → Post Q X (m r))
      → ((r : Run) → P r → test r ≡ false → Post Q X (n r))
      → Triple P (λ r. if test r then m r else n r) Q X
  Triple-if test m n yes_case no_case = record { at = λ r p. go r p (test r) refl }
    where
      go : (r : Run) → P r → (b : Bool) → test r ≡ b → Post Q X (if b then m r else n r)
      go r p true e = yes_case r p e
      go r p false e = no_case r p e

module _ {A : Type 0} {Q Q' : A → Run → Type 0} {X X' : Raise → Run → Type 0} where
  -- A weaker postcondition.
  pub Post-weaken :
      (x : Except Raise A × Run)
      → ((a : A) (r : Run) → Q a r → Q' a r)
      → ((e : Raise) (r : Run) → X e r → X' e r)
      → Post Q X x
      → Post Q' X' x
  Post-weaken (ok a, r) f g h = f a r h
  Post-weaken (err e, r) f g h = g e r h

module _ {A : Type 0} {P : Run → Type 0} {Q : A → Run → Type 0} {X : Raise → Run → Type 0} where
  pub Triple-cond :
      (b : Bool) (m n : Action A)
      → Triple P m Q X
      → Triple P n Q X
      → Triple P (if b then m else n) Q X
  Triple-cond true m n tm tn = tm
  Triple-cond false m n tm tn = tn
