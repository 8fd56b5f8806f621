-- ===== src/Base/Raising.antt =====
-- Python code that returns or raises, as a value: `E` is what it raises.
use mathlib.Core.Path.{◌≡◌, refl}
use mathlib.Core.Bool.{Bool, true, false}
use mathlib.Core.Logic.{◌⊎◌, inl, inr}

pub data Except {ℓ} (E : Type 0) (A : Type ℓ) : Type ℓ where
  ok : A → Except E A
  err : E → Except E A

-- A check that returns nothing.
abbrev pub Check : Type 0 → Type 0
Check E = Except E (Unit {0})

-- `if test: raise e`
abbrev pub refuse_if : {E : Type 0} → Bool → E → Check E
refuse_if false raised = ok tt
refuse_if true raised = err raised

module _ {ℓ κ} {E : Type 0} {A : Type ℓ} {B : Type κ} where
  infixl 5 ◌>>=◌
  abbrev pub ◌>>=◌ : Except E A → (A → Except E B) → Except E B
  err raised >>= next = err raised
  ok value >>= next = next value

pub Except-cases {ℓ} :
    {E : Type 0} {A : Type ℓ} (m : Except E A) → ((a : A) × (m ≡ ok a)) ⊎ ((e : E) × (m ≡ err e))
Except-cases (ok a) = inl (a, refl)
Except-cases (err e) = inr (e, refl)

module _ {ℓ} {E : Type 0} {B : Type ℓ} where
  infixl 5 ◌>>◌
  abbrev pub ◌>>◌ : Check E → Except E B → Except E B
  check >> next = check >>= λ _. next

-- A sequence that returned: what its first step returned, and that the rest returned from there.
module _ {ℓ κ} {E : Type 0} {A : Type ℓ} {B : Type κ} where
  pub >>=-eq-ok :
      (step : Except E A) (next : A → Except E B) {result : B}
      → step >>= next ≡ ok result
      → (value : A) × (step ≡ ok value) × (next value ≡ ok result)
  >>=-eq-ok (err raised) next returns = absurd cc
  >>=-eq-ok (ok value) next returns = (value, refl, returns)

-- A check that was passed.
pub refuse_if->> {ℓ} :
    {E : Type 0} {B : Type ℓ} (test : Bool) (e : E) {k : Except E B} {x : B}
    → (refuse_if test e >> k) ≡ ok x
    → (test ≡ false) × (k ≡ ok x)
refuse_if->> true e h = absurd cc
refuse_if->> false e h = (refl, h)

pub refuse_if-ok : {E : Type 0} (test : Bool) (e : E) → refuse_if test e ≡ ok tt → test ≡ false
refuse_if-ok true e h = absurd cc
refuse_if-ok false e h = refl

-- A step that returns nothing, and what follows it.
pub >>-eq-ok {ℓ} :
    {E : Type 0} {B : Type ℓ} (m : Check E) {k : Except E B} {x : B}
    → (m >> k) ≡ ok x
    → (m ≡ ok tt) × (k ≡ ok x)
>>-eq-ok (ok tt) h = (refl, h)
>>-eq-ok (err e) h = absurd cc
