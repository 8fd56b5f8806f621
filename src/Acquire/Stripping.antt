-- ===== src/Acquire/Stripping.antt =====
-- What stripping a text and taking its control characters away leave.
use Prim.Native.Char.{code}
use property_tax_data_platfo.Base.{
  ℕ, ◌≤◌, zero, suc, String, Bool, true, false, ◌≡◌, refl, ap, ◌∙◌, arith, if◌then◌else◌, or-false,
  is_space,
}
use property_tax_data_platfo.Acquire.Characters.{
  chars, prefix, lstrip, rstrip, strip, keep_unless_last, is_control, has_control, without_controls,
}

pub prefix-all : (size : ℕ) (text : String) → chars text ≤ size → prefix size text ≡ text
prefix-all zero String.[] short = refl
prefix-all zero (String.◌∷◌ c text) short = absurd (omega (arith, short))
prefix-all (suc size) String.[] short = refl
prefix-all (suc size) (String.◌∷◌ c text) short =
    ap (λ t. String.◌∷◌ c t) (prefix-all size text (omega (arith, short)))

-- Stripping takes characters away and adds none.
pub rstrip-has_control :
    (text : String) → has_control text ≡ false → has_control (rstrip text) ≡ false
rstrip-has_control String.[] clear = refl
rstrip-has_control (String.◌∷◌ c text) clear =
    let (here, rest) = or-false (is_control (code c)) _ clear in
    kept (is_space (code c)) (rstrip text) here (rstrip-has_control text rest)
  where
    kept :
        (space : Bool) (rest : String)
        → is_control (code c) ≡ false
        → has_control rest ≡ false
        → has_control (keep_unless_last space rest (String.◌∷◌ c rest)) ≡ false
    kept true String.[] here clear' = refl
    kept true (String.◌∷◌ d rest) here clear' = rw here clear'
    kept false rest here clear' = rw here clear'

pub lstrip-has_control :
    (text : String) → has_control text ≡ false → has_control (lstrip text) ≡ false
lstrip-has_control String.[] clear = refl
lstrip-has_control (String.◌∷◌ c text) clear =
    let (here, rest) = or-false (is_control (code c)) _ clear in
    elim (is_space (code c))
      as (λ b. has_control (if b then lstrip text else String.◌∷◌ c text) ≡ false) [
        | true ↦ lstrip-has_control text rest
        | false ↦ clear
      ]

pub without_controls-has_control : (text : String) → has_control (without_controls text) ≡ false
without_controls-has_control String.[] = refl
without_controls-has_control (String.◌∷◌ c text) =
    split (is_control (code c)) refl (without_controls-has_control text)
  where
    split :
        (control : Bool)
        → is_control (code c) ≡ control
        → has_control (without_controls text) ≡ false
        → has_control
            (if control then without_controls text else String.◌∷◌ c (without_controls text))
          ≡ false
    split true e rest = rest
    split false e rest = rw e rest

rstrip-rstrip : (text : String) → rstrip (rstrip text) ≡ rstrip text
rstrip-rstrip String.[] = refl
rstrip-rstrip (String.◌∷◌ c text) =
    split (is_space (code c)) (rstrip text) refl (rstrip-rstrip text)
  where
    split :
        (space : Bool) (rest : String)
        → is_space (code c) ≡ space
        → rstrip rest ≡ rest
        → rstrip (keep_unless_last space rest (String.◌∷◌ c rest))
          ≡ keep_unless_last space rest (String.◌∷◌ c rest)
    split true String.[] e same = refl
    split true (String.◌∷◌ d rest) e same = rw (e, same) refl
    split false rest e same = rw (e, same) refl

-- The first character is no space.
abbrev Begun : String → Type 0
Begun String.[] = Unit
Begun (String.◌∷◌ c text) = is_space (code c) ≡ false

lstrip-Begun : (text : String) → Begun (lstrip text)
lstrip-Begun String.[] = tt
lstrip-Begun (String.◌∷◌ c text) = split (is_space (code c)) refl (lstrip-Begun text)
  where
    split :
        (space : Bool)
        → is_space (code c) ≡ space
        → Begun (lstrip text)
        → Begun (if space then lstrip text else String.◌∷◌ c text)
    split true e rest = rest
    split false e rest = e

Begun-lstrip : (text : String) → Begun text → lstrip text ≡ text
Begun-lstrip String.[] begun = refl
Begun-lstrip (String.◌∷◌ c text) begun = rw begun refl

rstrip-Begun : (text : String) → Begun text → Begun (rstrip text)
rstrip-Begun String.[] begun = tt
rstrip-Begun (String.◌∷◌ c text) begun = split (is_space (code c)) (rstrip text) begun
  where
    split :
        (space : Bool) (rest : String)
        → is_space (code c) ≡ false
        → Begun (keep_unless_last space rest (String.◌∷◌ c rest))
    split true String.[] e = tt
    split true (String.◌∷◌ d rest) e = e
    split false rest e = e

pub strip-strip : (text : String) → strip (strip text) ≡ strip text
strip-strip text =
    ap rstrip (Begun-lstrip (strip text) (rstrip-Begun (lstrip text) (lstrip-Begun text)))
    ∙ rstrip-rstrip (lstrip text)
