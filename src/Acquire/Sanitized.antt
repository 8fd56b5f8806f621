-- ===== src/Acquire/Sanitized.antt =====
-- What `sanitize_headers` keeps, against what `ResponseMetadata` accepts.
use mathlib.Core.Path.{subst}
use property_tax_data_platfo.Base.{
  ℕ, ◌≤◌, String, Bool, true, false, not, [], ◌∷◌, ◌≡◌, refl, sym, ap, ok, All, arith,
  if◌then◌else◌, leb, ltb, ◌&&◌, str_eq, eq_iff, leb→le, refuse_if->>, refuse_if-ok,
}
use property_tax_data_platfo.Acquire.Stripping.{
  prefix-all, strip-strip, without_controls-has_control, rstrip-has_control, lstrip-has_control,
}
use property_tax_data_platfo.Acquire.Characters.{
  chars, lstrip, strip, has_control, without_controls, is_among,
}
use property_tax_data_platfo.Acquire.Contract.{Host}
use property_tax_data_platfo.Acquire.Headers.{
  Headers, put, clean, keep_header, keep_headers, sanitize_headers, sanitized_headers,
  max_header_value_chars, require_sanitized_header_value, require_sanitized_values, has_unknown,
  metadata_post_init,
}

eq-false : (a b : String) → a ≡ b → not (str_eq a b) ≡ false
eq-false a b same = ap not ((eq_iff a b).1 same)

-- The value stays whole when it is clipped.
abbrev pub IsShort : String × String → Type 0
IsShort (name, value) = leb (chars (strip (without_controls value))) max_header_value_chars ≡ true

clean-short :
    (name value : String) → IsShort (name, value) → clean value ≡ strip (without_controls value)
unfolding clean
clean-short name value short = prefix-all _ _ (leb→le _ _ short)

stripped-passes :
    (name value : String)
    → ltb max_header_value_chars (chars value) ≡ false
    → has_control value ≡ false
    → value ≡ strip value
    → require_sanitized_header_value name value ≡ ok tt
unfolding require_sanitized_header_value
stripped-passes name value short clear stripped = rw (short, clear, eq-false _ _ stripped) refl

le-ltb : (a b : ℕ) → a ≤ b → ltb b a ≡ false
le-ltb a b h = ground arith

-- A name on the allowlist, with a value that the check lets pass.
abbrev IsKept : String × String → Type 0
IsKept (name, value) =
    (is_among name sanitized_headers ≡ true) × (require_sanitized_header_value name value ≡ ok tt)

clean-passes :
    (name value : String)
    → IsShort (name, value)
    → (key : String) → require_sanitized_header_value key (clean value) ≡ ok tt
clean-passes name value short key =
    let whole = clean-short name value short in
    let text = strip (without_controls value) in
    let clear : has_control text ≡ false =
      rstrip-has_control (lstrip (without_controls value))
        (lstrip-has_control (without_controls value) (without_controls-has_control value)) in
    subst (λ v. require_sanitized_header_value key v ≡ ok tt) (sym whole)
      (stripped-passes key text (le-ltb _ _ (leb→le _ _ short)) clear
        (sym (strip-strip (without_controls value))))

-- The check takes a value's name for its message alone.
renamed :
    (name key value : String)
    → require_sanitized_header_value name value ≡ ok tt
    → require_sanitized_header_value key value ≡ ok tt
unfolding require_sanitized_header_value
renamed name key value passes =
    let (r1, rest) = refuse_if->> (ltb max_header_value_chars (chars value)) _ passes in
    let (r2, rest') = refuse_if->> (has_control value) _ rest in
    rw (r1, r2, refuse_if-ok (not (str_eq value (strip value))) _ rest') refl

put-IsKept :
    (name value : String) (kept : Headers)
    → IsKept (name, value)
    → All IsKept kept
    → All IsKept (put name value kept)
put-IsKept name value [] here holds = (here, tt)
put-IsKept name value ((key, old) ∷ rest) here (first, holds) =
    elim (str_eq key name)
      as (λ b. All IsKept (if b then (key, value) ∷ rest else (key, old) ∷ put name value rest)) [
        | true ↦ ((first.0, renamed name key value here.1), holds)
        | false ↦ (first, put-IsKept name value rest here holds)
      ]

has_unknown-IsKept : (kept : Headers) → All IsKept kept → has_unknown kept ≡ false
has_unknown-IsKept [] holds = refl
has_unknown-IsKept ((name, value) ∷ rest) (here, holds) =
    rw (here.0) (has_unknown-IsKept rest holds)

values-IsKept : (kept : Headers) → All IsKept kept → require_sanitized_values kept ≡ ok tt
unfolding require_sanitized_values
values-IsKept [] holds = refl
values-IsKept ((name, value) ∷ rest) (here, holds) = rw (here.1) (values-IsKept rest holds)

module _ (h : Host) where
  keep_header-IsKept :
      (header : String × String) (kept : Headers)
      → IsShort header
      → All IsKept kept
      → All IsKept (keep_header h header kept)
  unfolding keep_header
  keep_header-IsKept (name, value) kept short holds =
      split (is_among (h.casefold name) sanitized_headers) refl
    where
      split :
          (listed : Bool)
          → is_among (h.casefold name) sanitized_headers ≡ listed
          → All IsKept (if listed then put (h.casefold name) (clean value) kept else kept)
      split true e =
          put-IsKept (h.casefold name) (clean value) kept
            (e, clean-passes name value short (h.casefold name)) holds
      split false e = holds

  keep_headers-IsKept :
      (headers kept : Headers)
      → All IsShort headers
      → All IsKept kept
      → All IsKept (keep_headers h headers kept)
  unfolding keep_headers
  keep_headers-IsKept [] kept short holds = holds
  keep_headers-IsKept (header ∷ headers) kept (here, short) holds =
      keep_headers-IsKept headers (keep_header h header kept) short
        (keep_header-IsKept header kept here holds)

  -- What sanitize_headers keeps of any response's headers is what ResponseMetadata accepts, with any
  -- HTTP status, provided that no value, once its control characters and surrounding white space are
  -- gone, is longer than 512 characters.
  pub sanitize_headers-IsAccepted :
      (status : ℕ) (headers : Headers)
      → leb 100 status && leb status 599 ≡ true
      → All IsShort headers
      → metadata_post_init (record { status = status; headers = sanitize_headers h headers })
        ≡ ok tt
  unfolding metadata_post_init sanitize_headers
  sanitize_headers-IsAccepted status headers valid short =
      let holds = keep_headers-IsKept headers [] short tt in
      rw (valid, has_unknown-IsKept (keep_headers h headers []) holds)
        (values-IsKept (keep_headers h headers []) holds)
