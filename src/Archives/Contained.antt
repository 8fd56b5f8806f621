-- ===== src/Archives/Contained.antt =====
-- A name that `_check_path` passes stays inside the directory it is resolved in.
use property_tax_data_platfo.Base.{
  ℕ, zero, suc, ◌≡◌, refl, sym, String, Bool, true, false, Option, none, some, List, [], ◌∷◌, ok,
  refuse_if->>, refuse_if-ok, ◌==◌, codes, any, if◌then◌else◌, arith, or-false, ◌⊎◌, inl, inr,
}
use property_tax_data_platfo.Archives.Policy.{starts_with}
use property_tax_data_platfo.Archives.Names.{
  check_path, split_slash, to_slash, keep_parts, is_part, is_parent, posix_parts, has_drive,
  has_char, slash, backslash,
}

abbrev up : ℕ → Option ℕ
up zero = none
up (suc depth) = some depth

-- One part of a path, from so many directories below the root; none is outside of it.
abbrev enter : Option ℕ → List ℕ → Option ℕ
enter none part = none
enter (some depth) part =
    if is_parent part then up depth else if is_part part then some (suc depth) else some depth

abbrev walk : Option ℕ → List (List ℕ) → Option ℕ
walk at_depth [] = at_depth
walk at_depth (part ∷ rest) = walk (enter at_depth part) rest

-- The name is relative, means the same on every platform, and no part of the way along it is
-- outside the root.
pub record IsContained (name : String) : Type 0 where
  pub is_relative : starts_with slash (codes name) ≡ false
  pub has_no_drive : has_drive (codes name) ≡ false
  pub is_portable : to_slash (codes name) ≡ codes name
  pub depth : ℕ
  pub stays : walk (some 0) (split_slash (codes name)) ≡ some depth

is_parent-is_part : (part : List ℕ) → is_part part ≡ false → is_parent part ≡ false
is_parent-is_part [] h = refl
is_parent-is_part (a ∷ []) h = ground arith
is_parent-is_part (a ∷ b ∷ part) h = ground arith

any-kept :
    (b : Bool) (part : List ℕ) (kept : List (List ℕ))
    → any is_parent (if b then part ∷ kept else kept) ≡ false
    → ((b ≡ false) ⊎ (is_parent part ≡ false)) × (any is_parent kept ≡ false)
any-kept true part kept h =
    let q = or-false (is_parent part) (any is_parent kept) h in (inr q.0, q.1)
any-kept false part kept h = (inl refl, h)

not_parent :
    (part : List ℕ) → (is_part part ≡ false) ⊎ (is_parent part ≡ false) → is_parent part ≡ false
not_parent part (inl empty) = is_parent-is_part part empty
not_parent part (inr h) = h

any-keep_parts :
    (parts : List (List ℕ)) → any is_parent (keep_parts parts) ≡ false → any is_parent parts ≡ false
any-keep_parts [] h = refl
any-keep_parts (part ∷ rest) h =
    let q = any-kept (is_part part) part (keep_parts rest) h in
    rw (not_parent part q.0, any-keep_parts rest q.1) refl

past_part :
    (depth : ℕ) (rest : List (List ℕ)) (b : Bool)
    → ((end : ℕ) × (walk (some (suc depth)) rest ≡ some end))
    → ((end : ℕ) × (walk (some depth) rest ≡ some end))
    → (end : ℕ) × (walk (if b then some (suc depth) else some depth) rest ≡ some end)
past_part depth rest true deeper here = deeper
past_part depth rest false deeper here = here

walk-stays :
    (parts : List (List ℕ)) (depth : ℕ)
    → any is_parent parts ≡ false
    → (end : ℕ) × (walk (some depth) parts ≡ some end)
walk-stays [] depth h = (depth, refl)
walk-stays (part ∷ rest) depth h =
    let q = or-false (is_parent part) (any is_parent rest) h in
    rw q.0 (
      past_part depth rest (is_part part) (walk-stays rest (suc depth) q.1)
        (walk-stays rest depth q.1))

to_slash-portable : (cs : List ℕ) → has_char backslash cs ≡ false → to_slash cs ≡ cs
to_slash-portable [] h = refl
to_slash-portable (c ∷ cs) h =
    let q = or-false (c == backslash) (has_char backslash cs) h in
    rw (q.0, to_slash-portable cs q.1) refl

no_parents :
    {cs ds : List ℕ}
    → ds ≡ cs
    → any is_parent (posix_parts ds) ≡ false
    → any is_parent (split_slash cs) ≡ false
no_parents {cs} same h = any-keep_parts (split_slash cs) (rw (sym same) h)

-- Every name that `_check_path` passes is contained.
pub check_path-IsContained : (name : String) → check_path name ≡ ok tt → IsContained name
unfolding check_path
check_path-IsContained name h =
    let (_, h) = refuse_if->> _ _ h in
    let (rooted, h) = refuse_if->> _ _ h in
    let (drive, h) = refuse_if->> _ _ h in
    let (parents, h) = refuse_if->> _ _ h in
    let portable = to_slash-portable (codes name) (refuse_if-ok _ _ h) in
    let (depth, stays) = walk-stays (split_slash (codes name)) 0 (no_parents portable parents) in
    record {
      is_relative = (or-false _ _ rooted).0;
      has_no_drive = drive;
      is_portable = portable;
      depth = depth;
      stays = stays;
    }
