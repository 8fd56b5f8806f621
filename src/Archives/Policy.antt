-- ===== src/Archives/Policy.antt =====
-- property_tax_application/archives.py: the policy an archive is judged against, the violations, and
-- what an inspection reports. A Python number that is never negative is a natural number; the
-- limits of a policy, which only its validation makes positive, are integers.
use property_tax_data_platfo.Base.{
  ℕ, ◌+◌, ◌*◌, ◌-◌, String, Bool, true, false, not, ◌&&◌, ◌||◌, List, [], ◌∷◌, ℤ, pos, negsuc,
  Check, refuse_if, ◌>>◌, ltb, ◌==◌, codes, any, if◌then◌else◌,
}

pub data ArchiveViolation : Type 0 where
  path_traversal : ArchiveViolation
  unsupported_member_type : ArchiveViolation
  unsupported_media_type : ArchiveViolation
  too_many_members : ArchiveViolation
  member_too_large : ArchiveViolation
  expansion_too_large : ArchiveViolation
  compression_ratio_too_high : ArchiveViolation
  encrypted_member : ArchiveViolation
  unsupported_compression : ArchiveViolation
  corrupt_member : ArchiveViolation
  unreadable_archive : ArchiveViolation

-- What is raised: `UnsafeArchiveError` with its violation and member, or a `ValueError`.
pub data ArchiveError : Type 0 where
  unsafe_archive : ArchiveViolation → String → ArchiveError
  value_error : String → ArchiveError

-- Python's floats and `str.lower`, as far as a policy uses them: `/` on two integers, `>` on two
-- ratios, `math.inf`, `math.isfinite`.
pub record Host : Type 1 where
  pub Float : Type 0
  pub one : Float
  pub inf : Float
  pub divide : ℕ → ℕ → Float
  pub exceeds : Float → Float → Bool
  pub is_finite : Float → Bool
  pub lower : List ℕ → List ℕ

abbrev pub archive_policy_version : ℕ
archive_policy_version = 1

abbrev pub directory_entry_allowance : ℕ
directory_entry_allowance = 4096

-- `n > limit`
abbrev pub over : ℕ → ℤ → Bool
over n (pos limit) = ltb limit n
over n (negsuc _) = true

-- `value < 1`
abbrev pub below_one : ℤ → Bool
below_one (pos n) = n == 0
below_one (negsuc _) = true

abbrev is_negative : ℤ → Bool
is_negative (pos _) = false
is_negative (negsuc _) = true

abbrev pub codes_eq : List ℕ → List ℕ → Bool
codes_eq [] [] = true
codes_eq (x ∷ xs) (y ∷ ys) = x == y && codes_eq xs ys
codes_eq _ _ = false

abbrev is_empty {ℓ} : {A : Type ℓ} → List A → Bool
is_empty [] = true
is_empty (_ ∷ _) = false

abbrev pub starts_with : ℕ → List ℕ → Bool
starts_with c [] = false
starts_with c (a ∷ _) = a == c

module _ (h : Host) where
  pub record ArchivePolicy : Type 0 where
    pub max_members : ℤ
    pub max_member_bytes : ℤ
    pub max_expanded_bytes : ℤ
    pub max_compression_ratio : h.Float
    pub max_member_compression_ratio : h.Float
    pub allowed_suffixes : List String
    pub allowed_compression_methods : List ℤ
    pub policy_version : ℕ

  -- `not math.isfinite(value) or value <= 1`
  abbrev is_bad_ceiling : h.Float → Bool
  is_bad_ceiling value = not (h.is_finite value) || not (h.exceeds value h.one)

  -- `not s.startswith(".") or s != s.lower()`
  abbrev is_bad_suffix : String → Bool
  is_bad_suffix s = not (starts_with b'.' (codes s)) || not (codes_eq (codes s) (h.lower (codes s)))

  unfoldable pub policy_post_init : ArchivePolicy → Check ArchiveError
  policy_post_init p = do
    refuse_if (below_one p.max_members) (value_error "max_members")
    refuse_if (below_one p.max_member_bytes) (value_error "max_member_bytes")
    refuse_if (below_one p.max_expanded_bytes) (value_error "max_expanded_bytes")
    refuse_if (is_bad_ceiling p.max_compression_ratio) (value_error "max_compression_ratio")
    refuse_if (is_bad_ceiling p.max_member_compression_ratio)
        (value_error "max_member_compression_ratio")
    refuse_if (h.exceeds p.max_compression_ratio p.max_member_compression_ratio)
        (value_error "max_member_compression_ratio")
    refuse_if (is_empty p.allowed_suffixes) (value_error "allowed_suffixes")
    refuse_if (is_empty p.allowed_compression_methods) (value_error "allowed_compression_methods")
    refuse_if (any is_bad_suffix p.allowed_suffixes) (value_error "allowed_suffixes")
    refuse_if (any is_negative p.allowed_compression_methods)
        (value_error "allowed_compression_methods")
    refuse_if (not (p.policy_version == archive_policy_version)) (value_error "policy_version")

  -- the property `max_directory_bytes`
  abbrev pub max_directory_bytes : ArchivePolicy → ℤ
  max_directory_bytes p = scaled p.max_members
    where
      scaled : ℤ → ℤ
      scaled (pos n) = pos (n * directory_entry_allowance)
      scaled (negsuc n) = negsuc ((n + 1) * directory_entry_allowance - 1)

  -- `compression_ratio`, of a member and of an archive
  abbrev pub compression_ratio : ℕ → ℕ → h.Float
  compression_ratio expanded compressed =
      if compressed == 0
      then (if expanded == 0 then h.one else h.inf)
      else h.divide expanded compressed

pub record MemberSummary : Type 0 where
  pub name : String
  pub declared_bytes : ℕ
  pub compressed_bytes : ℕ

unfoldable pub member_summary_post_init : MemberSummary → Check ArchiveError
member_summary_post_init s = refuse_if (is_empty (codes s.name)) (value_error "name")

pub record ArchiveInspection : Type 0 where
  pub members : List MemberSummary
  pub expanded_bytes : ℕ
  pub compressed_bytes : ℕ
  pub policy_version : ℕ
