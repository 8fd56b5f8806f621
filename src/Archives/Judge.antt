-- ===== src/Archives/Judge.antt =====
-- archives/zip_inspection.py: the rules an entry of the directory is judged by, and the judgement
-- of the whole archive.
use property_tax_data_platfo.Base.{
  ℕ, ◌+◌, ◌*◌, ◌/◌, ◌%◌, String, Bool, not, ◌&&◌, List, [], ◌∷◌, ◌++◌, pos, int_eq, Except, Check,
  ok, refuse_if, ◌>>=◌, ◌>>◌, ltb, ◌==◌, codes, any, length, if◌then◌else◌,
}
use property_tax_data_platfo.Archives.Policy.{
  ArchiveError, unsafe_archive, unsupported_member_type, unsupported_media_type, too_many_members,
  member_too_large, expansion_too_large, compression_ratio_too_high, encrypted_member,
  unsupported_compression, Host, ArchivePolicy, MemberSummary, member_summary_post_init,
  ArchiveInspection, archive_policy_version, over, codes_eq, compression_ratio,
}
use property_tax_data_platfo.Archives.Names.{check_path, ends_with_slash, suffix}

-- The fields of `zipfile.ZipInfo` that the rules read: what the archive's directory declares.
pub record ZipInfo : Type 0 where
  pub filename : String
  pub external_attr : ℕ
  pub flag_bits : ℕ
  pub compress_type : ℕ
  pub file_size : ℕ
  pub compress_size : ℕ

abbrev pub s_ifreg : ℕ
s_ifreg = 0x8000

abbrev pub s_ifdir : ℕ
s_ifdir = 0x4000

abbrev pub max_directory_encoding_bytes : ℕ
max_directory_encoding_bytes = 64

-- `(info.external_attr >> 16) & 0o170000`
abbrev pub file_type : ZipInfo → ℕ
file_type info = info.external_attr / 65536 / 4096 % 16 * 4096

-- `_claims_directory`
abbrev pub claims_directory : ZipInfo → Bool
claims_directory info = ends_with_slash (codes info.filename)

-- `_check_type`
unfoldable pub check_type : ZipInfo → Check ArchiveError
check_type info =
    refuse_if
      (not (file_type info == 0)
        && not (file_type info == (if claims_directory info then s_ifdir else s_ifreg)))
      (unsafe_archive unsupported_member_type info.filename)

-- `_check_directory_is_empty`
unfoldable pub check_directory_is_empty : ZipInfo → Check ArchiveError
check_directory_is_empty info = do
  refuse_if (not (info.file_size == 0)) (unsafe_archive unsupported_member_type info.filename)
  refuse_if (ltb max_directory_encoding_bytes info.compress_size)
      (unsafe_archive unsupported_member_type info.filename)

-- The sums and the summaries that the loop of `_judge` keeps.
pub record Tally : Type 0 where
  pub members : List MemberSummary
  pub expanded : ℕ
  pub compressed : ℕ

module _ (h : Host) (policy : ArchivePolicy h) where
  -- `_check_media_type`
  unfoldable pub check_media_type : String → Check ArchiveError
  unfolding suffix
  check_media_type name =
      refuse_if
        (not
          (any (λ s. codes_eq (codes s) (h.lower (suffix (codes name)))) policy.allowed_suffixes))
        (unsafe_archive unsupported_media_type name)

  -- `_check_readable`
  unfoldable pub check_readable : ZipInfo → Check ArchiveError
  check_readable info = do
    refuse_if (info.flag_bits % 2 == 1) (unsafe_archive encrypted_member info.filename)
    refuse_if (not (any (int_eq (pos info.compress_type)) policy.allowed_compression_methods))
        (unsafe_archive unsupported_compression info.filename)

  -- `_check_member_ratio`
  unfoldable pub check_member_ratio : MemberSummary → Check ArchiveError
  check_member_ratio s =
      refuse_if
        (h.exceeds (compression_ratio h s.declared_bytes s.compressed_bytes)
          policy.max_member_compression_ratio)
        (unsafe_archive compression_ratio_too_high s.name)

  abbrev pub summary_of : ZipInfo → MemberSummary
  summary_of info = record {
    name = info.filename;
    declared_bytes = info.file_size;
    compressed_bytes = info.compress_size;
  }

  -- the rules for an entry that is not a directory
  unfoldable pub judge_file : ZipInfo → Check ArchiveError
  unfolding check_media_type check_readable check_member_ratio member_summary_post_init
  judge_file info = do
    check_media_type info.filename
    check_readable info
    refuse_if (over info.file_size policy.max_member_bytes)
        (unsafe_archive member_too_large info.filename)
    member_summary_post_init (summary_of info)
    check_member_ratio (summary_of info)

  abbrev pub add_member : Tally → ZipInfo → Tally
  add_member t info = record {
    members = t.members ++ summary_of info ∷ [];
    expanded = t.expanded + info.file_size;
    compressed = t.compressed + info.compress_size;
  }

  -- one turn of the loop
  unfoldable pub judge_entry : ZipInfo → Tally → Except ArchiveError Tally
  unfolding check_path check_type check_directory_is_empty judge_file
  judge_entry info t =
      check_path info.filename
      >> (check_type info
          >> (if claims_directory info
              then check_directory_is_empty info >> ok t
              else judge_file info >> ok (add_member t info)))

  unfoldable pub judge_entries : List ZipInfo → Tally → Except ArchiveError Tally
  unfolding judge_entry
  judge_entries [] t = ok t
  judge_entries (info ∷ infos) t = judge_entry info t >>= judge_entries infos

  abbrev pub inspection_of : Tally → ArchiveInspection
  inspection_of t = record {
    members = t.members;
    expanded_bytes = t.expanded;
    compressed_bytes = t.compressed;
    policy_version = archive_policy_version;
  }

  abbrev pub no_members : Tally
  no_members = record { members = []; expanded = 0; compressed = 0 }

  -- the limits on the totals
  unfoldable pub judge_totals : Tally → Except ArchiveError ArchiveInspection
  judge_totals t = do
    refuse_if (over t.expanded policy.max_expanded_bytes) (unsafe_archive expansion_too_large "")
    refuse_if (h.exceeds (compression_ratio h t.expanded t.compressed) policy.max_compression_ratio)
        (unsafe_archive compression_ratio_too_high "")
    ok (inspection_of t)

  -- `_judge`
  unfoldable pub judge : List ZipInfo → Except ArchiveError ArchiveInspection
  unfolding judge_entries judge_totals
  judge infos = do
    refuse_if (over (length infos) policy.max_members) (unsafe_archive too_many_members "")
    t ← judge_entries infos no_members
    judge_totals t
