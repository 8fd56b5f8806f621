-- ===== src/Archives/Tests.antt =====
-- A small archive, judged and extracted from, and the theorems at it.
use property_tax_data_platfo.Base.{
  All, ℕ, ◌+◌, ◌*◌, ◌≡◌, refl, Bool, true, false, ◌&&◌, Option, none, some, is_some, List, [], ◌∷◌,
  map, pos, ok, err, Except, ltb, leb, if◌then◌else◌,
}
use property_tax_data_platfo.Archives.Policy.{
  Host, ArchivePolicy, ArchiveInspection, ArchiveError, unsafe_archive, path_traversal,
  unsupported_member_type, policy_post_init, member_summary_post_init,
}
use property_tax_data_platfo.Archives.Names.{check_path, suffix}
use property_tax_data_platfo.Archives.Judge.{
  ZipInfo, judge, judge_entries, judge_entry, judge_totals, judge_file, check_type,
  check_directory_is_empty, check_media_type, check_readable, check_member_ratio,
}
use property_tax_data_platfo.Archives.Preflight.{
  Reader, preflight, find_eocd, bound_directory, bound_declared,
}
use property_tax_data_platfo.Archives.Extract.{
  Stream, finished, chunk, Disk, ExtractError, extract_member, stage_member, stream_found,
  find_member, write_chunks, move_written, move_into_place, settle_staged, discard_staged,
}
use property_tax_data_platfo.Archives.Contained.{IsContained, check_path-IsContained}
use property_tax_data_platfo.Archives.Admitted.{IsJudged, judge-IsJudged}
use property_tax_data_platfo.Archives.Whole.{Extracted, extract_member-Extracted}
use property_tax_data_platfo.Archives.Ratios.{HoldsWhatItStores, judge-HoldsWhatItStores}
use property_tax_data_platfo.Archives.Bounded.{IsBounded, preflight-IsBounded}

-- ratios as fractions; none is infinite
abbrev Ratio : Type 0
Ratio = Option (ℕ × ℕ)

abbrev exceeds_ratio : Ratio → Ratio → Bool
exceeds_ratio none none = false
exceeds_ratio none (some _) = true
exceeds_ratio (some _) none = false
exceeds_ratio (some (a, b)) (some (c, d)) = ltb (c * b) (a * d)

abbrev lower_char : ℕ → ℕ
lower_char c = if leb b'A' c && leb c b'Z' then c + 32 else c

abbrev host : Host
host = record {
  Float = Ratio;
  one = some (1, 1);
  inf = none;
  divide = λ a b. some (a, b);
  exceeds = exceeds_ratio;
  is_finite = is_some;
  lower = map lower_char;
}

-- the defaults, with a part of the suffixes
abbrev policy : ArchivePolicy host
policy = record {
  max_members = pos 256;
  max_member_bytes = pos 17179869184;
  max_expanded_bytes = pos 34359738368;
  max_compression_ratio = some (100, 1);
  max_member_compression_ratio = some (200, 1);
  allowed_suffixes = ".txt" ∷ ".csv" ∷ [];
  allowed_compression_methods = pos 0 ∷ pos 8 ∷ [];
  policy_version = 1;
}

is_valid_policy : policy_post_init host policy ≡ ok tt
unfolding policy_post_init
is_valid_policy = refl

abbrev folder : ZipInfo
folder = record {
  filename = "data/";
  external_attr = 0x41ED0010;
  flag_bits = 0;
  compress_type = 0;
  file_size = 0;
  compress_size = 2;
}

abbrev member : ZipInfo
member = record {
  filename = "data/ACCOUNTS.TXT";
  external_attr = 0x81A40000;
  flag_bits = 8;
  compress_type = 8;
  file_size = 3;
  compress_size = 2;
}

abbrev link : ZipInfo
link = record {
  filename = "evil/";
  external_attr = 0xA1FF0000;
  flag_bits = 0;
  compress_type = 0;
  file_size = 16;
  compress_size = 16;
}

abbrev judged : ArchiveInspection
judged = record {
  members = record { name = "data/ACCOUNTS.TXT"; declared_bytes = 3; compressed_bytes = 2 } ∷ [];
  expanded_bytes = 3;
  compressed_bytes = 2;
  policy_version = 1;
}

judgement : List ZipInfo → Except ArchiveError ArchiveInspection
unfolding judge judge_entries judge_entry judge_totals judge_file check_path check_type
    check_directory_is_empty check_media_type check_readable check_member_ratio
    member_summary_post_init suffix
judgement infos = judge host policy infos

admits : judge host policy (folder ∷ member ∷ []) ≡ ok judged
unfolding judgement
admits = refl

refuses_link :
    judge host policy (folder ∷ link ∷ []) ≡ err (unsafe_archive unsupported_member_type "evil/")
unfolding judgement
refuses_link = refl

refuses_parent :
    check_path "data/../../x.txt" ≡ err (unsafe_archive path_traversal "data/../../x.txt")
unfolding check_path
refuses_parent = refl

passes : check_path "data/ACCOUNTS.TXT" ≡ ok tt
unfolding check_path
passes = refl

check_path-IsContained_example : IsContained "data/ACCOUNTS.TXT"
check_path-IsContained_example = check_path-IsContained "data/ACCOUNTS.TXT" passes

judge-IsJudged_example : IsJudged host policy (folder ∷ member ∷ []) judged
judge-IsJudged_example = judge-IsJudged host policy (folder ∷ member ∷ []) judged admits

-- an end record of two entries in 92 bytes, and nothing before it
abbrev end_record : Reader
end_record = record {
  bytes =
      0x50 ∷ 0x4B ∷ 5 ∷ 6 ∷ 0 ∷ 0 ∷ 0 ∷ 0 ∷ 2 ∷ 0 ∷ 2 ∷ 0 ∷ 92 ∷ 0 ∷ 0 ∷ 0 ∷ 40 ∷ 0 ∷ 0 ∷ 0 ∷ 0 ∷ 0
      ∷ [];
  tail_fails = false;
  record_fails = false;
}

is_passed : preflight host policy end_record ≡ ok tt
unfolding preflight find_eocd bound_directory bound_declared
is_passed = refl

preflight-IsBounded_example : IsBounded host policy end_record
preflight-IsBounded_example = preflight-IsBounded host policy end_record is_passed

abbrev empty_disk : Disk
empty_disk = record { target = none; staged = none; faults = [] }

abbrev two_chunks : ZipInfo → Stream
two_chunks _ = chunk (1 ∷ 2 ∷ []) (chunk (3 ∷ []) finished)

extraction : Disk → Except ExtractError ℕ × Disk
unfolding extract_member stage_member stream_found find_member write_chunks move_written
    move_into_place settle_staged discard_staged check_path check_type check_media_type
    check_readable suffix
extraction d = extract_member host policy (folder ∷ member ∷ []) two_chunks "data/ACCOUNTS.TXT" d

extracts :
    extract_member host policy (folder ∷ member ∷ []) two_chunks "data/ACCOUNTS.TXT" empty_disk
    ≡ (ok 3, record { target = some (1 ∷ 2 ∷ 3 ∷ []); staged = none; faults = [] })
unfolding extraction
extracts = refl

extract_member-Extracted_example :
    Extracted host policy
      (folder ∷ member ∷ [])
      two_chunks
      "data/ACCOUNTS.TXT"
      empty_disk
      (extract_member host policy
        (folder ∷ member ∷ [])
        two_chunks
        "data/ACCOUNTS.TXT"
        empty_disk).0
      (extract_member host policy
        (folder ∷ member ∷ [])
        two_chunks
        "data/ACCOUNTS.TXT"
        empty_disk).1
extract_member-Extracted_example =
    extract_member-Extracted host policy (folder ∷ member ∷ []) two_chunks "data/ACCOUNTS.TXT"
      empty_disk

infinity_exceeds : (r : Ratio) → is_some r ≡ true → exceeds_ratio none r ≡ true
infinity_exceeds none finite = absurd cc
infinity_exceeds (some r) finite = refl

judge-HoldsWhatItStores_example : All HoldsWhatItStores (folder ∷ member ∷ [])
judge-HoldsWhatItStores_example =
    judge-HoldsWhatItStores host infinity_exceeds policy (folder ∷ member ∷ []) judged
      is_valid_policy admits
