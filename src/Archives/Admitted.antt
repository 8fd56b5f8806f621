-- ===== src/Archives/Admitted.antt =====
-- What `_judge` admits: every entry on its own, and the archive as a whole.
use mathlib.Core.List.{append-nil, append_assoc}
use property_tax_data_platfo.Base.{
  ℕ, ◌+◌, ◌%◌, ◌≤◌, ◌≡◌, refl, sym, ap, ◌∙◌, ◌⊎◌, inl, inr, Bool, true, false, not, ◌&&◌, List, [],
  ◌∷◌, ◌++◌, pos, int_eq, All, Except, ok, refuse_if->>, refuse_if-ok, >>-eq-ok, >>=-eq-ok, ◌>>◌,
  ◌==◌, codes, any, length, if◌then◌else◌, arith, ltb-false→le,
}
use property_tax_data_platfo.Archives.Policy.{
  ArchiveError, Host, ArchivePolicy, ArchiveInspection, MemberSummary, member_summary_post_init,
  over, compression_ratio, codes_eq,
}
use property_tax_data_platfo.Archives.Names.{check_path, suffix}
use property_tax_data_platfo.Archives.Judge.{
  ZipInfo, s_ifreg, s_ifdir, file_type, claims_directory, check_type, check_directory_is_empty,
  Tally, check_media_type, check_readable, check_member_ratio, summary_of, judge_file, add_member,
  judge_entry, judge_entries, inspection_of, judge_totals, judge, no_members,
}
use property_tax_data_platfo.Archives.Contained.{IsContained, check_path-IsContained}

-- The type bits of an entry are absent, or those of what its name claims to be.
abbrev pub IsOfItsType : ZipInfo → Type 0
IsOfItsType info =
    (file_type info ≡ 0) ⊎ (file_type info ≡ (if claims_directory info then s_ifdir else s_ifreg))

pub record IsEmptyDirectory (info : ZipInfo) : Type 0 where
  pub is_directory : claims_directory info ≡ true
  pub holds_nothing : info.file_size ≡ 0
  pub stores_little : info.compress_size ≤ 64

not_zero : (n : ℕ) → not (n == 0) ≡ false → n ≡ 0
not_zero n h = ground arith

either_type : (n m : ℕ) → (not (n == 0) && not (n == m)) ≡ false → (n ≡ 0) ⊎ (n ≡ m)
either_type n m h = ground arith

check_type-IsOfItsType : (info : ZipInfo) → check_type info ≡ ok tt → IsOfItsType info
unfolding check_type
check_type-IsOfItsType info h = either_type _ _ (refuse_if-ok _ _ h)

check_directory-IsEmptyDirectory :
    (info : ZipInfo)
    → claims_directory info ≡ true
    → check_directory_is_empty info ≡ ok tt
    → IsEmptyDirectory info
unfolding check_directory_is_empty
check_directory-IsEmptyDirectory info is h =
    let q = refuse_if->> _ _ h in
    record {
      is_directory = is;
      holds_nothing = not_zero _ q.0;
      stores_little = ltb-false→le _ _ (refuse_if-ok _ _ q.1);
    }

module _ (h : Host) (policy : ArchivePolicy h) where
  pub record IsAdmissibleFile (info : ZipInfo) : Type 0 where
    pub is_file : claims_directory info ≡ false
    pub has_allowed_suffix :
        any
          (λ s. codes_eq (codes s) (h.lower (suffix (codes info.filename))))
          policy.allowed_suffixes
        ≡ true
    pub is_not_encrypted : info.flag_bits % 2 ≡ 0
    pub has_allowed_method :
        any (int_eq (pos info.compress_type)) policy.allowed_compression_methods ≡ true
    pub is_small_enough : over info.file_size policy.max_member_bytes ≡ false
    pub has_allowed_ratio :
        h.exceeds
          (compression_ratio h info.file_size info.compress_size)
          policy.max_member_compression_ratio
        ≡ false

  pub record IsAdmitted (info : ZipInfo) : Type 0 where
    pub is_contained : IsContained info.filename
    pub is_of_its_type : IsOfItsType info
    pub content : IsEmptyDirectory info ⊎ IsAdmissibleFile info

not-false : (b : Bool) → not b ≡ false → b ≡ true
not-false true h = refl
not-false false h = absurd cc

even_of : (n : ℕ) → (n % 2 == 1) ≡ false → n % 2 ≡ 0
even_of n h = ground arith

module _ (h : Host) (policy : ArchivePolicy h) where
  judge_file-IsAdmissibleFile :
      (info : ZipInfo)
      → claims_directory info ≡ false
      → judge_file h policy info ≡ ok tt
      → IsAdmissibleFile h policy info
  unfolding judge_file check_media_type check_readable check_member_ratio member_summary_post_init
  judge_file-IsAdmissibleFile info is_file e =
      let media = >>-eq-ok _ e in
      let readable = >>-eq-ok _ media.1 in
      let flags = refuse_if->> _ _ readable.0 in
      let size = refuse_if->> _ _ readable.1 in
      let named = refuse_if->> _ _ size.1 in
      record {
        is_file = is_file;
        has_allowed_suffix = not-false _ (refuse_if-ok _ _ media.0);
        is_not_encrypted = even_of info.flag_bits flags.0;
        has_allowed_method = not-false _ (refuse_if-ok _ _ flags.1);
        is_small_enough = size.0;
        has_allowed_ratio = refuse_if-ok _ _ named.1;
      }

  -- what follows the checks of every entry
  abbrev after_checks : ZipInfo → Tally → Bool → Except ArchiveError Tally
  after_checks info t b =
      if b
      then check_directory_is_empty info >> ok t
      else judge_file h policy info >> ok (add_member h policy t info)

  entry_content :
      (info : ZipInfo) (t t' : Tally) (b : Bool)
      → claims_directory info ≡ b
      → after_checks info t b ≡ ok t'
      → (IsEmptyDirectory info ⊎ IsAdmissibleFile h policy info)
        × ((if b then t else add_member h policy t info) ≡ t')
  entry_content info t t' true is e =
      let q = >>-eq-ok _ e in (inl (check_directory-IsEmptyDirectory info is q.0), cc)
  entry_content info t t' false is e =
      let q = >>-eq-ok _ e in (inr (judge_file-IsAdmissibleFile info is q.0), cc)

  -- one turn of the loop that goes on
  judge_entry-IsAdmitted :
      (info : ZipInfo) (t t' : Tally)
      → judge_entry h policy info t ≡ ok t'
      → IsAdmitted h policy info
        × ((if claims_directory info then t else add_member h policy t info) ≡ t')
  unfolding judge_entry
  judge_entry-IsAdmitted info t t' e =
      let path =
        >>-eq-ok (check_path info.filename)
          {k = check_type info >> after_checks info t (claims_directory info)} e in
      let typed =
        >>-eq-ok (check_type info) {k = after_checks info t (claims_directory info)} path.1 in
      let content = entry_content info t t' (claims_directory info) refl typed.1 in
      (
        record {
          is_contained = check_path-IsContained info.filename path.0;
          is_of_its_type = check_type-IsOfItsType info typed.0;
          content = content.0;
        },
        content.1,
      )

  -- The summaries of the entries that are not directories, in their order.
  abbrev pub summaries : List ZipInfo → List MemberSummary
  summaries [] = []
  summaries (info ∷ infos) =
      let rest = summaries infos in
      if claims_directory info then rest else summary_of h policy info ∷ rest

-- What every entry declares to expand to, the directories' included.
abbrev pub total_size : List ZipInfo → ℕ
total_size [] = 0
total_size (info ∷ infos) = info.file_size + total_size infos

-- What the files, and not the directories, are stored in.
abbrev pub stored_size : List ZipInfo → ℕ
stored_size [] = 0
stored_size (info ∷ infos) =
    let rest = stored_size infos in
    if claims_directory info then rest else info.compress_size + rest

module _ (h : Host) (policy : ArchivePolicy h) where
  clash : {b : Bool} → b ≡ true → b ≡ false → ⊥
  clash is no_dir = absurd cc

  extends :
      (info : ZipInfo) (t : Tally) (b : Bool) (rest : List MemberSummary) (total stored : ℕ)
      → claims_directory info ≡ b
      → (IsEmptyDirectory info ⊎ IsAdmissibleFile h policy info)
      → ((if b then t else add_member h policy t info).members ++ rest
          ≡ t.members ++ (if b then rest else summary_of h policy info ∷ rest))
        × ((if b then t else add_member h policy t info).expanded + total
            ≡ t.expanded + (info.file_size + total))
        × ((if b then t else add_member h policy t info).compressed + stored
            ≡ t.compressed + (if b then stored else info.compress_size + stored))
  extends info t true rest total stored is (inl d) = (refl, omega (arith, d.holds_nothing), refl)
  extends info t true rest total stored is (inr f) = absurd (clash is f.is_file)
  extends info t false rest total stored is c =
      (append_assoc t.members _ rest, omega arith, omega arith)

  the_same : (t t' : Tally) → t' ≡ t → t' ≡ t
  the_same t t' same = same

  ends : (t t' : Tally) → t' ≡ t → t'.members ≡ t.members ++ []
  ends t t' same = ap (λ (u : Tally). u.members) same ∙ sym (append-nil t.members)

  judge_entries-All :
      (infos : List ZipInfo) (t t' : Tally)
      → judge_entries h policy infos t ≡ ok t'
      → All (IsAdmitted h policy) infos
        × (t'.members ≡ t.members ++ summaries h policy infos)
        × (t'.expanded ≡ t.expanded + total_size infos)
        × (t'.compressed ≡ t.compressed + stored_size infos)
  unfolding judge_entries
  judge_entries-All [] t t' e = (
    tt,
    ends t t' cc,
    omega (arith, ap (λ (u : Tally). u.expanded) (the_same t t' cc)),
    omega (arith, ap (λ (u : Tally). u.compressed) (the_same t t' cc)),
  )
  judge_entries-All (info ∷ infos) t t' e =
      let (u, first, rest) =
        >>=-eq-ok (judge_entry h policy info t) (judge_entries h policy infos) e in
      let (here, same) = judge_entry-IsAdmitted h policy info t u first in
      let (those, members, expanded, compressed) = judge_entries-All infos u t' rest in
      let (m, x, k) =
        extends info t (claims_directory info) (summaries h policy infos) (total_size infos)
          (stored_size infos) refl here.content in
      (
        (here, those),
        members ∙ ap (λ (v : Tally). v.members ++ summaries h policy infos) (sym same) ∙ m,
        expanded ∙ ap (λ (v : Tally). v.expanded + total_size infos) (sym same) ∙ x,
        compressed ∙ ap (λ (v : Tally). v.compressed + stored_size infos) (sym same) ∙ k,
      )

  -- What an inspection says of an archive that was admitted.
  pub record IsJudged (infos : List ZipInfo) (inspection : ArchiveInspection) : Type 0 where
    pub has_few_entries : over (length infos) policy.max_members ≡ false
    pub admits_every : All (IsAdmitted h policy) infos
    pub names_the_files : inspection.members ≡ summaries h policy infos
    pub counts_every : inspection.expanded_bytes ≡ total_size infos
    pub counts_what_files_store : inspection.compressed_bytes ≡ stored_size infos
    pub expands_little : over (total_size infos) policy.max_expanded_bytes ≡ false
    pub has_allowed_ratio :
        h.exceeds
          (compression_ratio h (total_size infos) (stored_size infos))
          policy.max_compression_ratio
        ≡ false

  judge_totals-ok :
      (t : Tally) (inspection : ArchiveInspection)
      → judge_totals h policy t ≡ ok inspection
      → (over t.expanded policy.max_expanded_bytes ≡ false)
        × (h.exceeds (compression_ratio h t.expanded t.compressed) policy.max_compression_ratio
            ≡ false)
        × (inspection ≡ inspection_of h policy t)
  unfolding judge_totals
  judge_totals-ok t inspection e =
      let size = refuse_if->> _ _ e in let ratio = refuse_if->> _ _ size.1 in (size.0, ratio.0, cc)

  -- An archive that `_judge` admits: it has no more entries than the limit, every entry, a directory
  -- too, has a contained name and the type it claims, and is an empty directory or a file that the
  -- policy admits; the inspection lists the files in order, and its totals are every byte that any
  -- entry declares to expand to and every byte that the files are stored in; the first total is
  -- within the limit, and so is the ratio of the two.
  pub judge-IsJudged :
      (infos : List ZipInfo) (inspection : ArchiveInspection)
      → judge h policy infos ≡ ok inspection
      → IsJudged infos inspection
  unfolding judge
  judge-IsJudged infos inspection e =
      let few = refuse_if->> _ _ e in
      let (t, entries, totals) =
        >>=-eq-ok (judge_entries h policy infos (no_members h policy)) _ few.1 in
      let (every, members, expanded, compressed) =
        judge_entries-All infos (no_members h policy) t entries in
      let counted : t.expanded ≡ total_size infos = omega (arith, expanded) in
      let stored : t.compressed ≡ stored_size infos = omega (arith, compressed) in
      let (size, ratio, same) = judge_totals-ok t inspection totals in
      record {
        has_few_entries = few.0;
        admits_every = every;
        names_the_files = ap (λ (i : ArchiveInspection). i.members) same ∙ members;
        counts_every = ap (λ (i : ArchiveInspection). i.expanded_bytes) same ∙ counted;
        counts_what_files_store = ap (λ (i : ArchiveInspection). i.compressed_bytes) same ∙ stored;
        expands_little = rw (sym counted) size;
        has_allowed_ratio = rw (sym counted, sym stored) ratio;
      }
