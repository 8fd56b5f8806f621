-- ===== src/Archives/Ratios.antt =====
-- Why a policy's ceilings must be finite: what an unbounded ratio would let through.
use mathlib.Core.Path.{subst}
use property_tax_data_platfo.Base.{
  ℕ, ◌≡◌, refl, ◌⊎◌, Bool, true, false, not, List, [], ◌∷◌, All, ok, ◌==◌, if◌then◌else◌, arith,
  inl, inr, refuse_if->>, or-false,
}
use property_tax_data_platfo.Archives.Policy.{
  Host, ArchivePolicy, ArchiveInspection, value_error, policy_post_init, compression_ratio,
  below_one,
}
use property_tax_data_platfo.Archives.Judge.{ZipInfo, judge}
use property_tax_data_platfo.Archives.Admitted.{
  IsAdmitted, IsAdmissibleFile, IsEmptyDirectory, judge-IsJudged,
}

-- An entry that stores no bytes declares none.
abbrev pub HoldsWhatItStores : ZipInfo → Type 0
HoldsWhatItStores info = info.compress_size ≡ 0 → info.file_size ≡ 0

zero_is : (n : ℕ) → n ≡ 0 → (n == 0) ≡ true
zero_is n h = ground arith

is_zero : (n : ℕ) → (n == 0) ≡ true → n ≡ 0
is_zero n h = ground arith

not-false : (b : Bool) → not b ≡ false → b ≡ true
not-false true h = refl
not-false false h = absurd cc

clash : {b : Bool} {A : Type 0} → b ≡ true → b ≡ false → A
clash is isnt = absurd cc

module _ (h : Host) (inf_exceeds : (r : h.Float) → h.is_finite r ≡ true → h.exceeds h.inf r ≡ true)
    (policy : ArchivePolicy h) where
  finite_ceiling :
      policy_post_init h policy ≡ ok tt → h.is_finite policy.max_member_compression_ratio ≡ true
  unfolding policy_post_init
  finite_ceiling e =
      let a = refuse_if->> (below_one policy.max_members) (value_error "max_members") e in
      let b =
        refuse_if->> (below_one policy.max_member_bytes) (value_error "max_member_bytes") a.1 in
      let d =
        refuse_if->> (below_one policy.max_expanded_bytes) (value_error "max_expanded_bytes") b.1 in
      let f = refuse_if->> _ _ d.1 in
      let g = refuse_if->> _ _ f.1 in not-false _ (or-false _ _ g.0).0

  ratio_is_inf :
      (declared stored : ℕ)
      → (stored == 0) ≡ true
      → (declared == 0) ≡ false
      → compression_ratio h declared stored ≡ h.inf
  ratio_is_inf declared stored none_stored some_declared =
      pick (stored == 0) (declared == 0) none_stored some_declared
    where
      pick :
          (a b : Bool)
          → a ≡ true
          → b ≡ false
          → (if a then (if b then h.one else h.inf) else h.divide declared stored) ≡ h.inf
      pick true false is isnt = refl
      pick true true is isnt = clash refl isnt
      pick false b is isnt = clash is refl

  bounded_ratio :
      (ceiling : h.Float) (declared stored : ℕ)
      → h.is_finite ceiling ≡ true
      → h.exceeds (compression_ratio h declared stored) ceiling ≡ false
      → stored ≡ 0
      → declared ≡ 0
  bounded_ratio ceiling declared stored finite allowed none_stored = by_test (declared == 0) refl
    where
      by_test : (b : Bool) → (declared == 0) ≡ b → declared ≡ 0
      by_test true is = is_zero declared is
      by_test false is = clash (inf_exceeds ceiling finite) (
          subst (λ r. h.exceeds r ceiling ≡ false)
            (ratio_is_inf declared stored (zero_is stored none_stored) is) allowed)

  entry-HoldsWhatItStores :
      (info : ZipInfo)
      → h.is_finite policy.max_member_compression_ratio ≡ true
      → IsEmptyDirectory info ⊎ IsAdmissibleFile h policy info
      → HoldsWhatItStores info
  entry-HoldsWhatItStores info finite (inl d) none_stored = d.holds_nothing
  entry-HoldsWhatItStores info finite (inr f) none_stored =
      bounded_ratio policy.max_member_compression_ratio info.file_size info.compress_size finite
        f.has_allowed_ratio none_stored

  All-HoldsWhatItStores :
      (infos : List ZipInfo)
      → h.is_finite policy.max_member_compression_ratio ≡ true
      → All (IsAdmitted h policy) infos
      → All HoldsWhatItStores infos
  All-HoldsWhatItStores [] finite admitted = tt
  All-HoldsWhatItStores (info ∷ infos) finite (here, rest) =
      (entry-HoldsWhatItStores info finite here.content, All-HoldsWhatItStores infos finite rest)

  -- Where infinity exceeds every finite number, an archive that is judged by a policy that passed its
  -- validation and is admitted has no entry that stores no bytes and declares some.
  pub judge-HoldsWhatItStores :
      (infos : List ZipInfo) (inspection : ArchiveInspection)
      → policy_post_init h policy ≡ ok tt
      → judge h policy infos ≡ ok inspection
      → All HoldsWhatItStores infos
  judge-HoldsWhatItStores infos inspection valid e =
      All-HoldsWhatItStores infos (finite_ceiling valid)
        (judge-IsJudged h policy infos inspection e).admits_every
