-- ===== src/Archives/Whole.antt =====
-- `extract_member`: all of a member at the destination, or nothing changed there.
use mathlib.Core.List.{append-nil, append_assoc}
use property_tax_data_platfo.Base.{
  ℕ, ◌+◌, ◌≡◌, refl, sym, ap, ◌∙◌, String, Bool, true, false, Option, none, some, List, [], ◌++◌,
  Except, ok, err, length, length-append, if◌then◌else◌, arith,
}
use property_tax_data_platfo.Archives.Policy.{ArchiveError, Host, ArchivePolicy}
use property_tax_data_platfo.Archives.Judge.{ZipInfo}
use property_tax_data_platfo.Archives.Extract.{
  Stream, finished, chunk, damaged, unreadable, os_error, Disk, ExtractError, find_member, fails,
  rest_of, write_chunks, move_into_place, discard_staged, begin_staged, stage_member,
  extract_member, move_written, stream_found, settle_staged, disk_error, next_fault, append_staged,
}

-- The bytes of a member that is read to its end; none where reading it fails.
abbrev pub content : Stream → Option (List ℕ)
content finished = some []
content damaged = none
content unreadable = none
content os_error = none
content (chunk bytes rest) = elim (content rest) [ none ↦ none | some more ↦ some (bytes ++ more) ]

-- All of the content at the destination, nothing beside it, and the count is of its bytes.
pub record IsWhole (bytes : List ℕ) (written : ℕ) (after : Disk) : Type 0 where
  pub at_target : after.target ≡ some bytes
  pub nothing_staged : after.staged ≡ none
  pub counts : written ≡ length bytes

-- The chunks leave the destination alone; where all are written, they stand in the temporary file.
abbrev Wrote : Disk → List ℕ → ℕ → Stream → Except ExtractError ℕ → Disk → Type 0
Wrote d before written s (err e) d' = d'.target ≡ d.target
Wrote d before written s (ok total) d' =
    (d'.target ≡ d.target)
    × (bytes : List ℕ) × (content s ≡ some bytes)
    × (d'.staged ≡ some (before ++ bytes))
    × (total ≡ written + length bytes)

if-cases :
    (P : Except ExtractError ℕ × Disk → Type 0) (b : Bool) (x y : Except ExtractError ℕ × Disk)
    → P x
    → P y
    → P (if b then x else y)
if-cases P true x y hx hy = hx
if-cases P false x y hx hy = hy

Wrote-chunk :
    (d : Disk) (before bytes : List ℕ) (written : ℕ) (rest : Stream) (r : Except ExtractError ℕ)
    (d' : Disk)
    → Wrote (append_staged bytes d) (before ++ bytes) (written + length bytes) rest r d'
    → Wrote d before written (chunk bytes rest) r d'
Wrote-chunk d before bytes written rest (err e) d' h = h
Wrote-chunk d before bytes written rest (ok total) d' (same, more, whole, at_file, count) = (
  same,
  bytes ++ more,
  rw whole refl,
  at_file ∙ ap some (append_assoc before bytes more),
  omega (arith, count, length-append bytes more),
)

write_chunks-Wrote :
    (s : Stream) (name : String) (written : ℕ) (d : Disk) (before : List ℕ)
    → d.staged ≡ some before
    → Wrote d before written s (write_chunks s name written d).0 (write_chunks s name written d).1
unfolding write_chunks
write_chunks-Wrote finished name written d before at_file =
    (refl, [], refl, at_file ∙ ap some (sym (append-nil before)), omega arith)
write_chunks-Wrote damaged name written d before at_file = refl
write_chunks-Wrote unreadable name written d before at_file = refl
write_chunks-Wrote os_error name written d before at_file = refl
write_chunks-Wrote (chunk bytes rest) name written d before at_file =
    if-cases (λ q. Wrote d before written (chunk bytes rest) q.0 q.1) (fails d.faults)
      (err disk_error, next_fault d)
      (write_chunks rest name (written + length bytes) (append_staged bytes d)) refl
      (Wrote-chunk d before bytes written rest _ _ (
        write_chunks-Wrote rest name (written + length bytes) (append_staged bytes d)
          (before ++ bytes) (rw at_file refl)))

-- What a step leaves: all of the bytes at the destination, or the destination as it was.
abbrev pub AllOrNothing : Disk → List ℕ → Except ExtractError ℕ → Disk → Type 0
AllOrNothing d bytes (ok written) d' = IsWhole bytes written d'
AllOrNothing d bytes (err e) d' = d'.target ≡ d.target

move_into_place-AllOrNothing :
    (d before : Disk) (bytes : List ℕ)
    → d.target ≡ before.target
    → d.staged ≡ some bytes
    → AllOrNothing before bytes
        (move_into_place (length bytes) d).0
        (move_into_place (length bytes) d).1
unfolding move_into_place
move_into_place-AllOrNothing d before bytes same at_file =
    if-cases (λ q. AllOrNothing before bytes q.0 q.1) (fails d.faults)
      (err disk_error, next_fault d) _ same
      (if-cases (λ q. AllOrNothing before bytes q.0 q.1) (fails (rest_of d.faults))
        (err disk_error, next_fault (next_fault d)) _ same
        (record { at_target = at_file; nothing_staged = refl; counts = refl }))

discard_staged-target : (e : ExtractError) (d : Disk) → (discard_staged e d).1.target ≡ d.target
unfolding discard_staged
discard_staged-target e d =
    if-cases (λ q. q.1.target ≡ d.target) (fails d.faults) (err disk_error, next_fault d) _ refl
      refl

discard_staged-err :
    (e : ExtractError) (d : Disk) → (e' : ExtractError) × ((discard_staged e d).0 ≡ err e')
unfolding discard_staged
discard_staged-err e d =
    if-cases (λ q. (e' : ExtractError) × (q.0 ≡ err e')) (fails d.faults)
      (err disk_error, next_fault d) _ (disk_error, refl) (e, refl)

module _ (h : Host) (policy : ArchivePolicy h) (infos : List ZipInfo)
    (open_member : ZipInfo → Stream) (member : String) where
  -- A count is returned only for a member that `_member` finds and that is read to its end, and then
  -- its bytes are at the destination; otherwise the destination is as it was.
  abbrev pub Extracted : Disk → Except ExtractError ℕ → Disk → Type 0
  Extracted d (err e) d' = d'.target ≡ d.target
  Extracted d (ok written) d' =
      (info : ZipInfo) × (find_member h policy member infos ≡ ok info)
      × (bytes : List ℕ) × (content (open_member info) ≡ some bytes)
      × IsWhole bytes written d'

  all-Extracted :
      (d : Disk) (info : ZipInfo) (bytes : List ℕ)
      → find_member h policy member infos ≡ ok info
      → content (open_member info) ≡ some bytes
      → (r : Except ExtractError ℕ) (d' : Disk) → AllOrNothing d bytes r d'
      → Extracted d r d'
  all-Extracted d info bytes found whole (ok written) d' all_of =
      (info, found, bytes, whole, all_of)
  all-Extracted d info bytes found whole (err e) d' same = same

  move_written-Extracted :
      (d : Disk) (info : ZipInfo)
      → find_member h policy member infos ≡ ok info
      → (r : Except ExtractError ℕ) (d' : Disk) → Wrote d [] 0 (open_member info) r d'
      → Extracted d (move_written (r, d')).0 (move_written (r, d')).1
  unfolding move_written
  move_written-Extracted d info found (err e) d' same = same
  move_written-Extracted d info found (ok written) d' (same, bytes, whole, at_file, count) =
      let all_written : written ≡ length bytes = omega (arith, count) in
      all-Extracted d info bytes found whole _ _
        (rw all_written (move_into_place-AllOrNothing d' d bytes same at_file))

  stream_found-Extracted :
      (d : Disk)
      → d.staged ≡ some []
      → (found : Except ArchiveError ZipInfo) → find_member h policy member infos ≡ found
      → Extracted d (stream_found open_member found d).0 (stream_found open_member found d).1
  unfolding stream_found
  stream_found-Extracted d empty (err e) is = refl
  stream_found-Extracted d empty (ok info) is =
      move_written-Extracted d info is _ _
        (write_chunks-Wrote (open_member info) info.filename 0 d [] empty)

  settle_staged-Extracted :
      (d begun : Disk)
      → begun.target ≡ d.target
      → (r : Except ExtractError ℕ) (d' : Disk) → Extracted begun r d'
      → Extracted d (settle_staged (r, d')).0 (settle_staged (r, d')).1
  unfolding settle_staged
  settle_staged-Extracted d begun same (ok written) d' all_of = all_of
  settle_staged-Extracted d begun same (err e) d' kept =
      let (e', raised) = discard_staged-err e d' in
      rw raised (discard_staged-target e d' ∙ kept ∙ same)

  -- However the reads of the member and the operations on files go, `extract_member` returns a count
  -- only with all of the member's bytes at the destination and no temporary file, and when it
  -- raises the destination holds what it held before.
  pub extract_member-Extracted :
      (d : Disk)
      → Extracted d
          (extract_member h policy infos open_member member d).0
          (extract_member h policy infos open_member member d).1
  unfolding extract_member stage_member
  extract_member-Extracted d =
      if-cases (λ q. Extracted d q.0 q.1) (fails d.faults) (err disk_error, next_fault d) _ refl
        (settle_staged-Extracted d (begin_staged d) refl _ _
          (stream_found-Extracted (begin_staged d) refl (find_member h policy member infos) refl))
