-- ===== src/Archives/Extract.antt =====
-- archives/zip_inspection.py: `inspect_zip`, `open_archive`, and what a `VerifiedArchive` does with
-- one member. `zipfile` is outside the source: what it lists, and what reading a member gives, are
-- parameters.
use property_tax_data_platfo.Base.{
  ℕ, ◌+◌, String, Bool, false, Option, none, some, List, [], ◌∷◌, ◌++◌, Except, ok, err, refuse_if,
  ◌>>=◌, ◌>>◌, codes, length, if◌then◌else◌,
}
use property_tax_data_platfo.Archives.Policy.{
  ArchiveError, unsafe_archive, unreadable_archive, corrupt_member, unsupported_member_type,
  member_too_large, Host, ArchivePolicy, ArchiveInspection, over, codes_eq,
}
use property_tax_data_platfo.Archives.Names.{check_path}
use property_tax_data_platfo.Archives.Judge.{
  ZipInfo, claims_directory, check_type, check_media_type, check_readable, judge,
}
use property_tax_data_platfo.Archives.Preflight.{Reader, preflight}

-- How reading a member goes on: a chunk, the end, or what `zipfile` raises: a damaged member
-- (`BadZipFile`, `zlib.error`, `EOFError`), one it cannot read (`RuntimeError`,
-- `NotImplementedError`), or an error that is passed on.
pub data Stream : Type 0 where
  finished : Stream
  chunk : List ℕ → Stream → Stream
  damaged : Stream
  unreadable : Stream
  os_error : Stream

-- The directory entry of the destination, the temporary file beside it, and the operations on files
-- that will fail: the next one does where the script's next element is true.
pub record Disk : Type 0 where
  pub target : Option (List ℕ)
  pub staged : Option (List ℕ)
  pub faults : List Bool

-- What `extract_member` raises: a refusal, or the error of an operation on a file.
pub data ExtractError : Type 0 where
  refused : ArchiveError → ExtractError
  disk_error : ExtractError

-- What `zipfile.ZipFile(reader)` gives: the entries, or an error of those that are caught.
pub data Opened : Type 0 where
  listed : List ZipInfo → Opened
  not_a_zip : Opened

-- `getinfo(member)`: the last entry of that name
abbrev pub getinfo : String → List ZipInfo → Option ZipInfo
getinfo member [] = none
getinfo member (info ∷ infos) = elim (getinfo member infos) [
  | some found ↦ some found
  | none ↦ if codes_eq (codes info.filename) (codes member) then some info else none
]

abbrev pub fails : List Bool → Bool
fails [] = false
fails (b ∷ _) = b

abbrev pub rest_of : List Bool → List Bool
rest_of [] = []
rest_of (_ ∷ faults) = faults

abbrev pub next_fault : Disk → Disk
next_fault d = record { target = d.target; staged = d.staged; faults = rest_of d.faults }

abbrev pub append_staged : List ℕ → Disk → Disk
append_staged bytes d = record {
  target = d.target;
  staged = some (staged_bytes d.staged ++ bytes);
  faults = rest_of d.faults;
}
  where
    staged_bytes : Option (List ℕ) → List ℕ
    staged_bytes none = []
    staged_bytes (some old) = old

-- `for chunk in self.iter_member_chunks(member)`: each is written to the temporary file
unfoldable pub write_chunks : Stream → String → ℕ → Disk → Except ExtractError ℕ × Disk
write_chunks finished name written d = (ok written, d)
write_chunks damaged name written d = (err (refused (unsafe_archive corrupt_member name)), d)
write_chunks unreadable name written d = (err (refused (unsafe_archive unreadable_archive name)), d)
write_chunks os_error name written d = (err disk_error, d)
write_chunks (chunk bytes rest) name written d =
    let after = write_chunks rest name (written + length bytes) (append_staged bytes d) in
    if fails d.faults then (err disk_error, next_fault d) else after

-- `handle.flush()` and `os.fsync`, then `os.replace(staged, target)`
unfoldable pub move_into_place : ℕ → Disk → Except ExtractError ℕ × Disk
move_into_place written d =
    if fails d.faults
    then (err disk_error, next_fault d)
    else if fails (rest_of d.faults)
    then (err disk_error, next_fault (next_fault d))
    else (
      ok written,
      record { target = d.staged; staged = none; faults = rest_of (rest_of d.faults) },
    )

-- `except BaseException: staged.unlink(missing_ok=True); raise`
unfoldable pub discard_staged : ExtractError → Disk → Except ExtractError ℕ × Disk
discard_staged e d =
    if fails d.faults
    then (err disk_error, next_fault d)
    else (err e, record { target = d.target; staged = none; faults = rest_of d.faults })

unfoldable pub move_written : Except ExtractError ℕ × Disk → Except ExtractError ℕ × Disk
unfolding move_into_place
move_written (err e, d) = (err e, d)
move_written (ok written, d) = move_into_place written d

-- the loop over the chunks of what `_member` returned, and the move; or what it raised
unfoldable pub stream_found :
    (ZipInfo → Stream) → Except ArchiveError ZipInfo → Disk → Except ExtractError ℕ × Disk
unfolding write_chunks move_written
stream_found open_member (err e) d = (err (refused e), d)
stream_found open_member (ok info) d =
    move_written (write_chunks (open_member info) info.filename 0 d)

unfoldable pub settle_staged : Except ExtractError ℕ × Disk → Except ExtractError ℕ × Disk
unfolding discard_staged
settle_staged (ok written, d) = (ok written, d)
settle_staged (err e, d) = discard_staged e d

abbrev pub begin_staged : Disk → Disk
begin_staged d = record { target = d.target; staged = some []; faults = rest_of d.faults }

module _ (h : Host) (policy : ArchivePolicy h) where
  -- `_member`
  unfoldable pub find_member : String → List ZipInfo → Except ArchiveError ZipInfo
  unfolding check_path check_type check_media_type check_readable
  find_member member infos = elim (getinfo member infos) [
    | none ↦ err (unsafe_archive unreadable_archive member)
    | some info ↦ do
      refuse_if (claims_directory info) (unsafe_archive unsupported_member_type member)
      check_path info.filename
      check_type info
      check_media_type h policy info.filename
      check_readable h policy info
      refuse_if (over info.file_size policy.max_member_bytes)
          (unsafe_archive member_too_large member)
      ok info
  ]

  -- the judgement of what `ZipFile` listed
  unfoldable pub judge_opened : Opened → Except ArchiveError (List ZipInfo × ArchiveInspection)
  unfolding judge
  judge_opened not_a_zip = err (unsafe_archive unreadable_archive "")
  judge_opened (listed infos) = do inspection ← judge h policy infos; ok (infos, inspection)

  -- The two paths of `_preflight`, `ZipFile` and `_judge`: `inspect_zip`, and `open_archive` up to
  -- its handle. The first flag says that opening the source raised an `OSError`.
  unfoldable pub inspect_zip :
      Bool → Reader → (List ℕ → Opened) → Except ArchiveError (List ZipInfo × ArchiveInspection)
  unfolding preflight judge_opened
  inspect_zip cannot_open reader zip_file = do
    refuse_if cannot_open (unsafe_archive unreadable_archive "")
    preflight h policy reader
    judge_opened (zip_file reader.bytes)

  -- the body of the `try`: the chunks, the flush, the move
  unfoldable pub stage_member :
      List ZipInfo → (ZipInfo → Stream) → String → Disk → Except ExtractError ℕ × Disk
  unfolding find_member stream_found
  stage_member infos open_member member d = stream_found open_member (find_member member infos) d

  -- `extract_member`
  unfoldable pub extract_member :
      List ZipInfo → (ZipInfo → Stream) → String → Disk → Except ExtractError ℕ × Disk
  unfolding stage_member settle_staged
  extract_member infos open_member member d =
      if fails d.faults
      then (err disk_error, next_fault d)
      else settle_staged (stage_member infos open_member member (begin_staged d))
