-- ===== src/Archives/Preflight.antt =====
-- archives/zip_inspection.py: `_find_eocd` and `_preflight`, which bound the central directory
-- before anything reads it. A file is the list of its bytes.
use property_tax_data_platfo.Base.{
  ℕ, zero, suc, ◌+◌, ◌*◌, ◌-◌, ◌^◌, Bool, not, ◌&&◌, ◌||◌, Option, none, some, List, [], ◌∷◌, min,
  Except, Check, ok, err, refuse_if, ◌>>=◌, ◌>>◌, ltb, leb, ◌==◌, length, take, drop, if◌then◌else◌,
}
use property_tax_data_platfo.Archives.Policy.{
  ArchiveError, unsafe_archive, value_error, unreadable_archive, too_many_members, Host,
  ArchivePolicy, max_directory_bytes, over, codes_eq,
}

abbrev pub eocd_signature : List ℕ
eocd_signature = 0x50 ∷ 0x4B ∷ 5 ∷ 6 ∷ []

abbrev pub zip64_locator_signature : List ℕ
zip64_locator_signature = 0x50 ∷ 0x4B ∷ 6 ∷ 7 ∷ []

abbrev pub zip64_eocd_signature : List ℕ
zip64_eocd_signature = 0x50 ∷ 0x4B ∷ 6 ∷ 6 ∷ []

abbrev pub eocd_bytes : ℕ
eocd_bytes = 22

abbrev pub max_comment_bytes : ℕ
max_comment_bytes = 0xFFFF

-- `text[0:4] == signature`
abbrev pub has_signature : List ℕ → List ℕ → Bool
has_signature signature bytes = codes_eq (take 4 bytes) signature

-- `tail.rfind(signature)` for the four bytes of a signature
abbrev pub rfind : List ℕ → List ℕ → Option ℕ
rfind signature [] = none
rfind signature (b ∷ bytes) = elim (rfind signature bytes) [
  | some found ↦ some (suc found)
  | none ↦ if has_signature signature (b ∷ bytes) then some 0 else none
]

-- `struct.unpack` of one little-endian number of so many bytes
abbrev pub little_endian : ℕ → List ℕ → ℕ
little_endian zero bytes = 0
little_endian (suc n) [] = 0
little_endian (suc n) (b ∷ bytes) = b + 256 * little_endian n bytes

abbrev pub comment_length : ℕ → List ℕ → ℕ
comment_length found tail = little_endian 2 (drop (found + 20) tail)

-- `_find_eocd`; -1 is none
unfoldable pub find_eocd : List ℕ → Option ℕ
find_eocd tail = elim (rfind eocd_signature tail) [
  | none ↦ none
  | some found ↦
      if ltb (length tail) (found + eocd_bytes)
      then none
      else if not (found + eocd_bytes + comment_length found tail == length tail)
      then none
      else some found
]

-- A reader: its bytes, and whether its first read and that of the zip64 record raise an `OSError`.
pub record Reader : Type 0 where
  pub bytes : List ℕ
  pub tail_fails : Bool
  pub record_fails : Bool

-- the number of entries and the bytes of the directory
abbrev pub Declared : Type 0
Declared = ℕ × ℕ

-- `reader.read(span)` at the end
abbrev pub tail_of : List ℕ → List ℕ
tail_of bytes =
    let size = length bytes in drop (size - min size (eocd_bytes + max_comment_bytes)) bytes

abbrev unreadable : ArchiveError
unreadable = unsafe_archive unreadable_archive ""

-- `struct.unpack_from("<HI", tail, position + 10)`
abbrev pub declared_at : ℕ → List ℕ → Declared
declared_at position tail =
    (little_endian 2 (drop (position + 10) tail), little_endian 4 (drop (position + 12) tail))

-- `entries == _UINT16_MAX or directory_bytes == _UINT32_MAX`
abbrev pub is_saturated : Declared → Bool
is_saturated (entries, directory_bytes) = entries == 0xFFFF || directory_bytes == 0xFFFFFFFF

-- the numbers of the record that a locator names, if that is one
abbrev pub from_record : Declared → List ℕ → Declared
from_record declared record_bytes =
    if length record_bytes == 56 && has_signature zip64_eocd_signature record_bytes
    then (little_endian 8 (drop 32 record_bytes), little_endian 8 (drop 40 record_bytes))
    else declared

-- `reader.seek(record_offset)` raises a `ValueError` that nothing catches where the offset is not a
-- file offset of the machine.
abbrev pub read_record : Reader → Declared → ℕ → Except ArchiveError Declared
read_record reader declared record_offset = do
  refuse_if (leb (2 ^ 63) record_offset) (value_error "seek")
  refuse_if reader.record_fails unreadable
  ok (from_record declared (take 56 (drop record_offset reader.bytes)))

-- the block for Zip64
abbrev pub resolve_zip64 : Reader → List ℕ → ℕ → Declared → Except ArchiveError Declared
resolve_zip64 reader tail position declared =
    if is_saturated declared
      && leb 20 position
      && has_signature zip64_locator_signature (drop (position - 20) tail)
    then read_record reader declared (little_endian 8 (drop (position - 20 + 8) tail))
    else ok declared

module _ (h : Host) (policy : ArchivePolicy h) where
  -- the bounds on what the directory declares
  unfoldable pub bound_declared : Declared → Check ArchiveError
  bound_declared (entries, directory_bytes) = do
    refuse_if (over directory_bytes (max_directory_bytes h policy))
        (unsafe_archive too_many_members "")
    refuse_if (over entries policy.max_members) (unsafe_archive too_many_members "")

  -- what follows once the end record is found
  unfoldable pub bound_directory : Reader → Option ℕ → Check ArchiveError
  unfolding bound_declared
  bound_directory reader none = err unreadable
  bound_directory reader (some position) = do
    let tail = tail_of reader.bytes
    declared ← resolve_zip64 reader tail position (declared_at position tail)
    bound_declared declared

  -- `_preflight`
  unfoldable pub preflight : Reader → Check ArchiveError
  unfolding find_eocd bound_directory
  preflight reader = do
    refuse_if reader.tail_fails unreadable
    bound_directory reader (find_eocd (tail_of reader.bytes))
