-- ===== src/Archives/Names.antt =====
-- Member names, as archives/zip_inspection.py reads them: pathlib's parts and suffix (Python 3.12)
-- of a name that does not begin with a separator, and `_check_path`.
use property_tax_data_platfo.Base.{
  ℕ, String, Bool, false, not, ◌&&◌, ◌||◌, Option, none, some, List, [], ◌∷◌, Check, refuse_if,
  ◌>>◌, ltb, ◌==◌, codes, any, length, if◌then◌else◌,
}
use property_tax_data_platfo.Archives.Policy.{
  ArchiveError, unsafe_archive, path_traversal, codes_eq, starts_with,
}

abbrev pub slash : ℕ
slash = b'/'

abbrev pub backslash : ℕ
backslash = 92

abbrev pub parent : List ℕ
parent = b'.' ∷ b'.' ∷ []

abbrev cons_head : ℕ → List (List ℕ) → List (List ℕ)
cons_head c [] = (c ∷ []) ∷ []
cons_head c (part ∷ parts) = (c ∷ part) ∷ parts

-- `str.split("/")`
abbrev pub split_slash : List ℕ → List (List ℕ)
split_slash [] = [] ∷ []
split_slash (c ∷ cs) =
    let rest = split_slash cs in if c == slash then [] ∷ rest else cons_head c rest

-- `name.replace("\\", "/")`
abbrev pub to_slash : List ℕ → List ℕ
to_slash [] = []
to_slash (c ∷ cs) = (if c == backslash then slash else c) ∷ to_slash cs

-- pathlib drops the empty parts and the dots
abbrev pub is_part : List ℕ → Bool
is_part part = not (codes_eq part []) && not (codes_eq part (b'.' ∷ []))

abbrev pub keep_parts : List (List ℕ) → List (List ℕ)
keep_parts [] = []
keep_parts (part ∷ rest) = let kept = keep_parts rest in if is_part part then part ∷ kept else kept

-- `PurePosixPath(name).parts` of a relative name
abbrev pub posix_parts : List ℕ → List (List ℕ)
posix_parts name = keep_parts (split_slash name)

-- The drive of `PureWindowsPath(name)` where the name begins with no separator: a letter, or any
-- other character, and a colon. Such a name is absolute only if it has a drive.
abbrev pub has_drive : List ℕ → Bool
has_drive (_ ∷ c ∷ _) = c == b':'
has_drive _ = false

abbrev pub has_char : ℕ → List ℕ → Bool
has_char c name = any (λ a. a == c) name

abbrev pub is_parent : List ℕ → Bool
is_parent part = codes_eq part parent

abbrev traversal : String → ArchiveError
traversal name = unsafe_archive path_traversal name

-- `_check_path`
unfoldable pub check_path : String → Check ArchiveError
check_path name = do
  refuse_if (codes_eq (codes name) []) (traversal name)
  refuse_if (starts_with slash (codes name) || starts_with backslash (codes name)) (traversal name)
  refuse_if (has_drive (codes name)) (traversal name)
  refuse_if (any is_parent (posix_parts (to_slash (codes name)))) (traversal name)
  refuse_if (has_char backslash (codes name)) (traversal name)

-- `filename.endswith("/")`
abbrev pub ends_with_slash : List ℕ → Bool
ends_with_slash [] = false
ends_with_slash (c ∷ []) = c == slash
ends_with_slash (_ ∷ c ∷ cs) = ends_with_slash (c ∷ cs)

-- the text from its last dot on
abbrev pub from_last_dot : List ℕ → Option (List ℕ)
from_last_dot [] = none
from_last_dot (c ∷ cs) = elim (from_last_dot cs) [
  | some found ↦ some found
  | none ↦ if c == b'.' then some (c ∷ cs) else none
]

abbrev last_part : List (List ℕ) → List ℕ
last_part [] = []
last_part (part ∷ []) = part
last_part (_ ∷ part ∷ rest) = last_part (part ∷ rest)

-- `name[i:] if 0 < i < len(name) - 1 else ""`, where `i = name.rfind(".")`
abbrev pub suffix_of_name : List ℕ → List ℕ
suffix_of_name [] = []
suffix_of_name (_ ∷ cs) = elim (from_last_dot cs) [
  | some found ↦ if ltb 1 (length found) then found else []
  | none ↦ []
]

-- `PurePosixPath(name).suffix`
unfoldable pub suffix : List ℕ → List ℕ
suffix name = suffix_of_name (last_part (posix_parts name))
