-- ===== src/Acquire/Characters.antt =====
-- Python's `str.strip`, a slice of a prefix, and the regular expressions of acquisition.py.
use Prim.Native.Char.{code}
use property_tax_data_platfo.Base.{
  ℕ, zero, suc, String, Bool, true, false, ◌&&◌, ◌||◌, if◌then◌else◌, leb, ltb, ◌==◌, length, all,
  any, codes, is_space, List, str_eq,
}

-- `len` of a text
abbrev pub chars : String → ℕ
chars text = length (codes text)

-- `text[:size]`
abbrev pub prefix : ℕ → String → String
prefix zero text = String.[]
prefix (suc size) String.[] = String.[]
prefix (suc size) (String.◌∷◌ c text) = String.◌∷◌ c (prefix size text)

-- `str.lstrip`
abbrev pub lstrip : String → String
lstrip String.[] = String.[]
lstrip (String.◌∷◌ c text) =
    let rest = lstrip text in if is_space (code c) then rest else String.◌∷◌ c text

-- a character in front of a text whose end is already stripped
abbrev pub keep_unless_last : Bool → String → String → String
keep_unless_last true String.[] whole = String.[]
keep_unless_last true (String.◌∷◌ c text) whole = whole
keep_unless_last false rest whole = whole

-- `str.rstrip`
abbrev pub rstrip : String → String
rstrip String.[] = String.[]
rstrip (String.◌∷◌ c text) =
    let rest = rstrip text in keep_unless_last (is_space (code c)) rest (String.◌∷◌ c rest)

-- `str.strip`
abbrev pub strip : String → String
strip text = rstrip (lstrip text)

-- `[\x00-\x1f\x7f]`
abbrev pub is_control : ℕ → Bool
is_control c = ltb c 32 || c == 127

-- `_CONTROL_CHARACTERS.search(text) is not None`
abbrev pub has_control : String → Bool
has_control text = any is_control (codes text)

-- `_CONTROL_CHARACTERS.sub("", text)`
abbrev pub without_controls : String → String
without_controls String.[] = String.[]
without_controls (String.◌∷◌ c text) =
    let rest = without_controls text in if is_control (code c) then rest else String.◌∷◌ c rest

abbrev pub is_hex : ℕ → Bool
is_hex c = leb b'0' c && leb c b'9' || leb b'a' c && leb c b'f'

-- `_SHA256_PATTERN.fullmatch`
abbrev pub is_sha256 : String → Bool
is_sha256 text = chars text == 64 && all is_hex (codes text)

abbrev pub is_empty : String → Bool
is_empty String.[] = true
is_empty (String.◌∷◌ _ _) = false

-- `name in names`
abbrev pub is_among : String → List String → Bool
is_among name names = any (str_eq name) names
