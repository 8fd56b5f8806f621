-- ===== src/Acquire/Headers.antt =====
-- acquisition.py: the headers that are kept, the metadata, the hops and the artifact.
use property_tax_data_platfo.Base.{
  ℕ, String, Bool, false, not, ◌&&◌, ◌||◌, Option, none, some, List, [], ◌∷◌, Except, Check, ok,
  err, refuse_if, ◌>>◌, ◌>>=◌, leb, ltb, ◌==◌, str_eq, if◌then◌else◌,
}
use property_tax_data_platfo.Acquire.Characters.{
  chars, prefix, strip, has_control, without_controls, is_sha256, is_empty, is_among,
}
use property_tax_data_platfo.Acquire.Contract.{
  Host, Raised, value_error, require_sanitized_url, require_sanitized_locator,
}

abbrev pub sanitized_headers : List String
sanitized_headers =
    "content-length" ∷ "content-type" ∷ "etag" ∷ "last-modified" ∷ "accept-ranges" ∷ []

abbrev pub max_header_value_chars : ℕ
max_header_value_chars = 512

abbrev pub Headers : Type 0
Headers = List (String × String)

-- `headers[name] = value`
abbrev pub put : String → String → Headers → Headers
put name value [] = (name, value) ∷ []
put name value ((key, old) ∷ rest) =
    let more = put name value rest in
    if str_eq key name then (key, value) ∷ rest else (key, old) ∷ more

-- `headers.get(name)`
abbrev pub get : String → Headers → Option String
get name [] = none
get name ((key, value) ∷ rest) =
    let more = get name rest in if str_eq key name then some value else more

-- what `sanitize_headers` keeps of a value
unfoldable pub clean : String → String
clean value = prefix max_header_value_chars (strip (without_controls value))

module _ (h : Host) where
  -- one pass of the loop of `sanitize_headers`
  unfoldable pub keep_header : String × String → Headers → Headers
  unfolding clean
  keep_header (name, value) kept =
      if is_among (h.casefold name) sanitized_headers
      then put (h.casefold name) (clean value) kept
      else kept

  unfoldable pub keep_headers : Headers → Headers → Headers
  unfolding keep_header
  keep_headers [] kept = kept
  keep_headers (header ∷ headers) kept = keep_headers headers (keep_header header kept)

  unfoldable pub sanitize_headers : Headers → Headers
  unfolding keep_headers
  sanitize_headers headers = keep_headers headers []

-- `_require_sanitized_header_value`
unfoldable pub require_sanitized_header_value : String → String → Check Raised
require_sanitized_header_value name value = do
  refuse_if (ltb max_header_value_chars (chars value)) (value_error name)
  refuse_if (has_control value) (value_error name)
  refuse_if (not (str_eq value (strip value))) (value_error name)

pub record ResponseMetadata : Type 0 where
  pub status : ℕ
  pub headers : Headers

-- a name that is not on the allowlist
abbrev pub has_unknown : Headers → Bool
has_unknown [] = false
has_unknown ((name, value) ∷ rest) = not (is_among name sanitized_headers) || has_unknown rest

unfoldable pub require_sanitized_values : Headers → Check Raised
unfolding require_sanitized_header_value
require_sanitized_values [] = ok tt
require_sanitized_values ((name, value) ∷ rest) =
    require_sanitized_header_value name value >> require_sanitized_values rest

unfoldable pub metadata_post_init : ResponseMetadata → Check Raised
unfolding require_sanitized_values
metadata_post_init m = do
  refuse_if (not (leb 100 m.status && leb m.status 599)) (value_error "status")
  refuse_if (has_unknown m.headers) (value_error "headers")
  require_sanitized_values m.headers

-- the text before the first semicolon
abbrev before_semicolon : String → String
before_semicolon String.[] = String.[]
before_semicolon (String.◌∷◌ c text) =
    let rest = before_semicolon text in
    if Prim.Native.Char.code c == b';' then String.[] else String.◌∷◌ c rest

-- `text or None`
abbrev or_none : String → Option String
or_none String.[] = none
or_none (String.◌∷◌ c text) = some (String.◌∷◌ c text)

pub record RedirectHop : Type 0 where
  pub from_url : String
  pub to_url : String
  pub status : ℕ

pub record AcquiredArtifact : Type 0 where
  pub sha256 : String
  pub byte_count : ℕ
  pub final_url : String
  pub locator : String
  pub response : ResponseMetadata
  pub redirects : List RedirectHop
  pub acquisition_contract_version : ℕ

abbrev pub acquisition_contract_version : ℕ
acquisition_contract_version = 1

module _ (h : Host) where
  -- `int(raw)` behind `raw.isdigit()`
  unfoldable pub parse_length : Option String → Except Raised (Option ℕ)
  parse_length none = ok none
  parse_length (some raw) =
      if h.is_digits raw
      then elim (h.int_of raw) [ none ↦ err (value_error raw) | some n ↦ ok (some n) ]
      else ok none

  unfoldable pub declared_length : ResponseMetadata → Except Raised (Option ℕ)
  unfolding parse_length
  declared_length m = parse_length (get "content-length" m.headers)

  -- `media_type` of a header that may be missing
  unfoldable pub parse_media_type : Option String → Option String
  parse_media_type none = none
  parse_media_type (some raw) = or_none (h.casefold (strip (before_semicolon raw)))

  unfoldable pub media_type : ResponseMetadata → Option String
  unfolding parse_media_type
  media_type m = parse_media_type (get "content-type" m.headers)

  unfoldable pub hop_post_init : RedirectHop → Check Raised
  unfolding require_sanitized_url
  hop_post_init hop = do
    refuse_if (is_empty hop.from_url || is_empty hop.to_url) (value_error "redirect hop")
    require_sanitized_url h hop.from_url "from_url"
    require_sanitized_url h hop.to_url "to_url"
    refuse_if (not (leb 300 hop.status && leb hop.status 399)) (value_error "status")

  -- the declared length, where there is one, is the count
  abbrev pub differs : Option ℕ → ℕ → Bool
  differs none count = false
  differs (some declared) count = not (declared == count)

  unfoldable pub artifact_post_init : AcquiredArtifact → Check Raised
  unfolding require_sanitized_locator require_sanitized_url declared_length
  artifact_post_init a = do
    refuse_if (not (is_sha256 a.sha256)) (value_error "sha256")
    require_sanitized_locator h a.locator
    require_sanitized_url h a.final_url "final_url"
    refuse_if (not (a.acquisition_contract_version == acquisition_contract_version))
        (value_error "acquisition_contract_version")
    declared ← declared_length a.response
    refuse_if (differs declared a.byte_count) (value_error "byte_count")
