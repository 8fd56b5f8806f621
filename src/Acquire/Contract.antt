-- ===== src/Acquire/Contract.antt =====
-- acquisition.py: the failures, the policy, and what an acquisition reports. A field's type stands
-- for the `isinstance` tests; the texts of messages are left out.
use property_tax_data_platfo.Base.{
  ℕ, zero, suc, String, Bool, true, false, not, ◌||◌, Option, none, some, List, [], ◌∷◌, ℤ, pos,
  negsuc, Except, Check, ok, err, refuse_if, ◌>>◌, ◌>>=◌, ltb, is_blank, str_eq, any,
}
use property_tax_data_platfo.Acquire.Characters.{chars, strip, has_control, is_empty, is_among}
use Prim.Native.String.{◌++◌ as str_append}

pub data AcquisitionFailure : Type 0 where
  unapproved_scheme unapproved_host too_many_redirects missing_redirect_target : AcquisitionFailure
  unsupported_status transient_status request_failed artifact_too_large : AcquisitionFailure
  truncated_artifact declared_length_mismatch checksum_mismatch sink_failed : AcquisitionFailure

abbrev pub retryable : AcquisitionFailure → Bool
retryable request_failed = true
retryable transient_status = true
retryable truncated_artifact = true
retryable sink_failed = true
retryable _ = false

-- What is raised: an `AcquisitionError` with its `cleanup_failed`, a `ValueError`, another
-- `Exception`, or what is no `Exception`, such as a `KeyboardInterrupt`.
pub data Raised : Type 0 where
  acquisition_error : AcquisitionFailure → Bool → Raised
  value_error exception interrupt : String → Raised

-- `raise AcquisitionError(failure, …)`
abbrev pub failed : AcquisitionFailure → Raised
failed failure = acquisition_error failure false

-- What `urlsplit` returns. Reading its `port` raises where `port` is none.
pub record Parts : Type 0 where
  pub scheme : String
  pub hostname : Option String
  pub port : Option (Option ℕ)
  pub username : Option String
  pub password : Option String
  pub path : String
  pub query : String
  pub fragment : String

-- Python's own functions that the code calls, and its floats.
pub record Host : Type 1 where
  pub Float : Type 0
  pub is_positive : Float → Bool
  pub casefold : String → String
  pub urlsplit : String → Except Raised Parts
  pub urlunsplit : String → String → String → String
  pub urljoin : String → String → Except Raised String
  pub sha256 : List ℕ → String
  pub is_digits : String → Bool
  pub int_of : String → Option ℕ
  pub str_of : ℕ → String

pub record AcquisitionPolicy (h : Host) : Type 0 where
  pub allowed_hosts : List String
  pub allowed_schemes : List String
  pub max_redirects : ℤ
  pub max_artifact_bytes : ℤ
  pub chunk_bytes : ℤ
  pub timeout_seconds : h.Float

-- `value < 0`
abbrev pub below_zero : ℤ → Bool
below_zero (pos _) = false
below_zero (negsuc _) = true

-- `value < 1`
abbrev pub below_one : ℤ → Bool
below_one (pos zero) = true
below_one (pos (suc _)) = false
below_one (negsuc _) = true

-- `a > b`
abbrev pub int_gt : ℤ → ℤ → Bool
int_gt (pos a) (pos b) = ltb b a
int_gt (pos a) (negsuc b) = true
int_gt (negsuc a) (pos b) = false
int_gt (negsuc a) (negsuc b) = ltb a b

abbrev pub is_none_listed : List String → Bool
is_none_listed [] = true
is_none_listed (_ ∷ _) = false

-- the truth of `text or None`
abbrev is_given : Option String → Bool
is_given none = false
is_given (some text) = not (is_empty text)

abbrev pub max_locator_chars : ℕ
max_locator_chars = 2048

module _ (h : Host) where
  -- some text of the list is not its own `casefold`
  abbrev pub any_unfolded : List String → Bool
  any_unfolded texts = any (λ text. not (str_eq text (h.casefold text))) texts

  unfoldable pub policy_post_init : AcquisitionPolicy h → Check Raised
  policy_post_init p = do
    refuse_if (is_none_listed p.allowed_hosts) (value_error "allowed_hosts")
    refuse_if (is_none_listed p.allowed_schemes) (value_error "allowed_schemes")
    refuse_if (any_unfolded p.allowed_hosts) (value_error "allowed_hosts")
    refuse_if (any_unfolded p.allowed_schemes) (value_error "allowed_schemes")
    refuse_if (below_zero p.max_redirects) (value_error "max_redirects")
    refuse_if (below_one p.chunk_bytes) (value_error "chunk_bytes")
    refuse_if (below_one p.max_artifact_bytes) (value_error "max_artifact_bytes")
    refuse_if (int_gt p.chunk_bytes p.max_artifact_bytes) (value_error "chunk_bytes")
    refuse_if (not (h.is_positive p.timeout_seconds)) (value_error "timeout_seconds")

  unfoldable pub permits : AcquisitionPolicy h → String → String → Check Raised
  permits p scheme host = do
    refuse_if (not (is_among (h.casefold scheme) p.allowed_schemes)) (failed unapproved_scheme)
    refuse_if (not (is_among (h.casefold host) p.allowed_hosts)) (failed unapproved_host)

  -- `authority`, with the port where there is one
  unfoldable pub with_port : String → Option ℕ → String
  with_port authority none = authority
  with_port authority (some port) = str_append authority (str_append ":" (h.str_of port))

  -- `parts.port`
  unfoldable pub read_port : Parts → Except Raised (Option ℕ)
  read_port parts = elim (parts.port) [ none ↦ err (value_error "port") | some port ↦ ok port ]

  -- `sanitize_url` with the host name that is there
  unfoldable pub reduce_url : Parts → Option String → Except Raised String
  unfolding with_port read_port
  reduce_url parts none = err (value_error "a provenance URL needs a scheme and a host")
  reduce_url parts (some host) = do
    refuse_if (is_empty parts.scheme || is_empty host)
        (value_error "a provenance URL needs a scheme and a host")
    port ← read_port parts
    ok (h.urlunsplit (h.casefold parts.scheme) (with_port (h.casefold host) port) parts.path)

  unfoldable pub sanitize_url : String → Except Raised String
  unfolding reduce_url
  sanitize_url url = do parts ← h.urlsplit url; reduce_url parts parts.hostname

  -- `_require_sanitized_url`
  unfoldable pub require_sanitized_url : String → String → Check Raised
  unfolding sanitize_url
  require_sanitized_url url field_name = do
    refuse_if (is_empty url) (value_error field_name)
    reduced ← sanitize_url url
    refuse_if (not (str_eq url reduced)) (value_error field_name)

  -- `_require_sanitized_locator`, on the parts of the locator
  unfoldable pub require_bare : Parts → Check Raised
  require_bare parts = do
    refuse_if (is_empty parts.scheme) (value_error "locator must name a scheme")
    refuse_if (is_given parts.username || is_given parts.password)
        (value_error "locator must not carry userinfo")
    refuse_if (not (is_empty parts.query)) (value_error "locator must not carry a query string")
    refuse_if (not (is_empty parts.fragment)) (value_error "locator must not carry a fragment")

  unfoldable pub require_sanitized_locator : String → Check Raised
  unfolding require_bare is_blank
  require_sanitized_locator locator = do
    refuse_if (is_blank locator) (value_error "locator")
    refuse_if (ltb max_locator_chars (chars locator)) (value_error "locator")
    refuse_if (has_control locator) (value_error "locator")
    refuse_if (not (str_eq locator (strip locator))) (value_error "locator")
    parts ← h.urlsplit locator
    require_bare parts
