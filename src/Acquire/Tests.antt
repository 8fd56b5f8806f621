-- ===== src/Acquire/Tests.antt =====
-- Runs of the acquisition, and the theorems at them.
use property_tax_data_platfo.Base.{
  is_blank, ℕ, zero, suc, String, true, Option, none, some, [], ◌∷◌, ℤ, pos, Except, ok, err, ◌≡◌,
  ◌≢◌, refl, str_eq, if◌then◌else◌,
}
use property_tax_data_platfo.Acquire.Contract.{
  permits, reduce_url, with_port, read_port, sanitize_url, require_sanitized_url, require_bare,
  require_sanitized_locator, Host, Parts, Raised, value_error, exception, AcquisitionPolicy,
  policy_post_init,
}
use property_tax_data_platfo.Acquire.Headers.{
  clean, keep_header, keep_headers, require_sanitized_header_value, require_sanitized_values,
  parse_length, declared_length, hop_post_init, artifact_post_init, sanitize_headers,
  metadata_post_init, AcquiredArtifact,
}
use property_tax_data_platfo.Acquire.Stream.{
  sink_error, take_chunk, receive, require_host, require_permitted, resolve_location,
  follow_location, hop, Read, chunk, Response, Exchange, returned, endless, Outcome,
}
use property_tax_data_platfo.Acquire.Attempt.{
  acquire_artifact, entered_or, attempt_from, contact, handle_response, after_abort,
}
use property_tax_data_platfo.Acquire.Drain.{
  drain, drain_body, read_metadata, settle_received, require_whole, finish, settle_commit,
  artifact_at, build_artifact,
}
use property_tax_data_platfo.Acquire.Permitted.{
  ContactsPermitted, acquire_artifact-ContactsPermitted,
}
use property_tax_data_platfo.Acquire.Whole.{
  IsWhole, acquire_artifact-IsWhole, acquire_artifact-ends,
}
use property_tax_data_platfo.Acquire.Sanitized.{sanitize_headers-IsAccepted}

abbrev parts_at : String → String → Parts
parts_at host path = record {
  scheme = "https";
  hostname = some host;
  port = some none;
  username = none;
  password = none;
  path = path;
  query = "";
  fragment = "";
}

-- a `urlsplit` that knows the URLs of the run
abbrev split_url : String → Except Raised Parts
split_url url =
    if str_eq url "https://a.gov/old"
    then ok (parts_at "a.gov" "/old")
    else if str_eq url "https://a.gov/new"
    then ok (parts_at "a.gov" "/new")
    else if str_eq url "s3://bronze/key"
    then ok (parts_at "bronze" "/key")
    else err (value_error url)

abbrev host : Host
host = record {
  Float = ℕ;
  is_positive = λ _. true;
  casefold = λ text. text;
  urlsplit = split_url;
  urlunsplit = λ scheme authority path.
      if str_eq path "/old" then "https://a.gov/old" else "https://a.gov/new";
  urljoin = λ base location. ok "https://a.gov/new";
  sha256 = λ bytes. "0123456789abcdef0123456789abcdef0123456789abcdef0123456789abcdef";
  is_digits = λ text. str_eq text "3";
  int_of = λ text. some 3;
  str_of = λ port. "";
}

abbrev policy : AcquisitionPolicy host
policy = record {
  allowed_hosts = "a.gov" ∷ [];
  allowed_schemes = "https" ∷ [];
  max_redirects = pos 2;
  max_artifact_bytes = pos 100;
  chunk_bytes = pos 2;
  timeout_seconds = 60;
}

abbrev three_bytes : ℕ → ℤ → Read
three_bytes zero size = chunk (7 ∷ 8 ∷ [])
three_bytes (suc zero) size = chunk (9 ∷ [])
three_bytes (suc (suc n)) size = chunk []

abbrev redirecting : Response
redirecting = record { status = 302; location = some "/new"; headers = []; body = three_bytes }

abbrev found : Response
found = record {
  status = 200;
  location = none;
  headers = ("content-length", "3") ∷ ("set-cookie", "x") ∷ [];
  body = three_bytes;
}

abbrev exchange : Except Raised (Option String) → Exchange host
exchange commit = record {
  request = λ n url timeout. if str_eq url "https://a.gov/old" then ok redirecting else ok found;
  close = λ n. ok tt;
  enter = ok tt;
  write = λ n bytes. ok tt;
  commit = commit;
  abort = ok tt;
}

abbrev good : Exchange host
good = exchange (ok (some "s3://bronze/key"))

abbrev bad : Exchange host
bad = exchange (err (exception "OSError"))

policy-valid : policy_post_init host policy ≡ ok tt
unfolding policy_post_init
policy-valid = refl

-- The artifact of a run that returned, and what a run that did not raised.
abbrev artifact_or : AcquiredArtifact → Outcome → AcquiredArtifact
artifact_or default (log, returned a) = a
artifact_or default _ = default

abbrev nothing : AcquiredArtifact
nothing = record {
  sha256 = "";
  byte_count = 0;
  final_url = "";
  locator = "";
  response = record { status = 0; headers = [] };
  redirects = [];
  acquisition_contract_version = 0;
}

unfoldable after : Exchange host → Outcome
unfolding acquire_artifact entered_or attempt_from contact handle_response hop follow_location
    resolve_location require_permitted require_host permits sanitize_url reduce_url read_port
    with_port hop_post_init require_sanitized_url drain drain_body read_metadata sanitize_headers
    keep_headers keep_header clean metadata_post_init require_sanitized_values
    require_sanitized_header_value declared_length parse_length receive take_chunk settle_received
    require_whole finish settle_commit artifact_at build_artifact artifact_post_init
    require_sanitized_locator require_bare sink_error after_abort is_blank
after x = acquire_artifact host x policy "https://a.gov/old" none

abbrev artifact : AcquiredArtifact
artifact = artifact_or nothing (after good)

good-returned : (acquire_artifact host good policy "https://a.gov/old" none).1 ≡ returned artifact
unfolding after
good-returned = refl

acquire_artifact-ContactsPermitted_example :
    ContactsPermitted host good policy none
      (acquire_artifact host good policy "https://a.gov/old" none)
acquire_artifact-ContactsPermitted_example =
    acquire_artifact-ContactsPermitted host good policy none "https://a.gov/old" policy-valid

acquire_artifact-IsWhole_example :
    IsWhole host good policy none "https://a.gov/old"
      (acquire_artifact host good policy "https://a.gov/old" none).0
      artifact
acquire_artifact-IsWhole_example =
    acquire_artifact-IsWhole host good policy none "https://a.gov/old" artifact policy-valid
      good-returned

acquire_artifact-ends_example :
    (acquire_artifact host good policy "https://a.gov/old" none).1 ≢ endless
acquire_artifact-ends_example =
    acquire_artifact-ends host good policy none "https://a.gov/old" policy-valid

sanitize_headers-IsAccepted_example :
    metadata_post_init (record { status = 200; headers = sanitize_headers host (found.headers) })
    ≡ ok tt
sanitize_headers-IsAccepted_example =
    sanitize_headers-IsAccepted host 200 (found.headers) refl (refl, (refl, tt))
