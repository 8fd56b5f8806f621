-- ===== src/Lib.antt =====
-- Verification of the property-tax data platform: the acquisition of an artifact and the object store
-- that keeps it, the judgement and extraction of the archives it arrives in, the boundary through
-- which a county's release is published, and the control plane's canonical state of a run.
--
-- The release boundary, libs/property-tax-adapters/src/property_tax_adapters/release:
--   Sources/Contracts   sources/contracts.py: the source records and their checks.
--   Sources/Pacs, Written   sources/pacs.py: fixed-width layouts, and what a record written at a
--     layout's positions is sliced into.
--   Release/Outcome, Records, Progress   outcome.py, records.py, progress.py: the values that cross
--     the boundary, each with its `__post_init__` as a check that returns or raises.
--   Release/Run, Steps, Processor   processor.py: `process_release`, as functions on its state `Run`:
--     the recorder, the counters and flags of the function, and the trace of the calls that it
--     made. Its nested functions, `_iterate`, `_write` and `_outcome` are in Steps; the `try`, `except`
--     and `finally` blocks are in Processor. The reader, the stage, the callback and the guard of
--     protocols.py are a `Caller`: the values they give, and a reply to each call that may depend on
--     all calls before it. A reader that raises does so in the reply to one of the calls, `iter(reader)`
--     among them.
--   Release/Triple, Books, Atomic, Lifecycle   the rules by which a property is carried along the
--     steps, and one proof per folder: the counts, the visible records, the order of the calls.
--   Release/Carriers   about Records alone.
-- Archives, libs/property-tax-application/src/property_tax_application/archives.py and
-- libs/property-tax-adapters/src/property_tax_adapters/archives/zip_inspection.py:
--   Archives/Policy   the policy, its validation, and what an inspection reports.
--   Archives/Names    `_check_path`, and pathlib's parts and suffix as Python 3.12 computes them.
--   Archives/Judge    the rules for one entry, and `_judge`.
--   Archives/Preflight   `_find_eocd` and `_preflight`, on the bytes of a file.
--   Archives/Extract  `inspect_zip`, `_member` and `extract_member`, on the two paths it writes.
--   Archives/Contained, Admitted, Whole, Declared, Bounded, Ratios   what is proved of these.
-- Acquisition, libs/property-tax-application/src/property_tax_application/acquisition.py and
-- libs/property-tax-adapters/src/property_tax_adapters/acquisition:
--   Acquire/Characters, Contract, Headers   acquisition.py: the policy, the sanitizing of URLs,
--     headers and locators, and the values of the boundary.
--   Acquire/Stream, Drain, Attempt   streaming.py: `_hop` and the loop of `_drain`, `_drain`, and
--     `acquire_artifact`, with the log of the calls that it makes to the transport and the sink.
--   Acquire/Calls, Bodies, Rounds, Limits, Drains, Results   what each loop reads and adds to the log.
--   Acquire/Permitted, Whole, Stripping, Sanitized   what is proved of it.
-- The object store, bronze.py beside acquisition.py, and objectstore/s3.py of the adapters:
--   Bronze/Keys, Manifest   the keys of a bucket, the manifest and its checks.
--   Bronze/Store   `S3BronzeStore`, on the objects of a bucket.
--   Bronze/Sink   `S3ArtifactSink`, with its attributes as a record and the calls that it makes, with
--     all of their arguments but the bucket.
--   Bronze/Reads, Immutable, Classified, Parts, Copied, Copies, Published, Open, Copying, Cleared
--     what is proved of these.
-- Canonical loads, canonical.py beside acquisition.py:
--   Canonical/Records, Batch   the records of a batch as objects with an address, the batch, and its
--     rules B1 to B10. Objects are compared by address, as `is` does, and handles by value.
--   Canonical/Handles, Bound, Accepted   which batches are accepted.
-- The control plane, tools/countyforge-github/src/countyforge_github:
--   Control/State     state.py: the lifecycle, `LEGAL_TRANSITIONS`, `transition_state`, `bump_revision`.
--   Control/Leases    leases.py.
--   Control/Operations   any of these operations, and a sequence of them.
--   Control/Changes, Lifecycle, Exclusive   what an operation changes, and what holds of a sequence.
-- Base holds the shared tests, lists, texts and the type `Except` of code that returns or raises.
--
-- Most loops of the source go along a list or a stream, so their models are structural recursion. The
-- loop of `_drain` asks for chunks until none comes: its model runs on one read more than the policy's
-- limit in bytes, which is enough, since each read that goes on brings a byte and the limit stops the
-- rest. The loops of `write` and `_copy_in_parts` run on the number of bytes at hand, and each round
-- takes at least one. Python's integers are ℤ where the code tests their sign and natural
-- numbers where they are counts or sizes; the 32-bit fields of an archive's directory are
-- natural numbers and their bits are read by division and remainder.
--
-- Parameters: floats and `str.lower` (Archives/Policy, `Host`), the entries that zipfile lists and the
-- chunks it reads, which file operations fail, the JSON schemas' validator and `datetime`
-- (Control/State, `Contracts`), urllib, hashlib and `str.casefold` (Acquire/Contract, `Host`), the
-- transport and the sink of an acquisition (Acquire/Stream, `Exchange`), S3's client and `json.dumps`
-- (Bronze/Store, `S3`; Bronze/Sink, `Setting`), with what S3 documents of it as hypotheses
-- (Bronze/Immutable, `Documented`), and the objects that are passed to `process_release`. The
-- nonce of a lease, given or random, is an argument. Leaving a response may raise and suppresses nothing. Objects of a bucket change by the calls of one writer at a time.
--
-- Not modelled: tests of a value's Python type, which the types here make; the texts of messages;
-- exceptions that are not `Exception` (a keyboard interrupt), but in the acquisition and the object
-- store; the closing of the file that `_reader` opens; http.client's transport; the payload that
-- `serialize_manifest` renders; the rest of state.py (markers, retries, rendering), the county
-- parsers, the runner, the scripts and the services.
pub mod Base
pub mod Sources
pub mod Release
pub mod Archives
pub mod Control
pub mod Acquire
pub mod Bronze
pub mod Canonical
