-- ===== src/Canonical/Tests.antt =====
-- A batch, and the theorems at it.
use property_tax_data_platfo.Base.{◌≡◌, ◌↔◌, refl, ok, some, none, [], ◌∷◌, pos}
use property_tax_data_platfo.Canonical.Records.{
  AccountIdentity, AccountSnapshot, account_snapshot, observation, land, CanonicalRecordBatch,
}
use property_tax_data_platfo.Canonical.Batch.{
  introduced, introduced_handles, require_no_repetition, require_no_contradiction,
  require_no_release_of_introduced, by_handle, check_parents, require_in_batch_parents,
  require_one_continuation, batch_post_init,
}
use property_tax_data_platfo.Canonical.Accepted.{IsWellFormed, batch_post_init-IsWellFormed}

abbrev account : AccountIdentity
account = record {
  jurisdiction = record { state_code = "tx"; county_slug = "dallas"; county_fips = "48113" };
  source_account_id = "42";
}

abbrev snapshot : AccountSnapshot
snapshot = record { address = 1; identity = account }

-- a snapshot and a parcel of land under it
abbrev two_records : CanonicalRecordBatch
two_records = record {
  entries =
      record { carried = account_snapshot snapshot; handle = some (pos 1); parent = none }
      ∷ record { carried = observation land 2 snapshot; handle = none; parent = some (pos 1) }
      ∷ [];
  adoptions = [];
  continuing = some account;
  closing = none;
  retain = pos 1 ∷ [];
  released = pos 7 ∷ [];
}

two_records-accepted : batch_post_init two_records ≡ ok tt
unfolding batch_post_init introduced introduced_handles require_no_repetition
    require_no_contradiction require_no_release_of_introduced by_handle check_parents
    require_in_batch_parents require_one_continuation
two_records-accepted = refl

batch_post_init-IsWellFormed_example :
    (batch_post_init two_records ≡ ok tt) ↔ IsWellFormed two_records
batch_post_init-IsWellFormed_example = batch_post_init-IsWellFormed two_records
