-- ===== src/Canonical/Records.antt =====
-- canonical.py: the records that a batch carries, as objects. An object is told from another by its
-- address, and holds its parent; what else a domain value holds plays no part in a batch.
use property_tax_data_platfo.Base.{
  ℕ, String, Bool, true, false, ◌&&◌, Option, none, some, List, ℤ, pos, negsuc, zero, suc, Check,
  refuse_if, str_eq, int_eq,
}

-- `county_fips` takes no part in equality.
pub record Jurisdiction : Type 0 where
  pub state_code : String
  pub county_slug : String
  pub county_fips : String

abbrev same_jurisdiction : Jurisdiction → Jurisdiction → Bool
same_jurisdiction a b = str_eq a.state_code b.state_code && str_eq a.county_slug b.county_slug

pub record AccountIdentity : Type 0 where
  pub jurisdiction : Jurisdiction
  pub source_account_id : String

abbrev pub same_account : AccountIdentity → AccountIdentity → Bool
same_account a b =
    same_jurisdiction a.jurisdiction b.jurisdiction
    && str_eq a.source_account_id b.source_account_id

pub record AccountSnapshot : Type 0 where
  pub address : ℕ
  pub identity : AccountIdentity

pub record OwnerAssociation : Type 0 where
  pub address : ℕ
  pub snapshot : AccountSnapshot

-- the kinds of record that hold a snapshot as their parent
pub data ObservationKind : Type 0 where
  owner appraisal_value taxable_value exemption geometry improvement land taxing_unit :
      ObservationKind

pub data CanonicalRecord : Type 0 where
  account_snapshot : AccountSnapshot → CanonicalRecord
  owner_association : OwnerAssociation → CanonicalRecord
  owner_value_allocation : ℕ → OwnerAssociation → CanonicalRecord
  observation : ObservationKind → ℕ → AccountSnapshot → CanonicalRecord

-- the object itself
abbrev pub address_of : CanonicalRecord → ℕ
address_of (account_snapshot s) = s.address
address_of (owner_association a) = a.address
address_of (owner_value_allocation address a) = address
address_of (observation kind address s) = address

abbrev pub account_of : CanonicalRecord → AccountIdentity
account_of (account_snapshot s) = s.identity
account_of (owner_association a) = a.snapshot.identity
account_of (owner_value_allocation address a) = a.snapshot.identity
account_of (observation kind address s) = s.identity

-- `_parent_object_of`
abbrev pub parent_object_of : CanonicalRecord → Option ℕ
parent_object_of (account_snapshot s) = none
parent_object_of (owner_association a) = some a.snapshot.address
parent_object_of (owner_value_allocation address a) = some a.address
parent_object_of (observation kind address s) = some s.address

-- A `ValueError`, by the rule that was broken.
pub data BatchError : Type 0 where
  bad_handle own_parent introduced_twice repeated contradicted redundant : BatchError
  parentless wrong_parent continued_and_closed : BatchError

-- `CorrelationHandle`, by its value
abbrev pub Handle : Type 0
Handle = ℤ

-- `value < 1`
abbrev below_one : ℤ → Bool
below_one (pos zero) = true
below_one (pos (suc _)) = false
below_one (negsuc _) = true

unfoldable pub handle_post_init : Handle → Check BatchError
handle_post_init value = refuse_if (below_one value) bad_handle

pub record CorrelatedRecord : Type 0 where
  pub carried : CanonicalRecord
  pub handle : Option Handle
  pub parent : Option Handle

abbrev names_itself : Option Handle → Option Handle → Bool
names_itself (some handle) (some parent) = int_eq handle parent
names_itself _ _ = false

unfoldable pub entry_post_init : CorrelatedRecord → Check BatchError
entry_post_init e = refuse_if (names_itself e.handle e.parent) own_parent

-- `AdoptedParent`: the candidate's snapshot and the handle; its locator plays no part in a batch.
pub record AdoptedParent : Type 0 where
  pub snapshot : AccountSnapshot
  pub handle : Handle

pub record CanonicalRecordBatch : Type 0 where
  pub entries : List CorrelatedRecord
  pub adoptions : List AdoptedParent
  pub continuing : Option AccountIdentity
  pub closing : Option AccountIdentity
  pub retain : List Handle
  pub released : List Handle
