-- ===== src/Canonical/Batch.antt =====
-- canonical.py: what `CanonicalRecordBatch` checks, and what it says of itself.
use property_tax_data_platfo.Base.{
  ℕ, ◌+◌, Bool, false, not, ◌==◌, Option, none, some, List, [], ◌∷◌, ◌++◌, Check, ok, err,
  refuse_if, ◌>>◌, if◌then◌else◌, int_eq, any, length, map,
}
use property_tax_data_platfo.Canonical.Records.{
  AccountIdentity, same_account, address_of, account_of, parent_object_of, BatchError,
  introduced_twice, repeated, contradicted, redundant, parentless, wrong_parent,
  continued_and_closed, Handle, CorrelatedRecord, AdoptedParent, CanonicalRecordBatch,
}

-- `handle in handles`
abbrev pub is_in : Handle → List Handle → Bool
is_in handle handles = any (int_eq handle) handles

-- the handle of an entry, in front of the others
abbrev pub with_handle : Option Handle → List Handle → List Handle
with_handle none handles = handles
with_handle (some handle) handles = handle ∷ handles

abbrev pub entry_handles : List CorrelatedRecord → List Handle
entry_handles [] = []
entry_handles (e ∷ es) = with_handle e.handle (entry_handles es)

abbrev pub adopted_handles : List AdoptedParent → List Handle
adopted_handles [] = []
adopted_handles (a ∷ rest) = a.handle ∷ adopted_handles rest

unfoldable pub introduced : CanonicalRecordBatch → List Handle
introduced b = entry_handles b.entries ++ adopted_handles b.adoptions

-- the loop of `_introduced_handles`, with what was seen
unfoldable pub introduced_handles : List Handle → List Handle → Check BatchError
introduced_handles [] seen = ok tt
introduced_handles (handle ∷ handles) seen =
    let rest = introduced_handles handles (handle ∷ seen) in
    if is_in handle seen then err introduced_twice else rest

-- `set(handles)`
abbrev pub as_set : List Handle → List Handle
as_set [] = []
as_set (handle ∷ handles) =
    let rest = as_set handles in if is_in handle rest then rest else handle ∷ rest

unfoldable pub require_no_repetition : CanonicalRecordBatch → Check BatchError
require_no_repetition b = do
  refuse_if (not (length (as_set b.retain) == length b.retain)) repeated
  refuse_if (not (length (as_set b.released) == length b.released)) repeated

-- whether two sets have a common element
abbrev pub meets : List Handle → List Handle → Bool
meets handles others = any (λ handle. is_in handle others) handles

unfoldable pub require_no_contradiction : CanonicalRecordBatch → Check BatchError
require_no_contradiction b = refuse_if (meets b.retain b.released) contradicted

unfoldable pub require_no_release_of_introduced : CanonicalRecordBatch → Check BatchError
unfolding introduced
require_no_release_of_introduced b = refuse_if (meets (introduced b) b.released) redundant

-- A dictionary from handles to objects, the latest binding in front.
abbrev pub Bindings : Type 0
Bindings = List (Handle × ℕ)

abbrev pub lookup : Handle → Bindings → Option ℕ
lookup handle [] = none
lookup handle ((key, object) ∷ rest) =
    let more = lookup handle rest in if int_eq handle key then some object else more

abbrev pub bind_entry : Option Handle → ℕ → Bindings → Bindings
bind_entry none object bound = bound
bind_entry (some handle) object bound = (handle, object) ∷ bound

abbrev pub bind_entries : List CorrelatedRecord → Bindings → Bindings
bind_entries [] bound = bound
bind_entries (e ∷ es) bound = bind_entries es (bind_entry e.handle (address_of e.carried) bound)

abbrev pub bind_adoptions : List AdoptedParent → Bindings → Bindings
bind_adoptions [] bound = bound
bind_adoptions (a ∷ rest) bound = bind_adoptions rest ((a.handle, a.snapshot.address) ∷ bound)

-- `by_handle`
unfoldable pub by_handle : CanonicalRecordBatch → Bindings
by_handle b = bind_adoptions b.adoptions (bind_entries b.entries [])

-- an entry whose parent the batch introduces
abbrev pub check_held : Option ℕ → ℕ → Check BatchError
check_held none object = err parentless
check_held (some held) object = refuse_if (not (held == object)) wrong_parent

abbrev pub check_bound : CorrelatedRecord → Option ℕ → Check BatchError
check_bound e none = ok tt
check_bound e (some object) = check_held (parent_object_of e.carried) object

abbrev pub check_parent : CorrelatedRecord → Option Handle → Bindings → Check BatchError
check_parent e none bound = ok tt
check_parent e (some parent) bound = check_bound e (lookup parent bound)

unfoldable pub check_parents : List CorrelatedRecord → Bindings → Check BatchError
check_parents [] bound = ok tt
check_parents (e ∷ es) bound = check_parent e e.parent bound >> check_parents es bound

-- `_require_in_batch_parents_denote_their_records`
unfoldable pub require_in_batch_parents : CanonicalRecordBatch → Check BatchError
unfolding check_parents by_handle
require_in_batch_parents b = check_parents b.entries (by_handle b)

abbrev pub is_both : Option AccountIdentity → Option AccountIdentity → Bool
is_both (some a) (some b) = same_account a b
is_both _ _ = false

unfoldable pub require_one_continuation : CanonicalRecordBatch → Check BatchError
require_one_continuation b = refuse_if (is_both b.continuing b.closing) continued_and_closed

unfoldable pub batch_post_init : CanonicalRecordBatch → Check BatchError
unfolding introduced introduced_handles require_no_repetition require_no_contradiction
    require_no_release_of_introduced require_in_batch_parents require_one_continuation
batch_post_init b = do
  introduced_handles (introduced b) []
  require_no_repetition b
  require_no_contradiction b
  require_no_release_of_introduced b
  require_in_batch_parents b
  require_one_continuation b

unfoldable pub size : CanonicalRecordBatch → ℕ
size b = length b.entries + length b.adoptions + length b.retain + length b.released

-- the accounts of the records and of the adoptions
abbrev entry_accounts : List CorrelatedRecord → List AccountIdentity
entry_accounts es = map (λ e. account_of e.carried) es

unfoldable pub carried_accounts : CanonicalRecordBatch → List AccountIdentity
carried_accounts b = entry_accounts b.entries ++ map (λ a. a.snapshot.identity) b.adoptions

unfoldable pub carries : CanonicalRecordBatch → AccountIdentity → Bool
unfolding carried_accounts
carries b account = any (same_account account) (carried_accounts b)
