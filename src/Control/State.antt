-- ===== src/Control/State.antt =====
-- state.py: the canonical state, the legal transitions, and the two updates of a revision. The JSON
-- schemas are checked by a library: `Contracts` stands for it. Numbers are those of the
-- schemas, which are not negative; a lifecycle state is one of those the schemas allow.
use property_tax_data_platfo.Base.{
  ℕ, ◌+◌, String, Bool, not, Option, none, some, List, [], ◌∷◌, Except, ok, refuse_if, ◌>>◌, ◌==◌,
  any, if◌then◌else◌,
}

pub data Lifecycle : Type 0 where
  received : Lifecycle
  authorized : Lifecycle
  deduplicated : Lifecycle
  queued : Lifecycle
  preparing : Lifecycle
  running : Lifecycle
  cancel_requested : Lifecycle
  succeeded : Lifecycle
  failed : Lifecycle
  cancelled : Lifecycle
  timed_out : Lifecycle
  stale : Lifecycle
  not_implemented : Lifecycle

-- What is raised: a `ControlPlaneError` with its code, the error of a document that its schema
-- refuses, or `OverflowError` of an instant out of `datetime`'s range.
pub data ControlError : Type 0 where
  control_plane_error : String → ControlError
  invalid_document : ControlError
  overflow_error : ControlError

pub record Lease : Type 0 where
  pub owner_workflow_run_id : ℕ
  pub owner_run_attempt : ℕ
  pub idempotency_key : String
  pub command : String
  pub target_sha : String
  pub acquired_at : String
  pub heartbeat_at : String
  pub expires_at : String
  pub nonce : String

-- The canonical state; `Details` are the fields that no operation modelled here reads or writes: the
-- profile, the planning and the implementation fields, and the history.
pub record State (Details : Type 0) : Type 0 where
  pub command : String
  pub target_head_sha : String
  pub idempotency_key : String
  pub revision : ℕ
  pub lifecycle_state : Lifecycle
  pub workflow_run_id : Option ℕ
  pub workflow_run_attempt : ℕ
  pub lease : Option Lease
  pub disposition : Option String
  pub created_at : String
  pub updated_at : String
  pub details : Details

-- `expected_revision` may be left out.
pub record Transition : Type 0 where
  pub from_state : Lifecycle
  pub to_state : Lifecycle
  pub at_time : String
  pub reason_code : String
  pub expected_revision : Option ℕ

-- What the schemas' validator accepts, and `datetime`: the instant a text stands for, the text of an
-- instant, and the range of the instants, which are numbers of microseconds.
pub record Contracts : Type 1 where
  pub Details : Type 0
  pub accepts_state : State Details → Bool
  pub accepts_lease : Lease → Bool
  pub accepts_transition : Transition → Bool
  pub instant_of : String → Option ℕ
  pub text_of : ℕ → String
  pub is_instant : ℕ → Bool

-- a number for each state, to compare them by
abbrev lifecycle_number : Lifecycle → ℕ
lifecycle_number received = 0
lifecycle_number authorized = 1
lifecycle_number deduplicated = 2
lifecycle_number queued = 3
lifecycle_number preparing = 4
lifecycle_number running = 5
lifecycle_number cancel_requested = 6
lifecycle_number succeeded = 7
lifecycle_number failed = 8
lifecycle_number cancelled = 9
lifecycle_number timed_out = 10
lifecycle_number stale = 11
lifecycle_number not_implemented = 12

abbrev pub lifecycle_eq : Lifecycle → Lifecycle → Bool
lifecycle_eq a b = lifecycle_number a == lifecycle_number b

-- `ACTIVE_STATES`
abbrev pub active_states : List Lifecycle
active_states = received ∷ authorized ∷ queued ∷ preparing ∷ running ∷ cancel_requested ∷ []

-- `TERMINAL_STATES`
abbrev pub terminal_states : List Lifecycle
terminal_states = succeeded ∷ failed ∷ cancelled ∷ timed_out ∷ stale ∷ not_implemented ∷ []

-- `LEGAL_TRANSITIONS`
abbrev pub legal_transitions : Lifecycle → List Lifecycle
legal_transitions received = authorized ∷ failed ∷ []
legal_transitions authorized = queued ∷ deduplicated ∷ failed ∷ []
legal_transitions queued =
    preparing ∷ running ∷ cancel_requested ∷ succeeded ∷ cancelled ∷ failed ∷ timed_out ∷ stale
    ∷ not_implemented ∷ []
legal_transitions preparing =
    running ∷ cancel_requested ∷ succeeded ∷ cancelled ∷ failed ∷ timed_out ∷ stale
    ∷ not_implemented ∷ []
legal_transitions running =
    succeeded ∷ failed ∷ cancel_requested ∷ cancelled ∷ timed_out ∷ stale ∷ not_implemented ∷ []
legal_transitions cancel_requested = cancelled ∷ failed ∷ succeeded ∷ timed_out ∷ stale ∷ []
legal_transitions _ = []

-- `x in states`
abbrev pub is_one_of : Lifecycle → List Lifecycle → Bool
is_one_of x states = any (lifecycle_eq x) states

abbrev pub is_terminal : Lifecycle → Bool
is_terminal x = is_one_of x terminal_states

abbrev pub or_default : Option ℕ → ℕ → ℕ
or_default none n = n
or_default (some m) n = m

module _ (c : Contracts) where
  abbrev pub CanonicalState : Type 0
  CanonicalState = State c.Details

  -- the fields that `transition_state` writes
  abbrev pub moved : CanonicalState → Transition → CanonicalState
  moved s t = record {
    command = s.command;
    target_head_sha = s.target_head_sha;
    idempotency_key = s.idempotency_key;
    revision = or_default t.expected_revision s.revision + 1;
    lifecycle_state = t.to_state;
    workflow_run_id = s.workflow_run_id;
    workflow_run_attempt = s.workflow_run_attempt;
    lease = if is_terminal t.to_state then none else s.lease;
    disposition = if is_terminal t.to_state then some t.reason_code else s.disposition;
    created_at = s.created_at;
    updated_at = t.at_time;
    details = s.details;
  }

  abbrev pub with_default : Transition → CanonicalState → Transition
  with_default t s = record {
    from_state = t.from_state;
    to_state = t.to_state;
    at_time = t.at_time;
    reason_code = t.reason_code;
    expected_revision = some (or_default t.expected_revision s.revision);
  }

  -- `validate("state", updated)` and the return
  abbrev pub checked : CanonicalState → Except ControlError CanonicalState
  checked updated = refuse_if (not (c.accepts_state updated)) invalid_document >> ok updated

  unfoldable pub transition_state : CanonicalState → Transition → Except ControlError CanonicalState
  transition_state s t = do
    refuse_if (not (c.accepts_state s)) invalid_document
    refuse_if (not (c.accepts_transition (with_default t s))) invalid_document
    refuse_if (not (or_default t.expected_revision s.revision == s.revision))
        (control_plane_error "revision_conflict")
    refuse_if (not (lifecycle_eq t.from_state s.lifecycle_state))
        (control_plane_error "transition_conflict")
    refuse_if (not (is_one_of t.to_state (legal_transitions s.lifecycle_state)))
        (control_plane_error "illegal_transition")
    checked (moved s t)

  unfoldable pub bump_revision : CanonicalState → String → Except ControlError CanonicalState
  bump_revision s at_time = checked (record {
    command = s.command;
    target_head_sha = s.target_head_sha;
    idempotency_key = s.idempotency_key;
    revision = s.revision + 1;
    lifecycle_state = s.lifecycle_state;
    workflow_run_id = s.workflow_run_id;
    workflow_run_attempt = s.workflow_run_attempt;
    lease = s.lease;
    disposition = s.disposition;
    created_at = s.created_at;
    updated_at = at_time;
    details = s.details;
  })
