-- ===== src/Browser/Intents.antt =====
-- apps/terminal-cloud/src/browser/input-intent-ledger.ts: the records of the intents, their results
-- and the comparison of identities. A local id is only compared, and is a number here; the kind of an
-- input and an epoch are texts, given as their code units; a number in a decimal text is the number.
use zhongduan.Base.{
  ℕ, ◌+◌, ◌*◌, Bool, true, false, ◌&&◌, Option, none, some, List, [], ◌∷◌, ◌==◌, same_text,
}

-- INPUT_QUEUE_CONTRACT.
abbrev pub max_bytes : ℕ
max_bytes = 6 * 1024 * 1024 + 4096

abbrev pub max_count : ℕ
max_count = 256

abbrev pub max_pending : ℕ
max_pending = 1024

abbrev pub max_pre_admission_age_ms : ℕ
max_pre_admission_age_ms = 250

abbrev pub max_retained_results : ℕ
max_retained_results = 4096

pub record InputIdentity : Type 0 where
  pub writer_fence : ℕ
  pub input_epoch : List ℕ
  pub client_input_seq : ℕ

-- Equality of the keys of two identities: the parts are joined by a character that none contains.
abbrev pub same_key : InputIdentity → InputIdentity → Bool
same_key left right =
    left.writer_fence == right.writer_fence
    && same_text left.input_epoch right.input_epoch
    && left.client_input_seq == right.client_input_seq

abbrev pub same_identity : Option InputIdentity → Option InputIdentity → Bool
same_identity none none = true
same_identity none (some right) = false
same_identity (some left) none = false
same_identity (some left) (some right) = same_key left right

-- "unknown".
abbrev pub unknown_kind : List ℕ
unknown_kind = 117 ∷ 110 ∷ 107 ∷ 110 ∷ 111 ∷ 119 ∷ 110 ∷ []

pub data InputNotSentReason : Type 0 where
  closed control_replaced epoch_sealed malformed mouse_gate not_writable : InputNotSentReason
  overload policy pre_admission_expired queue_expired replica_not_current : InputNotSentReason
  superseded transport_rejected validation : InputNotSentReason

pub data InputUncertainReason : Type 0 where
  acknowledgement_timeout closed control_replaced : InputUncertainReason
  input_ack_uncertain termination_timeout transport_uncertain : InputUncertainReason

pub data DeterministicReason : Type 0 where
  input_ack tombstone_proof : DeterministicReason

pub data DeterministicResult : Type 0 where
  duplicate rejected written : DeterministicResult

-- The last field of a deterministic outcome is its `authorityEventSeq`.
pub data InputOutcome : Type 0 where
  not_sent : InputNotSentReason → InputOutcome
  deterministic : DeterministicReason → DeterministicResult → ℕ → InputOutcome
  uncertain : InputUncertainReason → InputOutcome

pub record InputIntentResult : Type 0 where
  pub local_intent_id : ℕ
  pub kind : List ℕ
  pub identity : Option InputIdentity
  pub consumed_at_ms : ℕ
  pub terminal_at_ms : ℕ
  pub outcome : InputOutcome

pub data IntentTerminationReason : Type 0 where
  acknowledgement_timeout control_replaced : IntentTerminationReason
  transport_uncertain : IntentTerminationReason

pub record IntentBase : Type 0 where
  pub local_intent_id : ℕ
  pub kind : List ℕ
  pub consumed_at_ms : ℕ

-- The fields that an admitted record has in every phase.
pub record Admitted : Type 0 where
  pub identity : InputIdentity
  pub encoded_bytes : ℕ
  pub admitted_at_ms : ℕ
  pub transport_generation : ℕ

-- The validated payload and the frame are kept and given back as they are.
module _ (Payload Frame : Type 0) where
  -- One constructor for each phase: `queued` has its deadline, `sending` the time of the decision to
  -- send, `sent` and `terminating` both; `settled` and `settled_admitted` are "terminal".
  pub data IntentRecord : Type 0 where
    consumed : IntentBase → IntentRecord
    pre_admission : IntentBase → Payload → ℕ → IntentRecord
    queued : IntentBase → Admitted → Frame → ℕ → IntentRecord
    sending : IntentBase → Admitted → Frame → ℕ → IntentRecord
    sent : IntentBase → Admitted → ℕ → ℕ → IntentRecord
    terminating : IntentBase → Admitted → ℕ → ℕ → IntentTerminationReason → IntentRecord
    settled : IntentBase → InputIntentResult → IntentRecord
    settled_admitted : IntentBase → Admitted → Option ℕ → InputIntentResult → IntentRecord

  abbrev pub base_of : IntentRecord → IntentBase
  base_of (consumed b) = b
  base_of (pre_admission b payload bytes) = b
  base_of (queued b a frame deadline) = b
  base_of (sending b a frame decision) = b
  base_of (sent b a decision deadline) = b
  base_of (terminating b a decision deadline reason) = b
  base_of (settled b result) = b
  base_of (settled_admitted b a decision result) = b

  abbrev pub admitted_of : IntentRecord → Option Admitted
  admitted_of (consumed b) = none
  admitted_of (pre_admission b payload bytes) = none
  admitted_of (queued b a frame deadline) = some a
  admitted_of (sending b a frame decision) = some a
  admitted_of (sent b a decision deadline) = some a
  admitted_of (terminating b a decision deadline reason) = some a
  admitted_of (settled b result) = none
  admitted_of (settled_admitted b a decision result) = some a

  abbrev pub identity_in : Option Admitted → Option InputIdentity
  identity_in none = none
  identity_in (some a) = some a.identity

  -- `record.identity`.
  abbrev pub identity_of : IntentRecord → Option InputIdentity
  identity_of r = identity_in (admitted_of r)

  abbrev pub decision_of : IntentRecord → Option ℕ
  decision_of (consumed b) = none
  decision_of (pre_admission b payload bytes) = none
  decision_of (queued b a frame deadline) = none
  decision_of (sending b a frame decision) = some decision
  decision_of (sent b a decision deadline) = some decision
  decision_of (terminating b a decision deadline reason) = some decision
  decision_of (settled b result) = none
  decision_of (settled_admitted b a decision result) = decision

  abbrev pub deadline_of : IntentRecord → Option ℕ
  deadline_of (queued b a frame deadline) = some deadline
  deadline_of (sent b a decision deadline) = some deadline
  deadline_of (terminating b a decision deadline reason) = some deadline
  deadline_of _ = none

  abbrev pub result_of : IntentRecord → Option InputIntentResult
  result_of (settled b result) = some result
  result_of (settled_admitted b a decision result) = some result
  result_of _ = none

  abbrev pub settle_with : Option Admitted → IntentRecord → InputIntentResult → IntentRecord
  settle_with none r result = settled (base_of r) result
  settle_with (some a) r result = settled_admitted (base_of r) a (decision_of r) result

  -- `terminalRecord`.
  abbrev pub terminal_record : IntentRecord → InputIntentResult → IntentRecord
  terminal_record r result = settle_with (admitted_of r) r result

  pub data SnapshotState : Type 0 where
    consumed_state queued_state sending_state sent_state : SnapshotState
    terminating_state terminal_state : SnapshotState

  abbrev pub snapshot_state : IntentRecord → SnapshotState
  snapshot_state (consumed b) = consumed_state
  snapshot_state (pre_admission b payload bytes) = consumed_state
  snapshot_state (queued b a frame deadline) = queued_state
  snapshot_state (sending b a frame decision) = sending_state
  snapshot_state (sent b a decision deadline) = sent_state
  snapshot_state (terminating b a decision deadline reason) = terminating_state
  snapshot_state (settled b result) = terminal_state
  snapshot_state (settled_admitted b a decision result) = terminal_state

  pub record InputIntentSnapshot : Type 0 where
    pub local_intent_id : ℕ
    pub kind : List ℕ
    pub identity : Option InputIdentity
    pub state : SnapshotState
    pub consumed_at_ms : ℕ
    pub admitted : Option Admitted
    pub send_decision_at_ms : Option ℕ
    pub deadline_at_ms : Option ℕ
    pub result : Option InputIntentResult

  abbrev pub snapshot_of : IntentRecord → InputIntentSnapshot
  snapshot_of r = record {
    local_intent_id = (base_of r).local_intent_id;
    kind = (base_of r).kind;
    identity = identity_of r;
    state = snapshot_state r;
    consumed_at_ms = (base_of r).consumed_at_ms;
    admitted = admitted_of r;
    send_decision_at_ms = decision_of r;
    deadline_at_ms = deadline_of r;
    result = result_of r;
  }
