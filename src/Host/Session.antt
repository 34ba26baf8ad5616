-- ===== src/Host/Session.antt =====
-- apps/host-daemon/src/session.ts: the actor that owns the terminal. The terminal authority and the
-- PTY are interfaces of the source, and a parameter here: an operation that throws gives `none`. The
-- clock of the journal is the argument `now`. A queue is drained at once; callbacks that enqueue
-- while it drains only make the list of messages longer.
pub mod Keeps
pub mod Once
pub mod Settled
pub mod Stream
pub mod Commits
pub mod Follow
pub mod Chunks
pub mod Sending
pub mod Start
pub mod Attach
pub mod Replays
pub mod Calls
mod Tests
use zhongduan.Base.{
  ℕ, ◌+◌, ◌*◌, Bool, true, false, ◌&&◌, ◌||◌, not, Option, none, some, List, [], ◌∷◌, ◌++◌, ltb,
  leb, ◌==◌, if◌then◌else◌, length, take, drop, ok, err, zero, suc, same_text,
}
use zhongduan.Protocol.Errors.{max_u64}
use zhongduan.Protocol.Frame.{
  DataFrame, ResizePayload, encode_data_frame, encode_resize_payload, pty_output, resize_applied,
}
use zhongduan.Host.Journal.{EventJournal, append}

-- The authority and the PTY, and the inputs that the authority encodes (keys, pastes, focus, mouse).
pub record Environment : Type 1 where
  pub Authority : Type 0
  pub Pty : Type 0
  pub Input : Type 0
  pub apply_output : Authority → List ℕ → Option (Authority × List (List ℕ))
  pub resize_authority : Authority → ResizePayload → Option (Authority × List (List ℕ))
  pub encode_input : Authority → Input → Option (List ℕ)
  pub valid_input : Authority → Input → Bool
  pub encode_snapshot : Authority → Option (List ℕ)
  pub write : Pty → List ℕ → Option Pty
  pub resize_pty : Pty → ResizePayload → Option Pty

abbrev pub max_pty_frame_bytes : ℕ
max_pty_frame_bytes = 16 * 1024

abbrev pub max_text_bytes : ℕ
max_text_bytes = 1024 * 1024

-- A text is the list of its code units.
pub record SemanticInputIdentity : Type 0 where
  pub client_id : List ℕ
  pub client_input_seq : ℕ
  pub input_epoch : List ℕ
  pub observed_event_seq : Option ℕ
  pub writer_fence : ℕ

pub data InputAckStatus : Type 0 where
  written duplicate rejected uncertain : InputAckStatus

pub record InputAck : Type 0 where
  pub authority_event_seq : ℕ
  pub client_input_seq : ℕ
  pub input_epoch : List ℕ
  pub status : InputAckStatus

pub data InputResult : Type 0 where
  result_written result_uncertain : InputResult

pub record InputWriterState : Type 0 where
  pub client_id : List ℕ
  pub high_water : ℕ
  pub input_epoch : List ℕ

-- `#inputResults`, in the order of insertion.
pub lookup_result : ℕ → List (ℕ × InputResult) → Option InputResult
lookup_result key [] = none
lookup_result key ((k, r) ∷ rest) = if k == key then some r else lookup_result key rest

pub set_result : ℕ → InputResult → List (ℕ × InputResult) → List (ℕ × InputResult)
set_result key r [] = (key, r) ∷ []
set_result key r ((k, q) ∷ rest) =
    if k == key then (k, r) ∷ rest else (k, q) ∷ set_result key r rest

-- Oldest results go while there are more than `limit`.
pub evict_results : ℕ → List (ℕ × InputResult) → List (ℕ × InputResult)
evict_results limit [] = []
evict_results limit (r ∷ rest) =
    if ltb limit (suc (length rest)) then evict_results limit rest else r ∷ rest

module _ (env : Environment) where
  open env use {
    Authority, Pty, Input, apply_output, resize_authority, encode_input, valid_input,
    encode_snapshot, write, resize_pty,
  }

  pub record Session : Type 0 where
    pub authority : Authority
    pub journal : EventJournal
    pub pty : Pty
    pub session_epoch : ℕ
    pub input_dedup_entries : ℕ
    pub sent : List (List ℕ)
    pub disposed : Bool
    pub failure : Bool
    pub pty_exited : Bool
    pub event_seq : ℕ
    pub next_pty_offset : ℕ
    pub input_fence : ℕ
    pub input_writer : Option InputWriterState
    pub input_results : List (ℕ × InputResult)

  -- A step that may throw: the state it leaves, and whether it completed.
  abbrev pub Outcome : Type 0
  Outcome = Session × Bool

  abbrev pub and_then : Outcome → (Session → Outcome) → Outcome
  and_then (s, true) k = k s
  and_then (s, false) k = (s, false)

  pub write_pty : List ℕ → Session → Outcome
  write_pty bytes s =
      if length bytes == 0
      then (s, true)
      else elim (write s.pty bytes) [ none ↦ (s, false) | some p ↦ (record s { pty = p }, true) ]

  pub write_all : List (List ℕ) → Session → Outcome
  unfolding write_pty
  write_all [] s = (s, true)
  write_all (r ∷ rs) s = and_then (write_pty r s) (write_all rs)

  -- `#publish`; `sent` is what a subscriber has been handed.
  pub publish : ℕ → List ℕ → Session → Outcome
  publish now frame s = elim (append now frame s.journal) [
    | err e ↦ (s, false)
    | ok j ↦ (record s { journal = j; sent = s.sent ++ (frame ∷ []) }, true)
  ]

  abbrev pub next_frame : Session → ℕ → List ℕ → DataFrame
  next_frame s kind payload = record {
    kind = kind;
    flags = 0;
    session_epoch = s.session_epoch;
    delivery_generation = 0;
    event_seq = s.event_seq + 1;
    pty_offset = s.next_pty_offset;
    stream_id = 0;
    payload = payload;
  }

  -- The counters behind the next frame.
  abbrev pub counted : Session → ℕ → Session
  counted s moved = record s {
    event_seq = s.event_seq + 1;
    next_pty_offset = s.next_pty_offset + moved;
  }

  -- Encodes the next frame, counts it and its bytes, publishes it, and writes the replies.
  pub publish_next : ℕ → ℕ → List ℕ → ℕ → List (List ℕ) → Session → Outcome
  unfolding publish write_all
  publish_next now kind payload moved replies s =
      elim (encode_data_frame (next_frame s kind payload)) [
        | err e ↦ (record s { event_seq = s.event_seq + 1 }, false)
        | ok frame ↦ and_then (publish now frame (counted s moved)) (write_all replies)
      ]

  pub commit_chunk : ℕ → List ℕ → Session → Outcome
  unfolding publish_next
  commit_chunk now chunk s = elim (apply_output s.authority chunk) [
    | none ↦ (s, false)
    | some (a, replies) ↦
        publish_next now pty_output chunk (length chunk) replies (record s { authority = a })
  ]

  -- The loop of `#commitPtyOutput` over the chunks of at most 16 KiB, on fuel.
  pub commit_chunks : ℕ → ℕ → List ℕ → Session → Outcome
  unfolding commit_chunk
  commit_chunks fuel now [] s = (s, true)
  commit_chunks zero now (b ∷ bs) s = (s, false)
  commit_chunks (suc fuel) now (b ∷ bs) s =
      and_then (commit_chunk now (take max_pty_frame_bytes (b ∷ bs)) s)
        (commit_chunks fuel now (drop max_pty_frame_bytes (b ∷ bs)))

  -- Each chunk takes a byte at least, so the length is enough fuel.
  pub commit_pty_output : ℕ → List ℕ → Session → Outcome
  unfolding commit_chunks
  commit_pty_output now bytes s = commit_chunks (length bytes) now bytes s

  pub commit_resize : ℕ → ResizePayload → Session → Outcome
  unfolding publish_next
  commit_resize now dimensions s = elim (encode_resize_payload dimensions) [
    | err e ↦ (s, false)
    | ok payload ↦ elim (resize_authority s.authority dimensions) [
      | none ↦ (s, false)
      | some (a, replies) ↦ elim (resize_pty s.pty dimensions) [
        | none ↦ (record s { authority = a }, false)
        | some p ↦
            publish_next now resize_applied payload 0 replies (record s { authority = a; pty = p })
      ]
    ]
  ]

  pub write_input : Input → Session → Outcome
  unfolding write_pty
  write_input i s = elim (encode_input s.authority i) [
    | none ↦ (s, false)
    | some bytes ↦ write_pty bytes s
  ]

  -- What `submitKey`, `submitPaste`, `submitFocus` and `submitMouse`; `submitText`; `submitResize`
  -- pass to `#submitInput`.
  pub data Submission : Type 0 where
    submit_encoded : Input → Submission
    submit_text : List ℕ → Submission
    submit_resize : ResizePayload → Submission

  pub commit_of : ℕ → Submission → Session → Outcome
  unfolding write_input commit_resize
  commit_of now (submit_encoded i) s = write_input i s
  commit_of now (submit_text bytes) s = write_pty bytes s
  commit_of now (submit_resize dimensions) s = commit_resize now dimensions s

  pub validates : Submission → Session → Bool
  validates (submit_encoded i) s = valid_input s.authority i
  validates (submit_text bytes) s = leb (length bytes) max_text_bytes
  validates (submit_resize dimensions) s = true

  abbrev pub input_ack : SemanticInputIdentity → InputAckStatus → Session → InputAck
  input_ack identity status s = record {
    authority_event_seq = s.event_seq;
    client_input_seq = identity.client_input_seq;
    input_epoch = identity.input_epoch;
    status = status;
  }

  abbrev pub answer : SemanticInputIdentity → InputAckStatus → Session → Session × InputAck
  answer identity status s = (s, input_ack identity status s)

  abbrev pub max_of : ℕ → ℕ → ℕ
  max_of a b = if ltb a b then b else a

  pub remember_input : ℕ → InputResult → InputWriterState → Session → Session
  remember_input seq result w s = record s {
    input_results = evict_results s.input_dedup_entries (set_result seq result s.input_results);
    input_writer = some (record w { high_water = max_of w.high_water seq });
  }

  -- `#fail`: the first failure is kept, and nothing is sent afterwards.
  pub fail : Session → Session
  fail s = if s.failure || s.disposed then s else record s { failure = true }

  abbrev pub raise_fence : ℕ → Session → Session
  raise_fence fence s =
      if ltb s.input_fence fence
      then record s { input_fence = fence; input_writer = none; input_results = [] }
      else s

  abbrev pub well_formed : SemanticInputIdentity → Bool
  well_formed identity =
      not (length identity.client_id == 0)
      && leb (length identity.client_id) 128
      && (not (length identity.input_epoch == 0) && leb (length identity.input_epoch) 128)
      && ltb 0 identity.client_input_seq

  abbrev pub fresh_writer : SemanticInputIdentity → InputWriterState
  fresh_writer identity = record {
    client_id = identity.client_id;
    high_water = 0;
    input_epoch = identity.input_epoch;
  }

  -- What is remembered and answered when the commit has returned, or thrown.
  pub settle : SemanticInputIdentity → InputWriterState → Outcome → Session × InputAck
  unfolding remember_input fail
  settle identity w (s, true) =
      answer identity written (remember_input identity.client_input_seq result_written w s)
  settle identity w (s, false) =
      answer identity uncertain
        (fail (remember_input identity.client_input_seq result_uncertain w s))

  -- The input is neither known nor refused: it is validated, then committed and remembered.
  pub perform :
      ℕ → SemanticInputIdentity → Submission → InputWriterState → Session → Session × InputAck
  unfolding commit_of validates settle
  perform now identity a w s =
      if not (validates a s)
      then answer identity rejected s
      else settle identity w (commit_of now a (record s { input_writer = some w }))

  abbrev pub ahead : Option ℕ → ℕ → Bool
  ahead none seq = false
  ahead (some observed) seq = ltb seq observed

  -- The checks against the writer that the fence admits.
  pub by_writer :
      ℕ
      → SemanticInputIdentity
      → Submission
      → Option InputWriterState
      → Session
      → Session × InputAck
  unfolding perform
  by_writer now identity a none s =
      if not (identity.client_input_seq == 1)
      then answer identity rejected s
      else if ahead identity.observed_event_seq s.event_seq
      then answer identity rejected s
      else perform now identity a (fresh_writer identity) s
  by_writer now identity a (some w) s =
      if not
        (same_text w.client_id identity.client_id && same_text w.input_epoch identity.input_epoch)
      then answer identity rejected s
      else elim (lookup_result identity.client_input_seq s.input_results) [
        | some result_written ↦ answer identity duplicate s
        | some result_uncertain ↦ answer identity uncertain s
        | none ↦
            if leb identity.client_input_seq w.high_water
            then answer identity uncertain s
            else if ahead identity.observed_event_seq s.event_seq
            then answer identity rejected s
            else perform now identity a w s
      ]

  -- `#commitSubmittedInput`.
  pub commit_submitted_input : ℕ → SemanticInputIdentity → Submission → Session → Session × InputAck
  unfolding by_writer
  commit_submitted_input now identity a s =
      if s.pty_exited || s.failure
      then answer identity rejected s
      else if identity.writer_fence == 0 || ltb max_u64 identity.writer_fence
      then answer identity rejected s
      else if ltb identity.writer_fence s.input_fence
      then answer identity rejected s
      else let t = raise_fence identity.writer_fence s in
        if not (well_formed identity)
        then answer identity rejected t
        else by_writer now identity a t.input_writer t

  -- A snapshot may come with a fence, a callback that returns or throws.
  pub data SessionMessage : Type 0 where
    pty_data : List ℕ → SessionMessage
    resize_to : ResizePayload → SessionMessage
    raw_input : List ℕ → SessionMessage
    plain_input : Input → SessionMessage
    submitted : SemanticInputIdentity → Submission → SessionMessage
    snapshot : SessionMessage
    fenced_snapshot : Bool → SessionMessage

  pub record SnapshotCapture : Type 0 where
    pub bytes : List ℕ
    pub cut_event_seq : ℕ
    pub next_pty_offset : ℕ
    pub session_epoch : ℕ

  -- `#captureSnapshot`: an empty snapshot is an error.
  pub capture_snapshot : Session → Option SnapshotCapture
  capture_snapshot s = elim (encode_snapshot s.authority) [
    | none ↦ none
    | some bytes ↦
        if length bytes == 0
        then none
        else some (record {
          bytes = bytes;
          cut_event_seq = s.event_seq;
          next_pty_offset = s.next_pty_offset;
          session_epoch = s.session_epoch;
        })
  ]

  abbrev pub caught : Outcome → Session
  caught (s, true) = s
  caught (s, false) = fail s

  -- One message of `#drainQueue`, with the throw caught by `#fail`.
  pub handle : ℕ → SessionMessage → Session → Session
  unfolding commit_pty_output commit_resize write_input commit_submitted_input capture_snapshot
  handle now (pty_data bytes) s = caught (commit_pty_output now bytes s)
  handle now (resize_to dimensions) s = caught (commit_resize now dimensions s)
  handle now (raw_input bytes) s = caught (write_pty bytes s)
  handle now (plain_input i) s = caught (write_input i s)
  handle now (submitted identity a) s = (commit_submitted_input now identity a s).0
  handle now snapshot s = elim (capture_snapshot s) [ none ↦ fail s | some c ↦ s ]
  handle now (fenced_snapshot returns) s = elim (capture_snapshot s) [
    | none ↦ fail s
    | some c ↦ if returns then s else fail s
  ]

  -- `#drainQueue`: nothing runs after a failure or the disposal.
  pub drain : List (ℕ × SessionMessage) → Session → Session
  unfolding handle
  drain [] s = s
  drain ((now, m) ∷ ms) s = drain ms (if s.failure || s.disposed then s else handle now m s)
