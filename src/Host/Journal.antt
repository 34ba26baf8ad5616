-- ===== src/Host/Journal.antt =====
-- apps/host-daemon/src/journal.ts: the bounded journal of canonical mutation frames. The clock that
-- the source takes as an option is the argument `now` of each call; the limits are checked to be
-- positive by `positiveLimit`.
pub mod Chain
pub mod Invariant
pub mod Appends
pub mod Replay
pub mod Canonical
pub mod Replicas
mod Tests
use zhongduan.Base.{
  ℕ, ◌+◌, ◌-◌, Bool, true, false, ◌&&◌, ◌||◌, not, Option, none, some, List, [], ◌∷◌, ◌++◌, map,
  ltb, leb, ◌==◌, ◌=?◌, if◌then◌else◌, length, Result, ok, err, ◌>>=◌, ◌>>◌, require, map_err,
}
use zhongduan.Protocol.Errors.{ProtocolErrorCode}
use zhongduan.Protocol.Frame.{DataFrame, decode_data_frame, pty_output, resize_applied}

pub record JournalCursor : Type 0 where
  pub last_event_seq : ℕ
  pub next_pty_offset : ℕ

pub record JournalEntry : Type 0 where
  pub event_seq : ℕ
  pub frame : List ℕ
  pub next_pty_offset : ℕ

pub record JournalSegment : Type 0 where
  pub byte_length : ℕ
  pub created_at : ℕ
  pub entries : List JournalEntry
  pub sealed : Bool

pub record JournalOptions : Type 0 where
  pub max_age_ms : ℕ
  pub max_bytes : ℕ
  pub segment_age_ms : ℕ
  pub segment_bytes : ℕ

pub record EventJournal : Type 0 where
  pub options : JournalOptions
  pub open options use *
  pub segments : List JournalSegment
  pub evicted_cursor : JournalCursor
  pub head_cursor : JournalCursor
  pub session_epoch : Option ℕ
  pub total_bytes : ℕ

pub data JournalError : Type 0 where
  protocol : ProtocolErrorCode → JournalError
  not_mutation not_neutral event_gap offset_gap mixed_epochs : JournalError
  not_positive : JournalError

-- `positiveLimit`.
abbrev pub positive_limit : ℕ → Result JournalError ℕ
positive_limit value = if value == 0 then err not_positive else ok value

abbrev pub origin : JournalCursor
origin = record { last_event_seq = 0; next_pty_offset = 0 }

-- The constructor.
unfoldable pub new_journal : JournalOptions → Result JournalError EventJournal
new_journal o = do
  max_age_ms ← positive_limit o.max_age_ms
  max_bytes ← positive_limit o.max_bytes
  segment_age_ms ← positive_limit o.segment_age_ms
  segment_bytes ← positive_limit o.segment_bytes
  ok (record {
    options = record {
      max_age_ms = max_age_ms;
      max_bytes = max_bytes;
      segment_age_ms = segment_age_ms;
      segment_bytes = segment_bytes;
    };
    segments = [];
    evicted_cursor = origin;
    head_cursor = origin;
    session_epoch = none;
    total_bytes = 0;
  })

-- `#sealAgedActive`: the last segment is sealed when it is old enough.
unfoldable pub seal_aged_active : ℕ → ℕ → List JournalSegment → List JournalSegment
seal_aged_active age now [] = []
seal_aged_active age now (s ∷ []) =
    (if not s.sealed && leb age (now - s.created_at) then record s { sealed = true } else s) ∷ []
seal_aged_active age now (s ∷ t ∷ rest) = s ∷ seal_aged_active age now (t ∷ rest)

-- `entries.at(-1)`, as the cursor that the eviction of a segment leaves.
unfoldable pub last_cursor : List JournalEntry → JournalCursor → JournalCursor
last_cursor [] before = before
last_cursor (e ∷ es) before =
    last_cursor es (record { last_event_seq = e.event_seq; next_pty_offset = e.next_pty_offset })

-- What the loop of `#prune` leaves.
pub record Kept : Type 0 where
  pub segments : List JournalSegment
  pub total_bytes : ℕ
  pub evicted_cursor : JournalCursor

-- The loop of `#prune` over the oldest segments.
unfoldable pub prune_loop : JournalOptions → ℕ → List JournalSegment → ℕ → JournalCursor → Kept
prune_loop o now [] total evicted = record {
  segments = [];
  total_bytes = total;
  evicted_cursor = evicted;
}
prune_loop o now (s ∷ rest) total evicted =
    if not s.sealed || not (ltb o.max_age_ms (now - s.created_at)) && not (ltb o.max_bytes total)
    then record { segments = s ∷ rest; total_bytes = total; evicted_cursor = evicted }
    else prune_loop o now rest (total - s.byte_length) (last_cursor s.entries evicted)

unfoldable pub prune : ℕ → EventJournal → EventJournal
prune now j =
    let kept = prune_loop j.options now j.segments j.total_bytes j.evicted_cursor in
    record j {
      segments = kept.segments;
      total_bytes = kept.total_bytes;
      evicted_cursor = kept.evicted_cursor;
    }

-- `#maintain`.
unfoldable pub maintain : ℕ → EventJournal → EventJournal
maintain now j =
    prune now (record j { segments = seal_aged_active j.segment_age_ms now j.segments })

abbrev pub with_entry : JournalOptions → ℕ → JournalEntry → JournalSegment → JournalSegment
with_entry o total e s = record {
  byte_length = s.byte_length + length e.frame;
  created_at = s.created_at;
  entries = s.entries ++ (e ∷ []);
  sealed =
      s.sealed || (leb o.segment_bytes (s.byte_length + length e.frame) || ltb o.max_bytes total);
}

abbrev pub fresh_segment : ℕ → JournalSegment
fresh_segment now = record { byte_length = 0; created_at = now; entries = []; sealed = false }

-- The active segment, or a new one, takes the entry, and is sealed when it or the journal (whose
-- size is now `total`) has grown past its limit.
unfoldable pub push_entry :
    JournalOptions → ℕ → ℕ → JournalEntry → List JournalSegment → List JournalSegment
push_entry o total now e [] = with_entry o total e (fresh_segment now) ∷ []
push_entry o total now e (s ∷ []) =
    if s.sealed
    then s ∷ with_entry o total e (fresh_segment now) ∷ []
    else with_entry o total e s ∷ []
push_entry o total now e (s ∷ t ∷ rest) = s ∷ push_entry o total now e (t ∷ rest)

abbrev pub is_mutation : DataFrame → Bool
is_mutation f = f.kind == pty_output || f.kind == resize_applied

-- The state after the checks of `append`, with `frame` decoded from `encoded`.
unfoldable pub store : ℕ → List ℕ → DataFrame → EventJournal → EventJournal
store now encoded frame j =
    let next_pty_offset : ℕ =
      if frame.kind == pty_output
      then frame.pty_offset + length frame.payload
      else frame.pty_offset in
    let entry : JournalEntry = record {
      event_seq = frame.event_seq;
      frame = encoded;
      next_pty_offset = next_pty_offset;
    } in
    let total = j.total_bytes + length encoded in
    prune now (record j {
      segments =
          push_entry j.options total now entry (seal_aged_active j.segment_age_ms now j.segments);
      head_cursor = record { last_event_seq = frame.event_seq; next_pty_offset = next_pty_offset };
      session_epoch = some frame.session_epoch;
      total_bytes = total;
    })

abbrev pub same_session : Option ℕ → ℕ → Bool
same_session none epoch = true
same_session (some e) epoch = e == epoch

abbrev pub decoded : List ℕ → Result JournalError DataFrame
decoded encoded = map_err protocol (decode_data_frame encoded)

unfoldable pub append : ℕ → List ℕ → EventJournal → Result JournalError EventJournal
unfolding store
append now encoded j = do
  frame ← decoded encoded
  require (is_mutation frame) not_mutation
  require (frame.delivery_generation == 0 && frame.stream_id == 0) not_neutral
  require (frame.event_seq == j.head_cursor.last_event_seq + 1) event_gap
  require (frame.pty_offset == j.head_cursor.next_pty_offset) offset_gap
  require (same_session j.session_epoch frame.session_epoch) mixed_epochs
  ok (store now encoded frame j)

-- The entries of all segments, oldest first.
unfoldable pub retained : List JournalSegment → List JournalEntry
retained [] = []
retained (s ∷ rest) = s.entries ++ retained rest

unfoldable pub find_entry : ℕ → List JournalEntry → Option JournalEntry
find_entry seq [] = none
find_entry seq (e ∷ es) = if e.event_seq == seq then some e else find_entry seq es

unfoldable pub find_in_segments : ℕ → List JournalSegment → Option ℕ
find_in_segments seq [] = none
find_in_segments seq (s ∷ rest) = elim (find_entry seq s.entries) [
  | some e ↦ some e.next_pty_offset
  | none ↦ find_in_segments seq rest
]

-- `#offsetAfter`.
unfoldable pub offset_after : EventJournal → ℕ → Option ℕ
unfolding find_in_segments
offset_after j seq =
    if seq == j.evicted_cursor.last_event_seq
    then some j.evicted_cursor.next_pty_offset
    else if seq == j.head_cursor.last_event_seq
    then some j.head_cursor.next_pty_offset
    else find_in_segments seq j.segments

unfoldable pub between : ℕ → ℕ → List JournalEntry → List JournalEntry
between lo hi [] = []
between lo hi (e ∷ es) =
    if ltb lo e.event_seq && leb e.event_seq hi then e ∷ between lo hi es else between lo hi es

abbrev pub frames_of : List JournalEntry → List (List ℕ)
frames_of = map (λ e. e.frame)

-- `flatMap` over the segments.
unfoldable pub replayed : ℕ → ℕ → List JournalSegment → List (List ℕ)
replayed lo hi [] = []
replayed lo hi (s ∷ rest) = frames_of (between lo hi s.entries) ++ replayed lo hi rest

pub data JournalReplay : Type 0 where
  replay_ok : List (List ℕ) → JournalReplay
  replay_gap : JournalReplay

-- `#replayRange`.
unfoldable pub replay_range : EventJournal → JournalCursor → JournalCursor → JournalReplay
replay_range j cursor commit =
    if ltb cursor.last_event_seq j.evicted_cursor.last_event_seq
      || (ltb commit.last_event_seq cursor.last_event_seq
          || ltb j.head_cursor.last_event_seq commit.last_event_seq)
    then replay_gap
    else if offset_after j cursor.last_event_seq =? some cursor.next_pty_offset
        && offset_after j commit.last_event_seq =? some commit.next_pty_offset
    then replay_ok (replayed cursor.last_event_seq commit.last_event_seq j.segments)
    else replay_gap

unfoldable pub replay_through :
    ℕ → JournalCursor → JournalCursor → EventJournal → EventJournal × JournalReplay
replay_through now cursor commit j = let j' = maintain now j in (j', replay_range j' cursor commit)

unfoldable pub replay_from : ℕ → JournalCursor → EventJournal → EventJournal × JournalReplay
replay_from now cursor j = let j' = maintain now j in (j', replay_range j' cursor j'.head_cursor)

pub entries : ℕ → EventJournal → EventJournal × List (List ℕ)
unfolding retained
entries now j = let j' = maintain now j in (j', frames_of (retained j'.segments))
