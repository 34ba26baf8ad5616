-- ===== src/Host/Journal/Tests.antt =====
-- A journal at concrete inputs.
use zhongduan.Base.{ℕ, ◌+◌, ◌≤◌, ◌≡◌, refl, inl, inr, List, [], ◌∷◌, none, ok, err, arith}
use zhongduan.Protocol.Frame.{DataFrame, layout, decode_data_frame}
use zhongduan.Host.Journal.{
  JournalCursor, JournalOptions, EventJournal, event_gap, origin, new_journal, store, append,
  maintain, retained, frames_of, replay_through, replay_ok, replay_gap, replay_range, offset_after,
  find_in_segments, find_entry, replayed, between, prune, prune_loop, push_entry, seal_aged_active,
}
use zhongduan.Host.Journal.Chain.{Chain}
use zhongduan.Host.Journal.Invariant.{IsJournal, epoch_of, new_journal-IsJournal}
use zhongduan.Host.Journal.Appends.{append-IsJournal}
use zhongduan.Host.Journal.Replay.{slice, replay_through-Chain, replay_through_complete}

abbrev limits : JournalOptions
limits = record { max_age_ms = 1000; max_bytes = 110; segment_age_ms = 50; segment_bytes = 60 }

abbrev start : EventJournal
start = record {
  options = limits;
  segments = [];
  evicted_cursor = origin;
  head_cursor = origin;
  session_epoch = none;
  total_bytes = 0;
}

abbrev output : ℕ → ℕ → List ℕ → DataFrame
output seq offset bytes = record {
  kind = 1;
  flags = 0;
  session_epoch = 7;
  delivery_generation = 0;
  event_seq = seq;
  pty_offset = offset;
  stream_id = 0;
  payload = bytes;
}

abbrev first : DataFrame
first = output 1 0 (104 ∷ 105 ∷ [])

abbrev second : DataFrame
second = output 2 2 (33 ∷ [])

abbrev third : DataFrame
third = output 3 3 (10 ∷ [])

abbrev one : EventJournal
one = store 10 (layout first) first start

abbrev two : EventJournal
two = store 20 (layout second) second one

abbrev three : EventJournal
three = store 30 (layout third) third two

start_runs : new_journal limits ≡ ok start
unfolding new_journal
start_runs = refl

one_runs : append 10 (layout first) start ≡ ok one
unfolding append decode_data_frame prune
one_runs = refl

two_runs : append 20 (layout second) one ≡ ok two
unfolding append decode_data_frame prune
two_runs = refl

three_runs : append 30 (layout third) two ≡ ok three
unfolding append decode_data_frame prune
three_runs = refl

-- The third frame passes the byte limit: the first segment, with two frames, goes.
three_evicts : frames_of (retained three.segments) ≡ layout third ∷ []
unfolding store retained prune prune_loop push_entry seal_aged_active
three_evicts = refl

gap_runs : append 40 (layout second) two ≡ err event_gap
unfolding append decode_data_frame prune
gap_runs = refl

start-IsJournal : IsJournal start
start-IsJournal = new_journal-IsJournal limits start start_runs

two-IsJournal : IsJournal two
two-IsJournal =
    (append-IsJournal 20 (layout second) one two
      (append-IsJournal 10 (layout first) start one start-IsJournal one_runs).0 two_runs).0

abbrev cursor : ℕ → ℕ → JournalCursor
cursor seq offset = record { last_event_seq = seq; next_pty_offset = offset }

tail_replays :
    replay_through 25 (cursor 1 2) (cursor 2 3) two
    ≡ (maintain 25 two, replay_ok (layout second ∷ []))
unfolding replay_through replay_range offset_after find_in_segments find_entry replayed between
    maintain prune prune_loop store push_entry seal_aged_active
tail_replays = refl

wrong_offset_replays : (replay_through 25 (cursor 1 1) (cursor 2 3) two).1 ≡ replay_gap
unfolding replay_through replay_range offset_after find_in_segments find_entry replayed between
    maintain prune prune_loop store push_entry seal_aged_active
wrong_offset_replays = refl

append-IsJournal_example :
    IsJournal three
    × (three.head_cursor.last_event_seq ≡ two.head_cursor.last_event_seq + 1)
    × (three.total_bytes ≤ two.max_bytes)
append-IsJournal_example = append-IsJournal 30 (layout third) two three two-IsJournal three_runs

replay_through-Chain_example :
    IsJournal (maintain 25 two)
    × ((layout second ∷ []) ≡ frames_of (slice (maintain 25 two) (cursor 1 2) (cursor 2 3)))
    × Chain
        (epoch_of (maintain 25 two).session_epoch)
        (cursor 1 2)
        (slice (maintain 25 two) (cursor 1 2) (cursor 2 3))
        (cursor 2 3)
replay_through-Chain_example =
    replay_through-Chain 25 two (maintain 25 two) (cursor 1 2) (cursor 2 3) (layout second ∷ [])
      two-IsJournal tail_replays

replay_through_complete_example :
    replay_through 25 origin (cursor 2 3) two
    ≡ (maintain 25 two, replay_ok (frames_of (slice (maintain 25 two) origin (cursor 2 3))))
unfolding maintain store retained prune prune_loop push_entry seal_aged_active
replay_through_complete_example =
    replay_through_complete 25 two origin (cursor 2 3) two-IsJournal (inl refl) (inr (inr refl))
      (omega arith)
