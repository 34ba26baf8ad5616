-- ===== src/Host/Session/Tests.antt =====
-- Runs of the session's model, and the properties at concrete sessions.
use zhongduan.Base.{
  ℕ, ◌+◌, arith, ◌≡◌, ok, refl, true, false, none, some, List, [], ◌∷◌, length, drop,
}
use zhongduan.Host.Session.{
  Environment, Session, SemanticInputIdentity, written, submit_text, submit_encoded, SessionMessage,
  pty_data, resize_to, submitted, snapshot, commit_submitted_input, commit_chunks, drain,
  lookup_result, set_result, result_written, result_uncertain, evict_results,
}
use zhongduan.Protocol.Cursor.Stream.{apply_all}
use zhongduan.Host.Session.Once.{written_once, Refused}
use zhongduan.Host.Session.Stream.{Published, blank}
use zhongduan.Host.Journal.Canonical.{new_journal-Canonical}
use zhongduan.Host.Journal
use zhongduan.Host.Journal.{
  new_journal, append, prune_loop, seal_aged_active, push_entry, replay_from, replay_through,
  replay_ok, replay_range, maintain, prune, offset_after, find_entry, between,
}
use zhongduan.Protocol.Frame.{encode_data_frame, encode_resize_payload, decode_data_frame}
use zhongduan.Host.Session.Start.{new_session, new_session-Sound}
use zhongduan.Host.Session.Attach.{ReplayCursor, subscribe, attached, Follows, subscribe-Follows}
use zhongduan.Host.Session.Attach.{replay_commits}
use zhongduan.Host.Session.Replays.{Leads, replay_commits-Leads}
use zhongduan.Host.Session.Calls.{
  Actor, SessionCall, enqueue_call, write_call, submit_call, subscribe_call, exit_call,
  dispose_call, run_session, exited, PtyExit,
}
use zhongduan.Host.Session.Calls.Final.{stopped-Still}
use zhongduan.Host.Session.Calls.Still.{stopped, Still, AllRefused}
use zhongduan.Host.Session.Chunks.{Cut, commit_pty_output-Cut}
use zhongduan.Host.Session.{commit_pty_output}
use zhongduan.Host.Session.Follow.{Sound, whole, drain-Sound}

-- A terminal that answers nothing, and a PTY that keeps what was written.
abbrev echo : Environment
echo = record {
  Authority = ℕ;
  Pty = List (List ℕ);
  Input = List ℕ;
  apply_output = λ a bytes. some (a + length bytes, []);
  resize_authority = λ a r. some (a, []);
  encode_input = λ a i. some i;
  valid_input = λ a i. true;
  encode_snapshot = λ a. some (a ∷ []);
  write = λ p bytes. some (bytes ∷ p);
  resize_pty = λ p r. some p;
}

abbrev started : Session echo
started = record {
  authority = 0;
  journal = record {
    options = record {
      max_bytes = 4096;
      max_age_ms = 1000;
      segment_age_ms = 100;
      segment_bytes = 1024;
    };
    segments = [];
    evicted_cursor = record { last_event_seq = 0; next_pty_offset = 0 };
    head_cursor = record { last_event_seq = 0; next_pty_offset = 0 };
    session_epoch = none;
    total_bytes = 0;
  };
  pty = [];
  session_epoch = 7;
  input_dedup_entries = 4;
  sent = [];
  disposed = false;
  failure = false;
  pty_exited = false;
  event_seq = 0;
  next_pty_offset = 0;
  input_fence = 0;
  input_writer = none;
  input_results = [];
}

abbrev identity : ℕ → SemanticInputIdentity
identity seq = record {
  client_id = 99 ∷ [];
  client_input_seq = seq;
  input_epoch = 101 ∷ [];
  observed_event_seq = none;
  writer_fence = 3;
}

abbrev messages : List (ℕ × SessionMessage echo)
messages =
    (1, pty_data (104 ∷ 105 ∷ []))
    ∷ (2, submitted (identity 2) (submit_text (106 ∷ [])))
    ∷ (3, resize_to (record { cols = 80; rows = 24; width_px = 0; height_px = 0 }))
    ∷ (4, snapshot)
    ∷ []

set_result_run :
    set_result 3 result_written ((1, result_written) ∷ (3, result_uncertain) ∷ [])
    ≡ (1, result_written) ∷ (3, result_written) ∷ []
unfolding set_result
set_result_run = refl

evict_results_run :
    evict_results 1 ((1, result_written) ∷ (3, result_uncertain) ∷ []) ≡ (3, result_uncertain) ∷ []
unfolding evict_results
evict_results_run = refl

first_written :
    (commit_submitted_input echo 0 (identity 1) (submit_text (104 ∷ [])) started).1.status ≡ written
unfolding commit_submitted_input
first_written = refl

drain_run :
    (drain echo
      ((2, submitted (identity 1) (submit_text (106 ∷ [])))
        ∷ (3, submitted (identity 1) (submit_text (106 ∷ [])))
        ∷ [])
      started).pty
    ≡ (106 ∷ []) ∷ []
unfolding drain lookup_result evict_results set_result
drain_run = refl

written_once_example :
    let t =
      drain echo messages
        (commit_submitted_input echo 0 (identity 1) (submit_text (104 ∷ [])) started).0 in
    Refused echo t (commit_submitted_input echo 9 (identity 1) (submit_encoded (120 ∷ [])) t)
written_once_example =
    written_once echo 0 9 (identity 1) (identity 1) (submit_text (104 ∷ []))
      (submit_encoded (120 ∷ [])) messages started first_written refl refl

journal_made : new_journal started.journal.options ≡ ok started.journal
unfolding new_journal
journal_made = refl

started-Published : Published echo [] (blank 7) started
unfolding apply_all
started-Published = record {
  later = [];
  sent = refl;
  frames = [];
  decoded = tt;
  applied = refl;
  head = refl;
  journal = new_journal-Canonical started.journal.options 7 started.journal journal_made;
}

drain-Sound_example : Sound echo [] (blank 7) (drain echo messages started)
drain-Sound_example = drain-Sound echo [] (blank 7) messages started (whole refl started-Published)

output_run : (commit_pty_output echo 0 (104 ∷ 105 ∷ []) started).1 ≡ true
unfolding commit_pty_output encode_data_frame append decode_data_frame
output_run = refl

commit_pty_output-Cut_example :
    Cut echo started (104 ∷ 105 ∷ []) (commit_pty_output echo 0 (104 ∷ 105 ∷ []) started)
    × (commit_chunks echo 9 0 (104 ∷ 105 ∷ []) started
        ≡ commit_pty_output echo 0 (104 ∷ 105 ∷ []) started)
commit_pty_output-Cut_example =
    commit_pty_output-Cut echo 9 0 (104 ∷ 105 ∷ []) started (omega arith)

session_made : new_session echo 0 started.journal [] 7 (some 4) ≡ some started
unfolding new_session
session_made = refl

epoch_zero : new_session echo 0 started.journal [] 0 none ≡ none
unfolding new_session
epoch_zero = refl

new_session-Sound_example : Sound echo [] (blank 7) (drain echo messages started)
new_session-Sound_example =
    new_session-Sound echo started.journal.options 0 started.journal [] 7 (some 4) started messages
      journal_made session_made

-- What the session is when a subscriber comes, and the cursor behind its first frame.
abbrev reached_session : Session echo
reached_session = drain echo messages started

abbrev behind_first : ReplayCursor
behind_first = record {
  session_epoch = 7;
  position = record { last_event_seq = 1; next_pty_offset = 2 };
}

abbrev replayed_frames : List (List ℕ)
replayed_frames = drop 1 reached_session.sent

live : reached_session.failure ≡ false
unfolding drain encode_data_frame encode_resize_payload append decode_data_frame prune_loop
    seal_aged_active push_entry prune
live = refl

attached_at :
    subscribe echo 5 (some behind_first) reached_session
    ≡ ((subscribe echo 5 (some behind_first) reached_session).0, attached replayed_frames)
unfolding subscribe drain encode_data_frame encode_resize_payload append decode_data_frame
    prune_loop seal_aged_active push_entry replay_from replay_range maintain prune offset_after
    find_entry Journal.replayed between
attached_at = refl

subscribe-Follows_example : Follows echo behind_first replayed_frames reached_session.sent (
    drain echo
      ((6, pty_data (33 ∷ [])) ∷ [])
      (subscribe echo 5 (some behind_first) reached_session).0)
subscribe-Follows_example =
    subscribe-Follows echo 5 behind_first started.journal.options 0 started.journal [] 7 (some 4)
      started (subscribe echo 5 (some behind_first) reached_session).0 replayed_frames messages
      ((6, pty_data (33 ∷ [])) ∷ []) journal_made session_made live attached_at

abbrev actor : Actor echo
actor = record { session = started; exit = none }

abbrev until_disposal : List (SessionCall echo)
until_disposal =
    submit_call 1 (identity 1) (submit_text (106 ∷ []))
    ∷ exit_call 0 0
    ∷ write_call 3 (pty_data (104 ∷ []))
    ∷ dispose_call
    ∷ []

abbrev after_disposal : List (SessionCall echo)
after_disposal =
    enqueue_call 4 (pty_data (104 ∷ []))
    ∷ submit_call 5 (identity 2) (submit_text (107 ∷ []))
    ∷ subscribe_call 6 (some behind_first)
    ∷ dispose_call
    ∷ []

disposed_run :
    ((run_session echo until_disposal actor).0.exit ≡ some (exited 0 0))
    × (stopped echo (run_session echo until_disposal actor).0 ≡ true)
    × ((run_session echo until_disposal actor).0.session.pty ≡ (106 ∷ []) ∷ [])
unfolding run_session commit_submitted_input
disposed_run = (refl, refl, refl)

stopped-Still_example :
    let b = (run_session echo until_disposal actor).0 in
    ((e : PtyExit) × (b.exit ≡ some e))
    × Still echo b (run_session echo after_disposal b).0
    × AllRefused echo after_disposal (run_session echo after_disposal b).1
stopped-Still_example = stopped-Still echo until_disposal after_disposal actor refl disposed_run.1

abbrev behind_second : ReplayCursor
behind_second = record {
  session_epoch = 7;
  position = record { last_event_seq = 2; next_pty_offset = 2 };
}

replayed_between : replay_commits echo 5 behind_first behind_second reached_session ≡ (
  (replay_commits echo 5 behind_first behind_second reached_session).0,
  replay_ok replayed_frames,
)
unfolding replay_commits drain encode_data_frame encode_resize_payload append decode_data_frame
    prune_loop seal_aged_active push_entry replay_through replay_range maintain prune offset_after
    find_entry Journal.replayed between
replayed_between = refl

replay_commits-Leads_example : Leads echo behind_first behind_second replayed_frames
replay_commits-Leads_example =
    replay_commits-Leads echo 5 behind_first behind_second started.journal.options 0 started.journal
      [] 7 (some 4) started (replay_commits echo 5 behind_first behind_second reached_session).0
      replayed_frames messages journal_made session_made live replayed_between
