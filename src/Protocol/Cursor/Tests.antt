-- ===== src/Protocol/Cursor/Tests.antt =====
-- A cursor over concrete frames.
use zhongduan.Base.{ℕ, ◌+◌, ◌≡◌, refl, List, [], ◌∷◌, none, ok, err}
use zhongduan.Protocol.Errors.{ProtocolErrorCode}
use zhongduan.Protocol.Frame.{DataFrame}
use zhongduan.Protocol.Cursor.{ReplicaCursor, apply_mutation_cursor}
use zhongduan.Protocol.Cursor.Stream.{apply_all, apply_all-advances, applied_twice, total_output}

abbrev start : ReplicaCursor
start = record {
  session_epoch = 7;
  delivery_generation = 2;
  last_event_seq = 299;
  next_pty_offset = 70000;
}

abbrev output : ℕ → ℕ → List ℕ → DataFrame
output seq offset bytes = record {
  kind = 1;
  flags = 0;
  session_epoch = 7;
  delivery_generation = 2;
  event_seq = seq;
  pty_offset = offset;
  stream_id = 9;
  payload = bytes;
}

abbrev first : DataFrame
first = output 300 70000 (104 ∷ 105 ∷ [])

abbrev second : DataFrame
second = output 301 70002 (33 ∷ [])

abbrev after_first : ReplicaCursor
after_first = record start { last_event_seq = 300; next_pty_offset = 70002 }

abbrev after_second : ReplicaCursor
after_second = record start { last_event_seq = 301; next_pty_offset = 70003 }

first_applies :
    apply_mutation_cursor start first ≡ ok (record { cursor = after_first; resize = none })
unfolding apply_mutation_cursor
first_applies = refl

second_applies : apply_all after_first (second ∷ []) ≡ ok after_second
unfolding apply_all apply_mutation_cursor
second_applies = refl

both_apply : apply_all start (first ∷ second ∷ []) ≡ ok after_second
unfolding apply_all apply_mutation_cursor
both_apply = refl

gap_applies : apply_mutation_cursor start second ≡ err ProtocolErrorCode.event_gap
unfolding apply_mutation_cursor
gap_applies = refl

apply_all-advances_example :
    (after_second.session_epoch ≡ start.session_epoch)
    × (after_second.delivery_generation ≡ start.delivery_generation)
    × (after_second.last_event_seq ≡ start.last_event_seq + 2)
    × (after_second.next_pty_offset ≡ start.next_pty_offset + total_output (first ∷ second ∷ []))
apply_all-advances_example = apply_all-advances (first ∷ second ∷ []) start after_second both_apply

applied_twice_example : apply_mutation_cursor after_second first ≡ err ProtocolErrorCode.event_gap
applied_twice_example =
    applied_twice start after_second first (second ∷ [])
      (record { cursor = after_first; resize = none }) first_applies second_applies
