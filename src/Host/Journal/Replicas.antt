-- ===== src/Host/Journal/Replicas.antt =====
-- journal.ts: replays of a journal that can be replayed, at a replica.
use zhongduan.Base.{
  ℕ, ◌+◌, ◌≡◌, refl, sym, ap, subst, ◌∙◌, inl, inr, List, [], ◌∷◌, arith, length, ok, some, none,
  All, Bool-cases, Result-cases, ok-injective, ==_iff, ltb, leb, ◌==◌, ◌&&◌,
}
use zhongduan.Protocol.Frame.{
  DataFrame, decode_data_frame, pty_output, resize_applied, decode_resize_payload,
}
use zhongduan.Protocol.Cursor.{ReplicaCursor, AppliedMutation, advance, apply_mutation_cursor}
use zhongduan.Protocol.Cursor.Stream.{apply_all, apply-Advances}
use zhongduan.Host.Journal.{
  JournalCursor, JournalEntry, EventJournal, frames_of, prune, maintain, retained, between,
  replay_ok, replay_from, replay_through, replay_range,
}
use zhongduan.Host.Journal.Chain.{Chain, Links, after}
use zhongduan.Host.Journal.Replay.{slice, replay_range-Chain}
use zhongduan.Host.Journal.Appends.{rechain}
use zhongduan.Host.Journal.Canonical.{AllDecode, Applies, Canonical, maintain-Canonical}

-- The replica of session `epoch` at a cursor of the journal.
abbrev pub replica_at : ℕ → JournalCursor → ReplicaCursor
replica_at epoch c = record {
  session_epoch = epoch;
  delivery_generation = 0;
  last_event_seq = c.last_event_seq;
  next_pty_offset = c.next_pty_offset;
}

-- What a frame needs of its own to be applied does not depend on the cursor.
advance_anywhere :
    (c d : ReplicaCursor) (f : DataFrame) (a : AppliedMutation)
    → advance c f ≡ ok a
    → (b : AppliedMutation) × (advance d f ≡ ok b)
unfolding advance
advance_anywhere c d f a h = elim (Bool-cases (f.kind == pty_output)) [
  | inl e ↦ (
    record {
      cursor = record d {
        last_event_seq = f.event_seq;
        next_pty_offset = d.next_pty_offset + length f.payload;
      };
      resize = none;
    },
    rw e refl,
  )
  | inr e ↦ elim (Bool-cases (f.kind == resize_applied)) [
    | inr g ↦ cc (rw (e, g) at h)
    | inl g ↦ elim (Result-cases (decode_resize_payload f.payload)) [
      | inl (r, k) ↦ (
        record { cursor = record d { last_event_seq = f.event_seq }; resize = some r },
        rw (e, g, k) refl,
      )
      | inr (x, k) ↦ cc (rw (e, g, k) at h)
    ]
  ]
]

apply-advance :
    (c : ReplicaCursor) (f : DataFrame) (a : AppliedMutation)
    → apply_mutation_cursor c f ≡ ok a
    → advance c f ≡ ok a
unfolding apply_mutation_cursor
apply-advance c f a h =
    let v = apply-Advances c f a h in
    rw
      (
        (==_iff f.session_epoch c.session_epoch).1 v.epoch,
        (==_iff f.delivery_generation c.delivery_generation).1 v.generation,
        (==_iff f.event_seq (c.last_event_seq + 1)).1 v.event,
        (==_iff f.pty_offset c.next_pty_offset).1 v.offset,
      )
      at h

link-Applies :
    (epoch : ℕ) (c : JournalCursor) (e : JournalEntry)
    → Links epoch c e
    → Applies e
    → (f : DataFrame) × (a : AppliedMutation) × (decode_data_frame e.frame ≡ ok f)
      × (apply_mutation_cursor (replica_at epoch c) f ≡ ok a)
      × (a.cursor ≡ replica_at epoch (after e))
link-Applies epoch c e l p = (f, b.0, l.decodes, taken, moved)
  where
    f : DataFrame
    f = l.frame

    same : p.frame ≡ f
    same = ok-injective (sym p.decodes ∙ l.decodes)

    b : (b : AppliedMutation) × (advance (replica_at epoch c) f ≡ ok b)
    b = advance_anywhere p.cursor (replica_at epoch c) f p.applied (
        apply-advance p.cursor f p.applied (
          subst (λ (g : DataFrame). apply_mutation_cursor p.cursor g ≡ ok p.applied) same
            p.applies))

    taken : apply_mutation_cursor (replica_at epoch c) f ≡ ok b.0
    taken =
        unfold apply_mutation_cursor in
        rw
          (
            (==_iff f.session_epoch epoch).1 l.session,
            (==_iff f.delivery_generation 0).1 l.canonical,
            (==_iff f.event_seq (c.last_event_seq + 1)).1 (l.seq ∙ l.next_seq),
            (==_iff f.pty_offset c.next_pty_offset).1 l.offset,
          )
          b.1

    moved : b.0.cursor ≡ replica_at epoch (after e)
    moved =
        let v = apply-Advances (replica_at epoch c) f b.0 taken in
        ground (
          arith, v.same_epoch, v.same_generation, v.next_event, v.next_offset, l.next_seq,
          l.next_offset,
        )

-- A run of applicable entries takes a replica from its first cursor to its last.
pub run-Applies :
    (epoch : ℕ) (c : JournalCursor) (es : List JournalEntry) (d : JournalCursor)
    → Chain epoch c es d
    → All Applies es
    → (fs : List DataFrame) × AllDecode (frames_of es) fs
      × (apply_all (replica_at epoch c) fs ≡ ok (replica_at epoch d))
unfolding apply_all
run-Applies epoch c [] d p h = ([], tt, ap (λ (k : JournalCursor). ok (replica_at epoch k)) p)
run-Applies epoch c (e ∷ es) d (l, p) (x, h) =
    let (f, a, read, taken, moved) = link-Applies epoch c e l x in
    let (fs, decoded, applied) = run-Applies epoch (after e) es d p h in
    (f ∷ fs, (read, decoded), rw taken (rw moved applied))

All-between :
    (P : JournalEntry → Type 0) (lo hi : ℕ) (es : List JournalEntry)
    → All P es
    → All P (between lo hi es)
unfolding between
All-between P lo hi [] h = h
All-between P lo hi (e ∷ es) h = elim (Bool-cases (ltb lo e.event_seq && leb e.event_seq hi)) [
  | inl t ↦ rw t (h.0, All-between P lo hi es h.1)
  | inr t ↦ rw t (All-between P lo hi es h.1)
]

-- The run that a replay between two cursors hands out.
pub replay-Applies :
    (epoch : ℕ) (c d : JournalCursor) (j : EventJournal) (frames : List (List ℕ))
    → Canonical epoch j
    → replay_range j c d ≡ replay_ok frames
    → (fs : List DataFrame) × AllDecode frames fs
      × (apply_all (replica_at epoch c) fs ≡ ok (replica_at epoch d))
unfolding between
replay-Applies epoch c d j frames v h =
    let (e, p) = replay_range-Chain j c d frames v.valid h in
    let es = slice j c d in
    let lo = c.last_event_seq in
    let hi = d.last_event_seq in
    let (fs, read, a) =
      run-Applies epoch c es d
        (rechain j.session_epoch epoch c es d v.session (λ n. ap (between lo hi) (v.valid.fresh n))
          p)
        (All-between Applies lo hi (retained j.segments) v.applicable) in
    (fs, subst (λ (x : List (List ℕ)). AllDecode x fs) (sym e) read, a)

pub replay_through-Applies :
    (now epoch : ℕ) (c d : JournalCursor) (j : EventJournal) (frames : List (List ℕ))
    → Canonical epoch j
    → (replay_through now c d j).1 ≡ replay_ok frames
    → (fs : List DataFrame) × AllDecode frames fs
      × (apply_all (replica_at epoch c) fs ≡ ok (replica_at epoch d))
unfolding replay_through
replay_through-Applies now epoch c d j frames v h =
    replay-Applies epoch c d (maintain now j) frames (maintain-Canonical now epoch j v) h

pub replay_from-Applies :
    (now epoch : ℕ) (c : JournalCursor) (j : EventJournal) (frames : List (List ℕ))
    → Canonical epoch j
    → (replay_from now c j).1 ≡ replay_ok frames
    → Canonical epoch (replay_from now c j).0
      × ((replay_from now c j).0.head_cursor ≡ j.head_cursor)
      × (fs : List DataFrame) × AllDecode frames fs
      × (apply_all (replica_at epoch c) fs
          ≡ ok (replica_at epoch (replay_from now c j).0.head_cursor))
unfolding replay_from maintain prune
replay_from-Applies now epoch c j frames v h =
    let k = maintain-Canonical now epoch j v in
    let (fs, d, a) = replay-Applies epoch c j.head_cursor (maintain now j) frames k h in
    (k, refl, fs, d, a)
