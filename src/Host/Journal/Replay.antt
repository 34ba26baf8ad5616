-- ===== src/Host/Journal/Replay.antt =====
-- journal.ts: `replayFrom` and `replayThrough`, against the runs of entries between two cursors.
use mathlib.Core.List.{map-append}
use zhongduan.Base.{
  ℕ, ◌≤◌, ◌≡◌, refl, sym, ap, subst, ◌∙◌, inl, inr, List, [], ◌∷◌, ◌++◌, arith, true, Option, some,
  none, Bool-cases, ◌==◌, ◌=?◌, ==_iff, Option-cases,
}
use zhongduan.Host.Journal.{
  JournalCursor, JournalEntry, JournalSegment, EventJournal, JournalReplay, replay_ok, retained,
  replayed, frames_of, between, find_entry, find_in_segments, offset_after, replay_range,
  replay_through, maintain,
}
use zhongduan.Host.Journal.Chain.{
  Chain, Passes, Chain-between, Passes-first, Passes-last, Passes-le, Passes-le_last, Passes-start,
  Passes-end, find_entry-Passes, Passes-find_entry,
}
use zhongduan.Host.Journal.Invariant.{IsJournal, epoch_of, maintain-IsJournal}

between-append :
    (lo hi : ℕ) (xs ys : List JournalEntry)
    → between lo hi (xs ++ ys) ≡ between lo hi xs ++ between lo hi ys
unfolding between
between-append lo hi [] ys = refl
between-append lo hi (x ∷ xs) ys = ground (arith, between-append lo hi xs ys)

replayed-retained :
    (lo hi : ℕ) (ss : List JournalSegment)
    → replayed lo hi ss ≡ frames_of (between lo hi (retained ss))
unfolding replayed retained
replayed-retained lo hi [] = unfold between in refl
replayed-retained lo hi (s ∷ rest) =
    ap (λ (t : List (List ℕ)). frames_of (between lo hi s.entries) ++ t)
      (replayed-retained lo hi rest)
    ∙ sym (map-append _ (between lo hi s.entries) (between lo hi (retained rest)))
    ∙ ap frames_of (sym (between-append lo hi s.entries (retained rest)))

abbrev offset_of : Option JournalEntry → Option ℕ
offset_of none = none
offset_of (some e) = some e.next_pty_offset

find_entry-append :
    (seq : ℕ) (xs ys : List JournalEntry)
    → find_entry seq (xs ++ ys)
      ≡ elim (find_entry seq xs) [ some e ↦ some e | none ↦ find_entry seq ys ]
unfolding find_entry
find_entry-append seq [] ys = refl
find_entry-append seq (x ∷ xs) ys = ground (arith, find_entry-append seq xs ys)

find_in_segments-retained :
    (seq : ℕ) (ss : List JournalSegment)
    → find_in_segments seq ss ≡ offset_of (find_entry seq (retained ss))
unfolding find_in_segments retained
find_in_segments-retained seq [] = unfold find_entry in refl
find_in_segments-retained seq (s ∷ rest) =
    ground
      (arith, find_in_segments-retained seq rest, find_entry-append seq s.entries (retained rest))

at : ℕ → ℕ → JournalCursor
at seq offset = record { last_event_seq = seq; next_pty_offset = offset }

found :
    (epoch : ℕ) (c : JournalCursor) (es : List JournalEntry) (d : JournalCursor) (seq o : ℕ)
    → Chain epoch c es d
    → offset_of (find_entry seq es) ≡ some o
    → Passes c es (record { last_event_seq = seq; next_pty_offset = o })
found epoch c es d seq o p h = elim (Option-cases (find_entry seq es)) [
  | inl e ↦ cc (rw e at h)
  | inr (x, e) ↦
      subst (λ (n : ℕ). Passes c es (record { last_event_seq = seq; next_pty_offset = n }))
        (ground arith) (find_entry-Passes epoch c es d seq x p e)
]

-- A cursor whose offset `#offsetAfter` confirms is one that the retained run passes.
offset_after-Passes :
    (j : EventJournal) (k : JournalCursor)
    → IsJournal j
    → offset_after j k.last_event_seq ≡ some k.next_pty_offset
    → Passes j.evicted_cursor (retained j.segments) k
unfolding offset_after
offset_after-Passes j k v h =
    elim (Bool-cases (k.last_event_seq == j.evicted_cursor.last_event_seq)) [
      | inl first ↦
          subst (λ (c : JournalCursor). Passes j.evicted_cursor (retained j.segments) c)
            (ground arith) (Passes-first j.evicted_cursor (retained j.segments))
      | inr later ↦ elim (Bool-cases (k.last_event_seq == j.head_cursor.last_event_seq)) [
        | inl last ↦
            subst (λ (c : JournalCursor). Passes j.evicted_cursor (retained j.segments) c)
              (ground arith)
              (Passes-last (epoch_of j.session_epoch) j.evicted_cursor (retained j.segments)
                j.head_cursor v.chain)
        | inr inside ↦
            found (epoch_of j.session_epoch) j.evicted_cursor (retained j.segments) j.head_cursor
              k.last_event_seq k.next_pty_offset v.chain
              (sym (find_in_segments-retained k.last_event_seq j.segments)
                ∙ rw (later, inside) at h)
      ]
    ]

=?_eq : (a b : Option ℕ) → (a =? b) ≡ true → a ≡ b
=?_eq none none h = refl
=?_eq none (some b) h = cc
=?_eq (some a) none h = cc
=?_eq (some a) (some b) h = ap some ((==_iff a b).0 h)

-- The frames between two cursors that the journal passes.
abbrev pub slice : EventJournal → JournalCursor → JournalCursor → List JournalEntry
slice j cursor commit = between cursor.last_event_seq commit.last_event_seq (retained j.segments)

replay_range-inv :
    (j : EventJournal) (cursor commit : JournalCursor) (frames : List (List ℕ))
    → replay_range j cursor commit ≡ replay_ok frames
    → (cursor.last_event_seq ≤ commit.last_event_seq)
      × ((offset_after j cursor.last_event_seq =? some cursor.next_pty_offset) ≡ true)
      × ((offset_after j commit.last_event_seq =? some commit.next_pty_offset) ≡ true)
      × (frames ≡ replayed cursor.last_event_seq commit.last_event_seq j.segments)
unfolding replay_range
replay_range-inv j cursor commit frames h = ground arith

pub replay_range-Chain :
    (j : EventJournal) (cursor commit : JournalCursor) (frames : List (List ℕ))
    → IsJournal j
    → replay_range j cursor commit ≡ replay_ok frames
    → (frames ≡ frames_of (slice j cursor commit))
      × Chain (epoch_of j.session_epoch) cursor (slice j cursor commit) commit
replay_range-Chain j cursor commit frames v h =
    let (order, base, last, e) = replay_range-inv j cursor commit frames h in
    (
      e ∙ replayed-retained cursor.last_event_seq commit.last_event_seq j.segments,
      Chain-between (epoch_of j.session_epoch) j.evicted_cursor (retained j.segments) j.head_cursor
          cursor commit v.chain (offset_after-Passes j cursor v (=?_eq _ _ base))
          (offset_after-Passes j commit v (=?_eq _ _ last)) order,
    )

-- A replay that succeeds consists of consecutive canonical mutations of one session that lead from
-- the cursor given to the commit given; the journal afterwards is well formed.
pub replay_through-Chain :
    (now : ℕ) (j j' : EventJournal) (cursor commit : JournalCursor) (frames : List (List ℕ))
    → IsJournal j
    → replay_through now cursor commit j ≡ (j', replay_ok frames)
    → IsJournal j'
      × (frames ≡ frames_of (slice j' cursor commit))
      × Chain (epoch_of j'.session_epoch) cursor (slice j' cursor commit) commit
unfolding replay_through
replay_through-Chain now j j' cursor commit frames v h =
    let kept =
      subst IsJournal (ap (λ (p : EventJournal × JournalReplay). p.0) h)
        (maintain-IsJournal now j v) in
    let r : replay_range j' cursor commit ≡ replay_ok frames =
      subst (λ (k : EventJournal). replay_range k cursor commit ≡ replay_ok frames)
        (ap (λ (p : EventJournal × JournalReplay). p.0) h)
        (ap (λ (p : EventJournal × JournalReplay). p.1) h) in
    let (e, c) = replay_range-Chain j' cursor commit frames kept r in (kept, e, c)

offset_after_complete :
    (j : EventJournal) (k : JournalCursor)
    → IsJournal j
    → Passes j.evicted_cursor (retained j.segments) k
    → offset_after j k.last_event_seq ≡ some k.next_pty_offset
unfolding offset_after
offset_after_complete j k v p =
    elim (Bool-cases (k.last_event_seq == j.evicted_cursor.last_event_seq)) [
      | inl first ↦ rw first (
          ap (λ (c : JournalCursor). some c.next_pty_offset)
            (Passes-start (epoch_of j.session_epoch) j.evicted_cursor (retained j.segments)
              j.head_cursor k v.chain p (sym ((==_iff _ _).0 first))))
      | inr later ↦ elim (Bool-cases (k.last_event_seq == j.head_cursor.last_event_seq)) [
        | inl last ↦
            rw (later, last)
              (ap (λ (c : JournalCursor). some c.next_pty_offset)
                (Passes-end (epoch_of j.session_epoch) j.evicted_cursor (retained j.segments)
                  j.head_cursor k v.chain p (sym ((==_iff _ _).0 last))))
        | inr inside ↦
            let (x, e, o) =
              Passes-find_entry (epoch_of j.session_epoch) j.evicted_cursor (retained j.segments)
                j.head_cursor k v.chain p
                (ground (
                  arith,
                  Passes-le (epoch_of j.session_epoch) j.evicted_cursor (retained j.segments)
                      j.head_cursor k v.chain p,
                )) in
            rw (later, inside)
              (find_in_segments-retained k.last_event_seq j.segments ∙ rw e (ap some o))
      ]
    ]

=?_refl : (a : Option ℕ) → (a =? a) ≡ true
=?_refl none = refl
=?_refl (some a) = (==_iff a a).1 refl

replay_range_complete :
    (k : EventJournal) (cursor commit : JournalCursor)
    → IsJournal k
    → Passes k.evicted_cursor (retained k.segments) cursor
    → Passes k.evicted_cursor (retained k.segments) commit
    → cursor.last_event_seq ≤ commit.last_event_seq
    → replay_range k cursor commit ≡ replay_ok (frames_of (slice k cursor commit))
unfolding replay_range
replay_range_complete k cursor commit v p q order = ground (
  arith,
  Passes-le (epoch_of k.session_epoch) k.evicted_cursor (retained k.segments) k.head_cursor cursor
      v.chain p,
  Passes-le_last (epoch_of k.session_epoch) k.evicted_cursor (retained k.segments) k.head_cursor
      commit v.chain q,
  offset_after_complete k cursor v p,
  offset_after_complete k commit v q,
  =?_refl (some cursor.next_pty_offset),
  =?_refl (some commit.next_pty_offset),
  replayed-retained cursor.last_event_seq commit.last_event_seq k.segments,
)

-- No spurious gap: between any two cursors in order that the journal still passes after its
-- pruning, `replayThrough` finds the run.
pub replay_through_complete :
    (now : ℕ) (j : EventJournal) (cursor commit : JournalCursor)
    → IsJournal j
    → let k = maintain now j in
      Passes k.evicted_cursor (retained k.segments) cursor
      → Passes k.evicted_cursor (retained k.segments) commit
      → cursor.last_event_seq ≤ commit.last_event_seq
      → replay_through now cursor commit j ≡ (k, replay_ok (frames_of (slice k cursor commit)))
unfolding replay_through
replay_through_complete now j cursor commit v p q order =
    ap (λ (r : JournalReplay). (maintain now j, r))
      (replay_range_complete (maintain now j) cursor commit (maintain-IsJournal now j v) p q order)
