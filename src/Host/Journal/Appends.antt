-- ===== src/Host/Journal/Appends.antt =====
-- journal.ts: the invariant of the journal over `append`.
use zhongduan.Base.{
  ℕ, ◌+◌, ◌-◌, ◌≤◌, ◌<◌, ◌≡◌, refl, sym, ap, subst, ◌∙◌, inl, inr, List, [], ◌∷◌, ◌++◌, arith,
  length, ok, true, Option, some, none, Bool-cases, if◌then◌else◌, require_inv, bind_inv,
  ok-injective, ==_iff, &&-left, &&-right, ltb, ◌==◌, map_err_inv,
}
use zhongduan.Protocol.Frame.{DataFrame, decode_data_frame, pty_output}
use zhongduan.Host.Journal.{
  JournalCursor, JournalEntry, JournalSegment, JournalOptions, EventJournal, protocol,
  seal_aged_active, last_cursor, prune_loop, prune, push_entry, store, append, retained, decoded,
  is_mutation, same_session,
}
use zhongduan.Host.Journal.Chain.{Chain, Links, after, Chain-append}
use zhongduan.Host.Journal.Invariant.{
  IsJournal, epoch_of, AllSealed, segment_bytes, retained-seal, retained-push, segment_bytes-seal,
  segment_bytes-push, seal-Sized, seal-Closed, push-Sized, push-Closed, push-sealed,
  prune-IsJournal,
}

-- The frames that `append` takes.
pub record Accepted (j : EventJournal) (encoded : List ℕ) (f : DataFrame) : Type 0 where
  pub decodes : decode_data_frame encoded ≡ ok f
  pub mutation : is_mutation f ≡ true
  pub canonical : f.delivery_generation ≡ 0
  pub neutral : f.stream_id ≡ 0
  pub seq : f.event_seq ≡ j.head_cursor.last_event_seq + 1
  pub offset : f.pty_offset ≡ j.head_cursor.next_pty_offset
  pub session : same_session j.session_epoch f.session_epoch ≡ true

pub append-Accepted :
    (now : ℕ) (encoded : List ℕ) (j j' : EventJournal)
    → append now encoded j ≡ ok j'
    → (f : DataFrame) × Accepted j encoded f × (store now encoded f j ≡ j')
unfolding append
append-Accepted now encoded j j' h =
    let (f, d, h1) = bind_inv (decoded encoded) _ h in
    let (mutation, h2) = require_inv _ _ _ h1 in
    let (neutral, h3) = require_inv _ _ _ h2 in
    let (seq, h4) = require_inv _ _ _ h3 in
    let (offset, h5) = require_inv _ _ _ h4 in
    let (session, h6) = require_inv _ _ _ h5 in
    (
      f,
      record {
        decodes = map_err_inv protocol (decode_data_frame encoded) d;
        mutation = mutation;
        canonical = (==_iff _ _).0 (&&-left _ _ neutral);
        neutral = (==_iff _ _).0 (&&-right _ _ neutral);
        seq = (==_iff _ _).0 seq;
        offset = (==_iff _ _).0 offset;
        session = session;
      },
      ok-injective h6,
    )

pub rechain :
    (o : Option ℕ) (epoch : ℕ) (c : JournalCursor) (es : List JournalEntry) (d : JournalCursor)
    → same_session o epoch ≡ true
    → (o ≡ none → es ≡ [])
    → Chain (epoch_of o) c es d
    → Chain epoch c es d
rechain none epoch c es d s fresh p =
    subst (λ (xs : List JournalEntry). Chain epoch c xs d) (sym (fresh refl)) (rw (fresh refl) at p)
rechain (some x) epoch c es d s fresh p = subst (λ (n : ℕ). Chain n c es d) ((==_iff _ _).0 s) p

abbrev pub entry_of : List ℕ → DataFrame → JournalEntry
entry_of encoded f = record {
  event_seq = f.event_seq;
  frame = encoded;
  next_pty_offset = if f.kind == pty_output then f.pty_offset + length f.payload else f.pty_offset;
}

entry_of-Links :
    (j : EventJournal) (encoded : List ℕ) (f : DataFrame)
    → Accepted j encoded f
    → Links f.session_epoch j.head_cursor (entry_of encoded f)
entry_of-Links j encoded f a = record {
  frame = f;
  decodes = a.decodes;
  mutation = a.mutation;
  canonical = a.canonical;
  neutral = a.neutral;
  session = refl;
  seq = refl;
  next_seq = a.seq;
  offset = a.offset;
  next_offset = ground (arith, a.offset);
}

-- The journal before its pruning, with the frame in it.
abbrev grown : ℕ → List ℕ → DataFrame → EventJournal → EventJournal
grown now encoded f j = record j {
  segments =
      push_entry j.options (j.total_bytes + length encoded) now (entry_of encoded f)
        (seal_aged_active j.segment_age_ms now j.segments);
  head_cursor = after (entry_of encoded f);
  session_epoch = some f.session_epoch;
  total_bytes = j.total_bytes + length encoded;
}

grown-IsJournal :
    (now : ℕ) (encoded : List ℕ) (f : DataFrame) (j : EventJournal)
    → IsJournal j
    → Accepted j encoded f
    → IsJournal (grown now encoded f j)
grown-IsJournal now encoded f j v a = record {
  chain =
      subst
        (λ (es : List JournalEntry).
          Chain f.session_epoch j.evicted_cursor es (after (entry_of encoded f)))
        (sym (
          retained-push j.options total now e sealed_now
          ∙ ap (λ (es : List JournalEntry). es ++ (e ∷ []))
              (retained-seal j.segment_age_ms now j.segments)))
        (Chain-append f.session_epoch j.evicted_cursor (retained j.segments) (e ∷ []) j.head_cursor
          (after e)
          (rechain j.session_epoch f.session_epoch j.evicted_cursor (retained j.segments)
            j.head_cursor a.session v.fresh v.chain)
          (entry_of-Links j encoded f a, refl));
  fresh = λ h. cc;
  sized =
      push-Sized j.options total now e sealed_now
        (seal-Sized j.segment_age_ms now j.segments v.sized);
  total = omega (
    arith,
    segment_bytes-push j.options total now e sealed_now,
    segment_bytes-seal j.segment_age_ms now j.segments,
    v.total,
  );
  closed =
      push-Closed j.options total now e sealed_now
        (seal-Closed j.segment_age_ms now j.segments v.closed);
}
  where
    e : JournalEntry
    e = entry_of encoded f

    total : ℕ
    total = j.total_bytes + length encoded

    sealed_now : List JournalSegment
    sealed_now = seal_aged_active j.segment_age_ms now j.segments

prune_loop-le :
    (o : JournalOptions) (now : ℕ) (ss : List JournalSegment) (total : ℕ) (evicted : JournalCursor)
    → (prune_loop o now ss total evicted).total_bytes ≤ total
unfolding prune_loop
prune_loop-le o now [] total evicted = omega arith
prune_loop-le o now (s ∷ rest) total evicted =
    ground (arith, prune_loop-le o now rest (total - s.byte_length) (last_cursor s.entries evicted))

-- Over sealed segments the loop stops within the byte limit.
prune_loop_bound :
    (o : JournalOptions) (now : ℕ) (ss : List JournalSegment) (total : ℕ) (evicted : JournalCursor)
    → AllSealed ss
    → total ≡ segment_bytes ss
    → (prune_loop o now ss total evicted).total_bytes ≤ o.max_bytes
unfolding prune_loop
prune_loop_bound o now [] total evicted z t = omega arith
prune_loop_bound o now (s ∷ rest) total evicted z t =
    ground (
      arith,
      prune_loop_bound o now rest (total - s.byte_length) (last_cursor s.entries evicted) z.1,
    )

prune_bound :
    (now : ℕ) (j : EventJournal)
    → (j.max_bytes < j.total_bytes → AllSealed j.segments)
    → j.total_bytes ≡ segment_bytes j.segments
    → (prune now j).total_bytes ≤ j.max_bytes
unfolding prune
prune_bound now j sealed t = elim (Bool-cases (ltb j.max_bytes j.total_bytes)) [
  | inl over ↦
      prune_loop_bound j.options now j.segments j.total_bytes j.evicted_cursor
        (sealed (ground arith)) t
  | inr within ↦
      ground (arith, prune_loop-le j.options now j.segments j.total_bytes j.evicted_cursor)
]

prune_frame :
    (now : ℕ) (j : EventJournal)
    → ((prune now j).head_cursor ≡ j.head_cursor) × ((prune now j).max_bytes ≡ j.max_bytes)
unfolding prune
prune_frame now j = (refl, refl)

-- A frame that `append` takes leaves a well-formed journal, whose head is the cursor behind that
-- frame and which holds at most `maxBytes` bytes.
pub append-IsJournal :
    (now : ℕ) (encoded : List ℕ) (j j' : EventJournal)
    → IsJournal j
    → append now encoded j ≡ ok j'
    → IsJournal j'
      × (j'.head_cursor.last_event_seq ≡ j.head_cursor.last_event_seq + 1)
      × (j'.total_bytes ≤ j.max_bytes)
unfolding store
append-IsJournal now encoded j j' v h =
    let (f, a, e) = append-Accepted now encoded j j' h in
    let g = grown now encoded f j in
    let grown_v = grown-IsJournal now encoded f j v a in
    subst
      (λ (k : EventJournal).
        IsJournal k
        × (k.head_cursor.last_event_seq ≡ j.head_cursor.last_event_seq + 1)
        × (k.total_bytes ≤ j.max_bytes))
      e
      (
        prune-IsJournal now g grown_v,
        ap (λ (c : JournalCursor). c.last_event_seq) (prune_frame now g).0 ∙ a.seq,
        prune_bound now g
            (push-sealed j.options (j.total_bytes + length encoded) now (entry_of encoded f) _
              (seal-Closed j.segment_age_ms now j.segments v.closed))
            grown_v.total,
      )

-- The head cursor behind a frame that was taken.
pub append_head :
    (now : ℕ) (encoded : List ℕ) (j j' : EventJournal) (f : DataFrame)
    → append now encoded j ≡ ok j'
    → decode_data_frame encoded ≡ ok f
    → j'.head_cursor ≡ after (entry_of encoded f)
unfolding store
append_head now encoded j j' f h d =
    let (g, a, e) = append-Accepted now encoded j j' h in
    let same : g ≡ f = ok-injective (sym a.decodes ∙ d) in
    ap (λ (k : EventJournal). k.head_cursor) (sym e)
    ∙ (prune_frame now (grown now encoded g j)).0
    ∙ ap (λ (x : DataFrame). after (entry_of encoded x)) same
