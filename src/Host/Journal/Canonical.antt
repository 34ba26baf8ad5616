-- ===== src/Host/Journal/Canonical.antt =====
-- journal.ts: a journal whose entries a replica can apply, over `append` and `#maintain`.
use zhongduan.Base.{
  ℕ, ◌+◌, ◌≡◌, refl, sym, ap, subst, ◌∙◌, inl, inr, List, [], ◌∷◌, ◌++◌, length, ok, true, some,
  All, All-append, Bool-cases, ok-injective, bind_inv, ==_iff, ltb, ◌-◌, ◌||◌, ◌&&◌, not,
}
use zhongduan.Protocol.Frame.{DataFrame, decode_data_frame}
use zhongduan.Protocol.Cursor.{ReplicaCursor, AppliedMutation, apply_mutation_cursor}
use zhongduan.Host.Journal.{
  JournalCursor, JournalEntry, JournalSegment, JournalOptions, EventJournal, new_journal,
  positive_limit, last_cursor, prune_loop, prune, maintain, push_entry, store, append, retained,
  same_session, seal_aged_active,
}
use zhongduan.Host.Journal.Invariant.{
  IsJournal, new_journal-IsJournal, retained-seal, retained-push, maintain-IsJournal,
}
use zhongduan.Host.Journal.Appends.{append-Accepted, append-IsJournal, entry_of}

-- The frames of the byte lists, one by one.
abbrev pub AllDecode : List (List ℕ) → List DataFrame → Type 0
AllDecode [] [] = Unit {0}
AllDecode [] (f ∷ fs) = ⊥
AllDecode (b ∷ bs) [] = ⊥
AllDecode (b ∷ bs) (f ∷ fs) = (decode_data_frame b ≡ ok f) × AllDecode bs fs

pub AllDecode-append :
    (bs cs : List (List ℕ)) (fs gs : List DataFrame)
    → AllDecode bs fs
    → AllDecode cs gs
    → AllDecode (bs ++ cs) (fs ++ gs)
AllDecode-append [] cs [] gs h k = k
AllDecode-append [] cs (g ∷ fs) gs h k = absurd h
AllDecode-append (b ∷ bs) cs [] gs h k = absurd h
AllDecode-append (b ∷ bs) cs (f ∷ fs) gs h k = (h.0, AllDecode-append bs cs fs gs h.1 k)

-- Some replica applies what the entry holds.
pub record Applies (e : JournalEntry) : Type 0 where
  pub frame : DataFrame
  pub decodes : decode_data_frame e.frame ≡ ok frame
  pub cursor : ReplicaCursor
  pub applied : AppliedMutation
  pub applies : apply_mutation_cursor cursor frame ≡ ok applied

-- A journal of session `epoch` that can be replayed.
pub record Canonical (epoch : ℕ) (j : EventJournal) : Type 0 where
  pub valid : IsJournal j
  pub session : same_session j.session_epoch epoch ≡ true
  pub applicable : All Applies (retained j.segments)

All-behind : (P : JournalEntry → Type 0) (xs ys : List JournalEntry) → All P (xs ++ ys) → All P ys
All-behind P [] ys h = h
All-behind P (x ∷ xs) ys h = All-behind P xs ys h.1

prune_loop-All :
    (P : JournalEntry → Type 0) (o : JournalOptions) (now : ℕ) (ss : List JournalSegment)
    (total : ℕ) (evicted : JournalCursor)
    → All P (retained ss)
    → All P (retained (prune_loop o now ss total evicted).segments)
unfolding prune_loop retained
prune_loop-All P o now [] total evicted h = h
prune_loop-All P o now (s ∷ rest) total evicted h =
    elim (Bool-cases (
      not s.sealed || not (ltb o.max_age_ms (now - s.created_at)) && not (ltb o.max_bytes total))) [
        | inl stay ↦ rw stay h
        | inr go ↦ rw go (
            prune_loop-All P o now rest (total - s.byte_length) (last_cursor s.entries evicted)
              (All-behind P s.entries (retained rest) h))
      ]

pub new_journal-Canonical :
    (o : JournalOptions) (epoch : ℕ) (j : EventJournal) → new_journal o ≡ ok j → Canonical epoch j
unfolding new_journal retained
new_journal-Canonical o epoch j h =
    let v = new_journal-IsJournal o j h in
    let (a, _, h1) = bind_inv (positive_limit o.max_age_ms) _ h in
    let (b, _, h2) = bind_inv (positive_limit o.max_bytes) _ h1 in
    let (c, _, h3) = bind_inv (positive_limit o.segment_age_ms) _ h2 in
    let (d, _, h4) = bind_inv (positive_limit o.segment_bytes) _ h3 in
    subst (λ (i : EventJournal). IsJournal i → Canonical epoch i) (ok-injective h4)
      (λ w. record { valid = w; session = refl; applicable = tt }) v

pub maintain-Canonical :
    (now epoch : ℕ) (j : EventJournal) → Canonical epoch j → Canonical epoch (maintain now j)
unfolding maintain prune
maintain-Canonical now epoch j c = record {
  valid = unfold maintain in maintain-IsJournal now j c.valid;
  session = c.session;
  applicable =
      prune_loop-All Applies j.options now (seal_aged_active j.segment_age_ms now j.segments)
        j.total_bytes j.evicted_cursor
        (subst (All Applies) (sym (retained-seal j.segment_age_ms now j.segments)) c.applicable);
}

same_refl : (n : ℕ) → same_session (some n) n ≡ true
same_refl n = (==_iff n n).1 refl

pub append-Canonical :
    (now : ℕ) (encoded : List ℕ) (j j' : EventJournal) (f : DataFrame) (c : ReplicaCursor)
    (a : AppliedMutation)
    → append now encoded j ≡ ok j'
    → decode_data_frame encoded ≡ ok f
    → apply_mutation_cursor c f ≡ ok a
    → Canonical f.session_epoch j
    → Canonical f.session_epoch j'
unfolding store prune
append-Canonical now encoded j j' f c a h d k v =
    let (g, accepted, e) = append-Accepted now encoded j j' h in
    let same : g ≡ f = ok-injective (sym accepted.decodes ∙ d) in
    let x : JournalEntry = entry_of encoded g in
    let sealed = seal_aged_active j.segment_age_ms now j.segments in
    let total = j.total_bytes + length encoded in
    record {
      valid = (append-IsJournal now encoded j j' v.valid h).0;
      session =
          subst (λ (i : EventJournal). same_session i.session_epoch f.session_epoch ≡ true) e
            (subst (λ (i : DataFrame). same_session (some i.session_epoch) f.session_epoch ≡ true)
              (sym same) (same_refl f.session_epoch));
      applicable =
          subst (λ (i : EventJournal). All Applies (retained i.segments)) e
            (prune_loop-All Applies j.options now (push_entry j.options total now x sealed) total
              j.evicted_cursor
              (subst (All Applies)
                (sym (
                  retained-push j.options total now x sealed
                  ∙ ap (λ (es : List JournalEntry). es ++ (x ∷ []))
                      (retained-seal j.segment_age_ms now j.segments)))
                (All-append Applies (retained j.segments) (x ∷ []) v.applicable
                  (record { frame = f; decodes = d; cursor = c; applied = a; applies = k }, tt))));
    }
