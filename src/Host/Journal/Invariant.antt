-- ===== src/Host/Journal/Invariant.antt =====
-- journal.ts: the invariant of the journal, for the operations that only remove.
use mathlib.Core.List.{append-nil, append_assoc}
use zhongduan.Base.{
  ℕ, ◌+◌, ◌-◌, ◌<◌, ◌≡◌, refl, sym, ap, subst, ◌∙◌, inl, inr, List, [], ◌∷◌, ◌++◌, arith, length,
  ok, true, Option, some, none, All, Bool-cases, bind_inv, ok-injective, ltb, ◌||◌, ◌&&◌, not,
}
use zhongduan.Host.Journal.{
  JournalCursor, JournalEntry, JournalSegment, JournalOptions, EventJournal, Kept, new_journal,
  positive_limit, seal_aged_active, last_cursor, prune_loop, prune, maintain, push_entry, retained,
}
use zhongduan.Host.Journal.Chain.{Chain, after}

abbrev pub entry_bytes : List JournalEntry → ℕ
entry_bytes [] = 0
entry_bytes (e ∷ es) = length e.frame + entry_bytes es

abbrev pub segment_bytes : List JournalSegment → ℕ
segment_bytes [] = 0
segment_bytes (s ∷ rest) = s.byte_length + segment_bytes rest

-- Every segment knows how many bytes it holds.
abbrev pub Sized : List JournalSegment → Type 0
Sized = All (λ (s : JournalSegment). s.byte_length ≡ entry_bytes s.entries)

-- Only the last segment may be unsealed.
abbrev pub Closed : List JournalSegment → Type 0
Closed [] = Unit {0}
Closed (s ∷ []) = Unit {0}
Closed (s ∷ t ∷ rest) = (s.sealed ≡ true) × Closed (t ∷ rest)

abbrev pub epoch_of : Option ℕ → ℕ
epoch_of none = 0
epoch_of (some epoch) = epoch

pub record IsJournal (j : EventJournal) : Type 0 where
  pub chain : Chain (epoch_of j.session_epoch) j.evicted_cursor (retained j.segments) j.head_cursor
  pub fresh : j.session_epoch ≡ none → retained j.segments ≡ []
  pub sized : Sized j.segments
  pub total : j.total_bytes ≡ segment_bytes j.segments
  pub closed : Closed j.segments

pub new_journal-IsJournal :
    (o : JournalOptions) (j : EventJournal) → new_journal o ≡ ok j → IsJournal j
unfolding new_journal retained
new_journal-IsJournal o j h =
    let (a, _, h1) = bind_inv (positive_limit o.max_age_ms) _ h in
    let (b, _, h2) = bind_inv (positive_limit o.max_bytes) _ h1 in
    let (c, _, h3) = bind_inv (positive_limit o.segment_age_ms) _ h2 in
    let (d, _, h4) = bind_inv (positive_limit o.segment_bytes) _ h3 in
    subst IsJournal (ok-injective h4)
      (record { chain = refl; fresh = λ _. refl; sized = tt; total = refl; closed = tt })

module _ (age now : ℕ) where
  pub retained-seal :
      (ss : List JournalSegment) → retained (seal_aged_active age now ss) ≡ retained ss
  unfolding retained seal_aged_active
  retained-seal [] = refl
  retained-seal (s ∷ []) = ground arith
  retained-seal (s ∷ t ∷ rest) = ap (◌++◌ s.entries) (retained-seal (t ∷ rest))

  pub segment_bytes-seal :
      (ss : List JournalSegment) → segment_bytes (seal_aged_active age now ss) ≡ segment_bytes ss
  unfolding seal_aged_active
  segment_bytes-seal [] = refl
  segment_bytes-seal (s ∷ []) = ground arith
  segment_bytes-seal (s ∷ t ∷ rest) = omega (arith, segment_bytes-seal (t ∷ rest))

  pub seal-Sized : (ss : List JournalSegment) → Sized ss → Sized (seal_aged_active age now ss)
  unfolding seal_aged_active
  seal-Sized [] h = tt
  seal-Sized (s ∷ []) h = ground arith
  seal-Sized (s ∷ t ∷ rest) h = (h.0, seal-Sized (t ∷ rest) h.1)

  pub seal-Closed : (ss : List JournalSegment) → Closed ss → Closed (seal_aged_active age now ss)
  unfolding seal_aged_active
  seal-Closed [] h = tt
  seal-Closed (s ∷ []) h = tt
  seal-Closed (s ∷ t ∷ []) h = (h.0, tt)
  seal-Closed (s ∷ t ∷ u ∷ rest) h = (h.0, seal-Closed (t ∷ u ∷ rest) h.1)

pub entry_bytes-append :
    (xs ys : List JournalEntry) → entry_bytes (xs ++ ys) ≡ entry_bytes xs + entry_bytes ys
entry_bytes-append [] ys = omega arith
entry_bytes-append (x ∷ xs) ys = omega (arith, entry_bytes-append xs ys)

abbrev pub AllSealed : List JournalSegment → Type 0
AllSealed = All (λ (s : JournalSegment). s.sealed ≡ true)

append_nil : (xs ys : List JournalEntry) → xs ++ ys ≡ [] → (xs ≡ []) × (ys ≡ [])
append_nil [] ys h = (refl, h)
append_nil (x ∷ xs) ys h = cc

module _ (o : JournalOptions) (total now : ℕ) (e : JournalEntry) where
  pub retained-push :
      (ss : List JournalSegment) → retained (push_entry o total now e ss) ≡ retained ss ++ (e ∷ [])
  unfolding retained push_entry
  retained-push [] = refl
  retained-push (s ∷ []) = ground (arith, append-nil s.entries, append-nil (s.entries ++ (e ∷ [])))
  retained-push (s ∷ t ∷ rest) =
      ap (◌++◌ s.entries) (retained-push (t ∷ rest)) ∙ sym (append_assoc s.entries _ (e ∷ []))

  pub segment_bytes-push :
      (ss : List JournalSegment)
      → segment_bytes (push_entry o total now e ss) ≡ segment_bytes ss + length e.frame
  unfolding push_entry
  segment_bytes-push [] = omega arith
  segment_bytes-push (s ∷ []) = ground arith
  segment_bytes-push (s ∷ t ∷ rest) = omega (arith, segment_bytes-push (t ∷ rest))

  pub push-Sized : (ss : List JournalSegment) → Sized ss → Sized (push_entry o total now e ss)
  unfolding push_entry
  push-Sized [] h = (omega arith, tt)
  push-Sized (s ∷ []) h = ground (arith, entry_bytes-append s.entries (e ∷ []))
  push-Sized (s ∷ t ∷ rest) h = (h.0, push-Sized (t ∷ rest) h.1)

  pub push-Closed : (ss : List JournalSegment) → Closed ss → Closed (push_entry o total now e ss)
  unfolding push_entry
  push-Closed [] h = tt
  push-Closed (s ∷ []) h = ground arith
  push-Closed (s ∷ t ∷ []) h = ground arith
  push-Closed (s ∷ t ∷ u ∷ rest) h = (h.0, push-Closed (t ∷ u ∷ rest) h.1)

  -- Past the byte limit every segment is sealed.
  pub push-sealed :
      (ss : List JournalSegment)
      → Closed ss
      → o.max_bytes < total
      → AllSealed (push_entry o total now e ss)
  unfolding push_entry
  push-sealed [] h over = ground arith
  push-sealed (s ∷ []) h over = ground arith
  push-sealed (s ∷ t ∷ rest) h over = (h.0, push-sealed (t ∷ rest) h.1 over)

Chain-split :
    (epoch : ℕ) (c : JournalCursor) (xs ys : List JournalEntry) (d : JournalCursor)
    → Chain epoch c (xs ++ ys) d
    → Chain epoch (last_cursor xs c) ys d
unfolding last_cursor
Chain-split epoch c [] ys d p = p
Chain-split epoch c (x ∷ xs) ys d (l, p) = Chain-split epoch (after x) xs ys d p

-- What `#prune` keeps is still a journal.
pub record IsKept (epoch : ℕ) (head : JournalCursor) (k : Kept) : Type 0 where
  pub chain : Chain epoch k.evicted_cursor (retained k.segments) head
  pub sized : Sized k.segments
  pub total : k.total_bytes ≡ segment_bytes k.segments
  pub closed : Closed k.segments

Closed-tail : (s : JournalSegment) (ss : List JournalSegment) → Closed (s ∷ ss) → Closed ss
Closed-tail s [] h = tt
Closed-tail s (t ∷ rest) h = h.1

pub prune_loop-IsKept :
    (o : JournalOptions) (now epoch : ℕ) (head : JournalCursor) (ss : List JournalSegment)
    (total : ℕ) (evicted : JournalCursor)
    → Chain epoch evicted (retained ss) head
    → Sized ss
    → total ≡ segment_bytes ss
    → Closed ss
    → IsKept epoch head (prune_loop o now ss total evicted)
unfolding prune_loop retained
prune_loop-IsKept o now epoch head [] total evicted p z t c = record {
  chain = p;
  sized = z;
  total = t;
  closed = c;
}
prune_loop-IsKept o now epoch head (s ∷ rest) total evicted p z t c =
    elim (Bool-cases (
      not s.sealed || not (ltb o.max_age_ms (now - s.created_at)) && not (ltb o.max_bytes total))) [
        | inl stay ↦ rw stay (record { chain = p; sized = z; total = t; closed = c })
        | inr go ↦ rw go (
            prune_loop-IsKept o now epoch head rest (total - s.byte_length)
              (last_cursor s.entries evicted)
              (Chain-split epoch evicted s.entries (retained rest) head p) z.1 (omega arith)
              (Closed-tail s rest c))
      ]

-- A journal that had no entry has none afterwards.
pub prune_loop_fresh :
    (o : JournalOptions) (now : ℕ) (ss : List JournalSegment) (total : ℕ) (evicted : JournalCursor)
    → retained ss ≡ []
    → retained (prune_loop o now ss total evicted).segments ≡ []
unfolding prune_loop retained
prune_loop_fresh o now [] total evicted h = refl
prune_loop_fresh o now (s ∷ rest) total evicted h = ground (
  arith,
  prune_loop_fresh o now rest (total - s.byte_length) (last_cursor s.entries evicted),
  append_nil s.entries (retained rest) h,
)

pub prune-IsJournal : (now : ℕ) (j : EventJournal) → IsJournal j → IsJournal (prune now j)
unfolding prune
prune-IsJournal now j v =
    let k =
      prune_loop-IsKept j.options now (epoch_of j.session_epoch) j.head_cursor j.segments
        j.total_bytes j.evicted_cursor v.chain v.sized v.total v.closed in
    record {
      chain = k.chain;
      fresh =
          λ e. prune_loop_fresh j.options now j.segments j.total_bytes j.evicted_cursor (v.fresh e);
      sized = k.sized;
      total = k.total;
      closed = k.closed;
    }

-- `#maintain` keeps the invariant.
pub maintain-IsJournal : (now : ℕ) (j : EventJournal) → IsJournal j → IsJournal (maintain now j)
unfolding maintain
maintain-IsJournal now j v = prune-IsJournal now _ (record {
  chain =
      subst
        (λ (es : List JournalEntry).
          Chain (epoch_of j.session_epoch) j.evicted_cursor es j.head_cursor)
        (sym (retained-seal j.segment_age_ms now j.segments)) v.chain;
  fresh = λ e. retained-seal j.segment_age_ms now j.segments ∙ v.fresh e;
  sized = seal-Sized j.segment_age_ms now j.segments v.sized;
  total = v.total ∙ sym (segment_bytes-seal j.segment_age_ms now j.segments);
  closed = seal-Closed j.segment_age_ms now j.segments v.closed;
})
