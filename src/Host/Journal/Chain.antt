-- ===== src/Host/Journal/Chain.antt =====
-- A run of journal entries without gap, and what a range of sequence numbers cuts out of it.
use zhongduan.Base.{
  ℕ, ◌+◌, ◌≤◌, ◌<◌, ◌≡◌, refl, sym, ap, ◌∙◌, ◌⊎◌, inl, inr, List, [], ◌∷◌, ◌++◌, arith, length, ok,
  true, some, subst, Bool-cases, ◌==◌, ==_iff,
}
use zhongduan.Protocol.Frame.{DataFrame, decode_data_frame}
use zhongduan.Protocol.Cursor.Stream.{output_bytes}
use zhongduan.Host.Journal.{JournalCursor, JournalEntry, between, is_mutation, find_entry}

-- The cursor behind an entry.
abbrev pub after : JournalEntry → JournalCursor
after e = record { last_event_seq = e.event_seq; next_pty_offset = e.next_pty_offset }

-- `e` holds the bytes of the canonical mutation of session `epoch` that comes next behind `c`.
pub record Links (epoch : ℕ) (c : JournalCursor) (e : JournalEntry) : Type 0 where
  pub frame : DataFrame
  pub decodes : decode_data_frame e.frame ≡ ok frame
  pub mutation : is_mutation frame ≡ true
  pub canonical : frame.delivery_generation ≡ 0
  pub neutral : frame.stream_id ≡ 0
  pub session : frame.session_epoch ≡ epoch
  pub seq : frame.event_seq ≡ e.event_seq
  pub next_seq : e.event_seq ≡ c.last_event_seq + 1
  pub offset : frame.pty_offset ≡ c.next_pty_offset
  pub next_offset : e.next_pty_offset ≡ c.next_pty_offset + output_bytes frame

-- The entries lead from cursor `c` to cursor `d` without a gap.
abbrev pub Chain : ℕ → JournalCursor → List JournalEntry → JournalCursor → Type 0
Chain epoch c [] d = c ≡ d
Chain epoch c (e ∷ es) d = Links epoch c e × Chain epoch (after e) es d

pub Chain-append :
    (epoch : ℕ) (c : JournalCursor) (xs ys : List JournalEntry) (m d : JournalCursor)
    → Chain epoch c xs m
    → Chain epoch m ys d
    → Chain epoch c (xs ++ ys) d
Chain-append epoch c [] ys m d p q = rw p q
Chain-append epoch c (x ∷ xs) ys m d (l, p) q = (l, Chain-append epoch (after x) xs ys m d p q)

pub Chain-last :
    (epoch : ℕ) (c : JournalCursor) (es : List JournalEntry) (d : JournalCursor)
    → Chain epoch c es d
    → d.last_event_seq ≡ c.last_event_seq + length es
Chain-last epoch c [] d p = ground (arith, ap (λ (x : JournalCursor). x.last_event_seq) p)
Chain-last epoch c (e ∷ es) d (l, p) = omega (arith, Chain-last epoch (after e) es d p, l.next_seq)

-- `k` is a cursor that the run passes.
abbrev pub Passes : JournalCursor → List JournalEntry → JournalCursor → Type 0
Passes c [] k = c ≡ k
Passes c (e ∷ es) k = (c ≡ k) ⊎ Passes (after e) es k

pub Passes-first : (c : JournalCursor) (es : List JournalEntry) → Passes c es c
Passes-first c [] = refl
Passes-first c (e ∷ es) = inl refl

pub Passes-last :
    (epoch : ℕ) (c : JournalCursor) (es : List JournalEntry) (d : JournalCursor)
    → Chain epoch c es d
    → Passes c es d
Passes-last epoch c [] d p = p
Passes-last epoch c (e ∷ es) d (l, p) = inr (Passes-last epoch (after e) es d p)

pub Passes-le :
    (epoch : ℕ) (c : JournalCursor) (es : List JournalEntry) (d k : JournalCursor)
    → Chain epoch c es d
    → Passes c es k
    → c.last_event_seq ≤ k.last_event_seq
Passes-le epoch c [] d k p q = ground (arith, ap (λ (x : JournalCursor). x.last_event_seq) q)
Passes-le epoch c (e ∷ es) d k (l, p) (inl q) =
    ground (arith, ap (λ (x : JournalCursor). x.last_event_seq) q)
Passes-le epoch c (e ∷ es) d k (l, p) (inr q) =
    omega (arith, Passes-le epoch (after e) es d k p q, l.next_seq)

-- A cursor with the number of the first one is the first one.
pub Passes-start :
    (epoch : ℕ) (c : JournalCursor) (es : List JournalEntry) (d k : JournalCursor)
    → Chain epoch c es d
    → Passes c es k
    → c.last_event_seq ≡ k.last_event_seq
    → c ≡ k
Passes-start epoch c [] d k p q h = q
Passes-start epoch c (e ∷ es) d k (l, p) (inl q) h = q
Passes-start epoch c (e ∷ es) d k (l, p) (inr q) h =
    absurd (omega (arith, l.next_seq, Passes-le epoch (after e) es d k p q))

-- Entries whose number is at most that of the first cursor are not in the run.
between-low :
    (epoch lo hi : ℕ) (c : JournalCursor) (es : List JournalEntry) (d : JournalCursor)
    → Chain epoch c es d
    → lo ≤ c.last_event_seq
    → between lo hi es ≡ between c.last_event_seq hi es
unfolding between
between-low epoch lo hi c [] d p h = refl
between-low epoch lo hi c (e ∷ es) d (l, p) h = ground (
  arith,
  l.next_seq,
  between-low epoch lo hi (after e) es d p (omega (arith, l.next_seq)),
  between-low epoch c.last_event_seq hi (after e) es d p (omega (arith, l.next_seq)),
)

between-empty :
    (epoch lo hi : ℕ) (c : JournalCursor) (es : List JournalEntry) (d : JournalCursor)
    → Chain epoch c es d
    → hi ≤ c.last_event_seq
    → between lo hi es ≡ []
unfolding between
between-empty epoch lo hi c [] d p h = refl
between-empty epoch lo hi c (e ∷ es) d (l, p) h =
    ground
      (arith, l.next_seq, between-empty epoch lo hi (after e) es d p (omega (arith, l.next_seq)))

-- The entries between two cursors that the run passes lead from the one to the other.
pub Chain-between :
    (epoch : ℕ) (c : JournalCursor) (es : List JournalEntry) (d lo hi : JournalCursor)
    → Chain epoch c es d
    → Passes c es lo
    → Passes c es hi
    → lo.last_event_seq ≤ hi.last_event_seq
    → Chain epoch lo (between lo.last_event_seq hi.last_event_seq es) hi
unfolding between
Chain-between epoch c [] d lo hi p q r h = sym q ∙ r
Chain-between epoch c (e ∷ es) d lo hi (l, p) (inl q) (inl r) h =
    subst (λ (xs : List JournalEntry). Chain epoch lo xs hi)
      (sym (
        between-empty epoch lo.last_event_seq hi.last_event_seq c (e ∷ es) d (l, p) (ground arith)))
      (sym q ∙ r)
Chain-between epoch c (e ∷ es) d lo hi (l, p) (inl q) (inr r) h =
    subst (λ (xs : List JournalEntry). Chain epoch lo xs hi) (sym taken)
      (
        subst (λ (x : JournalCursor). Links epoch x e) q l,
        Chain-between epoch (after e) es d (after e) hi p (Passes-first (after e) es) r below,
      )
  where
    below : e.event_seq ≤ hi.last_event_seq
    below = Passes-le epoch (after e) es d hi p r

    taken :
        between lo.last_event_seq hi.last_event_seq (e ∷ es)
        ≡ e ∷ between e.event_seq hi.last_event_seq es
    taken = ground (
      arith,
      l.next_seq,
      below,
      between-low epoch lo.last_event_seq hi.last_event_seq (after e) es d p
          (ground (arith, l.next_seq)),
    )
Chain-between epoch c (e ∷ es) d lo hi (l, p) (inr q) (inl r) h =
    absurd (ground (arith, l.next_seq, Passes-le epoch (after e) es d lo p q))
Chain-between epoch c (e ∷ es) d lo hi (l, p) (inr q) (inr r) h =
    subst (λ (xs : List JournalEntry). Chain epoch lo xs hi) (sym passed)
      (Chain-between epoch (after e) es d lo hi p q r h)
  where
    passed :
        between lo.last_event_seq hi.last_event_seq (e ∷ es)
        ≡ between lo.last_event_seq hi.last_event_seq es
    passed = ground (arith, Passes-le epoch (after e) es d lo p q)

-- An entry that is found by its number is one that the run passes.
pub find_entry-Passes :
    (epoch : ℕ) (c : JournalCursor) (es : List JournalEntry) (d : JournalCursor) (seq : ℕ)
    (x : JournalEntry)
    → Chain epoch c es d
    → find_entry seq es ≡ some x
    → Passes c es (record { last_event_seq = seq; next_pty_offset = x.next_pty_offset })
unfolding find_entry
find_entry-Passes epoch c [] d seq x p h = cc
find_entry-Passes epoch c (e ∷ es) d seq x (l, p) h = elim (Bool-cases (e.event_seq == seq)) [
  | inl hit ↦ inr (
      subst (λ (k : JournalCursor). Passes (after e) es k) (ground arith)
        (Passes-first (after e) es))
  | inr miss ↦ inr (find_entry-Passes epoch (after e) es d seq x p (rw miss at h))
]

pub Passes-find_entry :
    (epoch : ℕ) (c : JournalCursor) (es : List JournalEntry) (d k : JournalCursor)
    → Chain epoch c es d
    → Passes c es k
    → c.last_event_seq < k.last_event_seq
    → (x : JournalEntry) × (find_entry k.last_event_seq es ≡ some x)
      × (x.next_pty_offset ≡ k.next_pty_offset)
unfolding find_entry
Passes-find_entry epoch c [] d k p q h = absurd (ground arith)
Passes-find_entry epoch c (e ∷ es) d k (l, p) (inl q) h = absurd (ground arith)
Passes-find_entry epoch c (e ∷ es) d k (l, p) (inr q) h =
    elim (Bool-cases (e.event_seq == k.last_event_seq)) [
      | inl hit ↦ (e, rw hit, ap (λ (t : JournalCursor). t.next_pty_offset) (same hit))
      | inr miss ↦
          let (x, found, o) =
            Passes-find_entry epoch (after e) es d k p q
              (ground (arith, Passes-le epoch (after e) es d k p q)) in
          (x, rw miss found, o)
    ]
  where
    same : (e.event_seq == k.last_event_seq) ≡ true → after e ≡ k
    same hit = Passes-start epoch (after e) es d k p q ((==_iff _ _).0 hit)

-- A cursor with the number of the last one is the last one.
pub Passes-end :
    (epoch : ℕ) (c : JournalCursor) (es : List JournalEntry) (d k : JournalCursor)
    → Chain epoch c es d
    → Passes c es k
    → d.last_event_seq ≡ k.last_event_seq
    → d ≡ k
Passes-end epoch c [] d k p q h = sym p ∙ q
Passes-end epoch c (e ∷ es) d k (l, p) (inl q) h =
    absurd (ground (arith, l.next_seq, Chain-last epoch (after e) es d p))
Passes-end epoch c (e ∷ es) d k (l, p) (inr q) h = Passes-end epoch (after e) es d k p q h

pub Passes-le_last :
    (epoch : ℕ) (c : JournalCursor) (es : List JournalEntry) (d k : JournalCursor)
    → Chain epoch c es d
    → Passes c es k
    → k.last_event_seq ≤ d.last_event_seq
Passes-le_last epoch c [] d k p q = ground (
  arith,
  ap (λ (x : JournalCursor). x.last_event_seq) p,
  ap (λ (x : JournalCursor). x.last_event_seq) q,
)
Passes-le_last epoch c (e ∷ es) d k (l, p) (inl q) =
    ground (arith, l.next_seq, Chain-last epoch (after e) es d p)
Passes-le_last epoch c (e ∷ es) d k (l, p) (inr q) = Passes-le_last epoch (after e) es d k p q
