-- ===== src/Browser/AckCoalescer/Pending.antt =====
-- delivery-ack-coalescer.ts: how far what is pending may stand behind what was acknowledged.
use zhongduan.Base.{
  ℕ, ◌≡◌, refl, sym, ◌∙◌, subst, inl, inr, Bool, true, false, ◌||◌, not, Option, none, some, List,
  [], ◌∷◌, ◌++◌, ◌=?◌, ok, arith, Bool-cases, Option-cases,
}
use zhongduan.Protocol.Cursor.{ReplicaCursor}
use zhongduan.Browser.AckCoalescer.{
  Callbacks, AckCoalescer, AckEffect, protocol_failure, flush, previous_of, regresses, repeats,
  flushes, start_timer, take_cursor, offer, fired, reset_acks, AckCall, acknowledge_call,
  timer_call, reset_call, run_ack, run_acks, acknowledge, fire,
}
use zhongduan.Browser.AckCoalescer.Waiting.{
  Follows, Waits, Coalesced, flush-pending, none-Coalesced, Waits-flushes, Follows-trans,
  regresses-Follows, Kept, start_timer-fields,
}

-- Whether the cursor is flushed is decided without a throw; when it is not, it waits.
decided :
    (c : Callbacks) (cursor : ReplicaCursor) (last : Option ReplicaCursor)
    → ((l : ReplicaCursor) → last ≡ some l → Follows l cursor)
    → (b : Bool) × (flushes c cursor last ≡ ok b)
      × ((b ≡ false) → (l : ReplicaCursor) × (last ≡ some l) × Waits l cursor)
unfolding flushes
decided c cursor none f = (true, refl, λ h. cc)
decided c cursor (some last) f =
    let (b, e, w) = Waits-flushes c cursor last (f last refl) in (b, e, λ h. (last, refl, w h))

take_cursor-Kept :
    (c : Callbacks) (cursor : ReplicaCursor) (s : AckCoalescer)
    → ((l : ReplicaCursor) → s.last_acknowledged_cursor ≡ some l → Follows l cursor)
    → Kept (take_cursor c cursor s)
unfolding take_cursor
take_cursor-Kept c cursor s f =
    let (b, e, w) = decided c cursor s.last_acknowledged_cursor f in
    let t : AckCoalescer = record s { pending_acknowledgement = some cursor } in
    elim (Bool-cases b) [
      | inl h ↦ (
        (flush c t).0,
        (flush c t).1,
        rw (e, h) refl,
        none-Coalesced (flush c t).0 (flush-pending c t),
      )
      | inr h ↦ (
        start_timer c cursor t,
        [],
        rw (e, h) refl,
        λ p q.
            let (pend, kept) = start_timer-fields c cursor t in
            let (l, g, waits) = w h in
            (l, kept ∙ g, subst (Waits l) (some_inj (sym pend ∙ q)) waits),
      )
    ]
  where
    some_inj : {a b : ReplicaCursor} → some a ≡ some b → a ≡ b
    some_inj e = cc

Follows-refl : (a : ReplicaCursor) → Follows a a
Follows-refl a = record {
  same_epoch = refl;
  same_generation = refl;
  events = omega arith;
  offsets = omega arith;
}

-- The cursor that a new one is compared with stands at the acknowledged one or behind it.
previous_of-Follows :
    (s : AckCoalescer)
    → Coalesced s
    → (l : ReplicaCursor) → s.last_acknowledged_cursor ≡ some l
    → (p : ReplicaCursor) × (previous_of s ≡ some p) × Follows l p
previous_of-Follows s v l q = elim (Option-cases s.pending_acknowledgement) [
  | inl n ↦ (l, rw n q, Follows-refl l)
  | inr (p, n) ↦
      let (m, e, w) = v p n in
      (p, rw n refl, subst (λ (x : ReplicaCursor). Follows x p) (some_inj (sym e ∙ q)) w.follows)
]
  where
    some_inj : {a b : ReplicaCursor} → some a ≡ some b → a ≡ b
    some_inj e = cc

offer-Kept :
    (c : Callbacks) (cursor : ReplicaCursor) (previous : Option ReplicaCursor) (s : AckCoalescer)
    → Coalesced s
    → ((l : ReplicaCursor)
        → s.last_acknowledged_cursor ≡ some l
        → (p : ReplicaCursor) × (previous ≡ some p) × Follows l p)
    → Kept (offer c cursor previous s)
unfolding offer
offer-Kept c cursor none s v f = take_cursor-Kept c cursor s (λ l q. absurd (never (f l q).1))
  where
    never : {a : ReplicaCursor} → none ≡ some a → ⊥
    never e = cc
offer-Kept c cursor (some previous) s v f = elim (Bool-cases (regresses cursor previous)) [
  | inl r ↦ (s, protocol_failure ∷ [], rw r refl, v)
  | inr r ↦ elim (Bool-cases (repeats cursor previous)) [
    | inl q ↦ (s, [], rw (r, q) refl, v)
    | inr q ↦
        let (t, x, h, k) = take_cursor-Kept c cursor s (λ l m.
          let (p, e, w) = f l m in
          Follows-trans l previous cursor (subst (Follows l) (some_inj (sym e)) w)
            (regresses-Follows cursor previous r)) in
        (t, x, rw (r, q) h, k)
  ]
]
  where
    some_inj : {a b : ReplicaCursor} → some a ≡ some b → a ≡ b
    some_inj e = cc

-- Whatever cursor is acknowledged, in a state where what is pending is small, the call does not throw,
-- and what is pending is small behind it.
pub acknowledge-Coalesced :
    (c : Callbacks) (cursor : ReplicaCursor) (s : AckCoalescer)
    → Coalesced s
    → (t : AckCoalescer) × (effects : List AckEffect) × (acknowledge c cursor s ≡ ok (t, effects))
      × Coalesced t
unfolding acknowledge
acknowledge-Coalesced c cursor s v =
    elim (Bool-cases (some cursor.delivery_generation =? c.delivery_generation)) [
      | inr e ↦ (s, [], rw e refl, v)
      | inl e ↦
          let (t, x, h, k) = offer-Kept c cursor (previous_of s) s v (previous_of-Follows s v) in
          (t, x, rw e h, k)
    ]

fired-Coalesced :
    (c : Callbacks) (timer : Option (ℕ × ℕ)) (s : AckCoalescer)
    → Coalesced s
    → Coalesced (fired c timer s).0
unfolding fired
fired-Coalesced c none s v = v
fired-Coalesced c (some (epoch, generation)) s v =
    elim (Bool-cases
      (not (c.is_connection_current epoch) || not (c.delivery_generation =? some generation))) [
        | inl e ↦ rw e v
        | inr e ↦
            let t : AckCoalescer = record s { timer = none } in
            rw e (none-Coalesced (flush c t).0 (flush-pending c t))
      ]

run_ack-Coalesced : (call : AckCall) (s : AckCoalescer) → Coalesced s → Kept (run_ack call s)
unfolding run_ack fire
run_ack-Coalesced (acknowledge_call c cursor) s v = acknowledge-Coalesced c cursor s v
run_ack-Coalesced (timer_call c) s v =
    ((fire c s).0, (fire c s).1, refl, fired-Coalesced c s.timer s v)
run_ack-Coalesced (reset_call cursor) s v =
    (reset_acks cursor s, [], refl, none-Coalesced (reset_acks cursor s) refl)

-- From a state that is `Coalesced`, whatever calls and timers come, in whatever order, none throws, and
-- what is pending at the end waits fewer than 256 events and 32 KiB behind what was acknowledged.
pub run_acks-Coalesced :
    (calls : List AckCall) (s : AckCoalescer)
    → Coalesced s
    → (t : AckCoalescer) × (effects : List AckEffect) × (run_acks calls s ≡ ok (t, effects))
      × Coalesced t
unfolding run_acks
run_acks-Coalesced [] s v = (s, [], refl, v)
run_acks-Coalesced (call ∷ calls) s v =
    let (t, x, h, k) = run_ack-Coalesced call s v in
    let (u, y, g, m) = run_acks-Coalesced calls t k in (u, x ++ y, rw (h, g) refl, m)
