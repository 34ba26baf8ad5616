-- ===== src/Relay/MessageQueue/Settling.antt =====
-- relay-message-queue.ts: the counters of `BoundedSerialQueue` when a task settles.
use zhongduan.Base.{
  ℕ, suc, ◌+◌, ◌≡◌, ◌≢◌, refl, sym, ap, ◌∙◌, subst, inl, inr, some, List, ◌∷◌, ◌==◌, ==_iff,
  ==_refl, ==_other, if◌then◌else◌, length, arith, Bool-cases, map_get, map_set, map_delete,
  get-set, get-set_other, get-delete, get-delete_other,
}
use zhongduan.Relay.MessageQueue.{QueueUsage, QueueReservation, SerialQueue, less, release, settle}
use zhongduan.Relay.MessageQueue.Tally.{tally, total, entry, IsQueue, usage_eq, entry-some}

tally_head :
    (r : QueueReservation) (rs : List QueueReservation)
    → tally r.key (r ∷ rs)
      ≡ record { bytes = r.bytes + (tally r.key rs).bytes; count = 1 + (tally r.key rs).count }
tally_head r rs = rw (==_refl r.key) refl

tally_tail :
    (other : ℕ) (r : QueueReservation) (rs : List QueueReservation)
    → r.key ≢ other
    → tally other (r ∷ rs) ≡ tally other rs
tally_tail other r rs ne = rw (==_other r.key other ne) refl

-- The map behind a release, where `next` is what the key's other tasks add up to.
abbrev released : QueueReservation → QueueUsage → List (ℕ × QueueUsage) → List (ℕ × QueueUsage)
released r next m = if next.count == 0 then map_delete r.key m else map_set r.key next m

released_same :
    (r : QueueReservation) (next : QueueUsage) (m : List (ℕ × QueueUsage))
    → map_get r.key (released r next m) ≡ entry next
released_same r next m = elim (Bool-cases (next.count == 0)) [
  | inl e ↦ rw e (get-delete r.key m)
  | inr e ↦ rw e (get-set r.key next m)
]

released_other :
    (r : QueueReservation) (next : QueueUsage) (m : List (ℕ × QueueUsage)) (other : ℕ)
    → r.key ≢ other
    → map_get other (released r next m) ≡ map_get other m
released_other r next m other ne = elim (Bool-cases (next.count == 0)) [
  | inl e ↦ rw e (get-delete_other r.key other m ne)
  | inr e ↦ rw e (get-set_other r.key other next m ne)
]

-- The queue behind the settling of its first task.
abbrev settled : QueueReservation → List QueueReservation → SerialQueue → SerialQueue
settled r rs q = record q {
  global_usage = less q.global_usage r;
  socket_usage = released r (tally r.key rs) q.socket_usage;
  chain = rs;
}

release-present :
    (r : QueueReservation) (q : SerialQueue) (u next : QueueUsage)
    → map_get r.key q.socket_usage ≡ some u
    → less u r ≡ next
    → release r q
      ≡ some (record q {
        global_usage = less q.global_usage r;
        socket_usage = released r next q.socket_usage;
      })
unfolding release
release-present r q u next h e =
    rw (h, release)
      (ap
        (λ (n : QueueUsage). some (record q {
          global_usage = less q.global_usage r;
          socket_usage = released r n q.socket_usage;
        }))
        e)

settle-release :
    (r : QueueReservation) (rs : List QueueReservation) (q : SerialQueue)
    → q.chain ≡ r ∷ rs
    → settle q ≡ release r (record q { chain = rs })
unfolding settle
settle-release r rs q c = rw (c, settle) refl

release-settled :
    (r : QueueReservation) (rs : List QueueReservation) (q : SerialQueue)
    → q.chain ≡ r ∷ rs
    → IsQueue q
    → settle q ≡ some (settled r rs q)
release-settled r rs q c v =
    settle-release r rs q c
    ∙ release-present r (record q { chain = rs }) u (tally r.key rs) present
        (usage_eq (less u r) (tally r.key rs) (omega arith) (omega arith))
  where
    u : QueueUsage
    u = record { bytes = r.bytes + (tally r.key rs).bytes; count = 1 + (tally r.key rs).count }

    present : map_get r.key q.socket_usage ≡ some u
    present =
        v.sockets r.key
        ∙ ap (λ (x : List QueueReservation). entry (tally r.key x)) c
        ∙ ap entry (tally_head r rs)
        ∙ entry-some u (tally r.key rs).count (omega arith)

settled-IsQueue :
    (r : QueueReservation) (rs : List QueueReservation) (q : SerialQueue)
    → q.chain ≡ r ∷ rs
    → IsQueue q
    → IsQueue (settled r rs q)
settled-IsQueue r rs q c v = record {
  sockets = λ other. elim (Bool-cases (r.key == other)) [
    | inl e ↦
        subst
          (λ (o : ℕ). map_get o (released r (tally r.key rs) q.socket_usage) ≡ entry (tally o rs))
          ((==_iff r.key other).0 e) (released_same r (tally r.key rs) q.socket_usage)
    | inr e ↦
        let ne : r.key ≢ other = λ p. cc (sym e ∙ (==_iff r.key other).1 p) in
        released_other r (tally r.key rs) q.socket_usage other ne
        ∙ v.sockets other
        ∙ ap (λ (x : List QueueReservation). entry (tally other x)) c
        ∙ ap entry (tally_tail other r rs ne)
  ];
  global = usage_eq _ _ (omega (arith, g, t)) (omega (arith, k, l));
  bytes_bound = omega (arith, v.bytes_bound, t);
  count_bound = omega (arith, v.count_bound, l);
}
  where
    g : q.global_usage.bytes ≡ total q.chain
    g = ap (λ (u : QueueUsage). u.bytes) v.global

    k : q.global_usage.count ≡ length q.chain
    k = ap (λ (u : QueueUsage). u.count) v.global

    t : total q.chain ≡ r.bytes + total rs
    t = ap total c

    l : length q.chain ≡ suc (length rs)
    l = ap length c

-- The first task settles: its release is never a missing one, it takes exactly its own bytes and
-- count off, and the tasks behind it keep their order.
pub settle-IsQueue :
    (r : QueueReservation) (rs : List QueueReservation) (q : SerialQueue)
    → q.chain ≡ r ∷ rs
    → IsQueue q
    → (t : SerialQueue) × (settle q ≡ some t) × IsQueue t × (t.chain ≡ rs)
settle-IsQueue r rs q c v =
    (settled r rs q, release-settled r rs q c v, settled-IsQueue r rs q c v, refl)
