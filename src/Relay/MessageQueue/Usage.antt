-- ===== src/Relay/MessageQueue/Usage.antt =====
-- relay-message-queue.ts: the counters of `BoundedSerialQueue` against the tasks that have not settled.
use zhongduan.Base.{
  ℕ, ◌+◌, ◌≤◌, ◌≡◌, ◌≢◌, refl, sym, ap, ◌∙◌, subst, inl, inr, false, ◌||◌, some, [], ◌∷◌, ◌++◌, ltb,
  ◌==◌, ==_iff, arith, Bool-cases, map_get, map_set, get-set, get-set_other,
}
use zhongduan.Relay.MessageQueue.{
  SocketQueueLimits, QueueUsage, QueueReservation, SerialQueue, usage_or_none, exceeds, enqueue,
  max_safe_integer,
}
use zhongduan.Relay.MessageQueue.Tally.{
  tally, entry, IsQueue, total-append, length_snoc, usage_eq, tally_same, tally_other,
  usage_or_none-entry, entry-some,
}

-- The queue that a reservation for `key` leaves.
abbrev pub queued : ℕ → ℕ → SerialQueue → SerialQueue
queued key bytes q =
    let socket = usage_or_none (map_get key q.socket_usage) in
    record q {
      global_usage = record {
        bytes = q.global_usage.bytes + bytes;
        count = q.global_usage.count + 1;
      };
      socket_usage =
          map_set key (record { bytes = socket.bytes + bytes; count = socket.count + 1 })
            q.socket_usage;
      chain = q.chain ++ (record { bytes = bytes; key = key } ∷ []);
    }

enqueue-inv :
    (key bytes : ℕ) (sl : SocketQueueLimits) (q t : SerialQueue)
    → enqueue key bytes sl q ≡ some t
    → (exceeds q.limits sl q.global_usage (usage_or_none (map_get key q.socket_usage)) bytes
        ≡ false)
      × (t ≡ queued key bytes q)
unfolding enqueue
enqueue-inv key bytes sl q t h =
    elim (Bool-cases (
      ltb max_safe_integer bytes
      || exceeds q.limits sl q.global_usage (usage_or_none (map_get key q.socket_usage)) bytes)) [
        | inl e ↦ cc (rw (e, enqueue) at h)
        | inr e ↦ (ground (arith, e), sym (some_inj (rw (e, enqueue) at h)))
      ]
  where
    some_inj : {x y : SerialQueue} → some x ≡ some y → x ≡ y
    some_inj e = cc

-- The socket's usage that the code reads is what its tasks add up to.
socket-tally :
    (key : ℕ) (q : SerialQueue)
    → IsQueue q
    → usage_or_none (map_get key q.socket_usage) ≡ tally key q.chain
socket-tally key q v = ap usage_or_none (v.sockets key) ∙ usage_or_none-entry key q.chain

queued_same :
    (key bytes : ℕ) (q : SerialQueue)
    → IsQueue q
    → map_get key (queued key bytes q).socket_usage ≡ entry (tally key (queued key bytes q).chain)
queued_same key bytes q v =
    let socket = usage_or_none (map_get key q.socket_usage) in
    let grown : QueueUsage → QueueUsage =
      λ u. record { bytes = u.bytes + bytes; count = u.count + 1 } in
    let u = tally_same key q.chain bytes in
    get-set key (grown socket) q.socket_usage
    ∙ ap (λ (x : QueueUsage). some (grown x)) (socket-tally key q v)
    ∙ ap some (sym u)
    ∙ sym (
        entry-some (tally key (queued key bytes q).chain) (tally key q.chain).count
          (ap (λ (x : QueueUsage). x.count) u))

queued-sockets :
    (key bytes : ℕ) (q : SerialQueue)
    → IsQueue q
    → (other : ℕ)
    → map_get other (queued key bytes q).socket_usage
      ≡ entry (tally other (queued key bytes q).chain)
queued-sockets key bytes q v other = elim (Bool-cases (key == other)) [
  | inr e ↦
      let ne : key ≢ other = λ p. cc (sym e ∙ (==_iff key other).1 p) in
      get-set_other key other _ q.socket_usage ne
      ∙ v.sockets other
      ∙ ap entry (sym (tally_other key other q.chain bytes ne))
  | inl e ↦
      subst
        (λ (o : ℕ).
          map_get o (queued key bytes q).socket_usage ≡ entry (tally o (queued key bytes q).chain))
        ((==_iff key other).0 e) (queued_same key bytes q v)
]

queued-IsQueue :
    (key bytes : ℕ) (q : SerialQueue)
    → IsQueue q
    → q.global_usage.count + 1 ≤ q.limits.global_count
    → q.global_usage.bytes + bytes ≤ q.limits.global_bytes
    → IsQueue (queued key bytes q)
queued-IsQueue key bytes q v c b =
    let r : QueueReservation = record { bytes = bytes; key = key } in
    let g = ap (λ (u : QueueUsage). u.bytes) v.global in
    let k = ap (λ (u : QueueUsage). u.count) v.global in
    let sum = total-append q.chain r in
    let size = length_snoc q.chain r in
    record {
      sockets = queued-sockets key bytes q v;
      global = usage_eq _ _ (omega arith) (omega arith);
      bytes_bound = omega arith;
      count_bound = omega arith;
    }

-- An `enqueue` that is taken keeps the counters and the limits, the socket's too, and puts the task
-- behind all others.
pub enqueue-IsQueue :
    (key bytes : ℕ) (sl : SocketQueueLimits) (q t : SerialQueue)
    → IsQueue q
    → enqueue key bytes sl q ≡ some t
    → IsQueue t
      × (t.chain ≡ q.chain ++ (record { bytes = bytes; key = key } ∷ []))
      × ((tally key t.chain).bytes ≤ sl.socket_bytes)
      × ((tally key t.chain).count ≤ sl.socket_count)
enqueue-IsQueue key bytes sl q t v h =
    let (e, same) = enqueue-inv key bytes sl q t h in
    let s = socket-tally key q v in
    let u = tally_same key q.chain bytes in
    subst
      (λ (x : SerialQueue).
        IsQueue x
        × (x.chain ≡ q.chain ++ (record { bytes = bytes; key = key } ∷ []))
        × ((tally key x.chain).bytes ≤ sl.socket_bytes)
        × ((tally key x.chain).count ≤ sl.socket_count))
      (sym same)
      (
        queued-IsQueue key bytes q v (ground (arith, e)) (ground (arith, e)),
        refl,
        ground (arith, e, ap (λ (x : QueueUsage). x.bytes) s, ap (λ (x : QueueUsage). x.bytes) u),
        ground (arith, e, ap (λ (x : QueueUsage). x.count) s, ap (λ (x : QueueUsage). x.count) u),
      )
