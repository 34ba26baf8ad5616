-- ===== src/Relay/MessageQueue/Tally.antt =====
-- relay-message-queue.ts: what the reservations of a chain add up to, in all and for each key.
use zhongduan.Base.{
  ℕ, ◌+◌, ◌≤◌, ◌≡◌, ◌≢◌, refl, sym, ap, inl, inr, Option, none, some, List, [], ◌∷◌, ◌++◌, ◌==◌,
  ==_iff, ==_refl, ==_other, if◌then◌else◌, length, arith, Bool-cases, map_get,
}
use zhongduan.Relay.MessageQueue.{
  QueueUsage, QueueReservation, SerialQueue, no_usage, usage_or_none,
}

-- What the reservations of a key add up to.
abbrev pub tally : ℕ → List QueueReservation → QueueUsage
tally key [] = no_usage
tally key (r ∷ rs) =
    let u = tally key rs in
    if r.key == key then record { bytes = r.bytes + u.bytes; count = 1 + u.count } else u

abbrev pub total : List QueueReservation → ℕ
total [] = 0
total (r ∷ rs) = r.bytes + total rs

-- What the map holds: a key with no reservation is not in it.
abbrev pub entry : QueueUsage → Option QueueUsage
entry u = if u.count == 0 then none else some u

pub record IsQueue (q : SerialQueue) : Type 0 where
  pub sockets : (key : ℕ) → map_get key q.socket_usage ≡ entry (tally key q.chain)
  pub global : q.global_usage ≡ record { bytes = total q.chain; count = length q.chain }
  pub bytes_bound : total q.chain ≤ q.limits.global_bytes
  pub count_bound : length q.chain ≤ q.limits.global_count

pub total-append :
    (rs : List QueueReservation) (r : QueueReservation)
    → total (rs ++ (r ∷ [])) ≡ total rs + r.bytes
total-append [] r = omega arith
total-append (x ∷ rs) r = omega (arith, total-append rs r)

pub length_snoc :
    (rs : List QueueReservation) (r : QueueReservation) → length (rs ++ (r ∷ [])) ≡ length rs + 1
length_snoc [] r = omega arith
length_snoc (x ∷ rs) r = omega (arith, length_snoc rs r)

pub usage_eq : (a b : QueueUsage) → a.bytes ≡ b.bytes → a.count ≡ b.count → a ≡ b
usage_eq a b p q = λ i. record { bytes = p i; count = q i }

pub tally_same :
    (key : ℕ) (rs : List QueueReservation) (bytes : ℕ)
    → tally key (rs ++ (record { bytes = bytes; key = key } ∷ []))
      ≡ record { bytes = (tally key rs).bytes + bytes; count = (tally key rs).count + 1 }
tally_same key [] bytes = rw (==_refl key) (usage_eq _ _ (omega arith) (omega arith))
tally_same key (x ∷ rs) bytes = elim (Bool-cases (x.key == key)) [
  | inl e ↦
      let t = tally_same key rs bytes in
      rw e (
        usage_eq _ _ (omega (arith, ap (λ (u : QueueUsage). u.bytes) t))
          (omega (arith, ap (λ (u : QueueUsage). u.count) t)))
  | inr e ↦ rw e (tally_same key rs bytes)
]

pub tally_other :
    (key other : ℕ) (rs : List QueueReservation) (bytes : ℕ)
    → key ≢ other
    → tally other (rs ++ (record { bytes = bytes; key = key } ∷ [])) ≡ tally other rs
tally_other key other [] bytes ne = rw (==_other key other ne) refl
tally_other key other (x ∷ rs) bytes ne = elim (Bool-cases (x.key == other)) [
  | inl e ↦ rw (e, tally_other key other rs bytes ne) refl
  | inr e ↦ rw e (tally_other key other rs bytes ne)
]

tally_zero :
    (key : ℕ) (rs : List QueueReservation) → (tally key rs).count ≡ 0 → (tally key rs).bytes ≡ 0
tally_zero key [] h = refl
tally_zero key (x ∷ rs) h = elim (Bool-cases (x.key == key)) [
  | inl e ↦ absurd (never _ (rw e at h))
  | inr e ↦ rw e (tally_zero key rs (rw e at h))
]
  where
    never : (n : ℕ) → 1 + n ≡ 0 → ⊥
    never n e = absurd (omega (arith, e))

pub usage_or_none-entry :
    (key : ℕ) (rs : List QueueReservation) → usage_or_none (entry (tally key rs)) ≡ tally key rs
usage_or_none-entry key rs = elim (Bool-cases ((tally key rs).count == 0)) [
  | inl e ↦ rw e (
      usage_eq no_usage (tally key rs) (sym (tally_zero key rs ((==_iff _ _).0 e)))
        (sym ((==_iff _ _).0 e)))
  | inr e ↦ rw e refl
]

pub entry-some : (u : QueueUsage) (n : ℕ) → u.count ≡ n + 1 → entry u ≡ some u
entry-some u n h = rw (==_other u.count 0 (λ e. absurd (omega (arith, h, e)))) refl
