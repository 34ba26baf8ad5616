-- ===== src/Relay/MessageQueue.antt =====
-- apps/terminal-cloud/src/worker/relay-message-queue.ts: `BoundedSerialQueue`, which runs tasks one
-- behind the other and bounds what is queued, in all and for each socket. A key is an object of the
-- source and a number here; a byte count is a natural number, so the tests for one that is not are
-- without counterpart, except that for a safe integer.
pub mod Tally
pub mod Usage
pub mod Settling
mod Tests
use zhongduan.Base.{
  ℕ, ◌+◌, ◌-◌, ◌*◌, ◌^◌, Bool, true, false, ◌||◌, Option, none, some, List, [], ◌∷◌, ◌++◌, ltb,
  ◌==◌, if◌then◌else◌, map_get, map_set, map_delete,
}

pub record QueueLimits : Type 0 where
  pub global_bytes : ℕ
  pub global_count : ℕ
  pub socket_bytes : ℕ
  pub socket_count : ℕ

pub record SocketQueueLimits : Type 0 where
  pub socket_bytes : ℕ
  pub socket_count : ℕ

pub record QueueUsage : Type 0 where
  pub bytes : ℕ
  pub count : ℕ

pub record QueueReservation : Type 0 where
  pub bytes : ℕ
  pub key : ℕ

abbrev pub relay_message_queue_limits : QueueLimits
relay_message_queue_limits = record {
  global_bytes = 32 * 1024 * 1024;
  global_count = 2048;
  socket_bytes = 16 * 1024 * 1024;
  socket_count = 8;
}

abbrev pub max_safe_integer : ℕ
max_safe_integer = 2 ^ 53 - 1

-- The class; `chain` is what hangs on `#tail`: the reservations of the tasks that have not settled, the
-- running one first.
pub record SerialQueue : Type 0 where
  pub limits : QueueLimits
  pub socket_usage : List (ℕ × QueueUsage)
  pub global_usage : QueueUsage
  pub chain : List QueueReservation

abbrev pub no_usage : QueueUsage
no_usage = record { bytes = 0; count = 0 }

abbrev pub usage_or_none : Option QueueUsage → QueueUsage
usage_or_none none = no_usage
usage_or_none (some u) = u

abbrev pub new_queue : QueueLimits → SerialQueue
new_queue limits = record {
  limits = limits;
  socket_usage = [];
  global_usage = no_usage;
  chain = [];
}

-- Whether a reservation would exceed a limit.
abbrev pub exceeds : QueueLimits → SocketQueueLimits → QueueUsage → QueueUsage → ℕ → Bool
exceeds limits socket_limits global socket bytes =
    ltb limits.global_count (global.count + 1)
    || ltb limits.global_bytes (global.bytes + bytes)
    || ltb socket_limits.socket_count (socket.count + 1)
    || ltb socket_limits.socket_bytes (socket.bytes + bytes)

-- `#reserve`.
pub reserve : ℕ → ℕ → SocketQueueLimits → SerialQueue → Option (SerialQueue × QueueReservation)
reserve key bytes socket_limits q =
    let socket = usage_or_none (map_get key q.socket_usage) in
    if ltb max_safe_integer bytes || exceeds q.limits socket_limits q.global_usage socket bytes
    then none
    else some (
      record q {
        global_usage = record {
          bytes = q.global_usage.bytes + bytes;
          count = q.global_usage.count + 1;
        };
        socket_usage =
            map_set key (record { bytes = socket.bytes + bytes; count = socket.count + 1 })
              q.socket_usage;
      },
      record { bytes = bytes; key = key },
    )

-- `enqueue`: nothing is queued where nothing could be reserved.
unfoldable pub enqueue : ℕ → ℕ → SocketQueueLimits → SerialQueue → Option SerialQueue
unfolding reserve
enqueue key bytes socket_limits q = elim (reserve key bytes socket_limits q) [
  | none ↦ none
  | some (t, reservation) ↦ some (record t { chain = t.chain ++ (reservation ∷ []) })
]

abbrev pub less : QueueUsage → QueueReservation → QueueUsage
less u r = record { bytes = u.bytes - r.bytes; count = u.count - 1 }

-- `#release`: `none` is the error "queue reservation is missing".
pub release : QueueReservation → SerialQueue → Option SerialQueue
release r q = elim (map_get r.key q.socket_usage) [
  | none ↦ none
  | some socket ↦
      let next = less socket r in
      some (record q {
        global_usage = less q.global_usage r;
        socket_usage =
            if next.count == 0
            then map_delete r.key q.socket_usage
            else map_set r.key next q.socket_usage;
      })
]

-- The running task settles, whether it returned or threw: its reservation is released, and the task
-- behind it starts. Without one nothing happens.
unfoldable pub settle : SerialQueue → Option SerialQueue
unfolding release
settle q = elim q.chain [ [] ↦ some q | ◌∷◌ r rest ↦ release r (record q { chain = rest }) ]
