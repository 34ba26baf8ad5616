-- ===== src/Relay/WriterAuthority.antt =====
-- apps/terminal-cloud/src/worker/writer-authority.ts: the one writer lease of a session, in the row of
-- the table `writer_lease`. A call that awaits is two steps, since other calls run in between; each
-- reading of the clock is an argument, `sha256_hex` is the platform's digest, and the token that
-- `randomId` draws is an argument.
pub mod Fences
pub mod Leases
mod Tests
use zhongduan.Base.{
  ℕ, ◌+◌, Bool, true, false, ◌&&◌, ◌||◌, not, Option, none, some, List, [], ◌∷◌, ◌++◌, ltb, leb,
  ◌==◌, if◌then◌else◌, length, same_text,
}
use zhongduan.Protocol.Errors.{max_u64}

abbrev pub writer_lease_ms : ℕ
writer_lease_ms = 30000

abbrev pub Text : Type 0
Text = List ℕ

-- A row of `writer_lease`.
pub record WriterLeaseRow : Type 0 where
  pub client_id : Text
  pub connection_id : Text
  pub lease_digest : Text
  pub fence : ℕ
  pub expires_at : ℕ

pub record AcquiredWriterLease : Type 0 where
  pub expires_at : ℕ
  pub fence : ℕ
  pub token : Text

-- The table, which holds one row at most, and the calls of `closeDisplacedWriters`.
pub record AuthorityState : Type 0 where
  pub lease : Option WriterLeaseRow
  pub displaced : List (Text × ℕ)

pub data Peer : Type 0 where
  browser host : Peer

pub data Channel : Type 0 where
  control data_channel : Channel

pub data Role : Type 0 where
  host_role writer observer : Role

pub data ControlState : Type 0 where
  awaiting_attach active : ControlState

-- The fields of `SocketAttachment` that the authority reads.
pub record SocketAttachment : Type 0 where
  pub peer : Peer
  pub channel : Channel
  pub connection_set_id : Text
  pub connection_id : Text
  pub client_id : Option Text
  pub role : Role
  pub lease_fence : Option ℕ
  pub lease_expires_at : Option ℕ
  pub control_state : Option ControlState

-- What the code reads of a socket: whether `readyState` is `OPEN`, its attachment, and whether
-- `activeBrowserControl` gives this very socket for a client.
pub record SocketView : Type 0 where
  pub is_open : Bool
  pub attachment : Option SocketAttachment
  pub is_active_control : Text → Bool

abbrev pub live : Option WriterLeaseRow → ℕ → Bool
live none now = false
live (some row) now = ltb now row.expires_at

abbrev pub fence_of : Option WriterLeaseRow → ℕ
fence_of none = 0
fence_of (some row) = row.fence

-- `acquire` up to its `await`: whether it goes on.
abbrev pub acquire_begin : ℕ → AuthorityState → Bool
acquire_begin now s = not (live s.lease now)

pub data AcquireResult : Type 0 where
  acquired : AcquiredWriterLease → AcquireResult
  unavailable : AcquireResult
  fence_space_exhausted : AcquireResult

-- `acquire` behind its `await`: `checked_at` and `granted_at` are its two readings of the clock.
unfoldable pub acquire_finish :
    Text → Text → Text → Text → ℕ → ℕ → AuthorityState → AuthorityState × AcquireResult
acquire_finish client_id connection_id token digest checked_at granted_at s =
    if live s.lease checked_at
    then (s, unavailable)
    else if leb max_u64 (fence_of s.lease)
    then (s, fence_space_exhausted)
    else let fence = fence_of s.lease + 1 in
      let expires_at = granted_at + writer_lease_ms in
      (
        record {
          lease = some (record {
            client_id = client_id;
            connection_id = connection_id;
            lease_digest = digest;
            fence = fence;
            expires_at = expires_at;
          });
          displaced = s.displaced ++ ((connection_id, fence) ∷ []);
        },
        acquired (record { expires_at = expires_at; fence = fence; token = token }),
      )

abbrev pub same_fence : Option ℕ → ℕ → Bool
same_fence none fence = false
same_fence (some f) fence = f == fence

abbrev pub same_client : Option Text → Text → Bool
same_client none client_id = false
same_client (some c) client_id = same_text c client_id

abbrev pub is_control_writer : SocketAttachment → Bool
is_control_writer a =
    elim a.peer [ browser ↦ true | host ↦ false ]
    && elim a.channel [ control ↦ true | data_channel ↦ false ]
    && elim a.role [ writer ↦ true | _ ↦ false ]
    && elim a.control_state [ none ↦ false | some awaiting_attach ↦ false | some active ↦ true ]

-- A fence is compared where it is not null; so is the client, and the lease must not have run out.
abbrev pub same_lease : SocketAttachment → SocketAttachment → ℕ → Bool
same_lease current expected now =
    elim current.lease_fence [ none ↦ false | some fence ↦ same_fence expected.lease_fence fence ]
    && elim current.lease_expires_at [ none ↦ false | some expires_at ↦ ltb now expires_at ]

-- `liveAttachment`.
unfoldable pub live_attachment : SocketView → SocketAttachment → ℕ → Option SocketAttachment
live_attachment socket expected now = elim socket.attachment [
  | none ↦ none
  | some current ↦ elim current.client_id [
    | none ↦ none
    | some client_id ↦
        if socket.is_open
          && is_control_writer current
          && same_client expected.client_id client_id
          && same_text current.connection_id expected.connection_id
          && same_text current.connection_set_id expected.connection_set_id
          && same_lease current expected now
          && socket.is_active_control client_id
        then some current
        else none
  ]
]

-- The row of the lease that an attachment and a token's digest prove.
abbrev pub proves : SocketAttachment → Text → WriterLeaseRow → Bool
proves a digest row =
    same_client a.client_id row.client_id
    && same_text row.connection_id a.connection_id
    && same_fence a.lease_fence row.fence
    && same_text row.lease_digest digest

-- The `UPDATE` of `renew`.
abbrev pub update_expiry :
    SocketAttachment → Text → ℕ → ℕ → Option WriterLeaseRow → Option WriterLeaseRow
update_expiry a digest expires_at now none = none
update_expiry a digest expires_at now (some row) =
    if proves a digest row && ltb now row.expires_at
    then some (record row { expires_at = expires_at })
    else some row

-- What `renew` reads back.
abbrev pub renewed : SocketAttachment → Text → ℕ → Option WriterLeaseRow → Bool
renewed a digest expires_at none = false
renewed a digest expires_at (some row) = proves a digest row && row.expires_at == expires_at

-- `renew` up to its `await`.
unfoldable pub renew_begin : SocketView → SocketAttachment → Text → ℕ → Option SocketAttachment
unfolding live_attachment
renew_begin socket attachment token now =
    if ltb 256 (length token) then none else live_attachment socket attachment now

-- `renew` behind its `await`, with its four readings of the clock: the result is the expiry, with the
-- attachment that is written to the socket.
unfoldable pub renew_finish :
    SocketView
    → SocketAttachment
    → Text
    → ℕ
    → ℕ
    → ℕ
    → ℕ
    → AuthorityState
    → AuthorityState × Option (ℕ × SocketAttachment)
unfolding live_attachment
renew_finish socket initial digest live_at checked_at renewed_at updated_at s =
    elim (live_attachment socket initial live_at) [
      | none ↦ (s, none)
      | some a ↦
          if not (elim s.lease [
            | none ↦ false
            | some row ↦ proves a digest row && ltb checked_at row.expires_at
          ])
          then (s, none)
          else let expires_at = renewed_at + writer_lease_ms in
            let lease = update_expiry a digest expires_at updated_at s.lease in
            let t : AuthorityState = record s { lease = lease } in
            if renewed a digest expires_at lease
            then (t, some (expires_at, record a { lease_expires_at = some expires_at }))
            else (t, none)
    ]

unfoldable pub release : Text → Option ℕ → Text → AuthorityState → AuthorityState
release client_id none connection_id s = s
release client_id (some fence) connection_id s = elim s.lease [
  | none ↦ s
  | some row ↦
      if same_text row.client_id client_id
        && same_text row.connection_id connection_id
        && row.fence == fence
      then record s { lease = some (record row { expires_at = 0 }) }
      else s
]
