-- ===== src/Protocol/Frame.antt =====
-- packages/protocol/src/data-frame.ts: the binary data frame, the batch of frames, the rewriting of
-- a delivery and the resize payload. A `number` or `bigint` of the source is a natural number here,
-- so its tests for a negative or fractional value have no counterpart; the upper bounds are kept.
pub mod Layout
pub mod RoundTrip
pub mod Batches
mod Tests
use zhongduan.Base.{
  ℕ, zero, suc, ◌+◌, ◌*◌, ◌-◌, ◌^◌, Bool, true, false, ◌&&◌, ◌||◌, not, List, [], ◌∷◌, ◌++◌, map,
  ltb, leb, ◌==◌, if◌then◌else◌, length, take, drop, Result, ok, err, ◌>>=◌, ◌>>◌, require,
}
use zhongduan.Base.Bytes.{le_bytes, le_value, read_le, read_byte, write_le}
use zhongduan.Protocol.Errors.{ProtocolErrorCode, max_u64}

-- "ZTRM" as its four bytes, highest first: the one big-endian field.
abbrev pub magic_bytes : List ℕ
magic_bytes = 0x5a ∷ 0x54 ∷ 0x52 ∷ 0x4d ∷ []

abbrev pub data_magic : ℕ
data_magic = 0x5a54_524d

abbrev pub data_protocol_version : ℕ
data_protocol_version = 2

abbrev pub data_header_bytes : ℕ
data_header_bytes = 48

abbrev pub max_data_payload_bytes : ℕ
max_data_payload_bytes = 16 * 1024 * 1024

abbrev pub max_data_batch_bytes : ℕ
max_data_batch_bytes = 256 * 1024

abbrev pub max_data_batch_frames : ℕ
max_data_batch_frames = 64

abbrev pub pty_output : ℕ
pty_output = 1

abbrev pub resize_applied : ℕ
resize_applied = 2

abbrev pub replay_commit : ℕ
replay_commit = 3

abbrev pub reset : ℕ
reset = 4

abbrev pub delivery_barrier : ℕ
delivery_barrier = 5

pub record DataFrame : Type 0 where
  pub kind : ℕ
  pub flags : ℕ
  pub session_epoch : ℕ
  pub delivery_generation : ℕ
  pub event_seq : ℕ
  pub pty_offset : ℕ
  pub stream_id : ℕ
  pub payload : List ℕ

abbrev pub Outcome : Type 0 → Type 0
Outcome A = Result ProtocolErrorCode A

abbrev pub valid_kind : ℕ → Bool
valid_kind kind =
    kind == pty_output
    || kind == resize_applied
    || kind == replay_commit
    || kind == reset
    || kind == delivery_barrier

abbrev pub assert_u32 : ℕ → Outcome (Unit {0})
assert_u32 value = require (leb value 0xffff_ffff) ProtocolErrorCode.out_of_range

abbrev pub assert_u16 : ℕ → Outcome (Unit {0})
assert_u16 value = require (leb value 0xffff) ProtocolErrorCode.out_of_range

abbrev pub assert_u64 : ℕ → Outcome (Unit {0})
assert_u64 value = require (leb value max_u64) ProtocolErrorCode.out_of_range

abbrev pub assert_kind : ℕ → Outcome (Unit {0})
assert_kind kind = require (valid_kind kind) ProtocolErrorCode.bad_kind

-- The bytes that the `DataView` writes of `encodeDataFrame` leave, field behind field.
abbrev pub layout : DataFrame → List ℕ
layout f =
    magic_bytes
    ++ (le_bytes 1 data_protocol_version
        ++ (le_bytes 1 f.kind
            ++ (le_bytes 2 f.flags
                ++ (le_bytes 8 f.session_epoch
                    ++ (le_bytes 8 f.delivery_generation
                        ++ (le_bytes 8 f.event_seq
                            ++ (le_bytes 8 f.pty_offset
                                ++ (le_bytes 4 f.stream_id
                                    ++ (le_bytes 4 (length f.payload) ++ f.payload)))))))))

unfoldable pub encode_data_frame : DataFrame → Outcome (List ℕ)
encode_data_frame f = do
  assert_kind f.kind
  assert_u16 f.flags
  require (f.flags == 0) ProtocolErrorCode.bad_flags
  assert_u64 f.session_epoch
  assert_u64 f.delivery_generation
  assert_u64 f.event_seq
  assert_u64 f.pty_offset
  assert_u32 f.stream_id
  require (leb (length f.payload) max_data_payload_bytes) ProtocolErrorCode.bad_length
  ok (layout f)

-- `view.getUint32(offset, false)`.
abbrev pub be_value : List ℕ → ℕ → ℕ
be_value [] acc = acc
be_value (b ∷ bs) acc = be_value bs (acc * 256 + b)

abbrev pub read_be : ℕ → ℕ → List ℕ → ℕ
read_be n offset bytes = be_value (take n (drop offset bytes)) 0

-- The fields of a header, read back.
abbrev pub parsed : List ℕ → DataFrame
parsed bytes = record {
  kind = read_byte 5 bytes;
  flags = read_le 2 6 bytes;
  session_epoch = read_le 8 8 bytes;
  delivery_generation = read_le 8 16 bytes;
  event_seq = read_le 8 24 bytes;
  pty_offset = read_le 8 32 bytes;
  stream_id = read_le 4 40 bytes;
  payload = drop data_header_bytes bytes;
}

unfoldable pub decode_data_frame : List ℕ → Outcome DataFrame
decode_data_frame bytes = do
  require (not (ltb (length bytes) data_header_bytes)) ProtocolErrorCode.bad_length
  require (read_be 4 0 bytes == data_magic) ProtocolErrorCode.bad_magic
  require (read_byte 4 bytes == data_protocol_version) ProtocolErrorCode.bad_version
  assert_kind (read_byte 5 bytes)
  require (read_le 2 6 bytes == 0) ProtocolErrorCode.bad_flags
  let payload_length = read_le 4 44 bytes
  require
      (leb payload_length max_data_payload_bytes
        && length bytes == data_header_bytes + payload_length)
      ProtocolErrorCode.bad_length
  ok (parsed bytes)

-- The loop over the frames of `encodeDataFrameBatch`: every frame decodes, and the total is bounded
-- at each step.
pub batch_bytes : List (List ℕ) → ℕ → Outcome ℕ
batch_bytes [] total = ok total
batch_bytes (frame ∷ frames) total = decode_data_frame frame >>= λ _.
    require (leb (total + length frame) max_data_batch_bytes) ProtocolErrorCode.bad_length >>= λ _.
    batch_bytes frames (total + length frame)

pub concat : List (List ℕ) → List ℕ
concat [] = []
concat (frame ∷ frames) = frame ++ concat frames

pub encode_data_frame_batch : List (List ℕ) → Outcome (List ℕ)
unfolding batch_bytes concat
encode_data_frame_batch frames = do
  require (not (length frames == 0 || ltb max_data_batch_frames (length frames)))
      ProtocolErrorCode.bad_length
  _ ← batch_bytes frames 0
  ok (concat frames)

pub record DecodedEntry : Type 0 where
  pub encoded : List ℕ
  pub frame : DataFrame

-- One round of the `while` loop of `decodeDataFrameBatchEntries`, on the bytes that `offset` has not
-- passed. `count` is `entries.length`, and `more` decodes what stands behind the frame.
pub entry_round : ℕ → List ℕ → (List ℕ → Outcome (List DecodedEntry)) → Outcome (List DecodedEntry)
entry_round count bytes more = do
  require (not (leb max_data_batch_frames count || ltb (length bytes) data_header_bytes))
      ProtocolErrorCode.bad_length
  let payload_length = read_le 4 44 bytes
  let frame_length = data_header_bytes + payload_length
  require (not (ltb max_data_payload_bytes payload_length || ltb (length bytes) frame_length))
      ProtocolErrorCode.bad_length
  frame ← decode_data_frame (take frame_length bytes)
  entries ← more (drop frame_length bytes)
  ok (record { encoded = take frame_length bytes; frame = frame } ∷ entries)

-- The loop, on fuel; without it nothing is read. A round takes a byte at least.
pub decode_entries : ℕ → ℕ → List ℕ → Outcome (List DecodedEntry)
unfolding entry_round
decode_entries fuel count [] = ok []
decode_entries zero count (b ∷ bs) = err ProtocolErrorCode.bad_length
decode_entries (suc fuel) count (b ∷ bs) =
    entry_round count (b ∷ bs) (decode_entries fuel (count + 1))

-- A round takes at least one byte, so the length is enough fuel.
pub decode_data_frame_batch_entries : List ℕ → Outcome (List DecodedEntry)
unfolding decode_entries
decode_data_frame_batch_entries bytes = do
  require (not (length bytes == 0 || ltb max_data_batch_bytes (length bytes)))
      ProtocolErrorCode.bad_length
  decode_entries (length bytes) 0 bytes

pub decode_data_frame_batch : List ℕ → Outcome (List DataFrame)
unfolding decode_data_frame_batch_entries
decode_data_frame_batch bytes =
    decode_data_frame_batch_entries bytes >>= λ entries. ok (map (λ e. e.frame) entries)

pub rewrite_delivery : List ℕ → ℕ → ℕ → Outcome (List ℕ)
unfolding decode_data_frame
rewrite_delivery encoded delivery_generation stream_id = do
  assert_u64 delivery_generation
  assert_u32 stream_id
  _ ← decode_data_frame encoded
  ok (write_le 4 40 stream_id (write_le 8 16 delivery_generation encoded))

pub record ResizePayload : Type 0 where
  pub cols : ℕ
  pub rows : ℕ
  pub width_px : ℕ
  pub height_px : ℕ

abbrev pub resize_layout : ResizePayload → List ℕ
resize_layout r =
    le_bytes 4 r.cols ++ (le_bytes 4 r.rows ++ (le_bytes 4 r.width_px ++ le_bytes 4 r.height_px))

unfoldable pub encode_resize_payload : ResizePayload → Outcome (List ℕ)
encode_resize_payload r = do
  assert_u32 r.cols
  assert_u32 r.rows
  assert_u32 r.width_px
  assert_u32 r.height_px
  require (not (r.cols == 0 || r.rows == 0)) ProtocolErrorCode.bad_payload
  ok (resize_layout r)

abbrev pub resize_read : List ℕ → ResizePayload
resize_read payload = record {
  cols = read_le 4 0 payload;
  rows = read_le 4 4 payload;
  width_px = read_le 4 8 payload;
  height_px = read_le 4 12 payload;
}

unfoldable pub decode_resize_payload : List ℕ → Outcome ResizePayload
decode_resize_payload payload = do
  require (length payload == 16) ProtocolErrorCode.bad_payload
  let resize = resize_read payload
  require (not (resize.cols == 0 || resize.rows == 0)) ProtocolErrorCode.bad_payload
  ok resize
