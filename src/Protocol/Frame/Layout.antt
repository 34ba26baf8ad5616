-- ===== src/Protocol/Frame/Layout.antt =====
-- What the writes of `encodeDataFrame` and the reads of `decodeDataFrame` do to one another.
use zhongduan.Base.{
  ℕ, ◌+◌, ◌^◌, ◌≤◌, ◌<◌, ◌≡◌, refl, ap, sym, subst, ◌∙◌, List, arith, length, ok, true, require_inv,
  ok-injective, ==_iff, leb→le, not-ltb, &&-left, &&-right,
}
use zhongduan.Base.Bytes.{le_value-le_bytes, read_le, read_byte}
use zhongduan.Protocol.Errors.{max_u64}
use zhongduan.Protocol.Frame.{
  DataFrame, layout, parsed, valid_kind, encode_data_frame, decode_data_frame,
  max_data_payload_bytes, read_be, data_magic,
}

-- The frames that `encodeDataFrame` accepts.
pub record IsFrame (f : DataFrame) : Type 0 where
  pub kind : valid_kind f.kind ≡ true
  pub flags : f.flags ≡ 0
  pub session_epoch : f.session_epoch ≤ max_u64
  pub delivery_generation : f.delivery_generation ≤ max_u64
  pub event_seq : f.event_seq ≤ max_u64
  pub pty_offset : f.pty_offset ≤ max_u64
  pub stream_id : f.stream_id ≤ 0xffff_ffff
  pub payload : length f.payload ≤ max_data_payload_bytes

pub encode-IsFrame :
    (f : DataFrame) (bytes : List ℕ)
    → encode_data_frame f ≡ ok bytes
    → IsFrame f × (bytes ≡ layout f)
unfolding encode_data_frame
encode-IsFrame f bytes h = ground arith

pub IsFrame-encode : (f : DataFrame) → IsFrame f → encode_data_frame f ≡ ok (layout f)
unfolding encode_data_frame
IsFrame-encode f v = ground arith

kind_lt : (k : ℕ) → valid_kind k ≡ true → k < 256 ^ 1
kind_lt k h = ground arith

pub parsed-layout : (f : DataFrame) → IsFrame f → parsed (layout f) ≡ f
parsed-layout f v = λ i. record {
  kind = le_value-le_bytes 1 f.kind (kind_lt f.kind v.kind) i;
  flags = le_value-le_bytes 2 f.flags (omega arith) i;
  session_epoch = le_value-le_bytes 8 f.session_epoch (omega arith) i;
  delivery_generation = le_value-le_bytes 8 f.delivery_generation (omega arith) i;
  event_seq = le_value-le_bytes 8 f.event_seq (omega arith) i;
  pty_offset = le_value-le_bytes 8 f.pty_offset (omega arith) i;
  stream_id = le_value-le_bytes 4 f.stream_id (omega arith) i;
  payload = f.payload;
}

-- The byte lists that `decodeDataFrame` accepts.
pub record IsEncoded (bytes : List ℕ) : Type 0 where
  pub header : 48 ≤ length bytes
  pub magic : read_be 4 0 bytes ≡ data_magic
  pub version : read_byte 4 bytes ≡ 2
  pub kind : valid_kind (read_byte 5 bytes) ≡ true
  pub flags : read_le 2 6 bytes ≡ 0
  pub limit : read_le 4 44 bytes ≤ max_data_payload_bytes
  pub exact : length bytes ≡ 48 + read_le 4 44 bytes

pub IsEncoded-decode :
    (bytes : List ℕ) → IsEncoded bytes → decode_data_frame bytes ≡ ok (parsed bytes)
unfolding decode_data_frame
IsEncoded-decode bytes v = ground arith

pub decode-IsEncoded :
    (bytes : List ℕ) (f : DataFrame)
    → decode_data_frame bytes ≡ ok f
    → IsEncoded bytes × (f ≡ parsed bytes)
unfolding decode_data_frame
decode-IsEncoded bytes f h =
    let (header, h1) = require_inv _ _ _ h in
    let (magic, h2) = require_inv _ _ _ h1 in
    let (version, h3) = require_inv _ _ _ h2 in
    let (kind, h4) = require_inv _ _ _ h3 in
    let (flags, h5) = require_inv _ _ _ h4 in
    let (lengths, h6) = require_inv _ _ _ h5 in
    (
      record {
        header = not-ltb _ _ header;
        magic = (==_iff _ _).0 magic;
        version = (==_iff _ _).0 version;
        kind = kind;
        flags = (==_iff _ _).0 flags;
        limit = leb→le _ _ (&&-left _ _ lengths);
        exact = (==_iff _ _).0 (&&-right _ _ lengths);
      },
      sym (ok-injective h6),
    )

pub layout-length : (f : DataFrame) → length (layout f) ≡ 48 + length f.payload
layout-length f = omega arith

pub layout-IsEncoded : (f : DataFrame) → IsFrame f → IsEncoded (layout f)
layout-IsEncoded f v = record {
  header = omega arith;
  magic = refl;
  version = refl;
  kind =
      subst (λ (k : ℕ). valid_kind k ≡ true)
        (sym (le_value-le_bytes 1 f.kind (kind_lt f.kind v.kind))) v.kind;
  flags = le_value-le_bytes 2 f.flags (omega arith) ∙ v.flags;
  limit = rw (le_value-le_bytes 4 (length f.payload) (omega arith)) v.payload;
  exact =
      layout-length f
      ∙ sym (ap (λ (n : ℕ). 48 + n) (le_value-le_bytes 4 (length f.payload) (omega arith)));
}

pub decode-layout : (f : DataFrame) → IsFrame f → decode_data_frame (layout f) ≡ ok f
decode-layout f v = IsEncoded-decode (layout f) (layout-IsEncoded f v) ∙ ap ok (parsed-layout f v)
