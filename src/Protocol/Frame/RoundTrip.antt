-- ===== src/Protocol/Frame/RoundTrip.antt =====
-- data-frame.ts: `encodeDataFrame` against `decodeDataFrame`, `rewriteDelivery`, and the same for a
-- resize.
use zhongduan.Base.{
  ℕ, ◌-◌, ◌+◌, ◌^◌, ◌≤◌, ◌≡◌, refl, ap, sym, subst, ◌∙◌, List, ◌∷◌, ◌++◌, arith, length, drop, take,
  All, ok, leb, leb→le, require_inv, ok-injective, true, bind_inv, not, ◌||◌, ◌==◌, require, ◌>>◌,
  take-append-drop, length-drop,
}
use zhongduan.Base.Bytes.{
  IsByte, le_value, le_bytes, le_value-le_bytes, read_le, read_byte, read_le-lt, write_read_before,
  write_le,
}
use zhongduan.Protocol.Errors.{ProtocolErrorCode}
use zhongduan.Protocol.Frame.{
  DataFrame, layout, parsed, encode_data_frame, decode_data_frame, magic_bytes, read_be, data_magic,
  rewrite_delivery, ResizePayload, encode_resize_payload, decode_resize_payload, resize_layout,
  resize_read,
}
use zhongduan.Protocol.Frame.Layout.{
  IsFrame, encode-IsFrame, IsFrame-encode, decode-layout, decode-IsEncoded, IsEncoded,
}

-- A frame that `encodeDataFrame` accepts is read back from its bytes by `decodeDataFrame`.
pub decode-encode :
    (f : DataFrame) (bytes : List ℕ)
    → encode_data_frame f ≡ ok bytes
    → decode_data_frame bytes ≡ ok f
decode-encode f bytes h = let (v, e) = encode-IsFrame f bytes h in rw e (decode-layout f v)

read_be-magic :
    (bytes : List ℕ)
    → All IsByte bytes
    → 48 ≤ length bytes
    → read_be 4 0 bytes ≡ data_magic
    → take 4 bytes ≡ magic_bytes
read_be-magic (a ∷ b ∷ c ∷ d ∷ rest) h fits e = rw (ea, eb, ec, ed) refl
  where
    ea : a ≡ 0x5a
    ea = omega arith

    eb : b ≡ 0x54
    eb = omega arith

    ec : c ≡ 0x52
    ec = omega arith

    ed : d ≡ 0x4d
    ed = omega arith
read_be-magic _ h fits e = absurd (omega arith)

layout-parsed :
    (bytes : List ℕ) → All IsByte bytes → IsEncoded bytes → layout (parsed bytes) ≡ bytes
layout-parsed bytes b v =
    ap (λ (t : List ℕ). magic_bytes ++ t) fields
    ∙ ap (λ (t : List ℕ). t ++ drop 4 bytes) (sym (read_be-magic bytes b v.header v.magic))
    ∙ take-append-drop 4 bytes
  where
    size : length (drop 48 bytes) ≡ read_le 4 44 bytes
    size = omega (arith, length-drop 48 bytes, v.exact)

    behind :
        (n k value : ℕ) (tail : List ℕ)
        → k + n ≤ 48
        → value ≡ read_le n k bytes
        → tail ≡ drop (k + n) bytes
        → le_bytes n value ++ tail ≡ drop k bytes
    behind n k value tail fits = write_read_before n k value bytes tail b (omega (arith, v.header))

    fields : drop 4 (layout (parsed bytes)) ≡ drop 4 bytes
    fields = behind 1 4 2 _ (omega arith) (sym v.version) (
        behind 1 5 (read_byte 5 bytes) _ (omega arith) refl (
          behind 2 6 (read_le 2 6 bytes) _ (omega arith) refl (
            behind 8 8 (read_le 8 8 bytes) _ (omega arith) refl (
              behind 8 16 (read_le 8 16 bytes) _ (omega arith) refl (
                behind 8 24 (read_le 8 24 bytes) _ (omega arith) refl (
                  behind 8 32 (read_le 8 32 bytes) _ (omega arith) refl (
                    behind 4 40 (read_le 4 40 bytes) _ (omega arith) refl
                      (behind 4 44 _ _ (omega arith) size refl))))))))

parsed-IsFrame : (bytes : List ℕ) → All IsByte bytes → IsEncoded bytes → IsFrame (parsed bytes)
parsed-IsFrame bytes b v = record {
  kind = v.kind;
  flags = v.flags;
  session_epoch = bound 8 8 (omega arith);
  delivery_generation = bound 8 16 (omega arith);
  event_seq = bound 8 24 (omega arith);
  pty_offset = bound 8 32 (omega arith);
  stream_id = bound 4 40 (omega arith);
  payload = omega (arith, v.limit, v.exact, length-drop 48 bytes);
}
  where
    bound : (n k : ℕ) → k + n ≤ 48 → read_le n k bytes ≤ 256 ^ n - 1
    bound n k fits = omega (arith, read_le-lt n k bytes b (omega (arith, v.header)))

-- Whatever bytes `decodeDataFrame` accepts, encoding the decoded frame gives the same bytes: the
-- wire form is canonical.
pub encode-decode :
    (bytes : List ℕ) (f : DataFrame)
    → All IsByte bytes
    → decode_data_frame bytes ≡ ok f
    → encode_data_frame f ≡ ok bytes
encode-decode bytes f b h =
    let (v, e) = decode-IsEncoded bytes f h in
    rw e
      (IsFrame-encode (parsed bytes) (parsed-IsFrame bytes b v) ∙ ap ok (layout-parsed bytes b v))

-- When `rewriteDelivery` succeeds on the bytes of a frame, the result decodes to the same frame with
-- the given delivery generation and stream, every other field and the payload unchanged.
pub decode-rewrite_delivery :
    (bytes out : List ℕ) (f : DataFrame) (g s : ℕ)
    → All IsByte bytes
    → decode_data_frame bytes ≡ ok f
    → rewrite_delivery bytes g s ≡ ok out
    → decode_data_frame out ≡ ok (record f { delivery_generation = g; stream_id = s })
unfolding rewrite_delivery
decode-rewrite_delivery bytes out f g s b d h =
    let (gen, h1) = require_inv _ _ _ h in
    let (stream, h2) = require_inv _ _ _ h1 in
    let (_, _, h3) = bind_inv (decode_data_frame bytes) _ h2 in
    let (v, e) = encode-IsFrame f bytes (encode-decode bytes f b d) in
    let moved : IsFrame (record f { delivery_generation = g; stream_id = s }) = record {
      kind = v.kind;
      flags = v.flags;
      session_epoch = v.session_epoch;
      delivery_generation = leb→le _ _ gen;
      event_seq = v.event_seq;
      pty_offset = v.pty_offset;
      stream_id = leb→le _ _ stream;
      payload = v.payload;
    } in
    subst
      (λ (t : List ℕ).
        decode_data_frame t ≡ ok (record f { delivery_generation = g; stream_id = s }))
      (sym (ap (λ (t : List ℕ). write_le 4 40 s (write_le 8 16 g t)) e) ∙ ok-injective h3)
      (decode-layout _ moved)

le_four : (v : ℕ) → leb v 0xffff_ffff ≡ true → le_value (le_bytes 4 v) ≡ v
le_four v h = le_value-le_bytes 4 v (ground arith)

resize_check :
    (q r : ResizePayload)
    → q ≡ r
    → not (r.cols == 0 || r.rows == 0) ≡ true
    → (require (not (q.cols == 0 || q.rows == 0)) ProtocolErrorCode.bad_payload >> ok q) ≡ ok r
resize_check q r same size = rw (same, size)

-- A resize that `encodeResizePayload` accepts is read back by `decodeResizePayload`.
pub decode-encode_resize :
    (r : ResizePayload) (payload : List ℕ)
    → encode_resize_payload r ≡ ok payload
    → decode_resize_payload payload ≡ ok r
unfolding encode_resize_payload decode_resize_payload
decode-encode_resize r payload h =
    let (c, h1) = require_inv _ _ _ h in
    let (w, h2) = require_inv _ _ _ h1 in
    let (x, h3) = require_inv _ _ _ h2 in
    let (y, h4) = require_inv _ _ _ h3 in
    let (size, h5) = require_inv _ _ _ h4 in
    let same : resize_read (resize_layout r) ≡ r = λ i. record {
      cols = le_four r.cols c i;
      rows = le_four r.rows w i;
      width_px = le_four r.width_px x i;
      height_px = le_four r.height_px y i;
    } in
    subst (λ (bytes : List ℕ). decode_resize_payload bytes ≡ ok r) (ok-injective h5)
      (resize_check (resize_read (resize_layout r)) r same size)
