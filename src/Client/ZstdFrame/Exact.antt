-- ===== src/Client/ZstdFrame/Exact.antt =====
-- zstd-frame.ts: the frames that are let through, against the layout of the format.
use zhongduan.Base.{
  ℕ, zero, suc, ◌+◌, ◌*◌, ◌/◌, ◌%◌, ◌==◌, ==_iff, ◌≤◌, ◌≡◌, ◌≢◌, ◌↔◌, refl, sym, ap, subst, ◌∙◌,
  min, Bool, true, false, Option, none, some, List, ok, arith, if◌then◌else◌, length,
}
use zhongduan.Base.Bytes.{read_le, read_byte}
use zhongduan.Client.ZstdFrame.{
  bit, read_window, read_content_size, bounded_window, max_zstd_block_bytes, read_bounds, read_rest,
  is_standard, validate_zstd_frame_envelope,
}
use zhongduan.Client.ZstdFrame.Format.{
  Blocks, flag, Descriptor, descriptor_byte, window_bytes, dictionary_bytes, size_bytes, size_base,
  window, segment, Envelope,
}
use zhongduan.Client.ZstdFrame.Layout.{validate-Envelope}
use zhongduan.Client.ZstdFrame.Header.{dictionary_bytes_lem, size_bytes_lem, window_lem, based}
use zhongduan.Client.ZstdFrame.Accepted.{
  le→leb, flag-le, bit_is, read_ok, Blocks-inside, read_blocks-ok,
}

-- What the code has read before it takes the bound: the window, and the content size.
abbrev window_of : Bool → List ℕ → Option ℕ
window_of true bytes = none
window_of false bytes = some (window (read_byte 5 bytes))

abbrev content_of : ℕ → ℕ → Option ℕ
content_of zero expected = none
content_of (suc n) expected = some expected

read_window-ok :
    (bytes : List ℕ) (single : Bool) (expected maximum : ℕ)
    → 6 ≤ length bytes
    → segment single expected bytes ≤ maximum
    → read_window bytes 5 single maximum ≡ ok (window_of single bytes, 5 + window_bytes single)
unfolding read_window
read_window-ok bytes true expected maximum l h = refl
read_window-ok bytes false expected maximum l h =
    rw
      (
        le→leb 6 (length bytes) l,
        window_lem (read_byte 5 bytes),
        le→leb (window (read_byte 5 bytes)) maximum h,
      )
      refl

read_content_size-ok :
    (bytes : List ℕ) (offset n expected maximum : ℕ)
    → offset + n ≤ length bytes
    → (n ≢ 0 → (read_le n offset bytes + size_base n ≡ expected) × (expected ≤ maximum))
    → read_content_size bytes offset n expected maximum ≡ ok (content_of n expected, offset + n)
unfolding read_content_size
read_content_size-ok bytes offset zero expected maximum l h =
    ap (λ (k : ℕ). ok (none, k)) (omega arith)
read_content_size-ok bytes offset (suc n) expected maximum l h =
    let (e, under) = h (λ z. absurd (omega arith)) in
    let size = read_le (suc n) offset bytes in
    let same : (if suc n == 2 then size + 256 else size) ≡ expected = based (suc n) size ∙ e in
    rw
      (
        read_ok bytes offset (suc n) l,
        same,
        le→leb expected maximum under,
        (==_iff expected expected).1 refl,
      )
      refl

bounded_window-ok :
    (bytes : List ℕ) (single : Bool) (code expected : ℕ)
    → bounded_window single (window_of single bytes) (content_of (size_bytes single code) expected)
      ≡ ok (segment single expected bytes)
unfolding bounded_window
bounded_window-ok bytes true zero expected = refl
bounded_window-ok bytes true (suc zero) expected = refl
bounded_window-ok bytes true (suc (suc zero)) expected = refl
bounded_window-ok bytes true (suc (suc (suc n))) expected = refl
bounded_window-ok bytes false code expected = refl

-- The fields that the code reads from a descriptor.
record Reads (byte : ℕ) (d : Descriptor) : Type 0 where
  pub dictionary : byte % 4 ≡ d.dictionary_code
  pub checksum : bit byte 2 ≡ d.checksum
  pub reserved : bit byte 3 ≡ false
  pub single : bit byte 5 ≡ d.single_segment
  pub size : byte / 64 ≡ d.size_code

descriptor-Reads :
    (byte : ℕ) (d : Descriptor) → byte ≡ descriptor_byte d → d.dictionary_code ≤ 3 → Reads byte d
descriptor-Reads byte d e h =
    let c = flag-le d.checksum in
    let u = flag-le d.unused in
    let s = flag-le d.single_segment in
    record {
      dictionary = omega arith;
      checksum = bit_is byte 2 d.checksum (omega arith);
      reserved = bit_is byte 3 false (omega arith);
      single = bit_is byte 5 d.single_segment (omega arith);
      size = omega arith;
    }

read_bounds-ok :
    (bytes : List ℕ) (byte expected maximum : ℕ) (d : Descriptor)
    → Reads byte d
    → d.dictionary_code ≤ 3
    → 6 ≤ length bytes
    → 5
        + window_bytes d.single_segment
        + dictionary_bytes d.dictionary_code
        + size_bytes d.single_segment d.size_code
      ≤ length bytes
    → segment d.single_segment expected bytes ≤ maximum
    → read_le (dictionary_bytes d.dictionary_code) (5 + window_bytes d.single_segment) bytes ≡ 0
    → (size_bytes d.single_segment d.size_code ≢ 0
        → (read_le
                (size_bytes d.single_segment d.size_code)
                (5 + window_bytes d.single_segment + dictionary_bytes d.dictionary_code)
                bytes
              + size_base (size_bytes d.single_segment d.size_code)
            ≡ expected)
          × (expected ≤ maximum))
    → read_bounds bytes byte expected maximum
      ≡ ok (
        min (segment d.single_segment expected bytes) max_zstd_block_bytes,
        5
            + window_bytes d.single_segment
            + dictionary_bytes d.dictionary_code
            + size_bytes d.single_segment d.size_code,
      )
unfolding read_bounds
read_bounds-ok bytes byte expected maximum d r small six inside bounded zero_id content =
    let single = d.single_segment in
    let code = d.dictionary_code in
    let n = size_bytes single d.size_code in
    let offset = 5 + window_bytes single in
    rw
      (
        r.single,
        r.dictionary,
        r.size,
        dictionary_bytes_lem code small,
        size_bytes_lem d.size_code single,
        read_window-ok bytes single expected maximum six bounded,
        read_ok bytes offset (dictionary_bytes code) (omega arith),
        zero_id,
        read_content_size-ok bytes (offset + dictionary_bytes code) n expected maximum inside
            content,
        bounded_window-ok bytes single d.size_code expected,
      )
      refl

read_rest-ok :
    (bytes : List ℕ) (byte limit start end : ℕ) (checksum : Bool)
    → bit byte 2 ≡ checksum
    → Blocks bytes limit start end
    → end + 4 * flag checksum ≡ length bytes
    → read_rest bytes byte limit start ≡ ok limit
unfolding read_rest
read_rest-ok bytes byte limit start end true c b w =
    rw
      (
        c,
        read_blocks-ok (suc (length bytes)) bytes limit start end (omega arith) b,
        le→leb (end + 4) (length bytes) (omega arith),
        (==_iff (end + 4) (length bytes)).1 w,
      )
      refl
read_rest-ok bytes byte limit start end false c b w =
    rw
      (
        c,
        read_blocks-ok (suc (length bytes)) bytes limit start end (omega arith) b,
        le→leb (end + 0) (length bytes) (omega arith),
        (==_iff (end + 0) (length bytes)).1 w,
      )
      refl

is_standard-ok :
    (bytes : List ℕ)
    → (read_byte 0 bytes ≡ 0x28)
      × (read_byte 1 bytes ≡ 0xb5)
      × (read_byte 2 bytes ≡ 0x2f)
      × (read_byte 3 bytes ≡ 0xfd)
    → is_standard bytes ≡ true
is_standard-ok bytes (a, b, c, d) = rw (a, b, c, d) refl

-- The header of an envelope: the bound on a block, and where the blocks start.
header_limits :
    (bytes : List ℕ) (expected maximum limit : ℕ) (v : Envelope bytes expected maximum limit)
    → 8 ≤ length bytes
    → v.start ≤ length bytes
    → Reads (read_byte 4 bytes) v.descriptor
    → read_bounds bytes (read_byte 4 bytes) expected maximum ≡ ok (limit, v.start)
header_limits bytes expected maximum limit v long inside r =
    let d = v.descriptor in
    let n = size_bytes d.single_segment d.size_code in
    let size_at : v.size_offset
        ≡ 5 + window_bytes d.single_segment + dictionary_bytes d.dictionary_code =
      omega (arith, v.size_at, v.dictionary_at) in
    let start_at : v.start
        ≡ 5 + window_bytes d.single_segment + dictionary_bytes d.dictionary_code + n =
      omega (arith, v.start_at, size_at) in
    read_bounds-ok bytes (read_byte 4 bytes) expected maximum d r v.dictionary_small (omega arith)
      (subst (λ (k : ℕ). k ≤ length bytes) start_at inside) v.bounded
      (subst (λ (k : ℕ). read_le (dictionary_bytes d.dictionary_code) k bytes ≡ 0) v.dictionary_at
        v.no_dictionary)
      (subst
        (λ (k : ℕ). n ≢ 0 → (read_le n k bytes + size_base n ≡ expected) × (expected ≤ maximum))
        size_at v.content)
    ∙ (λ i. ok (sym v.limited i, sym start_at i))

layout_accepted :
    (bytes : List ℕ) (expected maximum limit : ℕ)
    → Envelope bytes expected maximum limit
    → validate_zstd_frame_envelope bytes expected maximum ≡ ok limit
unfolding validate_zstd_frame_envelope
layout_accepted bytes expected maximum limit v =
    let d = v.descriptor in
    let byte = read_byte 4 bytes in
    let r = descriptor-Reads byte d v.described v.dictionary_small in
    let (p, q) = Blocks-inside bytes limit v.start v.end v.blocks in
    let start : 5 ≤ v.start = omega (arith, v.start_at, v.size_at, v.dictionary_at) in
    rw
      (
        le→leb 5 (length bytes) (omega arith),
        is_standard-ok bytes v.magic,
        r.reserved,
        header_limits bytes expected maximum limit v (omega arith) (omega arith) r,
      )
      (read_rest-ok bytes byte limit v.start v.end d.checksum r.checksum v.blocks v.whole)

-- `validateZstdFrameEnvelope` lets a frame through, with `limit` as the bound on its blocks, exactly
-- when the bytes have the layout of a standard frame, an `Envelope`: the magic number; a descriptor
-- whose reserved bit is clear; no dictionary; a content size, where one is declared, that is the
-- expected length and at most the maximum; a window (or the content of a single segment) that is at
-- most the maximum, `limit` being the smaller of it and 128 KiB; blocks that follow one another up to
-- the one marked as the last, each read from the bytes, of a type that is not reserved, within `limit`
-- and stored within the bytes; and behind them the checksum where one is announced, and nothing else.
pub validate_iff-Envelope :
    (bytes : List ℕ) (expected maximum limit : ℕ)
    → (validate_zstd_frame_envelope bytes expected maximum ≡ ok limit)
      ↔ Envelope bytes expected maximum limit
validate_iff-Envelope bytes expected maximum limit =
    (validate-Envelope bytes expected maximum limit, layout_accepted bytes expected maximum limit)
