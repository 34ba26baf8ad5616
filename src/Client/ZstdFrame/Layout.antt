-- ===== src/Client/ZstdFrame/Layout.antt =====
-- zstd-frame.ts: a frame that passes the checks has the layout of the format.
use zhongduan.Base.{
  ℕ, suc, ◌+◌, ◌*◌, ◌≤◌, ◌≡◌, refl, sym, ap, subst, ◌∙◌, min, Bool, true, false, not, Option, List,
  ◌==◌, ==_iff, if◌then◌else◌, length, ok, arith, require_inv, bind_inv, ok-injective, &&-left,
  &&-right, ◌/◌, ◌%◌,
}
use zhongduan.Client.ZstdFrame.{
  dictionaries, not_standard, reserved_bit, is_standard, read_bounds, read_rest, require_bytes,
  read_little_endian, read_window, read_content_size, bounded_window, read_blocks,
  validate_zstd_frame_envelope, max_zstd_block_bytes, bit, dictionary_id_field_bytes,
  content_size_field_bytes,
}
use zhongduan.Base.Bytes.{read_byte, read_le}
use zhongduan.Client.ZstdFrame.Blocks.{read_blocks-Blocks}
use zhongduan.Client.ZstdFrame.Format.{
  flag, Blocks, dictionary_bytes, size_bytes, segment, Envelope,
}
use zhongduan.Client.ZstdFrame.Header.{
  fields, fields_lem, dictionary_bytes_lem, size_bytes_lem, WindowRead, read_window-WindowRead,
  SizeRead, read_content_size-SizeRead, bounded_window-segment,
}

-- The part of an envelope between the descriptor and the blocks: their bound and their offset.
record ReadBounds (bytes : List ℕ) (byte expected maximum : ℕ) (r : ℕ × ℕ) : Type 0 where
  pub window : Option ℕ × ℕ
  pub window_read : WindowRead bytes (bit byte 5) maximum window
  pub no_dictionary : read_le (dictionary_bytes (byte % 4)) window.1 bytes ≡ 0
  pub size : Option ℕ × ℕ
  pub size_read :
      SizeRead bytes
        (window.1 + dictionary_bytes (byte % 4))
        (size_bytes (bit byte 5) (byte / 64))
        expected
        maximum
        size
  pub start : r.1 ≡ size.1
  pub bounded : segment (bit byte 5) expected bytes ≤ maximum
  pub limited : r.0 ≡ min (segment (bit byte 5) expected bytes) max_zstd_block_bytes

code_small : (byte : ℕ) → byte % 4 ≤ 3
code_small byte = omega arith

read_bounds-ReadBounds :
    (bytes : List ℕ) (byte expected maximum : ℕ) (r : ℕ × ℕ)
    → read_bounds bytes byte expected maximum ≡ ok r
    → ReadBounds bytes byte expected maximum r
unfolding read_bounds
read_bounds-ReadBounds bytes byte expected maximum r h =
    let single = bit byte 5 in
    let n = dictionary_id_field_bytes (byte % 4) in
    let size = content_size_field_bytes (byte / 64) single in
    let n_lem : n ≡ dictionary_bytes (byte % 4) =
      dictionary_bytes_lem (byte % 4) (code_small byte) in
    let size_lem : size ≡ size_bytes single (byte / 64) = size_bytes_lem (byte / 64) single in
    let (window, w, h4) = bind_inv (read_window bytes 5 single maximum) _ h in
    let (dictionary, d, h5) = bind_inv (read_little_endian bytes window.1 n) _ h4 in
    let (zero_id, h6) = require_inv (dictionary == 0) dictionaries _ h5 in
    let (content, c, h7) =
      bind_inv (read_content_size bytes (window.1 + n) size expected maximum) _ h6 in
    let (bound, b, h8) = bind_inv (bounded_window single window.0 content.0) _ h7 in
    let window_read = read_window-WindowRead bytes single maximum window w in
    let size_read =
      subst
        (λ (k : ℕ).
          SizeRead bytes (window.1 + k) (size_bytes single (byte / 64)) expected maximum content)
        n_lem
        (subst (λ (k : ℕ). SizeRead bytes (window.1 + n) k expected maximum content) size_lem
          (read_content_size-SizeRead bytes (window.1 + n) size expected maximum content c)) in
    let (is, under) =
      bounded_window-segment bytes single (byte / 64) (window.1 + dictionary_bytes (byte % 4))
        expected maximum bound window content window_read size_read b in
    subst (ReadBounds bytes byte expected maximum) (ok-injective h8) (record {
      window = window;
      window_read = window_read;
      no_dictionary =
          ap (λ (k : ℕ). read_le k window.1 bytes) (sym n_lem)
          ∙ ok-injective (require_inv _ _ _ d).1
          ∙ (==_iff dictionary 0).0 zero_id;
      size = content;
      size_read = size_read;
      start = refl;
      bounded = under;
      limited = ap (λ (k : ℕ). min k max_zstd_block_bytes) is;
    })

-- What follows the header: the blocks, and the checksum.
record ReadRest (bytes : List ℕ) (byte bound offset limit : ℕ) : Type 0 where
  pub end : ℕ
  pub limit_is : bound ≡ limit
  pub blocks : Blocks bytes bound offset end
  pub whole : end + 4 * flag (bit byte 2) ≡ length bytes

pub checksum :
    (b : Bool) (end n : ℕ) → (end + (if b then 4 else 0) == n) ≡ true → end + 4 * flag b ≡ n
checksum true end n h = (==_iff (end + 4) n).0 h
checksum false end n h = (==_iff (end + 0) n).0 h

read_rest-ReadRest :
    (bytes : List ℕ) (byte bound offset limit : ℕ)
    → read_rest bytes byte bound offset ≡ ok limit
    → ReadRest bytes byte bound offset limit
unfolding read_rest
read_rest-ReadRest bytes byte bound offset limit h =
    let (end, e, h1) = bind_inv (read_blocks (suc (length bytes)) bytes offset bound) _ h in
    let (_, h2) = require_inv _ _ _ h1 in
    let (t, h3) = require_inv _ _ _ h2 in
    record {
      end = end;
      limit_is = ok-injective h3;
      blocks = (read_blocks-Blocks (suc (length bytes)) bytes offset bound end e).0;
      whole = checksum (bit byte 2) end (length bytes) t;
    }

is_standard_lem :
    (bytes : List ℕ)
    → is_standard bytes ≡ true
    → (read_byte 0 bytes ≡ 0x28)
      × (read_byte 1 bytes ≡ 0xb5)
      × (read_byte 2 bytes ≡ 0x2f)
      × (read_byte 3 bytes ≡ 0xfd)
is_standard_lem bytes h = (
  is_byte 0 0x28 (&&-left _ _ (&&-left _ _ (&&-left _ _ h))),
  is_byte 1 0xb5 (&&-right _ _ (&&-left _ _ (&&-left _ _ h))),
  is_byte 2 0x2f (&&-right _ _ (&&-left _ _ h)),
  is_byte 3 0xfd (&&-right _ _ h),
)
  where
    is_byte : (k v : ℕ) → (read_byte k bytes == v) ≡ true → read_byte k bytes ≡ v
    is_byte k v = (==_iff (read_byte k bytes) v).0

-- A frame that `validateZstdFrameEnvelope` lets through is an `Envelope`.
pub validate-Envelope :
    (bytes : List ℕ) (expected maximum limit : ℕ)
    → validate_zstd_frame_envelope bytes expected maximum ≡ ok limit
    → Envelope bytes expected maximum limit
unfolding validate_zstd_frame_envelope
validate-Envelope bytes expected maximum limit h =
    let byte = read_byte 4 bytes in
    let (_, _, h1) = bind_inv (require_bytes bytes 0 5) _ h in
    let (m, h2) = require_inv (is_standard bytes) not_standard _ h1 in
    let (clear, h3) = require_inv (not (bit byte 3)) reserved_bit _ h2 in
    let (r, e, h4) = bind_inv (read_bounds bytes byte expected maximum) _ h3 in
    let v = read_bounds-ReadBounds bytes byte expected maximum r e in
    let w = read_rest-ReadRest bytes byte r.0 r.1 limit h4 in
    record {
      descriptor = fields byte;
      dictionary_offset = v.window.1;
      size_offset = v.window.1 + dictionary_bytes (byte % 4);
      start = r.1;
      end = w.end;
      magic = is_standard_lem bytes m;
      described = fields_lem byte clear;
      dictionary_small = code_small byte;
      dictionary_at = v.window_read.offset;
      no_dictionary = v.no_dictionary;
      size_at = refl;
      content = v.size_read.declared;
      start_at = v.start ∙ v.size_read.behind;
      bounded = v.bounded;
      limited = sym w.limit_is ∙ v.limited;
      blocks = subst (λ (k : ℕ). Blocks bytes k r.1 w.end) w.limit_is w.blocks;
      whole = w.whole;
    }
