-- ===== src/Client/ZstdFrame.antt =====
-- packages/session-client/src/zstd-frame.ts: the checks of a compressed snapshot before it is
-- decompressed, and of what the decompressor emits. The decompressor of the package fzstd is a
-- parameter: the chunks that it hands its callback, each with its `final`, or a throw.
pub mod Format
pub mod Blocks
mod Header
pub mod Bounds
pub mod Layout
pub mod Exact
pub mod Accepted
mod Tests
use zhongduan.Base.{
  ℕ, zero, suc, ◌+◌, ◌-◌, ◌*◌, ◌/◌, ◌%◌, ◌^◌, min, Bool, true, false, ◌&&◌, ◌||◌, not, Option, none,
  some, List, [], ◌∷◌, ◌++◌, ltb, leb, ◌==◌, if◌then◌else◌, length, Result, ok, err, ◌>>=◌, ◌>>◌,
  require,
}
use zhongduan.Base.Bytes.{read_le, read_byte}

pub data ZstdError : Type 0 where
  truncated not_standard reserved_bit window_exceeds dictionaries content_size_exceeds : ZstdError
  content_size_mismatch missing_content_size missing_window reserved_block block_exceeds trailing :
      ZstdError
  expected_exceeds emitted_after_completion output_exceeds not_finished output_mismatch : ZstdError
  decoder_failed : ZstdError

abbrev pub max_zstd_block_bytes : ℕ
max_zstd_block_bytes = 128 * 1024

abbrev pub Checked : Type 0 → Type 0
Checked A = Result ZstdError A

abbrev pub require_bytes : List ℕ → ℕ → ℕ → Checked (Unit {0})
require_bytes bytes offset size = require (leb (offset + size) (length bytes)) truncated

-- `readLittleEndian`.
abbrev pub read_little_endian : List ℕ → ℕ → ℕ → Checked ℕ
read_little_endian bytes offset size =
    (require_bytes bytes offset size >> ok (read_le size offset bytes))

abbrev pub content_size_field_bytes : ℕ → Bool → ℕ
content_size_field_bytes flag single_segment =
    if flag == 0
    then (if single_segment then 1 else 0)
    else if flag == 1
    then 2
    else if flag == 2
    then 4
    else 8

abbrev pub dictionary_id_field_bytes : ℕ → ℕ
dictionary_id_field_bytes flag = if flag == 3 then 4 else flag

abbrev pub bit : ℕ → ℕ → Bool
bit value position = (value / 2 ^ position) % 2 == 1

abbrev pub window_size : ℕ → ℕ
window_size descriptor = let base = 2 ^ (10 + descriptor / 8) in base + base / 8 * (descriptor % 8)

-- The window of a frame that is not a single segment, and the offset behind its descriptor.
unfoldable pub read_window : List ℕ → ℕ → Bool → ℕ → Checked (Option ℕ × ℕ)
read_window bytes offset true maximum_length = ok (none, offset)
read_window bytes offset false maximum_length = do
  require_bytes bytes offset 1
  let size = window_size (read_byte offset bytes)
  require (leb size maximum_length) window_exceeds
  ok (some size, offset + 1)

-- The declared content size, where there is one, and the offset behind it.
unfoldable pub read_content_size : List ℕ → ℕ → ℕ → ℕ → ℕ → Checked (Option ℕ × ℕ)
read_content_size bytes offset zero expected_length maximum_length = ok (none, offset)
read_content_size bytes offset (suc n) expected_length maximum_length = do
  size ← read_little_endian bytes offset (suc n)
  let content_size = if suc n == 2 then size + 256 else size
  require (leb content_size maximum_length) content_size_exceeds
  require (content_size == expected_length) content_size_mismatch
  ok (some content_size, offset + suc n)

-- The window that bounds the blocks: a single segment's is its content size.
unfoldable pub bounded_window : Bool → Option ℕ → Option ℕ → Checked ℕ
bounded_window true window none = err missing_content_size
bounded_window true window (some content_size) = ok content_size
bounded_window false none content_size = err missing_window
bounded_window false (some window) content_size = ok window

-- What a block's header says: whether it is the last, its type, its size, and the bytes stored for it.
pub record BlockHeader : Type 0 where
  pub last_block : Bool
  pub block_type : ℕ
  pub block_size : ℕ
  pub encoded_block_size : ℕ

abbrev pub block_header : ℕ → BlockHeader
block_header header = record {
  last_block = bit header 0;
  block_type = header / 2 % 4;
  block_size = header / 8;
  encoded_block_size = if header / 2 % 4 == 1 then 1 else header / 8;
}

-- A round of the loop over the blocks: the header, and the offset behind the block.
unfoldable pub read_block : List ℕ → ℕ → ℕ → Checked (BlockHeader × ℕ)
read_block bytes offset maximum_block_size = do
  header ← read_little_endian bytes offset 3
  let block = block_header header
  require (not (block.block_type == 3)) reserved_block
  require (leb block.block_size maximum_block_size) block_exceeds
  require_bytes bytes (offset + 3) block.encoded_block_size
  ok (block, offset + 3 + block.encoded_block_size)

-- The loop, on fuel: a block takes three bytes at least, so one more than the length is enough.
unfoldable pub read_blocks : ℕ → List ℕ → ℕ → ℕ → Checked ℕ
unfolding read_block
read_blocks zero bytes offset maximum_block_size = err truncated
read_blocks (suc fuel) bytes offset maximum_block_size =
    (read_block bytes offset maximum_block_size >>= λ r. elim r.0.last_block [
      | true ↦ ok r.1
      | false ↦ read_blocks fuel bytes r.1 maximum_block_size
    ])

-- The header behind the descriptor: the bound on a block, and the offset of the first block.
unfoldable pub read_bounds : List ℕ → ℕ → ℕ → ℕ → Checked (ℕ × ℕ)
unfolding read_window read_content_size bounded_window
read_bounds bytes descriptor expected_length maximum_length =
    let single_segment = bit descriptor 5 in
    let dictionary_bytes = dictionary_id_field_bytes (descriptor % 4) in
    let size_bytes = content_size_field_bytes (descriptor / 64) single_segment in
    (read_window bytes 5 single_segment maximum_length >>= λ window.
    read_little_endian bytes window.1 dictionary_bytes >>= λ dictionary.
    require (dictionary == 0) dictionaries >>= λ _.
    read_content_size bytes (window.1 + dictionary_bytes) size_bytes expected_length maximum_length
    >>= λ content. bounded_window single_segment window.0 content.0 >>= λ bound.
        ok (min bound max_zstd_block_bytes, content.1))

-- The blocks from an offset on, and what stands behind them.
unfoldable pub read_rest : List ℕ → ℕ → ℕ → ℕ → Checked ℕ
unfolding read_blocks
read_rest bytes descriptor maximum_block_size offset =
    let checksum_bytes = if bit descriptor 2 then 4 else 0 in
    (read_blocks (suc (length bytes)) bytes offset maximum_block_size >>= λ end.
    require_bytes bytes end checksum_bytes >>= λ _.
    require (end + checksum_bytes == length bytes) trailing >>= λ _. ok maximum_block_size)

abbrev pub is_standard : List ℕ → Bool
is_standard bytes =
    read_byte 0 bytes == 0x28
    && read_byte 1 bytes == 0xb5
    && read_byte 2 bytes == 0x2f
    && read_byte 3 bytes == 0xfd

-- `validateZstdFrameEnvelope`; what it lets through is the bound on a block.
unfoldable pub validate_zstd_frame_envelope : List ℕ → ℕ → ℕ → Checked ℕ
unfolding read_bounds read_rest
validate_zstd_frame_envelope bytes expected_length maximum_length =
    let descriptor = read_byte 4 bytes in
    (require_bytes bytes 0 5 >>= λ _. require (is_standard bytes) not_standard >>= λ _.
    require (not (bit descriptor 3)) reserved_bit >>= λ _.
    read_bounds bytes descriptor expected_length maximum_length >>= λ r.
    read_rest bytes descriptor r.0 r.1)

-- The state of the callback of `decompressBoundedZstdFrame`: `output` holds the bytes set so far.
pub record Emission : Type 0 where
  pub output : List ℕ
  pub finished : Bool

unfoldable pub emit : ℕ → ℕ → List (List ℕ × Bool) → Emission → Checked Emission
emit expected_length maximum_length [] e = ok e
emit expected_length maximum_length ((chunk, final) ∷ rest) e = do
  require (not e.finished) emitted_after_completion
  require
      (leb (length chunk) (expected_length - length e.output)
        && leb (length chunk) (maximum_length - length e.output))
      output_exceeds
  emit expected_length maximum_length rest (record { output = e.output ++ chunk; finished = final })

-- What `Decompress` emits on the bytes, or `none` where it throws itself.
abbrev pub Decompressor : Type 0
Decompressor = List ℕ → Option (List (List ℕ × Bool))

abbrev pub emissions : Option (List (List ℕ × Bool)) → Checked (List (List ℕ × Bool))
emissions none = err decoder_failed
emissions (some chunks) = ok chunks

unfoldable pub decompress_bounded_zstd_frame : Decompressor → List ℕ → ℕ → ℕ → Checked (List ℕ)
unfolding validate_zstd_frame_envelope emit
decompress_bounded_zstd_frame decompress bytes expected_length maximum_length = do
  require (leb expected_length (2 ^ 53 - 1) && leb expected_length maximum_length) expected_exceeds
  _ ← validate_zstd_frame_envelope bytes expected_length maximum_length
  chunks ← emissions (decompress bytes)
  e ← emit expected_length maximum_length chunks (record { output = []; finished = false })
  require e.finished not_finished
  require (length e.output == expected_length) output_mismatch
  ok e.output
