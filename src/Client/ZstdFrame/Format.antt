-- ===== src/Client/ZstdFrame/Format.antt =====
-- zstd-frame.ts: the layout of a standard frame, described by its fields, which
-- `validateZstdFrameEnvelope` is compared with.
use zhongduan.Base.{
  ℕ, zero, suc, ◌+◌, ◌*◌, ◌/◌, ◌%◌, ◌^◌, ◌≤◌, ◌≡◌, ◌≢◌, min, Bool, true, false, List, length,
}
use zhongduan.Base.Bytes.{read_le, read_byte}

-- How the content of a block is stored: as it is, as one byte that is repeated, or compressed.
pub data Storage : Type 0 where
  raw repeated compressed : Storage

abbrev pub type_code : Storage → ℕ
type_code raw = 0
type_code repeated = 1
type_code compressed = 2

abbrev pub stored_bytes : Storage → ℕ → ℕ
stored_bytes raw size = size
stored_bytes repeated size = 1
stored_bytes compressed size = size

abbrev pub flag : Bool → ℕ
flag true = 1
flag false = 0

-- The three bytes at an offset are the header of a block, and what it stores lies within the bytes.
pub record BlockAt (bytes : List ℕ) (limit offset : ℕ) (last : Bool) (storage : Storage) (size : ℕ)
    : Type 0 where
  pub header : read_le 3 offset bytes ≡ flag last + 2 * type_code storage + 8 * size
  pub small : size ≤ limit
  pub inside : offset + 3 + stored_bytes storage size ≤ length bytes

-- Blocks that follow one another from an offset to the offset behind the one marked as the last.
pub data Blocks (bytes : List ℕ) (limit : ℕ) : ℕ → ℕ → Type 0 where
  final_block :
      (offset end : ℕ) (storage : Storage) (size : ℕ)
      → BlockAt bytes limit offset true storage size
      → offset + 3 + stored_bytes storage size ≡ end
      → Blocks bytes limit offset end
  further_block :
      (offset end : ℕ) (storage : Storage) (size : ℕ)
      → BlockAt bytes limit offset false storage size
      → Blocks bytes limit (offset + 3 + stored_bytes storage size) end
      → Blocks bytes limit offset end

-- The fields of the descriptor; its bit 3 is reserved.
pub record Descriptor : Type 0 where
  pub dictionary_code : ℕ
  pub checksum : Bool
  pub unused : Bool
  pub single_segment : Bool
  pub size_code : ℕ

abbrev pub descriptor_byte : Descriptor → ℕ
descriptor_byte d =
    d.dictionary_code
    + 4 * flag d.checksum
    + 16 * flag d.unused
    + 32 * flag d.single_segment
    + 64 * d.size_code

-- The bytes of each field behind the descriptor.
abbrev pub window_bytes : Bool → ℕ
window_bytes true = 0
window_bytes false = 1

abbrev pub dictionary_bytes : ℕ → ℕ
dictionary_bytes zero = 0
dictionary_bytes (suc zero) = 1
dictionary_bytes (suc (suc zero)) = 2
dictionary_bytes (suc (suc (suc n))) = 4

abbrev pub size_bytes : Bool → ℕ → ℕ
size_bytes true zero = 1
size_bytes false zero = 0
size_bytes single (suc zero) = 2
size_bytes single (suc (suc zero)) = 4
size_bytes single (suc (suc (suc n))) = 8

-- A content size of two bytes counts from 256.
abbrev pub size_base : ℕ → ℕ
size_base (suc (suc zero)) = 256
size_base _ = 0

-- A window's byte: an exponent above 2 ^ 10 in its upper five bits, and eighths in the lower three.
abbrev pub window : ℕ → ℕ
window byte = (8 + byte % 8) * 2 ^ (7 + byte / 8)

-- What bounds a block before the 128 KiB do: the window, or the content of a single segment.
abbrev pub segment : Bool → ℕ → List ℕ → ℕ
segment true expected bytes = expected
segment false expected bytes = window (read_byte 5 bytes)

-- A frame that stands for `expected` bytes, and whose blocks are no larger than `limit`.
pub record Envelope (bytes : List ℕ) (expected maximum limit : ℕ) : Type 0 where
  pub descriptor : Descriptor
  pub dictionary_offset : ℕ
  pub size_offset : ℕ
  pub start : ℕ
  pub end : ℕ
  pub magic :
      (read_byte 0 bytes ≡ 0x28)
      × (read_byte 1 bytes ≡ 0xb5)
      × (read_byte 2 bytes ≡ 0x2f)
      × (read_byte 3 bytes ≡ 0xfd)
  pub described : read_byte 4 bytes ≡ descriptor_byte descriptor
  pub dictionary_small : descriptor.dictionary_code ≤ 3
  pub dictionary_at : dictionary_offset ≡ 5 + window_bytes descriptor.single_segment
  pub no_dictionary :
      read_le (dictionary_bytes descriptor.dictionary_code) dictionary_offset bytes ≡ 0
  pub size_at : size_offset ≡ dictionary_offset + dictionary_bytes descriptor.dictionary_code
  pub content :
      size_bytes descriptor.single_segment descriptor.size_code ≢ 0
      → (read_le (size_bytes descriptor.single_segment descriptor.size_code) size_offset bytes
            + size_base (size_bytes descriptor.single_segment descriptor.size_code)
          ≡ expected)
        × (expected ≤ maximum)
  pub start_at : start ≡ size_offset + size_bytes descriptor.single_segment descriptor.size_code
  pub bounded : segment descriptor.single_segment expected bytes ≤ maximum
  pub limited : limit ≡ min (segment descriptor.single_segment expected bytes) (128 * 1024)
  pub blocks : Blocks bytes limit start end
  pub whole : end + 4 * flag descriptor.checksum ≡ length bytes
