-- ===== src/Client/ZstdFrame/Accepted.antt =====
-- zstd-frame.ts: the loop over the blocks reads every sequence of blocks of the format.
use zhongduan.Base.{
  ℕ, zero, suc, ◌+◌, ◌*◌, ◌/◌, ◌%◌, ◌^◌, ◌==◌, ◌≤◌, ◌<◌, ◌≡◌, refl, ap, Bool, true, false, not,
  List, ok, arith, leb, if◌then◌else◌, length,
}
use zhongduan.Base.Bytes.{read_le}
use zhongduan.Client.ZstdFrame.{bit, read_little_endian, read_block, read_blocks, BlockHeader}
use zhongduan.Client.ZstdFrame.Format.{
  Storage, raw, repeated, compressed, type_code, stored_bytes, BlockAt, Blocks, final_block,
  further_block, flag,
}

pub le→leb : (a b : ℕ) → a ≤ b → leb a b ≡ true
le→leb a b h = ground arith

pub flag-le : (b : Bool) → flag b ≤ 1
flag-le true = omega arith
flag-le false = omega arith

-- The bit whose value is known.
pub bit_is : (x k : ℕ) (b : Bool) → x / 2 ^ k % 2 ≡ flag b → bit x k ≡ b
bit_is x k true h = rw h refl
bit_is x k false h = rw h refl

pub read_ok :
    (bytes : List ℕ) (offset size : ℕ)
    → offset + size ≤ length bytes
    → read_little_endian bytes offset size ≡ ok (read_le size offset bytes)
read_ok bytes offset size h = rw (le→leb (offset + size) (length bytes) h) refl

stored-count :
    (s : Storage) (size : ℕ) → (if type_code s == 1 then 1 else size) ≡ stored_bytes s size
stored-count raw size = refl
stored-count repeated size = refl
stored-count compressed size = refl

type_code-lt : (s : Storage) → type_code s < 3
type_code-lt raw = omega arith
type_code-lt repeated = omega arith
type_code-lt compressed = omega arith

not_reserved : (s : Storage) → not (type_code s == 3) ≡ true
not_reserved raw = refl
not_reserved repeated = refl
not_reserved compressed = refl

-- The header that the code reads from a block of the format.
abbrev header_of : Bool → Storage → ℕ → BlockHeader
header_of last storage size = record {
  last_block = last;
  block_type = type_code storage;
  block_size = size;
  encoded_block_size = stored_bytes storage size;
}

read_block-ok :
    (bytes : List ℕ) (limit offset : ℕ) (last : Bool) (storage : Storage) (size : ℕ)
    → BlockAt bytes limit offset last storage size
    → read_block bytes offset limit
      ≡ ok (header_of last storage size, offset + 3 + stored_bytes storage size)
unfolding read_block
read_block-ok bytes limit offset last storage size b =
    let h = flag last + 2 * type_code storage + 8 * size in
    let small = flag-le last in
    let code = type_code-lt storage in
    let is_type : h / 2 % 4 ≡ type_code storage = omega arith in
    let is_size : h / 8 ≡ size = omega arith in
    let is_last : bit h 0 ≡ last = bit_is h 0 last (omega arith) in
    rw
      (
        read_ok bytes offset 3 (omega arith),
        b.header,
        is_last,
        is_type,
        is_size,
        not_reserved storage,
        le→leb size limit b.small,
        stored-count storage size,
        le→leb (offset + 3 + stored_bytes storage size) (length bytes) b.inside,
      )
      refl

pub Blocks-inside :
    (bytes : List ℕ) (limit start end : ℕ)
    → Blocks bytes limit start end
    → (start + 3 ≤ end) × (end ≤ length bytes)
Blocks-inside bytes limit start end (final_block _ _ s size b e) =
    (omega (arith, e), omega (arith, e, b.inside))
Blocks-inside bytes limit start end (further_block _ _ s size b rest) =
    let (p, q) = Blocks-inside bytes limit (start + 3 + stored_bytes s size) end rest in
    (omega arith, q)

pub read_blocks-ok :
    (fuel : ℕ) (bytes : List ℕ) (limit start end : ℕ)
    → length bytes < fuel + start
    → Blocks bytes limit start end
    → read_blocks fuel bytes start limit ≡ ok end
unfolding read_blocks
read_blocks-ok zero bytes limit start end h b =
    absurd (omega (arith, Blocks-inside bytes limit start end b))
read_blocks-ok (suc fuel) bytes limit start end h (final_block _ _ s size b e) =
    rw (read_block-ok bytes limit start true s size b, read_blocks) (ap ok e)
read_blocks-ok (suc fuel) bytes limit start end h (further_block _ _ s size b rest) =
    rw (read_block-ok bytes limit start false s size b, read_blocks)
      (read_blocks-ok fuel bytes limit (start + 3 + stored_bytes s size) end (omega arith) rest)
