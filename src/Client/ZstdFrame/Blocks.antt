-- ===== src/Client/ZstdFrame/Blocks.antt =====
-- zstd-frame.ts: the loop over the blocks and its fuel.
use zhongduan.Base.{
  ap, ◌/◌, not, if◌then◌else◌, ◌*◌, ◌%◌, ◌==◌, ℕ, zero, suc, ◌+◌, ◌≤◌, ◌<◌, ◌≡◌, refl, sym, subst,
  ◌∙◌, inl, inr, Bool, true, List, length, ok, arith, require_inv, bind_inv, ok-injective,
  Bool-cases, Result-cases, leb→le,
}
use zhongduan.Client.ZstdFrame.{
  read_little_endian, BlockHeader, block_header, read_block, read_blocks,
}
use zhongduan.Client.ZstdFrame.{bit}
use zhongduan.Client.ZstdFrame.Format.{
  Storage, raw, repeated, compressed, type_code, stored_bytes, flag, BlockAt, Blocks, final_block,
  further_block,
}

-- A block type that is not reserved, with the bytes that the code counts for it.
record Stored (t size : ℕ) : Type 0 where
  pub storage : Storage
  pub code : t ≡ type_code storage
  pub count : (if t == 1 then 1 else size) ≡ stored_bytes storage size

block_type-Stored : (t size : ℕ) → t < 4 → not (t == 3) ≡ true → Stored t size
block_type-Stored zero size h n = record { storage = raw; code = refl; count = refl }
block_type-Stored (suc zero) size h n = record { storage = repeated; code = refl; count = refl }
block_type-Stored (suc (suc zero)) size h n = record {
  storage = compressed;
  code = refl;
  count = refl;
}
block_type-Stored (suc (suc (suc zero))) size h n = absurd (cc)
block_type-Stored (suc (suc (suc (suc t)))) size h n = absurd (omega arith)

last-flag : (h : ℕ) → flag (bit h 0) ≡ h % 2
last-flag h = ground arith

-- The three fields of a block's header.
header_type : (h : ℕ) → h / 2 % 4 < 4
header_type h = omega arith

header_fields : (h code : ℕ) → h / 2 % 4 ≡ code → h ≡ flag (bit h 0) + 2 * code + 8 * (h / 8)
header_fields h code e = omega (arith, last-flag h)

-- A round of the loop that goes well has read a block.
record ReadBlock (bytes : List ℕ) (offset limit : ℕ) (r : BlockHeader × ℕ) : Type 0 where
  pub storage : Storage
  pub size : ℕ
  pub block : BlockAt bytes limit offset r.0.last_block storage size
  pub next : offset + 3 + stored_bytes storage size ≡ r.1
  pub inside : r.1 ≤ length bytes
  pub further : offset + 3 ≤ r.1

read_block-inv :
    (bytes : List ℕ) (offset limit : ℕ) (r : BlockHeader × ℕ)
    → read_block bytes offset limit ≡ ok r
    → ReadBlock bytes offset limit r
unfolding read_block
read_block-inv bytes offset limit r h =
    let (header, h0, h1) = bind_inv (read_little_endian bytes offset 3) _ h in
    let b = block_header header in
    let (n, h2) = require_inv _ _ _ h1 in
    let (q, h3) = require_inv _ _ _ h2 in
    let (w, h4) = require_inv _ _ _ h3 in
    let s = block_type-Stored b.block_type b.block_size (header_type header) n in
    let inside = leb→le (offset + 3 + b.encoded_block_size) (length bytes) w in
    let next = sym (ap (λ (n : ℕ). offset + 3 + n) s.count) in
    subst (ReadBlock bytes offset limit) (ok-injective h4) (record {
      storage = s.storage;
      size = b.block_size;
      block = record {
        header =
            ok-injective (require_inv _ _ _ h0).1
            ∙ header_fields header (type_code s.storage) s.code;
        small = leb→le b.block_size limit q;
        inside = subst (λ (n : ℕ). n ≤ length bytes) (sym next) inside;
      };
      next = next;
      inside = inside;
      further = further (offset + 3) b.encoded_block_size;
    })
  where
    further : (n k : ℕ) → n ≤ n + k
    further n k = omega arith

-- From an offset within the bytes, any two amounts of fuel that are more than the bytes left give the
-- same result.
pub read_blocks_fuel :
    (f g : ℕ) (bytes : List ℕ) (offset limit : ℕ)
    → length bytes < f + offset
    → length bytes < g + offset
    → offset ≤ length bytes
    → read_blocks f bytes offset limit ≡ read_blocks g bytes offset limit
unfolding read_blocks
read_blocks_fuel zero g bytes offset limit h k o = absurd (omega arith)
read_blocks_fuel (suc f) zero bytes offset limit h k o = absurd (omega arith)
read_blocks_fuel (suc f) (suc g) bytes offset limit h k o =
    elim (Result-cases (read_block bytes offset limit)) [
      | inr (x, e) ↦ rw (e, read_blocks) refl
      | inl ((b, next), e) ↦
          let v = read_block-inv bytes offset limit (b, next) e in
          elim (Bool-cases b.last_block) [
            | inl t ↦ rw (e, read_blocks, t) refl
            | inr t ↦
                rw (e, read_blocks, t)
                  (read_blocks_fuel f g bytes next limit (omega (arith, v.further))
                    (omega (arith, v.further)) v.inside)
          ]
    ]

pub read_blocks-Blocks :
    (fuel : ℕ) (bytes : List ℕ) (offset limit end : ℕ)
    → read_blocks fuel bytes offset limit ≡ ok end
    → Blocks bytes limit offset end × (end ≤ length bytes)
unfolding read_blocks
read_blocks-Blocks zero bytes offset limit end h = cc
read_blocks-Blocks (suc fuel) bytes offset limit end h =
    let (r, e, k) = bind_inv (read_block bytes offset limit) _ h in
    let v = read_block-inv bytes offset limit r e in
    elim (Bool-cases r.0.last_block) [
      | inl t ↦
          let same : r.1 ≡ end = ok-injective (rw t at k) in
          (
            final_block offset end v.storage v.size
                (subst (λ (x : Bool). BlockAt bytes limit offset x v.storage v.size) t v.block)
                (v.next ∙ same),
            omega (arith, v.inside),
          )
      | inr t ↦
          let (w, le) = read_blocks-Blocks fuel bytes r.1 limit end (rw t at k) in
          (
            further_block offset end v.storage v.size
                (subst (λ (x : Bool). BlockAt bytes limit offset x v.storage v.size) t v.block)
                (subst (λ (o : ℕ). Blocks bytes limit o end) (sym v.next) w),
            le,
          )
    ]
