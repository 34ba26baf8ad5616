-- ===== src/Client/ZstdFrame/Header.antt =====
-- zstd-frame.ts: the fields between the descriptor and the blocks of a frame, read as the layout has
-- them.
use native.Mathlib.Nat.{pow-suc}
use zhongduan.Base.{
  ℕ, zero, suc, ◌+◌, ◌*◌, ◌/◌, ◌%◌, ◌^◌, ◌==◌, ==_iff, ◌≤◌, ◌≡◌, ◌≢◌, refl, sym, ap, subst, ◌∙◌,
  Bool, true, false, Option, some, List, ok, arith, require_inv, bind_inv, ok-injective, leb→le,
  if◌then◌else◌, not,
}
use zhongduan.Base.Bytes.{read_le, read_byte}
use zhongduan.Client.ZstdFrame.{
  bit, window_size, dictionary_id_field_bytes, content_size_field_bytes, read_little_endian,
  read_window, read_content_size, bounded_window,
}
use zhongduan.Client.ZstdFrame.Format.{
  flag, Descriptor, descriptor_byte, window_bytes, dictionary_bytes, size_bytes, size_base, window,
  segment,
}

-- The fields of a descriptor's byte.
abbrev pub fields : ℕ → Descriptor
fields byte = record {
  dictionary_code = byte % 4;
  checksum = bit byte 2;
  unused = bit byte 4;
  single_segment = bit byte 5;
  size_code = byte / 64;
}

bit-flag : (byte k : ℕ) → flag (bit byte k) ≡ byte / 2 ^ k % 2
bit-flag byte k = ground arith

bit-clear : (byte k : ℕ) → not (bit byte k) ≡ true → byte / 2 ^ k % 2 ≡ 0
bit-clear byte k h = ground arith

pub fields_lem : (byte : ℕ) → not (bit byte 3) ≡ true → byte ≡ descriptor_byte (fields byte)
fields_lem byte h =
    omega (arith, bit-flag byte 2, bit-flag byte 4, bit-flag byte 5, bit-clear byte 3 h)

pub dictionary_bytes_lem : (c : ℕ) → c ≤ 3 → dictionary_id_field_bytes c ≡ dictionary_bytes c
dictionary_bytes_lem zero h = refl
dictionary_bytes_lem (suc zero) h = refl
dictionary_bytes_lem (suc (suc zero)) h = refl
dictionary_bytes_lem (suc (suc (suc zero))) h = refl
dictionary_bytes_lem (suc (suc (suc (suc n)))) h = absurd (omega arith)

pub size_bytes_lem :
    (c : ℕ) (single : Bool) → content_size_field_bytes c single ≡ size_bytes single c
size_bytes_lem zero true = refl
size_bytes_lem zero false = refl
size_bytes_lem (suc zero) single = refl
size_bytes_lem (suc (suc zero)) single = refl
size_bytes_lem (suc (suc (suc n))) single = ground arith

pow_three : (n : ℕ) → 2 ^ suc (suc (suc n)) ≡ 8 * 2 ^ n
pow_three n = omega (arith, pow-suc 2 n, pow-suc 2 (suc n), pow-suc 2 (suc (suc n)))

eighths : (b m : ℕ) → 8 * b + 8 * b / 8 * m ≡ (8 + m) * b
eighths b m = let e : 8 * b / 8 ≡ b = omega arith in rw e (grind arith)

pub window_lem : (byte : ℕ) → window_size byte ≡ window byte
window_lem byte =
    let above : 10 + byte / 8 ≡ suc (suc (suc (7 + byte / 8))) = omega arith in
    rw (above, pow_three (7 + byte / 8)) (eighths (2 ^ (7 + byte / 8)) (byte % 8))

pub size_bytes-single : (c : ℕ) → size_bytes true c ≢ 0
size_bytes-single zero = omega arith
size_bytes-single (suc zero) = omega arith
size_bytes-single (suc (suc zero)) = omega arith
size_bytes-single (suc (suc (suc c))) = omega arith

-- A window that is read: the offset behind it, and its bound.
pub record WindowRead (bytes : List ℕ) (single : Bool) (maximum : ℕ) (r : Option ℕ × ℕ)
    : Type 0 where
  pub offset : r.1 ≡ 5 + window_bytes single
  pub found : single ≡ false → r.0 ≡ some (window (read_byte 5 bytes))
  pub under : single ≡ false → window (read_byte 5 bytes) ≤ maximum

pub read_window-WindowRead :
    (bytes : List ℕ) (single : Bool) (maximum : ℕ) (r : Option ℕ × ℕ)
    → read_window bytes 5 single maximum ≡ ok r
    → WindowRead bytes single maximum r
unfolding read_window
read_window-WindowRead bytes true maximum r h =
    subst (WindowRead bytes true maximum) (ok-injective h)
      (record { offset = refl; found = λ e. cc; under = λ e. cc })
read_window-WindowRead bytes false maximum r h =
    let (_, h1) = require_inv _ _ _ h in
    let (q, h2) = require_inv _ _ _ h1 in
    let size = read_byte 5 bytes in
    subst (WindowRead bytes false maximum) (ok-injective h2) (record {
      offset = refl;
      found = λ e. ap some (window_lem size);
      under = λ e.
          subst (λ (w : ℕ). w ≤ maximum) (window_lem size) (leb→le (window_size size) maximum q);
    })

-- A content size that is read: the offset behind it, and that it is the one expected.
pub record SizeRead (bytes : List ℕ) (offset n expected maximum : ℕ) (r : Option ℕ × ℕ)
    : Type 0 where
  pub behind : r.1 ≡ offset + n
  pub declared : n ≢ 0 → (read_le n offset bytes + size_base n ≡ expected) × (expected ≤ maximum)
  pub found : n ≢ 0 → r.0 ≡ some expected

pub based : (n size : ℕ) → (if n == 2 then size + 256 else size) ≡ size + size_base n
based zero size = omega arith
based (suc zero) size = omega arith
based (suc (suc zero)) size = refl
based (suc (suc (suc n))) size = ground arith

pub read_content_size-SizeRead :
    (bytes : List ℕ) (offset n expected maximum : ℕ) (r : Option ℕ × ℕ)
    → read_content_size bytes offset n expected maximum ≡ ok r
    → SizeRead bytes offset n expected maximum r
unfolding read_content_size
read_content_size-SizeRead bytes offset zero expected maximum r h =
    subst (SizeRead bytes offset zero expected maximum) (ok-injective h) (record {
      behind = omega arith;
      declared = λ e. absurd (e refl);
      found = λ e. absurd (e refl);
    })
read_content_size-SizeRead bytes offset (suc n) expected maximum r h =
    let (size, h0, h1) = bind_inv (read_little_endian bytes offset (suc n)) _ h in
    let content = if suc n == 2 then size + 256 else size in
    let (q, h2) = require_inv _ _ _ h1 in
    let (m, h3) = require_inv _ _ _ h2 in
    let same : content ≡ expected = (==_iff content expected).0 m in
    let read : read_le (suc n) offset bytes ≡ size = ok-injective (require_inv _ _ _ h0).1 in
    subst (SizeRead bytes offset (suc n) expected maximum) (ok-injective h3) (record {
      behind = refl;
      declared = λ e. (
        ap (λ (x : ℕ). x + size_base (suc n)) read ∙ sym (based (suc n) size) ∙ same,
        subst (λ (x : ℕ). x ≤ maximum) same (leb→le content maximum q),
      );
      found = λ e. ap some same;
    })

-- What bounds the blocks is the segment, and it is within the maximum.
pub bounded_window-segment :
    (bytes : List ℕ) (single : Bool) (code offset expected maximum bound : ℕ) (w c : Option ℕ × ℕ)
    → WindowRead bytes single maximum w
    → SizeRead bytes offset (size_bytes single code) expected maximum c
    → bounded_window single w.0 c.0 ≡ ok bound
    → (bound ≡ segment single expected bytes) × (segment single expected bytes ≤ maximum)
unfolding bounded_window
bounded_window-segment bytes true code offset expected maximum bound w c u v h = (
  ok-injective (sym h ∙ ap (bounded_window true w.0) (v.found (size_bytes-single code))),
  (v.declared (size_bytes-single code)).1,
)
bounded_window-segment bytes false code offset expected maximum bound w c u v h = (
  ok-injective (sym h ∙ ap (λ (o : Option ℕ). bounded_window false o c.0) (u.found refl)),
  u.under refl,
)
