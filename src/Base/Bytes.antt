-- ===== src/Base/Bytes.antt =====
-- A `Uint8Array` is a list of numbers below 256; the reads and writes of a `DataView` on it.
use native.Mathlib.Nat.{pow-suc, zero-add, suc-add}
use zhongduan.Base.{
  ℕ, zero, suc, ◌+◌, ◌*◌, ◌/◌, ◌%◌, ◌^◌, ◌≤◌, ◌<◌, ◌≡◌, refl, ap, subst, ◌∙◌, List, [], ◌∷◌, ◌++◌,
  arith, length, take, drop, All, length-take, length-drop, take-append-drop, All-take, All-drop,
}

abbrev pub IsByte : ℕ → Type 0
IsByte b = b < 256

-- The `n` bytes that `setUint…(…, v, true)` writes: `v` modulo 256 ^ n, lowest byte first.
abbrev pub le_bytes : ℕ → ℕ → List ℕ
le_bytes zero v = []
le_bytes (suc n) v = (v % 256) ∷ le_bytes n (v / 256)

abbrev pub le_value : List ℕ → ℕ
le_value [] = 0
le_value (b ∷ bs) = b + 256 * le_value bs

-- `view.getUint…(offset, true)` over `n` bytes.
abbrev pub read_le : ℕ → ℕ → List ℕ → ℕ
read_le n offset bytes = le_value (take n (drop offset bytes))

-- `view.getUint8(offset)`.
abbrev pub read_byte : ℕ → List ℕ → ℕ
read_byte offset bytes = read_le 1 offset bytes

-- `view.setUint…(offset, v, true)` over `n` bytes.
abbrev pub write_le : ℕ → ℕ → ℕ → List ℕ → List ℕ
write_le n offset v bytes = take offset bytes ++ le_bytes n v ++ drop (offset + n) bytes

pub length-le_bytes : (n v : ℕ) → length (le_bytes n v) ≡ n
length-le_bytes zero v = refl
length-le_bytes (suc n) v = ap suc (length-le_bytes n (v / 256))

pub le_bytes-IsByte : (n v : ℕ) → All IsByte (le_bytes n v)
le_bytes-IsByte zero v = tt
le_bytes-IsByte (suc n) v = (omega arith, le_bytes-IsByte n (v / 256))

pow_step : (n : ℕ) → 256 ^ suc n ≡ 256 * 256 ^ n
pow_step n = omega (arith, pow-suc 256 n)

-- Reading back what was written.
pub le_value-le_bytes : (n v : ℕ) → v < 256 ^ n → le_value (le_bytes n v) ≡ v
le_value-le_bytes zero v h = omega arith
le_value-le_bytes (suc n) v h =
    let small : v / 256 < 256 ^ n = omega (arith, pow_step n) in
    omega (arith, le_value-le_bytes n (v / 256) small)

-- Writing back what was read.
pub le_bytes-le_value : (bs : List ℕ) → All IsByte bs → le_bytes (length bs) (le_value bs) ≡ bs
le_bytes-le_value [] h = refl
le_bytes-le_value (b ∷ bs) h =
    rw (le_byte b (le_value bs) h.0, le_rest b (le_value bs) h.0, le_bytes-le_value bs h.1)
  where
    le_byte : (b v : ℕ) → b < 256 → (b + 256 * v) % 256 ≡ b
    le_byte b v hb = omega arith

    le_rest : (b v : ℕ) → b < 256 → (b + 256 * v) / 256 ≡ v
    le_rest b v hb = omega arith

pub le_value-lt : (bs : List ℕ) → All IsByte bs → le_value bs < 256 ^ length bs
le_value-lt [] h = omega arith
le_value-lt (b ∷ bs) h = omega (arith, le_value-lt bs h.1, pow_step (length bs))

pub drop-drop : (n k : ℕ) (bs : List ℕ) → drop n (drop k bs) ≡ drop (k + n) bs
drop-drop n zero bs = rw (zero-add n) refl
drop-drop n (suc k) [] = rw suc-add (drop-nil n)
  where
    drop-nil : (n : ℕ) → drop {A = ℕ} n [] ≡ []
    drop-nil zero = refl
    drop-nil (suc n) = refl
drop-drop n (suc k) (b ∷ bs) = rw suc-add (drop-drop n k bs)

-- A field that is read and written back, followed by what stands behind it.
pub write_read :
    (n k : ℕ) (bs : List ℕ)
    → All IsByte bs
    → k + n ≤ length bs
    → le_bytes n (read_le n k bs) ++ drop (k + n) bs ≡ drop k bs
write_read n k bs h fits =
    rw (← drop-drop n k bs)
      (ap (λ (t : List ℕ). t ++ drop n (drop k bs)) same ∙ take-append-drop n (drop k bs))
  where
    field : List ℕ
    field = take n (drop k bs)

    full : length field ≡ n
    full = omega (arith, length-take n (drop k bs), length-drop k bs)

    same : le_bytes n (le_value field) ≡ field
    same =
        subst (λ (m : ℕ). le_bytes m (le_value field) ≡ field) full
          (le_bytes-le_value field (All-take IsByte n (drop k bs) (All-drop IsByte k bs h)))

-- The same with the bytes behind the field written by other means.
pub write_read_before :
    (n k v : ℕ) (bs tail : List ℕ)
    → All IsByte bs
    → k + n ≤ length bs
    → v ≡ read_le n k bs
    → tail ≡ drop (k + n) bs
    → le_bytes n v ++ tail ≡ drop k bs
write_read_before n k v bs tail h fits e behind = rw (e, behind) (write_read n k bs h fits)

pub read_le-lt :
    (n k : ℕ) (bs : List ℕ) → All IsByte bs → k + n ≤ length bs → read_le n k bs < 256 ^ n
read_le-lt n k bs h fits =
    subst (λ (m : ℕ). read_le n k bs < 256 ^ m) full
      (le_value-lt field (All-take IsByte n (drop k bs) (All-drop IsByte k bs h)))
  where
    field : List ℕ
    field = take n (drop k bs)

    full : length field ≡ n
    full = omega (arith, length-take n (drop k bs), length-drop k bs)
