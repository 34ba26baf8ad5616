-- ===== src/Protocol/Frame/Batches.antt =====
-- data-frame.ts: `encodeDataFrameBatch` against `decodeDataFrameBatchEntries`.
use zhongduan.Base.{
  ℕ, zero, suc, ◌+◌, ◌-◌, ◌≤◌, ◌<◌, ◌≡◌, refl, ap, sym, subst, ◌∙◌, List, [], ◌∷◌, ◌++◌, map, arith,
  length, drop, take, All, ok, ◌>>=◌, ltb, leb, not, ◌||◌, ◌==◌, true, require, ◌>>◌, require_inv,
  bind_inv, ok-injective, leb→le, length-append, length-drop, take-append-drop, take-length_append,
  drop-length_append, take-drop-append,
}
use zhongduan.Base.Bytes.{le_value, read_le}
use zhongduan.Protocol.Errors.{ProtocolErrorCode}
use zhongduan.Protocol.Frame.{
  DataFrame, DecodedEntry, Outcome, decode_data_frame, entry_round, decode_entries, concat,
  batch_bytes, encode_data_frame_batch, decode_data_frame_batch_entries, max_data_payload_bytes,
  max_data_batch_bytes,
}
use zhongduan.Protocol.Frame.Layout.{IsEncoded, decode-IsEncoded}

abbrev pub IsEncodedBy : List (List ℕ) → List DecodedEntry → Type 0
IsEncodedBy frames entries = map (λ e. e.encoded) entries ≡ frames

first_check :
    (count : ℕ) (frame rest : List ℕ)
    → IsEncoded frame
    → count < 64
    → not (leb 64 count || ltb (length (frame ++ rest)) 48) ≡ true
first_check count frame rest v h = ground (arith, length-append frame rest)

second_check :
    (n : ℕ) (frame rest : List ℕ)
    → n ≤ max_data_payload_bytes
    → length frame ≡ 48 + n
    → not (ltb (max_data_payload_bytes) n || ltb (length (frame ++ rest)) (48 + n)) ≡ true
second_check n frame rest small e = ground (arith, length-append frame rest)

entry_round-frame :
    (count : ℕ) (frame rest : List ℕ) (f : DataFrame) (more : List ℕ → Outcome (List DecodedEntry))
    → decode_data_frame frame ≡ ok f
    → count < 64
    → entry_round count (frame ++ rest) more
      ≡ (more rest >>= λ entries. ok (record { encoded = frame; frame = f } ∷ entries))
unfolding entry_round
entry_round-frame count frame rest f more h small = rw (
  first_check count frame rest v small,
  size,
  second_check (read_le 4 44 frame) frame rest v.limit v.exact,
  ← v.exact,
  take-length_append frame rest,
  drop-length_append frame rest,
  h,
)
  where
    v : IsEncoded frame
    v = (decode-IsEncoded frame f h).0

    size : read_le 4 44 (frame ++ rest) ≡ read_le 4 44 frame
    size = ap le_value (take-drop-append 4 44 frame rest (omega (arith, v.header)))

entry_round-agree :
    (count : ℕ) (bytes : List ℕ) (more more' : List ℕ → Outcome (List DecodedEntry))
    → more (drop (48 + read_le 4 44 bytes) bytes) ≡ more' (drop (48 + read_le 4 44 bytes) bytes)
    → entry_round count bytes more ≡ entry_round count bytes more'
unfolding entry_round
entry_round-agree count bytes more more' e = rw e

-- The loop never runs out of fuel: any two amounts that cover the bytes left give the same result.
pub decode_entries-fuel :
    (fuel fuel' count : ℕ) (bytes : List ℕ)
    → length bytes ≤ fuel
    → length bytes ≤ fuel'
    → decode_entries fuel count bytes ≡ decode_entries fuel' count bytes
unfolding decode_entries
decode_entries-fuel fuel fuel' count [] h h' = refl
decode_entries-fuel zero fuel' count (b ∷ bs) h h' = absurd (omega arith)
decode_entries-fuel (suc fuel) zero count (b ∷ bs) h h' = absurd (omega arith)
decode_entries-fuel (suc fuel) (suc fuel') count (b ∷ bs) h h' =
    let size = 48 + read_le 4 44 (b ∷ bs) in
    entry_round-agree count (b ∷ bs) (decode_entries fuel (count + 1))
      (decode_entries fuel' (count + 1))
      (decode_entries-fuel fuel fuel' (count + 1) (drop size (b ∷ bs))
        (omega (arith, length-drop size (b ∷ bs))) (omega (arith, length-drop size (b ∷ bs))))

decode_entries_step :
    (fuel count : ℕ) (frame rest : List ℕ) (f : DataFrame)
    → decode_data_frame frame ≡ ok f
    → count < 64
    → decode_entries (suc fuel) count (frame ++ rest) ≡ (
        decode_entries fuel (count + 1) rest >>= λ entries.
        ok (record { encoded = frame; frame = f } ∷ entries))
unfolding decode_entries
decode_entries_step fuel count [] rest f h small =
    absurd (omega (arith, (decode-IsEncoded [] f h).0.header))
decode_entries_step fuel count (b ∷ bs) rest f h small =
    entry_round-frame count (b ∷ bs) rest f (decode_entries fuel (count + 1)) h small

-- A byte list that `decodeDataFrame` accepts.
abbrev pub Decodes : List ℕ → Type 0
Decodes frame = (f : DataFrame) × (decode_data_frame frame ≡ ok f)

batch_bytes-Decodes :
    (frames : List (List ℕ)) (total t : ℕ)
    → batch_bytes frames total ≡ ok t
    → total ≤ max_data_batch_bytes
    → All Decodes frames × (total + length (concat frames) ≤ max_data_batch_bytes)
unfolding batch_bytes concat
batch_bytes-Decodes [] total t h small = (tt, omega arith)
batch_bytes-Decodes (frame ∷ frames) total t h small =
    let (f, d, h1) = bind_inv (decode_data_frame frame) _ h in
    let (fits, h2) = require_inv _ _ _ h1 in
    let (ds, bound) = batch_bytes-Decodes frames (total + length frame) t h2 (leb→le _ _ fits) in
    (((f, d), ds), omega (arith, length-append frame (concat frames)))

decode_entries-concat :
    (frames : List (List ℕ)) (fuel count : ℕ)
    → All Decodes frames
    → count + length frames ≤ 64
    → length frames ≤ fuel
    → (entries : List DecodedEntry) × (decode_entries fuel count (concat frames) ≡ ok entries)
      × IsEncodedBy frames entries
unfolding concat
decode_entries-concat [] fuel count ds small enough = ([], unfold decode_entries in refl, refl)
decode_entries-concat (frame ∷ frames) zero count ds small enough = absurd (omega arith)
decode_entries-concat (frame ∷ frames) (suc fuel) count ((f, d), ds) small enough =
    let (entries, e, same) =
      decode_entries-concat frames fuel (count + 1) ds (omega arith) (omega arith) in
    (
      record { encoded = frame; frame = f } ∷ entries,
      decode_entries_step fuel count frame (concat frames) f d (omega arith) ∙ rw e refl,
      ap (◌∷◌ frame) same,
    )

length-concat :
    (frames : List (List ℕ)) → All Decodes frames → length frames ≤ length (concat frames)
unfolding concat
length-concat [] ds = omega arith
length-concat (frame ∷ frames) ((f, d), ds) = omega (
  arith,
  length-append frame (concat frames),
  length-concat frames ds,
  (decode-IsEncoded frame f d).0.header,
)

count_check : (n : ℕ) → not (n == 0 || ltb 64 n) ≡ true → (0 < n) × (n ≤ 64)
count_check n h = ground arith

size_check :
    (n : ℕ) → 0 < n → n ≤ max_data_batch_bytes → not (n == 0 || ltb (max_data_batch_bytes) n) ≡ true
size_check n h k = ground arith

-- Whatever `encodeDataFrameBatch` accepts, `decodeDataFrameBatchEntries` takes the result apart
-- into exactly the frames given, in their order.
pub decode_batch-encode_batch :
    (frames : List (List ℕ)) (bytes : List ℕ)
    → encode_data_frame_batch frames ≡ ok bytes
    → (entries : List DecodedEntry) × (decode_data_frame_batch_entries bytes ≡ ok entries)
      × (map (λ e. e.encoded) entries ≡ frames)
unfolding encode_data_frame_batch decode_data_frame_batch_entries
decode_batch-encode_batch frames bytes h =
    let (counted, h1) = require_inv _ _ _ h in
    let (t, total, h2) = bind_inv (batch_bytes frames 0) _ h1 in
    let (ds, bound) = batch_bytes-Decodes frames 0 t total (omega arith) in
    let (some_frame, few) = count_check (length frames) counted in
    let (entries, e, same) =
      decode_entries-concat frames (length (concat frames)) 0 ds (omega (arith, few))
        (length-concat frames ds) in
    (
      entries,
      subst
          (λ (b : List ℕ).
            (require (not (length b == 0 || ltb max_data_batch_bytes (length b)))
                ProtocolErrorCode.bad_length
              >> decode_entries (length b) 0 b)
            ≡ ok entries)
          (ok-injective h2)
          (rw
            (size_check (length (concat frames)) (omega (arith, length-concat frames ds))
              (omega (arith, bound)))
            e),
      same,
    )

few_entries : (count size : ℕ) → not (leb 64 count || ltb size 48) ≡ true → count < 64
few_entries count size h = ground arith

entry_round_sound :
    (count : ℕ) (bytes : List ℕ) (more : List ℕ → Outcome (List DecodedEntry))
    (entries : List DecodedEntry)
    → entry_round count bytes more ≡ ok entries
    → (n : ℕ) × (f : DataFrame) × (es : List DecodedEntry) × (decode_data_frame (take n bytes)
        ≡ ok f)
      × (more (drop n bytes) ≡ ok es)
      × (entries ≡ record { encoded = take n bytes; frame = f } ∷ es)
      × (count < 64)
unfolding entry_round
entry_round_sound count bytes more entries h =
    let n = 48 + read_le 4 44 bytes in
    let (small, h1) = require_inv _ _ _ h in
    let (_, h2) = require_inv _ _ _ h1 in
    let (f, d, h3) = bind_inv (decode_data_frame (take n bytes)) _ h2 in
    let (es, e, h4) = bind_inv (more (drop n bytes)) _ h3 in
    (n, f, es, d, e, sym (ok-injective h4), few_entries count (length bytes) small)

-- What a decoded batch is: its entries cut the input without a gap, each holds the decoding of its
-- own bytes, and there are few enough of them.
pub record Cuts (count : ℕ) (bytes : List ℕ) (entries : List DecodedEntry) : Type 0 where
  pub whole : concat (map (λ e. e.encoded) entries) ≡ bytes
  pub each : All (λ (e : DecodedEntry). decode_data_frame e.encoded ≡ ok e.frame) entries
  pub few : length entries ≤ 64 - count

decode_entries-Cuts :
    (fuel count : ℕ) (bytes : List ℕ) (entries : List DecodedEntry)
    → decode_entries fuel count bytes ≡ ok entries
    → Cuts count bytes entries
unfolding decode_entries concat
decode_entries-Cuts fuel count [] entries h =
    rw (← ok-injective h) (record { whole = refl; each = tt; few = omega arith })
decode_entries-Cuts zero count (b ∷ bs) entries h = cc
decode_entries-Cuts (suc fuel) count (b ∷ bs) entries h =
    let (n, f, es, d, e, same, small) =
      entry_round_sound count (b ∷ bs) (decode_entries fuel (count + 1)) entries h in
    let cuts = decode_entries-Cuts fuel (count + 1) (drop n (b ∷ bs)) es e in
    rw same (record {
      whole = ap (◌++◌ (take n (b ∷ bs))) cuts.whole ∙ take-append-drop n (b ∷ bs);
      each = (d, cuts.each);
      few = omega (arith, cuts.few);
    })

-- Whatever `decodeDataFrameBatchEntries` accepts is at most 64 frames that make up the whole input
-- in order, each entry with the decoding of its own bytes.
pub decode_batch-Cuts :
    (bytes : List ℕ) (entries : List DecodedEntry)
    → decode_data_frame_batch_entries bytes ≡ ok entries
    → Cuts 0 bytes entries
unfolding decode_data_frame_batch_entries
decode_batch-Cuts bytes entries h =
    let (_, h1) = require_inv _ _ _ h in decode_entries-Cuts (length bytes) 0 bytes entries h1
