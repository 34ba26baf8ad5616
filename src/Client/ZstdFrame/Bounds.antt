-- ===== src/Client/ZstdFrame/Bounds.antt =====
-- zstd-frame.ts: what `decompressBoundedZstdFrame` gives.
use zhongduan.Base.{
  ℕ, ◌≤◌, ◌≡◌, refl, sym, ap, ◌∙◌, Bool, true, false, not, Option, none, some, List, [], ◌∷◌, ◌++◌,
  ==_iff, length, ok, require_inv, bind_inv, ok-injective, leb→le, &&-right,
}
use zhongduan.Client.ZstdFrame.{
  validate_zstd_frame_envelope, Emission, emit, Decompressor, emissions,
  decompress_bounded_zstd_frame,
}
use zhongduan.Client.ZstdFrame.Format.{Envelope}
use zhongduan.Client.ZstdFrame.Layout.{validate-Envelope}

abbrev pub joined : List (List ℕ × Bool) → List ℕ
joined [] = []
joined ((chunk, final) ∷ rest) = chunk ++ joined rest

++_assoc : (xs ys zs : List ℕ) → (xs ++ ys) ++ zs ≡ xs ++ (ys ++ zs)
++_assoc [] ys zs = refl
++_assoc (x ∷ xs) ys zs = ap (◌∷◌ x) (++_assoc xs ys zs)

++_nil : (xs : List ℕ) → xs ++ [] ≡ xs
++_nil [] = refl
++_nil (x ∷ xs) = ap (◌∷◌ x) (++_nil xs)

emit-joined :
    (expected maximum : ℕ) (chunks : List (List ℕ × Bool)) (e r : Emission)
    → emit expected maximum chunks e ≡ ok r
    → r.output ≡ e.output ++ joined chunks
unfolding emit
emit-joined expected maximum [] e r h =
    ap (λ (x : Emission). x.output) (sym (ok-injective h)) ∙ sym (++_nil e.output)
emit-joined expected maximum ((chunk, final) ∷ rest) e r h =
    let (_, h1) = require_inv (not e.finished) _ _ h in
    let next : Emission = record { output = e.output ++ chunk; finished = final } in
    let (_, h2) = require_inv _ _ (emit expected maximum rest next) h1 in
    emit-joined expected maximum rest next r h2 ∙ ++_assoc e.output chunk (joined rest)

-- The last chunk, and no other, is marked as the final one.
abbrev pub Finishes : List (List ℕ × Bool) → Type 0
Finishes [] = ⊥
Finishes ((chunk, final) ∷ []) = final ≡ true
Finishes ((chunk, final) ∷ (next ∷ rest)) = (final ≡ false) × Finishes (next ∷ rest)

emit-Finishes :
    (expected maximum : ℕ) (chunks : List (List ℕ × Bool)) (e r : Emission)
    → emit expected maximum chunks e ≡ ok r
    → e.finished ≡ false
    → r.finished ≡ true
    → Finishes chunks
unfolding emit
emit-Finishes expected maximum [] e r h u v =
    absurd (no (sym u ∙ ap (λ (x : Emission). x.finished) (ok-injective h) ∙ v))
  where
    no : false ≡ true → ⊥
    no x = cc
emit-Finishes expected maximum ((chunk, final) ∷ []) e r h u v =
    let (_, h1) = require_inv (not e.finished) _ _ h in
    let (_, h2) = require_inv _ _ _ h1 in ap (λ (x : Emission). x.finished) (ok-injective h2) ∙ v
emit-Finishes expected maximum ((chunk, final) ∷ ((c, f) ∷ rest)) e r h u v =
    let (_, h1) = require_inv (not e.finished) _ _ h in
    let next : Emission = record { output = e.output ++ chunk; finished = final } in
    let (_, h2) = require_inv _ _ (emit expected maximum ((c, f) ∷ rest) next) h1 in
    let (q, _) = require_inv (not final) _ _ h2 in
    let open_end = opens final q in
    (open_end, emit-Finishes expected maximum ((c, f) ∷ rest) next r h2 open_end v)
  where
    opens : (b : Bool) → not b ≡ true → b ≡ false
    opens true q = cc
    opens false q = refl

-- What `decompressBoundedZstdFrame` gives: the bytes that the decompressor emitted up to its final
-- chunk, as many as expected, from a frame with the layout of an `Envelope`.
pub record Decompressed (decompress : Decompressor) (bytes : List ℕ) (expected maximum : ℕ)
    (out : List ℕ) : Type 0 where
  pub limit : ℕ
  pub envelope : Envelope bytes expected maximum limit
  pub chunks : List (List ℕ × Bool)
  pub emitted : decompress bytes ≡ some chunks
  pub finished : Finishes chunks
  pub output : out ≡ joined chunks
  pub size : length out ≡ expected
  pub bounded : expected ≤ maximum

emissions-inv :
    (o : Option (List (List ℕ × Bool))) (chunks : List (List ℕ × Bool))
    → emissions o ≡ ok chunks
    → o ≡ some chunks
emissions-inv none chunks h = cc
emissions-inv (some x) chunks h = ap some (ok-injective h)

-- Whatever the decompressor does, a result of `decompressBoundedZstdFrame` is the chunks that it
-- emitted, of which the last and no other is marked as final, joined; it is as long as expected, which
-- is at most the maximum; and the bytes are laid out as an `Envelope` for that length: header, blocks
-- and checksum as the format has them, with every block under the bound.
pub decompress-Decompressed :
    (decompress : Decompressor) (bytes : List ℕ) (expected maximum : ℕ) (out : List ℕ)
    → decompress_bounded_zstd_frame decompress bytes expected maximum ≡ ok out
    → Decompressed decompress bytes expected maximum out
unfolding decompress_bounded_zstd_frame
decompress-Decompressed decompress bytes expected maximum out h =
    let (b, h1) = require_inv _ _ _ h in
    let (limit, v, h2) = bind_inv (validate_zstd_frame_envelope bytes expected maximum) _ h1 in
    let (chunks, c, h3) = bind_inv (emissions (decompress bytes)) _ h2 in
    let (r, e, h4) =
      bind_inv (emit expected maximum chunks (record { output = []; finished = false })) _ h3 in
    let (f, h5) = require_inv _ _ _ h4 in
    let (s, h6) = require_inv _ _ _ h5 in
    let same : r.output ≡ out = ok-injective h6 in
    record {
      limit = limit;
      envelope = validate-Envelope bytes expected maximum limit v;
      chunks = chunks;
      emitted = emissions-inv (decompress bytes) chunks c;
      finished =
          emit-Finishes expected maximum chunks (record { output = []; finished = false }) r e refl
            f;
      output =
          sym same
          ∙ emit-joined expected maximum chunks (record { output = []; finished = false }) r e;
      size = sym (ap length same) ∙ (==_iff (length r.output) expected).0 s;
      bounded = leb→le expected maximum (&&-right _ _ b);
    }
