-- ===== src/Host/Session/Sending.antt =====
-- session.ts: the frames that `#commitPtyOutput` has sent, chunk after chunk.
use zhongduan.Base.{
  ℕ, zero, suc, ◌+◌, ◌*◌, ◌==◌, ◌≤◌, ◌≡◌, ◌⊎◌, refl, ◌∙◌, inl, inr, true, false, List, [], ◌∷◌,
  ◌++◌, arith, Bool-cases, Option-cases, Result-cases, length, take, drop, length-drop, ok,
}
use zhongduan.Protocol.Frame.{DataFrame, decode_data_frame, encode_data_frame, pty_output}
use zhongduan.Protocol.Frame.RoundTrip.{decode-encode}
use zhongduan.Host.Journal.{append}
use zhongduan.Host.Session.Stream.{Same}
use zhongduan.Host.Session.{
  Environment, Session, Outcome, and_then, write_pty, write_all, publish, publish_next, counted,
  next_frame, commit_chunk, commit_chunks, max_pty_frame_bytes,
}

-- The frame of the `seq`-th event, with output from an offset on.
abbrev pub output_frame : ℕ → ℕ → ℕ → List ℕ → DataFrame
output_frame epoch seq offset payload = record {
  kind = pty_output;
  flags = 0;
  session_epoch = epoch;
  delivery_generation = 0;
  event_seq = seq;
  pty_offset = offset;
  stream_id = 0;
  payload = payload;
}

-- Frames of output that follow an event and an offset without a gap: each holds a byte at least and
-- 16 KiB at most, and all but the last hold 16 KiB.
abbrev pub Numbered : ℕ → ℕ → ℕ → List DataFrame → Type 0
Numbered epoch seq offset [] = Unit
Numbered epoch seq offset (f ∷ fs) =
    (f ≡ output_frame epoch (seq + 1) offset f.payload)
    × (1 ≤ length f.payload)
    × (length f.payload ≤ 16 * 1024)
    × ((length f.payload ≡ 16 * 1024) ⊎ (fs ≡ []))
    × Numbered epoch (seq + 1) (offset + length f.payload) fs

abbrev pub payloads : List DataFrame → List ℕ
payloads [] = []
payloads (f ∷ fs) = f.payload ++ payloads fs

pub none_left :
    (epoch seq offset : ℕ) (fs : List DataFrame) (rest : List ℕ)
    → Numbered epoch seq offset fs
    → payloads fs ++ rest ≡ []
    → fs ≡ []
none_left epoch seq offset [] rest n h = refl
none_left epoch seq offset (f ∷ fs) rest n h = absurd (some_byte f.payload n.1 h)
  where
    some_byte : (p : List ℕ) → 1 ≤ length p → (p ++ payloads fs) ++ rest ≡ [] → ⊥
    some_byte [] q e = omega arith
    some_byte (b ∷ bs) q e = cc

module _ (env : Environment) where
  and_then-cong :
      (o : Outcome env) (k l : Session env → Outcome env)
      → ((t : Session env) → k t ≡ l t)
      → and_then env o k ≡ and_then env o l
  and_then-cong (t, true) k l e = e t
  and_then-cong (t, false) k l e = refl

  shorter :
      (b : ℕ) (bs : List ℕ) (n : ℕ)
      → suc (length bs) ≤ suc n
      → length (drop max_pty_frame_bytes (b ∷ bs)) ≤ n
  shorter b bs n h = omega (arith, length-drop max_pty_frame_bytes (b ∷ bs))

  -- Any two amounts of fuel that reach the length of the output give the same outcome: the length,
  -- which `commit_pty_output` gives, is enough.
  pub commit_chunks_fuel :
      (f g now : ℕ) (bytes : List ℕ) (s : Session env)
      → length bytes ≤ f
      → length bytes ≤ g
      → commit_chunks env f now bytes s ≡ commit_chunks env g now bytes s
  unfolding commit_chunks
  commit_chunks_fuel f g now [] s h k = refl
  commit_chunks_fuel zero g now (b ∷ bs) s h k = absurd (omega arith)
  commit_chunks_fuel (suc f) zero now (b ∷ bs) s h k = absurd (omega arith)
  commit_chunks_fuel (suc f) (suc g) now (b ∷ bs) s h k =
      and_then-cong (commit_chunk env now (take max_pty_frame_bytes (b ∷ bs)) s) _ _ (λ t.
        commit_chunks_fuel f g now (drop max_pty_frame_bytes (b ∷ bs)) t (shorter b bs f h)
          (shorter b bs g k))

  Same-trans : (s t u : Session env) → Same env s t → Same env t u → Same env s u
  Same-trans s t u p q = record {
    sent = q.sent ∙ p.sent;
    journal = q.journal ∙ p.journal;
    epoch = q.epoch ∙ p.epoch;
    seq = q.seq ∙ p.seq;
    offset = q.offset ∙ p.offset;
  }

  unchanged : (s : Session env) → Same env s s
  unchanged s = record { sent = refl; journal = refl; epoch = refl; seq = refl; offset = refl }

  write_pty-Same : (bytes : List ℕ) (s : Session env) → Same env s (write_pty env bytes s).0
  unfolding write_pty
  write_pty-Same bytes s = elim (Bool-cases (length bytes == 0)) [
    | inl e ↦ rw e (unchanged s)
    | inr e ↦ elim (Option-cases (env.write s.pty bytes)) [
      | inl n ↦ rw (e, n, write_pty) (unchanged s)
      | inr (t, n) ↦
          rw (e, n, write_pty)
            (record { sent = refl; journal = refl; epoch = refl; seq = refl; offset = refl })
    ]
  ]

  and_then-Same :
      (s : Session env) (o : Outcome env) (k : Session env → Outcome env)
      → Same env s o.0
      → ((t : Session env) → Same env t (k t).0)
      → Same env s (and_then env o k).0
  and_then-Same s (t, true) k p h = Same-trans s t (k t).0 p (h t)
  and_then-Same s (t, false) k p h = p

  write_all-Same : (rs : List (List ℕ)) (s : Session env) → Same env s (write_all env rs s).0
  unfolding write_all
  write_all-Same [] s = unchanged s
  write_all-Same (r ∷ rs) s =
      and_then-Same s (write_pty env r s) (write_all env rs) (write_pty-Same r s)
        (write_all-Same rs)

  -- The chunk has been sent in a frame, which is counted.
  pub record Sends (s : Session env) (chunk : List ℕ) (t : Session env) : Type 0 where
    pub frame : List ℕ
    pub sent : t.sent ≡ s.sent ++ (frame ∷ [])
    pub decoded : decode_data_frame frame ≡ ok (next_frame env s pty_output chunk)
    pub epoch : t.session_epoch ≡ s.session_epoch
    pub seq : t.event_seq ≡ s.event_seq + 1
    pub offset : t.next_pty_offset ≡ s.next_pty_offset + length chunk

  -- A step throws with nothing sent, or the chunk is sent.
  abbrev pub Sending : Session env → List ℕ → Outcome env → Type 0
  Sending s chunk o = ((o.1 ≡ false) × (o.0.sent ≡ s.sent)) ⊎ Sends s chunk o.0

  publish-Sending :
      (now : ℕ) (chunk frame : List ℕ) (s : Session env)
      → decode_data_frame frame ≡ ok (next_frame env s pty_output chunk)
      → Sending s chunk (publish env now frame (counted env s (length chunk)))
  unfolding publish
  publish-Sending now chunk frame s d = elim (Result-cases (append now frame s.journal)) [
    | inr (x, e) ↦ rw (e, publish) (inl (refl, refl))
    | inl (j, e) ↦
        rw (e, publish)
          (inr (record {
            frame = frame;
            sent = refl;
            decoded = d;
            epoch = refl;
            seq = refl;
            offset = refl;
          }))
  ]

  replied :
      (s : Session env) (chunk : List ℕ) (o : Outcome env) (rs : List (List ℕ))
      → Sending s chunk o
      → Sending s chunk (and_then env o (write_all env rs))
  replied s chunk (t, true) rs (inl (e, h)) = absurd (cc)
  replied s chunk (t, true) rs (inr v) =
      let w = write_all-Same rs t in
      inr (record {
        frame = v.frame;
        sent = w.sent ∙ v.sent;
        decoded = v.decoded;
        epoch = w.epoch ∙ v.epoch;
        seq = w.seq ∙ v.seq;
        offset = w.offset ∙ v.offset;
      })
  replied s chunk (t, false) rs h = h

  publish_next-Sending :
      (now : ℕ) (chunk : List ℕ) (rs : List (List ℕ)) (s : Session env)
      → Sending s chunk (publish_next env now pty_output chunk (length chunk) rs s)
  unfolding publish_next
  publish_next-Sending now chunk rs s =
      elim (Result-cases (encode_data_frame (next_frame env s pty_output chunk))) [
        | inr (x, e) ↦ rw (e, publish_next) (inl (refl, refl))
        | inl (frame, e) ↦
            rw (e, publish_next)
              (replied s chunk (publish env now frame (counted env s (length chunk))) rs (
                publish-Sending now chunk frame s
                  (decode-encode (next_frame env s pty_output chunk) frame e)))
      ]

  pub commit_chunk-Sending :
      (now : ℕ) (chunk : List ℕ) (s : Session env) → Sending s chunk (commit_chunk env now chunk s)
  unfolding commit_chunk
  commit_chunk-Sending now chunk s = elim (Option-cases (env.apply_output s.authority chunk)) [
    | inl e ↦ rw (e, commit_chunk) (inl (refl, refl))
    | inr ((a, rs), e) ↦
        rw (e, commit_chunk)
          (moved a (publish_next-Sending now chunk rs (record s { authority = a })))
  ]
    where
      moved :
          (a : env.Authority) {o : Outcome env}
          → Sending (record s { authority = a }) chunk o
          → Sending s chunk o
      moved a (inl h) = inl h
      moved a (inr v) = inr (record {
        frame = v.frame;
        sent = v.sent;
        decoded = v.decoded;
        epoch = v.epoch;
        seq = v.seq;
        offset = v.offset;
      })
