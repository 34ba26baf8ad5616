-- ===== src/Host/Session/Chunks.antt =====
-- session.ts: how `#commitPtyOutput` cuts its input into chunks and publishes them, and its fuel.
use mathlib.Core.List.{append_assoc, append-nil}
use native.Mathlib.Decide.{dec_le}
use zhongduan.Base.{
  ℕ, zero, suc, ◌+◌, ◌*◌, ◌≤◌, ◌≡◌, ◌⊎◌, refl, sym, ap, ◌∙◌, inl, inr, true, false, List, [], ◌∷◌,
  ◌++◌, arith, length, take, drop, length-take, length-drop, take-append-drop,
}
use zhongduan.Protocol.Frame.{DataFrame, pty_output}
use zhongduan.Host.Journal.Canonical.{AllDecode}
use zhongduan.Host.Session.{
  Environment, Session, Outcome, and_then, next_frame, commit_chunk, commit_chunks,
  commit_pty_output, max_pty_frame_bytes,
}
use zhongduan.Host.Session.Sending.{
  Numbered, payloads, none_left, commit_chunks_fuel, Sends, Sending, commit_chunk-Sending,
}

module _ (env : Environment) where
  -- What `#commitPtyOutput` has sent when it returns, or throws: numbered frames that hold a part of
  -- the output from its start, and all of it where it returns; then they are counted as well.
  pub record Cut (s : Session env) (bytes : List ℕ) (o : Outcome env) : Type 0 where
    pub later : List (List ℕ)
    pub sent : o.0.sent ≡ s.sent ++ later
    pub frames : List DataFrame
    pub decoded : AllDecode later frames
    pub numbered : Numbered s.session_epoch s.event_seq s.next_pty_offset frames
    pub rest : List ℕ
    pub cut : payloads frames ++ rest ≡ bytes
    pub whole : o.1 ≡ true → rest ≡ []
    pub seq : o.1 ≡ true → o.0.event_seq ≡ s.event_seq + length frames
    pub offset : o.1 ≡ true → o.0.next_pty_offset ≡ s.next_pty_offset + length bytes

  -- Nothing sent, and nothing more done.
  stopped : (s t : Session env) (bytes : List ℕ) → t.sent ≡ s.sent → Cut s bytes (t, false)
  stopped s t bytes h = record {
    later = [];
    sent = h ∙ sym (append-nil s.sent);
    frames = [];
    decoded = tt;
    numbered = tt;
    rest = bytes;
    cut = refl;
    whole = λ e. cc;
    seq = λ e. cc;
    offset = λ e. cc;
  }

  empty : (xs : List ℕ) → length xs ≡ 0 → xs ≡ []
  empty [] h = refl
  empty (x ∷ xs) h = absurd (omega arith)

  full_or_last :
      (xs : List ℕ)
      → (length (take max_pty_frame_bytes xs) ≡ 16 * 1024) ⊎ (drop max_pty_frame_bytes xs ≡ [])
  full_or_last xs = elim (dec_le (16 * 1024) (length xs)) [
    | yes h ↦ inl (omega (arith, length-take max_pty_frame_bytes xs))
    | no h ↦
        inr
          (empty (drop max_pty_frame_bytes xs) (omega (arith, length-drop max_pty_frame_bytes xs)))
  ]

  -- A chunk that is sent goes before what is cut from the rest.
  sent-Cut :
      (s t : Session env) (b : ℕ) (bs : List ℕ) (o : Outcome env)
      → Sends env s (take max_pty_frame_bytes (b ∷ bs)) t
      → Cut t (drop max_pty_frame_bytes (b ∷ bs)) o
      → Cut s (b ∷ bs) o
  sent-Cut s t b bs o v c =
      let chunk = take max_pty_frame_bytes (b ∷ bs) in
      let left = drop max_pty_frame_bytes (b ∷ bs) in
      let all = take-append-drop max_pty_frame_bytes (b ∷ bs) in
      let size = length-take max_pty_frame_bytes (b ∷ bs) in
      let sum : length (b ∷ bs) ≡ length chunk + length left =
        omega (arith, size, length-drop max_pty_frame_bytes (b ∷ bs)) in
      record {
        later = v.frame ∷ c.later;
        sent =
            c.sent
            ∙ ap (λ (x : List (List ℕ)). x ++ c.later) v.sent
            ∙ append_assoc s.sent (v.frame ∷ []) c.later;
        frames = next_frame env s pty_output chunk ∷ c.frames;
        decoded = (v.decoded, c.decoded);
        numbered = (refl, omega (arith, size), omega (arith, size), full chunk left, follow chunk);
        rest = c.rest;
        cut =
            append_assoc chunk (payloads c.frames) c.rest
            ∙ ap (λ (x : List ℕ). chunk ++ x) c.cut
            ∙ all;
        whole = c.whole;
        seq = λ e. omega (arith, c.seq e, v.seq);
        offset = λ e. omega (arith, c.offset e, v.offset, sum);
      }
    where
      full :
          (chunk left : List ℕ)
          → (length (take max_pty_frame_bytes (b ∷ bs)) ≡ 16 * 1024) ⊎ (c.frames ≡ [])
      full chunk left = elim (full_or_last (b ∷ bs)) [
        | inl h ↦ inl h
        | inr h ↦ inr (none_left _ _ _ c.frames c.rest c.numbered (c.cut ∙ h))
      ]

      follow :
          (chunk : List ℕ)
          → Numbered s.session_epoch
              (s.event_seq + 1)
              (s.next_pty_offset + length (take max_pty_frame_bytes (b ∷ bs)))
              c.frames
      follow chunk = rw (v.epoch, v.seq, v.offset) at c.numbered

  chunk-Cut :
      (b : ℕ) (bs : List ℕ) (s : Session env) (o : Outcome env) (k : Session env → Outcome env)
      → Sending env s (take max_pty_frame_bytes (b ∷ bs)) o
      → ((t : Session env) → Cut t (drop max_pty_frame_bytes (b ∷ bs)) (k t))
      → Cut s (b ∷ bs) (and_then env o k)
  chunk-Cut b bs s (t, true) k (inl (e, h)) g = absurd (cc)
  chunk-Cut b bs s (t, true) k (inr v) g = sent-Cut s t b bs (k t) v (g t)
  chunk-Cut b bs s (t, false) k (inl (e, h)) g = stopped s t (b ∷ bs) h
  chunk-Cut b bs s (t, false) k (inr v) g =
      sent-Cut s t b bs (t, false) v (stopped t t (drop max_pty_frame_bytes (b ∷ bs)) refl)

  commit_chunks-Cut :
      (fuel now : ℕ) (bytes : List ℕ) (s : Session env)
      → Cut s bytes (commit_chunks env fuel now bytes s)
  unfolding commit_chunks
  commit_chunks-Cut fuel now [] s = record {
    later = [];
    sent = sym (append-nil s.sent);
    frames = [];
    decoded = tt;
    numbered = tt;
    rest = [];
    cut = refl;
    whole = λ e. refl;
    seq = λ e. omega arith;
    offset = λ e. omega arith;
  }
  commit_chunks-Cut zero now (b ∷ bs) s = stopped s s (b ∷ bs) refl
  commit_chunks-Cut (suc fuel) now (b ∷ bs) s =
      chunk-Cut b bs s (commit_chunk env now (take max_pty_frame_bytes (b ∷ bs)) s)
        (commit_chunks env fuel now (drop max_pty_frame_bytes (b ∷ bs)))
        (commit_chunk-Sending env now (take max_pty_frame_bytes (b ∷ bs)) s)
        (commit_chunks-Cut fuel now (drop max_pty_frame_bytes (b ∷ bs)))

  -- Whatever the authority, the PTY and the journal do, the frames that `commit_pty_output` has sent when
  -- it returns or throws are frames of output with consecutive events and offsets behind those of the
  -- session, of 16 KiB each but for the last, which holds a byte at least; together they hold the
  -- output from its start on, and all of it where it returns; then the session's counters stand behind
  -- them. And it never stops for want of fuel: any more gives the same outcome.
  pub commit_pty_output-Cut :
      (fuel now : ℕ) (bytes : List ℕ) (s : Session env)
      → length bytes ≤ fuel
      → Cut s bytes (commit_pty_output env now bytes s)
        × (commit_chunks env fuel now bytes s ≡ commit_pty_output env now bytes s)
  unfolding commit_pty_output
  commit_pty_output-Cut fuel now bytes s h = (
    commit_chunks-Cut (length bytes) now bytes s,
    commit_chunks_fuel env fuel (length bytes) now bytes s h (omega arith),
  )
