-- ===== src/Host/Session/Settled.antt =====
-- session.ts: an input that is settled stays so, in `#commitSubmittedInput` and through every message.
use zhongduan.Base.{
  ℕ, ◌≤◌, ◌<◌, ◌≡◌, ◌≢◌, refl, sym, subst, ◌∙◌, ◌⊎◌, inl, inr, true, false, ◌||◌, Option, none,
  some, List, [], ◌∷◌, arith, ltb, ◌==◌, Bool-cases, Option-cases, length,
}
use zhongduan.Protocol.Errors.{max_u64}
use zhongduan.Host.Session.{
  fresh_writer, well_formed, max_of, Environment, Session, SemanticInputIdentity, written,
  InputWriterState, result_uncertain, Submission, SessionMessage, commit_submitted_input, by_writer,
  perform, settle, remember_input, fail, commit_of, handle, drain, raise_fence, Outcome, write_pty,
  commit_chunks, commit_resize, write_input, validates, capture_snapshot, pty_data, resize_to,
  raw_input, plain_input, submitted, snapshot, fenced_snapshot,
}
use zhongduan.Host.Session.Keeps.{
  Keeps, write_pty-Keeps, commit_chunks-Keeps, commit_resize-Keeps, write_input-Keeps,
  commit_of-Keeps, fail-Keeps, caught-Keeps,
}

module _ (env : Environment) where
  -- The session has settled every input up to `seq` of the writer under `fence`.
  abbrev pub Settled : ℕ → ℕ → Session env → Type 0
  Settled fence seq s =
      (fence < s.input_fence)
      ⊎ ((fence ≡ s.input_fence)
          × ((w : InputWriterState) × (s.input_writer ≡ some w) × (seq ≤ w.high_water)))

  Settled-Keeps :
      (fence seq : ℕ) (s t : Session env)
      → Keeps env s t
      → Settled fence seq s
      → Settled fence seq t
  Settled-Keeps fence seq s t k (inl below) = inl (omega (arith, k.fence))
  Settled-Keeps fence seq s t k (inr (same, (w, e, le))) =
      inr (same ∙ sym k.fence, (w, k.writer ∙ e, le))

  -- After a commit the writer's high water has reached the input's number.
  abbrev Remembered : SemanticInputIdentity → InputWriterState → Session env → Session env → Type 0
  Remembered identity w s t =
      (t.input_fence ≡ s.input_fence)
      × (t.input_writer
          ≡ some (record w { high_water = max_of env w.high_water identity.client_input_seq }))

  settle-Remembered :
      (identity : SemanticInputIdentity) (w : InputWriterState) (s : Session env) (o : Outcome env)
      → o.0.input_fence ≡ s.input_fence
      → Remembered identity w s (settle env identity w o).0
  unfolding settle remember_input
  settle-Remembered identity w s (t, true) e = (e, refl)
  settle-Remembered identity w s (t, false) e =
      let r = remember_input env identity.client_input_seq result_uncertain w t in
      let k = fail-Keeps env r in (k.fence ∙ e, k.writer)

  pub perform-cases :
      (now : ℕ) (identity : SemanticInputIdentity) (a : Submission env) (w : InputWriterState)
      (s : Session env)
      → (((perform env now identity a w s).0 ≡ s)
          × ((perform env now identity a w s).1.status ≢ written))
        ⊎ Remembered identity w s (perform env now identity a w s).0
  unfolding perform
  perform-cases now identity a w s = elim (Bool-cases (validates env a s)) [
    | inl valid ↦ rw valid (
        inr (
          settle-Remembered identity w s (commit_of env now a (record s { input_writer = some w }))
            (commit_of-Keeps env now a (record s { input_writer = some w })).fence))
    | inr bad ↦ rw bad (inl (refl, λ e. cc))
  ]

  perform-Settled :
      (now fence seq : ℕ) (identity : SemanticInputIdentity) (a : Submission env)
      (w : InputWriterState) (s : Session env)
      → ((v : InputWriterState) → s.input_writer ≡ some v → v.high_water ≤ w.high_water)
      → Settled fence seq s
      → Settled fence seq (perform env now identity a w s).0
  perform-Settled now fence seq identity a w s grows h = elim (perform-cases now identity a w s) [
    | inl (same, _) ↦ subst (Settled fence seq) (sym same) h
    | inr (f, e) ↦ grown h (perform env now identity a w s).0 f e
  ]
    where
      grown :
          Settled fence seq s
          → (t : Session env) → t.input_fence ≡ s.input_fence
          → t.input_writer
            ≡ some (record w { high_water = max_of env w.high_water identity.client_input_seq })
          → Settled fence seq t
      grown (inl below) t f e = inl (omega (arith, f))
      grown (inr (same, (v, writer, le))) t f e =
          inr (same ∙ sym f, (_, e, ground (arith, grows v writer)))

  by_writer-Settled :
      (now fence seq : ℕ) (identity : SemanticInputIdentity) (a : Submission env)
      (o : Option InputWriterState) (s : Session env)
      → s.input_writer ≡ o
      → Settled fence seq s
      → Settled fence seq (by_writer env now identity a o s).0
  unfolding by_writer
  by_writer-Settled now fence seq identity a none s e h = ground (
    arith,
    h,
    perform-Settled now fence seq identity a (fresh_writer env identity) s (λ v q. cc) h,
  )
  by_writer-Settled now fence seq identity a (some w) s e h =
      ground (arith, h, perform-Settled now fence seq identity a w s (λ v q. ground arith) h)

  raise-Settled :
      (fence seq f : ℕ) (s : Session env)
      → Settled fence seq s
      → Settled fence seq (raise_fence env f s)
  raise-Settled fence seq f s (inl below) = elim (Bool-cases (ltb s.input_fence f)) [
    | inl up ↦ rw up (inl (ground arith))
    | inr stay ↦ rw stay (inl below)
  ]
  raise-Settled fence seq f s (inr (same, rest)) = elim (Bool-cases (ltb s.input_fence f)) [
    | inl up ↦ rw up (inl (ground arith))
    | inr stay ↦ rw stay (inr (same, rest))
  ]

  commit-Settled :
      (now fence seq : ℕ) (identity : SemanticInputIdentity) (a : Submission env) (s : Session env)
      → Settled fence seq s
      → Settled fence seq (commit_submitted_input env now identity a s).0
  unfolding commit_submitted_input
  commit-Settled now fence seq identity a s h =
      let t = raise_fence env identity.writer_fence s in
      let raised = raise-Settled fence seq identity.writer_fence s h in
      let done = by_writer-Settled now fence seq identity a t.input_writer t refl raised in
      elim (Bool-cases (s.pty_exited || s.failure)) [
        | inl e ↦ rw e h
        | inr e ↦
            elim (Bool-cases (identity.writer_fence == 0 || ltb max_u64 identity.writer_fence)) [
              | inl e2 ↦ rw (e, e2) h
              | inr e2 ↦ elim (Bool-cases (ltb identity.writer_fence s.input_fence)) [
                | inl e3 ↦ rw (e, e2, e3) h
                | inr e3 ↦ elim (Bool-cases (well_formed env identity)) [
                  | inl e4 ↦ rw (e, e2, e3, e4) done
                  | inr e4 ↦ rw (e, e2, e3, e4) raised
                ]
              ]
            ]
      ]

  handle-Settled :
      (now fence seq : ℕ) (m : SessionMessage env) (s : Session env)
      → Settled fence seq s
      → Settled fence seq (handle env now m s)
  unfolding handle
  handle-Settled now fence seq (pty_data bytes) s h =
      Settled-Keeps fence seq s _
        (caught-Keeps env s (commit_chunks env (length bytes) now bytes s)
          (commit_chunks-Keeps env (length bytes) now bytes s))
        h
  handle-Settled now fence seq (resize_to d) s h =
      Settled-Keeps fence seq s _
        (caught-Keeps env s (commit_resize env now d s) (commit_resize-Keeps env now d s)) h
  handle-Settled now fence seq (raw_input bytes) s h =
      Settled-Keeps fence seq s _
        (caught-Keeps env s (write_pty env bytes s) (write_pty-Keeps env bytes s)) h
  handle-Settled now fence seq (plain_input i) s h =
      Settled-Keeps fence seq s _
        (caught-Keeps env s (write_input env i s) (write_input-Keeps env i s)) h
  handle-Settled now fence seq (submitted identity a) s h =
      commit-Settled now fence seq identity a s h
  handle-Settled now fence seq snapshot s h = elim (Option-cases (capture_snapshot env s)) [
    | inl e ↦ rw (e, handle) (Settled-Keeps fence seq s (fail env s) (fail-Keeps env s) h)
    | inr (c, e) ↦ rw (e, handle) h
  ]
  handle-Settled now fence seq (fenced_snapshot true) s h =
      elim (Option-cases (capture_snapshot env s)) [
        | inl e ↦ rw (e, handle) (Settled-Keeps fence seq s (fail env s) (fail-Keeps env s) h)
        | inr (c, e) ↦ rw (e, handle) h
      ]
  handle-Settled now fence seq (fenced_snapshot false) s h =
      elim (Option-cases (capture_snapshot env s)) [
        | inl e ↦ rw (e, handle) (Settled-Keeps fence seq s (fail env s) (fail-Keeps env s) h)
        | inr (c, e) ↦ rw (e, handle) (Settled-Keeps fence seq s (fail env s) (fail-Keeps env s) h)
      ]

  pub drain-Settled :
      (fence seq : ℕ) (ms : List (ℕ × SessionMessage env)) (s : Session env)
      → Settled fence seq s
      → Settled fence seq (drain env ms s)
  unfolding drain
  drain-Settled fence seq [] s h = h
  drain-Settled fence seq ((now, m) ∷ ms) s h = elim (Bool-cases (s.failure || s.disposed)) [
    | inl e ↦ rw (e, drain) (drain-Settled fence seq ms s h)
    | inr e ↦
        rw (e, drain)
          (drain-Settled fence seq ms (handle env now m s) (handle-Settled now fence seq m s h))
  ]
