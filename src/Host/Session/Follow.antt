-- ===== src/Host/Session/Follow.antt =====
-- session.ts: the published stream over `#commitSubmittedInput` and `#drainQueue`.
use zhongduan.Base.{
  ℕ, ltb, leb, ◌&&◌, same_text, ◌≡◌, refl, ◌∙◌, inl, inr, true, false, ◌||◌, Option, none, some,
  List, [], ◌∷◌, arith, Bool-cases, Option-cases, length, ◌==◌,
}
use zhongduan.Host.Session.{
  Environment, Session, Outcome, write_pty, commit_pty_output, commit_resize, write_input,
  commit_of, Submission, SessionMessage, InputResult, result_written, result_uncertain,
  InputWriterState, SemanticInputIdentity, validates, ahead, fresh_writer, lookup_result,
  well_formed, fail, caught, pty_data, resize_to, raw_input, plain_input, submitted, snapshot,
  fenced_snapshot, capture_snapshot, handle, drain, settle, perform, by_writer,
  commit_submitted_input, remember_input, raise_fence,
}
use zhongduan.Protocol.Errors.{max_u64}
use zhongduan.Protocol.Cursor.{ReplicaCursor}
use zhongduan.Host.Session.Keeps.{
  commit_chunks-Keeps, commit_resize-Keeps, write_pty-Keeps, write_input-Keeps, commit_of-Keeps,
}
use zhongduan.Host.Session.Stream.{Published, Same, Same-Published, Good, write_pty-Good}
use zhongduan.Host.Session.Commits.{
  commit_of-Good, commit_chunks-Good, write_input-Good, commit_resize-Good,
}

module _ (env : Environment) (base : List (List ℕ)) (start : ReplicaCursor) where
  -- The session has failed, or what it has published is whole.
  pub data Sound (s : Session env) : Type 0 where
    failed : s.failure ≡ true → Sound s
    whole : s.disposed ≡ false → Published env base start s → Sound s

  fail-failure : (s : Session env) → s.disposed ≡ false → (fail env s).failure ≡ true
  unfolding fail
  fail-failure s d = ground (arith, d)

  caught-Sound :
      (o : Outcome env) → o.0.disposed ≡ false → Good env base start o → Sound (caught env o)
  caught-Sound (t, true) d g = whole d (g refl)
  caught-Sound (t, false) d g = failed (fail-failure t d)

  remember_input-Same :
      (seq : ℕ) (r : InputResult) (w : InputWriterState) (s : Session env)
      → Same env s (remember_input env seq r w s)
  unfolding remember_input
  remember_input-Same seq r w s = record {
    sent = refl;
    journal = refl;
    epoch = refl;
    seq = refl;
    offset = refl;
  }

  remember_input-disposed :
      (seq : ℕ) (r : InputResult) (w : InputWriterState) (s : Session env)
      → (remember_input env seq r w s).disposed ≡ s.disposed
  unfolding remember_input
  remember_input-disposed seq r w s = refl

  settle-Sound :
      (identity : SemanticInputIdentity) (w : InputWriterState) (o : Outcome env)
      → o.0.disposed ≡ false
      → Good env base start o
      → Sound (settle env identity w o).0
  unfolding settle
  settle-Sound identity w (t, true) d g =
      whole (remember_input-disposed identity.client_input_seq result_written w t ∙ d) (
        Same-Published env base start t
          (remember_input env identity.client_input_seq result_written w t)
          (remember_input-Same identity.client_input_seq result_written w t) (g refl))
  settle-Sound identity w (t, false) d g = failed (
      fail-failure (remember_input env identity.client_input_seq result_uncertain w t)
        (remember_input-disposed identity.client_input_seq result_uncertain w t ∙ d))

  perform-Sound :
      (now : ℕ) (identity : SemanticInputIdentity) (a : Submission env) (w : InputWriterState)
      (s : Session env)
      → s.disposed ≡ false
      → Published env base start s
      → Sound (perform env now identity a w s).0
  unfolding perform
  perform-Sound now identity a w s d p = elim (Bool-cases (validates env a s)) [
    | inr e ↦ rw e (whole d p)
    | inl e ↦
        let t : Session env = record s { input_writer = some w } in
        rw e (
          settle-Sound identity w (commit_of env now a t)
            ((commit_of-Keeps env now a t).disposal ∙ d)
            (commit_of-Good env base start now a t (
              Same-Published env base start s t
                (record { sent = refl; journal = refl; epoch = refl; seq = refl; offset = refl })
                p)))
  ]

  by_writer-Sound :
      (now : ℕ) (identity : SemanticInputIdentity) (a : Submission env)
      (w : Option InputWriterState) (s : Session env)
      → s.disposed ≡ false
      → Published env base start s
      → Sound (by_writer env now identity a w s).0
  unfolding by_writer
  by_writer-Sound now identity a none s d p = elim (Bool-cases (identity.client_input_seq == 1)) [
    | inr e ↦ rw e (whole d p)
    | inl e ↦ elim (Bool-cases (ahead env identity.observed_event_seq s.event_seq)) [
      | inl f ↦ rw (e, f) (whole d p)
      | inr f ↦ rw (e, f) (perform-Sound now identity a (fresh_writer env identity) s d p)
    ]
  ]
  by_writer-Sound now identity a (some w) s d p =
      elim (Bool-cases (
        same_text w.client_id identity.client_id && same_text w.input_epoch identity.input_epoch)) [
          | inr e ↦ rw e (whole d p)
          | inl e ↦ elim (Option-cases (lookup_result identity.client_input_seq s.input_results)) [
            | inr (result_written, f) ↦ rw (e, f, by_writer) (whole d p)
            | inr (result_uncertain, f) ↦ rw (e, f, by_writer) (whole d p)
            | inl f ↦ elim (Bool-cases (leb identity.client_input_seq w.high_water)) [
              | inl g ↦ rw (e, f, g, by_writer) (whole d p)
              | inr g ↦ elim (Bool-cases (ahead env identity.observed_event_seq s.event_seq)) [
                | inl h ↦ rw (e, f, g, h, by_writer) (whole d p)
                | inr h ↦ rw (e, f, g, h, by_writer) (perform-Sound now identity a w s d p)
              ]
            ]
          ]
        ]

  raise_fence-Published :
      (fence : ℕ) (s : Session env)
      → Published env base start s
      → Published env base start (raise_fence env fence s)
  raise_fence-Published fence s p = elim (Bool-cases (ltb s.input_fence fence)) [
    | inr e ↦ rw e p
    | inl e ↦ rw e (
        Same-Published env base start s
          (record s { input_fence = fence; input_writer = none; input_results = [] })
          (record { sent = refl; journal = refl; epoch = refl; seq = refl; offset = refl }) p)
  ]

  raise_fence-disposed :
      (fence : ℕ) (s : Session env) → (raise_fence env fence s).disposed ≡ s.disposed
  raise_fence-disposed fence s = ground arith

  commit_submitted_input-Sound :
      (now : ℕ) (identity : SemanticInputIdentity) (a : Submission env) (s : Session env)
      → s.disposed ≡ false
      → Published env base start s
      → Sound (commit_submitted_input env now identity a s).0
  unfolding commit_submitted_input
  commit_submitted_input-Sound now identity a s d p =
      elim (Bool-cases (s.pty_exited || s.failure)) [
        | inl e ↦ rw e (whole d p)
        | inr e ↦
            elim (Bool-cases (identity.writer_fence == 0 || ltb max_u64 identity.writer_fence)) [
              | inl f ↦ rw (e, f) (whole d p)
              | inr f ↦ elim (Bool-cases (ltb identity.writer_fence s.input_fence)) [
                | inl g ↦ rw (e, f, g) (whole d p)
                | inr g ↦ elim (Bool-cases (well_formed env identity)) [
                  | inr h ↦
                      rw (e, f, g, h)
                        (whole (raise_fence-disposed identity.writer_fence s ∙ d)
                          (raise_fence-Published identity.writer_fence s p))
                  | inl h ↦
                      rw (e, f, g, h)
                        (by_writer-Sound now identity a
                          (raise_fence env identity.writer_fence s).input_writer
                          (raise_fence env identity.writer_fence s)
                          (raise_fence-disposed identity.writer_fence s ∙ d)
                          (raise_fence-Published identity.writer_fence s p))
                ]
              ]
            ]
      ]

  handle-Sound :
      (now : ℕ) (m : SessionMessage env) (s : Session env)
      → s.disposed ≡ false
      → Published env base start s
      → Sound (handle env now m s)
  unfolding handle commit_pty_output
  handle-Sound now (pty_data bytes) s d p =
      caught-Sound (commit_pty_output env now bytes s)
        ((commit_chunks-Keeps env (length bytes) now bytes s).disposal ∙ d)
        (commit_chunks-Good env base start (length bytes) now bytes s p)
  handle-Sound now (resize_to r) s d p =
      caught-Sound (commit_resize env now r s) ((commit_resize-Keeps env now r s).disposal ∙ d)
        (commit_resize-Good env base start now r s p)
  handle-Sound now (raw_input bytes) s d p =
      caught-Sound (write_pty env bytes s) ((write_pty-Keeps env bytes s).disposal ∙ d)
        (write_pty-Good env base start bytes s p)
  handle-Sound now (plain_input i) s d p =
      caught-Sound (write_input env i s) ((write_input-Keeps env i s).disposal ∙ d)
        (write_input-Good env base start i s p)
  handle-Sound now (submitted identity a) s d p = commit_submitted_input-Sound now identity a s d p
  handle-Sound now snapshot s d p = elim (Option-cases (capture_snapshot env s)) [
    | inl e ↦ rw (e, handle) (failed (fail-failure s d))
    | inr (c, e) ↦ rw (e, handle) (whole d p)
  ]
  handle-Sound now (fenced_snapshot true) s d p = elim (Option-cases (capture_snapshot env s)) [
    | inl e ↦ rw (e, handle) (failed (fail-failure s d))
    | inr (c, e) ↦ rw (e, handle) (whole d p)
  ]
  handle-Sound now (fenced_snapshot false) s d p = elim (Option-cases (capture_snapshot env s)) [
    | inl e ↦ rw (e, handle) (failed (fail-failure s d))
    | inr (c, e) ↦ rw (e, handle) (failed (fail-failure s d))
  ]

  stopped : (s : Session env) → s.failure ≡ true → (s.failure || s.disposed) ≡ true
  stopped s f = ground arith

  running :
      (s : Session env) → s.failure ≡ false → s.disposed ≡ false → (s.failure || s.disposed) ≡ false
  running s f d = ground arith

  -- Messages that a session handles keep this: it has failed, or it is live, the frames that it sent
  -- behind `base` take a replica from `start` to the session's own cursor, and its journal is well
  -- formed, can be replayed and ends there.
  pub drain-Sound :
      (ms : List (ℕ × SessionMessage env)) (s : Session env) → Sound s → Sound (drain env ms s)
  unfolding drain
  drain-Sound [] s v = v
  drain-Sound ((now, m) ∷ ms) s (failed f) = rw (stopped s f) (drain-Sound ms s (failed f))
  drain-Sound ((now, m) ∷ ms) s (whole d p) = elim (Bool-cases s.failure) [
    | inl f ↦ rw (stopped s f) (drain-Sound ms s (failed f))
    | inr f ↦ rw (running s f d) (drain-Sound ms (handle env now m s) (handle-Sound now m s d p))
  ]
