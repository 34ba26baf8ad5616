-- ===== src/Host/Session/Calls/Still.antt =====
-- session.ts: single calls of a session that has failed or is disposed.
use zhongduan.Base.{
  ℕ, ◌≡◌, refl, ◌∙◌, inl, inr, Bool, Bool-cases, true, false, ◌||◌, Option, none, some, List, [],
  ◌∷◌, Option-cases, arith,
}
use zhongduan.Host.Session.{
  Environment, Session, Outcome, Submission, SemanticInputIdentity, SessionMessage, InputAck,
  InputWriterState, rejected, input_ack, commit_submitted_input, by_writer, perform, settle,
  fresh_writer, remember_input, fail, raise_fence, validates, commit_of, handle, pty_data,
  resize_to, raw_input, plain_input, submitted, snapshot, fenced_snapshot, capture_snapshot,
  write_pty, write_input, commit_resize, commit_pty_output,
}
use zhongduan.Host.Session.Keeps.{
  commit_of-Keeps, caught-Keeps, fail-Keeps, write_pty-Keeps, write_input-Keeps,
  commit_resize-Keeps, commit_chunks-Keeps,
}
use zhongduan.Host.Session.Attach.{ReplayCursor, subscribe}
use zhongduan.Host.Session.Calls.{
  PtyExit, Actor, SessionCall, Answer, threw, acked, enqueue, write_message, submit_input, exit_pty,
  dispose, enqueue_call, write_call, submit_call, subscribe_call, exit_call, dispose_call,
}

module _ (env : Environment) where
  -- The session has failed or is disposed.
  abbrev pub stopped : Actor env → Bool
  stopped a = a.session.failure || a.session.disposed

  -- The answer to a call of a session that takes nothing more.
  abbrev pub Refused : SessionCall env → Answer env → Type 0
  Refused (enqueue_call now m) answer = answer ≡ threw
  Refused (write_call now m) answer = answer ≡ threw
  Refused (submit_call now identity s) answer =
      (ack : InputAck) × (answer ≡ acked ack) × (ack.status ≡ rejected)
  Refused (subscribe_call now cursor) answer = Unit {0}
  Refused (exit_call code signal) answer = Unit {0}
  Refused dispose_call answer = Unit {0}

  abbrev pub AllRefused : List (SessionCall env) → List (Answer env) → Type 0
  AllRefused [] [] = Unit {0}
  AllRefused [] (x ∷ xs) = ⊥
  AllRefused (call ∷ calls) [] = ⊥
  AllRefused (call ∷ calls) (x ∷ xs) = Refused call x × AllRefused calls xs

  -- Nothing that others see of `a` differs in `b`, which is stopped.
  pub record Still (a b : Actor env) : Type 0 where
    pub sent : b.session.sent ≡ a.session.sent
    pub pty : b.session.pty ≡ a.session.pty
    pub exit : b.exit ≡ a.exit
    pub stop : stopped b ≡ true

  pub Still-refl : (a : Actor env) → stopped a ≡ true → Still a a
  Still-refl a h = record { sent = refl; pty = refl; exit = refl; stop = h }

  swap : (f d : Bool) → (f || d) ≡ true → (d || f) ≡ true
  swap f d h = ground arith

  wider : (p f d : Bool) → (f || d) ≡ true → ((p || f || d) ≡ true) × ((d || f || p) ≡ true)
  wider p f d h = (ground arith, ground arith)

  pub enqueue-Refused :
      (now : ℕ) (m : SessionMessage env) (a : Actor env)
      → stopped a ≡ true
      → enqueue env now m a ≡ (a, threw)
  unfolding enqueue
  enqueue-Refused now m a h = rw (swap a.session.failure a.session.disposed h) refl

  pub write-Refused :
      (now : ℕ) (m : SessionMessage env) (a : Actor env)
      → stopped a ≡ true
      → write_message env now m a ≡ (a, threw)
  unfolding write_message
  write-Refused now m a h =
      rw (wider a.session.pty_exited a.session.failure a.session.disposed h).0 refl

  pub submit-Refused :
      (now : ℕ) (identity : SemanticInputIdentity) (s : Submission env) (a : Actor env)
      → stopped a ≡ true
      → submit_input env now identity s a ≡ (a, acked (input_ack env identity rejected a.session))
  unfolding submit_input
  submit-Refused now identity s a h =
      rw (wider a.session.pty_exited a.session.failure a.session.disposed h).1 refl

  pub subscribe-Still :
      (now : ℕ) (cursor : Option ReplayCursor) (a : Actor env)
      → stopped a ≡ true
      → Still a (record a { session = (subscribe env now cursor a.session).0 })
  unfolding subscribe
  subscribe-Still now none a h = Still-refl a h
  subscribe-Still now (some c) a h = ground arith

  pub exit-Still :
      (code signal : ℕ) (a : Actor env) (e : PtyExit)
      → a.exit ≡ some e
      → stopped a ≡ true
      → Still a (exit_pty env code signal a)
  exit-Still code signal a e x h = ground arith

  pub dispose-Still :
      (a : Actor env) (e : PtyExit) → a.exit ≡ some e → stopped a ≡ true → Still a (dispose env a)
  unfolding dispose
  dispose-Still a e x h = ground arith

  -- No message disposes the session.
  settle-disposed :
      (identity : SemanticInputIdentity) (w : InputWriterState) (o : Outcome env)
      → (settle env identity w o).0.disposed ≡ o.0.disposed
  unfolding settle remember_input fail
  settle-disposed identity w (t, true) = refl
  settle-disposed identity w (t, false) = ground arith

  perform-disposed :
      (now : ℕ) (identity : SemanticInputIdentity) (a : Submission env) (w : InputWriterState)
      (s : Session env)
      → (perform env now identity a w s).0.disposed ≡ s.disposed
  unfolding perform
  perform-disposed now identity a w s = elim (Bool-cases (validates env a s)) [
    | inr e ↦ rw e refl
    | inl e ↦
        let t : Session env = record s { input_writer = some w } in
        rw e (
          settle-disposed identity w (commit_of env now a t)
          ∙ (commit_of-Keeps env now a t).disposal)
  ]

  by_writer-disposed :
      (now : ℕ) (identity : SemanticInputIdentity) (a : Submission env)
      (w : Option InputWriterState) (s : Session env)
      → (by_writer env now identity a w s).0.disposed ≡ s.disposed
  unfolding by_writer
  by_writer-disposed now identity a none s =
      ground (arith, perform-disposed now identity a (fresh_writer env identity) s)
  by_writer-disposed now identity a (some w) s = ground (arith, perform-disposed now identity a w s)

  pub commit-disposed :
      (now : ℕ) (identity : SemanticInputIdentity) (a : Submission env) (s : Session env)
      → (commit_submitted_input env now identity a s).0.disposed ≡ s.disposed
  unfolding commit_submitted_input
  commit-disposed now identity a s =
      let t = raise_fence env identity.writer_fence s in
      ground (arith, by_writer-disposed now identity a t.input_writer t)

  pub handle-disposed :
      (now : ℕ) (m : SessionMessage env) (s : Session env)
      → (handle env now m s).disposed ≡ s.disposed
  unfolding handle commit_pty_output
  handle-disposed now (pty_data bytes) s =
      (caught-Keeps env s (commit_pty_output env now bytes s)
        (commit_chunks-Keeps env _ now bytes s)).disposal
  handle-disposed now (resize_to r) s =
      (caught-Keeps env s (commit_resize env now r s) (commit_resize-Keeps env now r s)).disposal
  handle-disposed now (raw_input bytes) s =
      (caught-Keeps env s (write_pty env bytes s) (write_pty-Keeps env bytes s)).disposal
  handle-disposed now (plain_input i) s =
      (caught-Keeps env s (write_input env i s) (write_input-Keeps env i s)).disposal
  handle-disposed now (submitted identity a) s = commit-disposed now identity a s
  handle-disposed now snapshot s = elim (Option-cases (capture_snapshot env s)) [
    | inl e ↦ rw (e, handle) (fail-Keeps env s).disposal
    | inr (c, e) ↦ rw (e, handle) refl
  ]
  handle-disposed now (fenced_snapshot true) s = elim (Option-cases (capture_snapshot env s)) [
    | inl e ↦ rw (e, handle) (fail-Keeps env s).disposal
    | inr (c, e) ↦ rw (e, handle) refl
  ]
  handle-disposed now (fenced_snapshot false) s = elim (Option-cases (capture_snapshot env s)) [
    | inl e ↦ rw (e, handle) (fail-Keeps env s).disposal
    | inr (c, e) ↦ rw (e, handle) (fail-Keeps env s).disposal
  ]
