-- ===== src/Host/Session/Calls/Final.antt =====
-- session.ts: what is left of `TerminalSession` when it has failed or is disposed.
use zhongduan.Base.{
  ℕ, ◌≡◌, refl, ◌∙◌, inl, inr, Bool-cases, true, false, ◌||◌, Option, none, some, List, [], ◌∷◌,
  ◌==◌, arith,
}
use zhongduan.Host.Session.{
  Environment, Session, Submission, SemanticInputIdentity, SessionMessage, rejected, input_ack,
  commit_submitted_input, handle,
}
use zhongduan.Host.Session.Attach.{ReplayCursor, subscribe}
use zhongduan.Host.Session.Calls.{
  PtyExit, Actor, SessionCall, resolve_exit, behind_call, enqueue, write_message, submit_input,
  dispose, call_session, run_session, enqueue_call, write_call, submit_call, subscribe_call,
  exit_call, dispose_call, exit_failed, exit_disposed, exited,
}
use zhongduan.Host.Session.Calls.Still.{
  stopped, Refused, AllRefused, Still, Still-refl, enqueue-Refused, write-Refused, submit-Refused,
  subscribe-Still, exit-Still, dispose-Still, commit-disposed, handle-disposed,
}

module _ (env : Environment) where
  -- A stopped session's exit has been resolved.
  abbrev pub Resolved : Actor env → Type 0
  Resolved a = stopped env a ≡ true → (e : PtyExit) × (a.exit ≡ some e)

  resolved : (x : Option PtyExit) (d : PtyExit) → (e : PtyExit) × (resolve_exit env x d ≡ some e)
  resolved none d = (d, refl)
  resolved (some e) d = (e, refl)

  behind_call-Resolved :
      (s : Session env) (x : Option PtyExit) → s.disposed ≡ false → Resolved (behind_call env s x)
  behind_call-Resolved s x d h = elim (Bool-cases s.failure) [
    | inl f ↦ let (e, k) = resolved x exit_failed in (e, rw f k)
    | inr f ↦ cc (rw (f, d) at h)
  ]

  enqueue-Resolved :
      (now : ℕ) (m : SessionMessage env) (a : Actor env)
      → Resolved a
      → Resolved (enqueue env now m a).0
  unfolding enqueue
  enqueue-Resolved now m a r = elim (Bool-cases (a.session.disposed || a.session.failure)) [
    | inl t ↦ rw t r
    | inr t ↦ rw t (
        behind_call-Resolved (handle env now m a.session) a.exit
          (handle-disposed env now m a.session ∙ ground (arith, t)))
  ]

  write-Resolved :
      (now : ℕ) (m : SessionMessage env) (a : Actor env)
      → Resolved a
      → Resolved (write_message env now m a).0
  unfolding write_message
  write-Resolved now m a r =
      elim (Bool-cases (a.session.pty_exited || a.session.failure || a.session.disposed)) [
        | inl t ↦ rw t r
        | inr t ↦ rw t (enqueue-Resolved now m a r)
      ]

  submit-Resolved :
      (now : ℕ) (identity : SemanticInputIdentity) (s : Submission env) (a : Actor env)
      → Resolved a
      → Resolved (submit_input env now identity s a).0
  unfolding submit_input
  submit-Resolved now identity s a r =
      elim (Bool-cases (a.session.disposed || a.session.failure || a.session.pty_exited)) [
        | inl t ↦ rw t r
        | inr t ↦ rw t (
            behind_call-Resolved (commit_submitted_input env now identity s a.session).0 a.exit
              (commit-disposed env now identity s a.session ∙ ground (arith, t)))
      ]

  subscribe-Resolved :
      (now : ℕ) (cursor : Option ReplayCursor) (a : Actor env)
      → Resolved a
      → Resolved (record a { session = (subscribe env now cursor a.session).0 })
  unfolding subscribe
  subscribe-Resolved now none a r = r
  subscribe-Resolved now (some c) a r =
      elim (Bool-cases (c.session_epoch == a.session.session_epoch)) [
        | inl t ↦ rw t r
        | inr t ↦ rw t r
      ]

  dispose-Resolved : (a : Actor env) → Resolved a → Resolved (dispose env a)
  unfolding dispose
  dispose-Resolved a r = elim (Bool-cases a.session.disposed) [
    | inl t ↦ rw t (λ h. r (ground (arith, t)))
    | inr t ↦ rw t (λ h. resolved a.exit exit_disposed)
  ]

  call-Resolved :
      (call : SessionCall env) (a : Actor env) → Resolved a → Resolved (call_session env call a).0
  unfolding call_session
  call-Resolved (enqueue_call now m) a r = enqueue-Resolved now m a r
  call-Resolved (write_call now m) a r = write-Resolved now m a r
  call-Resolved (submit_call now identity s) a r = submit-Resolved now identity s a r
  call-Resolved (subscribe_call now cursor) a r = subscribe-Resolved now cursor a r
  call-Resolved (exit_call code signal) a r = λ h. resolved a.exit (exited code signal)
  call-Resolved dispose_call a r = dispose-Resolved a r

  run-Resolved :
      (calls : List (SessionCall env)) (a : Actor env)
      → Resolved a
      → Resolved (run_session env calls a).0
  unfolding run_session
  run-Resolved [] a r = r
  run-Resolved (call ∷ calls) a r =
      run-Resolved calls (call_session env call a).0 (call-Resolved call a r)

  call-Still :
      (call : SessionCall env) (a : Actor env) (e : PtyExit)
      → a.exit ≡ some e
      → stopped env a ≡ true
      → Still env a (call_session env call a).0 × Refused env call (call_session env call a).1
  unfolding call_session
  call-Still (enqueue_call now m) a e x h =
      rw (enqueue-Refused env now m a h) (Still-refl env a h, refl)
  call-Still (write_call now m) a e x h =
      rw (write-Refused env now m a h) (Still-refl env a h, refl)
  call-Still (submit_call now identity s) a e x h =
      rw (submit-Refused env now identity s a h)
        (Still-refl env a h, (input_ack env identity rejected a.session, refl, refl))
  call-Still (subscribe_call now cursor) a e x h = (subscribe-Still env now cursor a h, tt)
  call-Still (exit_call code signal) a e x h = (exit-Still env code signal a e x h, tt)
  call-Still dispose_call a e x h = (dispose-Still env a e x h, tt)

  run-Still :
      (calls : List (SessionCall env)) (a : Actor env) (e : PtyExit)
      → a.exit ≡ some e
      → stopped env a ≡ true
      → Still env a (run_session env calls a).0 × AllRefused env calls (run_session env calls a).1
  unfolding run_session
  run-Still [] a e x h = (Still-refl env a h, tt)
  run-Still (call ∷ calls) a e x h =
      let (v, r) = call-Still call a e x h in
      let (w, rs) = run-Still calls (call_session env call a).0 e (v.exit ∙ x) v.stop in
      (
        record {
          sent = w.sent ∙ v.sent;
          pty = w.pty ∙ v.pty;
          exit = w.exit ∙ v.exit;
          stop = w.stop;
        },
        (r, rs),
      )

  -- A session that has not failed and is not disposed, after any calls. If it has failed or is
  -- disposed then, its exit is resolved; and whatever calls follow, it stays so, the exit stays the
  -- same, no frame is sent, nothing is written to the PTY, what would be enqueued or written throws,
  -- and inputs are answered as rejected.
  pub stopped-Still :
      (before behind : List (SessionCall env)) (a : Actor env)
      → stopped env a ≡ false
      → stopped env (run_session env before a).0 ≡ true
      → let b = (run_session env before a).0 in
        ((e : PtyExit) × (b.exit ≡ some e))
        × Still env b (run_session env behind b).0
        × AllRefused env behind (run_session env behind b).1
  stopped-Still before behind a live h =
      let (e, x) = run-Resolved before a (λ t. cc) h in
      let (v, r) = run-Still behind (run_session env before a).0 e x h in ((e, x), v, r)
