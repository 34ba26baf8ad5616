-- ===== src/Host/Session/Calls.antt =====
-- session.ts: the calls of `TerminalSession` around its queue: `#enqueue`, the writers and
-- `#assertPtyWritable`, `#submitInput`, the exit of the PTY and `dispose`. What they release of the
-- PTY, the authority and the subscribers is not part of the state.
pub mod Final
pub mod Still
use zhongduan.Base.{
  ℕ, ◌≡◌, refl, sym, ap, subst, ◌∙◌, inl, inr, Bool, Bool-cases, true, false, ◌||◌, not, Option,
  none, some, List, [], ◌∷◌, All, if◌then◌else◌, arith,
}
use zhongduan.Host.Journal.{JournalReplay}
use zhongduan.Host.Session.{
  Environment, Session, Submission, SemanticInputIdentity, SessionMessage, InputAck, InputAckStatus,
  rejected, input_ack, commit_submitted_input, handle, drain,
}
use zhongduan.Host.Session.Attach.{ReplayCursor, SubscriptionResult, subscribe}

pub data PtyExit : Type 0 where
  exited : ℕ → ℕ → PtyExit
  exit_failed exit_disposed : PtyExit

module _ (env : Environment) where
  -- The session, and what `waitForExit` resolves to.
  pub record Actor : Type 0 where
    pub session : Session env
    pub exit : Option PtyExit

  -- `#resolveExit`: the first one counts.
  abbrev pub resolve_exit : Option PtyExit → PtyExit → Option PtyExit
  resolve_exit none exit = some exit
  resolve_exit (some earlier) exit = some earlier

  pub data SessionCall : Type 0 where
    enqueue_call : ℕ → SessionMessage env → SessionCall
    write_call : ℕ → SessionMessage env → SessionCall
    submit_call : ℕ → SemanticInputIdentity → Submission env → SessionCall
    subscribe_call : ℕ → Option ReplayCursor → SessionCall
    exit_call : ℕ → ℕ → SessionCall
    dispose_call : SessionCall

  pub data Answer : Type 0 where
    done : Answer
    threw : Answer
    acked : InputAck → Answer
    answered : SubscriptionResult → Answer

  -- The session behind a call that may have failed it: `#fail` resolves the exit.
  abbrev pub behind_call : Session env → Option PtyExit → Actor
  behind_call s exit = record {
    session = s;
    exit = if s.failure then resolve_exit exit exit_failed else exit;
  }

  -- `#enqueue`: the queue is drained at once, and what fails the session is thrown.
  unfoldable pub enqueue : ℕ → SessionMessage env → Actor → Actor × Answer
  enqueue now m a =
      if a.session.disposed || a.session.failure
      then (a, threw)
      else let s = handle env now m a.session in
        (behind_call s a.exit, if s.failure then threw else done)

  -- `#assertPtyWritable`: whether it returns.
  abbrev pub assert_pty_writable : Session env → Bool
  assert_pty_writable s = not (s.pty_exited || s.failure || s.disposed)

  -- `resize`, `writeKey`, `writePaste` and `writeRawInput`, which makes one message of
  -- each 16 KiB.
  unfoldable pub write_message : ℕ → SessionMessage env → Actor → Actor × Answer
  unfolding enqueue
  write_message now m a = if assert_pty_writable a.session then enqueue now m a else (a, threw)

  -- `#submitInput`.
  unfoldable pub submit_input : ℕ → SemanticInputIdentity → Submission env → Actor → Actor × Answer
  submit_input now identity submission a =
      if a.session.disposed || a.session.failure || a.session.pty_exited
      then (a, acked (input_ack env identity rejected a.session))
      else let done = commit_submitted_input env now identity submission a.session in
        (behind_call done.0 a.exit, acked done.1)

  -- The callback of `onExit`.
  abbrev pub exit_pty : ℕ → ℕ → Actor → Actor
  exit_pty code signal a = record {
    session = record a.session { pty_exited = true };
    exit = resolve_exit a.exit (exited code signal);
  }

  unfoldable pub dispose : Actor → Actor
  dispose a = if a.session.disposed then a else record {
    session = record a.session { disposed = true };
    exit = resolve_exit a.exit exit_disposed;
  }

  unfoldable pub call_session : SessionCall → Actor → Actor × Answer
  unfolding enqueue write_message submit_input subscribe dispose
  call_session (enqueue_call now m) a = enqueue now m a
  call_session (write_call now m) a = write_message now m a
  call_session (submit_call now identity s) a = submit_input now identity s a
  call_session (subscribe_call now cursor) a =
      let r = subscribe env now cursor a.session in (record a { session = r.0 }, answered r.1)
  call_session (exit_call code signal) a = (exit_pty code signal a, done)
  call_session dispose_call a = (dispose a, done)

  unfoldable pub run_session : List SessionCall → Actor → Actor × List Answer
  unfolding call_session
  run_session [] a = (a, [])
  run_session (call ∷ calls) a =
      let first = call_session call a in
      let rest = run_session calls first.0 in (rest.0, first.1 ∷ rest.1)
