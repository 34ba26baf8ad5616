-- ===== src/Host/Session/Replays.antt =====
-- session.ts: what `replayThrough` hands out.
use zhongduan.Base.{
  ℕ, ◌≡◌, ap, inl, inr, Bool-cases, false, Option, some, List, [], ok, ◌==◌, ==_iff,
}
use zhongduan.Protocol.Frame.{DataFrame}
use zhongduan.Protocol.Cursor.Stream.{apply_all}
use zhongduan.Host.Journal.{
  EventJournal, JournalOptions, JournalReplay, replay_ok, new_journal, replay_through,
}
use zhongduan.Host.Journal.Canonical.{AllDecode, Canonical}
use zhongduan.Host.Journal.Replicas.{replica_at, replay_through-Applies}
use zhongduan.Host.Session.{Environment, Session, SessionMessage, drain}
use zhongduan.Host.Session.Stream.{blank}
use zhongduan.Host.Session.Follow.{Sound, failed, whole}
use zhongduan.Host.Session.Start.{new_session, new_session-Sound}
use zhongduan.Host.Session.Attach.{ReplayCursor, replay_commits}

module _ (env : Environment) where
  open env use {Authority, Pty}

  -- The frames lead a replica from one cursor to the other.
  abbrev pub Leads : ReplayCursor → ReplayCursor → List (List ℕ) → Type 0
  Leads base commit frames =
      (fs : List DataFrame) × AllDecode frames fs
      × (apply_all (replica_at base.session_epoch base.position) fs
          ≡ ok (replica_at commit.session_epoch commit.position))

  replay_commits-inv :
      (now : ℕ) (base commit : ReplayCursor) (s t : Session env) (frames : List (List ℕ))
      → replay_commits env now base commit s ≡ (t, replay_ok frames)
      → (base.session_epoch ≡ s.session_epoch)
        × (commit.session_epoch ≡ s.session_epoch)
        × ((replay_through now base.position commit.position s.journal).1 ≡ replay_ok frames)
  unfolding replay_commits
  replay_commits-inv now base commit s t frames h =
      let answer = ap (λ (p : Session env × JournalReplay). p.1) h in
      elim (Bool-cases (base.session_epoch == s.session_epoch)) [
        | inr e ↦ cc (rw e at answer)
        | inl e ↦ elim (Bool-cases (commit.session_epoch == s.session_epoch)) [
          | inr f ↦ cc (rw (e, f) at answer)
          | inl f ↦ ((==_iff _ _).0 e, (==_iff _ _).0 f, rw (e, f) at answer)
        ]
      ]

  leads :
      (now : ℕ) (base commit : ReplayCursor) (s t : Session env) (frames : List (List ℕ))
      → Canonical s.session_epoch s.journal
      → replay_commits env now base commit s ≡ (t, replay_ok frames)
      → Leads base commit frames
  leads now base commit s t frames v h =
      let (e, f, r) = replay_commits-inv now base commit s t frames h in
      let (fs, read, a) =
        replay_through-Applies now s.session_epoch base.position commit.position s.journal frames v
          r in
      (fs, read, rw (e, f) a)

  -- A session from its constructor on, over a new journal, that has not failed after any messages: the
  -- frames that it replays between two cursors take a replica from the first to the second.
  pub replay_commits-Leads :
      (now : ℕ) (base commit : ReplayCursor) (o : JournalOptions) (a : Authority) (j : EventJournal)
      (p : Pty) (epoch : ℕ) (n : Option ℕ) (s t : Session env) (frames : List (List ℕ))
      (ms : List (ℕ × SessionMessage env))
      → new_journal o ≡ ok j
      → new_session env a j p epoch n ≡ some s
      → (drain env ms s).failure ≡ false
      → replay_commits env now base commit (drain env ms s) ≡ (t, replay_ok frames)
      → Leads base commit frames
  replay_commits-Leads now base commit o a j p epoch n s t frames ms h k live r =
      reached (new_session-Sound env o a j p epoch n s ms h k) live r
    where
      reached :
          {u : Session env}
          → Sound env [] (blank epoch) u
          → u.failure ≡ false
          → replay_commits env now base commit u ≡ (t, replay_ok frames)
          → Leads base commit frames
      reached (failed f) l e = cc
      reached {u = u} (whole d q) l e = leads now base commit u t frames q.journal e
