-- ===== src/Host/Session/Attach.antt =====
-- session.ts: `subscribe` and `replayThrough`, and what a subscriber that attaches late is handed. A
-- subscriber that throws, or that calls back while its replay runs, is left out.
use mathlib.Core.List.{append-nil}
use zhongduan.Base.{
  ℕ, ◌≡◌, refl, sym, ap, subst, ◌∙◌, inl, inr, Bool-cases, false, true, not, ◌||◌, Option, none,
  some, List, [], ◌++◌, ok, ◌==◌, ==_iff, if◌then◌else◌,
}
use zhongduan.Protocol.Frame.{DataFrame}
use zhongduan.Protocol.Cursor.{ReplicaCursor}
use zhongduan.Protocol.Cursor.Stream.{apply_all, apply_all-append}
use zhongduan.Host.Journal.{
  EventJournal, JournalOptions, JournalCursor, JournalReplay, replay_ok, replay_gap, new_journal,
  replay_from, replay_through,
}
use zhongduan.Host.Journal.Canonical.{AllDecode, AllDecode-append}
use zhongduan.Host.Journal.Replicas.{replica_at, replay_from-Applies}
use zhongduan.Host.Session.{Environment, Session, SessionMessage, drain}
use zhongduan.Host.Session.Stream.{cursor_of, Published, blank}
use zhongduan.Host.Session.Follow.{Sound, failed, whole, drain-Sound}
use zhongduan.Host.Session.Start.{new_session, new_session-Sound}

pub record ReplayCursor : Type 0 where
  pub session_epoch : ℕ
  pub position : JournalCursor

-- What a subscriber is handed at once, if it is attached.
pub data SubscriptionResult : Type 0 where
  attached : List (List ℕ) → SubscriptionResult
  gap : SubscriptionResult

abbrev pub subscribed : JournalReplay → SubscriptionResult
subscribed (replay_ok frames) = attached frames
subscribed replay_gap = gap

module _ (env : Environment) where
  open env use {Authority, Pty}

  -- `subscribe`, with or without a cursor.
  unfoldable pub subscribe :
      ℕ → Option ReplayCursor → Session env → Session env × SubscriptionResult
  subscribe now none s = (s, attached [])
  subscribe now (some cursor) s =
      if not (cursor.session_epoch == s.session_epoch)
      then (s, gap)
      else let replay = replay_from now cursor.position s.journal in
        (record s { journal = replay.0 }, subscribed replay.1)

  -- `replayThrough`.
  unfoldable pub replay_commits :
      ℕ → ReplayCursor → ReplayCursor → Session env → Session env × JournalReplay
  replay_commits now base commit s =
      if not (base.session_epoch == s.session_epoch)
        || not (commit.session_epoch == s.session_epoch)
      then (s, replay_gap)
      else let replay = replay_through now base.position commit.position s.journal in
        (record s { journal = replay.0 }, replay.1)

  -- What a subscriber with a cursor has been handed, at once and behind `before`, takes a replica
  -- from that cursor to the cursor of the session; or the session has failed.
  pub data Follows (cursor : ReplayCursor) (replay before : List (List ℕ)) (s : Session env)
      : Type 0 where
    lost : s.failure ≡ true → Follows cursor replay before s
    follows :
        (later : List (List ℕ)) (frames : List DataFrame)
        → s.sent ≡ before ++ later
        → AllDecode (replay ++ later) frames
        → apply_all (replica_at cursor.session_epoch cursor.position) frames ≡ ok (cursor_of env s)
        → Follows cursor replay before s

  attached-injective : {xs ys : List (List ℕ)} → attached xs ≡ attached ys → xs ≡ ys
  attached-injective e = cc

  subscribed-inv :
      (r : JournalReplay) (frames : List (List ℕ))
      → subscribed r ≡ attached frames
      → r ≡ replay_ok frames
  subscribed-inv (replay_ok xs) frames h = ap replay_ok (attached-injective h)
  subscribed-inv replay_gap frames h = cc

  -- What `subscribe` has read when it attaches a subscriber at a cursor.
  subscribe-inv :
      (now : ℕ) (c : ReplayCursor) (s t : Session env) (frames : List (List ℕ))
      → subscribe now (some c) s ≡ (t, attached frames)
      → (c.session_epoch ≡ s.session_epoch)
        × (record s { journal = (replay_from now c.position s.journal).0 } ≡ t)
        × ((replay_from now c.position s.journal).1 ≡ replay_ok frames)
  unfolding subscribe
  subscribe-inv now c s t frames h = elim (Bool-cases (c.session_epoch == s.session_epoch)) [
    | inr e ↦ cc (ap (λ (p : Session env × SubscriptionResult). p.1) (rw e at h))
    | inl e ↦ (
      (==_iff _ _).0 e,
      ap (λ (p : Session env × SubscriptionResult). p.0) (rw e at h),
      subscribed-inv _ frames (ap (λ (p : Session env × SubscriptionResult). p.1) (rw e at h)),
    )
  ]

  -- A session at whose cursor its journal ends attaches a subscriber: whatever messages follow.
  attach-Follows :
      (now : ℕ) (c : ReplayCursor) (s t : Session env) (replay : List (List ℕ))
      (base : List (List ℕ)) (start : ReplicaCursor) (ms : List (ℕ × SessionMessage env))
      → s.disposed ≡ false
      → Published env base start s
      → subscribe now (some c) s ≡ (t, attached replay)
      → Follows c replay s.sent (drain env ms t)
  attach-Follows now c s t replay base start ms d p h =
      let (epoch, e, r) = subscribe-inv now c s t replay h in
      let (kept, head, fs, decoded, applied) =
        replay_from-Applies now s.session_epoch c.position s.journal replay p.journal r in
      let u : Session env = record s { journal = (replay_from now c.position s.journal).0 } in
      subst (λ (x : Session env). Follows c replay s.sent (drain env ms x)) e
        (onwards fs decoded
          (rw epoch applied
            ∙ ap (λ (k : JournalCursor). ok (replica_at s.session_epoch k)) (head ∙ p.head))
          (drain-Sound env s.sent (cursor_of env s) ms u (
            whole d (record {
              later = [];
              sent = sym (append-nil s.sent);
              frames = [];
              decoded = tt;
              applied = unfold apply_all in refl;
              head = head ∙ p.head;
              journal = kept;
            }))))
    where
      onwards :
          (fs : List DataFrame)
          → AllDecode replay fs
          → apply_all (replica_at c.session_epoch c.position) fs ≡ ok (cursor_of env s)
          → {x : Session env} → Sound env s.sent (cursor_of env s) x
          → Follows c replay s.sent x
      onwards fs k a (failed f) = lost f
      onwards fs k a (whole _ q) =
          follows q.later (fs ++ q.frames) q.sent
            (AllDecode-append replay q.later fs q.frames k q.decoded)
            (apply_all-append fs q.frames (replica_at c.session_epoch c.position) ∙ rw a q.applied)

  -- A session from its constructor on, over a new journal, that has not failed after any messages: a
  -- subscriber that it then attaches at a cursor, wherever the cursor stands, is handed frames that
  -- take a replica from that cursor to the session's cursor, after whatever further messages, unless
  -- the session has failed: first the replay, then every frame that is sent.
  pub subscribe-Follows :
      (now : ℕ) (c : ReplayCursor) (o : JournalOptions) (a : Authority) (j : EventJournal) (p : Pty)
      (epoch : ℕ) (n : Option ℕ) (s t : Session env) (replay : List (List ℕ))
      (before behind : List (ℕ × SessionMessage env))
      → new_journal o ≡ ok j
      → new_session env a j p epoch n ≡ some s
      → (drain env before s).failure ≡ false
      → subscribe now (some c) (drain env before s) ≡ (t, attached replay)
      → Follows c replay (drain env before s).sent (drain env behind t)
  subscribe-Follows now c o a j p epoch n s t replay before behind h k live h' =
      reached (new_session-Sound env o a j p epoch n s before h k) live h'
    where
      reached :
          {u : Session env}
          → Sound env [] (blank epoch) u
          → u.failure ≡ false
          → subscribe now (some c) u ≡ (t, attached replay)
          → Follows c replay u.sent (drain env behind t)
      reached (failed f) l e = cc
      reached {u = u} (whole d q) l e =
          attach-Follows now c u t replay [] (blank epoch) behind d q e
