-- ===== src/Host/Session/Start.antt =====
-- session.ts: the constructor of `TerminalSession`, whose registered callbacks are the messages that
-- come later, and a session from its start on.
use zhongduan.Base.{
  ℕ, ◌≡◌, refl, sym, ap, subst, inl, inr, ◌||◌, false, Option, none, some, List, [], ◌==◌, ltb,
  if◌then◌else◌, Bool-cases, ok, bind_inv, ok-injective,
}
use zhongduan.Protocol.Errors.{max_u64}
use zhongduan.Protocol.Cursor.Stream.{apply_all}
use zhongduan.Host.Journal.{EventJournal, JournalOptions, new_journal, positive_limit, origin}
use zhongduan.Host.Journal.Canonical.{new_journal-Canonical}
use zhongduan.Host.Session.Stream.{blank}
use zhongduan.Host.Session.{Environment, Session, SessionMessage, drain}
use zhongduan.Host.Session.Follow.{Sound, whole, drain-Sound}

abbrev pub default_dedup_entries : ℕ
default_dedup_entries = 4096

abbrev pub dedup_or_default : Option ℕ → ℕ
dedup_or_default none = default_dedup_entries
dedup_or_default (some n) = n

module _ (env : Environment) where
  open env use {Authority, Pty}

  -- The fields as they are declared.
  abbrev pub started : Authority → EventJournal → Pty → ℕ → ℕ → Session env
  started authority journal pty session_epoch input_dedup_entries = record {
    authority = authority;
    journal = journal;
    pty = pty;
    session_epoch = session_epoch;
    input_dedup_entries = input_dedup_entries;
    sent = [];
    disposed = false;
    failure = false;
    pty_exited = false;
    event_seq = 0;
    next_pty_offset = 0;
    input_fence = 0;
    input_writer = none;
    input_results = [];
  }

  -- The constructor; `none` is a `RangeError`.
  unfoldable pub new_session : Authority → EventJournal → Pty → ℕ → Option ℕ → Option (Session env)
  new_session authority journal pty session_epoch input_dedup_entries =
      if session_epoch == 0 || ltb max_u64 session_epoch
      then none
      else if dedup_or_default input_dedup_entries == 0
      then none
      else some (started authority journal pty session_epoch (dedup_or_default input_dedup_entries))

  new_session-started :
      (a : Authority) (j : EventJournal) (p : Pty) (epoch : ℕ) (n : Option ℕ) (s : Session env)
      → new_session a j p epoch n ≡ some s
      → started a j p epoch (dedup_or_default n) ≡ s
  unfolding new_session
  new_session-started a j p epoch n s h = elim (Bool-cases (epoch == 0 || ltb max_u64 epoch)) [
    | inl e ↦ cc (rw e at h)
    | inr e ↦ elim (Bool-cases (dedup_or_default n == 0)) [
      | inl f ↦ cc (rw (e, f) at h)
      | inr f ↦ some_inj (rw (e, f) at h)
    ]
  ]
    where
      some_inj : {x y : Session env} → some x ≡ some y → x ≡ y
      some_inj e = cc

  new_journal-head :
      (o : JournalOptions) (j : EventJournal) → new_journal o ≡ ok j → j.head_cursor ≡ origin
  unfolding new_journal
  new_journal-head o j h =
      let (_, _, h1) = bind_inv (positive_limit o.max_age_ms) _ h in
      let (_, _, h2) = bind_inv (positive_limit o.max_bytes) _ h1 in
      let (_, _, h3) = bind_inv (positive_limit o.segment_age_ms) _ h2 in
      let (_, _, h4) = bind_inv (positive_limit o.segment_bytes) _ h3 in
      ap (λ (k : EventJournal). k.head_cursor) (sym (ok-injective h4))

  -- A session that the constructor makes over a new journal, and any messages: it has failed, or it is
  -- live, a blank replica that applies every frame that was sent stands at its cursor, and the journal
  -- is well formed, can be replayed and ends there.
  pub new_session-Sound :
      (o : JournalOptions) (a : Authority) (j : EventJournal) (p : Pty) (epoch : ℕ) (n : Option ℕ)
      (s : Session env) (ms : List (ℕ × SessionMessage env))
      → new_journal o ≡ ok j
      → new_session a j p epoch n ≡ some s
      → Sound env [] (blank epoch) (drain env ms s)
  unfolding apply_all
  new_session-Sound o a j p epoch n s ms h k =
      let t = started a j p epoch (dedup_or_default n) in
      subst (λ (x : Session env). Sound env [] (blank epoch) (drain env ms x))
        (new_session-started a j p epoch n s k)
        (drain-Sound env [] (blank epoch) ms t (
          whole refl (record {
            later = [];
            sent = refl;
            frames = [];
            decoded = tt;
            applied = refl;
            head = new_journal-head o j h;
            journal = new_journal-Canonical o epoch j h;
          })))
