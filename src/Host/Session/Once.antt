-- ===== src/Host/Session/Once.antt =====
-- session.ts: repeated submissions of an input, in `#commitSubmittedInput` and what follows it.
use zhongduan.Base.{
  ℕ, ◌≤◌, ◌≡◌, ◌≢◌, refl, sym, subst, ◌∙◌, ◌⊎◌, inl, inr, true, false, ◌&&◌, ◌||◌, Option, none,
  some, List, arith, ltb, leb, ◌==◌, Bool-cases, Option-cases, same_text,
}
use zhongduan.Protocol.Errors.{max_u64}
use zhongduan.Host.Session.{
  ahead, answer, fresh_writer, well_formed, max_of, Environment, Session, SemanticInputIdentity,
  written, rejected, InputAck, InputWriterState, result_written, result_uncertain, Submission,
  SessionMessage, commit_submitted_input, by_writer, perform, drain, raise_fence, lookup_result,
}
use zhongduan.Host.Session.Settled.{Settled, perform-cases, drain-Settled}

module _ (env : Environment) where
  -- The answers of a session that does nothing.
  abbrev pub Refused : Session env → Session env × InputAck → Type 0
  Refused s r = (r.0 ≡ s) × (r.1.status ≢ written)

  by_writer-Refused :
      (now : ℕ) (identity : SemanticInputIdentity) (a : Submission env) (w : InputWriterState)
      (s : Session env)
      → identity.client_input_seq ≤ w.high_water
      → Refused s (by_writer env now identity a (some w) s)
  unfolding by_writer
  by_writer-Refused now identity a w s h = ground arith

  -- The writer that a commit leaves has reached the input's number.
  abbrev Performed : SemanticInputIdentity → Session env → Session env → Type 0
  Performed identity s t =
      (t.input_fence ≡ s.input_fence)
      × ((v : InputWriterState) × (t.input_writer ≡ some v)
          × (identity.client_input_seq ≤ v.high_water))

  perform-Performed :
      (now : ℕ) (identity : SemanticInputIdentity) (a : Submission env) (w : InputWriterState)
      (s : Session env)
      → (perform env now identity a w s).1.status ≡ written
      → Performed identity s (perform env now identity a w s).0
  perform-Performed now identity a w s h = elim (perform-cases env now identity a w s) [
    | inl (_, other) ↦ absurd (other h)
    | inr (f, e) ↦ (
      f,
      (
        record w { high_water = max_of env w.high_water identity.client_input_seq },
        e,
        ground arith,
      ),
    )
  ]

  by_writer-Performed :
      (now : ℕ) (identity : SemanticInputIdentity) (a : Submission env)
      (o : Option InputWriterState) (s : Session env)
      → (by_writer env now identity a o s).1.status ≡ written
      → Performed identity s (by_writer env now identity a o s).0
  unfolding by_writer
  by_writer-Performed now identity a none s h = elim (Bool-cases (identity.client_input_seq == 1)) [
    | inr e ↦ cc (rw e at h)
    | inl e ↦ elim (Bool-cases (ahead env identity.observed_event_seq s.event_seq)) [
      | inl e2 ↦ cc (rw (e, e2) at h)
      | inr e2 ↦
          rw (e, e2)
            (perform-Performed now identity a (fresh_writer env identity) s (rw (e, e2) at h))
    ]
  ]
  by_writer-Performed now identity a (some w) s h =
      elim (Bool-cases (
        same_text w.client_id identity.client_id && same_text w.input_epoch identity.input_epoch)) [
          | inr e ↦ cc (rw e at h)
          | inl e ↦ elim (Option-cases (lookup_result identity.client_input_seq s.input_results)) [
            | inr (result_written, e2) ↦ cc (rw (e, e2, by_writer) at h)
            | inr (result_uncertain, e2) ↦ cc (rw (e, e2, by_writer) at h)
            | inl e2 ↦ elim (Bool-cases (leb identity.client_input_seq w.high_water)) [
              | inl e3 ↦ cc (rw (e, e2, by_writer, e3) at h)
              | inr e3 ↦ elim (Bool-cases (ahead env identity.observed_event_seq s.event_seq)) [
                | inl e4 ↦ cc (rw (e, e2, by_writer, e3, e4) at h)
                | inr e4 ↦
                    rw (e, e2, by_writer, e3, e4)
                      (perform-Performed now identity a w s (rw (e, e2, by_writer, e3, e4) at h))
              ]
            ]
          ]
        ]

  raise_fence-fence :
      (f : ℕ) (s : Session env)
      → ltb f s.input_fence ≡ false
      → (raise_fence env f s).input_fence ≡ f
  raise_fence-fence f s h = ground arith

  -- The whole check, as its last call where every test before passes.
  abbrev Passed : SemanticInputIdentity → Session env → Type 0
  Passed identity s =
      ((s.pty_exited || s.failure) ≡ false)
      × ((identity.writer_fence == 0 || ltb max_u64 identity.writer_fence) ≡ false)
      × (ltb identity.writer_fence s.input_fence ≡ false)
      × (well_formed env identity ≡ true)

  -- A submission stops at a check, with a state that only the fence may have changed, or goes on.
  commit-cases :
      (now : ℕ) (identity : SemanticInputIdentity) (a : Submission env) (s : Session env)
      → ((commit_submitted_input env now identity a s ≡ answer env identity rejected s)
          ⊎ ((ltb identity.writer_fence s.input_fence ≡ false)
              × (commit_submitted_input env now identity a s
                  ≡ answer env identity rejected (raise_fence env identity.writer_fence s))))
        ⊎ (Passed identity s
            × (commit_submitted_input env now identity a s
                ≡ by_writer env now identity a
                    (raise_fence env identity.writer_fence s).input_writer
                    (raise_fence env identity.writer_fence s)))
  unfolding commit_submitted_input
  commit-cases now identity a s = elim (Bool-cases (s.pty_exited || s.failure)) [
    | inl e ↦ inl (inl (rw e))
    | inr e ↦ elim (Bool-cases (identity.writer_fence == 0 || ltb max_u64 identity.writer_fence)) [
      | inl e2 ↦ inl (inl (rw (e, e2)))
      | inr e2 ↦ elim (Bool-cases (ltb identity.writer_fence s.input_fence)) [
        | inl e3 ↦ inl (inl (rw (e, e2, e3)))
        | inr e3 ↦ elim (Bool-cases (well_formed env identity)) [
          | inl e4 ↦ inr ((e, e2, e3, e4), rw (e, e2, e3, e4))
          | inr e4 ↦ inl (inr (e3, rw (e, e2, e3, e4)))
        ]
      ]
    ]
  ]

  written-Settled :
      (now : ℕ) (identity : SemanticInputIdentity) (a : Submission env) (s : Session env)
      → (commit_submitted_input env now identity a s).1.status ≡ written
      → Settled env identity.writer_fence identity.client_input_seq
          (commit_submitted_input env now identity a s).0
  written-Settled now identity a s h = elim (commit-cases now identity a s) [
    | inl (inl e) ↦ cc (rw e at h)
    | inl (inr (_, e)) ↦ cc (rw e at h)
    | inr (p, e) ↦
        let t = raise_fence env identity.writer_fence s in
        let (f, v, w, le) =
          settled t (by_writer env now identity a t.input_writer t).0
            (by_writer-Performed now identity a t.input_writer t (rw e at h)) in
        rw e (inr (sym (f ∙ raise_fence-fence identity.writer_fence s p.2), (v, w, le)))
  ]
    where
      settled :
          (t u : Session env)
          → Performed identity t u
          → (u.input_fence ≡ t.input_fence)
            × (v : InputWriterState) × (u.input_writer ≡ some v)
            × (identity.client_input_seq ≤ v.high_water)
      settled t u (f, (v, w, le)) = (f, v, w, le)

  Settled-Refused :
      (now : ℕ) (identity : SemanticInputIdentity) (a : Submission env) (s : Session env)
      → Settled env identity.writer_fence identity.client_input_seq s
      → Refused s (commit_submitted_input env now identity a s)
  Settled-Refused now identity a s (inl below) = elim (commit-cases now identity a s) [
    | inl (inl e) ↦ rw e (refl, λ q. cc)
    | inl (inr (f, e)) ↦ absurd (ground arith)
    | inr (p, e) ↦ absurd (ground (arith, p.2))
  ]
  Settled-Refused now identity a s (inr (same, (w, writer, le))) =
      let still : raise_fence env identity.writer_fence s ≡ s = ground arith in
      elim (commit-cases now identity a s) [
        | inl (inl e) ↦ rw e (refl, λ q. cc)
        | inl (inr (f, e)) ↦ rw e (still, λ q. cc)
        | inr (p, e) ↦
            rw (e, still)
              (subst (λ (o : Option InputWriterState). Refused s (by_writer env now identity a o s))
                (sym writer) (by_writer-Refused now identity a w s le))
      ]

  -- Exactly once: when an input was answered `written`, whatever messages the session handles
  -- afterwards, a further submission under the same fence and number changes nothing of the session
  -- (its PTY included) and is not answered `written`.
  pub written_once :
      (now later : ℕ) (identity again : SemanticInputIdentity) (a b : Submission env)
      (ms : List (ℕ × SessionMessage env)) (s : Session env)
      → (commit_submitted_input env now identity a s).1.status ≡ written
      → again.writer_fence ≡ identity.writer_fence
      → again.client_input_seq ≡ identity.client_input_seq
      → let t = drain env ms (commit_submitted_input env now identity a s).0 in
        Refused t (commit_submitted_input env later again b t)
  written_once now later identity again a b ms s h f q =
      let t = drain env ms (commit_submitted_input env now identity a s).0 in
      Settled-Refused later again b t (
        subst (λ (n : ℕ). (Settled env) n again.client_input_seq t) (sym f)
          (subst (λ (n : ℕ). (Settled env) identity.writer_fence n t) (sym q)
            (drain-Settled env identity.writer_fence identity.client_input_seq ms _
              (written-Settled now identity a s h))))
