-- ===== src/Client/Coordinator/Commits.antt =====
-- session-coordinator.ts: what a replica that takes a frame leaves, and the commit of a delivery.
use zhongduan.Base.{
  ℕ, ◌≡◌, ◌≢◌, refl, sym, ◌∙◌, ◌⊎◌, inl, inr, Bool, true, false, ◌&&◌, Option, none, some, List, [],
  ◌∷◌, ◌==◌, All, Result, ok, err, arith, Bool-cases, Result-cases, require_inv, ok-injective,
}
use zhongduan.Protocol.Errors.{ProtocolErrorCode}
use zhongduan.Protocol.Frame.{DataFrame, ResizePayload, pty_output}
use zhongduan.Protocol.Cursor.{ReplicaCursor, AppliedMutation, apply_mutation_cursor}
use zhongduan.Client.Coordinator.{
  ReplicaEngine, Waiting, Thrown, other_error, DeliveryState, idle, awaiting_control, replaying,
  restoring, live, resyncing, closed, stopped, is_restoring, journal_gap, acknowledge, Candidate,
  no_candidate, on_live, held, Delivery, Coordinator, emit,
}
use zhongduan.Client.Coordinator.Frames.{
  Step, play, apply_frame, applied_to, accept_commit, matches_received, matches_watermark, adopted,
  finish_commit, caught_up, has_candidate, commit_with, try_commit, take_commit,
}
use zhongduan.Client.Coordinator.Sound.{Sound-Broken, resync-Sound}
use zhongduan.Client.Coordinator.States.{Phase, Linked, SoundWith, Broken, Linked-mono}

pub Played-cases :
    {R : Type 0} (p : R × Result Thrown ReplicaCursor)
    → ((r : R) × (c : ReplicaCursor) × (p ≡ (r, ok c)))
      ⊎ ((r : R) × (e : Thrown) × (p ≡ (r, err e)))
Played-cases (r, ok c) = inl (r, c, refl)
Played-cases (r, err e) = inr (r, e, refl)

same_three : (a b c x y z : ℕ) → (a == x && b == y && c == z) ≡ true → (b ≡ y) × (c ≡ z)
same_three a b c x y z h = ground arith

same_two : (b c y z : ℕ) → (b == y && c == z) ≡ true → (b ≡ y) × (c ≡ z)
same_two b c y z h = ground arith

module _ (engine : ReplicaEngine) where
  open engine use {Replica}

  applied_to-cursor :
      (c d : ReplicaCursor) (p : Replica × Bool) (r : Replica)
      → applied_to engine c p ≡ (r, ok d)
      → d ≡ c
  applied_to-cursor c d (q, true) r h = cc
  applied_to-cursor c d (q, false) r h = cc

  applied_to-thrown :
      (c : ReplicaCursor) (p : Replica × Bool) (r : Replica) (e : Thrown)
      → applied_to engine c p ≡ (r, err e)
      → e ≡ other_error
  applied_to-thrown c (q, true) r e h = cc
  applied_to-thrown c (q, false) r e h = cc

  -- The cursor behind a frame that a replica took is the one that the frame leads to.
  pub play-cursor :
      (b : Bool) (z : Option ResizePayload) (c d : ReplicaCursor) (r q : Replica) (f : DataFrame)
      → play engine b z c r f ≡ (q, ok d)
      → d ≡ c
  play-cursor true z c d r q f h = applied_to-cursor c d (engine.write_pty r f.payload) q h
  play-cursor false none c d r q f h = cc
  play-cursor false (some z) c d r q f h = applied_to-cursor c d (engine.resize r z) q h

  -- A replica that throws for a frame that the cursor accepts throws no protocol error.
  pub play-thrown :
      (b : Bool) (z : Option ResizePayload) (c : ReplicaCursor) (r q : Replica) (f : DataFrame)
      (e : Thrown)
      → play engine b z c r f ≡ (q, err e)
      → e ≡ other_error
  play-thrown true z c r q f e h = applied_to-thrown c (engine.write_pty r f.payload) q e h
  play-thrown false none c r q f e h = cc
  play-thrown false (some z) c r q f e h = applied_to-thrown c (engine.resize r z) q e h

  pub apply_frame-accepted :
      (r : Replica) (c : ReplicaCursor) (f : DataFrame) (a : AppliedMutation)
      → apply_mutation_cursor c f ≡ ok a
      → apply_frame engine r c f ≡ play engine (f.kind == pty_output) a.resize a.cursor r f
  unfolding apply_frame
  apply_frame-accepted r c f a e = rw (e, apply_frame) refl

  Phase-on_live :
      (Origin : Replica → ReplicaCursor → Type 0) (state : DeliveryState) (x : ReplicaCursor)
      → Phase engine Origin state on_live (some x)
      → is_restoring state ≡ false
  Phase-on_live Origin replaying x h = refl
  Phase-on_live Origin live x h = refl
  Phase-on_live Origin restoring x h = absurd h
  Phase-on_live Origin idle x h = absurd h
  Phase-on_live Origin awaiting_control x h = absurd h
  Phase-on_live Origin resyncing x h = absurd h
  Phase-on_live Origin closed x h = absurd h

  Phase-held :
      (Origin : Replica → ReplicaCursor → Type 0) (state : DeliveryState) (r : Replica)
      (commit : Option ReplicaCursor)
      → Phase engine Origin state (held r) commit
      → is_restoring state ≡ true
  Phase-held Origin restoring r x h = refl
  Phase-held Origin replaying r x h = absurd h
  Phase-held Origin live r x h = absurd h
  Phase-held Origin idle r x h = absurd h
  Phase-held Origin awaiting_control r x h = absurd h
  Phase-held Origin resyncing r x h = absurd h
  Phase-held Origin closed r x h = absurd h

  pub Phase-restored :
      (Origin : Replica → ReplicaCursor → Type 0) (state : DeliveryState) (q : Replica)
      (commit : Option ReplicaCursor)
      → Phase engine Origin state no_candidate commit
      → Phase engine Origin state (held q) commit
  Phase-restored Origin restoring q x h = tt
  Phase-restored Origin replaying q x h = absurd h
  Phase-restored Origin live q x h = absurd h
  Phase-restored Origin idle q x h = absurd h
  Phase-restored Origin awaiting_control q x h = absurd h
  Phase-restored Origin resyncing q x h = absurd h
  Phase-restored Origin closed q x h = absurd h

  pub Phase-other :
      (Origin : Replica → ReplicaCursor → Type 0) (state : DeliveryState) (r q : Replica)
      (commit : Option ReplicaCursor)
      → Phase engine Origin state (held r) commit
      → Phase engine Origin state (held q) commit
  Phase-other Origin restoring r q x h = tt
  Phase-other Origin replaying r q x h = absurd h
  Phase-other Origin live r q x h = absurd h
  Phase-other Origin idle r q x h = absurd h
  Phase-other Origin awaiting_control r q x h = absurd h
  Phase-other Origin resyncing r q x h = absurd h
  Phase-other Origin closed r q x h = absurd h

  Phase-pinned :
      (Origin : Replica → ReplicaCursor → Type 0) (state : DeliveryState) (c : Candidate engine)
      (o : Option ReplicaCursor) (x : ReplicaCursor)
      → Phase engine Origin state c o
      → Phase engine Origin state c (some x)
  Phase-pinned Origin restoring no_candidate o x h = tt
  Phase-pinned Origin restoring (held r) o x h = tt
  Phase-pinned Origin restoring on_live o x h = absurd h
  Phase-pinned Origin replaying on_live o x h = tt
  Phase-pinned Origin replaying no_candidate o x h = absurd h
  Phase-pinned Origin replaying (held r) o x h = absurd h
  Phase-pinned Origin live on_live o x h = tt
  Phase-pinned Origin live no_candidate o x h = absurd h
  Phase-pinned Origin live (held r) o x h = absurd h
  Phase-pinned Origin idle c o x h = absurd h
  Phase-pinned Origin awaiting_control c o x h = absurd h
  Phase-pinned Origin resyncing c o x h = absurd h
  Phase-pinned Origin closed c o x h = absurd h

  -- A coordinator with a delivery, and a delivery with a candidate.
  abbrev pub holding : Delivery engine → Coordinator engine → Coordinator engine
  holding d s = record s { delivery = some d }

  abbrev pub pinned_to : ReplicaCursor → Candidate engine → Delivery engine → Delivery engine
  pinned_to x c d = record d { commit = some x; candidate = c }

  module _ (Origin : Replica → ReplicaCursor → Type 0) (extra : List (ℕ × Waiting)) where
    abbrev pub Good : Step engine → Type 0
    Good (s, none) = SoundWith engine Origin extra s
    Good (s, some e) = Broken engine Origin extra s

    -- The candidate of a delivery that has one is no longer awaited.
    pub Linked-replaced :
        (n : ℕ) (d : Delivery engine) (o : Option (Delivery engine)) (ws : List (ℕ × Waiting))
        → d.candidate ≢ no_candidate
        → All (Linked engine Origin n (some d)) ws
        → All (Linked engine Origin n o) ws
    Linked-replaced n d o ws ne h =
        Linked-mono engine Origin n (some d) o ws (λ m r. absurd (ne r.0)) h

    finish-Sound :
        (c : Candidate engine) (x : ReplicaCursor) (d : Delivery engine) (s : Coordinator engine)
        → has_candidate engine c ≡ true
        → SoundWith engine Origin extra (holding (pinned_to x c d) s)
        → SoundWith engine Origin extra
            (finish_commit engine (pinned_to x c d) (holding (pinned_to x c d) s))
    unfolding adopted
    finish-Sound no_candidate x d s k h = absurd (cc)
    finish-Sound on_live x d s k h =
        let (v, p, f, q) = h.delivers in
        rw (Phase-on_live Origin s.state x p) (record {
          shown = h.shown;
          delivers = (v, tt, f, q);
          linked = h.linked;
          expected = h.expected;
        })
    finish-Sound (held r) x d s k h =
        let (v, p, f, q) = h.delivers in
        rw (Phase-held Origin s.state r (some x) p) (record {
          shown = v.1;
          delivers = ((v.0, refl), tt, f, q);
          linked =
              Linked-replaced s.restore_attempt (pinned_to x (held r) d)
                (some (pinned_to x on_live d)) s.waiting (λ e. cc) h.linked;
          expected =
              Linked-replaced s.restore_attempt (pinned_to x (held r) d)
                (some (pinned_to x on_live d)) extra (λ e. cc) h.expected;
        })

    commit-Sound :
        (o : Option ReplicaCursor) (d : Delivery engine) (s : Coordinator engine)
        → SoundWith engine Origin extra (holding (record d { commit = o }) s)
        → SoundWith engine Origin extra
            (commit_with engine o (record d { commit = o }) (holding (record d { commit = o }) s))
    unfolding commit_with
    commit-Sound none d s h = h
    commit-Sound (some x) d s h = elim (Bool-cases (has_candidate engine d.candidate)) [
      | inr e ↦ rw e h
      | inl e ↦ elim (Bool-cases (caught_up engine (record d { commit = some x }))) [
        | inr f ↦ rw (e, f) (resync-Sound engine Origin extra journal_gap _ h)
        | inl f ↦ rw (e, f) (finish-Sound d.candidate x d s e h)
      ]
    ]

    pub try_commit-Sound :
        (d : Delivery engine) (s : Coordinator engine)
        → SoundWith engine Origin extra (holding d s)
        → SoundWith engine Origin extra (try_commit engine d (holding d s))
    unfolding try_commit
    try_commit-Sound d s h = commit-Sound d.commit d s h

    -- What `#acceptCommit` shows of a delivery that it pins.
    accept_commit_inv :
        (d next : Delivery engine) (f : DataFrame)
        → accept_commit engine d f ≡ ok next
        → (next ≡ record d { commit = some d.received })
          × (d.expected_commit.last_event_seq ≡ d.received.last_event_seq)
          × (d.expected_commit.next_pty_offset ≡ d.received.next_pty_offset)
    unfolding accept_commit
    accept_commit_inv d next f h =
        let (_, h1) = require_inv _ ProtocolErrorCode.bad_payload _ h in
        let (e2, h2) = require_inv (matches_received engine d f) ProtocolErrorCode.event_gap _ h1 in
        let (e3, h3) =
          require_inv (matches_watermark engine d f) ProtocolErrorCode.event_gap _ h2 in
        let (p, q) =
          same_three f.session_epoch f.event_seq f.pty_offset d.received.session_epoch
            d.received.last_event_seq d.received.next_pty_offset e2 in
        let (u, v) =
          same_two f.event_seq f.pty_offset d.expected_commit.last_event_seq
            d.expected_commit.next_pty_offset e3 in
        (sym (ok-injective h3), sym u ∙ p, sym v ∙ q)

    pub take_commit-Good :
        (d : Delivery engine) (f : DataFrame) (s : Coordinator engine)
        → stopped s.state ≡ false
        → SoundWith engine Origin extra (holding d s)
        → SoundWith engine Origin extra s
        → Good (take_commit engine d (accept_commit engine d f) s)
    take_commit-Good d f s running h g = elim (Result-cases (accept_commit engine d f)) [
      | inr (e, k) ↦ rw k (Sound-Broken engine Origin extra s running g)
      | inl (next, k) ↦
          let (e, p, q) = accept_commit_inv d next f k in
          let (v, w, u, _) = h.delivers in
          rw (k, e)
            (try_commit-Sound (record d { commit = some d.received })
              (emit engine (acknowledge d.received ∷ []) s)
              (record {
                shown = h.shown;
                delivers = (
                  v,
                  Phase-pinned Origin s.state d.candidate d.commit d.received w,
                  u,
                  (omega arith, omega arith),
                );
                linked = h.linked;
                expected = h.expected;
              }))
    ]
