-- ===== src/Client/Coordinator/Steps.antt =====
-- session-coordinator.ts: a frame keeps a sound coordinator sound, or throws in a way that ends the
-- delivery.
use zhongduan.Base.{
  ℕ, ◌+◌, ◌≡◌, refl, sym, ap, subst, ◌∙◌, inl, inr, false, ◌||◌, not, Option, none, some, List, [],
  ◌∷◌, ◌++◌, ltb, ◌==◌, ok, err, arith, Bool-cases, Result-cases,
}
use zhongduan.Protocol.Frame.{DataFrame, pty_output, replay_commit, reset, delivery_barrier}
use zhongduan.Protocol.Cursor.{ReplicaCursor, AppliedMutation, apply_mutation_cursor}
use zhongduan.Protocol.Cursor.Stream.{apply_all, apply_all-append, apply-Advances, Advances}
use zhongduan.Client.Coordinator.{
  ReplicaEngine, Waiting, Thrown, other_error, stopped, behind, frame_bytes, slow_client, Candidate,
  no_candidate, on_live, held, Delivery, Coordinator, advance_generation_fence,
}
use zhongduan.Client.Coordinator.Frames.{
  Step, apply_frame, buffer_budget_exceeded, within_budget, buffer_pending_frame, on_live_replica,
  on_held_replica, into_buffer, into_live, into_candidate, receive, to_delivery, admit,
  accept_frame, caught, resync_reason,
}
use zhongduan.Client.Coordinator.Sound.{
  Sound-Broken, resync-Broken, resync-Sound, fence-Sound, fence-running,
}
use zhongduan.Client.Coordinator.States.{
  Follows, took, Shown, Pinned, Fenced, Holds, SoundWith, Linked-mono, Linked-Earlier,
}
use zhongduan.Client.Coordinator.Commits.{
  Played-cases, play-cursor, play-thrown, apply_frame-accepted, Phase-other, holding, Good,
  Linked-replaced, take_commit-Good,
}

module _ (engine : ReplicaEngine) where
  open engine use {Replica}

  module _ (Origin : Replica → ReplicaCursor → Type 0) (extra : List (ℕ × Waiting)) where
    -- A frame behind the ones that are buffered.
    apply_all-snoc :
        (c d : ReplicaCursor) (fs : List DataFrame) (f : DataFrame) (a : AppliedMutation)
        → apply_all c fs ≡ ok d
        → apply_mutation_cursor d f ≡ ok a
        → apply_all c (fs ++ (f ∷ [])) ≡ ok a.cursor
    unfolding apply_all
    apply_all-snoc c d fs f a h k = rw (apply_all-append fs (f ∷ []) c, h, k) refl

    -- The bounds that a frame keeps: the delivery stays of its generation, and reaches further.
    Pinned-Advances :
        (commit : Option ReplicaCursor) (e c n : ReplicaCursor) (f : DataFrame)
        → Advances c f n
        → Pinned engine Origin commit e c
        → Pinned engine Origin commit e n
    Pinned-Advances none e c n f v h = tt
    Pinned-Advances (some x) e c n f v h =
        (omega (arith, h.0, v.next_event), omega (arith, h.1, v.next_offset))

    Fenced-Advances :
        (fence : Option ℕ) (c n : ReplicaCursor) (f : DataFrame)
        → Advances c f n
        → Fenced engine Origin fence c.delivery_generation
        → Fenced engine Origin fence n.delivery_generation
    Fenced-Advances fence c n f v h = subst (Fenced engine Origin fence) (sym v.same_generation) h

    budget-Sound :
        (s t : Coordinator engine)
        → SoundWith engine Origin extra s
        → SoundWith engine Origin extra t
        → SoundWith engine Origin extra (within_budget engine s t)
    budget-Sound s t h k = elim (Bool-cases (buffer_budget_exceeded engine s)) [
      | inl e ↦ rw e (resync-Sound engine Origin extra slow_client s h)
      | inr e ↦ rw e k
    ]

    -- The delivery with a candidate of which each case is treated apart.
    abbrev on : Candidate engine → Delivery engine → Delivery engine
    on c d = record d { candidate = c }

    abbrev buffering : Delivery engine → DataFrame → AppliedMutation → Delivery engine
    buffering d f a = record d {
      received = a.cursor;
      buffered = d.buffered ++ (f ∷ []);
      buffered_bytes = d.buffered_bytes + frame_bytes f;
      candidate = no_candidate;
    }

    abbrev taken_by :
        Candidate engine → Delivery engine → AppliedMutation → ReplicaCursor → Delivery engine
    taken_by c d a cursor = record d { received = a.cursor; applied = cursor; candidate = c }

    buffer-Good :
        (d : Delivery engine) (f : DataFrame) (a : AppliedMutation) (s : Coordinator engine)
        → apply_mutation_cursor d.received f ≡ ok a
        → SoundWith engine Origin extra (holding engine (on no_candidate d) s)
        → Good engine Origin extra
            (into_buffer engine (record (on no_candidate d) { received = a.cursor }) f s)
    unfolding into_buffer
    buffer-Good d f a s k h = budget-Sound _ _ kept kept
      where
        v : Advances d.received f a.cursor
        v = apply-Advances d.received f a k

        kept : SoundWith engine Origin extra (holding engine (buffering d f a) s)
        kept =
            let (c, p, u, q) = h.delivers in
            record {
              shown = h.shown;
              delivers = (
                apply_all-snoc d.applied d.received d.buffered f a c k,
                p,
                Fenced-Advances s.generation_fence d.received a.cursor f v u,
                Pinned-Advances d.commit d.expected_commit d.received a.cursor f v q,
              );
              linked =
                  Linked-mono engine Origin s.restore_attempt (some (on no_candidate d))
                    (some (buffering d f a)) s.waiting (λ m r. r) h.linked;
              expected =
                  Linked-mono engine Origin s.restore_attempt (some (on no_candidate d))
                    (some (buffering d f a)) extra (λ m r. r) h.expected;
            }

    cursor_of_live :
        (o : Option Replica) (active : Option ReplicaCursor) (r : Replica) (c : ReplicaCursor)
        → o ≡ some r
        → active ≡ some c
        → Shown engine Origin o active
        → Follows engine Origin r c
    cursor_of_live o active r c e k h =
        subst (λ x. Shown engine Origin x (some c)) e (subst (Shown engine Origin o) k h)

    live_present :
        (o : Option Replica) (active : Option ReplicaCursor) (c : ReplicaCursor)
        → o ≡ none
        → active ≡ some c
        → Shown engine Origin o active
        → ⊥
    live_present o active c e k h =
        subst (λ x. Shown engine Origin x (some c)) e (subst (Shown engine Origin o) k h)

    -- A replica that has applied what was received takes the next frame with the received cursor.
    pub took-cursor :
        (r q : Replica) (x y c : ReplicaCursor) (f : DataFrame) (a : AppliedMutation)
        → x ≡ y
        → apply_mutation_cursor y f ≡ ok a
        → apply_frame engine r x f ≡ (q, ok c)
        → c ≡ a.cursor
    took-cursor r q x y c f a same k e =
        play-cursor engine (f.kind == pty_output) a.resize a.cursor c r q f (
          sym (apply_frame-accepted engine r x f a (ap (λ z. apply_mutation_cursor z f) same ∙ k))
          ∙ e)

    took-thrown :
        (r q : Replica) (x y : ReplicaCursor) (f : DataFrame) (a : AppliedMutation) (t : Thrown)
        → x ≡ y
        → apply_mutation_cursor y f ≡ ok a
        → apply_frame engine r x f ≡ (q, err t)
        → t ≡ other_error
    took-thrown r q x y f a t same k e =
        play-thrown engine (f.kind == pty_output) a.resize a.cursor r q f t (
          sym (apply_frame-accepted engine r x f a (ap (λ z. apply_mutation_cursor z f) same ∙ k))
          ∙ e)

    live-Good :
        (r : Replica) (d : Delivery engine) (f : DataFrame) (a : AppliedMutation)
        (s : Coordinator engine)
        → s.live_replica ≡ some r
        → stopped s.state ≡ false
        → apply_mutation_cursor d.received f ≡ ok a
        → SoundWith engine Origin extra (holding engine (on on_live d) s)
        → Good engine Origin extra (
            on_live_replica engine
              (record (on on_live d) { received = a.cursor })
              (apply_frame engine r d.applied f)
              s)
    unfolding on_live_replica
    live-Good r d f a s l running k h =
        let (c, p, u, q) = h.delivers in
        let v = apply-Advances d.received f a k in
        elim (Played-cases (apply_frame engine r d.applied f)) [
          | inl (x, y, e) ↦ rw e (record {
            shown =
                took f (cursor_of_live s.live_replica s.active_cursor r d.applied l c.1 h.shown) e;
            delivers = (
              (took-cursor r x d.applied d.received y f a c.0 k e, refl),
              p,
              Fenced-Advances s.generation_fence d.received a.cursor f v u,
              Pinned-Advances d.commit d.expected_commit d.received a.cursor f v q,
            );
            linked =
                Linked-replaced engine Origin extra s.restore_attempt (on on_live d)
                  (some (taken_by on_live d a y)) s.waiting (λ e. cc) h.linked;
            expected =
                Linked-replaced engine Origin extra s.restore_attempt (on on_live d)
                  (some (taken_by on_live d a y)) extra (λ e. cc) h.expected;
          })
          | inr (x, t, e) ↦
              rw (e, took-thrown r x d.applied d.received f a t c.0 k e)
                (record {
                  running = running;
                  shown = tt;
                  earlier =
                      Linked-Earlier engine Origin s.restore_attempt (some (on on_live d)) s.waiting
                        h.linked;
                  extra_earlier =
                      Linked-Earlier engine Origin s.restore_attempt (some (on on_live d)) extra
                        h.expected;
                })
        ]

    held-Good :
        (r : Replica) (d : Delivery engine) (f : DataFrame) (a : AppliedMutation)
        (s : Coordinator engine)
        → stopped s.state ≡ false
        → apply_mutation_cursor d.received f ≡ ok a
        → SoundWith engine Origin extra (holding engine (on (held r) d) s)
        → Good engine Origin extra (
            on_held_replica engine
              (record (on (held r) d) { received = a.cursor })
              (apply_frame engine r d.applied f)
              s)
    unfolding on_held_replica
    held-Good r d f a s running k h =
        let (c, p, u, q) = h.delivers in
        let v = apply-Advances d.received f a k in
        elim (Played-cases (apply_frame engine r d.applied f)) [
          | inl (x, y, e) ↦ rw e (record {
            shown = h.shown;
            delivers = (
              (took-cursor r x d.applied d.received y f a c.0 k e, took f c.1 e),
              Phase-other engine Origin s.state r x d.commit p,
              Fenced-Advances s.generation_fence d.received a.cursor f v u,
              Pinned-Advances d.commit d.expected_commit d.received a.cursor f v q,
            );
            linked =
                Linked-replaced engine Origin extra s.restore_attempt (on (held r) d)
                  (some (taken_by (held x) d a y)) s.waiting (λ e. cc) h.linked;
            expected =
                Linked-replaced engine Origin extra s.restore_attempt (on (held r) d)
                  (some (taken_by (held x) d a y)) extra (λ e. cc) h.expected;
          })
          | inr (x, t, e) ↦ rw e (record {
            running = running;
            shown = h.shown;
            earlier =
                Linked-Earlier engine Origin s.restore_attempt (some (on (held r) d)) s.waiting
                  h.linked;
            extra_earlier =
                Linked-Earlier engine Origin s.restore_attempt (some (on (held r) d)) extra
                  h.expected;
          })
        ]

    into_live-Good :
        (o : Option Replica) (d : Delivery engine) (f : DataFrame) (a : AppliedMutation)
        (s : Coordinator engine)
        → s.live_replica ≡ o
        → stopped s.state ≡ false
        → apply_mutation_cursor d.received f ≡ ok a
        → SoundWith engine Origin extra (holding engine (on on_live d) s)
        → Good engine Origin extra
            (into_live engine o (record (on on_live d) { received = a.cursor }) f s)
    unfolding into_live
    into_live-Good none d f a s l running k h =
        absurd (live_present s.live_replica s.active_cursor d.applied l h.delivers.0.1 h.shown)
    into_live-Good (some r) d f a s l running k h = live-Good r d f a s l running k h

    candidate-Good :
        (c : Candidate engine) (d : Delivery engine) (f : DataFrame) (a : AppliedMutation)
        (s : Coordinator engine)
        → stopped s.state ≡ false
        → apply_mutation_cursor d.received f ≡ ok a
        → SoundWith engine Origin extra (holding engine (on c d) s)
        → Good engine Origin extra
            (into_candidate engine c (record (on c d) { received = a.cursor }) f s)
    unfolding into_candidate
    candidate-Good no_candidate d f a s running k h = buffer-Good d f a s k h
    candidate-Good on_live d f a s running k h =
        into_live-Good s.live_replica d f a s refl running k h
    candidate-Good (held r) d f a s running k h = held-Good r d f a s running k h

    receive-Good :
        (d : Delivery engine) (f : DataFrame) (s : Coordinator engine)
        → stopped s.state ≡ false
        → SoundWith engine Origin extra (holding engine d s)
        → SoundWith engine Origin extra s
        → Good engine Origin extra (receive engine d f (apply_mutation_cursor d.received f) s)
    unfolding receive
    receive-Good d f s running h g = elim (Result-cases (apply_mutation_cursor d.received f)) [
      | inr (e, k) ↦ rw k (Sound-Broken engine Origin extra s running g)
      | inl (a, k) ↦ rw k (candidate-Good d.candidate d f a s running k h)
    ]

    to_delivery-Good :
        (o : Option (Delivery engine)) (f : DataFrame) (s : Coordinator engine)
        → s.delivery ≡ o
        → stopped s.state ≡ false
        → SoundWith engine Origin extra s
        → Good engine Origin extra (to_delivery engine o f s)
    unfolding to_delivery buffer_pending_frame
    to_delivery-Good none f s e running g = budget-Sound _ _ g g
    to_delivery-Good (some d) f s e running g =
        elim (Bool-cases (
          ltb f.delivery_generation d.received.delivery_generation
          || not (f.stream_id == d.stream_id))) [
            | inl k ↦ rw k g
            | inr k ↦ elim (Bool-cases (f.kind == replay_commit)) [
              | inl m ↦ rw (k, m) (take_commit-Good engine Origin extra d f s running held_now g)
              | inr m ↦ rw (k, m) (receive-Good d f s running held_now g)
            ]
          ]
      where
        held_now : SoundWith engine Origin extra (holding engine d s)
        held_now =
            subst
              (λ o.
                Holds engine Origin extra s.waiting s.restore_attempt s.state s.generation_fence
                  s.live_replica s.active_cursor o)
              e g

    admit-Good :
        (f : DataFrame) (s : Coordinator engine)
        → stopped s.state ≡ false
        → SoundWith engine Origin extra s
        → Good engine Origin extra (admit engine f s)
    unfolding admit
    admit-Good f s running g = elim (Bool-cases (f.kind == delivery_barrier)) [
      | inl e ↦ rw e (Sound-Broken engine Origin extra s running g)
      | inr e ↦ elim (Bool-cases (f.kind == reset)) [
        | inl k ↦ rw (e, k) (resync-Sound engine Origin extra slow_client s g)
        | inr k ↦ rw (e, k) (to_delivery-Good s.delivery f s refl running g)
      ]
    ]

    pub accept_frame-Good :
        (f : DataFrame) (s : Coordinator engine)
        → stopped s.state ≡ false
        → SoundWith engine Origin extra s
        → Good engine Origin extra (accept_frame engine f s)
    unfolding accept_frame
    accept_frame-Good f s running g =
        elim (Bool-cases (behind s.generation_fence f.delivery_generation)) [
          | inl e ↦ rw e g
          | inr e ↦ rw e (
              admit-Good f (advance_generation_fence engine f.delivery_generation false s)
                (fence-running engine Origin extra f.delivery_generation s running)
                (fence-Sound engine Origin extra f.delivery_generation false s g))
        ]

    pub caught-Sound :
        (p : Step engine)
        → Good engine Origin extra p
        → SoundWith engine Origin extra (caught engine p)
    caught-Sound (s, none) g = g
    caught-Sound (s, some e) g = resync-Broken engine Origin extra (resync_reason e) s g
