-- ===== src/Client/Coordinator/Starts.antt =====
-- session-coordinator.ts: buffered frames, data and the two starts of a delivery, and soundness.
use zhongduan.Base.{
  ℕ, ◌+◌, ◌≡◌, refl, inl, inr, true, false, ◌||◌, not, Option, none, some, [], ◌∷◌, arith,
  Bool-cases, same_text,
}
use zhongduan.Protocol.Cursor.{ReplicaCursor}
use zhongduan.Protocol.Cursor.Stream.{apply_all}
use zhongduan.Client.Deliveries.{
  SnapshotManifest, WarmReplayStart, manifest_cursor, manifest_commit, warm_replay_cursor,
  warm_replay_commit, commit_regresses,
}
use zhongduan.Client.Coordinator.{
  ReplicaEngine, for_transport, stopped, is_restoring, journal_gap, engine_mismatch, Coordinator,
  advance_generation_fence,
}
use zhongduan.Client.Coordinator.Frames.{is_gone}
use zhongduan.Client.Coordinator.Calls.{
  Accepted, runs_engine, stands_at, install_warm, begin_warm, start_load, install_snapshot,
  begin_snapshot, warm_delivery, snapshot_delivery,
}
use zhongduan.Client.Coordinator.Sound.{
  fence-Fenced, resync-Broken, resync-Sound, fence-Sound, fence-running,
}
use zhongduan.Client.Coordinator.States.{
  readdressed, Shown, Fenced, SoundWith, Sound, Linked-Earlier, superseded,
}
use zhongduan.Client.Coordinator.Accepts.{drain-Sound, Welcomed}

module _ (engine : ReplicaEngine) (Origin : engine.Replica → ReplicaCursor → Type 0) where
  open engine use {Replica}

  -- The live replica stands where a warm replay starts.
  stands_at-Shown :
      (o : Option Replica) (active : Option ReplicaCursor) (c : ReplicaCursor)
      → stands_at engine c active ≡ true
      → Shown engine Origin o active
      → Shown engine Origin o (some c)
  stands_at-Shown o none c e h = absurd (cc)
  stands_at-Shown none (some a) c e h = h
  stands_at-Shown (some r) (some a) c e h = readdressed h e

  install_warm-Sound :
      (start : WarmReplayStart) (s : Coordinator engine)
      → Fenced engine Origin s.generation_fence start.delivery_generation
      → Sound engine Origin s
      → Sound engine Origin (install_warm engine start s)
  unfolding install_warm
  install_warm-Sound start s fenced h =
      elim (Bool-cases (runs_engine engine s.engine_id s.live_replica)) [
        | inr e ↦ rw e (resync-Sound engine Origin [] engine_mismatch s h)
        | inl e ↦
            elim (Bool-cases
              (commit_regresses (warm_replay_commit start) (warm_replay_cursor start))) [
                | inl k ↦ rw (e, k) (resync-Sound engine Origin [] journal_gap s h)
                | inr k ↦
                    elim (Bool-cases
                      (stands_at engine (warm_replay_cursor start) s.active_cursor)) [
                        | inr m ↦ rw (e, k, m) (resync-Sound engine Origin [] journal_gap s h)
                        | inl m ↦
                            rw (e, k, m)
                              (drain-Sound engine Origin [] (warm_delivery engine start) _ (record {
                                shown =
                                    stands_at-Shown s.live_replica s.active_cursor
                                      (warm_replay_cursor start) m h.shown;
                                delivers = ((refl, refl), tt, fenced, tt);
                                linked =
                                    superseded engine Origin s.restore_attempt
                                      (s.restore_attempt + 1) s.delivery
                                      (some (warm_delivery engine start)) s.waiting (omega arith)
                                      h.linked;
                                expected = tt;
                              }))
                      ]
              ]
      ]

  pub begin_warm-Sound :
      (start : WarmReplayStart) (p : Accepted engine)
      → Welcomed engine Origin p
      → Sound engine Origin (begin_warm engine start p)
  begin_warm-Sound start (s, false) h = h
  begin_warm-Sound start (s, true) h =
      install_warm-Sound start (advance_generation_fence engine start.delivery_generation false s)
        (fence-Fenced engine Origin [] start.delivery_generation s)
        (fence-Sound engine Origin [] start.delivery_generation false s h.0)

  start_load-Sound :
      (m : SnapshotManifest) (attempt : ℕ) (s : Coordinator engine)
      → SoundWith engine Origin ((attempt, for_transport m) ∷ []) s
      → Sound engine Origin (start_load engine m attempt s)
  unfolding start_load
  start_load-Sound m attempt s h =
      elim (Bool-cases (is_gone engine s.delivery || not (is_restoring s.state))) [
        | inl e ↦
            rw e
              (record { shown = h.shown; delivers = h.delivers; linked = h.linked; expected = tt })
        | inr e ↦ rw e (record {
          shown = h.shown;
          delivers = h.delivers;
          linked = (h.expected.0, h.linked);
          expected = tt;
        })
      ]

  install_snapshot-Sound :
      (m : SnapshotManifest) (s : Coordinator engine)
      → Fenced engine Origin s.generation_fence m.delivery_generation
      → stopped s.state ≡ false
      → Sound engine Origin s
      → Sound engine Origin (install_snapshot engine m s)
  unfolding install_snapshot apply_all
  install_snapshot-Sound m s fenced running h =
      elim (Bool-cases (same_text m.engine_id s.engine_id)) [
        | inr e ↦ rw e (resync-Sound engine Origin [] engine_mismatch s h)
        | inl e ↦ elim (Bool-cases (commit_regresses (manifest_commit m) (manifest_cursor m))) [
          | inl k ↦
              rw (e, k)
                (resync-Broken engine Origin [] journal_gap _ (record {
                  running = running;
                  shown = h.shown;
                  earlier =
                      Linked-Earlier engine Origin (s.restore_attempt + 1 + 1) none s.waiting (
                        superseded engine Origin s.restore_attempt (s.restore_attempt + 1 + 1)
                          s.delivery none s.waiting (omega arith) h.linked);
                  extra_earlier = tt;
                }))
          | inr k ↦
              rw (e, k)
                (start_load-Sound m (s.restore_attempt + 1 + 1) _ (
                  drain-Sound engine Origin ((s.restore_attempt + 1 + 1, for_transport m) ∷ [])
                    (snapshot_delivery engine m) _
                    (record {
                      shown = h.shown;
                      delivers = (refl, tt, fenced, tt);
                      linked =
                          superseded engine Origin s.restore_attempt (s.restore_attempt + 1 + 1)
                            s.delivery (some (snapshot_delivery engine m)) s.waiting (omega arith)
                            h.linked;
                      expected = ((omega arith, λ e. (refl, refl)), tt);
                    })))
        ]
      ]

  pub begin_snapshot-Sound :
      (m : SnapshotManifest) (p : Accepted engine)
      → Welcomed engine Origin p
      → Sound engine Origin (begin_snapshot engine m p)
  begin_snapshot-Sound m (s, false) h = h
  begin_snapshot-Sound m (s, true) h =
      install_snapshot-Sound m (advance_generation_fence engine m.delivery_generation false s)
        (fence-Fenced engine Origin [] m.delivery_generation s)
        (fence-running engine Origin [] m.delivery_generation s h.1)
        (fence-Sound engine Origin [] m.delivery_generation false s h.0)
