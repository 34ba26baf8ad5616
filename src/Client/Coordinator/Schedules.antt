-- ===== src/Client/Coordinator/Schedules.antt =====
-- session-coordinator.ts: the steps behind the awaits of a restore, and soundness behind every schedule
-- of calls.
use zhongduan.Base.{
  ℕ, ◌≡◌, ◌≢◌, refl, sym, ap, subst, ◌∙◌, ◌⊎◌, inl, inr, Option, none, some, List, [], ◌∷◌, ◌==◌,
  ==_iff, All, ok, Bool-cases, bind_inv, ok-injective, map_get, map_delete, get-All, same_text,
}
use zhongduan.Protocol.Frame.{DataFrame}
use zhongduan.Protocol.Cursor.{ReplicaCursor, apply_mutation_cursor}
use zhongduan.Protocol.Cursor.Stream.{apply_all}
use zhongduan.Client.Deliveries.{SnapshotManifest, manifest_cursor}
use zhongduan.Client.Coordinator.{
  ReplicaEngine, Waiting, for_transport, for_host, Thrown, engine_mismatch, held, Delivery,
  Coordinator,
}
use zhongduan.Client.Coordinator.Frames.{apply_frame}
use zhongduan.Client.Coordinator.Calls.{
  Flushed, flushed_to, flush_failed, flush_next, flush_frames, restore_reason, commit_flushed,
  give_candidate, restored, Call, fence_call, warm_call, snapshot_call, data_call, loaded_call,
  restored_call, threw_call, deadline_call, close_call, run_call, run_calls,
}
use zhongduan.Client.Coordinator.Sound.{resync-Broken, resync-Sound, close-Sound}
use zhongduan.Client.Coordinator.States.{
  Follows, handed_over, took, Shown, Phase, Delivers, Restores, Linked, Sound, Linked-Earlier,
  Carries,
}
use zhongduan.Client.Coordinator.Steps.{took-cursor}
use zhongduan.Client.Coordinator.Commits.{Played-cases, Phase-restored, try_commit-Sound}
use zhongduan.Client.Coordinator.Accepts.{delivering, accept_data-Sound}
use zhongduan.Client.Coordinator.Requests.{
  start_warm_replay-Sound, start_snapshot-Sound, fence_delivery-Sound, deleted, kept, unlinked,
  loaded-Sound, restore_threw-Sound, deadline-Sound,
}

module _ (engine : ReplicaEngine) (Origin : engine.Replica → ReplicaCursor → Type 0) where
  open engine use {Replica}

  flushed_to-injective :
      (r q : Replica) (c x : ReplicaCursor)
      → ◌≡◌ {A = Flushed engine} (flushed_to r c) (flushed_to q x)
      → (r ≡ q) × (c ≡ x)
  flushed_to-injective r q c x e = (cc, cc)

  not_flushed :
      (r q : Replica) (t : Thrown) (x : ReplicaCursor)
      → ◌≡◌ {A = Flushed engine} (flush_failed r t) (flushed_to q x)
      → ⊥
  not_flushed r q t x e = absurd (cc)

  Flushed-cases :
      (w : Flushed engine)
      → ((q : Replica) × (x : ReplicaCursor) × (w ≡ flushed_to q x))
        ⊎ ((q : Replica) × (t : Thrown) × (w ≡ flush_failed q t))
  Flushed-cases (flushed_to q x) = inl (q, x, refl)
  Flushed-cases (flush_failed q t) = inr (q, t, refl)

  -- A restored replica that takes the buffered frames stands where the received cursor stands.
  flush-Follows :
      (fs : List DataFrame) (r q : Replica) (c d x : ReplicaCursor)
      → Follows engine Origin r c
      → apply_all c fs ≡ ok d
      → flush_frames engine fs r c ≡ flushed_to q x
      → (x ≡ d) × Follows engine Origin q x
  unfolding flush_frames apply_all
  flush-Follows [] r q c d x h k e =
      let (p, y) = flushed_to-injective r q c x e in
      (
        sym y ∙ ok-injective k,
        subst (λ z. Follows engine Origin z x) p (subst (Follows engine Origin r) y h),
      )
  flush-Follows (f ∷ fs) r q c d x h k e =
      let (a, ea, rest) = bind_inv (apply_mutation_cursor c f) (λ z. apply_all z.cursor fs) k in
      elim (Played-cases (apply_frame engine r c f)) [
        | inr (p, t, m) ↦ absurd (
            not_flushed p q t x
              (ap (λ z. flush_next engine z (flush_frames engine fs)) (sym m) ∙ e))
        | inl (p, y, m) ↦
            flush-Follows fs p q y d x (took f h m)
              (ap (λ z. apply_all z fs) (took-cursor engine Origin [] r p c c y f a refl ea m)
                ∙ rest)
              (ap (λ z. flush_next engine z (flush_frames engine fs)) (sym m) ∙ e)
      ]

  abbrev flushed_delivery : Delivery engine → Replica → ReplicaCursor → Delivery engine
  flushed_delivery d q x = record d {
    applied = x;
    buffered = [];
    buffered_bytes = 0;
    candidate = held q;
  }

  give-Sound :
      (r : Replica) (m : SnapshotManifest) (o : Option (Delivery engine)) (s : Coordinator engine)
      → Restores engine Origin m o
      → Origin r (manifest_cursor m)
      → All
          (λ (e : ℕ × Waiting).
            (e.0 ≢ s.restore_attempt) × Linked engine Origin s.restore_attempt o e)
          s.waiting
      → Shown engine Origin s.live_replica s.active_cursor
      → Delivers engine Origin s.state s.generation_fence s.active_cursor o
      → Sound engine Origin (give_candidate engine r o s)
  unfolding give_candidate commit_flushed
  give-Sound r m none s k g w h v = absurd k
  give-Sound r m (some d) s k g w h v =
      let (c, p, u, t) = v in
      let carried = subst (λ z. Carries engine Origin s.active_cursor d z) k.0 c in
      let phase = subst (λ z. Phase engine Origin s.state z d.commit) k.0 p in
      elim (Flushed-cases (flush_frames engine d.buffered r d.applied)) [
        | inr (q, x, e) ↦ rw e (
            resync-Broken engine Origin [] (restore_reason engine x) _ (record {
              running =
                  delivering engine Origin s.state s.generation_fence s.active_cursor (some d) refl
                    v;
              shown = h;
              earlier =
                  Linked-Earlier engine Origin s.restore_attempt (some d) s.waiting
                    (kept engine Origin s.restore_attempt s.restore_attempt (some d) s.waiting w);
              extra_earlier = tt;
            }))
        | inl (q, x, e) ↦
            let (same, follows) =
              flush-Follows d.buffered r q d.applied d.received x
                (handed_over (subst (Origin r) (sym k.1) g)) carried e in
            rw e (
              try_commit-Sound engine Origin [] (flushed_delivery d q x) s (record {
                shown = h;
                delivers =
                    ((same, follows), Phase-restored engine Origin s.state q d.commit phase, u, t);
                linked =
                    unlinked engine Origin s.restore_attempt (some d)
                      (some (flushed_delivery d q x)) s.waiting w;
                expected = tt;
              }))
      ]

  restored-Sound :
      (k : ℕ) (r : Replica) (o : Option Waiting) (s : Coordinator engine)
      → map_get k s.waiting ≡ o
      → ((m : SnapshotManifest) → o ≡ some (for_host m) → Origin r (manifest_cursor m))
      → Sound engine Origin s
      → Sound engine Origin (restored engine k r o s)
  unfolding restored
  restored-Sound k r none s e g h = h
  restored-Sound k r (some (for_transport m)) s e g h = h
  restored-Sound k r (some (for_host m)) s e g h = elim (Bool-cases (k == s.restore_attempt)) [
    | inr c ↦ rw c gone
    | inl c ↦ elim (Bool-cases (same_text (engine.engine_of r) s.engine_id)) [
      | inr x ↦ rw (c, x) (resync-Sound engine Origin [] engine_mismatch _ gone)
      | inl x ↦
          rw (c, x)
            (give-Sound r m s.delivery (record s { waiting = map_delete k s.waiting })
              ((get-All (Linked engine Origin s.restore_attempt s.delivery) k s.waiting (for_host m)
                  e h.linked).1
                ((==_iff k s.restore_attempt).0 c))
              (g m refl)
              (subst
                (λ z.
                  All
                    (λ (e : ℕ × Waiting).
                      (e.0 ≢ z) × Linked engine Origin s.restore_attempt s.delivery e)
                    (map_delete k s.waiting))
                ((==_iff k s.restore_attempt).0 c)
                (deleted engine Origin k s.restore_attempt s.delivery s.waiting h.linked))
              h.shown h.delivers)
    ]
  ]
    where
      gone : Sound engine Origin (record s { waiting = map_delete k s.waiting })
      gone = record {
        shown = h.shown;
        delivers = h.delivers;
        linked =
            kept engine Origin k s.restore_attempt s.delivery _
              (deleted engine Origin k s.restore_attempt s.delivery s.waiting h.linked);
        expected = tt;
      }

  -- What a call supplies: the replica of a restore is the terminal at the cut of its manifest.
  abbrev pub Supplies : Call engine → Coordinator engine → Type 0
  Supplies (restored_call k r) s =
      (m : SnapshotManifest)
      → map_get k s.waiting ≡ some (for_host m)
      → Origin r (manifest_cursor m)
  Supplies _ s = Unit

  run_call-Sound :
      (call : Call engine) (s : Coordinator engine)
      → Supplies call s
      → Sound engine Origin s
      → Sound engine Origin (run_call engine call s)
  unfolding run_call
  run_call-Sound (fence_call g) s u h = fence_delivery-Sound engine Origin g s h
  run_call-Sound (warm_call start) s u h = start_warm_replay-Sound engine Origin start s h
  run_call-Sound (snapshot_call m) s u h = start_snapshot-Sound engine Origin m s h
  run_call-Sound (data_call bytes) s u h = accept_data-Sound engine Origin bytes s h
  run_call-Sound (loaded_call k) s u h = loaded-Sound engine Origin k (map_get k s.waiting) s refl h
  run_call-Sound (restored_call k r) s u h = restored-Sound k r (map_get k s.waiting) s refl u h
  run_call-Sound (threw_call k x) s u h =
      restore_threw-Sound engine Origin k x (map_get k s.waiting) s h
  run_call-Sound deadline_call s u h = deadline-Sound engine Origin s.restore_timer s h
  run_call-Sound close_call s u h = close-Sound engine Origin [] s h

  abbrev pub Supplied : List (Call engine) → Coordinator engine → Type 0
  Supplied [] s = Unit
  Supplied (call ∷ calls) s = Supplies call s × Supplied calls (run_call engine call s)

  pub run-Sound :
      (calls : List (Call engine)) (s : Coordinator engine)
      → Supplied calls s
      → Sound engine Origin s
      → Sound engine Origin (run_calls engine calls s)
  unfolding run_calls
  run-Sound [] s u h = h
  run-Sound (call ∷ calls) s u h =
      run-Sound calls (run_call engine call s) u.1 (run_call-Sound call s u.0 h)
