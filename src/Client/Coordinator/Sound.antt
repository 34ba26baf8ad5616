-- ===== src/Client/Coordinator/Sound.antt =====
-- session-coordinator.ts: how a resynchronisation, the end and the generation fence keep a coordinator
-- sound.
use zhongduan.Base.{
  ℕ, ◌+◌, ◌≤◌, ◌≡◌, refl, sym, subst, inl, inr, Bool, true, false, Option, none, some, List, ltb,
  leb, arith, Bool-cases, leb→le,
}
use zhongduan.Protocol.Cursor.{ReplicaCursor}
use zhongduan.Client.Coordinator.{
  ReplicaEngine, Waiting, ResyncReason, DeliveryState, idle, awaiting_control, replaying, restoring,
  live, resyncing, closed, is_closed, stopped, awaited, is_stale, reached, Delivery, Coordinator,
  request_resync, close, raise_fence, advance_generation_fence,
}
use zhongduan.Client.Coordinator.States.{
  Fenced, Resting, Delivers, SoundWith, Broken, Linked-Earlier, Earlier-Linked, outdated,
}

module _ (engine : ReplicaEngine) (Origin : engine.Replica → ReplicaCursor → Type 0) where
  open engine use {Replica}

  module _ (extra : List (ℕ × Waiting)) where
    pub Sound-Broken :
        (s : Coordinator engine)
        → stopped s.state ≡ false
        → SoundWith engine Origin extra s
        → Broken engine Origin extra s
    Sound-Broken s running h = record {
      running = running;
      shown = h.shown;
      earlier = Linked-Earlier engine Origin s.restore_attempt s.delivery s.waiting h.linked;
      extra_earlier = Linked-Earlier engine Origin s.restore_attempt s.delivery extra h.expected;
    }

    pub resync-Broken :
        (reason : ResyncReason) (s : Coordinator engine)
        → Broken engine Origin extra s
        → SoundWith engine Origin extra (request_resync engine reason s)
    unfolding request_resync
    resync-Broken reason s h = rw h.running (record {
      shown = h.shown;
      delivers = tt;
      linked =
          Earlier-Linked engine Origin s.restore_attempt (s.restore_attempt + 1) none s.waiting
            (omega arith) h.earlier;
      expected =
          Earlier-Linked engine Origin s.restore_attempt (s.restore_attempt + 1) none extra
            (omega arith) h.extra_earlier;
    })

    pub resync-stopped :
        (reason : ResyncReason) (s : Coordinator engine)
        → stopped s.state ≡ true
        → request_resync engine reason s ≡ s
    unfolding request_resync
    resync-stopped reason s e = rw e refl

    pub resync-Sound :
        (reason : ResyncReason) (s : Coordinator engine)
        → SoundWith engine Origin extra s
        → SoundWith engine Origin extra (request_resync engine reason s)
    resync-Sound reason s h = elim (Bool-cases (stopped s.state)) [
      | inl e ↦ subst (SoundWith engine Origin extra) (sym (resync-stopped reason s e)) h
      | inr e ↦ resync-Broken reason s (Sound-Broken s e h)
    ]

    pub close-Sound :
        (s : Coordinator engine)
        → SoundWith engine Origin extra s
        → SoundWith engine Origin extra (close engine s)
    unfolding close
    close-Sound s h = elim (Bool-cases (is_closed s.state)) [
      | inl e ↦ rw e h
      | inr e ↦ rw e (record {
        shown = h.shown;
        delivers = tt;
        linked = outdated engine Origin s s.waiting h.linked;
        expected = outdated engine Origin s extra h.expected;
      })
    ]

    Resting-awaited :
        (resume : Bool) (state : DeliveryState) → Resting engine Origin (awaited resume state)
    Resting-awaited resume idle = tt
    Resting-awaited resume awaiting_control = tt
    Resting-awaited resume replaying = tt
    Resting-awaited resume restoring = tt
    Resting-awaited resume live = tt
    Resting-awaited true resyncing = tt
    Resting-awaited false resyncing = tt
    Resting-awaited resume closed = tt

    -- A delivery that a new fence leaves is none.
    Delivers-awaited :
        (resume : Bool) (state : DeliveryState) (fence : Option ℕ) (active : Option ReplicaCursor)
        (g : ℕ) (o : Option (Delivery engine))
        → reached fence g ≡ false
        → is_stale engine g o ≡ false
        → Delivers engine Origin state fence active o
        → Delivers engine Origin (awaited resume state) (some g) active o
    Delivers-awaited resume state fence active g none r e h = Resting-awaited resume state
    Delivers-awaited resume state none active g (some d) r e h = absurd h.2
    Delivers-awaited resume state (some f) active g (some d) r e h =
        absurd (passed f g d.received.delivery_generation r e h.2)
      where
        passed : (f g d : ℕ) → leb g f ≡ false → ltb d g ≡ false → d ≤ f → ⊥
        passed f g d r e k = ground arith

    raise-Sound :
        (g : ℕ) (resume : Bool) (s : Coordinator engine)
        → reached s.generation_fence g ≡ false
        → SoundWith engine Origin extra s
        → SoundWith engine Origin extra (raise_fence engine g resume s)
    unfolding raise_fence
    raise-Sound g resume s r h = elim (Bool-cases (is_stale engine g s.delivery)) [
      | inl e ↦ rw e (record {
        shown = h.shown;
        delivers = Resting-awaited resume s.state;
        linked = outdated engine Origin s s.waiting h.linked;
        expected = outdated engine Origin s extra h.expected;
      })
      | inr e ↦ rw e (record {
        shown = h.shown;
        delivers =
            Delivers-awaited resume s.state s.generation_fence s.active_cursor g s.delivery r e
              h.delivers;
        linked = h.linked;
        expected = h.expected;
      })
    ]

    pub fence-Sound :
        (g : ℕ) (resume : Bool) (s : Coordinator engine)
        → SoundWith engine Origin extra s
        → SoundWith engine Origin extra (advance_generation_fence engine g resume s)
    unfolding advance_generation_fence
    fence-Sound g resume s h = elim (Bool-cases (reached s.generation_fence g)) [
      | inl e ↦ rw e h
      | inr e ↦ rw e (raise-Sound g resume s e h)
    ]

    -- The fence that a generation has passed admits its deliveries.
    pub fence-Fenced :
        (g : ℕ) (s : Coordinator engine)
        → Fenced engine Origin (advance_generation_fence engine g false s).generation_fence g
    unfolding advance_generation_fence raise_fence
    fence-Fenced g s = elim (Bool-cases (reached s.generation_fence g)) [
      | inl e ↦ rw e (reached-Fenced s.generation_fence e)
      | inr e ↦ elim (Bool-cases (is_stale engine g s.delivery)) [
        | inl f ↦ rw (e, f) (le_refl g)
        | inr f ↦ rw (e, f) (le_refl g)
      ]
    ]
      where
        le_refl : (g : ℕ) → g ≤ g
        le_refl g = omega arith

        reached-Fenced : (fence : Option ℕ) → reached fence g ≡ true → Fenced engine Origin fence g
        reached-Fenced none e = absurd (cc)
        reached-Fenced (some f) e = leb→le g f e

    awaited-running :
        (state : DeliveryState) → stopped state ≡ false → stopped (awaited false state) ≡ false
    awaited-running idle e = refl
    awaited-running awaiting_control e = refl
    awaited-running replaying e = refl
    awaited-running restoring e = refl
    awaited-running live e = refl
    awaited-running resyncing e = e
    awaited-running closed e = e

    -- A fence that does not resume leaves a coordinator that runs.
    pub fence-running :
        (g : ℕ) (s : Coordinator engine)
        → stopped s.state ≡ false
        → stopped (advance_generation_fence engine g false s).state ≡ false
    unfolding advance_generation_fence raise_fence
    fence-running g s running = elim (Bool-cases (reached s.generation_fence g)) [
      | inl e ↦ rw e running
      | inr e ↦ elim (Bool-cases (is_stale engine g s.delivery)) [
        | inl f ↦ rw (e, f) (awaited-running s.state running)
        | inr f ↦ rw (e, f) (awaited-running s.state running)
      ]
    ]
