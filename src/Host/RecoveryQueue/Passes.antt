-- ===== src/Host/RecoveryQueue/Passes.antt =====
-- delivery-recovery-queue.ts: a pass over the order.
use zhongduan.Base.{
  ℕ, ◌≡◌, ◌≢◌, refl, sym, ap, subst, ◌∙◌, ◌⊎◌, inl, inr, Bool, true, false, Option, none, some,
  List, [], ◌∷◌, ◌++◌, All, ◌==◌, ==_iff, ==_refl, ==_other, length, map_get, map_delete, has_id,
  remove_id, is_some, Distinct, Distinct-append_one, has_id-last, has_id-append, differs,
  get-delete, get-delete_other, Bool-cases,
}
use zhongduan.Host.RecoveryQueue.{
  AttachRequest, DeliveryRecoveryQueue, queue_stream, consider, pass_round, pass_loop,
  take_runnable_pass,
}
use zhongduan.Host.RecoveryQueue.Queued.{Ordered, without}
use zhongduan.Host.RecoveryQueue.Passed.{
  append_assoc, append_nil, left_by, Passed, at_order, Covers, rest_of, Passes, skip, left_of_none,
  left_of_waiting, left_of_running, extend-Passed,
}

module _ (Body : Type 0) (test : AttachRequest Body → Bool) where
  -- A stream without a request.
  nothing-Passed :
      (x : ℕ) (xs ys : List ℕ) (s : DeliveryRecoveryQueue Body)
      → Passes Body test xs
      → map_get x s.pending ≡ none
      → Distinct (x ∷ (xs ++ ys))
      → Covers Body test (x ∷ (xs ++ ys)) s.pending
      → Passed Body test
          (x ∷ xs)
          s.pending
          (rest_of Body test none x xs (at_order Body test (xs ++ ys) s)).0
          (rest_of Body test none x xs (at_order Body test (xs ++ ys) s)).1
  unfolding consider
  nothing-Passed x xs ys s again e d c =
      let r = again ys s d.1 (λ k h. covered k h (Bool-cases (x == k))) in
      extend-Passed Body test x xs none s.pending s.pending _ [] _ e r (λ k h. refl)
        (r.left x ∙ (ap (left_by Body test (has_id x xs)) e ∙ left_of_none Body test (has_id x xs)))
        (λ q h t. absurd (no_request q h)) tt
    where
      no_request : (q : AttachRequest Body) → none ≡ some q → ⊥
      no_request q h = absurd (cc)

      vacant : false ≡ true → ⊥
      vacant h = absurd (cc)

      covered :
          (k : ℕ)
          → is_some (map_get k s.pending) ≡ true
          → ((x == k) ≡ true) ⊎ ((x == k) ≡ false)
          → has_id k (xs ++ ys) ≡ true
      covered k h (inl m) = absurd (
          vacant
            (ap is_some (sym (subst (λ z. map_get z s.pending ≡ none) ((==_iff x k).0 m) e)) ∙ h))
      covered k h (inr m) = skip Body test x k (xs ++ ys) m (c k h)

  -- A request that must wait goes to the end of the order.
  waiting-Passed :
      (q : AttachRequest Body) (x : ℕ) (xs ys : List ℕ) (s : DeliveryRecoveryQueue Body)
      → Passes Body test xs
      → map_get x s.pending ≡ some q
      → test q ≡ false
      → Distinct (x ∷ (xs ++ ys))
      → Covers Body test (x ∷ (xs ++ ys)) s.pending
      → Passed Body test
          (x ∷ xs)
          s.pending
          (rest_of Body test (some q) x xs (at_order Body test (xs ++ ys) s)).0
          (rest_of Body test (some q) x xs (at_order Body test (xs ++ ys) s)).1
  unfolding consider queue_stream
  waiting-Passed q x xs ys s again e t d c =
      rw (t, others_lack x (xs ++ ys) d.0)
        (subst
          (λ zs.
            Passed Body test (x ∷ xs) s.pending
              (pass_loop Body (length xs) test (at_order Body test zs s)).0
              (pass_loop Body (length xs) test (at_order Body test zs s)).1)
          (sym (append_assoc xs ys (x ∷ [])))
          (let r =
              again (ys ++ (x ∷ [])) s
                (subst Distinct (append_assoc xs ys (x ∷ []))
                  (Distinct-append_one (xs ++ ys) x d.1 d.0))
                (λ k h.
                  subst (λ zs. has_id k zs ≡ true) (append_assoc xs ys (x ∷ []))
                    (moved k h (Bool-cases (x == k)))) in
            extend-Passed Body test x xs (some q) s.pending s.pending _ [] _ e r (λ k h. refl)
              (r.left x
                ∙ (ap (left_by Body test (has_id x xs)) e
                    ∙ (left_of_waiting Body test (has_id x xs) q t
                        ∙ sym (left_of_waiting Body test true q t))))
              (λ p h m. absurd (waits p h m)) tt))
    where
      moved :
          (k : ℕ)
          → is_some (map_get k s.pending) ≡ true
          → ((x == k) ≡ true) ⊎ ((x == k) ≡ false)
          → has_id k ((xs ++ ys) ++ (x ∷ [])) ≡ true
      moved k h (inl m) = has_id-last k x (xs ++ ys) m
      moved k h (inr m) = has_id-append k x (xs ++ ys) (skip Body test x k (xs ++ ys) m (c k h))

      waits : (p : AttachRequest Body) → some q ≡ some p → test p ≡ true → ⊥
      waits p h m = absurd (cc)

      others_lack : (y : ℕ) (zs : List ℕ) → All (λ z. z ≢ y) zs → has_id y zs ≡ false
      others_lack y [] h = refl
      others_lack y (z ∷ zs) h = rw (==_other z y h.0) (others_lack y zs h.1)

  -- A request that can run is taken.
  running-Passed :
      (q : AttachRequest Body) (x : ℕ) (xs ys : List ℕ) (s : DeliveryRecoveryQueue Body)
      → Passes Body test xs
      → map_get x s.pending ≡ some q
      → test q ≡ true
      → Distinct (x ∷ (xs ++ ys))
      → Covers Body test (x ∷ (xs ++ ys)) s.pending
      → Passed Body test
          (x ∷ xs)
          s.pending
          (rest_of Body test (some q) x xs (at_order Body test (xs ++ ys) s)).0
          (rest_of Body test (some q) x xs (at_order Body test (xs ++ ys) s)).1
  unfolding consider
  running-Passed q x xs ys s again e t d c =
      let r =
        again ys (record s { pending = map_delete x s.pending }) d.1
          (λ k h. covered k h (Bool-cases (x == k))) in
      rw t (
        extend-Passed Body test x xs (some q) s.pending (map_delete x s.pending) _ (q ∷ []) _ e r
          (λ k h. get-delete_other x k s.pending (differs x k h))
          (r.left x
            ∙ (ap (left_by Body test (has_id x xs)) (get-delete x s.pending)
                ∙ (left_of_none Body test (has_id x xs) ∙ sym (left_of_running Body test q t))))
          (λ p h m. inl (same p h)) (t, tt))
    where
      same :
          (p : AttachRequest Body) → ◌≡◌ {A = Option (AttachRequest Body)} (some q) (some p) → q ≡ p
      same p h = cc

      vacant : false ≡ true → ⊥
      vacant h = absurd (cc)

      covered :
          (k : ℕ)
          → is_some (map_get k (map_delete x s.pending)) ≡ true
          → ((x == k) ≡ true) ⊎ ((x == k) ≡ false)
          → has_id k (xs ++ ys) ≡ true
      covered k h (inl m) = absurd (
          vacant (
            ap is_some (
              sym (
                subst (λ z. map_get z (map_delete x s.pending) ≡ none) ((==_iff x k).0 m)
                  (get-delete x s.pending)))
            ∙ h))
      covered k h (inr m) = skip Body test x k (xs ++ ys) m (c k (without Body x k s.pending h))

  considered-Passed :
      (o : Option (AttachRequest Body)) (x : ℕ) (xs ys : List ℕ) (s : DeliveryRecoveryQueue Body)
      → Passes Body test xs
      → map_get x s.pending ≡ o
      → Distinct (x ∷ (xs ++ ys))
      → Covers Body test (x ∷ (xs ++ ys)) s.pending
      → Passed Body test
          (x ∷ xs)
          s.pending
          (rest_of Body test o x xs (at_order Body test (xs ++ ys) s)).0
          (rest_of Body test o x xs (at_order Body test (xs ++ ys) s)).1
  considered-Passed none x xs ys s again e d c = nothing-Passed x xs ys s again e d c
  considered-Passed (some q) x xs ys s again e d c = elim (Bool-cases (test q)) [
    | inl t ↦ running-Passed q x xs ys s again e t d c
    | inr t ↦ waiting-Passed q x xs ys s again e t d c
  ]

  loop-Passed : (xs : List ℕ) → Passes Body test xs
  unfolding pass_loop pass_round
  loop-Passed [] ys s d c = record {
    ordered = record { same = refl; distinct = d; covers = c };
    left = λ k. refl;
    taken = λ k q e h. absurd (never h);
    runnable = tt;
  }
    where
      never : false ≡ true → ⊥
      never e = absurd (cc)
  loop-Passed (x ∷ xs) ys s d c =
      subst
        (λ w.
          Passed Body test (x ∷ xs) s.pending
            (rest_of Body test (map_get x s.pending) x xs
              (record s { order = xs ++ ys; queued_streams = w })).0
            (rest_of Body test (map_get x s.pending) x xs
              (record s { order = xs ++ ys; queued_streams = w })).1)
        (sym head_removed)
        (considered-Passed (map_get x s.pending) x xs ys s (loop-Passed xs) refl d c)
    where
      head_removed : remove_id x (x ∷ (xs ++ ys)) ≡ xs ++ ys
      head_removed = rw (==_refl x) refl

  pub take_runnable_pass-Passed :
      (s : DeliveryRecoveryQueue Body)
      → Ordered Body s
      → Passed Body test s.order s.pending
          (take_runnable_pass Body test s).0
          (take_runnable_pass Body test s).1
  unfolding take_runnable_pass
  take_runnable_pass-Passed s h =
      subst
        (λ u.
          Passed Body test s.order s.pending (pass_loop Body (length s.order) test u).0
            (pass_loop Body (length s.order) test u).1)
        same_queue
        (loop-Passed s.order [] s (subst Distinct (sym (append_nil s.order)) h.distinct)
          (λ k g. subst (λ zs. has_id k zs ≡ true) (sym (append_nil s.order)) (h.covers k g)))
    where
      same_queue : (at_order Body test) (s.order ++ []) s ≡ s
      same_queue = λ i. record s {
        order = append_nil s.order i;
        queued_streams = (append_nil s.order ∙ sym h.same) i;
      }
