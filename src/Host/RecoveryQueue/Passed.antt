-- ===== src/Host/RecoveryQueue/Passed.antt =====
-- delivery-recovery-queue.ts: what a pass promises of the order and of the requests.
use zhongduan.Base.{
  ℕ, ◌≡◌, refl, sym, ap, subst, ◌∙◌, ◌⊎◌, inl, inr, Bool, true, false, Option, none, some, List, [],
  ◌∷◌, ◌++◌, All, ◌==◌, ==_iff, if◌then◌else◌, length, map_get, has_id, is_some, Distinct,
  Bool-cases, arith,
}
use zhongduan.Host.RecoveryQueue.{AttachRequest, DeliveryRecoveryQueue, consider, pass_loop}
use zhongduan.Host.RecoveryQueue.Queued.{Pending, Ordered}

pub append_assoc : (xs ys zs : List ℕ) → (xs ++ ys) ++ zs ≡ xs ++ (ys ++ zs)
append_assoc [] ys zs = refl
append_assoc (x ∷ xs) ys zs = ap (◌∷◌ x) (append_assoc xs ys zs)

pub append_nil : (xs : List ℕ) → xs ++ [] ≡ xs
append_nil [] = refl
append_nil (x ∷ xs) = ap (◌∷◌ x) (append_nil xs)

module _ (Body : Type 0) (test : AttachRequest Body → Bool) where
  -- A request is among those of a pass.
  abbrev pub Listed : AttachRequest Body → List (AttachRequest Body) → Type 0
  Listed q [] = ⊥
  Listed q (r ∷ rs) = (r ≡ q) ⊎ Listed q rs

  -- What is left of a request for a stream that a pass considers.
  abbrev pub left_by : Bool → Option (AttachRequest Body) → Option (AttachRequest Body)
  left_by false o = o
  left_by true none = none
  left_by true (some q) = if test q then none else some q

  -- A pass over the streams `xs` of a queue with the requests `pending`.
  pub record Passed (xs : List ℕ) (pending : Pending Body) (t : DeliveryRecoveryQueue Body)
      (rs : List (AttachRequest Body)) : Type 0 where
    pub ordered : Ordered Body t
    pub left : (k : ℕ) → map_get k t.pending ≡ left_by (has_id k xs) (map_get k pending)
    pub taken :
        (k : ℕ) (q : AttachRequest Body)
        → map_get k pending ≡ some q
        → has_id k xs ≡ true
        → test q ≡ true
        → Listed q rs
    pub runnable : All (λ q. test q ≡ true) rs

  abbrev pub at_order : List ℕ → DeliveryRecoveryQueue Body → DeliveryRecoveryQueue Body
  at_order zs s = record s { order = zs; queued_streams = zs }

  abbrev pub Covers : List ℕ → Pending Body → Type 0
  Covers zs pending = (k : ℕ) → is_some (map_get k pending) ≡ true → has_id k zs ≡ true

  -- The rest of a pass behind a round that considers `o`.
  abbrev pub rest_of :
      Option (AttachRequest Body)
      → ℕ
      → List ℕ
      → DeliveryRecoveryQueue Body
      → DeliveryRecoveryQueue Body × List (AttachRequest Body)
  rest_of o x xs v =
      let round = consider Body o x test v in
      let rest = pass_loop Body (length xs) test round.0 in (rest.0, round.1 ++ rest.1)

  abbrev pub Passes : List ℕ → Type 0
  Passes xs =
      (ys : List ℕ) (s : DeliveryRecoveryQueue Body)
      → Distinct (xs ++ ys)
      → Covers (xs ++ ys) s.pending
      → Passed xs s.pending (pass_loop Body (length xs) test (at_order (xs ++ ys) s)).0
          (pass_loop Body (length xs) test (at_order (xs ++ ys) s)).1

  Listed-append :
      (q : AttachRequest Body) (xs ys : List (AttachRequest Body))
      → Listed q ys
      → Listed q (xs ++ ys)
  Listed-append q [] ys h = h
  Listed-append q (x ∷ xs) ys h = inr (Listed-append q xs ys h)

  All-both :
      (xs ys : List (AttachRequest Body))
      → All (λ q. test q ≡ true) xs
      → All (λ q. test q ≡ true) ys
      → All (λ q. test q ≡ true) (xs ++ ys)
  All-both [] ys h k = k
  All-both (x ∷ xs) ys h k = (h.0, All-both xs ys h.1 k)

  pub skip :
      (x k : ℕ) (xs : List ℕ) → (x == k) ≡ false → has_id k (x ∷ xs) ≡ true → has_id k xs ≡ true
  skip x k xs e h = ground arith

  pub left_of_none : (b : Bool) → left_by b none ≡ none
  left_of_none true = refl
  left_of_none false = refl

  pub left_of_waiting :
      (b : Bool) (q : AttachRequest Body) → test q ≡ false → left_by b (some q) ≡ some q
  left_of_waiting true q t = rw t refl
  left_of_waiting false q t = refl

  pub left_of_running : (q : AttachRequest Body) → test q ≡ true → left_by true (some q) ≡ none
  left_of_running q t = rw t refl

  -- A pass with one more stream in front, whose request is dealt with.
  pub extend-Passed :
      (x : ℕ) (xs : List ℕ) (o : Option (AttachRequest Body)) (before pending : Pending Body)
      (t : DeliveryRecoveryQueue Body) (new rs : List (AttachRequest Body))
      → map_get x before ≡ o
      → Passed xs pending t rs
      → ((k : ℕ) → (x == k) ≡ false → map_get k pending ≡ map_get k before)
      → map_get x t.pending ≡ left_by true o
      → ((q : AttachRequest Body) → o ≡ some q → test q ≡ true → Listed q (new ++ rs))
      → All (λ q. test q ≡ true) new
      → Passed (x ∷ xs) before t (new ++ rs)
  extend-Passed x xs o before pending t new rs e r f g l n = record {
    ordered = r.ordered;
    left = λ k. left_at k (Bool-cases (x == k));
    taken = λ k q h i j. taken_at k q h i j (Bool-cases (x == k));
    runnable = All-both new rs n r.runnable;
  }
    where
      left_at :
          (k : ℕ)
          → ((x == k) ≡ true) ⊎ ((x == k) ≡ false)
          → map_get k t.pending ≡ left_by (has_id k (x ∷ xs)) (map_get k before)
      left_at k (inl h) = rw h (
          subst (λ z. map_get z t.pending ≡ left_by true (map_get z before)) ((==_iff x k).0 h)
            (g ∙ ap (left_by true) (sym e)))
      left_at k (inr h) = rw h (r.left k ∙ ap (left_by (has_id k xs)) (f k h))

      taken_at :
          (k : ℕ) (q : AttachRequest Body)
          → map_get k before ≡ some q
          → has_id k (x ∷ xs) ≡ true
          → test q ≡ true
          → ((x == k) ≡ true) ⊎ ((x == k) ≡ false)
          → Listed q (new ++ rs)
      taken_at k q h i j (inl m) =
          l q (sym e ∙ subst (λ z. map_get z before ≡ some q) (sym ((==_iff x k).0 m)) h) j
      taken_at k q h i j (inr m) =
          Listed-append q new rs (r.taken k q (f k m ∙ h) (skip x k xs m i) j)
