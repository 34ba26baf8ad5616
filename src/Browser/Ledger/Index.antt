-- ===== src/Browser/Ledger/Index.antt =====
-- input-intent-ledger.ts: a list of ids that indexes the records of one phase, with the bytes they
-- add up to.
use zhongduan.Base.{
  remove_id, has_id, is_some, Distinct, All-append_one, Distinct-append_one, remove-All,
  remove-Distinct, ==-refuted, remove-others, has_id-last, has_id-append, has_id-remove, ℕ, ◌+◌,
  ◌-◌, ◌≤◌, ◌≡◌, ◌≢◌, refl, sym, ap, subst, ◌∙◌, inl, inr, true, false, Option, none, some, List,
  [], ◌∷◌, ◌++◌, All, ◌==◌, ==_iff, if◌then◌else◌, arith, Bool-cases, map_get, map_set, map_delete,
  get-set, get-set_other, get-delete, get-delete_other,
}

abbrev pub count_of : Option ℕ → ℕ
count_of none = 0
count_of (some n) = n

module _ {R : Type 0} (size : R → Option ℕ) where
  abbrev pub weigh : Option R → Option ℕ
  weigh none = none
  weigh (some r) = size r

  -- The record under the id is of the phase.
  abbrev pub Counted : List (ℕ × R) → ℕ → Type 0
  Counted m id = is_some (weigh (map_get id m)) ≡ true

  abbrev pub total : List (ℕ × R) → List ℕ → ℕ
  total m [] = 0
  total m (id ∷ ids) = count_of (weigh (map_get id m)) + total m ids

  -- The ids are those of different records of the phase, and the bytes are their sum.
  pub record Indexes (m : List (ℕ × R)) (ids : List ℕ) (bytes : ℕ) : Type 0 where
    pub distinct : Distinct ids
    pub counted : All (Counted m) ids
    pub sum : bytes ≡ total m ids

  -- Every record of the phase is found in the list.
  abbrev pub Complete : List (ℕ × R) → List ℕ → Type 0
  Complete m ids = (id : ℕ) → Counted m id → has_id id ids ≡ true

  no_count : (o : Option ℕ) → o ≡ none → is_some o ≡ true → ⊥
  no_count none e h = absurd (cc)
  no_count (some n) e h = absurd (cc)

  total-append_one :
      (m : List (ℕ × R)) (ids : List ℕ) (id : ℕ)
      → total m (ids ++ (id ∷ [])) ≡ total m ids + count_of (weigh (map_get id m))
  total-append_one m [] id = omega arith
  total-append_one m (x ∷ xs) id = omega (arith, total-append_one m xs id)

  total-remove :
      (m : List (ℕ × R)) (ids : List ℕ) (id : ℕ)
      → has_id id ids ≡ true
      → total m ids ≡ count_of (weigh (map_get id m)) + total m (remove_id id ids)
  total-remove m [] id h = absurd (cc)
  total-remove m (x ∷ xs) id h = elim (Bool-cases (x == id)) [
    | inl e ↦ rw (e, (==_iff x id).0 e) refl
    | inr e ↦ rw e (omega (arith, total-remove m xs id (behind e h)))
  ]
    where
      behind :
          (x == id) ≡ false → (if x == id then true else has_id id xs) ≡ true → has_id id xs ≡ true
      behind e h = ground arith

  pub absent :
      (m : List (ℕ × R)) (id : ℕ) (ids : List ℕ)
      → weigh (map_get id m) ≡ none
      → All (Counted m) ids
      → All (λ x. x ≢ id) ids
  absent m id [] e h = tt
  absent m id (x ∷ xs) e h =
      (λ same. no_count (weigh (map_get id m)) e (subst (Counted m) same h.0), absent m id xs e h.1)

  -- Two maps that agree on the ids of a list.
  abbrev Agree : List (ℕ × R) → List (ℕ × R) → ℕ → Type 0
  Agree m n id = map_get id n ≡ map_get id m

  total-Agree :
      (m n : List (ℕ × R)) (ids : List ℕ) → All (Agree m n) ids → total n ids ≡ total m ids
  total-Agree m n [] h = refl
  total-Agree m n (x ∷ xs) h = rw (h.0, total-Agree m n xs h.1) refl

  counted-Agree :
      (m n : List (ℕ × R)) (ids : List ℕ)
      → All (Agree m n) ids
      → All (Counted m) ids
      → All (Counted n) ids
  counted-Agree m n [] h k = tt
  counted-Agree m n (x ∷ xs) h k =
      (ap (λ o. is_some (weigh o)) h.0 ∙ k.0, counted-Agree m n xs h.1 k.1)

  Indexes-Agree :
      (m n : List (ℕ × R)) (ids : List ℕ) (b : ℕ)
      → All (Agree m n) ids
      → Indexes m ids b
      → Indexes n ids b
  Indexes-Agree m n ids b h v = record {
    distinct = v.distinct;
    counted = counted-Agree m n ids h v.counted;
    sum = v.sum ∙ sym (total-Agree m n ids h);
  }

  set-Agree :
      (m : List (ℕ × R)) (id : ℕ) (r : R) (ids : List ℕ)
      → All (λ x. x ≢ id) ids
      → All (Agree m (map_set id r m)) ids
  set-Agree m id r [] h = tt
  set-Agree m id r (x ∷ xs) h = (get-set_other id x r m (λ e. h.0 (sym e)), set-Agree m id r xs h.1)

  delete-Agree :
      (m : List (ℕ × R)) (id : ℕ) (ids : List ℕ)
      → All (λ x. x ≢ id) ids
      → All (Agree m (map_delete id m)) ids
  delete-Agree m id [] h = tt
  delete-Agree m id (x ∷ xs) h =
      (get-delete_other id x m (λ e. h.0 (sym e)), delete-Agree m id xs h.1)

  -- A record that is not of the phase is replaced by another that is not.
  pub keep-Indexes :
      (m : List (ℕ × R)) (id : ℕ) (r : R) (ids : List ℕ) (b : ℕ)
      → All (λ x. x ≢ id) ids
      → Indexes m ids b
      → Indexes (map_set id r m) ids b
  keep-Indexes m id r ids b h v = Indexes-Agree m (map_set id r m) ids b (set-Agree m id r ids h) v

  -- A record enters the phase, and its id the end of the list.
  pub push-Indexes :
      (m : List (ℕ × R)) (id : ℕ) (r : R) (ids : List ℕ) (b w : ℕ)
      → All (λ x. x ≢ id) ids
      → size r ≡ some w
      → Indexes m ids b
      → Indexes (map_set id r m) (ids ++ (id ∷ [])) (b + w)
  push-Indexes m id r ids b w h e v =
      let k = keep-Indexes m id r ids b h v in
      record {
        distinct = Distinct-append_one ids id v.distinct h;
        counted =
            All-append_one (Counted (map_set id r m)) ids id k.counted
              (rw (get-set id r m, e) refl);
        sum =
            ap (λ n. n + w) k.sum
            ∙ (ap (λ o. total (map_set id r m) ids + count_of o)
                  (sym (ap weigh (get-set id r m) ∙ e))
                ∙ sym (total-append_one (map_set id r m) ids id));
      }

  -- A record leaves the phase, and its id the list.
  pub remove-Indexes :
      (m : List (ℕ × R)) (id : ℕ) (r : R) (ids : List ℕ) (b w : ℕ)
      → has_id id ids ≡ true
      → weigh (map_get id m) ≡ some w
      → Indexes m ids b
      → Indexes (map_set id r m) (remove_id id ids) (b - w) × (w ≤ b)
  remove-Indexes m id r ids b w h e v =
      let t =
        v.sum ∙ (total-remove m ids id h ∙ ap (λ o. count_of o + total m (remove_id id ids)) e) in
      (
        keep-Indexes m id r (remove_id id ids) (b - w) (remove-others id ids v.distinct) (record {
          distinct = remove-Distinct id ids v.distinct;
          counted = remove-All (Counted m) id ids v.counted;
          sum = omega arith;
        }),
        omega arith,
      )

  -- The id stays out of the list, and its record of the phase.
  pub keep-Complete :
      (m : List (ℕ × R)) (id : ℕ) (r : R) (ids : List ℕ)
      → size r ≡ none
      → Complete m ids
      → Complete (map_set id r m) ids
  keep-Complete m id r ids e c x h = elim (Bool-cases (id == x)) [
    | inl same ↦ absurd (now x ((==_iff id x).0 same) h)
    | inr other ↦ c x (
        ap (λ o. is_some (weigh o)) (sym (get-set_other id x r m (λ s. ==-refuted id x other s)))
        ∙ h)
  ]
    where
      now : (x : ℕ) → id ≡ x → Counted (map_set id r m) x → ⊥
      now x same h = no_count (size r) e (
          ap (λ o. is_some (weigh o)) (sym (get-set id r m))
          ∙ subst (Counted (map_set id r m)) (sym same) h)

  pub push-Complete :
      (m : List (ℕ × R)) (id : ℕ) (r : R) (ids : List ℕ)
      → Complete m ids
      → Complete (map_set id r m) (ids ++ (id ∷ []))
  push-Complete m id r ids c x h = elim (Bool-cases (id == x)) [
    | inl same ↦ has_id-last x id ids same
    | inr other ↦ has_id-append x id ids (
        c x (
          ap (λ o. is_some (weigh o)) (sym (get-set_other id x r m (λ s. ==-refuted id x other s)))
          ∙ h))
  ]

  pub remove-Complete :
      (m : List (ℕ × R)) (id : ℕ) (r : R) (ids : List ℕ)
      → size r ≡ none
      → Complete m ids
      → Complete (map_set id r m) (remove_id id ids)
  remove-Complete m id r ids e c x h = elim (Bool-cases (id == x)) [
    | inl same ↦ absurd (now x ((==_iff id x).0 same) h)
    | inr other ↦ has_id-remove x id ids other (
        c x (
          ap (λ o. is_some (weigh o)) (sym (get-set_other id x r m (λ s. ==-refuted id x other s)))
          ∙ h))
  ]
    where
      now : (x : ℕ) → id ≡ x → Counted (map_set id r m) x → ⊥
      now x same h = no_count (size r) e (
          ap (λ o. is_some (weigh o)) (sym (get-set id r m))
          ∙ subst (Counted (map_set id r m)) (sym same) h)

  -- The first id goes, and its record with it.
  pub drop-Indexes :
      (m : List (ℕ × R)) (id : ℕ) (ids : List ℕ) (b : ℕ)
      → Indexes m (id ∷ ids) b
      → Indexes (map_delete id m) ids (total m ids)
  drop-Indexes m id ids b v =
      Indexes-Agree m (map_delete id m) ids (total m ids) (delete-Agree m id ids v.distinct.0)
        (record { distinct = v.distinct.1; counted = v.counted.1; sum = refl })

  pub drop-Complete :
      (m : List (ℕ × R)) (id : ℕ) (ids : List ℕ)
      → Complete m (id ∷ ids)
      → Complete (map_delete id m) ids
  drop-Complete m id ids c x h = elim (Bool-cases (id == x)) [
    | inl same ↦ absurd (gone x ((==_iff id x).0 same) h)
    | inr other ↦ behind_head x other (
        c x (
          ap (λ o. is_some (weigh o)) (sym (get-delete_other id x m (λ s. ==-refuted id x other s)))
          ∙ h))
  ]
    where
      gone : (x : ℕ) → id ≡ x → Counted (map_delete id m) x → ⊥
      gone x same h = no_count none refl (
          ap (λ o. is_some (weigh o)) (sym (get-delete id m))
          ∙ subst (Counted (map_delete id m)) (sym same) h)

      behind_head :
          (x : ℕ)
          → (id == x) ≡ false
          → (if id == x then true else has_id x ids) ≡ true
          → has_id x ids ≡ true
      behind_head x other h = ground arith

  -- A record outside the phase goes.
  pub delete-Indexes :
      (m : List (ℕ × R)) (id : ℕ) (ids : List ℕ) (b : ℕ)
      → All (λ x. x ≢ id) ids
      → Indexes m ids b
      → Indexes (map_delete id m) ids b
  delete-Indexes m id ids b h v =
      Indexes-Agree m (map_delete id m) ids b (delete-Agree m id ids h) v

  pub delete-Complete :
      (m : List (ℕ × R)) (id : ℕ) (ids : List ℕ) → Complete m ids → Complete (map_delete id m) ids
  delete-Complete m id ids c x h = elim (Bool-cases (id == x)) [
    | inl same ↦ absurd (gone x ((==_iff id x).0 same) h)
    | inr other ↦ c x (
        ap (λ o. is_some (weigh o)) (sym (get-delete_other id x m (λ s. ==-refuted id x other s)))
        ∙ h)
  ]
    where
      gone : (x : ℕ) → id ≡ x → Counted (map_delete id m) x → ⊥
      gone x same h = no_count none refl (
          ap (λ o. is_some (weigh o)) (sym (get-delete id m))
          ∙ subst (Counted (map_delete id m)) (sym same) h)
