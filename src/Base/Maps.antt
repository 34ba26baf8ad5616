-- ===== src/Base/Maps.antt =====
-- A `Map` keyed by numbers: an association list in the order of insertion.
use zhongduan.Base.Lists.{All}
use zhongduan.Base.Tests.{◌==◌, ==_iff, if◌then◌else◌, Bool-cases}
use Prim.Native.Nat.{ℕ}
use mathlib.Core.Path.{◌≡◌, refl, sym, subst, ◌∙◌}
use mathlib.Core.Logic.{◌≢◌, inl, inr}
use mathlib.Core.Bool.{Bool, true, false}
use mathlib.Core.Option.{Option, none, some}
use mathlib.Core.List.{List, [], ◌∷◌}
use native.Mathlib.Omega.{arith}

pub ==_refl : (n : ℕ) → (n == n) ≡ true
==_refl n = (==_iff n n).1 refl

pub ==_other : (k key : ℕ) → k ≢ key → (k == key) ≡ false
==_other k key ne = ground (arith, ne)

pub differs : (k key : ℕ) → (k == key) ≡ false → k ≢ key
differs k key f e = absurd (true≢false (sym ((==_iff k key).1 e) ∙ f))
  where
    true≢false : ◌≢◌ {A = Bool} true false
    true≢false e = cc

module _ {ℓ} {A : Type ℓ} where
  abbrev pub map_get : ℕ → List (ℕ × A) → Option A
  map_get key [] = none
  map_get key ((k, a) ∷ rest) = if k == key then some a else map_get key rest

  abbrev pub map_set : ℕ → A → List (ℕ × A) → List (ℕ × A)
  map_set key a [] = (key, a) ∷ []
  map_set key a ((k, b) ∷ rest) = if k == key then (k, a) ∷ rest else (k, b) ∷ map_set key a rest

  abbrev pub map_delete : ℕ → List (ℕ × A) → List (ℕ × A)
  map_delete key [] = []
  map_delete key ((k, b) ∷ rest) =
      if k == key then map_delete key rest else (k, b) ∷ map_delete key rest

  pub get-set : (key : ℕ) (a : A) (m : List (ℕ × A)) → map_get key (map_set key a m) ≡ some a
  get-set key a [] = rw (==_refl key) refl
  get-set key a ((k, b) ∷ rest) = elim (Bool-cases (k == key)) [
    | inl e ↦ rw (e, e) refl
    | inr e ↦ rw (e, e) (get-set key a rest)
  ]

  pub get-set_other :
      (key other : ℕ) (a : A) (m : List (ℕ × A))
      → key ≢ other
      → map_get other (map_set key a m) ≡ map_get other m
  get-set_other key other a [] ne = rw (==_other key other ne) refl
  get-set_other key other a ((k, b) ∷ rest) ne = elim (Bool-cases (k == key)) [
    | inl e ↦ rw (e, ==_other k other (λ f. ne (sym ((==_iff k key).0 e) ∙ f))) refl
    | inr e ↦ elim (Bool-cases (k == other)) [
      | inl f ↦ rw (e, f) refl
      | inr f ↦ rw (e, f) (get-set_other key other a rest ne)
    ]
  ]

  pub get-delete : (key : ℕ) (m : List (ℕ × A)) → map_get key (map_delete key m) ≡ none
  get-delete key [] = refl
  get-delete key ((k, b) ∷ rest) = elim (Bool-cases (k == key)) [
    | inl e ↦ rw e (get-delete key rest)
    | inr e ↦ rw (e, e) (get-delete key rest)
  ]

  pub get-delete_other :
      (key other : ℕ) (m : List (ℕ × A))
      → key ≢ other
      → map_get other (map_delete key m) ≡ map_get other m
  get-delete_other key other [] ne = refl
  get-delete_other key other ((k, b) ∷ rest) ne = elim (Bool-cases (k == key)) [
    | inl e ↦
        rw (e, ==_other k other (λ f. ne (sym ((==_iff k key).0 e) ∙ f)))
          (get-delete_other key other rest ne)
    | inr e ↦ elim (Bool-cases (k == other)) [
      | inl f ↦ rw (e, f) refl
      | inr f ↦ rw (e, f) (get-delete_other key other rest ne)
    ]
  ]

  module _ {κ} (P : ℕ × A → Type κ) where
    pub get-All :
        (key : ℕ) (m : List (ℕ × A)) (a : A) → map_get key m ≡ some a → All P m → P (key, a)
    get-All key [] a e h = absurd (cc)
    get-All key ((k, b) ∷ rest) a e h = elim (Bool-cases (k == key)) [
      | inl f ↦ subst P (λ i. ((==_iff k key).0 f i, same f e i)) h.0
      | inr f ↦ get-All key rest a (later f e) h.1
    ]
      where
        same : (k == key) ≡ true → (if k == key then some b else map_get key rest) ≡ some a → b ≡ a
        same f e = ground arith

        later :
            (k == key) ≡ false
            → (if k == key then some b else map_get key rest) ≡ some a
            → map_get key rest ≡ some a
        later f e = ground arith

    pub set-All :
        (key : ℕ) (a : A) (m : List (ℕ × A)) → P (key, a) → All P m → All P (map_set key a m)
    set-All key a [] p h = (p, tt)
    set-All key a ((k, b) ∷ rest) p h = elim (Bool-cases (k == key)) [
      | inl f ↦ rw f (subst (λ x. P (x, a)) (sym ((==_iff k key).0 f)) p, h.1)
      | inr f ↦ rw f (h.0, set-All key a rest p h.1)
    ]

    -- What a map keeps is of another key than the deleted one.
    pub delete-All :
        (key : ℕ) (m : List (ℕ × A))
        → All P m
        → All (λ (e : ℕ × A). (e.0 ≢ key) × P e) (map_delete key m)
    delete-All key [] h = tt
    delete-All key ((k, b) ∷ rest) h = elim (Bool-cases (k == key)) [
      | inl f ↦ rw f (delete-All key rest h.1)
      | inr f ↦ rw f ((differs k key f, h.0), delete-All key rest h.1)
    ]
