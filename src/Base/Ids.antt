-- ===== src/Base/Ids.antt =====
-- Lists of numbers that stand for a `Set`, or for an index of ids.
use zhongduan.Base.Tests.{◌==◌, ==_iff, if◌then◌else◌, Bool-cases}
use zhongduan.Base.Lists.{All}
use Prim.Native.Nat.{ℕ}
use mathlib.Core.Path.{◌≡◌, refl, sym, subst}
use mathlib.Core.Logic.{◌≢◌, inl, inr}
use mathlib.Core.Bool.{Bool, true, false}
use mathlib.Core.Option.{Option, none, some}
use mathlib.Core.List.{List, [], ◌∷◌, ◌++◌}
use native.Mathlib.Omega.{arith}

-- `indexOf` and `splice`: the first occurrence goes.
abbrev pub remove_id : ℕ → List ℕ → List ℕ
remove_id id [] = []
remove_id id (x ∷ xs) = if x == id then xs else x ∷ remove_id id xs

abbrev pub has_id : ℕ → List ℕ → Bool
has_id id [] = false
has_id id (x ∷ xs) = if x == id then true else has_id id xs

abbrev pub is_some {ℓ} : {A : Type ℓ} → Option A → Bool
is_some none = false
is_some (some a) = true

-- No id stands in a list twice.
abbrev pub Distinct : List ℕ → Type 0
Distinct [] = Unit
Distinct (x ∷ xs) = All (λ y. y ≢ x) xs × Distinct xs

-- A list that has not the id has other ids only.
pub has_id-others : (id : ℕ) (ids : List ℕ) → has_id id ids ≡ false → All (λ x. x ≢ id) ids
has_id-others id [] h = tt
has_id-others id (x ∷ xs) h = elim (Bool-cases (x == id)) [
  | inl e ↦ absurd (found x id xs e h)
  | inr e ↦ (other x id e, has_id-others id xs (behind x id xs e h))
]
  where
    found :
        (x id : ℕ) (xs : List ℕ)
        → (x == id) ≡ true
        → (if x == id then true else has_id id xs) ≡ false
        → ⊥
    found x id xs e h = ground arith

    behind :
        (x id : ℕ) (xs : List ℕ)
        → (x == id) ≡ false
        → (if x == id then true else has_id id xs) ≡ false
        → has_id id xs ≡ false
    behind x id xs e h = ground arith

    other : (x id : ℕ) → (x == id) ≡ false → x ≢ id
    other x id e k = ground (arith, k)

pub All-append_one {ℓ} :
    (P : ℕ → Type ℓ) (xs : List ℕ) (x : ℕ) → All P xs → P x → All P (xs ++ (x ∷ []))
All-append_one P [] x h p = (p, tt)
All-append_one P (y ∷ ys) x h p = (h.0, All-append_one P ys x h.1 p)

pub Distinct-append_one :
    (xs : List ℕ) (x : ℕ) → Distinct xs → All (λ y. y ≢ x) xs → Distinct (xs ++ (x ∷ []))
Distinct-append_one [] x d h = (tt, tt)
Distinct-append_one (y ∷ ys) x d h =
    (All-append_one (λ z. z ≢ y) ys x d.0 (λ e. h.0 (sym e)), Distinct-append_one ys x d.1 h.1)

pub remove-All {ℓ} : (P : ℕ → Type ℓ) (id : ℕ) (xs : List ℕ) → All P xs → All P (remove_id id xs)
remove-All P id [] h = tt
remove-All P id (x ∷ xs) h = elim (Bool-cases (x == id)) [
  | inl e ↦ rw e h.1
  | inr e ↦ rw e (h.0, remove-All P id xs h.1)
]

pub remove-Distinct : (id : ℕ) (xs : List ℕ) → Distinct xs → Distinct (remove_id id xs)
remove-Distinct id [] h = tt
remove-Distinct id (x ∷ xs) h = elim (Bool-cases (x == id)) [
  | inl e ↦ rw e h.1
  | inr e ↦ rw e (remove-All (λ y. y ≢ x) id xs h.0, remove-Distinct id xs h.1)
]

pub ==-refuted : (a b : ℕ) → (a == b) ≡ false → a ≢ b
==-refuted a b e k = ground (arith, k)

pub remove-others : (id : ℕ) (xs : List ℕ) → Distinct xs → All (λ x. x ≢ id) (remove_id id xs)
remove-others id [] h = tt
remove-others id (x ∷ xs) h = elim (Bool-cases (x == id)) [
  | inl e ↦ rw e (subst (λ z. All (λ y. y ≢ z) xs) ((==_iff x id).0 e) h.0)
  | inr e ↦ rw e (==-refuted x id e, remove-others id xs h.1)
]

pub has_id-last : (x id : ℕ) (ids : List ℕ) → (id == x) ≡ true → has_id x (ids ++ (id ∷ [])) ≡ true
has_id-last x id [] e = rw e refl
has_id-last x id (y ∷ ys) e = elim (Bool-cases (y == x)) [
  | inl k ↦ rw k refl
  | inr k ↦ rw k (has_id-last x id ys e)
]

pub has_id-append :
    (x id : ℕ) (ids : List ℕ) → has_id x ids ≡ true → has_id x (ids ++ (id ∷ [])) ≡ true
has_id-append x id [] h = absurd (cc)
has_id-append x id (y ∷ ys) h = elim (Bool-cases (y == x)) [
  | inl k ↦ rw k refl
  | inr k ↦ rw k (has_id-append x id ys (skip k h))
]
  where
    skip : (y == x) ≡ false → (if y == x then true else has_id x ys) ≡ true → has_id x ys ≡ true
    skip e h = ground arith

pub has_id-remove :
    (x id : ℕ) (ids : List ℕ)
    → (id == x) ≡ false
    → has_id x ids ≡ true
    → has_id x (remove_id id ids) ≡ true
has_id-remove x id [] e h = absurd (cc)
has_id-remove x id (y ∷ ys) e h = elim (Bool-cases (y == id)) [
  | inl k ↦ rw k (skip (differs y ((==_iff y id).0 k)) h)
  | inr k ↦ elim (Bool-cases (y == x)) [
    | inl j ↦ rw (k, j) refl
    | inr j ↦ rw (k, j) (has_id-remove x id ys e (skip j h))
  ]
]
  where
    skip : (y == x) ≡ false → (if y == x then true else has_id x ys) ≡ true → has_id x ys ≡ true
    skip e h = ground arith

    differs : (z : ℕ) → z ≡ id → (z == x) ≡ false
    differs z same = subst (λ v. (v == x) ≡ false) (sym same) e
