-- ===== src/Base/Sort.antt =====
-- `sort.Slice` of Go's library, as an insertion sort by a test `before`, and what it keeps.
use Prim.Native.Nat.{ℕ, ◌+◌}
use mathlib.Core.Path.{◌≡◌, refl}
use mathlib.Core.Bool.{Bool, true, false}
use mathlib.Core.Logic.{inl, inr}
use mathlib.Core.List.{List, [], ◌∷◌}
use native.Mathlib.Omega.{arith}
use bgpulse.Base.Tests.{if◌then◌else◌, Bool-cases}

module _ {A : Type 0} where
  unfoldable pub count_if : (A → Bool) → List A → ℕ
  count_if f [] = 0
  count_if f (x ∷ xs) = (if f x then 1 else 0) + count_if f xs

module _ {A : Type 0} (before : A → A → Bool) where
  unfoldable pub insert_sorted : A → List A → List A
  insert_sorted x [] = x ∷ []
  insert_sorted x (y ∷ ys) =
      let rest = insert_sorted x ys in if before y x then y ∷ rest else x ∷ (y ∷ ys)

  unfoldable pub sort_by : List A → List A
  unfolding insert_sorted
  sort_by [] = []
  sort_by (x ∷ xs) = insert_sorted x (sort_by xs)

  -- No element of the list comes before this one.
  abbrev pub AllAfter : A → List A → Type 0
  AllAfter x [] = Unit
  AllAfter x (y ∷ ys) = (before y x ≡ false) × AllAfter x ys

  abbrev pub IsSorted : List A → Type 0
  IsSorted [] = Unit
  IsSorted (x ∷ xs) = AllAfter x xs × IsSorted xs

  count_if-insert_sorted :
      (f : A → Bool) (x : A) (xs : List A) → count_if f (insert_sorted x xs) ≡ count_if f (x ∷ xs)
  unfolding count_if insert_sorted
  count_if-insert_sorted f x [] = refl
  count_if-insert_sorted f x (y ∷ ys) = ground (arith, count_if-insert_sorted f x ys)

  pub count_if-sort_by : (f : A → Bool) (xs : List A) → count_if f (sort_by xs) ≡ count_if f xs
  unfolding count_if sort_by
  count_if-sort_by f [] = refl
  count_if-sort_by f (x ∷ xs) =
      ground (arith, count_if-insert_sorted f x (sort_by xs), count_if-sort_by f xs)

-- A strict weak order.
pub record IsOrder {A : Type 0} (before : A → A → Bool) : Type 0 where
  pub asymmetric : (x y : A) → before x y ≡ true → before y x ≡ false
  pub chains : (x y z : A) → before y x ≡ false → before z y ≡ false → before z x ≡ false

module _ {A : Type 0} (before : A → A → Bool) (order : IsOrder before) where
  AllAfter-insert :
      (x y : A) (ys : List A)
      → AllAfter before y ys
      → before x y ≡ false
      → AllAfter before y (insert_sorted before x ys)
  unfolding insert_sorted
  AllAfter-insert x y [] a b = (b, tt)
  AllAfter-insert x y (z ∷ zs) a b = elim (Bool-cases (before z x)) [
    | inl e ↦ rw e (a.0, AllAfter-insert x y zs a.1 b)
    | inr e ↦ rw e (b, a)
  ]

  AllAfter-chain :
      (x y : A) (ys : List A) → before y x ≡ false → AllAfter before y ys → AllAfter before x ys
  AllAfter-chain x y [] e a = tt
  AllAfter-chain x y (z ∷ zs) e a = (order.chains x y z e a.0, AllAfter-chain x y zs e a.1)

  insert-IsSorted :
      (x : A) (ys : List A) → IsSorted before ys → IsSorted before (insert_sorted before x ys)
  unfolding insert_sorted
  insert-IsSorted x [] s = (tt, tt)
  insert-IsSorted x (y ∷ ys) s = elim (Bool-cases (before y x)) [
    | inl e ↦ rw e (AllAfter-insert x y ys s.0 (order.asymmetric y x e), insert-IsSorted x ys s.1)
    | inr e ↦ rw e ((e, AllAfter-chain x y ys e s.0), s)
  ]

  pub sort_by-IsSorted : (xs : List A) → IsSorted before (sort_by before xs)
  unfolding sort_by
  sort_by-IsSorted [] = tt
  sort_by-IsSorted (x ∷ xs) = insert-IsSorted x (sort_by before xs) (sort_by-IsSorted xs)
