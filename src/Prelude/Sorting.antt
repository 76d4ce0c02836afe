-- ===== src/Prelude/Sorting.antt =====
-- `ORDER BY`, as an interface: a sorting function of which only what SQL promises is known, and an
-- insertion sort that fills it.
use Prim.Native.Nat.{ℕ, zero, suc, ◌+◌, ◌<◌}
use mathlib.Core.Path.{◌≡◌, refl}
use mathlib.Core.Bool.{Bool, true, ◌&&◌}
use mathlib.Core.Logic.{◌⊎◌, inl, inr}
use mathlib.Core.List.{List, [], ◌∷◌}
use native.Mathlib.Omega.{arith}
use distributed_job_schedule.Prelude.Tests.{if◌then◌else◌, Bool-cases}
use distributed_job_schedule.Prelude.Lists.{
  count, all, take, drop, count_pos-find, all-count, count-split, count-take-drop,
}

module _ {A : Type 0} where
  -- Each element stands before all that follow it.
  abbrev pub IsSorted : (A → A → Bool) → List A → Type 0
  IsSorted le [] = Unit
  IsSorted le (x ∷ xs) = (all (le x) xs ≡ true) × IsSorted le xs

  -- What makes `le` an order to sort by.
  pub record IsOrder (le : A → A → Bool) : Type 0 where
    pub total : (x y : A) → (le x y ≡ true) ⊎ (le y x ≡ true)
    pub trans : (x y z : A) → le x y ≡ true → le y z ≡ true → le x z ≡ true

-- The rows come back, each as often as it was there, and in order; ties fall in any order.
pub record Sorter (A : Type 0) : Type 0 where
  pub sort : (A → A → Bool) → List A → List A
  pub sort-count :
      (le : A → A → Bool) (p : A → Bool) (xs : List A) → count p (sort le xs) ≡ count p xs
  pub sort-IsSorted : (le : A → A → Bool) → IsOrder le → (xs : List A) → IsSorted le (sort le xs)

module _ {A : Type 0} where
  -- An element of the first `n` of a sorted list stands in order before one behind them.
  pub sorted_split :
      (le : A → A → Bool) (p q : A → Bool) (n : ℕ) (xs : List A)
      → IsSorted le xs
      → 0 < count p (take n xs)
      → 0 < count q (drop n xs)
      → (x : A) × (y : A) × (p x ≡ true) × (q y ≡ true) × (le x y ≡ true)
  sorted_split le p q zero xs s h k = absurd (omega arith)
  sorted_split le p q (suc n) [] s h k = absurd (omega arith)
  sorted_split le p q (suc n) (x ∷ xs) s h k = elim (Bool-cases (p x)) [
    | inl here ↦
        let (y, _, t) =
          count_pos-find (λ y. q y && le x y) xs
            (omega (
              arith,
              all-count (le x) q xs s.0,
              count-split q (le x) xs,
              count-take-drop q n xs,
            )) in
        (x, y, here, ground arith, ground arith)
    | inr there ↦ sorted_split le p q n xs s.1 (ground arith) k
  ]

  insert : (A → A → Bool) → A → List A → List A
  insert le x [] = x ∷ []
  insert le x (y ∷ ys) = let rest = insert le x ys in if le x y then x ∷ y ∷ ys else y ∷ rest

  unfoldable pub insertion_sort : (A → A → Bool) → List A → List A
  unfolding insert
  insertion_sort le [] = []
  insertion_sort le (x ∷ xs) = insert le x (insertion_sort le xs)

  count-insert :
      (le : A → A → Bool) (p : A → Bool) (x : A) (xs : List A)
      → count p (insert le x xs) ≡ (if p x then 1 else 0) + count p xs
  unfolding insert
  count-insert le p x [] = refl
  count-insert le p x (y ∷ ys) = ground (arith, count-insert le p x ys)

  pub insertion_sort-count :
      (le : A → A → Bool) (p : A → Bool) (xs : List A) → count p (insertion_sort le xs) ≡ count p xs
  unfolding insertion_sort
  insertion_sort-count le p [] = refl
  insertion_sort-count le p (x ∷ xs) =
      omega (arith, count-insert le p x (insertion_sort le xs), insertion_sort-count le p xs)

  all-insert :
      (le : A → A → Bool) (p : A → Bool) (x : A) (xs : List A)
      → p x ≡ true
      → all p xs ≡ true
      → all p (insert le x xs) ≡ true
  unfolding insert
  all-insert le p x [] h k = ground arith
  all-insert le p x (y ∷ ys) h k = ground (arith, all-insert le p x ys)

  all-weaken :
      (p q : A → Bool) (xs : List A)
      → ((x : A) → p x ≡ true → q x ≡ true)
      → all p xs ≡ true
      → all q xs ≡ true
  all-weaken p q [] w h = refl
  all-weaken p q (x ∷ xs) w h = ground (arith, w x, all-weaken p q xs w)

  insert-IsSorted :
      (le : A → A → Bool)
      → IsOrder le
      → (x : A) (xs : List A) → IsSorted le xs
      → IsSorted le (insert le x xs)
  unfolding insert
  insert-IsSorted le o x [] s = (refl, tt)
  insert-IsSorted le o x (y ∷ ys) s = elim (Bool-cases (le x y)) [
    | inl first ↦
        rw first ((ground (arith, all-weaken (le y) (le x) ys (λ z. o.trans x y z first) s.0)), s)
    | inr later ↦
        rw later (
          all-insert le (le y) x ys (ground (arith, o.total x y)) s.0,
          insert-IsSorted le o x ys s.1,
        )
  ]

  pub insertion_sort-IsSorted :
      (le : A → A → Bool) → IsOrder le → (xs : List A) → IsSorted le (insertion_sort le xs)
  unfolding insertion_sort
  insertion_sort-IsSorted le o [] = tt
  insertion_sort-IsSorted le o (x ∷ xs) =
      insert-IsSorted le o x (insertion_sort le xs) (insertion_sort-IsSorted le o xs)

  abbrev pub insertion : Sorter A
  insertion = record {
    sort = insertion_sort;
    sort-count = insertion_sort-count;
    sort-IsSorted = insertion_sort-IsSorted;
  }
