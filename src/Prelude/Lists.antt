-- ===== src/Prelude/Lists.antt =====
-- Lists measured by native numbers, and the list operations of a table scan by a Boolean test.
use Prim.Native.Nat.{ℕ, zero, suc, ◌+◌, ◌≤◌, ◌<◌}
use mathlib.Core.Path.{◌≡◌, refl}
use mathlib.Core.Bool.{Bool, true, false, not, ◌&&◌, ◌||◌}
use mathlib.Core.Logic.{inl, inr}
use mathlib.Core.List.{List, [], ◌∷◌, ◌++◌}
use mathlib.Core.Option
use mathlib.Core.Option.{Option, none, some}
use native.Mathlib.Omega.{arith}
use distributed_job_schedule.Prelude.Tests.{if◌then◌else◌, Bool-cases}

module _ {ℓ} {A : Type ℓ} where
  abbrev pub length : List A → ℕ
  length [] = 0
  length (x ∷ xs) = suc (length xs)

  abbrev pub take : ℕ → List A → List A
  take zero xs = []
  take (suc n) [] = []
  take (suc n) (x ∷ xs) = x ∷ take n xs

  abbrev pub drop : ℕ → List A → List A
  drop zero xs = xs
  drop (suc n) [] = []
  drop (suc n) (x ∷ xs) = drop n xs

  -- How many elements pass the test.
  abbrev pub count : (A → Bool) → List A → ℕ
  count p [] = 0
  count p (x ∷ xs) = (if p x then 1 else 0) + count p xs

  -- The elements that pass the test, in order (`WHERE`).
  abbrev pub select : (A → Bool) → List A → List A
  select p [] = []
  select p (x ∷ xs) = let rest = select p xs in if p x then x ∷ rest else rest

  -- The first element that passes the test.
  abbrev pub find : (A → Bool) → List A → Option A
  find p [] = none
  find p (x ∷ xs) = if p x then some x else find p xs

  -- `UPDATE … SET f WHERE p`.
  abbrev pub update : (A → Bool) → (A → A) → List A → List A
  update p f [] = []
  update p f (x ∷ xs) = (if p x then f x else x) ∷ update p f xs

  -- Every element passes the test.
  abbrev pub all : (A → Bool) → List A → Bool
  all p [] = true
  all p (x ∷ xs) = p x && all p xs

  -- Some element passes the test.
  abbrev pub any : (A → Bool) → List A → Bool
  any p [] = false
  any p (x ∷ xs) = p x || any p xs

module _ {ℓ} {A : Type ℓ} where
  pub length-take_le : (n : ℕ) (xs : List A) → length (take n xs) ≤ n
  length-take_le zero xs = omega arith
  length-take_le (suc n) [] = omega arith
  length-take_le (suc n) (x ∷ xs) = omega (arith, length-take_le n xs)

  pub count-append : (p : A → Bool) (xs ys : List A) → count p (xs ++ ys) ≡ count p xs + count p ys
  count-append p [] ys = omega arith
  count-append p (x ∷ xs) ys = omega (arith, count-append p xs ys)

  pub count-take-drop :
      (p : A → Bool) (n : ℕ) (xs : List A) → count p xs ≡ count p (take n xs) + count p (drop n xs)
  count-take-drop p zero xs = omega arith
  count-take-drop p (suc n) [] = omega arith
  count-take-drop p (suc n) (x ∷ xs) = omega (arith, count-take-drop p n xs)

  pub count-true : (xs : List A) → count (λ _. true) xs ≡ length xs
  count-true [] = refl
  count-true (x ∷ xs) = omega (arith, count-true xs)

  pub count-false : (xs : List A) → count (λ _. false) xs ≡ 0
  count-false [] = refl
  count-false (x ∷ xs) = omega (arith, count-false xs)

  pub count-select :
      (p q : A → Bool) (xs : List A) → count q (select p xs) ≡ count (λ x. p x && q x) xs
  count-select p q [] = refl
  count-select p q (x ∷ xs) = ground (arith, count-select p q xs)

  pub any-count : (p : A → Bool) (xs : List A) → any p xs ≡ false → count p xs ≡ 0
  any-count p [] h = refl
  any-count p (x ∷ xs) h = ground (arith, any-count p xs)

  pub any-count_pos : (p : A → Bool) (xs : List A) → any p xs ≡ true → 0 < count p xs
  any-count_pos p [] h = ground arith
  any-count_pos p (x ∷ xs) h = ground (arith, any-count_pos p xs)

  pub all-any_not :
      (p q : A → Bool) (xs : List A)
      → all p xs ≡ true
      → ((x : A) → p x ≡ true → q x ≡ false)
      → count q xs ≡ 0
  all-any_not p q [] h k = refl
  all-any_not p q (x ∷ xs) h k = ground (arith, k x, all-any_not p q xs)

  pub find-count_pos :
      (p q : A → Bool) (xs : List A) (x : A) → find p xs ≡ some x → q x ≡ true → 0 < count q xs
  find-count_pos p q [] x e h = ground arith
  find-count_pos p q (y ∷ xs) x e h = ground (arith, find-count_pos p q xs x)

  pub find-passes : (p : A → Bool) (xs : List A) (x : A) → find p xs ≡ some x → p x ≡ true
  find-passes p [] x e = ground arith
  find-passes p (y ∷ xs) x e = ground (arith, find-passes p xs x)

  pub find-append_none :
      (p : A → Bool) (xs ys : List A) → find p xs ≡ none → find p (xs ++ ys) ≡ find p ys
  find-append_none p [] ys e = refl
  find-append_none p (x ∷ xs) ys e = ground (arith, find-append_none p xs ys)

  pub find-append_some :
      (p : A → Bool) (xs ys : List A) (x : A) → find p xs ≡ some x → find p (xs ++ ys) ≡ some x
  find-append_some p [] ys x e = ground arith
  find-append_some p (y ∷ xs) ys x e = ground (arith, find-append_some p xs ys x)

  -- An update keeps every row in its place: a row that is looked up by a test that the update
  -- does not disturb is found again, changed or not.
  pub find-update :
      (k p : A → Bool) (f : A → A) (xs : List A)
      → ((x : A) → k (f x) ≡ k x)
      → find k (update p f xs) ≡ Option.map (λ x. if p x then f x else x) (find k xs)
  find-update k p f [] same = refl
  find-update k p f (x ∷ xs) same = ground (arith, same x, find-update k p f xs same)

  pub count-update :
      (k p : A → Bool) (f : A → A) (xs : List A)
      → ((x : A) → k (f x) ≡ k x)
      → count k (update p f xs) ≡ count k xs
  count-update k p f [] same = refl
  count-update k p f (x ∷ xs) same = ground (arith, same x, count-update k p f xs same)

  pub count-none-find : (p : A → Bool) (xs : List A) → count p xs ≡ 0 → find p xs ≡ none
  count-none-find p [] h = refl
  count-none-find p (x ∷ xs) h = ground (arith, count-none-find p xs)

  pub find-none-count : (p : A → Bool) (xs : List A) → find p xs ≡ none → count p xs ≡ 0
  find-none-count p [] h = refl
  find-none-count p (x ∷ xs) h = ground (arith, find-none-count p xs)

  pub count_congr : (p q : A → Bool) (xs : List A) → ((x : A) → p x ≡ q x) → count p xs ≡ count q xs
  count_congr p q [] same = refl
  count_congr p q (x ∷ xs) same = ground (arith, same x, count_congr p q xs same)

  pub count_mono :
      (p q : A → Bool) (xs : List A) → ((x : A) → p x ≡ true → q x ≡ true) → count p xs ≤ count q xs
  count_mono p q [] sub = omega arith
  count_mono p q (x ∷ xs) sub = ground (arith, sub x, count_mono p q xs sub)

  pub count-or_le :
      (p q : A → Bool) (xs : List A) → count (λ x. p x || q x) xs ≤ count p xs + count q xs
  count-or_le p q [] = omega arith
  count-or_le p q (x ∷ xs) = ground (arith, count-or_le p q xs)

  pub count-split :
      (p q : A → Bool) (xs : List A)
      → count p xs ≡ count (λ x. p x && q x) xs + count (λ x. p x && not (q x)) xs
  count-split p q [] = refl
  count-split p q (x ∷ xs) = ground (arith, count-split p q xs)

  pub count_pos-any : (p : A → Bool) (xs : List A) → 0 < count p xs → any p xs ≡ true
  count_pos-any p [] h = absurd (omega arith)
  count_pos-any p (x ∷ xs) h = ground (arith, count_pos-any p xs)

  pub count_pos-find :
      (p : A → Bool) (xs : List A) → 0 < count p xs → (x : A) × (find p xs ≡ some x) × (p x ≡ true)
  count_pos-find p [] h = absurd (omega arith)
  count_pos-find p (x ∷ xs) h = elim (Bool-cases (p x)) [
    | inl here ↦ (x, ground arith, here)
    | inr there ↦ let (y, e, k) = count_pos-find p xs (ground arith) in (y, ground arith, k)
  ]

  pub all-count :
      (p q : A → Bool) (xs : List A) → all p xs ≡ true → count (λ x. q x && not (p x)) xs ≡ 0
  all-count p q [] h = refl
  all-count p q (x ∷ xs) h = ground (arith, all-count p q xs)
