-- ===== src/Prelude/Sublists.antt =====
-- Lists that are in another list in its order, and the parts of a list.
use mathlib.Core.Path.{subst}
use mathlib.Core.List.{Sublistᴰ}
use distributed_job_schedule.Prelude.{
  ℕ, zero, suc, ◌+◌, ◌≤◌, ◌<◌, ◌≡◌, refl, ap, sym, List, [], ◌∷◌, ◌++◌, arith, length, take, drop,
}

module _ {A : Type 0} where
  pub Sublistᴰ-append :
      {xs ys us vs : List A} → Sublistᴰ xs ys → Sublistᴰ us vs → Sublistᴰ (xs ++ us) (ys ++ vs)
  Sublistᴰ-append Sublistᴰ.slnil t = t
  Sublistᴰ-append (Sublistᴰ.cons s) t = Sublistᴰ.cons (Sublistᴰ-append s t)
  Sublistᴰ-append (Sublistᴰ.cons-cons e s) t = Sublistᴰ.cons-cons e (Sublistᴰ-append s t)

  nil-Sublistᴰ : (xs : List A) → Sublistᴰ [] xs
  nil-Sublistᴰ [] = Sublistᴰ.slnil
  nil-Sublistᴰ (x ∷ xs) = Sublistᴰ.cons (nil-Sublistᴰ xs)

  pub take-append-Sublistᴰ :
      (n : ℕ) (xs ys : List A) → n ≤ length xs → Sublistᴰ (take n (xs ++ ys)) xs
  take-append-Sublistᴰ zero xs ys h = nil-Sublistᴰ xs
  take-append-Sublistᴰ (suc n) [] ys h = absurd (omega arith)
  take-append-Sublistᴰ (suc n) (x ∷ xs) ys h =
      Sublistᴰ.cons-cons refl (take-append-Sublistᴰ n xs ys (omega arith))

  take-nil : (m : ℕ) → [] ≡ take {A = A} m []
  take-nil zero = refl
  take-nil (suc m) = refl

  pub take-add : (n m : ℕ) (xs : List A) → take (n + m) xs ≡ take n xs ++ take m (drop n xs)
  take-add zero m xs = ap (λ k. take k xs) (omega arith)
  take-add (suc n) m [] = let e : suc n + m ≡ suc (n + m) = omega arith in rw e (take-nil m)
  take-add (suc n) m (x ∷ xs) =
      let e : suc n + m ≡ suc (n + m) = omega arith in rw e (ap (λ l. x ∷ l) (take-add n m xs))

  pub length-append : (xs ys : List A) → length (xs ++ ys) ≡ length xs + length ys
  length-append [] ys = omega arith
  length-append (x ∷ xs) ys = omega (arith, length-append xs ys)

  pub length-drop : (n : ℕ) (xs : List A) → n ≤ length xs → n + length (drop n xs) ≡ length xs
  length-drop zero xs h = omega arith
  length-drop (suc n) [] h = absurd (omega arith)
  length-drop (suc n) (x ∷ xs) h = let e = length-drop n xs (omega arith) in omega arith

  abbrev pub All : (A → Type 0) → List A → Type 0
  All P [] = Unit
  All P (x ∷ xs) = P x × All P xs

  pub All-append : (P : A → Type 0) (xs ys : List A) → All P xs → All P ys → All P (xs ++ ys)
  All-append P [] ys h k = k
  All-append P (x ∷ xs) ys (p, h) k = (p, All-append P xs ys h k)

  pub All-Sublistᴰ : (P : A → Type 0) {xs ys : List A} → Sublistᴰ xs ys → All P ys → All P xs
  All-Sublistᴰ P Sublistᴰ.slnil h = tt
  All-Sublistᴰ P (Sublistᴰ.cons s) (p, h) = All-Sublistᴰ P s h
  All-Sublistᴰ P (Sublistᴰ.cons-cons e s) (p, h) = (subst P (sym e) p, All-Sublistᴰ P s h)

  pub All-take_reached :
      (P : A → Type 0) (n : ℕ) (xs ys : List A) (x : A)
      → length xs < n
      → All P (take n (xs ++ x ∷ ys))
      → P x
  All-take_reached P zero xs ys x h a = absurd (omega arith)
  All-take_reached P (suc n) [] ys x h a = a.0
  All-take_reached P (suc n) (q ∷ xs) ys x h a = All-take_reached P n xs ys x (omega arith) a.1
