-- ===== src/Strings/Split.antt =====
-- Splitting at a separator and joining again.
use distributed_job_schedule.Prelude.{
  ℕ, ◌≡◌, refl, ap, ◌∙◌, false, none, some, List, [], ◌∷◌, ◌++◌, arith,
}
use distributed_job_schedule.Strings.{Text, split, split_once, split_last, has}

-- Texts with a separator between each two.
abbrev pub join : ℕ → List Text → Text
join sep [] = []
join sep (p ∷ []) = p
join sep (p ∷ q ∷ ps) = p ++ sep ∷ join sep (q ∷ ps)

pub split_lacks : (sep : ℕ) (p : Text) → has sep p ≡ false → split sep p ≡ p ∷ []
unfolding split
split_lacks sep [] h = refl
split_lacks sep (c ∷ p) h = ground (arith, split_lacks sep p)

split-append :
    (sep : ℕ) (p rest : Text) → has sep p ≡ false → split sep (p ++ sep ∷ rest) ≡ p ∷ split sep rest
unfolding split
split-append sep [] rest h = ground arith
split-append sep (c ∷ p) rest h = ground (arith, split-append sep p rest)

abbrev pub Lack : ℕ → List Text → Type 0
Lack sep [] = Unit
Lack sep (p ∷ ps) = (has sep p ≡ false) × Lack sep ps

-- Splitting what was joined gives the texts back, if there is one and none has the separator.
pub split-join :
    (sep : ℕ) (p : Text) (ps : List Text)
    → Lack sep (p ∷ ps)
    → split sep (join sep (p ∷ ps)) ≡ p ∷ ps
split-join sep p [] h = split_lacks sep p h.0
split-join sep p (q ∷ ps) h =
    split-append sep p (join sep (q ∷ ps)) h.0 ∙ ap (λ l. p ∷ l) (split-join sep q ps h.1)

pub split_once-append :
    (sep : ℕ) (p rest : Text)
    → has sep p ≡ false
    → split_once sep (p ++ sep ∷ rest) ≡ some (p, rest)
unfolding split_once
split_once-append sep [] rest h = ground arith
split_once-append sep (c ∷ p) rest h = ground (arith, split_once-append sep p rest)

split_last_lacks : (sep : ℕ) (p : Text) → has sep p ≡ false → split_last sep p ≡ none
unfolding split_last
split_last_lacks sep [] h = refl
split_last_lacks sep (c ∷ p) h = ground (arith, split_last_lacks sep p)

pub split_last-append :
    (sep : ℕ) (p rest : Text)
    → has sep rest ≡ false
    → split_last sep (p ++ sep ∷ rest) ≡ some (p, rest)
unfolding split_last
split_last-append sep [] rest h = ground (arith, split_last_lacks sep rest)
split_last-append sep (c ∷ p) rest h = ground (arith, split_last-append sep p rest)
