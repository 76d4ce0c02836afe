-- ===== src/Strings/Trim.antt =====
-- What `TrimSpace` leaves.
use distributed_job_schedule.Prelude.{
  ◌≡◌, refl, inl, inr, true, false, ◌&&◌, [], ◌∷◌, arith, Bool-cases, ◌↔◌, ◌∙◌, ap,
}
use distributed_job_schedule.Strings.{
  Text, is_space, is_empty, trim_left, trim_right, trim_space, same,
}

abbrev NoLead : Text → Type 0
NoLead [] = Unit
NoLead (c ∷ s) = is_space c ≡ false

trim_left-NoLead : (s : Text) → NoLead (trim_left s)
unfolding trim_left
trim_left-NoLead [] = tt
trim_left-NoLead (c ∷ s) = elim (Bool-cases (is_space c)) [
  | inl e ↦ rw e (trim_left-NoLead s)
  | inr e ↦ rw e e
]

trim_right-NoLead : (s : Text) → NoLead s → NoLead (trim_right s)
unfolding trim_right
trim_right-NoLead [] h = tt
trim_right-NoLead (c ∷ s) h = rw h h

trim_left_of_NoLead : (s : Text) → NoLead s → trim_left s ≡ s
unfolding trim_left
trim_left_of_NoLead [] h = refl
trim_left_of_NoLead (c ∷ s) h = rw h

trim_right_idempotent : (s : Text) → trim_right (trim_right s) ≡ trim_right s
unfolding trim_right
trim_right_idempotent [] = refl
trim_right_idempotent (c ∷ s) = elim (Bool-cases (is_space c && is_empty (trim_right s))) [
  | inl e ↦ rw e
  | inr e ↦ rw (e, trim_right_idempotent s, e)
]

pub trim_space_idempotent : (s : Text) → trim_space (trim_space s) ≡ trim_space s
unfolding trim_space
trim_space_idempotent s =
    ap trim_right (
      trim_left_of_NoLead (trim_right (trim_left s))
        (trim_right-NoLead (trim_left s) (trim_left-NoLead s)))
    ∙ trim_right_idempotent (trim_left s)

pub same_iff : (s t : Text) → (same s t ≡ true) ↔ (s ≡ t)
same_iff [] [] = ground arith
same_iff [] (d ∷ t) = ground arith
same_iff (c ∷ s) [] = ground arith
same_iff (c ∷ s) (d ∷ t) = ground (arith, same_iff s t)
