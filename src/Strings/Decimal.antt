-- ===== src/Strings/Decimal.antt =====
-- A number that is written in decimal is read back.
use Prim.Native.Nat.{◌/◌, ◌%◌}
use distributed_job_schedule.Prelude.{
  ℕ, zero, suc, ◌+◌, ◌≤◌, ◌≡◌, ◌≢◌, refl, inl, inr, ap, false, some, [], ◌∷◌, arith, Bool-cases,
  ◌==◌,
}
use distributed_job_schedule.Prelude.Int.{pos}
use distributed_job_schedule.Strings.{Text, scan, emit, format, atoi, is_digit, max_int64, is_empty}

scan_last : (n : ℕ) (out : Text) → scan ((b'0' + n % 10) ∷ out) (n / 10) ≡ scan out n
unfolding scan
scan_last n out = ground arith

scan-emit : (fuel n : ℕ) (out : Text) → n ≤ fuel → scan (emit fuel n out) 0 ≡ scan out n
unfolding emit
scan-emit zero n out h = ap (scan out) (omega arith)
scan-emit (suc fuel) n out h =
    ground (arith, scan-emit fuel (n / 10) ((b'0' + n % 10) ∷ out), scan_last n out)

scan-format : (n : ℕ) → scan (format n) 0 ≡ some n
unfolding format scan
scan-format n = elim (Bool-cases (n == 0)) [
  | inl e ↦ rw e (ground arith)
  | inr e ↦ rw e (scan-emit n n [] (omega arith))
]

atoi_of_scan :
    (s : Text) (n : ℕ) → scan s 0 ≡ some n → s ≢ [] → n ≤ max_int64 → atoi s ≡ some (pos n)
unfolding atoi
atoi_of_scan [] n h e fits = absurd (e refl)
atoi_of_scan (c ∷ s) n h e fits = elim (Bool-cases (is_digit c)) [
  | inl d ↦ ground arith
  | inr d ↦ ground arith
]

emit-ne-nil : (fuel n : ℕ) (c : ℕ) (out : Text) → emit fuel n (c ∷ out) ≢ []
unfolding emit
emit-ne-nil zero n c out = cc
emit-ne-nil (suc fuel) n c out = ground (arith, emit-ne-nil fuel (n / 10) (b'0' + n % 10) (c ∷ out))

format-ne-nil : (n : ℕ) → format n ≢ []
unfolding format emit
format-ne-nil zero = ground arith
format-ne-nil (suc n) = ground (arith, emit-ne-nil n (suc n / 10) (b'0' + suc n % 10) [])

pub atoi-format : (n : ℕ) → n ≤ max_int64 → atoi (format n) ≡ some (pos n)
atoi-format n fits = atoi_of_scan (format n) n (scan-format n) (format-ne-nil n) fits

ne-nil-is_empty : (s : Text) → s ≢ [] → is_empty s ≡ false
ne-nil-is_empty [] h = absurd (h refl)
ne-nil-is_empty (c ∷ s) h = refl

pub is_empty-format : (n : ℕ) → is_empty (format n) ≡ false
is_empty-format n = ne-nil-is_empty (format n) (format-ne-nil n)
