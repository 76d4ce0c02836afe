-- ===== src/Strings.antt =====
-- What the program uses of Go's packages strings, strconv and net, over the code points of a text.
pub mod Trim
pub mod Split
pub mod Decimal
use Prim.Native.Char.{code}
use Prim.Native.Nat.{◌/◌, ◌%◌, ◌^◌}
use distributed_job_schedule.Prelude.{
  ℕ, zero, suc, ◌+◌, ◌-◌, ◌*◌, String, Bool, true, false, not, ◌&&◌, ◌||◌, Option, none, some, List,
  [], ◌∷◌, ◌++◌, map, ltb, leb, ◌==◌, if◌then◌else◌, any,
}
use distributed_job_schedule.Prelude.Int.{ℤ, pos, negsuc}

abbrev pub Text : Type 0
Text = List ℕ

abbrev pub codes : String → Text
codes String.[] = []
codes (String.◌∷◌ c s) = code c ∷ codes s

-- `==` of two texts.
abbrev pub same : Text → Text → Bool
same [] [] = true
same [] (d ∷ t) = false
same (c ∷ s) [] = false
same (c ∷ s) (d ∷ t) = (c == d) && same s t

-- `unicode.IsSpace`
abbrev pub is_space : ℕ → Bool
is_space c =
    (leb 9 c && leb c 13)
    || (c == 32 || c == 0x85 || c == 0xA0 || c == 0x1680)
    || ((leb 0x2000 c && leb c 0x200A) || c == 0x2028 || c == 0x2029 || c == 0x202F)
    || (c == 0x205F || c == 0x3000)

abbrev pub is_empty : Text → Bool
is_empty [] = true
is_empty (c ∷ s) = false

unfoldable pub trim_left : Text → Text
trim_left [] = []
trim_left (c ∷ s) = let rest = trim_left s in if is_space c then rest else c ∷ s

unfoldable pub trim_right : Text → Text
trim_right [] = []
trim_right (c ∷ s) = let rest = trim_right s in if is_space c && is_empty rest then [] else c ∷ rest

-- `strings.TrimSpace`
unfoldable pub trim_space : Text → Text
unfolding trim_left trim_right
trim_space s = trim_right (trim_left s)

abbrev lower : ℕ → ℕ
lower c = if leb b'A' c && leb c b'Z' then c + 32 else c

-- `strings.EqualFold` with a text that has no letters but ASCII ones other than k and s: only these
-- two have a case beyond ASCII.
abbrev pub equal_fold : Text → Text → Bool
equal_fold s t = same (map lower s) (map lower t)

abbrev pub push : ℕ → List Text → List Text
push c [] = (c ∷ []) ∷ []
push c (p ∷ ps) = (c ∷ p) ∷ ps

-- `strings.Split` by one character
unfoldable pub split : ℕ → Text → List Text
split sep [] = [] ∷ []
split sep (c ∷ s) = let rest = split sep s in if c == sep then [] ∷ rest else push c rest

abbrev pub push_front : ℕ → Option (Text × Text) → Option (Text × Text)
push_front c none = none
push_front c (some (s, t)) = some (c ∷ s, t)

-- `strings.SplitN` into two parts, where there are two.
unfoldable pub split_once : ℕ → Text → Option (Text × Text)
split_once sep [] = none
split_once sep (c ∷ s) =
    let rest = push_front c (split_once sep s) in if c == sep then some ([], s) else rest

abbrev pub is_digit : ℕ → Bool
is_digit c = leb b'0' c && leb c b'9'

-- The number that digits spell behind `n`.
unfoldable pub scan : Text → ℕ → Option ℕ
scan [] n = some n
scan (c ∷ s) n = let rest = scan s (n * 10 + (c - b'0')) in if is_digit c then rest else none

abbrev pub max_int64 : ℕ
max_int64 = 2 ^ 63 - 1

abbrev pub non_negative : Option ℕ → Option ℤ
non_negative none = none
non_negative (some n) = if leb n max_int64 then some (pos n) else none

abbrev pub negative : Option ℕ → Option ℤ
negative none = none
negative (some zero) = some (pos 0)
negative (some (suc n)) = if leb n max_int64 then some (negsuc n) else none

abbrev pub number : Text → Option ℕ
number [] = none
number (c ∷ s) = scan (c ∷ s) 0

-- `strconv.Atoi`: an optional sign, then at least one digit, and a value that fits 64 bits.
unfoldable pub atoi : Text → Option ℤ
unfolding scan
atoi [] = none
atoi (c ∷ s) =
    if c == b'-'
    then negative (number s)
    else if c == b'+'
    then non_negative (number s)
    else non_negative (number (c ∷ s))

-- The digits of `n` before `out`; `fuel` is at least `n`.
emit : (fuel n : ℕ) → Text → Text
emit zero n out = out
emit (suc fuel) n out =
    let longer = emit fuel (n / 10) ((b'0' + n % 10) ∷ out) in if n == 0 then out else longer

-- `%d` of `fmt.Sprintf`, of a number that is not negative.
unfoldable pub format : ℕ → Text
unfolding emit
format n = if n == 0 then b'0' ∷ [] else emit n n []

-- The parts before and behind the last `sep`.
unfoldable pub split_last : ℕ → Text → Option (Text × Text)
split_last sep [] = none
split_last sep (c ∷ s) = elim (split_last sep s) [
  | some (p, q) ↦ some (c ∷ p, q)
  | none ↦ if c == sep then some ([], s) else none
]

abbrev pub has : ℕ → Text → Bool
has c s = any (λ d. d == c) s

-- Behind the closing bracket: nothing but the colon before the port.
abbrev bracketed : Option (Text × Text) → Option Text
bracketed none = none
bracketed (some (host, [])) = none
bracketed (some (host, c ∷ port)) =
    if c == b':'
      && not (has b':' port)
      && not (has b'[' host)
      && not (has b'[' port || has b']' port)
    then some host
    else none

abbrev plain : Option (Text × Text) → Option Text
plain none = none
plain (some (host, port)) =
    if has b':' host || (has b'[' host || has b']' host) || (has b'[' port || has b']' port)
    then none
    else some host

-- The host of `net.SplitHostPort`, `none` for its errors.
unfoldable pub split_host_port : Text → Option Text
unfolding split_once split_last
split_host_port [] = none
split_host_port (c ∷ s) =
    if c == b'[' then bracketed (split_once b']' s) else plain (split_last b':' (c ∷ s))
