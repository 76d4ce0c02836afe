-- ===== src/Api/Auth/Keys.antt =====
-- Which keys open the API.
use distributed_job_schedule.Prelude.{
  ◌≡◌, ◌≢◌, ◌↔◌, inl, inr, refl, ap, sym, ◌∙◌, true, false, Option, none, some, [], ◌∷◌, ◌++◌,
  arith, Bool-cases,
}
use distributed_job_schedule.Strings.{
  Text, codes, is_empty, trim_space, equal_fold, split_once, has,
}
use distributed_job_schedule.Strings.Trim.{same_iff, trim_space_idempotent}
use distributed_job_schedule.Strings.Split.{split_once-append}
use distributed_job_schedule.Api.Auth.{Headers, bearer, or_header, extract_api_key, refusal}

or_header-trimmed :
    (o : Option (Text × Text)) (v : Text)
    → trim_space (or_header (bearer o) v) ≡ or_header (bearer o) v
or_header-trimmed none v = trim_space_idempotent v
or_header-trimmed (some (scheme, rest)) v = elim (Bool-cases (equal_fold scheme (codes "bearer"))) [
  | inl e ↦ rw e (trim_space_idempotent rest)
  | inr e ↦ rw e (trim_space_idempotent v)
]

extract_api_key-trimmed : (h : Headers) → trim_space (extract_api_key h) ≡ extract_api_key h
unfolding extract_api_key
extract_api_key-trimmed h = or_header-trimmed (split_once b' ' h.authorization) h.x_api_key

refusal_iff :
    (key : Text) (h : Headers)
    → is_empty key ≡ false
    → (refusal key h ≡ none) ↔ (extract_api_key h ≡ key)
unfolding refusal
refusal_iff key h e = ground (arith, same_iff (extract_api_key h) key)

bearer-key :
    (scheme token v : Text)
    → has b' ' scheme ≡ false
    → equal_fold scheme (codes "bearer") ≡ true
    → extract_api_key (record { authorization = scheme ++ b' ' ∷ token; x_api_key = v })
      ≡ trim_space token
unfolding extract_api_key
bearer-key scheme token v lacks fold = rw (split_once-append b' ' scheme token lacks, fold)

header-key :
    (v : Text) → extract_api_key (record { authorization = []; x_api_key = v }) ≡ trim_space v
unfolding extract_api_key split_once
header-key v = refl

-- Where a key is configured, a request passes with a token behind "Bearer", in whatever case, exactly
-- if the trimmed token is the key, whatever the header X-API-Key says; and without a header
-- Authorization exactly if the trimmed X-API-Key is the key.
pub refusal-bearer :
    (key scheme token v : Text)
    → is_empty key ≡ false
    → has b' ' scheme ≡ false
    → equal_fold scheme (codes "bearer") ≡ true
    → ((refusal key (record { authorization = scheme ++ b' ' ∷ token; x_api_key = v }) ≡ none)
        ↔ (trim_space token ≡ key))
      × ((refusal key (record { authorization = []; x_api_key = v }) ≡ none) ↔ (trim_space v ≡ key))
refusal-bearer key scheme token v some_key lacks fold =
    let with_bearer : Headers = record { authorization = scheme ++ b' ' ∷ token; x_api_key = v } in
    let with_header : Headers = record { authorization = []; x_api_key = v } in
    (
      rw (← bearer-key scheme token v lacks fold) (refusal_iff key with_bearer some_key),
      rw (← header-key v) (refusal_iff key with_header some_key),
    )

-- A configured key with white space at an end opens to no request: what a request offers is trimmed,
-- the key is not.
pub refusal-untrimmed :
    (key : Text) (h : Headers) → is_empty key ≡ false → trim_space key ≢ key → refusal key h ≢ none
refusal-untrimmed key h some_key untrimmed passes =
    let offered = (refusal_iff key h some_key).0 passes in
    untrimmed (ap trim_space (sym offered) ∙ extract_api_key-trimmed h ∙ offered)
