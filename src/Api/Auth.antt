-- ===== src/Api/Auth.antt =====
-- internal/api/http/middleware/auth.go. A header that is not there is empty.
pub mod Keys
use distributed_job_schedule.Prelude.{
  String, Bool, true, false, not, ◌||◌, Option, none, some, if◌then◌else◌,
}
use distributed_job_schedule.Strings.{
  Text, codes, is_empty, same, trim_space, equal_fold, split_once,
}

-- The headers Authorization and X-API-Key.
pub record Headers : Type 0 where
  pub authorization : Text
  pub x_api_key : Text

-- The token behind `Bearer`, where the header has two parts and the first one is that word.
abbrev pub bearer : Option (Text × Text) → Option Text
bearer none = none
bearer (some (scheme, rest)) =
    if equal_fold scheme (codes "bearer") then some (trim_space rest) else none

abbrev pub or_header : Option Text → Text → Text
or_header none v = trim_space v
or_header (some token) v = token

-- `extractAPIKey`; an empty header has no two parts.
unfoldable pub extract_api_key : Headers → Text
extract_api_key h = or_header (bearer (split_once b' ' h.authorization)) h.x_api_key

-- What `APIKeyAuth` answers in place of the next handler.
unfoldable pub refusal : Text → Headers → Option String
refusal key h =
    let provided = extract_api_key h in
    if is_empty key
    then none
    else if is_empty provided
    then some "missing API key: provide Authorization: Bearer <key> or X-API-Key header"
    else if not (same provided key)
    then some "invalid API key"
    else none
