-- ===== src/Api/Paging.antt =====
-- The parameters `limit` and `offset`, and the filters, of the handlers that list.
use text.Mathlib.Text.{◌==◌ as str_eq}
use distributed_job_schedule.Prelude.{String, Option, none, some, if◌then◌else◌}
use distributed_job_schedule.Prelude.Int.{ℤ, pos, leb_ℤ, ltb_ℤ}
use distributed_job_schedule.Strings.{Text, atoi}

-- The parameters of a URL, empty if they are not there.
pub record Query : Type 0 where
  pub limit : Text
  pub offset : Text
  pub status : String
  pub type : String

abbrev pub some_text : String → Option String
some_text v = if str_eq v "" then none else some v

abbrev pub limit_of : Option ℤ → ℤ
limit_of none = pos 50
limit_of (some n) = if leb_ℤ n (pos 0) then pos 50 else n

abbrev pub offset_of : Option ℤ → ℤ
offset_of none = pos 0
offset_of (some n) = if ltb_ℤ n (pos 0) then pos 0 else n

-- `strconv.Atoi` refuses the empty text, too.
abbrev pub page_limit : Query → ℤ
page_limit q = limit_of (atoi q.limit)

abbrev pub page_offset : Query → ℤ
page_offset q = offset_of (atoi q.offset)
