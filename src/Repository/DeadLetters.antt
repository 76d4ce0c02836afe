-- ===== src/Repository/DeadLetters.antt =====
-- internal/repository/dead_letters.go.
pub mod Rows
use distributed_job_schedule.Prelude.{
  ℕ, String, Bool, not, Option, none, some, List, [], ◌∷◌, ◌++◌, leb, ◌==◌, if◌then◌else◌, count,
  select, find, update, any,
}
use distributed_job_schedule.Prelude.Int.{ℤ}
use distributed_job_schedule.Prelude.Sorting.{Sorter}
use distributed_job_schedule.Models.{Uuid, Time, Payload}
use distributed_job_schedule.Errors.{Result}
use distributed_job_schedule.Repository.Database.{
  Database, DeadLetter, Engine, Call, Statement, exec, with_db,
}
use distributed_job_schedule.Repository.Jobs.{page, default_limit, one_row, affected}

abbrev pub has_letter_id : Uuid → DeadLetter → Bool
has_letter_id id l = l.id == id

abbrev pub letter_at : Uuid → Database → Option DeadLetter
letter_at id db = find (has_letter_id id) db.letters

-- What `Insert` reads of the record that it is given.
pub record NewLetter : Type 0 where
  pub job_id : Uuid
  pub worker_id : Option Uuid
  pub job_type : String
  pub payload : Payload
  pub attempts : ℕ
  pub error : String

-- The columns that `Insert` leaves out take the defaults of migrations 002 and 003.
abbrev pub new_letter : Call → NewLetter → Payload → DeadLetter
new_letter c n stored = record {
  id = c.fresh;
  job_id = n.job_id;
  worker_id = n.worker_id;
  job_type = n.job_type;
  payload = stored;
  attempts = n.attempts;
  error = n.error;
  status = "OPEN";
  replayed_at = none;
  replayed_job_id = none;
  created_at = c.now;
}

unfoldable pub insert_letter : Call → NewLetter → Option Payload → Statement (Unit {0})
insert_letter c n none db = none
insert_letter c n (some stored) db =
    if any (has_letter_id c.fresh) db.letters
    then none
    else some (record db { letters = db.letters ++ new_letter c n stored ∷ [] }, tt)

-- `Insert`
unfoldable pub insert : Engine → Call → NewLetter → Database → Database × Result (Unit {0})
unfolding insert_letter
insert e c n = exec c (insert_letter c n (e.jsonb n.payload))

newest_first : DeadLetter → DeadLetter → Bool
newest_first a b = leb b.created_at a.created_at

unfoldable pub list : Engine → Call → ℤ → ℤ → Database → Database × Result (List DeadLetter)
unfolding newest_first page
list e c limit offset = exec c λ db.
    with_db db
      (page (default_limit limit) offset ((e.letter_sorter c).sort newest_first db.letters))

unfoldable pub get : Call → Uuid → Database → Database × Result DeadLetter
get c id db = one_row (exec c (λ t. some (t, letter_at id t)) db)

abbrev pub replayed : Time → Uuid → DeadLetter → DeadLetter
replayed now job_id l = record l {
  status = "REPLAYED";
  replayed_at = some now;
  replayed_job_id = some job_id;
}

-- `UPDATE dead_letters SET f WHERE id = …`
abbrev pub update_letters : Uuid → (DeadLetter → DeadLetter) → Database → Database
update_letters id f db = record db { letters = update (has_letter_id id) f db.letters }

-- `DELETE FROM dead_letters WHERE id = …`
abbrev pub delete_letters : Uuid → Database → Database
delete_letters id db = record db { letters = select (λ l. not (has_letter_id id l)) db.letters }

abbrev pub count_letters : Uuid → Database → ℕ
count_letters id db = count (has_letter_id id) db.letters

unfoldable pub mark_replayed : Call → Uuid → Uuid → Database → Database × Result (Unit {0})
mark_replayed c id job_id db =
    affected
      (exec c (λ t. some (update_letters id (replayed c.now job_id) t, count_letters id t)) db)

unfoldable pub delete : Call → Uuid → Database → Database × Result (Unit {0})
delete c id db = affected (exec c (λ t. some (delete_letters id t, count_letters id t)) db)
