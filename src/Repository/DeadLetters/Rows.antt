-- ===== src/Repository/DeadLetters/Rows.antt =====
-- What each statement on the table of dead letters does to the row with a given primary key.
use mathlib.Core.Option
use distributed_job_schedule.Prelude.{
  ◌≡◌, refl, inl, inr, Bool, true, false, not, Option, none, some, List, [], ◌∷◌, ◌==◌,
  if◌then◌else◌, arith, select, find, any, Option-cases, find-update, find-append_none,
  find-append_some, find-passes, find-count_pos, find-none-count, any-count,
}
use distributed_job_schedule.Models.{Uuid, Payload}
use distributed_job_schedule.Errors.{ok, err, not_found}
use distributed_job_schedule.Repository.Database.{Database, DeadLetter, Engine, Call, reachable}
use distributed_job_schedule.Repository.Jobs.Rows.{found}
use distributed_job_schedule.Repository.DeadLetters.{
  has_letter_id, letter_at, NewLetter, new_letter, insert, replayed, mark_replayed, delete,
  count_letters,
}

abbrev pub is_there : Option DeadLetter → Bool
is_there none = false
is_there (some l) = true

counted :
    (id : Uuid) (db : Database)
    → (if count_letters id db == 0 then err not_found else ok tt)
      ≡ found (is_there (letter_at id db))
counted id db = elim (Option-cases (letter_at id db)) [
  | inl absent ↦ ground (arith, find-none-count (has_letter_id id) db.letters absent)
  | inr (l, there) ↦ ground (
    arith,
    find-count_pos (has_letter_id id) (has_letter_id id) db.letters l there
        (find-passes (has_letter_id id) db.letters l there),
  )
]

deleted :
    (i id : Uuid) (letters : List DeadLetter)
    → find (has_letter_id i) (select (λ l. not (has_letter_id id l)) letters)
      ≡ (if i == id then none else find (has_letter_id i) letters)
deleted i id [] = ground arith
deleted i id (l ∷ letters) = ground (arith, deleted i id letters)

-- `Delete` over a connection that holds: the dead letter with the id is gone, every other one stays as
-- it was, and the answer is `ErrNotFound` exactly if there was none.
pub delete_lem :
    (c : Call) (id : Uuid) (db : Database)
    → c.link ≡ reachable
    → let (db', r) = delete c id db in
      (r ≡ found (is_there (letter_at id db)))
      × ((i : Uuid) → letter_at i db' ≡ (if i == id then none else letter_at i db))
unfolding delete
delete_lem c id db up = rw up (counted id db, λ i. deleted i id db.letters)

-- `MarkReplayed` over a connection that holds: the dead letter with the id becomes REPLAYED, now, into
-- the given job; every other one stays as it was; and the answer is `ErrNotFound` exactly if there was
-- none.
pub mark_replayed_lem :
    (c : Call) (id job_id : Uuid) (db : Database)
    → c.link ≡ reachable
    → let (db', r) = mark_replayed c id job_id db in
      (r ≡ found (is_there (letter_at id db)))
      × ((i : Uuid)
          → letter_at i db' ≡ (
              if i == id
              then Option.map (replayed c.now job_id) (letter_at id db)
              else letter_at i db))
unfolding mark_replayed
mark_replayed_lem c id job_id db up = rw up (
  counted id db,
  λ i. elim (Option-cases (letter_at i db)) [
    | inl absent ↦
        rw
          (find-update (has_letter_id i) (has_letter_id id) (replayed c.now job_id) db.letters
            (λ l. refl))
          (ground arith)
    | inr (l, there) ↦
        rw
          (
            find-update (has_letter_id i) (has_letter_id id) (replayed c.now job_id) db.letters
                (λ l. refl),
            there,
          )
          (ground (arith, find-passes (has_letter_id i) db.letters l there))
  ],
)

-- `Insert` over a connection that holds, under a fresh primary key and for a payload that is JSON: the
-- new dead letter is OPEN and holds what it was given, and every other one stays as it was.
pub insert_lem :
    (e : Engine) (c : Call) (n : NewLetter) (stored : Payload) (db : Database)
    → c.link ≡ reachable
    → e.jsonb n.payload ≡ some stored
    → any (has_letter_id c.fresh) db.letters ≡ false
    → let (db', r) = insert e c n db in
      (r ≡ ok tt)
      × ((i : Uuid)
          → letter_at i db'
            ≡ (if i == c.fresh then some (new_letter c n stored) else letter_at i db))
unfolding insert
insert_lem e c n stored db up json free =
    rw (up, json, free)
      (
        refl,
        λ i. elim (Option-cases (letter_at i db)) [
          | inl absent ↦
              rw
                (
                  find-append_none (has_letter_id i) db.letters (new_letter c n stored ∷ []) absent,
                  absent,
                )
                (ground arith)
          | inr (l, there) ↦
              rw
                (
                  find-append_some (has_letter_id i) db.letters (new_letter c n stored ∷ []) l
                      there,
                  there,
                )
                (ground (
                  arith,
                  find-passes (has_letter_id i) db.letters l there,
                  any-count (has_letter_id c.fresh) db.letters free,
                  find-count_pos (has_letter_id i) (has_letter_id c.fresh) db.letters l there,
                ))
        ],
      )
