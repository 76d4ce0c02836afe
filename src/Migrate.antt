-- ===== src/Migrate.antt =====
-- cmd/migrate/main.go: `run`. The migrations themselves are the library golang-migrate's, and the
-- drivers that it is given are pgx's: what these answer is `Migrator`.
pub mod Commands
use distributed_job_schedule.Prelude.{
  ℕ, Bool, true, false, Option, none, some, List, [], ◌∷◌, if◌then◌else◌,
}
use distributed_job_schedule.Prelude.Int.{ℤ}
use distributed_job_schedule.Errors.{Result, ok, err, Error}
use distributed_job_schedule.Strings.{Text, codes, is_empty, same, atoi}
use distributed_job_schedule.Config.{Environ, Config, or_default, load}

-- What `Up`, `Down` and `Force` return: nil, `migrate.ErrNoChange` or another error.
pub data Change : Type 0 where
  changed no_change failed : Change

-- What `Version` returns: a version and whether it is dirty, `migrate.ErrNilVersion` or another error.
pub data Version : Type 0 where
  version_is : (version : ℕ) → (dirty : Bool) → Version
  nil_version broken : Version

-- The calls of libraries, over the state `S` of the database's schema: whether the data source can be
-- parsed, a driver and a migrator over the path of the migrations be made; and the migrator's methods.
pub record Migrator (S : Type 0) : Type 0 where
  pub parses : Text → Bool
  pub has_driver : S → Bool
  pub opens : Text → S → Bool
  pub up : S → S × Change
  pub down : S → S × Change
  pub force : ℤ → S → S × Change
  pub version : S → Version

-- The errors that `run` returns.
pub data Failure : Type 0 where
  bad_config : Error → Failure
  bad_url no_driver no_migrator usage invalid_version unknown_command migration_failed : Failure

-- The line that `run` prints where it returns nil.
pub data Line : Type 0 where
  none_applied none_to_apply : Line
  current : (version : ℕ) → (dirty : Bool) → Line
  complete : Text → Line

pub data Ran : Type 0 where
  printed : Line → Ran
  returned : Failure → Ran

abbrev pub command_of : List Text → Text
command_of [] = codes "up"
command_of (a ∷ args) = a

abbrev pub migrations_path : Environ → Text
migrations_path e = or_default (e "MIGRATIONS_PATH") (codes "migrations")

module _ {S : Type 0} (m : Migrator S) where
  -- What is behind the switch.
  abbrev pub conclude : Text → S × Change → S × Ran
  conclude command (s, no_change) = (s, printed none_to_apply)
  conclude command (s, failed) = (s, returned migration_failed)
  conclude command (s, changed) = (s, printed (complete command))

  abbrev pub show_version : S → Version → S × Ran
  show_version s nil_version = (s, printed none_applied)
  show_version s broken = (s, returned migration_failed)
  show_version s (version_is v dirty) = (s, printed (current v dirty))

  -- The result of `Force` goes to the `err` of the case, which hides the one that is read below it.
  abbrev pub force_to : Option ℤ → S → S × Ran
  force_to none s = (s, returned invalid_version)
  force_to (some v) s = conclude (codes "force") ((m.force v s).0, changed)

  abbrev pub force_args : List Text → S → S × Ran
  force_args (_ ∷ v ∷ []) s = force_to (atoi v) s
  force_args _ s = (s, returned usage)

  -- The switch.
  abbrev pub switch : Text → List Text → S → S × Ran
  switch command args s =
      if same command (codes "up")
      then conclude command (m.up s)
      else if same command (codes "down")
      then conclude command (m.down s)
      else if same command (codes "version")
      then show_version s (m.version s)
      else if same command (codes "force")
      then force_args args s
      else (s, returned unknown_command)

  -- Making the driver also creates the table of versions of the library, which is not in the state.
  abbrev pub with_source : Environ → Text → List Text → S → S × Ran
  with_source e dsn args s =
      if m.parses dsn
      then if m.has_driver s
        then if m.opens (migrations_path e) s
          then switch (command_of args) args s
          else (s, returned no_migrator)
        else (s, returned no_driver)
      else (s, returned bad_url)

  abbrev pub configured : Environ → Result Config → List Text → S → S × Ran
  configured e (err x) args s = (s, returned (bad_config x))
  configured e (ok cfg) args s = with_source e cfg.postgres_dsn args s

  -- `run`
  unfoldable pub run : Environ → List Text → S → S × Ran
  unfolding load
  run e args s = configured e (load e) args s
