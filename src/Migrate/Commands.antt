-- ===== src/Migrate/Commands.antt =====
-- What the commands of the migration program do to the schema.
use distributed_job_schedule.Prelude.{
  ◌≡◌, ◌≢◌, ◌⊎◌, refl, ap, inl, inr, true, Option, none, some, List, [], ◌∷◌, arith, Bool-cases,
}
use distributed_job_schedule.Prelude.Int.{ℤ}
use distributed_job_schedule.Errors.{Result, ok, err}
use distributed_job_schedule.Strings.{Text, codes, same, atoi}
use distributed_job_schedule.Strings.Trim.{same_iff}
use distributed_job_schedule.Config.{Environ, Config, load}
use distributed_job_schedule.Migrate.{
  Change, changed, no_change, failed, Version, version_is, nil_version, Migrator, Line,
  none_to_apply, complete, printed, command_of, migrations_path, conclude, show_version, switch,
  run, force_to, force_args, with_source, configured,
}

module _ {S : Type 0} (m : Migrator S) where
  conclude-keeps : (command : Text) (p : S × Change) → (conclude m command p).0 ≡ p.0
  conclude-keeps command (s, changed) = refl
  conclude-keeps command (s, no_change) = refl
  conclude-keeps command (s, failed) = refl

  show_version-keeps : (s : S) (v : Version) → (show_version m s v).0 ≡ s
  show_version-keeps s (version_is v d) = refl
  show_version-keeps s nil_version = refl
  show_version-keeps s Version.broken = refl

  -- What a command leaves: the schema as it was, or what the migrator's method of the command's name
  -- makes of it; `force` has one more argument, a number.
  abbrev pub IsOfCommand : List Text → S → S → Type 0
  IsOfCommand args s t =
      (t ≡ s)
      ⊎ ((command_of args ≡ codes "up") × (t ≡ (m.up s).0))
      ⊎ ((command_of args ≡ codes "down") × (t ≡ (m.down s).0))
      ⊎ ((v : Text) × (n : ℤ) × (args ≡ codes "force" ∷ v ∷ [])
          × (atoi v ≡ some n)
          × (t ≡ (m.force n s).0))

  force_to-schema :
      (o : Option ℤ) (s : S)
      → ((force_to m o s).0 ≡ s) ⊎ ((n : ℤ) × (o ≡ some n) × ((force_to m o s).0 ≡ (m.force n s).0))
  force_to-schema none s = inl refl
  force_to-schema (some n) s = inr (n, refl, refl)

  force_args-IsOfCommand :
      (args : List Text) (s : S)
      → same (command_of args) (codes "force") ≡ true
      → IsOfCommand args s (force_args m args s).0
  force_args-IsOfCommand [] s e = inl refl
  force_args-IsOfCommand (a ∷ []) s e = inl refl
  force_args-IsOfCommand (a ∷ v ∷ []) s e = elim (force_to-schema (atoi v) s) [
    | inl same_s ↦ inl same_s
    | inr (n, f, g) ↦
        inr (inr (inr (v, n, ap (λ c. c ∷ v ∷ []) ((same_iff a (codes "force")).0 e), f, g)))
  ]
  force_args-IsOfCommand (a ∷ v ∷ w ∷ args) s e = inl refl

  switch-IsOfCommand :
      (args : List Text) (s : S) → IsOfCommand args s (switch m (command_of args) args s).0
  switch-IsOfCommand args s =
      let c = command_of args in
      elim (Bool-cases (same c (codes "up"))) [
        | inl e ↦ inr (inl ((same_iff c (codes "up")).0 e, rw e (conclude-keeps c (m.up s))))
        | inr e ↦ elim (Bool-cases (same c (codes "down"))) [
          | inl f ↦
              inr (
                inr
                  (inl ((same_iff c (codes "down")).0 f, rw (e, f) (conclude-keeps c (m.down s)))))
          | inr f ↦ elim (Bool-cases (same c (codes "version"))) [
            | inl g ↦ inl (rw (e, f, g) (show_version-keeps s (m.version s)))
            | inr g ↦ elim (Bool-cases (same c (codes "force"))) [
              | inl h ↦ rw (e, f, g, h) (force_args-IsOfCommand args s h)
              | inr h ↦ inl (rw (e, f, g, h) refl)
            ]
          ]
        ]
      ]

  with_source-IsOfCommand :
      (e : Environ) (dsn : Text) (args : List Text) (s : S)
      → IsOfCommand args s (with_source m e dsn args s).0
  with_source-IsOfCommand e dsn args s = elim (Bool-cases (m.parses dsn)) [
    | inr h ↦ inl (rw h refl)
    | inl h ↦ elim (Bool-cases (m.has_driver s)) [
      | inr h' ↦ inl (rw (h, h') refl)
      | inl h' ↦ elim (Bool-cases (m.opens (migrations_path e) s)) [
        | inr h'' ↦ inl (rw (h, h', h'') refl)
        | inl h'' ↦ rw (h, h', h'') (switch-IsOfCommand args s)
      ]
    ]
  ]

  configured-IsOfCommand :
      (e : Environ) (r : Result Config) (args : List Text) (s : S)
      → IsOfCommand args s (configured m e r args s).0
  configured-IsOfCommand e (err x) args s = inl refl
  configured-IsOfCommand e (ok cfg) args s = with_source-IsOfCommand e cfg.postgres_dsn args s

-- With whatever configuration and arguments, and whatever the migrator answers, the program leaves the
-- schema as it was, or as the one method makes it that the first argument names, `up` if there is none;
-- and only with `force`, exactly one more argument that is an integer, to the version of that number.
pub run-schema :
    {S : Type 0} (m : Migrator S) (e : Environ) (args : List Text) (s : S)
    → IsOfCommand m args s (run m e args s).0
unfolding run
run-schema m e args s = configured-IsOfCommand m e (load e) args s

-- With a configuration that is accepted and a migrator that opens, `force` with a number says that it
-- is complete, also if the migrator's `Force` has failed.
pub run-force :
    {S : Type 0} (m : Migrator S) (e : Environ) (cfg : Config) (v : Text) (n : ℤ) (s : S)
    → load e ≡ ok cfg
    → m.parses cfg.postgres_dsn ≡ true
    → m.has_driver s ≡ true
    → m.opens (migrations_path e) s ≡ true
    → atoi v ≡ some n
    → (m.force n s).1 ≡ failed
    → run m e (codes "force" ∷ v ∷ []) s ≡ ((m.force n s).0, printed (complete (codes "force")))
unfolding run
run-force m e cfg v n s loads parses driver opens number fails =
    rw (loads, parses, driver, opens, number) refl

module _ {S : Type 0} (m : Migrator S) (l : Line) where
  concluded : (p : S × Change) → (conclude m (codes "up") p).1 ≡ printed l → p.1 ≢ failed
  concluded (s, failed) h e = ground arith
  concluded (s, changed) h e = ground arith
  concluded (s, no_change) h e = ground arith

  module _
      (settled : (s' : S)
        → (m.up s').1 ≢ failed
        → m.up (m.up s').0 ≡ ((m.up s').0, no_change)) where
    switch-twice :
        (s : S)
        → (conclude m (codes "up") (m.up s)).1 ≡ printed l
        → conclude m (codes "up") (m.up (conclude m (codes "up") (m.up s)).0)
          ≡ ((conclude m (codes "up") (m.up s)).0, printed none_to_apply)
    switch-twice s h =
        rw (conclude-keeps m (codes "up") (m.up s), settled s (concluded (m.up s) h)) refl

    module _ (e : Environ) (s : S) (driver : (s' : S) → m.has_driver s' ≡ m.has_driver s)
        (opens : (s' : S) → m.opens (migrations_path e) s' ≡ m.opens (migrations_path e) s) where
      with_source-twice :
          (dsn : Text)
          → (with_source m e dsn [] s).1 ≡ printed l
          → with_source m e dsn [] (with_source m e dsn [] s).0
            ≡ ((with_source m e dsn [] s).0, printed none_to_apply)
      with_source-twice dsn first = elim (Bool-cases (m.parses dsn)) [
        | inr h ↦ absurd (ground arith)
        | inl h ↦ elim (Bool-cases (m.has_driver s)) [
          | inr h' ↦ absurd (ground arith)
          | inl h' ↦ elim (Bool-cases (m.opens (migrations_path e) s)) [
            | inr h'' ↦ absurd (ground arith)
            | inl h'' ↦
                let t = (conclude m (codes "up") (m.up s)).0 in
                rw (h, h', h'') (rw (driver t, h', opens t, h'') (switch-twice s (ground arith)))
          ]
        ]
      ]

      configured-twice :
          (r : Result Config)
          → (configured m e r [] s).1 ≡ printed l
          → configured m e r [] (configured m e r [] s).0
            ≡ ((configured m e r [] s).0, printed none_to_apply)
      configured-twice (err x) first = ground arith
      configured-twice (ok cfg) first = with_source-twice cfg.postgres_dsn first

-- Where `up`, given no command, has printed that it is complete or that there is nothing to apply, a
-- second run prints that there is nothing to apply and leaves the schema as it is: for a migrator whose
-- `Up` has nothing more to do once it has not failed, and over which the drivers open as before.
pub run-twice :
    {S : Type 0} (m : Migrator S) (e : Environ) (s : S) (l : Line)
    → ((s' : S) → (m.up s').1 ≢ failed → m.up (m.up s').0 ≡ ((m.up s').0, no_change))
    → ((s' : S) → m.has_driver s' ≡ m.has_driver s)
    → ((s' : S) → m.opens (migrations_path e) s' ≡ m.opens (migrations_path e) s)
    → (run m e [] s).1 ≡ printed l
    → run m e [] (run m e [] s).0 ≡ ((run m e [] s).0, printed none_to_apply)
unfolding run
run-twice m e s l settled driver opens first =
    configured-twice m l settled e s driver opens (load e) first
