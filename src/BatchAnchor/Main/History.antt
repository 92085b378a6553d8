-- ===== src/BatchAnchor/Main/History.antt =====
-- Invocations of the tool, one after the other, on one database.
use logos_whistleblower.Common.{
  ℕ, ◌≡◌, refl, sym, ◌∙◌, ap, subst, Option, none, some, Outcome, ok, err, panicked, map_err,
}
use logos_whistleblower.Common.Effects.{>>=-keeps}
use logos_whistleblower.Indexer.Types.{Error}
use logos_whistleblower.Indexer.Host.{Crates}
use logos_whistleblower.BatchAnchor.Types.{Sqlite, Outside, Machine}
use logos_whistleblower.BatchAnchor.Store.{load_cursor, open_db, sql_error}
use logos_whistleblower.BatchAnchor.Run.{RunArgs, gets_db, run}
use logos_whistleblower.BatchAnchor.Main.{
  Cli, Commands, run_command, status_command, cfg_of, status, run_subcommand, opened, main,
}

-- What becomes of a database by invocations that end, each with an allowed command line and in a
-- world of its own.
pub data History (K : Crates) (S : Sqlite) (O : Outside) (Allowed : Cli → Type 0)
    : S.Db → S.Db → Type 0 where
  nothing : {db : S.Db} → History K S O Allowed db db
  invoked :
      {db db' : S.Db} (fuel : ℕ) (cli : Cli) (w : O.World) (r : Outcome Error (Unit {0}))
      (m : Machine S O)
      → Allowed cli
      → main K S O fuel cli (record { db = db; world = w }) ≡ some (r, m)
      → History K S O Allowed m.db db'
      → History K S O Allowed db db'

module _ (K : Crates) (S : Sqlite) (O : Outside) (Allowed : Cli → Type 0) where
  -- The database that an invocation leaves, if it ends.
  abbrev left : S.Db → Option (Outcome Error (Unit {0}) × Machine S O) → S.Db
  left db none = db
  left db (some (r, m)) = m.db

  pub status-db : (m : Machine S O) → (status S O m).1.db ≡ m.db
  unfolding status
  status-db m =
      >>=-keeps (λ (v : Machine S O). v.db ≡ m.db)
        (gets_db (λ db. map_err sql_error (S.count_all db))) _ m refl
        (λ _ _.
          >>=-keeps (λ (v : Machine S O). v.db ≡ m.db) (gets_db (load_cursor S)) _ m refl
            (λ _ _. refl))

  -- What holds of a database holds after an invocation if opening and running keep it.
  module _ (P : S.Db → Type 0)
      (opens : (cli : Cli) → Allowed cli → (db : S.Db) → P db → P (open_db S cli.state_db db).1)
      (runs : (cli : Cli)
        → Allowed cli
        → (args : RunArgs) (fuel : ℕ) (m m' : Machine S O) (r : Outcome Error (Unit {0})) → P m.db
        → cli.command ≡ run_command args
        → run K S O (cfg_of cli) args fuel m ≡ some (r, m')
        → P m'.db) where
    subcommand-keeps :
        (fuel : ℕ) (cli : Cli) (command : Commands) (m m' : Machine S O)
        (r : Outcome Error (Unit {0}))
        → Allowed cli
        → P m.db
        → cli.command ≡ command
        → run_subcommand K S O fuel command (cfg_of cli) m ≡ some (r, m')
        → P m'.db
    subcommand-keeps fuel cli (run_command args) m m' r a p e h = runs cli a args fuel m m' r p e h
    subcommand-keeps fuel cli status_command m m' r a p e h =
        subst P (sym (status-db m) ∙ ap (left m.db) h) p

    opened-keeps :
        (fuel : ℕ) (opening : Outcome Error (Unit {0})) (cli : Cli) (m m' : Machine S O)
        (r : Outcome Error (Unit {0}))
        → Allowed cli
        → P m.db
        → opened K S O fuel opening cli m ≡ some (r, m')
        → P m'.db
    opened-keeps fuel (ok _) cli m m' r a p h =
        subcommand-keeps fuel cli cli.command m m' r a p refl h
    opened-keeps fuel (err e) cli m m' r a p h = subst P (ap (left m.db) h) p
    opened-keeps fuel panicked cli m m' r a p h = subst P (ap (left m.db) h) p

    pub main-keeps :
        (fuel : ℕ) (cli : Cli) (m m' : Machine S O) (r : Outcome Error (Unit {0}))
        → Allowed cli
        → P m.db
        → main K S O fuel cli m ≡ some (r, m')
        → P m'.db
    unfolding main
    main-keeps fuel cli m m' r a p h =
        opened-keeps fuel (open_db S cli.state_db m.db).0 cli _ m' r a (opens cli a m.db p) h

    pub History-keeps : {db db' : S.Db} → History K S O Allowed db db' → P db → P db'
    History-keeps nothing p = p
    History-keeps (invoked fuel cli w r m a h rest) p =
        History-keeps rest (main-keeps fuel cli _ m r a p h)
