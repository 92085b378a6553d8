-- ===== src/BatchAnchor/Main.antt =====
-- batch-anchor-cli/src/main.rs: the command line, `status` and `main`.
pub mod History
pub mod Lasting
pub mod Growing
use logos_whistleblower.Common.{
  false, ℕ, Option, some, Str, codes, to_string, ◌++◌, Outcome, ok, err, panicked, map_err,
}
use logos_whistleblower.Common.Effects.{Action, effect, ◌>>=◌}
use logos_whistleblower.Indexer.Types.{Error, unwrap_or}
use logos_whistleblower.Indexer.Host.{Crates}
use logos_whistleblower.BatchAnchor.Types.{Sqlite, Outside, Machine, Cfg}
use logos_whistleblower.BatchAnchor.Store.{load_cursor, sql_error, open_db}
use logos_whistleblower.BatchAnchor.Run.{RunArgs, on_db, on_world, gets_db, run}

pub data Commands : Type 0 where
  run_command : RunArgs → Commands
  status_command : Commands

-- What `Cli::parse` gives.
pub record Cli : Type 0 where
  pub delivery_source : Str
  pub spel_bin : Str
  pub idl : Str
  pub workdir : Str
  pub state_db : Str
  pub command : Commands

-- The options that are not given, by the variable `SPEL_BIN` of the environment.
abbrev pub default_cli : Option Str → Commands → Cli
default_cli spel_bin command = record {
  delivery_source = codes "file:./delivery-queue.jsonl";
  spel_bin = unwrap_or spel_bin (codes "spel");
  idl = codes "cid-registry/cid-registry.idl.json";
  workdir = codes ".";
  state_db = codes "whistleblower-state.db";
  command = command;
}

abbrev pub default_run : RunArgs
default_run = record {
  topic = codes "whistleblower/v1/documents";
  batch_size = 50;
  max_batches = 0;
  dry_run = false;
  once = false;
}

abbrev pub cfg_of : Cli → Cfg
cfg_of cli = record {
  delivery_source = cli.delivery_source;
  spel_bin = cli.spel_bin;
  idl = cli.idl;
  workdir = cli.workdir;
}

abbrev pub status_line : ℕ → ℕ → Str
status_line count cursor =
    codes "anchored: " ++ (to_string count ++ (codes " CIDs, cursor: " ++ to_string cursor))

module _ (S : Sqlite) (O : Outside) where
  unfoldable pub status : Action (Machine S O) Error (Unit {0})
  status = do
    count ← gets_db (λ db. map_err sql_error (S.count_all db))
    cursor ← gets_db (load_cursor S)
    on_world (effect (O.print (status_line count cursor)))

module _ (K : Crates) (S : Sqlite) (O : Outside) (fuel : ℕ) where
  -- The subcommand; a `run` may need more fuel than there is.
  abbrev pub run_subcommand :
      Commands → Cfg → Machine S O → Option (Outcome Error (Unit {0}) × Machine S O)
  run_subcommand (run_command args) cfg m = run K S O cfg args fuel m
  run_subcommand status_command cfg m = some (status S O m)

  abbrev pub opened :
      Outcome Error (Unit {0}) → Cli → Machine S O → Option (Outcome Error (Unit {0}) × Machine S O)
  opened (ok _) cli m = run_subcommand cli.command (cfg_of cli) m
  opened (err e) cli m = some (err e, m)
  opened panicked cli m = some (panicked, m)

  unfoldable pub main : Cli → Machine S O → Option (Outcome Error (Unit {0}) × Machine S O)
  unfolding open_db status run
  main cli m = let (r, m') = on_db (open_db S cli.state_db) m in opened r cli m'
