-- ===== src/BatchAnchor/Main/Lasting.antt =====
-- What lasts from one invocation of the tool to the next.
use logos_whistleblower.Common.{
  ℕ, ◌≤◌, ◌≡◌, sym, subst, ◌∙◌, ap, List, ◌++◌, append_assoc, All, All-append, true, false, Str,
  codes, lines, strip_prefix, Outcome, ok, some, arith,
}
use native.Mathlib.Nat.{le_trans}
use logos_whistleblower.Indexer.Types.{Error}
use logos_whistleblower.Indexer.Host.{Crates, U64IsLawful}
use logos_whistleblower.BatchAnchor.Types.{Sqlite, Outside, Machine, DeliveryMsg, text}
use logos_whistleblower.BatchAnchor.Store.{is_anchored, load_cursor, open_db}
use logos_whistleblower.BatchAnchor.Store.Laws.{IsLawful}
use logos_whistleblower.BatchAnchor.Store.Opening.{
  OpenIsLawful, load_cursor-lt, load_cursor-open_db, is_anchored-open_db, open_db-At,
}
use logos_whistleblower.BatchAnchor.Delivery.Queue.{Holds, Rising, pending, advance-append}
use logos_whistleblower.BatchAnchor.Submit.{advance}
use logos_whistleblower.BatchAnchor.Run.{RunArgs, run}
use logos_whistleblower.BatchAnchor.Run.Connected.{run-At}
use logos_whistleblower.BatchAnchor.Run.Since.{IsSince-Anchors, run-IsSince}
use logos_whistleblower.BatchAnchor.Run.Anchors.{Settled}
use logos_whistleblower.BatchAnchor.Run.Complete.{run-Settled}
use logos_whistleblower.BatchAnchor.Run.Complete.Done.{Settled-Anchors}
use logos_whistleblower.BatchAnchor.Main.{Cli, run_command, cfg_of}
use logos_whistleblower.BatchAnchor.Main.History.{History, History-keeps}

module _ (K : Crates) (S : Sqlite) (O : Outside) (L : IsLawful S) (file : Str)
    (opening : OpenIsLawful S file) (u64 : U64IsLawful K) where
  -- The database remembers the cursor and the CIDs of `old`.
  abbrev pub Remembers : S.Db → ℕ → S.Db → Type 0
  Remembers old start db =
      ((c : ℕ) × (load_cursor S db ≡ ok c) × (start ≤ c))
      × ((cid : Str) → is_anchored S old cid ≡ ok true → is_anchored S db cid ≡ ok true)

  open_db-Remembers :
      (old : S.Db) (start : ℕ) (db : S.Db)
      → opening.At db
      → Remembers old start db
      → Remembers old start (open_db S file db).1
  open_db-Remembers old start db at ((c, loaded, le), known) = (
    (c, load_cursor-open_db S file opening db at loaded, le),
    λ cid a. is_anchored-open_db S file opening db cid at (known cid a),
  )

  run-Remembers :
      (old : S.Db) (start : ℕ) (cli : Cli) (args : RunArgs) (fuel : ℕ) (m m' : Machine S O)
      (r : Outcome Error (Unit {0}))
      → Remembers old start m.db
      → run K S O (cfg_of cli) args fuel m ≡ some (r, m')
      → Remembers old start m'.db
  run-Remembers old start cli args fuel m m' r ((c, loaded, le), known) h =
      let since =
        run-IsSince K S O (cfg_of cli) args fuel c m m' r u64 L loaded
          (load_cursor-lt S m.db loaded) h in
      let (c', loaded', le') = since.cursor in
      ((c', loaded', le_trans le le'), λ cid a. IsSince-Anchors S since cid (known cid a))

-- A command line whose database is that of `file`.
abbrev pub UsesDatabase : Str → Cli → Type 0
UsesDatabase file cli = cli.state_db ≡ file

-- Where SQLite keeps its laws and sequence numbers are `u64`s: after any invocations of the tool on
-- the database of one file, with whatever subcommands, sources and failures, each of which ends, with
-- success or not, the cursor is not below the one that was loaded before them, and every CID that
-- was anchored is anchored.
pub History-Remembers :
    (K : Crates) (S : Sqlite) (O : Outside) (file : Str) (db db' : S.Db) (start : ℕ)
    (opening : OpenIsLawful S file)
    → IsLawful S
    → U64IsLawful K
    → opening.At db
    → load_cursor S db ≡ ok start
    → History K S O (UsesDatabase file) db db'
    → ((c : ℕ) × (load_cursor S db' ≡ ok c) × (start ≤ c))
      × ((cid : Str) → is_anchored S db cid ≡ ok true → is_anchored S db' cid ≡ ok true)
History-Remembers K S O file db db' start opening L u64 at loaded h =
    (History-keeps K S O (UsesDatabase file) Kept
      (λ cli uses d (here, p).
        subst (λ path. Kept (open_db S path d).1) (sym uses)
          (
            open_db-At S file opening d here,
            open_db-Remembers K S O L file opening u64 db start d here p,
          ))
      (λ cli _ args fuel m m' r (here, p) _ ran. (
        run-At K S O (cfg_of cli) args file opening fuel m m' r here ran,
        run-Remembers K S O L file opening u64 db start cli args fuel m m' r p ran,
      ))
      h (at, ((start, loaded, omega arith), λ cid a. a))).1
  where
    Kept : S.Db → Type 0
    Kept d = opening.At d × Remembers K S O L file opening u64 db start d

-- A command line that is no dry run, with the queue file `path` as its source and the database of
-- `file`.
abbrev pub ReadsFile : Str → Str → Cli → Type 0
ReadsFile file path cli =
    UsesDatabase file cli
    × (strip_prefix (codes "file:") cli.delivery_source ≡ some path)
    × ((args : RunArgs) → cli.command ≡ run_command args → args.dry_run ≡ false)

module _ (K : Crates) (S : Sqlite) (ms : List DeliveryMsg) (start : ℕ) where
  -- The messages of the file behind `start` are settled up to the saved cursor.
  abbrev pub Progressed : S.Db → Type 0
  Progressed db =
      (c : ℕ) × (seen : List DeliveryMsg) × (load_cursor S db ≡ ok c)
      × (c ≡ advance start seen)
      × (pending start ms ≡ seen ++ pending c ms)
      × All (Settled K S db) seen

  pub Progressed-open_db :
      (file : Str) (opening : OpenIsLawful S file) (db : S.Db)
      → opening.At db
      → Progressed db
      → Progressed (open_db S file db).1
  Progressed-open_db file opening db at (c, seen, loaded, reached, split, settled) = (
    c,
    seen,
    load_cursor-open_db S file opening db at loaded,
    reached,
    split,
    Settled-Anchors K S db _ seen (λ cid a. is_anchored-open_db S file opening db cid at a) settled,
  )

  pub run-Progressed :
      (O : Outside) (cli : Cli) (args : RunArgs) (path contents : Str) (fuel : ℕ)
      (m m' : Machine S O) (r : Outcome Error (Unit {0}))
      → IsLawful S
      → U64IsLawful K
      → args.dry_run ≡ false
      → strip_prefix (codes "file:") cli.delivery_source ≡ some path
      → ((w : O.World) → O.read_to_string w path ≡ text contents)
      → Holds K (lines contents) ms
      → Rising ms
      → Progressed m.db
      → run K S O (cfg_of cli) args fuel m ≡ some (r, m')
      → Progressed m'.db
  run-Progressed O cli args path contents fuel m m' r L u64 real file still holds rising
        (c, seen, loaded, reached, split, settled) h =
      let fits = load_cursor-lt S m.db loaded in
      let (c', more, loaded', reached', split', settled') =
        run-Settled K S O (cfg_of cli) args ms path contents fuel c m m' r L u64 real file still
          holds rising loaded fits h in
      let since = run-IsSince K S O (cfg_of cli) args fuel c m m' r u64 L loaded fits h in
      let old = Settled-Anchors K S m.db m'.db seen (IsSince-Anchors S since) settled in
      (
        c',
        seen ++ more,
        loaded',
        reached' ∙ ap (λ a. advance a more) reached ∙ sym (advance-append start seen more),
        split ∙ ap (λ l. seen ++ l) split' ∙ sym (append_assoc seen more _),
        All-append _ seen more old settled',
      )
