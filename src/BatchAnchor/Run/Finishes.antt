-- ===== src/BatchAnchor/Run/Finishes.antt =====
-- Runs with `--once`, one after another, until the queue file is done.
use mathlib.Core.Option.{some-injective}
use logos_whistleblower.Common.{
  ℕ, zero, suc, ◌≤◌, ◌≡◌, refl, sym, ap, subst, List, [], true, false, Option, none, some, Str,
  codes, lines, strip_prefix, length, length-append, All, All-append, Outcome, ok, arith,
}
use logos_whistleblower.Registry.Types.{max_batch_size}
use logos_whistleblower.Indexer.Types.{Error}
use logos_whistleblower.Indexer.Host.{Crates, U64IsLawful}
use logos_whistleblower.BatchAnchor.Types.{Sqlite, Outside, Machine, Cfg, DeliveryMsg, text}
use logos_whistleblower.BatchAnchor.Store.{load_cursor}
use logos_whistleblower.BatchAnchor.Store.Laws.{IsLawful}
use logos_whistleblower.BatchAnchor.Store.Opening.{load_cursor-lt}
use logos_whistleblower.BatchAnchor.Delivery.Queue.{Holds, Rising, pending}
use logos_whistleblower.BatchAnchor.Delivery.Drain.{length-nil}
use logos_whistleblower.BatchAnchor.Submit.{advance}
use logos_whistleblower.BatchAnchor.Run.{RunArgs, run}
use logos_whistleblower.BatchAnchor.Run.Anchors.{Settled}
use logos_whistleblower.BatchAnchor.Run.Since.{IsSince-Anchors, run-IsSince}
use logos_whistleblower.BatchAnchor.Run.Complete.Done.{Anchors, Settled-Anchors}
use logos_whistleblower.BatchAnchor.Run.Succeeds.{Works}
use logos_whistleblower.BatchAnchor.Run.Advances.{run-advances}

module _ (K : Crates) (S : Sqlite) (O : Outside) (cli : Cfg) (args : RunArgs) where
  -- What follows a run, whatever its result is.
  abbrev pub after_run :
      Option (Outcome Error (Unit {0}) × Machine S O)
      → (Machine S O → Option (Machine S O))
      → Option (Machine S O)
  after_run none rest = none
  after_run (some (r, m)) rest = rest m

  -- `n` runs, each of one round.
  pub runs : ℕ → Machine S O → Option (Machine S O)
  runs zero m = some m
  runs (suc n) m = after_run (run K S O cli args 1 m) (runs n)

  -- What a run keeps, all of them keep.
  after_run-keeps :
      (P : Machine S O → Type 0) (end : Option (Outcome Error (Unit {0}) × Machine S O))
      (rest : Machine S O → Option (Machine S O)) (m' : Machine S O)
      → ((r : Outcome Error (Unit {0})) (v : Machine S O) → end ≡ some (r, v) → P v)
      → ((v : Machine S O) → P v → rest v ≡ some m' → P m')
      → after_run end rest ≡ some m'
      → P m'
  after_run-keeps P none rest m' first later h = cc
  after_run-keeps P (some (r, v)) rest m' first later h = later v (first r v refl) h

  pub runs-keep :
      (P : Machine S O → Type 0) (n : ℕ) (m m' : Machine S O)
      → ((v v' : Machine S O) (r : Outcome Error (Unit {0}))
          → P v
          → run K S O cli args 1 v ≡ some (r, v')
          → P v')
      → P m
      → runs n m ≡ some m'
      → P m'
  unfolding runs
  runs-keep P zero m m' keeps p h = subst P (some-injective m m' h) p
  runs-keep P (suc n) m m' keeps p h =
      after_run-keeps P (run K S O cli args 1 m) (runs n) m' (λ r v. keeps m v r p)
        (λ v q. runs-keep P n v m' keeps q) h

  module _ (L : IsLawful S) (u64 : U64IsLawful K) (works : Works K S O cli)
      (small : args.batch_size ≤ max_batch_size) (one : args.once ≡ true)
      (real : args.dry_run ≡ false) (ms : List DeliveryMsg) (path contents : Str)
      (file : strip_prefix (codes "file:") cli.delivery_source ≡ some path)
      (still : (w : O.World) → O.read_to_string w path ≡ text contents)
      (holds : Holds K (lines contents) ms) (rising : Rising ms) where
    -- All that was pending is settled, and nothing is pending.
    pub record IsFinished (start : ℕ) (m m' : Machine S O) : Type 0 where
      pub known : Anchors K S m.db m'.db
      pub cursor : (c : ℕ) × (load_cursor S m'.db ≡ ok c) × (pending c ms ≡ [])
      pub settled : All (Settled K S m'.db) (pending start ms)

    pub runs-IsFinished :
        (n start : ℕ) (m : Machine S O)
        → load_cursor S m.db ≡ ok start
        → length (pending start ms) ≤ n
        → (m' : Machine S O) × (runs n m ≡ some m') × IsFinished start m m'
    unfolding runs
    runs-IsFinished zero start m loaded few =
        let nothing = length-nil (pending start ms) few in
        (
          m,
          refl,
          record { known = λ cid a. a; cursor = (start, loaded, nothing); settled = rw nothing tt },
        )
    runs-IsFinished (suc n) start m loaded few =
        let (v, batch, went, saved, done, split, size) =
          run-advances K S O cli args ms path contents 0 start m L u64 works small one real file
            still holds rising loaded in
        let since =
          run-IsSince K S O cli args 1 start m v (ok tt) u64 L loaded (load_cursor-lt S m.db loaded)
            went in
        let rest = pending (advance start batch) ms in
        let shorter : length rest ≤ n =
          omega (arith, ap length split, length-append batch rest, size) in
        let (m', more, end) = runs-IsFinished n (advance start batch) v saved shorter in
        (
          m',
          rw (went, runs) more,
          record {
            known = λ cid a. end.known cid (IsSince-Anchors S since cid a);
            cursor = end.cursor;
            settled = subst (All (Settled K S m'.db)) (sym split) (
                All-append _ batch rest (Settled-Anchors K S v.db m'.db batch end.known done)
                  end.settled);
          },
        )
