-- ===== src/System/Eventually.antt =====
-- The whole queue file gets onto the chain.
use logos_whistleblower.Common.{
  ℕ, ◌≤◌, ◌≡◌, List, [], true, false, some, Str, codes, lines, strip_prefix, length, All, ok,
}
use logos_whistleblower.Registry.Types.{max_batch_size}
use logos_whistleblower.Registry.Account
use logos_whistleblower.Registry.Account.{Chain}
use logos_whistleblower.Indexer.Host.{Crates, U64IsLawful}
use logos_whistleblower.BatchAnchor.Types.{Sqlite, Outside, Machine, Cfg, DeliveryMsg, text}
use logos_whistleblower.BatchAnchor.Store.{load_cursor}
use logos_whistleblower.BatchAnchor.Store.Laws.{IsLawful}
use logos_whistleblower.BatchAnchor.Delivery.Queue.{Holds, Rising, pending}
use logos_whistleblower.BatchAnchor.Run.{RunArgs}
use logos_whistleblower.BatchAnchor.Run.Succeeds.{Works}
use logos_whistleblower.BatchAnchor.Run.Finishes.{runs, runs-keep, runs-IsFinished}
use logos_whistleblower.System.Ledger.{Ledger}
use logos_whistleblower.System.Backed.{Backed, run-Backed}
use logos_whistleblower.System.Delivered.{IsDelivered, Settled-IsDelivered}

-- Where SQLite and accounts keep their laws, sequence numbers are `u64`s, `spel` does what `Ledger` says
-- and nothing that the tool calls fails, for a batch size of at most 50, a queue file whose text
-- stays as it is and holds messages with rising sequence numbers, and a database whose anchored CIDs are
-- on the chain: as many runs with `--once` as there are messages behind the cursor all end, leave
-- none behind the cursor, and each of these messages has a CID that does not decode or that
-- `query_by_cid` finds in the registry then.
pub runs-IsDelivered :
    (K : Crates) (S : Sqlite) (O : Outside) (C : Chain) (cli : Cfg) (args : RunArgs)
    (G : Ledger K O C cli) (ms : List DeliveryMsg) (path contents : Str) (n start : ℕ)
    (m : Machine S O)
    → IsLawful S
    → Account.IsLawful C
    → U64IsLawful K
    → Works K S O cli
    → args.batch_size ≤ max_batch_size
    → args.once ≡ true
    → args.dry_run ≡ false
    → strip_prefix (codes "file:") cli.delivery_source ≡ some path
    → ((w : O.World) → O.read_to_string w path ≡ text contents)
    → Holds K (lines contents) ms
    → Rising ms
    → load_cursor S m.db ≡ ok start
    → length (pending start ms) ≤ n
    → Backed K S O C cli G m.db m.world
    → (m' : Machine S O) × (c : ℕ) × (runs K S O cli args n m ≡ some m')
      × (load_cursor S m'.db ≡ ok c)
      × (pending c ms ≡ [])
      × All (IsDelivered K C (G.registry m'.world)) (pending start ms)
runs-IsDelivered K S O C cli args G ms path contents n start m L CL u64 works small one real file
      still holds rising loaded few backed =
    let (m', ran, finished) =
      runs-IsFinished K S O cli args L u64 works small one real ms path contents file still holds
        rising n start m loaded few in
    let (c, saved, nothing) = finished.cursor in
    let backed' =
      runs-keep K S O cli args (λ v. Backed K S O C cli G v.db v.world) n m m'
        (λ v v' r. run-Backed K S O C cli args G 1 v v' r L CL) backed ran in
    (
      m',
      c,
      ran,
      saved,
      nothing,
      Settled-IsDelivered K S O C cli G m'.db m'.world (pending start ms) backed' finished.settled,
    )
