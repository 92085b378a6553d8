-- ===== src/BatchAnchor/Run/Advances.antt =====
-- A run with `--once` gets a batch done where everything works.
use logos_whistleblower.Common.{
  ℕ, suc, ◌≤◌, ◌≡◌, refl, ap, min, max, List, [], ◌∷◌, ◌++◌, ◌&&◌, true, false, some, Str, codes,
  lines, strip_prefix, length, All, ltb, leb, Outcome, ok, arith,
}
use logos_whistleblower.Common.Effects.{Action}
use logos_whistleblower.Registry.Types.{max_batch_size}
use logos_whistleblower.Indexer.Types.{Error}
use logos_whistleblower.Indexer.Host.{Crates, U64IsLawful}
use logos_whistleblower.BatchAnchor.Types.{Sqlite, Outside, Machine, Cfg, DeliveryMsg, text}
use logos_whistleblower.BatchAnchor.Store.{load_cursor}
use logos_whistleblower.BatchAnchor.Store.Laws.{IsLawful}
use logos_whistleblower.BatchAnchor.Store.Opening.{load_cursor-lt}
use logos_whistleblower.BatchAnchor.Delivery.{poll_file, poll_delivery}
use logos_whistleblower.BatchAnchor.Delivery.Bounds.{AllFit, poll_delivery-AllFit}
use logos_whistleblower.BatchAnchor.Delivery.Queue.{Holds, Rising, pending, poll_file-pending}
use logos_whistleblower.BatchAnchor.Submit.{advance}
use logos_whistleblower.BatchAnchor.Run.{
  RunArgs, LoopState, stop, begun, handle, round, run_loop, run,
}
use logos_whistleblower.BatchAnchor.Run.Anchors.{Settled, handle_anchors}
use logos_whistleblower.BatchAnchor.Run.Since.{advance-lt}
use logos_whistleblower.BatchAnchor.Run.Succeeds.{Works, handle-stops}

module _ (K : Crates) (S : Sqlite) (O : Outside) (cli : Cfg) (args : RunArgs) (L : IsLawful S)
    (works : Works K S O cli) (one : args.once ≡ true) (real : args.dry_run ≡ false) where
  -- The database after a round on these messages.
  abbrev Handled : ℕ → List DeliveryMsg → Machine S O → Type 0
  Handled start batch m =
      (load_cursor S m.db ≡ ok (advance start batch)) × All (Settled K S m.db) batch

  handle-Handled :
      (st : LoopState) (batch : List DeliveryMsg) (m : Machine S O)
      → load_cursor S m.db ≡ ok st.cursor
      → AllFit batch
      → length batch ≤ max_batch_size
      → (m' : Machine S O) × (handle K S O cli args st batch m ≡ (ok stop, m'))
        × Handled st.cursor batch m'
  unfolding advance handle
  handle-Handled st [] m loaded _ _ = (m, rw one refl, (loaded, tt))
  handle-Handled st (x ∷ xs) m loaded fit few =
      let m' = (handle K S O cli args st (x ∷ xs) m).1 in
      let ends = handle-stops K S O cli works args one real st (x ∷ xs) m few in
      let h : handle K S O cli args st (x ∷ xs) m ≡ (ok stop, m') = λ i. (ends i, m') in
      let fits = advance-lt st.cursor (x ∷ xs) (load_cursor-lt S m.db loaded) fit in
      let (settled, loaded') = handle_anchors K S O cli args st x xs stop m m' L real fits h in
      (m', h, (loaded', settled))

  module _ (u64 : U64IsLawful K) (ms : List DeliveryMsg) (path contents : Str)
      (file : strip_prefix (codes "file:") cli.delivery_source ≡ some path)
      (still : (w : O.World) → O.read_to_string w path ≡ text contents)
      (holds : Holds K (lines contents) ms) (rising : Rising ms) where
    abbrev polled : ℕ → Action O.World Error (List DeliveryMsg)
    polled after = poll_delivery K O cli.delivery_source args.topic after args.batch_size

    -- A poll gives the front of the pending messages.
    polled-eq-ok :
        (after : ℕ) (w : O.World) (batch : List DeliveryMsg)
        → poll_file K after args.batch_size contents ≡ ok batch
        → polled after w ≡ (ok batch, w)
    unfolding poll_delivery
    polled-eq-ok after w batch read = rw (file, still w) (ap (λ r. (r, w)) read)

    first_round :
        (start : ℕ) (batch : List DeliveryMsg) (m : Machine S O)
        → poll_file K start args.batch_size contents ≡ ok batch
        → load_cursor S m.db ≡ ok start
        → length batch ≤ max_batch_size
        → (m' : Machine S O) × (round K S O cli args
              (record { batches_submitted = 0; cursor = start })
              m
            ≡ (ok stop, m'))
          × Handled start batch m'
    unfolding round
    first_round start batch m read loaded few =
        let st : LoopState = record { batches_submitted = 0; cursor = start } in
        let polls = polled-eq-ok start m.world batch read in
        let fit =
          poll_delivery-AllFit K u64 start args.batch_size O cli.delivery_source args.topic m.world
            batch (ap (λ (r : Outcome Error (List DeliveryMsg) × O.World). r.0) polls) in
        let (m', handled, done) = handle-Handled st batch m loaded fit few in
        let room : (ltb 0 args.max_batches && leb args.max_batches 0) ≡ false = ground arith in
        (m', rw room (rw polls handled), done)

-- Where SQLite keeps its laws, sequence numbers are `u64`s, and nothing that the tool calls fails,
-- with a batch size of at most 50 and for a queue file whose text stays as it is and holds messages with rising sequence numbers: a run with
-- `--once` that is no dry run ends with success after one round. It has dealt with the
-- first messages behind the cursor, as many as the batch size (one, if that is 0), or all if there
-- are fewer: each has a CID that is anchored or does not decode, and exactly the rest of the messages
-- lies behind the saved cursor.
pub run-advances :
    (K : Crates) (S : Sqlite) (O : Outside) (cli : Cfg) (args : RunArgs) (ms : List DeliveryMsg)
    (path contents : Str) (fuel start : ℕ) (m : Machine S O)
    → IsLawful S
    → U64IsLawful K
    → Works K S O cli
    → args.batch_size ≤ max_batch_size
    → args.once ≡ true
    → args.dry_run ≡ false
    → strip_prefix (codes "file:") cli.delivery_source ≡ some path
    → ((w : O.World) → O.read_to_string w path ≡ text contents)
    → Holds K (lines contents) ms
    → Rising ms
    → load_cursor S m.db ≡ ok start
    → (m' : Machine S O) × (batch : List DeliveryMsg) × (run K S O cli args (suc fuel) m
        ≡ some (ok tt, m'))
      × (load_cursor S m'.db ≡ ok (advance start batch))
      × All (Settled K S m'.db) batch
      × (pending start ms ≡ batch ++ pending (advance start batch) ms)
      × (length batch ≡ min (max 1 args.batch_size) (length (pending start ms)))
unfolding run run_loop
run-advances K S O cli args ms path contents fuel start m L u64 works small one real file still
      holds rising loaded =
    let (batch, read, split, size) =
      poll_file-pending K start args.batch_size contents ms holds rising in
    let (m', went, (saved, settled)) =
      first_round K S O cli args L works one real u64 ms path contents file still holds rising start
        batch (begun K S O cli args start m) read loaded (omega (arith, size, small)) in
    (m', batch, rw (loaded, run) (rw went refl), saved, settled, split, size)
