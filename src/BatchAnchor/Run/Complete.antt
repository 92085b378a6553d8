-- ===== src/BatchAnchor/Run/Complete.antt =====
-- No message of a queue file is lost: what lies behind the saved cursor was dealt with.
pub mod Done
mod Steps
use logos_whistleblower.Common.{
  ℕ, zero, suc, ◌+◌, ◌<◌, ◌≡◌, refl, sym, ◌∙◌, ap, subst, List, [], ◌∷◌, ◌++◌, append_assoc, Bool,
  true, false, ◌&&◌, Option, none, some, Str, codes, lines, strip_prefix, contains, All, All-append,
  u64_mod, ltb, leb, if◌then◌else◌, Outcome, ok, err, panicked, arith, Bool-cases, inl, inr,
  Outcome-cases, bytes_eq, ok-injective,
}
use logos_whistleblower.Common.Effects.{Action, pure, ◌>>=◌, ◌>>◌, >>=-keeps, >>=-eq-ok, >>=-cases}
use logos_whistleblower.Indexer.Types.{Error}
use logos_whistleblower.Indexer.Host.{Crates, U64IsLawful}
use logos_whistleblower.BatchAnchor.Types.{Sqlite, Outside, Machine, Cfg, DeliveryMsg, text}
use logos_whistleblower.BatchAnchor.Store.{is_anchored, mark_anchored, load_cursor, save_cursor}
use logos_whistleblower.BatchAnchor.Store.Laws.{
  IsLawful, is_anchored-mark_anchored, load_cursor-mark_anchored, save_cursor_failed,
  mark_anchored_failed,
}
use logos_whistleblower.BatchAnchor.Delivery.{poll_file, poll_delivery}
use logos_whistleblower.BatchAnchor.Delivery.Bounds.{AllFit, poll_delivery-AllFit}
use logos_whistleblower.BatchAnchor.Delivery.Queue.{Holds, Rising, pending, poll_file-pending}
use logos_whistleblower.BatchAnchor.Submit.{BatchEntry, gather, advance, anchor_via_spel}
use logos_whistleblower.BatchAnchor.Submit.Gather.{cid_texts}
use logos_whistleblower.BatchAnchor.Run.{
  RunArgs, LoopState, Progress, stop, next, on_db, on_world, gets_db, mark_all, begun, ended,
  submit, process, handle, round, go_on, run_loop, run,
}
use logos_whistleblower.BatchAnchor.Run.Anchors.{Settled, handle_ok, handle_anchors}
use logos_whistleblower.BatchAnchor.Run.Marks.{handle_marks}
use logos_whistleblower.BatchAnchor.Run.Since.{advance-lt, unit_cases}
use Done.{IsDone}
use Steps.{End, batch-End}

module _ (K : Crates) (S : Sqlite) (O : Outside) (cli : Cfg) (args : RunArgs)
    (ms : List DeliveryMsg) (start : ℕ) (L : IsLawful S) (u64 : U64IsLawful K)
    (real : args.dry_run ≡ false) (path contents : Str)
    (file : strip_prefix (codes "file:") cli.delivery_source ≡ some path)
    (still : (w : O.World) → O.read_to_string w path ≡ text contents)
    (holds : Holds K (lines contents) ms) (rising : Rising ms) where
  abbrev polled : ℕ → Action O.World Error (List DeliveryMsg)
  polled after = poll_delivery K O cli.delivery_source args.topic after args.batch_size

  -- A poll gives the front of the pending messages.
  polled-front :
      (after : ℕ) (w : O.World)
      → (batch : List DeliveryMsg) × (polled after w ≡ (ok batch, w))
        × (pending after ms ≡ batch ++ pending (advance after batch) ms)
  unfolding poll_delivery
  polled-front after w =
      let (batch, read, front, _) =
        poll_file-pending K after args.batch_size contents ms holds rising in
      (batch, rw (file, still w) (ap (λ r. (r, w)) read), front)

  abbrev Ends : Outcome Error Progress × Machine S O → Type 0
  Ends = End K S O cli args ms start

  round-End :
      (st : LoopState) (m : Machine S O)
      → IsDone K S O cli args ms start st.cursor m.db
      → Ends (round K S O cli args st m)
  unfolding round
  round-End st m d =
      let (batch, read, front) = polled-front st.cursor m.world in
      let result = ap (λ (r : Outcome Error (List DeliveryMsg) × O.World). r.0) read in
      elim (Bool-cases (ltb 0 args.max_batches && leb args.max_batches st.batches_submitted)) [
        | inl full ↦ simp full (st.cursor, d)
        | inr room ↦ simp room (
            >>=-cases Ends (on_world (polled st.cursor)) (handle K S O cli args st) m
              (λ e bad. cc (bad, result)) (λ bad. cc (bad, result))
              (λ given e.
                let same : given ≡ batch = ok-injective (sym e ∙ result) in
                batch-End K S O cli args ms start L real st given _ d
                  (subst
                    (λ (b : List DeliveryMsg).
                      pending st.cursor ms ≡ b ++ pending (advance st.cursor b) ms)
                    (sym same) front)
                  (poll_delivery-AllFit K u64 st.cursor args.batch_size O cli.delivery_source
                    args.topic m.world given e)))
      ]

  abbrev Over : Option (Outcome Error (Unit {0}) × Machine S O) → Type 0
  Over none = Unit
  Over (some (r, m)) = (c : ℕ) × IsDone K S O cli args ms start c m.db

  go_on-Over :
      (r : Outcome Error Progress) (m : Machine S O)
      (rest : LoopState → Machine S O → Option (Outcome Error (Unit {0}) × Machine S O))
      → Ends (r, m)
      → ((st : LoopState) → IsDone K S O cli args ms start st.cursor m.db → Over (rest st m))
      → Over (go_on K S O cli args r m rest)
  go_on-Over (ok stop) m rest d later = d
  go_on-Over (ok (next st)) m rest d later = later st d
  go_on-Over (err e) m rest d later = d
  go_on-Over panicked m rest d later = d

  run_loop-Over :
      (fuel : ℕ) (st : LoopState) (m : Machine S O)
      → IsDone K S O cli args ms start st.cursor m.db
      → Over (run_loop K S O cli args fuel st m)
  unfolding run_loop
  run_loop-Over zero st m d = tt
  run_loop-Over (suc fuel) st m d =
      go_on-Over (round K S O cli args st m).0 (round K S O cli args st m).1
        (run_loop K S O cli args fuel) (round-End st m d) (λ st' d'. run_loop-Over fuel st' _ d')

-- Where SQLite keeps its laws and sequence numbers are `u64`s, for a source that is a queue file
-- whose text stays as it is and holds messages with rising sequence numbers: however a run that is
-- no dry run ends, with success, an error or a panic, and after however many rounds, the saved
-- cursor is such that the messages behind the first cursor are some whose CIDs are all anchored or
-- do not decode, followed by exactly those behind the saved one, which is the first cursor advanced
-- over the former.
pub run-Settled :
    (K : Crates) (S : Sqlite) (O : Outside) (cli : Cfg) (args : RunArgs) (ms : List DeliveryMsg)
    (path contents : Str) (fuel start : ℕ) (m m' : Machine S O) (r : Outcome Error (Unit {0}))
    → IsLawful S
    → U64IsLawful K
    → args.dry_run ≡ false
    → strip_prefix (codes "file:") cli.delivery_source ≡ some path
    → ((w : O.World) → O.read_to_string w path ≡ text contents)
    → Holds K (lines contents) ms
    → Rising ms
    → load_cursor S m.db ≡ ok start
    → start < u64_mod
    → run K S O cli args fuel m ≡ some (r, m')
    → (c : ℕ) × (seen : List DeliveryMsg) × (load_cursor S m'.db ≡ ok c)
      × (c ≡ advance start seen)
      × (pending start ms ≡ seen ++ pending c ms)
      × All (Settled K S m'.db) seen
unfolding run advance
run-Settled K S O cli args ms path contents fuel start m m' r L u64 real file still holds rising
      loaded fits h =
    let first : LoopState = record { batches_submitted = 0; cursor = start } in
    let d : IsDone K S O cli args ms start start m.db = record {
      loaded = loaded;
      fits = fits;
      seen = ([], refl, refl, tt);
    } in
    let over =
      run_loop-Over K S O cli args ms start L u64 real path contents file still holds rising fuel
        first (begun K S O cli args start m) d in
    let (c, done) =
      subst (Over K S O cli args ms start L u64 real path contents file still holds rising)
        (rw (loaded, run) at h) over in
    let (seen, reached, split, settled) = done.seen in
    (c, seen, done.loaded, reached, split, settled)
