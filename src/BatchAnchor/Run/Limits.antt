-- ===== src/BatchAnchor/Run/Limits.antt =====
-- How many transactions a run submits.
mod Counted
pub use Counted.{counted, commands}
use logos_whistleblower.Common.{
  ℕ, zero, suc, ◌+◌, ◌≤◌, ◌<◌, ◌≡◌, refl, ap, subst, ◌∙◌, codes, strip_prefix, List, [], ◌∷◌, Bool,
  true, false, ◌&&◌, Option, none, some, Str, ltb, leb, if◌then◌else◌, Outcome, ok, err, panicked,
  arith, Bool-cases, inl, inr, Outcome-cases,
}
use logos_whistleblower.Common.Effects.{Action, pure, ◌>>=◌, ◌>>◌, >>=-ensures, >>=-keeps}
use logos_whistleblower.Indexer.Types.{Error}
use logos_whistleblower.Indexer.Host.{Crates, Output}
use logos_whistleblower.Indexer.Upload.{ensure, ensure-world}
use logos_whistleblower.BatchAnchor.Types.{Sqlite, Outside, Machine, Cfg, DeliveryMsg}
use logos_whistleblower.BatchAnchor.Store.{load_cursor, save_cursor}
use logos_whistleblower.BatchAnchor.Delivery.{
  poll_delivery, poll_by, from_text, messages_of, read_messages,
}
use logos_whistleblower.BatchAnchor.Submit.{BatchEntry, gather, advance, anchor_via_spel, run_spel}
use logos_whistleblower.BatchAnchor.Run.{
  RunArgs, LoopState, Progress, stop, next, on_db, on_world, gets_db, mark_all, begun, ended,
  submit, process, handle, round, go_on, run_loop, run,
}
use Counted.{poll_by_count, submit-le}

module _ (K : Crates) (S : Sqlite) (O : Outside) (cli : Cfg) (args : RunArgs) where
  module _ (start : ℕ) where
    -- The batches that are counted cover the commands since `start`, and are within the limit.
    record Covers (st : LoopState) (m : Machine S (counted O)) : Type 0 where
      covered : commands S O m ≤ start + st.batches_submitted
      within : st.batches_submitted ≤ args.max_batches

    abbrev Within : Outcome Error Progress × Machine S (counted O) → Type 0
    Within (ok (next st), m) = Covers st m
    Within (_, m) = commands S O m ≤ start + args.max_batches

    saved-Within :
        (c : ℕ) (st : LoopState) (m : Machine S (counted O))
        → Covers st m
        → Within ((on_db (save_cursor S c) >> pure (ended K S (counted O) cli args st)) m)
    saved-Within c st m h =
        >>=-ensures Within (on_db (save_cursor S c)) _ m (λ e. omega (arith, h.covered, h.within))
          (omega (arith, h.covered, h.within)) (λ _ _. last)
      where
        last :
            Within
              (ok (ended K S (counted O) cli args st), record m { db = (save_cursor S c m.db).1 })
        last = elim (Bool-cases args.once) [
          | inl one ↦ rw one (omega (arith, h.covered, h.within))
          | inr more ↦ rw more (record { covered = h.covered; within = h.within })
        ]

    process-Within :
        (st : LoopState) (c : ℕ) (entries : List BatchEntry) (m : Machine S (counted O))
        → st.batches_submitted < args.max_batches
        → Covers st m
        → Within (process K S (counted O) cli args st c entries m)
    unfolding process
    process-Within st c [] m room h =
        saved-Within c (record st { cursor = c }) m
          (record { covered = h.covered; within = h.within })
    process-Within st c (e ∷ entries) m room h =
        let most = submit-le K S O cli args st.cursor c (e ∷ entries) m in
        >>=-ensures Within (submit K S (counted O) cli args st.cursor c (e ∷ entries)) _ m
          (λ x. omega (arith, most, h.covered)) (omega (arith, most, h.covered))
          (λ _ _.
            saved-Within c (record { batches_submitted = st.batches_submitted + 1; cursor = c }) _
              (record { covered = omega (arith, most, h.covered); within = omega arith }))

    handle-Within :
        (st : LoopState) (ms : List DeliveryMsg) (m : Machine S (counted O))
        → st.batches_submitted < args.max_batches
        → Covers st m
        → Within (handle K S (counted O) cli args st ms m)
    unfolding handle
    handle-Within st [] m room h = elim (Bool-cases args.once) [
      | inl one ↦ rw one (omega (arith, h.covered, h.within))
      | inr more ↦ rw more (record { covered = h.covered; within = h.within })
    ]
    handle-Within st (x ∷ xs) m room h =
        let fits : commands S O m ≤ start + args.max_batches = omega (arith, h.covered, h.within) in
        >>=-ensures Within (gets_db (λ db. gather K S db (x ∷ xs))) _ m (λ e. fits) fits
          (λ entries _. process-Within st _ entries m room h)

    round-Within :
        (st : LoopState) (m : Machine S (counted O))
        → 0 < args.max_batches
        → Covers st m
        → Within (round K S (counted O) cli args st m)
    unfolding round poll_delivery
    round-Within st m pos h =
        elim (Bool-cases (ltb 0 args.max_batches && leb args.max_batches st.batches_submitted)) [
          | inl full ↦ rw full (omega (arith, h.covered, h.within))
          | inr room ↦
              let same : commands S O (on_world polled m).1 ≡ commands S O m =
                poll_by_count K S O cli args cli.delivery_source args.topic st.cursor
                  args.batch_size (commands S O m)
                  (strip_prefix (codes "file:") cli.delivery_source)
                  (strip_prefix (codes "http:") cli.delivery_source) m.world refl in
              rw room (
                >>=-ensures Within (on_world polled) (handle K S (counted O) cli args st) m
                  (λ e. omega (arith, same, h.covered, h.within))
                  (omega (arith, same, h.covered, h.within))
                  (λ ms _.
                    handle-Within st ms _ (ground arith)
                      (record { covered = omega (arith, same, h.covered); within = h.within })))
        ]
      where
        polled : Action (O.World × ℕ) Error (List DeliveryMsg)
        polled =
            poll_delivery K (counted O) cli.delivery_source args.topic st.cursor args.batch_size

    abbrev Over : Option (Outcome Error (Unit {0}) × Machine S (counted O)) → Type 0
    Over none = Unit
    Over (some (r, m)) = commands S O m ≤ start + args.max_batches

    go_on-Over :
        (r : Outcome Error Progress) (m : Machine S (counted O))
        (rest : LoopState
          → Machine S (counted O)
          → Option (Outcome Error (Unit {0}) × Machine S (counted O)))
        → Within (r, m)
        → ((st : LoopState) → Covers st m → Over (rest st m))
        → Over (go_on K S (counted O) cli args r m rest)
    go_on-Over (ok stop) m rest h later = h
    go_on-Over (ok (next st)) m rest h later = later st h
    go_on-Over (err e) m rest h later = h
    go_on-Over panicked m rest h later = h

    run_loop-Over :
        (fuel : ℕ) (st : LoopState) (m : Machine S (counted O))
        → 0 < args.max_batches
        → Covers st m
        → Over (run_loop K S (counted O) cli args fuel st m)
    unfolding run_loop
    run_loop-Over zero st m pos h = tt
    run_loop-Over (suc fuel) st m pos h =
        go_on-Over (round K S (counted O) cli args st m).0 (round K S (counted O) cli args st m).1
          (run_loop K S (counted O) cli args fuel) (round-Within st m pos h)
          (λ st' h'. run_loop-Over fuel st' _ pos h')

-- With a limit on the batches, no run that ends, however it ends, has run more commands than the
-- limit.
pub run-le-max_batches :
    (K : Crates) (S : Sqlite) (O : Outside) (cli : Cfg) (args : RunArgs) (fuel : ℕ)
    (m m' : Machine S (counted O)) (r : Outcome Error (Unit {0}))
    → 0 < args.max_batches
    → run K S (counted O) cli args fuel m ≡ some (r, m')
    → commands S O m' ≤ commands S O m + args.max_batches
unfolding run
run-le-max_batches K S O cli args fuel m m' r pos h = elim (Outcome-cases (load_cursor S m.db)) [
  | inl (c, e) ↦
      let st : LoopState = record { batches_submitted = 0; cursor = c } in
      subst (Over K S O cli args start) (rw (e, run) at h) (
        run_loop-Over K S O cli args start fuel st (begun K S (counted O) cli args c m) pos
          (record { covered = omega arith; within = omega arith }))
  | inr (inl (x, e)) ↦ subst (Over K S O cli args start) (rw (e, run) at h) (omega arith)
  | inr (inr e) ↦ subst (Over K S O cli args start) (rw (e, run) at h) (omega arith)
]
  where
    start : ℕ
    start = commands S O m
