-- ===== src/BatchAnchor/Run/Once.antt =====
-- Runs with `--once` end.
use logos_whistleblower.Common.{
  ℕ, suc, ◌≡◌, refl, List, [], ◌∷◌, true, ◌&&◌, Option, some, ltb, leb, Outcome, ok, err, panicked,
  Bool-cases, inl, inr, Outcome-cases,
}
use logos_whistleblower.Common.Effects.{Action, pure, ◌>>◌, >>=-ensures}
use logos_whistleblower.Indexer.Types.{Error}
use logos_whistleblower.Indexer.Host.{Crates}
use logos_whistleblower.BatchAnchor.Types.{Sqlite, Outside, Machine, Cfg, DeliveryMsg}
use logos_whistleblower.BatchAnchor.Store.{load_cursor, save_cursor}
use logos_whistleblower.BatchAnchor.Delivery.{poll_delivery}
use logos_whistleblower.BatchAnchor.Submit.{BatchEntry, gather}
use logos_whistleblower.BatchAnchor.Run.{
  RunArgs, LoopState, Progress, stop, next, on_db, on_world, gets_db, begun, ended, submit, process,
  handle, round, go_on, run_loop, run,
}

module _ (K : Crates) (S : Sqlite) (O : Outside) (cli : Cfg) (args : RunArgs)
    (one : args.once ≡ true) where
  -- A round after which there is no other.
  abbrev IsLast : Outcome Error Progress × Machine S O → Type 0
  IsLast (ok (next _), m) = ⊥
  IsLast _ = Unit

  saved-IsLast :
      (c : ℕ) (st : LoopState) (m : Machine S O)
      → IsLast ((on_db (save_cursor S c) >> pure (ended K S O cli args st)) m)
  saved-IsLast c st m =
      >>=-ensures IsLast (on_db (save_cursor S c)) _ m (λ e. tt) tt (λ _ _. rw one tt)

  process-IsLast :
      (st : LoopState) (c : ℕ) (entries : List BatchEntry) (m : Machine S O)
      → IsLast (process K S O cli args st c entries m)
  unfolding process
  process-IsLast st c [] m = saved-IsLast c _ m
  process-IsLast st c (e ∷ entries) m =
      >>=-ensures IsLast (submit K S O cli args st.cursor c (e ∷ entries)) _ m (λ x. tt) tt
        (λ _ _. saved-IsLast c _ _)

  handle-IsLast :
      (st : LoopState) (ms : List DeliveryMsg) (m : Machine S O)
      → IsLast (handle K S O cli args st ms m)
  unfolding handle
  handle-IsLast st [] m = rw one tt
  handle-IsLast st (x ∷ xs) m =
      >>=-ensures IsLast (gets_db (λ db. gather K S db (x ∷ xs))) _ m (λ e. tt) tt
        (λ entries _. process-IsLast st _ entries m)

  round-IsLast : (st : LoopState) (m : Machine S O) → IsLast (round K S O cli args st m)
  unfolding round
  round-IsLast st m =
      elim (Bool-cases (ltb 0 args.max_batches && leb args.max_batches st.batches_submitted)) [
        | inl full ↦ rw full tt
        | inr room ↦ rw room (
            >>=-ensures IsLast (on_world polled) (handle K S O cli args st) m (λ e. tt) tt
              (λ ms _. handle-IsLast st ms _))
      ]
    where
      polled : Action O.World Error (List DeliveryMsg)
      polled = poll_delivery K O cli.delivery_source args.topic st.cursor args.batch_size

  go_on-ends :
      (r : Outcome Error Progress) (m : Machine S O)
      (rest : LoopState → Machine S O → Option (Outcome Error (Unit {0}) × Machine S O))
      → IsLast (r, m)
      → (end : Outcome Error (Unit {0}) × Machine S O) × (go_on K S O cli args r m rest ≡ some end)
  go_on-ends (ok stop) m rest h = ((ok tt, m), refl)
  go_on-ends (ok (next st)) m rest h = absurd h
  go_on-ends (err e) m rest h = ((err e, m), refl)
  go_on-ends panicked m rest h = ((panicked, m), refl)

-- With `--once`, one unit of fuel, that is one round, is enough for a run to be over, whatever the
-- source and the database do.
pub run_once :
    (K : Crates) (S : Sqlite) (O : Outside) (cli : Cfg) (args : RunArgs) (fuel : ℕ)
    (m : Machine S O)
    → args.once ≡ true
    → (end : Outcome Error (Unit {0}) × Machine S O) × (run K S O cli args (suc fuel) m ≡ some end)
unfolding run
run_once K S O cli args fuel m one = elim (Outcome-cases (load_cursor S m.db)) [
  | inl (c, e) ↦
      let st : LoopState = record { batches_submitted = 0; cursor = c } in
      let m' = begun K S O cli args c m in
      rw (e, run)
        (go_on-ends K S O cli args one (round K S O cli args st m').0 (round K S O cli args st m').1
          (run_loop K S O cli args fuel) (round-IsLast K S O cli args one st m'))
  | inr (inl (x, e)) ↦ rw (e, run) ((err x, m), refl)
  | inr (inr e) ↦ rw (e, run) ((panicked, m), refl)
]
