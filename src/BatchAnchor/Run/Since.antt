-- ===== src/BatchAnchor/Run/Since.antt =====
-- What survives a run, however it ends: the cursor does not go back, and anchored CIDs stay so.
mod Database
pub use Database.{IsSince, IsSince-Anchors, advance-lt, unit_cases}
use native.Mathlib.Nat.{le_trans}
use logos_whistleblower.Common.{
  ℕ, zero, suc, ◌+◌, ◌≤◌, ◌<◌, max, ◌≡◌, ◌≢◌, refl, sym, ◌∙◌, ap, subst, List, [], ◌∷◌, Bool, true,
  false, Option, none, some, Str, All, u64_mod, bytes_eq, if◌then◌else◌, ltb, leb, ◌&&◌, Outcome,
  ok, err, panicked, arith, Bool-cases, inl, inr, Outcome-cases, ok-injective, ◌⊎◌,
}
use logos_whistleblower.Common.Effects.{Action, pure, ◌>>=◌, ◌>>◌, effect, >>=-keeps, >>=-ensures}
use logos_whistleblower.Indexer.Types.{Error}
use logos_whistleblower.Indexer.Host.{Crates, U64IsLawful}
use logos_whistleblower.BatchAnchor.Types.{Sqlite, Outside, Machine, Cfg, DeliveryMsg}
use logos_whistleblower.BatchAnchor.Store.{is_anchored, mark_anchored, load_cursor, save_cursor}
use logos_whistleblower.BatchAnchor.Store.Laws.{
  IsLawful, load_cursor-save_cursor, is_anchored-mark_anchored, is_anchored-save_cursor,
  load_cursor-mark_anchored, save_cursor_failed, mark_anchored_failed,
}
use logos_whistleblower.BatchAnchor.Delivery.{poll_delivery}
use logos_whistleblower.BatchAnchor.Delivery.Bounds.{AllFit, poll_delivery-AllFit}
use logos_whistleblower.BatchAnchor.Delivery.Queue.{le-advance}
use logos_whistleblower.BatchAnchor.Submit.{BatchEntry, gather, advance, anchor_via_spel}
use logos_whistleblower.BatchAnchor.Run.{
  RunArgs, LoopState, Progress, stop, next, on_db, on_world, gets_db, mark_all, begun, ended,
  submit, send_batch, process, handle, round, go_on, run_loop, run,
}
use Database.{save_cursor-IsSince, mark_all-IsSince}

module _ (K : Crates) (S : Sqlite) (O : Outside) (cli : Cfg) (args : RunArgs) (L : IsLawful S)
    (old : S.Db) (start : ℕ) where
  abbrev Kept : Machine S O → Type 0
  Kept m = IsSince S old start m.db

  submit-Kept :
      (cursor c : ℕ) (entries : List BatchEntry) (m : Machine S O)
      → Kept m
      → Kept (submit K S O cli args cursor c entries m).1
  unfolding submit
  submit-Kept cursor c entries m h = elim (Bool-cases args.dry_run) [
    | inl dry ↦ rw dry h
    | inr real ↦ rw real (
        let marked = mark_all-IsSince S L old start entries m.db h in
        >>=-keeps Kept (on_world (send_batch K S O cli args cursor c entries (O.now m.world))) _ m h
          (λ _ _. >>=-keeps Kept (on_db (mark_all S entries)) _ _ marked (λ _ _. marked)))
  ]

  -- The variables that a round leaves for the next.
  abbrev Ready : Outcome Error Progress → Type 0
  Ready (ok (next st)) = (start ≤ st.cursor) × (st.cursor < u64_mod)
  Ready _ = Unit

  -- What a round keeps: the database, and the bounds of the cursor.
  abbrev Fine : Outcome Error Progress × Machine S O → Type 0
  Fine (r, m) = Kept m × Ready r

  Ready-ended :
      (st : LoopState)
      → start ≤ st.cursor
      → st.cursor < u64_mod
      → Ready (ok (ended K S O cli args st))
  Ready-ended st le fits = elim (Bool-cases args.once) [
    | inl one ↦ rw one tt
    | inr more ↦ rw more (le, fits)
  ]

  saved-Fine :
      (st : LoopState) (m : Machine S O)
      → start ≤ st.cursor
      → st.cursor < u64_mod
      → Kept m
      → Fine ((on_db (save_cursor S st.cursor) >> pure (ended K S O cli args st)) m)
  saved-Fine st m le fits h =
      let saved = save_cursor-IsSince S L old start st.cursor m.db le fits h in
      >>=-ensures Fine (on_db (save_cursor S st.cursor)) _ m (λ e. (saved, tt)) (saved, tt)
        (λ _ _. (saved, Ready-ended st le fits))

  process-Fine :
      (st : LoopState) (c : ℕ) (entries : List BatchEntry) (m : Machine S O)
      → start ≤ c
      → c < u64_mod
      → Kept m
      → Fine (process K S O cli args st c entries m)
  unfolding process
  process-Fine st c [] m le fits h = saved-Fine (record st { cursor = c }) m le fits h
  process-Fine st c (e ∷ entries) m le fits h =
      let kept = submit-Kept st.cursor c (e ∷ entries) m h in
      >>=-ensures Fine (submit K S O cli args st.cursor c (e ∷ entries)) _ m (λ x. (kept, tt))
        (kept, tt) (λ _ _. saved-Fine _ _ le fits kept)

  handle-Fine :
      (u64 : U64IsLawful K) (st : LoopState) (ms : List DeliveryMsg) (m : Machine S O)
      → start ≤ st.cursor
      → st.cursor < u64_mod
      → AllFit ms
      → Kept m
      → Fine (handle K S O cli args st ms m)
  unfolding handle
  handle-Fine u64 st [] m le fits _ h = elim (Bool-cases args.once) [
    | inl one ↦ rw one (h, tt)
    | inr more ↦ rw more (h, (le, fits))
  ]
  handle-Fine u64 st (x ∷ xs) m le fits all h =
      >>=-ensures Fine (gets_db (λ db. gather K S db (x ∷ xs))) _ m (λ e. (h, tt)) (h, tt)
        (λ entries _.
          process-Fine st _ entries m (le_trans le (le-advance st.cursor (x ∷ xs)))
            (advance-lt st.cursor (x ∷ xs) fits all) h)

  round-Fine :
      (u64 : U64IsLawful K) (st : LoopState) (m : Machine S O)
      → start ≤ st.cursor
      → st.cursor < u64_mod
      → Kept m
      → Fine (round K S O cli args st m)
  unfolding round
  round-Fine u64 st m le fits h =
      elim (Bool-cases (ltb 0 args.max_batches && leb args.max_batches st.batches_submitted)) [
        | inl full ↦ rw full (h, tt)
        | inr room ↦ rw room (
            >>=-ensures Fine (on_world (polled st)) _ m (λ e. (h, tt)) (h, tt)
              (λ ms e.
                handle-Fine u64 st ms _ le fits
                  (poll_delivery-AllFit K u64 st.cursor args.batch_size O cli.delivery_source
                    args.topic m.world ms e)
                  h))
      ]
    where
      polled : LoopState → Action O.World Error (List DeliveryMsg)
      polled s = poll_delivery K O cli.delivery_source args.topic s.cursor args.batch_size

  -- A run that ended.
  abbrev Over : Option (Outcome Error (Unit {0}) × Machine S O) → Type 0
  Over none = Unit
  Over (some (r, m)) = Kept m

  go_on-Over :
      (r : Outcome Error Progress) (m : Machine S O)
      (rest : LoopState → Machine S O → Option (Outcome Error (Unit {0}) × Machine S O))
      → Fine (r, m)
      → ((st : LoopState) → start ≤ st.cursor → st.cursor < u64_mod → Over (rest st m))
      → Over (go_on K S O cli args r m rest)
  go_on-Over (ok stop) m rest (h, _) later = h
  go_on-Over (ok (next st)) m rest (h, (le, fits)) later = later st le fits
  go_on-Over (err e) m rest (h, _) later = h
  go_on-Over panicked m rest (h, _) later = h

  run_loop-Over :
      (u64 : U64IsLawful K) (fuel : ℕ) (st : LoopState) (m : Machine S O)
      → start ≤ st.cursor
      → st.cursor < u64_mod
      → Kept m
      → Over (run_loop K S O cli args fuel st m)
  unfolding run_loop
  run_loop-Over u64 zero st m le fits h = tt
  run_loop-Over u64 (suc fuel) st m le fits h =
      let fine = round-Fine u64 st m le fits h in
      go_on-Over (round K S O cli args st m).0 (round K S O cli args st m).1
        (run_loop K S O cli args fuel) fine
        (λ st' le' fits'. run_loop-Over u64 fuel st' _ le' fits' fine.0)

-- Where SQLite keeps its laws, sequence numbers are `u64`s and the run begins with a cursor that is
-- one: however a run ends, with success, an error or a panic, and after however many rounds: the
-- database has a cursor that is not below the one that the run began with, and for every CID the answer
-- whether it is anchored is yes, or is as it was.
pub run-IsSince :
    (K : Crates) (S : Sqlite) (O : Outside) (cli : Cfg) (args : RunArgs) (fuel start : ℕ)
    (m m' : Machine S O) (r : Outcome Error (Unit {0}))
    → U64IsLawful K
    → IsLawful S
    → load_cursor S m.db ≡ ok start
    → start < u64_mod
    → run K S O cli args fuel m ≡ some (r, m')
    → IsSince S m.db start m'.db
unfolding run
run-IsSince K S O cli args fuel start m m' r u64 L loaded fits h =
    let first : LoopState = record { batches_submitted = 0; cursor = start } in
    let kept : IsSince S m.db start m.db = record {
      cursor = (start, loaded, omega arith);
      kept = λ cid. inr refl;
    } in
    subst (Over K S O cli args L m.db start) (rw (loaded, run) at h) (
      run_loop-Over K S O cli args L m.db start u64 fuel first (begun K S O cli args start m)
        (omega arith) fits kept)
