-- ===== src/BatchAnchor/Run/Marks.antt =====
-- What a round marks as anchored is what it submitted.
use logos_whistleblower.Common.{
  ℕ, ◌+◌, ◌≡◌, ◌∙◌, ap, List, [], ◌∷◌, true, false, Str, contains, if◌then◌else◌, ok,
}
use logos_whistleblower.Common.Effects.{pure, ◌>>◌, >>=-eq-ok}
use logos_whistleblower.Indexer.Host.{Crates}
use logos_whistleblower.BatchAnchor.Types.{Sqlite, Outside, Machine, Cfg, DeliveryMsg}
use logos_whistleblower.BatchAnchor.Store.{is_anchored, save_cursor}
use logos_whistleblower.BatchAnchor.Store.Laws.{IsLawful, is_anchored-save_cursor}
use logos_whistleblower.BatchAnchor.Submit.{BatchEntry, gather, advance}
use logos_whistleblower.BatchAnchor.Submit.Gather.{cid_texts}
use logos_whistleblower.BatchAnchor.Run.{
  RunArgs, LoopState, Progress, on_db, ended, submit, process, handle,
}
use logos_whistleblower.BatchAnchor.Run.Anchors.{
  Sent, submit_ok, saved_ok, process_real, handle_ok, is_anchored-mark_all,
}

module _ (K : Crates) (S : Sqlite) (O : Outside) (cli : Cfg) (args : RunArgs) where
  -- The entries were submitted with success, at the time of the round, with a line before and one
  -- behind; nothing was done for none.
  abbrev pub Submitted : ℕ → ℕ → List BatchEntry → O.World → O.World → Type 0
  Submitted cursor c [] w w' = w' ≡ w
  Submitted cursor c (e ∷ entries) w w' = Sent K S O cli args cursor c (e ∷ entries) w w'

  process_world :
      (st : LoopState) (c : ℕ) (entries : List BatchEntry) (p : Progress) (m m' : Machine S O)
      → args.dry_run ≡ false
      → process K S O cli args st c entries m ≡ (ok p, m')
      → Submitted st.cursor c entries m.world m'.world
  unfolding process
  process_world st c [] p m m' real h =
      let (_, e) = saved_ok K S O cli args c _ p m m' h in ap (λ (x : Machine S O). x.world) e
  process_world st c (x ∷ entries) p m m' real h =
      let (_, sent, rest) =
        >>=-eq-ok (submit K S O cli args st.cursor c (x ∷ entries))
          (λ _.
            on_db (save_cursor S c)
            >> pure (
                ended K S O cli args
                  (record { batches_submitted = st.batches_submitted + 1; cursor = c })))
          m h in
      let v = (submit K S O cli args st.cursor c (x ∷ entries) m).1 in
      let (_, e) = saved_ok K S O cli args c _ p v m' rest in
      let (_, (w, done, printed)) =
        submit_ok K S O cli args st.cursor c (x ∷ entries) m v real (λ i. (sent i, v)) in
      (w, done, ap (λ (y : Machine S O). y.world) e ∙ printed)

-- Where SQLite keeps its laws: a round on messages that succeeds and is no dry run has submitted
-- the entries that `gather` gives for them, with success, or has run nothing if there are none; and
-- a CID is anchored after the round if it is the CID of such an entry, and as it was before if not.
pub handle_marks :
    (K : Crates) (S : Sqlite) (O : Outside) (cli : Cfg) (args : RunArgs) (st : LoopState)
    (x : DeliveryMsg) (xs : List DeliveryMsg) (p : Progress) (m m' : Machine S O)
    → IsLawful S
    → args.dry_run ≡ false
    → handle K S O cli args st (x ∷ xs) m ≡ (ok p, m')
    → (entries : List BatchEntry) × (gather K S m.db (x ∷ xs) ≡ ok entries)
      × Submitted K S O cli args st.cursor (advance st.cursor (x ∷ xs)) entries m.world m'.world
      × ((cid : Str)
          → is_anchored S m'.db cid
            ≡ (if contains (cid_texts entries) cid then ok true else is_anchored S m.db cid))
handle_marks K S O cli args st x xs p m m' L real h =
    let (entries, gathered, processed) = handle_ok K S O cli args st x xs p m m' h in
    let c = advance st.cursor (x ∷ xs) in
    let (db, marked, saved, last) =
      process_real K S O cli args st c entries p m m' real processed in
    (
      entries,
      gathered,
      process_world K S O cli args st c entries p m m' real processed,
      λ cid.
          ap (λ d. is_anchored S d cid) last
          ∙ is_anchored-save_cursor S L db c cid
          ∙ is_anchored-mark_all S L entries m.db db cid marked,
    )
