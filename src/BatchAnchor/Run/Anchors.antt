-- ===== src/BatchAnchor/Run/Anchors.antt =====
-- What a round leaves in the database: after a submission, after a failed one, and after a dry run.
use logos_whistleblower.Common.{
  ℕ, ◌+◌, ◌<◌, ◌≡◌, refl, sym, ◌∙◌, ap, ◌⊎◌, inl, inr, List, [], ◌∷◌, true, false, Str, All,
  u64_mod, contains, if◌then◌else◌, Outcome, ok, err, arith,
}
use logos_whistleblower.Common.Effects.{Action, effect, pure, ◌>>◌, >>=-eq-ok}
use logos_whistleblower.Indexer.Types.{Error}
use logos_whistleblower.Indexer.Host.{Crates}
use logos_whistleblower.Indexer.Cid.{decode_cid}
use logos_whistleblower.BatchAnchor.Types.{Sqlite, Outside, Machine, Cfg, DeliveryMsg}
use logos_whistleblower.BatchAnchor.Store.{is_anchored, mark_anchored, load_cursor, save_cursor}
use logos_whistleblower.BatchAnchor.Store.Laws.{
  IsLawful, load_cursor-save_cursor, is_anchored-mark_anchored, is_anchored-save_cursor,
}
use logos_whistleblower.BatchAnchor.Submit.{BatchEntry, gather, advance, print_all}
use logos_whistleblower.BatchAnchor.Submit.Gather.{cid_texts, Covered, gather-Answers}
use logos_whistleblower.BatchAnchor.Run.{
  RunArgs, LoopState, Progress, on_db, on_world, gets_db, mark_all, ended, submit, send_batch,
  anchored_line, preview, process, handle,
}

module _ (S : Sqlite) (L : IsLawful S) where
  pub is_anchored-mark_all :
      (entries : List BatchEntry) (db db' : S.Db) (cid : Str)
      → mark_all S entries db ≡ (ok tt, db')
      → is_anchored S db' cid
        ≡ (if contains (cid_texts entries) cid then ok true else is_anchored S db cid)
  unfolding mark_all contains
  is_anchored-mark_all [] db db' cid h =
      ap (λ (r : Outcome Error (Unit {0}) × S.Db). is_anchored S r.1 cid) (sym h)
  is_anchored-mark_all (e ∷ entries) db db' cid h =
      let (_, done, rest) = >>=-eq-ok (mark_anchored S e.cid_text) (λ _. mark_all S entries) db h in
      let marked = is_anchored-mark_anchored S L db e.cid_text cid done in
      is_anchored-mark_all entries (mark_anchored S e.cid_text db).1 db' cid rest
      ∙ ground (arith, marked)

module _ (K : Crates) (S : Sqlite) where
  -- The CID of a message is anchored, or does not decode.
  abbrev pub Settled : S.Db → DeliveryMsg → Type 0
  Settled db x =
      (is_anchored S db x.payload.cid ≡ ok true)
      ⊎ ((e : Error) × (decode_cid K x.payload.cid ≡ err e))

abbrev world_of : {E A W : Type 0} → Outcome E A × W → W
world_of r = r.1

module _ (K : Crates) (S : Sqlite) (O : Outside) (cli : Cfg) (args : RunArgs) where
  -- The end of a round that succeeds.
  pub saved_ok :
      (c : ℕ) (q p : Progress) (m m' : Machine S O)
      → (on_db (save_cursor S c) >> pure q) m ≡ (ok p, m')
      → ((save_cursor S c m.db).0 ≡ ok tt) × (m' ≡ record m { db = (save_cursor S c m.db).1 })
  saved_ok c q p m m' h =
      let (_, done, rest) = >>=-eq-ok (on_db (save_cursor S c)) (λ _. pure q) m h in
      (done, sym (ap world_of rest))

  -- The worlds around a submission: the entries were sent, with a line before and one behind.
  abbrev pub Sent : ℕ → ℕ → List BatchEntry → O.World → O.World → Type 0
  Sent cursor c entries w w' =
      (v : O.World) × (send_batch K S O cli args cursor c entries (O.now w) w ≡ (ok tt, v))
      × (w' ≡ O.print (anchored_line entries) v)

  pub submit_ok :
      (cursor c : ℕ) (entries : List BatchEntry) (m m' : Machine S O)
      → args.dry_run ≡ false
      → submit K S O cli args cursor c entries m ≡ (ok tt, m')
      → (mark_all S entries m.db ≡ (ok tt, m'.db)) × Sent cursor c entries m.world m'.world
  unfolding submit
  submit_ok cursor c entries m m' real h =
      let (_, sent, rest) =
        >>=-eq-ok (on_world (send_batch K S O cli args cursor c entries (O.now m.world)))
          (λ _. on_db (mark_all S entries) >> printed) m (rw real at h) in
      let (_, marked, last) = >>=-eq-ok (on_db (mark_all S entries)) (λ _. printed) _ rest in
      let v = (send_batch K S O cli args cursor c entries (O.now m.world) m.world).1 in
      (λ i. (marked i, (last i).1.db), (v, (λ i. (sent i, v)), sym (ap world_of_machine last)))
    where
      printed : Action (Machine S O) Error (Unit {0})
      printed = on_world (effect (O.print (anchored_line entries)))

      world_of_machine : Outcome Error (Unit {0}) × Machine S O → O.World
      world_of_machine r = r.1.world

  -- What a dry run does in place of a submission.
  abbrev pub previewed : ℕ → ℕ → List BatchEntry → O.World → O.World
  previewed cursor c [] w = w
  previewed cursor c (e ∷ entries) w = print_all O (preview K cursor c (e ∷ entries)) w

  submit_dry :
      (cursor c : ℕ) (entries : List BatchEntry) (m : Machine S O)
      → args.dry_run ≡ true
      → submit K S O cli args cursor c entries m
        ≡ (ok tt, record m { world = print_all O (preview K cursor c entries) m.world })
  unfolding submit
  submit_dry cursor c entries m dry = rw dry refl

  pub handle_ok :
      (st : LoopState) (x : DeliveryMsg) (xs : List DeliveryMsg) (p : Progress) (m m' : Machine S O)
      → handle K S O cli args st (x ∷ xs) m ≡ (ok p, m')
      → (entries : List BatchEntry) × (gather K S m.db (x ∷ xs) ≡ ok entries)
        × (process K S O cli args st (advance st.cursor (x ∷ xs)) entries m ≡ (ok p, m'))
  unfolding handle
  handle_ok st x xs p m m' h =
      >>=-eq-ok (gets_db (λ db. gather K S db (x ∷ xs)))
        (λ entries. process K S O cli args st (advance st.cursor (x ∷ xs)) entries) m h

  -- What a round does to the database, from the entries on.
  pub process_real :
      (st : LoopState) (c : ℕ) (entries : List BatchEntry) (p : Progress) (m m' : Machine S O)
      → args.dry_run ≡ false
      → process K S O cli args st c entries m ≡ (ok p, m')
      → (db : S.Db) × (mark_all S entries m.db ≡ (ok tt, db))
        × ((save_cursor S c db).0 ≡ ok tt)
        × (m'.db ≡ (save_cursor S c db).1)
  unfolding process mark_all
  process_real st c [] p m m' real h =
      let (done, e) = saved_ok c _ p m m' h in (m.db, refl, done, ap (λ (x : Machine S O). x.db) e)
  process_real st c (x ∷ entries) p m m' real h =
      let (_, sent, rest) =
        >>=-eq-ok (submit K S O cli args st.cursor c (x ∷ entries))
          (λ _.
            on_db (save_cursor S c)
            >> pure (
                ended K S O cli args
                  (record { batches_submitted = st.batches_submitted + 1; cursor = c })))
          m h in
      let v = (submit K S O cli args st.cursor c (x ∷ entries) m).1 in
      let (done, e) = saved_ok c _ p v m' rest in
      (
        v.db,
        (submit_ok st.cursor c (x ∷ entries) m v real (λ i. (sent i, v))).0,
        done,
        ap (λ (x : Machine S O). x.db) e,
      )

  pub process_dry :
      (st : LoopState) (c : ℕ) (entries : List BatchEntry) (p : Progress) (m m' : Machine S O)
      → args.dry_run ≡ true
      → process K S O cli args st c entries m ≡ (ok p, m')
      → ((save_cursor S c m.db).0 ≡ ok tt)
        × (m'.db ≡ (save_cursor S c m.db).1)
        × (m'.world ≡ previewed st.cursor c entries m.world)
  unfolding process
  process_dry st c [] p m m' dry h =
      let (saved, e) = saved_ok c _ p m m' h in
      (saved, ap (λ (v : Machine S O). v.db) e, ap (λ (v : Machine S O). v.world) e)
  process_dry st c (x ∷ entries) p m m' dry h =
      let printed = print_all O (preview K st.cursor c (x ∷ entries)) m.world in
      let (saved, e) =
        saved_ok c _ p (record m { world = printed }) m'
          (rw (submit_dry st.cursor c (x ∷ entries) m dry) at h) in
      (saved, ap (λ (v : Machine S O). v.db) e, ap (λ (v : Machine S O). v.world) e)

  module _ (L : IsLawful S) where
    Settled-of_Covered :
        (entries : List BatchEntry) (db db' : S.Db) (xs : List DeliveryMsg)
        → ((cid : Str)
            → is_anchored S db' cid
              ≡ (if contains (cid_texts entries) cid then ok true else is_anchored S db cid))
        → All (Covered K S db entries) xs
        → All (Settled K S db') xs
    Settled-of_Covered entries db db' [] same _ = tt
    Settled-of_Covered entries db db' (x ∷ xs) same (c, cs) =
        (one c, Settled-of_Covered entries db db' xs same cs)
      where
        one : Covered K S db entries x → Settled K S db' x
        one (inl old) = inl (rw (same x.payload.cid) (ground (arith, old)))
        one (inr (inl bad)) = inr bad
        one (inr (inr listed)) = inl (rw (same x.payload.cid, listed) refl)

-- Where SQLite keeps its laws and the sequence numbers fit a `u64`: after a round on messages that
-- succeeds and is no dry run, the CID of every message is anchored
-- or does not decode, and the saved cursor is the greatest of the old cursor and the messages'
-- sequence numbers.
pub handle_anchors :
    (K : Crates) (S : Sqlite) (O : Outside) (cli : Cfg) (args : RunArgs) (st : LoopState)
    (x : DeliveryMsg) (xs : List DeliveryMsg) (p : Progress) (m m' : Machine S O)
    → IsLawful S
    → args.dry_run ≡ false
    → advance st.cursor (x ∷ xs) < u64_mod
    → handle K S O cli args st (x ∷ xs) m ≡ (ok p, m')
    → All (Settled K S m'.db) (x ∷ xs) × (load_cursor S m'.db ≡ ok (advance st.cursor (x ∷ xs)))
handle_anchors K S O cli args st x xs p m m' L real fits h =
    let (entries, gathered, processed) = handle_ok K S O cli args st x xs p m m' h in
    let c = advance st.cursor (x ∷ xs) in
    let (db, marked, saved, last) =
      process_real K S O cli args st c entries p m m' real processed in
    let same = λ (cid : Str).
      ap (λ d. is_anchored S d cid) last
      ∙ is_anchored-save_cursor S L db c cid
      ∙ is_anchored-mark_all S L entries m.db db cid marked in
    (
      Settled-of_Covered K S O cli args L entries m.db m'.db (x ∷ xs) same
          (gather-Answers K S m.db (x ∷ xs) entries gathered).1,
      ap (load_cursor S) last ∙ load_cursor-save_cursor S L db c fits saved,
    )
