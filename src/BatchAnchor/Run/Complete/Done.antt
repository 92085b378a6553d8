-- ===== src/BatchAnchor/Run/Complete/Done.antt =====
-- Databases in which every message up to the cursor is settled, and rounds that fail on them.
use logos_whistleblower.Common.{
  ℕ, ◌<◌, ◌≡◌, ◌∙◌, List, [], ◌∷◌, ◌++◌, true, Str, All, u64_mod, Outcome, ok, err, panicked, arith,
  Bool-cases, inl, inr,
}
use logos_whistleblower.Common.Effects.{pure, ◌>>◌, >>=-keeps, >>=-cases}
use logos_whistleblower.Indexer.Types.{Error}
use logos_whistleblower.Indexer.Host.{Crates}
use logos_whistleblower.BatchAnchor.Types.{Sqlite, Outside, Machine, Cfg, DeliveryMsg}
use logos_whistleblower.BatchAnchor.Store.{is_anchored, mark_anchored, load_cursor, save_cursor}
use logos_whistleblower.BatchAnchor.Store.Laws.{
  IsLawful, is_anchored-mark_anchored, load_cursor-mark_anchored, save_cursor_failed,
  mark_anchored_failed,
}
use logos_whistleblower.BatchAnchor.Delivery.Queue.{pending}
use logos_whistleblower.BatchAnchor.Submit.{BatchEntry, advance, gather}
use logos_whistleblower.BatchAnchor.Run.{
  RunArgs, LoopState, Progress, on_db, on_world, gets_db, mark_all, submit, send_batch, process,
  handle,
}
use logos_whistleblower.BatchAnchor.Run.Anchors.{Settled}
use logos_whistleblower.BatchAnchor.Run.Since.{unit_cases}

module _ (K : Crates) (S : Sqlite) where
  abbrev pub Anchors : S.Db → S.Db → Type 0
  Anchors db db' = (cid : Str) → is_anchored S db cid ≡ ok true → is_anchored S db' cid ≡ ok true

  pub Settled-Anchors :
      (db db' : S.Db) (xs : List DeliveryMsg)
      → Anchors db db'
      → All (Settled K S db) xs
      → All (Settled K S db') xs
  Settled-Anchors db db' [] more _ = tt
  Settled-Anchors db db' (x ∷ xs) more (inl a, hs) =
      (inl (more x.payload.cid a), Settled-Anchors db db' xs more hs)
  Settled-Anchors db db' (x ∷ xs) more (inr bad, hs) = (inr bad, Settled-Anchors db db' xs more hs)

module _ (K : Crates) (S : Sqlite) (O : Outside) (cli : Cfg) (args : RunArgs)
    (ms : List DeliveryMsg) (start : ℕ) where
  -- The saved cursor is `c`, and every message of the file between `start` and `c` is settled.
  pub record IsDone (c : ℕ) (db : S.Db) : Type 0 where
    pub loaded : load_cursor S db ≡ ok c
    pub fits : c < u64_mod
    pub seen :
        (xs : List DeliveryMsg) × (c ≡ advance start xs)
        × (pending start ms ≡ xs ++ pending c ms)
        × All (Settled K S db) xs

  IsDone-Anchors :
      (c : ℕ) (db db' : S.Db)
      → load_cursor S db' ≡ load_cursor S db
      → Anchors K S db db'
      → IsDone c db
      → IsDone c db'
  IsDone-Anchors c db db' same more d =
      let (xs, reached, split, settled) = d.seen in
      record {
        loaded = same ∙ d.loaded;
        fits = d.fits;
        seen = (xs, reached, split, Settled-Anchors K S db db' xs more settled);
      }

  module _ (L : IsLawful S) (c : ℕ) where
    mark_anchored-IsDone :
        (cid : Str) (db : S.Db) → IsDone c db → IsDone c (mark_anchored S cid db).1
    mark_anchored-IsDone cid db d = elim (unit_cases (mark_anchored S cid db).0) [
      | inl done ↦
          IsDone-Anchors c db (mark_anchored S cid db).1 (load_cursor-mark_anchored S L db cid)
            (λ x a. rw (is_anchored-mark_anchored S L db cid x done) (ground (arith, a))) d
      | inr failed ↦ rw (mark_anchored_failed S L db cid failed) d
    ]

    mark_all-IsDone :
        (entries : List BatchEntry) (db : S.Db) → IsDone c db → IsDone c (mark_all S entries db).1
    unfolding mark_all
    mark_all-IsDone [] db d = d
    mark_all-IsDone (e ∷ entries) db d =
        let marked = mark_anchored-IsDone e.cid_text db d in
        >>=-keeps (IsDone c) (mark_anchored S e.cid_text) _ db marked
          (λ _ _. mark_all-IsDone entries _ marked)

    submit-IsDone :
        (cursor n : ℕ) (entries : List BatchEntry) (m : Machine S O)
        → IsDone c m.db
        → IsDone c (submit K S O cli args cursor n entries m).1.db
    unfolding submit
    submit-IsDone cursor n entries m d = elim (Bool-cases args.dry_run) [
      | inl dry ↦ simp dry d
      | inr real ↦ simp real (
          let marked = mark_all-IsDone entries m.db d in
          >>=-keeps (λ (v : Machine S O). IsDone c v.db)
            (on_world (send_batch K S O cli args cursor n entries (O.now m.world))) _ m d
            (λ _ _.
              >>=-keeps (λ (v : Machine S O). IsDone c v.db) (on_db (mark_all S entries)) _ _ marked
                (λ _ _. marked)))
    ]

    -- A round that fails leaves the database done up to the same cursor.
    abbrev pub Stays : Outcome Error Progress × Machine S O → Type 0
    Stays (ok p, m) = Unit
    Stays (err e, m) = IsDone c m.db
    Stays (panicked, m) = IsDone c m.db

    saved-Stays :
        (n : ℕ) (p : Progress) (m : Machine S O)
        → IsDone c m.db
        → Stays ((on_db (save_cursor S n) >> pure p) m)
    saved-Stays n p m d =
        >>=-cases Stays (on_db (save_cursor S n)) _ m
          (λ e bad. rw (save_cursor_failed S L m.db n (λ q. cc)) d)
          (λ bad. rw (save_cursor_failed S L m.db n (λ q. cc)) d) (λ _ _. tt)

    process-Stays :
        (st : LoopState) (n : ℕ) (entries : List BatchEntry) (m : Machine S O)
        → IsDone c m.db
        → Stays (process K S O cli args st n entries m)
    unfolding process
    process-Stays st n [] m d = saved-Stays n _ m d
    process-Stays st n (e ∷ entries) m d =
        let sent = submit-IsDone st.cursor n (e ∷ entries) m d in
        >>=-cases Stays (submit K S O cli args st.cursor n (e ∷ entries)) _ m (λ _ _. sent)
          (λ _. sent) (λ _ _. saved-Stays n _ _ sent)

    pub handle-Stays :
        (st : LoopState) (x : DeliveryMsg) (xs : List DeliveryMsg) (m : Machine S O)
        → IsDone c m.db
        → Stays (handle K S O cli args st (x ∷ xs) m)
    unfolding handle
    handle-Stays st x xs m d =
        >>=-cases Stays (gets_db (λ db. gather K S db (x ∷ xs))) _ m (λ _ _. d) (λ _. d)
          (λ entries _. process-Stays st _ entries m d)
