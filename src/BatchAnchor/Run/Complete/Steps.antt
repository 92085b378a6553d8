-- ===== src/BatchAnchor/Run/Complete/Steps.antt =====
-- How a round ends on a database in which every message up to the cursor is settled.
use logos_whistleblower.Common.{
  ℕ, ◌<◌, ◌≡◌, refl, sym, ◌∙◌, ap, subst, List, [], ◌∷◌, ◌++◌, append_assoc, false, All-append,
  u64_mod, Outcome, ok, err, panicked, arith, Bool-cases, inl, inr, Outcome-cases,
}
use logos_whistleblower.Common.Effects.{pure, ◌>>◌, >>=-eq-ok}
use logos_whistleblower.Indexer.Types.{Error}
use logos_whistleblower.Indexer.Host.{Crates}
use logos_whistleblower.BatchAnchor.Types.{Sqlite, Outside, Machine, Cfg, DeliveryMsg}
use logos_whistleblower.BatchAnchor.Store.{save_cursor}
use logos_whistleblower.BatchAnchor.Store.Laws.{IsLawful}
use logos_whistleblower.BatchAnchor.Delivery.Bounds.{AllFit}
use logos_whistleblower.BatchAnchor.Delivery.Queue.{pending, advance-append}
use logos_whistleblower.BatchAnchor.Submit.{BatchEntry, advance}
use logos_whistleblower.BatchAnchor.Run.{
  RunArgs, LoopState, Progress, stop, next, on_db, ended, submit, process, handle,
}
use logos_whistleblower.BatchAnchor.Run.Anchors.{handle_ok, handle_anchors}
use logos_whistleblower.BatchAnchor.Run.Marks.{handle_marks}
use logos_whistleblower.BatchAnchor.Run.Since.{advance-lt}
use logos_whistleblower.BatchAnchor.Run.Complete.Done.{IsDone, Stays, Settled-Anchors, handle-Stays}

module _ (K : Crates) (S : Sqlite) (O : Outside) (cli : Cfg) (args : RunArgs)
    (ms : List DeliveryMsg) (start : ℕ) where
  abbrev Done : ℕ → S.Db → Type 0
  Done = IsDone K S O cli args ms start

  -- The variables that a round leaves are those of the saved cursor.
  ended-next :
      (a b : LoopState) (w m : Machine S O)
      → ◌≡◌ {A = Outcome Error Progress × Machine S O}
          (ok (ended K S O cli args a), w)
          (ok (next b), m)
      → b.cursor ≡ a.cursor
  ended-next a b w m h = elim (Bool-cases args.once) [
    | inl one ↦ cc (h, one)
    | inr more ↦ cc (h, more)
  ]

  saved-next :
      (n : ℕ) (a b : LoopState) (m m' : Machine S O)
      → (on_db (save_cursor S n) >> pure (ended K S O cli args a)) m ≡ (ok (next b), m')
      → b.cursor ≡ a.cursor
  saved-next n a b m m' h =
      let (_, _, rest) =
        >>=-eq-ok (on_db (save_cursor S n)) (λ _. pure (ended K S O cli args a)) m h in
      ended-next a b _ m' rest

  process-next :
      (st b : LoopState) (n : ℕ) (entries : List BatchEntry) (m m' : Machine S O)
      → process K S O cli args st n entries m ≡ (ok (next b), m')
      → b.cursor ≡ n
  unfolding process
  process-next st b n [] m m' h = saved-next n _ b m m' h
  process-next st b n (e ∷ entries) m m' h =
      let (_, _, rest) = >>=-eq-ok (submit K S O cli args st.cursor n (e ∷ entries)) _ m h in
      saved-next n _ b _ m' rest

  -- How a round ends: the database is done up to a cursor, that of the next round if there is one.
  abbrev pub End : Outcome Error Progress × Machine S O → Type 0
  End (ok (next st), m) = Done st.cursor m.db
  End (_, m) = (c : ℕ) × Done c m.db

  End-of_IsDone :
      (p : Progress) (n : ℕ) (m : Machine S O)
      → ((b : LoopState) → p ≡ next b → b.cursor ≡ n)
      → Done n m.db
      → End (ok p, m)
  End-of_IsDone stop n m same d = (n, d)
  End-of_IsDone (next b) n m same d = subst (λ (c : ℕ). Done c m.db) (sym (same b refl)) d

  module _ (L : IsLawful S) (real : args.dry_run ≡ false) where
    -- A round on messages that succeeds settles them.
    handled-IsDone :
        (st : LoopState) (x : DeliveryMsg) (xs : List DeliveryMsg) (p : Progress)
        (m m' : Machine S O)
        → Done st.cursor m.db
        → pending st.cursor ms ≡ (x ∷ xs) ++ pending (advance st.cursor (x ∷ xs)) ms
        → advance st.cursor (x ∷ xs) < u64_mod
        → handle K S O cli args st (x ∷ xs) m ≡ (ok p, m')
        → Done (advance st.cursor (x ∷ xs)) m'.db
    handled-IsDone st x xs p m m' d split fits h =
        let (before, reached, eq, settled) = d.seen in
        let (new, loaded) = handle_anchors K S O cli args st x xs p m m' L real fits h in
        let (entries, _, _, same) = handle_marks K S O cli args st x xs p m m' L real h in
        let old =
          Settled-Anchors K S m.db m'.db before (λ cid a. rw (same cid) (ground (arith, a)))
            settled in
        record {
          loaded = loaded;
          fits = fits;
          seen = (
            before ++ x ∷ xs,
            ap (λ a. advance a (x ∷ xs)) reached ∙ sym (advance-append start before (x ∷ xs)),
            eq ∙ ap (λ l. before ++ l) split ∙ sym (append_assoc before (x ∷ xs) _),
            All-append _ before (x ∷ xs) old new,
          );
        }

    handle-End :
        (st : LoopState) (x : DeliveryMsg) (xs : List DeliveryMsg) (m : Machine S O)
        → Done st.cursor m.db
        → pending st.cursor ms ≡ (x ∷ xs) ++ pending (advance st.cursor (x ∷ xs)) ms
        → advance st.cursor (x ∷ xs) < u64_mod
        → End (handle K S O cli args st (x ∷ xs) m)
    handle-End st x xs m d split fits =
        let m' = (handle K S O cli args st (x ∷ xs) m).1 in
        let stays = handle-Stays K S O cli args ms start L st.cursor st x xs m d in
        elim (Outcome-cases (handle K S O cli args st (x ∷ xs) m).0) [
          | inl (p, e) ↦
              let h : handle K S O cli args st (x ∷ xs) m ≡ (ok p, m') = λ i. (e i, m') in
              subst End (sym h) (
                End-of_IsDone p (advance st.cursor (x ∷ xs)) m' (last p m' h)
                  (handled-IsDone st x xs p m m' d split fits h))
          | inr (inl (y, e)) ↦
              let h : handle K S O cli args st (x ∷ xs) m ≡ (err y, m') = λ i. (e i, m') in
              subst End (sym h)
                (st.cursor, subst (Stays K S O cli args ms start L st.cursor) h stays)
          | inr (inr e) ↦
              let h : handle K S O cli args st (x ∷ xs) m ≡ (panicked, m') = λ i. (e i, m') in
              subst End (sym h)
                (st.cursor, subst (Stays K S O cli args ms start L st.cursor) h stays)
        ]
      where
        last :
            (p : Progress) (m' : Machine S O)
            → handle K S O cli args st (x ∷ xs) m ≡ (ok p, m')
            → (b : LoopState) → p ≡ next b
            → b.cursor ≡ advance st.cursor (x ∷ xs)
        last p m' h b e =
            let (entries, _, processed) =
              handle_ok K S O cli args st x xs (next b) m m'
                (h ∙ ap (λ (q : Progress). (ok q, m')) e) in
            process-next st b (advance st.cursor (x ∷ xs)) entries m m' processed

    -- The round from a batch on that is the front of the pending messages.
    pub batch-End :
        (st : LoopState) (batch : List DeliveryMsg) (m : Machine S O)
        → Done st.cursor m.db
        → pending st.cursor ms ≡ batch ++ pending (advance st.cursor batch) ms
        → AllFit batch
        → End (handle K S O cli args st batch m)
    unfolding handle
    batch-End st [] m d split all = elim (Bool-cases args.once) [
      | inl one ↦ simp one (st.cursor, d)
      | inr more ↦ simp more d
    ]
    batch-End st (x ∷ xs) m d split all =
        handle-End st x xs m d split (advance-lt st.cursor (x ∷ xs) d.fits all)
