-- ===== src/BatchAnchor/Run/Keeps.antt =====
-- What every step of a run keeps, the run keeps, however it ends.
use logos_whistleblower.Common.{
  ℕ, zero, suc, ◌≡◌, subst, List, [], ◌∷◌, ◌&&◌, Option, none, some, Str, codes, strip_prefix, ltb,
  leb, Outcome, ok, err, panicked, Bool-cases, inl, inr, Outcome-cases,
}
use logos_whistleblower.Common.Effects.{Action, pure, ◌>>◌, >>=-keeps}
use logos_whistleblower.Indexer.Types.{Error}
use logos_whistleblower.Indexer.Host.{Crates}
use logos_whistleblower.BatchAnchor.Types.{Sqlite, Outside, Machine, Cfg, DeliveryMsg}
use logos_whistleblower.BatchAnchor.Store.{load_cursor, save_cursor}
use logos_whistleblower.BatchAnchor.Delivery.{poll_by, poll_delivery, messages_of, read_messages}
use logos_whistleblower.BatchAnchor.Submit.{BatchEntry, gather}
use logos_whistleblower.BatchAnchor.Run.{
  RunArgs, LoopState, Progress, stop, next, on_db, on_world, gets_db, begun, submit, process,
  handle, round, reached_line, start_line, go_on, run_loop, run,
}

module _ (K : Crates) (S : Sqlite) (O : Outside) (cli : Cfg) (args : RunArgs)
    (P : Machine S O → Type 0) where
  -- The steps of a run; entries are submitted that were gathered.
  pub record StepsKeep : Type 0 where
    pub http_got :
        (url : Str) (m : Machine S O) → P m → P (record m { world = (O.http_get url m.world).1 })
    pub printed :
        (line : Str) (m : Machine S O) → P m → P (record m { world = O.print line m.world })
    pub slept : (m : Machine S O) → P m → P (record m { world = O.sleep m.world })
    pub saved : (c : ℕ) (m : Machine S O) → P m → P (record m { db = (save_cursor S c m.db).1 })
    pub submitted :
        (cursor c : ℕ) (ms : List DeliveryMsg) (e : BatchEntry) (entries : List BatchEntry)
        (m : Machine S O)
        → gather K S m.db ms ≡ ok (e ∷ entries)
        → P m
        → P (submit K S O cli args cursor c (e ∷ entries) m).1

  module _ (steps : StepsKeep) where
    poll_by-keeps :
        (source topic : Str) (after limit : ℕ) (file bridge : Option Str) (m : Machine S O)
        → P m
        → P (on_world (poll_by K O source topic after limit file bridge) m).1
    poll_by-keeps source topic after limit (some path) bridge m p = p
    poll_by-keeps source topic after limit none (some _) m p =
        let got = steps.http_got _ m p in
        >>=-keeps (λ (w : O.World). P (record m { world = w })) (O.http_get _)
          (λ body. pure (read_messages K (messages_of K body))) m.world got (λ _ _. got)
    poll_by-keeps source topic after limit none none m p = p

    poll_delivery-keeps :
        (source topic : Str) (after limit : ℕ) (m : Machine S O)
        → P m
        → P (on_world (poll_delivery K O source topic after limit) m).1
    unfolding poll_delivery
    poll_delivery-keeps source topic after limit =
        poll_by-keeps source topic after limit (strip_prefix (codes "file:") source)
          (strip_prefix (codes "http:") source)

    saved-keeps :
        (c : ℕ) (p : Progress) (m : Machine S O) → P m → P ((on_db (save_cursor S c) >> pure p) m).1
    saved-keeps c p m h =
        let saved = steps.saved c m h in
        >>=-keeps P (on_db (save_cursor S c)) _ m saved (λ _ _. saved)

    process-keeps :
        (st : LoopState) (c : ℕ) (ms : List DeliveryMsg) (entries : List BatchEntry)
        (m : Machine S O)
        → gather K S m.db ms ≡ ok entries
        → P m
        → P (process K S O cli args st c entries m).1
    unfolding process
    process-keeps st c ms [] m _ p = saved-keeps c _ m p
    process-keeps st c ms (e ∷ entries) m gathered p =
        let sent = steps.submitted st.cursor c ms e entries m gathered p in
        >>=-keeps P (submit K S O cli args st.cursor c (e ∷ entries)) _ m sent
          (λ _ _. saved-keeps c _ _ sent)

    handle-keeps :
        (st : LoopState) (ms : List DeliveryMsg) (m : Machine S O)
        → P m
        → P (handle K S O cli args st ms m).1
    unfolding handle
    handle-keeps st [] m p = elim (Bool-cases args.once) [
      | inl one ↦ rw one p
      | inr more ↦ rw more (steps.slept m p)
    ]
    handle-keeps st (x ∷ xs) m p =
        >>=-keeps P (gets_db (λ db. gather K S db (x ∷ xs))) _ m p
          (λ entries gathered. process-keeps st _ (x ∷ xs) entries m gathered p)

    round-keeps : (st : LoopState) (m : Machine S O) → P m → P (round K S O cli args st m).1
    unfolding round
    round-keeps st m p =
        elim (Bool-cases (ltb 0 args.max_batches && leb args.max_batches st.batches_submitted)) [
          | inl full ↦ simp full (steps.printed (reached_line args.max_batches) m p)
          | inr room ↦
              let polled =
                poll_delivery-keeps cli.delivery_source args.topic st.cursor args.batch_size m p in
              simp room (
                >>=-keeps P (on_world (polls st)) (handle K S O cli args st) m polled
                  (λ ms _. handle-keeps st ms _ polled))
        ]
      where
        polls : LoopState → Action O.World Error (List DeliveryMsg)
        polls s = poll_delivery K O cli.delivery_source args.topic s.cursor args.batch_size

    abbrev Over : Option (Outcome Error (Unit {0}) × Machine S O) → Type 0
    Over none = Unit
    Over (some (r, m)) = P m

    go_on-keeps :
        (r : Outcome Error Progress) (m : Machine S O)
        (rest : LoopState → Machine S O → Option (Outcome Error (Unit {0}) × Machine S O))
        → P m
        → ((st : LoopState) → Over (rest st m))
        → Over (go_on K S O cli args r m rest)
    go_on-keeps (ok stop) m rest p later = p
    go_on-keeps (ok (next st)) m rest p later = later st
    go_on-keeps (err e) m rest p later = p
    go_on-keeps panicked m rest p later = p

    run_loop-keeps :
        (fuel : ℕ) (st : LoopState) (m : Machine S O)
        → P m
        → Over (run_loop K S O cli args fuel st m)
    unfolding run_loop
    run_loop-keeps zero st m p = tt
    run_loop-keeps (suc fuel) st m p =
        let kept = round-keeps st m p in
        go_on-keeps (round K S O cli args st m).0 (round K S O cli args st m).1
          (run_loop K S O cli args fuel) kept (λ st'. run_loop-keeps fuel st' _ kept)

    -- A property that every step keeps holds after a run that ends, with success or not.
    pub run-keeps :
        (fuel : ℕ) (m m' : Machine S O) (r : Outcome Error (Unit {0}))
        → P m
        → run K S O cli args fuel m ≡ some (r, m')
        → P m'
    unfolding run
    run-keeps fuel m m' r p h = elim (Outcome-cases (load_cursor S m.db)) [
      | inl (c, e) ↦
          let st : LoopState = record { batches_submitted = 0; cursor = c } in
          subst Over (rw (e, run) at h) (
            run_loop-keeps fuel st (begun K S O cli args c m)
              (steps.printed (start_line cli.delivery_source args.topic c) m p))
      | inr (inl (x, e)) ↦ subst Over (rw (e, run) at h) p
      | inr (inr e) ↦ subst Over (rw (e, run) at h) p
    ]
