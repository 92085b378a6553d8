-- ===== src/BatchAnchor/Run/Dry.antt =====
-- A dry run: nothing is submitted, but the cursor moves.
use logos_whistleblower.Common.{
  ℕ, ◌≤◌, ◌<◌, max, ◌≡◌, ◌∙◌, ap, List, [], ◌∷◌, true, Str, All, u64_mod, ok, arith,
}
use logos_whistleblower.Indexer.Host.{Crates, U64IsLawful}
use logos_whistleblower.BatchAnchor.Types.{Sqlite, Outside, Machine, Cfg, DeliveryMsg}
use logos_whistleblower.BatchAnchor.Store.{is_anchored, load_cursor}
use logos_whistleblower.BatchAnchor.Store.Laws.{
  IsLawful, load_cursor-save_cursor, is_anchored-save_cursor,
}
use logos_whistleblower.BatchAnchor.Delivery.{poll_file}
use logos_whistleblower.BatchAnchor.Delivery.Bounds.{IsAhead, poll_file-IsAhead}
use logos_whistleblower.BatchAnchor.Delivery.Queue.{le-advance}
use logos_whistleblower.BatchAnchor.Submit.{BatchEntry, gather, advance}
use logos_whistleblower.BatchAnchor.Run.{RunArgs, LoopState, Progress, handle}
use logos_whistleblower.BatchAnchor.Run.Anchors.{previewed, handle_ok, process_dry}

All-le-advance : (a : ℕ) (xs : List DeliveryMsg) → All (λ x. x.seq ≤ advance a xs) xs
unfolding advance
All-le-advance a [] = tt
All-le-advance a (x ∷ xs) =
    (omega (arith, le-advance (max a x.seq) xs), All-le-advance (max a x.seq) xs)

-- A message that a dry run saw comes before what is behind the cursor.
abbrev pub Behind : List DeliveryMsg → DeliveryMsg → Type 0
Behind xs y = All (λ x. x.seq < y.seq) xs

Behind-of_le :
    (c : ℕ) (xs : List DeliveryMsg) (y : DeliveryMsg)
    → All (λ x. x.seq ≤ c) xs
    → c < y.seq
    → Behind xs y
Behind-of_le c [] y _ lt = tt
Behind-of_le c (x ∷ xs) y (h, hs) lt = (omega arith, Behind-of_le c xs y hs lt)

-- Where SQLite keeps its laws and sequence numbers are `u64`s: a round of a dry run on messages
-- that succeeds changes the world by printing alone: a headline and, for each entry that a round that
-- is no dry run would submit, its CID and its hash, or nothing if there are none. No CID becomes
-- anchored. But the cursor is saved behind the messages: whatever a later poll of a queue file
-- gives from that cursor, all the messages of the dry run lie before it.
pub handle_dry :
    (K : Crates) (S : Sqlite) (O : Outside) (cli : Cfg) (args : RunArgs) (st : LoopState)
    (x : DeliveryMsg) (xs : List DeliveryMsg) (p : Progress) (m m' : Machine S O) (limit : ℕ)
    (contents : Str) (later : List DeliveryMsg)
    → IsLawful S
    → U64IsLawful K
    → args.dry_run ≡ true
    → advance st.cursor (x ∷ xs) < u64_mod
    → handle K S O cli args st (x ∷ xs) m ≡ (ok p, m')
    → poll_file K (advance st.cursor (x ∷ xs)) limit contents ≡ ok later
    → ((entries : List BatchEntry) × (gather K S m.db (x ∷ xs) ≡ ok entries)
        × (m'.world
            ≡ previewed K S O cli args st.cursor (advance st.cursor (x ∷ xs)) entries m.world))
      × ((cid : Str) → is_anchored S m'.db cid ≡ is_anchored S m.db cid)
      × (load_cursor S m'.db ≡ ok (advance st.cursor (x ∷ xs)))
      × All (Behind (x ∷ xs)) later
handle_dry K S O cli args st x xs p m m' limit contents later L u64 dry fits h polled =
    let c = advance st.cursor (x ∷ xs) in
    let (entries, gathered, processed) = handle_ok K S O cli args st x xs p m m' h in
    let (saved, last, shown) = process_dry K S O cli args st c entries p m m' dry processed in
    (
      (entries, gathered, shown),
      λ cid. ap (λ d. is_anchored S d cid) last ∙ is_anchored-save_cursor S L m.db c cid,
      ap (λ d. load_cursor S d) last ∙ load_cursor-save_cursor S L m.db c fits saved,
      all later (poll_file-IsAhead K u64 c limit contents later polled).0,
    )
  where
    all :
        (ys : List DeliveryMsg)
        → All (IsAhead K u64 (advance st.cursor (x ∷ xs)) limit) ys
        → All (Behind (x ∷ xs)) ys
    all [] _ = tt
    all (y ∷ ys) (a, as') = (
      Behind-of_le (advance st.cursor (x ∷ xs)) (x ∷ xs) y (All-le-advance st.cursor (x ∷ xs))
          a.above,
      all ys as',
    )
