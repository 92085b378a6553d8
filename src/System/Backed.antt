-- ===== src/System/Backed.antt =====
-- What the tool's database calls anchored is on the chain.
use logos_whistleblower.Common.{
  ℕ, ◌≡◌, subst, List, [], ◌∷◌, true, some, Bytes, Str, contains, bytes_eq, bytes_eq_iff,
  bytes_eq_refl, All, Outcome, ok, Bool-cases, inl, inr, arith,
}
use logos_whistleblower.Common.Effects.{>>=-keeps}
use logos_whistleblower.Registry.Account
use logos_whistleblower.Registry.Account.{Chain}
use logos_whistleblower.Registry.Program.Grows.{Registered}
use logos_whistleblower.Indexer.Types.{Error}
use logos_whistleblower.Indexer.Host.{Crates}
use logos_whistleblower.Indexer.Cid.{decode_cid}
use logos_whistleblower.BatchAnchor.Types.{Sqlite, Outside, Machine, Cfg}
use logos_whistleblower.BatchAnchor.Store.{is_anchored, mark_anchored, save_cursor}
use logos_whistleblower.BatchAnchor.Store.Laws.{
  IsLawful, is_anchored-mark_anchored, is_anchored-save_cursor, mark_anchored_failed,
}
use logos_whistleblower.BatchAnchor.Submit.{BatchEntry}
use logos_whistleblower.BatchAnchor.Submit.Gather.{IsFresh, gather-Answers}
use logos_whistleblower.BatchAnchor.Run.{
  RunArgs, on_db, on_world, mark_all, preview, anchoring_line, anchored_line, send_batch, submit,
  run,
}
use logos_whistleblower.BatchAnchor.Run.Since.{unit_cases}
use logos_whistleblower.BatchAnchor.Run.Keeps.{StepsKeep, run-keeps}
use logos_whistleblower.BatchAnchor.Submit.Cids.{entry_cids, fresh-sized}
use logos_whistleblower.System.Ledger.{Ledger, Instructions-Extends}
use logos_whistleblower.System.Submission.{
  Later, print_all-Later, anchor_via_spel-Later, anchor_via_spel-Registered,
}

module _ (K : Crates) (S : Sqlite) (O : Outside) (C : Chain) (cli : Cfg)
    (G : Ledger K O C cli) where
  -- Every CID that the database calls anchored decodes, and is in the registry.
  abbrev pub Backed : S.Db → O.World → Type 0
  Backed db w =
      (cid : Str)
      → is_anchored S db cid ≡ ok true
      → (c : Bytes) × (decode_cid K cid ≡ ok c) × Registered C (G.registry w) c

  -- An entry whose text decodes to its bytes, and that is in the registry.
  abbrev Landed : O.World → BatchEntry → Type 0
  Landed w e = (decode_cid K e.cid_text ≡ ok e.cid) × Registered C (G.registry w) e.cid

  fresh-Landed :
      (db : S.Db) (w : O.World) (entries : List BatchEntry)
      → All (IsFresh K S db) entries
      → ((x : Bytes) → contains (entry_cids entries) x ≡ true → Registered C (G.registry w) x)
      → All (Landed w) entries
  unfolding contains
  fresh-Landed db w [] _ on_chain = tt
  fresh-Landed db w (e ∷ entries) (h, hs) on_chain = (
    (h.decoded, on_chain e.cid (ground (arith, bytes_eq_refl e.cid))),
    fresh-Landed db w entries hs (λ x m. on_chain x (ground (arith, m))),
  )

  module _ (L : IsLawful S) where
    mark_anchored-Backed :
        (e : BatchEntry) (db : S.Db) (w : O.World)
        → Landed w e
        → Backed db w
        → Backed (mark_anchored S e.cid_text db).1 w
    mark_anchored-Backed e db w landed h = elim (unit_cases (mark_anchored S e.cid_text db).0) [
      | inl done ↦ λ cid a. elim (Bool-cases (bytes_eq e.cid_text cid)) [
        | inl same ↦
            subst (λ text. (c : Bytes) × (decode_cid K text ≡ ok c) × Registered C (G.registry w) c)
              ((bytes_eq_iff e.cid_text cid).0 same) (e.cid, landed.0, landed.1)
        | inr other ↦ h cid (rw (is_anchored-mark_anchored S L db e.cid_text cid done, other) at a)
      ]
      | inr failed ↦ rw (mark_anchored_failed S L db e.cid_text failed) h
    ]

    mark_all-Backed :
        (entries : List BatchEntry) (db : S.Db) (w : O.World)
        → All (Landed w) entries
        → Backed db w
        → Backed (mark_all S entries db).1 w
    unfolding mark_all
    mark_all-Backed [] db w _ h = h
    mark_all-Backed (e ∷ entries) db w (landed, all) h =
        let marked = mark_anchored-Backed e db w landed h in
        >>=-keeps (λ d. Backed d w) (mark_anchored S e.cid_text) _ db marked
          (λ _ _. mark_all-Backed entries _ w all marked)

    save_cursor-Backed :
        (c : ℕ) (db : S.Db) (w : O.World) → Backed db w → Backed (save_cursor S c db).1 w
    save_cursor-Backed c db w h cid a = h cid (rw (is_anchored-save_cursor S L db c cid) at a)

  module _ (CL : Account.IsLawful C) where
    Backed-Later :
        (db : S.Db) (w w' : O.World) → Later K O C cli CL G w w' → Backed db w → Backed db w'
    Backed-Later db w w' later h cid a = let (c, decoded, r) = h cid a in (c, decoded, later c r)

    module _ (L : IsLawful S) (args : RunArgs) where
      abbrev Sound : Machine S O → Type 0
      Sound m = Backed m.db m.world

      -- The submission of fresh entries.
      submit-Sound :
          (cursor c : ℕ) (e : BatchEntry) (entries : List BatchEntry) (m : Machine S O)
          → All (IsFresh K S m.db) (e ∷ entries)
          → Sound m
          → Sound (submit K S O cli args cursor c (e ∷ entries) m).1
      unfolding submit
      submit-Sound cursor c e entries m fresh h = elim (Bool-cases args.dry_run) [
        | inl dry ↦ simp dry (
            Backed-Later m.db m.world _
              (print_all-Later K O C cli CL G (preview K cursor c (e ∷ entries)) m.world) h)
        | inr real ↦ simp real (
            >>=-keeps Sound
              (on_world (send_batch K S O cli args cursor c (e ∷ entries) (O.now m.world))) _ m
              (Backed-Later m.db m.world _ later h)
              (λ _ sent.
                let all = fresh-Landed m.db world (e ∷ entries) fresh (
                  anchor_via_spel-Registered K O C cli CL G e entries (O.now m.world) announced
                    (fresh-sized K S m.db (e ∷ entries) fresh) sent) in
                let marked =
                  mark_all-Backed L (e ∷ entries) m.db world all
                    (Backed-Later m.db m.world _ later h) in
                >>=-keeps Sound (on_db (mark_all S (e ∷ entries))) _ _ marked
                  (λ _ _. Backed-Later _ world _ (printed world) marked)))
      ]
        where
          announced : O.World
          announced = O.print (anchoring_line cursor c (e ∷ entries)) m.world

          world : O.World
          world = (send_batch K S O cli args cursor c (e ∷ entries) (O.now m.world) m.world).1

          printed : (w : O.World) → Later K O C cli CL G w (O.print (anchored_line (e ∷ entries)) w)
          printed w = Instructions-Extends C CL (G.at_print _ w)

          later : Later K O C cli CL G m.world world
          later = λ x r.
              anchor_via_spel-Later K O C cli CL G (e ∷ entries) (O.now m.world) announced x
                (Instructions-Extends C CL (G.at_print _ m.world) x r)

      steps-Sound : StepsKeep K S O cli args Sound
      steps-Sound = record {
        http_got = λ url m.
            Backed-Later m.db m.world _ (Instructions-Extends C CL (G.at_http_get url m.world));
        printed = λ line m.
            Backed-Later m.db m.world _ (Instructions-Extends C CL (G.at_print line m.world));
        slept = λ m. Backed-Later m.db m.world _ (Instructions-Extends C CL (G.at_sleep m.world));
        saved = λ c m. save_cursor-Backed L c m.db m.world;
        submitted = λ cursor c ms e entries m gathered.
            submit-Sound cursor c e entries m (gather-Answers K S m.db ms (e ∷ entries) gathered).0;
      }

-- Where SQLite and accounts keep their laws and `spel` does what `Ledger` says: if every CID that the
-- database calls anchored decodes to one that the registry has, that is so after a run, however it
-- ends, with success, an error or a panic, and whatever others do on the chain meanwhile.
pub run-Backed :
    (K : Crates) (S : Sqlite) (O : Outside) (C : Chain) (cli : Cfg) (args : RunArgs)
    (G : Ledger K O C cli) (fuel : ℕ) (m m' : Machine S O) (r : Outcome Error (Unit {0}))
    → IsLawful S
    → Account.IsLawful C
    → Backed K S O C cli G m.db m.world
    → run K S O cli args fuel m ≡ some (r, m')
    → Backed K S O C cli G m'.db m'.world
run-Backed K S O C cli args G fuel m m' r L CL h =
    run-keeps K S O cli args (λ v. Backed K S O C cli G v.db v.world)
      (steps-Sound K S O C cli G CL L args) fuel m m' r h
