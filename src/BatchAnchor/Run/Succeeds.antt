-- ===== src/BatchAnchor/Run/Succeeds.antt =====
-- Where `spel` and SQLite work, rounds succeed.
use logos_whistleblower.Common.{
  map, join, ◌≤◌, arith, ℕ, ◌≡◌, ◌≢◌, refl, ap, List, [], ◌∷◌, Bool, true, false, Option, none,
  some, Str, Bytes, as_bytes, Outcome, ok, err, panicked, map_err, Bool-cases, inl, inr,
  Outcome-cases, >>=-ne-panicked, length, ◌==◌, ltb,
}
use logos_whistleblower.Common.Effects.{pure, ◌>>◌, >>=-ok}
use logos_whistleblower.Registry.Types.{cid_bytes_len, max_batch_size}
use logos_whistleblower.Indexer.Types.{Error, BroadcastPayload}
use logos_whistleblower.Indexer.Host.{Crates, Output}
use logos_whistleblower.Indexer.Upload.{ensure}
use logos_whistleblower.Indexer.Cid.{decode_cid}
use logos_whistleblower.BatchAnchor.Types.{Sqlite, Outside, Machine, Cfg, DeliveryMsg}
use logos_whistleblower.BatchAnchor.Store.{is_anchored, mark_anchored, save_cursor, sql_error}
use logos_whistleblower.BatchAnchor.Submit.{
  BatchEntry, onto, entry_from, metadata_hash_from_payload, gather, advance, anchor_via_spel,
  run_spel,
}
use logos_whistleblower.Indexer.Anchor.{anchor_args}
use logos_whistleblower.BatchAnchor.Submit.Gather.{gather-Answers}
use logos_whistleblower.BatchAnchor.Submit.Cids.{
  AreSized, entry_cids, map-entry_cids, fresh-sized, length-entry_cids,
}
use logos_whistleblower.BatchAnchor.Run.{
  RunArgs, LoopState, stop, on_db, on_world, gets_db, mark_all, ended, submit, send_batch, process,
  handle,
}

-- Nothing that the tool calls fails: the statements of SQLite succeed, `spel` exits with success where
-- it is given between one and 50 CIDs of 46 bytes, and the crates do not panic.
pub record Works (K : Crates) (S : Sqlite) (O : Outside) (cli : Cfg) : Type 0 where
  pub counts : (db : S.Db) (cid : Str) → (n : ℕ) × (S.count_cid db cid ≡ ok n)
  pub inserts : (db : S.Db) (cid : Str) → (S.insert_or_ignore cid db).0 ≡ ok tt
  pub replaces : (db : S.Db) (v : Str) → (S.replace_cursor v db).0 ≡ ok tt
  pub commands :
      (c : Bytes) (cs : List Bytes) (text metas times : Str) (w : O.World)
      → AreSized (c ∷ cs)
      → length (c ∷ cs) ≤ max_batch_size
      → text ≡ join b',' (map K.hex (c ∷ cs))
      → (out : Output) × ((O.command cli.spel_bin
            (anchor_args cli.idl text metas times)
            cli.workdir
            w).0
          ≡ ok out)
        × (out.success ≡ true)
  pub decodes : (text : Str) → K.base58 text ≢ panicked
  pub prints : (payload : BroadcastPayload) → K.payload_to_string payload ≢ panicked

module _ (K : Crates) (S : Sqlite) (O : Outside) (cli : Cfg) (works : Works K S O cli) where
  hash-ok :
      (payload : BroadcastPayload) → (h : Bytes) × (metadata_hash_from_payload K payload ≡ ok h)
  unfolding metadata_hash_from_payload
  hash-ok payload = elim (Outcome-cases (K.payload_to_string payload)) [
    | inl (s, e) ↦ (K.sha256 (as_bytes s), rw e refl)
    | inr (inl (x, e)) ↦ (K.sha256 (as_bytes []), rw e refl)
    | inr (inr e) ↦ absurd (works.prints payload e)
  ]

  decode_cid-ne-panicked : (text : Str) → decode_cid K text ≢ panicked
  unfolding decode_cid
  decode_cid-ne-panicked text = >>=-ne-panicked (K.base58 text) _ (works.decodes text) (λ bytes _.
      elim (Bool-cases (length bytes == cid_bytes_len)) [
        | inl sized ↦ rw sized (λ p. cc)
        | inr bad ↦ rw bad (λ p. cc)
      ])

  entry_from-ok :
      (payload : BroadcastPayload) (r : Outcome Error Bytes)
      → r ≢ panicked
      → (entry : Option BatchEntry) × (entry_from K payload r ≡ ok entry)
  entry_from-ok payload (ok c) _ =
      let (hash, e) = hash-ok payload in
      (some (record { cid = c; meta_hash = hash; cid_text = payload.cid }), rw e refl)
  entry_from-ok payload (err x) _ = (none, refl)
  entry_from-ok payload panicked h = absurd (h refl)

  is_anchored-ok : (db : S.Db) (cid : Str) → (b : Bool) × (is_anchored S db cid ≡ ok b)
  unfolding is_anchored
  is_anchored-ok db cid = let (n, e) = works.counts db cid in (ltb 0 n, rw e refl)

  pub gather-ok :
      (db : S.Db) (ms : List DeliveryMsg)
      → (entries : List BatchEntry) × (gather K S db ms ≡ ok entries)
  unfolding gather
  gather-ok db [] = ([], refl)
  gather-ok db (m ∷ ms) =
      let (entries, rest) = gather-ok db ms in
      let (known, e) = is_anchored-ok db m.payload.cid in
      elim (Bool-cases known) [
        | inl old ↦ (entries, rw e (rw old rest))
        | inr new ↦
            let (entry, chosen) =
              entry_from-ok m.payload (decode_cid K m.payload.cid)
                (decode_cid-ne-panicked m.payload.cid) in
            (onto entry entries, rw e (rw new (rw chosen (rw rest refl))))
      ]

  mark_anchored-ok : (db : S.Db) (cid : Str) → (mark_anchored S cid db).0 ≡ ok tt
  unfolding mark_anchored
  mark_anchored-ok db cid = ap (map_err sql_error) (works.inserts db cid)

  save_cursor-ok : (db : S.Db) (c : ℕ) → (save_cursor S c db).0 ≡ ok tt
  unfolding save_cursor
  save_cursor-ok db c = ap (map_err sql_error) (works.replaces db _)

  mark_all-ok : (entries : List BatchEntry) (db : S.Db) → (mark_all S entries db).0 ≡ ok tt
  unfolding mark_all
  mark_all-ok [] db = refl
  mark_all-ok (e ∷ entries) db =
      >>=-ok (mark_anchored S e.cid_text) _ db (mark_anchored-ok db e.cid_text)
        (mark_all-ok entries _)

  ensure-ok : {W : Type 0} (b : Bool) (msg : Str) (w : W) → b ≡ true → (ensure b msg w).0 ≡ ok tt
  ensure-ok true msg w _ = refl
  ensure-ok false msg w h = cc

  anchor_via_spel-ok :
      (e : BatchEntry) (entries : List BatchEntry) (time : ℕ) (w : O.World)
      → AreSized (entry_cids (e ∷ entries))
      → length (entry_cids (e ∷ entries)) ≤ max_batch_size
      → (anchor_via_spel K O cli (e ∷ entries) time w).0 ≡ ok tt
  unfolding anchor_via_spel
  anchor_via_spel-ok e entries time w sized small =
      let (out, ran, success) =
        works.commands e.cid (entry_cids entries) _ _ _ w sized small
          (ap (join b',') (map-entry_cids K.hex (e ∷ entries))) in
      >>=-ok (run_spel K O cli (e ∷ entries) time) _ w (ap (map_err _) ran)
        (ensure-ok out.success _ _ success)

  module _ (args : RunArgs) (one : args.once ≡ true) (real : args.dry_run ≡ false) where
    submit-succeeds :
        (cursor c : ℕ) (e : BatchEntry) (entries : List BatchEntry) (m : Machine S O)
        → AreSized (entry_cids (e ∷ entries))
        → length (entry_cids (e ∷ entries)) ≤ max_batch_size
        → (submit K S O cli args cursor c (e ∷ entries) m).0 ≡ ok tt
    unfolding submit
    submit-succeeds cursor c e entries m sized small = rw real (
        >>=-ok (on_world (send_batch K S O cli args cursor c (e ∷ entries) (O.now m.world))) _ m
          (anchor_via_spel-ok e entries _ _ sized small)
          (>>=-ok (on_db (mark_all S (e ∷ entries))) _ _ (mark_all-ok (e ∷ entries) _) refl))

    saved-stops :
        (c : ℕ) (st : LoopState) (m : Machine S O)
        → ((on_db (save_cursor S c) >> pure (ended K S O cli args st)) m).0 ≡ ok stop
    saved-stops c st m = >>=-ok (on_db (save_cursor S c)) _ m (save_cursor-ok m.db c) (rw one refl)

    process-stops :
        (st : LoopState) (c : ℕ) (entries : List BatchEntry) (m : Machine S O)
        → AreSized (entry_cids entries)
        → length (entry_cids entries) ≤ max_batch_size
        → (process K S O cli args st c entries m).0 ≡ ok stop
    unfolding process
    process-stops st c [] m _ _ = saved-stops c _ m
    process-stops st c (e ∷ entries) m sized small =
        >>=-ok (submit K S O cli args st.cursor c (e ∷ entries)) _ m
          (submit-succeeds st.cursor c e entries m sized small) (saved-stops c _ _)

    -- With `--once`, a round on at most 50 messages ends the run with success.
    pub handle-stops :
        (st : LoopState) (ms : List DeliveryMsg) (m : Machine S O)
        → length ms ≤ max_batch_size
        → (handle K S O cli args st ms m).0 ≡ ok stop
    unfolding handle
    handle-stops st [] m _ = rw one refl
    handle-stops st (x ∷ xs) m small =
        let (entries, gathered) = gather-ok m.db (x ∷ xs) in
        let (fresh, _, few) = gather-Answers K S m.db (x ∷ xs) entries gathered in
        >>=-ok (gets_db (λ db. gather K S db (x ∷ xs))) _ m gathered (
          process-stops st (advance st.cursor (x ∷ xs)) entries m
            (fresh-sized K S m.db entries fresh)
            (omega (arith, length-entry_cids entries, few, small)))
