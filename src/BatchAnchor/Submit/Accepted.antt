-- ===== src/BatchAnchor/Submit/Accepted.antt =====
-- A batch of the tool before the deployed program.
use logos_whistleblower.Common.{
  ℕ, le→ltb-false, ◌≤◌, ◌≡◌, ◌≢◌, ◌∙◌, ◌⊎◌, inl, inr, refl, List, [], ◌∷◌, ◌++◌, map, Str, Bytes,
  length, All, ok, err, panicked, some, ◌>>=◌, arith, Outcome-cases,
}
use logos_whistleblower.Registry.Types.{
  RegistryState, Entry, max_batch_size, cids, serialization_error,
}
use logos_whistleblower.Registry.Account.{Chain, IsLawful, AccountWithMetadata, read}
use logos_whistleblower.Registry.Account.RoundTrip.{read-set}
use logos_whistleblower.Registry.Anchor.Added.{AllSized}
use logos_whistleblower.Registry.Program.{anchor_batch, write_state, too_large}
use logos_whistleblower.Registry.Program.Grows.{Has, program_loop-Has}
use logos_whistleblower.Registry.Program.Refines.{
  entry_cids, entry_hashes, entry_timestamps, length-entry_cids, run_program,
}
use logos_whistleblower.Registry.Program.Repeats.{unknown, program_loop_ok}
use logos_whistleblower.Indexer.Host.{Crates, U64IsLawful}
use logos_whistleblower.Indexer.Cid.{decode_cid_lem}
use logos_whistleblower.BatchAnchor.Types.{Sqlite, DeliveryMsg}
use logos_whistleblower.BatchAnchor.Delivery.{poll_file}
use logos_whistleblower.BatchAnchor.Delivery.Bounds.{poll_file-IsAhead}
use logos_whistleblower.BatchAnchor.Submit.{BatchEntry, gather}
use logos_whistleblower.BatchAnchor.Submit.Gather.{IsFresh, gather-Answers}

-- What the registry is handed: the entry, with the one timestamp of the batch.
abbrev pub to_entry : ℕ → BatchEntry → Entry
to_entry time e = record { cid_bytes = e.cid; metadata_hash = e.meta_hash; anchor_timestamp = time }

length-to_entry : (time : ℕ) (es : List BatchEntry) → length (map (to_entry time) es) ≡ length es
length-to_entry time [] = refl
length-to_entry time (e ∷ es) = omega (arith, length-to_entry time es)

AllSized-of_fresh :
    (K : Crates) (S : Sqlite) (db : S.Db) (time : ℕ) (es : List BatchEntry)
    → All (IsFresh K S db) es
    → AllSized (map (to_entry time) es)
AllSized-of_fresh K S db time [] _ = tt
AllSized-of_fresh K S db time (e ∷ es) (h, hs) =
    (((decode_cid_lem K e.cid_text e.cid).0 h.decoded).1, AllSized-of_fresh K S db time es hs)

module _ (C : Chain) (reg : AccountWithMetadata C) (s : RegistryState) (entries : List Entry) where
  -- The registry with the entries that it does not have.
  abbrev pub grown : RegistryState
  grown = record { records = s.records ++ unknown (cids s.records) entries }

  -- The grown registry has all CIDs, and the program writes it to the account or fails in that.
  abbrev pub WrittenOrFull : Type 0
  WrittenOrFull =
      ((reg' : AccountWithMetadata C) × (run_program C reg entries ≡ ok (reg' ∷ []))
        × (read C reg'.account ≡ some grown)
        × Has grown (entry_cids entries))
      ⊎ (((e : Str) × (C.to_vec grown ≡ err e)
            × (run_program C reg entries ≡ err (serialization_error e)))
          ⊎ ((bytes : Bytes) × (e : Str) × (C.to_vec grown ≡ ok bytes)
              × (C.try_from bytes ≡ err e)
              × (run_program C reg entries ≡ err (too_large e))))

module _ (C : Chain) (L : IsLawful C) (reg : AccountWithMetadata C) (s : RegistryState)
    (held : read C reg.account ≡ some s) (entries : List Entry) where
  run_program-grown :
      AllSized entries
      → length entries ≤ max_batch_size
      → run_program C reg entries
        ≡ (write_state C reg (grown C reg s entries) >>= λ reg'. ok (reg' ∷ []))
  unfolding anchor_batch
  run_program-grown sized small =
      rw (length-entry_cids, le→ltb-false max_batch_size (length entries) small)
        (rw (held, program_loop_ok (cids s.records) s.records entries sized))

  grown-Has : AllSized entries → Has (grown C reg s entries) (entry_cids entries)
  grown-Has sized =
      (program_loop-Has (cids s.records) (entry_hashes entries) (entry_timestamps entries) 0 s
        (grown C reg s entries) (entry_cids entries)
        (program_loop_ok (cids s.records) s.records entries sized) (λ x m. m)).1

  run_program-written :
      AllSized entries
      → length entries ≤ max_batch_size
      → C.to_vec (grown C reg s entries) ≢ panicked
      → ((bytes : Bytes) → C.try_from bytes ≢ panicked)
      → WrittenOrFull C reg s entries
  run_program-written sized small calm calm' =
      let ran = run_program-grown sized small in
      elim (Outcome-cases (C.to_vec (grown C reg s entries))) [
        | inr (inl (e, p)) ↦ inr (inl (e, p, ran ∙ rw p refl))
        | inr (inr p) ↦ absurd (calm p)
        | inl (bytes, p) ↦ elim (Outcome-cases (C.try_from bytes)) [
          | inr (inl (e, q)) ↦ inr (inr (bytes, e, p, q, ran ∙ rw (p, q) refl))
          | inr (inr q) ↦ absurd (calm' bytes q)
          | inl (d, q) ↦ inl (
            record reg { account = C.set_data reg.account d },
            ran ∙ rw (p, q) refl,
            read-set C L reg.account (grown C reg s entries) bytes d p q,
            grown-Has sized,
          )
        ]
      ]

-- Where sequence numbers are `u64`s and `borsh` and `Data` do not panic, whatever registry the account
-- holds, the deployed program does not refuse what the tool submits from a queue file with a batch
-- size of at most 50, neither for its size nor for a CID: it succeeds, and the account holds the old
-- records and behind them those of the entries whose CIDs it did not have, so that it has all CIDs of
-- the batch; or just that registry does not serialise, or its bytes do not fit into the account, and
-- the program fails with that error.
pub run_program-gather :
    (K : Crates) (S : Sqlite) (C : Chain) (L : IsLawful C) (db : S.Db) (after batch_size time : ℕ)
    (contents : Str) (ms : List DeliveryMsg) (es : List BatchEntry) (reg : AccountWithMetadata C)
    (s : RegistryState) (held : read C reg.account ≡ some s)
    → U64IsLawful K
    → ((t : RegistryState) → C.to_vec t ≢ panicked)
    → ((bytes : Bytes) → C.try_from bytes ≢ panicked)
    → batch_size ≤ max_batch_size
    → poll_file K after batch_size contents ≡ ok ms
    → gather K S db ms ≡ ok es
    → WrittenOrFull C reg s (map (to_entry time) es)
run_program-gather K S C L db after batch_size time contents ms es reg s held u64 calm calm' small
      polled gathered =
    let (fresh, _, few) = gather-Answers K S db ms es gathered in
    let (_, most) = poll_file-IsAhead K u64 after batch_size contents ms polled in
    run_program-written C L reg s held (map (to_entry time) es)
      (AllSized-of_fresh K S db time es fresh) (omega (arith, length-to_entry time es)) (calm _)
      calm'
