-- ===== src/Registry/Program.antt =====
-- cid-registry/src/main.rs: the instructions of the deployed program. `SpelOutput::execute` is
-- given the accounts that it lists; its second argument, the calls that follow, is always empty.
pub mod Inversion
pub mod Grows
pub mod Refines
pub mod Repeats
pub mod Indexing
use logos_whistleblower.Common.{
  ℕ, suc, List, [], ◌∷◌, ◌++◌, Bytes, Str, codes, length, get_elem?, contains, ltb, ◌==◌,
  if◌then◌else◌, Outcome, ok, err, ◌>>=◌, expect, ok_or, map_err,
}
use logos_whistleblower.Registry.Types.{
  RegistryState, SpelError, custom, serialization_error, err_batch_too_large, max_batch_size,
  cid_bytes_len, cids,
}
use logos_whistleblower.Registry.Anchor.{batch_too_large, invalid_cid, push}
use logos_whistleblower.Registry.Account.{Chain, AccountWithMetadata, read}

abbrev pub too_large : Str → SpelError
too_large e = serialization_error (codes "state too large: " ++ e)

abbrev pub deserialise_failed : SpelError
deserialise_failed = custom err_batch_too_large (codes "state deserialise failed")

module _ (existing : List Bytes) (entries_meta_hashes : List Bytes)
    (entries_timestamps : List ℕ) where
  -- The part of a round that may push a record: an index out of range panics.
  abbrev pub push_fresh : ℕ → Bytes → RegistryState → Outcome SpelError RegistryState
  push_fresh i cid state = if contains existing cid then ok state else (do
    metadata_hash ← expect (get_elem? entries_meta_hashes i)
    anchor_timestamp ← expect (get_elem? entries_timestamps i)
    ok (
        push state (record {
          cid = cid;
          metadata_hash = metadata_hash;
          anchor_timestamp = anchor_timestamp;
        })))

  -- `for i in 0..n`, over the CIDs from index `i` on.
  unfoldable pub program_loop : ℕ → RegistryState → List Bytes → Outcome SpelError RegistryState
  program_loop i state [] = ok state
  program_loop i state (cid ∷ entries_cids) =
      if length cid == cid_bytes_len
      then (do state' ← push_fresh i cid state; program_loop (suc i) state' entries_cids)
      else err invalid_cid

module _ (C : Chain) where
  -- The write of the registry at the end of both instructions.
  abbrev pub write_state :
      AccountWithMetadata C → RegistryState → Outcome SpelError (AccountWithMetadata C)
  write_state registry state = do
    bytes ← map_err serialization_error (C.to_vec state)
    contents ← map_err too_large (C.try_from bytes)
    ok (record registry { account = C.set_data registry.account contents })

  unfoldable pub initialize :
      AccountWithMetadata C
      → AccountWithMetadata C
      → Outcome SpelError (List (AccountWithMetadata C))
  initialize registry authority = do
    registry' ← write_state registry (record { records = [] })
    ok (registry' ∷ authority ∷ [])

  unfoldable pub anchor_batch :
      AccountWithMetadata C
      → List Bytes
      → List Bytes
      → List ℕ
      → Outcome SpelError (List (AccountWithMetadata C))
  unfolding program_loop
  anchor_batch registry entries_cids entries_meta_hashes entries_timestamps =
      if ltb max_batch_size (length entries_cids) then err batch_too_large else (do
        state ← ok_or (read C registry.account) deserialise_failed
        state' ←
            program_loop (cids state.records) entries_meta_hashes entries_timestamps 0 state
              entries_cids
        registry' ← write_state registry state'
        ok (registry' ∷ []))
