-- ===== src/Registry/Anchor.antt =====
-- cid-registry/src/lib.rs: `apply_anchor`, the pure transition of a batch anchor, and the search
-- of `query_by_cid`.
pub mod Added
pub mod Errors
pub mod Lookup
pub mod Unique
pub mod View
pub mod Resubmit
use logos_whistleblower.Common.{
  ℕ, Bool, true, false, not, List, [], ◌∷◌, ◌++◌, map, Option, Bytes, codes, length, find, contains,
  bytes_eq, ltb, ◌==◌, if◌then◌else◌, Outcome, ok, err,
}
use logos_whistleblower.Registry.Types.{
  DocumentRecord, RegistryState, Entry, SpelError, custom, err_batch_too_large, err_invalid_cid,
  max_batch_size, cid_bytes_len, cids,
}

abbrev pub batch_too_large : SpelError
batch_too_large = custom err_batch_too_large (codes "batch exceeds 50-CID limit")

abbrev pub invalid_cid : SpelError
invalid_cid = custom err_invalid_cid (codes "CID must be 46 bytes")

abbrev pub to_record : Entry → DocumentRecord
to_record e = record {
  cid = e.cid_bytes;
  metadata_hash = e.metadata_hash;
  anchor_timestamp = e.anchor_timestamp;
}

-- `state.records.push(…)`
abbrev pub push : RegistryState → DocumentRecord → RegistryState
push state r = record { records = state.records ++ r ∷ [] }

-- The loop over `entries`. `seen.insert(cid)` is the test and the second component; the copy of
-- `cid_bytes` into the array `cid` is the identity, as the lengths agree there.
unfoldable pub anchor_loop :
    List Bytes → RegistryState → List Entry → Outcome SpelError RegistryState
anchor_loop seen state [] = ok state
anchor_loop seen state (e ∷ entries) =
    let known = contains seen e.cid_bytes in
    let rest =
      anchor_loop (if known then seen else e.cid_bytes ∷ seen)
        (if known then state else push state (to_record e)) entries in
    if length e.cid_bytes == cid_bytes_len then rest else err invalid_cid

unfoldable pub apply_anchor : RegistryState → List Entry → Outcome SpelError RegistryState
unfolding anchor_loop
apply_anchor state entries =
    if ltb max_batch_size (length entries)
    then err batch_too_large
    else anchor_loop (cids state.records) state entries

-- `state.records.into_iter().find(|r| r.cid == cid)`
abbrev pub find_cid : Bytes → List DocumentRecord → Option DocumentRecord
find_cid cid = find (λ r. bytes_eq r.cid cid)
