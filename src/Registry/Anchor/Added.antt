-- ===== src/Registry/Anchor/Added.antt =====
-- The records after a batch: the old ones, then the first entry of each new CID.
use logos_whistleblower.Common.{
  ◌≤◌, ◌≡◌, ◌⊎◌, inl, inr, List, [], ◌∷◌, ◌++◌, append_assoc, append-nil, Bytes, length, contains,
  All, if◌then◌else◌, ok, err, arith, Bool-cases,
}
use logos_whistleblower.Registry.Types.{
  DocumentRecord, RegistryState, Entry, max_batch_size, cid_bytes_len, cids,
}
use logos_whistleblower.Registry.Anchor.{invalid_cid, to_record, push, anchor_loop, apply_anchor}

-- The entries that a batch adds, in order, when the CIDs of `seen` are known.
unfoldable pub added : List Bytes → List Entry → List DocumentRecord
added seen [] = []
added seen (e ∷ entries) =
    let known = contains seen e.cid_bytes in
    let rest = added (if known then seen else e.cid_bytes ∷ seen) entries in
    if known then rest else to_record e ∷ rest

abbrev pub AllSized : List Entry → Type 0
AllSized = All (λ e. length e.cid_bytes ≡ cid_bytes_len)

-- The loop succeeds when all CIDs have 46 bytes, and appends what is added.
pub anchor_loop_ok :
    (seen : List Bytes) (rs : List DocumentRecord) (entries : List Entry)
    → AllSized entries
    → anchor_loop seen (record { records = rs }) entries
      ≡ ok (record { records = rs ++ added seen entries })
unfolding anchor_loop added
anchor_loop_ok seen rs [] _ = rw append-nil
anchor_loop_ok seen rs (e ∷ entries) (h, hs) = elim (Bool-cases (contains seen e.cid_bytes)) [
  | inl old ↦ rw old (rw h (anchor_loop_ok seen rs entries hs))
  | inr new ↦ rw new (
      rw h (
        rw (anchor_loop_ok (e.cid_bytes ∷ seen) (rs ++ to_record e ∷ []) entries hs)
          (rw append_assoc)))
]

-- It fails, with one error, exactly when some CID has another length.
pub anchor_loop-cases :
    (seen : List Bytes) (state : RegistryState) (entries : List Entry)
    → (AllSized entries) ⊎ (anchor_loop seen state entries ≡ err invalid_cid)
unfolding anchor_loop
anchor_loop-cases seen state [] = inl tt
anchor_loop-cases seen state (e ∷ entries) = ground (
  arith,
  anchor_loop-cases seen state entries,
  anchor_loop-cases (e.cid_bytes ∷ seen) (push state (to_record e)) entries,
)

-- On success all CIDs have 46 bytes, and the batch is within its limit.
pub apply_anchor-inv :
    (state state' : RegistryState) (entries : List Entry)
    → apply_anchor state entries ≡ ok state'
    → AllSized entries
      × (length entries ≤ max_batch_size)
      × (state'.records ≡ state.records ++ added (cids state.records) entries)
unfolding apply_anchor
apply_anchor-inv state state' entries h =
    elim (anchor_loop-cases (cids state.records) state entries) [
      | inl sized ↦
          let run = anchor_loop_ok (cids state.records) state.records entries sized in
          (sized, ground arith, ground (arith, run))
      | inr bad ↦ absurd (ground (arith, bad))
    ]

-- A batch of at most 50 CIDs, all of 46 bytes, succeeds.
pub apply_anchor_of_sized :
    (state : RegistryState) (entries : List Entry)
    → AllSized entries
    → length entries ≤ max_batch_size
    → apply_anchor state entries
      ≡ ok (record { records = state.records ++ added (cids state.records) entries })
unfolding apply_anchor
apply_anchor_of_sized state entries sized small =
    ground (arith, anchor_loop_ok (cids state.records) state.records entries sized)

-- Within the limit the batch has only CIDs of 46 bytes, or is refused for a bad one.
pub apply_anchor-cases :
    (state : RegistryState) (entries : List Entry)
    → length entries ≤ max_batch_size
    → (AllSized entries) ⊎ (apply_anchor state entries ≡ err invalid_cid)
unfolding apply_anchor
apply_anchor-cases state entries small =
    ground (arith, anchor_loop-cases (cids state.records) state entries)
