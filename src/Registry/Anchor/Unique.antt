-- ===== src/Registry/Anchor/Unique.antt =====
-- The registry keeps its promise: 46-byte CIDs, none twice.
use logos_whistleblower.Common.{
  ◌≡◌, refl, ◌≤◌, true, false, List, [], ◌∷◌, ◌++◌, Bytes, length, contains, contains-append,
  bytes_eq_iff, bytes_eq_refl, All, All-append, Distinct, ok, arith, Bool-cases, inl, inr,
}
use logos_whistleblower.Registry.Types.{
  DocumentRecord, RegistryState, Entry, cid_bytes_len, cids, IsWellFormed, max_batch_size,
}
use logos_whistleblower.Registry.Anchor.{apply_anchor}
use logos_whistleblower.Registry.Anchor.Added.{added, AllSized, apply_anchor-inv}

pub cids-append : (rs qs : List DocumentRecord) → cids (rs ++ qs) ≡ cids rs ++ cids qs
cids-append [] qs = refl
cids-append (r ∷ rs) qs = rw (cids-append rs qs)

Distinct-append :
    (xs ys : List Bytes)
    → Distinct xs
    → Distinct ys
    → ((x : Bytes) → contains xs x ≡ true → contains ys x ≡ false)
    → Distinct (xs ++ ys)
unfolding contains
Distinct-append [] ys _ hy _ = hy
Distinct-append (x ∷ xs) ys (new, hx) hy apart = (
  rw contains-append (ground (arith, apart x, bytes_eq_refl x)),
  Distinct-append xs ys hx hy (λ z m. apart z (ground arith)),
)

-- What is added was not known.
added-new :
    (seen : List Bytes) (entries : List Entry) (x : Bytes)
    → contains seen x ≡ true
    → contains (cids (added seen entries)) x ≡ false
unfolding added contains
added-new seen [] x h = refl
added-new seen (e ∷ entries) x h = ground (
  arith,
  bytes_eq_iff e.cid_bytes x,
  added-new seen entries x,
  added-new (e.cid_bytes ∷ seen) entries x,
)

Distinct-added : (seen : List Bytes) (entries : List Entry) → Distinct (cids (added seen entries))
unfolding added contains
Distinct-added seen [] = tt
Distinct-added seen (e ∷ entries) = elim (Bool-cases (contains seen e.cid_bytes)) [
  | inl old ↦ rw old (Distinct-added seen entries)
  | inr new ↦ rw new (
    added-new (e.cid_bytes ∷ seen) entries e.cid_bytes (ground (arith, bytes_eq_refl e.cid_bytes)),
    Distinct-added (e.cid_bytes ∷ seen) entries,
  )
]

sized-added :
    (seen : List Bytes) (entries : List Entry)
    → AllSized entries
    → All (λ (r : DocumentRecord). length r.cid ≡ cid_bytes_len) (added seen entries)
unfolding added
sized-added seen [] _ = tt
sized-added seen (e ∷ entries) (h, hs) = elim (Bool-cases (contains seen e.cid_bytes)) [
  | inl old ↦ rw old (sized-added seen entries hs)
  | inr new ↦ rw new (h, sized-added (e.cid_bytes ∷ seen) entries hs)
]

length-added :
    (seen : List Bytes) (entries : List Entry) → length (added seen entries) ≤ length entries
unfolding added
length-added seen [] = omega arith
length-added seen (e ∷ entries) =
    ground (arith, length-added seen entries, length-added (e.cid_bytes ∷ seen) entries)

-- A batch that succeeds keeps the registry well-formed: its CIDs have 46 bytes and none stands
-- twice, also where the batch repeats a CID.
pub apply_anchor-IsWellFormed :
    (state state' : RegistryState) (entries : List Entry)
    → IsWellFormed state
    → apply_anchor state entries ≡ ok state'
    → IsWellFormed state'
apply_anchor-IsWellFormed state state' entries wf h =
    let (sized, _, e) = apply_anchor-inv state state' entries h in
    record {
      sized =
          rw e (
            All-append _ state.records _ wf.sized (sized-added (cids state.records) entries sized));
      unique =
          rw (e, cids-append)
            (Distinct-append (cids state.records) _ wf.unique
              (Distinct-added (cids state.records) entries)
              (added-new (cids state.records) entries));
    }

-- A batch that succeeds keeps every record at its place and appends at most 50 records, at most
-- one for each entry.
pub apply_anchor-extends :
    (state state' : RegistryState) (entries : List Entry)
    → apply_anchor state entries ≡ ok state'
    → (new : List DocumentRecord) × (state'.records ≡ state.records ++ new)
      × (length new ≤ length entries)
      × (length new ≤ max_batch_size)
apply_anchor-extends state state' entries h =
    let (sized, small, e) = apply_anchor-inv state state' entries h in
    let bound = length-added (cids state.records) entries in
    (added (cids state.records) entries, e, bound, omega arith)
