-- ===== src/Registry/Anchor/Lookup.antt =====
-- What a query finds after a batch: the record that was there, else the first entry of the CID.
use mathlib.Core.Option
use mathlib.Core.Option.{or_else}
use logos_whistleblower.Common.{
  ◌≡◌, refl, true, false, List, [], ◌∷◌, ◌++◌, Option, none, Bytes, find, contains, bytes_eq,
  bytes_eq_iff, if◌then◌else◌, ok, arith,
}
use logos_whistleblower.Registry.Types.{DocumentRecord, RegistryState, Entry, cids}
use logos_whistleblower.Registry.Anchor.{to_record, apply_anchor, find_cid}
use logos_whistleblower.Registry.Anchor.Added.{added, apply_anchor-inv}

-- The first entry of a CID, as a record.
abbrev pub first_entry : Bytes → List Entry → Option DocumentRecord
first_entry cid entries = Option.map to_record (find (λ e. bytes_eq e.cid_bytes cid) entries)

pub find_cid-append :
    (cid : Bytes) (rs qs : List DocumentRecord)
    → find_cid cid (rs ++ qs) ≡ or_else (find_cid cid rs) (find_cid cid qs)
unfolding find or_else
find_cid-append cid [] qs = refl
find_cid-append cid (r ∷ rs) qs = ground (arith, find_cid-append cid rs qs)

-- A CID is found exactly if it is listed.
pub find_cid-none :
    (cid : Bytes) (rs : List DocumentRecord)
    → contains (cids rs) cid ≡ false
    → find_cid cid rs ≡ none
unfolding find contains
find_cid-none cid [] h = refl
find_cid-none cid (r ∷ rs) h = ground (arith, find_cid-none cid rs)

pub find_cid-some :
    (cid : Bytes) (rs : List DocumentRecord) (other : Option DocumentRecord)
    → contains (cids rs) cid ≡ true
    → or_else (find_cid cid rs) other ≡ find_cid cid rs
unfolding find contains or_else
find_cid-some cid [] other h = ground arith
find_cid-some cid (r ∷ rs) other h = ground (arith, find_cid-some cid rs other)

find_cid-added :
    (cid : Bytes) (seen : List Bytes) (entries : List Entry)
    → find_cid cid (added seen entries)
      ≡ (if contains seen cid then none else first_entry cid entries)
unfolding added find contains
find_cid-added cid seen [] = ground arith
find_cid-added cid seen (e ∷ entries) = ground (
  arith,
  bytes_eq_iff e.cid_bytes cid,
  find_cid-added cid seen entries,
  find_cid-added cid (e.cid_bytes ∷ seen) entries,
)

pub find_cid-join :
    (cid : Bytes) (rs : List DocumentRecord) (entries : List Entry)
    → find_cid cid (rs ++ added (cids rs) entries)
      ≡ or_else (find_cid cid rs) (first_entry cid entries)
find_cid-join cid rs entries =
    rw (find_cid-append, find_cid-added)
      (ground (
        arith,
        find_cid-none cid rs,
        find_cid-some cid rs (first_entry cid entries),
        find_cid-some cid rs none,
      ))

-- After a batch that `apply_anchor` accepts, the search of `query_by_cid` finds for every CID the
-- record that it found before, and if there was none, the first entry of the batch with that CID,
-- if any.
pub find_cid-apply_anchor :
    (state state' : RegistryState) (entries : List Entry) (cid : Bytes)
    → apply_anchor state entries ≡ ok state'
    → find_cid cid state'.records ≡ or_else (find_cid cid state.records) (first_entry cid entries)
find_cid-apply_anchor state state' entries cid h =
    rw ((apply_anchor-inv state state' entries h).2) (find_cid-join cid state.records entries)
