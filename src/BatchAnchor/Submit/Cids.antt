-- ===== src/BatchAnchor/Submit/Cids.antt =====
-- The CIDs of a batch, as bytes.
use logos_whistleblower.Common.{suc, ◌≡◌, refl, ap, List, [], ◌∷◌, map, Bytes, Str, length, All}
use logos_whistleblower.Registry.Types.{cid_bytes_len}
use logos_whistleblower.Indexer.Host.{Crates}
use logos_whistleblower.Indexer.Cid.{decode_cid_lem}
use logos_whistleblower.BatchAnchor.Types.{Sqlite}
use logos_whistleblower.BatchAnchor.Submit.{BatchEntry}
use logos_whistleblower.BatchAnchor.Submit.Gather.{IsFresh}

abbrev pub entry_cids : List BatchEntry → List Bytes
entry_cids = map (λ e. e.cid)

-- `map` of a function on the CIDs, as the arguments have it.
pub map-entry_cids :
    (f : Bytes → Str) (entries : List BatchEntry)
    → map (λ e. f e.cid) entries ≡ map f (entry_cids entries)
map-entry_cids f [] = refl
map-entry_cids f (e ∷ entries) = ap (λ l. f e.cid ∷ l) (map-entry_cids f entries)

abbrev pub AreSized : List Bytes → Type 0
AreSized = All (λ x. length x ≡ cid_bytes_len)

pub fresh-sized :
    (K : Crates) (S : Sqlite) (db : S.Db) (entries : List BatchEntry)
    → All (IsFresh K S db) entries
    → AreSized (entry_cids entries)
fresh-sized K S db [] _ = tt
fresh-sized K S db (e ∷ entries) (h, hs) =
    (((decode_cid_lem K e.cid_text e.cid).0 h.decoded).1, fresh-sized K S db entries hs)

pub length-entry_cids : (entries : List BatchEntry) → length (entry_cids entries) ≡ length entries
length-entry_cids [] = refl
length-entry_cids (e ∷ entries) = ap suc (length-entry_cids entries)
