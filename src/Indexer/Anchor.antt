-- ===== src/Indexer/Anchor.antt =====
-- document-indexer/src/lib.rs: `anchor_batch` and `is_anchored`, through the `spel` command.
pub mod Decoding
pub mod Arguments
pub mod Lookup
use logos_whistleblower.Common.{
  ℕ, List, [], ◌∷◌, ◌++◌, Bool, true, false, ◌||◌, not, Option, none, some, Str, Bytes, codes, join,
  to_string, length, map, bytes_eq, find, lines, has_text, last_word_of, ltb, if◌then◌else◌,
  Outcome, ok, err, panicked, ◌>>=◌ as ◌>>?◌,
}
use logos_whistleblower.Common.Effects.{Action, pure, lift, gets, ◌>>=◌, ◌>>◌}
use logos_whistleblower.Registry.Types.{max_batch_size}
use logos_whistleblower.Indexer.Types.{Error, message, unwrap_or}
use logos_whistleblower.Indexer.Host.{Crates, Host, Output}
use logos_whistleblower.Indexer.Upload.{ensure}
use logos_whistleblower.Indexer.Cid.{decode_cid}

-- `spel`'s arguments for a batch.
abbrev pub anchor_args : Str → Str → Str → Str → List Str
anchor_args idl cids metas times =
    codes "--idl"
    ∷ idl
    ∷ codes "--"
    ∷ codes "anchor-batch"
    ∷ codes "--entries-cids"
    ∷ cids
    ∷ codes "--entries-meta-hashes"
    ∷ metas
    ∷ codes "--entries-timestamps"
    ∷ times
    ∷ []

-- The word at the end of the line with the hash of the transaction.
abbrev tx_of : Str → Str
tx_of stdout = elim (find (has_text (codes "tx_hash")) (lines stdout)) [
  | none ↦ codes "submitted"
  | some line ↦ unwrap_or (last_word_of line) (codes "submitted")
]

abbrev too_many : ℕ → Error
too_many n = message (
    codes "batch size "
    ++ (to_string n ++ (codes " exceeds MAX_BATCH_SIZE " ++ to_string max_batch_size)))

module _ (K : Crates) where
  -- `map(|(c, _)| decode_cid(c).map(hex::encode)).collect::<Result<Vec<_>>>()`: the first error
  -- wins.
  unfoldable pub decode_all : List (Str × Bytes) → Outcome Error (List Str)
  decode_all [] = ok []
  decode_all ((cid, _) ∷ entries) =
      decode_cid K cid >>? λ bytes. decode_all entries >>? λ rest. ok (K.hex bytes ∷ rest)

module _ (K : Crates) (H : Host) where
  abbrev env_or : Str → Str → Action H.World Error Str
  env_or name default = gets (λ w. unwrap_or (H.var w name) default)

  unfoldable pub anchor_batch : List (Str × Bytes) → ℕ → Action H.World Error Str
  unfolding decode_all
  anchor_batch [] timestamp = pure (codes "no-op")
  anchor_batch (entry ∷ more) timestamp = do
    let entries = entry ∷ more
    if ltb max_batch_size (length entries) then lift (err (too_many (length entries))) else do
      cids ← lift (decode_all K entries)
      spel ← env_or (codes "SPEL_BIN") (codes "spel")
      idl ← env_or (codes "SPEL_IDL") (codes "cid-registry/cid-registry.idl.json")
      workdir ← env_or (codes "SPEL_WORKDIR") (codes ".")
      out ←
          H.command spel
            (anchor_args idl (join b',' cids) (join b',' (map (λ (_, h). K.hex h) entries))
              (join b',' (map (λ _. to_string timestamp) entries)))
            (some workdir)
      ensure out.success (codes "spel anchor-batch failed: " ++ K.lossy out.stderr)
      pure (tx_of (K.lossy out.stdout))

  -- `rs.iter().any(|r| r["cid"].as_str() == Some(want))`
  abbrev pub lists_cid : Str → List K.Json → Bool
  lists_cid want [] = false
  lists_cid want (r ∷ rs) =
      elim (K.as_str (K.get r (codes "cid"))) [ none ↦ false | some cid ↦ bytes_eq cid want ]
      || lists_cid want rs

  -- `unwrap_or_default()`
  abbrev pub or_null : Outcome Error K.Json → K.Json
  or_null (ok v) = v
  or_null _ = K.null

  abbrev pub listed : Str → Option (List K.Json) → Bool
  listed want none = false
  listed want (some rs) = lists_cid want rs

  -- The answer that an output gives.
  abbrev pub answer : Bytes → Output → Bool
  answer bytes out =
      listed (K.hex bytes)
        (K.as_array (K.get (or_null (K.from_slice out.stdout)) (codes "records")))

  -- `spel inspect` on the account of the registry.
  abbrev pub inspected : Action H.World Error Output
  inspected = do
    spel ← env_or (codes "SPEL_BIN") (codes "spel")
    idl ← env_or (codes "SPEL_IDL") (codes "cid-registry/cid-registry.idl.json")
    workdir ← env_or (codes "SPEL_WORKDIR") (codes ".")
    pda ← env_or (codes "REGISTRY_PDA") (codes "6QzQcyJn7LoYiSZkNoLmv5SbYCC4ba4BEDGt7KTeXCEM")
    H.command spel
        (codes "inspect" ∷ pda ∷ codes "--idl" ∷ idl ∷ codes "--type" ∷ codes "RegistryState" ∷ [])
        (some workdir)

  unfoldable pub is_anchored : Str → Action H.World Error Bool
  is_anchored cid = do bytes ← lift (decode_cid K cid); out ← inspected; pure (answer bytes out)
