-- ===== src/BatchAnchor/Submit.antt =====
-- batch-anchor-cli/src/main.rs: the entries of a batch, and `anchor_via_spel`.
pub mod Gather
pub mod Cids
pub mod Accepted
use logos_whistleblower.Common.{
  ℕ, Bool, ◌||◌, lines, trim, has_text, starts_with, List, [], ◌∷◌, ◌++◌, map, Str, Bytes, codes,
  as_bytes, join, to_string, max, Option, none, some, if◌then◌else◌, Outcome, ok, err, panicked,
  map_err, ◌>>=◌ as ◌>>?◌,
}
use logos_whistleblower.Common.Effects.{Action, effect, ◌>>=◌, ◌>>◌}
use logos_whistleblower.Indexer.Types.{Error, message, BroadcastPayload}
use logos_whistleblower.Indexer.Host.{Crates, Output}
use logos_whistleblower.Indexer.Upload.{ensure}
use logos_whistleblower.Indexer.Cid.{decode_cid}
use logos_whistleblower.Indexer.Anchor.{anchor_args}
use logos_whistleblower.BatchAnchor.Types.{Sqlite, Outside, Cfg, DeliveryMsg}
use logos_whistleblower.BatchAnchor.Store.{is_anchored}

-- An element of `entries`, the tuple of decoded CID, hash and text of the CID.
pub record BatchEntry : Type 0 where
  pub cid : Bytes
  pub meta_hash : Bytes
  pub cid_text : Str

-- `unwrap_or_default` on the printed payload.
abbrev or_empty : Outcome Error Str → Outcome Error Str
or_empty (err _) = ok []
or_empty r = r

-- `entries.push(…)`, for an entry that is there.
abbrev pub onto : Option BatchEntry → List BatchEntry → List BatchEntry
onto none entries = entries
onto (some entry) entries = entry ∷ entries

module _ (K : Crates) where
  unfoldable pub metadata_hash_from_payload : BroadcastPayload → Outcome Error Bytes
  metadata_hash_from_payload payload =
      or_empty (K.payload_to_string payload) >>? λ canonical. ok (K.sha256 (as_bytes canonical))

  -- The entry of a message that is not anchored: a CID that does not decode is skipped, with a line
  -- on the standard error.
  abbrev pub entry_from : BroadcastPayload → Outcome Error Bytes → Outcome Error (Option BatchEntry)
  entry_from payload (ok c) = metadata_hash_from_payload payload >>? λ hash.
      ok (some (record { cid = c; meta_hash = hash; cid_text = payload.cid }))
  entry_from payload (err _) = ok none
  entry_from payload panicked = panicked

  module _ (S : Sqlite) where
    -- The loop over the messages, as far as it fills `entries`.
    unfoldable pub gather : S.Db → List DeliveryMsg → Outcome Error (List BatchEntry)
    gather db [] = ok []
    gather db (m ∷ messages) =
        let rest = gather db messages in
        is_anchored S db m.payload.cid >>? λ known.
        if known
        then rest
        else entry_from m.payload (decode_cid K m.payload.cid) >>? λ entry.
            rest >>? λ entries. ok (onto entry entries)

-- The same loop, as far as it advances `new_cursor`.
unfoldable pub advance : ℕ → List DeliveryMsg → ℕ
advance new_cursor [] = new_cursor
advance new_cursor (m ∷ messages) = advance (max new_cursor m.seq) messages

-- The lines of `spel` that are passed on: those on the transaction.
abbrev is_shown : Str → Bool
is_shown l =
    has_text (codes "tx_hash") l || has_text (codes "confirmed") l || starts_with (codes "❌") l

unfoldable pub shown_lines : List Str → List Str
shown_lines [] = []
shown_lines (line ∷ more) =
    let l = trim line in
    let rest = shown_lines more in if is_shown l then (codes "  " ++ l) ∷ rest else rest

-- `println!`, line by line.
unfoldable pub print_all : (O : Outside) → List Str → O.World → O.World
print_all O [] w = w
print_all O (line ∷ more) w = print_all O more (O.print line w)

module _ (K : Crates) (O : Outside) (cli : Cfg) where
  abbrev pub spel_args : List BatchEntry → ℕ → List Str
  spel_args entries timestamp =
      anchor_args cli.idl (join b',' (map (λ e. K.hex e.cid) entries))
        (join b',' (map (λ e. K.hex e.meta_hash) entries))
        (join b',' (map (λ _. to_string timestamp) entries))

  abbrev spawn_context : Outcome Error Output → Outcome Error Output
  spawn_context = map_err (λ _. message (codes "spawning spel (" ++ (cli.spel_bin ++ codes ")")))

  abbrev pub run_spel : List BatchEntry → ℕ → Action O.World Error Output
  run_spel entries timestamp w =
      let (r, w') = O.command cli.spel_bin (spel_args entries timestamp) cli.workdir w in
      (spawn_context r, w')

  unfoldable pub anchor_via_spel : List BatchEntry → ℕ → Action O.World Error (Unit {0})
  unfolding shown_lines print_all
  anchor_via_spel entries timestamp = do
    out ← run_spel entries timestamp
    effect (print_all O (shown_lines (lines (K.lossy out.stdout))))
    ensure out.success (
        codes "spel anchor-batch failed (exit "
        ++ (out.code ++ (codes "): " ++ K.lossy out.stderr)))
