-- ===== src/Indexer/Publish.antt =====
-- document-indexer/src/lib.rs: `hash_envelope` and `upload_and_broadcast`.
pub mod Hash
pub mod Results
use logos_whistleblower.Common.{
  ℕ, zero, suc, ◌/◌, ◌%◌, List, [], ◌∷◌, ◌++◌, Str, Bytes, as_bytes, Outcome, ok, err, panicked,
}
use logos_whistleblower.Common.Effects.{Action, pure, lift, ◌>>=◌, ◌>>◌}
use logos_whistleblower.Indexer.Types.{
  MetadataEnvelope, BroadcastPayload, IndexResult, IndexerConfig, Error,
}
use logos_whistleblower.Indexer.Host.{Crates, Host}
use logos_whistleblower.Indexer.Upload.{upload_with_retry}
use logos_whistleblower.Indexer.Broadcast.{Session, broadcast}

-- The `k` low bytes of `n`, the lowest first; `to_le_bytes` of a `u64` is eight of them.
unfoldable pub le_bytes : ℕ → ℕ → Bytes
le_bytes zero n = []
le_bytes (suc k) n = (n % 256) ∷ le_bytes k (n / 256)

-- The bytes that the hasher is given, in order.
unfoldable pub envelope_bytes : Str → MetadataEnvelope → Bytes
unfolding le_bytes
envelope_bytes cid metadata =
    as_bytes cid
    ++ (as_bytes metadata.title
        ++ (as_bytes metadata.description
            ++ (as_bytes metadata.content_type
                ++ (le_bytes 8 metadata.size_bytes ++ le_bytes 8 metadata.timestamp))))

unfoldable pub hash_envelope : (K : Crates) → Str → MetadataEnvelope → Bytes
unfolding envelope_bytes
hash_envelope K cid metadata = K.sha256 (envelope_bytes cid metadata)

module _ (K : Crates) (H : Host) (config : IndexerConfig) where
  -- An action of the host, in a session.
  unfoldable pub on_host : {A : Type 0} → Action H.World Error A → Action (Session H.World) Error A
  on_host m s = let (r, w) = m s.world in (r, record s { world = w })

  unfoldable pub upload_and_broadcast :
      Bytes → MetadataEnvelope → Action (Session H.World) Error IndexResult
  unfolding on_host
  upload_and_broadcast contents metadata = do
    cid ← on_host (upload_with_retry K H config contents 3)
    let metadata_hash = hash_envelope K cid metadata
    broadcast K H config (record { cid = cid; metadata = metadata })
    pure (record { cid = cid; metadata_hash = metadata_hash })
