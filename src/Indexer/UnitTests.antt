-- ===== src/Indexer/UnitTests.antt =====
-- The unit tests of document-indexer/src/lib.rs, as programs that end with `ok` or panic.
use logos_whistleblower.Common.{
  ◌≡◌, ◌≢◌, refl, Bool, true, false, not, List, [], ◌∷◌, ◌++◌, Str, codes, contains, remove,
  bytes_eq, Outcome, ok, err, panicked, expect_ok, is_err, ◌>>=◌ as ◌>>?◌, Outcome-cases, inl, inr,
  arith,
}
use logos_whistleblower.Common.Effects.{Action, gets, ◌>>=◌}
use logos_whistleblower.Indexer.Types.{
  MetadataEnvelope, BroadcastPayload, IndexerConfig, Error, http, default_config,
}
use logos_whistleblower.Indexer.Host.{Crates, Host}
use logos_whistleblower.Indexer.Cid.{decode_cid}
use logos_whistleblower.Indexer.Cid.Short.{Base58IsLawful, decode_cid_short}
use logos_whistleblower.Indexer.Broadcast.{Session, claim, settle, broadcast, broadcast_via_http}
use logos_whistleblower.Indexer.Ffi.{new_with}

-- `assert!`
abbrev assert : Bool → Outcome Error (Unit {0})
assert true = ok tt
assert false = panicked

abbrev envelope : MetadataEnvelope
envelope = record {
  title = codes "t";
  description = codes "d";
  content_type = codes "text/plain";
  size_bytes = 1;
  timestamp = 1700000000;
  tags = [];
}

abbrev payload_with : Str → BroadcastPayload
payload_with cid = record { cid = cid; metadata = envelope }

module _ (K : Crates) where
  abbrev decode_cid_rejects_wrong_length : Outcome Error (Unit {0})
  decode_cid_rejects_wrong_length = assert (is_err (decode_cid K (codes "Qm123")))

  -- Where base58 has its size law and gives the short text a result.
  decode_cid_rejects_wrong_length_passes :
      Base58IsLawful K
      → decode_cid K (codes "Qm123") ≢ panicked
      → decode_cid_rejects_wrong_length ≡ ok tt
  decode_cid_rejects_wrong_length_passes law ends =
      elim (Outcome-cases (decode_cid K (codes "Qm123"))) [
        | inl (bytes, e) ↦
            absurd
              (decode_cid_short K b'Q' (codes "m123") bytes law (λ h. omega arith) (omega arith) e)
        | inr (inl (x, e)) ↦ rw e refl
        | inr (inr e) ↦ absurd (ends e)
      ]

module _ (K : Crates) (H : Host) where
  abbrev unreachable : IndexerConfig → IndexerConfig
  unreachable config = record config { delivery_url = codes "http://127.0.0.1:1"; backend = http }

  abbrev http_indexer : Action H.World Error IndexerConfig
  http_indexer = do config ← gets (λ w. default_config (H.var w)); new_with K H (unreachable config)

  -- A broadcast by an indexer with this set.
  abbrev broadcast_from :
      IndexerConfig
      → List Str
      → BroadcastPayload
      → H.World
      → Outcome Error (Unit {0}) × Session H.World
  broadcast_from config seen payload w =
      broadcast K H config payload (record { world = w; broadcasted = seen })

  abbrev broadcast_dedups_repeated_cid : Action H.World Error (Unit {0})
  broadcast_dedups_repeated_cid = do
    ix ← http_indexer
    (λ w.
        let (r, s) =
          broadcast_from ix (codes "QmDeadBeef" ∷ []) (payload_with (codes "QmDeadBeef")) w in
        (expect_ok r, s.world))

  abbrev broadcast_first_time_attempts_send : Action H.World Error (Unit {0})
  broadcast_first_time_attempts_send = do
    ix ← http_indexer
    (λ w.
        let (r, s) = broadcast_from ix [] (payload_with (codes "QmFresh")) w in
        (
          assert (is_err r) >>? λ _. assert (not (contains s.broadcasted (codes "QmFresh"))),
          s.world,
        ))

  -- In every world in which the client is built; nothing is sent.
  broadcast_dedups_repeated_cid_passes :
      (w w' : H.World)
      → H.build_client w ≡ (ok tt, w')
      → broadcast_dedups_repeated_cid w ≡ (ok tt, w')
  unfolding broadcast claim contains bytes_eq default_config
  broadcast_dedups_repeated_cid_passes w w' built = rw built refl

  -- In every world in which the client is built and a POST to the port does not go through.
  broadcast_first_time_attempts_send_passes :
      (w w' : H.World)
      → H.build_client w ≡ (ok tt, w')
      → ((path : Str) (payload : BroadcastPayload) (v : H.World)
          → (e : Error) × ((H.post_json (codes "http://127.0.0.1:1" ++ path) payload v).0 ≡ err e))
      → (broadcast_first_time_attempts_send w).0 ≡ ok tt
  unfolding broadcast claim settle contains remove bytes_eq broadcast_via_http default_config
  broadcast_first_time_attempts_send_passes w w' built refuses =
      let (e, failed) =
        refuses (codes "/publish/" ++ codes "whistleblower/v1/documents")
          (payload_with (codes "QmFresh")) w' in
      rw (built, failed) refl
