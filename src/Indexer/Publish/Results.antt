-- ===== src/Indexer/Publish/Results.antt =====
-- What a publication that succeeds has done, and what a later one of the same CID does.
use logos_whistleblower.Common.{
  ◌⊎◌, inl, inr, ◌∙◌, Bool-cases, true, contains, ◌≡◌, ap, sym, Str, Bytes, ok-injective, subst, ok,
  Outcome,
}
use logos_whistleblower.Common.Effects.{Action, pure, ◌>>◌, >>=-eq-ok}
use logos_whistleblower.Indexer.Types.{
  BroadcastPayload, MetadataEnvelope, IndexResult, IndexerConfig, Error,
}
use logos_whistleblower.Indexer.Host.{Crates, Host}
use logos_whistleblower.Indexer.Upload.{upload_with_retry}
use logos_whistleblower.Indexer.Broadcast.{Session, send_by, broadcast, broadcast_with}
use logos_whistleblower.Indexer.Broadcast.Dedup.{broadcast_known, broadcast_ok, broadcast_fresh}
use logos_whistleblower.Indexer.Publish.{hash_envelope, on_host, upload_and_broadcast}

module _ (K : Crates) (H : Host) (config : IndexerConfig) (contents : Bytes)
    (metadata : MetadataEnvelope) (s s' : Session H.World) (result : IndexResult) where
  -- The parts of a publication with this CID, whose upload left the world `w`.
  abbrev Published : H.World → Str → Type 0
  Published w cid =
      (upload_with_retry K H config contents 3 s.world ≡ (ok cid, w))
      × (broadcast K H config (record { cid = cid; metadata = metadata }) (record s { world = w })
          ≡ (ok tt, s'))
      × (result.metadata_hash ≡ hash_envelope K cid metadata)

  published :
      (w : H.World) (cid : Str)
      → upload_with_retry K H config contents 3 s.world ≡ (ok cid, w)
      → (broadcast K H config (record { cid = cid; metadata = metadata })
            >> pure (record { cid = cid; metadata_hash = hash_envelope K cid metadata }))
          (record s { world = w })
        ≡ (ok result, s')
      → Published w result.cid
  published w cid uploaded h =
      let (_, sent, done) =
        >>=-eq-ok (broadcast K H config (record { cid = cid; metadata = metadata }))
          (λ _. pure (record { cid = cid; metadata_hash = hash_envelope K cid metadata }))
          (record s { world = w }) h in
      let made : record { cid = cid; metadata_hash = hash_envelope K cid metadata } ≡ result =
        ok-injective (ap (λ (r : Outcome Error IndexResult × Session H.World). r.0) done) in
      let left = ap (λ (r : Outcome Error IndexResult × Session H.World). r.1) done in
      subst (Published w) (ap (λ (r : IndexResult). r.cid) made)
        (uploaded, (λ i. (sent i, left i)), sym (ap (λ (r : IndexResult). r.metadata_hash) made))

-- A publication that succeeds ran an upload that gave the CID of its result, and from there a
-- broadcast of that CID with the metadata that succeeded; the hash of its result is that of this
-- CID and metadata.
upload_and_broadcast_ok :
    (K : Crates) (H : Host) (config : IndexerConfig) (contents : Bytes)
    (metadata : MetadataEnvelope) (s s' : Session H.World) (result : IndexResult)
    → upload_and_broadcast K H config contents metadata s ≡ (ok result, s')
    → (w : H.World) × (upload_with_retry K H config contents 3 s.world ≡ (ok result.cid, w))
      × (broadcast K H config
            (record { cid = result.cid; metadata = metadata })
            (record s { world = w })
          ≡ (ok tt, s'))
      × (result.metadata_hash ≡ hash_envelope K result.cid metadata)
unfolding upload_and_broadcast
upload_and_broadcast_ok K H config contents metadata s s' result h =
    let w = (upload_with_retry K H config contents 3 s.world).1 in
    let (cid, uploaded, rest) =
      >>=-eq-ok (on_host K H config (upload_with_retry K H config contents 3)) _ s h in
    let (up, sent, hash) =
      published K H config contents metadata s s' result w cid (λ i. (uploaded i, w)) rest in
    (w, up, sent, hash)

module _ (K : Crates) (H : Host) (config : IndexerConfig) where
  -- A publication whose CID is in the set sends nothing.
  upload_and_broadcast_known :
      (contents : Bytes) (metadata : MetadataEnvelope) (s : Session H.World) (cid : Str)
      (w : H.World)
      → contains s.broadcasted cid ≡ true
      → upload_with_retry K H config contents 3 s.world ≡ (ok cid, w)
      → upload_and_broadcast K H config contents metadata s ≡ (
        ok (record { cid = cid; metadata_hash = hash_envelope K cid metadata }),
        record s { world = w },
      )
  unfolding upload_and_broadcast broadcast
  upload_and_broadcast_known contents metadata s cid w known uploaded = rw uploaded (
      rw (
        broadcast_known (send_by K H config config.backend)
          (record { cid = cid; metadata = metadata }) (record s { world = w }) known))

-- What a broadcast that succeeds found or did.
broadcast_found_or_sent :
    {W : Type 0} (send : BroadcastPayload → Action W Error (Unit {0})) (p : BroadcastPayload)
    (s s' : Session W)
    → broadcast_with send p s ≡ (ok tt, s')
    → (contains s.broadcasted p.cid ≡ true) ⊎ (send p s.world ≡ (ok tt, s'.world))
broadcast_found_or_sent {W} send p s s' h = elim (Bool-cases (contains s.broadcasted p.cid)) [
  | inl known ↦ inl known
  | inr fresh ↦
      let after = sym (broadcast_fresh send p s fresh) ∙ h in
      let sent = ap (λ (r : Outcome Error (Unit {0}) × Session W). r.0) after in
      let world = ap (λ (r : Outcome Error (Unit {0}) × Session W). r.1.world) after in
      inr (λ i. (sent i, world i))
]

-- A publication that succeeds found its CID in the set, or sent it with its metadata, with success,
-- from the world of its upload; and the set has the CID then. After it, one of any document and
-- metadata whose upload gives the same CID succeeds too and broadcasts nothing: it leaves the world
-- of its upload and the set as it was. Its result has that CID, and the hash of it with the new
-- metadata.
pub upload_and_broadcast_again :
    (K : Crates) (H : Host) (config : IndexerConfig) (contents contents' : Bytes)
    (metadata metadata' : MetadataEnvelope) (s s' : Session H.World) (result : IndexResult)
    (w : H.World)
    → upload_and_broadcast K H config contents metadata s ≡ (ok result, s')
    → upload_with_retry K H config contents' 3 s'.world ≡ (ok result.cid, w)
    → ((contains s.broadcasted result.cid ≡ true)
        ⊎ ((v : H.World) × (upload_with_retry K H config contents 3 s.world ≡ (ok result.cid, v))
            × (send_by K H config config.backend
                  (record { cid = result.cid; metadata = metadata })
                  v
                ≡ (ok tt, s'.world))))
      × (contains s'.broadcasted result.cid ≡ true)
      × (upload_and_broadcast K H config contents' metadata' s' ≡ (
        ok (record { cid = result.cid; metadata_hash = hash_envelope K result.cid metadata' }),
        record s' { world = w },
      ))
unfolding broadcast
upload_and_broadcast_again K H config contents contents' metadata metadata' s s' result w h again =
    let (v, uploaded, sent, _) =
      upload_and_broadcast_ok K H config contents metadata s s' result h in
    let p : BroadcastPayload = record { cid = result.cid; metadata = metadata } in
    let send = send_by K H config config.backend in
    let known = broadcast_ok send p (record s { world = v }) s' sent in
    (
      elim (broadcast_found_or_sent send p (record s { world = v }) s' sent) [
        | inl found ↦ inl found
        | inr done ↦ inr (v, uploaded, done)
      ],
      known,
      upload_and_broadcast_known K H config contents' metadata' s' result.cid w known again,
    )
