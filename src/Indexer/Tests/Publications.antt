-- ===== src/Indexer/Tests/Publications.antt =====
-- The theorems on CIDs, publications, anchors and the C interface, on a small host.
use logos_whistleblower.Common.{
  ℕ, ◌+◌, ◌≡◌, ◌≢◌, ◌≤◌, ◌<◌, err, ◌↔◌, ◌⊎◌, refl, true, some, none, List, [], ◌∷◌, ◌++◌, map, Str,
  Bytes, codes, as_bytes, replicate, split, to_string, contains, bytes_eq, ok, panicked, arith,
}
use logos_whistleblower.Registry.Types.{max_batch_size}
use logos_whistleblower.Indexer.Types.{Error, MetadataEnvelope, IndexResult, http}
use logos_whistleblower.Indexer.Host.{Host}
use logos_whistleblower.Indexer.Cid.{decode_cid}
use logos_whistleblower.Indexer.Cid.Short.{decode_cid_short}
use logos_whistleblower.Indexer.Upload.{retry_loop, upload_once, upload_with_retry, upload_via_http}
use logos_whistleblower.Indexer.Broadcast.{send_by, Session, broadcast, broadcast_via_http}
use logos_whistleblower.Indexer.Anchor.{anchor_batch}
use logos_whistleblower.Indexer.Anchor.Decoding.{Decoded, FailsWith, decode_all-ne-panicked}
use logos_whistleblower.Indexer.Anchor.Arguments.{
  Reports, by_spel, after_spel, anchor_batch-arguments,
}
use logos_whistleblower.Indexer.Publish.{envelope_bytes, hash_envelope, upload_and_broadcast}
use logos_whistleblower.Indexer.Publish.Hash.{envelope_bytes_iff}
use logos_whistleblower.Indexer.Publish.Results.{upload_and_broadcast_again}
use logos_whistleblower.Indexer.Ffi.{document_indexer_upload_and_anchor}
use logos_whistleblower.Indexer.Ffi.Outcomes.{upload_and_anchor-result}
use logos_whistleblower.Indexer.Toys.{
  toy_crates, toy_host, toy_crates-HexIsLawful, toy_crates-Base58IsLawful, config_with, metadata,
  cid_of, printed,
}

abbrev document : Bytes
document = codes "hello"

abbrev session : ℕ → List Str → Session ℕ
session w seen = record { world = w; broadcasted = seen }

abbrev pair : List (Str × Bytes)
pair = (cid_of 0, replicate 32 1) ∷ (cid_of 1, replicate 32 2) ∷ []

toy_base58-ne-panicked : (s : Str) → toy_crates.base58 s ≢ panicked
toy_base58-ne-panicked s = λ p. cc

anchor_batch-arguments_example :
    ((pair ≡ []) × (anchor_batch toy_crates toy_host pair 9 0 ≡ (ok (codes "no-op"), 0)))
    ⊎ (((e : Error) × (anchor_batch toy_crates toy_host pair 9 0 ≡ (err e, 0))
          × ((max_batch_size < 2) ⊎ FailsWith toy_crates pair e))
        ⊎ ((cids metas times : Str) × (0 < 2)
            × (2 ≤ max_batch_size)
            × ((anchor_batch toy_crates toy_host pair 9 0).1
                ≡ after_spel toy_crates toy_host 0 cids metas times)
            × Reports
                (by_spel toy_crates toy_host 0 cids metas times).0
                (anchor_batch toy_crates toy_host pair 9 0).0
            × Decoded toy_crates pair (split b',' cids)
            × (split b',' metas ≡ map (λ (_, h). toy_crates.hex h) pair)
            × (split b',' times ≡ map (λ _. to_string 9) pair)))
anchor_batch-arguments_example =
    anchor_batch-arguments toy_crates toy_host 0 pair 9 toy_crates-HexIsLawful
      toy_base58-ne-panicked

decoded_0 : decode_cid toy_crates (cid_of 0) ≡ ok (replicate 46 b'a')
unfolding decode_cid
decoded_0 = refl

-- Another title and another content type, with one concatenation, and other tags.
abbrev shifted : MetadataEnvelope
shifted = record metadata { title = []; description = codes "td"; tags = codes "tag" ∷ [] }

envelope_bytes_iff_example :
    (envelope_bytes (cid_of 0) metadata ≡ envelope_bytes (cid_of 0) shifted) ↔ (
      (as_bytes (cid_of 0 ++ codes "tdtext/plain") ≡ as_bytes (cid_of 0 ++ codes "tdtext/plain"))
      × (metadata.size_bytes ≡ shifted.size_bytes)
      × (metadata.timestamp ≡ shifted.timestamp))
envelope_bytes_iff_example =
    envelope_bytes_iff (cid_of 0) (cid_of 0) metadata shifted (omega arith) (omega arith)
      (omega arith) (omega arith)

abbrev published : IndexResult
published = record { cid = cid_of 0; metadata_hash = hash_envelope toy_crates (cid_of 0) metadata }

publication :
    upload_and_broadcast toy_crates toy_host (config_with http) document metadata (session 0 [])
    ≡ (ok published, session 203 (cid_of 0 ∷ []))
unfolding upload_and_broadcast upload_with_retry broadcast contains retry_loop upload_once
    upload_via_http broadcast_via_http bytes_eq
publication = refl

-- The same document again, with another title: its upload is all that happens.
abbrev published_again : IndexResult
published_again = record {
  cid = cid_of 0;
  metadata_hash = hash_envelope toy_crates (cid_of 0) shifted;
}

upload_and_broadcast_again_example :
    ((contains [] (cid_of 0) ≡ true)
      ⊎ ((v : ℕ) × (upload_with_retry toy_crates toy_host (config_with http) document 3 0
            ≡ (ok (cid_of 0), v))
          × (send_by toy_crates toy_host
                (config_with http)
                http
                (record { cid = cid_of 0; metadata = metadata })
                v
              ≡ (ok tt, 203))))
    × (contains (cid_of 0 ∷ []) (cid_of 0) ≡ true)
    × (upload_and_broadcast toy_crates toy_host
          (config_with http)
          document
          shifted
          (session 203 (cid_of 0 ∷ []))
        ≡ (ok published_again, session 204 (cid_of 0 ∷ [])))
unfolding upload_with_retry retry_loop upload_once upload_via_http bytes_eq
upload_and_broadcast_again_example =
    upload_and_broadcast_again toy_crates toy_host (config_with http) document document metadata
      shifted (session 0 []) (session 203 (cid_of 0 ∷ [])) published 204 publication refl

decode_cid_short_example : decode_cid toy_crates (replicate 46 b'Q') ≢ ok (replicate 34 b'Q')
decode_cid_short_example =
    decode_cid_short toy_crates b'Q' (replicate 45 b'Q') (replicate 34 b'Q')
      toy_crates-Base58IsLawful (omega arith) (omega arith)

-- The small host, but that its commands print a document.
abbrev storing_host : Host
storing_host = record toy_host {
  command = λ program args dir w. (ok (printed (b'C' ∷ cid_of 0)), w + 1);
}

storing-ne-panicked :
    (entries : List (Str × Bytes)) (t : ℕ) (w : ℕ)
    → (anchor_batch toy_crates storing_host entries t w).0 ≢ panicked
unfolding anchor_batch
storing-ne-panicked [] t w = λ p. cc
storing-ne-panicked (e ∷ entries) t w =
    λ p. ground (arith, decode_all-ne-panicked toy_crates toy_base58-ne-panicked (e ∷ entries))

upload_and_anchor-result_example :
    (document_indexer_upload_and_anchor toy_crates storing_host document
      (some (codes "t"))
      none
      none
      1
      0).0
    ≡ (document_indexer_upload_and_anchor toy_crates storing_host document
        (some (codes "t"))
        none
        none
        0
        0).0
upload_and_anchor-result_example =
    upload_and_anchor-result toy_crates storing_host document (some (codes "t")) none none 1 0
      storing-ne-panicked
