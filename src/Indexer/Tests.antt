-- ===== src/Indexer/Tests.antt =====
-- The theorems on uploads and broadcasts, on a small host.
mod Publications
use logos_whistleblower.Common.{
  ℕ, zero, suc, ◌+◌, ◌≡◌, ◌≢◌, ◌<◌, ◌≤◌, ◌↔◌, ◌⊎◌, refl, inl, inr, false, some, none, List, [], ◌∷◌,
  ◌++◌, map, Str, Bytes, codes, as_bytes, length, replicate, split, Lacks, to_string, contains,
  remove, bytes_eq, Distinct, Bool-cases, ◌==◌, ok, err, panicked, arith,
}
use logos_whistleblower.Common.Effects.{Action}
use logos_whistleblower.Registry.Types.{max_batch_size}
use logos_whistleblower.Indexer.Types.{
  MetadataEnvelope, BroadcastPayload, IndexResult, Error, message, http,
}
use logos_whistleblower.Indexer.Host.{Host}
use logos_whistleblower.Indexer.Cid.{decode_cid}
use logos_whistleblower.Indexer.Cid.Short.{decode_cid_short}
use logos_whistleblower.Indexer.Upload.{retry_loop, upload_once, upload_with_retry, upload_via_http}
use logos_whistleblower.Indexer.Upload.Retry.{Ends, upload_with_retry-Ends}
use logos_whistleblower.Indexer.Upload.Expression.{
  tmp, NotRun, Refusable, RanOn, upload_via_logoscore-literals,
}
use logos_whistleblower.Indexer.Broadcast.{
  Session, broadcast, broadcast_with, broadcast_via_logoscore, broadcast_via_http,
}
use logos_whistleblower.Indexer.Broadcast.{claim, settle}
use logos_whistleblower.Indexer.Broadcast.Concurrent.{
  Flights, Step, deduplicated, started, finished, here, Reachable, new_indexer, step,
  Reachable-Distinct,
}
use logos_whistleblower.Indexer.Broadcast.Dedup.{
  broadcast_all, logged, broadcast_again, broadcast_failed, broadcast_all-Distinct,
}
use logos_whistleblower.Indexer.Broadcast.Expression.{
  IsSafe, RanWith, broadcast_via_logoscore-literals,
}
use logos_whistleblower.Indexer.Anchor.{anchor_batch, is_anchored}
use logos_whistleblower.Indexer.Anchor.Decoding.{Decoded, decode_all-ne-panicked}
use logos_whistleblower.Indexer.Anchor.Arguments.{after_spel, anchor_batch-arguments}
use logos_whistleblower.Indexer.Anchor.Lookup.{is_anchored_unreadable}
use logos_whistleblower.Indexer.Publish.{envelope_bytes, hash_envelope, upload_and_broadcast}
use logos_whistleblower.Indexer.Publish.Hash.{envelope_bytes_iff}
use logos_whistleblower.Indexer.Ffi.{c_array, document_indexer_upload_and_anchor}
use logos_whistleblower.Indexer.Ffi.Text.{until_nul, until_nul-c_array}
use logos_whistleblower.Indexer.Ffi.Outcomes.{upload_and_anchor-result}
use logos_whistleblower.Indexer.Toys.{
  toy_crates, toy_host, toy_crates-HexIsLawful, toy_crates-Base58IsLawful, config_with,
  by_logos_core, metadata, cid_of, payload_of, printed,
}

abbrev document : Bytes
document = codes "hello"

toy_upload-ne-panicked :
    (w : ℕ) → (upload_once toy_crates toy_host (config_with http) document w).0 ≢ panicked
unfolding upload_once upload_via_http bytes_eq
toy_upload-ne-panicked zero = λ p. cc
toy_upload-ne-panicked (suc w) = elim (Bool-cases (suc w == 0)) [
  | inl first ↦ λ p. ground arith
  | inr later ↦ rw later (λ p. cc)
]

upload_with_retry-Ends_example :
    Ends toy_host.sleep
      (upload_once toy_crates toy_host (config_with http) document)
      3
      200
      0
      (upload_with_retry toy_crates toy_host (config_with http) document 3 0)
upload_with_retry-Ends_example =
    upload_with_retry-Ends toy_crates toy_host (config_with http) document 3 0 (omega arith)
      toy_upload-ne-panicked

-- The first attempt fails at 0, the second succeeds, after 200 milliseconds.
retried :
    upload_with_retry toy_crates toy_host (config_with http) document 3 0 ≡ (ok (cid_of 0), 202)
unfolding upload_with_retry retry_loop upload_once upload_via_http bytes_eq
retried = refl

upload_via_logoscore-literals_example :
    (NotRun toy_crates toy_host (config_with by_logos_core) document (codes "bin") (codes "dir") 0
      × Refusable toy_crates toy_host
          (config_with by_logos_core)
          document
          (codes "bin")
          (codes "dir")
          0)
    ⊎ ((path : Str) × (expr : Str) × (toy_host.to_str (
            tmp toy_crates toy_host
              (config_with by_logos_core)
              document
              (codes "bin")
              (codes "dir")
              0)
          ≡ some path)
        × Lacks 0x5C expr
        × (split b'"' expr
            ≡ codes "storage.upload("
              ∷ path
              ∷ codes ", "
              ∷ codes "whistleblower-doc"
              ∷ codes ")"
              ∷ [])
        × RanOn toy_crates toy_host
            (config_with by_logos_core)
            document
            (codes "bin")
            (codes "dir")
            0
            expr)
upload_via_logoscore-literals_example =
    upload_via_logoscore-literals toy_crates toy_host (config_with by_logos_core) document
      (codes "bin") (codes "dir") 0 (λ p. cc) (λ expr p. cc)

-- A way to send that fails at 0, and counts.
abbrev send : BroadcastPayload → Action ℕ Error (Unit {0})
send p zero = (err (message (codes "refused")), 1)
send p (suc w) = (ok tt, suc w + 1)

abbrev session : ℕ → List Str → Session ℕ
session w seen = record { world = w; broadcasted = seen }

broadcast_all-Distinct_example :
    Distinct
      (broadcast_all
        (logged send)
        (payload_of 0 ∷ payload_of 1 ∷ payload_of 0 ∷ payload_of 0 ∷ [])
        (record { world = (0, []); broadcasted = [] })).world.1
broadcast_all-Distinct_example =
    broadcast_all-Distinct send (payload_of 0 ∷ payload_of 1 ∷ payload_of 0 ∷ payload_of 0 ∷ []) 0

sent_once :
    (broadcast_all
      (logged send)
      (payload_of 0 ∷ payload_of 1 ∷ payload_of 0 ∷ payload_of 0 ∷ [])
      (record { world = (0, []); broadcasted = [] })).world
    ≡ (3, cid_of 0 ∷ cid_of 1 ∷ [])
unfolding broadcast_all broadcast_with contains bytes_eq remove
sent_once = refl

broadcast_failed_example :
    (contains (session 0 []).broadcasted (payload_of 1).cid ≡ false)
    × (send (payload_of 1) 0 ≡ (err (message (codes "refused")), 1))
    × ((session 1 []).broadcasted ≡ (session 0 []).broadcasted)
unfolding broadcast_with contains bytes_eq remove
broadcast_failed_example =
    broadcast_failed send (payload_of 1) (session 0 []) (session 1 []) (message (codes "refused"))
      refl

broadcast_via_logoscore-literals_example :
    ((e : Error) × (broadcast_via_logoscore toy_crates toy_host
          (config_with by_logos_core)
          (payload_of 1)
          (codes "bin")
          (codes "dir")
          0
        ≡ (err e, 0))
      × ((¬ IsSafe (codes "a/b")) ⊎ (toy_crates.payload_to_string (payload_of 1) ≡ err e)))
    ⊎ ((json : Str) × (expr : Str) × (toy_crates.payload_to_string (payload_of 1) ≡ ok json)
        × RanWith toy_crates toy_host
            (config_with by_logos_core)
            (payload_of 1)
            (codes "bin")
            (codes "dir")
            0
            expr
        × Lacks 0x5C expr
        × (split b'"' expr
            ≡ codes "send("
              ∷ codes "a/b"
              ∷ codes ", "
              ∷ toy_crates.hex (as_bytes json)
              ∷ codes ")"
              ∷ []))
broadcast_via_logoscore-literals_example =
    broadcast_via_logoscore-literals toy_crates toy_host (config_with by_logos_core) (payload_of 1)
      (codes "bin") (codes "dir") 0 toy_crates-HexIsLawful (λ p. cc)

-- Two calls with one CID, of which the first is in flight when the second comes, and fails.
abbrev overlapped : Flights
overlapped = record { broadcasted = []; in_flight = []; sent = [] }

overlapped-Reachable : Reachable overlapped
unfolding claim settle contains remove bytes_eq
overlapped-Reachable =
    step
      (step (step new_indexer (started (cid_of 0) (cid_of 0 ∷ []) refl))
        (deduplicated (cid_of 0) refl))
      (finished (cid_of 0) [] (err (message (codes "refused"))) here)

-- One CID is in flight, and another was sent.
abbrev under_way : Flights
under_way = record {
  broadcasted = cid_of 1 ∷ cid_of 0 ∷ [];
  in_flight = cid_of 1 ∷ [];
  sent = cid_of 0 ∷ [];
}

under_way-Reachable : Reachable under_way
unfolding claim settle contains bytes_eq
under_way-Reachable =
    step
      (step (step new_indexer (started (cid_of 0) (cid_of 0 ∷ []) refl))
        (finished (cid_of 0) [] (ok tt) here))
      (started (cid_of 1) (cid_of 1 ∷ cid_of 0 ∷ []) refl)

Reachable-Distinct_example : Distinct (under_way.in_flight ++ under_way.sent)
Reachable-Distinct_example = Reachable-Distinct under_way under_way-Reachable
