-- ===== src/Indexer/Ffi.antt =====
-- document-indexer/src/ffi.rs: the C interface of the indexer. A `*const c_char` is the bytes in
-- front of its NUL, or none if it is null; a `c_char` is its bit pattern.
pub mod Text
pub mod Outcomes
use logos_whistleblower.Common.{
  ℕ, ◌-◌, min, List, [], ◌∷◌, ◌++◌, Bool, true, false, Option, none, some, Str, Bytes, codes,
  as_bytes, length, take, replicate, ◌==◌, if◌then◌else◌, Outcome, ok, err, panicked, expect_ok,
}
use logos_whistleblower.Common.Effects.{Action, pure, lift, gets, attempt, ◌>>=◌, ◌>>◌}
use logos_whistleblower.Indexer.Types
use logos_whistleblower.Indexer.Types.{MetadataEnvelope, IndexerConfig, Error, default_config}
use logos_whistleblower.Indexer.Host.{Crates, Host}
use logos_whistleblower.Indexer.Broadcast.{Session}
use logos_whistleblower.Indexer.Anchor.{anchor_batch, is_anchored}
use logos_whistleblower.Indexer.Publish.{upload_and_broadcast}

-- The result that goes over the interface.
pub record IndexResult : Type 0 where
  pub cid : Bytes
  pub metadata_hash : Bytes
  pub success : ℕ
  pub error_msg : Bytes

-- `for (i, &b) in bytes.iter().enumerate() { array[i] = b as c_char; }`
unfoldable pub write_over : Bytes → Bytes → Bytes
write_over [] array = array
write_over (b ∷ bytes) [] = []
write_over (b ∷ bytes) (_ ∷ array) = b ∷ write_over bytes array

-- A text in an array of `size` zeros, cut to leave one.
unfoldable pub c_array : ℕ → Bytes → Bytes
unfolding write_over
c_array size bytes = write_over (take (min (length bytes) (size - 1)) bytes) (replicate size 0)

unfoldable pub result_ok : Str → Bytes → IndexResult
unfolding c_array
result_ok cid hash = record {
  cid = c_array 64 (as_bytes cid);
  metadata_hash = hash;
  success = 1;
  error_msg = replicate 256 0;
}

unfoldable pub result_err : Str → IndexResult
unfolding c_array
result_err msg = record {
  cid = replicate 64 0;
  metadata_hash = replicate 32 0;
  success = 0;
  error_msg = c_array 256 (as_bytes msg);
}

-- An action in a new session.
abbrev pub in_session : {W A : Type 0} → Action (Session W) Error A → Action W Error A
in_session m w = let (r, s) = m (record { world = w; broadcasted = [] }) in (r, s.world)

module _ (K : Crates) (H : Host) where
  unfoldable pub cstr_to_string : Option Bytes → Str
  cstr_to_string none = []
  cstr_to_string (some p) = K.lossy p

  -- `Indexer::new`: an indexer is known by its configuration, once its client was built.
  abbrev pub new_with : IndexerConfig → Action H.World Error IndexerConfig
  new_with config = do (λ w. let (r, w') = H.build_client w in (expect_ok r, w')); pure config

  -- `Indexer::default()`
  unfoldable pub new_indexer : Action H.World Error IndexerConfig
  new_indexer = do config ← gets (λ w. default_config (H.var w)); new_with config

  -- What follows the upload: the result of the anchor is dropped.
  abbrev pub report : ℕ → Outcome Error Types.IndexResult → Action H.World Error IndexResult
  report anchor_on_chain (ok result) =
      if anchor_on_chain == 0 then pure (result_ok result.cid result.metadata_hash) else (do
        attempt {F = Error} (anchor_batch K H ((result.cid, result.metadata_hash) ∷ []) 0)
        pure (result_ok result.cid result.metadata_hash))
  report anchor_on_chain (err e) = pure (result_err (K.show_chain e))
  report anchor_on_chain panicked = lift panicked

  abbrev pub publish :
      Bytes → MetadataEnvelope → Action H.World Error (Outcome Error Types.IndexResult)
  publish contents metadata = do
    config ← new_indexer
    attempt (in_session (upload_and_broadcast K H config contents metadata))

  abbrev pub with_runtime :
      Bytes → MetadataEnvelope → ℕ → Outcome Error (Unit {0}) → Action H.World Error IndexResult
  with_runtime contents metadata anchor_on_chain (ok _) = do
    sent ← publish contents metadata
    report anchor_on_chain sent
  with_runtime contents metadata anchor_on_chain (err e) =
      pure (result_err (codes "tokio runtime: " ++ K.show_error e))
  with_runtime contents metadata anchor_on_chain panicked = lift panicked

  abbrev pub envelope_of : Bytes → Option Bytes → Option Bytes → Option Bytes → ℕ → MetadataEnvelope
  envelope_of contents title description content_type timestamp = record {
    title = cstr_to_string title;
    description = cstr_to_string description;
    content_type = cstr_to_string content_type;
    size_bytes = length contents;
    timestamp = timestamp;
    tags = [];
  }

  unfoldable pub document_indexer_upload_and_anchor :
      Bytes → Option Bytes → Option Bytes → Option Bytes → ℕ → Action H.World Error IndexResult
  unfolding result_ok result_err cstr_to_string new_indexer
  document_indexer_upload_and_anchor contents title description content_type anchor_on_chain = do
    timestamp ← gets H.now
    rt ← attempt H.new_runtime
    with_runtime contents (envelope_of contents title description content_type timestamp)
        anchor_on_chain rt

  -- `unwrap_or(false)`, as a `c_int`
  abbrev pub flag : Outcome Error Bool → Action H.World Error ℕ
  flag (ok true) = pure 1
  flag panicked = lift panicked
  flag _ = pure 0

  abbrev pub asked : Str → Outcome Error (Unit {0}) → Action H.World Error ℕ
  asked cid_str (ok _) = do new_indexer; anchored ← attempt (is_anchored K H cid_str); flag anchored
  asked cid_str (err _) = pure 0
  asked cid_str panicked = lift panicked

  unfoldable pub document_indexer_is_anchored : Option Bytes → Action H.World Error ℕ
  unfolding cstr_to_string new_indexer
  document_indexer_is_anchored cid = do rt ← attempt H.new_runtime; asked (cstr_to_string cid) rt
