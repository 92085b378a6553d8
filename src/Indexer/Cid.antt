-- ===== src/Indexer/Cid.antt =====
-- document-indexer/src/lib.rs: `decode_cid`.
pub mod Short
use logos_whistleblower.Common.{
  ℕ, ◌≡◌, ◌≢◌, ◌⊎◌, ◌++◌, Str, Bytes, codes, length, ◌==◌, if◌then◌else◌, Outcome, ok, err,
  panicked, ◌>>=◌, to_string, arith, ◌↔◌,
}
use logos_whistleblower.Registry.Types.{cid_bytes_len}
use logos_whistleblower.Indexer.Types.{Error, message}
use logos_whistleblower.Indexer.Host.{Crates}

abbrev pub bad_length : ℕ → Error
bad_length n = message (
    codes "CID decoded to "
    ++ (to_string n ++ (codes " bytes, expected " ++ to_string cid_bytes_len)))

module _ (K : Crates) where
  -- The copy of `bytes` into the array is the identity, as the lengths agree there.
  unfoldable pub decode_cid : Str → Outcome Error Bytes
  decode_cid cid_str = do
    bytes ← K.base58 cid_str
    if length bytes == cid_bytes_len then ok bytes else err (bad_length (length bytes))

  -- A CID is decoded exactly if its base58 text stands for 46 bytes, and to those bytes.
  pub decode_cid_lem :
      (s : Str) (bytes : Bytes)
      → (decode_cid s ≡ ok bytes) ↔ ((K.base58 s ≡ ok bytes) × (length bytes ≡ cid_bytes_len))
  unfolding decode_cid
  decode_cid_lem s bytes = (λ h. ground arith, λ h. rw (h.0, decode_cid) (ground arith))
