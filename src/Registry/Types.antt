-- ===== src/Registry/Types.antt =====
-- cid-registry/src/lib.rs: the constants, the records on the chain and the errors.
use logos_whistleblower.Common.{ℕ, ◌≡◌, List, map, Bytes, Str, length, All, Distinct}

abbrev pub err_batch_too_large : ℕ
err_batch_too_large = 4001

abbrev pub err_invalid_cid : ℕ
err_invalid_cid = 4002

abbrev pub max_batch_size : ℕ
max_batch_size = 50

abbrev pub cid_bytes_len : ℕ
cid_bytes_len = 46

pub record DocumentRecord : Type 0 where
  pub cid : Bytes
  pub metadata_hash : Bytes
  pub anchor_timestamp : ℕ

pub record RegistryState : Type 0 where
  pub records : List DocumentRecord

-- An element of `entries`, the tuple `(cid_bytes, metadata_hash, timestamp)`.
pub record Entry : Type 0 where
  pub cid_bytes : Bytes
  pub metadata_hash : Bytes
  pub anchor_timestamp : ℕ

-- The two variants of `spel_framework::error::SpelError` that the registry builds.
pub data SpelError : Type 0 where
  custom : ℕ → Str → SpelError
  serialization_error : Str → SpelError

abbrev pub cids : List DocumentRecord → List Bytes
cids = map (λ r. r.cid)

-- What a registry promises: 46-byte CIDs, none of them twice.
pub record IsWellFormed (state : RegistryState) : Type 0 where
  pub sized : All (λ r. length r.cid ≡ cid_bytes_len) state.records
  pub unique : Distinct (cids state.records)
