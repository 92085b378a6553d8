-- ===== src/Indexer/Types.antt =====
-- document-indexer/src/lib.rs: the envelope, the payload, the configuration and the errors.
use logos_whistleblower.Common.{ℕ, List, Str, Bytes, codes, Option, none, some}

pub record MetadataEnvelope : Type 0 where
  pub title : Str
  pub description : Str
  pub content_type : Str
  pub size_bytes : ℕ
  pub timestamp : ℕ
  pub tags : List Str

pub record BroadcastPayload : Type 0 where
  pub cid : Str
  pub metadata : MetadataEnvelope

pub record IndexResult : Type 0 where
  pub cid : Str
  pub metadata_hash : Bytes

pub data StorageBackend : Type 0 where
  logos_core : Str → Str → StorageBackend
  http : StorageBackend

pub record IndexerConfig : Type 0 where
  pub storage_url : Str
  pub delivery_url : Str
  pub sequencer_url : Str
  pub delivery_topic : Str
  pub backend : StorageBackend

-- An `anyhow::Error` is its message.
pub data Error : Type 0 where
  message : Str → Error

-- `unwrap_or`, as for a variable of the environment that is not set.
abbrev pub unwrap_or {ℓ} : {A : Type ℓ} → Option A → A → A
unwrap_or (some v) d = v
unwrap_or none d = d

-- `StorageBackend::from_env`, by what the environment's variables hold.
unfoldable pub from_env : (Str → Option Str) → StorageBackend
from_env var =
    logos_core (unwrap_or (var (codes "LOGOSCORE_BIN")) (codes "logoscore"))
      (unwrap_or (var (codes "LOGOS_MODULES_DIR")) (codes "./modules"))

-- `IndexerConfig::default`
unfoldable pub default_config : (Str → Option Str) → IndexerConfig
unfolding from_env
default_config var = record {
  storage_url = codes "http://127.0.0.1:8080";
  delivery_url = codes "http://127.0.0.1:9090";
  sequencer_url = codes "http://127.0.0.1:3040";
  delivery_topic = codes "whistleblower/v1/documents";
  backend = from_env var;
}
