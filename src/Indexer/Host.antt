-- ===== src/Indexer/Host.antt =====
-- What the indexer is built on: other crates, which are pure, and the machine outside.
use logos_whistleblower.Common.{
  ℕ, ◌≡◌, ◌≤◌, ◌<◌, ◌⊎◌, some, u64_mod, Bool, List, Str, Bytes, Option, All, Outcome,
}
use logos_whistleblower.Common.Effects.{Action}
use logos_whistleblower.Indexer.Types.{BroadcastPayload, Error}

-- `sha2`, `hex`, `bs58` and `serde_json`.
pub record Crates : Type 1 where
  pub sha256 : Bytes → Bytes
  pub hex : Bytes → Str
  pub base58 : Str → Outcome Error Bytes
  -- `serde_json::Value`, indexed by a key (null where it is missing)
  pub Json : Type 0
  pub null : Json
  pub get : Json → Str → Json
  pub as_str : Json → Option Str
  pub as_u64 : Json → Option ℕ
  pub as_array : Json → Option (List Json)
  pub from_slice : Bytes → Outcome Error Json
  pub show : Json → Str
  pub payload_to_string : BroadcastPayload → Outcome Error Str
  pub payload_from_value : Json → Outcome Error BroadcastPayload
  -- `String::from_utf8_lossy`, and the prints `{e}` and `{e:#}` of an error
  pub lossy : Bytes → Str
  pub show_error : Error → Str
  pub show_chain : Error → Str

-- `hex::encode` prints lower-case hexadecimal digits.
abbrev pub IsHexDigit : ℕ → Type 0
IsHexDigit c = ((b'0' ≤ c) × (c ≤ b'9')) ⊎ ((b'a' ≤ c) × (c ≤ b'f'))

abbrev pub HexIsLawful : Crates → Type 0
HexIsLawful K = (bs : Bytes) → All IsHexDigit (K.hex bs)

-- `as_u64` gives a `u64`.
abbrev pub U64IsLawful : Crates → Type 0
U64IsLawful K = (v : K.Json) (n : ℕ) → K.as_u64 v ≡ some n → n < u64_mod

-- What a finished process leaves.
pub record Output : Type 0 where
  pub success : Bool
  -- the debug print of `status.code()`
  pub code : Str
  pub stdout : Bytes
  pub stderr : Bytes

-- What a server answers: whether the status is a success, its print, and what reading the body
-- gives.
pub record Response : Type 0 where
  pub is_success : Bool
  pub status : Str
  pub body : Outcome Error Bytes

-- The operating system and the network. Every call returns the world that it leaves.
pub record Host : Type 1 where
  pub World : Type 0
  pub var : World → Str → Option Str
  pub FilePath : Type 0
  -- `temp_dir().join(name)`, and `to_str`
  pub temp_path : World → Str → FilePath
  pub to_str : FilePath → Option Str
  pub write : FilePath → Bytes → Action World Error (Unit {0})
  -- the result of `remove_file` is dropped
  pub remove_file : FilePath → World → World
  pub sleep : ℕ → World → World
  -- program, arguments, working directory
  pub command : Str → List Str → Option Str → Action World Error Output
  -- a POST of a multipart form with one file, and of a payload as JSON
  pub post_file : Str → Bytes → Action World Error Response
  pub post_json : Str → BroadcastPayload → Action World Error Response
  -- `SystemTime::now()` in seconds since the epoch, and 0 before it
  pub now : World → ℕ
  -- `reqwest::Client::builder()…build()`, and `tokio::runtime::Runtime::new()`
  pub build_client : Action World Error (Unit {0})
  pub new_runtime : Action World Error (Unit {0})
