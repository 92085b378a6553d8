-- ===== src/BatchAnchor/Types.antt =====
-- batch-anchor-cli/src/main.rs: the configuration, the messages, and what the tool stands on.
use logos_whistleblower.Common.{ℕ, List, Str, Bytes, Outcome}
use logos_whistleblower.Common.Effects.{Action}
use logos_whistleblower.Indexer.Types.{BroadcastPayload, Error}
use logos_whistleblower.Indexer.Host.{Output}

-- `Cfg`
pub record Cfg : Type 0 where
  pub delivery_source : Str
  pub spel_bin : Str
  pub idl : Str
  pub workdir : Str

pub record DeliveryMsg : Type 0 where
  pub seq : ℕ
  pub payload : BroadcastPayload

-- What `read_to_string` gives.
pub data FileText : Type 0 where
  text : Str → FileText
  not_found : FileText
  io_error : Error → FileText

-- `rusqlite::Error`, of which the code tells one case apart.
pub data SqlError : Type 0 where
  query_returned_no_rows : SqlError
  other : Str → SqlError

-- The statements of the tool, on the database of its file.
pub record Sqlite : Type 1 where
  pub Db : Type 0
  -- `Connection::open(path)`, which makes a file that is not there
  pub connect : Str → Action Db SqlError (Unit {0})
  -- the two `CREATE TABLE IF NOT EXISTS`
  pub create_tables : Action Db SqlError (Unit {0})
  -- `SELECT COUNT(*) FROM anchored`, and `… WHERE cid = ?1`
  pub count_all : Db → Outcome SqlError ℕ
  pub count_cid : Db → Str → Outcome SqlError ℕ
  -- `INSERT OR IGNORE INTO anchored (cid) VALUES (?1)`
  pub insert_or_ignore : Str → Action Db SqlError (Unit {0})
  -- `SELECT value FROM state WHERE key = 'cursor'`, one row
  pub select_cursor : Db → Outcome SqlError Str
  -- `INSERT OR REPLACE INTO state (key, value) VALUES ('cursor', ?1)`
  pub replace_cursor : Str → Action Db SqlError (Unit {0})

-- The machine and the network, as the tool sees them.
pub record Outside : Type 1 where
  pub World : Type 0
  pub read_to_string : World → Str → FileText
  -- a GET, and what reading the body of its answer gives
  pub http_get : Str → Action World Error (Outcome Error Bytes)
  -- program, arguments, working directory
  pub command : Str → List Str → Str → Action World Error Output
  -- a line on the standard output
  pub print : Str → World → World
  -- two seconds, in which the world may change
  pub sleep : World → World
  -- `SystemTime::now()` in seconds since the epoch, and 0 before it
  pub now : World → ℕ

-- The database and the world outside.
pub record Machine (S : Sqlite) (O : Outside) : Type 0 where
  pub db : S.Db
  pub world : O.World
