-- ===== src/BatchAnchor/Store.antt =====
-- batch-anchor-cli/src/main.rs: the SQLite state.
pub mod Laws
pub mod Opening
use logos_whistleblower.Common.{
  ℕ, Bool, Option, none, some, Str, codes, ltb, to_string, parse_u64, Outcome, ok, err, panicked,
  map_err, ◌>>=◌,
}
use logos_whistleblower.Common.Effects.{Action, ◌>>◌}
use logos_whistleblower.Indexer.Types.{Error, message, unwrap_or}
use logos_whistleblower.BatchAnchor.Types.{Sqlite, SqlError, query_returned_no_rows, other}

-- The conversion of `?` into `anyhow::Error`.
abbrev pub sql_error : SqlError → Error
sql_error query_returned_no_rows = message (codes "Query returned no rows")
sql_error (other e) = message e

-- `OptionalExt::optional`
unfoldable pub optional : Outcome SqlError Str → Outcome SqlError (Option Str)
optional (ok v) = ok (some v)
optional (err query_returned_no_rows) = ok none
optional (err (other e)) = err (other e)
optional panicked = panicked

-- `and_then(|v| v.parse().ok())`
abbrev pub parsed : Option Str → Option ℕ
parsed none = none
parsed (some v) = parse_u64 v

-- A statement that changes the database, its error converted.
abbrev pub execute : {D : Type 0} → Action D SqlError (Unit {0}) → Action D Error (Unit {0})
execute m db = let (r, db') = m db in (map_err sql_error r, db')

module _ (S : Sqlite) where
  unfoldable pub is_anchored : S.Db → Str → Outcome Error Bool
  is_anchored db cid = do n ← map_err sql_error (S.count_cid db cid); ok (ltb 0 n)

  unfoldable pub mark_anchored : Str → Action S.Db Error (Unit {0})
  mark_anchored cid = execute (S.insert_or_ignore cid)

  unfoldable pub load_cursor : S.Db → Outcome Error ℕ
  unfolding optional
  load_cursor db = do
    val ← map_err sql_error (optional (S.select_cursor db))
    ok (unwrap_or (parsed val) 0)

  unfoldable pub save_cursor : ℕ → Action S.Db Error (Unit {0})
  save_cursor cursor = execute (S.replace_cursor (to_string cursor))

  -- The connection is the database that the other statements work on.
  unfoldable pub open_db : Str → Action S.Db Error (Unit {0})
  open_db path = execute (S.connect path) >> execute S.create_tables
