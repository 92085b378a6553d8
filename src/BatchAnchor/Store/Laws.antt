-- ===== src/BatchAnchor/Store/Laws.antt =====
-- What the state remembers, by the behaviour of its statements.
use logos_whistleblower.Common.{
  ℕ, ◌<◌, ◌≡◌, ◌≢◌, ap, true, Str, to_string, parse_u64-to_string, u64_mod, ok, map_err,
  map_err-eq-ok, arith, bytes_eq, if◌then◌else◌,
}
use logos_whistleblower.BatchAnchor.Types.{Sqlite}
use logos_whistleblower.BatchAnchor.Store.{
  sql_error, is_anchored, mark_anchored, load_cursor, save_cursor,
}

-- What the code relies on of SQLite: `cid` is a primary key, so that an insertion makes its count
-- one and touches no other; a replacement sets the row of the cursor and no other; a statement
-- that fails changes nothing.
pub record IsLawful (S : Sqlite) : Type 0 where
  pub inserted :
      (db : S.Db) (cid other : Str)
      → (S.insert_or_ignore cid db).0 ≡ ok tt
      → S.count_cid (S.insert_or_ignore cid db).1 other
        ≡ (if bytes_eq cid other then ok 1 else S.count_cid db other)
  pub cursor-inserted :
      (db : S.Db) (cid : Str) → S.select_cursor (S.insert_or_ignore cid db).1 ≡ S.select_cursor db
  pub replaced :
      (db : S.Db) (v : Str)
      → (S.replace_cursor v db).0 ≡ ok tt
      → S.select_cursor (S.replace_cursor v db).1 ≡ ok v
  pub count-replaced :
      (db : S.Db) (v cid : Str) → S.count_cid (S.replace_cursor v db).1 cid ≡ S.count_cid db cid
  pub insert_failed :
      (db : S.Db) (cid : Str)
      → (S.insert_or_ignore cid db).0 ≢ ok tt
      → (S.insert_or_ignore cid db).1 ≡ db
  pub replace_failed :
      (db : S.Db) (v : Str) → (S.replace_cursor v db).0 ≢ ok tt → (S.replace_cursor v db).1 ≡ db

module _ (S : Sqlite) (L : IsLawful S) where
  -- Where SQLite keeps its laws, a `u64` that was saved as the cursor with success is the one that
  -- a restart loads: its decimal print is read back.
  pub load_cursor-save_cursor :
      (db : S.Db) (cursor : ℕ)
      → cursor < u64_mod
      → (save_cursor S cursor db).0 ≡ ok tt
      → load_cursor S (save_cursor S cursor db).1 ≡ ok cursor
  unfolding load_cursor save_cursor
  load_cursor-save_cursor db cursor fits h =
      let saved = L.replaced db (to_string cursor) (map_err-eq-ok sql_error _ h) in
      rw saved (rw (parse_u64-to_string cursor fits))

  -- A CID that was marked is anchored; the answer for any other CID stays.
  pub is_anchored-mark_anchored :
      (db : S.Db) (cid other : Str)
      → (mark_anchored S cid db).0 ≡ ok tt
      → is_anchored S (mark_anchored S cid db).1 other
        ≡ (if bytes_eq cid other then ok true else is_anchored S db other)
  unfolding is_anchored mark_anchored
  is_anchored-mark_anchored db cid other h =
      rw (L.inserted db cid other (map_err-eq-ok sql_error _ h)) (ground arith)

  pub is_anchored-save_cursor :
      (db : S.Db) (cursor : ℕ) (cid : Str)
      → is_anchored S (save_cursor S cursor db).1 cid ≡ is_anchored S db cid
  unfolding is_anchored save_cursor
  is_anchored-save_cursor db cursor cid = rw L.count-replaced

  pub load_cursor-mark_anchored :
      (db : S.Db) (cid : Str) → load_cursor S (mark_anchored S cid db).1 ≡ load_cursor S db
  unfolding load_cursor mark_anchored
  load_cursor-mark_anchored db cid = rw L.cursor-inserted

  pub save_cursor_failed :
      (db : S.Db) (cursor : ℕ)
      → (save_cursor S cursor db).0 ≢ ok tt
      → (save_cursor S cursor db).1 ≡ db
  unfolding save_cursor
  save_cursor_failed db cursor h =
      L.replace_failed db (to_string cursor) (λ e. h (ap (map_err sql_error) e))

  pub mark_anchored_failed :
      (db : S.Db) (cid : Str) → (mark_anchored S cid db).0 ≢ ok tt → (mark_anchored S cid db).1 ≡ db
  unfolding mark_anchored
  mark_anchored_failed db cid h = L.insert_failed db cid (λ e. h (ap (map_err sql_error) e))
