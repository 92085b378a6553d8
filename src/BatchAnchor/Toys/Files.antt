-- ===== src/BatchAnchor/Toys/Files.antt =====
-- A small SQLite with a database for every file, of which one is open.
use logos_whistleblower.Common.{
  ◌≡◌, refl, List, [], ◌∷◌, true, none, Str, bytes_eq, if◌then◌else◌, ok,
}
use logos_whistleblower.BatchAnchor.Types.{Sqlite}
use logos_whistleblower.BatchAnchor.Store.Laws.{IsLawful}
use logos_whistleblower.BatchAnchor.Store.Opening.{OpenIsLawful}
use logos_whistleblower.BatchAnchor.Toys.{Tables, toy_sqlite, toy_sqlite-IsLawful}

-- The file that is open, its tables, and those of the files that were.
pub record Files : Type 0 where
  pub file : Str
  pub tables : Tables
  pub others : List (Str × Tables)

abbrev tables_of : Str → List (Str × Tables) → Tables
tables_of path [] = record { anchored = []; cursor = none }
tables_of path ((file, tables) ∷ others) =
    if bytes_eq file path then tables else tables_of path others

abbrev pub switched : Str → Files → Files
switched path db = if bytes_eq db.file path then db else (record {
  file = path;
  tables = tables_of path db.others;
  others = (db.file, db.tables) ∷ db.others;
})

abbrev pub toy_files : Sqlite
toy_files = record {
  Db = Files;
  connect = λ path db. (ok tt, switched path db);
  create_tables = λ db. (ok tt, db);
  count_all = λ db. toy_sqlite.count_all db.tables;
  count_cid = λ db cid. toy_sqlite.count_cid db.tables cid;
  insert_or_ignore =
      λ cid db. (ok tt, record db { tables = (toy_sqlite.insert_or_ignore cid db.tables).1 });
  select_cursor = λ db. toy_sqlite.select_cursor db.tables;
  replace_cursor =
      λ v db. (ok tt, record db { tables = (toy_sqlite.replace_cursor v db.tables).1 });
}

pub toy_files-IsLawful : IsLawful toy_files
toy_files-IsLawful = record {
  inserted = λ db cid x h. toy_sqlite-IsLawful.inserted db.tables cid x h;
  cursor-inserted = λ db cid. refl;
  replaced = λ db v h. refl;
  count-replaced = λ db v cid. refl;
  insert_failed = λ db cid h. absurd (h refl);
  replace_failed = λ db v h. absurd (h refl);
}

abbrev pub IsOpen : Str → Files → Type 0
IsOpen path db = bytes_eq db.file path ≡ true

pub stays : (path : Str) (db : Files) → IsOpen path db → switched path db ≡ db
stays path db at = rw at refl

abbrev pub toy_files-OpenIsLawful : (path : Str) → OpenIsLawful toy_files path
toy_files-OpenIsLawful path = record {
  At = IsOpen path;
  at-connected = λ db at. rw (stays path db at) at;
  at-created = λ db at. at;
  at-inserted = λ db cid at. at;
  at-replaced = λ db v at. at;
  connected-count = λ db cid n at h. rw (stays path db at) h;
  connected-cursor = λ db v at h. rw (stays path db at) h;
  created-count = λ db cid n h. h;
  created-cursor = λ db v h. h;
}
