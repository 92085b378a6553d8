-- ===== src/BatchAnchor/Toys.antt =====
-- A small database and a small world, on which the theorems of the tool are run.
pub mod Files
use logos_whistleblower.Common.{
  ℕ, ◌+◌, ◌≡◌, refl, Option, none, some, List, [], ◌∷◌, Str, codes, contains, bytes_eq,
  if◌then◌else◌, Outcome, ok, err, arith,
}
use logos_whistleblower.Indexer.Types.{message}
use logos_whistleblower.Indexer.Toys.{printed}
use logos_whistleblower.BatchAnchor.Types.{
  Sqlite, SqlError, query_returned_no_rows, Outside, text, not_found, Cfg,
}
use logos_whistleblower.BatchAnchor.Store.Laws.{IsLawful}

-- Both tables, which are there from the start: the CIDs of the one, and the cursor of the other.
pub record Tables : Type 0 where
  pub anchored : List Str
  pub cursor : Option Str

abbrev found : Option Str → Outcome SqlError Str
found none = err query_returned_no_rows
found (some v) = ok v

abbrev count : List Str → ℕ
count [] = 0
count (_ ∷ rows) = count rows + 1

abbrev pub toy_sqlite : Sqlite
toy_sqlite = record {
  Db = Tables;
  connect = λ path db. (ok tt, db);
  create_tables = λ db. (ok tt, db);
  count_all = λ db. ok (count db.anchored);
  count_cid = λ db cid. if contains db.anchored cid then ok 1 else ok 0;
  insert_or_ignore = λ cid db. (ok tt, record db { anchored = cid ∷ db.anchored });
  select_cursor = λ db. found db.cursor;
  replace_cursor = λ v db. (ok tt, record db { cursor = some v });
}

toy_inserted :
    (db : Tables) (cid x : Str)
    → toy_sqlite.count_cid (toy_sqlite.insert_or_ignore cid db).1 x
      ≡ (if bytes_eq cid x then ok 1 else toy_sqlite.count_cid db x)
unfolding contains
toy_inserted db cid x = ground arith

pub toy_sqlite-IsLawful : IsLawful toy_sqlite
toy_sqlite-IsLawful = record {
  inserted = λ db cid x _. toy_inserted db cid x;
  cursor-inserted = λ db cid. refl;
  replaced = λ db v _. refl;
  count-replaced = λ db v cid. refl;
  insert_failed = λ db cid h. absurd (h refl);
  replace_failed = λ db v h. absurd (h refl);
}

-- The file `q` has three messages. Every command goes well, but `bad` does not start.
abbrev pub toy_outside : Outside
toy_outside = record {
  World = ℕ;
  read_to_string =
      λ w path. if bytes_eq path (codes "q") then text (codes "1\n2\n3\n") else not_found;
  http_get = λ url w. (ok (ok (codes "[]")), w);
  command = λ program args dir w. (
    if bytes_eq program (codes "bad")
        then err (message (codes "not found"))
        else ok (printed (codes "tx_hash: abc")),
    w + 1,
  );
  print = λ line w. w;
  sleep = λ w. w + 2;
  now = λ w. 1700000000;
}

abbrev pub cfg_with : Str → Cfg
cfg_with bin = record {
  delivery_source = codes "file:q";
  spel_bin = bin;
  idl = codes "i";
  workdir = codes ".";
}

-- A fresh database, and one that has the cursor 0.
abbrev pub fresh : Tables
fresh = record { anchored = []; cursor = none }
