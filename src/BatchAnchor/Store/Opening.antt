-- ===== src/BatchAnchor/Store/Opening.antt =====
-- Opening the database of the tool's option `--state-db`: what was there stays.
use logos_whistleblower.Common.{
  ℕ, inl, inr, ltb, >>=-eq-ok, subst, ok-injective, Option-cases, ◌≡◌, ◌<◌, refl, Bool, Option,
  none, some, Str, parse_u64, parse_u64-lt, u64_mod, ok, map_err, map_err-eq-ok, arith, to_string,
}
use logos_whistleblower.Common.Effects.{>>=-keeps}
use logos_whistleblower.Indexer.Types.{unwrap_or}
use logos_whistleblower.BatchAnchor.Types.{Sqlite}
use logos_whistleblower.BatchAnchor.Store.{
  sql_error, optional, parsed, execute, is_anchored, load_cursor, open_db, save_cursor,
  mark_anchored,
}

-- What the code relies on of SQLite where it opens the database of `file` anew, on a connection to
-- that database, which `At` tells from connections to others: it is connected to it, a query that had
-- an answer has it still, and no statement connects it to another. A query on a table that is not
-- there has no answer, and may get one. Nothing is supposed of connections to another database.
pub record OpenIsLawful (S : Sqlite) (file : Str) : Type 1 where
  pub At : S.Db → Type 0
  pub at-connected : (db : S.Db) → At db → At (S.connect file db).1
  pub at-created : (db : S.Db) → At db → At (S.create_tables db).1
  pub at-inserted : (db : S.Db) (cid : Str) → At db → At (S.insert_or_ignore cid db).1
  pub at-replaced : (db : S.Db) (v : Str) → At db → At (S.replace_cursor v db).1
  pub connected-count :
      (db : S.Db) (cid : Str) (n : ℕ)
      → At db
      → S.count_cid db cid ≡ ok n
      → S.count_cid (S.connect file db).1 cid ≡ ok n
  pub connected-cursor :
      (db : S.Db) (v : Option Str)
      → At db
      → optional (S.select_cursor db) ≡ ok v
      → optional (S.select_cursor (S.connect file db).1) ≡ ok v
  pub created-count :
      (db : S.Db) (cid : Str) (n : ℕ)
      → S.count_cid db cid ≡ ok n
      → S.count_cid (S.create_tables db).1 cid ≡ ok n
  pub created-cursor :
      (db : S.Db) (v : Option Str)
      → optional (S.select_cursor db) ≡ ok v
      → optional (S.select_cursor (S.create_tables db).1) ≡ ok v

parsed-lt : (v : Option Str) → unwrap_or (parsed v) 0 < u64_mod
parsed-lt none = omega arith
parsed-lt (some v) = elim (Option-cases (parse_u64 v)) [
  | inl e ↦ rw e (omega arith)
  | inr (n, e) ↦ rw e (parse_u64-lt v e)
]

module _ (S : Sqlite) where
  -- The row of a cursor that is loaded.
  load_cursor-eq-ok :
      (db : S.Db) {c : ℕ}
      → load_cursor S db ≡ ok c
      → (v : Option Str) × (optional (S.select_cursor db) ≡ ok v) × (unwrap_or (parsed v) 0 ≡ c)
  unfolding load_cursor
  load_cursor-eq-ok db h =
      let (v, read, rest) = >>=-eq-ok (map_err sql_error (optional (S.select_cursor db))) _ h in
      (v, map_err-eq-ok sql_error _ read, ok-injective rest)

  load_cursor-ok :
      (db : S.Db) (v : Option Str)
      → optional (S.select_cursor db) ≡ ok v
      → load_cursor S db ≡ ok (unwrap_or (parsed v) 0)
  unfolding load_cursor
  load_cursor-ok db v h = rw h refl

  is_anchored-eq-ok :
      (db : S.Db) (cid : Str) {b : Bool}
      → is_anchored S db cid ≡ ok b
      → (n : ℕ) × (S.count_cid db cid ≡ ok n) × (ltb 0 n ≡ b)
  unfolding is_anchored
  is_anchored-eq-ok db cid h =
      let (n, counted, rest) = >>=-eq-ok (map_err sql_error (S.count_cid db cid)) _ h in
      (n, map_err-eq-ok sql_error _ counted, ok-injective rest)

  is_anchored-ok :
      (db : S.Db) (cid : Str) (n : ℕ)
      → S.count_cid db cid ≡ ok n
      → is_anchored S db cid ≡ ok (ltb 0 n)
  unfolding is_anchored
  is_anchored-ok db cid n h = rw h refl

  -- The cursor that is loaded is a `u64`.
  pub load_cursor-lt : (db : S.Db) {c : ℕ} → load_cursor S db ≡ ok c → c < u64_mod
  load_cursor-lt db h =
      let (v, _, e) = load_cursor-eq-ok db h in subst (λ n. n < u64_mod) e (parsed-lt v)

  module _ (file : Str) (L : OpenIsLawful S file) where
    pub open_db-At : (db : S.Db) → L.At db → L.At (open_db S file db).1
    unfolding open_db
    open_db-At db at =
        let connected = L.at-connected db at in
        >>=-keeps L.At (execute (S.connect file)) _ db connected (λ _ _. L.at-created _ connected)

    pub save_cursor-At : (c : ℕ) (db : S.Db) → L.At db → L.At (save_cursor S c db).1
    unfolding save_cursor
    save_cursor-At c db at = L.at-replaced db (to_string c) at

    pub mark_anchored-At : (cid : Str) (db : S.Db) → L.At db → L.At (mark_anchored S cid db).1
    unfolding mark_anchored
    mark_anchored-At cid db at = L.at-inserted db cid at

    pub load_cursor-open_db :
        (db : S.Db) {c : ℕ}
        → L.At db
        → load_cursor S db ≡ ok c
        → load_cursor S (open_db S file db).1 ≡ ok c
    unfolding open_db
    load_cursor-open_db db {c} at h =
        let (v, read, e) = load_cursor-eq-ok db h in
        let connected = L.connected-cursor db v at read in
        subst (λ n. load_cursor S (open_db S file db).1 ≡ ok n) e
          (load_cursor-ok _ v (
            >>=-keeps (λ d. optional (S.select_cursor d) ≡ ok v) (execute (S.connect file)) _ db
              connected (λ _ _. L.created-cursor _ v connected)))

    pub is_anchored-open_db :
        (db : S.Db) (cid : Str) {b : Bool}
        → L.At db
        → is_anchored S db cid ≡ ok b
        → is_anchored S (open_db S file db).1 cid ≡ ok b
    unfolding open_db
    is_anchored-open_db db cid at h =
        let (n, counted, e) = is_anchored-eq-ok db cid h in
        let connected = L.connected-count db cid n at counted in
        subst (λ b. is_anchored S (open_db S file db).1 cid ≡ ok b) e
          (is_anchored-ok _ cid n (
            >>=-keeps (λ d. S.count_cid d cid ≡ ok n) (execute (S.connect file)) _ db connected
              (λ _ _. L.created-count _ cid n connected)))
