-- ===== src/BatchAnchor/Run/Since/Database.antt =====
-- Databases that descend from another, by the statements of a run.
use logos_whistleblower.Common.{
  ℕ, ◌≤◌, ◌<◌, max, ◌≡◌, ◌≢◌, refl, ◌∙◌, List, [], ◌∷◌, true, Str, u64_mod, Outcome, ok, err,
  panicked, arith, inl, inr, Bool-cases, bytes_eq, ◌⊎◌,
}
use logos_whistleblower.Common.Effects.{>>=-keeps}
use logos_whistleblower.BatchAnchor.Types.{Sqlite, DeliveryMsg}
use logos_whistleblower.BatchAnchor.Store.{is_anchored, mark_anchored, load_cursor, save_cursor}
use logos_whistleblower.BatchAnchor.Store.Laws.{
  IsLawful, load_cursor-save_cursor, is_anchored-mark_anchored, is_anchored-save_cursor,
  load_cursor-mark_anchored, save_cursor_failed, mark_anchored_failed,
}
use logos_whistleblower.BatchAnchor.Delivery.Bounds.{AllFit}
use logos_whistleblower.BatchAnchor.Submit.{BatchEntry, advance}
use logos_whistleblower.BatchAnchor.Run.{mark_all}

module _ (S : Sqlite) where
  -- A database that descends from `old`, which had the cursor `start`.
  pub record IsSince (old : S.Db) (start : ℕ) (db : S.Db) : Type 0 where
    pub cursor : (c : ℕ) × (load_cursor S db ≡ ok c) × (start ≤ c)
    pub kept :
        (cid : Str)
        → (is_anchored S db cid ≡ ok true) ⊎ (is_anchored S db cid ≡ is_anchored S old cid)

-- What was anchored is anchored.
pub IsSince-Anchors :
    (S : Sqlite) {old db : S.Db} {start : ℕ}
    → IsSince S old start db
    → (cid : Str) → is_anchored S old cid ≡ ok true
    → is_anchored S db cid ≡ ok true
IsSince-Anchors S since cid a = elim (since.kept cid) [ inl now ↦ now | inr same ↦ same ∙ a ]

pub advance-lt : (a : ℕ) (ms : List DeliveryMsg) → a < u64_mod → AllFit ms → advance a ms < u64_mod
unfolding advance
advance-lt a [] h _ = h
advance-lt a (m ∷ ms) h (fits, all) = advance-lt (max a m.seq) ms (omega arith) all

pub unit_cases : {E : Type 0} (r : Outcome E (Unit {0})) → (r ≡ ok tt) ⊎ (r ≢ ok tt)
unit_cases (ok tt) = inl refl
unit_cases (err e) = inr (λ h. cc)
unit_cases panicked = inr (λ h. cc)

module _ (S : Sqlite) (L : IsLawful S) (old : S.Db) (start : ℕ) where
  pub save_cursor-IsSince :
      (c : ℕ) (db : S.Db)
      → start ≤ c
      → c < u64_mod
      → IsSince S old start db
      → IsSince S old start (save_cursor S c db).1
  save_cursor-IsSince c db le fits h = elim (unit_cases (save_cursor S c db).0) [
    | inl done ↦ record {
      cursor = (c, load_cursor-save_cursor S L db c fits done, le);
      kept = λ cid. rw (is_anchored-save_cursor S L db c cid) (h.kept cid);
    }
    | inr failed ↦ rw (save_cursor_failed S L db c failed) h
  ]

  mark_anchored-IsSince :
      (cid : Str) (db : S.Db)
      → IsSince S old start db
      → IsSince S old start (mark_anchored S cid db).1
  mark_anchored-IsSince cid db h = elim (unit_cases (mark_anchored S cid db).0) [
    | inl done ↦ record {
      cursor = rw (load_cursor-mark_anchored S L db cid) h.cursor;
      kept = λ x.
          rw (is_anchored-mark_anchored S L db cid x done) (elim (Bool-cases (bytes_eq cid x)) [
            | inl same ↦ rw same (inl refl)
            | inr other ↦ rw other (h.kept x)
          ]);
    }
    | inr failed ↦ rw (mark_anchored_failed S L db cid failed) h
  ]

  pub mark_all-IsSince :
      (entries : List BatchEntry) (db : S.Db)
      → IsSince S old start db
      → IsSince S old start (mark_all S entries db).1
  unfolding mark_all
  mark_all-IsSince [] db h = h
  mark_all-IsSince (e ∷ entries) db h =
      >>=-keeps (IsSince S old start) (mark_anchored S e.cid_text) _ db
        (mark_anchored-IsSince e.cid_text db h)
        (λ _ _. mark_all-IsSince entries _ (mark_anchored-IsSince e.cid_text db h))
