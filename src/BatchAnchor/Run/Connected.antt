-- ===== src/BatchAnchor/Run/Connected.antt =====
-- A run stays on the database that it has opened.
use logos_whistleblower.Common.{ℕ, ◌≡◌, List, [], ◌∷◌, some, Str, Outcome, Bool-cases, inl, inr}
use logos_whistleblower.Common.Effects.{>>=-keeps}
use logos_whistleblower.Indexer.Types.{Error}
use logos_whistleblower.Indexer.Host.{Crates}
use logos_whistleblower.BatchAnchor.Types.{Sqlite, Outside, Machine, Cfg}
use logos_whistleblower.BatchAnchor.Store.{mark_anchored}
use logos_whistleblower.BatchAnchor.Store.Opening.{OpenIsLawful, save_cursor-At, mark_anchored-At}
use logos_whistleblower.BatchAnchor.Submit.{BatchEntry}
use logos_whistleblower.BatchAnchor.Run.{
  RunArgs, on_db, on_world, send_batch, mark_all, submit, run,
}
use logos_whistleblower.BatchAnchor.Run.Keeps.{run-keeps}

module _ (K : Crates) (S : Sqlite) (O : Outside) (cli : Cfg) (args : RunArgs) (file : Str)
    (L : OpenIsLawful S file) where
  mark_all-At : (entries : List BatchEntry) (db : S.Db) → L.At db → L.At (mark_all S entries db).1
  unfolding mark_all
  mark_all-At [] db at = at
  mark_all-At (e ∷ entries) db at =
      let marked = mark_anchored-At S file L e.cid_text db at in
      >>=-keeps L.At (mark_anchored S e.cid_text) _ db marked (λ _ _. mark_all-At entries _ marked)

  -- The connection of the machine.
  abbrev Connected : Machine S O → Type 0
  Connected m = L.At m.db

  submit-Connected :
      (cursor c : ℕ) (entries : List BatchEntry) (m : Machine S O)
      → Connected m
      → Connected (submit K S O cli args cursor c entries m).1
  unfolding submit
  submit-Connected cursor c entries m at = elim (Bool-cases args.dry_run) [
    | inl dry ↦ rw dry at
    | inr real ↦
        let marked = mark_all-At entries m.db at in
        rw real (
          >>=-keeps Connected
            (on_world (send_batch K S O cli args cursor c entries (O.now m.world))) _ m at
            (λ _ _. >>=-keeps Connected (on_db (mark_all S entries)) _ _ marked (λ _ _. marked)))
  ]

  pub run-At :
      (fuel : ℕ) (m m' : Machine S O) (r : Outcome Error (Unit {0}))
      → L.At m.db
      → run K S O cli args fuel m ≡ some (r, m')
      → L.At m'.db
  run-At fuel m m' r at h =
      run-keeps K S O cli args Connected
        (record {
          http_got = λ url v p. p;
          printed = λ line v p. p;
          slept = λ v p. p;
          saved = λ c v p. save_cursor-At S file L c v.db p;
          submitted = λ cursor c ms e entries v _ p. submit-Connected cursor c (e ∷ entries) v p;
        })
        fuel m m' r at h
