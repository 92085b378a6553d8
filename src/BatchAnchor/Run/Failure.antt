-- ===== src/BatchAnchor/Run/Failure.antt =====
-- A submission that fails.
use logos_whistleblower.Common.{◌≡◌, refl, List, ◌∷◌, false, ok, err}
use logos_whistleblower.Common.Effects.{Action}
use logos_whistleblower.Indexer.Types.{Error}
use logos_whistleblower.Indexer.Host.{Crates}
use logos_whistleblower.BatchAnchor.Types.{Sqlite, Outside, Machine, Cfg, DeliveryMsg}
use logos_whistleblower.BatchAnchor.Submit.{BatchEntry, gather, advance}
use logos_whistleblower.BatchAnchor.Run.{RunArgs, LoopState, send_batch, handle}

module _ (K : Crates) (S : Sqlite) (O : Outside) (cli : Cfg) (args : RunArgs) where
  -- The submission of entries in a round on messages.
  abbrev pub sending :
      LoopState → DeliveryMsg → List DeliveryMsg → List BatchEntry → Action O.World Error (Unit {0})
  sending st x xs entries w =
      send_batch K S O cli args st.cursor (advance st.cursor (x ∷ xs)) entries (O.now w) w

-- Where there is something to submit and `spel` fails, the round fails with its error and leaves
-- the database as it was: no CID is marked and the cursor is not saved.
pub handle_failed :
    (K : Crates) (S : Sqlite) (O : Outside) (cli : Cfg) (args : RunArgs) (st : LoopState)
    (x : DeliveryMsg) (xs : List DeliveryMsg) (entry : BatchEntry) (entries : List BatchEntry)
    (e : Error) (m : Machine S O)
    → args.dry_run ≡ false
    → gather K S m.db (x ∷ xs) ≡ ok (entry ∷ entries)
    → (sending K S O cli args st x xs (entry ∷ entries) m.world).0 ≡ err e
    → handle K S O cli args st (x ∷ xs) m
      ≡ (err e, record m { world = (sending K S O cli args st x xs (entry ∷ entries) m.world).1 })
unfolding handle
handle_failed K S O cli args st x xs entry entries e m real gathered failed =
    rw gathered (rw real (rw failed refl))
