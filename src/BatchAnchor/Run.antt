-- ===== src/BatchAnchor/Run.antt =====
-- batch-anchor-cli/src/main.rs: `run`.
pub mod Since
pub mod Anchors
pub mod Marks
pub mod Limits
pub mod Dry
pub mod Once
pub mod Complete
pub mod Failure
pub mod Keeps
pub mod Connected
pub mod Succeeds
pub mod Advances
pub mod Finishes
use logos_whistleblower.Common.{
  map, codes, length, to_string, ◌++◌, ℕ, zero, suc, ◌+◌, List, [], ◌∷◌, Bool, ◌&&◌, Option, none,
  some, Str, ltb, leb, if◌then◌else◌, Outcome, ok, err, panicked,
}
use logos_whistleblower.Common.Effects.{Action, pure, lift, gets, effect, ◌>>=◌, ◌>>◌}
use logos_whistleblower.Indexer.Types.{Error}
use logos_whistleblower.Indexer.Host.{Crates}
use logos_whistleblower.BatchAnchor.Types.{Sqlite, Outside, Machine, Cfg, DeliveryMsg}
use logos_whistleblower.BatchAnchor.Store.{mark_anchored, load_cursor, save_cursor}
use logos_whistleblower.BatchAnchor.Delivery.{poll_delivery}
use logos_whistleblower.BatchAnchor.Submit.{BatchEntry, gather, advance, anchor_via_spel, print_all}

-- The arguments of the subcommand `run`.
pub record RunArgs : Type 0 where
  pub topic : Str
  pub batch_size : ℕ
  pub max_batches : ℕ
  pub dry_run : Bool
  pub once : Bool

-- The variables of the loop.
pub record LoopState : Type 0 where
  pub batches_submitted : ℕ
  pub cursor : ℕ

-- How a round ends: by a `break`, or with the variables of the next.
pub data Progress : Type 0 where
  stop : Progress
  next : LoopState → Progress

module _ {S : Sqlite} {O : Outside} where
  -- Actions on the database and on the world outside. `gets_db` changes nothing.
  abbrev pub on_db : {A : Type 0} → Action S.Db Error A → Action (Machine S O) Error A
  on_db act m = let (r, db) = act m.db in (r, record m { db = db })

  abbrev pub on_world : {A : Type 0} → Action O.World Error A → Action (Machine S O) Error A
  on_world act m = let (r, w) = act m.world in (r, record m { world = w })

  abbrev pub gets_db : {A : Type 0} → (S.Db → Outcome Error A) → Action (Machine S O) Error A
  gets_db look m = (look m.db, m)

module _ (S : Sqlite) where
  -- `for (_, _, cid) in &entries { mark_anchored(db, cid)?; }`
  unfoldable pub mark_all : List BatchEntry → Action S.Db Error (Unit {0})
  mark_all [] = pure tt
  mark_all (e ∷ entries) = mark_anchored S e.cid_text >> mark_all entries

-- What is printed.
abbrev pub batch_text : ℕ → ℕ → List BatchEntry → Str
batch_text cursor new_cursor entries =
    to_string (length entries)
    ++ (codes " CIDs (cursor "
        ++ (to_string cursor ++ (codes "→" ++ (to_string new_cursor ++ codes ")"))))

abbrev pub anchoring_line : ℕ → ℕ → List BatchEntry → Str
anchoring_line cursor new_cursor entries =
    codes "anchoring " ++ (batch_text cursor new_cursor entries ++ codes "...")

abbrev pub anchored_line : List BatchEntry → Str
anchored_line entries = codes "anchored " ++ (to_string (length entries) ++ codes " CIDs on-chain.")

abbrev pub preview_line : Crates → BatchEntry → Str
preview_line K e = codes "  cid=" ++ (e.cid_text ++ (codes "  meta_hash=" ++ K.hex e.meta_hash))

abbrev pub preview : Crates → ℕ → ℕ → List BatchEntry → List Str
preview K cursor new_cursor entries =
    (codes "[dry-run] would anchor " ++ (batch_text cursor new_cursor entries ++ codes ":"))
    ∷ map (preview_line K) entries

abbrev pub reached_line : ℕ → Str
reached_line max_batches =
    codes "reached max_batches=" ++ (to_string max_batches ++ codes ", stopping.")

abbrev pub start_line : Str → Str → ℕ → Str
start_line source topic cursor =
    codes "delivery-source="
    ++ (source ++ (codes " topic=" ++ (topic ++ (codes " cursor=" ++ to_string cursor))))

module _ (K : Crates) (S : Sqlite) (O : Outside) (cli : Cfg) (args : RunArgs) where
  -- `if once { break; }` at the end of a round
  abbrev pub ended : LoopState → Progress
  ended st = if args.once then stop else next st

  -- `anchor_via_spel`, with the line in front of it.
  abbrev pub send_batch : ℕ → ℕ → List BatchEntry → ℕ → Action O.World Error (Unit {0})
  send_batch cursor new_cursor entries now =
      effect (O.print (anchoring_line cursor new_cursor entries))
      >> anchor_via_spel K O cli entries now

  -- The submission; a dry run prints the entries in its place.
  unfoldable pub submit : ℕ → ℕ → List BatchEntry → Action (Machine S O) Error (Unit {0})
  unfolding mark_all print_all
  submit cursor new_cursor entries = do
    now ← gets (λ m. O.now m.world)
    if args.dry_run
        then on_world (effect (print_all O (preview K cursor new_cursor entries)))
        else do
          on_world (send_batch cursor new_cursor entries now)
          on_db (mark_all S entries)
          on_world (effect (O.print (anchored_line entries)))

  -- The round from the entries on.
  unfoldable pub process : LoopState → ℕ → List BatchEntry → Action (Machine S O) Error Progress
  unfolding submit
  process st new_cursor [] = do
    on_db (save_cursor S new_cursor)
    pure (ended (record st { cursor = new_cursor }))
  process st new_cursor (e ∷ entries) = do
    submit st.cursor new_cursor (e ∷ entries)
    on_db (save_cursor S new_cursor)
    pure (ended (record { batches_submitted = st.batches_submitted + 1; cursor = new_cursor }))

  -- The round from the messages on.
  unfoldable pub handle : LoopState → List DeliveryMsg → Action (Machine S O) Error Progress
  unfolding process
  handle st [] =
      if args.once
      then pure stop
      else do effect (λ m. record m { world = O.sleep m.world }); pure (next st)
  handle st (m ∷ messages) = do
    entries ← gets_db (λ db. gather K S db (m ∷ messages))
    process st (advance st.cursor (m ∷ messages)) entries

  -- One round of the `loop`.
  unfoldable pub round : LoopState → Action (Machine S O) Error Progress
  unfolding handle
  round st =
      if ltb 0 args.max_batches && leb args.max_batches st.batches_submitted
      then (do on_world (effect (O.print (reached_line args.max_batches))); pure stop)
      else do
        messages ←
            on_world (poll_delivery K O cli.delivery_source args.topic st.cursor args.batch_size)
        handle st messages

  abbrev pub go_on :
      Outcome Error Progress
      → Machine S O
      → (LoopState → Machine S O → Option (Outcome Error (Unit {0}) × Machine S O))
      → Option (Outcome Error (Unit {0}) × Machine S O)
  go_on (ok stop) m rest = some (ok tt, m)
  go_on (ok (next st)) m rest = rest st m
  go_on (err e) m rest = some (err e, m)
  go_on panicked m rest = some (panicked, m)

  -- The `loop`, as far as the fuel reaches: `none` is a run that is not over yet.
  unfoldable pub run_loop :
      ℕ → LoopState → Machine S O → Option (Outcome Error (Unit {0}) × Machine S O)
  run_loop zero st m = none
  run_loop (suc fuel) st m = let (r, m') = round st m in go_on r m' (run_loop fuel)

  -- The first line that is printed.
  abbrev pub begun : ℕ → Machine S O → Machine S O
  begun cursor m = record m {
    world = O.print (start_line cli.delivery_source args.topic cursor) m.world;
  }

  unfoldable pub run : ℕ → Machine S O → Option (Outcome Error (Unit {0}) × Machine S O)
  unfolding run_loop
  run fuel m = elim (load_cursor S m.db) [
    | ok cursor ↦ run_loop fuel (record { batches_submitted = 0; cursor = cursor }) (begun cursor m)
    | err e ↦ some (err e, m)
    | panicked ↦ some (panicked, m)
  ]
