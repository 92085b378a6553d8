-- ===== src/BatchAnchor/Tests/Runs.antt =====
-- The theorems on rounds and runs of the tool.
use logos_whistleblower.Common.{
  ℕ, ◌+◌, ◌≡◌, ◌≤◌, refl, true, false, Bool, some, List, [], ◌∷◌, Str, codes, has_text, lines, trim,
  to_string, parse_u64, strip_prefix, as_bytes, contains, bytes_eq, All, if◌then◌else◌, Outcome, ok,
  arith,
}
use logos_whistleblower.Indexer.Types.{Error}
use logos_whistleblower.Indexer.Cid.{decode_cid}
use logos_whistleblower.Indexer.Toys.{toy_crates, toy_crates-U64IsLawful, cid_of, payload_of}
use logos_whistleblower.BatchAnchor.Types.{Machine, DeliveryMsg}
use logos_whistleblower.BatchAnchor.Store.{is_anchored, mark_anchored, load_cursor, save_cursor}
use logos_whistleblower.BatchAnchor.Delivery.{poll_file, poll_delivery}
use logos_whistleblower.BatchAnchor.Submit.{
  BatchEntry, gather, advance, anchor_via_spel, metadata_hash_from_payload,
}
use logos_whistleblower.BatchAnchor.Run.{RunArgs, LoopState, Progress, next, handle, round, run}
use logos_whistleblower.BatchAnchor.Run.Anchors.{Settled, previewed, handle_anchors}
use logos_whistleblower.BatchAnchor.Submit.Gather.{cid_texts}
use logos_whistleblower.BatchAnchor.Run.Marks.{Submitted, handle_marks}
use logos_whistleblower.BatchAnchor.Run.Dry.{Behind, handle_dry}
use logos_whistleblower.BatchAnchor.Run.Limits.{counted, commands, run-le-max_batches}
use logos_whistleblower.BatchAnchor.Run.Once.{run_once}
use logos_whistleblower.BatchAnchor.Toys.{
  Tables, toy_sqlite, toy_sqlite-IsLawful, toy_outside, cfg_with, fresh,
}

abbrev pub msg : ℕ → DeliveryMsg
msg n = record { seq = n; payload = payload_of n }

abbrev pub args : Bool → Bool → RunArgs
args dry_run once = record {
  topic = codes "t";
  batch_size = 2;
  max_batches = 1;
  dry_run = dry_run;
  once = once;
}

abbrev pub machine : Tables → ℕ → Machine toy_sqlite toy_outside
machine db w = record { db = db; world = w }

abbrev at_0 : LoopState
at_0 = record { batches_submitted = 0; cursor = 0 }

abbrev pub tables : List Str → Str → Tables
tables cids cursor = record { anchored = cids; cursor = some cursor }

abbrev done : Progress
done = next (record { batches_submitted = 1; cursor = 2 })

handle_anchors_example :
    All
      (Settled toy_crates toy_sqlite (tables (cid_of 2 ∷ cid_of 1 ∷ []) (codes "2")))
      (msg 1 ∷ msg 2 ∷ [])
    × (load_cursor toy_sqlite (tables (cid_of 2 ∷ cid_of 1 ∷ []) (codes "2")) ≡ ok 2)
unfolding handle advance gather is_anchored contains decode_cid metadata_hash_from_payload
    anchor_via_spel bytes_eq mark_anchored save_cursor to_string as_bytes lines has_text trim
handle_anchors_example =
    handle_anchors toy_crates toy_sqlite toy_outside (cfg_with (codes "spel")) (args false false)
      at_0 (msg 1) (msg 2 ∷ []) done (machine fresh 0)
      (machine (tables (cid_of 2 ∷ cid_of 1 ∷ []) (codes "2")) 1) toy_sqlite-IsLawful refl
      (omega arith) refl

handle_marks_example :
    (entries : List BatchEntry) × (gather toy_crates toy_sqlite fresh (msg 1 ∷ msg 2 ∷ [])
      ≡ ok entries)
    × Submitted toy_crates toy_sqlite toy_outside
        (cfg_with (codes "spel"))
        (args false false)
        0
        2
        entries
        0
        1
    × ((cid : Str)
        → is_anchored toy_sqlite (tables (cid_of 2 ∷ cid_of 1 ∷ []) (codes "2")) cid ≡ (
            if contains (cid_texts entries) cid then ok true else is_anchored toy_sqlite fresh cid))
unfolding handle advance gather is_anchored contains decode_cid metadata_hash_from_payload
    anchor_via_spel bytes_eq mark_anchored save_cursor to_string as_bytes lines has_text trim
handle_marks_example =
    handle_marks toy_crates toy_sqlite toy_outside (cfg_with (codes "spel")) (args false false) at_0
      (msg 1) (msg 2 ∷ []) done (machine fresh 0)
      (machine (tables (cid_of 2 ∷ cid_of 1 ∷ []) (codes "2")) 1) toy_sqlite-IsLawful refl refl

handle_dry_example :
    ((entries : List BatchEntry) × (gather toy_crates toy_sqlite fresh (msg 1 ∷ msg 2 ∷ [])
        ≡ ok entries)
      × ((machine (tables [] (codes "2")) 1).world
          ≡ previewed toy_crates toy_sqlite toy_outside
              (cfg_with (codes "spel"))
              (args true false)
              0
              2
              entries
              1))
    × ((cid : Str)
        → is_anchored toy_sqlite (tables [] (codes "2")) cid ≡ is_anchored toy_sqlite fresh cid)
    × (load_cursor toy_sqlite (tables [] (codes "2")) ≡ ok 2)
    × All (Behind (msg 1 ∷ msg 2 ∷ [])) (msg 3 ∷ [])
unfolding handle advance poll_file lines trim gather is_anchored contains decode_cid
    metadata_hash_from_payload anchor_via_spel bytes_eq mark_anchored save_cursor to_string as_bytes
    has_text
handle_dry_example =
    handle_dry toy_crates toy_sqlite toy_outside (cfg_with (codes "spel")) (args true false) at_0
      (msg 1) (msg 2 ∷ []) done (machine fresh 1) (machine (tables [] (codes "2")) 1) 5
      (codes "1\n2\n3\n") (msg 3 ∷ []) toy_sqlite-IsLawful toy_crates-U64IsLawful refl (omega arith)
      refl refl

run_once_example :
    (end : Outcome Error (Unit {0}) × Machine toy_sqlite toy_outside) × (run toy_crates toy_sqlite
        toy_outside
        (cfg_with (codes "spel"))
        (args false true)
        1
        (machine fresh 0)
      ≡ some end)
run_once_example =
    run_once toy_crates toy_sqlite toy_outside (cfg_with (codes "spel")) (args false true) 0
      (machine fresh 0) refl

abbrev counting : Tables → ℕ → ℕ → Machine toy_sqlite (counted toy_outside)
counting db w n = record { db = db; world = (w, n) }

-- The second round finds the limit reached.
run-le-max_batches_example :
    commands toy_sqlite toy_outside (counting (tables (cid_of 2 ∷ cid_of 1 ∷ []) (codes "2")) 1 1)
    ≤ 0 + 1
unfolding run load_cursor parse_u64 round poll_delivery strip_prefix poll_file lines trim as_bytes
    handle advance gather is_anchored contains decode_cid metadata_hash_from_payload anchor_via_spel
    bytes_eq mark_anchored save_cursor to_string has_text
run-le-max_batches_example =
    run-le-max_batches toy_crates toy_sqlite toy_outside (cfg_with (codes "spel"))
      (args false false) 2 (counting fresh 0 0)
      (counting (tables (cid_of 2 ∷ cid_of 1 ∷ []) (codes "2")) 1 1) (ok tt) (omega arith) refl
