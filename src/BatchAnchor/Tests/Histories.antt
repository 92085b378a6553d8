-- ===== src/BatchAnchor/Tests/Histories.antt =====
-- The theorems on invocations of the tool, on a run that fails and one that goes well.
use logos_whistleblower.Common.{
  some, ℕ, ◌≡◌, ◌≤◌, refl, sym, ap, true, Bool, List, [], ◌∷◌, ◌++◌, Str, codes, lines, trim,
  has_text, to_string, parse_u64, strip_prefix, as_bytes, contains, bytes_eq, All, ok, err, arith,
}
use logos_whistleblower.Indexer.Types.{message}
use logos_whistleblower.Indexer.Cid.{decode_cid}
use logos_whistleblower.Indexer.Toys.{toy_crates, toy_crates-U64IsLawful, cid_of}
use logos_whistleblower.BatchAnchor.Types.{Outside, text, DeliveryMsg}
use logos_whistleblower.BatchAnchor.Store.{
  is_anchored, mark_anchored, load_cursor, save_cursor, open_db,
}
use logos_whistleblower.BatchAnchor.Delivery.{poll_file, poll_delivery}
use logos_whistleblower.BatchAnchor.Delivery.Queue.{pending, Holds, no_lines, full_line}
use logos_whistleblower.BatchAnchor.Submit.{
  gather, advance, anchor_via_spel, metadata_hash_from_payload,
}
use logos_whistleblower.BatchAnchor.Run.{handle, round, run}
use logos_whistleblower.BatchAnchor.Run.Anchors.{Settled}
use logos_whistleblower.BatchAnchor.Main.{
  default_cli, default_run, Cli, Commands, run_command, status_command, main,
}
use logos_whistleblower.BatchAnchor.Main.History.{History, nothing}
use logos_whistleblower.BatchAnchor.Main.Growing.{
  Growth, idle, appended, invoked, Growth-Progressed,
}
use logos_whistleblower.BatchAnchor.Main.Lasting.{UsesDatabase, ReadsFile, History-Remembers}
use logos_whistleblower.BatchAnchor.Tests.{queue, all_three, queue-Holds}
use logos_whistleblower.BatchAnchor.Tests.Runs.{msg, tables}
use logos_whistleblower.BatchAnchor.Toys.{Tables, toy_outside, fresh}
use logos_whistleblower.BatchAnchor.Toys.Files.{
  Files, toy_files, toy_files-IsLawful, toy_files-OpenIsLawful,
}

abbrev cli_with : Str → Cli
cli_with bin = record (default_cli (some bin) (run_command (record default_run { once = true }))) {
  delivery_source = codes "file:q";
}

-- The default of `--state-db`.
abbrev state_db : Str
state_db = codes "whistleblower-state.db"

-- A machine whose open file has these tables.
abbrev opened : Tables → Files
opened t = record { file = state_db; tables = t; others = [] }

abbrev before : Files
before = opened (tables [] (codes "1"))

abbrev after : Files
after = opened (tables (cid_of 3 ∷ cid_of 2 ∷ []) (codes "3"))

cli_with-ReadsFile : (bin : Str) → ReadsFile state_db (codes "q") (cli_with bin)
unfolding strip_prefix
cli_with-ReadsFile bin = (refl, refl, λ a e. sym (ap dry e))
  where
    dry : Commands → Bool
    dry (run_command a) = a.dry_run
    dry status_command = true

two_runs : History toy_crates toy_files toy_outside (UsesDatabase state_db) before after
unfolding main open_db run load_cursor parse_u64 round poll_delivery strip_prefix poll_file lines
    trim as_bytes handle advance gather is_anchored contains decode_cid metadata_hash_from_payload
    anchor_via_spel bytes_eq mark_anchored save_cursor to_string has_text
two_runs =
    History.invoked 1 (cli_with (codes "bad")) 0 (err (message (codes "spawning spel (bad)")))
      (record { db = before; world = 1 }) refl refl
      (History.invoked 1 (cli_with (codes "spel")) 5 (ok tt) (record { db = after; world = 6 }) refl
        refl nothing)

History-Remembers_example :
    ((c : ℕ) × (load_cursor toy_files after ≡ ok c) × (1 ≤ c))
    × ((cid : Str)
        → is_anchored toy_files before cid ≡ ok true
        → is_anchored toy_files after cid ≡ ok true)
unfolding load_cursor parse_u64 bytes_eq
History-Remembers_example =
    History-Remembers toy_crates toy_files toy_outside state_db before after 1
      (toy_files-OpenIsLawful state_db) toy_files-IsLawful toy_crates-U64IsLawful refl refl two_runs

-- Another database knows nothing.
elsewhere : load_cursor toy_files (open_db toy_files (codes "other.db") after).1 ≡ ok 0
unfolding open_db load_cursor bytes_eq
elsewhere = refl

-- A world in which every file has this text.
abbrev outside_with : Str → Outside
outside_with contents = record toy_outside { read_to_string = λ w path. text contents }

abbrev two_lines : Str
two_lines = codes "1\n2\n"

two_lines-Holds : Holds toy_crates (lines two_lines) (msg 1 ∷ msg 2 ∷ [])
unfolding lines trim bytes_eq as_bytes
two_lines-Holds =
    full_line {m = msg 1} b'1' [] _ refl refl refl refl
      (full_line {m = msg 2} b'2' [] _ refl refl refl refl no_lines)

abbrev two_done : Files
two_done = opened (tables (cid_of 2 ∷ cid_of 1 ∷ []) (codes "2"))

abbrev three_done : Files
three_done = opened (tables (cid_of 3 ∷ cid_of 2 ∷ cid_of 1 ∷ []) (codes "3"))

-- A run, a message that comes in, and another run.
one_more :
    Growth toy_crates toy_files state_db
      (codes "q")
      (msg 1 ∷ msg 2 ∷ [])
      (opened fresh)
      all_three
      three_done
unfolding main open_db run load_cursor parse_u64 round poll_delivery strip_prefix poll_file lines
    trim as_bytes handle advance gather is_anchored contains decode_cid metadata_hash_from_payload
    anchor_via_spel bytes_eq mark_anchored save_cursor to_string has_text
one_more =
    invoked (outside_with two_lines) two_lines 1 (cli_with (codes "spel")) 0 (ok tt)
      (record { db = two_done; world = 1 }) (cli_with-ReadsFile (codes "spel")) (λ w. refl)
      two_lines-Holds refl
      (appended (msg 3 ∷ []) ((omega arith), ((omega arith), tt))
        (invoked (outside_with queue) queue 1 (cli_with (codes "spel")) 7 (ok tt)
          (record { db = three_done; world = 8 }) (cli_with-ReadsFile (codes "spel")) (λ w. refl)
          queue-Holds refl idle))

Growth-Progressed_example :
    (c : ℕ) × (seen : List DeliveryMsg) × (load_cursor toy_files three_done ≡ ok c)
    × (c ≡ advance 0 seen)
    × (pending 0 all_three ≡ seen ++ pending c all_three)
    × All (Settled toy_crates toy_files three_done) seen
unfolding load_cursor bytes_eq
Growth-Progressed_example =
    Growth-Progressed toy_crates toy_files state_db (codes "q") (msg 1 ∷ msg 2 ∷ []) all_three
      (opened fresh) three_done 0 (toy_files-OpenIsLawful state_db) toy_files-IsLawful
      toy_crates-U64IsLawful refl ((omega arith), tt) refl one_more
