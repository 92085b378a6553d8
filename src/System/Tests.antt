-- ===== src/System/Tests.antt =====
-- The theorems on the tool and the chain, on a run that anchors two CIDs.
use logos_whistleblower.Common.{
  ℕ, length, min, max, ◌≡◌, refl, true, false, some, List, [], ◌∷◌, ◌++◌, Str, codes, replicate,
  lines, trim, has_text, join, split, to_string, parse_u64, strip_prefix, as_bytes, contains,
  bytes_eq, All, ok, arith,
}
use logos_whistleblower.Registry.Types.{DocumentRecord}
use logos_whistleblower.Registry.Program.Repeats.{unknown}
use logos_whistleblower.BatchAnchor.Run.Anchors.{Settled}
use logos_whistleblower.BatchAnchor.Run.Advances.{run-advances}
use logos_whistleblower.BatchAnchor.Run.Finishes.{runs}
use logos_whistleblower.System.Eventually.{runs-IsDelivered}
use logos_whistleblower.Registry.Toys.{toy_chain, toy_chain-IsLawful}
use logos_whistleblower.Indexer.Cid.{decode_cid}
use logos_whistleblower.Indexer.Toys.{toy_crates-U64IsLawful, cid_of, payload_of}
use logos_whistleblower.BatchAnchor.Types.{Machine, DeliveryMsg}
use logos_whistleblower.BatchAnchor.Store.{is_anchored, mark_anchored, load_cursor, save_cursor}
use logos_whistleblower.BatchAnchor.Delivery.{poll_file, poll_delivery}
use logos_whistleblower.BatchAnchor.Delivery.Queue.{Holds, no_lines, full_line, pending}
use logos_whistleblower.BatchAnchor.Submit.{
  gather, advance, anchor_via_spel, metadata_hash_from_payload,
}
use logos_whistleblower.BatchAnchor.Run.{RunArgs, handle, round, run}
use logos_whistleblower.BatchAnchor.Toys.{toy_sqlite, toy_sqlite-IsLawful, cfg_with}
use logos_whistleblower.System.Backed.{Backed, run-Backed}
use logos_whistleblower.System.Delivered.{IsDelivered, run-IsDelivered}
use logos_whistleblower.System.Toys.{
  toy-Works, digit_crates, chain_outside, toy_ledger, registry_with,
}

abbrev queue : Str
queue = codes "1\n2\n3\n"

abbrev msg : ℕ → DeliveryMsg
msg n = record { seq = n; payload = payload_of n }

abbrev all_three : List DeliveryMsg
all_three = msg 1 ∷ msg 2 ∷ msg 3 ∷ []

queue-Holds : Holds digit_crates (lines queue) all_three
unfolding lines trim bytes_eq as_bytes
queue-Holds = full_line {m = msg 1} b'1' [] _ refl refl refl refl (
    full_line {m = msg 2} b'2' [] _ refl refl refl refl
      (full_line {m = msg 3} b'3' [] _ refl refl refl refl no_lines))

abbrev args : RunArgs
args = record { topic = codes "t"; batch_size = 2; max_batches = 1; dry_run = false; once = true }

abbrev recorded : ℕ → DocumentRecord
recorded byte = record {
  cid = replicate 46 byte;
  metadata_hash = replicate 32 1;
  anchor_timestamp = 7;
}

abbrev machine : List Str → Str → List DocumentRecord → Machine toy_sqlite chain_outside
machine cids cursor w = record { db = record { anchored = cids; cursor = some cursor }; world = w }

-- The CIDs 2 and 3 lie behind the cursor.
abbrev before : Machine toy_sqlite chain_outside
before = machine [] (codes "1") []

abbrev after : Machine toy_sqlite chain_outside
after = machine (cid_of 3 ∷ cid_of 2 ∷ []) (codes "3") (recorded b'c' ∷ recorded b'd' ∷ [])

before-Backed :
    Backed digit_crates toy_sqlite chain_outside toy_chain
      (cfg_with (codes "spel"))
      toy_ledger
      before.db
      before.world
unfolding is_anchored contains
before-Backed cid a = cc

the_run :
    run digit_crates toy_sqlite chain_outside (cfg_with (codes "spel")) args 1 before
    ≡ some (ok tt, after)
unfolding run load_cursor parse_u64 round poll_delivery strip_prefix poll_file lines trim as_bytes
    handle advance gather is_anchored contains decode_cid metadata_hash_from_payload anchor_via_spel
    bytes_eq mark_anchored save_cursor to_string has_text join split unknown
the_run = refl

run-Backed_example :
    Backed digit_crates toy_sqlite chain_outside toy_chain
      (cfg_with (codes "spel"))
      toy_ledger
      after.db
      after.world
run-Backed_example =
    run-Backed digit_crates toy_sqlite chain_outside toy_chain (cfg_with (codes "spel")) args
      toy_ledger 1 before after (ok tt) toy_sqlite-IsLawful toy_chain-IsLawful before-Backed the_run

run-IsDelivered_example :
    (c : ℕ) × (seen : List DeliveryMsg) × (load_cursor toy_sqlite after.db ≡ ok c)
    × (pending 1 all_three ≡ seen ++ pending c all_three)
    × All (IsDelivered digit_crates toy_chain (registry_with after.world)) seen
unfolding load_cursor parse_u64 strip_prefix bytes_eq
run-IsDelivered_example =
    run-IsDelivered digit_crates toy_sqlite chain_outside toy_chain (cfg_with (codes "spel")) args
      toy_ledger all_three (codes "q") queue 1 1 before after (ok tt) toy_sqlite-IsLawful
      toy_chain-IsLawful toy_crates-U64IsLawful refl refl (λ w. refl) queue-Holds
      ((omega arith), ((omega arith), tt)) refl (omega arith) before-Backed the_run

-- Two messages are pending, and two runs are made, of which the second finds nothing.
runs-IsDelivered_example :
    (m' : Machine toy_sqlite chain_outside) × (c : ℕ) × (runs digit_crates toy_sqlite chain_outside
        (cfg_with (codes "spel"))
        args
        2
        before
      ≡ some m')
    × (load_cursor toy_sqlite m'.db ≡ ok c)
    × (pending c all_three ≡ [])
    × All (IsDelivered digit_crates toy_chain (registry_with m'.world)) (pending 1 all_three)
unfolding load_cursor parse_u64 strip_prefix bytes_eq pending
runs-IsDelivered_example =
    runs-IsDelivered digit_crates toy_sqlite chain_outside toy_chain (cfg_with (codes "spel")) args
      toy_ledger all_three (codes "q") queue 2 1 before toy_sqlite-IsLawful toy_chain-IsLawful
      toy_crates-U64IsLawful toy-Works (omega arith) refl refl refl (λ w. refl) queue-Holds
      ((omega arith), ((omega arith), tt)) refl (omega arith) before-Backed

run-advances_example :
    (m' : Machine toy_sqlite chain_outside) × (batch : List DeliveryMsg) × (run digit_crates
        toy_sqlite chain_outside
        (cfg_with (codes "spel"))
        args
        1
        before
      ≡ some (ok tt, m'))
    × (load_cursor toy_sqlite m'.db ≡ ok (advance 1 batch))
    × All (Settled digit_crates toy_sqlite m'.db) batch
    × (pending 1 all_three ≡ batch ++ pending (advance 1 batch) all_three)
    × (length batch ≡ min (max 1 2) (length (pending 1 all_three)))
unfolding load_cursor parse_u64 strip_prefix bytes_eq
run-advances_example =
    run-advances digit_crates toy_sqlite chain_outside (cfg_with (codes "spel")) args all_three
      (codes "q") queue 0 1 before toy_sqlite-IsLawful toy_crates-U64IsLawful toy-Works
      (omega arith) refl refl refl (λ w. refl) queue-Holds ((omega arith), ((omega arith), tt)) refl
