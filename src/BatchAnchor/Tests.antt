-- ===== src/BatchAnchor/Tests.antt =====
-- The theorems of the tool on a small database and a small queue file.
mod Runs
mod Histories
use logos_whistleblower.Common.{
  ℕ, ◌+◌, ◌≡◌, ◌≢◌, ◌<◌, ◌≤◌, ◌⊎◌, max, min, refl, true, false, Bool, Option, some, none, List, [],
  ◌∷◌, ◌++◌, map, Str, Bytes, codes, length, replicate, lines, trim, strip_prefix, as_bytes,
  contains, bytes_eq, u64_mod, All, Outcome, ok, err, arith, if◌then◌else◌,
}
use logos_whistleblower.Registry.Types.{RegistryState, max_batch_size, cids}
use logos_whistleblower.Registry.Account.{AccountWithMetadata}
use logos_whistleblower.Registry.Toys.{toy_chain, toy_chain-IsLawful, read_state}
use logos_whistleblower.Indexer.Types.{Error, message}
use logos_whistleblower.Indexer.Cid.{decode_cid}
use logos_whistleblower.Indexer.Toys.{toy_crates, toy_crates-U64IsLawful, cid_of, payload_of}
use logos_whistleblower.BatchAnchor.Types.{Machine, DeliveryMsg, Cfg, Outside}
use logos_whistleblower.BatchAnchor.Store.{
  is_anchored, mark_anchored, load_cursor, save_cursor, optional,
}
use logos_whistleblower.BatchAnchor.Store.Laws.{load_cursor-save_cursor, is_anchored-mark_anchored}
use logos_whistleblower.BatchAnchor.Delivery.{poll_file, poll_delivery, poll_http}
use logos_whistleblower.BatchAnchor.Delivery.Queue.{
  Holds, no_lines, full_line, pending, Rising, poll_file-pending,
}
use logos_whistleblower.BatchAnchor.Delivery.Drain.{polls, polls-pending}
use logos_whistleblower.BatchAnchor.Delivery.Bounds.{IsAhead, poll_file-IsAhead}
use logos_whistleblower.BatchAnchor.Delivery.Source.{prefixed, asked, poll_delivery-http}
use logos_whistleblower.BatchAnchor.Submit.{
  BatchEntry, gather, advance, anchor_via_spel, metadata_hash_from_payload,
}
use logos_whistleblower.BatchAnchor.Submit.Gather.{Answers, gather-Answers}
use logos_whistleblower.BatchAnchor.Submit.Accepted.{to_entry, WrittenOrFull, run_program-gather}
use logos_whistleblower.BatchAnchor.Toys.{
  Tables, toy_sqlite, toy_sqlite-IsLawful, toy_outside, cfg_with, fresh,
}

abbrev queue : Str
queue = codes "1\n2\n3\n"

abbrev msg : ℕ → DeliveryMsg
msg n = record { seq = n; payload = payload_of n }

abbrev all_three : List DeliveryMsg
all_three = msg 1 ∷ msg 2 ∷ msg 3 ∷ []

queue-Holds : Holds toy_crates (lines queue) all_three
unfolding lines trim bytes_eq as_bytes
queue-Holds = full_line {m = msg 1} b'1' [] _ refl refl refl refl (
    full_line {m = msg 2} b'2' [] _ refl refl refl refl
      (full_line {m = msg 3} b'3' [] _ refl refl refl refl no_lines))

poll_file-pending_example :
    (batch : List DeliveryMsg) × (poll_file toy_crates 1 1 queue ≡ ok batch)
    × (pending 1 all_three ≡ batch ++ pending (advance 1 batch) all_three)
    × (length batch ≡ min (max 1 1) (length (pending 1 all_three)))
poll_file-pending_example =
    poll_file-pending toy_crates 1 1 queue all_three queue-Holds
      ((omega arith), ((omega arith), tt))

polls-pending_example : polls toy_crates 2 queue 3 0 ≡ ok (pending 0 all_three)
unfolding pending
polls-pending_example =
    polls-pending toy_crates 2 3 0 queue all_three queue-Holds ((omega arith), ((omega arith), tt))
      (omega arith)

polled : poll_file toy_crates 0 2 queue ≡ ok (msg 1 ∷ msg 2 ∷ [])
unfolding poll_file lines trim as_bytes bytes_eq
polled = refl

poll_file-IsAhead_example :
    All (IsAhead toy_crates toy_crates-U64IsLawful 0 2) (msg 1 ∷ msg 2 ∷ []) × (2 ≤ max 1 2)
poll_file-IsAhead_example =
    poll_file-IsAhead toy_crates toy_crates-U64IsLawful 0 2 queue (msg 1 ∷ msg 2 ∷ []) polled

abbrev entry_of : ℕ → BatchEntry
entry_of n = record {
  cid = replicate 46 (b'a' + n);
  meta_hash = replicate 32 62;
  cid_text = cid_of n;
}

-- CID 1 is anchored.
abbrev with_1 : Tables
with_1 = record { anchored = cid_of 1 ∷ []; cursor = none }

gathered : gather toy_crates toy_sqlite with_1 (msg 1 ∷ msg 2 ∷ []) ≡ ok (entry_of 2 ∷ [])
unfolding gather is_anchored contains bytes_eq decode_cid metadata_hash_from_payload as_bytes
gathered = refl

gather-Answers_example : Answers toy_crates toy_sqlite with_1 (msg 1 ∷ msg 2 ∷ []) (entry_of 2 ∷ [])
gather-Answers_example =
    gather-Answers toy_crates toy_sqlite with_1 (msg 1 ∷ msg 2 ∷ []) (entry_of 2 ∷ []) gathered

-- An account with a registry that has no record.
abbrev account : AccountWithMetadata toy_chain
account = record { account = 0 ∷ []; metadata = 0 }

run_program-gather_example :
    WrittenOrFull toy_chain account (record { records = [] }) (map (to_entry 5) (entry_of 2 ∷ []))
unfolding read_state
run_program-gather_example =
    run_program-gather toy_crates toy_sqlite toy_chain toy_chain-IsLawful with_1 0 2 5 queue
      (msg 1 ∷ msg 2 ∷ []) (entry_of 2 ∷ []) account (record { records = [] }) refl
      toy_crates-U64IsLawful (λ t p. cc) (λ bytes p. cc) (omega arith) polled gathered

poll_delivery-http_example :
    (n : ℕ) × (url : Str) × (codes "http:http://h" ≡ prefixed (codes "http:") n url)
    × (strip_prefix (codes "http:") url ≡ none)
    × ((poll_delivery toy_crates toy_outside (codes "http:http://h") (codes "t") 0 5 0).1
        ≡ (toy_outside.http_get (asked url (codes "t") 0 5) 0).1)
    × (poll_delivery toy_crates toy_outside (codes "http:http://h") (codes "t") 0 5 0
        ≡ poll_http toy_crates toy_outside url (codes "t") 0 5 0)
unfolding strip_prefix
poll_delivery-http_example =
    poll_delivery-http toy_crates toy_outside (codes "http:http://h") (codes "http://h") (codes "t")
      0 5 0 refl refl
