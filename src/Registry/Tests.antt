-- ===== src/Registry/Tests.antt =====
-- Runs of the registry on small batches, and its theorems at concrete inputs.
use mathlib.Core.Option.{or_else}
use logos_whistleblower.Common.{
  subst, true, false, bytes_eq_iff, ℕ, ◌≡◌, ◌≢◌, ◌≤◌, ◌<◌, ◌⊎◌, refl, inr, Option, some, List, [],
  ◌∷◌, ◌++◌, Bytes, length, replicate, contains, bytes_eq, Distinct, ok, err, panicked, ◌>>=◌,
  arith,
}
use logos_whistleblower.Registry.Types.{
  DocumentRecord, RegistryState, Entry, IsWellFormed, max_batch_size,
}
use logos_whistleblower.Registry.Anchor.{
  apply_anchor, find_cid, to_record, invalid_cid, batch_too_large,
}
use logos_whistleblower.Registry.Anchor.Added.{AllSized}
use logos_whistleblower.Registry.Anchor.Errors.{apply_anchor_outcome}
use logos_whistleblower.Registry.Anchor.Lookup.{first_entry, find_cid-apply_anchor}
use logos_whistleblower.Registry.Anchor.View.{Apart, view, register, apply_anchor_commutes}
use logos_whistleblower.Registry.Anchor.Unique.{apply_anchor-IsWellFormed}
use logos_whistleblower.Registry.Anchor.Resubmit.{apply_anchor_idempotent, apply_anchor-append}
use logos_whistleblower.Registry.Account
use logos_whistleblower.Registry.Account.{AccountWithMetadata, read, query_by_cid}
use logos_whistleblower.Registry.Account.RoundTrip.{query_by_cid-anchor_batch}
use logos_whistleblower.Registry.Program
use logos_whistleblower.Registry.Program.Refines.{
  entry_cids, entry_hashes, entry_timestamps, run_program, run_library, run_program-run_library,
}
use logos_whistleblower.Registry.Program.Repeats.{find_cid-run_program, run_program_repeats}
use logos_whistleblower.Registry.Program.Indexing.{anchor_batch-ne-panicked, anchor_batch_panics}
use logos_whistleblower.Registry.Toys.{toy_chain, toy_chain-IsLawful, encode, read_state}

abbrev cid_a : Bytes
cid_a = replicate 46 1

abbrev cid_b : Bytes
cid_b = replicate 46 2

abbrev entry : Bytes → ℕ → Entry
entry cid time = record { cid_bytes = cid; metadata_hash = replicate 32 7; anchor_timestamp = time }

abbrev empty : RegistryState
empty = record { records = [] }

abbrev with_a : RegistryState
with_a = record { records = to_record (entry cid_a 1) ∷ [] }

-- A new CID, the same one again, and a known one.
abbrev batch : List Entry
batch = entry cid_b 5 ∷ entry cid_b 6 ∷ entry cid_a 7 ∷ []

abbrev with_a_b : RegistryState
with_a_b = record { records = to_record (entry cid_a 1) ∷ to_record (entry cid_b 5) ∷ [] }

anchored : apply_anchor with_a batch ≡ ok with_a_b
unfolding apply_anchor contains bytes_eq
anchored = refl

with_a-IsWellFormed : IsWellFormed with_a
unfolding contains
with_a-IsWellFormed = record { sized = (refl, tt); unique = (refl, tt) }

find_cid-apply_anchor_example :
    find_cid cid_b with_a_b.records
    ≡ or_else (find_cid cid_b with_a.records) (first_entry cid_b batch)
find_cid-apply_anchor_example = find_cid-apply_anchor with_a with_a_b batch cid_b anchored

apply_anchor-IsWellFormed_example : IsWellFormed with_a_b
apply_anchor-IsWellFormed_example =
    apply_anchor-IsWellFormed with_a with_a_b batch with_a-IsWellFormed anchored

apply_anchor_idempotent_example : apply_anchor with_a_b batch ≡ ok with_a_b
apply_anchor_idempotent_example = apply_anchor_idempotent with_a with_a_b batch anchored

apply_anchor-append_example :
    apply_anchor with_a (batch ++ entry cid_b 8 ∷ [])
    ≡ (apply_anchor with_a batch >>= λ s. apply_anchor s (entry cid_b 8 ∷ []))
apply_anchor-append_example = apply_anchor-append with_a batch (entry cid_b 8 ∷ []) (omega arith)

apply_anchor_outcome_example :
    ((max_batch_size < length batch) × (apply_anchor with_a batch ≡ err batch_too_large))
    ⊎ ((length batch ≤ max_batch_size)
        × (¬ AllSized batch)
        × (apply_anchor with_a batch ≡ err invalid_cid))
    ⊎ ((length batch ≤ max_batch_size)
        × AllSized batch
        × ((state' : RegistryState) × (apply_anchor with_a batch ≡ ok state')))
apply_anchor_outcome_example = apply_anchor_outcome with_a batch

bad_cid : apply_anchor empty (entry (0 ∷ []) 1 ∷ []) ≡ err invalid_cid
unfolding apply_anchor
bad_cid = refl

oversized : apply_anchor empty (replicate 51 (entry cid_a 1)) ≡ err batch_too_large
unfolding apply_anchor
oversized = refl

-- An account that holds `with_a`, and the account that the batch leaves.
abbrev account_of : RegistryState → AccountWithMetadata toy_chain
account_of s = record { account = length s.records ∷ encode s.records; metadata = 0 }

query_by_cid-anchor_batch_example :
    (a : Bytes) × (old : Option DocumentRecord) × ((account_of with_a_b).account ∷ [] ≡ a ∷ [])
    × (query_by_cid toy_chain (account_of with_a) cid_b ≡ ok old)
    × (query_by_cid toy_chain (record (account_of with_a) { account = a }) cid_b
        ≡ ok (or_else old (first_entry cid_b batch)))
unfolding Account.anchor_batch apply_anchor contains bytes_eq encode read_state
query_by_cid-anchor_batch_example =
    query_by_cid-anchor_batch toy_chain toy_chain-IsLawful (account_of with_a) batch
      ((account_of with_a_b).account ∷ []) cid_b refl

Distinct-batch : Distinct (entry_cids (entry cid_b 5 ∷ entry cid_a 6 ∷ []))
unfolding contains bytes_eq
Distinct-batch = (refl, (refl, tt))

held_a : read toy_chain (account_of with_a).account ≡ some with_a
unfolding encode read_state
held_a = refl

run_program-run_library_example :
    run_program toy_chain (account_of with_a) (entry cid_b 5 ∷ entry cid_a 6 ∷ [])
    ≡ run_library toy_chain (account_of with_a) (entry cid_b 5 ∷ entry cid_a 6 ∷ [])
run_program-run_library_example =
    run_program-run_library toy_chain (account_of with_a) (entry cid_b 5 ∷ entry cid_a 6 ∷ [])
      with_a held_a Distinct-batch

-- The program registers the repeated CID of the batch twice.
abbrev twice : RegistryState
twice = record {
  records = to_record (entry cid_a 1) ∷ to_record (entry cid_b 5) ∷ to_record (entry cid_b 6) ∷ [];
}

repeated : run_program toy_chain (account_of with_a) batch ≡ ok (account_of twice ∷ [])
unfolding Program.anchor_batch contains bytes_eq encode read_state
repeated = refl

find_cid-run_program_example :
    (s s' : RegistryState) × (a : Bytes) × (read toy_chain (account_of with_a).account ≡ some s)
    × (account_of twice ∷ [] ≡ record (account_of with_a) { account = a } ∷ [])
    × (read toy_chain a ≡ some s')
    × (find_cid cid_b s'.records ≡ or_else (find_cid cid_b s.records) (first_entry cid_b batch))
find_cid-run_program_example =
    find_cid-run_program toy_chain toy_chain-IsLawful (account_of with_a) batch
      (account_of twice ∷ []) cid_b repeated

run_program_repeats_example :
    (s' : RegistryState) × (a : Bytes) × (account_of twice ∷ []
      ≡ record (account_of with_a) { account = a } ∷ [])
    × (read toy_chain a ≡ some s')
    × (¬ IsWellFormed s')
unfolding contains bytes_eq
run_program_repeats_example =
    run_program_repeats toy_chain toy_chain-IsLawful (account_of with_a) []
      (entry cid_b 6 ∷ entry cid_a 7 ∷ []) (entry cid_b 5) with_a (account_of twice ∷ []) held_a
      refl refl repeated

anchor_batch-ne-panicked_example :
    Program.anchor_batch toy_chain
      (account_of with_a)
      (entry_cids batch)
      (entry_hashes batch)
      (entry_timestamps batch)
    ≢ panicked
anchor_batch-ne-panicked_example =
    anchor_batch-ne-panicked toy_chain (account_of with_a) (entry_cids batch) (entry_hashes batch)
      (entry_timestamps batch) (λ s p. cc) (λ bs p. cc) (omega arith) (omega arith)

anchor_batch_panics_example :
    Program.anchor_batch toy_chain (account_of with_a) (cid_b ∷ []) (replicate 32 7 ∷ []) []
    ≡ panicked
unfolding contains bytes_eq
anchor_batch_panics_example =
    anchor_batch_panics toy_chain (account_of with_a) (cid_b ∷ []) (replicate 32 7 ∷ []) [] with_a
      held_a (omega arith) ((refl, refl), tt) (inr (omega arith))

abbrev cid_c : Bytes
cid_c = replicate 46 3

abbrev with_a_c : RegistryState
with_a_c = record { records = to_record (entry cid_a 1) ∷ to_record (entry cid_c 8) ∷ [] }

contains_one : (y x : Bytes) → contains (y ∷ []) x ≡ true → bytes_eq y x ≡ true
unfolding contains
contains_one y x m = ground (arith, m)

b_c-Apart : Apart (entry cid_b 5 ∷ []) (entry cid_c 8 ∷ [])
unfolding contains bytes_eq
b_c-Apart x m =
    subst (λ y. contains (cid_c ∷ []) y ≡ false) ((bytes_eq_iff cid_b x).0 (contains_one cid_b x m))
      refl

anchored_b : apply_anchor with_a (entry cid_b 5 ∷ []) ≡ ok with_a_b
unfolding apply_anchor contains bytes_eq
anchored_b = refl

anchored_c : apply_anchor with_a (entry cid_c 8 ∷ []) ≡ ok with_a_c
unfolding apply_anchor contains bytes_eq
anchored_c = refl

-- Two submitters on one registry.
apply_anchor_commutes_example :
    (ab ba : RegistryState) × (apply_anchor with_a_b (entry cid_c 8 ∷ []) ≡ ok ab)
    × (apply_anchor with_a_c (entry cid_b 5 ∷ []) ≡ ok ba)
    × (view ab ≡ view ba)
    × (view ab ≡ register (entry cid_c 8 ∷ []) (register (entry cid_b 5 ∷ []) (view with_a)))
apply_anchor_commutes_example =
    apply_anchor_commutes with_a with_a_b with_a_c (entry cid_b 5 ∷ []) (entry cid_c 8 ∷ [])
      b_c-Apart anchored_b anchored_c
