-- ===== src/Registry/UnitTests.antt =====
-- The unit tests of cid-registry/src/lib.rs, as programs that end with `ok` or panic.
use logos_whistleblower.Common.{
  ℕ, zero, suc, ◌%◌, ◌≡◌, refl, Bool, true, false, List, [], ◌∷◌, ◌++◌, map, Bytes, length,
  replicate, get_elem?, contains, bytes_eq, find, ◌==◌, Outcome, ok, panicked, ◌>>=◌, expect,
  expect_ok, is_err,
}
use logos_whistleblower.Registry.Types.{
  DocumentRecord, RegistryState, Entry, SpelError, cid_bytes_len, max_batch_size,
}
use logos_whistleblower.Registry.Anchor.{apply_anchor}
use logos_whistleblower.Registry.Account.{Chain, IsLawful, query_by_cid}
use logos_whistleblower.Registry.Account.RoundTrip.{read-set}

-- A test either ends or panics.
abbrev Test : Type 0
Test = Outcome SpelError (Unit {0})

-- `assert!` and `assert_eq!`
abbrev assert : Bool → Test
assert true = ok tt
assert false = panicked

-- `0..n`
abbrev range : ℕ → List ℕ
range zero = []
range (suc n) = range n ++ n ∷ []

abbrev empty : RegistryState
empty = record { records = [] }

abbrev new_entry : Bytes → ℕ → ℕ → Entry
new_entry cid hash time = record {
  cid_bytes = cid;
  metadata_hash = replicate 32 hash;
  anchor_timestamp = time;
}

abbrev numbered : ℕ → Entry
numbered i = new_entry ((i % 256) ∷ replicate 45 0) 0 i

abbrev anchor_adds_record : Test
anchor_adds_record = do
  s ← expect_ok (apply_anchor empty (new_entry (replicate cid_bytes_len 0x12) 0xAB 1700000000 ∷ []))
  _ ← assert (length s.records == 1)
  r ← expect (get_elem? s.records 0)
  assert (bytes_eq r.cid (replicate cid_bytes_len 0x12))

abbrev anchor_batch_of_10 : Test
anchor_batch_of_10 = do
  s ← expect_ok (apply_anchor empty (map numbered (range 10)))
  assert (length s.records == 10)

abbrev known : DocumentRecord
known = record {
  cid = replicate cid_bytes_len 0x12;
  metadata_hash = replicate 32 0xAB;
  anchor_timestamp = 1000;
}

abbrev anchor_idempotent_on_known_cid : Test
anchor_idempotent_on_known_cid = do
  s ← expect_ok (
      apply_anchor (record { records = known ∷ [] })
        (new_entry (replicate cid_bytes_len 0x12) 0xAB 2000 ∷ []))
  assert (length s.records == 1)

abbrev anchor_dedups_within_batch : Test
anchor_dedups_within_batch = do
  let cid = replicate cid_bytes_len 0x55
  s ← expect_ok (apply_anchor empty (new_entry cid 0 1 ∷ new_entry cid 0 2 ∷ []))
  assert (length s.records == 1)

abbrev anchor_rejects_oversized_batch : Test
anchor_rejects_oversized_batch =
    assert (is_err (apply_anchor empty (map numbered (range (suc max_batch_size)))))

abbrev anchor_rejects_bad_cid_length : Test
anchor_rejects_bad_cid_length =
    assert (is_err (apply_anchor empty (new_entry (replicate 10 0) 0 1 ∷ [])))

abbrev stored : RegistryState
stored = record {
  records =
      record {
        cid = replicate cid_bytes_len 0x34;
        metadata_hash = replicate 32 0xCD;
        anchor_timestamp = 9999;
      }
      ∷ [];
}

module _ (C : Chain) (metadata : C.Metadata) where
  -- The identifier of the account and whether it is authorised are its metadata.
  abbrev query_by_cid_finds_record : Test
  query_by_cid_finds_record = do
    bytes ← expect_ok (C.to_vec stored)
    contents ← expect_ok (C.try_from bytes)
    found ←
        query_by_cid C (record { account = C.set_data C.default contents; metadata = metadata })
          (replicate cid_bytes_len 0x34)
    r ← expect found
    assert (bytes_eq r.metadata_hash (replicate 32 0xCD))

unit_tests_pass :
    (anchor_adds_record ≡ ok tt)
    × (anchor_batch_of_10 ≡ ok tt)
    × (anchor_idempotent_on_known_cid ≡ ok tt)
    × (anchor_dedups_within_batch ≡ ok tt)
    × (anchor_rejects_oversized_batch ≡ ok tt)
    × (anchor_rejects_bad_cid_length ≡ ok tt)
unfolding apply_anchor contains bytes_eq
unit_tests_pass = (refl, refl, refl, refl, refl, refl)

-- On every chain that keeps its laws and can store the registry of the test.
query_by_cid_finds_record_passes :
    (C : Chain) (metadata : C.Metadata) (bytes : Bytes) (contents : C.Data)
    → IsLawful C
    → C.to_vec stored ≡ ok bytes
    → C.try_from bytes ≡ ok contents
    → query_by_cid_finds_record C metadata ≡ ok tt
unfolding query_by_cid find bytes_eq
query_by_cid_finds_record_passes C metadata bytes contents L written fits =
    rw (written, fits) (rw (read-set C L C.default stored bytes contents written fits) refl)
