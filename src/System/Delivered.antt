-- ===== src/System/Delivered.antt =====
-- From the queue file to the chain.
use logos_whistleblower.Common.{
  ℕ, ◌<◌, ◌≡◌, ◌⊎◌, refl, List, [], ◌∷◌, ◌++◌, true, false, some, Bytes, Str, codes, lines,
  strip_prefix, find, contains, All, u64_mod, Outcome, ok, err, inl, inr, bytes_eq, Bool-cases,
}
use logos_whistleblower.Registry.Types.{DocumentRecord, cids}
use logos_whistleblower.Registry.Anchor.{find_cid}
use logos_whistleblower.Registry.Account
use logos_whistleblower.Registry.Account.{Chain, AccountWithMetadata, query_by_cid}
use logos_whistleblower.Registry.Program.Grows.{Registered}
use logos_whistleblower.Indexer.Types.{Error}
use logos_whistleblower.Indexer.Host.{Crates, U64IsLawful}
use logos_whistleblower.Indexer.Cid.{decode_cid}
use logos_whistleblower.BatchAnchor.Types.{Sqlite, Outside, Machine, Cfg, DeliveryMsg, text}
use logos_whistleblower.BatchAnchor.Store.{load_cursor}
use logos_whistleblower.BatchAnchor.Store.Laws.{IsLawful}
use logos_whistleblower.BatchAnchor.Delivery.Queue.{Holds, Rising, pending}
use logos_whistleblower.BatchAnchor.Run.{RunArgs, run}
use logos_whistleblower.BatchAnchor.Run.Anchors.{Settled}
use logos_whistleblower.BatchAnchor.Run.Complete.{run-Settled}
use logos_whistleblower.System.Ledger.{Ledger}
use logos_whistleblower.System.Backed.{Backed, run-Backed}

find_cid-listed :
    (cid : Bytes) (rs : List DocumentRecord)
    → contains (cids rs) cid ≡ true
    → (r : DocumentRecord) × (find_cid cid rs ≡ some r)
unfolding find contains
find_cid-listed cid [] h = cc
find_cid-listed cid (r ∷ rs) h = elim (Bool-cases (bytes_eq r.cid cid)) [
  | inl same ↦ (r, rw same refl)
  | inr other ↦ rw other (find_cid-listed cid rs (rw other at h))
]

query_by_cid-Registered :
    (C : Chain) (reg : AccountWithMetadata C) (cid : Bytes)
    → Registered C reg cid
    → (r : DocumentRecord) × (query_by_cid C reg cid ≡ ok (some r))
unfolding query_by_cid
query_by_cid-Registered C reg cid (s, held, listed) =
    let (r, found) = find_cid-listed cid s.records listed in (r, rw held (rw found refl))

module _ (K : Crates) (C : Chain) where
  -- The CID of a message does not decode, or a query of the registry finds it.
  abbrev pub IsDelivered : AccountWithMetadata C → DeliveryMsg → Type 0
  IsDelivered reg x =
      ((e : Error) × (decode_cid K x.payload.cid ≡ err e))
      ⊎ ((cid : Bytes) × (record_of : DocumentRecord) × (decode_cid K x.payload.cid ≡ ok cid)
          × (query_by_cid C reg cid ≡ ok (some record_of)))

module _ (K : Crates) (S : Sqlite) (O : Outside) (C : Chain) (cli : Cfg)
    (G : Ledger K O C cli) where
  pub Settled-IsDelivered :
      (db : S.Db) (w : O.World) (xs : List DeliveryMsg)
      → Backed K S O C cli G db w
      → All (Settled K S db) xs
      → All (IsDelivered K C (G.registry w)) xs
  Settled-IsDelivered db w [] h _ = tt
  Settled-IsDelivered db w (x ∷ xs) h (inl a, rest) =
      let (cid, decoded, registered) = h x.payload.cid a in
      let (r, found) = query_by_cid-Registered C (G.registry w) cid registered in
      (inr (cid, r, decoded, found), Settled-IsDelivered db w xs h rest)
  Settled-IsDelivered db w (x ∷ xs) h (inr bad, rest) =
      (inl bad, Settled-IsDelivered db w xs h rest)

-- Where SQLite and accounts keep their laws, sequence numbers are `u64`s and `spel` does what `Ledger`
-- says, for a queue file whose text stays as it is and holds messages with rising sequence numbers,
-- and a database whose anchored CIDs are on the chain: however a run that is no dry run ends, the
-- messages behind the first cursor are some of which each has a CID that does not decode or that
-- `query_by_cid` finds in the registry, followed by exactly those behind the saved cursor.
pub run-IsDelivered :
    (K : Crates) (S : Sqlite) (O : Outside) (C : Chain) (cli : Cfg) (args : RunArgs)
    (G : Ledger K O C cli) (ms : List DeliveryMsg) (path contents : Str) (fuel start : ℕ)
    (m m' : Machine S O) (r : Outcome Error (Unit {0}))
    → IsLawful S
    → Account.IsLawful C
    → U64IsLawful K
    → args.dry_run ≡ false
    → strip_prefix (codes "file:") cli.delivery_source ≡ some path
    → ((w : O.World) → O.read_to_string w path ≡ text contents)
    → Holds K (lines contents) ms
    → Rising ms
    → load_cursor S m.db ≡ ok start
    → start < u64_mod
    → Backed K S O C cli G m.db m.world
    → run K S O cli args fuel m ≡ some (r, m')
    → (c : ℕ) × (seen : List DeliveryMsg) × (load_cursor S m'.db ≡ ok c)
      × (pending start ms ≡ seen ++ pending c ms)
      × All (IsDelivered K C (G.registry m'.world)) seen
run-IsDelivered K S O C cli args G ms path contents fuel start m m' r L CL u64 real file still holds
      rising loaded fits backed h =
    let (c, seen, loaded', _, split, settled) =
      run-Settled K S O cli args ms path contents fuel start m m' r L u64 real file still holds
        rising loaded fits h in
    let backed' = run-Backed K S O C cli args G fuel m m' r L CL backed h in
    (c, seen, loaded', split, Settled-IsDelivered K S O C cli G m'.db m'.world seen backed' settled)
