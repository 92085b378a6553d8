-- ===== src/System/Ledger.antt =====
-- The registry's account on the chain, as the tool's world has it: between the tool and the program
-- of cid-registry/src/main.rs stand `spel` and the sequencer.
use logos_whistleblower.Common.{
  ℕ, ◌≡◌, subst, List, [], ◌∷◌, true, Bytes, Str, map, join, length, contains, All, ok,
}
use logos_whistleblower.Registry.Types.{cid_bytes_len}
use logos_whistleblower.Registry.Account.{Chain, IsLawful, AccountWithMetadata}
use logos_whistleblower.Registry.Program.{anchor_batch}
use logos_whistleblower.Registry.Program.Grows.{Registered, anchor_batch-Registered}
use logos_whistleblower.Indexer.Host.{Crates, Output}
use logos_whistleblower.Indexer.Anchor.{anchor_args}
use logos_whistleblower.BatchAnchor.Types.{Outside, Cfg}

-- The transactions of anybody: runs of the program's instruction that succeed.
pub data Instructions (C : Chain) : AccountWithMetadata C → AccountWithMetadata C → Type 0 where
  quiet : {reg : AccountWithMetadata C} → Instructions C reg reg
  transaction :
      {reg reg' : AccountWithMetadata C} (cs hs : List Bytes) (ts : List ℕ)
      (mid : AccountWithMetadata C)
      → anchor_batch C reg cs hs ts ≡ ok (mid ∷ [])
      → Instructions C mid reg'
      → Instructions C reg reg'

-- What is relied on of `spel` and the chain. The account belongs to the program, so that whatever
-- happens outside, it changes by transactions alone. A call of `spel` with the arguments of a batch
-- of 46-byte CIDs, each in hexadecimal digits, that ends with success has had its transaction run
-- the program on these CIDs, in between those of others.
pub record Ledger (K : Crates) (O : Outside) (C : Chain) (cli : Cfg) : Type 0 where
  pub registry : O.World → AccountWithMetadata C
  pub at_print :
      (line : Str) (w : O.World) → Instructions C (registry w) (registry (O.print line w))
  pub at_sleep : (w : O.World) → Instructions C (registry w) (registry (O.sleep w))
  pub at_http_get :
      (url : Str) (w : O.World) → Instructions C (registry w) (registry (O.http_get url w).1)
  pub at_command :
      (program : Str) (args : List Str) (dir : Str) (w : O.World)
      → Instructions C (registry w) (registry (O.command program args dir w).1)
  pub executed :
      (c : Bytes) (cs : List Bytes) (text metas times : Str) (w : O.World) (out : Output)
      → All (λ x. length x ≡ cid_bytes_len) (c ∷ cs)
      → text ≡ join b',' (map K.hex (c ∷ cs))
      → (O.command cli.spel_bin (anchor_args cli.idl text metas times) cli.workdir w).0 ≡ ok out
      → out.success ≡ true
      → (hs : List Bytes) × (ts : List ℕ) × (before after : AccountWithMetadata C) × Instructions C
          (registry w)
          before
        × (anchor_batch C before (c ∷ cs) hs ts ≡ ok (after ∷ []))
        × Instructions C after (
            registry
              (O.command cli.spel_bin (anchor_args cli.idl text metas times) cli.workdir w).1)

module _ (C : Chain) (L : IsLawful C) where
  -- Every CID of the one account is in the other.
  abbrev pub Extends : AccountWithMetadata C → AccountWithMetadata C → Type 0
  Extends reg reg' = (x : Bytes) → Registered C reg x → Registered C reg' x

  -- A transaction keeps what is registered and registers its CIDs.
  pub transaction-Registered :
      (reg mid : AccountWithMetadata C) (cs hs : List Bytes) (ts : List ℕ)
      → anchor_batch C reg cs hs ts ≡ ok (mid ∷ [])
      → Extends reg mid × ((x : Bytes) → contains cs x ≡ true → Registered C mid x)
  transaction-Registered reg mid cs hs ts h =
      let (reg', e, kept, new) = anchor_batch-Registered C L reg cs hs ts (mid ∷ []) h in
      let same : reg' ≡ mid = cc in
      subst
        (λ (v : AccountWithMetadata C).
          Extends reg v × ((x : Bytes) → contains cs x ≡ true → Registered C v x))
        same (kept, new)

  pub Instructions-Extends :
      {reg reg' : AccountWithMetadata C} → Instructions C reg reg' → Extends reg reg'
  Instructions-Extends quiet = λ x r. r
  Instructions-Extends {reg} (transaction cs hs ts mid h rest) =
      let (kept, _) = transaction-Registered reg mid cs hs ts h in
      let later = Instructions-Extends rest in λ x r. later x (kept x r)
