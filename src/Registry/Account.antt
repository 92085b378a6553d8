-- ===== src/Registry/Account.antt =====
-- cid-registry/src/lib.rs: `initialize`, `anchor_batch` and `query_by_cid`, which keep the registry
-- in the data of an account. Accounts (`nssa_core`) and the byte format (`borsh`) are parameters.
pub mod RoundTrip
use logos_whistleblower.Common.{
  ◌≡◌, List, [], ◌∷◌, Bool, true, Option, none, some, Bytes, Str, codes, ◌++◌, if◌then◌else◌,
  Outcome, ok, err, panicked, ◌>>=◌, expect, expect_ok, map_err,
}
use logos_whistleblower.Registry.Types.{
  DocumentRecord, RegistryState, Entry, SpelError, serialization_error,
}
use logos_whistleblower.Registry.Anchor.{apply_anchor, find_cid}

-- What `nssa_core` and `borsh` give. `to_vec` fails with the message of its error, and `try_from`
-- with the debug print of the error of `Data::try_from`.
pub record Chain : Type 1 where
  -- `Data`, `Account` and `AccountWithMetadata` but for its `account`
  pub Data : Type 0
  pub Account : Type 0
  pub Metadata : Type 0
  pub default : Account
  pub is_default : Account → Bool
  pub get_data : Account → Data
  pub set_data : Account → Data → Account
  pub as_ref : Data → Bytes
  pub try_from : Bytes → Outcome Str Data
  pub to_vec : RegistryState → Outcome Str Bytes
  pub try_from_slice : Bytes → Option RegistryState

-- What the code relies on: data comes back as it was written, and `borsh` reads what it wrote.
pub record IsLawful (C : Chain) : Type 0 where
  pub get-set : (a : C.Account) (d : C.Data) → C.get_data (C.set_data a d) ≡ d
  pub as_ref-try_from : (bs : Bytes) (d : C.Data) → C.try_from bs ≡ ok d → C.as_ref d ≡ bs
  pub read-write :
      (s : RegistryState) (bs : Bytes) → C.to_vec s ≡ ok bs → C.try_from_slice bs ≡ some s

module _ (C : Chain) where
  -- What an account holds, as a registry.
  abbrev pub read : C.Account → Option RegistryState
  read a = C.try_from_slice (C.as_ref (C.get_data a))

  pub record AccountWithMetadata : Type 0 where
    pub account : C.Account
    pub metadata : C.Metadata

  -- The vector of post states has one element, the account.
  unfoldable pub initialize : AccountWithMetadata → Outcome SpelError (List C.Account)
  initialize registry_account =
      if C.is_default registry_account.account
      then (do
        bytes ← expect_ok (C.to_vec (record { records = [] }))
        contents ← expect_ok (C.try_from bytes)
        ok (C.set_data registry_account.account contents ∷ []))
      else panicked

  unfoldable pub anchor_batch :
      AccountWithMetadata → List Entry → Outcome SpelError (List C.Account)
  anchor_batch registry_account entries = do
    state ← expect (read registry_account.account)
    state' ← apply_anchor state entries
    bytes ← map_err serialization_error (C.to_vec state')
    contents ←
        map_err (λ e. serialization_error (codes "state too large: " ++ e)) (C.try_from bytes)
    ok (C.set_data registry_account.account contents ∷ [])

  unfoldable pub query_by_cid :
      AccountWithMetadata → Bytes → Outcome SpelError (Option DocumentRecord)
  query_by_cid registry_account cid = do
    state ← expect (read registry_account.account)
    ok (find_cid cid state.records)
