-- ===== src/Registry/Account/RoundTrip.antt =====
-- Queries after instructions, through the bytes of the account.
use mathlib.Core.Option.{or_else}
use logos_whistleblower.Common.{
  ◌≡◌, refl, ◌∙◌, ap, List, [], ◌∷◌, Option, none, some, Bytes, Str, ok, ◌>>=◌, expect, find, true,
  map_err, map_err-eq-ok, expect_ok, expect_ok-eq-ok, arith, expect-eq-ok, >>=-eq-ok, Bool-cases,
  inl, inr,
}
use logos_whistleblower.Registry.Types.{DocumentRecord, RegistryState, Entry, SpelError}
use logos_whistleblower.Registry.Anchor.{apply_anchor, find_cid}
use logos_whistleblower.Registry.Anchor.Lookup.{first_entry, find_cid-apply_anchor}
use logos_whistleblower.Registry.Account.{
  Chain, IsLawful, AccountWithMetadata, initialize, anchor_batch, query_by_cid, read,
}

abbrev empty : RegistryState
empty = record { records = [] }

module _ (C : Chain) (L : IsLawful C) where
  pub read-set :
      (a : C.Account) (s : RegistryState) (bytes : Bytes) (d : C.Data)
      → C.to_vec s ≡ ok bytes
      → C.try_from bytes ≡ ok d
      → read C (C.set_data a d) ≡ some s
  read-set a s bytes d w f =
      ap C.try_from_slice (ap C.as_ref (L.get-set a d) ∙ L.as_ref-try_from bytes d f)
      ∙ L.read-write s bytes w

  -- The step that writes a registry into an account.
  pub write-eq-ok :
      (a : C.Account) (s : RegistryState) (f : Str → SpelError) (g : Str → SpelError)
      (post : List C.Account)
      → (map_err f (C.to_vec s) >>= λ bytes.
          map_err g (C.try_from bytes) >>= λ d. ok (C.set_data a d ∷ []))
        ≡ ok post
      → (a' : C.Account) × (post ≡ a' ∷ []) × (read C a' ≡ some s)
  write-eq-ok a s f g post h =
      let (bytes, w, h') = >>=-eq-ok (map_err f (C.to_vec s)) _ h in
      let (d, t, e) = >>=-eq-ok (map_err g (C.try_from bytes)) _ h' in
      (
        C.set_data a d,
        cc,
        read-set a s bytes d (map_err-eq-ok f (C.to_vec s) w)
            (map_err-eq-ok g (C.try_from bytes) t),
      )

  -- An `anchor_batch` that succeeds read a registry, applied the batch to it and leaves one
  -- account, which holds the result.
  pub anchor_batch-read :
      (reg : AccountWithMetadata C) (entries : List Entry) (post : List C.Account)
      → anchor_batch C reg entries ≡ ok post
      → (s : RegistryState) × (s' : RegistryState) × (a : C.Account) × (read C reg.account ≡ some s)
        × (apply_anchor s entries ≡ ok s')
        × (post ≡ a ∷ [])
        × (read C a ≡ some s')
  unfolding anchor_batch
  anchor_batch-read reg entries post h =
      let (s, r, h') = >>=-eq-ok (expect (read C reg.account)) _ h in
      let (s', t, h'') = >>=-eq-ok (apply_anchor s entries) _ h' in
      let (a, e, q) = write-eq-ok reg.account s' _ _ post h'' in
      (s, s', a, expect-eq-ok (read C reg.account) r, t, e, q)

  -- Where accounts give back their data and `borsh` reads what it wrote: after an `anchor_batch`
  -- that succeeds, a query for any CID succeeds on the new account, and gives what it gave on the
  -- old one, or else the first entry of the batch with the CID.
  pub query_by_cid-anchor_batch :
      (reg : AccountWithMetadata C) (entries : List Entry) (post : List C.Account) (cid : Bytes)
      → anchor_batch C reg entries ≡ ok post
      → (a : C.Account) × (old : Option DocumentRecord) × (post ≡ a ∷ [])
        × (query_by_cid C reg cid ≡ ok old)
        × (query_by_cid C (record reg { account = a }) cid
            ≡ ok (or_else old (first_entry cid entries)))
  unfolding query_by_cid
  query_by_cid-anchor_batch reg entries post cid h =
      let (s, s', a, r, t, e, q) = anchor_batch-read reg entries post h in
      (
        a,
        find_cid cid s.records,
        e,
        rw r refl,
        rw q (ap ok (find_cid-apply_anchor s s' entries cid t)),
      )

  -- Where accounts give back their data and `borsh` reads what it wrote: an account that
  -- `initialize` writes was the default one, and holds no record of any CID.
  pub query_by_cid-initialize :
      (reg : AccountWithMetadata C) (post : List C.Account) (cid : Bytes)
      → initialize C reg ≡ ok post
      → (a : C.Account) × (C.is_default reg.account ≡ true)
        × (post ≡ a ∷ [])
        × (query_by_cid C (record reg { account = a }) cid ≡ ok none)
  unfolding query_by_cid initialize find
  query_by_cid-initialize reg post cid h = elim (Bool-cases (C.is_default reg.account)) [
    | inr used ↦ absurd (ground (arith, used))
    | inl fresh ↦
        let h' = rw fresh at h in
        let (bytes, w, h'') = >>=-eq-ok (expect_ok (C.to_vec empty)) _ h' in
        let (d, t, e) = >>=-eq-ok (expect_ok (C.try_from bytes)) _ h'' in
        let a = C.set_data reg.account d in
        let held =
          read-set reg.account empty bytes d (expect_ok-eq-ok (C.to_vec empty) w)
            (expect_ok-eq-ok (C.try_from bytes) t) in
        (a, fresh, cc, rw held refl)
  ]
