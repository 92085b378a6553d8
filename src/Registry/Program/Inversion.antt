-- ===== src/Registry/Program/Inversion.antt =====
-- What a run of the program that succeeds went through.
use logos_whistleblower.Common.{
  ℕ, ◌≡◌, List, [], ◌∷◌, Bytes, length, some, ok, Bool-cases, inl, inr, ltb, ok_or, >>=-eq-ok,
  ok_or-eq-ok, map_err, map_err-eq-ok, sym, ok-injective,
}
use logos_whistleblower.Registry.Types.{RegistryState, serialization_error, cids, max_batch_size}
use logos_whistleblower.Registry.Account.{Chain, IsLawful, AccountWithMetadata, read}
use logos_whistleblower.Registry.Account.RoundTrip.{read-set}
use logos_whistleblower.Registry.Program.{
  write_state, too_large, program_loop, anchor_batch, deserialise_failed,
}

pub write_state-read :
    (C : Chain) (L : IsLawful C) (reg : AccountWithMetadata C) (s : RegistryState)
    (reg' : AccountWithMetadata C)
    → write_state C reg s ≡ ok reg'
    → (a : C.Account) × (reg' ≡ record reg { account = a }) × (read C a ≡ some s)
write_state-read C L reg s reg' h =
    let (bytes, w, h') = >>=-eq-ok (map_err serialization_error (C.to_vec s)) _ h in
    let (d, t, e) = >>=-eq-ok (map_err too_large (C.try_from bytes)) _ h' in
    (
      C.set_data reg.account d,
      cc,
      read-set C L reg.account s bytes d (map_err-eq-ok serialization_error (C.to_vec s) w)
          (map_err-eq-ok too_large (C.try_from bytes) t),
    )

-- The registry that the account held, the one that the loop made, and the account that it was written to.
pub anchor_batch-inv :
    (C : Chain) (reg : AccountWithMetadata C) (cs hs : List Bytes) (ts : List ℕ)
    (post : List (AccountWithMetadata C))
    → anchor_batch C reg cs hs ts ≡ ok post
    → (s s' : RegistryState) × (reg' : AccountWithMetadata C) × (read C reg.account ≡ some s)
      × (program_loop (cids s.records) hs ts 0 s cs ≡ ok s')
      × (write_state C reg s' ≡ ok reg')
      × (post ≡ reg' ∷ [])
unfolding anchor_batch
anchor_batch-inv C reg cs hs ts post h = elim (Bool-cases (ltb max_batch_size (length cs))) [
  | inl large ↦ cc (rw large at h)
  | inr fits ↦
      let (s, r, h1) = >>=-eq-ok (ok_or (read C reg.account) deserialise_failed) _ (rw fits at h) in
      let (s', l, h2) = >>=-eq-ok (program_loop (cids s.records) hs ts 0 s cs) _ h1 in
      let (reg', w, h3) = >>=-eq-ok (write_state C reg s') _ h2 in
      (
        s,
        s',
        reg',
        ok_or-eq-ok (read C reg.account) deserialise_failed r,
        l,
        w,
        sym (ok-injective h3),
      )
]
