-- ===== src/Registry/Program/Indexing.antt =====
-- The indices into the vectors of hashes and timestamps: where the program panics.
use native.Mathlib.Decide.{dec_lt}
use logos_whistleblower.Common.{
  ℕ, zero, suc, ◌+◌, ◌≤◌, ◌<◌, ◌≡◌, ◌≢◌, ◌⊎◌, inl, inr, refl, false, List, [], ◌∷◌, Bytes, length,
  get_elem?, contains, All, ok, panicked, arith, Bool-cases, some, none, ltb, map_err, ok_or,
  >>=-ne-panicked, map_err-ne-panicked, ok_or-ne-panicked,
}
use logos_whistleblower.Registry.Types.{
  RegistryState, cids, cid_bytes_len, max_batch_size, serialization_error,
}
use logos_whistleblower.Registry.Anchor.{push}
use logos_whistleblower.Registry.Account.{Chain, AccountWithMetadata, read}
use logos_whistleblower.Registry.Program.{
  push_fresh, program_loop, anchor_batch, write_state, too_large, deserialise_failed,
}

module _ {ℓ} {A : Type ℓ} where
  get_elem?_in_range : (xs : List A) (i : ℕ) → i < length xs → (a : A) × (get_elem? xs i ≡ some a)
  get_elem?_in_range [] i h = absurd (omega arith)
  get_elem?_in_range (x ∷ xs) zero h = (x, refl)
  get_elem?_in_range (x ∷ xs) (suc i) h = get_elem?_in_range xs i (omega arith)

  get_elem?_out_of_range : (xs : List A) (i : ℕ) → length xs ≤ i → get_elem? xs i ≡ none
  get_elem?_out_of_range [] i h = refl
  get_elem?_out_of_range (x ∷ xs) zero h = absurd (omega arith)
  get_elem?_out_of_range (x ∷ xs) (suc i) h = get_elem?_out_of_range xs i (omega arith)

-- CIDs of 46 bytes that are not registered.
abbrev pub AllFresh : List Bytes → List Bytes → Type 0
AllFresh existing = All (λ c. (length c ≡ cid_bytes_len) × (contains existing c ≡ false))

module _ (existing hs : List Bytes) (ts : List ℕ) where
  push_fresh_in_range :
      (i : ℕ) (cid : Bytes) (state : RegistryState)
      → i < length hs
      → i < length ts
      → (s : RegistryState) × (push_fresh existing hs ts i cid state ≡ ok s)
  push_fresh_in_range i cid state h k =
      let (a, p) = get_elem?_in_range hs i h in
      let (b, q) = get_elem?_in_range ts i k in
      elim (Bool-cases (contains existing cid)) [
        | inl known ↦ (state, rw known)
        | inr fresh ↦ (
          push state (record { cid = cid; metadata_hash = a; anchor_timestamp = b }),
          rw (fresh, p, q),
        )
      ]

  program_loop-ne-panicked :
      (i : ℕ) (state : RegistryState) (cs : List Bytes)
      → i + length cs ≤ length hs
      → i + length cs ≤ length ts
      → program_loop existing hs ts i state cs ≢ panicked
  unfolding program_loop
  program_loop-ne-panicked i state [] h k = λ e. cc
  program_loop-ne-panicked i state (c ∷ cs) h k =
      let (s, p) = push_fresh_in_range i c state (omega arith) (omega arith) in
      rw p (ground (arith, program_loop-ne-panicked (suc i) s cs (omega arith) (omega arith)))

  push_fresh_out_of_range :
      (i : ℕ) (c : Bytes) (state : RegistryState)
      → contains existing c ≡ false
      → (length hs ≤ i) ⊎ (length ts ≤ i)
      → push_fresh existing hs ts i c state ≡ panicked
  push_fresh_out_of_range i c state fresh (inl h) = rw (fresh, get_elem?_out_of_range hs i h)
  push_fresh_out_of_range i c state fresh (inr k) =
      rw (fresh, get_elem?_out_of_range ts i k) (ground arith)

  program_loop_panics :
      (i : ℕ) (state : RegistryState) (cs : List Bytes)
      → AllFresh existing cs
      → (length hs < i + length cs) ⊎ (length ts < i + length cs)
      → i ≤ length hs
      → i ≤ length ts
      → program_loop existing hs ts i state cs ≡ panicked
  unfolding program_loop
  program_loop_panics i state [] _ short h k = absurd (omega arith)
  program_loop_panics i state (c ∷ cs) ((sized, fresh), rest) short h k =
      elim (dec_lt i (length hs)) [
        | no p ↦ rw (sized, push_fresh_out_of_range i c state fresh (inl (omega arith))) refl
        | yes p ↦ elim (dec_lt i (length ts)) [
          | no q ↦ rw (sized, push_fresh_out_of_range i c state fresh (inr (omega arith))) refl
          | yes q ↦
              let (s, e) = push_fresh_in_range i c state p q in
              rw (sized, e) (program_loop_panics (suc i) s cs rest (omega arith) p q)
        ]
      ]

module _ (C : Chain) (reg : AccountWithMetadata C) (entries_cids hs : List Bytes)
    (ts : List ℕ) where
  -- With a hash and a timestamp for every CID, the instruction never panics, whatever the account
  -- holds, as long as `borsh` and `Data` do not.
  pub anchor_batch-ne-panicked :
      ((s : RegistryState) → C.to_vec s ≢ panicked)
      → ((bs : Bytes) → C.try_from bs ≢ panicked)
      → length entries_cids ≤ length hs
      → length entries_cids ≤ length ts
      → anchor_batch C reg entries_cids hs ts ≢ panicked
  unfolding anchor_batch
  anchor_batch-ne-panicked w f h k = elim (Bool-cases (ltb max_batch_size (length entries_cids))) [
    | inl large ↦ rw large (λ p. cc)
    | inr fits ↦ rw fits (
        >>=-ne-panicked (ok_or (read C reg.account) deserialise_failed) _
          (ok_or-ne-panicked (read C reg.account) _)
          λ s _.
            >>=-ne-panicked (program_loop (cids s.records) hs ts 0 s entries_cids) _
              (program_loop-ne-panicked (cids s.records) hs ts 0 s entries_cids (omega arith)
                (omega arith))
              λ s' _. >>=-ne-panicked (write_state C reg s') _ (written s') (λ r _ p. cc))
  ]
    where
      written : (s : RegistryState) → write_state C reg s ≢ panicked
      written s =
          >>=-ne-panicked (map_err serialization_error (C.to_vec s)) _
            (map_err-ne-panicked serialization_error (C.to_vec s) (w s))
            λ bytes _.
              >>=-ne-panicked (map_err too_large (C.try_from bytes)) _
                (map_err-ne-panicked too_large (C.try_from bytes) (f bytes)) (λ d _ p. cc)

  -- With too few hashes or timestamps, a batch within the limit whose CIDs have 46 bytes and are
  -- all new makes the instruction panic instead of returning an error.
  pub anchor_batch_panics :
      (s : RegistryState)
      → read C reg.account ≡ some s
      → length entries_cids ≤ max_batch_size
      → AllFresh (cids s.records) entries_cids
      → (length hs < length entries_cids) ⊎ (length ts < length entries_cids)
      → anchor_batch C reg entries_cids hs ts ≡ panicked
  unfolding anchor_batch
  anchor_batch_panics s held small fresh short =
      rw
        (
          held,
          program_loop_panics (cids s.records) hs ts 0 s entries_cids fresh (omega arith)
              (omega arith) (omega arith),
        )
        (ground arith)
