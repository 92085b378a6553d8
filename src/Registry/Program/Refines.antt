-- ===== src/Registry/Program/Refines.antt =====
-- The deployed program against the library's transition.
use mathlib.Core.Path.{fun_ext}
use logos_whistleblower.Common.{
  ℕ, suc, ◌≡◌, ◌∙◌, refl, ap, true, false, List, [], ◌∷◌, map, Bytes, length, contains,
  bytes_eq_iff, Distinct, if◌then◌else◌, Outcome, ok, err, ◌>>=◌, ◌==◌, bytes_eq_refl, arith,
  Bool-cases, inl, inr, some,
}
use logos_whistleblower.Registry.Types.{cid_bytes_len, RegistryState, Entry, SpelError, cids}
use logos_whistleblower.Registry.Anchor.{invalid_cid, to_record, push, anchor_loop, apply_anchor}
use logos_whistleblower.Registry.Account
use logos_whistleblower.Registry.Account.{Chain, AccountWithMetadata, read}
use logos_whistleblower.Registry.Program.{push_fresh, program_loop, anchor_batch}

-- The three argument vectors, as the library's list of entries.
abbrev pub entry_cids : List Entry → List Bytes
entry_cids = map (λ e. e.cid_bytes)

abbrev pub entry_hashes : List Entry → List Bytes
entry_hashes = map (λ e. e.metadata_hash)

abbrev pub entry_timestamps : List Entry → List ℕ
entry_timestamps = map (λ e. e.anchor_timestamp)

pub length-entry_cids : (entries : List Entry) → length (entry_cids entries) ≡ length entries
length-entry_cids [] = refl
length-entry_cids (e ∷ entries) = ap suc (length-entry_cids entries)

-- The round at index `i + 1` reads what the round at `i` reads in the tails.
pub program_loop-suc :
    (existing hs : List Bytes) (ts : List ℕ) (h : Bytes) (t : ℕ) (i : ℕ) (state : RegistryState)
    (cs : List Bytes)
    → program_loop existing (h ∷ hs) (t ∷ ts) (suc i) state cs
      ≡ program_loop existing hs ts i state cs
unfolding program_loop
program_loop-suc existing hs ts h t i state [] = refl
program_loop-suc existing hs ts h t i state (c ∷ cs) =
    ap
      (λ (rest : RegistryState → Outcome SpelError RegistryState).
        if length c == cid_bytes_len
        then push_fresh existing hs ts i c state >>= rest
        else err invalid_cid)
      (fun_ext (λ s. program_loop-suc existing hs ts h t (suc i) s cs))

-- The rounds after the first, when it left the registry `s`.
module _ (existing seen : List Bytes) (state : RegistryState) (e : Entry)
    (entries : List Entry) where
  abbrev Agrees : List Bytes → RegistryState → Type 0
  Agrees seen' s =
      program_loop existing (entry_hashes (e ∷ entries)) (entry_timestamps (e ∷ entries)) 1 s
        (entry_cids entries)
      ≡ anchor_loop seen' s entries

  -- One round of both loops, given that the later rounds agree.
  round-Agrees :
      contains seen e.cid_bytes ≡ contains existing e.cid_bytes
      → (contains existing e.cid_bytes ≡ true → Agrees seen state)
      → (contains existing e.cid_bytes ≡ false
          → Agrees (e.cid_bytes ∷ seen) (push state (to_record e)))
      → program_loop existing
          (entry_hashes (e ∷ entries))
          (entry_timestamps (e ∷ entries))
          0
          state
          (entry_cids (e ∷ entries))
        ≡ anchor_loop seen state (e ∷ entries)
  unfolding program_loop anchor_loop
  round-Agrees same old new = elim (Bool-cases (contains existing e.cid_bytes)) [
    | inl known ↦ rw (same, known) (rw (old known))
    | inr fresh ↦ rw (same, fresh) (rw (new fresh))
  ]

-- With no CID twice in the batch, the loops of the program and of the library agree.
program_loop-anchor_loop :
    (existing seen : List Bytes) (state : RegistryState) (entries : List Entry)
    → Distinct (entry_cids entries)
    → ((x : Bytes) → contains (entry_cids entries) x ≡ true → contains seen x ≡ contains existing x)
    → program_loop existing
        (entry_hashes entries)
        (entry_timestamps entries)
        0
        state
        (entry_cids entries)
      ≡ anchor_loop seen state entries
program_loop-anchor_loop existing seen state [] _ _ = unfold program_loop anchor_loop in refl
program_loop-anchor_loop existing seen state (e ∷ entries) (new, d) same =
    let later =
      λ (seen' : List Bytes) (s : RegistryState)
          (p : (x : Bytes)
            → contains (entry_cids entries) x ≡ true
            → contains seen' x ≡ contains existing x).
        program_loop-suc existing (entry_hashes entries) (entry_timestamps entries) e.metadata_hash
          e.anchor_timestamp 0 s (entry_cids entries)
        ∙ program_loop-anchor_loop existing seen' s entries d p in
    round-Agrees existing seen state e entries
      (same e.cid_bytes (unfold contains in rw (bytes_eq_refl e.cid_bytes)))
      (λ _. later seen state (λ x m. same x (unfold contains in ground (arith, m))))
      (λ fresh.
        later (e.cid_bytes ∷ seen) (push state (to_record e))
          (λ x m. unfold contains in ground (arith, same x, bytes_eq_iff e.cid_bytes x)))

module _ (C : Chain) (reg : AccountWithMetadata C) (entries : List Entry) where
  -- The program's instruction, given the batch in its three argument vectors.
  abbrev pub run_program : Outcome SpelError (List (AccountWithMetadata C))
  run_program =
      anchor_batch C reg (entry_cids entries) (entry_hashes entries) (entry_timestamps entries)

  -- The library's instruction, whose post state is the account put back into `reg`.
  abbrev pub run_library : Outcome SpelError (List (AccountWithMetadata C))
  run_library =
      Account.anchor_batch C reg entries >>= λ post. ok (map (λ a. record reg { account = a }) post)

-- On an account that holds a registry, and for a batch with no CID twice, the deployed program and
-- the library's `anchor_batch` succeed with the same accounts, or fail with the same error.
pub run_program-run_library :
    (C : Chain) (reg : AccountWithMetadata C) (entries : List Entry) (s : RegistryState)
    → read C reg.account ≡ some s
    → Distinct (entry_cids entries)
    → run_program C reg entries ≡ run_library C reg entries
unfolding anchor_batch Account.anchor_batch apply_anchor
run_program-run_library C reg entries s held distinct =
    let loops =
      program_loop-anchor_loop (cids s.records) (cids s.records) s entries distinct (λ x m. refl) in
    rw held (rw length-entry_cids (rw loops (ground arith)))
