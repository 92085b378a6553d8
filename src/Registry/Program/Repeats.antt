-- ===== src/Registry/Program/Repeats.antt =====
-- Batches that may repeat a CID: what the deployed program stores, and what queries find.
use mathlib.Core.Option.{or_else, some-injective}
use logos_whistleblower.Common.{
  ℕ, suc, ◌≡◌, ◌∙◌, refl, sym, ap, true, false, List, [], ◌∷◌, ◌++◌, Bytes, length, contains,
  bytes_eq_iff, Distinct, if◌then◌else◌, ok, arith, Bool-cases, inl, inr, some, find, ◌==◌,
  append_assoc, append-nil, >>=-eq-ok,
}
use logos_whistleblower.Registry.Types.{
  RegistryState, Entry, cids, DocumentRecord, cid_bytes_len, IsWellFormed,
}
use logos_whistleblower.Registry.Anchor.{to_record, find_cid}
use logos_whistleblower.Registry.Anchor.Added.{AllSized}
use logos_whistleblower.Registry.Anchor.Lookup.{first_entry, find_cid-append, find_cid-some}
use logos_whistleblower.Registry.Anchor.Unique.{cids-append}
use logos_whistleblower.Registry.Account.{Chain, IsLawful, AccountWithMetadata, read}
use logos_whistleblower.Registry.Program.{push_fresh, program_loop}
use logos_whistleblower.Registry.Program.Inversion.{write_state-read, anchor_batch-inv}
use logos_whistleblower.Registry.Program.Refines.{
  entry_cids, entry_hashes, entry_timestamps, program_loop-suc, run_program,
}

-- The records that the program adds: every entry whose CID was not registered before the batch.
unfoldable pub unknown : List Bytes → List Entry → List DocumentRecord
unknown existing [] = []
unknown existing (e ∷ entries) =
    let rest = unknown existing entries in
    if contains existing e.cid_bytes then rest else to_record e ∷ rest

pub program_loop_ok :
    (existing : List Bytes) (rs : List DocumentRecord) (entries : List Entry)
    → AllSized entries
    → program_loop existing
        (entry_hashes entries)
        (entry_timestamps entries)
        0
        (record { records = rs })
        (entry_cids entries)
      ≡ ok (record { records = rs ++ unknown existing entries })
unfolding program_loop unknown
program_loop_ok existing rs [] _ = rw append-nil
program_loop_ok existing rs (e ∷ entries) (h, hs) =
    let later = λ (qs : List DocumentRecord).
      program_loop-suc existing (entry_hashes entries) (entry_timestamps entries) e.metadata_hash
        e.anchor_timestamp 0 (record { records = qs }) (entry_cids entries)
      ∙ program_loop_ok existing qs entries hs in
    elim (Bool-cases (contains existing e.cid_bytes)) [
      | inl known ↦ rw (h, known) (later rs)
      | inr fresh ↦ rw (h, fresh) (later (rs ++ to_record e ∷ []) ∙ rw append_assoc)
    ]

program_loop-cases :
    (existing hs : List Bytes) (ts : List ℕ) (i : ℕ) (state state' : RegistryState)
    (entries : List Entry)
    → program_loop existing hs ts i state (entry_cids entries) ≡ ok state'
    → AllSized entries
unfolding program_loop
program_loop-cases existing hs ts i state state' [] h = tt
program_loop-cases existing hs ts i state state' (e ∷ entries) h =
    elim (Bool-cases (length e.cid_bytes == cid_bytes_len)) [
      | inl sized ↦
          let (s, _, h') =
            >>=-eq-ok (push_fresh existing hs ts i e.cid_bytes state)
              (λ s. program_loop existing hs ts (suc i) s (entry_cids entries)) (rw sized at h) in
          (ground arith, program_loop-cases existing hs ts (suc i) s state' entries h')
      | inr bad ↦ absurd (ground (arith, bad))
    ]

find_cid-unknown :
    (cid : Bytes) (existing : List Bytes) (entries : List Entry)
    → contains existing cid ≡ false
    → find_cid cid (unknown existing entries) ≡ first_entry cid entries
unfolding unknown find
find_cid-unknown cid existing [] h = refl
find_cid-unknown cid existing (e ∷ entries) h =
    ground (arith, bytes_eq_iff e.cid_bytes cid, find_cid-unknown cid existing entries h)

find_cid-join :
    (cid : Bytes) (rs : List DocumentRecord) (entries : List Entry)
    → find_cid cid (rs ++ unknown (cids rs) entries)
      ≡ or_else (find_cid cid rs) (first_entry cid entries)
find_cid-join cid rs entries = elim (Bool-cases (contains (cids rs) cid)) [
  | inl known ↦
      find_cid-append cid rs _ ∙ find_cid-some cid rs _ known ∙ sym (find_cid-some cid rs _ known)
  | inr fresh ↦
      find_cid-append cid rs _
      ∙ ap (λ o. or_else (find_cid cid rs) o) (find_cid-unknown cid (cids rs) entries fresh)
]

-- A program run that succeeds appended, to the registry that the account held, a record for every
-- entry whose CID was not registered, in order, also for one that repeats an earlier entry.
pub run_program-read :
    (C : Chain) (L : IsLawful C) (reg : AccountWithMetadata C) (entries : List Entry)
    (post : List (AccountWithMetadata C))
    → run_program C reg entries ≡ ok post
    → (s : RegistryState) × (a : C.Account) × (read C reg.account ≡ some s)
      × AllSized entries
      × (post ≡ record reg { account = a } ∷ [])
      × (read C a ≡ some (record { records = s.records ++ unknown (cids s.records) entries }))
run_program-read C L reg entries post h =
    let (s, s', reg', r, l, w, e) =
      anchor_batch-inv C reg (entry_cids entries) (entry_hashes entries) (entry_timestamps entries)
        post h in
    let sized =
      program_loop-cases (cids s.records) (entry_hashes entries) (entry_timestamps entries) 0 s s'
        entries l in
    let (a, same, q) = write_state-read C L reg s' reg' w in
    let run = program_loop_ok (cids s.records) s.records entries sized in (s, a, r, sized, cc, cc)

-- Where accounts give back their data and `borsh` reads what it wrote: the search for any CID after
-- a program run that succeeds gives what it gave before, or else the first entry of the batch with
-- the CID, if any.
pub find_cid-run_program :
    (C : Chain) (L : IsLawful C) (reg : AccountWithMetadata C) (entries : List Entry)
    (post : List (AccountWithMetadata C)) (cid : Bytes)
    → run_program C reg entries ≡ ok post
    → (s s' : RegistryState) × (a : C.Account) × (read C reg.account ≡ some s)
      × (post ≡ record reg { account = a } ∷ [])
      × (read C a ≡ some s')
      × (find_cid cid s'.records ≡ or_else (find_cid cid s.records) (first_entry cid entries))
find_cid-run_program C L reg entries post cid h =
    let (s, a, held, _, e, q) = run_program-read C L reg entries post h in
    (s, _, a, held, e, q, find_cid-join cid s.records entries)

unknown-append :
    (existing : List Bytes) (es fs : List Entry)
    → unknown existing (es ++ fs) ≡ unknown existing es ++ unknown existing fs
unfolding unknown
unknown-append existing [] fs = refl
unknown-append existing (e ∷ es) fs = ground (arith, unknown-append existing es fs)

contains-unknown :
    (existing : List Bytes) (entries : List Entry) (x : Bytes)
    → contains existing x ≡ false
    → contains (entry_cids entries) x ≡ true
    → contains (cids (unknown existing entries)) x ≡ true
unfolding unknown contains
contains-unknown existing [] x fresh m = m
contains-unknown existing (e ∷ entries) x fresh m =
    ground (arith, bytes_eq_iff e.cid_bytes x, contains-unknown existing entries x fresh)

not-Distinct : (xs ys : List Bytes) (x : Bytes) → contains ys x ≡ true → Distinct (xs ++ x ∷ ys) → ⊥
not-Distinct [] ys x m (new, _) = cc
not-Distinct (z ∷ xs) ys x m (_, d) = not-Distinct xs ys x m d

cids_split :
    (rs : List DocumentRecord) (es fs : List Entry) (e : Entry)
    → contains (cids rs) e.cid_bytes ≡ false
    → cids (rs ++ unknown (cids rs) (es ++ e ∷ fs))
      ≡ (cids rs ++ cids (unknown (cids rs) es)) ++ e.cid_bytes ∷ cids (unknown (cids rs) fs)
unfolding unknown
cids_split rs es fs e fresh =
    rw (cids-append, unknown-append, fresh) (rw (cids-append, append_assoc))

-- Where accounts give back their data and `borsh` reads what it wrote: a batch in which a new CID
-- stands twice, and that the program accepts, leaves a registry that is
-- not well-formed.
pub run_program_repeats :
    (C : Chain) (L : IsLawful C) (reg : AccountWithMetadata C) (es fs : List Entry) (e : Entry)
    (s : RegistryState) (post : List (AccountWithMetadata C))
    → read C reg.account ≡ some s
    → contains (cids s.records) e.cid_bytes ≡ false
    → contains (entry_cids fs) e.cid_bytes ≡ true
    → run_program C reg (es ++ e ∷ fs) ≡ ok post
    → (s' : RegistryState) × (a : C.Account) × (post ≡ record reg { account = a } ∷ [])
      × (read C a ≡ some s')
      × (¬ IsWellFormed s')
run_program_repeats C L reg es fs e s post held fresh again h =
    let (s₀, a, held₀, _, p, q) = run_program-read C L reg (es ++ e ∷ fs) post h in
    let same : s₀ ≡ s = some-injective _ _ (sym held₀ ∙ held) in
    let split : cids (s.records ++ unknown (cids s.records) (es ++ e ∷ fs))
        ≡ (cids s.records ++ cids (unknown (cids s.records) es))
          ++ e.cid_bytes ∷ cids (unknown (cids s.records) fs) =
      cids_split s.records es fs e fresh in
    (
      record { records = s.records ++ unknown (cids s.records) (es ++ e ∷ fs) },
      a,
      p,
      rw same at q,
      λ wf.
          not-Distinct _ _ e.cid_bytes
            (contains-unknown (cids s.records) fs e.cid_bytes fresh again) (rw split at wf.unique),
    )
