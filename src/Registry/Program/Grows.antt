-- ===== src/Registry/Program/Grows.antt =====
-- No run of the program loses a CID.
use mathlib.Core.Option.{some-injective}
use logos_whistleblower.Common.{
  ℕ, suc, ◌≡◌, ◌∙◌, sym, ap, true, List, [], ◌∷◌, Bytes, length, contains, contains-append,
  bytes_eq_refl, bytes_eq_iff, ok, arith, Bool-cases, inl, inr, some, ◌==◌, >>=-eq-ok, expect,
  get_elem?, ok-injective, subst,
}
use logos_whistleblower.Registry.Types.{DocumentRecord, RegistryState, cids, cid_bytes_len}
use logos_whistleblower.Registry.Anchor.{push}
use logos_whistleblower.Registry.Anchor.Unique.{cids-append}
use logos_whistleblower.Registry.Account.{Chain, IsLawful, AccountWithMetadata, read}
use logos_whistleblower.Registry.Program.{push_fresh, program_loop, anchor_batch}
use logos_whistleblower.Registry.Program.Inversion.{write_state-read, anchor_batch-inv}

-- The registry has all these CIDs.
abbrev pub Has : RegistryState → List Bytes → Type 0
Has s xs = (x : Bytes) → contains xs x ≡ true → contains (cids s.records) x ≡ true

push-Has :
    (s : RegistryState) (r : DocumentRecord)
    → Has (push s r) (cids s.records) × (contains (cids (push s r).records) r.cid ≡ true)
unfolding contains
push-Has s r =
    let both = λ (x : Bytes).
      ap (λ l. contains l x) (cids-append s.records (r ∷ []))
      ∙ contains-append (cids s.records) (r.cid ∷ []) x in
    (λ x m. ground (arith, both x, m), ground (arith, both r.cid, bytes_eq_refl r.cid))

push_fresh-Has :
    (existing hs : List Bytes) (ts : List ℕ) (i : ℕ) (cid : Bytes) (s s' : RegistryState)
    → push_fresh existing hs ts i cid s ≡ ok s'
    → Has s existing
    → Has s' (cids s.records) × (contains (cids s'.records) cid ≡ true)
push_fresh-Has existing hs ts i cid s s' h old = elim (Bool-cases (contains existing cid)) [
  | inl known ↦
      let same : s ≡ s' = ok-injective (rw known at h) in
      subst (λ (v : RegistryState). Has v (cids s.records) × (contains (cids v.records) cid ≡ true))
        same (λ x m. m, old cid known)
  | inr fresh ↦
      let (hash, _, h1) = >>=-eq-ok (expect (get_elem? hs i)) _ (rw fresh at h) in
      let (time, _, h2) = >>=-eq-ok (expect (get_elem? ts i)) _ h1 in
      let pushed =
        push-Has s (record { cid = cid; metadata_hash = hash; anchor_timestamp = time }) in
      subst (λ (v : RegistryState). Has v (cids s.records) × (contains (cids v.records) cid ≡ true))
        (ok-injective h2) pushed
]

pub program_loop-Has :
    (existing hs : List Bytes) (ts : List ℕ) (i : ℕ) (s s' : RegistryState) (cs : List Bytes)
    → program_loop existing hs ts i s cs ≡ ok s'
    → Has s existing
    → Has s' (cids s.records) × Has s' cs
unfolding program_loop contains
program_loop-Has existing hs ts i s s' [] h old =
    subst (λ (v : RegistryState). Has v (cids s.records) × Has v []) (ok-injective h)
      (λ x m. m, λ x m. cc)
program_loop-Has existing hs ts i s s' (c ∷ cs) h old =
    elim (Bool-cases (length c == cid_bytes_len)) [
      | inl sized ↦
          let (v, pushed, h') =
            >>=-eq-ok (push_fresh existing hs ts i c s)
              (λ v. program_loop existing hs ts (suc i) v cs) (rw sized at h) in
          let (kept, new) = push_fresh-Has existing hs ts i c s v pushed old in
          let (kept', rest) =
            program_loop-Has existing hs ts (suc i) v s' cs h' (λ x m. kept x (old x m)) in
          (λ x m. kept' x (kept x m), λ x m. ground (arith, bytes_eq_iff c x, kept' c new, rest x))
      | inr bad ↦ cc (rw bad at h)
    ]

module _ (C : Chain) where
  -- The account holds a registry with the CID.
  abbrev pub Registered : AccountWithMetadata C → Bytes → Type 0
  Registered reg cid =
      (s : RegistryState) × (read C reg.account ≡ some s) × (contains (cids s.records) cid ≡ true)

  -- A run that succeeds keeps every CID, and adds those of its first vector, whatever the others are.
  pub anchor_batch-Registered :
      (L : IsLawful C) (reg : AccountWithMetadata C) (cs hs : List Bytes) (ts : List ℕ)
      (post : List (AccountWithMetadata C))
      → anchor_batch C reg cs hs ts ≡ ok post
      → (reg' : AccountWithMetadata C) × (post ≡ reg' ∷ [])
        × ((x : Bytes) → Registered reg x → Registered reg' x)
        × ((x : Bytes) → contains cs x ≡ true → Registered reg' x)
  anchor_batch-Registered L reg cs hs ts post h =
      let (s, s', reg', held, l, w, e) = anchor_batch-inv C reg cs hs ts post h in
      let (a, same, q) = write_state-read C L reg s' reg' w in
      let (kept, new) = program_loop-Has (cids s.records) hs ts 0 s s' cs l (λ x m. m) in
      let holds : read C reg'.account ≡ some s' =
        ap (λ (v : AccountWithMetadata C). read C v.account) same ∙ q in
      (
        reg',
        e,
        λ x (t, r, m). (
          s',
          holds,
          kept x (
              subst (λ (v : RegistryState). contains (cids v.records) x ≡ true)
                (some-injective t s (sym r ∙ held)) m),
        ),
        λ x m. (s', holds, new x m),
      )
