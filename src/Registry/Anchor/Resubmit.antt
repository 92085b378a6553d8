-- ===== src/Registry/Anchor/Resubmit.antt =====
-- Submitting known CIDs changes nothing, and a batch may be cut in two.
use logos_whistleblower.Common.{
  ◌≡◌, ◌+◌, ◌≤◌, refl, ◌∙◌, true, List, [], ◌∷◌, ◌++◌, Bytes, contains, contains-append,
  bytes_eq_refl, All, ok, err, ◌>>=◌, arith, append-nil, append_assoc, length, length-append, inl,
  inr, All-append, Bool-cases, ap,
}
use logos_whistleblower.Registry.Types.{RegistryState, Entry, cids, max_batch_size}
use logos_whistleblower.Registry.Anchor.{to_record, apply_anchor, invalid_cid}
use logos_whistleblower.Registry.Anchor.Added.{
  added, AllSized, apply_anchor-inv, apply_anchor_of_sized, apply_anchor-cases,
}
use logos_whistleblower.Registry.Anchor.Unique.{cids-append}

abbrev pub AllKnown : List Bytes → List Entry → Type 0
AllKnown known = All (λ e. contains known e.cid_bytes ≡ true)

added-eq-nil :
    (seen : List Bytes) (entries : List Entry) → AllKnown seen entries → added seen entries ≡ []
unfolding added
added-eq-nil seen [] _ = refl
added-eq-nil seen (e ∷ entries) (h, hs) = rw h (added-eq-nil seen entries hs)

-- A valid batch of CIDs that the registry has is a no-op: it succeeds and returns the registry as
-- it was, whatever its hashes and timestamps.
pub apply_anchor_known :
    (state : RegistryState) (entries : List Entry)
    → AllSized entries
    → length entries ≤ max_batch_size
    → AllKnown (cids state.records) entries
    → apply_anchor state entries ≡ ok state
apply_anchor_known state entries sized small known =
    apply_anchor_of_sized state entries sized small
    ∙ rw (added-eq-nil (cids state.records) entries known, append-nil)

-- Every entry's CID is known beforehand or stands among the records that are added.
AllKnown-added :
    (seen known : List Bytes) (entries : List Entry)
    → ((x : Bytes) → contains seen x ≡ true → contains known x ≡ true)
    → ((x : Bytes) → contains (cids (added seen entries)) x ≡ true → contains known x ≡ true)
    → AllKnown known entries
unfolding added contains
AllKnown-added seen known [] _ _ = tt
AllKnown-added seen known (e ∷ entries) old new = elim (Bool-cases (contains seen e.cid_bytes)) [
  | inl h ↦ (old e.cid_bytes h, AllKnown-added seen known entries old (λ x m. new x (rw h m)))
  | inr h ↦ (
    new e.cid_bytes (rw (h, bytes_eq_refl) refl),
    AllKnown-added (e.cid_bytes ∷ seen) known entries (λ x m. ground (arith, old x, new x))
        (λ x m. ground (arith, new x)),
  )
]

-- After a batch that succeeds the registry has the CID of every entry.
pub AllKnown-apply_anchor :
    (state state' : RegistryState) (entries : List Entry)
    → apply_anchor state entries ≡ ok state'
    → AllKnown (cids state'.records) entries
AllKnown-apply_anchor state state' entries h =
    let (_, _, e) = apply_anchor-inv state state' entries h in
    let listed = λ (x : Bytes).
      ap (λ rs. contains (cids rs) x) e
      ∙ ap (λ l. contains l x) (cids-append state.records _)
      ∙ contains-append (cids state.records) _ x in
    AllKnown-added (cids state.records) (cids state'.records) entries
      (λ x m. ground (arith, listed x)) (λ x m. ground (arith, listed x))

-- Submitting the batch that succeeded again succeeds and changes nothing.
pub apply_anchor_idempotent :
    (state state' : RegistryState) (entries : List Entry)
    → apply_anchor state entries ≡ ok state'
    → apply_anchor state' entries ≡ ok state'
apply_anchor_idempotent state state' entries h =
    let (sized, small, _) = apply_anchor-inv state state' entries h in
    apply_anchor_known state' entries sized small (AllKnown-apply_anchor state state' entries h)

-- What is added depends on the known CIDs as a set.
added-congr :
    (seen seen' : List Bytes) (entries : List Entry)
    → ((x : Bytes) → contains seen x ≡ contains seen' x)
    → added seen entries ≡ added seen' entries
unfolding added contains
added-congr seen seen' [] _ = refl
added-congr seen seen' (e ∷ entries) same = ground (
  arith,
  same e.cid_bytes,
  added-congr seen seen' entries same,
  added-congr (e.cid_bytes ∷ seen) (e.cid_bytes ∷ seen') entries (λ x. rw (same x)),
)

contains_shift :
    (a : Bytes) (xs ys : List Bytes) (x : Bytes)
    → contains (a ∷ xs ++ ys) x ≡ contains (xs ++ a ∷ ys) x
unfolding contains
contains_shift a [] ys x = refl
contains_shift a (b ∷ xs) ys x = ground (arith, contains_shift a xs ys x)

added-append :
    (seen : List Bytes) (es fs : List Entry)
    → added seen (es ++ fs) ≡ added seen es ++ added (seen ++ cids (added seen es)) fs
unfolding added
added-append seen [] fs = rw append-nil
added-append seen (e ∷ es) fs = elim (Bool-cases (contains seen e.cid_bytes)) [
  | inl h ↦ rw h (added-append seen es fs)
  | inr h ↦
      let new = cids (added (e.cid_bytes ∷ seen) es) in
      rw h (
        ap (λ rs. to_record e ∷ rs)
          (added-append (e.cid_bytes ∷ seen) es fs
            ∙ ap (λ rs. added (e.cid_bytes ∷ seen) es ++ rs)
                (added-congr (e.cid_bytes ∷ seen ++ new) (seen ++ e.cid_bytes ∷ new) fs
                  (contains_shift e.cid_bytes seen new))))
]

AllSized-split : (es fs : List Entry) → AllSized (es ++ fs) → AllSized es × AllSized fs
AllSized-split [] fs h = (tt, h)
AllSized-split (e ∷ es) fs (h, hs) = let (l, r) = AllSized-split es fs hs in ((h, l), r)

module _ (state : RegistryState) (es fs : List Entry) where
  abbrev middle : RegistryState
  middle = record { records = state.records ++ added (cids state.records) es }

  append_of_sized :
      length es + length fs ≤ max_batch_size
      → AllSized es
      → AllSized fs
      → apply_anchor state (es ++ fs) ≡ apply_anchor middle fs
  append_of_sized small hs ht =
      apply_anchor_of_sized state (es ++ fs) (All-append _ es fs hs ht)
        (omega (arith, length-append es fs))
      ∙ rw added-append
          (rw (apply_anchor_of_sized middle fs ht (omega arith)) (rw (cids-append, append_assoc)))

  ok_of_sized :
      length es + length fs ≤ max_batch_size → AllSized es → apply_anchor state es ≡ ok middle
  ok_of_sized small hs = apply_anchor_of_sized state es hs (omega arith)

-- A batch that fits the limit may be cut in two: anchoring both parts in turn gives the same
-- registry, or the same error.
pub apply_anchor-append :
    (state : RegistryState) (es fs : List Entry)
    → length es + length fs ≤ max_batch_size
    → apply_anchor state (es ++ fs) ≡ (apply_anchor state es >>= λ s. apply_anchor s fs)
apply_anchor-append state es fs small = elim (apply_anchor-cases state es (omega arith)) [
  | inl hs ↦
      rw (ok_of_sized state es fs small hs)
        (elim (apply_anchor-cases (middle state es fs) fs (omega arith)) [
          | inl ht ↦ append_of_sized state es fs small hs ht
          | inr bad ↦
              rw bad (whole_bad (λ s. refused (middle state es fs) fs (omega arith) bad s.1))
        ])
  | inr bad ↦ rw bad (whole_bad (λ s. refused state es (omega arith) bad s.0))
]
  where
    refused :
        (s : RegistryState) (gs : List Entry)
        → length gs ≤ max_batch_size
        → apply_anchor s gs ≡ err invalid_cid
        → AllSized gs
        → ⊥
    refused s gs fits bad sized = cc (bad, apply_anchor_of_sized s gs sized fits)

    whole_bad : (AllSized es × AllSized fs → ⊥) → apply_anchor state (es ++ fs) ≡ err invalid_cid
    whole_bad no_parts =
        elim (apply_anchor-cases state (es ++ fs) (omega (arith, length-append es fs))) [
          | inl sized ↦ absurd (no_parts (AllSized-split es fs sized))
          | inr bad ↦ bad
        ]
