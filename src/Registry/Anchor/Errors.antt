-- ===== src/Registry/Anchor/Errors.antt =====
-- Which batches are refused, and how.
use native.Mathlib.Decide.{dec_lt}
use logos_whistleblower.Common.{◌≡◌, ◌≤◌, ◌<◌, ◌⊎◌, inl, inr, List, length, ok, err, arith}
use logos_whistleblower.Registry.Types.{RegistryState, Entry, max_batch_size}
use logos_whistleblower.Registry.Anchor.{batch_too_large, invalid_cid, apply_anchor}
use logos_whistleblower.Registry.Anchor.Added.{AllSized, apply_anchor_of_sized, apply_anchor-cases}

-- A batch of more than 50 entries is refused as too large, whatever its CIDs.
apply_anchor_too_large :
    (state : RegistryState) (entries : List Entry)
    → max_batch_size < length entries
    → apply_anchor state entries ≡ err batch_too_large
unfolding apply_anchor
apply_anchor_too_large state entries h = ground arith

-- Every batch has one of three outcomes: over 50 entries it is refused as too large; within 50
-- with a CID that has not 46 bytes it is refused for the CID; otherwise it succeeds.
pub apply_anchor_outcome :
    (state : RegistryState) (entries : List Entry)
    → ((max_batch_size < length entries) × (apply_anchor state entries ≡ err batch_too_large))
      ⊎ ((length entries ≤ max_batch_size)
          × (¬ AllSized entries)
          × (apply_anchor state entries ≡ err invalid_cid))
      ⊎ ((length entries ≤ max_batch_size)
          × AllSized entries
          × ((state' : RegistryState) × (apply_anchor state entries ≡ ok state')))
apply_anchor_outcome state entries = elim (dec_lt max_batch_size (length entries)) [
  | yes large ↦ inl (large, apply_anchor_too_large state entries large)
  | no fits ↦
      let small : length entries ≤ max_batch_size = omega arith in
      elim (apply_anchor-cases state entries small) [
        | inl sized ↦ inr (inr (small, sized, (_, apply_anchor_of_sized state entries sized small)))
        | inr bad ↦
            inr (inl (small, (λ s. cc (bad, apply_anchor_of_sized state entries s small)), bad))
      ]
]
