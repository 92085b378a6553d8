-- ===== src/Indexer/Ffi/Outcomes.antt =====
-- What the caller of the C interface is told.
use logos_whistleblower.Common.{
  ℕ, ◌≡◌, ◌≢◌, refl, List, [], ◌∷◌, Str, Bytes, Option, ◌==◌, Outcome, ok, err, panicked,
  Bool-cases, inl, inr,
}
use logos_whistleblower.Common.Effects.{pure, attempt, caught, continue, >>=-result_congr}
use logos_whistleblower.Indexer.Types
use logos_whistleblower.Indexer.Types.{MetadataEnvelope, Error}
use logos_whistleblower.Indexer.Host.{Crates, Host}
use logos_whistleblower.Indexer.Anchor.{anchor_batch}
use logos_whistleblower.Indexer.Ffi.{
  report, publish, with_runtime, envelope_of, document_indexer_upload_and_anchor,
}

caught_then :
    {W A B : Type 0} (r : Outcome Error A) (b : B) (w : W)
    → r ≢ panicked
    → (continue (caught {F = Error} r w).0 (λ _. pure b) (caught {F = Error} r w).1).0 ≡ ok b
caught_then (ok a) b w h = refl
caught_then (err e) b w h = refl
caught_then panicked b w h = absurd (h refl)

module _ (K : Crates) (H : Host)
    (calm : (entries : List (Str × Bytes)) (t : ℕ) (v : H.World)
      → (anchor_batch K H entries t v).0 ≢ panicked) where
  -- A result after an anchor is the result without one.
  report-result :
      (anchor_on_chain : ℕ) (r : Outcome Error Types.IndexResult) (w : H.World)
      → (report K H anchor_on_chain r w).0 ≡ (report K H 0 r w).0
  report-result a (ok result) w = elim (Bool-cases (a == 0)) [
    | inl off ↦ rw off refl
    | inr on ↦ rw on (
        caught_then (anchor_batch K H ((result.cid, result.metadata_hash) ∷ []) 0 w).0 _ _
          (calm _ 0 w))
  ]
  report-result a (err e) w = refl
  report-result a panicked w = refl

  with_runtime-result :
      (contents : Bytes) (metadata : MetadataEnvelope) (anchor_on_chain : ℕ)
      (rt : Outcome Error (Unit {0})) (w : H.World)
      → (with_runtime K H contents metadata anchor_on_chain rt w).0
        ≡ (with_runtime K H contents metadata 0 rt w).0
  with_runtime-result contents metadata a (ok _) w =
      >>=-result_congr (publish K H contents metadata) (report K H a) (report K H 0) w
        (λ r v. report-result a r v)
  with_runtime-result contents metadata a (err e) w = refl
  with_runtime-result contents metadata a panicked w = refl

-- Where the anchoring does not panic, what the caller is told does not depend on it: the result
-- with the anchor on is the result with it off, `success` included, whether the anchor went
-- through or failed.
pub upload_and_anchor-result :
    (K : Crates) (H : Host) (contents : Bytes) (title description content_type : Option Bytes)
    (anchor_on_chain : ℕ) (w : H.World)
    → ((entries : List (Str × Bytes)) (t : ℕ) (v : H.World)
        → (anchor_batch K H entries t v).0 ≢ panicked)
    → (document_indexer_upload_and_anchor K H contents title description content_type
        anchor_on_chain w).0
      ≡ (document_indexer_upload_and_anchor K H contents title description content_type 0 w).0
unfolding document_indexer_upload_and_anchor
upload_and_anchor-result K H contents title description content_type a w calm =
    >>=-result_congr (attempt H.new_runtime) (with_runtime K H contents metadata a)
      (with_runtime K H contents metadata 0) w
      (λ rt v. with_runtime-result K H calm contents metadata a rt v)
  where
    metadata : MetadataEnvelope
    metadata = envelope_of K H contents title description content_type (H.now w)
