-- ===== src/Indexer/Anchor/Decoding.antt =====
-- The CIDs and hashes of a batch, decoded and printed.
use mathlib.Core.List.{cons-ne-nil}
use logos_whistleblower.Common.{
  ◌≡◌, ◌≢◌, ◌⊎◌, inl, inr, refl, ap, ◌∙◌, err-injective, List, [], ◌∷◌, Str, Bytes, Lacks, All, map,
  ok, err, panicked, arith, Outcome-cases, ok-injective, >>=-eq-ok,
}
use logos_whistleblower.Indexer.Types.{Error}
use logos_whistleblower.Indexer.Host.{Crates, IsHexDigit, HexIsLawful}
use logos_whistleblower.Indexer.Cid.{decode_cid}
use logos_whistleblower.Indexer.Anchor.{decode_all}

hex-Lacks_comma : (s : Str) → All IsHexDigit s → Lacks b',' s
hex-Lacks_comma [] _ = tt
hex-Lacks_comma (c ∷ s) (h, hs) = ((λ e. ground arith), hex-Lacks_comma s hs)

-- The printed CIDs, in order: each is the print of what its entry's text decodes to.
abbrev pub Decoded : (K : Crates) → List (Str × Bytes) → List Str → Type 0
Decoded K [] [] = Unit
Decoded K ((cid, _) ∷ entries) (h ∷ hs) =
    ((bytes : Bytes) × (decode_cid K cid ≡ ok bytes) × (h ≡ K.hex bytes)) × Decoded K entries hs
Decoded K _ _ = ⊥

module _ (K : Crates) (hex : HexIsLawful K) where
  pub decode_all-Decoded :
      (entries : List (Str × Bytes)) (hs : List Str)
      → decode_all K entries ≡ ok hs
      → Decoded K entries hs × All (Lacks b',') hs
  unfolding decode_all
  decode_all-Decoded [] hs h = rw (← ok-injective h) (tt, tt)
  decode_all-Decoded ((cid, hash) ∷ entries) hs h =
      let (bytes, e, h') = >>=-eq-ok (decode_cid K cid) _ h in
      let (rest, f, g) = >>=-eq-ok (decode_all K entries) (λ rest. ok (K.hex bytes ∷ rest)) h' in
      let (later, lack) = decode_all-Decoded entries rest f in
      rw (← ok-injective g)
        (((bytes, e, refl), later), (hex-Lacks_comma (K.hex bytes) (hex bytes), lack))

  pub hashes_lack_comma :
      (entries : List (Str × Bytes)) → All (Lacks b',') (map (λ (_, h). K.hex h) entries)
  hashes_lack_comma [] = tt
  hashes_lack_comma ((_, h) ∷ entries) =
      (hex-Lacks_comma (K.hex h) (hex h), hashes_lack_comma entries)

-- The first CID that does not decode has this error.
abbrev pub FailsWith : (K : Crates) → List (Str × Bytes) → Error → Type 0
FailsWith K [] e = ⊥
FailsWith K ((cid, _) ∷ entries) e =
    (decode_cid K cid ≡ err e)
    ⊎ ((bytes : Bytes) × (decode_cid K cid ≡ ok bytes) × FailsWith K entries e)

pub decode_all-FailsWith :
    (K : Crates) (entries : List (Str × Bytes)) (e : Error)
    → decode_all K entries ≡ err e
    → FailsWith K entries e
unfolding decode_all
decode_all-FailsWith K [] e h = cc
decode_all-FailsWith K ((cid, _) ∷ entries) e h = elim (Outcome-cases (decode_cid K cid)) [
  | inl (bytes, known) ↦ inr (
    bytes,
    known,
    decode_all-FailsWith K entries e (elim (Outcome-cases (decode_all K entries)) [
      | inl (rest, p) ↦ cc (rw (known, p) at h)
      | inr (inl (x, p)) ↦ p ∙ (rw (known, p) at h)
      | inr (inr p) ↦ cc (rw (known, p) at h)
    ]),
  )
  | inr (inl (x, bad)) ↦ inl (bad ∙ ap err (err-injective (rw bad at h)))
  | inr (inr p) ↦ cc (rw p at h)
]

pub decode_all-ne-panicked :
    (K : Crates)
    → ((s : Str) → K.base58 s ≢ panicked)
    → (entries : List (Str × Bytes)) → decode_all K entries ≢ panicked
unfolding decode_all decode_cid
decode_all-ne-panicked K calm [] = λ p. cc
decode_all-ne-panicked K calm ((cid, h) ∷ entries) =
    λ p. ground (arith, calm cid, decode_all-ne-panicked K calm entries)

pub Decoded-ne-nil :
    (K : Crates) (entry : Str × Bytes) (entries : List (Str × Bytes)) (hs : List Str)
    → Decoded K (entry ∷ entries) hs
    → hs ≢ []
Decoded-ne-nil K entry entries [] d = absurd d
Decoded-ne-nil K entry entries (h ∷ hs) d = cons-ne-nil h hs
