-- ===== src/Indexer/Cid/Short.antt =====
-- Texts that are too short for a CID of the registry.
use logos_whistleblower.Common.{
  ℕ, suc, ◌*◌, ◌/◌, ◌≤◌, ◌<◌, ◌≡◌, ◌≢◌, ◌∷◌, Str, Bytes, length, ok, arith,
}
use logos_whistleblower.Indexer.Host.{Crates}
use logos_whistleblower.Indexer.Cid.{decode_cid, decode_cid_lem}

-- The size of what base58 text stands for: a character but for the leading `1`s, which are zero
-- bytes, carries log 58 / log 256 < 0.733 bytes.
abbrev pub Base58IsLawful : Crates → Type 0
Base58IsLawful K =
    (c : ℕ) (s : Str) (bytes : Bytes)
    → c ≢ b'1'
    → K.base58 (c ∷ s) ≡ ok bytes
    → length bytes ≤ suc (length (c ∷ s) * 733 / 1000)

-- Where base58 has its size law: no text of fewer than 62 characters that begins with another
-- character than `1` is decoded. Base58 texts of 46 characters are among them.
pub decode_cid_short :
    (K : Crates) (c : ℕ) (s : Str) (bytes : Bytes)
    → Base58IsLawful K
    → c ≢ b'1'
    → length (c ∷ s) < 62
    → decode_cid K (c ∷ s) ≢ ok bytes
decode_cid_short K c s bytes law other short h =
    let (e, sized) = (decode_cid_lem K (c ∷ s) bytes).0 h in
    absurd (omega (arith, law c s bytes other e, sized))
