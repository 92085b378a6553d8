-- ===== src/Indexer/Publish/Hash.antt =====
-- What the hash of an envelope depends on.
use native.Mathlib.Nat.{pow-suc}
use mathlib.Core.Path.{ap₂}
use logos_whistleblower.Common.{
  ℕ, zero, suc, ◌+◌, ◌*◌, ◌/◌, ◌^◌, ◌<◌, ◌≡◌, ◌↔◌, refl, sym, ◌∙◌, ap, [], ◌∷◌, ◌++◌, append_assoc,
  Str, Bytes, as_bytes, length, length-append, u64_mod, arith,
}
use logos_whistleblower.Indexer.Types.{MetadataEnvelope}
use logos_whistleblower.Indexer.Publish.{le_bytes, envelope_bytes}

length-le_bytes : (k n : ℕ) → length (le_bytes k n) ≡ k
unfolding le_bytes
length-le_bytes zero n = refl
length-le_bytes (suc k) n = ap suc (length-le_bytes k (n / 256))

-- The number that little-endian bytes stand for.
of_le_bytes : Bytes → ℕ
of_le_bytes [] = 0
of_le_bytes (b ∷ bs) = b + 256 * of_le_bytes bs

of_le_bytes-le_bytes : (k n : ℕ) → n < 256 ^ k → of_le_bytes (le_bytes k n) ≡ n
unfolding of_le_bytes le_bytes
of_le_bytes-le_bytes zero n h = omega arith
of_le_bytes-le_bytes (suc k) n h = ground (arith, of_le_bytes-le_bytes k (n / 256), pow-suc 256 k)

le_bytes-injective : (m n : ℕ) → m < u64_mod → n < u64_mod → le_bytes 8 m ≡ le_bytes 8 n → m ≡ n
le_bytes-injective m n hm hn e =
    sym (of_le_bytes-le_bytes 8 m hm) ∙ ap of_le_bytes e ∙ of_le_bytes-le_bytes 8 n hn

cons-head : {x u : ℕ} {xs us : Bytes} → x ∷ xs ≡ u ∷ us → x ≡ u
cons-head e = cc

cons-tail : {x u : ℕ} {xs us : Bytes} → x ∷ xs ≡ u ∷ us → xs ≡ us
cons-tail e = cc

-- Two concatenations whose second parts have one length agree part by part.
append-injective :
    (xs ys us vs : Bytes) → length ys ≡ length vs → xs ++ ys ≡ us ++ vs → (xs ≡ us) × (ys ≡ vs)
append-injective [] ys [] vs h e = (refl, e)
append-injective [] ys (u ∷ us) vs h e = absurd (omega (arith, ap length e, length-append us vs, h))
append-injective (x ∷ xs) ys [] vs h e = absurd (omega (arith, ap length e, length-append xs ys, h))
append-injective (x ∷ xs) ys (u ∷ us) vs h e =
    let (p, q) = append-injective xs ys us vs h (cons-tail e) in (ap₂ ◌∷◌ (cons-head e) p, q)

as_bytes-append : (s t : Str) → as_bytes (s ++ t) ≡ as_bytes s ++ as_bytes t
unfolding as_bytes
as_bytes-append [] t = refl
as_bytes-append (c ∷ s) t = rw (as_bytes-append s t, append_assoc)

abbrev text_of : Str → MetadataEnvelope → Str
text_of cid m = cid ++ (m.title ++ (m.description ++ m.content_type))

envelope_bytes-eq :
    (cid : Str) (m : MetadataEnvelope)
    → envelope_bytes cid m
      ≡ as_bytes (text_of cid m) ++ (le_bytes 8 m.size_bytes ++ le_bytes 8 m.timestamp)
unfolding envelope_bytes
envelope_bytes-eq cid m = simp (as_bytes-append, append_assoc)

abbrev numbers_of : MetadataEnvelope → Bytes
numbers_of m = le_bytes 8 m.size_bytes ++ le_bytes 8 m.timestamp

length-numbers_of : (m : MetadataEnvelope) → length (numbers_of m) ≡ 16
length-numbers_of m = omega (
  arith,
  length-append (le_bytes 8 m.size_bytes) (le_bytes 8 m.timestamp),
  length-le_bytes 8 m.size_bytes,
  length-le_bytes 8 m.timestamp,
)

-- The hasher is given the same bytes for two documents exactly if they agree in size and timestamp,
-- and in the concatenation of CID, title, description and content type, as bytes. So the tags, and
-- where one text ends and the next begins, do not matter. (Sizes and timestamps are `u64`.)
pub envelope_bytes_iff :
    (cid cid' : Str) (m m' : MetadataEnvelope)
    → m.size_bytes < u64_mod
    → m'.size_bytes < u64_mod
    → m.timestamp < u64_mod
    → m'.timestamp < u64_mod
    → (envelope_bytes cid m ≡ envelope_bytes cid' m') ↔ (
        (as_bytes (text_of cid m) ≡ as_bytes (text_of cid' m'))
        × (m.size_bytes ≡ m'.size_bytes)
        × (m.timestamp ≡ m'.timestamp))
envelope_bytes_iff cid cid' m m' s s' t t' = (
  λ e.
      let (text, numbers) =
        append-injective (as_bytes (text_of cid m)) (numbers_of m) (as_bytes (text_of cid' m'))
          (numbers_of m') (length-numbers_of m ∙ sym (length-numbers_of m'))
          (sym (envelope_bytes-eq cid m) ∙ e ∙ envelope_bytes-eq cid' m') in
      let (size, time) =
        append-injective (le_bytes 8 m.size_bytes) (le_bytes 8 m.timestamp)
          (le_bytes 8 m'.size_bytes) (le_bytes 8 m'.timestamp)
          (length-le_bytes 8 m.timestamp ∙ sym (length-le_bytes 8 m'.timestamp)) numbers in
      (
        text,
        le_bytes-injective m.size_bytes m'.size_bytes s s' size,
        le_bytes-injective m.timestamp m'.timestamp t t' time,
      ),
  λ (text, size, time).
      envelope_bytes-eq cid m
      ∙ ap₂ ◌++◌ text (ap₂ ◌++◌ (ap (le_bytes 8) size) (ap (le_bytes 8) time))
      ∙ sym (envelope_bytes-eq cid' m'),
)
