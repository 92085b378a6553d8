-- ===== src/Indexer/Ffi/Text.antt =====
-- The texts in the arrays of a result, as C reads them.
use logos_whistleblower.Common.{
  ℕ, zero, suc, ◌-◌, ◌<◌, min, ◌≡◌, ◌≢◌, refl, ◌∙◌, ap, [], ◌∷◌, Bytes, length, take, replicate,
  All, ◌==◌, if◌then◌else◌, arith, length-take,
}
use logos_whistleblower.Indexer.Ffi.{write_over, c_array}

-- The bytes in front of the first NUL.
pub until_nul : Bytes → Bytes
until_nul [] = []
until_nul (b ∷ bytes) = let rest = until_nul bytes in if b == 0 then [] else b ∷ rest

length-replicate : (n b : ℕ) → length (replicate n b) ≡ n
length-replicate zero b = refl
length-replicate (suc n) b = omega (arith, length-replicate n b)

length-write_over : (bytes array : Bytes) → length (write_over bytes array) ≡ length array
unfolding write_over
length-write_over [] array = refl
length-write_over (b ∷ bytes) [] = refl
length-write_over (b ∷ bytes) (a ∷ array) = omega (arith, length-write_over bytes array)

-- No byte of the text is NUL.
abbrev pub NoNul : Bytes → Type 0
NoNul = All (λ b. b ≢ 0)

NoNul-take : (n : ℕ) (bytes : Bytes) → NoNul bytes → NoNul (take n bytes)
NoNul-take zero bytes h = tt
NoNul-take (suc n) [] h = tt
NoNul-take (suc n) (b ∷ bytes) (h, hs) = (h, NoNul-take n bytes hs)

until_nul-write_over :
    (bytes : Bytes) (size : ℕ)
    → NoNul bytes
    → length bytes < size
    → until_nul (write_over bytes (replicate size 0)) ≡ bytes
unfolding until_nul write_over
until_nul-write_over [] zero h lt = absurd (omega arith)
until_nul-write_over [] (suc size) h lt = refl
until_nul-write_over (b ∷ bytes) zero h lt = absurd (omega arith)
until_nul-write_over (b ∷ bytes) (suc size) (h, hs) lt =
    ground (arith, until_nul-write_over bytes size hs)

take-nil : (n : ℕ) → take n (let l : Bytes = [] in l) ≡ []
take-nil zero = refl
take-nil (suc n) = refl

take-min : (n : ℕ) (bytes : Bytes) → take (min (length bytes) n) bytes ≡ take n bytes
take-min zero bytes = ap (λ k. take k bytes) none_left
  where
    none_left : min (length bytes) 0 ≡ 0
    none_left = omega arith
take-min (suc n) [] = take-nil (min 0 (suc n))
take-min (suc n) (b ∷ bytes) =
    ap (λ k. take k (b ∷ bytes)) (min-suc (length bytes) n) ∙ ap (λ l. b ∷ l) (take-min n bytes)
  where
    min-suc : (m n : ℕ) → min (suc m) (suc n) ≡ suc (min m n)
    min-suc m n = omega arith

-- A text without NUL in an array of `size` bytes: the array has `size` bytes, a C reader finds the
-- end of the text in it, and reads the text cut to `size - 1` bytes.
pub until_nul-c_array :
    (size : ℕ) (bytes : Bytes)
    → 0 < size
    → NoNul bytes
    → (length (c_array size bytes) ≡ size)
      × (length (until_nul (c_array size bytes)) < size)
      × (until_nul (c_array size bytes) ≡ take (size - 1) bytes)
unfolding c_array
until_nul-c_array size bytes pos h =
    let kept = take (min (length bytes) (size - 1)) bytes in
    let short : length kept < size =
      omega (arith, length-take (min (length bytes) (size - 1)) bytes) in
    let read = until_nul-write_over kept size (NoNul-take _ bytes h) short in
    (
      length-write_over kept (replicate size 0) ∙ length-replicate size 0,
      omega (arith, ap length read),
      read ∙ take-min (size - 1) bytes,
    )
