-- ===== src/System/Toys/Digits.antt =====
-- Digits for bytes that can be read back.
use logos_whistleblower.Common.{
  ◌+◌, ◌-◌, ◌≡◌, ◌∙◌, refl, ap, List, [], ◌∷◌, map, Bytes, Str, join, split, split-join, Lacks, All,
  arith,
}

-- One character for each byte, none of them a comma.
abbrev pub digits : Bytes → Str
digits bs = map (λ b. b + 45) bs

abbrev pub undigits : Str → Bytes
undigits s = map (λ c. c - 45) s

undigits-digits : (bs : Bytes) → undigits (digits bs) ≡ bs
undigits-digits [] = refl
undigits-digits (b ∷ bs) =
    ap (λ n. n ∷ undigits (digits bs)) (omega arith) ∙ ap (λ l. b ∷ l) (undigits-digits bs)

undigits-all : (cs : List Bytes) → map undigits (map digits cs) ≡ cs
undigits-all [] = refl
undigits-all (c ∷ cs) =
    ap (λ s. s ∷ map undigits (map digits cs)) (undigits-digits c)
    ∙ ap (λ l. c ∷ l) (undigits-all cs)

digits-Lacks : (bs : Bytes) → Lacks b',' (digits bs)
digits-Lacks [] = tt
digits-Lacks (b ∷ bs) = ((λ h. omega arith), digits-Lacks bs)

map-digits-Lacks : (cs : List Bytes) → All (Lacks b',') (map digits cs)
map-digits-Lacks [] = tt
map-digits-Lacks (c ∷ cs) = (digits-Lacks c, map-digits-Lacks cs)

-- What is read back from the argument.
pub cids_in-join :
    (c : Bytes) (cs : List Bytes) (words : Str)
    → words ≡ join b',' (map digits (c ∷ cs))
    → map undigits (split b',' words) ≡ c ∷ cs
cids_in-join c cs words same =
    ap (λ s. map undigits (split b',' s)) same
    ∙ ap (map undigits) (split-join b',' (digits c) (map digits cs) (map-digits-Lacks (c ∷ cs)))
    ∙ undigits-all (c ∷ cs)
