-- ===== src/Common/Split.antt =====
-- Text with separators: `join` of a slice, and the split that reads it back.
use Prim.Native.Nat.{ℕ}
use mathlib.Core.Path.{◌≡◌, refl, ap, ◌∙◌}
use mathlib.Core.Logic.{◌≢◌}
use mathlib.Core.List.{List, [], ◌∷◌, ◌++◌}
use native.Mathlib.Omega.{arith}
use logos_whistleblower.Common.Tests.{◌==◌, if◌then◌else◌}
use logos_whistleblower.Common.Lists.{All}
use logos_whistleblower.Common.Text.{Str}

-- `[T]::join`, with a separator of one character.
unfoldable pub join : ℕ → List Str → Str
join sep [] = []
join sep (p ∷ []) = p
join sep (p ∷ q ∷ ps) = p ++ sep ∷ join sep (q ∷ ps)

-- Puts a character in front of the first part.
abbrev onto_first : ℕ → List Str → List Str
onto_first c [] = (c ∷ []) ∷ []
onto_first c (p ∷ ps) = (c ∷ p) ∷ ps

-- The parts between the separators, as `str::split` gives them.
unfoldable pub split : ℕ → Str → List Str
split sep [] = [] ∷ []
split sep (c ∷ s) = let parts = split sep s in if c == sep then [] ∷ parts else onto_first c parts

abbrev pub Lacks : ℕ → Str → Type 0
Lacks sep = All (λ c. c ≢ sep)

pub Lacks-append : (c : ℕ) (s t : Str) → Lacks c s → Lacks c t → Lacks c (s ++ t)
Lacks-append c [] t _ ht = ht
Lacks-append c (d ∷ s) t (h, hs) ht = (h, Lacks-append c s t hs ht)

-- A part that lacks the separator, then the separator.
pub split-append : (sep : ℕ) (p s : Str) → Lacks sep p → split sep (p ++ sep ∷ s) ≡ p ∷ split sep s
unfolding split
split-append sep [] s _ = ground arith
split-append sep (c ∷ p) s (h, hs) = ground (arith, split-append sep p s hs)

pub split-of_Lacks : (sep : ℕ) (p : Str) → Lacks sep p → split sep p ≡ p ∷ []
unfolding split
split-of_Lacks sep [] _ = refl
split-of_Lacks sep (c ∷ p) (h, hs) = ground (arith, split-of_Lacks sep p hs)

-- Parts without the separator come back from their join, if there is one.
pub split-join :
    (sep : ℕ) (p : Str) (ps : List Str)
    → All (Lacks sep) (p ∷ ps)
    → split sep (join sep (p ∷ ps)) ≡ p ∷ ps
unfolding join
split-join sep p [] (h, _) = split-of_Lacks sep p h
split-join sep p (q ∷ ps) (h, hs) =
    split-append sep p (join sep (q ∷ ps)) h ∙ ap (λ l. p ∷ l) (split-join sep q ps hs)
