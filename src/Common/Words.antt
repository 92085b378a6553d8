-- ===== src/Common/Words.antt =====
-- Lines, words and substrings of text, as `str` gives them.
use Prim.Native.Nat.{ℕ}
use mathlib.Core.Bool.{Bool, true, false, not, ◌&&◌, ◌||◌}
use mathlib.Core.Option.{Option, none, some}
use mathlib.Core.List.{List, [], ◌∷◌, ◌++◌, reverse}
use logos_whistleblower.Common.Tests.{◌==◌, leb, if◌then◌else◌}
use logos_whistleblower.Common.Text.{Str, strip_prefix}
use logos_whistleblower.Common.Split.{split}

-- `char::is_whitespace`: the property White_Space of Unicode.
unfoldable pub is_whitespace : ℕ → Bool
is_whitespace c =
    (leb 0x09 c && leb c 0x0D)
    || c == 0x20
    || c == 0x85
    || c == 0xA0
    || c == 0x1680
    || (leb 0x2000 c && leb c 0x200A)
    || c == 0x2028
    || c == 0x2029
    || c == 0x202F
    || c == 0x205F
    || c == 0x3000

strip_cr : Str → Str
strip_cr [] = []
strip_cr (c ∷ []) = if c == 0x0D then [] else c ∷ []
strip_cr (c ∷ d ∷ s) = c ∷ strip_cr (d ∷ s)

-- The last part has no newline behind it: it is no line if it is empty, and keeps its `\r`.
lines_of : List Str → List Str
lines_of [] = []
lines_of ([] ∷ []) = []
lines_of ((c ∷ p) ∷ []) = (c ∷ p) ∷ []
lines_of (p ∷ q ∷ ps) = strip_cr p ∷ lines_of (q ∷ ps)

unfoldable pub lines : Str → List Str
unfolding split strip_cr lines_of
lines s = lines_of (split 0x0A s)

unfoldable pub starts_with : Str → Str → Bool
unfolding strip_prefix
starts_with p s = elim (strip_prefix p s) [ none ↦ false | some _ ↦ true ]

-- `str::contains` with a text.
unfoldable pub has_text : Str → Str → Bool
unfolding starts_with
has_text p [] = starts_with p []
has_text p (c ∷ s) = starts_with p (c ∷ s) || has_text p s

trim_start : Str → Str
unfolding is_whitespace
trim_start [] = []
trim_start (c ∷ s) = let rest = trim_start s in if is_whitespace c then rest else c ∷ s

unfoldable pub trim : Str → Str
unfolding trim_start
trim s = reverse (trim_start (reverse (trim_start s)))

-- A character goes onto the word that it stands in, or begins one.
extend : Option Str → Bool → ℕ → Str
extend (some word) true c = word ++ c ∷ []
extend _ _ c = c ∷ []

-- The last of the words of `s`, where `last` is the word before `s`.
last_word : Option Str → Bool → Str → Option Str
unfolding is_whitespace extend
last_word last inside [] = last
last_word last inside (c ∷ s) =
    last_word (if is_whitespace c then last else some (extend last inside c))
      (not (is_whitespace c)) s

-- `split_whitespace().last()`
unfoldable pub last_word_of : Str → Option Str
unfolding last_word
last_word_of s = last_word none false s
