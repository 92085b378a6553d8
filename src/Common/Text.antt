-- ===== src/Common/Text.antt =====
-- Byte sequences and text. A `String` is the list of its Unicode scalar values, a `Vec<u8>` or
-- `[u8; n]` the list of its bytes.
use Prim.Native.Nat.{ℕ, ◌+◌, ◌/◌, ◌%◌}
use Prim.Native.Char.{code}
use Prim.Native.String.{String}
use mathlib.Core.Path.{◌≡◌, refl}
use mathlib.Core.Logic.{◌↔◌}
use mathlib.Core.Bool.{Bool, true, false, ◌&&◌, ◌||◌}
use mathlib.Core.Option.{Option, none, some}
use mathlib.Core.List.{List, [], ◌∷◌, ◌++◌}
use native.Mathlib.Omega.{arith}
use logos_whistleblower.Common.Tests.{◌==◌, ltb, if◌then◌else◌}

abbrev pub Bytes : Type 0
Bytes = List ℕ

abbrev pub Str : Type 0
Str = List ℕ

-- A string literal.
abbrev pub codes : String → Str
codes String.[] = []
codes (String.◌∷◌ c s) = code c ∷ codes s

-- `==` on byte sequences and on text.
unfoldable pub bytes_eq : Bytes → Bytes → Bool
bytes_eq [] [] = true
bytes_eq (a ∷ as') (b ∷ bs) = a == b && bytes_eq as' bs
bytes_eq _ _ = false

pub bytes_eq_iff : (a b : Bytes) → (bytes_eq a b ≡ true) ↔ (a ≡ b)
unfolding bytes_eq
bytes_eq_iff [] [] = ground arith
bytes_eq_iff [] (b ∷ bs) = ground arith
bytes_eq_iff (a ∷ as') [] = ground arith
bytes_eq_iff (a ∷ as') (b ∷ bs) = ground (arith, bytes_eq_iff as' bs)

pub bytes_eq_refl : (a : Bytes) → bytes_eq a a ≡ true
bytes_eq_refl a = (bytes_eq_iff a a).1 refl

-- A `HashSet` of byte sequences or texts is a list of its members: `contains`, `insert` (only of
-- what is not there) and `remove`.
unfoldable pub contains : List Bytes → Bytes → Bool
contains [] a = false
contains (x ∷ xs) a = bytes_eq x a || contains xs a

unfoldable pub remove : List Bytes → Bytes → List Bytes
remove [] a = []
remove (x ∷ xs) a = let rest = remove xs a in if bytes_eq x a then rest else x ∷ rest

pub contains-append :
    (xs ys : List Bytes) (a : Bytes) → contains (xs ++ ys) a ≡ (contains xs a || contains ys a)
unfolding contains
contains-append [] ys a = refl
contains-append (x ∷ xs) ys a = ground (arith, contains-append xs ys a)

pub remove_of_absent : (xs : List Bytes) (a : Bytes) → contains xs a ≡ false → remove xs a ≡ xs
unfolding contains remove
remove_of_absent [] a h = refl
remove_of_absent (x ∷ xs) a h = ground (arith, remove_of_absent xs a)

-- No member stands twice.
abbrev pub Distinct : List Bytes → Type 0
Distinct [] = Unit
Distinct (x ∷ xs) = (contains xs x ≡ false) × Distinct xs

-- The UTF-8 bytes of a scalar value, and of a text (`str::as_bytes`).
abbrev pub utf8_char : ℕ → Bytes
utf8_char c =
    if ltb c 0x80
    then c ∷ []
    else if ltb c 0x800
    then (0xC0 + c / 0x40) ∷ (0x80 + c % 0x40) ∷ []
    else if ltb c 0x10000
    then (0xE0 + c / 0x1000) ∷ (0x80 + c / 0x40 % 0x40) ∷ (0x80 + c % 0x40) ∷ []
    else (0xF0 + c / 0x40000)
      ∷ (0x80 + c / 0x1000 % 0x40)
      ∷ (0x80 + c / 0x40 % 0x40)
      ∷ (0x80 + c % 0x40)
      ∷ []

unfoldable pub as_bytes : Str → Bytes
as_bytes [] = []
as_bytes (c ∷ s) = utf8_char c ++ as_bytes s

-- `str::contains` with a character.
unfoldable pub has_char : ℕ → Str → Bool
has_char c [] = false
has_char c (d ∷ s) = d == c || has_char c s

-- `str::strip_prefix`
unfoldable pub strip_prefix : Str → Str → Option Str
strip_prefix [] s = some s
strip_prefix (c ∷ p) [] = none
strip_prefix (c ∷ p) (d ∷ s) = let rest = strip_prefix p s in if c == d then rest else none
