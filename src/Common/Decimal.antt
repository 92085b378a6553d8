-- ===== src/Common/Decimal.antt =====
-- Decimal text of a `u64`: `to_string` and `parse::<u64>()`.
use Prim.Native.Nat.{ℕ, zero, suc, ◌+◌, ◌-◌, ◌*◌, ◌/◌, ◌%◌, ◌^◌, ◌≤◌, ◌<◌}
use mathlib.Core.Path.{◌≡◌, refl, ◌∙◌}
use mathlib.Core.Logic.{◌≢◌, inl, inr}
use mathlib.Core.Bool.{◌&&◌}
use mathlib.Core.Option.{Option, none, some}
use mathlib.Core.List.{[], ◌∷◌, ◌++◌, cons-ne-nil, concat-ne-nil}
use native.Mathlib.Omega.{arith}
use logos_whistleblower.Common.Tests.{◌==◌, ltb, leb, if◌then◌else◌, Bool-cases}
use logos_whistleblower.Common.Lists.{All, All-append}
use logos_whistleblower.Common.Text.{Str}

abbrev pub u64_mod : ℕ
u64_mod = 2 ^ 64

-- The digits of `n`; every number below `10 ^ fuel` is printed whole.
unfoldable pub digits : ℕ → ℕ → Str
digits zero n = []
digits (suc fuel) n =
    let front = digits fuel (n / 10) in
    if ltb n 10 then (b'0' + n) ∷ [] else front ++ (b'0' + n % 10) ∷ []

unfoldable pub to_string : ℕ → Str
unfolding digits
to_string n = digits (suc n) n

-- The loop of `from_str`: `None` is a character that is no digit, or an overflow.
unfoldable pub scan : ℕ → Str → Option ℕ
scan acc [] = some acc
scan acc (c ∷ s) =
    let next = acc * 10 + (c - b'0') in
    let rest = scan next s in if leb b'0' c && leb c b'9' && ltb next u64_mod then rest else none

-- A leading `+` is accepted before at least one digit.
unfoldable pub parse_u64 : Str → Option ℕ
unfolding scan
parse_u64 [] = none
parse_u64 (c ∷ []) = if c == b'+' then none else scan 0 (c ∷ [])
parse_u64 (c ∷ d ∷ s) = if c == b'+' then scan 0 (d ∷ s) else scan 0 (c ∷ d ∷ s)

abbrev pub IsDigit : ℕ → Type 0
IsDigit c = (b'0' ≤ c) × (c ≤ b'9')

digits-IsDigit : (fuel n : ℕ) → All IsDigit (digits fuel n)
unfolding digits
digits-IsDigit zero n = tt
digits-IsDigit (suc fuel) n = elim (Bool-cases (ltb n 10)) [
  | inl small ↦ rw small ((omega arith, ground arith), tt)
  | inr large ↦ rw large (
      All-append IsDigit (digits fuel (n / 10)) _ (digits-IsDigit fuel (n / 10))
        ((omega arith, omega arith), tt))
]

-- `to_string` prints decimal digits only.
pub to_string-IsDigit : (n : ℕ) → All IsDigit (to_string n)
unfolding to_string
to_string-IsDigit n = digits-IsDigit (suc n) n

scan-append :
    (acc m c : ℕ) (s : Str) → scan acc s ≡ some m → scan acc (s ++ c ∷ []) ≡ scan m (c ∷ [])
unfolding scan
scan-append acc m c [] h = ground arith
scan-append acc m c (d ∷ s) h = ground (arith, scan-append (acc * 10 + (d - b'0')) m c s)

scan-digits : (fuel n : ℕ) → n < fuel → n < u64_mod → scan 0 (digits fuel n) ≡ some n
unfolding digits
scan-digits zero n h _ = absurd (omega arith)
scan-digits (suc fuel) n h fits = elim (Bool-cases (ltb n 10)) [
  | inl small ↦ rw small (unfold scan in ground arith)
  | inr large ↦ rw large (
      scan-append 0 (n / 10) _ (digits fuel (n / 10))
        (scan-digits fuel (n / 10) (ground arith) (omega arith))
      ∙ (unfold scan in ground arith))
]

digits-ne-nil : (fuel n : ℕ) → digits (suc fuel) n ≢ []
unfolding digits
digits-ne-nil fuel n = elim (Bool-cases (ltb n 10)) [
  | inl small ↦ rw small (cons-ne-nil (b'0' + n) [])
  | inr large ↦ rw large (concat-ne-nil (b'0' + n % 10) (digits fuel (n / 10)))
]

parse_u64-scan : (s : Str) → s ≢ [] → All IsDigit s → parse_u64 s ≡ scan 0 s
unfolding parse_u64
parse_u64-scan [] h _ = absurd (h refl)
parse_u64-scan (c ∷ []) h (d, _) = ground arith
parse_u64-scan (c ∷ e ∷ s) h (d, _) = ground arith

scan-lt : (acc : ℕ) (s : Str) {n : ℕ} → acc < u64_mod → scan acc s ≡ some n → n < u64_mod
unfolding scan
scan-lt acc [] fits h = ground (arith, h)
scan-lt acc (c ∷ s) {n} fits h =
    elim (Bool-cases (leb b'0' c && leb c b'9' && ltb (acc * 10 + (c - b'0')) u64_mod)) [
      | inl good ↦ scan-lt (acc * 10 + (c - b'0')) s (ground arith) (rw good at h)
      | inr bad ↦ cc (rw bad at h)
    ]

-- What is read is a `u64`.
pub parse_u64-lt : (s : Str) {n : ℕ} → parse_u64 s ≡ some n → n < u64_mod
unfolding parse_u64
parse_u64-lt [] h = cc
parse_u64-lt (c ∷ []) h = elim (Bool-cases (c == b'+')) [
  | inl plus ↦ cc (rw plus at h)
  | inr rest ↦ scan-lt 0 (c ∷ []) (omega arith) (rw rest at h)
]
parse_u64-lt (c ∷ d ∷ s) h = elim (Bool-cases (c == b'+')) [
  | inl plus ↦ scan-lt 0 (d ∷ s) (omega arith) (rw plus at h)
  | inr rest ↦ scan-lt 0 (c ∷ d ∷ s) (omega arith) (rw rest at h)
]

-- Every `u64` is read back from its print.
pub parse_u64-to_string : (n : ℕ) → n < u64_mod → parse_u64 (to_string n) ≡ some n
unfolding to_string
parse_u64-to_string n fits =
    parse_u64-scan (digits (suc n) n) (digits-ne-nil n n) (digits-IsDigit (suc n) n)
    ∙ scan-digits (suc n) n (omega arith) fits
