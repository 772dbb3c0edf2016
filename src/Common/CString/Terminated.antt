-- ===== src/Common/CString/Terminated.antt =====
-- The functions on strings, on a text with a NUL behind it.
use Prim.Native.Nat.{ℕ, zero, suc, ◌+◌, ◌-◌, ◌*◌, ◌≤◌, ◌<◌}
use mathlib.Core.Path.{◌≡◌, refl, ap}
use mathlib.Core.Bool.{true, ◌&&◌}
use mathlib.Core.List.{List, [], ◌∷◌, ◌++◌}
use native.Mathlib.Omega.{arith}
use e3_ecmc_plugin_socketcan.Common.Tests.{◌==◌, if◌then◌else◌}
use e3_ecmc_plugin_socketcan.Common.Lists.{length, drop, length-append}
use e3_ecmc_plugin_socketcan.Common.Int.{ℤ, pos, neg_of}
use e3_ecmc_plugin_socketcan.Common.Memory.{done}
use e3_ecmc_plugin_socketcan.Common.CString.{
  starts_with, advance, c_string, digits, atoi, is_space, is_digit,
}

abbrev pub NoNul : List ℕ → Type 0
NoNul [] = Unit {0}
NoNul (c ∷ cs) = (0 < c) × NoNul cs

-- The number that a text starts with.
abbrev pub number_from : ℕ → List ℕ → ℕ
number_from n [] = n
number_from n (c ∷ cs) = if is_digit c then number_from (n * 10 + (c - b'0')) cs else n

abbrev pub signed : List ℕ → ℤ
signed [] = pos 0
signed (c ∷ cs) =
    if c == b'-'
    then neg_of (number_from 0 cs)
    else pos (number_from 0 (if c == b'+' then cs else c ∷ cs))

abbrev pub number : List ℕ → ℤ
number [] = pos 0
number (c ∷ cs) = if is_space c then number cs else signed (c ∷ cs)

-- A test sees nothing behind the NUL.
pub starts_with-terminated :
    (p o r : List ℕ) → NoNul p → starts_with p (o ++ (0 ∷ r)) ≡ starts_with p o
unfolding starts_with
starts_with-terminated [] o r h = refl
starts_with-terminated (c ∷ p) [] r (h, n) = ground arith
starts_with-terminated (c ∷ p) (x ∷ o) r (h, n) =
    ap (λ b. c == x && b) (starts_with-terminated p o r n)

pub length-starts_with : (p o : List ℕ) → starts_with p o ≡ true → length p ≤ length o
unfolding starts_with
length-starts_with [] o h = omega arith
length-starts_with (c ∷ p) [] h = absurd (ground (arith, h))
length-starts_with (c ∷ p) (x ∷ o) h = ground (arith, length-starts_with p o)

pub drop-append : (n : ℕ) (o r : List ℕ) → n ≤ length o → drop n (o ++ r) ≡ drop n o ++ r
drop-append zero o r h = refl
drop-append (suc n) [] r h = absurd (omega arith)
drop-append (suc n) (x ∷ o) r h = drop-append n o r (omega arith)

pub advance-inside :
    (n : ℕ) (o r : List ℕ) → n ≤ length o → advance n (o ++ r) ≡ done (drop n o ++ r)
unfolding advance
advance-inside n o r h = ground (arith, length-append o r, drop-append n o r h)

pub c_string-terminated : (v r : List ℕ) → NoNul v → c_string (v ++ (0 ∷ r)) ≡ done v
unfolding c_string
c_string-terminated [] r n = refl
c_string-terminated (c ∷ v) r (h, n) = ground (arith, c_string-terminated v r n)

digits-terminated : (n : ℕ) (v r : List ℕ) → digits n (v ++ (0 ∷ r)) ≡ done (number_from n v)
unfolding digits
digits-terminated n [] r = refl
digits-terminated n (c ∷ v) r = ground (arith, digits-terminated (n * 10 + (c - b'0')) v r)

pub atoi-terminated : (v r : List ℕ) → atoi (v ++ (0 ∷ r)) ≡ done (number v)
unfolding atoi digits
atoi-terminated [] r = refl
atoi-terminated (c ∷ v) r =
    ground (arith, atoi-terminated v r, digits-terminated 0 v r, digits-terminated 0 (c ∷ v) r)
