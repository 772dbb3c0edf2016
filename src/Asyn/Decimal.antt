-- ===== src/Asyn/Decimal.antt =====
-- to_string and atoi.
use e3_ecmc_plugin_socketcan.Common.{
  ℕ, zero, suc, ◌+◌, ◌-◌, ◌*◌, ◌/◌, ◌%◌, ◌^◌, ◌≤◌, ◌<◌, ◌≡◌, refl, ap, ◌∙◌, inl, inr, List, [], ◌∷◌,
  ◌++◌, arith, ltb, Bool-cases, ltb→lt,
}
use e3_ecmc_plugin_socketcan.Common.Int.{ℤ, pos, negsuc, neg_of}
use e3_ecmc_plugin_socketcan.Common.Memory.{done}
use e3_ecmc_plugin_socketcan.Common.CString.{atoi}
use e3_ecmc_plugin_socketcan.Common.CString.Terminated.{number, number_from, atoi-terminated}
use e3_ecmc_plugin_socketcan.Asyn.Names.{decimal, to_string}

abbrev pub AreDigits : List ℕ → Type 0
AreDigits [] = Unit {0}
AreDigits (c ∷ cs) = (b'0' ≤ c) × (c ≤ b'9') × AreDigits cs

append-AreDigits : (xs ys : List ℕ) → AreDigits xs → AreDigits ys → AreDigits (xs ++ ys)
append-AreDigits [] ys p q = q
append-AreDigits (x ∷ xs) ys (l, h, p) q = (l, h, append-AreDigits xs ys p q)

pub decimal-AreDigits : (fuel n : ℕ) → AreDigits (decimal fuel n)
unfolding decimal
decimal-AreDigits zero n = tt
decimal-AreDigits (suc fuel) n = elim (Bool-cases (ltb n 10)) [
  | inl e ↦ rw e (omega arith, (let h = ltb→lt n 10 e in omega (arith, h)), tt)
  | inr e ↦ rw e (
      append-AreDigits (decimal fuel (n / 10)) ((b'0' + n % 10) ∷ [])
        (decimal-AreDigits fuel (n / 10)) (omega arith, omega arith, tt))
]

-- The value of digits, behind those of `a`.
number_from-append :
    (a : ℕ) (xs : List ℕ) (d : ℕ)
    → AreDigits xs
    → d < 10
    → number_from a (xs ++ ((b'0' + d) ∷ [])) ≡ number_from a xs * 10 + d
number_from-append a [] d p h = ground arith
number_from-append a (x ∷ xs) d (l, h, p) e =
    ground (arith, number_from-append (a * 10 + (x - b'0')) xs d p e)

-- Enough digits show the number.
number_from-decimal : (fuel n : ℕ) → n < 10 ^ fuel → number_from 0 (decimal fuel n) ≡ n
unfolding decimal
number_from-decimal zero n h = ground (arith, h)
number_from-decimal (suc fuel) n h = elim (Bool-cases (ltb n 10)) [
  | inl e ↦ ground (arith, e)
  | inr e ↦
      let q : n / 10 < 10 ^ fuel = omega (arith, h) in
      let g =
        number_from-append 0 (decimal fuel (n / 10)) (n % 10) (decimal-AreDigits fuel (n / 10))
          (omega arith) in
      let r = number_from-decimal fuel (n / 10) q in rw e (g ∙ omega (arith, r))
]

-- Digits are read as the number they are, without a sign.
number-digits : (xs : List ℕ) → AreDigits xs → number xs ≡ pos (number_from 0 xs)
number-digits [] p = refl
number-digits (x ∷ xs) (l, h, p) = ground (arith, l, h)

number-to_string_pos : (n : ℕ) → n < 2 ^ 31 → number (to_string (pos n)) ≡ pos n
unfolding to_string
number-to_string_pos n h =
    number-digits _ (decimal-AreDigits 10 n) ∙ ap pos (number_from-decimal 10 n (omega (arith, h)))

number-to_string_neg : (n : ℕ) → n < 2 ^ 31 → number (to_string (negsuc n)) ≡ negsuc n
unfolding to_string
number-to_string_neg n h = ap neg_of (number_from-decimal 10 (suc n) (omega (arith, h)))

-- An int, which is at least -2^31 and less than 2^31.
abbrev pub IsInt : ℤ → Type 0
IsInt (pos n) = n < 2 ^ 31
IsInt (negsuc n) = n < 2 ^ 31

pub number-to_string : (z : ℤ) → IsInt z → number (to_string z) ≡ z
number-to_string (pos n) h = number-to_string_pos n h
number-to_string (negsuc n) h = number-to_string_neg n h

-- atoi reads every int as to_string wrote it, whatever stands behind the NUL.
pub atoi-to_string : (z : ℤ) (r : List ℕ) → IsInt z → atoi (to_string z ++ (0 ∷ r)) ≡ done z
atoi-to_string z r h = atoi-terminated (to_string z) r ∙ ap done (number-to_string z h)
