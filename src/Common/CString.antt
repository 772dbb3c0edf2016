-- ===== src/Common/CString.antt =====
-- The C library's functions on strings. A pointer is the list of the bytes from it to the end of its
-- block; a block that is read past its end is a fault.
pub mod Terminated
use Prim.Native.Nat.{ℕ, zero, suc, ◌+◌, ◌-◌, ◌*◌, ◌≤◌, ◌<◌}
use mathlib.Core.Path.{◌≡◌, refl, ap}
use mathlib.Core.Logic.{◌≢◌, ◌⊎◌, inl, inr}
use mathlib.Core.Bool.{Bool, true, false, ◌&&◌, ◌||◌}
use mathlib.Core.Option.{Option, none, some}
use mathlib.Core.List.{List, [], ◌∷◌, ◌++◌}
use native.Mathlib.Omega.{arith}
use e3_ecmc_plugin_socketcan.Common.Tests.{leb, ◌==◌, if◌then◌else◌}
use e3_ecmc_plugin_socketcan.Common.Lists.{length, drop}
use e3_ecmc_plugin_socketcan.Common.Int.{ℤ, pos, neg_of}
use e3_ecmc_plugin_socketcan.Common.Memory.{Outcome, done, fault, ◌>>=◌}

-- strncmp(p, prefix, strlen(prefix)) == 0, for a `p` with a NUL.
unfoldable pub starts_with : List ℕ → List ℕ → Bool
starts_with [] p = true
starts_with (c ∷ cs) [] = false
starts_with (c ∷ cs) (x ∷ xs) = c == x && starts_with cs xs

-- p + n
unfoldable pub advance : ℕ → List ℕ → Outcome (List ℕ)
advance n p = if leb n (length p) then done (drop n p) else fault

-- strdup(p)
unfoldable pub c_string : List ℕ → Outcome (List ℕ)
c_string [] = fault
c_string (c ∷ cs) =
    let rest : Outcome (List ℕ) = c_string cs >>= λ s. done (c ∷ s) in
    if c == 0 then done [] else rest

abbrev pub is_space : ℕ → Bool
is_space c = c == b' ' || (leb 9 c && leb c 13)

abbrev pub is_digit : ℕ → Bool
is_digit c = leb b'0' c && leb c b'9'

-- The value of the digits at p, behind those of `n`.
unfoldable pub digits : ℕ → List ℕ → Outcome ℕ
digits n [] = fault
digits n (c ∷ cs) =
    let rest = digits (n * 10 + (c - b'0')) cs in if is_digit c then rest else done n

unfoldable pub atoi_signed : List ℕ → Outcome ℤ
unfolding digits
atoi_signed [] = fault
atoi_signed (c ∷ cs) =
    if c == b'-'
    then (digits 0 cs >>= λ n. done (neg_of n))
    else (digits 0 (if c == b'+' then cs else c ∷ cs) >>= λ n. done (pos n))

-- atoi(p), for a number that fits an int.
unfoldable pub atoi : List ℕ → Outcome ℤ
unfolding atoi_signed
atoi [] = fault
atoi (c ∷ cs) = let rest = atoi cs in if is_space c then rest else atoi_signed (c ∷ cs)
