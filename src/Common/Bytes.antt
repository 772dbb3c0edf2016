-- ===== src/Common/Bytes.antt =====
-- Numbers as the bytes that a little-endian machine holds them in.
use Prim.Native.Nat.{ℕ, zero, suc, ◌+◌, ◌*◌, ◌/◌, ◌%◌, ◌<◌}
use mathlib.Core.Path.{◌≡◌, refl, ap}
use mathlib.Core.List.{List, [], ◌∷◌, ◌++◌}
use native.Mathlib.Omega.{arith}
use e3_ecmc_plugin_socketcan.Common.Lists.{length, replicate, take}

-- The low `n` bytes of a number, and the number that bytes stand for.
abbrev pub le_bytes : ℕ → ℕ → List ℕ
le_bytes zero x = []
le_bytes (suc n) x = x % 256 ∷ le_bytes n (x / 256)

abbrev pub of_le_bytes : List ℕ → ℕ
of_le_bytes [] = 0
of_le_bytes (b ∷ bs) = b + 256 * of_le_bytes bs

abbrev pub AreBytes : List ℕ → Type 0
AreBytes [] = Unit {0}
AreBytes (b ∷ bs) = (b < 256) × AreBytes bs

pub length-le_bytes : (n x : ℕ) → length (le_bytes n x) ≡ n
length-le_bytes zero x = refl
length-le_bytes (suc n) x = ap suc (length-le_bytes n (x / 256))

-- Bytes written to a number of as many bytes are read back.
pub le_bytes-of_le_bytes :
    (n : ℕ) (bs : List ℕ) → AreBytes bs → length bs ≡ n → le_bytes n (of_le_bytes bs) ≡ bs
le_bytes-of_le_bytes zero [] a h = refl
le_bytes-of_le_bytes (suc n) [] a h = absurd (omega arith)
le_bytes-of_le_bytes zero (b ∷ bs) a h = absurd (omega arith)
le_bytes-of_le_bytes (suc n) (b ∷ bs) a h =
    let lo : (b + 256 * of_le_bytes bs) % 256 ≡ b = omega (arith, a.0) in
    let hi : (b + 256 * of_le_bytes bs) / 256 ≡ of_le_bytes bs = omega (arith, a.0) in
    rw (lo, hi) (ap (λ l. b ∷ l) (le_bytes-of_le_bytes n bs a.1 (omega arith)))

pub AreBytes-append : (xs ys : List ℕ) → AreBytes xs → AreBytes ys → AreBytes (xs ++ ys)
AreBytes-append [] ys a b = b
AreBytes-append (x ∷ xs) ys a b = (a.0, AreBytes-append xs ys a.1 b)

pub AreBytes-take : (n : ℕ) (bs : List ℕ) → AreBytes bs → AreBytes (take n bs)
AreBytes-take zero bs a = tt
AreBytes-take (suc n) [] a = tt
AreBytes-take (suc n) (b ∷ bs) a = (a.0, AreBytes-take n bs a.1)

pub AreBytes-zeros : (n : ℕ) → AreBytes (replicate n 0)
AreBytes-zeros zero = tt
AreBytes-zeros (suc n) = (omega arith, AreBytes-zeros n)
