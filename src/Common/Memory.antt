-- ===== src/Common/Memory.antt =====
-- The C library's memcpy and memset over byte lists. An access outside a block is a fault, which
-- ends the run; every other outcome carries its value.
use Prim.Native.Nat.{ℕ, ◌+◌, ◌≤◌}
use mathlib.Core.Logic.{◌⊎◌, inl, inr}
use mathlib.Core.Path.{refl, ◌≡◌, ap, ◌∙◌}
use mathlib.Core.Bool.{◌&&◌}
use mathlib.Core.List.{List, ◌++◌, append-nil}
use native.Mathlib.Omega.{arith}
use e3_ecmc_plugin_socketcan.Common.Tests.{leb, le→leb, if◌then◌else◌}
use e3_ecmc_plugin_socketcan.Common.Lists.{
  length, take, drop, replicate, length-append, length-take, length-drop, take-all, drop-all,
}

pub data Outcome {ℓ} (A : Type ℓ) : Type ℓ where
  done : A → Outcome A
  fault : Outcome A

infixl 5 ◌>>=◌
abbrev pub ◌>>=◌ {ℓ κ} : {A : Type ℓ} {B : Type κ} → Outcome A → (A → Outcome B) → Outcome B
done a >>= f = f a
fault >>= f = fault

pub Outcome-cases {ℓ} : {A : Type ℓ} (o : Outcome A) → ((a : A) × (o ≡ done a)) ⊎ (o ≡ fault)
Outcome-cases (done a) = inl (a, refl)
Outcome-cases fault = inr refl

-- What holds of the value, if there is one.
abbrev pub AfterDone {ℓ} : {A : Type ℓ} → (A → Type 0) → Outcome A → Type 0
AfterDone P (done a) = P a
AfterDone P fault = Unit {0}

pub every-AfterDone {ℓ} :
    {A : Type ℓ} (P : A → Type 0) (o : Outcome A) → ((a : A) → P a) → AfterDone P o
every-AfterDone P (done a) h = h a
every-AfterDone P fault h = tt

abbrev value_or {ℓ} : {A : Type ℓ} → A → Outcome A → A
value_or d (done a) = a
value_or d fault = d

pub done-injective {ℓ} : {A : Type ℓ} {a b : A} → done a ≡ done b → a ≡ b
done-injective {a} h = ap (value_or a) h

-- memcpy(dst + i, src + j, n)
unfoldable pub memcpy : List ℕ → ℕ → List ℕ → ℕ → ℕ → Outcome (List ℕ)
memcpy dst i src j n =
    if leb (i + n) (length dst) && leb (j + n) (length src)
    then done (take i dst ++ (take n (drop j src) ++ drop (i + n) dst))
    else fault

-- memset(dst, v, n)
unfoldable pub memset : List ℕ → ℕ → ℕ → Outcome (List ℕ)
memset dst v n = if leb n (length dst) then done (replicate n v ++ drop n dst) else fault

pub memcpy-done :
    (dst : List ℕ) (i : ℕ) (src : List ℕ) (j n : ℕ)
    → i + n ≤ length dst
    → j + n ≤ length src
    → memcpy dst i src j n ≡ done (take i dst ++ (take n (drop j src) ++ drop (i + n) dst))
unfolding memcpy
memcpy-done dst i src j n p q = rw (le→leb _ _ p, le→leb _ _ q)

-- A copy of a whole block onto another of the same size.
pub memcpy-all :
    (dst src : List ℕ) (n : ℕ) → length dst ≡ n → length src ≡ n → memcpy dst 0 src 0 n ≡ done src
memcpy-all dst src n p q =
    memcpy-done dst 0 src 0 n (omega arith) (omega arith)
    ∙ ap done
        (rw (take-all n src (omega arith), drop-all (0 + n) dst (omega arith)) (append-nil src))

pub memset-all : (dst : List ℕ) (v n : ℕ) → length dst ≡ n → memset dst v n ≡ done (replicate n v)
unfolding memset
memset-all dst v n p =
    rw (le→leb n (length dst) (omega arith), drop-all n dst (omega arith))
      (ap done (append-nil (replicate n v)))

-- A copy keeps the size of the block written to, and faults exactly when it leaves either block.
pub memcpy-length :
    (dst : List ℕ) (i : ℕ) (src : List ℕ) (j n : ℕ) {out : List ℕ}
    → memcpy dst i src j n ≡ done out
    → (length out ≡ length dst) × (i + n ≤ length dst) × (j + n ≤ length src)
unfolding memcpy
memcpy-length dst i src j n h = ground (
  arith,
  length-append (take i dst) (take n (drop j src) ++ drop (i + n) dst),
  length-append (take n (drop j src)) (drop (i + n) dst),
  length-take i dst,
  length-take n (drop j src),
  length-drop j src,
  length-drop (i + n) dst,
)

-- The first bytes of a block, copied onto a block of their number.
pub memcpy-prefix :
    (dst src : List ℕ) (n : ℕ)
    → length dst ≡ n
    → n ≤ length src
    → memcpy dst 0 src 0 n ≡ done (take n src)
memcpy-prefix dst src n p q =
    memcpy-done dst 0 src 0 n (omega arith) (omega arith)
    ∙ ap done (rw (drop-all (0 + n) dst (omega arith)) (append-nil (take n src)))

-- A whole block, copied to the start of a block that has room for it.
pub memcpy-head :
    (dst src : List ℕ) (n : ℕ)
    → length src ≡ n
    → n ≤ length dst
    → memcpy dst 0 src 0 n ≡ done (src ++ drop n dst)
memcpy-head dst src n p q =
    memcpy-done dst 0 src 0 n (omega arith) (omega arith)
    ∙ ap done (let e : 0 + n ≡ n = omega arith in rw (take-all n src (omega arith), e))
