-- ===== src/Printing.antt =====
-- printBuffer of ecmcCANOpenPDO.cpp and of ecmcCANOpenSDO.cpp, which are the same, and which the
-- objects call in debug mode. What is printed is left out, but for the words that are read.
use e3_ecmc_plugin_socketcan.Common.{
  ℕ, zero, suc, ◌+◌, ◌*◌, ◌/◌, ◌%◌, ◌≤◌, ◌≡◌, refl, inl, inr, Bool, true, List, [], ◌∷◌, arith,
  ◌==◌, if◌then◌else◌, length, Bool-cases,
}
use e3_ecmc_plugin_socketcan.Common.Memory.{Outcome, done, fault, ◌>>=◌, memcpy, memcpy-done}
use e3_ecmc_plugin_socketcan.Common.Bytes.{of_le_bytes}

-- Reads two bytes at every even index below ODSize_.
print_words : ℕ → ℕ → List ℕ → Outcome (List ℕ)
print_words zero i buffer = done []
print_words (suc n) i buffer = do
  test ← memcpy (0 ∷ 0 ∷ []) 0 buffer i 2
  rest ← print_words n (i + 2) buffer
  done (of_le_bytes test ∷ rest)

print_buffer : ℕ → List ℕ → Outcome (List ℕ)
unfolding print_words
print_buffer od_size buffer = print_words ((od_size + 1) / 2) 0 buffer

-- The call, which is made in debug mode only.
pub print_if : Bool → ℕ → List ℕ → Outcome (Unit {0})
unfolding print_buffer
print_if dbg_mode od_size buffer =
    if dbg_mode then (print_buffer od_size buffer >>= λ words. done tt) else done tt

-- In debug mode, the size is even: of an odd one the last word would leave the block.
abbrev pub IsPrintable : Bool → ℕ → Type 0
IsPrintable dbg_mode od_size = (if dbg_mode then od_size % 2 == 0 else true) ≡ true

print_words-done :
    (n i : ℕ) (buffer : List ℕ)
    → i + 2 * n ≤ length buffer
    → (ws : List ℕ) × (print_words n i buffer ≡ done ws)
unfolding print_words
print_words-done zero i buffer h = ([], refl)
print_words-done (suc n) i buffer h =
    let (ws, e) = print_words-done n (i + 2) buffer (omega (arith, h)) in
    let copied : (t : List ℕ) × (memcpy (0 ∷ 0 ∷ []) 0 buffer i 2 ≡ done t) =
      (_, memcpy-done (0 ∷ 0 ∷ []) 0 buffer i 2 (omega arith) (omega (arith, h))) in
    (of_le_bytes copied.0 ∷ ws, rw (copied.1, e) refl)

print_words-fault :
    (n i : ℕ) (buffer : List ℕ)
    → i + (2 * n + 1) ≡ length buffer
    → print_words (suc n) i buffer ≡ fault
unfolding print_words memcpy
print_words-fault zero i buffer h = ground (arith, h)
print_words-fault (suc n) i buffer h =
    let copied : (t : List ℕ) × (memcpy (0 ∷ 0 ∷ []) 0 buffer i 2 ≡ done t) =
      (_, memcpy-done (0 ∷ 0 ∷ []) 0 buffer i 2 (omega arith) (omega (arith, h))) in
    rw (copied.1, print_words-fault n (i + 2) buffer (omega (arith, h))) refl

-- A block of odd size is not, in debug mode.
pub print_if-fault :
    (od_size : ℕ) (buffer : List ℕ)
    → od_size % 2 ≡ 1
    → length buffer ≡ od_size
    → print_if true od_size buffer ≡ fault
unfolding print_if print_buffer
print_if-fault od_size buffer odd h =
    let n : ℕ = od_size / 2 in
    let words : (od_size + 1) / 2 ≡ suc n = omega (arith, odd) in
    rw (words, print_words-fault n 0 buffer (omega (arith, odd, h))) refl

-- A printable block is read inside its bounds.
pub print_if-done :
    (dbg_mode : Bool) (od_size : ℕ) (buffer : List ℕ)
    → IsPrintable dbg_mode od_size
    → length buffer ≡ od_size
    → print_if dbg_mode od_size buffer ≡ done tt
unfolding print_if print_buffer
print_if-done dbg_mode od_size buffer p h = elim (Bool-cases dbg_mode) [
  | inr e ↦ rw e refl
  | inl e ↦
      let even : od_size % 2 ≡ 0 = ground (arith, p, e) in
      let (ws, f) = print_words-done ((od_size + 1) / 2) 0 buffer (omega (arith, even, h)) in
      rw (e, f) refl
]
