-- ===== src/ByteToArray/Overrun.antt =====
-- The inputs from N on, whose tests compare with one byte too few.
use e3_ecmc_plugin_socketcan.Common.{
  ℕ, ◌≤◌, ◌<◌, ◌≡◌, ◌⊎◌, inl, inr, List, [], ◌∷◌, arith, length, get_or, length-set,
}
use e3_ecmc_plugin_socketcan.Common.Memory.{done, fault, Outcome-cases}
use e3_ecmc_plugin_socketcan.ByteToArray.{
  no_input, ASubRecord, store_input, tests, store_inputs, byte_to_array,
}

abbrev Has : ℕ → ℕ → List (ℕ × ℕ) → Type 0
Has t i [] = ⊥
Has t i ((u, j) ∷ ts) = ((u ≡ t) × (j ≡ i)) ⊎ Has t i ts

length-store_input :
    (t : ℕ × ℕ) (r : ASubRecord) (vala out : List ℕ)
    → store_input t r vala ≡ done out
    → length out ≡ length vala
unfolding store_input
length-store_input (t, i) r vala out h =
    ground (arith, h, length-set vala i (get_or r.inputs i no_input).first)

store_input-faults :
    (t i : ℕ) (r : ASubRecord) (vala : List ℕ)
    → r.nova < 256
    → t ≤ r.nova
    → length vala ≤ i
    → (get_or r.inputs i no_input).count ≡ 1
    → store_input (t, i) r vala ≡ fault
unfolding store_input
store_input-faults t i r vala small h l c = ground arith

-- A test that stores outside the array faults the routine, wherever it stands.
store_inputs-faults :
    (ts : List (ℕ × ℕ)) (t i : ℕ) (r : ASubRecord) (vala : List ℕ)
    → Has t i ts
    → r.nova < 256
    → t ≤ r.nova
    → length vala ≤ i
    → (get_or r.inputs i no_input).count ≡ 1
    → store_inputs ts r vala ≡ fault
unfolding store_inputs
store_inputs-faults [] t i r vala has small h l c = absurd has
store_inputs-faults ((u, j) ∷ ts) t i r vala (inl (p, q)) small h l c =
    rw (store_input-faults u j r vala small (omega arith) (omega arith) (rw q c))
store_inputs-faults ((u, j) ∷ ts) t i r vala (inr has) small h l c =
    elim (Outcome-cases (store_input (u, j) r vala)) [
      | inr e ↦ rw e
      | inl (out, e) ↦ rw e (
          store_inputs-faults ts t i r out has small h
            (omega (arith, length-store_input (u, j) r vala out e)) c)
    ]

tests-Has : (n : ℕ) → 13 ≤ n → n ≤ 18 → Has n n tests
tests-Has n lo hi = ground arith

-- From 13 to 18 bytes: an output of NOVA elements is overrun by one, if the input behind the last
-- that it has room for has one element: that input's test asks for NOVA bytes, not for one more.
pub byte_to_array_overruns :
    (r : ASubRecord) (vala : List ℕ)
    → 13 ≤ r.nova
    → r.nova ≤ 18
    → length vala ≡ r.nova
    → (get_or r.inputs r.nova no_input).count ≡ 1
    → byte_to_array r vala ≡ fault
unfolding byte_to_array
byte_to_array_overruns r vala lo hi s c =
    store_inputs-faults tests r.nova r.nova r vala (tests-Has r.nova lo hi) (omega arith)
      (omega arith) (omega arith) c
