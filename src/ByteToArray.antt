-- ===== src/ByteToArray.antt =====
-- ecmc_plugin_socketcanApp/src/ecmcByteToArrayAsub.cpp: an EPICS aSub routine that merges its inputs
-- A to S, one byte each, to an array. EPICS allocates the block `vala` with NOVA elements; a write
-- outside it is a fault. Printouts are left out.
pub mod Merge
pub mod Overrun
pub mod Tests
use e3_ecmc_plugin_socketcan.Common.{
  ℕ, ◌%◌, Bool, ◌&&◌, List, [], ◌∷◌, leb, ltb, ◌==◌, if◌then◌else◌, length, get_or, set,
}
use e3_ecmc_plugin_socketcan.Common.Memory.{Outcome, done, fault, ◌>>=◌}

-- An input, such as rec->noa and the first byte of rec->a.
pub record Input : Type 0 where
  pub count : ℕ
  pub first : ℕ

abbrev pub no_input : Input
no_input = record { count = 0; first = 0 }

-- `inputs` has the inputs A to S in this order.
pub record ASubRecord : Type 0 where
  pub nova : ℕ
  pub inputs : List Input

-- epicsUInt8 byteCount
abbrev pub byte_count : ASubRecord → ℕ
byte_count r = r.nova % 256

-- if(byteCount >= threshold && rec->no<i> == 1) vala[i] = *(epicsUInt8 *)rec-><i>
unfoldable pub store_input : ℕ × ℕ → ASubRecord → List ℕ → Outcome (List ℕ)
store_input (threshold, i) r vala =
    let x = get_or r.inputs i no_input in
    if leb threshold (byte_count r) && x.count == 1
    then (if ltb i (length vala) then done (set vala i x.first) else fault)
    else done vala

-- The 19 tests: the number of bytes that each compares with, and its index. Those of M and N compare
-- with the same number.
abbrev pub tests : List (ℕ × ℕ)
tests =
    (1, 0)
    ∷ (2, 1)
    ∷ (3, 2)
    ∷ (4, 3)
    ∷ (5, 4)
    ∷ (6, 5)
    ∷ (7, 6)
    ∷ (8, 7)
    ∷ (9, 8)
    ∷ (10, 9)
    ∷ (11, 10)
    ∷ (12, 11)
    ∷ (13, 12)
    ∷ (13, 13)
    ∷ (14, 14)
    ∷ (15, 15)
    ∷ (16, 16)
    ∷ (17, 17)
    ∷ (18, 18)
    ∷ []

unfoldable pub store_inputs : List (ℕ × ℕ) → ASubRecord → List ℕ → Outcome (List ℕ)
store_inputs [] r vala = done vala
store_inputs (t ∷ ts) r vala = store_input t r vala >>= λ out. store_inputs ts r out

unfoldable pub byte_to_array : ASubRecord → List ℕ → Outcome (List ℕ)
unfolding store_inputs store_input
byte_to_array r vala = store_inputs tests r vala
