-- ===== src/ByteToArray/Tests.antt =====
-- Records of two and of thirteen bytes.
use e3_ecmc_plugin_socketcan.Common.{ℕ, ◌≡◌, refl, [], ◌∷◌, arith, replicate}
use e3_ecmc_plugin_socketcan.Common.Memory.{done, fault}
use e3_ecmc_plugin_socketcan.ByteToArray.{Input, no_input, ASubRecord, byte_to_array}
use e3_ecmc_plugin_socketcan.ByteToArray.Merge.{byte_to_array_lem}
use e3_ecmc_plugin_socketcan.ByteToArray.Overrun.{byte_to_array_overruns}

abbrev byte_input : ℕ → Input
byte_input value = record { count = 1; first = value }

abbrev two_bytes : ASubRecord
two_bytes = record { nova = 2; inputs = byte_input 17 ∷ byte_input 34 ∷ replicate 17 no_input }

byte_to_array_lem_example : byte_to_array two_bytes (0 ∷ 0 ∷ []) ≡ done (17 ∷ 34 ∷ [])
byte_to_array_lem_example = byte_to_array_lem two_bytes (0 ∷ 0 ∷ []) (omega arith) refl refl

abbrev thirteen_bytes : ASubRecord
thirteen_bytes = record { nova = 13; inputs = replicate 19 (byte_input 1) }

byte_to_array_overruns_example : byte_to_array thirteen_bytes (replicate 13 0) ≡ fault
byte_to_array_overruns_example =
    byte_to_array_overruns thirteen_bytes (replicate 13 0) (omega arith) (omega arith) refl refl
