-- ===== src/Pdo/Tests.antt =====
-- PDOs of two bytes, and one that is made for nine.
use e3_ecmc_plugin_socketcan.Common.{false, inl, inr, true, ◌≡◌, refl, [], ◌∷◌, arith, take}
use e3_ecmc_plugin_socketcan.Common.Memory.{done, fault}
use e3_ecmc_plugin_socketcan.Defs.{dir_write, dir_read}
use e3_ecmc_plugin_socketcan.Frame.{Frame}
use e3_ecmc_plugin_socketcan.WriteBuffer.{new_write_buffer}
use e3_ecmc_plugin_socketcan.Sink.{write_buffer_sink, put}
use e3_ecmc_plugin_socketcan.Pdo.{Pdo, new_pdo, new_rx_frame, write_value, asyn_write_pdo_value}
use e3_ecmc_plugin_socketcan.Pdo.Values.{
  IsValid, new_pdo-IsValid, data_frame, write_value-oversized, asyn_write_pdo_value_lem,
}
use e3_ecmc_plugin_socketcan.Pdo.Debug.{odd_sizes_fault}
use e3_ecmc_plugin_socketcan.Pdo.Cycle.{tick, rx, run, timeout_counts_ticks}
use e3_ecmc_plugin_socketcan.Pdo.Cycle.Writes.{write_cycle_sends_once}

-- A timeout and a cycle of 30 ms, and calls of execute every 10 ms.
abbrev reader : Pdo
reader = new_pdo 3 0x183 dir_read 2 30 0 10 true

abbrev writer : Pdo
writer = new_pdo 3 0x203 dir_write 2 0 30 10 false

reader-IsValid : IsValid reader
reader-IsValid = new_pdo-IsValid 3 0x183 dir_read 2 30 0 10 true (omega arith) (inr refl)

writer-IsValid : IsValid writer
writer-IsValid = new_pdo-IsValid 3 0x203 dir_write 2 0 30 10 false (omega arith) (inl refl)

abbrev sample : Frame
sample = record { can_id = 0x183; can_dlc = 2; payload = 7 ∷ 8 ∷ 0 ∷ 0 ∷ 0 ∷ 0 ∷ 0 ∷ 0 ∷ [] }

asyn_write_pdo_value_lem_example :
    (q : Pdo) × (asyn_write_pdo_value (9 ∷ []) writer new_write_buffer
      ≡ done (
        record q { write_frame = data_frame q; refresh_needed = true },
        put (data_frame q) new_write_buffer,
      ))
    × (take 2 (data_frame q).payload ≡ 9 ∷ 0 ∷ [])
    × (IsValid q)
unfolding new_pdo
asyn_write_pdo_value_lem_example =
    asyn_write_pdo_value_lem (9 ∷ []) writer new_write_buffer writer-IsValid (ground arith)

write_value-oversized_example :
    write_value (new_pdo 3 0x203 dir_write 9 0 30 10 false) new_write_buffer ≡ fault
write_value-oversized_example =
    write_value-oversized 3 0x203 dir_write 9 0 30 10 false new_write_buffer (omega arith)

timeout_counts_ticks_example :
    (q : Pdo) × (run (tick ∷ rx sample ∷ tick ∷ rx sample ∷ tick ∷ []) reader new_write_buffer
      ≡ done (q, new_write_buffer))
    × (q.error_code ≡ 100)
    × (q.error_param ≡ 100)
    × (q.exe_counter ≡ 0)
unfolding new_pdo
timeout_counts_ticks_example =
    timeout_counts_ticks (tick ∷ rx sample ∷ tick ∷ rx sample ∷ []) reader new_write_buffer
      reader-IsValid refl refl (refl, (refl, tt)) (omega arith) (omega arith)

write_cycle_sends_once_example :
    (q : Pdo) × (q' : Pdo) × (run (tick ∷ tick ∷ []) writer new_write_buffer
      ≡ done (q, new_write_buffer))
    × (run (tick ∷ tick ∷ tick ∷ []) writer new_write_buffer
        ≡ done (q', put (data_frame writer) new_write_buffer))
    × (q'.exe_counter ≡ 0)
unfolding new_pdo
write_cycle_sends_once_example =
    write_cycle_sends_once 2 writer new_write_buffer writer-IsValid refl refl (omega arith)
      (omega arith)

-- A PDO of three bytes in debug mode, and a frame for it.
abbrev odd_reader : Pdo
odd_reader = new_pdo 3 0x183 dir_read 3 30 0 10 true

abbrev odd_sample : Frame
odd_sample = record sample { can_dlc = 3 }

odd_sizes_fault_example : new_rx_frame odd_sample odd_reader ≡ fault
unfolding new_pdo
odd_sizes_fault_example =
    odd_sizes_fault odd_sample odd_reader refl (refl, refl, refl) refl (omega arith) refl refl
