-- ===== src/Device/Tests.antt =====
-- A device with a PDO and two SDOs, and a master.
use e3_ecmc_plugin_socketcan.Common.{
  false, true, ◌+◌, ◌≡◌, ◌≤◌, refl, some, List, [], ◌∷◌, arith, map,
}
use e3_ecmc_plugin_socketcan.Common.Memory.{done, every-AfterDone}
use e3_ecmc_plugin_socketcan.Defs.{dir_read, dir_write, nmt_not_valid, nmt_op}
use e3_ecmc_plugin_socketcan.Frame.{Frame}
use e3_ecmc_plugin_socketcan.WriteBuffer.{WriteBuffer, new_write_buffer}
use e3_ecmc_plugin_socketcan.Sink.{write_buffer_sink}
use e3_ecmc_plugin_socketcan.Sdo.Segments.{IsData}
use e3_ecmc_plugin_socketcan.Sdo.{new_sdo}
use e3_ecmc_plugin_socketcan.Sdo.Balance.{count}
use e3_ecmc_plugin_socketcan.Device.{Device, new_device, add_pdo, add_sdo, execute, new_rx_frame}
use e3_ecmc_plugin_socketcan.Device.Lock.{IsValid, busy_count, IsData-Takes}
use e3_ecmc_plugin_socketcan.Device.Run.{
  Event, tick, rx, sdo_written, handle, run, AllFit, AreData-AllFit, run-exclusive,
  new_device-IsValid, add_pdo-IsValid, add_sdo-IsValid,
}
use e3_ecmc_plugin_socketcan.Device.Nmt.{heart_beat_timeout, heart_beat_received, Shows}
use e3_ecmc_plugin_socketcan.Device.Master.{new_master, sends, master_leaves_op}

-- Node 3, with calls of execute every 10 ms and a heartbeat timeout of 20 ms.
abbrev node : Device
node = new_device 3 10 20 true

node-IsValid : IsValid node
node-IsValid = new_device-IsValid 3 10 20 true

abbrev with_pdo : Device
with_pdo = (add_pdo 0x183 dir_read 2 30 0 node).1

abbrev with_sdo : Device
with_sdo = (add_sdo 0x583 0x603 dir_read 0x2690 1 2 10 with_pdo).1

abbrev full_node : Device
full_node = (add_sdo 0x583 0x603 dir_read 0x2690 2 4 10 with_sdo).1

full_node-IsValid : IsValid full_node
unfolding new_device add_pdo add_sdo
full_node-IsValid =
    let v1 = add_pdo-IsValid 0x183 dir_read 2 30 0 node node-IsValid (omega arith) refl in
    let v2 = add_sdo-IsValid 0x583 0x603 0x2690 1 2 10 dir_read with_pdo v1 (omega arith) refl in
    add_sdo-IsValid 0x583 0x603 0x2690 2 4 10 dir_read with_sdo v2 (omega arith) refl

abbrev heart_beat : Frame
heart_beat = record { can_id = 0x703; can_dlc = 1; payload = 5 ∷ 0 ∷ 0 ∷ 0 ∷ 0 ∷ 0 ∷ 0 ∷ 0 ∷ [] }

heart_beat-IsData : IsData heart_beat
heart_beat-IsData = record { framed = refl; low = omega arith; high = omega arith }

-- A node with an SDO that is written.
abbrev writer_node : Device
writer_node = (add_sdo 0x583 0x603 dir_write 0x2690 1 2 10 full_node).1

writer_node-IsValid : IsValid writer_node
unfolding new_device add_pdo add_sdo
writer_node-IsValid =
    add_sdo-IsValid 0x583 0x603 0x2690 1 2 10 dir_write full_node full_node-IsValid (omega arith)
      refl

abbrev script : List Event
script = sdo_written 2 (5 ∷ 6 ∷ []) ∷ tick ∷ tick ∷ rx heart_beat ∷ tick ∷ []

script-AllFit : AllFit script writer_node new_write_buffer
unfolding add_sdo add_pdo new_device new_sdo
script-AllFit = (
  omega arith,
  every-AfterDone _ (handle (sdo_written 2 (5 ∷ 6 ∷ [])) writer_node new_write_buffer) (λ r.
      AreData-AllFit (tick ∷ tick ∷ rx heart_beat ∷ tick ∷ []) r.0 r.1 (heart_beat-IsData, tt)),
)

run-exclusive_example :
    (d' : Device) × (b' : WriteBuffer) × (run script writer_node new_write_buffer ≡ done (d', b'))
    × (busy_count d'.sdos ≤ 1)
    × (busy_count d'.sdos ≡ count d'.sdo1_lock)
run-exclusive_example =
    run-exclusive script writer_node new_write_buffer writer_node-IsValid script-AllFit

-- The node after a heartbeat in operation.
abbrev beating : Device
beating = record node { nmt_state = nmt_op; nmt_state_old = nmt_op; nmt_param = nmt_op }

beating-IsValid : IsValid beating
beating-IsValid = record {
  pdos_valid = node-IsValid.pdos_valid;
  sound = node-IsValid.sound;
  exclusive = node-IsValid.exclusive;
}

heart_beat_timeout_example :
    (d1 : Device) × (b1 : WriteBuffer) × (run (tick ∷ tick ∷ []) beating new_write_buffer
      ≡ done (d1, b1))
    × (d1.nmt_state ≡ nmt_op)
    × (d1.nmt_param ≡ nmt_op)
    × (d2 : Device) × (b2 : WriteBuffer) × (execute d1 b1 ≡ done (d2, b2))
    × (d2.nmt_state ≡ nmt_not_valid)
    × (d2.nmt_param ≡ nmt_not_valid)
unfolding new_device
heart_beat_timeout_example =
    heart_beat_timeout 1 beating new_write_buffer beating-IsValid refl (omega arith) (omega arith)

heart_beat_received_example :
    (d' : Device) × (b' : WriteBuffer) × (new_rx_frame heart_beat node new_write_buffer
      ≡ done (d', b'))
    × IsValid d'
    × Shows 5 d'.nmt_state
    × (d'.heart_beat_counter ≡ 0)
unfolding new_device
heart_beat_received_example =
    heart_beat_received heart_beat node new_write_buffer node-IsValid
      (IsData-Takes heart_beat node heart_beat-IsData) refl (omega arith) refl refl

master_leaves_op_example :
    (m : Device) × (new_master 0 10 100 100 1000 false ≡ done (some m))
    × (map sends m.pdos ≡ (0x7E5, 0, []) ∷ (0x80, 0, []) ∷ (0x700 + 0, 1, 5 ∷ []) ∷ [])
    × (m.nmt_state ≡ nmt_op)
    × (m' : Device) × (b' : WriteBuffer) × (execute m new_write_buffer ≡ done (m', b'))
    × (m'.nmt_state ≡ nmt_not_valid)
    × (m'.nmt_param ≡ nmt_not_valid)
master_leaves_op_example = master_leaves_op 0 10 100 100 1000 false new_write_buffer (omega arith)
