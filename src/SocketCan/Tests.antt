-- ===== src/SocketCan/Tests.antt =====
-- The plugin on the interface can0, with a node and a master.
use e3_ecmc_plugin_socketcan.Common.{
  false, ℕ, ◌≡◌, ◌⊎◌, refl, true, none, some, List, [], ◌∷◌, ◌++◌, arith,
}
use e3_ecmc_plugin_socketcan.Common.Int.{pos}
use e3_ecmc_plugin_socketcan.Common.Memory.{done, every-AfterDone}
use e3_ecmc_plugin_socketcan.Common.Attempt.{ok, thrown, Exception}
use e3_ecmc_plugin_socketcan.Defs.{dir_write}
use e3_ecmc_plugin_socketcan.Frame.{Frame, zero_frame}
use e3_ecmc_plugin_socketcan.Sdo.Segments.{IsData}
use e3_ecmc_plugin_socketcan.WriteBuffer.{Socket, wrote, at_top}
use e3_ecmc_plugin_socketcan.WriteBuffer.Invariant.{new_write_buffer-IsValid}
use e3_ecmc_plugin_socketcan.WriteBuffer.Order.{pending, write_all}
use e3_ecmc_plugin_socketcan.WriteBuffer.Run
use e3_ecmc_plugin_socketcan.WriteBuffer.Run.{Op, Inv, accepted}
use e3_ecmc_plugin_socketcan.Config.{Config, connect_option_cmd, codes, parse_config_str}
use e3_ecmc_plugin_socketcan.Config.Options.{parse_config_str-options}
use e3_ecmc_plugin_socketcan.Config.Connect.{connect_value_ignored}
use e3_ecmc_plugin_socketcan.Config.Tests.{can0, can0-NoNul, can0-ArePlain}
use e3_ecmc_plugin_socketcan.Common.CString.{starts_with}
use e3_ecmc_plugin_socketcan.Config.{new_config}
use e3_ecmc_plugin_socketcan.Device
use e3_ecmc_plugin_socketcan.Device.{Device, new_device, add_sdo}
use e3_ecmc_plugin_socketcan.Device.Lock
use e3_ecmc_plugin_socketcan.Device.Run.{new_device-IsValid, add_sdo-IsValid}
use e3_ecmc_plugin_socketcan.Sdo.{new_sdo}
use e3_ecmc_plugin_socketcan.Device.Master.{new_master}
use e3_ecmc_plugin_socketcan.SocketCan
use e3_ecmc_plugin_socketcan.SocketCan.{
  SocketCan, Interface, got, new_socket_can, connect_worker_step, connect_external,
}
use e3_ecmc_plugin_socketcan.SocketCan.Table.{append_device, add_master}
use e3_ecmc_plugin_socketcan.SocketCan.Invariant.{IsValid, HasName}
use e3_ecmc_plugin_socketcan.SocketCan.Adds.{CanAddMaster, add_master_lem}
use e3_ecmc_plugin_socketcan.SocketCan.Run.{run-IsValid}
use e3_ecmc_plugin_socketcan.SocketCan.Steps.{
  cycle, read_work, connect_call, new_device_call, new_master_call, new_pdo_call, send, Turn,
  write_work, happens, System, AllFit, AllFitAny, AllFitAny-AllFit, sdo_written, pdo_written,
}
use e3_ecmc_plugin_socketcan.SocketCan.Connect.{
  constructed_can, connected_later, constructed-IsValid, new_socket_can_lem,
  late_connection_cannot_write,
}
use e3_ecmc_plugin_socketcan.SocketCan.Refinement.{plugin-order}
use e3_ecmc_plugin_socketcan.SocketCan.Explains.{Follows, view}

abbrev pub on_can0 : ℕ → Config
on_can0 n = record { dbg_mode = pos 0; auto_connect = pos n; can_if_str = some (codes "can0") }

pub can0_parsed : parse_config_str (some can0) ≡ ok (on_can0 1)
unfolding starts_with new_config
can0_parsed = parse_config_str-options can0 can0-NoNul can0-ArePlain

abbrev connect_later : List ℕ
connect_later = connect_option_cmd ++ (b'0' ∷ b';' ∷ can0)

connect_later_parsed : parse_config_str (some connect_later) ≡ ok (on_can0 0)
unfolding starts_with new_config
connect_later_parsed =
    connect_value_ignored b'0' can0 (omega arith) (ground arith) can0-NoNul can0-ArePlain

pub can0-HasName : (n : ℕ) → HasName (on_can0 n)
can0-HasName n = (codes "can0", refl, omega arith)

abbrev pub opens : Interface
opens = record { socket = some 3; binds = true }

new_socket_can_lem_example :
    (s : SocketCan) × (new_socket_can (some can0) 10 true true true opens ≡ ok s)
    × IsValid s
    × (s.devices ≡ [])
    × (s.connected ≡ true)
    × (s.write_socket ≡ some 3)
new_socket_can_lem_example =
    new_socket_can_lem (some can0) (on_can0 1) 10 opens can0_parsed (can0-HasName 1)
      ((3, refl), refl)

abbrev pub connected_can : SocketCan
connected_can = constructed_can (on_can0 1) 10 opens true

pub connected_can-IsValid : IsValid connected_can
connected_can-IsValid = constructed-IsValid (on_can0 1) 10 opens true (can0-HasName 1)

abbrev with_node : SocketCan
with_node = append_device (new_device 3 10 100 true) connected_can

add_master_lem_example :
    (CanAddMaster 0 (pos 100) (pos 10) (pos 1000) with_node
      × (m : Device) × (new_master 0 10 100 10 1000 false ≡ done (some m))
      × Device.Lock.IsValid m
      × (m.is_master ≡ true)
      × (m.node_id ≡ 0)
      × (add_master 0 (pos 100) (pos 10) (pos 1000) with_node
          ≡ ok (record (append_device m with_node) { master_dev = true })))
    ⊎ (¬ CanAddMaster 0 (pos 100) (pos 10) (pos 1000) with_node
        × (e : Exception) × (add_master 0 (pos 100) (pos 10) (pos 1000) with_node ≡ thrown e))
add_master_lem_example = add_master_lem 0 (pos 100) (pos 10) (pos 1000) with_node

-- The bus keeps the frames that it was given, newest first.
abbrev pub bus : Socket (List Frame)
bus = record { write = λ f s. (wrote 16, f ∷ s) }

abbrev reply_frame : Frame
reply_frame = record zero_frame { can_id = 0x183; can_dlc = 2 }

reply_frame-IsData : IsData reply_frame
reply_frame-IsData = record { framed = refl; low = omega arith; high = omega arith }

-- The plugin with a node, which has an SDO that is written.
abbrev writer : Device
writer = (add_sdo 0x583 0x603 dir_write 0x2690 1 2 10 (new_device 3 10 100 true)).1

writer-IsValid : Device.Lock.IsValid writer
unfolding new_device
writer-IsValid =
    add_sdo-IsValid 0x583 0x603 0x2690 1 2 10 dir_write (new_device 3 10 100 true)
      (new_device-IsValid 3 10 100 true) (omega arith) refl

abbrev pub with_writer : SocketCan
with_writer = append_device writer connected_can

pub with_writer-IsValid : IsValid with_writer
unfolding add_sdo new_device
with_writer-IsValid = record {
  nodes = (writer-IsValid, omega arith, tt);
  room = omega arith;
  named = can0-HasName 1;
  one_master = refl;
}

abbrev script : List Turn
script =
    happens (new_master_call 0 (pos 100) (pos 10) (pos 1000))
    ∷ happens (new_pdo_call 3 0x203 dir_write 2 30 0)
    ∷ happens cycle
    ∷ happens (pdo_written 0 0 (7 ∷ 0 ∷ []))
    ∷ happens (read_work (got 16 reply_frame))
    ∷ happens (send 5 1 7 0 0 0 0 0 0 0)
    ∷ write_work
    ∷ happens cycle
    ∷ write_work
    ∷ write_work
    ∷ []

script-AllFitAny : AllFitAny script
script-AllFitAny = (
  tt,
  (
    (omega arith, refl),
    (tt, ((omega arith, (omega arith, tt)), (reply_frame-IsData, (tt, (tt, tt))))),
  ),
)

abbrev pub started : System (List Frame)
started = record { can = with_writer; pc = at_top; line = [] }

-- A value for the SDO, and then the script.
abbrev writes : List Turn
writes = happens (sdo_written 0 0 (5 ∷ 6 ∷ [])) ∷ script

writes-AllFit : AllFit bus writes started
unfolding add_sdo new_device new_sdo
writes-AllFit = (
  omega arith,
  every-AfterDone _ (SocketCan.Steps.step bus (happens (sdo_written 0 0 (5 ∷ 6 ∷ []))) started)
      (λ t. AllFitAny-AllFit bus script t script-AllFitAny),
)

run-IsValid_example :
    (t' : System (List Frame)) × (SocketCan.Steps.run bus writes started ≡ done t') × IsValid t'.can
run-IsValid_example = run-IsValid bus writes started with_writer-IsValid writes-AllFit

plugin-order_example :
    (t' : System (List Frame)) × (SocketCan.Steps.run bus writes started ≡ done t')
    × (os : List Op) × Follows writes os
    × (Run.run bus os (view bus started) ≡ view bus t')
    × (sent : List Frame) × (t'.line ≡ write_all bus sent [])
    × (sent ++ pending t'.can.write_buffer
        ≡ pending with_writer.write_buffer ++ accepted bus os (view bus started))
plugin-order_example =
    plugin-order bus writes started with_writer-IsValid writes-AllFit
      (record { valid = new_write_buffer-IsValid.0; at_pc = new_write_buffer-IsValid.1 })

late_connection_cannot_write_example :
    (s : SocketCan) × (new_socket_can (some connect_later) 10 true true true opens ≡ ok s)
    × (connect_worker_step opens (connect_external s) ≡ done (connected_later (on_can0 0) 10 opens))
    × (t : System (List Frame)) × (SocketCan.Steps.run bus script
          (record { can = connected_later (on_can0 0) 10 opens; pc = at_top; line = [] })
        ≡ done t)
    × (t.can.write_socket ≡ none)
late_connection_cannot_write_example =
    late_connection_cannot_write bus [] (some connect_later) (on_can0 0) 10 opens script
      connect_later_parsed (can0-HasName 0) ((3, refl), refl) refl
      (AllFitAny-AllFit bus script _ script-AllFitAny)
