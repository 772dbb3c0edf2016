-- ===== src/Wrap.antt =====
-- ecmc_plugin_socketcanApp/src/ecmcSocketCANWrap.cpp: the C functions around the one ecmcSocketCAN.
-- `deleted` is the pointer `can` after `delete`, which does not reset it: a call through it is a
-- fault. Printouts and the constant port name are left out.
pub mod Shell
pub mod Commands
pub mod Register
pub mod Arguments
pub mod Tests
use e3_ecmc_plugin_socketcan.Common.{ℕ, Bool, true, false, Option, none, some, List, if◌then◌else◌}
use e3_ecmc_plugin_socketcan.Common.Memory.{Outcome, done, fault, ◌>>=◌}
use e3_ecmc_plugin_socketcan.Common.Attempt.{Attempt, ok, thrown, crashed}
use e3_ecmc_plugin_socketcan.WriteBuffer.{WriteBuffer}
use e3_ecmc_plugin_socketcan.SocketCan
use e3_ecmc_plugin_socketcan.SocketCan.Cycle
use e3_ecmc_plugin_socketcan.SocketCan.{
  SocketCan, Interface, new_socket_can, connect_external, get_connected,
}

abbrev pub plugin_error_code : ℕ
plugin_error_code = 1

-- What the pointer `can` points to.
pub data Can : Type 0 where
  null deleted : Can
  live : SocketCan → Can

-- `delete can`.
unfoldable pub delete_object : Can → Outcome Can
delete_object null = done null
delete_object deleted = fault
delete_object (live s) = done deleted

-- Behind the constructor: if it throws, `can` still points to the object before, which is deleted.
unfoldable pub assign_created : Attempt SocketCan → Can → Outcome (ℕ × Can)
unfolding delete_object
assign_created (ok s) can = done (0, live s)
assign_created (thrown e) can = delete_object can >>= λ c. done (plugin_error_code, c)
assign_created crashed can = fault

unfoldable pub create_socket_can :
    Option (List ℕ) → ℕ → Bool → Bool → Bool → Interface → Can → Outcome (ℕ × Can)
create_socket_can config_str exe_sample_time_ms read_thread connect_thread write_thread i can =
    assign_created
      (new_socket_can config_str exe_sample_time_ms read_thread connect_thread write_thread i) can

unfoldable pub connect_socket_can : Can → Outcome (ℕ × Can)
connect_socket_can null = done (plugin_error_code, null)
connect_socket_can deleted = fault
connect_socket_can (live s) = done (0, live (connect_external s))

unfoldable pub get_socket_can_connectd : Can → Outcome Bool
get_socket_can_connectd null = done false
get_socket_can_connectd deleted = fault
get_socket_can_connectd (live s) = done (get_connected s)

-- The object with another write buffer, whose pointer is never NULL here.
unfoldable pub with_buffer : Option WriteBuffer → SocketCan → SocketCan
with_buffer none s = s
with_buffer (some b) s = record s { write_buffer = b }

unfoldable pub getlast_writes_error : Can → Outcome (ℕ × Can)
unfolding with_buffer
getlast_writes_error null = done (1, null)
getlast_writes_error deleted = fault
getlast_writes_error (live s) =
    let (code, b) = SocketCan.Cycle.getlast_writes_error (some s.write_buffer) in
    done (code, live (with_buffer b s))

unfoldable pub execute : Can → Outcome (ℕ × Can)
execute null = done (0, null)
execute deleted = fault
execute (live s) = SocketCan.Cycle.execute s >>= λ s'. done (0, live s')

unfoldable pub delete_socket_can : Can → Outcome Can
unfolding delete_object
delete_socket_can can = delete_object can

-- A double, and its conversions to uint32_t and to uint8_t.
module _ {D : Type 0} (to_uint32 to_uint8 : D → ℕ) where
  unfoldable pub add_write_socket_can :
      D → D → D → D → D → D → D → D → D → D → Can → Outcome (ℕ × Can)
  unfolding with_buffer
  add_write_socket_can can_id len d0 d1 d2 d3 d4 d5 d6 d7 null = done (plugin_error_code, null)
  add_write_socket_can can_id len d0 d1 d2 d3 d4 d5 d6 d7 deleted = fault
  add_write_socket_can can_id len d0 d1 d2 d3 d4 d5 d6 d7 (live s) =
      let (code, b) =
        SocketCan.Cycle.add_write_can (to_uint32 can_id) (to_uint8 len) (to_uint8 d0) (to_uint8 d1)
          (to_uint8 d2) (to_uint8 d3) (to_uint8 d4) (to_uint8 d5) (to_uint8 d6) (to_uint8 d7)
          (some s.write_buffer) in
      done (code, live (with_buffer b s))
