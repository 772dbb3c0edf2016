-- ===== src/SocketCan/Table.antt =====
-- The devices of ecmcSocketCAN: adding them, and adding objects to them. An exception leaves the object
-- as it was.
use e3_ecmc_plugin_socketcan.Common.{
  ℕ, ◌+◌, Bool, true, false, not, Option, none, some, List, [], ◌∷◌, ◌++◌, ltb, ◌==◌, if◌then◌else◌,
  length, set,
}
use e3_ecmc_plugin_socketcan.Common.Int.{is_true, ℤ, is_pos, pos_part}
use e3_ecmc_plugin_socketcan.Common.Attempt.{
  Attempt, ok, thrown, ◌>>=◌, lift, out_of_range, runtime_error,
}
use e3_ecmc_plugin_socketcan.Defs.{Direction}
use e3_ecmc_plugin_socketcan.Device
use e3_ecmc_plugin_socketcan.Device.{Device, new_device}
use e3_ecmc_plugin_socketcan.Device.Master.{new_master}
use e3_ecmc_plugin_socketcan.SocketCan.{SocketCan, max_devices}

-- Throws unless the test holds.
abbrev require : Bool → Attempt (Unit {0}) → Attempt (Unit {0})
require true e = ok tt
require false e = e

abbrev pub append_device : Device → SocketCan → SocketCan
append_device d s = record s { devices = s.devices ++ (d ∷ []) }

-- What addMaster checks before it makes the master, in its order.
unfoldable pub check_master : ℕ → ℤ → ℤ → ℤ → SocketCan → Attempt (Unit {0})
check_master node_id lss sync heart s = do
  m ← require (not s.master_dev) (thrown runtime_error)
  r ← require (ltb (length s.devices) max_devices) (thrown out_of_range)
  n ← require (ltb node_id 128) (thrown out_of_range)
  l ← require (is_pos lss) (thrown out_of_range)
  y ← require (is_pos sync) (thrown out_of_range)
  require (is_pos heart) (thrown out_of_range)

-- The master's constructor throws a runtime_error if an object cannot be added.
unfoldable pub constructed : Option Device → Attempt Device
constructed none = thrown runtime_error
constructed (some d) = ok d

unfoldable pub add_master : ℕ → ℤ → ℤ → ℤ → SocketCan → Attempt SocketCan
unfolding constructed
add_master node_id lss sync heart s = do
  checked ← check_master node_id lss sync heart s
  made ← lift (
      new_master node_id s.exe_sample_time_ms (pos_part lss) (pos_part sync) (pos_part heart)
        (is_true s.config.dbg_mode))
  d ← constructed made
  ok (record (append_device d s) { master_dev = true })

unfoldable pub add_device : ℕ → ℕ → SocketCan → Attempt SocketCan
add_device node_id heart_timeout_ms s = do
  r ← require (ltb (length s.devices) max_devices) (thrown out_of_range)
  n ← require (ltb node_id 128) (thrown out_of_range)
  ok (
      append_device
        (new_device node_id s.exe_sample_time_ms heart_timeout_ms (is_true s.config.dbg_mode)) s)

-- The first device with the node id, and its index; `none` is -1.
unfoldable pub find_device_with_node_id : ℕ → List Device → Option (ℕ × Device)
find_device_with_node_id node_id [] = none
find_device_with_node_id node_id (d ∷ ds) =
    let later : Option (ℕ × Device) = elim (find_device_with_node_id node_id ds) [
      | none ↦ none
      | some r ↦ some (r.0 + 1, r.1)
    ] in
    if d.node_id == node_id then some (0, d) else later

unfoldable pub found : Option (ℕ × Device) → Attempt (ℕ × Device)
found none = thrown out_of_range
found (some r) = ok r

-- The device at an index, after a call with a code.
unfoldable pub put_device : ℕ → ℕ × Device → SocketCan → Attempt SocketCan
put_device i (code, d) s =
    if code == 0 then ok (record s { devices = set s.devices i d }) else thrown runtime_error

unfoldable pub add_pdo : ℕ → ℕ → Direction → ℕ → ℕ → ℕ → SocketCan → Attempt SocketCan
unfolding found
add_pdo node_id cob_id rw od_size read_timeout_ms write_cycle_ms s = do
  (i, d) ← found (find_device_with_node_id node_id s.devices)
  put_device i (Device.add_pdo cob_id rw od_size read_timeout_ms write_cycle_ms d) s

unfoldable pub add_sdo : ℕ → ℕ → ℕ → Direction → ℕ → ℕ → ℕ → ℕ → SocketCan → Attempt SocketCan
unfolding found
add_sdo node_id cob_id_tx cob_id_rx rw od_index od_sub_index od_size read_sample_time_ms s = do
  (i, d) ← found (find_device_with_node_id node_id s.devices)
  put_device i
      (Device.add_sdo cob_id_tx cob_id_rx rw od_index od_sub_index od_size read_sample_time_ms d) s
