-- ===== src/SocketCan.antt =====
-- ecmc_plugin_socketcanApp/src/ecmcSocketCAN.{h,cpp}: the object that owns the socket, the write buffer
-- and the devices. `devices` is the first deviceCounter_ entries of the array, which are never NULL.
-- What the kernel answers to socket(), bind() and read() is given with each call, and so is whether
-- a thread could be made. `error_param` and `connected_param` are what refreshParamRT last published.
-- `write_socket` is the socket that the write buffer was made with. Printouts are left out.
pub mod Cycle
pub mod Table
pub mod Invariant
pub mod Asyn
pub mod Find
pub mod Adds
pub mod Keeps
pub mod Steps
pub mod Run
pub mod Connect
pub mod Sends
pub mod SameBuffer
pub mod Explains
pub mod Refinement
pub mod Tests
use e3_ecmc_plugin_socketcan.Common.{
  ℕ, zero, suc, ◌+◌, Bool, true, false, not, Option, none, some, List, [], ◌∷◌, ◌++◌, leb, ltb,
  ◌==◌, if◌then◌else◌, length, set,
}
use e3_ecmc_plugin_socketcan.Common.Int.{ℤ, is_pos, is_true, pos_part}
use e3_ecmc_plugin_socketcan.Common.Memory.{Outcome, done, fault}
use e3_ecmc_plugin_socketcan.Common.Attempt.{
  Attempt, ok, thrown, crashed, ◌>>=◌, lift, Exception, out_of_range, runtime_error,
}
use e3_ecmc_plugin_socketcan.Config.{Config, parse_config_str}
use e3_ecmc_plugin_socketcan.Defs.{Direction}
use e3_ecmc_plugin_socketcan.Frame.{Frame}
use e3_ecmc_plugin_socketcan.WriteBuffer
use e3_ecmc_plugin_socketcan.WriteBuffer.{
  WriteBuffer, new_write_buffer, construct_write_buffer, add_write_can_bytes,
  getlast_writes_error_and_reset, frame_size,
}
use e3_ecmc_plugin_socketcan.Sink.{FrameSink, write_buffer_sink}
use e3_ecmc_plugin_socketcan.Device
use e3_ecmc_plugin_socketcan.Device.{Device, new_device}
use e3_ecmc_plugin_socketcan.Device.Master.{new_master}

abbrev pub max_devices : ℕ
max_devices = 128

abbrev pub error_write_buffer_null : ℕ
error_write_buffer_null = 14

abbrev pub error_read_incomplete : ℕ
error_read_incomplete = 15

-- The size of ifr_name, which <net/if.h> documents as IFNAMSIZ.
abbrev pub ifnamsiz : ℕ
ifnamsiz = 16

pub record SocketCan : Type 0 where
  pub config : Config
  pub exe_sample_time_ms : ℕ
  pub connected : Bool
  pub socket_id : Option ℕ
  pub connect_event : Bool
  pub destructs : Bool
  pub write_buffer : WriteBuffer
  pub write_socket : Option ℕ
  pub devices : List Device
  pub master_dev : Bool
  pub error_code : ℕ
  pub refresh_needed : Bool
  pub error_param : ℕ
  pub connected_param : Bool

-- What the kernel answers when the interface is opened: a socket id or -1, and whether bind() works.
pub record Interface : Type 0 where
  pub socket : Option ℕ
  pub binds : Bool

-- What read() answers: -1 with errno set, or a number of bytes and the frame.
pub data ReadReply : Type 0 where
  failed : ℕ → ReadReply
  got : ℕ → Frame → ReadReply

-- strcpy to ifr_name leaves the block if the name does not fit.
unfoldable pub copy_if_name : Option (List ℕ) → Attempt (Unit {0})
copy_if_name none = crashed
copy_if_name (some name) = if ltb (length name) ifnamsiz then ok tt else crashed

unfoldable pub connect_private : Interface → SocketCan → Attempt SocketCan
unfolding copy_if_name
connect_private i s = elim i.socket [
  | none ↦ thrown runtime_error
  | some id ↦ copy_if_name s.config.can_if_str >>= λ _.
      (if i.binds
        then ok (record s { socket_id = some id; connected = true })
        else thrown runtime_error)
]

abbrev before_connect : Config → ℕ → SocketCan
before_connect c exe_sample_time_ms = record {
  config = c;
  exe_sample_time_ms = exe_sample_time_ms;
  connected = false;
  socket_id = none;
  connect_event = false;
  destructs = false;
  write_buffer = new_write_buffer;
  write_socket = none;
  devices = [];
  master_dev = false;
  error_code = 0;
  refresh_needed = false;
  error_param = 0;
  connected_param = false;
}

-- The test for the interface, the two threads, the connection, and then the write buffer with its
-- asyn parameters, which Asyn/Commands joins to it.
unfoldable pub start_threads : Config → Bool → Bool → Attempt (Unit {0})
start_threads c read_thread connect_thread = elim c.can_if_str [
  | none ↦ thrown out_of_range
  | some name ↦
      if read_thread
      then (if connect_thread then ok tt else thrown runtime_error)
      else thrown runtime_error
]

unfoldable pub new_socket_can :
    Option (List ℕ) → ℕ → Bool → Bool → Bool → Interface → Attempt SocketCan
unfolding start_threads construct_write_buffer
new_socket_can config_str exe_sample_time_ms read_thread connect_thread write_thread i = do
  c ← parse_config_str config_str
  started ← start_threads c read_thread connect_thread
  let s0 : SocketCan = before_connect c exe_sample_time_ms
  s ← (if is_true c.auto_connect then connect_private i s0 else ok s0)
  written ← construct_write_buffer write_thread
  ok (record s {
    write_buffer = written;
    write_socket = s.socket_id;
    connected_param = s.connected;
  })

-- The destructor tells the threads to stop; the memory it frees is left out.
unfoldable pub destruct : SocketCan → SocketCan
destruct s = record s { destructs = true; connect_event = true }

unfoldable pub connect_external : SocketCan → SocketCan
connect_external s = if s.connected then s else record s { connect_event = true }

pub get_connected : SocketCan → Bool
get_connected s = s.connected

-- An exception that leaves a thread's function ends the process.
unfoldable pub uncaught : Attempt SocketCan → Outcome SocketCan
uncaught (ok s) = done s
uncaught (thrown e) = fault
uncaught crashed = fault

-- A round of doConnectWorker: it waits until the event is signalled.
unfoldable pub connect_worker_step : Interface → SocketCan → Outcome SocketCan
unfolding uncaught
connect_worker_step i s =
    if s.destructs
    then done s
    else (if s.connect_event
        then uncaught (connect_private i (record s { connect_event = false }))
        else done s)
