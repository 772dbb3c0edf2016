-- ===== src/Sdo.antt =====
-- ecmc_plugin_socketcanApp/src/ecmcCANOpenSDO.{h,cpp}: a service data object, which is read or
-- written by segmented transfers. Each method is one step, though its
-- mutexes guard single copies and the test of the lock only. Counters and times are numbers
-- (the callers refuse negative times); uint32_t sums wrap. A memcpy outside a block is a fault.
-- `data_param` and `error_param` are what refreshParamRT last handed to the asyn parameters.
-- Printouts are left out, but for printBuffer in debug mode.
pub mod Methods
pub mod Invariant
pub mod Steps
pub mod Segments
pub mod Reads
pub mod Frames
pub mod Awaits
pub mod Upload
pub mod Slave
pub mod Download
pub mod Timeout
pub mod Run
pub mod Sends
pub mod Tests
pub mod Balance
use e3_ecmc_plugin_socketcan.Common.{
  ℕ, zero, suc, ◌+◌, ◌*◌, ◌-◌, ◌%◌, ◌^◌, ◌≡◌, Bool, true, false, not, ◌&&◌, List, [], ◌∷◌, leb, ltb,
  ◌==◌, if◌then◌else◌, length, replicate, get_or, set,
}
use e3_ecmc_plugin_socketcan.Common.Memory.{Outcome, done, fault, ◌>>=◌, memcpy, memset}
use e3_ecmc_plugin_socketcan.Defs.{
  Direction, dir_write, dir_read, ReadState, read_idle, read_req_transfer, read_wait_for_conf,
  read_wait_for_data, WriteState, write_idle, write_req_transfer, write_wait_for_conf, write_data,
}
use e3_ecmc_plugin_socketcan.Frame.{Frame, frame_equal}
use e3_ecmc_plugin_socketcan.Sink.{FrameSink, put}
use e3_ecmc_plugin_socketcan.SdoFrames.{
  SdoConfig, read_req_transfer_frame, read_conf_req_frame_tg0, read_conf_req_frame_tg1,
  read_slave_conf_frame, write_req_transfer_frame, write_slave_conf_cmd_frame,
  write_data_frame_base, write_conf_req_frame_tg0, write_conf_req_frame_tg1,
}

abbrev pub transfer_max_bytes : ℕ
transfer_max_bytes = 7

abbrev pub sdo_reply_timout_ms : ℕ
sdo_reply_timout_ms = 1000

abbrev pub error_sdo_write_busy : ℕ
error_sdo_write_busy = 110

abbrev pub error_sdo_timeout : ℕ
error_sdo_timeout = 111

pub record Sdo : Type 0 where
  pub config : SdoConfig
  pub open config use *
  pub exe_counter : ℕ
  pub error_code : ℕ
  pub data_buffer : List ℕ
  pub temp_data_buffer : List ℕ
  pub recived_bytes : ℕ
  pub written_bytes : ℕ
  pub use_tg1_frame : Bool
  pub read_state : ReadState
  pub write_state : WriteState
  pub busy_counter : ℕ
  pub busy : Bool
  pub write_pending : Bool
  pub refresh_needed : Bool
  pub write_data_frame : Frame
  pub data_param : List ℕ
  pub error_param : ℕ

-- What a device's objects share: `*ptrSdo1Lock_` and the write buffer.
pub record Shared (B : Type 0) : Type 0 where
  pub sdo1_lock : Bool
  pub write_buffer : B

abbrev pub Result : Type 0 → Type 0
Result B = Outcome (Sdo × Shared B)

-- A method that returns a code.
abbrev pub CodeResult : Type 0 → Type 0
CodeResult B = Outcome (ℕ × Sdo × Shared B)

unfoldable pub new_sdo : SdoConfig → Sdo
new_sdo c = record {
  config = c;
  exe_counter = 0;
  error_code = 0;
  data_buffer = replicate (c.od_size) 0;
  temp_data_buffer = replicate (c.od_size) 0;
  recived_bytes = 0;
  written_bytes = 0;
  use_tg1_frame = true;
  read_state = read_idle;
  write_state = write_idle;
  busy_counter = 0;
  busy = false;
  write_pending = false;
  refresh_needed = false;
  write_data_frame = write_data_frame_base c;
  data_param = replicate (c.od_size) 0;
  error_param = 0;
}

pub refresh_asyn_params : Sdo → Sdo
refresh_asyn_params s =
    record (if s.refresh_needed
      then record s { data_param = s.data_buffer; error_param = s.error_code }
      else s) { refresh_needed = false }

-- An `int` that is negative becomes a large size_t; `n` is its bit pattern.
abbrev pub to_size : ℕ → ℕ
to_size n = if ltb n (2 ^ 31) then n else n + (2 ^ 64 - 2 ^ 32)

-- `int bytesToRead = can_dlc - 1`, limited to 7, as its bit pattern.
pub bytes_to_read : ℕ → ℕ
bytes_to_read dlc =
    let n = (dlc + (2 ^ 32 - 1)) % 2 ^ 32 in
    if ltb n (2 ^ 31) && ltb transfer_max_bytes n then transfer_max_bytes else n

-- `int bytesToWrite = ODSize_ - writtenBytes_`, limited to 7; 0 if it is negative.
pub bytes_to_write : ℕ → ℕ → ℕ
bytes_to_write od_size written =
    let n = (od_size + (2 ^ 32 - written)) % 2 ^ 32 in
    if ltb n (2 ^ 31) then (if ltb transfer_max_bytes n then transfer_max_bytes else n) else 0

-- writeCmdByte: bit 0 is `c`, bits 1 to 3 `nnn`, bit 4 `t`.
pub write_cmd_byte : Bool → ℕ → Bool → ℕ
write_cmd_byte c nnn t = (if c then 1 else 0) + 2 * nnn + (if t then 16 else 0)

pub set_value : List ℕ → Sdo → Outcome Sdo
set_value value s =
    let bytes_to_copy : ℕ =
      if ltb s.od_size (length value) then s.od_size else length value % 2 ^ 32 in
    let copied : Outcome Sdo = do
      temp ← memcpy s.temp_data_buffer 0 value 0 s.od_size
      done (record s { temp_data_buffer = temp })
    in if bytes_to_copy == 0 then done s else copied
