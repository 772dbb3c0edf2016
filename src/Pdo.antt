-- ===== src/Pdo.antt =====
-- ecmc_plugin_socketcanApp/src/ecmcCANOpenPDO.{h,cpp}: a process data object of a device.
-- Times in ms are numbers, since the callers refuse negative ones; so are counters, whose
-- products with the sample time are taken to fit an int. A memcpy outside a block is a fault. `data_param` and `error_param`
-- are what refreshParamRT last handed to the asyn parameters. Each method is one step, though its mutex
-- guards single copies only. Printouts are left out, but for printBuffer in debug mode.
pub mod Values
pub mod Debug
pub mod Cycle
pub mod Execute
pub mod Sends
pub mod Tests
use e3_ecmc_plugin_socketcan.Common.{
  ℕ, zero, suc, ◌+◌, ◌*◌, ◌/◌, ◌%◌, ◌≡◌, Bool, true, false, List, [], ◌∷◌, leb, ltb, ◌==◌,
  if◌then◌else◌, length, replicate, min,
}
use e3_ecmc_plugin_socketcan.Common.Memory.{Outcome, done, fault, ◌>>=◌, memcpy, memset}
use e3_ecmc_plugin_socketcan.Common.Bytes.{le_bytes, of_le_bytes}
use e3_ecmc_plugin_socketcan.Defs.{Direction, dir_write, dir_read}
use e3_ecmc_plugin_socketcan.Frame.{Frame}
use e3_ecmc_plugin_socketcan.Sink.{FrameSink, put}
use e3_ecmc_plugin_socketcan.Printing.{print_if}

abbrev pub error_pdo_timeout : ℕ
error_pdo_timeout = 100

pub record Pdo : Type 0 where
  pub node_id : ℕ
  pub cob_id : ℕ
  pub rw : Direction
  pub od_size : ℕ
  pub read_timeout_ms : ℕ
  pub write_cycle_ms : ℕ
  pub exe_sample_time_ms : ℕ
  pub dbg_mode : Bool
  pub exe_counter : ℕ
  pub error_code : ℕ
  pub data_buffer : List ℕ
  pub refresh_needed : Bool
  pub write_frame : Frame
  pub data_param : List ℕ
  pub error_param : ℕ

-- The constructor. The `can_dlc` of the write frame is a byte, and is set from the parameter
-- `ODSize`, not from the limited `ODSize_`.
unfoldable pub new_pdo : ℕ → ℕ → Direction → ℕ → ℕ → ℕ → ℕ → Bool → Pdo
new_pdo node_id cob_id rw od_size read_timeout_ms write_cycle_ms exe_sample_time_ms dbg_mode =
    let size = if ltb 8 od_size then 8 else od_size in
    record {
      node_id = node_id;
      cob_id = cob_id;
      rw = rw;
      od_size = size;
      read_timeout_ms = read_timeout_ms;
      write_cycle_ms = write_cycle_ms;
      exe_sample_time_ms = exe_sample_time_ms;
      dbg_mode = dbg_mode;
      exe_counter = 0;
      error_code = 0;
      data_buffer = replicate size 0;
      refresh_needed = false;
      write_frame = record {
        can_id = cob_id;
        can_dlc = od_size % 256;
        payload = 0 ∷ 0 ∷ 0 ∷ 0 ∷ 0 ∷ 0 ∷ 0 ∷ 0 ∷ [];
      };
      data_param = replicate size 0;
      error_param = 0;
    }

pub refresh_asyn_params : Pdo → Pdo
refresh_asyn_params p =
    record (if p.refresh_needed
      then record p { data_param = p.data_buffer; error_param = p.error_code }
      else p) { refresh_needed = false }

pub validate_frame : Pdo → Frame → Bool
validate_frame p frame = if frame.can_id == p.cob_id then frame.can_dlc == p.od_size else false

receive_frame : Frame → Pdo → Outcome Pdo
receive_frame frame p = do
  cleared ← memset p.data_buffer 0 p.od_size
  filled ← memcpy cleared 0 frame.payload 0 frame.can_dlc
  printed ← print_if p.dbg_mode p.od_size filled
  done (record p { data_buffer = filled; refresh_needed = true; error_code = 0 })

pub new_rx_frame : Frame → Pdo → Outcome Pdo
unfolding validate_frame receive_frame
new_rx_frame frame p = elim p.rw [
  | dir_write ↦ done p
  | dir_read ↦ if validate_frame p frame then receive_frame frame p else done p
]

-- `value` is the uint64_t `data`, copied as its bytes.
unfoldable pub set_value : ℕ → Pdo → Outcome Pdo
set_value value p = do
  copied ← memcpy p.data_buffer 0 (le_bytes 8 value) 0 p.od_size
  done (record p { data_buffer = copied })

execute_read : Pdo → Pdo
execute_read p =
    if leb p.read_timeout_ms (p.exe_counter * p.exe_sample_time_ms)
    then record p { error_code = error_pdo_timeout; refresh_needed = true; exe_counter = 0 }
    else p

module _ {B : Type 0} ⦃k : FrameSink B⦄ where
  -- The buffer's error code is returned.
  pub write_value : Pdo → B → Outcome (ℕ × Pdo × B)
  write_value p b = do
    let dlc = p.write_frame.can_dlc
    payload ←
        (if ltb 0 dlc
          then memcpy p.write_frame.payload 0 p.data_buffer 0 dlc
          else done p.write_frame.payload)
    let f = record (p.write_frame) { payload = payload }
    let (code, b') = k.add_write_can f b
    done (code, record p { write_frame = f; refresh_needed = true }, b')

  -- Without a cycle, values are written on demand only, and the parameters are not refreshed here.
  execute_write : Pdo → B → Outcome (Pdo × B)
  unfolding write_value refresh_asyn_params
  execute_write p b =
      if p.write_cycle_ms == 0
      then done (record p { exe_counter = 0 }, b)
      else (if leb p.write_cycle_ms (p.exe_counter * p.exe_sample_time_ms)
          then (write_value p b >>= λ r.
              done (refresh_asyn_params (record (r.1) { exe_counter = 0 }), r.2))
          else done (refresh_asyn_params p, b))

  pub execute : Pdo → B → Outcome (Pdo × B)
  unfolding execute_read execute_write refresh_asyn_params
  execute p b =
      let q : Pdo = record p { exe_counter = p.exe_counter + 1 } in
      elim q.rw [
        | dir_read ↦ done (refresh_asyn_params (execute_read q), b)
        | dir_write ↦ execute_write q b
      ]

  -- asynWritePDOValue: `value` is the block of `bytes` bytes that asyn passes.
  pub asyn_write_pdo_value : List ℕ → Pdo → B → Outcome (Pdo × B)
  unfolding set_value write_value
  asyn_write_pdo_value value p b = do
    temp ← memcpy (le_bytes 8 0) 0 value 0 (if ltb 8 (length value) then 8 else length value)
    q ← set_value (of_le_bytes temp) p
    (code, q', b') ← write_value q b
    done (q', b')
