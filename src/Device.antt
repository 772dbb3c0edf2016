-- ===== src/Device.antt =====
-- ecmc_plugin_socketcanApp/src/ecmcCANOpenDevice.{h,cpp} and ecmcCANOpenMaster.{h,cpp}: a node of the
-- bus with its objects, and the master, which is a device that sends lss, sync and heartbeat.
-- `pdos` and `sdos` are the first pdoCounter_ and sdoCounter_ entries of the arrays, which are never
-- NULL. `nmt_param` is what refreshParam last handed to the asyn parameter nmtActParam_, which the
-- constructor makes (it throws if it cannot). The unused errorCode_ and exeCounter_ are left out.
pub mod Lock
pub mod Run
pub mod Tests
pub mod Nmt
pub mod Master
pub mod Identity
pub mod Sends
pub mod Asyn
use e3_ecmc_plugin_socketcan.Common.{
  ℕ, ◌+◌, ◌*◌, ◌%◌, ◌^◌, Bool, true, false, not, ◌&&◌, List, [], ◌∷◌, ◌++◌, leb, ◌==◌,
  if◌then◌else◌, length,
}
use e3_ecmc_plugin_socketcan.Common.Memory.{Outcome, done, ◌>>=◌}
use e3_ecmc_plugin_socketcan.Defs.{
  Direction, dir_write, NmtState, nmt_not_valid, nmt_boot_up, nmt_stopped, nmt_op,
}
use e3_ecmc_plugin_socketcan.Frame.{Frame, byte}
use e3_ecmc_plugin_socketcan.Sink.{FrameSink}
use e3_ecmc_plugin_socketcan.SdoFrames.{SdoConfig}
use e3_ecmc_plugin_socketcan.Pdo
use e3_ecmc_plugin_socketcan.Pdo.{Pdo, new_pdo}
use e3_ecmc_plugin_socketcan.Sdo
use e3_ecmc_plugin_socketcan.Sdo.Methods
use e3_ecmc_plugin_socketcan.Sdo.{Sdo, Shared, new_sdo}

abbrev pub device_pdo_max_count : ℕ
device_pdo_max_count = 8

abbrev pub device_sdo_max_count : ℕ
device_sdo_max_count = 8

abbrev pub pdo_index_out_of_range : ℕ
pdo_index_out_of_range = 1000

abbrev pub sdo_index_out_of_range : ℕ
sdo_index_out_of_range = 1001

abbrev pub nmt_base : ℕ
nmt_base = 0x700

pub record Device : Type 0 where
  pub node_id : ℕ
  pub exe_sample_time_ms : ℕ
  pub heart_timeout_ms : ℕ
  pub dbg_mode : Bool
  pub heart_beat_counter : ℕ
  pub is_master : Bool
  pub nmt_state : NmtState
  pub nmt_state_old : NmtState
  pub nmt_param : NmtState
  pub pdos : List Pdo
  pub sdos : List Sdo
  pub sdo1_lock : Bool

unfoldable pub new_device : ℕ → ℕ → ℕ → Bool → Device
new_device node_id exe_sample_time_ms heart_timeout_ms dbg_mode = record {
  node_id = node_id;
  exe_sample_time_ms = exe_sample_time_ms;
  heart_timeout_ms = heart_timeout_ms;
  dbg_mode = dbg_mode;
  heart_beat_counter = 0;
  is_master = false;
  nmt_state = nmt_not_valid;
  nmt_state_old = nmt_not_valid;
  nmt_param = nmt_not_valid;
  pdos = [];
  sdos = [];
  sdo1_lock = false;
}

-- Is the frame from this node? `can_id & 0x7F`.
pub validate_frame : Device → Frame → Bool
validate_frame d frame = frame.can_id % 128 == d.node_id

-- The state that the first byte of an NMT frame reports.
unfoldable pub reported_state : ℕ → NmtState
reported_state code =
    if code == 0x0
    then nmt_boot_up
    else (if code == 0x4
        then nmt_stopped
        else (if code == 0x5
            then nmt_op
            else (if code == 0x7F then nmt_boot_up else nmt_not_valid)))

same_state : NmtState → NmtState → Bool
same_state nmt_not_valid nmt_not_valid = true
same_state nmt_boot_up nmt_boot_up = true
same_state nmt_stopped nmt_stopped = true
same_state nmt_op nmt_op = true
same_state NmtState.nmt_preop NmtState.nmt_preop = true
same_state _ _ = false

-- The parameter is refreshed if the state is new.
pub check_nmt : Frame → Device → Device
unfolding reported_state same_state
check_nmt frame d =
    let state : NmtState =
      if frame.can_dlc == 1 then reported_state (byte frame 0) else d.nmt_state in
    if frame.can_id == (nmt_base + d.node_id) % 2 ^ 32
    then record d {
      nmt_state = state;
      heart_beat_counter = 0;
      nmt_param = if same_state state d.nmt_state_old then d.nmt_param else state;
      nmt_state_old = state;
    }
    else d

-- The heartbeat timeout of execute.
unfoldable pub check_heart_beat : Device → Device
check_heart_beat d =
    if leb d.heart_timeout_ms (d.heart_beat_counter * d.exe_sample_time_ms)
    then record d {
      nmt_state_old = d.nmt_state;
      nmt_state = nmt_not_valid;
      nmt_param = nmt_not_valid;
    }
    else record d { heart_beat_counter = d.heart_beat_counter + 1 }

unfoldable pub add_pdo : ℕ → Direction → ℕ → ℕ → ℕ → Device → ℕ × Device
add_pdo cob_id rw od_size read_timeout_ms write_cycle_ms d =
    let p =
      new_pdo d.node_id cob_id rw od_size read_timeout_ms write_cycle_ms d.exe_sample_time_ms
        d.dbg_mode in
    if leb device_pdo_max_count (length d.pdos)
    then (pdo_index_out_of_range, d)
    else (0, record d { pdos = d.pdos ++ (p ∷ []) })

unfoldable pub add_sdo : ℕ → ℕ → Direction → ℕ → ℕ → ℕ → ℕ → Device → ℕ × Device
add_sdo cob_id_tx cob_id_rx rw od_index od_sub_index od_size read_sample_time_ms d =
    let c : SdoConfig = record {
      node_id = d.node_id;
      cob_id_tx = cob_id_tx;
      cob_id_rx = cob_id_rx;
      rw = rw;
      od_index = od_index;
      od_sub_index = od_sub_index;
      od_size = od_size;
      read_sample_time_ms = read_sample_time_ms;
      exe_sample_time_ms = d.exe_sample_time_ms;
      dbg_mode = d.dbg_mode;
    } in
    if leb device_sdo_max_count (length d.sdos)
    then (sdo_index_out_of_range, d)
    else (0, record d { sdos = d.sdos ++ (new_sdo c ∷ []) })

pub new_rx_frame_pdos : Frame → List Pdo → Outcome (List Pdo)
new_rx_frame_pdos frame [] = done []
new_rx_frame_pdos frame (p ∷ ps) = do
  q ← Pdo.new_rx_frame frame p
  qs ← new_rx_frame_pdos frame ps
  done (q ∷ qs)

module _ {B : Type 0} ⦃k : FrameSink B⦄ where
  pub execute_pdos : List Pdo → B → Outcome (List Pdo × B)
  execute_pdos [] b = done ([], b)
  execute_pdos (p ∷ ps) b = do
    (q, b1) ← Pdo.execute p b
    (qs, b2) ← execute_pdos ps b1
    done (q ∷ qs, b2)

  pub execute_sdos : List Sdo → Shared B → Outcome (List Sdo × Shared B)
  execute_sdos [] w = done ([], w)
  execute_sdos (s ∷ ss) w = do
    (t, w1) ← Sdo.Methods.execute s w
    (ts, w2) ← execute_sdos ss w1
    done (t ∷ ts, w2)

  pub new_rx_frame_sdos : Frame → List Sdo → Shared B → Outcome (List Sdo × Shared B)
  new_rx_frame_sdos frame [] w = done ([], w)
  new_rx_frame_sdos frame (s ∷ ss) w = do
    (t, w1) ← Sdo.Methods.new_rx_frame frame s w
    (ts, w2) ← new_rx_frame_sdos frame ss w1
    done (t ∷ ts, w2)

  -- The lock, and the write buffer that all devices share.
  abbrev pub shared : Device → B → Shared B
  shared d b = record { sdo1_lock = d.sdo1_lock; write_buffer = b }

  pub execute : Device → B → Outcome (Device × B)
  unfolding check_heart_beat
  execute d b = do
    (ps, b1) ← execute_pdos d.pdos b
    (ss, w) ← execute_sdos d.sdos (shared d b1)
    done (
      check_heart_beat (record d { pdos = ps; sdos = ss; sdo1_lock = w.sdo1_lock }),
      w.write_buffer,
    )

  pub new_rx_frame : Frame → Device → B → Outcome (Device × B)
  unfolding check_nmt validate_frame
  new_rx_frame frame d b =
      let forwarded : Outcome (Device × B) = do
        ps ← new_rx_frame_pdos frame d.pdos
        (ss, w) ← new_rx_frame_sdos frame d.sdos (shared d b)
        let d' : Device = record d { pdos = ps; sdos = ss; sdo1_lock = w.sdo1_lock }
        done (if d'.is_master then d' else check_nmt frame d', w.write_buffer)
      in if not (validate_frame d frame) && not d.is_master then done (d, b) else forwarded
