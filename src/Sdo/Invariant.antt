-- ===== src/Sdo/Invariant.antt =====
-- What holds of an ecmcCANOpenSDO and the lock between two calls.
use e3_ecmc_plugin_socketcan.Common.{
  ◌^◌, ◌≤◌, ◌<◌, ◌≡◌, refl, ◌⊎◌, true, false, arith, length, length-replicate,
}
use e3_ecmc_plugin_socketcan.Common.Memory.{done}
use e3_ecmc_plugin_socketcan.Defs.{
  dir_write, dir_read, read_idle, read_wait_for_conf, read_wait_for_data, write_idle,
  write_wait_for_conf, write_data,
}
use e3_ecmc_plugin_socketcan.Frame.{IsFrame}
use e3_ecmc_plugin_socketcan.SdoFrames.{SdoConfig, write_data_frame_base}
use e3_ecmc_plugin_socketcan.Printing.{IsPrintable}
use e3_ecmc_plugin_socketcan.Sdo.{Sdo, Shared, Result, new_sdo}

-- The sizes of the blocks. A size is less than 2^31, since the shell command passes an int,
-- and in debug mode even, since printBuffer reads words.
pub record HasSizes (s : Sdo) : Type 0 where
  pub small : s.od_size < 2 ^ 31
  pub buffered : length s.data_buffer ≡ s.od_size
  pub temp : length s.temp_data_buffer ≡ s.od_size
  pub framed : IsFrame s.write_data_frame
  pub addressed : s.write_data_frame.can_id ≡ s.cob_id_rx
  pub recived : s.recived_bytes ≤ s.od_size
  pub written : s.written_bytes ≤ s.od_size
  pub printable : IsPrintable s.config.dbg_mode s.od_size

-- Where the two state machines may stand. While the object is idle, so are both. While it is
-- busy, the machine of its direction waits for a frame, and the other is idle.
pub record InStep (s : Sdo) : Type 0 where
  pub idle_read : s.busy ≡ false → s.read_state ≡ read_idle
  pub idle_write : s.busy ≡ false → s.write_state ≡ write_idle
  pub reads :
      s.busy ≡ true
      → s.rw ≡ dir_read
      → ((s.read_state ≡ read_wait_for_conf) ⊎ (s.read_state ≡ read_wait_for_data))
        × (s.write_state ≡ write_idle)
  pub writes :
      s.busy ≡ true
      → s.rw ≡ dir_write
      → ((s.write_state ≡ write_wait_for_conf) ⊎ (s.write_state ≡ write_data))
        × (s.read_state ≡ read_idle)
  pub only_writes : s.rw ≡ dir_read → s.write_pending ≡ false
  pub counted : s.busy_counter ≤ 1000

-- A busy object holds the lock.
abbrev pub Holds : {B : Type 0} → Sdo → Shared B → Type 0
Holds s w = s.busy ≡ true → w.sdo1_lock ≡ true

pub record IsValid (B : Type 0) (s : Sdo) (w : Shared B) : Type 0 where
  pub sizes : HasSizes s
  pub in_step : InStep s
  pub holds : Holds s w

-- A call ended without a fault, in a state that is valid again.
abbrev pub Ends : {B : Type 0} → Result B → Type 0
Ends {B} r = (s : Sdo) × (w : Shared B) × (r ≡ done (s, w)) × IsValid B s w

pub new_sdo-IsValid :
    {B : Type 0} (c : SdoConfig) (w : Shared B)
    → c.od_size < 2 ^ 31
    → IsPrintable c.dbg_mode c.od_size
    → IsValid B (new_sdo c) w
unfolding new_sdo
new_sdo-IsValid c w h p = record {
  sizes = record {
    small = h;
    buffered = length-replicate (c.od_size) 0;
    temp = length-replicate (c.od_size) 0;
    framed = unfold write_data_frame_base in refl;
    addressed = unfold write_data_frame_base in refl;
    recived = omega arith;
    written = omega arith;
    printable = p;
  };
  in_step = ground arith;
  holds = λ e. cc;
}

pub new_sdo-idle : (c : SdoConfig) → (new_sdo c).busy ≡ false
unfolding new_sdo
new_sdo-idle c = refl
