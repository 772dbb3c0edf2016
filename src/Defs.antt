-- ===== src/Defs.antt =====
-- The enumerations of ecmc_plugin_socketcanApp/src/ecmcSocketCANDefs.h.
use e3_ecmc_plugin_socketcan.Common.{◌≡◌, refl, ◌⊎◌, inl, inr}

pub data Direction : Type 0 where
  dir_write dir_read : Direction

pub Direction-cases : (d : Direction) → (d ≡ dir_write) ⊎ (d ≡ dir_read)
Direction-cases dir_write = inl refl
Direction-cases dir_read = inr refl

pub data ReadState : Type 0 where
  read_idle read_req_transfer read_wait_for_conf read_wait_for_data : ReadState

pub data WriteState : Type 0 where
  write_idle write_req_transfer write_wait_for_conf write_data : WriteState

pub data NmtState : Type 0 where
  nmt_not_valid nmt_boot_up nmt_stopped nmt_op nmt_preop : NmtState
