-- ===== src/SdoFrames.antt =====
-- The fixed part of an ecmcCANOpenSDO: what its constructor is given, and the frames that it
-- prepares and no method changes (ecmc_plugin_socketcanApp/src/ecmcCANOpenSDO.cpp).
-- The object index and the size are copied by memcpy from a uint16_t and a uint32_t of a
-- little-endian machine.
use e3_ecmc_plugin_socketcan.Common.{ℕ, Bool, List, [], ◌∷◌, ◌++◌}
use e3_ecmc_plugin_socketcan.Common.Bytes.{le_bytes}
use e3_ecmc_plugin_socketcan.Defs.{Direction}
use e3_ecmc_plugin_socketcan.Frame.{Frame}

pub record SdoConfig : Type 0 where
  pub node_id : ℕ
  pub cob_id_tx : ℕ
  pub cob_id_rx : ℕ
  pub rw : Direction
  pub od_index : ℕ
  pub od_sub_index : ℕ
  pub od_size : ℕ
  pub read_sample_time_ms : ℕ
  pub exe_sample_time_ms : ℕ
  pub dbg_mode : Bool

-- A frame of 8 data bytes: a command, the index, the subindex and four more bytes.
abbrev object_frame : SdoConfig → ℕ → ℕ → List ℕ → Frame
object_frame c can_id command rest = record {
  can_id = can_id;
  can_dlc = 8;
  payload = command ∷ (le_bytes 2 c.od_index ++ (c.od_sub_index ∷ rest));
}

-- A frame of 8 data bytes: a command and zeros.
abbrev command_frame : ℕ → ℕ → Frame
command_frame can_id command = record {
  can_id = can_id;
  can_dlc = 8;
  payload = command ∷ 0 ∷ 0 ∷ 0 ∷ 0 ∷ 0 ∷ 0 ∷ 0 ∷ [];
}

abbrev zeros : List ℕ
zeros = 0 ∷ 0 ∷ 0 ∷ 0 ∷ []

module _ (c : SdoConfig) where
  -- Request data (send on slave RX).
  unfoldable pub read_req_transfer_frame : Frame
  read_req_transfer_frame = object_frame c c.cob_id_rx 0x40 zeros

  -- Confirm, toggle 0 and toggle 1.
  unfoldable pub read_conf_req_frame_tg0 : Frame
  read_conf_req_frame_tg0 = object_frame c c.cob_id_rx 0x61 zeros

  unfoldable pub read_conf_req_frame_tg1 : Frame
  read_conf_req_frame_tg1 = object_frame c c.cob_id_rx 0x71 zeros

  -- The slave's answer to a request: the size must be the expected one.
  unfoldable pub read_slave_conf_frame : Frame
  read_slave_conf_frame = object_frame c c.cob_id_tx 0x41 (le_bytes 4 c.od_size)

  -- Request a write to the slave.
  unfoldable pub write_req_transfer_frame : Frame
  write_req_transfer_frame = object_frame c c.cob_id_rx 0x21 (le_bytes 4 c.od_size)

  unfoldable pub write_slave_conf_cmd_frame : Frame
  write_slave_conf_cmd_frame = object_frame c c.cob_id_tx 0x60 zeros

  -- The data frame before the first segment.
  unfoldable pub write_data_frame_base : Frame
  write_data_frame_base = command_frame c.cob_id_rx 0

  -- The slave's confirmation of a data frame, toggle 0 and toggle 1.
  unfoldable pub write_conf_req_frame_tg0 : Frame
  write_conf_req_frame_tg0 = command_frame c.cob_id_tx 0x20

  unfoldable pub write_conf_req_frame_tg1 : Frame
  write_conf_req_frame_tg1 = command_frame c.cob_id_tx 0x30
