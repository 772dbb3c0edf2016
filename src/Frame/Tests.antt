-- ===== src/Frame/Tests.antt =====
-- A comparison of two frames.
use e3_ecmc_plugin_socketcan.Common.{◌≡◌, refl, true, ◌↔◌}
use e3_ecmc_plugin_socketcan.Frame.{Frame, frame_equal, zero_frame}
use e3_ecmc_plugin_socketcan.Frame.Equal.{frame_equal_iff}

abbrev sync_frame : Frame
sync_frame = record zero_frame { can_id = 0x80 }

frame_equal_iff_example : (frame_equal sync_frame zero_frame ≡ true) ↔ (sync_frame ≡ zero_frame)
frame_equal_iff_example = frame_equal_iff sync_frame zero_frame refl refl
