-- ===== src/Sink.antt =====
-- What the CANopen objects see of the write buffer: its addWriteCAN(can_frame*).
pub mod Sends
use e3_ecmc_plugin_socketcan.Common.{ℕ}
use e3_ecmc_plugin_socketcan.Frame.{Frame}
use e3_ecmc_plugin_socketcan.WriteBuffer.{WriteBuffer, add_write_can}

-- The call returns an error code, 0 for none, and the buffer after it.
pub record FrameSink (B : Type 0) : Type 0 where
  pub add_write_can : Frame → B → ℕ × B

-- A call whose error code is not looked at.
abbrev pub put : {B : Type 0} ⦃k : FrameSink B⦄ → Frame → B → B
put ⦃k⦄ f b = (k.add_write_can f b).1

-- The implementation.
instance abbrev pub write_buffer_sink : FrameSink WriteBuffer
write_buffer_sink = record { add_write_can = add_write_can }
