-- ===== src/SocketCan/Sends.antt =====
-- What ecmcSocketCAN does with its write buffer: it calls addWriteCAN and getlastWritesErrorAndReset.
use e3_ecmc_plugin_socketcan.Common.{List, [], ◌∷◌, arith}
use e3_ecmc_plugin_socketcan.Common.Memory.{Outcome}
use e3_ecmc_plugin_socketcan.Frame.{Frame}
use e3_ecmc_plugin_socketcan.WriteBuffer
use e3_ecmc_plugin_socketcan.WriteBuffer.{WriteBuffer, getlast_writes_error_and_reset, frame_size}
use e3_ecmc_plugin_socketcan.Sink.{FrameSink, write_buffer_sink}
use e3_ecmc_plugin_socketcan.Sink.Sends.{Leaves, then-Leaves, turn-Leaves}
use e3_ecmc_plugin_socketcan.Device
use e3_ecmc_plugin_socketcan.Device.{Device}
use e3_ecmc_plugin_socketcan.SocketCan.{SocketCan, ReadReply, failed, got}
use e3_ecmc_plugin_socketcan.SocketCan.Cycle.{
  execute_devices, new_rx_frame_devices, execute, dispatch, received, publish_write_error,
  refresh_asyn_params, read_worker_step, getlast_writes_error,
}

module _ {B : Type 0} ⦃k : FrameSink B⦄ (P : B → Type 0)
    (closed : (f : Frame) (b : B) → P b → P (k.add_write_can f b).1) where
  execute_devices-Leaves :
      (ds : List Device) (b : B) → P b → Leaves P (λ r. r.1) (execute_devices ds b)
  unfolding execute_devices
  execute_devices-Leaves [] b h = h
  execute_devices-Leaves (d ∷ ds) b h =
      then-Leaves P (λ r. r.1) (λ r. r.1) (Device.execute d b) _
        (Device.Sends.execute-Leaves P closed d b h)
        (λ (r : Device × B) (c : P r.1).
          then-Leaves P (λ q. q.1) (λ q. q.1) (execute_devices ds r.1) _
            (execute_devices-Leaves ds r.1 c) (λ (q : List Device × B) (e : P q.1). e))

  new_rx_frame_devices-Leaves :
      (f : Frame) (ds : List Device) (b : B)
      → P b
      → Leaves P (λ r. r.1) (new_rx_frame_devices f ds b)
  unfolding new_rx_frame_devices
  new_rx_frame_devices-Leaves f [] b h = h
  new_rx_frame_devices-Leaves f (d ∷ ds) b h =
      then-Leaves P (λ r. r.1) (λ r. r.1) (Device.new_rx_frame f d b) _
        (Device.Sends.new_rx_frame-Leaves P closed f d b h)
        (λ (r : Device × B) (c : P r.1).
          then-Leaves P (λ q. q.1) (λ q. q.1) (new_rx_frame_devices f ds r.1) _
            (new_rx_frame_devices-Leaves f ds r.1 c) (λ (q : List Device × B) (e : P q.1). e))

-- The same for the implementation.
abbrev pub KeepsBuffer : (WriteBuffer → Type 0) → Outcome SocketCan → Type 0
KeepsBuffer P r = Leaves P (λ (s : SocketCan). s.write_buffer) r

-- The cycle asks for the error when all devices are done.
module _ (P Q : WriteBuffer → Type 0)
    (closed : (f : Frame) (b : WriteBuffer) → P b → P (WriteBuffer.add_write_can f b).1)
    (reset : (b : WriteBuffer) → P b → Q (getlast_writes_error_and_reset b).1) where
  published-Q : (s : SocketCan) → P s.write_buffer → Q (publish_write_error s).write_buffer
  unfolding publish_write_error getlast_writes_error refresh_asyn_params
  published-Q s h = ground (arith, reset s.write_buffer h)

  pub execute-KeepsBuffer : (s : SocketCan) → P s.write_buffer → KeepsBuffer Q (execute s)
  unfolding execute
  execute-KeepsBuffer s h =
      turn-Leaves P Q (λ r. r.1) (λ (t : SocketCan). t.write_buffer)
        (execute_devices s.devices s.write_buffer) _
        (execute_devices-Leaves P closed s.devices s.write_buffer h)
        (λ (r : List Device × WriteBuffer) (c : P r.1).
          published-Q (record s { devices = r.0; write_buffer = r.1 }) c)

-- What adds frames only.
module _ (P : WriteBuffer → Type 0)
    (closed : (f : Frame) (b : WriteBuffer) → P b → P (WriteBuffer.add_write_can f b).1) where
  dispatch-KeepsBuffer :
      (f : Frame) (s : SocketCan) → P s.write_buffer → KeepsBuffer P (dispatch f s)
  unfolding dispatch
  dispatch-KeepsBuffer f s h =
      then-Leaves P (λ r. r.1) (λ (t : SocketCan). t.write_buffer)
        (new_rx_frame_devices f s.devices s.write_buffer) _
        (new_rx_frame_devices-Leaves P closed f s.devices s.write_buffer h)
        (λ (r : List Device × WriteBuffer) (c : P r.1). c)

  pub read_worker_step-KeepsBuffer :
      (reply : ReadReply) (s : SocketCan)
      → P s.write_buffer
      → KeepsBuffer P (read_worker_step reply s)
  unfolding read_worker_step received
  read_worker_step-KeepsBuffer (failed errno) s h = ground arith
  read_worker_step-KeepsBuffer (got bytes f) s h = ground (arith, dispatch-KeepsBuffer f s h)
