-- ===== src/SocketCan/Cycle.antt =====
-- What the realtime thread and the read thread of ecmcSocketCAN do with the devices, and the calls of
-- its write buffer.
use e3_ecmc_plugin_socketcan.Common.{
  ℕ, true, false, Option, none, some, List, [], ◌∷◌, ◌==◌, if◌then◌else◌,
}
use e3_ecmc_plugin_socketcan.Common.Memory.{Outcome, done, ◌>>=◌}
use e3_ecmc_plugin_socketcan.Frame.{Frame}
use e3_ecmc_plugin_socketcan.WriteBuffer.{
  WriteBuffer, add_write_can_bytes, getlast_writes_error_and_reset, frame_size,
}
use e3_ecmc_plugin_socketcan.Sink.{FrameSink, write_buffer_sink}
use e3_ecmc_plugin_socketcan.Device
use e3_ecmc_plugin_socketcan.Device.{Device}
use e3_ecmc_plugin_socketcan.SocketCan.{
  SocketCan, ReadReply, failed, got, error_write_buffer_null, error_read_incomplete,
}

module _ {B : Type 0} ⦃k : FrameSink B⦄ where
  unfoldable pub execute_devices : List Device → B → Outcome (List Device × B)
  execute_devices [] b = done ([], b)
  execute_devices (d ∷ ds) b = do
    (d', b1) ← Device.execute d b
    (ds', b2) ← execute_devices ds b1
    done (d' ∷ ds', b2)

  unfoldable pub new_rx_frame_devices : Frame → List Device → B → Outcome (List Device × B)
  new_rx_frame_devices f [] b = done ([], b)
  new_rx_frame_devices f (d ∷ ds) b = do
    (d', b1) ← Device.new_rx_frame f d b
    (ds', b2) ← new_rx_frame_devices f ds b1
    done (d' ∷ ds', b2)

-- `none` is a null pointer.
unfoldable pub getlast_writes_error : Option WriteBuffer → ℕ × Option WriteBuffer
getlast_writes_error none = (error_write_buffer_null, none)
getlast_writes_error (some b) = let (code, b') = getlast_writes_error_and_reset b in (code, some b')

-- The code of the buffer is not looked at.
unfoldable pub add_write_can :
    ℕ → ℕ → ℕ → ℕ → ℕ → ℕ → ℕ → ℕ → ℕ → ℕ → Option WriteBuffer → ℕ × Option WriteBuffer
add_write_can can_id len d0 d1 d2 d3 d4 d5 d6 d7 none = (error_write_buffer_null, none)
add_write_can can_id len d0 d1 d2 d3 d4 d5 d6 d7 (some b) =
    (0, some (add_write_can_bytes can_id len d0 d1 d2 d3 d4 d5 d6 d7 b).1)

unfoldable pub refresh_asyn_params : SocketCan → SocketCan
refresh_asyn_params s =
    record (if s.refresh_needed
      then record s { error_param = s.error_code; connected_param = s.connected }
      else s) { refresh_needed = false }

-- The end of execute.
unfoldable pub publish_write_error : SocketCan → SocketCan
unfolding getlast_writes_error refresh_asyn_params
publish_write_error s =
    let (write_error, b) = getlast_writes_error (some s.write_buffer) in
    let s1 : SocketCan = record s {
      write_buffer = elim b [ none ↦ s.write_buffer | some b' ↦ b' ];
    } in
    refresh_asyn_params (
      if write_error == 0
      then s1
      else record s1 { error_code = write_error; refresh_needed = true })

unfoldable pub execute : SocketCan → Outcome SocketCan
execute s = do
  (ds, b) ← execute_devices s.devices s.write_buffer
  done (publish_write_error (record s { devices = ds; write_buffer = b }))

-- A frame that was read goes to every device.
unfoldable pub dispatch : Frame → SocketCan → Outcome SocketCan
dispatch f s = do
  (ds, b) ← new_rx_frame_devices f s.devices s.write_buffer
  done (record s { devices = ds; write_buffer = b })

abbrev read_error : ℕ → SocketCan → SocketCan
read_error code s = record s { error_code = code; refresh_needed = true }

unfoldable pub received : ReadReply → SocketCan → Outcome SocketCan
unfolding dispatch
received (failed errno) s = done (read_error errno s)
received (got bytes f) s =
    if bytes == frame_size then dispatch f s else done (read_error error_read_incomplete s)

-- A round of doReadWorker: without a connection it waits, and reads nothing.
unfoldable pub read_worker_step : ReadReply → SocketCan → Outcome SocketCan
unfolding received
read_worker_step reply s =
    if s.destructs then done s else (if s.connected then received reply s else done s)
