-- ===== src/Device/Sends.antt =====
-- ecmcCANOpenDevice changes the write buffer only by calls of its addWriteCAN.
use e3_ecmc_plugin_socketcan.Common.{ℕ, zero, suc, not, ◌&&◌, List, [], ◌∷◌, arith}
use e3_ecmc_plugin_socketcan.Common.Memory.{done}
use e3_ecmc_plugin_socketcan.Frame.{Frame}
use e3_ecmc_plugin_socketcan.Sink.{FrameSink}
use e3_ecmc_plugin_socketcan.Sink.Sends.{Leaves, if-Leaves, bind-Leaves, then-Leaves}
use e3_ecmc_plugin_socketcan.Pdo
use e3_ecmc_plugin_socketcan.Pdo.{Pdo}
use e3_ecmc_plugin_socketcan.Sdo
use e3_ecmc_plugin_socketcan.Sdo.Methods
use e3_ecmc_plugin_socketcan.Sdo.{Sdo, Shared}
use e3_ecmc_plugin_socketcan.Pdo.{asyn_write_pdo_value}
use e3_ecmc_plugin_socketcan.Sdo.Methods.{asyn_write_sdo_value}
use e3_ecmc_plugin_socketcan.Device.Asyn.{
  write_sdo_at, write_pdo_at, asyn_write_sdo, asyn_write_pdo,
}
use e3_ecmc_plugin_socketcan.Device.{
  Device, execute, new_rx_frame, execute_pdos, execute_sdos, new_rx_frame_pdos, new_rx_frame_sdos,
  shared, validate_frame,
}

module _ {B : Type 0} ⦃k : FrameSink B⦄ (P : B → Type 0)
    (closed : (f : Frame) (b : B) → P b → P (k.add_write_can f b).1) where
  execute_pdos-Leaves : (ps : List Pdo) (b : B) → P b → Leaves P (λ r. r.1) (execute_pdos ps b)
  unfolding execute_pdos
  execute_pdos-Leaves [] b h = h
  execute_pdos-Leaves (p ∷ ps) b h =
      then-Leaves P (λ r. r.1) (λ r. r.1) (Pdo.execute p b) _
        (Pdo.Sends.execute-Leaves P closed p b h)
        (λ (r : Pdo × B) (c : P r.1).
          then-Leaves P (λ q. q.1) (λ q. q.1) (execute_pdos ps r.1) _ (execute_pdos-Leaves ps r.1 c)
            (λ (q : List Pdo × B) (d : P q.1). d))

  abbrev objects_buffer_of : List Sdo × Shared B → B
  objects_buffer_of r = (r.1).write_buffer

  execute_sdos-Leaves :
      (ss : List Sdo) (w : Shared B)
      → P w.write_buffer
      → Leaves P objects_buffer_of (execute_sdos ss w)
  unfolding execute_sdos
  execute_sdos-Leaves [] w h = h
  execute_sdos-Leaves (s ∷ ss) w h =
      then-Leaves P Sdo.Sends.buffer_of objects_buffer_of (Sdo.Methods.execute s w) _
        (Sdo.Sends.execute-Leaves P closed s w h)
        (λ (r : Sdo × Shared B) (c : P (r.1).write_buffer).
          then-Leaves P objects_buffer_of objects_buffer_of (execute_sdos ss r.1) _
            (execute_sdos-Leaves ss r.1 c)
            (λ (q : List Sdo × Shared B) (d : P (q.1).write_buffer). d))

  new_rx_frame_sdos-Leaves :
      (f : Frame) (ss : List Sdo) (w : Shared B)
      → P w.write_buffer
      → Leaves P objects_buffer_of (new_rx_frame_sdos f ss w)
  unfolding new_rx_frame_sdos
  new_rx_frame_sdos-Leaves f [] w h = h
  new_rx_frame_sdos-Leaves f (s ∷ ss) w h =
      then-Leaves P Sdo.Sends.buffer_of objects_buffer_of (Sdo.Methods.new_rx_frame f s w) _
        (Sdo.Sends.new_rx_frame-Leaves P closed f s w h)
        (λ (r : Sdo × Shared B) (c : P (r.1).write_buffer).
          then-Leaves P objects_buffer_of objects_buffer_of (new_rx_frame_sdos f ss r.1) _
            (new_rx_frame_sdos-Leaves f ss r.1 c)
            (λ (q : List Sdo × Shared B) (d : P (q.1).write_buffer). d))

  pub execute-Leaves : (d : Device) (b : B) → P b → Leaves P (λ r. r.1) (execute d b)
  unfolding execute
  execute-Leaves d b h =
      then-Leaves P (λ r. r.1) (λ r. r.1) (execute_pdos d.pdos b) _ (execute_pdos-Leaves d.pdos b h)
        (λ (r : List Pdo × B) (c : P r.1).
          then-Leaves P objects_buffer_of (λ q. q.1) (execute_sdos d.sdos (shared d r.1)) _
            (execute_sdos-Leaves d.sdos (shared d r.1) c)
            (λ (q : List Sdo × Shared B) (e : P (q.1).write_buffer). e))

  pub new_rx_frame-Leaves :
      (f : Frame) (d : Device) (b : B) → P b → Leaves P (λ r. r.1) (new_rx_frame f d b)
  unfolding new_rx_frame
  new_rx_frame-Leaves f d b h =
      if-Leaves P (λ r. r.1) (not (validate_frame d f) && not d.is_master) (done (d, b)) _ h
        (bind-Leaves P (λ r. r.1) (new_rx_frame_pdos f d.pdos) _
          (λ (ps : List Pdo).
            then-Leaves P objects_buffer_of (λ q. q.1) (new_rx_frame_sdos f d.sdos (shared d b)) _
              (new_rx_frame_sdos-Leaves f d.sdos (shared d b) h)
              (λ (q : List Sdo × Shared B) (e : P (q.1).write_buffer). e)))

  write_sdo_at-Leaves :
      (i : ℕ) (value : List ℕ) (ss : List Sdo) (w : Shared B)
      → P w.write_buffer
      → Leaves P objects_buffer_of (write_sdo_at i value ss w)
  unfolding write_sdo_at
  write_sdo_at-Leaves i value [] w h = h
  write_sdo_at-Leaves zero value (s ∷ ss) w h = ground (
    arith,
    then-Leaves P Sdo.Sends.buffer_of objects_buffer_of (asyn_write_sdo_value value s w)
        (λ r. done (r.0 ∷ ss, r.1)) (Sdo.Sends.asyn_write-Leaves P closed value s w h)
        (λ (r : Sdo × Shared B) (c : P (r.1).write_buffer). c),
  )
  write_sdo_at-Leaves (suc i) value (s ∷ ss) w h =
      then-Leaves P objects_buffer_of objects_buffer_of (write_sdo_at i value ss w) _
        (write_sdo_at-Leaves i value ss w h)
        (λ (q : List Sdo × Shared B) (e : P (q.1).write_buffer). e)

  write_pdo_at-Leaves :
      (i : ℕ) (value : List ℕ) (ps : List Pdo) (b : B)
      → P b
      → Leaves P (λ r. r.1) (write_pdo_at i value ps b)
  unfolding write_pdo_at
  write_pdo_at-Leaves i value [] b h = h
  write_pdo_at-Leaves zero value (p ∷ ps) b h = ground (
    arith,
    then-Leaves P (λ (r : Pdo × B). r.1) (λ (r : List Pdo × B). r.1)
        (asyn_write_pdo_value value p b) (λ r. done (r.0 ∷ ps, r.1))
        (Pdo.Sends.asyn_write-Leaves P closed value p b h) (λ (r : Pdo × B) (c : P r.1). c),
  )
  write_pdo_at-Leaves (suc i) value (p ∷ ps) b h =
      then-Leaves P (λ r. r.1) (λ r. r.1) (write_pdo_at i value ps b) _
        (write_pdo_at-Leaves i value ps b h) (λ (q : List Pdo × B) (e : P q.1). e)

  pub asyn_write_sdo-Leaves :
      (i : ℕ) (value : List ℕ) (d : Device) (b : B)
      → P b
      → Leaves P (λ r. r.1) (asyn_write_sdo i value d b)
  unfolding asyn_write_sdo
  asyn_write_sdo-Leaves i value d b h =
      then-Leaves P objects_buffer_of (λ r. r.1) (write_sdo_at i value d.sdos (shared d b)) _
        (write_sdo_at-Leaves i value d.sdos (shared d b) h)
        (λ (q : List Sdo × Shared B) (e : P (q.1).write_buffer). e)

  pub asyn_write_pdo-Leaves :
      (i : ℕ) (value : List ℕ) (d : Device) (b : B)
      → P b
      → Leaves P (λ r. r.1) (asyn_write_pdo i value d b)
  unfolding asyn_write_pdo
  asyn_write_pdo-Leaves i value d b h =
      then-Leaves P (λ r. r.1) (λ r. r.1) (write_pdo_at i value d.pdos b) _
        (write_pdo_at-Leaves i value d.pdos b h) (λ (q : List Pdo × B) (e : P q.1). e)
