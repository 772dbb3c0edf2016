-- ===== src/Sdo/Sends.antt =====
-- ecmcCANOpenSDO changes the write buffer only by calls of its addWriteCAN.
use e3_ecmc_plugin_socketcan.Common.{
  ℕ, ◌+◌, ◌-◌, ◌%◌, ◌^◌, inl, inr, Bool, false, not, leb, ltb, if◌then◌else◌, arith, set, List,
}
use e3_ecmc_plugin_socketcan.Common.Memory.{done, fault, memcpy, memset, Outcome-cases}
use e3_ecmc_plugin_socketcan.Defs.{write_data}
use e3_ecmc_plugin_socketcan.Frame.{Frame}
use e3_ecmc_plugin_socketcan.Sink.{FrameSink}
use e3_ecmc_plugin_socketcan.Sink.Sends.{Leaves, bind-Leaves, then-Leaves}
use e3_ecmc_plugin_socketcan.Sdo.{
  Sdo, Shared, CodeResult, refresh_asyn_params, bytes_to_write, write_cmd_byte, set_value,
}
use e3_ecmc_plugin_socketcan.SdoFrames.{
  read_req_transfer_frame, read_conf_req_frame_tg0, read_conf_req_frame_tg1,
  write_req_transfer_frame,
}
use e3_ecmc_plugin_socketcan.Sdo.Methods.{
  count_busy, start_write, write_value, read_segment, request_segment, finish_read,
  write_next_data_to_slave, read_data_state_machine, write_data_state_machine, note_error,
  new_rx_frame, cancel_on_timeout, write_if_pending, sample_read, execute, next_segment,
  asyn_write_sdo_value,
}

abbrev pub buffer_of : {B : Type 0} → Sdo × Shared B → B
buffer_of r = (r.1).write_buffer

abbrev pub code_buffer_of : {B : Type 0} → ℕ × Sdo × Shared B → B
code_buffer_of r = (r.2).write_buffer

module _ {B : Type 0} ⦃k : FrameSink B⦄ (P : B → Type 0)
    (closed : (f : Frame) (b : B) → P b → P (k.add_write_can f b).1) where
  start_write-Leaves :
      (s : Sdo) (w : Shared B) → P w.write_buffer → Leaves P code_buffer_of (start_write s w)
  unfolding start_write memcpy
  start_write-Leaves s w h =
      ground (arith, closed (write_req_transfer_frame s.config) w.write_buffer h)

  write_value-Leaves :
      (s : Sdo) (w : Shared B) → P w.write_buffer → Leaves P code_buffer_of (write_value s w)
  unfolding write_value start_write memcpy
  write_value-Leaves s w h =
      ground (arith, closed (write_req_transfer_frame s.config) w.write_buffer h)

  cancel-Leaves :
      (s : Sdo) (w : Shared B) → P w.write_buffer → Leaves P buffer_of (cancel_on_timeout s w)
  unfolding cancel_on_timeout memset
  cancel-Leaves s w h = ground arith

  sample_read-P : (s : Sdo) (w : Shared B) → P w.write_buffer → P (sample_read s w).1.write_buffer
  unfolding sample_read
  sample_read-P s w h = ground (arith, closed (read_req_transfer_frame s.config) w.write_buffer h)

  write_next-Leaves :
      (t : Bool) (s : Sdo) (w : Shared B)
      → P w.write_buffer
      → Leaves P code_buffer_of (write_next_data_to_slave t s w)
  unfolding write_next_data_to_slave
  write_next-Leaves t s w h =
      let n = bytes_to_write s.od_size s.written_bytes in
      let last = leb s.od_size ((s.written_bytes + n) % 2 ^ 32) in
      let head = set s.write_data_frame.payload 0 (write_cmd_byte last (7 - n) t) in
      elim (Outcome-cases (memcpy head 1 s.data_buffer s.written_bytes n)) [
        | inl (payload, e) ↦ ground (arith, e, closed (next_segment s n payload) w.write_buffer h)
        | inr e ↦ ground (arith, e)
      ]

  request-P : (s : Sdo) (w : Shared B) → P w.write_buffer → P (request_segment s w).1.write_buffer
  unfolding request_segment
  request-P s w h = ground (
    arith,
    closed (read_conf_req_frame_tg1 s.config) w.write_buffer h,
    closed (read_conf_req_frame_tg0 s.config) w.write_buffer h,
  )

  finish_read-Leaves :
      (s : Sdo) (w : Shared B) → P w.write_buffer → Leaves P code_buffer_of (finish_read s w)
  unfolding finish_read memcpy
  finish_read-Leaves s w h = ground arith

  after_segment-Leaves :
      (s : Sdo) (w : Shared B)
      → P w.write_buffer
      → Leaves P code_buffer_of (
          if ltb s.recived_bytes s.od_size
          then (let (s2, w2) = request_segment s w in done (0, s2, w2))
          else finish_read s w)
  after_segment-Leaves s w h = ground (arith, request-P s w h, finish_read-Leaves s w h)

  read_machine-Leaves :
      (f : Frame) (s : Sdo) (w : Shared B)
      → P w.write_buffer
      → Leaves P code_buffer_of (read_data_state_machine f s w)
  unfolding read_data_state_machine
  read_machine-Leaves f s w h = ground (
    arith,
    closed (read_conf_req_frame_tg0 s.config) w.write_buffer h,
    bind-Leaves P code_buffer_of (read_segment f s) _ (λ (s1 : Sdo). after_segment-Leaves s1 w h),
  )

  write_machine-Leaves :
      (f : Frame) (s : Sdo) (w : Shared B)
      → P w.write_buffer
      → Leaves P code_buffer_of (write_data_state_machine f s w)
  unfolding write_data_state_machine
  write_machine-Leaves f s w h =
      let s0 : Sdo = record s { written_bytes = 0; use_tg1_frame = false } in
      let s1 : Sdo = record s { use_tg1_frame = not s.use_tg1_frame } in
      ground (
        arith,
        then-Leaves P code_buffer_of code_buffer_of (write_next_data_to_slave false s0 w)
            (λ r. done (0, record (r.1) { write_state = write_data }, r.2))
            (write_next-Leaves false s0 w h)
            (λ (r : ℕ × Sdo × Shared B) (p : P (r.2).write_buffer). p),
        then-Leaves P code_buffer_of code_buffer_of
            (write_next_data_to_slave (not s.use_tg1_frame) s1 w) (λ r. done (0, r.1, r.2))
            (write_next-Leaves (not s.use_tg1_frame) s1 w h)
            (λ (r : ℕ × Sdo × Shared B) (p : P (r.2).write_buffer). p),
      )

  note_error-Leaves :
      (m : CodeResult B) → Leaves P code_buffer_of m → Leaves P buffer_of (note_error m)
  unfolding note_error
  note_error-Leaves fault h = h
  note_error-Leaves (done r) h = h

  pub new_rx_frame-Leaves :
      (f : Frame) (s : Sdo) (w : Shared B)
      → P w.write_buffer
      → Leaves P buffer_of (new_rx_frame f s w)
  unfolding new_rx_frame
  new_rx_frame-Leaves f s w h = ground (
    arith,
    note_error-Leaves (read_data_state_machine f s w) (read_machine-Leaves f s w h),
    note_error-Leaves (write_data_state_machine f s w) (write_machine-Leaves f s w h),
  )

  pending-Leaves :
      (s : Sdo) (w : Shared B) → P w.write_buffer → Leaves P buffer_of (write_if_pending s w)
  unfolding write_if_pending
  pending-Leaves s w h = ground (
    arith,
    then-Leaves P code_buffer_of buffer_of (write_value s w) (λ r. done (r.1, r.2))
        (write_value-Leaves s w h) (λ (r : ℕ × Sdo × Shared B) (p : P (r.2).write_buffer). p),
  )

  pub execute-Leaves :
      (s : Sdo) (w : Shared B) → P w.write_buffer → Leaves P buffer_of (execute s w)
  unfolding execute refresh_asyn_params
  execute-Leaves s w h =
      then-Leaves P buffer_of buffer_of (cancel_on_timeout (count_busy s) w) _
        (cancel-Leaves (count_busy s) w h)
        (λ (r1 : Sdo × Shared B) (p1 : P (r1.1).write_buffer).
          then-Leaves P buffer_of buffer_of (write_if_pending r1.0 r1.1) _
            (pending-Leaves r1.0 r1.1 p1)
            (λ (r2 : Sdo × Shared B) (p2 : P (r2.1).write_buffer).
              ground (arith, sample_read-P r2.0 r2.1 p2)))

  pub asyn_write-Leaves :
      (value : List ℕ) (s : Sdo) (w : Shared B)
      → P w.write_buffer
      → Leaves P buffer_of (asyn_write_sdo_value value s w)
  unfolding asyn_write_sdo_value
  asyn_write-Leaves value s w h = bind-Leaves P buffer_of (set_value value s) _ (λ (s1 : Sdo).
      then-Leaves P code_buffer_of buffer_of (write_value s1 w) _ (write_value-Leaves s1 w h)
        (λ (r : ℕ × Sdo × Shared B) (p : P (r.2).write_buffer). p))
