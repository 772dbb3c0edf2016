-- ===== src/Sdo/Methods.antt =====
-- The methods of ecmcCANOpenSDO that send frames or take the device's SDO lock.
use e3_ecmc_plugin_socketcan.Common.{
  ℕ, ◌+◌, ◌*◌, ◌-◌, ◌%◌, ◌^◌, Bool, true, false, not, List, leb, ltb, ◌==◌, if◌then◌else◌, set,
}
use e3_ecmc_plugin_socketcan.Common.Memory.{Outcome, done, ◌>>=◌, memcpy, memset}
use e3_ecmc_plugin_socketcan.Defs.{
  dir_write, dir_read, read_idle, read_wait_for_conf, read_wait_for_data, write_idle,
  write_wait_for_conf, write_data,
}
use e3_ecmc_plugin_socketcan.Frame.{Frame, frame_equal}
use e3_ecmc_plugin_socketcan.Printing.{print_if}
use e3_ecmc_plugin_socketcan.Sink.{FrameSink, put}
use e3_ecmc_plugin_socketcan.SdoFrames.{
  read_req_transfer_frame, read_conf_req_frame_tg0, read_conf_req_frame_tg1, read_slave_conf_frame,
  write_req_transfer_frame, write_slave_conf_cmd_frame, write_conf_req_frame_tg0,
  write_conf_req_frame_tg1,
}
use e3_ecmc_plugin_socketcan.Sdo.{
  Sdo, Shared, Result, CodeResult, sdo_reply_timout_ms, error_sdo_write_busy, error_sdo_timeout,
  refresh_asyn_params, to_size, bytes_to_read, bytes_to_write, write_cmd_byte, set_value,
}

-- writeDataFrame_ with the command byte and the next segment, if that is copied as `payload`.
abbrev pub next_segment : Sdo → ℕ → List ℕ → Frame
next_segment s n payload = record (s.write_data_frame) { can_dlc = n + 1; payload = payload }

-- execute's count of the calls for which the object is busy.
unfoldable pub count_busy : Sdo → Sdo
count_busy s = record s { busy_counter = if s.busy then s.busy_counter + 1 else 0 }

-- Does a frame confirm a segment that was sent with this toggle?
unfoldable pub write_wait_for_data_conf_frame : Bool → Frame → Sdo → Bool
write_wait_for_data_conf_frame use_toggle frame s =
    if use_toggle
    then frame_equal (write_conf_req_frame_tg1 s.config) frame
    else frame_equal (write_conf_req_frame_tg0 s.config) frame

-- A data frame: its segment, if it still fits, goes behind those before it.
unfoldable pub read_segment : Frame → Sdo → Outcome Sdo
read_segment frame s =
    let n = bytes_to_read frame.can_dlc in
    let total = (n + s.recived_bytes) % 2 ^ 32 in
    let copied : Outcome Sdo = do
      temp ← memcpy s.temp_data_buffer s.recived_bytes frame.payload 1 (to_size n)
      done (record s { temp_data_buffer = temp; recived_bytes = total })
    in if leb total s.od_size then copied else done s

module _ {B : Type 0} ⦃k : FrameSink B⦄ where
  abbrev pub send : Frame → Shared B → Shared B
  send f w = record w { write_buffer = put f w.write_buffer }

  -- test_and_set leaves the lock set in any case.
  unfoldable pub try_lock_sdo1 : Sdo → Shared B → Bool × Sdo × Shared B
  try_lock_sdo1 s w =
      if s.busy
      then (false, s, w)
      else (if w.sdo1_lock
          then (false, s, w)
          else (true, record s { busy = true }, record w { sdo1_lock = true }))

  unfoldable pub unlock_sdo1 : Sdo → Shared B → Sdo × Shared B
  unlock_sdo1 s w =
      if s.busy then (record s { busy = false }, record w { sdo1_lock = false }) else (s, w)

  -- writeValue behind a successful tryLockSdo1.
  unfoldable pub start_write : Sdo → Shared B → CodeResult B
  start_write s w = elim s.write_state [
    | write_idle ↦ do
      buffer ← memcpy s.data_buffer 0 s.temp_data_buffer 0 s.od_size
      done (
        0,
        record s { write_pending = false; data_buffer = buffer; write_state = write_wait_for_conf },
        send (write_req_transfer_frame s.config) w,
      )
    | _ ↦ done (error_sdo_write_busy, record s { write_pending = true }, w)
  ]

  unfoldable pub write_value : Sdo → Shared B → CodeResult B
  unfolding try_lock_sdo1 start_write
  write_value s w =
      let (locked, s', w') = try_lock_sdo1 s w in
      if s.busy
      then done (error_sdo_write_busy, record s { write_pending = true }, w)
      else (if locked
          then start_write s' w'
          else done (error_sdo_write_busy, record s' { write_pending = true }, w'))

  -- The number of bytes written, 0 if none are left.
  unfoldable pub write_next_data_to_slave : Bool → Sdo → Shared B → CodeResult B
  write_next_data_to_slave use_toggle s w =
      let n = bytes_to_write s.od_size s.written_bytes in
      let last = leb s.od_size ((s.written_bytes + n) % 2 ^ 32) in
      let command = write_cmd_byte last (7 - n) use_toggle in
      let sent : CodeResult B = do
        payload ←
            memcpy (set s.write_data_frame.payload 0 command) 1 s.data_buffer s.written_bytes n
        let f = next_segment s n payload
        done (
          n,
          record s { write_data_frame = f; written_bytes = (s.written_bytes + n) % 2 ^ 32 },
          send f w,
        )
      in if n == 0 then done (0, s, w) else sent

  unfoldable pub write_data_state_machine : Frame → Sdo → Shared B → CodeResult B
  unfolding unlock_sdo1
  write_data_state_machine frame s w = elim s.write_state [
    | write_wait_for_conf ↦
        let s1 : Sdo = record s { written_bytes = 0; use_tg1_frame = false } in
        if frame_equal (write_slave_conf_cmd_frame s.config) frame
        then (write_next_data_to_slave s1.use_tg1_frame s1 w >>= λ r.
            done (0, record (r.1) { write_state = write_data }, r.2))
        else done (0, s1, w)
    | write_data ↦
        let (s1, w1) =
          unlock_sdo1 (record s { write_state = write_idle; use_tg1_frame = false }) w in
        let s2 : Sdo = record s { use_tg1_frame = not s.use_tg1_frame } in
        if write_wait_for_data_conf_frame s.use_tg1_frame frame s
        then (if leb s.od_size s.written_bytes
            then (print_if s.config.dbg_mode s.od_size s.data_buffer >>= λ printed.
                done (0, s1, w1))
            else (write_next_data_to_slave s2.use_tg1_frame s2 w >>= λ r. done (0, r.1, r.2)))
        else done (0, s, w)
    | _ ↦ done (0, s, w)
  ]

  -- Ask for more, with the toggle that is due.
  unfoldable pub request_segment : Sdo → Shared B → Sdo × Shared B
  request_segment s w =
      if s.use_tg1_frame
      then (record s { use_tg1_frame = false }, send (read_conf_req_frame_tg1 s.config) w)
      else (record s { use_tg1_frame = true }, send (read_conf_req_frame_tg0 s.config) w)

  -- All data is there.
  unfoldable pub finish_read : Sdo → Shared B → CodeResult B
  unfolding unlock_sdo1
  finish_read s w = do
    buffer ← memcpy s.data_buffer 0 s.temp_data_buffer 0 s.od_size
    printed ← print_if s.config.dbg_mode s.od_size buffer
    let (s', w') =
        unlock_sdo1
          (record s {
            read_state = read_idle;
            use_tg1_frame = false;
            data_buffer = buffer;
            refresh_needed = true;
          })
          w
    done (0, s', w')

  unfoldable pub read_data_state_machine : Frame → Sdo → Shared B → CodeResult B
  read_data_state_machine frame s w = elim s.read_state [
    | read_wait_for_conf ↦
        if frame_equal (read_slave_conf_frame s.config) frame
        then done (
          0,
          record s { read_state = read_wait_for_data; use_tg1_frame = true },
          send (read_conf_req_frame_tg0 s.config) w,
        )
        else done (0, s, w)
    | read_wait_for_data ↦ read_segment frame s >>= λ s1.
        (if ltb s1.recived_bytes s1.od_size
          then (let (s2, w2) = request_segment s1 w in done (0, s2, w2))
          else finish_read s1 w)
    | _ ↦ done (0, s, w)
  ]

  -- A code of a state machine that is new becomes the object's error.
  unfoldable pub note_error : CodeResult B → Result B
  note_error m = m >>= λ r. done (
    (if r.0 == 0
        then r.1
        else (if (r.1).error_code == r.0
            then r.1
            else record (r.1) { error_code = r.0; refresh_needed = true })),
    r.2,
  )

  unfoldable pub new_rx_frame : Frame → Sdo → Shared B → Result B
  new_rx_frame frame s w =
      let machine : CodeResult B = elim s.rw [
        | dir_read ↦ read_data_state_machine frame s w
        | dir_write ↦ write_data_state_machine frame s w
      ] in
      if s.busy
      then (if frame.can_id == s.cob_id_tx then note_error machine else done (s, w))
      else done (s, w)

  -- A transfer that takes too long is cancelled.
  unfoldable pub cancel_on_timeout : Sdo → Shared B → Result B
  unfolding unlock_sdo1
  cancel_on_timeout s w =
      let cancelled : Result B = do
        temp ← memset s.temp_data_buffer 0 s.od_size
        done (
            unlock_sdo1
              (record s {
                temp_data_buffer = temp;
                read_state = read_idle;
                write_state = write_idle;
                exe_counter = 0;
                busy_counter = 0;
                error_code = error_sdo_timeout;
                error_param = error_sdo_timeout;
              })
              w)
      in if ltb sdo_reply_timout_ms s.busy_counter then cancelled else done (s, w)

  unfoldable pub write_if_pending : Sdo → Shared B → Result B
  write_if_pending s w =
      let written : Result B = write_value s w >>= λ r. done (r.1, r.2) in
      if s.busy then done (s, w) else (if s.write_pending then written else done (s, w))

  -- The read cycle of execute. If the lock is taken it returns before the refresh.
  unfoldable pub sample_read : Sdo → Shared B → Sdo × Shared B
  unfolding try_lock_sdo1 refresh_asyn_params
  sample_read s w =
      let (locked, s', w') = try_lock_sdo1 s w in
      let started : Sdo = record s' {
        exe_counter = 0;
        recived_bytes = 0;
        read_state = read_wait_for_conf;
      } in
      if ltb (s.exe_counter * s.exe_sample_time_ms) s.read_sample_time_ms
      then (refresh_asyn_params (record s { exe_counter = s.exe_counter + 1 }), w)
      else (if locked
          then (refresh_asyn_params started, send (read_req_transfer_frame s.config) w')
          else (s', w'))

  unfoldable pub execute : Sdo → Shared B → Result B
  unfolding refresh_asyn_params
  execute s w = do
    (s1, w1) ← cancel_on_timeout (count_busy s) w
    (s2, w2) ← write_if_pending s1 w1
    elim s2.rw [
      | dir_read ↦ done (sample_read s2 w2)
      | dir_write ↦ done (refresh_asyn_params s2, w2)
    ]

  -- asynWriteSDOValue; the code of writeValue is not looked at.
  unfoldable pub asyn_write_sdo_value : List ℕ → Sdo → Shared B → Result B
  asyn_write_sdo_value value s w = do
    s1 ← set_value value s
    (code, s2, w2) ← write_value s1 w
    done (s2, w2)
