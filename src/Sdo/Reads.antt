-- ===== src/Sdo/Reads.antt =====
-- readDataStateMachine of ecmcCANOpenSDO: how a call of it ends.
use e3_ecmc_plugin_socketcan.Common.{
  ◌≡◌, inl, inr, true, false, arith, ltb, if◌then◌else◌, Bool-cases,
}
use e3_ecmc_plugin_socketcan.Common.Memory.{done, memcpy-all}
use e3_ecmc_plugin_socketcan.Defs.{dir_read, read_idle, read_wait_for_data}
use e3_ecmc_plugin_socketcan.Frame.{Frame, frame_equal}
use e3_ecmc_plugin_socketcan.Sink.{FrameSink}
use e3_ecmc_plugin_socketcan.SdoFrames.{read_conf_req_frame_tg0, read_slave_conf_frame}
use e3_ecmc_plugin_socketcan.Printing.{print_if-done}
use e3_ecmc_plugin_socketcan.Sdo.{Sdo, Shared, CodeResult}
use e3_ecmc_plugin_socketcan.Sdo.Methods.{
  send, request_segment, finish_read, read_data_state_machine,
}
use e3_ecmc_plugin_socketcan.Sdo.Invariant.{HasSizes, IsValid}
use e3_ecmc_plugin_socketcan.Sdo.Segments.{
  IsData, with_segment, read_segment_lem, with_segment-HasSizes,
}

-- The object with a complete value.
abbrev pub finished : Sdo → Sdo
finished s = record s {
  read_state = read_idle;
  use_tg1_frame = false;
  data_buffer = s.temp_data_buffer;
  refresh_needed = true;
  busy = false;
}

module _ {B : Type 0} ⦃k : FrameSink B⦄ where
  abbrev pub unlocked : Shared B → Shared B
  unlocked w = record w { sdo1_lock = false }

  -- A state machine ended with code 0 in a valid state.
  abbrev pub EndsOk : CodeResult B → Type 0
  EndsOk m = (s : Sdo) × (w : Shared B) × (m ≡ done (0, s, w)) × IsValid B s w

  pub finish_read_lem :
      (s : Sdo) (w : Shared B)
      → HasSizes s
      → s.busy ≡ true
      → finish_read s w ≡ done (0, finished s, unlocked w)
  unfolding finish_read
  finish_read_lem s w z b = ground (
    arith,
    memcpy-all s.data_buffer s.temp_data_buffer s.od_size z.buffered z.temp,
    print_if-done s.config.dbg_mode s.od_size s.temp_data_buffer z.printable z.temp,
  )

  finished-IsValid :
      (s : Sdo) (w : Shared B)
      → IsValid B s w
      → s.busy ≡ true
      → s.rw ≡ dir_read
      → IsValid B (finished s) (unlocked w)
  finished-IsValid s w v b r = ground arith

  request_segment-IsValid :
      (s : Sdo) (w : Shared B)
      → IsValid B s w
      → IsValid B (request_segment s w).0 (request_segment s w).1
  unfolding request_segment
  request_segment-IsValid s w v = ground arith

  after_segment-EndsOk :
      (s : Sdo) (w : Shared B)
      → IsValid B s w
      → s.busy ≡ true
      → s.rw ≡ dir_read
      → EndsOk (
          if ltb s.recived_bytes s.od_size
          then (let (s2, w2) = request_segment s w in done (0, s2, w2))
          else finish_read s w)
  after_segment-EndsOk s w v b r = elim (Bool-cases (ltb s.recived_bytes s.od_size)) [
    | inl e ↦
        ((request_segment s w).0, (request_segment s w).1, rw e, request_segment-IsValid s w v)
    | inr e ↦
        (finished s, unlocked w, rw e (finish_read_lem s w v.sizes b), finished-IsValid s w v b r)
  ]

  with_segment-IsValid :
      (f : Frame) (s : Sdo) (w : Shared B)
      → IsValid B s w
      → HasSizes (with_segment f s)
      → IsValid B (with_segment f s) w
  with_segment-IsValid f s w v z = record { sizes = z; in_step = ground arith; holds = v.holds }

  pub read_machine-EndsOk :
      (f : Frame) (s : Sdo) (w : Shared B)
      → IsValid B s w
      → s.busy ≡ true
      → s.rw ≡ dir_read
      → IsData f
      → EndsOk (read_data_state_machine f s w)
  unfolding read_data_state_machine
  read_machine-EndsOk f s w v b r d = elim ((v.in_step.reads b r).0) [
    | inl st ↦ elim (Bool-cases (frame_equal (read_slave_conf_frame s.config) f)) [
      | inl q ↦ (
        record s { read_state = read_wait_for_data; use_tg1_frame = true },
        send (read_conf_req_frame_tg0 s.config) w,
        ground arith,
        ground arith,
      )
      | inr q ↦ (s, w, ground arith, v)
    ]
    | inr st ↦ elim (read_segment_lem f s v.sizes d) [
      | inl (h, q) ↦
          let (s', w', e, v') =
            after_segment-EndsOk (with_segment f s) w
              (with_segment-IsValid f s w v (with_segment-HasSizes f s v.sizes d h)) b r in
          (s', w', ground (arith, q, e), v')
      | inr (h, q) ↦
          let (s', w', e, v') = after_segment-EndsOk s w v b r in (s', w', ground (arith, q, e), v')
    ]
  ]
