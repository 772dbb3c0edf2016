-- ===== src/Sdo/Upload.antt =====
-- A whole read transfer of ecmcCANOpenSDO, from the slave's confirmation to the value.
use e3_ecmc_plugin_socketcan.Common.{
  ℕ, ◌+◌, ◌-◌, ◌<◌, ◌≡◌, refl, ap, ◌∙◌, Bool, true, false, not, List, [], ◌∷◌, ◌++◌, arith, length,
  take, length-append, drop-all, append-nil, append_assoc,
}
use e3_ecmc_plugin_socketcan.Common.Memory.{done, ◌>>=◌}
use e3_ecmc_plugin_socketcan.Defs.{dir_read, read_idle, read_wait_for_conf, read_wait_for_data}
use e3_ecmc_plugin_socketcan.Frame.{Frame}
use e3_ecmc_plugin_socketcan.Frame.Equal.{frame_equal_self}
use e3_ecmc_plugin_socketcan.Sink.{FrameSink, put}
use e3_ecmc_plugin_socketcan.SdoFrames.{SdoConfig, read_conf_req_frame_tg0, read_slave_conf_frame}
use e3_ecmc_plugin_socketcan.Sdo.{Sdo, Shared, Result}
use e3_ecmc_plugin_socketcan.Sdo.Methods.{
  send, request_segment, read_data_state_machine, note_error, new_rx_frame,
}
use e3_ecmc_plugin_socketcan.Sdo.Invariant.{IsValid}
use e3_ecmc_plugin_socketcan.Sdo.Segments.{
  segment_of, length-segment_of, with_segment, with_segment-HasSizes,
}
use e3_ecmc_plugin_socketcan.Sdo.Reads.{finished, finish_read_lem}
use e3_ecmc_plugin_socketcan.Sdo.Awaits.{
  Awaits, IsSegment, AreSegments, segments, request, conf-id, segment_fits, advanced,
  advanced-Awaits, advanced-prefix,
}

module _ {B : Type 0} ⦃k : FrameSink B⦄ where
  unfoldable pub rx_all : List Frame → Sdo → Shared B → Result B
  rx_all [] s w = done (s, w)
  rx_all (f ∷ fs) s w = new_rx_frame f s w >>= λ r. rx_all fs r.0 r.1

  -- One request for each segment but the first.
  abbrev pub requested : SdoConfig → Bool → List Frame → B → B
  requested c t [] b = b
  requested c t (f ∷ fs) b = requested c (not t) fs (put (request c t) b)

  request_segment_lem :
      (s : Sdo) (w : Shared B)
      → request_segment s w ≡ (
        record s { use_tg1_frame = not s.use_tg1_frame },
        send (request s.config s.use_tg1_frame) w,
      )
  unfolding request_segment
  request_segment_lem s w = ground arith

  rx-more :
      (f : Frame) (s : Sdo) (w : Shared B)
      → Awaits s
      → IsSegment s.config f
      → s.recived_bytes + (f.can_dlc - 1) < s.od_size
      → new_rx_frame f s w
        ≡ done (
          record (with_segment f s) { use_tg1_frame = not s.use_tg1_frame },
          send (request s.config s.use_tg1_frame) w,
        )
  unfolding new_rx_frame read_data_state_machine note_error
  rx-more f s w a i h = ground (
    arith,
    segment_fits f s a.sizes i.frame (omega arith),
    request_segment_lem (with_segment f s) w,
  )

  rx-last :
      (f : Frame) (s : Sdo) (w : Shared B)
      → Awaits s
      → IsSegment s.config f
      → s.recived_bytes + (f.can_dlc - 1) ≡ s.od_size
      → new_rx_frame f s w ≡ done (finished (with_segment f s), record w { sdo1_lock = false })
  unfolding new_rx_frame read_data_state_machine note_error
  rx-last f s w a i h = ground (
    arith,
    segment_fits f s a.sizes i.frame (omega arith),
    finish_read_lem (with_segment f s) w (with_segment-HasSizes f s a.sizes i.frame (omega arith))
        a.busy,
  )

  -- How a read transfer ends.
  pub record Uploads (s : Sdo) (w : Shared B) (fs : List Frame) (value : List ℕ) (r : Result B)
      : Type 0 where
    pub object : Sdo
    pub shared : Shared B
    pub result : r ≡ done (object, shared)
    pub value_read : object.data_buffer ≡ value
    pub idle : object.busy ≡ false
    pub at_rest : object.read_state ≡ read_idle
    pub to_show : object.refresh_needed ≡ true
    pub free : shared.sdo1_lock ≡ false
    pub asked : shared.write_buffer ≡ requested s.config s.use_tg1_frame fs w.write_buffer

  rx_all-Uploads :
      (f : Frame) (fs : List Frame) (s : Sdo) (w : Shared B)
      → Awaits s
      → AreSegments s.config (f ∷ fs)
      → s.recived_bytes + length (segments (f ∷ fs)) ≡ s.od_size
      → Uploads s w fs
          (take s.recived_bytes s.temp_data_buffer ++ segments (f ∷ fs))
          (rx_all (f ∷ fs) s w)
  unfolding rx_all
  rx_all-Uploads f [] s w a i h =
      let n : s.recived_bytes + (f.can_dlc - 1) ≡ s.od_size =
        omega (arith, length-segment_of f i.0.frame, ap length (append-nil (segment_of f))) in
      record {
        object = finished (with_segment f s);
        shared = record w { sdo1_lock = false };
        result = rw (rx-last f s w a i.0 n);
        value_read = rw (
            drop-all (s.recived_bytes + (f.can_dlc - 1)) s.temp_data_buffer
              (omega (arith, a.sizes.temp)));
        idle = refl;
        at_rest = refl;
        to_show = refl;
        free = refl;
        asked = refl;
      }
  rx_all-Uploads f (g ∷ fs) s w a i h =
      let total = length-append (segment_of f) (segments (g ∷ fs)) in
      let n : s.recived_bytes + (f.can_dlc - 1) < s.od_size = omega (
        arith,
        total,
        length-append (segment_of g) (segments fs),
        length-segment_of f i.0.frame,
        length-segment_of g i.1.0.frame,
        i.1.0.some_data,
      ) in
      let m : s.recived_bytes + (f.can_dlc - 1) + length (segments (g ∷ fs)) ≡ s.od_size =
        omega (arith, total, length-segment_of f i.0.frame) in
      let u =
        rx_all-Uploads g fs (advanced f s) (send (request s.config s.use_tg1_frame) w)
          (advanced-Awaits f s a i.0.frame (omega arith)) i.1 m in
      record {
        object = u.object;
        shared = u.shared;
        result = rw (rx-more f s w a i.0 n) u.result;
        value_read =
            u.value_read
            ∙ rw (advanced-prefix f s a i.0.frame) (
                append_assoc (take s.recived_bytes s.temp_data_buffer) (segment_of f)
                  (segments (g ∷ fs)));
        idle = u.idle;
        at_rest = u.at_rest;
        to_show = u.to_show;
        free = u.free;
        asked = u.asked;
      }

  rx-confirmed :
      (s : Sdo) (w : Shared B)
      → s.busy ≡ true
      → s.rw ≡ dir_read
      → s.read_state ≡ read_wait_for_conf
      → new_rx_frame (read_slave_conf_frame s.config) s w
        ≡ done (
          record s { read_state = read_wait_for_data; use_tg1_frame = true },
          send (read_conf_req_frame_tg0 s.config) w,
        )
  unfolding new_rx_frame read_data_state_machine note_error
  rx-confirmed s w b r st =
      ground (arith, frame_equal_self (read_slave_conf_frame s.config), conf-id s.config)

  -- A whole read, of a valid object. The slave confirms the request with the expected size, and then sends data
  -- frames whose segments add up to that size. Then the value is the segments in their order, the
  -- object is idle and will be shown, the lock is free again, and the object has asked for every
  -- segment exactly once, with the toggle bit alternating from 0.
  pub upload :
      (f : Frame) (fs : List Frame) (s : Sdo) (w : Shared B)
      → IsValid B s w
      → s.busy ≡ true
      → s.rw ≡ dir_read
      → s.read_state ≡ read_wait_for_conf
      → s.recived_bytes ≡ 0
      → AreSegments s.config (f ∷ fs)
      → length (segments (f ∷ fs)) ≡ s.od_size
      → (s' : Sdo) × (w' : Shared B) × (rx_all (read_slave_conf_frame s.config ∷ f ∷ fs) s w
          ≡ done (s', w'))
        × (s'.data_buffer ≡ segments (f ∷ fs))
        × (s'.busy ≡ false)
        × (s'.read_state ≡ read_idle)
        × (s'.refresh_needed ≡ true)
        × (w'.sdo1_lock ≡ false)
        × (w'.write_buffer ≡ requested s.config false (f ∷ fs) w.write_buffer)
  unfolding rx_all
  upload f fs s w v b r st zero_bytes i h =
      let s1 : Sdo = record s { read_state = read_wait_for_data; use_tg1_frame = true } in
      let z = v.sizes in
      let a : Awaits s1 = record {
        sizes = record {
          small = z.small;
          buffered = z.buffered;
          temp = z.temp;
          framed = z.framed;
          addressed = z.addressed;
          recived = z.recived;
          written = z.written;
          printable = z.printable;
        };
        busy = b;
        reads = r;
        state = refl;
      } in
      let u =
        rx_all-Uploads f fs s1 (send (read_conf_req_frame_tg0 s.config) w) a i (omega arith) in
      let none_yet : take s.recived_bytes s.temp_data_buffer ≡ [] = rw zero_bytes in
      (
        u.object,
        u.shared,
        rw (rx-confirmed s w b r st) u.result,
        u.value_read ∙ ap (λ l. l ++ segments (f ∷ fs)) none_yet,
        u.idle,
        u.at_rest,
        u.to_show,
        u.free,
        u.asked,
      )
