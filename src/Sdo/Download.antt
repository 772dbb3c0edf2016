-- ===== src/Sdo/Download.antt =====
-- A whole write transfer of ecmcCANOpenSDO, from the slave's confirmation to the last segment's.
use e3_ecmc_plugin_socketcan.Common.{
  ℕ, zero, suc, ◌+◌, ◌*◌, ◌-◌, ◌≤◌, ◌<◌, ◌≡◌, refl, Bool, true, false, not, some, List, [], ◌∷◌,
  arith,
}
use e3_ecmc_plugin_socketcan.Common.Memory.{done}
use e3_ecmc_plugin_socketcan.Defs.{dir_write, write_idle, write_wait_for_conf, write_data}
use e3_ecmc_plugin_socketcan.Frame.{Frame}
use e3_ecmc_plugin_socketcan.Frame.Equal.{frame_equal_self}
use e3_ecmc_plugin_socketcan.Sink.{FrameSink, put}
use e3_ecmc_plugin_socketcan.SdoFrames.{
  SdoConfig, write_slave_conf_cmd_frame, write_conf_req_frame_tg0, write_conf_req_frame_tg1,
}
use e3_ecmc_plugin_socketcan.Printing.{print_if-done}
use e3_ecmc_plugin_socketcan.Sdo.{Sdo, Shared, Result}
use e3_ecmc_plugin_socketcan.Sdo.Methods.{
  send, write_wait_for_data_conf_frame, write_data_state_machine, note_error, new_rx_frame,
}
use e3_ecmc_plugin_socketcan.Sdo.Invariant.{HasSizes, IsValid}
use e3_ecmc_plugin_socketcan.Sdo.Segments.{sent_frame, with_sent, write_next_lem}
use e3_ecmc_plugin_socketcan.Sdo.Frames.{begun, begun-HasSizes, moved-HasSizes, with_sent-HasSizes}
use e3_ecmc_plugin_socketcan.Sdo.Upload.{rx_all}
use e3_ecmc_plugin_socketcan.Sdo.Slave.{receive, Decoded, receive_next, moved-Decoded}

-- The slave's confirmations of segments, with alternating toggle.
abbrev pub confirmation : SdoConfig → Bool → Frame
confirmation c true = write_conf_req_frame_tg1 c
confirmation c false = write_conf_req_frame_tg0 c

abbrev pub confirmations : SdoConfig → Bool → ℕ → List Frame
confirmations c t zero = []
confirmations c t (suc n) = confirmation c t ∷ confirmations c (not t) n

flipped-HasSizes : (t : Bool) (s : Sdo) → HasSizes s → HasSizes (record s { use_tg1_frame = not t })
flipped-HasSizes t s z = record {
  small = z.small;
  buffered = z.buffered;
  temp = z.temp;
  framed = z.framed;
  addressed = z.addressed;
  recived = z.recived;
  written = z.written;
  printable = z.printable;
}

-- The object has sent a segment with toggle `t` and waits for its confirmation.
record Sent (t : Bool) (s : Sdo) : Type 0 where
  sizes : HasSizes s
  busy : s.busy ≡ true
  writes : s.rw ≡ dir_write
  state : s.write_state ≡ write_data
  toggle : s.use_tg1_frame ≡ t

confirmed :
    (t : Bool) (s : Sdo)
    → s.use_tg1_frame ≡ t
    → write_wait_for_data_conf_frame s.use_tg1_frame (confirmation s.config t) s ≡ true
unfolding write_wait_for_data_conf_frame
confirmed true s e = rw e (frame_equal_self (write_conf_req_frame_tg1 s.config))
confirmed false s e = rw e (frame_equal_self (write_conf_req_frame_tg0 s.config))

confirmation-id : (c : SdoConfig) (t : Bool) → (confirmation c t).can_id ≡ c.cob_id_tx
unfolding write_conf_req_frame_tg0 write_conf_req_frame_tg1
confirmation-id c true = refl
confirmation-id c false = refl

abbrev ended : Sdo → Sdo
ended s = record s { write_state = write_idle; use_tg1_frame = false; busy = false }

abbrev flipped : Bool → Sdo → Sdo
flipped t s = record s { use_tg1_frame = not t }

next-Sent :
    (t : Bool) (s : Sdo)
    → Sent t s
    → s.written_bytes < s.od_size
    → Sent (not t) (with_sent (not t) (flipped t s))
next-Sent t s a h = record {
  sizes = with_sent-HasSizes (not t) (flipped t s) (flipped-HasSizes t s a.sizes) h;
  busy = a.busy;
  writes = a.writes;
  state = a.state;
  toggle = refl;
}

conf-id : (c : SdoConfig) → (write_slave_conf_cmd_frame c).can_id ≡ c.cob_id_tx
unfolding write_slave_conf_cmd_frame
conf-id c = refl

module _ {B : Type 0} ⦃k : FrameSink B⦄ where
  abbrev pub put_all : List Frame → B → B
  put_all [] b = b
  put_all (f ∷ fs) b = put_all fs (put f b)

  rx-end :
      (t : Bool) (s : Sdo) (w : Shared B)
      → Sent t s
      → s.written_bytes ≡ s.od_size
      → new_rx_frame (confirmation s.config t) s w ≡ done (ended s, record w { sdo1_lock = false })
  unfolding new_rx_frame write_data_state_machine note_error
  rx-end t s w a h = ground (
    arith,
    confirmed t s a.toggle,
    confirmation-id s.config t,
    print_if-done s.config.dbg_mode s.od_size s.data_buffer a.sizes.printable a.sizes.buffered,
  )

  rx-next :
      (t : Bool) (s : Sdo) (w : Shared B)
      → Sent t s
      → s.written_bytes < s.od_size
      → new_rx_frame (confirmation s.config t) s w
        ≡ done (with_sent (not t) (flipped t s), send (sent_frame (not t) (flipped t s)) w)
  unfolding new_rx_frame write_data_state_machine note_error
  rx-next t s w a h = ground (
    arith,
    confirmed t s a.toggle,
    confirmation-id s.config t,
    write_next_lem (not t) (flipped t s) w (flipped-HasSizes t s a.sizes) h,
  )

  -- How a write transfer ends.
  record Downloads (m : ℕ) (t : Bool) (s : Sdo) (w : Shared B) (r : Result B) : Type 0 where
    frames : List Frame
    object : Sdo
    shared : Shared B
    result : r ≡ done (object, shared)
    idle : object.busy ≡ false
    at_rest : object.write_state ≡ write_idle
    kept : object.data_buffer ≡ s.data_buffer
    free : shared.sdo1_lock ≡ false
    queued : shared.write_buffer ≡ put_all frames w.write_buffer
    decoded : Decoded m t s frames

  rx_confirmations :
      (m : ℕ) (t : Bool) (s : Sdo) (w : Shared B)
      → Sent t s
      → s.od_size - s.written_bytes ≤ 7 * m
      → 7 * m < s.od_size - s.written_bytes + 7
      → Downloads m (not t) s w (rx_all (confirmations s.config t (suc m)) s w)
  unfolding rx_all
  rx_confirmations zero t s w a hi lo =
      let full : s.written_bytes ≡ s.od_size = omega (arith, a.sizes.written) in
      record {
        frames = [];
        object = ended s;
        shared = record w { sdo1_lock = false };
        result = rw (rx-end t s w a full);
        idle = refl;
        at_rest = refl;
        kept = refl;
        free = refl;
        queued = refl;
        decoded = refl;
      }
  rx_confirmations (suc m) t s w a hi lo =
      let h : s.written_bytes < s.od_size = omega arith in
      let f : Frame = sent_frame (not t) (flipped t s) in
      let u =
        rx_confirmations m (not t) (with_sent (not t) (flipped t s)) (send f w) (next-Sent t s a h)
          (omega arith) (omega arith) in
      record {
        frames = f ∷ u.frames;
        object = u.object;
        shared = u.shared;
        result = rw (rx-next t s w a h) u.result;
        idle = u.idle;
        at_rest = u.at_rest;
        kept = u.kept;
        free = u.free;
        queued = u.queued;
        decoded =
            receive_next m (not t) (flipped t s) u.frames (flipped-HasSizes t s a.sizes) hi lo
              u.decoded;
      }

  rx-started :
      (s : Sdo) (w : Shared B)
      → HasSizes (begun s)
      → s.busy ≡ true
      → s.rw ≡ dir_write
      → s.write_state ≡ write_wait_for_conf
      → 0 < s.od_size
      → new_rx_frame (write_slave_conf_cmd_frame s.config) s w
        ≡ done (
          record (with_sent false (begun s)) { write_state = write_data },
          send (sent_frame false (begun s)) w,
        )
  unfolding new_rx_frame write_data_state_machine note_error
  rx-started s w z b r st h = ground (
    arith,
    frame_equal_self (write_slave_conf_cmd_frame s.config),
    conf-id s.config,
    write_next_lem false (begun s) w z h,
  )

  -- A whole write, of a valid object. The slave confirms the request, and then each of the m + 1 segments that the
  -- size makes, with alternating toggle. Then the frames that the object queued are, for a slave
  -- that decodes them, exactly the object's data, complete with the last segment and not before;
  -- the object is idle with its data unchanged, and the lock is free again.
  pub download :
      (m : ℕ) (s : Sdo) (w : Shared B)
      → IsValid B s w
      → s.busy ≡ true
      → s.rw ≡ dir_write
      → s.write_state ≡ write_wait_for_conf
      → s.od_size ≤ 7 * suc m
      → 7 * m < s.od_size
      → (frames : List Frame) × (s' : Sdo) × (w' : Shared B) × (rx_all
            (write_slave_conf_cmd_frame s.config ∷ confirmations s.config false (suc m))
            s
            w
          ≡ done (s', w'))
        × (w'.write_buffer ≡ put_all frames w.write_buffer)
        × (receive s.cob_id_rx false frames ≡ some s.data_buffer)
        × (s'.busy ≡ false)
        × (s'.write_state ≡ write_idle)
        × (s'.data_buffer ≡ s.data_buffer)
        × (w'.sdo1_lock ≡ false)
  unfolding rx_all
  download m s w v b r st hi lo =
      let z : HasSizes (begun s) = begun-HasSizes s v.sizes in
      let s1 : Sdo = record (with_sent false (begun s)) { write_state = write_data } in
      let f : Frame = sent_frame false (begun s) in
      let a : Sent false s1 = record {
        sizes = moved-HasSizes (with_sent-HasSizes false (begun s) z (omega arith));
        busy = b;
        writes = r;
        state = refl;
        toggle = refl;
      } in
      let u = rx_confirmations m false s1 (send f w) a (omega arith) (omega arith) in
      (
        f ∷ u.frames,
        u.object,
        u.shared,
        rw (rx-started s w z b r st (omega arith)) u.result,
        u.queued,
        receive_next m false (begun s) u.frames z (omega arith) (omega arith)
            (moved-Decoded m (not false) (with_sent false (begun s)) u.frames u.decoded),
        u.idle,
        u.at_rest,
        u.kept,
        u.free,
      )
