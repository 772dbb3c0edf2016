-- ===== src/Sdo/Frames.antt =====
-- newRxFrame of ecmcCANOpenSDO, with writeDataStateMachine.
use e3_ecmc_plugin_socketcan.Common.{
  ℕ, ◌+◌, ◌≤◌, ◌<◌, ◌≡◌, inl, inr, Bool, true, false, not, List, ◌++◌, arith, leb, ltb, ◌==◌, set,
  take, drop, length-append, length-take, length-drop, length-set, Bool-cases, ltb→lt,
}
use e3_ecmc_plugin_socketcan.Common.Memory.{done}
use e3_ecmc_plugin_socketcan.Defs.{dir_write, Direction-cases, write_idle, write_data}
use e3_ecmc_plugin_socketcan.Frame.{Frame, frame_equal}
use e3_ecmc_plugin_socketcan.Sink.{FrameSink}
use e3_ecmc_plugin_socketcan.SdoFrames.{write_slave_conf_cmd_frame}
use e3_ecmc_plugin_socketcan.Printing.{print_if-done}
use e3_ecmc_plugin_socketcan.Sdo.{Sdo, Shared, CodeResult}
use e3_ecmc_plugin_socketcan.Sdo.Methods.{
  send, write_wait_for_data_conf_frame, write_next_data_to_slave, write_data_state_machine,
  note_error, new_rx_frame,
}
use e3_ecmc_plugin_socketcan.Sdo.Invariant.{HasSizes, IsValid, Ends}
use e3_ecmc_plugin_socketcan.Sdo.Segments.{
  IsData, Suits, next_size, sent_frame, with_sent, write_next_lem, write_next-done, command_of,
}
use e3_ecmc_plugin_socketcan.Sdo.Reads.{unlocked, EndsOk, read_machine-EndsOk}

abbrev pub begun : Sdo → Sdo
begun s = record s { written_bytes = 0; use_tg1_frame = false }

pub with_sent-HasSizes :
    (t : Bool) (s : Sdo) → HasSizes s → s.written_bytes < s.od_size → HasSizes (with_sent t s)
with_sent-HasSizes t s z h =
    let p : List ℕ = set s.write_data_frame.payload 0 (command_of t s) in
    let seg : List ℕ = take (next_size s) (drop s.written_bytes s.data_buffer) in
    record {
      small = z.small;
      buffered = z.buffered;
      temp = z.temp;
      framed = omega (
        arith,
        length-append (take 1 p) (seg ++ drop (1 + next_size s) p),
        length-append seg (drop (1 + next_size s) p),
        length-take 1 p,
        length-take (next_size s) (drop s.written_bytes s.data_buffer),
        length-drop s.written_bytes s.data_buffer,
        length-drop (1 + next_size s) p,
        length-set s.write_data_frame.payload 0 (command_of t s),
        z.framed,
        z.buffered,
      );
      addressed = z.addressed;
      recived = z.recived;
      written = omega arith;
      printable = z.printable;
    }

pub begun-HasSizes : (s : Sdo) → HasSizes s → HasSizes (begun s)
begun-HasSizes s z = record {
  small = z.small;
  buffered = z.buffered;
  temp = z.temp;
  framed = z.framed;
  addressed = z.addressed;
  recived = z.recived;
  written = omega arith;
  printable = z.printable;
}

pub moved-HasSizes : {s : Sdo} → HasSizes s → HasSizes (record s { write_state = write_data })
moved-HasSizes z = record {
  small = z.small;
  buffered = z.buffered;
  temp = z.temp;
  framed = z.framed;
  addressed = z.addressed;
  recived = z.recived;
  written = z.written;
  printable = z.printable;
}

addressed-IsData : (f : Frame) (s : Sdo) → Suits f s → (f.can_id == s.cob_id_tx) ≡ true → IsData f
addressed-IsData f s (inl d) h = d
addressed-IsData f s (inr n) h = absurd (n (ground (arith, h)))

module _ {B : Type 0} ⦃k : FrameSink B⦄ where
  note_error-Ends : (m : CodeResult B) → EndsOk m → Ends (note_error m)
  unfolding note_error
  note_error-Ends m (s, w, e, v) = (s, w, rw e, v)

  -- The object at the start of the data phase.
  begun-IsValid : (s : Sdo) (w : Shared B) → IsValid B s w → IsValid B (begun s) w
  begun-IsValid s w v = ground arith

  toggled-IsValid :
      (t : Bool) (s : Sdo) (w : Shared B)
      → IsValid B s w
      → IsValid B (record s { use_tg1_frame = t }) w
  toggled-IsValid t s w v = ground arith

  -- After a call of writeNextDataToSlave the machine stands, or goes on, in WRITE_DATA.
  write_next-Ends :
      (t : Bool) (s : Sdo) (w : Shared B)
      → IsValid B s w
      → s.busy ≡ true
      → s.rw ≡ dir_write
      → (c : ℕ) × (s' : Sdo) × (w' : Shared B) × (write_next_data_to_slave t s w ≡ done (c, s', w'))
        × IsValid B (record s' { write_state = write_data }) w'
        × (s.write_state ≡ write_data → IsValid B s' w')
  write_next-Ends t s w v b r = elim (Bool-cases (ltb s.written_bytes s.od_size)) [
    | inl e ↦
        let h : s.written_bytes < s.od_size = ltb→lt _ _ e in
        (
          next_size s,
          with_sent t s,
          send (sent_frame t s) w,
          write_next_lem t s w v.sizes h,
          record {
            sizes = moved-HasSizes (with_sent-HasSizes t s v.sizes h);
            in_step = ground arith;
            holds = v.holds;
          },
          λ st. record {
            sizes = with_sent-HasSizes t s v.sizes h;
            in_step = ground arith;
            holds = v.holds;
          },
        )
    | inr e ↦
        let h : s.od_size ≤ s.written_bytes = ground arith in
        (0, s, w, write_next-done t s w v.sizes h, ground arith, λ st. v)
  ]

  write_machine-EndsOk :
      (f : Frame) (s : Sdo) (w : Shared B)
      → IsValid B s w
      → s.busy ≡ true
      → s.rw ≡ dir_write
      → EndsOk (write_data_state_machine f s w)
  unfolding write_data_state_machine
  write_machine-EndsOk f s w v b r = elim ((v.in_step.writes b r).0) [
    | inl st ↦ elim (Bool-cases (frame_equal (write_slave_conf_cmd_frame s.config) f)) [
      | inl q ↦
          let (c, s', w', e, v', _) = write_next-Ends false (begun s) w (begun-IsValid s w v) b r in
          (record s' { write_state = write_data }, w', ground (arith, e), v')
      | inr q ↦ (begun s, w, ground arith, begun-IsValid s w v)
    ]
    | inr st ↦ elim (Bool-cases (write_wait_for_data_conf_frame s.use_tg1_frame f s)) [
      | inr q ↦ (s, w, ground arith, v)
      | inl q ↦ elim (Bool-cases (leb s.od_size s.written_bytes)) [
        | inl e ↦ (
          record s { write_state = write_idle; use_tg1_frame = false; busy = false },
          unlocked w,
          ground (
            arith,
            print_if-done s.config.dbg_mode s.od_size s.data_buffer v.sizes.printable
                v.sizes.buffered,
          ),
          ground arith,
        )
        | inr e ↦
            let t : Bool = not s.use_tg1_frame in
            let (c, s', w', e', _, v') =
              write_next-Ends t (record s { use_tg1_frame = t }) w (toggled-IsValid t s w v) b r in
            (s', w', ground (arith, e'), v' st)
      ]
    ]
  ]

  -- newRxFrame never copies outside a block, and keeps the invariant, for every frame that is for
  -- another object or has at least a command byte: also out of turn, or malformed.
  pub new_rx_frame-Ends :
      (f : Frame) (s : Sdo) (w : Shared B) → IsValid B s w → Suits f s → Ends (new_rx_frame f s w)
  unfolding new_rx_frame
  new_rx_frame-Ends f s w v d = elim (Bool-cases s.busy) [
    | inr b ↦ (s, w, ground arith, v)
    | inl b ↦ elim (Bool-cases (f.can_id == s.cob_id_tx)) [
      | inr i ↦ (s, w, ground arith, v)
      | inl i ↦ elim (Direction-cases s.rw) [
        | inl r ↦
            let (s', w', e, v') = note_error-Ends _ (write_machine-EndsOk f s w v b r) in
            (s', w', ground (arith, e), v')
        | inr r ↦
            let (s', w', e, v') =
              note_error-Ends _ (read_machine-EndsOk f s w v b r (addressed-IsData f s d i)) in
            (s', w', ground (arith, e), v')
      ]
    ]
  ]
