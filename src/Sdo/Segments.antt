-- ===== src/Sdo/Segments.antt =====
-- One segment of a transfer of ecmcCANOpenSDO, in either direction.
use e3_ecmc_plugin_socketcan.Common.{
  ℕ, ◌+◌, ◌-◌, ◌%◌, ◌^◌, ◌≤◌, ◌<◌, ◌≡◌, ◌≢◌, ◌⊎◌, inl, inr, Bool, List, ◌++◌, arith, leb, length,
  set, take, drop, min, length-append, length-take, length-drop, length-set, Bool-cases, leb→le,
}
use e3_ecmc_plugin_socketcan.Common.Memory.{done, memcpy-done}
use e3_ecmc_plugin_socketcan.Frame.{Frame, IsFrame}
use e3_ecmc_plugin_socketcan.Sink.{FrameSink}
use e3_ecmc_plugin_socketcan.Sdo.{Sdo, Shared, bytes_to_read, bytes_to_write, write_cmd_byte}
use e3_ecmc_plugin_socketcan.Sdo.Methods.{
  send, next_segment, read_segment, write_next_data_to_slave,
}
use e3_ecmc_plugin_socketcan.Sdo.Invariant.{HasSizes}

-- A data frame as the kernel delivers it, with a command byte at least.
pub record IsData (f : Frame) : Type 0 where
  pub framed : IsFrame f
  pub low : 1 ≤ f.can_dlc
  pub high : f.can_dlc ≤ 8

-- A frame that an object can take: one with a command byte at least, or one that is not for it.
abbrev pub Suits : Frame → Sdo → Type 0
Suits f s = IsData f ⊎ (f.can_id ≢ s.cob_id_tx)

-- The data bytes behind the command byte.
abbrev pub segment_of : Frame → List ℕ
segment_of f = take (f.can_dlc - 1) (drop 1 f.payload)

pub length-segment_of : (f : Frame) → IsData f → length (segment_of f) ≡ f.can_dlc - 1
length-segment_of f d = omega (
  arith,
  length-take (f.can_dlc - 1) (drop 1 f.payload),
  length-drop 1 f.payload,
  d.framed,
  d.low,
  d.high,
)

bytes_to_read_small : (dlc : ℕ) → 1 ≤ dlc → dlc ≤ 8 → bytes_to_read dlc ≡ dlc - 1
unfolding bytes_to_read
bytes_to_read_small dlc h l = ground arith

-- The object with a segment behind the bytes received so far.
abbrev pub with_segment : Frame → Sdo → Sdo
with_segment f s = record s {
  temp_data_buffer =
      take s.recived_bytes s.temp_data_buffer
      ++ (segment_of f ++ drop (s.recived_bytes + (f.can_dlc - 1)) s.temp_data_buffer);
  recived_bytes = s.recived_bytes + (f.can_dlc - 1);
}

-- A segment that fits is taken, and one that does not is dropped whole.
pub read_segment_lem :
    (f : Frame) (s : Sdo)
    → HasSizes s
    → IsData f
    → ((s.recived_bytes + (f.can_dlc - 1) ≤ s.od_size)
        × (read_segment f s ≡ done (with_segment f s)))
      ⊎ ((s.od_size < s.recived_bytes + (f.can_dlc - 1)) × (read_segment f s ≡ done s))
unfolding read_segment
read_segment_lem f s z d =
    let n : bytes_to_read f.can_dlc ≡ f.can_dlc - 1 = bytes_to_read_small f.can_dlc d.low d.high in
    elim (Bool-cases (leb (s.recived_bytes + (f.can_dlc - 1)) s.od_size)) [
      | inl e ↦
          let h : s.recived_bytes + (f.can_dlc - 1) ≤ s.od_size = leb→le _ _ e in
          inl (
            h,
            ground (
              arith,
              n,
              d.low,
              d.high,
              z.small,
              memcpy-done s.temp_data_buffer s.recived_bytes f.payload 1 (f.can_dlc - 1)
                  (omega (arith, z.temp)) (omega (arith, d.framed, d.low, d.high)),
            ),
          )
      | inr e ↦
          let h : s.od_size < s.recived_bytes + (f.can_dlc - 1) = ground arith in
          inr (h, ground (arith, n, d.low, d.high, z.small, z.recived))
    ]

pub with_segment-HasSizes :
    (f : Frame) (s : Sdo)
    → HasSizes s
    → IsData f
    → s.recived_bytes + (f.can_dlc - 1) ≤ s.od_size
    → HasSizes (with_segment f s)
with_segment-HasSizes f s z d h = record {
  small = z.small;
  buffered = z.buffered;
  temp = omega (
    arith,
    length-append (take s.recived_bytes s.temp_data_buffer)
        (segment_of f ++ drop (s.recived_bytes + (f.can_dlc - 1)) s.temp_data_buffer),
    length-append (segment_of f) (drop (s.recived_bytes + (f.can_dlc - 1)) s.temp_data_buffer),
    length-take s.recived_bytes s.temp_data_buffer,
    length-drop (s.recived_bytes + (f.can_dlc - 1)) s.temp_data_buffer,
    length-segment_of f d,
    z.temp,
  );
  framed = z.framed;
  addressed = z.addressed;
  recived = h;
  written = z.written;
  printable = z.printable;
}

-- How many bytes the next data frame carries.
abbrev pub next_size : Sdo → ℕ
next_size s = min 7 (s.od_size - s.written_bytes)

bytes_to_write_lem : (s : Sdo) → HasSizes s → bytes_to_write s.od_size s.written_bytes ≡ next_size s
unfolding bytes_to_write
bytes_to_write_lem s z = ground (arith, z.small, z.written)

-- The next data frame: its command byte, and the bytes that follow those written.
abbrev pub command_of : Bool → Sdo → ℕ
command_of t s =
    write_cmd_byte (leb s.od_size ((s.written_bytes + next_size s) % 2 ^ 32)) (7 - next_size s) t

abbrev pub sent_frame : Bool → Sdo → Frame
sent_frame t s = next_segment s (next_size s) (
    take 1 (set s.write_data_frame.payload 0 (command_of t s))
    ++ (take (next_size s) (drop s.written_bytes s.data_buffer)
        ++ drop (1 + next_size s) (set s.write_data_frame.payload 0 (command_of t s))))

abbrev pub with_sent : Bool → Sdo → Sdo
with_sent t s = record s {
  write_data_frame = sent_frame t s;
  written_bytes = s.written_bytes + next_size s;
}

module _ {B : Type 0} ⦃k : FrameSink B⦄ where
  pub write_next_lem :
      (t : Bool) (s : Sdo) (w : Shared B)
      → HasSizes s
      → s.written_bytes < s.od_size
      → write_next_data_to_slave t s w ≡ done (next_size s, with_sent t s, send (sent_frame t s) w)
  unfolding write_next_data_to_slave
  write_next_lem t s w z h =
      let n = next_size s in
      let command = command_of t s in
      let set8 : length (set s.write_data_frame.payload 0 command) ≡ 8 =
        omega (arith, length-set s.write_data_frame.payload 0 command, z.framed) in
      ground (
        arith,
        bytes_to_write_lem s z,
        z.small,
        memcpy-done (set s.write_data_frame.payload 0 command) 1 s.data_buffer s.written_bytes n
            (omega arith) (omega (arith, z.buffered)),
      )

  pub write_next-done :
      (t : Bool) (s : Sdo) (w : Shared B)
      → HasSizes s
      → s.od_size ≤ s.written_bytes
      → write_next_data_to_slave t s w ≡ done (0, s, w)
  unfolding write_next_data_to_slave
  write_next-done t s w z h = ground (arith, bytes_to_write_lem s z)
