-- ===== src/Sdo/Awaits.antt =====
-- An ecmcCANOpenSDO that waits for a segment, and the segments that its slave sends.
use e3_ecmc_plugin_socketcan.Common.{
  ℕ, ◌+◌, ◌-◌, ◌≤◌, ◌≡◌, refl, inl, inr, Bool, true, false, not, List, [], ◌∷◌, ◌++◌, arith, take,
  drop, length-append, length-take, take-append, append_assoc,
}
use e3_ecmc_plugin_socketcan.Common.Memory.{done}
use e3_ecmc_plugin_socketcan.Defs.{dir_read, read_wait_for_data}
use e3_ecmc_plugin_socketcan.Frame.{Frame}
use e3_ecmc_plugin_socketcan.SdoFrames.{
  SdoConfig, read_conf_req_frame_tg0, read_conf_req_frame_tg1, read_slave_conf_frame,
}
use e3_ecmc_plugin_socketcan.Sdo.{Sdo}
use e3_ecmc_plugin_socketcan.Sdo.Methods.{read_segment}
use e3_ecmc_plugin_socketcan.Sdo.Invariant.{HasSizes}
use e3_ecmc_plugin_socketcan.Sdo.Segments.{
  IsData, segment_of, length-segment_of, with_segment, read_segment_lem, with_segment-HasSizes,
}

-- The object waits for a data frame of the slave.
pub record Awaits (s : Sdo) : Type 0 where
  pub sizes : HasSizes s
  pub busy : s.busy ≡ true
  pub reads : s.rw ≡ dir_read
  pub state : s.read_state ≡ read_wait_for_data

-- A data frame of the object's slave, with a byte of data at least.
pub record IsSegment (c : SdoConfig) (f : Frame) : Type 0 where
  pub frame : IsData f
  pub sender : f.can_id ≡ c.cob_id_tx
  pub some_data : 2 ≤ f.can_dlc

abbrev pub AreSegments : SdoConfig → List Frame → Type 0
AreSegments c [] = Unit {0}
AreSegments c (f ∷ fs) = IsSegment c f × AreSegments c fs

-- The bytes that the frames carry.
abbrev pub segments : List Frame → List ℕ
segments [] = []
segments (f ∷ fs) = segment_of f ++ segments fs

-- The requests for further segments, with alternating toggle.
abbrev pub request : SdoConfig → Bool → Frame
request c true = read_conf_req_frame_tg1 c
request c false = read_conf_req_frame_tg0 c

pub conf-id : (c : SdoConfig) → (read_slave_conf_frame c).can_id ≡ c.cob_id_tx
unfolding read_slave_conf_frame
conf-id c = refl

pub segment_fits :
    (f : Frame) (s : Sdo)
    → HasSizes s
    → IsData f
    → s.recived_bytes + (f.can_dlc - 1) ≤ s.od_size
    → read_segment f s ≡ done (with_segment f s)
segment_fits f s z d h = elim (read_segment_lem f s z d) [
  | inl (_, e) ↦ e
  | inr (l, _) ↦ absurd (omega arith)
]

-- The object after a segment that is not the last.
abbrev pub advanced : Frame → Sdo → Sdo
advanced f s = record (with_segment f s) { use_tg1_frame = not s.use_tg1_frame }

pub advanced-Awaits :
    (f : Frame) (s : Sdo)
    → Awaits s
    → IsData f
    → s.recived_bytes + (f.can_dlc - 1) ≤ s.od_size
    → Awaits (advanced f s)
advanced-Awaits f s a d h =
    let z = with_segment-HasSizes f s a.sizes d h in
    record {
      sizes = record {
        small = z.small;
        buffered = z.buffered;
        temp = z.temp;
        framed = z.framed;
        addressed = z.addressed;
        recived = z.recived;
        written = z.written;
        printable = z.printable;
      };
      busy = a.busy;
      reads = a.reads;
      state = a.state;
    }

-- The bytes received so far are those from before and the new segment.
pub advanced-prefix :
    (f : Frame) (s : Sdo)
    → Awaits s
    → IsData f
    → take (s.recived_bytes + (f.can_dlc - 1)) (with_segment f s).temp_data_buffer
      ≡ take s.recived_bytes s.temp_data_buffer ++ segment_of f
advanced-prefix f s a d =
    let rest : List ℕ = drop (s.recived_bytes + (f.can_dlc - 1)) s.temp_data_buffer in
    let old : List ℕ = take s.recived_bytes s.temp_data_buffer in
    rw (← append_assoc old (segment_of f) rest) (
      take-append (s.recived_bytes + (f.can_dlc - 1)) (old ++ segment_of f) rest (
        omega (
          arith,
          length-append old (segment_of f),
          length-take s.recived_bytes s.temp_data_buffer,
          length-segment_of f d,
          a.sizes.temp,
          a.sizes.recived,
        )))
