-- ===== src/Sdo/Run.antt =====
-- Runs of an ecmcCANOpenSDO: calls of execute, received frames and values written over asyn, in any
-- order; and the inputs on which a memcpy of the object leaves its block.
use e3_ecmc_plugin_socketcan.Common.{
  ℕ, ◌^◌, ◌≤◌, ◌<◌, ◌≡◌, refl, ◌∙◌, List, inl, inr, arith, length, take, ◌==◌, length-take,
  Bool-cases,
}
use e3_ecmc_plugin_socketcan.Common.Memory.{done, fault, memcpy, memcpy-prefix}
use e3_ecmc_plugin_socketcan.Defs.{dir_write}
use e3_ecmc_plugin_socketcan.Frame.{Frame}
use e3_ecmc_plugin_socketcan.Sink.{FrameSink}
use e3_ecmc_plugin_socketcan.Sdo.{Sdo, Shared, Result, set_value, bytes_to_read}
use e3_ecmc_plugin_socketcan.Sdo.Methods.{
  execute, new_rx_frame, asyn_write_sdo_value, read_segment, read_data_state_machine, note_error,
}
use e3_ecmc_plugin_socketcan.Sdo.Invariant.{IsValid, Ends}
use e3_ecmc_plugin_socketcan.Sdo.Segments.{Suits}
use e3_ecmc_plugin_socketcan.Sdo.Steps.{execute-Ends, write_value-Ends}
use e3_ecmc_plugin_socketcan.Sdo.Frames.{new_rx_frame-Ends}
use e3_ecmc_plugin_socketcan.Sdo.Awaits.{Awaits}

pub data Event : Type 0 where
  tick : Event
  rx : Frame → Event
  written : List ℕ → Event

-- What the kernel and asyn are expected to pass: a frame with a command byte at least, if it is for
-- the object, and, to a
-- writing object alone, a value as long as the object.
abbrev pub IsProper : Sdo → Event → Type 0
IsProper s tick = Unit {0}
IsProper s (rx f) = Suits f s
IsProper s (written value) = (s.rw ≡ dir_write) × (s.od_size ≤ length value)

module _ {B : Type 0} ⦃k : FrameSink B⦄ where
  unfoldable pub handle : Event → Sdo → Shared B → Result B
  handle tick s w = execute s w
  handle (rx f) s w = new_rx_frame f s w
  handle (written value) s w = asyn_write_sdo_value value s w

  set_value-Ends :
      (value : List ℕ) (s : Sdo) (w : Shared B)
      → IsValid B s w
      → s.od_size ≤ length value
      → (s' : Sdo) × (set_value value s ≡ done s') × IsValid B s' w × (s'.rw ≡ s.rw)
  unfolding set_value
  set_value-Ends value s w v h =
      let size : length (take s.od_size value) ≡ s.od_size =
        omega (arith, length-take s.od_size value, h) in
      elim (Bool-cases (s.od_size == 0)) [
        | inl z ↦ (s, ground arith, v, refl)
        | inr z ↦ (
          record s { temp_data_buffer = take s.od_size value },
          ground (arith, memcpy-prefix s.temp_data_buffer value s.od_size v.sizes.temp h),
          ground (arith, size),
          refl,
        )
      ]

  -- A call of execute, a received frame that has 1 to 8 bytes if it is for the object, or a value written over asyn to a writing
  -- object, as long as the object at least: from a valid state, in which the size is even if debug
  -- mode is on, the call ends, with no copy outside
  -- a block, in a valid state.
  pub handle-Ends :
      (e : Event) (s : Sdo) (w : Shared B) → IsValid B s w → IsProper s e → Ends (handle e s w)
  unfolding handle asyn_write_sdo_value
  handle-Ends tick s w v p = execute-Ends s w v
  handle-Ends (rx f) s w v p = new_rx_frame-Ends f s w v p
  handle-Ends (written value) s w v (r, h) =
      let (s1, e1, v1, r1) = set_value-Ends value s w v h in
      let (c, s2, w2, e2, v2) = write_value-Ends s1 w v1 (r1 ∙ r) in
      (s2, w2, ground (arith, e1, e2), v2)

  -- A data frame of the slave with no data at all, not even a command byte, once a segment has
  -- been received: its length of -1 passes the test, and the copy leaves the buffer.
  pub empty_frame_faults :
      (f : Frame) (s : Sdo) (w : Shared B)
      → Awaits s
      → f.can_id ≡ s.cob_id_tx
      → f.can_dlc ≡ 0
      → 1 ≤ s.recived_bytes
      → new_rx_frame f s w ≡ fault
  unfolding new_rx_frame read_data_state_machine note_error read_segment bytes_to_read memcpy
  empty_frame_faults f s w a i d r = ground arith

  -- A value over asyn that is shorter than the object, and not empty, is read past its end.
  pub short_value_faults :
      (value : List ℕ) (s : Sdo) (w : Shared B)
      → 0 < length value
      → length value < s.od_size
      → s.od_size < 2 ^ 31
      → asyn_write_sdo_value value s w ≡ fault
  unfolding asyn_write_sdo_value set_value memcpy
  short_value_faults value s w pos short small = ground arith
