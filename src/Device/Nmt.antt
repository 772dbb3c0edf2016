-- ===== src/Device/Nmt.antt =====
-- The NMT state that ecmcCANOpenDevice shows for a node: its heartbeats, and their absence.
use e3_ecmc_plugin_socketcan.Common.{
  ℕ, zero, suc, ◌+◌, ◌*◌, ◌≤◌, ◌<◌, ◌≡◌, refl, sym, ap, subst, ◌∙◌, ◌⊎◌, inl, inr, Bool, true,
  false, List, arith, replicate, mul_below,
}
use e3_ecmc_plugin_socketcan.Common.Memory.{Outcome, done, Outcome-cases, done-injective}
use e3_ecmc_plugin_socketcan.Defs.{
  NmtState, nmt_not_valid, nmt_boot_up, nmt_stopped, nmt_op, nmt_preop,
}
use e3_ecmc_plugin_socketcan.Frame.{Frame, byte}
use e3_ecmc_plugin_socketcan.Sink.{FrameSink}
use e3_ecmc_plugin_socketcan.Pdo.{Pdo}
use e3_ecmc_plugin_socketcan.Sdo.{Sdo}
use e3_ecmc_plugin_socketcan.Device.{
  Device, execute, new_rx_frame, execute_pdos, execute_sdos, new_rx_frame_pdos, new_rx_frame_sdos,
  shared, check_heart_beat, check_nmt, reported_state, validate_frame,
}
use e3_ecmc_plugin_socketcan.Device.Lock.{
  IsValid, Takes, execute-DeviceEnds, new_rx_frame-DeviceEnds,
}
use e3_ecmc_plugin_socketcan.Device.Run.{tick, run, handle}

-- The heartbeat shows the state: 0 is shown as NMT_BOOT_UP, 4 as NMT_STOPPED, 5 as NMT_OP, 0x7F,
-- which is the code of pre-operational, as NMT_BOOT_UP too, and any other code as NMT_NOT_VALID.
abbrev pub Shows : ℕ → NmtState → Type 0
Shows code nmt_boot_up = (code ≡ 0) ⊎ (code ≡ 0x7F)
Shows code nmt_stopped = code ≡ 4
Shows code nmt_op = code ≡ 5
Shows code nmt_preop = true ≡ false
Shows code nmt_not_valid = ¬ (code ≡ 0) × ¬ (code ≡ 4) × ¬ (code ≡ 5) × ¬ (code ≡ 0x7F)

reported-Shows : (code : ℕ) → Shows code (reported_state code)
unfolding reported_state
reported-Shows code = ground arith

-- Everything that a device knows of its node, the objects apart.
pub record SameNode (d d' : Device) : Type 0 where
  pub node : d'.node_id ≡ d.node_id
  pub sample : d'.exe_sample_time_ms ≡ d.exe_sample_time_ms
  pub timeout : d'.heart_timeout_ms ≡ d.heart_timeout_ms
  pub counter : d'.heart_beat_counter ≡ d.heart_beat_counter
  pub state : d'.nmt_state ≡ d.nmt_state
  pub param : d'.nmt_param ≡ d.nmt_param

checked-SameNode :
    (d : Device) (ps : List Pdo) (ss : List Sdo) (l : Bool)
    → SameNode
        (check_heart_beat d)
        (check_heart_beat (record d { pdos = ps; sdos = ss; sdo1_lock = l }))
unfolding check_heart_beat
checked-SameNode d ps ss l = ground arith

reported-SameNode :
    (f : Frame) (d : Device) (ps : List Pdo) (ss : List Sdo) (l : Bool)
    → SameNode (check_nmt f d) (check_nmt f (record d { pdos = ps; sdos = ss; sdo1_lock = l }))
unfolding check_nmt
reported-SameNode f d ps ss l = ground arith

module _ {B : Type 0} ⦃k : FrameSink B⦄ where
  execute-SameNode :
      (d d' : Device) (b b' : B) → execute d b ≡ done (d', b') → SameNode (check_heart_beat d) d'
  unfolding execute
  execute-SameNode d d' b b' e = elim (Outcome-cases (execute_pdos d.pdos b)) [
    | inr h ↦ absurd (ground (arith, e, h))
    | inl (r, h) ↦ elim (Outcome-cases (execute_sdos d.sdos (shared d r.1))) [
      | inr g ↦ absurd (ground (arith, e, h, g))
      | inl (q, g) ↦
          let d1 : Device = record d { pdos = r.0; sdos = q.0; sdo1_lock = q.1.sdo1_lock } in
          let result : execute d b ≡ done (check_heart_beat d1, q.1.write_buffer) = rw (h, g) in
          let same : d' ≡ check_heart_beat d1 = ap (λ x. x.0) (done-injective (sym e ∙ result)) in
          subst (SameNode (check_heart_beat d)) (sym same)
            (checked-SameNode d r.0 q.0 q.1.sdo1_lock)
    ]
  ]

  rx-SameNode :
      (f : Frame) (d d' : Device) (b b' : B)
      → d.is_master ≡ false
      → validate_frame d f ≡ true
      → new_rx_frame f d b ≡ done (d', b')
      → SameNode (check_nmt f d) d'
  unfolding new_rx_frame
  rx-SameNode f d d' b b' s own e = elim (Outcome-cases (new_rx_frame_pdos f d.pdos)) [
    | inr h ↦ absurd (ground (arith, e, h))
    | inl (ps, h) ↦ elim (Outcome-cases (new_rx_frame_sdos f d.sdos (shared d b))) [
      | inr g ↦ absurd (ground (arith, e, h, g))
      | inl (q, g) ↦
          let d1 : Device = record d { pdos = ps; sdos = q.0; sdo1_lock = q.1.sdo1_lock } in
          let result : new_rx_frame f d b ≡ done (check_nmt f d1, q.1.write_buffer) =
            rw (own, s, h, g) in
          let same : d' ≡ check_nmt f d1 = ap (λ x. x.0) (done-injective (sym e ∙ result)) in
          subst (SameNode (check_nmt f d)) (sym same) (reported-SameNode f d ps q.0 q.1.sdo1_lock)
    ]
  ]

  -- A call of execute of a valid device, as far as its node goes.
  pub ticked :
      (d : Device) (b : B)
      → IsValid d
      → (d' : Device) × (b' : B) × (execute d b ≡ done (d', b'))
        × IsValid d'
        × SameNode (check_heart_beat d) d'
  ticked d b v =
      let (d', b', e, v') = execute-DeviceEnds d b v in
      (d', b', e, v', execute-SameNode d d' b b' e)

  -- `n` calls of execute, of which none comes too late.
  abbrev Alive : ℕ → Device → Outcome (Device × B) → Type 0
  Alive n d r =
      (d' : Device) × (b' : B) × (r ≡ done (d', b'))
      × IsValid d'
      × (d'.heart_beat_counter ≡ d.heart_beat_counter + n)
      × (d'.exe_sample_time_ms ≡ d.exe_sample_time_ms)
      × (d'.heart_timeout_ms ≡ d.heart_timeout_ms)
      × (d'.nmt_state ≡ d.nmt_state)
      × (d'.nmt_param ≡ d.nmt_param)

  ticked-Alive :
      (d : Device) (b : B)
      → IsValid d
      → d.heart_beat_counter * d.exe_sample_time_ms < d.heart_timeout_ms
      → Alive 1 d (execute d b)
  unfolding check_heart_beat
  ticked-Alive d b v h =
      let (d', b', e, v', same) = ticked d b v in
      (
        d',
        b',
        e,
        v',
        ground (arith, same.counter),
        ground (arith, same.sample),
        ground (arith, same.timeout),
        ground (arith, same.state),
        ground (arith, same.param),
      )

  run-Alive :
      (n : ℕ) (d : Device) (b : B)
      → IsValid d
      → (d.heart_beat_counter + n) * d.exe_sample_time_ms < d.heart_timeout_ms
      → Alive (n + 1) d (run (replicate (suc n) tick) d b)
  unfolding run handle
  run-Alive zero d b v h =
      let (d', b', e, v', c, s, t, x, p) =
        ticked-Alive d b v
          (mul_below d.heart_beat_counter (d.heart_beat_counter + 0) _ _ (omega arith) h) in
      (d', b', rw e refl, v', omega (arith, c), s, t, x, p)
  run-Alive (suc n) d b v h =
      let (d1, b1, e1, v1, c1, s1, t1, x1, p1) =
        ticked-Alive d b v
          (mul_below d.heart_beat_counter (d.heart_beat_counter + suc n) _ _ (omega arith) h) in
      let c : d1.heart_beat_counter + n ≡ d.heart_beat_counter + suc n = omega (arith, c1) in
      let (d2, b2, e2, v2, c2, s2, t2, x2, p2) = run-Alive n d1 b1 v1 (rw (c, s1, t1) h) in
      (d2, b2, rw e1 e2, v2, omega (arith, c1, c2), s2 ∙ s1, t2 ∙ t1, x2 ∙ x1, p2 ∙ p1)

  -- The heartbeat timeout of a valid device. After a heartbeat, which sets the count to 0, the state of the node
  -- stands for n + 1 calls of execute, if n periods are shorter than the timeout; and if n + 1
  -- periods reach it, the next call shows NMT_NOT_VALID. Frames in between are not considered.
  pub heart_beat_timeout :
      (n : ℕ) (d : Device) (b : B)
      → IsValid d
      → d.heart_beat_counter ≡ 0
      → n * d.exe_sample_time_ms < d.heart_timeout_ms
      → d.heart_timeout_ms ≤ (n + 1) * d.exe_sample_time_ms
      → (d1 : Device) × (b1 : B) × (run (replicate (suc n) tick) d b ≡ done (d1, b1))
        × (d1.nmt_state ≡ d.nmt_state)
        × (d1.nmt_param ≡ d.nmt_param)
        × (d2 : Device) × (b2 : B) × (execute d1 b1 ≡ done (d2, b2))
        × (d2.nmt_state ≡ nmt_not_valid)
        × (d2.nmt_param ≡ nmt_not_valid)
  unfolding check_heart_beat
  heart_beat_timeout n d b v z below reached =
      let c : d.heart_beat_counter + n ≡ n = omega arith in
      let (d1, b1, e1, v1, c1, s1, t1, x1, p1) = run-Alive n d b v (rw c below) in
      let (d2, b2, e2, v2, same) = ticked d1 b1 v1 in
      let c2 : d1.heart_beat_counter ≡ n + 1 = omega (arith, c1) in
      let late : d1.heart_timeout_ms ≤ d1.heart_beat_counter * d1.exe_sample_time_ms =
        rw (c2, s1, t1) reached in
      (d1, b1, e1, x1, p1, d2, b2, e2, ground (arith, same.state), ground (arith, same.param))

  -- A heartbeat. A frame of 1 byte with id 0x700 + node id sets a valid device, which is no master,
  -- to the state that the byte stands for, and starts the heartbeat count anew: code 0 is
  -- NMT_BOOT_UP, 4 NMT_STOPPED and 5 NMT_OP; 0x7F is NMT_BOOT_UP too, although the enumeration has
  -- NMT_PREOP, and any other code is NMT_NOT_VALID.
  pub heart_beat_received :
      (f : Frame) (d : Device) (b : B)
      → IsValid d
      → Takes f d
      → d.is_master ≡ false
      → d.node_id < 128
      → f.can_id ≡ 0x700 + d.node_id
      → f.can_dlc ≡ 1
      → (d' : Device) × (b' : B) × (new_rx_frame f d b ≡ done (d', b'))
        × IsValid d'
        × Shows (byte f 0) d'.nmt_state
        × (d'.heart_beat_counter ≡ 0)
  unfolding check_nmt
  heart_beat_received f d b v i s small id one =
      let own : validate_frame d f ≡ true = unfold validate_frame in ground arith in
      let (d', b', e, v') = new_rx_frame-DeviceEnds f d b v i in
      let same = rx-SameNode f d d' b b' s own e in
      let shown : d'.nmt_state ≡ reported_state (byte f 0) = ground (arith, same.state) in
      (d', b', e, v', rw shown (reported-Shows (byte f 0)), ground (arith, same.counter))
