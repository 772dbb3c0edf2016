-- ===== src/Device/Lock.antt =====
-- sdo1Lock_ of ecmcCANOpenDevice, and the number of its SDOs that have a transfer on the bus.
use e3_ecmc_plugin_socketcan.Common.{
  ℕ, ◌+◌, ◌≡◌, refl, subst, inl, inr, Bool, not, ◌&&◌, List, [], ◌∷◌, arith, if◌then◌else◌,
  Bool-cases,
}
use e3_ecmc_plugin_socketcan.Common.Memory.{Outcome, done, ◌>>=◌}
use e3_ecmc_plugin_socketcan.Frame.{Frame, IsFrame}
use e3_ecmc_plugin_socketcan.Sink.{FrameSink}
use e3_ecmc_plugin_socketcan.Pdo
use e3_ecmc_plugin_socketcan.Pdo.{Pdo}
use e3_ecmc_plugin_socketcan.Pdo.Values
use e3_ecmc_plugin_socketcan.Pdo.Values.{
  data_frame, write_value_lem, new_rx_frame_lem, received, received-IsValid,
}
use e3_ecmc_plugin_socketcan.Pdo.Execute
use e3_ecmc_plugin_socketcan.Sdo
use e3_ecmc_plugin_socketcan.Sdo.{Sdo, Shared, Result}
use e3_ecmc_plugin_socketcan.Sdo.Methods
use e3_ecmc_plugin_socketcan.Sdo.Invariant.{HasSizes, InStep, Holds, Ends}
use e3_ecmc_plugin_socketcan.Sdo.Segments.{IsData, Suits}
use e3_ecmc_plugin_socketcan.Sdo.Steps.{execute-Ends}
use e3_ecmc_plugin_socketcan.Sdo.Frames.{new_rx_frame-Ends}
use e3_ecmc_plugin_socketcan.Sdo.Balance.{count, Balanced, execute-Balanced, new_rx_frame-Balanced}
use e3_ecmc_plugin_socketcan.Device.{
  Device, execute_pdos, execute_sdos, new_rx_frame_pdos, new_rx_frame_sdos, shared, execute,
  new_rx_frame, check_nmt, check_heart_beat, validate_frame,
}

-- The number of objects with a transfer on the bus.
abbrev pub busy_count : List Sdo → ℕ
busy_count [] = 0
busy_count (s ∷ ss) = count s.busy + busy_count ss

abbrev pub AreSound : List Sdo → Type 0
AreSound [] = Unit {0}
AreSound (s ∷ ss) = HasSizes s × InStep s × AreSound ss

abbrev pub AreValidPdos : List Pdo → Type 0
AreValidPdos [] = Unit {0}
AreValidPdos (p ∷ ps) = Pdo.Values.IsValid p × AreValidPdos ps

-- The lock is set if one SDO is busy, and free if none is; there are never two.
pub record IsValid (d : Device) : Type 0 where
  pub pdos_valid : AreValidPdos d.pdos
  pub sound : AreSound d.sdos
  pub exclusive : busy_count d.sdos ≡ count d.sdo1_lock

-- Every SDO can take the frame.
abbrev pub AreSuited : Frame → List Sdo → Type 0
AreSuited f [] = Unit {0}
AreSuited f (s ∷ ss) = Suits f s × AreSuited f ss

-- The frames that a device can take: those without data are for no SDO of it.
abbrev pub Takes : Frame → Device → Type 0
Takes f d = IsFrame f × AreSuited f d.sdos

pub IsData-AreSuited : (f : Frame) (ss : List Sdo) → IsData f → AreSuited f ss
IsData-AreSuited f [] i = tt
IsData-AreSuited f (s ∷ ss) i = (inl i, IsData-AreSuited f ss i)

pub IsData-Takes : (f : Frame) (d : Device) → IsData f → Takes f d
IsData-Takes f d i = (i.framed, IsData-AreSuited f d.sdos i)

rx_pdos-AreValid :
    (f : Frame) (ps : List Pdo)
    → IsFrame f
    → AreValidPdos ps
    → (qs : List Pdo) × (new_rx_frame_pdos f ps ≡ done qs) × AreValidPdos qs
unfolding new_rx_frame_pdos
rx_pdos-AreValid f [] w a = ([], refl, tt)
rx_pdos-AreValid f (p ∷ ps) w (v, a) =
    let (q, e1, v1) = Pdo.Execute.new_rx_frame-Ends f p v w in
    let (qs, e2, v2) = rx_pdos-AreValid f ps w a in (q ∷ qs, rw (e1, e2), (v1, v2))

heart_beat-IsValid : (d : Device) → IsValid d → IsValid (check_heart_beat d)
unfolding check_heart_beat
heart_beat-IsValid d v = ground arith

nmt-IsValid :
    (f : Frame) (d : Device) (m : Bool) → IsValid d → IsValid (if m then d else check_nmt f d)
unfolding check_nmt
nmt-IsValid f d m v = ground arith

module _ {B : Type 0} ⦃k : FrameSink B⦄ where
  abbrev pub PdosEnd : Outcome (List Pdo × B) → Type 0
  PdosEnd r = (ps : List Pdo) × (b : B) × (r ≡ done (ps, b)) × AreValidPdos ps

  execute_pdos-PdosEnd : (ps : List Pdo) (b : B) → AreValidPdos ps → PdosEnd (execute_pdos ps b)
  unfolding execute_pdos
  execute_pdos-PdosEnd [] b a = ([], b, refl, tt)
  execute_pdos-PdosEnd (p ∷ ps) b (v, a) =
      let (q, b1, e1, v1) = Pdo.Execute.execute-Ends p b v in
      let (qs, b2, e2, v2) = execute_pdos-PdosEnd ps b1 a in (q ∷ qs, b2, rw (e1, e2), (v1, v2))

  abbrev pub SdosEnd : ℕ → Outcome (List Sdo × Shared B) → Type 0
  SdosEnd n r =
      (ss : List Sdo) × (w : Shared B) × (r ≡ done (ss, w))
      × AreSound ss
      × (n + busy_count ss ≡ count w.sdo1_lock)

  -- One object's step, and then those of the others.
  pub head-SdosEnd :
      (n : ℕ) (s : Sdo) (ss : List Sdo) (w : Shared B) (m : Result B)
      (rest : Shared B → Outcome (List Sdo × Shared B))
      → Ends m
      → Balanced s w m
      → n + (count s.busy + busy_count ss) ≡ count w.sdo1_lock
      → ((n' : ℕ) (w' : Shared B) → n' + busy_count ss ≡ count w'.sdo1_lock → SdosEnd n' (rest w'))
      → SdosEnd n (m >>= λ r. rest r.1 >>= λ q. done (r.0 ∷ q.0, q.1))
  head-SdosEnd n s ss w m rest (s', w', e, v) balance h others =
      let moved = subst (Balanced s w) e balance in
      let (ss', w2, e2, sound, h2) = others (n + count s'.busy) w' (omega (arith, h, moved)) in
      (s' ∷ ss', w2, rw (e, e2), (v.sizes, v.in_step, sound), omega (arith, h2))

  pub busy-Holds :
      (n : ℕ) (s : Sdo) (ss : List Sdo) (w : Shared B)
      → n + (count s.busy + busy_count ss) ≡ count w.sdo1_lock
      → Holds s w
  busy-Holds n s ss w h b = ground (arith, h)

  execute_sdos-SdosEnd :
      (n : ℕ) (ss : List Sdo) (w : Shared B)
      → AreSound ss
      → n + busy_count ss ≡ count w.sdo1_lock
      → SdosEnd n (execute_sdos ss w)
  unfolding execute_sdos
  execute_sdos-SdosEnd n [] w a h = ([], w, refl, tt, h)
  execute_sdos-SdosEnd n (s ∷ ss) w (z, i, a) h =
      let holds = busy-Holds n s ss w h in
      head-SdosEnd n s ss w (Sdo.Methods.execute s w) (execute_sdos ss)
        (execute-Ends s w (record { sizes = z; in_step = i; holds = holds }))
        (execute-Balanced s w holds) h (λ n' w' h'. execute_sdos-SdosEnd n' ss w' a h')

  rx_sdos-SdosEnd :
      (f : Frame) (n : ℕ) (ss : List Sdo) (w : Shared B)
      → AreSuited f ss
      → AreSound ss
      → n + busy_count ss ≡ count w.sdo1_lock
      → SdosEnd n (new_rx_frame_sdos f ss w)
  unfolding new_rx_frame_sdos
  rx_sdos-SdosEnd f n [] w u a h = ([], w, refl, tt, h)
  rx_sdos-SdosEnd f n (s ∷ ss) w (d, us) (z, i, a) h =
      let holds = busy-Holds n s ss w h in
      head-SdosEnd n s ss w (Sdo.Methods.new_rx_frame f s w) (new_rx_frame_sdos f ss)
        (new_rx_frame-Ends f s w (record { sizes = z; in_step = i; holds = holds }) d)
        (new_rx_frame-Balanced f s w holds) h (λ n' w' h'. rx_sdos-SdosEnd f n' ss w' us a h')

  -- What a call on a device leaves.
  abbrev pub DeviceEnds : Outcome (Device × B) → Type 0
  DeviceEnds r = (d : Device) × (b : B) × (r ≡ done (d, b)) × IsValid d

  -- A call of execute runs all objects of the device, inside their blocks; and afterwards again the
  -- lock is set if exactly one SDO has a transfer on the bus, and free if none has.
  pub execute-DeviceEnds : (d : Device) (b : B) → IsValid d → DeviceEnds (execute d b)
  unfolding execute
  execute-DeviceEnds d b v =
      let (ps, b1, e1, v1) = execute_pdos-PdosEnd d.pdos b v.pdos_valid in
      let (ss, w, e2, sound, one) =
        execute_sdos-SdosEnd 0 d.sdos (shared d b1) v.sound (omega (arith, v.exclusive)) in
      let d1 : Device = record d { pdos = ps; sdos = ss; sdo1_lock = w.sdo1_lock } in
      (
        check_heart_beat d1,
        w.write_buffer,
        rw (e1, e2),
        heart_beat-IsValid d1
            (record { pdos_valid = v1; sound = sound; exclusive = omega (arith, one) }),
      )

  -- The same for a received frame.
  pub new_rx_frame-DeviceEnds :
      (f : Frame) (d : Device) (b : B) → IsValid d → Takes f d → DeviceEnds (new_rx_frame f d b)
  unfolding new_rx_frame
  new_rx_frame-DeviceEnds f d b v taken =
      let (ps, e1, v1) = rx_pdos-AreValid f d.pdos taken.0 v.pdos_valid in
      let (ss, w, e2, sound, one) =
        rx_sdos-SdosEnd f 0 d.sdos (shared d b) taken.1 v.sound (omega (arith, v.exclusive)) in
      let d1 : Device = record d { pdos = ps; sdos = ss; sdo1_lock = w.sdo1_lock } in
      let v2 : IsValid d1 = record {
        pdos_valid = v1;
        sound = sound;
        exclusive = omega (arith, one);
      } in
      let d2 : Device = if d.is_master then d1 else check_nmt f d1 in
      elim (Bool-cases (not (validate_frame d f) && not d.is_master)) [
        | inl e ↦ (d, b, rw e, v)
        | inr e ↦ (d2, w.write_buffer, rw (e, e1, e2), nmt-IsValid f d1 d.is_master v2)
      ]
