-- ===== src/Device/Run.antt =====
-- Runs of an ecmcCANOpenDevice: calls of execute, received frames and values written over asyn, in any
-- order.
use e3_ecmc_plugin_socketcan.Common.{
  ℕ, ◌≤◌, ◌<◌, ◌^◌, ◌≡◌, refl, ◌∙◌, inl, inr, Bool, true, false, subst, List, [], ◌∷◌, ◌++◌, arith,
  leb, length, Bool-cases,
}
use e3_ecmc_plugin_socketcan.Common.Memory.{Outcome, done, ◌>>=◌, AfterDone, every-AfterDone}
use e3_ecmc_plugin_socketcan.Defs.{Direction}
use e3_ecmc_plugin_socketcan.Frame.{Frame}
use e3_ecmc_plugin_socketcan.Sink.{FrameSink}
use e3_ecmc_plugin_socketcan.SdoFrames.{SdoConfig}
use e3_ecmc_plugin_socketcan.Pdo
use e3_ecmc_plugin_socketcan.Pdo.{Pdo, new_pdo}
use e3_ecmc_plugin_socketcan.Pdo.Values
use e3_ecmc_plugin_socketcan.Pdo.Values.{new_pdo-IsValid}
use e3_ecmc_plugin_socketcan.Printing.{IsPrintable}
use e3_ecmc_plugin_socketcan.Sdo.{Sdo, new_sdo, Shared}
use e3_ecmc_plugin_socketcan.Sdo.Invariant.{HasSizes, InStep, new_sdo-IsValid, new_sdo-idle}
use e3_ecmc_plugin_socketcan.Sdo.Segments.{IsData}
use e3_ecmc_plugin_socketcan.Sdo.Balance.{count}
use e3_ecmc_plugin_socketcan.Device.{Device, new_device, add_pdo, add_sdo, execute, new_rx_frame}
use e3_ecmc_plugin_socketcan.Device.Lock.{
  busy_count, AreSound, AreValidPdos, IsValid, DeviceEnds, execute-DeviceEnds,
  new_rx_frame-DeviceEnds, Takes, IsData-Takes,
}
use e3_ecmc_plugin_socketcan.Device.Asyn.{
  IsLong, asyn_write_sdo, asyn_write_pdo, asyn_write_sdo-DeviceEnds, asyn_write_pdo-DeviceEnds,
}
use e3_ecmc_plugin_socketcan.Common.Bytes.{AreBytes}

-- A call of execute, a received frame, or a value that asyn writes to an object.
pub data Event : Type 0 where
  tick : Event
  rx : Frame → Event
  sdo_written pdo_written : ℕ → List ℕ → Event

-- What a device may be given: frames without data are for no SDO of it, a value for an SDO is as
-- long as the object at least, and a value for a PDO is of bytes.
abbrev pub Fits : Event → Device → Type 0
Fits tick d = Unit {0}
Fits (rx f) d = Takes f d
Fits (sdo_written i value) d = IsLong i value d.sdos
Fits (pdo_written i value) d = AreBytes value

-- Calls of execute and data frames only.
abbrev pub AreData : List Event → Type 0
AreData [] = Unit {0}
AreData (tick ∷ es) = AreData es
AreData (rx f ∷ es) = IsData f × AreData es
AreData (sdo_written i value ∷ es) = true ≡ false
AreData (pdo_written i value ∷ es) = true ≡ false

pub new_device-IsValid :
    (node_id sample timeout : ℕ) (dbg_mode : Bool)
    → IsValid (new_device node_id sample timeout dbg_mode)
unfolding new_device
new_device-IsValid node_id sample timeout dbg = record {
  pdos_valid = tt;
  sound = tt;
  exclusive = refl;
}

append-AreValidPdos :
    (ps : List Pdo) (p : Pdo)
    → AreValidPdos ps
    → Pdo.Values.IsValid p
    → AreValidPdos (ps ++ (p ∷ []))
append-AreValidPdos [] p a v = (v, tt)
append-AreValidPdos (q ∷ ps) p (u, a) v = (u, append-AreValidPdos ps p a v)

append-AreSound :
    (ss : List Sdo) (s : Sdo) → AreSound ss → HasSizes s → InStep s → AreSound (ss ++ (s ∷ []))
append-AreSound [] s a z i = (z, i, tt)
append-AreSound (t ∷ ss) s (zt, it, a) z i = (zt, it, append-AreSound ss s a z i)

append-busy_count :
    (ss : List Sdo) (s : Sdo) → s.busy ≡ false → busy_count (ss ++ (s ∷ [])) ≡ busy_count ss
append-busy_count [] s h = ground (arith, h)
append-busy_count (t ∷ ss) s h = omega (arith, append-busy_count ss s h)

-- addPDO keeps a device valid, for at most 8 bytes that can be printed; the ninth PDO is refused.
pub add_pdo-IsValid :
    (cob_id : ℕ) (dir : Direction) (od_size timeout cycle : ℕ) (d : Device)
    → IsValid d
    → od_size ≤ 8
    → IsPrintable d.dbg_mode od_size
    → IsValid (add_pdo cob_id dir od_size timeout cycle d).1
unfolding add_pdo
add_pdo-IsValid cob_id dir od_size timeout cycle d v h q =
    elim (Bool-cases (leb 8 (length d.pdos))) [
      | inl e ↦ rw e v
      | inr e ↦
          let p : Pdo =
            new_pdo d.node_id cob_id dir od_size timeout cycle d.exe_sample_time_ms d.dbg_mode in
          rw e (record {
            pdos_valid = append-AreValidPdos d.pdos p v.pdos_valid (
                new_pdo-IsValid d.node_id cob_id dir od_size timeout cycle d.exe_sample_time_ms
                  d.dbg_mode h (inr q));
            sound = v.sound;
            exclusive = v.exclusive;
          })
    ]

at_most_one : (n : ℕ) (l : Bool) → n ≡ count l → n ≤ 1
at_most_one n l h = ground arith

-- addSDO keeps a device valid, for a size that can be printed; the ninth SDO is refused.
pub add_sdo-IsValid :
    (tx id_rx index sub od_size sample : ℕ) (dir : Direction) (d : Device)
    → IsValid d
    → od_size < 2 ^ 31
    → IsPrintable d.dbg_mode od_size
    → IsValid (add_sdo tx id_rx dir index sub od_size sample d).1
unfolding add_sdo
add_sdo-IsValid tx id_rx index sub od_size sample dir d v h q =
    elim (Bool-cases (leb 8 (length d.sdos))) [
      | inl e ↦ rw e v
      | inr e ↦
          let c : SdoConfig = record {
            node_id = d.node_id;
            cob_id_tx = tx;
            cob_id_rx = id_rx;
            rw = dir;
            od_index = index;
            od_sub_index = sub;
            od_size = od_size;
            read_sample_time_ms = sample;
            exe_sample_time_ms = d.exe_sample_time_ms;
            dbg_mode = d.dbg_mode;
          } in
          let w : Shared ℕ = record { sdo1_lock = false; write_buffer = 0 } in
          let u = new_sdo-IsValid c w h q in
          rw e (record {
            pdos_valid = v.pdos_valid;
            sound = append-AreSound d.sdos (new_sdo c) v.sound u.sizes u.in_step;
            exclusive = append-busy_count d.sdos (new_sdo c) (new_sdo-idle c) ∙ v.exclusive;
          })
    ]

module _ {B : Type 0} ⦃k : FrameSink B⦄ where
  unfoldable pub handle : Event → Device → B → Outcome (Device × B)
  handle tick d b = execute d b
  handle (rx f) d b = new_rx_frame f d b
  handle (sdo_written i value) d b = asyn_write_sdo i value d b
  handle (pdo_written i value) d b = asyn_write_pdo i value d b

  unfoldable pub run : List Event → Device → B → Outcome (Device × B)
  run [] d b = done (d, b)
  run (e ∷ es) d b = handle e d b >>= λ r. run es r.0 r.1

  -- Each event fits the device that it finds.
  abbrev pub AllFit : List Event → Device → B → Type 0
  AllFit [] d b = Unit {0}
  AllFit (e ∷ es) d b = Fits e d × AfterDone (λ r. AllFit es r.0 r.1) (handle e d b)

  pub AreData-AllFit : (es : List Event) (d : Device) (b : B) → AreData es → AllFit es d b
  AreData-AllFit [] d b a = tt
  AreData-AllFit (tick ∷ es) d b a =
      (tt, every-AfterDone _ (handle tick d b) (λ r. AreData-AllFit es r.0 r.1 a))
  AreData-AllFit (rx f ∷ es) d b (i, a) =
      (IsData-Takes f d i, every-AfterDone _ (handle (rx f) d b) (λ r. AreData-AllFit es r.0 r.1 a))
  AreData-AllFit (sdo_written i value ∷ es) d b a = absurd (ground (arith, a))
  AreData-AllFit (pdo_written i value ∷ es) d b a = absurd (ground (arith, a))

  pub handle-DeviceEnds :
      (e : Event) (d : Device) (b : B) → IsValid d → Fits e d → DeviceEnds (handle e d b)
  unfolding handle
  handle-DeviceEnds tick d b v h = execute-DeviceEnds d b v
  handle-DeviceEnds (rx f) d b v h = new_rx_frame-DeviceEnds f d b v h
  handle-DeviceEnds (sdo_written i value) d b v h = asyn_write_sdo-DeviceEnds i value d b v h
  handle-DeviceEnds (pdo_written i value) d b v h = asyn_write_pdo-DeviceEnds i value d b v h

  run-DeviceEnds :
      (es : List Event) (d : Device) (b : B) → IsValid d → AllFit es d b → DeviceEnds (run es d b)
  unfolding run
  run-DeviceEnds [] d b v a = (d, b, refl, v)
  run-DeviceEnds (e ∷ es) d b v (h, a) =
      let (d1, b1, e1, v1) = handle-DeviceEnds e d b v h in
      let fits = subst (AfterDone (λ r. AllFit es r.0 r.1)) e1 a in
      let (d2, b2, e2, v2) = run-DeviceEnds es d1 b1 v1 fits in (d2, b2, rw e1 e2, v2)

  -- One transfer at a time. A valid device, in any run of calls of execute, of received frames and of
  -- values written over asyn to its objects, each of which fits, ends every call without a copy
  -- outside a block, and afterwards at most one of its SDOs has a transfer on the bus: one if the
  -- lock is set, and none if it is free. Frames without data are to be for no SDO of the device,
  -- values for an SDO as long as the object at least, and those for a PDO of bytes.
  pub run-exclusive :
      (es : List Event) (d : Device) (b : B)
      → IsValid d
      → AllFit es d b
      → (d' : Device) × (b' : B) × (run es d b ≡ done (d', b'))
        × (busy_count d'.sdos ≤ 1)
        × (busy_count d'.sdos ≡ count d'.sdo1_lock)
  run-exclusive es d b v a =
      let (d', b', e, v') = run-DeviceEnds es d b v a in
      (d', b', e, at_most_one (busy_count d'.sdos) d'.sdo1_lock v'.exclusive, v'.exclusive)
