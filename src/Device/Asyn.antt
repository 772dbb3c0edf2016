-- ===== src/Device/Asyn.antt =====
-- Values that asyn writes to the objects of an ecmcCANOpenDevice. initAsyn of an object registers
-- asynWriteSDOValue or asynWritePDOValue with the object itself only if its direction is DIR_WRITE;
-- the object is named by its position here.
use e3_ecmc_plugin_socketcan.Common.{
  ℕ, zero, suc, ◌+◌, ◌≤◌, ◌≡◌, refl, sym, ap, subst, ◌∙◌, inl, inr, true, List, [], ◌∷◌, arith,
  length,
}
use e3_ecmc_plugin_socketcan.Common.Memory.{Outcome, done, ◌>>=◌, Outcome-cases, done-injective}
use e3_ecmc_plugin_socketcan.Common.Bytes.{AreBytes}
use e3_ecmc_plugin_socketcan.Defs.{dir_write, dir_read, Direction-cases}
use e3_ecmc_plugin_socketcan.Sink.{FrameSink, put}
use e3_ecmc_plugin_socketcan.Pdo.{Pdo, asyn_write_pdo_value}
use e3_ecmc_plugin_socketcan.Pdo.Values.{asyn_write_pdo_value_lem, data_frame, data_frame-IsValid}
use e3_ecmc_plugin_socketcan.Sdo
use e3_ecmc_plugin_socketcan.Sdo.{Sdo, Shared}
use e3_ecmc_plugin_socketcan.Sdo.Methods.{asyn_write_sdo_value}
use e3_ecmc_plugin_socketcan.Sdo.Run.{written, handle-Ends}
use e3_ecmc_plugin_socketcan.Sdo.Balance.{count, asyn_write-Balanced}
use e3_ecmc_plugin_socketcan.Device.{Device, shared}
use e3_ecmc_plugin_socketcan.Device.Identity.{SameIdentity}
use e3_ecmc_plugin_socketcan.Device.Lock.{
  busy_count, AreSound, AreValidPdos, IsValid, PdosEnd, SdosEnd, head-SdosEnd, busy-Holds,
  DeviceEnds,
}

-- A value for an SDO that is written has as many bytes as the object at least.
abbrev pub IsLong : ℕ → List ℕ → List Sdo → Type 0
IsLong i value [] = Unit {0}
IsLong zero value (s ∷ ss) = s.od_size ≤ length value
IsLong (suc i) value (s ∷ ss) = IsLong i value ss

module _ {B : Type 0} ⦃k : FrameSink B⦄ where
  unfoldable pub write_sdo_at : ℕ → List ℕ → List Sdo → Shared B → Outcome (List Sdo × Shared B)
  write_sdo_at i value [] w = done ([], w)
  write_sdo_at zero value (s ∷ ss) w = elim s.rw [
    | dir_read ↦ done (s ∷ ss, w)
    | dir_write ↦ asyn_write_sdo_value value s w >>= λ r. done (r.0 ∷ ss, r.1)
  ]
  write_sdo_at (suc i) value (s ∷ ss) w = write_sdo_at i value ss w >>= λ q. done (s ∷ q.0, q.1)

  unfoldable pub write_pdo_at : ℕ → List ℕ → List Pdo → B → Outcome (List Pdo × B)
  write_pdo_at i value [] b = done ([], b)
  write_pdo_at zero value (p ∷ ps) b = elim p.rw [
    | dir_read ↦ done (p ∷ ps, b)
    | dir_write ↦ asyn_write_pdo_value value p b >>= λ r. done (r.0 ∷ ps, r.1)
  ]
  write_pdo_at (suc i) value (p ∷ ps) b = write_pdo_at i value ps b >>= λ q. done (p ∷ q.0, q.1)

  unfoldable pub asyn_write_sdo : ℕ → List ℕ → Device → B → Outcome (Device × B)
  asyn_write_sdo i value d b = do
    (ss, w) ← write_sdo_at i value d.sdos (shared d b)
    done (record d { sdos = ss; sdo1_lock = w.sdo1_lock }, w.write_buffer)

  unfoldable pub asyn_write_pdo : ℕ → List ℕ → Device → B → Outcome (Device × B)
  asyn_write_pdo i value d b = do
    (ps, b') ← write_pdo_at i value d.pdos b
    done (record d { pdos = ps }, b')

  write_sdo_at-SdosEnd :
      (n i : ℕ) (value : List ℕ) (ss : List Sdo) (w : Shared B)
      → AreSound ss
      → IsLong i value ss
      → n + busy_count ss ≡ count w.sdo1_lock
      → SdosEnd n (write_sdo_at i value ss w)
  unfolding write_sdo_at Sdo.Run.handle
  write_sdo_at-SdosEnd n i value [] w a l h = ([], w, refl, tt, h)
  write_sdo_at-SdosEnd n zero value (s ∷ ss) w (z, i, a) l h = elim (Direction-cases s.rw) [
    | inr r ↦ (s ∷ ss, w, ground (arith, r), (z, i, a), h)
    | inl r ↦
        let holds = busy-Holds n s ss w h in
        let ends =
          Sdo.Run.handle-Ends (written value) s w (record { sizes = z; in_step = i; holds = holds })
            (r, l) in
        let (ss', w', e, sound, one) =
          head-SdosEnd n s ss w (asyn_write_sdo_value value s w) (λ w1. done (ss, w1)) ends
            (asyn_write-Balanced value s w holds) h (λ n' w1 h'. (ss, w1, refl, a, h')) in
        (ss', w', ground (arith, r, e), sound, one)
  ]
  write_sdo_at-SdosEnd n (suc i) value (s ∷ ss) w (z, st, a) l h =
      let (ss', w', e, a', h') =
        write_sdo_at-SdosEnd (n + count s.busy) i value ss w a l (omega (arith, h)) in
      (s ∷ ss', w', rw e, (z, st, a'), omega (arith, h'))

  write_pdo_at-PdosEnd :
      (i : ℕ) (value : List ℕ) (ps : List Pdo) (b : B)
      → AreValidPdos ps
      → AreBytes value
      → PdosEnd (write_pdo_at i value ps b)
  unfolding write_pdo_at
  write_pdo_at-PdosEnd i value [] b a y = ([], b, refl, tt)
  write_pdo_at-PdosEnd zero value (p ∷ ps) b (v, a) y = elim (Direction-cases p.rw) [
    | inr r ↦ (p ∷ ps, b, ground (arith, r), (v, a))
    | inl r ↦
        let (q, e, _, u) = asyn_write_pdo_value_lem value p b v y in
        let q' : Pdo = record q { write_frame = data_frame q; refresh_needed = true } in
        (q' ∷ ps, put (data_frame q) b, ground (arith, r, e), (data_frame-IsValid q u, a))
  ]
  write_pdo_at-PdosEnd (suc i) value (p ∷ ps) b (v, a) y =
      let (ps', b', e, a') = write_pdo_at-PdosEnd i value ps b a y in (p ∷ ps', b', rw e, (v, a'))

  -- A value written over asyn to an SDO of a valid device, as long as the object at least, leaves a
  -- valid device, whichever object it is for.
  pub asyn_write_sdo-DeviceEnds :
      (i : ℕ) (value : List ℕ) (d : Device) (b : B)
      → IsValid d
      → IsLong i value d.sdos
      → DeviceEnds (asyn_write_sdo i value d b)
  unfolding asyn_write_sdo
  asyn_write_sdo-DeviceEnds i value d b v l =
      let (ss, w, e, sound, one) =
        write_sdo_at-SdosEnd 0 i value d.sdos (shared d b) v.sound l (omega (arith, v.exclusive)) in
      (
        record d { sdos = ss; sdo1_lock = w.sdo1_lock },
        w.write_buffer,
        rw e,
        record { pdos_valid = v.pdos_valid; sound = sound; exclusive = omega (arith, one) },
      )

  pub asyn_write_pdo-DeviceEnds :
      (i : ℕ) (value : List ℕ) (d : Device) (b : B)
      → IsValid d
      → AreBytes value
      → DeviceEnds (asyn_write_pdo i value d b)
  unfolding asyn_write_pdo
  asyn_write_pdo-DeviceEnds i value d b v y =
      let (ps, b', e, a) = write_pdo_at-PdosEnd i value d.pdos b v.pdos_valid y in
      (
        record d { pdos = ps },
        b',
        rw e,
        record { pdos_valid = a; sound = v.sound; exclusive = v.exclusive },
      )

  pub asyn_write_sdo-SameIdentity :
      (i : ℕ) (value : List ℕ) (d d' : Device) (b b' : B)
      → asyn_write_sdo i value d b ≡ done (d', b')
      → SameIdentity d d'
  unfolding asyn_write_sdo
  asyn_write_sdo-SameIdentity i value d d' b b' e =
      elim (Outcome-cases (write_sdo_at i value d.sdos (shared d b))) [
        | inr h ↦ absurd (ground (arith, e, h))
        | inl (q, h) ↦
            let d1 : Device = record d { sdos = q.0; sdo1_lock = q.1.sdo1_lock } in
            let result : asyn_write_sdo i value d b ≡ done (d1, q.1.write_buffer) = rw h in
            let same : d' ≡ d1 = ap (λ x. x.0) (done-injective (sym e ∙ result)) in
            subst (SameIdentity d) (sym same) (record { node = refl; master = refl })
      ]

  pub asyn_write_pdo-SameIdentity :
      (i : ℕ) (value : List ℕ) (d d' : Device) (b b' : B)
      → asyn_write_pdo i value d b ≡ done (d', b')
      → SameIdentity d d'
  unfolding asyn_write_pdo
  asyn_write_pdo-SameIdentity i value d d' b b' e =
      elim (Outcome-cases (write_pdo_at i value d.pdos b)) [
        | inr h ↦ absurd (ground (arith, e, h))
        | inl (q, h) ↦
            let d1 : Device = record d { pdos = q.0 } in
            let result : asyn_write_pdo i value d b ≡ done (d1, q.1) = rw h in
            let same : d' ≡ d1 = ap (λ x. x.0) (done-injective (sym e ∙ result)) in
            subst (SameIdentity d) (sym same) (record { node = refl; master = refl })
      ]
