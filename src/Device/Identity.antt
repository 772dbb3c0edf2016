-- ===== src/Device/Identity.antt =====
-- What execute and newRxFrame of ecmcCANOpenDevice leave alone.
use e3_ecmc_plugin_socketcan.Common.{
  ℕ, ◌≡◌, refl, sym, ap, subst, ◌∙◌, inl, inr, Bool, not, ◌&&◌, List, arith, if◌then◌else◌,
  Bool-cases,
}
use e3_ecmc_plugin_socketcan.Common.Memory.{done, Outcome-cases, done-injective}
use e3_ecmc_plugin_socketcan.Defs.{Direction}
use e3_ecmc_plugin_socketcan.Frame.{Frame}
use e3_ecmc_plugin_socketcan.Sink.{FrameSink}
use e3_ecmc_plugin_socketcan.Pdo.{Pdo}
use e3_ecmc_plugin_socketcan.Sdo.{Sdo}
use e3_ecmc_plugin_socketcan.Device.{
  Device, execute, new_rx_frame, execute_pdos, execute_sdos, new_rx_frame_pdos, new_rx_frame_sdos,
  shared, add_pdo, add_sdo, check_heart_beat, check_nmt, validate_frame,
}

pub record SameIdentity (d d' : Device) : Type 0 where
  pub node : d'.node_id ≡ d.node_id
  pub master : d'.is_master ≡ d.is_master

checked-SameIdentity :
    (d : Device) (ps : List Pdo) (ss : List Sdo) (l : Bool)
    → SameIdentity d (check_heart_beat (record d { pdos = ps; sdos = ss; sdo1_lock = l }))
unfolding check_heart_beat
checked-SameIdentity d ps ss l = ground arith

reported-SameIdentity :
    (f : Frame) (d : Device) (ps : List Pdo) (ss : List Sdo) (l : Bool)
    → let d1 : Device = record d { pdos = ps; sdos = ss; sdo1_lock = l } in
      SameIdentity d (if d.is_master then d1 else check_nmt f d1)
unfolding check_nmt
reported-SameIdentity f d ps ss l = ground arith

pub add_pdo-SameIdentity :
    (cob_id od_size timeout cycle : ℕ) (rw : Direction) (d : Device)
    → SameIdentity d (add_pdo cob_id rw od_size timeout cycle d).1
unfolding add_pdo
add_pdo-SameIdentity cob_id od_size timeout cycle dir d = ground arith

pub add_sdo-SameIdentity :
    (tx id_rx index sub od_size sample : ℕ) (rw : Direction) (d : Device)
    → SameIdentity d (add_sdo tx id_rx rw index sub od_size sample d).1
unfolding add_sdo
add_sdo-SameIdentity tx id_rx index sub od_size sample dir d = ground arith

module _ {B : Type 0} ⦃k : FrameSink B⦄ where
  pub execute-SameIdentity :
      (d d' : Device) (b b' : B) → execute d b ≡ done (d', b') → SameIdentity d d'
  unfolding execute
  execute-SameIdentity d d' b b' e = elim (Outcome-cases (execute_pdos d.pdos b)) [
    | inr h ↦ absurd (ground (arith, e, h))
    | inl (r, h) ↦ elim (Outcome-cases (execute_sdos d.sdos (shared d r.1))) [
      | inr g ↦ absurd (ground (arith, e, h, g))
      | inl (q, g) ↦
          let d1 : Device = record d { pdos = r.0; sdos = q.0; sdo1_lock = q.1.sdo1_lock } in
          let result : execute d b ≡ done (check_heart_beat d1, q.1.write_buffer) = rw (h, g) in
          let same : d' ≡ check_heart_beat d1 = ap (λ x. x.0) (done-injective (sym e ∙ result)) in
          subst (SameIdentity d) (sym same) (checked-SameIdentity d r.0 q.0 q.1.sdo1_lock)
    ]
  ]

  pub new_rx_frame-SameIdentity :
      (f : Frame) (d d' : Device) (b b' : B)
      → new_rx_frame f d b ≡ done (d', b')
      → SameIdentity d d'
  unfolding new_rx_frame
  new_rx_frame-SameIdentity f d d' b b' e =
      elim (Bool-cases (not (validate_frame d f) && not d.is_master)) [
        | inl z ↦
            let result : new_rx_frame f d b ≡ done (d, b) = rw z in
            let same : d' ≡ d = ap (λ x. x.0) (done-injective (sym e ∙ result)) in
            subst (SameIdentity d) (sym same) (record { node = refl; master = refl })
        | inr z ↦ elim (Outcome-cases (new_rx_frame_pdos f d.pdos)) [
          | inr h ↦ absurd (ground (arith, e, h, z))
          | inl (ps, h) ↦ elim (Outcome-cases (new_rx_frame_sdos f d.sdos (shared d b))) [
            | inr g ↦ absurd (ground (arith, e, h, g, z))
            | inl (q, g) ↦
                let d1 : Device = record d { pdos = ps; sdos = q.0; sdo1_lock = q.1.sdo1_lock } in
                let result : new_rx_frame f d b
                    ≡ done (if d.is_master then d1 else check_nmt f d1, q.1.write_buffer) =
                  rw (z, h, g) in
                let same : d' ≡ (if d.is_master then d1 else check_nmt f d1) =
                  ap (λ x. x.0) (done-injective (sym e ∙ result)) in
                subst (SameIdentity d) (sym same) (reported-SameIdentity f d ps q.0 q.1.sdo1_lock)
          ]
        ]
      ]
