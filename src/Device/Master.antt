-- ===== src/Device/Master.antt =====
-- ecmc_plugin_socketcanApp/src/ecmcCANOpenMaster.{h,cpp}: the device that sends lss, sync and
-- heartbeat. `none` stands for the std::runtime_error of a failed addPDO; the pointers to the three
-- PDOs are their positions in `pdos`.
use e3_ecmc_plugin_socketcan.Common.{
  ℕ, ◌+◌, ◌%◌, ◌^◌, ◌<◌, ◌≡◌, refl, Bool, true, Option, none, some, List, [], ◌∷◌, arith, ◌==◌,
  if◌then◌else◌, map,
}
use e3_ecmc_plugin_socketcan.Common.Memory.{Outcome, done, fault, ◌>>=◌, memcpy}
use e3_ecmc_plugin_socketcan.Defs.{dir_write, nmt_not_valid, nmt_op}
use e3_ecmc_plugin_socketcan.Sink.{FrameSink}
use e3_ecmc_plugin_socketcan.Pdo
use e3_ecmc_plugin_socketcan.Pdo.{Pdo, new_pdo}
use e3_ecmc_plugin_socketcan.Device.{Device, new_device, add_pdo, execute, check_heart_beat}
use e3_ecmc_plugin_socketcan.Device.Lock.{IsValid}
use e3_ecmc_plugin_socketcan.Device.Nmt.{ticked}

-- setValue on the PDO that was added last.
set_last_value : ℕ → List Pdo → Outcome (List Pdo)
set_last_value value [] = fault
set_last_value value (p ∷ []) = Pdo.set_value value p >>= λ q. done (q ∷ [])
set_last_value value (p ∷ q ∷ ps) = set_last_value value (q ∷ ps) >>= λ qs. done (p ∷ qs)

-- The device base of the master: its heartbeat timeout is 0, and it is in NMT_OP.
unfoldable pub master_base : ℕ → ℕ → Bool → Device
master_base node_id exe_sample_time_ms dbg_mode =
    record (new_device node_id exe_sample_time_ms 0 dbg_mode) {
      is_master = true;
      nmt_state = nmt_op;
      nmt_state_old = nmt_op;
      nmt_param = nmt_op;
    }

pub new_master : ℕ → ℕ → ℕ → ℕ → ℕ → Bool → Outcome (Option Device)
unfolding set_last_value master_base
new_master node_id exe_sample_time_ms lss_sample_time_ms sync_sample_time_ms heart_sample_time_ms
      dbg_mode =
    let d0 = master_base node_id exe_sample_time_ms dbg_mode in
    let (e1, d1) = add_pdo 0x7E5 dir_write 0 0 lss_sample_time_ms d0 in
    let (e2, d2) = add_pdo 0x80 dir_write 0 0 sync_sample_time_ms d1 in
    let (e3, d3) = add_pdo ((0x700 + node_id) % 2 ^ 32) dir_write 1 0 heart_sample_time_ms d2 in
    let heart : Outcome (Option Device) =
      set_last_value 5 d3.pdos >>= λ ps. done (some (record d3 { pdos = ps })) in
    if e1 == 0
    then (if e2 == 0 then (if e3 == 0 then heart else done none) else done none)
    else done none

-- The frames that a device's PDOs send, as id, length and data.
abbrev pub sends : Pdo → ℕ × ℕ × List ℕ
sends p = (p.write_frame.can_id, p.write_frame.can_dlc, p.data_buffer)

-- The master that the constructor makes.
abbrev pub made : ℕ → ℕ → ℕ → ℕ → ℕ → Bool → Device
made node_id sample lss sync heart dbg =
    let p = new_pdo node_id ((0x700 + node_id) % 2 ^ 32) dir_write 1 0 heart sample dbg in
    record (master_base node_id sample dbg) {
      pdos =
          new_pdo node_id 0x7E5 dir_write 0 0 lss sample dbg
          ∷ new_pdo node_id 0x80 dir_write 0 0 sync sample dbg
          ∷ record p { data_buffer = 5 ∷ [] }
          ∷ [];
    }

pub new_master-made :
    (node_id sample lss sync heart : ℕ) (dbg : Bool)
    → new_master node_id sample lss sync heart dbg
      ≡ done (some (made node_id sample lss sync heart dbg))
unfolding new_master set_last_value master_base new_device add_pdo Pdo.set_value new_pdo memcpy
new_master-made node_id sample lss sync heart dbg = refl

pub made-IsValid :
    (node_id sample lss sync heart : ℕ) (dbg : Bool)
    → IsValid (made node_id sample lss sync heart dbg)
unfolding master_base new_device new_pdo
made-IsValid node_id sample lss sync heart dbg = ground arith

module _ {B : Type 0} ⦃k : FrameSink B⦄ where
  -- The constructor of a master does not throw, and copies inside its blocks: the master has
  -- exactly the lss, sync and heartbeat objects, the last with the byte 5, and starts in NMT_OP. But
  -- its heartbeat timeout is 0, so its first call of execute shows it as NMT_NOT_VALID.
  pub master_leaves_op :
      (node_id sample lss sync heart : ℕ) (dbg : Bool) (b : B)
      → node_id < 128
      → (m : Device) × (new_master node_id sample lss sync heart dbg ≡ done (some m))
        × (map sends m.pdos ≡ (0x7E5, 0, []) ∷ (0x80, 0, []) ∷ (0x700 + node_id, 1, 5 ∷ []) ∷ [])
        × (m.nmt_state ≡ nmt_op)
        × (m' : Device) × (b' : B) × (execute m b ≡ done (m', b'))
        × (m'.nmt_state ≡ nmt_not_valid)
        × (m'.nmt_param ≡ nmt_not_valid)
  unfolding master_base new_device new_pdo check_heart_beat
  master_leaves_op node_id sample lss sync heart dbg b small =
      let m = made node_id sample lss sync heart dbg in
      let (m', b', e, _, same) = ticked m b (made-IsValid node_id sample lss sync heart dbg) in
      (
        m,
        new_master-made node_id sample lss sync heart dbg,
        ground arith,
        refl,
        m',
        b',
        e,
        ground (arith, same.state),
        ground (arith, same.param),
      )
