-- ===== src/SocketCan/Adds.antt =====
-- addMaster, addDevice, addPDO and addSDO of ecmcSocketCAN.
use e3_ecmc_plugin_socketcan.Common.{
  ℕ, ◌<◌, ◌≡◌, refl, ◌⊎◌, inl, inr, true, false, some, List, ◌∷◌, ◌++◌, arith, ltb, ◌==◌,
  if◌then◌else◌, length, set, set-append, Bool-cases, ltb→lt,
}
use e3_ecmc_plugin_socketcan.Common.Int.{ℤ, is_pos, is_true, pos_part}
use e3_ecmc_plugin_socketcan.Common.Memory.{done}
use e3_ecmc_plugin_socketcan.Common.Attempt.{ok, thrown, Exception, out_of_range, runtime_error}
use e3_ecmc_plugin_socketcan.Defs.{Direction}
use e3_ecmc_plugin_socketcan.Device
use e3_ecmc_plugin_socketcan.Device.{Device, new_device}
use e3_ecmc_plugin_socketcan.Device.Lock
use e3_ecmc_plugin_socketcan.Device.Master.{
  new_master, made, new_master-made, made-IsValid, master_base,
}
use e3_ecmc_plugin_socketcan.SocketCan.{SocketCan, max_devices}
use e3_ecmc_plugin_socketcan.SocketCan.Table.{
  append_device, check_master, add_master, put_device, add_pdo, add_sdo,
}
use e3_ecmc_plugin_socketcan.SocketCan.Find.{Absent, FirstAt, find_device_with_node_id_lem}

-- The object as it is with other devices.
abbrev pub with_devices : List Device → SocketCan → SocketCan
with_devices ds s = record s { devices = ds }

-- When a master can be added.
pub record CanAddMaster (node_id : ℕ) (lss sync heart : ℤ) (s : SocketCan) : Type 0 where
  pub first : s.master_dev ≡ false
  pub room : length s.devices < max_devices
  pub small : node_id < 128
  pub lss_pos : is_pos lss ≡ true
  pub sync_pos : is_pos sync ≡ true
  pub heart_pos : is_pos heart ≡ true

check_master_lem :
    (node_id : ℕ) (lss sync heart : ℤ) (s : SocketCan)
    → (CanAddMaster node_id lss sync heart s × (check_master node_id lss sync heart s ≡ ok tt))
      ⊎ (¬ CanAddMaster node_id lss sync heart s
          × (e : Exception) × (check_master node_id lss sync heart s ≡ thrown e))
unfolding check_master
check_master_lem node_id lss sync heart s = elim (Bool-cases s.master_dev) [
  | inl e ↦ inr (λ c. ground (arith, c.first, e), runtime_error, rw e)
  | inr e1 ↦ elim (Bool-cases (ltb (length s.devices) max_devices)) [
    | inr e ↦ inr (λ c. ground (arith, c.room, e), out_of_range, rw (e1, e))
    | inl e2 ↦ elim (Bool-cases (ltb node_id 128)) [
      | inr e ↦ inr (λ c. ground (arith, c.small, e), out_of_range, rw (e1, e2, e))
      | inl e3 ↦ elim (Bool-cases (is_pos lss)) [
        | inr e ↦ inr (λ c. ground (arith, c.lss_pos, e), out_of_range, rw (e1, e2, e3, e))
        | inl e4 ↦ elim (Bool-cases (is_pos sync)) [
          | inr e ↦ inr (λ c. ground (arith, c.sync_pos, e), out_of_range, rw (e1, e2, e3, e4, e))
          | inl e5 ↦ elim (Bool-cases (is_pos heart)) [
            | inr e ↦
                inr (λ c. ground (arith, c.heart_pos, e), out_of_range, rw (e1, e2, e3, e4, e5, e))
            | inl e6 ↦ inl (
              record {
                first = e1;
                room = ltb→lt (length s.devices) max_devices e2;
                small = ltb→lt node_id 128 e3;
                lss_pos = e4;
                sync_pos = e5;
                heart_pos = e6;
              },
              rw (e1, e2, e3, e4, e5, e6),
            )
          ]
        ]
      ]
    ]
  ]
]

put_device_lem :
    (node_id code : ℕ) (d' : Device) (s : SocketCan) (p : FirstAt node_id s.devices)
    → put_device (length p.before) (code, d') s ≡ (
        if code == 0
        then ok (with_devices (p.before ++ (d' ∷ p.after)) s)
        else thrown runtime_error)
unfolding put_device
put_device_lem node_id code d' s p =
    let e : set s.devices (length p.before) d' ≡ p.before ++ (d' ∷ p.after) =
      rw p.whole (set-append p.before p.after p.device d') in
    rw e

-- addPDO, on every branch. Without a device with the node id it throws out_of_range. Otherwise it asks
-- the first such device, and no other device changes: if the device refuses it throws runtime_error,
-- and else that device is what its addPDO made of it.
pub add_pdo_lem :
    (node_id cob_id od_size timeout cycle : ℕ) (rw : Direction) (s : SocketCan)
    → (Absent node_id s.devices
        × (add_pdo node_id cob_id rw od_size timeout cycle s ≡ thrown out_of_range))
      ⊎ ((p : FirstAt node_id s.devices) × (add_pdo node_id cob_id rw od_size timeout cycle s ≡ (
            let (code, d') = Device.add_pdo cob_id rw od_size timeout cycle p.device in
            if code == 0
            then ok (with_devices (p.before ++ (d' ∷ p.after)) s)
            else thrown runtime_error)))
unfolding add_pdo
add_pdo_lem node_id cob_id od_size timeout cycle dir s =
    elim (find_device_with_node_id_lem node_id s.devices) [
      | inl (a, h) ↦ inl (a, rw h)
      | inr (p, h) ↦
          let (code, d') = Device.add_pdo cob_id dir od_size timeout cycle p.device in
          inr (p, rw h (put_device_lem node_id code d' s p))
    ]

-- addSDO, on every branch, in the same way.
pub add_sdo_lem :
    (node_id tx id_rx index sub od_size sample : ℕ) (rw : Direction) (s : SocketCan)
    → (Absent node_id s.devices
        × (add_sdo node_id tx id_rx rw index sub od_size sample s ≡ thrown out_of_range))
      ⊎ ((p : FirstAt node_id s.devices) × (add_sdo node_id tx id_rx rw index sub od_size sample s
            ≡ (let (code, d') = Device.add_sdo tx id_rx rw index sub od_size sample p.device in
                if code == 0
                then ok (with_devices (p.before ++ (d' ∷ p.after)) s)
                else thrown runtime_error)))
unfolding add_sdo
add_sdo_lem node_id tx id_rx index sub od_size sample dir s =
    elim (find_device_with_node_id_lem node_id s.devices) [
      | inl (a, h) ↦ inl (a, rw h)
      | inr (p, h) ↦
          let (code, d') = Device.add_sdo tx id_rx dir index sub od_size sample p.device in
          inr (p, rw h (put_device_lem node_id code d' s p))
    ]

-- addMaster, on every branch. It succeeds exactly if there is no master, the device array has room, the
-- node id has 7 bits and the three sample times are positive: then the master is one more device,
-- and the flag is set. Otherwise it throws.
pub add_master_lem :
    (node_id : ℕ) (lss sync heart : ℤ) (s : SocketCan)
    → (CanAddMaster node_id lss sync heart s
        × (m : Device) × (new_master node_id s.exe_sample_time_ms
              (pos_part lss)
              (pos_part sync)
              (pos_part heart)
              (is_true s.config.dbg_mode)
            ≡ done (some m))
        × Device.Lock.IsValid m
        × (m.is_master ≡ true)
        × (m.node_id ≡ node_id)
        × (add_master node_id lss sync heart s
            ≡ ok (record (append_device m s) { master_dev = true })))
      ⊎ (¬ CanAddMaster node_id lss sync heart s
          × (e : Exception) × (add_master node_id lss sync heart s ≡ thrown e))
unfolding add_master new_device master_base
add_master_lem node_id lss sync heart s =
    let l = pos_part lss in
    let y = pos_part sync in
    let h = pos_part heart in
    let t = s.exe_sample_time_ms in
    let g = is_true s.config.dbg_mode in
    let made_eq = new_master-made node_id t l y h g in
    elim (check_master_lem node_id lss sync heart s) [
      | inl (c, e) ↦ inl (
        c,
        made node_id t l y h g,
        made_eq,
        made-IsValid node_id t l y h g,
        refl,
        refl,
        rw (e, made_eq),
      )
      | inr (n, x, e) ↦ inr (n, x, rw e)
    ]
