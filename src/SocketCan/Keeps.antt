-- ===== src/SocketCan/Keeps.antt =====
-- addMaster, addDevice, addPDO and addSDO of ecmcSocketCAN keep a valid object valid.
use e3_ecmc_plugin_socketcan.Common.{
  ℕ, ◌≤◌, ◌<◌, ◌^◌, ◌≡◌, refl, sym, ap, subst, ◌∙◌, inl, inr, false, [], ◌∷◌, ◌++◌, arith, ltb,
  ◌==◌, if◌then◌else◌, length, length-append, Bool-cases, ltb→lt,
}
use e3_ecmc_plugin_socketcan.Common.Int.{ℤ, is_true}
use e3_ecmc_plugin_socketcan.Common.Attempt.{Attempt, ok, thrown, crashed, runtime_error}
use e3_ecmc_plugin_socketcan.Defs.{Direction}
use e3_ecmc_plugin_socketcan.Printing.{IsPrintable}
use e3_ecmc_plugin_socketcan.Device
use e3_ecmc_plugin_socketcan.Device.{Device, new_device}
use e3_ecmc_plugin_socketcan.Device.Lock
use e3_ecmc_plugin_socketcan.Device.Run.{new_device-IsValid, add_pdo-IsValid, add_sdo-IsValid}
use e3_ecmc_plugin_socketcan.Device.Identity.{
  SameIdentity, add_pdo-SameIdentity, add_sdo-SameIdentity,
}
use e3_ecmc_plugin_socketcan.SocketCan.{SocketCan, max_devices}
use e3_ecmc_plugin_socketcan.SocketCan.Table.{
  append_device, add_master, add_device, add_pdo, add_sdo,
}
use e3_ecmc_plugin_socketcan.SocketCan.Invariant.{
  IsValid, Next, AreNodes, master_count, ArePrintable, at-ArePrintable,
}
use e3_ecmc_plugin_socketcan.SocketCan.Find.{
  FirstAt, at-AreNodes, replace-AreNodes, replace-master_count, replace-length, append-AreNodes,
  append-master_count,
}
use e3_ecmc_plugin_socketcan.SocketCan.Adds.{with_devices, add_pdo_lem, add_sdo_lem, add_master_lem}

-- What a call that can throw leaves behind: a valid object, if it does not throw.
abbrev pub Keeps : SocketCan → Attempt SocketCan → Type 0
Keeps s (ok s') = Next s s'
Keeps s (thrown e) = Unit {0}
Keeps s crashed = ⊥

append_device-IsValid :
    (d : Device) (s : SocketCan)
    → IsValid s
    → length s.devices < max_devices
    → Device.Lock.IsValid d
    → d.node_id < 128
    → d.is_master ≡ false
    → IsValid (append_device d s)
append_device-IsValid d s v r u h m = record {
  nodes = append-AreNodes s.devices d v.nodes u h;
  room = omega (arith, length-append s.devices (d ∷ []));
  named = v.named;
  one_master = rw (append-master_count s.devices d, m) (omega (arith, v.one_master));
}

pub add_device-Keeps :
    (node_id timeout : ℕ) (s : SocketCan) → IsValid s → Keeps s (add_device node_id timeout s)
unfolding add_device new_device
add_device-Keeps node_id timeout s v = elim (Bool-cases (ltb (length s.devices) max_devices)) [
  | inr e ↦ rw e tt
  | inl e ↦ elim (Bool-cases (ltb node_id 128)) [
    | inr e' ↦ rw (e, e') tt
    | inl e' ↦
        rw (e, e')
          (record {
            valid =
                append_device-IsValid
                  (new_device node_id s.exe_sample_time_ms timeout (is_true s.config.dbg_mode)) s v
                  (ltb→lt (length s.devices) max_devices e)
                  (new_device-IsValid node_id s.exe_sample_time_ms timeout
                    (is_true s.config.dbg_mode))
                  (ltb→lt node_id 128 e') refl;
            socket = refl;
          })
  ]
]

pub add_master-Keeps :
    (node_id : ℕ) (lss sync heart : ℤ) (s : SocketCan)
    → IsValid s
    → Keeps s (add_master node_id lss sync heart s)
add_master-Keeps node_id lss sync heart s v = elim (add_master_lem node_id lss sync heart s) [
  | inr (n, x, e) ↦ rw e tt
  | inl (c, m, e', u, g, h, e) ↦ rw e (record {
    valid = record {
      nodes = append-AreNodes s.devices m v.nodes u (omega (arith, h, c.small));
      room = omega (arith, length-append s.devices (m ∷ []), c.room);
      named = v.named;
      one_master = rw (append-master_count s.devices m, g) (ground (arith, v.one_master, c.first));
    };
    socket = refl;
  })
]

replace-IsValid :
    (node_id : ℕ) (s : SocketCan) (p : FirstAt node_id s.devices) (d' : Device)
    → IsValid s
    → Device.Lock.IsValid d'
    → SameIdentity p.device d'
    → IsValid (with_devices (p.before ++ (d' ∷ p.after)) s)
replace-IsValid node_id s p d' v u i = record {
  nodes = replace-AreNodes p.before p.after p.device d' (subst AreNodes p.whole v.nodes) u i;
  room =
      omega
        (arith, replace-length p.before p.after p.device d', ap (λ xs. length xs) p.whole, v.room);
  named = v.named;
  one_master =
      replace-master_count p.before p.after p.device d' i
      ∙ ap (λ xs. master_count xs) (sym p.whole)
      ∙ v.one_master;
}

device_of :
    (node_id : ℕ) (s : SocketCan) (p : FirstAt node_id s.devices)
    → IsValid s
    → Device.Lock.IsValid p.device
device_of node_id s p v = (at-AreNodes p.before p.after p.device (subst AreNodes p.whole v.nodes)).0

found-IsPrintable :
    (node_id size : ℕ) (s : SocketCan) (p : FirstAt node_id s.devices)
    → ArePrintable size s.devices
    → IsPrintable p.device.dbg_mode size
found-IsPrintable node_id size s p q =
    at-ArePrintable size p.before p.after p.device (subst (ArePrintable size) p.whole q)

put_device-Keeps :
    (node_id code : ℕ) (d' : Device) (s : SocketCan) (p : FirstAt node_id s.devices)
    → IsValid s
    → Device.Lock.IsValid d'
    → SameIdentity p.device d'
    → Keeps s (
        if code == 0
        then ok (with_devices (p.before ++ (d' ∷ p.after)) s)
        else thrown runtime_error)
put_device-Keeps node_id code d' s p v u i = elim (Bool-cases (code == 0)) [
  | inl e ↦ rw e (record { valid = replace-IsValid node_id s p d' v u i; socket = refl })
  | inr e ↦ rw e tt
]

pub add_pdo-Keeps :
    (node_id cob_id od_size timeout cycle : ℕ) (rw : Direction) (s : SocketCan)
    → IsValid s
    → od_size ≤ 8
    → ArePrintable od_size s.devices
    → Keeps s (add_pdo node_id cob_id rw od_size timeout cycle s)
add_pdo-Keeps node_id cob_id od_size timeout cycle dir s v h q =
    elim (add_pdo_lem node_id cob_id od_size timeout cycle dir s) [
      | inl (a, e) ↦ rw e tt
      | inr (p, e) ↦
          let (code, d') = Device.add_pdo cob_id dir od_size timeout cycle p.device in
          rw e (
            put_device-Keeps node_id code d' s p v
              (add_pdo-IsValid cob_id dir od_size timeout cycle p.device (device_of node_id s p v) h
                (found-IsPrintable node_id od_size s p q))
              (add_pdo-SameIdentity cob_id od_size timeout cycle dir p.device))
    ]

pub add_sdo-Keeps :
    (node_id tx id_rx index sub od_size sample : ℕ) (rw : Direction) (s : SocketCan)
    → IsValid s
    → od_size < 2 ^ 31
    → ArePrintable od_size s.devices
    → Keeps s (add_sdo node_id tx id_rx rw index sub od_size sample s)
add_sdo-Keeps node_id tx id_rx index sub od_size sample dir s v h q =
    elim (add_sdo_lem node_id tx id_rx index sub od_size sample dir s) [
      | inl (a, e) ↦ rw e tt
      | inr (p, e) ↦
          let (code, d') = Device.add_sdo tx id_rx dir index sub od_size sample p.device in
          rw e (
            put_device-Keeps node_id code d' s p v
              (add_sdo-IsValid tx id_rx index sub od_size sample dir p.device
                (device_of node_id s p v) h (found-IsPrintable node_id od_size s p q))
              (add_sdo-SameIdentity tx id_rx index sub od_size sample dir p.device))
    ]
