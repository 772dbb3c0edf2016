-- ===== src/SocketCan/Find.antt =====
-- findDeviceWithNodeId: the first device with a node id, and replacing it.
use e3_ecmc_plugin_socketcan.Common.{
  ℕ, suc, ◌+◌, ◌<◌, ◌≡◌, ◌≢◌, refl, ap, ◌⊎◌, inl, inr, none, some, List, [], ◌∷◌, ◌++◌, arith, ◌==◌,
  length, Bool-cases,
}
use e3_ecmc_plugin_socketcan.Sdo.Balance.{count}
use e3_ecmc_plugin_socketcan.Device
use e3_ecmc_plugin_socketcan.Device.{Device}
use e3_ecmc_plugin_socketcan.Device.Lock
use e3_ecmc_plugin_socketcan.Device.Identity.{SameIdentity}
use e3_ecmc_plugin_socketcan.SocketCan.Table.{find_device_with_node_id}
use e3_ecmc_plugin_socketcan.SocketCan.Invariant.{AreNodes, master_count}

-- No device has the node id.
abbrev pub Absent : ℕ → List Device → Type 0
Absent node_id [] = Unit {0}
Absent node_id (d ∷ ds) = (d.node_id ≢ node_id) × Absent node_id ds

-- The devices, split at the first one with the node id.
pub record FirstAt (node_id : ℕ) (ds : List Device) : Type 0 where
  pub before : List Device
  pub device : Device
  pub after : List Device
  pub whole : ds ≡ before ++ (device ∷ after)
  pub node : device.node_id ≡ node_id
  pub absent : Absent node_id before

abbrev cons-FirstAt :
    (node_id : ℕ) (d : Device) (ds : List Device)
    → d.node_id ≢ node_id
    → FirstAt node_id ds
    → FirstAt node_id (d ∷ ds)
cons-FirstAt node_id d ds h p = record {
  before = d ∷ p.before;
  device = p.device;
  after = p.after;
  whole = ap (λ xs. d ∷ xs) p.whole;
  node = p.node;
  absent = (h, p.absent);
}

-- The search finds the first device with the node id, or there is none.
pub find_device_with_node_id_lem :
    (node_id : ℕ) (ds : List Device)
    → (Absent node_id ds × (find_device_with_node_id node_id ds ≡ none))
      ⊎ ((p : FirstAt node_id ds) × (find_device_with_node_id node_id ds
            ≡ some (length p.before, p.device)))
unfolding find_device_with_node_id
find_device_with_node_id_lem node_id [] = inl (tt, refl)
find_device_with_node_id_lem node_id (d ∷ ds) = elim (Bool-cases (d.node_id == node_id)) [
  | inl e ↦ inr (
    record {
      before = [];
      device = d;
      after = ds;
      whole = refl;
      node = ground (arith, e);
      absent = tt;
    },
    rw e,
  )
  | inr e ↦ elim (find_device_with_node_id_lem node_id ds) [
    | inl (a, h) ↦ inl ((ground (arith, e), a), rw (e, h))
    | inr (p, h) ↦ inr (cons-FirstAt node_id d ds (ground (arith, e)) p, ground (arith, e, h))
  ]
]

pub at-AreNodes :
    (xs ys : List Device) (d : Device)
    → AreNodes (xs ++ (d ∷ ys))
    → Device.Lock.IsValid d × (d.node_id < 128)
at-AreNodes [] ys d (v, h, a) = (v, h)
at-AreNodes (x ∷ xs) ys d (v, h, a) = at-AreNodes xs ys d a

pub replace-AreNodes :
    (xs ys : List Device) (d d' : Device)
    → AreNodes (xs ++ (d ∷ ys))
    → Device.Lock.IsValid d'
    → SameIdentity d d'
    → AreNodes (xs ++ (d' ∷ ys))
replace-AreNodes [] ys d d' (v, h, a) u i = (u, omega (arith, i.node), a)
replace-AreNodes (x ∷ xs) ys d d' (v, h, a) u i = (v, h, replace-AreNodes xs ys d d' a u i)

pub replace-master_count :
    (xs ys : List Device) (d d' : Device)
    → SameIdentity d d'
    → master_count (xs ++ (d' ∷ ys)) ≡ master_count (xs ++ (d ∷ ys))
replace-master_count [] ys d d' i = rw i.master
replace-master_count (x ∷ xs) ys d d' i = rw (replace-master_count xs ys d d' i)

pub replace-length :
    (xs ys : List Device) (d d' : Device) → length (xs ++ (d' ∷ ys)) ≡ length (xs ++ (d ∷ ys))
replace-length [] ys d d' = refl
replace-length (x ∷ xs) ys d d' = ap suc (replace-length xs ys d d')

pub append-AreNodes :
    (ds : List Device) (d : Device)
    → AreNodes ds
    → Device.Lock.IsValid d
    → d.node_id < 128
    → AreNodes (ds ++ (d ∷ []))
append-AreNodes [] d a v h = (v, h, tt)
append-AreNodes (x ∷ xs) d (u, g, a) v h = (u, g, append-AreNodes xs d a v h)

pub append-master_count :
    (ds : List Device) (d : Device)
    → master_count (ds ++ (d ∷ [])) ≡ master_count ds + count d.is_master
append-master_count [] d = omega arith
append-master_count (x ∷ xs) d = omega (arith, append-master_count xs d)
