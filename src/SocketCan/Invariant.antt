-- ===== src/SocketCan/Invariant.antt =====
-- What holds of ecmcSocketCAN at every moment, and what its operations on devices do to it.
use e3_ecmc_plugin_socketcan.Common.{
  ℕ, suc, ◌+◌, ◌%◌, ◌++◌, ◌≤◌, ◌<◌, ◌≡◌, refl, ap, some, List, [], ◌∷◌, arith, length,
}
use e3_ecmc_plugin_socketcan.Common.Memory.{Outcome, done}
use e3_ecmc_plugin_socketcan.Config.{Config}
use e3_ecmc_plugin_socketcan.Frame.{Frame}
use e3_ecmc_plugin_socketcan.Sink.{FrameSink, write_buffer_sink}
use e3_ecmc_plugin_socketcan.Sdo.Segments.{IsData}
use e3_ecmc_plugin_socketcan.Sdo.Balance.{count}
use e3_ecmc_plugin_socketcan.Printing.{IsPrintable}
use e3_ecmc_plugin_socketcan.Device
use e3_ecmc_plugin_socketcan.Device.{Device}
use e3_ecmc_plugin_socketcan.Device.Lock
use e3_ecmc_plugin_socketcan.Device.Lock.{
  Takes, IsData-Takes, execute-DeviceEnds, new_rx_frame-DeviceEnds,
}
use e3_ecmc_plugin_socketcan.Device.Identity.{
  SameIdentity, execute-SameIdentity, new_rx_frame-SameIdentity,
}
use e3_ecmc_plugin_socketcan.SocketCan.{SocketCan, max_devices, ifnamsiz}
use e3_ecmc_plugin_socketcan.SocketCan.Cycle.{execute_devices, new_rx_frame_devices}

-- Each device keeps its own invariant, and its node id has 7 bits.
abbrev pub AreNodes : List Device → Type 0
AreNodes [] = Unit {0}
AreNodes (d ∷ ds) = Device.Lock.IsValid d × (d.node_id < 128) × AreNodes ds

abbrev pub master_count : List Device → ℕ
master_count [] = 0
master_count (d ∷ ds) = count d.is_master + master_count ds

-- An interface is named, and the name fits in ifr_name.
abbrev pub HasName : Config → Type 0
HasName c = (name : List ℕ) × (c.can_if_str ≡ some name) × (length name < ifnamsiz)

-- There is at most one master, which masterDev_ points to.
pub record IsValid (s : SocketCan) : Type 0 where
  pub nodes : AreNodes s.devices
  pub room : length s.devices ≤ max_devices
  pub named : HasName s.config
  pub one_master : master_count s.devices ≡ count s.master_dev

-- A later state: it is valid, and the write buffer still has the socket that it was made with.
pub record Next (s s' : SocketCan) : Type 0 where
  pub valid : IsValid s'
  pub socket : s'.write_socket ≡ s.write_socket

-- The devices after a call on each of them.
pub record SameTable (ds ds' : List Device) : Type 0 where
  pub nodes : AreNodes ds'
  pub size : length ds' ≡ length ds
  pub masters : master_count ds' ≡ master_count ds

-- Every device in debug mode can print an object of the size.
abbrev pub ArePrintable : ℕ → List Device → Type 0
ArePrintable size [] = Unit {0}
ArePrintable size (d ∷ ds) = IsPrintable d.dbg_mode size × ArePrintable size ds

pub even-ArePrintable : (size : ℕ) (ds : List Device) → size % 2 ≡ 0 → ArePrintable size ds
even-ArePrintable size [] e = tt
even-ArePrintable size (d ∷ ds) e = (ground (arith, e), even-ArePrintable size ds e)

-- The device in the middle can.
pub at-ArePrintable :
    (size : ℕ) (before after : List Device) (d : Device)
    → ArePrintable size (before ++ (d ∷ after))
    → IsPrintable d.dbg_mode size
at-ArePrintable size [] after d (p, ps) = p
at-ArePrintable size (x ∷ before) after d (p, ps) = at-ArePrintable size before after d ps

-- Every device can take the frame.
abbrev pub AreTaken : Frame → List Device → Type 0
AreTaken f [] = Unit {0}
AreTaken f (d ∷ ds) = Takes f d × AreTaken f ds

pub IsData-AreTaken : (f : Frame) (ds : List Device) → IsData f → AreTaken f ds
IsData-AreTaken f [] i = tt
IsData-AreTaken f (d ∷ ds) i = (IsData-Takes f d i, IsData-AreTaken f ds i)

pub same_SameTable : (ds : List Device) → AreNodes ds → SameTable ds ds
same_SameTable ds a = record { nodes = a; size = refl; masters = refl }

pub cons-SameTable :
    (d d' : Device) (ds ds' : List Device)
    → Device.Lock.IsValid d'
    → d.node_id < 128
    → SameIdentity d d'
    → SameTable ds ds'
    → SameTable (d ∷ ds) (d' ∷ ds')
cons-SameTable d d' ds ds' v h i t = record {
  nodes = (v, omega (arith, i.node), t.nodes);
  size = ap suc t.size;
  masters = rw (i.master, t.masters);
}

module _ {B : Type 0} ⦃k : FrameSink B⦄ where
  -- A call on every device ended.
  abbrev pub TableEnds : List Device → Outcome (List Device × B) → Type 0
  TableEnds ds r = (ds' : List Device) × (b : B) × (r ≡ done (ds', b)) × SameTable ds ds'

  pub execute_devices-TableEnds :
      (ds : List Device) (b : B) → AreNodes ds → TableEnds ds (execute_devices ds b)
  unfolding execute_devices
  execute_devices-TableEnds [] b a = ([], b, refl, same_SameTable [] a)
  execute_devices-TableEnds (d ∷ ds) b (v, h, a) =
      let (d', b1, e1, v1) = execute-DeviceEnds d b v in
      let (ds', b2, e2, t) = execute_devices-TableEnds ds b1 a in
      (
        d' ∷ ds',
        b2,
        rw (e1, e2),
        cons-SameTable d d' ds ds' v1 h (execute-SameIdentity d d' b b1 e1) t,
      )

  pub new_rx_frame_devices-TableEnds :
      (f : Frame) (ds : List Device) (b : B)
      → AreNodes ds
      → AreTaken f ds
      → TableEnds ds (new_rx_frame_devices f ds b)
  unfolding new_rx_frame_devices
  new_rx_frame_devices-TableEnds f [] b a i = ([], b, refl, same_SameTable [] a)
  new_rx_frame_devices-TableEnds f (d ∷ ds) b (v, h, a) (i, is) =
      let (d', b1, e1, v1) = new_rx_frame-DeviceEnds f d b v i in
      let (ds', b2, e2, t) = new_rx_frame_devices-TableEnds f ds b1 a is in
      (
        d' ∷ ds',
        b2,
        rw (e1, e2),
        cons-SameTable d d' ds ds' v1 h (new_rx_frame-SameIdentity f d d' b b1 e1) t,
      )
