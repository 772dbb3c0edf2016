-- ===== src/SocketCan/Asyn.antt =====
-- Values that asyn writes to the objects of the devices of an ecmcSocketCAN: asynWriteSDOValue and
-- asynWritePDOValue, called with the object that registered them. The device and the object are named
-- by their positions here.
use e3_ecmc_plugin_socketcan.Common.{ℕ, zero, suc, ◌≡◌, refl, List, [], ◌∷◌}
use e3_ecmc_plugin_socketcan.Common.Memory.{Outcome, done, ◌>>=◌}
use e3_ecmc_plugin_socketcan.Common.Bytes.{AreBytes}
use e3_ecmc_plugin_socketcan.Frame.{Frame}
use e3_ecmc_plugin_socketcan.Sink.{FrameSink, write_buffer_sink}
use e3_ecmc_plugin_socketcan.Sink.Sends.{Leaves, then-Leaves}
use e3_ecmc_plugin_socketcan.WriteBuffer
use e3_ecmc_plugin_socketcan.WriteBuffer.{WriteBuffer, getlast_writes_error_and_reset}
use e3_ecmc_plugin_socketcan.Device
use e3_ecmc_plugin_socketcan.Device.{Device}
use e3_ecmc_plugin_socketcan.Device.Asyn
use e3_ecmc_plugin_socketcan.Device.Asyn.{IsLong}
use e3_ecmc_plugin_socketcan.Device.Identity.{SameIdentity}
use e3_ecmc_plugin_socketcan.Device.Lock
use e3_ecmc_plugin_socketcan.Device.Lock.{DeviceEnds}
use e3_ecmc_plugin_socketcan.Device.Sends
use e3_ecmc_plugin_socketcan.SocketCan.{SocketCan}
use e3_ecmc_plugin_socketcan.SocketCan.Sends.{KeepsBuffer}
use e3_ecmc_plugin_socketcan.SocketCan.Invariant.{
  AreNodes, SameTable, TableEnds, cons-SameTable, same_SameTable,
}

-- What holds of the device that is named, if there is one.
abbrev pub AtDevice : (Device → Type 0) → ℕ → List Device → Type 0
AtDevice P j [] = Unit {0}
AtDevice P zero (d ∷ ds) = P d
AtDevice P (suc j) (d ∷ ds) = AtDevice P j ds

module _ {B : Type 0} ⦃k : FrameSink B⦄ where
  unfoldable pub at_device :
      ℕ → (Device → B → Outcome (Device × B)) → List Device → B → Outcome (List Device × B)
  at_device j call [] b = done ([], b)
  at_device zero call (d ∷ ds) b = call d b >>= λ r. done (r.0 ∷ ds, r.1)
  at_device (suc j) call (d ∷ ds) b = at_device j call ds b >>= λ q. done (d ∷ q.0, q.1)

  -- A call that leaves a valid device valid, and its identity alone, does the same among others.
  at_device-TableEnds :
      (call : Device → B → Outcome (Device × B)) (P : Device → Type 0)
      (ends : (d : Device) (b : B) → Device.Lock.IsValid d → P d → DeviceEnds (call d b))
      (same : (d d' : Device) (b b' : B) → call d b ≡ done (d', b') → SameIdentity d d') (j : ℕ)
      (ds : List Device) (b : B)
      → AreNodes ds
      → AtDevice P j ds
      → TableEnds ds (at_device j call ds b)
  unfolding at_device
  at_device-TableEnds call P ends same j [] b a h = ([], b, refl, same_SameTable [] a)
  at_device-TableEnds call P ends same zero (d ∷ ds) b (v, l, a) h =
      let (d', b1, e1, v1) = ends d b v h in
      (d' ∷ ds, b1, rw e1, cons-SameTable d d' ds ds v1 l (same d d' b b1 e1) (same_SameTable ds a))
  at_device-TableEnds call P ends same (suc j) (d ∷ ds) b (v, l, a) h =
      let (ds', b1, e1, t) = at_device-TableEnds call P ends same j ds b a h in
      (d ∷ ds', b1, rw e1, cons-SameTable d d ds ds' v l (record { node = refl; master = refl }) t)

unfoldable pub asyn_write_sdo : ℕ → ℕ → List ℕ → SocketCan → Outcome SocketCan
asyn_write_sdo j i value s = do
  (ds, b) ← at_device j (Device.Asyn.asyn_write_sdo i value) s.devices s.write_buffer
  done (record s { devices = ds; write_buffer = b })

unfoldable pub asyn_write_pdo : ℕ → ℕ → List ℕ → SocketCan → Outcome SocketCan
asyn_write_pdo j i value s = do
  (ds, b) ← at_device j (Device.Asyn.asyn_write_pdo i value) s.devices s.write_buffer
  done (record s { devices = ds; write_buffer = b })

-- The value fits the object that it is written to.
abbrev pub FitsSdo : ℕ → ℕ → List ℕ → SocketCan → Type 0
FitsSdo j i value s = AtDevice (λ d. IsLong i value d.sdos) j s.devices

-- The devices after the write, and the object with them and the write buffer that it leaves.
abbrev pub WriteEnds : SocketCan → Outcome SocketCan → Type 0
WriteEnds s r =
    (ds : List Device) × (b : WriteBuffer) × SameTable s.devices ds
    × (r ≡ done (record s { devices = ds; write_buffer = b }))

pub asyn_write_sdo-WriteEnds :
    (j i : ℕ) (value : List ℕ) (s : SocketCan)
    → AreNodes s.devices
    → FitsSdo j i value s
    → WriteEnds s (asyn_write_sdo j i value s)
unfolding asyn_write_sdo
asyn_write_sdo-WriteEnds j i value s a h =
    let (ds, b, e, t) =
      at_device-TableEnds (Device.Asyn.asyn_write_sdo i value) (λ d. IsLong i value d.sdos)
        (Device.Asyn.asyn_write_sdo-DeviceEnds i value)
        (Device.Asyn.asyn_write_sdo-SameIdentity i value) j s.devices s.write_buffer a h in
    (ds, b, t, rw e)

every-AtDevice :
    (P : Device → Type 0) (j : ℕ) (ds : List Device) → ((d : Device) → P d) → AtDevice P j ds
every-AtDevice P j [] h = tt
every-AtDevice P zero (d ∷ ds) h = h d
every-AtDevice P (suc j) (d ∷ ds) h = every-AtDevice P j ds h

pub asyn_write_pdo-WriteEnds :
    (j i : ℕ) (value : List ℕ) (s : SocketCan)
    → AreNodes s.devices
    → AreBytes value
    → WriteEnds s (asyn_write_pdo j i value s)
unfolding asyn_write_pdo
asyn_write_pdo-WriteEnds j i value s a y =
    let (ds, b, e, t) =
      at_device-TableEnds (Device.Asyn.asyn_write_pdo i value) (λ d. AreBytes value)
        (Device.Asyn.asyn_write_pdo-DeviceEnds i value)
        (Device.Asyn.asyn_write_pdo-SameIdentity i value) j s.devices s.write_buffer a
        (every-AtDevice (λ d. AreBytes value) j s.devices (λ d. y)) in
    (ds, b, t, rw e)

module _ (P : WriteBuffer → Type 0)
    (closed : (f : Frame) (b : WriteBuffer) → P b → P (WriteBuffer.add_write_can f b).1) where
  at_device-Leaves :
      (call : Device → WriteBuffer → Outcome (Device × WriteBuffer))
      (leaves : (d : Device) (b : WriteBuffer) → P b → Leaves P (λ r. r.1) (call d b)) (j : ℕ)
      (ds : List Device) (b : WriteBuffer)
      → P b
      → Leaves P (λ r. r.1) (at_device j call ds b)
  unfolding at_device
  at_device-Leaves call leaves j [] b h = h
  at_device-Leaves call leaves zero (d ∷ ds) b h =
      then-Leaves P (λ r. r.1) (λ r. r.1) (call d b) _ (leaves d b h)
        (λ (r : Device × WriteBuffer) (c : P r.1). c)
  at_device-Leaves call leaves (suc j) (d ∷ ds) b h =
      then-Leaves P (λ r. r.1) (λ r. r.1) (at_device j call ds b) _
        (at_device-Leaves call leaves j ds b h) (λ (q : List Device × WriteBuffer) (c : P q.1). c)

  pub asyn_write_sdo-KeepsBuffer :
      (j i : ℕ) (value : List ℕ) (s : SocketCan)
      → P s.write_buffer
      → KeepsBuffer P (asyn_write_sdo j i value s)
  unfolding asyn_write_sdo
  asyn_write_sdo-KeepsBuffer j i value s h =
      then-Leaves P (λ r. r.1) (λ (t : SocketCan). t.write_buffer)
        (at_device j (Device.Asyn.asyn_write_sdo i value) s.devices s.write_buffer) _
        (at_device-Leaves (Device.Asyn.asyn_write_sdo i value)
          (Device.Sends.asyn_write_sdo-Leaves P closed i value) j s.devices s.write_buffer h)
        (λ (r : List Device × WriteBuffer) (c : P r.1). c)

  pub asyn_write_pdo-KeepsBuffer :
      (j i : ℕ) (value : List ℕ) (s : SocketCan)
      → P s.write_buffer
      → KeepsBuffer P (asyn_write_pdo j i value s)
  unfolding asyn_write_pdo
  asyn_write_pdo-KeepsBuffer j i value s h =
      then-Leaves P (λ r. r.1) (λ (t : SocketCan). t.write_buffer)
        (at_device j (Device.Asyn.asyn_write_pdo i value) s.devices s.write_buffer) _
        (at_device-Leaves (Device.Asyn.asyn_write_pdo i value)
          (Device.Sends.asyn_write_pdo-Leaves P closed i value) j s.devices s.write_buffer h)
        (λ (r : List Device × WriteBuffer) (c : P r.1). c)
