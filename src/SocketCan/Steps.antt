-- ===== src/SocketCan/Steps.antt =====
-- The whole plugin at run time: the realtime thread, the read thread, the connect thread, the write
-- thread of the buffer, the shell commands and values written over asyn act on one ecmcSocketCAN, in
-- any order.
-- The commands catch every exception.
use e3_ecmc_plugin_socketcan.Common.{
  ◌%◌, ℕ, ◌≤◌, ◌<◌, ◌^◌, ◌≡◌, true, false, arith, Option, none, some, List, [], ◌∷◌,
}
use e3_ecmc_plugin_socketcan.Common.Int.{ℤ}
use e3_ecmc_plugin_socketcan.Common.Memory.{Outcome, done, fault, ◌>>=◌, AfterDone, every-AfterDone}
use e3_ecmc_plugin_socketcan.Common.Attempt.{Attempt, ok, thrown, crashed}
use e3_ecmc_plugin_socketcan.Defs.{Direction}
use e3_ecmc_plugin_socketcan.Sink.{write_buffer_sink}
use e3_ecmc_plugin_socketcan.Sdo.Segments.{IsData}
use e3_ecmc_plugin_socketcan.WriteBuffer.{WriteBuffer, Socket, WorkerPc, worker_step}
use e3_ecmc_plugin_socketcan.SocketCan.{
  SocketCan, Interface, ReadReply, got, failed, connect_external, connect_worker_step,
}
use e3_ecmc_plugin_socketcan.SocketCan.Cycle.{
  execute, read_worker_step, add_write_can, getlast_writes_error,
}
use e3_ecmc_plugin_socketcan.SocketCan.Table.{add_master, add_device, add_pdo, add_sdo}
use e3_ecmc_plugin_socketcan.SocketCan.Invariant.{
  AreTaken, IsData-AreTaken, ArePrintable, even-ArePrintable,
}
use e3_ecmc_plugin_socketcan.SocketCan.Asyn.{asyn_write_sdo, asyn_write_pdo, FitsSdo}
use e3_ecmc_plugin_socketcan.Common.Bytes.{AreBytes}

pub data Event : Type 0 where
  cycle connect_call poll_error : Event
  read_work : ReadReply → Event
  connect_work : Interface → Event
  send : ℕ → ℕ → ℕ → ℕ → ℕ → ℕ → ℕ → ℕ → ℕ → ℕ → Event
  new_device_call : ℕ → ℕ → Event
  new_master_call : ℕ → ℤ → ℤ → ℤ → Event
  new_pdo_call : ℕ → ℕ → Direction → ℕ → ℕ → ℕ → Event
  new_sdo_call : ℕ → ℕ → ℕ → Direction → ℕ → ℕ → ℕ → ℕ → Event
  sdo_written pdo_written : ℕ → ℕ → List ℕ → Event

-- The write thread takes a step, or something happens to the object.
pub data Turn : Type 0 where
  write_work : Turn
  happens : Event → Turn

-- The object, where the write thread stands, and the bus.
pub record System (S : Type 0) : Type 0 where
  pub can : SocketCan
  pub pc : WorkerPc
  pub line : S

-- A command that catches what the call throws.
unfoldable pub caught : SocketCan → Attempt SocketCan → Outcome SocketCan
caught s (ok s') = done s'
caught s (thrown e) = done s
caught s crashed = fault

unfoldable pub put_buffer : Option WriteBuffer → SocketCan → SocketCan
put_buffer none s = s
put_buffer (some b) s = record s { write_buffer = b }

-- What an event does to the object.
unfoldable pub handle : Event → SocketCan → Outcome SocketCan
unfolding caught put_buffer
handle cycle s = execute s
handle connect_call s = done (connect_external s)
handle poll_error s = done (put_buffer (getlast_writes_error (some s.write_buffer)).1 s)
handle (read_work reply) s = read_worker_step reply s
handle (connect_work i) s = connect_worker_step i s
handle (send can_id len d0 d1 d2 d3 d4 d5 d6 d7) s =
    done (put_buffer (add_write_can can_id len d0 d1 d2 d3 d4 d5 d6 d7 (some s.write_buffer)).1 s)
handle (new_device_call node_id timeout) s = caught s (add_device node_id timeout s)
handle (new_master_call node_id lss sync heart) s = caught s (add_master node_id lss sync heart s)
handle (new_pdo_call node_id cob_id rw size timeout period) s =
    caught s (add_pdo node_id cob_id rw size timeout period s)
handle (new_sdo_call node_id tx id_rx rw index sub size sample) s =
    caught s (add_sdo node_id tx id_rx rw index sub size sample s)
handle (sdo_written j i value) s = asyn_write_sdo j i value s
handle (pdo_written j i value) s = asyn_write_pdo j i value s

-- The kernel opens the interface.
abbrev pub Opens : Interface → Type 0
Opens i = ((id : ℕ) × (i.socket ≡ some id)) × (i.binds ≡ true)

-- Every device can take the frame that is read, a PDO is given at most 8 bytes and an SDO less than
-- 2^31, and an even number if a device is in debug mode, a value for an SDO is as long as the object at least and one for a PDO of bytes, and the
-- kernel opens the interface.
abbrev pub Fits : Event → SocketCan → Type 0
Fits (read_work (got bytes f)) s = AreTaken f s.devices
Fits (connect_work i) s = Opens i
Fits (new_pdo_call node_id cob_id rw size timeout period) s =
    (size ≤ 8) × ArePrintable size s.devices
Fits (new_sdo_call node_id tx id_rx rw index sub size sample) s =
    (size < 2 ^ 31) × ArePrintable size s.devices
Fits (sdo_written j i value) s = FitsSdo j i value s
Fits (pdo_written j i value) s = AreBytes value
Fits _ s = Unit {0}

-- The events that fit whatever the state is: of the frames those with 1 to 8 bytes, objects of even sizes, and no values
-- for SDOs.
abbrev pub FitsAny : Event → Type 0
FitsAny (read_work (got bytes f)) = IsData f
FitsAny (connect_work i) = Opens i
FitsAny (new_pdo_call node_id cob_id rw size timeout period) = (size ≤ 8) × (size % 2 ≡ 0)
FitsAny (new_sdo_call node_id tx id_rx rw index sub size sample) = (size < 2 ^ 31) × (size % 2 ≡ 0)
FitsAny (sdo_written j i value) = true ≡ false
FitsAny (pdo_written j i value) = AreBytes value
FitsAny _ = Unit {0}

abbrev pub AllFitAny : List Turn → Type 0
AllFitAny [] = Unit {0}
AllFitAny (write_work ∷ us) = AllFitAny us
AllFitAny (happens e ∷ us) = FitsAny e × AllFitAny us

pub FitsAny-Fits : (e : Event) (s : SocketCan) → FitsAny e → Fits e s
FitsAny-Fits cycle s h = tt
FitsAny-Fits connect_call s h = tt
FitsAny-Fits poll_error s h = tt
FitsAny-Fits (read_work (failed errno)) s h = tt
FitsAny-Fits (read_work (got bytes f)) s h = IsData-AreTaken f s.devices h
FitsAny-Fits (connect_work i) s h = h
FitsAny-Fits (send can_id len d0 d1 d2 d3 d4 d5 d6 d7) s h = tt
FitsAny-Fits (new_device_call node_id timeout) s h = tt
FitsAny-Fits (new_master_call node_id lss sync heart) s h = tt
FitsAny-Fits (new_pdo_call node_id cob_id rw size timeout period) s (h, e) =
    (h, even-ArePrintable size s.devices e)
FitsAny-Fits (new_sdo_call node_id tx id_rx rw index sub size sample) s (h, e) =
    (h, even-ArePrintable size s.devices e)
FitsAny-Fits (sdo_written j i value) s h = absurd (ground (arith, h))
FitsAny-Fits (pdo_written j i value) s h = h

module _ {S : Type 0} (socket : Socket S) where
  unfoldable pub step : Turn → System S → Outcome (System S)
  step write_work t =
      let (pc, b, line) = worker_step socket t.pc t.can.write_buffer t.line in
      done (record { can = record t.can { write_buffer = b }; pc = pc; line = line })
  step (happens e) t = handle e t.can >>= λ s. done (record t { can = s })

  unfoldable pub run : List Turn → System S → Outcome (System S)
  run [] t = done t
  run (u ∷ us) t = step u t >>= λ t'. run us t'

  -- Each event fits the object that it finds.
  abbrev pub AllFit : List Turn → System S → Type 0
  AllFit [] t = Unit {0}
  AllFit (write_work ∷ us) t = AfterDone (λ t'. AllFit us t') (step write_work t)
  AllFit (happens e ∷ us) t = Fits e t.can × AfterDone (λ t'. AllFit us t') (step (happens e) t)

  pub AllFitAny-AllFit : (us : List Turn) (t : System S) → AllFitAny us → AllFit us t
  AllFitAny-AllFit [] t a = tt
  AllFitAny-AllFit (write_work ∷ us) t a =
      every-AfterDone _ (step write_work t) (λ t'. AllFitAny-AllFit us t' a)
  AllFitAny-AllFit (happens e ∷ us) t (h, a) = (
    FitsAny-Fits e t.can h,
    every-AfterDone _ (step (happens e) t) (λ t'. AllFitAny-AllFit us t' a),
  )
