-- ===== src/Asyn/Safe.antt =====
-- A command whose initAsyn throws leaves the object as it was, and one that succeeds leaves it valid.
use e3_ecmc_plugin_socketcan.Common.{
  ℕ, ◌≤◌, ◌<◌, ◌^◌, ◌≡◌, true, false, Option, none, some, List, arith, min,
}
use e3_ecmc_plugin_socketcan.Common.Attempt.{Attempt, ok, thrown, crashed}
use e3_ecmc_plugin_socketcan.Config.{codes}
use e3_ecmc_plugin_socketcan.Defs.{Direction, dir_write}
use e3_ecmc_plugin_socketcan.SocketCan.{SocketCan}
use e3_ecmc_plugin_socketcan.SocketCan.Invariant.{IsValid, ArePrintable}
use e3_ecmc_plugin_socketcan.SocketCan.Keeps.{
  Keeps, add_device-Keeps, add_master-Keeps, add_pdo-Keeps, add_sdo-Keeps,
}
use e3_ecmc_plugin_socketcan.SocketCan.Table.{add_master, add_device, add_pdo, add_sdo}
use e3_ecmc_plugin_socketcan.Asyn.{Port, Call}
use e3_ecmc_plugin_socketcan.Asyn.Names.{Kind}
use e3_ecmc_plugin_socketcan.Asyn.Init.{
  Logged, with_answer, data_added, init_asyn_object, init_asyn_pdo, init_asyn_device,
}
use e3_ecmc_plugin_socketcan.Asyn.Commands.{
  then_init, behind, with_items, Request, master_request, device_request, pdo_request, sdo_request,
  init_asyn_master, perform,
}

-- The call returned or threw.
abbrev EndsInit : {A : Type 0} → Logged A → Type 0
EndsInit (ok a, log) = Unit {0}
EndsInit (thrown e, log) = Unit {0}
EndsInit (crashed, log) = true ≡ false

object-EndsInit :
    (k : Kind) (this node_id : ℕ) (name : List ℕ) (size : ℕ) (rw : Direction) (port : Option Port)
    (log : List Call)
    → EndsInit (init_asyn_object k this node_id name size rw port log)
unfolding init_asyn_object data_added with_answer
object-EndsInit k this node_id name size dir none log = tt
object-EndsInit k this node_id name size dir (some port) log = ground arith

device-EndsInit :
    (node_id : ℕ) (port : Option Port) (log : List Call)
    → EndsInit (init_asyn_device node_id port log)
unfolding init_asyn_device with_answer
device-EndsInit node_id none log = tt
device-EndsInit node_id (some port) log = ground arith

then-EndsInit :
    {A B : Type 0} (x : Logged A) (rest : List Call → Logged B)
    → EndsInit x
    → ((log : List Call) → EndsInit (rest log))
    → EndsInit (then_init x rest)
then-EndsInit (ok a, log) rest h k = k log
then-EndsInit (thrown e, log) rest h k = tt
then-EndsInit (crashed, log) rest h k = absurd (ground (arith, h))

master-EndsInit :
    (a b c node_id : ℕ) (port : Option Port) (log : List Call)
    → EndsInit (init_asyn_master a b c node_id port log)
unfolding init_asyn_master
master-EndsInit a b c node_id port log =
    then-EndsInit (init_asyn_device node_id port log) _ (device-EndsInit node_id port log) (λ log1.
      then-EndsInit (init_asyn_pdo a node_id (codes "lss") 0 dir_write port log1) _
        (object-EndsInit _ a node_id (codes "lss") 0 dir_write port log1)
        (λ log2.
          then-EndsInit (init_asyn_pdo b node_id (codes "sync") 0 dir_write port log2) _
            (object-EndsInit _ b node_id (codes "sync") 0 dir_write port log2)
            (λ log3. object-EndsInit _ c node_id (codes "heart") 1 dir_write port log3)))

behind-Keeps :
    {A : Type 0} (s s' : SocketCan) (x : Logged A)
    → Keeps s (ok s')
    → EndsInit x
    → Keeps s (behind x s').0
behind-Keeps s s' (ok a, log) k h = k
behind-Keeps s s' (thrown e, log) k h = tt
behind-Keeps s s' (crashed, log) k h = absurd (ground (arith, h))

items-Keeps :
    {A : Type 0} (s : SocketCan) (r : Attempt SocketCan) (init : List Call → Logged A)
    (log : List Call)
    → Keeps s r
    → EndsInit (init log)
    → Keeps s (with_items r init log).0
items-Keeps s (ok s') init log k h = behind-Keeps s s' (init log) k h
items-Keeps s (thrown e) init log k h = tt
items-Keeps s crashed init log k h = k

-- A PDO is given at most 8 bytes and an SDO less than 2^31, and an even number if a device is in debug
-- mode.
abbrev pub FitsRequest : Request → SocketCan → Type 0
FitsRequest (pdo_request this name node_id cob_id rw size timeout period) s =
    (size ≤ 8) × ArePrintable size s.devices
FitsRequest (sdo_request this name node_id tx id_rx rw index sub size sample) s =
    (size < 2 ^ 31) × ArePrintable size s.devices
FitsRequest _ _ = Unit {0}

pub perform-Keeps :
    (r : Request) (port : Option Port) (s : SocketCan) (log : List Call)
    → IsValid s
    → FitsRequest r s
    → Keeps s (perform r port s log).0
unfolding perform
perform-Keeps (master_request a b c node_id lss sync heart) port s log v h =
    items-Keeps s (add_master node_id lss sync heart s) _ log
      (add_master-Keeps node_id lss sync heart s v) (master-EndsInit a b c node_id port log)
perform-Keeps (device_request node_id timeout) port s log v h =
    items-Keeps s (add_device node_id timeout s) _ log (add_device-Keeps node_id timeout s v)
      (device-EndsInit node_id port log)
perform-Keeps (pdo_request this name node_id cob_id dir size timeout period) port s log v (h, q) =
    items-Keeps s (add_pdo node_id cob_id dir size timeout period s) _ log
      (add_pdo-Keeps node_id cob_id size timeout period dir s v h q)
      (object-EndsInit _ this node_id name (min size 8) dir port log)
perform-Keeps (sdo_request this name node_id tx id_rx dir index sub size sample) port s log v
      (h, q) =
    items-Keeps s (add_sdo node_id tx id_rx dir index sub size sample s) _ log
      (add_sdo-Keeps node_id tx id_rx index sub size sample dir s v h q)
      (object-EndsInit _ this node_id name size dir port log)
