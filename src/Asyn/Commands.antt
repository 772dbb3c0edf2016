-- ===== src/Asyn/Commands.antt =====
-- The commands that add devices and objects, with the asyn port: what ecmcSocketCAN does, as in
-- SocketCan/Table, and then initAsyn at the end of each constructor. An object gets the address `this`
-- and the name from the command.
use e3_ecmc_plugin_socketcan.Common.{ℕ, min, true, Option, List}
use e3_ecmc_plugin_socketcan.Common.Int.{ℤ}
use e3_ecmc_plugin_socketcan.Common.Attempt.{Attempt, ok, thrown, crashed}
use e3_ecmc_plugin_socketcan.Config.{codes}
use e3_ecmc_plugin_socketcan.Defs.{Direction, dir_write}
use e3_ecmc_plugin_socketcan.SocketCan.{SocketCan, Interface, new_socket_can}
use e3_ecmc_plugin_socketcan.SocketCan.Table.{add_master, add_device, add_pdo, add_sdo}
use e3_ecmc_plugin_socketcan.Asyn.{Port, Call}
use e3_ecmc_plugin_socketcan.Asyn.Init.{
  Logged, init_asyn_sdo, init_asyn_pdo, init_asyn_device, init_asyn_can,
}

-- One call after another, which is not made if the first throws.
abbrev pub then_init : {A B : Type 0} → Logged A → (List Call → Logged B) → Logged B
then_init (ok a, log) rest = rest log
then_init (thrown e, log) rest = (thrown e, log)
then_init (crashed, log) rest = (crashed, log)

-- What the constructors made, once their initAsyn returned.
abbrev pub behind : {A : Type 0} → Logged A → SocketCan → Logged SocketCan
behind (ok a, log) s = (ok s, log)
behind (thrown e, log) s = (thrown e, log)
behind (crashed, log) s = (crashed, log)

-- The constructors run if the tests before them do not throw.
abbrev pub with_items :
    {A : Type 0} → Attempt SocketCan → (List Call → Logged A) → List Call → Logged SocketCan
with_items (ok s) init log = behind (init log) s
with_items (thrown e) init log = (thrown e, log)
with_items crashed init log = (crashed, log)

-- The constructor of ecmcSocketCAN, whose three threads start.
unfoldable pub construct_can :
    Option (List ℕ) → ℕ → Option Port → Interface → List Call → Logged SocketCan
construct_can config_str exe_sample_time_ms port i =
    with_items (new_socket_can config_str exe_sample_time_ms true true true i) (init_asyn_can port)

pub data Request : Type 0 where
  master_request : ℕ → ℕ → ℕ → ℕ → ℤ → ℤ → ℤ → Request
  device_request : ℕ → ℕ → Request
  pdo_request : ℕ → List ℕ → ℕ → ℕ → Direction → ℕ → ℕ → ℕ → Request
  sdo_request : ℕ → List ℕ → ℕ → ℕ → ℕ → Direction → ℕ → ℕ → ℕ → ℕ → Request

-- The constructor of a master: that of its device, and those of its three PDOs.
unfoldable pub init_asyn_master : ℕ → ℕ → ℕ → ℕ → Option Port → List Call → Logged (ℕ × ℕ)
init_asyn_master lss sync heart node_id port log =
    then_init (init_asyn_device node_id port log) (λ log1.
      then_init (init_asyn_pdo lss node_id (codes "lss") 0 dir_write port log1) (λ log2.
        then_init (init_asyn_pdo sync node_id (codes "sync") 0 dir_write port log2)
          (init_asyn_pdo heart node_id (codes "heart") 1 dir_write port)))

-- A PDO keeps at most 8 bytes.
unfoldable pub perform : Request → Option Port → SocketCan → List Call → Logged SocketCan
unfolding init_asyn_master
perform (master_request a b c node_id lss sync heart) port s =
    with_items (add_master node_id lss sync heart s) (init_asyn_master a b c node_id port)
perform (device_request node_id timeout) port s =
    with_items (add_device node_id timeout s) (init_asyn_device node_id port)
perform (pdo_request this name node_id cob_id rw size timeout period) port s =
    with_items (add_pdo node_id cob_id rw size timeout period s)
      (init_asyn_pdo this node_id name (min size 8) rw port)
perform (sdo_request this name node_id tx id_rx rw index sub size sample) port s =
    with_items (add_sdo node_id tx id_rx rw index sub size sample s)
      (init_asyn_sdo this node_id name size rw port)
