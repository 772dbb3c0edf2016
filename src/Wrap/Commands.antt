-- ===== src/Wrap/Commands.antt =====
-- What the shell commands and addWriteSocketCAN of ecmcSocketCANWrap.cpp do, on every branch.
use e3_ecmc_plugin_socketcan.Common.{
  ℕ, ◌≤◌, ◌<◌, ◌^◌, ◌%◌, ◌≡◌, refl, ◌⊎◌, inl, inr, Bool, true, false, Option, none, some, List,
  arith, if◌then◌else◌,
}
use e3_ecmc_plugin_socketcan.Common.Int.{ℤ, pos, is_neg, pos_part, to_uint32}
use e3_ecmc_plugin_socketcan.Common.Memory.{Outcome, done, fault}
use e3_ecmc_plugin_socketcan.Common.Attempt.{Attempt, ok, thrown, crashed}
use e3_ecmc_plugin_socketcan.SocketCan.{SocketCan}
use e3_ecmc_plugin_socketcan.SocketCan.Invariant.{IsValid, ArePrintable}
use e3_ecmc_plugin_socketcan.SocketCan.Keeps.{
  Keeps, add_device-Keeps, add_master-Keeps, add_pdo-Keeps, add_sdo-Keeps,
}
use e3_ecmc_plugin_socketcan.Wrap.{Can, null, live}
use e3_ecmc_plugin_socketcan.Wrap.Shell.{
  AsynStatus, asyn_success, asyn_error, is_help, report, through, through_checked, with_name,
  refuse_if, invalid_dir, temp_dir, ecmc_can_open_add_master, ecmc_can_open_add_device,
  ecmc_can_open_add_sdo, ecmc_can_open_add_pdo,
}

-- A command of the shell, with its arguments.
pub data Command : Type 0 where
  master_command : Option (List ℕ) → ℤ → ℤ → ℤ → ℤ → Command
  device_command : Option (List ℕ) → ℤ → ℤ → Command
  sdo_command : Option (List ℕ) → ℤ → ℤ → ℤ → ℤ → ℤ → ℤ → ℤ → ℤ → Command
  pdo_command : Option (List ℕ) → ℤ → ℤ → ℤ → ℤ → ℤ → ℤ → Command

abbrev pub run_command : Command → Can → Outcome (AsynStatus × Can)
run_command (master_command name node_id lss sync heart) can =
    ecmc_can_open_add_master name node_id lss sync heart can
run_command (device_command name node_id timeout) can =
    ecmc_can_open_add_device name node_id timeout can
run_command (sdo_command name node_id tx id_rx dir index sub size sample) can =
    ecmc_can_open_add_sdo name node_id tx id_rx dir index sub size sample can
run_command (pdo_command name node_id cob_id dir size timeout period) can =
    ecmc_can_open_add_pdo name node_id cob_id dir size timeout period can

-- The size of an SDO is an int, and that of a PDO is at most 8, as the help text says; and the size is
-- even if a device is in debug mode.
abbrev pub IsSized : Command → SocketCan → Type 0
IsSized (sdo_command name node_id tx id_rx dir index sub size sample) s =
    (pos_part size < 2 ^ 31) × ArePrintable (pos_part size) s.devices
IsSized (pdo_command name node_id cob_id dir size timeout period) s =
    (pos_part size ≤ 8) × ArePrintable (pos_part size) s.devices
IsSized _ _ = Unit {0}

-- The command ended: the object is valid, and an error has left it as it was.
abbrev pub Answers : SocketCan → Outcome (AsynStatus × Can) → Type 0
Answers s r =
    (r ≡ done (asyn_error, live s))
    ⊎ ((s' : SocketCan) × (r ≡ done (asyn_success, live s')) × IsValid s')

report-Answers : (s : SocketCan) (r : Attempt SocketCan) → Keeps s r → Answers s (report s r)
unfolding report
report-Answers s (ok s') k = inr (s', refl, k.valid)
report-Answers s (thrown e) k = inl refl
report-Answers s crashed k = absurd k

if-Answers :
    (s : SocketCan) (test : Bool) (x y : Outcome (AsynStatus × Can))
    → Answers s x
    → Answers s y
    → Answers s (if test then x else y)
if-Answers s true x y p q = p
if-Answers s false x y p q = q

refuse-Answers :
    (s : SocketCan) (test : Bool) (rest : Outcome (AsynStatus × Can))
    → Answers s rest
    → Answers s (refuse_if test (live s) rest)
refuse-Answers s test rest p = if-Answers s test _ rest (inl refl) p

named-Answers :
    (s : SocketCan) (name : Option (List ℕ)) (rest : Outcome (AsynStatus × Can))
    → IsValid s
    → Answers s rest
    → Answers s (with_name name (live s) rest)
unfolding with_name
named-Answers s none rest v p = inl refl
named-Answers s (some name) rest v p = if-Answers s (is_help name) _ rest (inr (s, refl, v)) p

-- On a live, valid object, each of the four commands, for any name (NULL and the requests for help
-- too) and any int arguments with a PDO of at most 8 bytes, and in debug mode an object
-- of an even size, ends without a fault: it reports an error
-- and leaves the object as it was, or reports success and leaves a valid object.
pub command-Answers :
    (c : Command) (s : SocketCan) → IsValid s → IsSized c s → Answers s (run_command c (live s))
unfolding ecmc_can_open_add_master ecmc_can_open_add_device ecmc_can_open_add_sdo
    ecmc_can_open_add_pdo through through_checked
command-Answers (master_command name node_id lss sync heart) s v h =
    named-Answers s name _ v
      (report-Answers s _ (add_master-Keeps (to_uint32 node_id) lss sync heart s v))
command-Answers (device_command name node_id timeout) s v h = named-Answers s name _ v (
    refuse-Answers s (is_neg timeout) _
      (report-Answers s _ (add_device-Keeps (to_uint32 node_id) (pos_part timeout) s v)))
command-Answers (sdo_command name node_id tx id_rx dir index sub size sample) s v (h, q) =
    let k = report-Answers s _ (
      add_sdo-Keeps (to_uint32 node_id) (pos_part tx) (pos_part id_rx) (pos_part index % 2 ^ 16)
        (pos_part sub % 2 ^ 8) (pos_part size) (pos_part sample) (temp_dir dir) s v h q) in
    named-Answers s name _ v (
      refuse-Answers s (is_neg id_rx) _ (
        refuse-Answers s (is_neg tx) _ (
          refuse-Answers s (invalid_dir dir) _ (
            refuse-Answers s (is_neg index) _ (
              refuse-Answers s (is_neg sub) _
                (refuse-Answers s (is_neg size) _ (refuse-Answers s (is_neg sample) _ k)))))))
command-Answers (pdo_command name node_id cob_id dir size timeout period) s v (h, q) =
    named-Answers s name _ v (
      refuse-Answers s (invalid_dir dir) _ (
        refuse-Answers s (is_neg size) _ (
          refuse-Answers s (is_neg timeout) _ (
            refuse-Answers s (is_neg period) _ (
              report-Answers s _ (
                add_pdo-Keeps (to_uint32 node_id) (to_uint32 cob_id) (pos_part size)
                  (pos_part timeout) (pos_part period) (temp_dir dir) s v h q))))))

-- Before the plugin is loaded, with a name that does not ask for help and with arguments that are
-- not refused, ecmcCANOpenAddMaster and ecmcCANOpenAddDevice report an error, but
-- ecmcCANOpenAddSDO and ecmcCANOpenAddPDO call a method of the null pointer.
pub unloaded_commands :
    (name : List ℕ) (node_id lss sync heart timeout cob_id : ℤ)
    (tx id_rx dir index sub size sample read_timeout period : ℕ)
    → is_help name ≡ false
    → 1 ≤ dir
    → dir ≤ 2
    → (ecmc_can_open_add_master (some name) node_id lss sync heart null ≡ done (asyn_error, null))
      × (ecmc_can_open_add_device (some name) node_id timeout null ≡ done (asyn_error, null))
      × (ecmc_can_open_add_sdo
            (some name)
            node_id
            (pos tx)
            (pos id_rx)
            (pos dir)
            (pos index)
            (pos sub)
            (pos size)
            (pos sample)
            null
          ≡ fault)
      × (ecmc_can_open_add_pdo
            (some name)
            node_id
            cob_id
            (pos dir)
            (pos size)
            (pos read_timeout)
            (pos period)
            null
          ≡ fault)
unfolding ecmc_can_open_add_master ecmc_can_open_add_device ecmc_can_open_add_sdo
    ecmc_can_open_add_pdo through through_checked with_name
unloaded_commands name node_id lss sync heart timeout cob_id tx id_rx dir index sub size sample
      read_timeout period h low high =
    let d : invalid_dir (pos dir) ≡ false = ground arith in (rw h, rw h, rw (h, d), rw (h, d))
