-- ===== src/Wrap/Register.antt =====
-- How ecmcSocketCANWrap.cpp registers its commands with the EPICS shell. iocshRegister is not code of
-- this repository, so what it does to the shell is a parameter. The shell calls a command with an
-- array of iocshArgBuf, a union; a read past the array, or of the member that was not written, is a
-- fault. Of iocshArgType, the two that occur are here.
use e3_ecmc_plugin_socketcan.Common.{ℕ, zero, suc, Option, List, [], ◌∷◌}
use e3_ecmc_plugin_socketcan.Common.Int.{ℤ}
use e3_ecmc_plugin_socketcan.Common.Memory.{Outcome, done, fault, ◌>>=◌}
use e3_ecmc_plugin_socketcan.Config.{codes}
use e3_ecmc_plugin_socketcan.Wrap.{Can}
use e3_ecmc_plugin_socketcan.Wrap.Shell.{
  AsynStatus, ecmc_can_open_add_master, ecmc_can_open_add_device, ecmc_can_open_add_sdo,
  ecmc_can_open_add_pdo,
}

pub data ArgType : Type 0 where
  arg_string arg_int : ArgType

pub record Arg : Type 0 where
  pub name : List ℕ
  pub arg_type : ArgType

pub record FuncDef : Type 0 where
  pub name : List ℕ
  pub nargs : ℕ
  pub args : List Arg

pub data ArgBuf : Type 0 where
  sval : Option (List ℕ) → ArgBuf
  ival : ℤ → ArgBuf

-- args[n].sval
unfoldable pub read_sval : ℕ → List ArgBuf → Outcome (Option (List ℕ))
read_sval n [] = fault
read_sval zero (b ∷ bs) = elim b [ sval s ↦ done s | ival i ↦ fault ]
read_sval (suc n) (b ∷ bs) = read_sval n bs

-- args[n].ival
unfoldable pub read_ival : ℕ → List ArgBuf → Outcome ℤ
read_ival n [] = fault
read_ival zero (b ∷ bs) = elim b [ sval s ↦ fault | ival i ↦ done i ]
read_ival (suc n) (b ∷ bs) = read_ival n bs

abbrev string_arg : List ℕ → Arg
string_arg name = record { name = name; arg_type = arg_string }

abbrev int_arg : List ℕ → Arg
int_arg name = record { name = name; arg_type = arg_int }

abbrev pub init_func_def_0 : FuncDef
init_func_def_0 = record {
  name = codes "ecmcCANOpenAddMaster";
  nargs = 5;
  args =
      string_arg (codes "Name")
      ∷ int_arg (codes "Node Id")
      ∷ int_arg (codes "LSS sample time ms")
      ∷ int_arg (codes "Sync sample time ms")
      ∷ int_arg (codes "NMT Heart sample time ms")
      ∷ [];
}

unfoldable pub init_call_func_0 : List ArgBuf → Can → Outcome (AsynStatus × Can)
unfolding read_sval read_ival
init_call_func_0 args can = do
  name ← read_sval 0 args
  node_id ← read_ival 1 args
  lss ← read_ival 2 args
  sync ← read_ival 3 args
  heart ← read_ival 4 args
  ecmc_can_open_add_master name node_id lss sync heart can

abbrev pub init_func_def_1 : FuncDef
init_func_def_1 = record {
  name = codes "ecmcCANOpenAddDevice";
  nargs = 3;
  args =
      string_arg (codes "Name")
      ∷ int_arg (codes "Node Id")
      ∷ int_arg (codes "NMT Heart timeout ms")
      ∷ [];
}

unfoldable pub init_call_func_1 : List ArgBuf → Can → Outcome (AsynStatus × Can)
unfolding read_sval read_ival
init_call_func_1 args can = do
  name ← read_sval 0 args
  node_id ← read_ival 1 args
  timeout ← read_ival 2 args
  ecmc_can_open_add_device name node_id timeout can

abbrev pub init_func_def_2 : FuncDef
init_func_def_2 = record {
  name = codes "ecmcCANOpenAddSDO";
  nargs = 9;
  args =
      string_arg (codes "Name")
      ∷ int_arg (codes "Node Id")
      ∷ int_arg (codes "COB id TX")
      ∷ int_arg (codes "COB id RX")
      ∷ int_arg (codes "Direction")
      ∷ int_arg (codes "OD Index")
      ∷ int_arg (codes "OD sub index")
      ∷ int_arg (codes "OD size")
      ∷ int_arg (codes "Read sample time ms")
      ∷ [];
}

unfoldable pub init_call_func_2 : List ArgBuf → Can → Outcome (AsynStatus × Can)
unfolding read_sval read_ival
init_call_func_2 args can = do
  name ← read_sval 0 args
  node_id ← read_ival 1 args
  tx ← read_ival 2 args
  id_rx ← read_ival 3 args
  dir ← read_ival 4 args
  od_index ← read_ival 5 args
  od_sub_index ← read_ival 6 args
  od_size ← read_ival 7 args
  sample ← read_ival 8 args
  ecmc_can_open_add_sdo name node_id tx id_rx dir od_index od_sub_index od_size sample can

abbrev pub init_func_def_3 : FuncDef
init_func_def_3 = record {
  name = codes "ecmcCANOpenAddPDO";
  nargs = 7;
  args =
      string_arg (codes "Name")
      ∷ int_arg (codes "Node Id")
      ∷ int_arg (codes "COB Id")
      ∷ int_arg (codes "Direction")
      ∷ int_arg (codes "ODSize")
      ∷ int_arg (codes "Read Timeout ms")
      ∷ int_arg (codes "Write cycle ms")
      ∷ [];
}

unfoldable pub init_call_func_3 : List ArgBuf → Can → Outcome (AsynStatus × Can)
unfolding read_sval read_ival
init_call_func_3 args can = do
  name ← read_sval 0 args
  node_id ← read_ival 1 args
  cob_id ← read_ival 2 args
  dir ← read_ival 3 args
  od_size ← read_ival 4 args
  read_timeout_ms ← read_ival 5 args
  write_cycle_ms ← read_ival 6 args
  ecmc_can_open_add_pdo name node_id cob_id dir od_size read_timeout_ms write_cycle_ms can

-- What is handed to iocshRegister.
abbrev pub CallFunc : Type 0
CallFunc = List ArgBuf → Can → Outcome (AsynStatus × Can)

unfoldable pub ecmc_can_plugin_driver_register : {S : Type 0} → (FuncDef → CallFunc → S → S) → S → S
unfolding init_call_func_0 init_call_func_1 init_call_func_2 init_call_func_3
ecmc_can_plugin_driver_register iocsh_register shell =
    let shell0 = iocsh_register init_func_def_0 init_call_func_0 shell in
    let shell1 = iocsh_register init_func_def_1 init_call_func_1 shell0 in
    let shell2 = iocsh_register init_func_def_2 init_call_func_2 shell1 in
    iocsh_register init_func_def_3 init_call_func_3 shell2
