-- ===== src/Wrap/Arguments.antt =====
-- The registered commands and their tables of arguments: each command reads what its table declares.
use e3_ecmc_plugin_socketcan.Common.{
  ℕ, ◌≡◌, refl, true, false, Option, List, [], ◌∷◌, arith, length, drop,
}
use e3_ecmc_plugin_socketcan.Common.Int.{ℤ}
use e3_ecmc_plugin_socketcan.Config.{codes}
use e3_ecmc_plugin_socketcan.Wrap.{Can}
use e3_ecmc_plugin_socketcan.Wrap.Commands.{
  Command, master_command, device_command, sdo_command, pdo_command, run_command,
}
use e3_ecmc_plugin_socketcan.Wrap.Shell.{same_text}
use e3_ecmc_plugin_socketcan.Wrap.Register.{
  ArgType, arg_string, arg_int, Arg, FuncDef, ArgBuf, sval, ival, CallFunc, init_func_def_0,
  init_func_def_1, init_func_def_2, init_func_def_3, init_call_func_0, init_call_func_1,
  init_call_func_2, init_call_func_3, ecmc_can_plugin_driver_register,
}

abbrev pub HasArgType : ArgType → ArgBuf → Type 0
HasArgType arg_string (sval s) = Unit {0}
HasArgType arg_string (ival i) = true ≡ false
HasArgType arg_int (sval s) = true ≡ false
HasArgType arg_int (ival i) = Unit {0}

-- The shell has written one value for each argument, of its type.
abbrev pub Fills : List Arg → List ArgBuf → Type 0
Fills [] [] = Unit {0}
Fills [] (b ∷ bs) = true ≡ false
Fills (a ∷ rest) [] = true ≡ false
Fills (a ∷ rest) (b ∷ bs) = HasArgType a.arg_type b × Fills rest bs

take_string :
    (rest : List Arg) (bufs : List ArgBuf)
    → Fills (record { name = []; arg_type = arg_string } ∷ rest) bufs
    → (s : Option (List ℕ)) × (bs : List ArgBuf) × (bufs ≡ sval s ∷ bs) × Fills rest bs
take_string rest [] h = absurd (ground (arith, h))
take_string rest (sval s ∷ bs) (_, h) = (s, bs, refl, h)
take_string rest (ival i ∷ bs) (h, _) = absurd (ground (arith, h))

take_int :
    (rest : List Arg) (bufs : List ArgBuf)
    → Fills (record { name = []; arg_type = arg_int } ∷ rest) bufs
    → (i : ℤ) × (bs : List ArgBuf) × (bufs ≡ ival i ∷ bs) × Fills rest bs
take_int rest [] h = absurd (ground (arith, h))
take_int rest (sval s ∷ bs) (h, _) = absurd (ground (arith, h))
take_int rest (ival i ∷ bs) (_, h) = (i, bs, refl, h)

take_end : (bufs : List ArgBuf) → Fills [] bufs → bufs ≡ []
take_end [] h = refl
take_end (b ∷ bs) h = absurd (ground (arith, h))

-- The arguments of a command, in the order in which they are typed, and its name.
abbrev pub values : Command → List ArgBuf
values (master_command name node_id lss sync heart) =
    sval name ∷ ival node_id ∷ ival lss ∷ ival sync ∷ ival heart ∷ []
values (device_command name node_id timeout) = sval name ∷ ival node_id ∷ ival timeout ∷ []
values (sdo_command name node_id tx id_rx dir index sub size sample) =
    sval name
    ∷ ival node_id
    ∷ ival tx
    ∷ ival id_rx
    ∷ ival dir
    ∷ ival index
    ∷ ival sub
    ∷ ival size
    ∷ ival sample
    ∷ []
values (pdo_command name node_id cob_id dir size timeout period) =
    sval name ∷ ival node_id ∷ ival cob_id ∷ ival dir ∷ ival size ∷ ival timeout ∷ ival period ∷ []

abbrev pub command_name : Command → List ℕ
command_name (master_command name node_id lss sync heart) = codes "ecmcCANOpenAddMaster"
command_name (device_command name node_id timeout) = codes "ecmcCANOpenAddDevice"
command_name (sdo_command name node_id tx id_rx dir index sub size sample) =
    codes "ecmcCANOpenAddSDO"
command_name (pdo_command name node_id cob_id dir size timeout period) = codes "ecmcCANOpenAddPDO"

-- The function, with a value of the declared type for each declared argument, runs the command of the
-- declared name with those values, in their order.
abbrev pub RunsCommand : FuncDef → CallFunc → List ArgBuf → Type 0
RunsCommand d f bufs =
    (c : Command) × (values c ≡ bufs)
    × (command_name c ≡ d.name)
    × ((can : Can) → f bufs can ≡ run_command c can)

-- The shell runs the command under its name.
abbrev pub IsRun : {S : Type 0} → (List ℕ → CallFunc → S → Type 0) → Command → S → Type 0
IsRun Runs c s =
    (f : CallFunc) × Runs (command_name c) f s
    × ((can : Can) → f (values c) can ≡ run_command c can)

-- The table counts its arguments, and fits its function.
abbrev pub IsSound : FuncDef → CallFunc → Type 0
IsSound d f =
    (length d.args ≡ d.nargs) × ((bufs : List ArgBuf) → Fills d.args bufs → RunsCommand d f bufs)

master-RunsCommand :
    (bufs : List ArgBuf)
    → Fills init_func_def_0.args bufs
    → RunsCommand init_func_def_0 init_call_func_0 bufs
unfolding init_call_func_0
master-RunsCommand b0 h0 =
    let args = init_func_def_0.args in
    let (name, b1, e0, h1) = take_string (drop 1 args) b0 h0 in
    let (node_id, b2, e1, h2) = take_int (drop 2 args) b1 h1 in
    let (lss, b3, e2, h3) = take_int (drop 3 args) b2 h2 in
    let (sync, b4, e3, h4) = take_int (drop 4 args) b3 h3 in
    let (heart, b5, e4, h5) = take_int (drop 5 args) b4 h4 in
    let e5 = take_end b5 h5 in
    rw (e0, e1, e2, e3, e4, e5)
      (master_command name node_id lss sync heart, refl, refl, (λ can. refl))

device-RunsCommand :
    (bufs : List ArgBuf)
    → Fills init_func_def_1.args bufs
    → RunsCommand init_func_def_1 init_call_func_1 bufs
unfolding init_call_func_1
device-RunsCommand b0 h0 =
    let args = init_func_def_1.args in
    let (name, b1, e0, h1) = take_string (drop 1 args) b0 h0 in
    let (node_id, b2, e1, h2) = take_int (drop 2 args) b1 h1 in
    let (timeout, b3, e2, h3) = take_int (drop 3 args) b2 h2 in
    let e3 = take_end b3 h3 in
    rw (e0, e1, e2, e3) (device_command name node_id timeout, refl, refl, (λ can. refl))

sdo-RunsCommand :
    (bufs : List ArgBuf)
    → Fills init_func_def_2.args bufs
    → RunsCommand init_func_def_2 init_call_func_2 bufs
unfolding init_call_func_2
sdo-RunsCommand b0 h0 =
    let args = init_func_def_2.args in
    let (name, b1, e0, h1) = take_string (drop 1 args) b0 h0 in
    let (node_id, b2, e1, h2) = take_int (drop 2 args) b1 h1 in
    let (tx, b3, e2, h3) = take_int (drop 3 args) b2 h2 in
    let (id_rx, b4, e3, h4) = take_int (drop 4 args) b3 h3 in
    let (dir, b5, e4, h5) = take_int (drop 5 args) b4 h4 in
    let (index, b6, e5, h6) = take_int (drop 6 args) b5 h5 in
    let (sub, b7, e6, h7) = take_int (drop 7 args) b6 h6 in
    let (size, b8, e7, h8) = take_int (drop 8 args) b7 h7 in
    let (sample, b9, e8, h9) = take_int (drop 9 args) b8 h8 in
    let e9 = take_end b9 h9 in
    rw (e0, e1, e2, e3, e4, e5, e6, e7, e8, e9)
      (sdo_command name node_id tx id_rx dir index sub size sample, refl, refl, (λ can. refl))

pdo-RunsCommand :
    (bufs : List ArgBuf)
    → Fills init_func_def_3.args bufs
    → RunsCommand init_func_def_3 init_call_func_3 bufs
unfolding init_call_func_3
pdo-RunsCommand b0 h0 =
    let args = init_func_def_3.args in
    let (name, b1, e0, h1) = take_string (drop 1 args) b0 h0 in
    let (node_id, b2, e1, h2) = take_int (drop 2 args) b1 h1 in
    let (cob_id, b3, e2, h3) = take_int (drop 3 args) b2 h2 in
    let (dir, b4, e3, h4) = take_int (drop 4 args) b3 h3 in
    let (size, b5, e4, h5) = take_int (drop 5 args) b4 h4 in
    let (timeout, b6, e5, h6) = take_int (drop 6 args) b5 h5 in
    let (period, b7, e6, h7) = take_int (drop 7 args) b6 h6 in
    let e7 = take_end b7 h7 in
    rw (e0, e1, e2, e3, e4, e5, e6, e7)
      (pdo_command name node_id cob_id dir size timeout period, refl, refl, (λ can. refl))

commands-AreRun :
    {S : Type 0} (iocsh_register : FuncDef → CallFunc → S → S)
    (Runs : List ℕ → CallFunc → S → Type 0) (shell : S)
    → ((d : FuncDef) (f : CallFunc) (s : S) → Runs d.name f (iocsh_register d f s))
    → ((d : FuncDef) (f g : CallFunc) (n : List ℕ) (s : S)
        → same_text n d.name ≡ false
        → Runs n g s
        → Runs n g (iocsh_register d f s))
    → (c : Command) → IsRun Runs c (ecmc_can_plugin_driver_register iocsh_register shell)
unfolding ecmc_can_plugin_driver_register init_call_func_0 init_call_func_1 init_call_func_2
    init_call_func_3
commands-AreRun reg Runs shell new others (master_command name node_id lss sync heart) = (
  init_call_func_0,
  others init_func_def_3 _ _ _ _ refl (
      others init_func_def_2 _ _ _ _ refl
        (others init_func_def_1 _ _ _ _ refl (new init_func_def_0 init_call_func_0 shell))),
  (λ can. refl),
)
commands-AreRun reg Runs shell new others (device_command name node_id timeout) = (
  init_call_func_1,
  others init_func_def_3 _ _ _ _ refl
      (others init_func_def_2 _ _ _ _ refl (new init_func_def_1 init_call_func_1 _)),
  (λ can. refl),
)
commands-AreRun reg Runs shell new others
      (sdo_command name node_id tx id_rx dir index sub size sample) =
    (
      init_call_func_2,
      others init_func_def_3 _ _ _ _ refl (new init_func_def_2 init_call_func_2 _),
      (λ can. refl),
    )
commands-AreRun reg Runs shell new others
      (pdo_command name node_id cob_id dir size timeout period) =
    (init_call_func_3, new init_func_def_3 init_call_func_3 _, (λ can. refl))

-- Whatever the shell is, and whatever iocshRegister does to it, if after it the shell runs the
-- function under the name of the table, and runs what it ran under other names: each of the four
-- commands is run under its name, with its arguments in their order, once the plugin is registered.
-- And if registering a table that fits its function, in the sense that each value is read as the type
-- and at the place that the table declares and the command of the table's name is run with all of them
-- in order, keeps a property of the shell, then so does registering the plugin.
pub register-IsSound :
    {S : Type 0} (iocsh_register : FuncDef → CallFunc → S → S)
    (Runs : List ℕ → CallFunc → S → Type 0) (P : S → Type 0) (shell : S)
    → ((d : FuncDef) (f : CallFunc) (s : S) → Runs d.name f (iocsh_register d f s))
    → ((d : FuncDef) (f g : CallFunc) (n : List ℕ) (s : S)
        → same_text n d.name ≡ false
        → Runs n g s
        → Runs n g (iocsh_register d f s))
    → ((d : FuncDef) (f : CallFunc) (s : S) → IsSound d f → P s → P (iocsh_register d f s))
    → P shell
    → ((c : Command) → IsRun Runs c (ecmc_can_plugin_driver_register iocsh_register shell))
      × P (ecmc_can_plugin_driver_register iocsh_register shell)
unfolding ecmc_can_plugin_driver_register
register-IsSound iocsh_register Runs P shell new others keeps p = (
  (λ c. commands-AreRun iocsh_register Runs shell new others c),
  keeps _ _ _ (refl, pdo-RunsCommand)
      (keeps _ _ _ (refl, sdo-RunsCommand)
        (keeps _ _ _ (refl, device-RunsCommand) (keeps _ _ _ (refl, master-RunsCommand) p))),
)
