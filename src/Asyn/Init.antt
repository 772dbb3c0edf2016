-- ===== src/Asyn/Init.antt =====
-- initAsyn of ecmcCANOpenSDO, ecmcCANOpenPDO, ecmcCANOpenDevice and ecmcSocketCAN, the last thing that
-- their constructors do. Printouts are left out.
use e3_ecmc_plugin_socketcan.Common.{
  ℕ, Bool, true, false, Option, none, some, List, ◌∷◌, ltb, if◌then◌else◌,
}
use e3_ecmc_plugin_socketcan.Common.Attempt.{Attempt, ok, thrown, runtime_error}
use e3_ecmc_plugin_socketcan.Defs.{Direction, dir_write, dir_read}
use e3_ecmc_plugin_socketcan.Asyn.{
  int8_array, int16_array, int32_array, float32_array, float64_array, int32, float64,
  uint32_digital, ec_u8, ec_u32, ec_s32, data_buffer, error_code, nmt_state, connected, Handler,
  sdo_written, pdo_written, Param, Call, add_new_avail_param, add_supported_asyn_type,
  set_allow_write_to_ecmc, set_exe_cmd_funct_ptr, refresh_param, call_param_callbacks, Port,
}
use e3_ecmc_plugin_socketcan.Asyn.Names.{
  Kind, sdo, pdo, data_name, error_name, nmt_state_name, com_error_name, com_connected_name,
}

-- What a call returns or throws, and all calls of the port.
abbrev pub Logged : Type 0 → Type 0
Logged A = Attempt A × List Call

-- Behind addNewAvailParam, which returned NULL or an item.
unfoldable pub with_answer :
    {A : Type 0} → Param → List Call → (ℕ → List Call → Logged A) → Option ℕ → Logged A
with_answer p log rest none = (thrown runtime_error, add_new_avail_param p none ∷ log)
with_answer p log rest (some item) = rest item (add_new_avail_param p (some item) ∷ log)

abbrev pub with_new_param :
    {A : Type 0} → Port → Param → List Call → (ℕ → List Call → Logged A) → Logged A
with_new_param port p log rest = with_answer p log rest (port.answer log p)

-- refreshParam and callParamCallbacks end the work on every item.
abbrev pub publish : ℕ → List Call → List Call
publish item log = call_param_callbacks ∷ refresh_param item ∷ log

unfoldable pub int16_if : ℕ → ℕ → List Call → List Call
int16_if od_size item log =
    if ltb 1 od_size then add_supported_asyn_type item int16_array ∷ log else log

unfoldable pub int32_if : ℕ → ℕ → List Call → List Call
int32_if od_size item log =
    if ltb 3 od_size
    then add_supported_asyn_type item int32
      ∷ add_supported_asyn_type item float32_array
      ∷ add_supported_asyn_type item int32_array
      ∷ log
    else log

unfoldable pub float64_if : ℕ → ℕ → List Call → List Call
float64_if od_size item log =
    if ltb 7 od_size
    then add_supported_asyn_type item float64 ∷ add_supported_asyn_type item float64_array ∷ log
    else log

abbrev pub is_write : Direction → Bool
is_write dir_write = true
is_write dir_read = false

abbrev pub handler_of : Kind → Handler
handler_of sdo = sdo_written
handler_of pdo = pdo_written

-- Values written over asyn call the object only if its direction is DIR_WRITE.
unfoldable pub allow_write : Kind → ℕ → Direction → ℕ → List Call → List Call
allow_write k this dir_write item log =
    set_exe_cmd_funct_ptr item (handler_of k) this ∷ set_allow_write_to_ecmc item true ∷ log
allow_write k this dir_read item log = set_allow_write_to_ecmc item false ∷ log

abbrev pub data_param : Kind → ℕ → List ℕ → ℕ → Param
data_param k node_id name od_size = record {
  name = data_name k node_id name;
  asyn_type = int8_array;
  source = data_buffer;
  size = od_size;
  data_type = ec_u8;
}

abbrev pub error_param : List ℕ → Param
error_param name = record {
  name = name;
  asyn_type = int32;
  source = error_code;
  size = 4;
  data_type = ec_u32;
}

-- Behind the item for the error: the object has both.
abbrev pub error_added : ℕ → ℕ → List Call → Logged (ℕ × ℕ)
error_added item err log = (ok (item, err), publish err (set_allow_write_to_ecmc err false ∷ log))

-- Behind the item for the data.
unfoldable pub data_added :
    Kind → ℕ → ℕ → List ℕ → ℕ → Direction → Port → ℕ → List Call → Logged (ℕ × ℕ)
unfolding with_answer int16_if int32_if float64_if allow_write
data_added k this node_id name od_size rw port item log =
    let typed = float64_if od_size item (int32_if od_size item (int16_if od_size item log)) in
    with_new_param port (error_param (error_name k node_id name))
      (publish item (allow_write k this rw item typed)) (error_added item)

-- initAsyn of an SDO or a PDO: the items for its data and for its error.
unfoldable pub init_asyn_object :
    Kind → ℕ → ℕ → List ℕ → ℕ → Direction → Option Port → List Call → Logged (ℕ × ℕ)
unfolding with_answer data_added
init_asyn_object k this node_id name od_size rw none log = (thrown runtime_error, log)
init_asyn_object k this node_id name od_size rw (some port) log =
    with_new_param port (data_param k node_id name od_size) log
      (data_added k this node_id name od_size rw port)

abbrev pub init_asyn_sdo : ℕ → ℕ → List ℕ → ℕ → Direction → Option Port → List Call → Logged (ℕ × ℕ)
init_asyn_sdo = init_asyn_object sdo

abbrev pub init_asyn_pdo : ℕ → ℕ → List ℕ → ℕ → Direction → Option Port → List Call → Logged (ℕ × ℕ)
init_asyn_pdo = init_asyn_object pdo

-- initAsyn of a device: the item for its NMT state.
unfoldable pub init_asyn_device : ℕ → Option Port → List Call → Logged ℕ
unfolding with_answer
init_asyn_device node_id none log = (thrown runtime_error, log)
init_asyn_device node_id (some port) log =
    let p : Param = record {
      name = nmt_state_name node_id;
      asyn_type = int32;
      source = nmt_state;
      size = 4;
      data_type = ec_s32;
    } in
    with_new_param port p log
      (λ item log1. (ok item, publish item (add_supported_asyn_type item uint32_digital ∷ log1)))

abbrev pub connected_param : Param
connected_param = record {
  name = com_connected_name;
  asyn_type = int32;
  source = connected;
  size = 4;
  data_type = ec_u32;
}

-- Behind the item for `connected_`: the object for the interface has both.
abbrev pub connected_added : ℕ → ℕ → List Call → Logged (ℕ × ℕ)
connected_added err item log =
    (ok (err, item), publish item (set_allow_write_to_ecmc item false ∷ log))

-- Behind the item for the error of the object for the interface.
unfoldable pub com_error_added : Port → ℕ → List Call → Logged (ℕ × ℕ)
unfolding with_answer
com_error_added port err log =
    with_new_param port connected_param (publish err (set_allow_write_to_ecmc err false ∷ log))
      (connected_added err)

-- initAsyn of ecmcSocketCAN: the items for its error and for `connected_`.
unfoldable pub init_asyn_can : Option Port → List Call → Logged (ℕ × ℕ)
unfolding with_answer com_error_added
init_asyn_can none log = (thrown runtime_error, log)
init_asyn_can (some port) log =
    with_new_param port (error_param com_error_name) log (com_error_added port)
