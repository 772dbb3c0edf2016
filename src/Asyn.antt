-- ===== src/Asyn.antt =====
-- What the plugin asks of the asyn port of ecmc, which is not code of this repository: getEcmcAsynPortDriver
-- returns it or NULL, and its addNewAvailParam returns a new item or NULL. What it answers is a
-- parameter, which may depend on every call before; the calls are kept, the newest first.
pub mod Names
pub mod Init
pub mod Decimal
pub mod Unique
pub mod Items
pub mod Outcomes
pub mod Writers
pub mod Commands
pub mod Safe
pub mod Run
pub mod Added
pub mod Status
pub mod Tests
use e3_ecmc_plugin_socketcan.Common.{
  ℕ, ◌≡◌, Bool, true, false, Option, none, some, List, [], ◌∷◌, ◌==◌, if◌then◌else◌,
}

pub data AsynType : Type 0 where
  int8_array int16_array int32_array float32_array float64_array : AsynType
  int32 float64 uint32_digital : AsynType

pub data EcDataType : Type 0 where
  ec_u8 ec_u32 ec_s32 : EcDataType

-- The member of the object that an item shows.
pub data Member : Type 0 where
  data_buffer error_code nmt_state connected : Member

-- The functions that are called with a value that is written, asynWriteSDOValue and
-- asynWritePDOValue.
pub data Handler : Type 0 where
  sdo_written pdo_written : Handler

-- The arguments of addNewAvailParam.
pub record Param : Type 0 where
  pub name : List ℕ
  pub asyn_type : AsynType
  pub source : Member
  pub size : ℕ
  pub data_type : EcDataType

-- An item, and an object `this`, is named by a number.
pub data Call : Type 0 where
  add_new_avail_param : Param → Option ℕ → Call
  add_supported_asyn_type : ℕ → AsynType → Call
  set_allow_write_to_ecmc : ℕ → Bool → Call
  set_exe_cmd_funct_ptr : ℕ → Handler → ℕ → Call
  refresh_param : ℕ → Call
  call_param_callbacks : Call

pub record Port : Type 0 where
  pub answer : List Call → Param → Option ℕ

-- addNewAvailParam returned the item in one of the calls.
abbrev pub Given : ℕ → List Call → Type 0
Given i [] = true ≡ false
Given i (c ∷ log) = elim c [
  | add_new_avail_param p (some j) ↦ if i == j then Unit {0} else Given i log
  | _ ↦ Given i log
]

-- The port makes a new item at every call that it does not refuse.
abbrev pub GivesNew : Port → Type 0
GivesNew port = (log : List Call) (p : Param) (i : ℕ) → port.answer log p ≡ some i → ¬ Given i log

-- What was said of an item since it was made: whether it may be written, which is the port's own
-- default as long as nothing was said,
abbrev pub allowed : ℕ → List Call → Option Bool
allowed i [] = none
allowed i (c ∷ log) = elim c [
  | add_new_avail_param p (some j) ↦ if i == j then none else allowed i log
  | set_allow_write_to_ecmc j b ↦ if i == j then some b else allowed i log
  | _ ↦ allowed i log
]

-- what is called with a value,
abbrev pub handler : ℕ → List Call → Option (Handler × ℕ)
handler i [] = none
handler i (c ∷ log) = elim c [
  | add_new_avail_param p (some j) ↦ if i == j then none else handler i log
  | set_exe_cmd_funct_ptr j h this ↦ if i == j then some (h, this) else handler i log
  | _ ↦ handler i log
]

abbrev pub same_type : AsynType → AsynType → Bool
same_type t u = elim t [
  | int8_array ↦ elim u [ int8_array ↦ true | _ ↦ false ]
  | int16_array ↦ elim u [ int16_array ↦ true | _ ↦ false ]
  | int32_array ↦ elim u [ int32_array ↦ true | _ ↦ false ]
  | float32_array ↦ elim u [ float32_array ↦ true | _ ↦ false ]
  | float64_array ↦ elim u [ float64_array ↦ true | _ ↦ false ]
  | int32 ↦ elim u [ int32 ↦ true | _ ↦ false ]
  | float64 ↦ elim u [ float64 ↦ true | _ ↦ false ]
  | uint32_digital ↦ elim u [ uint32_digital ↦ true | _ ↦ false ]
]

-- and which types it has: the one it was made with, and those added.
abbrev pub has_type : ℕ → AsynType → List Call → Bool
has_type i t [] = false
has_type i t (c ∷ log) = elim c [
  | add_new_avail_param p (some j) ↦ if i == j then same_type p.asyn_type t else has_type i t log
  | add_supported_asyn_type j u ↦
      if i == j then (if same_type u t then true else has_type i t log) else has_type i t log
  | _ ↦ has_type i t log
]
