-- ===== src/Plugin/Register.antt =====
-- pluginDataDef of ecmcPluginSocketCAN.c: what ecmc is told of the plugin. A PLC function is called
-- through the pointer funcArg<n> for its number of arguments n, and NULL is `none`. The array ends
-- with an element that is all zero. Descriptions and versions are left out.
use mathlib.Core.Option as Option
use e3_ecmc_plugin_socketcan.Common.{ℕ, zero, suc, Bool, Option, none, some, List, [], ◌∷◌}
use e3_ecmc_plugin_socketcan.Common.Int.{ℤ}
use e3_ecmc_plugin_socketcan.Common.Memory.{Outcome}
use e3_ecmc_plugin_socketcan.Config.{codes}
use e3_ecmc_plugin_socketcan.SocketCan.{Interface}
use e3_ecmc_plugin_socketcan.Plugin.{
  Plugin, can_construct, can_destruct, can_realtime, can_enter_rt, can_exit_rt, can_connect,
  can_connected, can_last_writes_error, can_add_write,
}

-- A C function of n doubles.
abbrev pub Prototype : Type 0 → ℕ → Type 0
Prototype D zero = Plugin → Outcome (D × Plugin)
Prototype D (suc n) = D → Prototype D n

-- funcGenericObj is NULL everywhere.
pub record PlcFunc (D : Type 0) : Type 0 where
  pub func_name : List ℕ
  pub func_arg0 : Option (Prototype D 0)
  pub func_arg1 : Option (Prototype D 1)
  pub func_arg2 : Option (Prototype D 2)
  pub func_arg3 : Option (Prototype D 3)
  pub func_arg4 : Option (Prototype D 4)
  pub func_arg5 : Option (Prototype D 5)
  pub func_arg6 : Option (Prototype D 6)
  pub func_arg7 : Option (Prototype D 7)
  pub func_arg8 : Option (Prototype D 8)
  pub func_arg9 : Option (Prototype D 9)
  pub func_arg10 : Option (Prototype D 10)

pub record PluginData (D : Type 0) : Type 0 where
  pub name : List ℕ
  pub construct_fnc :
      Option (List ℕ) → ℕ → Bool → Bool → Bool → Interface → Plugin → Outcome (ℕ × Plugin)
  pub destruct_fnc : Plugin → Outcome Plugin
  pub realtime_fnc : ℤ → Plugin → Outcome (ℕ × Plugin)
  pub realtime_enter_fnc : ℕ
  pub realtime_exit_fnc : ℕ
  pub funcs : List (PlcFunc D)

-- All pointers NULL.
abbrev pub no_funcs : (D : Type 0) → List ℕ → PlcFunc D
no_funcs D name = record {
  func_name = name;
  func_arg0 = none;
  func_arg1 = none;
  func_arg2 = none;
  func_arg3 = none;
  func_arg4 = none;
  func_arg5 = none;
  func_arg6 = none;
  func_arg7 = none;
  func_arg8 = none;
  func_arg9 = none;
  func_arg10 = none;
}

-- The conversions between double and the other types.
module _ {D : Type 0} (to_double : ℕ → D) (to_uint32 to_uint8 : D → ℕ) where
  unfoldable pub plugin_data_def : PluginData D
  plugin_data_def = record {
    name = codes "ecmcPlugin_socketcan";
    construct_fnc = can_construct;
    destruct_fnc = can_destruct;
    realtime_fnc = can_realtime;
    realtime_enter_fnc = can_enter_rt;
    realtime_exit_fnc = can_exit_rt;
    funcs =
        record (no_funcs D (codes "can_connect")) { func_arg0 = some (can_connect to_double) }
        ∷ record (no_funcs D (codes "can_connected")) { func_arg0 = some (can_connected to_double) }
        ∷ record (no_funcs D (codes "can_add_write")) {
          func_arg10 = some (can_add_write to_double to_uint32 to_uint8);
        }
        ∷ record (no_funcs D (codes "can_last_writes_error")) {
          func_arg0 = some (can_last_writes_error to_double);
        }
        ∷ [];
  }

-- ecmc calls the pointer for the number of arguments; there is no call if that is NULL.
abbrev pub call_plc : {D : Type 0} → PlcFunc D → List D → Plugin → Option (Outcome (D × Plugin))
call_plc f [] p = Option.map (λ g. g p) f.func_arg0
call_plc f (a ∷ []) p = Option.map (λ g. g a p) f.func_arg1
call_plc f (a ∷ b ∷ []) p = Option.map (λ g. g a b p) f.func_arg2
call_plc f (a ∷ b ∷ c ∷ []) p = Option.map (λ g. g a b c p) f.func_arg3
call_plc f (a ∷ b ∷ c ∷ d ∷ []) p = Option.map (λ g. g a b c d p) f.func_arg4
call_plc f (a ∷ b ∷ c ∷ d ∷ e ∷ []) p = Option.map (λ g. g a b c d e p) f.func_arg5
call_plc f (a ∷ b ∷ c ∷ d ∷ e ∷ h ∷ []) p = Option.map (λ g. g a b c d e h p) f.func_arg6
call_plc f (a ∷ b ∷ c ∷ d ∷ e ∷ h ∷ i ∷ []) p = Option.map (λ g. g a b c d e h i p) f.func_arg7
call_plc f (a ∷ b ∷ c ∷ d ∷ e ∷ h ∷ i ∷ j ∷ []) p =
    Option.map (λ g. g a b c d e h i j p) f.func_arg8
call_plc f (a ∷ b ∷ c ∷ d ∷ e ∷ h ∷ i ∷ j ∷ k ∷ []) p =
    Option.map (λ g. g a b c d e h i j k p) f.func_arg9
call_plc f (a ∷ b ∷ c ∷ d ∷ e ∷ h ∷ i ∷ j ∷ k ∷ l ∷ []) p =
    Option.map (λ g. g a b c d e h i j k l p) f.func_arg10
call_plc f (a ∷ b ∷ c ∷ d ∷ e ∷ h ∷ i ∷ j ∷ k ∷ l ∷ m ∷ rest) p = none
