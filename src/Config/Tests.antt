-- ===== src/Config/Tests.antt =====
-- Configuration strings of the plugin.
use e3_ecmc_plugin_socketcan.Common.{ℕ, ◌≡◌, refl, some, List, [], ◌∷◌, ◌++◌, arith}
use e3_ecmc_plugin_socketcan.Common.Int.{pos}
use e3_ecmc_plugin_socketcan.Common.Memory.{Outcome}
use e3_ecmc_plugin_socketcan.Common.Attempt.{ok}
use e3_ecmc_plugin_socketcan.Common.CString.{starts_with}
use e3_ecmc_plugin_socketcan.Common.CString.Terminated.{NoNul}
use e3_ecmc_plugin_socketcan.Config.{
  Config, new_config, codes, connect_option_cmd, parse_loop, parse_config_str,
}
use e3_ecmc_plugin_socketcan.Config.Options.{ArePlain, split, parse_config_str-options}
use e3_ecmc_plugin_socketcan.Config.Ends.{parse_loop-ends}
use e3_ecmc_plugin_socketcan.Config.Connect.{connect_value_ignored}

abbrev pub can0 : List ℕ
can0 = codes "IF=can0"

pub can0-NoNul : NoNul can0
can0-NoNul = ground arith

pub can0-ArePlain : ArePlain (split can0)
unfolding starts_with
can0-ArePlain = (record { no_connect = refl; no_nested_connect = refl; no_nested_if = refl }, tt)

abbrev debug_can0 : List ℕ
debug_can0 = codes "DBG_PRINT=1;IF=can0"

debug_can0-NoNul : NoNul debug_can0
debug_can0-NoNul = ground arith

debug_can0-ArePlain : ArePlain (split debug_can0)
unfolding starts_with
debug_can0-ArePlain =
    (record { no_connect = refl; no_nested_connect = refl; no_nested_if = refl }, can0-ArePlain)

parse_config_str-options_example :
    parse_config_str (some debug_can0)
    ≡ ok (record { dbg_mode = pos 1; auto_connect = pos 1; can_if_str = some (codes "can0") })
unfolding starts_with new_config
parse_config_str-options_example =
    parse_config_str-options debug_can0 debug_can0-NoNul debug_can0-ArePlain

parse_loop-ends_example :
    (r : Outcome Config) × (parse_loop 20 (debug_can0 ++ (0 ∷ [])) new_config ≡ some r)
parse_loop-ends_example = parse_loop-ends 20 debug_can0 new_config (omega arith)

-- `CONNECT=1` does not connect.
connect_value_ignored_example :
    parse_config_str (some (connect_option_cmd ++ (b'1' ∷ b';' ∷ can0)))
    ≡ ok (record { dbg_mode = pos 0; auto_connect = pos 0; can_if_str = some (codes "can0") })
unfolding starts_with new_config
connect_value_ignored_example =
    connect_value_ignored b'1' can0 (omega arith) (ground arith) can0-NoNul can0-ArePlain
