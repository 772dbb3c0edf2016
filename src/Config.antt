-- ===== src/Config.antt =====
-- ecmcSocketCAN::parseConfigStr (ecmc_plugin_socketcanApp/src/ecmcSocketCAN.cpp): the options of the
-- plugin, as `<name>=<value>` with `;` between them.
-- A pointer into the copy of the string is the list of the bytes from it on, with the NUL that strdup
-- puts at the end. pThisOption and pNextOption are the same pointer wherever the loop tests.
pub mod Options
pub mod Ends
pub mod Connect
pub mod Tests
use Prim.Native.Char.{code}
use Prim.Native.String.{String}
use e3_ecmc_plugin_socketcan.Common.{
  ℕ, zero, suc, ◌+◌, Bool, true, false, Option, none, some, List, [], ◌∷◌, ◌++◌, ◌==◌,
  if◌then◌else◌, length, get_or,
}
use e3_ecmc_plugin_socketcan.Common.Int.{ℤ, pos}
use e3_ecmc_plugin_socketcan.Common.Memory.{Outcome, done, fault, ◌>>=◌}
use e3_ecmc_plugin_socketcan.Common.Attempt.{
  Attempt, ok, thrown, crashed, Exception, invalid_argument,
}
use e3_ecmc_plugin_socketcan.Common.CString.{starts_with, advance, c_string, atoi}

-- cfgDbgMode_, cfgAutoConnect_ and cfgCanIFStr_, which may be NULL.
pub record Config : Type 0 where
  pub dbg_mode : ℤ
  pub auto_connect : ℤ
  pub can_if_str : Option (List ℕ)

unfoldable pub new_config : Config
new_config = record { dbg_mode = pos 0; auto_connect = pos 1; can_if_str = none }

-- The bytes of an ASCII literal.
abbrev pub codes : String → List ℕ
codes String.[] = []
codes (String.◌∷◌ c s) = code c ∷ codes s

abbrev pub dbg_print_option_cmd : List ℕ
dbg_print_option_cmd = codes "DBG_PRINT="

abbrev pub if_option_cmd : List ℕ
if_option_cmd = codes "IF="

abbrev pub connect_option_cmd : List ℕ
connect_option_cmd = codes "CONNECT="

-- strchr(p, ';'): the bytes before the semicolon and those behind it; `none` is NULL.
unfoldable pub find_semicolon : List ℕ → Option (List ℕ × List ℕ)
find_semicolon [] = none
find_semicolon (c ∷ cs) =
    let rest : Option (List ℕ × List ℕ) = elim (find_semicolon cs) [
      | none ↦ none
      | some r ↦ some (c ∷ r.0, r.1)
    ] in
    if c == 0 then none else (if c == b';' then some ([], cs) else rest)

-- The tests of one round on pThisOption. Both numbers are read behind strlen("DBG_PRINT=") bytes.
unfoldable pub read_dbg_print : List ℕ → Config → Outcome (List ℕ × Config)
read_dbg_print p c =
    let read : Outcome (List ℕ × Config) = do
      q ← advance (length dbg_print_option_cmd) p
      n ← atoi q
      done (q, record c { dbg_mode = n })
    in if starts_with dbg_print_option_cmd p then read else done (p, c)

unfoldable pub read_connect_or_if : List ℕ → Config → Outcome Config
read_connect_or_if p c =
    let connect : Outcome Config = do
      q ← advance (length dbg_print_option_cmd) p
      n ← atoi q
      done (record c { auto_connect = n })
    in let interface : Outcome Config = do
      q ← advance (length if_option_cmd) p
      s ← c_string q
      done (record c { can_if_str = some s })
      in if starts_with connect_option_cmd p
        then connect
        else (if starts_with if_option_cmd p then interface else done c)

unfoldable pub read_option : List ℕ → Config → Outcome Config
read_option p c = do (q, c1) ← read_dbg_print p c; read_connect_or_if q c1

-- while (pNextOption && pNextOption[0]), on fuel; `none` means that the fuel ran out.
unfoldable pub parse_loop : ℕ → List ℕ → Config → Option (Outcome Config)
parse_loop zero p c = none
parse_loop (suc fuel) p c = if get_or p 0 0 == 0 then some (done c) else elim (find_semicolon p) [
  | none ↦ some (read_option p c)
  | some r ↦ elim (read_option (r.0 ++ (0 ∷ r.1)) c) [
    | fault ↦ some fault
    | done c1 ↦ parse_loop fuel r.1 c1
  ]
]

-- An exception unless the interface is given. `none` is a null pointer.
unfoldable pub check_interface : Config → Attempt Config
check_interface c = elim c.can_if_str [ none ↦ thrown invalid_argument | some s ↦ ok c ]

unfoldable pub parsed : Option (Outcome Config) → Attempt Config
unfolding check_interface
parsed none = crashed
parsed (some fault) = crashed
parsed (some (done c)) = check_interface c

unfoldable pub parse_config_str : Option (List ℕ) → Attempt Config
unfolding parsed check_interface
parse_config_str none = check_interface new_config
parse_config_str (some s) = parsed (parse_loop (length s + 1) (s ++ (0 ∷ [])) new_config)
