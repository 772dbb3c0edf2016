-- ===== src/Asyn/Names.antt =====
-- The names of the asyn parameters: to_string and the names that initAsyn of ecmcCANOpenSDO,
-- ecmcCANOpenPDO, ecmcCANOpenDevice and ecmcSocketCAN puts together.
use e3_ecmc_plugin_socketcan.Common.{
  ℕ, zero, suc, ◌+◌, ◌-◌, ◌/◌, ◌%◌, ◌^◌, List, [], ◌∷◌, ◌++◌, ltb, if◌then◌else◌,
}
use e3_ecmc_plugin_socketcan.Common.Int.{ℤ, pos, negsuc}
use e3_ecmc_plugin_socketcan.Config.{codes}

-- The last `fuel` digits of a number, without zeros in front.
unfoldable pub decimal : ℕ → ℕ → List ℕ
decimal zero n = []
decimal (suc fuel) n =
    let rest = decimal fuel (n / 10) in
    if ltb n 10 then ((b'0' + n) ∷ []) else rest ++ ((b'0' + n % 10) ∷ [])

-- `os << value`; an int has at most 10 digits.
unfoldable pub to_string : ℤ → List ℕ
unfolding decimal
to_string (pos n) = decimal 10 n
to_string (negsuc n) = b'-' ∷ decimal 10 (suc n)

-- The conversion of a uint32_t to the int that to_string takes.
abbrev pub to_int : ℕ → ℤ
to_int n = if ltb n (2 ^ 31) then pos n else negsuc (2 ^ 32 - 1 - n)

abbrev pub asyn_prefix : List ℕ
asyn_prefix = codes "plugin.can"

-- The two classes of objects, and their part of a name.
pub data Kind : Type 0 where
  sdo pdo : Kind

abbrev pub kind_text : Kind → List ℕ
kind_text sdo = codes ".sdo"
kind_text pdo = codes ".pdo"

unfoldable pub data_name : Kind → ℕ → List ℕ → List ℕ
unfolding to_string
data_name k node_id name =
    asyn_prefix
    ++ (codes ".dev" ++ (to_string (to_int node_id) ++ (kind_text k ++ (codes "." ++ name))))

unfoldable pub error_name : Kind → ℕ → List ℕ → List ℕ
unfolding to_string
error_name k node_id name =
    asyn_prefix
    ++ (codes ".dev"
        ++ (to_string (to_int node_id) ++ (kind_text k ++ (codes "." ++ (name ++ codes ".error")))))

unfoldable pub nmt_state_name : ℕ → List ℕ
unfolding to_string
nmt_state_name node_id =
    asyn_prefix ++ (codes ".dev" ++ (to_string (to_int node_id) ++ codes ".nmtstate"))

abbrev pub com_error_name : List ℕ
com_error_name = asyn_prefix ++ codes ".com.error"

abbrev pub com_connected_name : List ℕ
com_connected_name = asyn_prefix ++ codes ".com.connected"
