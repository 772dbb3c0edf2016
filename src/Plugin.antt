-- ===== src/Plugin.antt =====
-- ecmc_plugin_socketcanApp/src/ecmcPluginSocketCAN.c: the entry points of the plugin and its PLC
-- functions. The sample time that ecmc reports is given with the call that asks for it.
-- `last_conf_str` is what the pointer lastConfStr points to.
pub mod Life
pub mod Register
pub mod Calls
pub mod Run
pub mod Tests
use e3_ecmc_plugin_socketcan.Common.{ℕ, Bool, true, false, Option, none, some, List, if◌then◌else◌}
use e3_ecmc_plugin_socketcan.Common.Int.{ℤ, pos}
use e3_ecmc_plugin_socketcan.Common.Memory.{Outcome, done, fault, ◌>>=◌}
use e3_ecmc_plugin_socketcan.SocketCan.{Interface}
use e3_ecmc_plugin_socketcan.Wrap
use e3_ecmc_plugin_socketcan.Wrap.{
  Can, null, create_socket_can, connect_socket_can, get_socket_can_connectd, getlast_writes_error,
  add_write_socket_can, delete_socket_can,
}

-- A C string on the heap.
pub data Copy : Type 0 where
  unset freed : Copy
  copied : List ℕ → Copy

pub record Plugin : Type 0 where
  pub already_loaded : Bool
  pub last_conf_str : Copy
  pub last_ecmc_error : ℤ
  pub can : Can

abbrev pub unloaded : Plugin
unloaded = record {
  already_loaded = false;
  last_conf_str = unset;
  last_ecmc_error = pos 0;
  can = null;
}

-- strdup(NULL) is not defined.
unfoldable pub can_construct :
    Option (List ℕ) → ℕ → Bool → Bool → Bool → Interface → Plugin → Outcome (ℕ × Plugin)
can_construct config_str sample_time_ms read_thread connect_thread write_thread i p =
    let created : Outcome (ℕ × Plugin) = elim config_str [
      | none ↦ fault
      | some text ↦
          create_socket_can (some text) sample_time_ms read_thread connect_thread write_thread i
            p.can
          >>= λ r.
              done (r.0, record p { already_loaded = true; last_conf_str = copied text; can = r.1 })
    ] in
    if p.already_loaded then done (1, p) else created

-- free, which the pointer is not told of.
unfoldable pub free_copy : Copy → Outcome Copy
free_copy unset = done unset
free_copy freed = fault
free_copy (copied text) = done freed

unfoldable pub can_destruct : Plugin → Outcome Plugin
unfolding free_copy
can_destruct p = do
  conf ← free_copy p.last_conf_str
  c ← delete_socket_can p.can
  done (record p { last_conf_str = conf; can = c })

unfoldable pub can_realtime : ℤ → Plugin → Outcome (ℕ × Plugin)
can_realtime ecmc_error p = do
  (code, c) ← Wrap.execute p.can
  done (code, record p { last_ecmc_error = ecmc_error; can = c })

pub can_enter_rt : ℕ
can_enter_rt = 0

pub can_exit_rt : ℕ
can_exit_rt = 0

-- The code of a call, as a double.
module _ {D : Type 0} (to_double : ℕ → D) where
  unfoldable pub plc_result : Plugin → Outcome (ℕ × Can) → Outcome (D × Plugin)
  plc_result p m = m >>= λ r. done (to_double r.0, record p { can = r.1 })

  unfoldable pub can_connect : Plugin → Outcome (D × Plugin)
  unfolding plc_result
  can_connect p = plc_result p (connect_socket_can p.can)

  unfoldable pub can_connected : Plugin → Outcome (D × Plugin)
  can_connected p = get_socket_can_connectd p.can >>= λ b. done (to_double (if b then 1 else 0), p)

  unfoldable pub can_last_writes_error : Plugin → Outcome (D × Plugin)
  unfolding plc_result
  can_last_writes_error p = plc_result p (getlast_writes_error p.can)

  unfoldable pub can_add_write :
      (D → ℕ) → (D → ℕ) → D → D → D → D → D → D → D → D → D → D → Plugin → Outcome (D × Plugin)
  unfolding plc_result
  can_add_write to_uint32 to_uint8 can_id len d0 d1 d2 d3 d4 d5 d6 d7 p =
      plc_result p
        (add_write_socket_can to_uint32 to_uint8 can_id len d0 d1 d2 d3 d4 d5 d6 d7 p.can)
