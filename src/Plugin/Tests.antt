-- ===== src/Plugin/Tests.antt =====
-- A plugin that is loaded with the interface can0, and one whose interface does not open.
use e3_ecmc_plugin_socketcan.Common.{ℕ, ◌≡◌, refl, inr, true, false, none, some, List, [], ◌∷◌}
use e3_ecmc_plugin_socketcan.Common.Int.{pos}
use e3_ecmc_plugin_socketcan.Common.Memory.{done, fault}
use e3_ecmc_plugin_socketcan.Common.Attempt.{thrown, runtime_error}
use e3_ecmc_plugin_socketcan.SocketCan.{new_socket_can, start_threads}
use e3_ecmc_plugin_socketcan.SocketCan.Tests.{
  can0_parsed, opens, connected_can, connected_can-IsValid,
}
use e3_ecmc_plugin_socketcan.Config.Tests.{can0}
use e3_ecmc_plugin_socketcan.Wrap.{live, create_socket_can, assign_created}
use e3_ecmc_plugin_socketcan.Plugin.{
  Plugin, copied, unloaded, can_construct, can_destruct, can_realtime, can_connect, can_connected,
  can_last_writes_error, can_add_write,
}
use e3_ecmc_plugin_socketcan.Plugin.Register.{call_plc}
use e3_ecmc_plugin_socketcan.Plugin.Run.{Event, realtime, plc, run, Ends, run-Ends}
use e3_ecmc_plugin_socketcan.Plugin.Life.{destruct_is_final}

-- The thread for reading cannot be made.
no_thread : new_socket_can (some can0) 10 false true true opens ≡ thrown runtime_error
unfolding new_socket_can start_threads
no_thread = rw can0_parsed refl

abbrev failed_plugin : Plugin
failed_plugin = record unloaded { already_loaded = true; last_conf_str = copied can0 }

constructed_failed :
    can_construct (some can0) 10 false true true opens unloaded ≡ done (1, failed_plugin)
unfolding can_construct create_socket_can assign_created
constructed_failed = rw no_thread refl

abbrev loaded_plugin : Plugin
loaded_plugin = record failed_plugin { can = live connected_can }

destruct_is_final_example :
    (p' : Plugin) × (can_destruct loaded_plugin ≡ done p')
    × (can_realtime (pos 0) p' ≡ fault)
    × (can_connect (λ (n : ℕ). n) p' ≡ fault)
    × (can_connected (λ (n : ℕ). n) p' ≡ fault)
    × (can_last_writes_error (λ (n : ℕ). n) p' ≡ fault)
    × (can_add_write (λ (n : ℕ). n) (λ (n : ℕ). n) (λ (n : ℕ). n) 5 2 1 2 0 0 0 0 0 0 p' ≡ fault)
    × (can_destruct p' ≡ fault)
    × (can_construct none 10 true true true opens p' ≡ done (1, p'))
destruct_is_final_example =
    destruct_is_final (λ (n : ℕ). n) (λ (n : ℕ). n) (λ (n : ℕ). n) 5 2 1 2 0 0 0 0 0 0 can0
      connected_can (pos 0) none 10 true true true opens loaded_plugin refl refl refl

-- The realtime function, and calls from PLC code: a frame, a request to connect, a place that the table
-- does not have, and a call with an argument too many.
abbrev calls : List (Event ℕ)
calls =
    realtime (pos 0)
    ∷ plc 2 (5 ∷ 2 ∷ 1 ∷ 2 ∷ 0 ∷ 0 ∷ 0 ∷ 0 ∷ 0 ∷ 0 ∷ [])
    ∷ plc 0 []
    ∷ plc 9 (1 ∷ [])
    ∷ plc 1 (1 ∷ [])
    ∷ realtime (pos 0)
    ∷ []

run-Ends_example :
    Ends
      (λ (n : ℕ). n)
      (λ (n : ℕ). n)
      (λ (n : ℕ). n)
      call_plc
      (run (λ (n : ℕ). n) (λ (n : ℕ). n) (λ (n : ℕ). n) call_plc calls loaded_plugin)
run-Ends_example =
    run-Ends (λ (n : ℕ). n) (λ (n : ℕ). n) (λ (n : ℕ). n) call_plc calls loaded_plugin
      (λ f args p. inr refl) connected_can-IsValid
