-- ===== src/Wrap/Tests.antt =====
-- The commands on a plugin that is loaded, and on one that is not.
use e3_ecmc_plugin_socketcan.Wrap.Register.{FuncDef, CallFunc, ecmc_can_plugin_driver_register}
use e3_ecmc_plugin_socketcan.Wrap.Arguments.{IsSound, IsRun, register-IsSound}
use e3_ecmc_plugin_socketcan.Common.{
  ℕ, true, Option, none, List, [], ◌∷◌, ◌≡◌, ◌⊎◌, refl, some, arith, if◌then◌else◌,
}
use e3_ecmc_plugin_socketcan.Common.Int.{pos, negsuc}
use e3_ecmc_plugin_socketcan.Common.Memory.{done, fault}
use e3_ecmc_plugin_socketcan.Config.{codes}
use e3_ecmc_plugin_socketcan.SocketCan.{SocketCan}
use e3_ecmc_plugin_socketcan.SocketCan.Invariant.{IsValid}
use e3_ecmc_plugin_socketcan.SocketCan.Tests.{connected_can, connected_can-IsValid}
use e3_ecmc_plugin_socketcan.Wrap.{null, live}
use e3_ecmc_plugin_socketcan.Wrap.Shell.{
  same_text, asyn_success, asyn_error, ecmc_can_open_add_master, ecmc_can_open_add_device,
  ecmc_can_open_add_sdo, ecmc_can_open_add_pdo,
}
use e3_ecmc_plugin_socketcan.Wrap.Commands.{
  Command, sdo_command, run_command, command-Answers, unloaded_commands,
}

abbrev add_an_sdo : Command
add_an_sdo =
    sdo_command (some (codes "node")) (pos 3) (pos 0x583) (pos 0x603) (pos 2) (pos 0x2690) (pos 1)
      (pos 2) (pos 10)

command-Answers_example :
    (run_command add_an_sdo (live connected_can) ≡ done (asyn_error, live connected_can))
    ⊎ ((s' : SocketCan) × (run_command add_an_sdo (live connected_can)
          ≡ done (asyn_success, live s'))
        × IsValid s')
command-Answers_example =
    command-Answers add_an_sdo connected_can connected_can-IsValid (omega arith, tt)

unloaded_commands_example :
    (ecmc_can_open_add_master (some (codes "node")) (pos 3) (pos 1) (pos 1) (pos 1) null
      ≡ done (asyn_error, null))
    × (ecmc_can_open_add_device (some (codes "node")) (pos 3) (negsuc 0) null
        ≡ done (asyn_error, null))
    × (ecmc_can_open_add_sdo
          (some (codes "node"))
          (pos 3)
          (pos 1)
          (pos 2)
          (pos 1)
          (pos 3)
          (pos 4)
          (pos 5)
          (pos 6)
          null
        ≡ fault)
    × (ecmc_can_open_add_pdo
          (some (codes "node"))
          (pos 3)
          (pos 7)
          (pos 1)
          (pos 5)
          (pos 8)
          (pos 9)
          null
        ≡ fault)
unloaded_commands_example =
    unloaded_commands (codes "node") (pos 3) (pos 1) (pos 1) (pos 1) (negsuc 0) (pos 7) 1 2 1 3 4 5
      6 8 9 refl (omega arith) (omega arith)

-- A shell that keeps what is registered.
abbrev Shell : Type 0
Shell = List (FuncDef × CallFunc)

abbrev keep : FuncDef → CallFunc → Shell → Shell
keep d f shell = (d, f) ∷ shell

abbrev AreSound : Shell → Type 0
AreSound [] = Unit {0}
AreSound (r ∷ shell) = IsSound r.0 r.1 × AreSound shell

-- The function that the shell has last been told for a name.
abbrev look_up : List ℕ → Shell → Option CallFunc
look_up n [] = none
look_up n (r ∷ shell) =
    let earlier = look_up n shell in if same_text n r.0.name then some r.1 else earlier

abbrev LooksUp : List ℕ → CallFunc → Shell → Type 0
LooksUp n f shell = look_up n shell ≡ some f

same_text_refl : (xs : List ℕ) → same_text xs xs ≡ true
same_text_refl [] = refl
same_text_refl (x ∷ xs) = rw (same_text_refl xs) (ground arith)

register-IsSound_example :
    ((c : Command) → IsRun LooksUp c (ecmc_can_plugin_driver_register keep []))
    × AreSound (ecmc_can_plugin_driver_register keep [])
register-IsSound_example =
    register-IsSound keep LooksUp AreSound [] (λ d f shell. rw (same_text_refl d.name) refl)
      (λ d f g n shell other found. rw other found) (λ d f shell sound rest. (sound, rest)) tt
