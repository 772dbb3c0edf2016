-- ===== src/Asyn/Tests.antt =====
-- A port that gives every item a new number, and the objects of two nodes.
use e3_ecmc_plugin_socketcan.Common.Memory.{done, every-AfterDone}
use e3_ecmc_plugin_socketcan.Asyn.Commands.{Request, sdo_request, perform}
use e3_ecmc_plugin_socketcan.Asyn.Added.{HasItemsOf, perform-HasItemsOf}
use e3_ecmc_plugin_socketcan.Asyn.Run.{
  Move, request, turn, Registered, move, moves, AllFit, moves-IsValid,
}
use e3_ecmc_plugin_socketcan.Common.Attempt.{ok}
use e3_ecmc_plugin_socketcan.Frame.{Frame}
use e3_ecmc_plugin_socketcan.Device
use e3_ecmc_plugin_socketcan.SocketCan
use e3_ecmc_plugin_socketcan.SocketCan.{SocketCan}
use e3_ecmc_plugin_socketcan.SocketCan.Invariant.{IsValid}
use e3_ecmc_plugin_socketcan.SocketCan.Steps
use e3_ecmc_plugin_socketcan.SocketCan.Steps.{happens, cycle, write_work}
use e3_ecmc_plugin_socketcan.SocketCan.Table.{add_sdo, find_device_with_node_id, put_device}
use e3_ecmc_plugin_socketcan.SocketCan.Invariant.{even-ArePrintable}
use e3_ecmc_plugin_socketcan.SocketCan.Tests.{bus, started, with_writer, with_writer-IsValid}
use e3_ecmc_plugin_socketcan.Asyn.Init.{Logged}
use e3_ecmc_plugin_socketcan.Common.{
  ℕ, suc, ◌+◌, ◌<◌, ◌≡◌, ◌⊎◌, refl, ap, none, some, List, [], ◌∷◌, arith, length, length-append,
  ◌≢◌,
}
use e3_ecmc_plugin_socketcan.Config.{codes}
use e3_ecmc_plugin_socketcan.Defs.{dir_write, dir_read}
use e3_ecmc_plugin_socketcan.Asyn.{
  Call, add_new_avail_param, add_supported_asyn_type, set_allow_write_to_ecmc,
  set_exe_cmd_funct_ptr, refresh_param, call_param_callbacks, sdo_written, Port, Given, GivesNew,
}
use e3_ecmc_plugin_socketcan.Asyn.Names.{sdo, pdo}
use e3_ecmc_plugin_socketcan.Asyn.Unique.{
  Parameter, of_device, data_of, error_of, name_of, IsPlain, names_distinct,
}
use e3_ecmc_plugin_socketcan.Asyn.Init.{init_asyn_object, init_asyn_device}
use e3_ecmc_plugin_socketcan.Asyn.Outcomes.{
  DataRefused, ErrorRefused, HasItems, init_asyn_object_lem,
}
use e3_ecmc_plugin_socketcan.Asyn.Writers.{Made, object, device, IsWriter, only_writers_are_called}

-- More than every item that was given.
abbrev next : List Call → ℕ
next [] = 0
next (c ∷ log) = elim c [ add_new_avail_param p (some j) ↦ suc (j + next log) | _ ↦ next log ]

below_next : (i : ℕ) (log : List Call) → Given i log → i < next log
below_next i [] g = absurd (ground (arith, g))
below_next i (add_new_avail_param p none ∷ log) g = below_next i log g
below_next i (add_new_avail_param p (some j) ∷ log) g = ground (arith, g, below_next i log)
below_next i (add_supported_asyn_type j t ∷ log) g = below_next i log g
below_next i (set_allow_write_to_ecmc j b ∷ log) g = below_next i log g
below_next i (set_exe_cmd_funct_ptr j h this ∷ log) g = below_next i log g
below_next i (refresh_param j ∷ log) g = below_next i log g
below_next i (call_param_callbacks ∷ log) g = below_next i log g

abbrev counting : Port
counting = record { answer = λ log p. some (next log) }

some-injective : {i j : ℕ} → some i ≡ some j → i ≡ j
some-injective e = ground (arith, e)

counting-GivesNew : GivesNew counting
counting-GivesNew log p i e g =
    absurd (let l = below_next i log g in let s = some-injective e in omega (arith, l, s))

init_asyn_object_lem_example :
    DataRefused sdo 1 3
      (codes "position")
      4
      dir_write
      counting
      []
      (init_asyn_object sdo 1 3 (codes "position") 4 dir_write (some counting) [])
    ⊎ (ErrorRefused sdo 1 3
          (codes "position")
          4
          dir_write
          counting
          []
          (init_asyn_object sdo 1 3 (codes "position") 4 dir_write (some counting) [])
        ⊎ HasItems sdo 1 3
            (codes "position")
            4
            dir_write
            counting
            []
            (init_asyn_object sdo 1 3 (codes "position") 4 dir_write (some counting) []))
init_asyn_object_lem_example =
    init_asyn_object_lem sdo 1 3 (codes "position") 4 dir_write counting counting-GivesNew []

-- A text of less than 6 characters does not end with ".error".
short-IsPlain : (name : List ℕ) → length name < 6 → IsPlain (data_of sdo name)
short-IsPlain name h x e =
    absurd
      (let l = ap length e in let n = length-append x (codes ".error") in omega (arith, h, l, n))

abbrev position : Parameter
position = of_device 3 (data_of sdo (codes "pos"))

abbrev speed_error : Parameter
speed_error = of_device 3 (error_of sdo (codes "speed"))

position_is_no_error : position ≢ speed_error
position_is_no_error e = absurd (ground (arith, e))

names_distinct_example : name_of position ≢ name_of speed_error
names_distinct_example =
    names_distinct position speed_error (omega arith, short-IsPlain (codes "pos") (omega arith))
      (omega arith) position_is_no_error

abbrev constructors : List Made
constructors =
    device 3
    ∷ object sdo 1 3 (codes "position") 4 dir_write
    ∷ object pdo 2 3 (codes "status") 2 dir_read
    ∷ []

only_writers_are_called_example : IsWriter constructors sdo_written 1
unfolding init_asyn_object init_asyn_device
only_writers_are_called_example =
    only_writers_are_called constructors (some counting) 1 sdo_written 1 refl

-- A command for an SDO that is written, on the node 3 of the plugin.
abbrev add_position : Request
add_position = sdo_request 1 (codes "position") 3 0x583 0x603 dir_write 0x2690 1 4 10

abbrev after_position : Logged SocketCan
after_position = perform add_position (some counting) with_writer []

position_added : (s' : SocketCan) × (after_position ≡ (ok s', after_position.1))
unfolding perform add_sdo find_device_with_node_id put_device Device.add_sdo Device.new_device
    init_asyn_object
position_added = (_, refl)

perform-HasItemsOf_example : HasItemsOf add_position after_position.1
perform-HasItemsOf_example =
    perform-HasItemsOf add_position counting with_writer position_added.0 [] after_position.1
      counting-GivesNew position_added.1

-- A port that refuses everything.
abbrev refusing : Port
refusing = record { answer = λ log p. none }

abbrev registered : Registered (List Frame)
registered = record { system = started; calls = [] }

abbrev some_moves : List Move
some_moves = request add_position ∷ turn (happens cycle) ∷ turn write_work ∷ []

some_moves-AllFit : AllFit bus (some refusing) some_moves registered
some_moves-AllFit = (
  (omega arith, even-ArePrintable 4 with_writer.devices refl),
  every-AfterDone _ (move bus (some refusing) (request add_position) registered) (λ t. (
    (tt, (tt, every-AfterDone _ (SocketCan.Steps.step bus (happens cycle) t.system) (λ x. tt))),
    every-AfterDone _ (move bus (some refusing) (turn (happens cycle)) t) (λ t1. (
      (tt, every-AfterDone _ (SocketCan.Steps.step bus write_work t1.system) (λ x. tt)),
      every-AfterDone _ (move bus (some refusing) (turn write_work) t1) (λ t2. tt),
    )),
  )),
)

moves-IsValid_example :
    (t' : Registered (List Frame)) × (moves bus (some refusing) some_moves registered ≡ done t')
    × IsValid t'.system.can
moves-IsValid_example =
    moves-IsValid bus (some refusing) some_moves registered with_writer-IsValid some_moves-AllFit
