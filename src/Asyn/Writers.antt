-- ===== src/Asyn/Writers.antt =====
-- What the constructors of a plugin ask of the asyn port, one after another, and the objects that the
-- port calls with values.
use mathlib.Core.List.{Memᴰ}
use e3_ecmc_plugin_socketcan.Common.{
  ℕ, ◌≡◌, refl, sym, ap, Option, none, some, List, [], ◌∷◌, arith,
}
use e3_ecmc_plugin_socketcan.Defs.{Direction, dir_write, dir_read}
use e3_ecmc_plugin_socketcan.Asyn.{
  Handler, Call, add_new_avail_param, add_supported_asyn_type, set_allow_write_to_ecmc,
  set_exe_cmd_funct_ptr, refresh_param, call_param_callbacks, Port, handler,
}
use e3_ecmc_plugin_socketcan.Asyn.Names.{Kind, sdo, pdo}
use e3_ecmc_plugin_socketcan.Asyn.Init.{
  with_answer, int16_if, int32_if, float64_if, allow_write, handler_of, data_added, com_error_added,
  init_asyn_object, init_asyn_sdo, init_asyn_pdo, init_asyn_device, init_asyn_can,
}

-- A constructor: of an SDO or a PDO `this` with its node id, name, size and direction, of a device
-- with its node id, or of the object for the interface.
pub data Made : Type 0 where
  object : Kind → ℕ → ℕ → List ℕ → ℕ → Direction → Made
  device : ℕ → Made
  interface : Made

-- The calls after one constructor, which returned or threw,
abbrev pub init_asyn : Made → Option Port → List Call → List Call
init_asyn (object sdo this node_id name size rw) port log =
    (init_asyn_sdo this node_id name size rw port log).1
init_asyn (object pdo this node_id name size rw) port log =
    (init_asyn_pdo this node_id name size rw port log).1
init_asyn (device node_id) port log = (init_asyn_device node_id port log).1
init_asyn interface port log = (init_asyn_can port log).1

-- and after several.
abbrev pub init_asyns : List Made → Option Port → List Call → List Call
init_asyns [] port log = log
init_asyns (m ∷ ms) port log = init_asyns ms port (init_asyn m port log)

-- The functions and objects that were handed to the port all have a property.
module _ (W : Handler → ℕ → Type 0) where
  abbrev Registers : List Call → Type 0
  Registers [] = Unit {0}
  Registers (c ∷ log) = elim c [
    | set_exe_cmd_funct_ptr i h this ↦ W h this × Registers log
    | _ ↦ Registers log
  ]

  handler-Registers :
      (i : ℕ) (log : List Call) (h : Handler) (this : ℕ)
      → Registers log
      → handler i log ≡ some (h, this)
      → W h this
  handler-Registers i [] h this r e = absurd (ground (arith, e))
  handler-Registers i (add_new_avail_param p none ∷ log) h this r e =
      handler-Registers i log h this r e
  handler-Registers i (add_new_avail_param p (some j) ∷ log) h this r e =
      ground (arith, e, handler-Registers i log h this r)
  handler-Registers i (add_supported_asyn_type j t ∷ log) h this r e =
      handler-Registers i log h this r e
  handler-Registers i (set_allow_write_to_ecmc j b ∷ log) h this r e =
      handler-Registers i log h this r e
  handler-Registers i (set_exe_cmd_funct_ptr j g that ∷ log) h this (w, r) e =
      ground (arith, w, e, handler-Registers i log h this r)
  handler-Registers i (refresh_param j ∷ log) h this r e = handler-Registers i log h this r e
  handler-Registers i (call_param_callbacks ∷ log) h this r e = handler-Registers i log h this r e

  -- An object of the property may be handed over, if it is written.
  abbrev MayCall : Made → Type 0
  MayCall (object k this node_id name size rw) = rw ≡ dir_write → W (handler_of k) this
  MayCall (device node_id) = Unit {0}
  MayCall interface = Unit {0}

  init-Registers :
      (m : Made) (port : Option Port) (log : List Call)
      → MayCall m
      → Registers log
      → Registers (init_asyn m port log)
  unfolding init_asyn_object init_asyn_device init_asyn_can com_error_added data_added with_answer
      float64_if int32_if int16_if allow_write
  init-Registers (object sdo this node_id name size dir) none log w r = r
  init-Registers (object sdo this node_id name size dir_write) (some port) log w r =
      ground (arith, w refl, r)
  init-Registers (object sdo this node_id name size dir_read) (some port) log w r =
      ground (arith, r)
  init-Registers (object pdo this node_id name size dir) none log w r = r
  init-Registers (object pdo this node_id name size dir_write) (some port) log w r =
      ground (arith, w refl, r)
  init-Registers (object pdo this node_id name size dir_read) (some port) log w r =
      ground (arith, r)
  init-Registers (device node_id) none log w r = r
  init-Registers (device node_id) (some port) log w r = ground (arith, r)
  init-Registers interface none log w r = r
  init-Registers interface (some port) log w r = ground (arith, r)

  abbrev AllMayCall : List Made → Type 0
  AllMayCall [] = Unit {0}
  AllMayCall (m ∷ ms) = MayCall m × AllMayCall ms

  inits-Registers :
      (ms : List Made) (port : Option Port) (log : List Call)
      → AllMayCall ms
      → Registers log
      → Registers (init_asyns ms port log)
  inits-Registers [] port log w r = r
  inits-Registers (m ∷ ms) port log (w, ws) r =
      inits-Registers ms port (init_asyn m port log) ws (init-Registers m port log w r)

-- One of the constructors is that of an object which is written, `this`, whose class has the function.
abbrev pub IsWriter : List Made → Handler → ℕ → Type 0
IsWriter ms h this =
    (k : Kind) × (node_id : ℕ) × (name : List ℕ) × (size : ℕ) × Memᴰ
      (object k this node_id name size dir_write) ms
    × (handler_of k ≡ h)

IsWriter-tail :
    (m : Made) (ms : List Made) (h : Handler) (this : ℕ)
    → IsWriter ms h this
    → IsWriter (m ∷ ms) h this
IsWriter-tail m ms h this (k, node_id, name, size, mem, e) =
    (k, node_id, name, size, Memᴰ.tail mem, e)

weaken-AllMayCall :
    (V W : Handler → ℕ → Type 0) (ms : List Made)
    → ((h : Handler) (this : ℕ) → V h this → W h this)
    → AllMayCall V ms
    → AllMayCall W ms
weaken-AllMayCall V W [] f a = tt
weaken-AllMayCall V W (object k this node_id name size dir ∷ ms) f (w, a) =
    ((λ e. f (handler_of k) this (w e)), weaken-AllMayCall V W ms f a)
weaken-AllMayCall V W (device node_id ∷ ms) f (w, a) = (tt, weaken-AllMayCall V W ms f a)
weaken-AllMayCall V W (interface ∷ ms) f (w, a) = (tt, weaken-AllMayCall V W ms f a)

head-MayCall : (m : Made) (ms : List Made) → MayCall (IsWriter (m ∷ ms)) m
head-MayCall (object k this node_id name size dir) ms =
    λ e. (k, node_id, name, size, Memᴰ.head (ap (object k this node_id name size) (sym e)), refl)
head-MayCall (device node_id) ms = tt
head-MayCall interface ms = tt

all-IsWriter : (ms : List Made) → AllMayCall (IsWriter ms) ms
all-IsWriter [] = tt
all-IsWriter (m ∷ ms) =
    let rest =
      weaken-AllMayCall (IsWriter ms) (IsWriter (m ∷ ms)) ms (IsWriter-tail m ms)
        (all-IsWriter ms) in
    (head-MayCall m ms, rest)

-- Whatever the port answers, and whichever constructors run, in any order, a value that is written to
-- an item of the port is handed to an object only if that is an SDO or a PDO that was made with
-- DIR_WRITE, and then to the function of its class. Objects that are read, devices and the object for
-- the interface are never called.
pub only_writers_are_called :
    (ms : List Made) (port : Option Port) (i : ℕ) (h : Handler) (this : ℕ)
    → handler i (init_asyns ms port []) ≡ some (h, this)
    → IsWriter ms h this
only_writers_are_called ms port i h this e =
    let r = inits-Registers (IsWriter ms) ms port [] (all-IsWriter ms) tt in
    handler-Registers (IsWriter ms) i (init_asyns ms port []) h this r e
