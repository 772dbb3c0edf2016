-- ===== src/SocketCan/Connect.antt =====
-- The constructor of ecmcSocketCAN, and the connection that is opened later.
use e3_ecmc_plugin_socketcan.Common.{
  ℕ, ◌≡◌, refl, sym, Bool, true, false, Option, none, some, List, [], arith, if◌then◌else◌,
}
use e3_ecmc_plugin_socketcan.Common.Int.{is_true}
use e3_ecmc_plugin_socketcan.Common.Memory.{done}
use e3_ecmc_plugin_socketcan.Common.Attempt.{ok}
use e3_ecmc_plugin_socketcan.Config.{Config, parse_config_str}
use e3_ecmc_plugin_socketcan.WriteBuffer
use e3_ecmc_plugin_socketcan.WriteBuffer.{Socket, at_top}
use e3_ecmc_plugin_socketcan.SocketCan
use e3_ecmc_plugin_socketcan.SocketCan.{
  SocketCan, Interface, new_socket_can, start_threads, before_connect, connect_private,
  copy_if_name, connect_external, connect_worker_step, ifnamsiz,
}
use e3_ecmc_plugin_socketcan.SocketCan.Invariant.{IsValid, HasName}
use e3_ecmc_plugin_socketcan.SocketCan.Run.{run-Next, connect_private_lem}
use e3_ecmc_plugin_socketcan.SocketCan.Steps.{System, Turn, Opens, AllFit, run}

-- The object that the constructor makes, by whether it connects.
abbrev pub constructed_can : Config → ℕ → Interface → Bool → SocketCan
constructed_can c ms i connects =
    let s0 : SocketCan = before_connect c ms in
    if connects
    then record s0 {
      socket_id = i.socket;
      connected = true;
      write_socket = i.socket;
      connected_param = true;
    }
    else s0

pub constructed-IsValid :
    (c : Config) (ms : ℕ) (i : Interface) (connects : Bool)
    → HasName c
    → IsValid (constructed_can c ms i connects)
constructed-IsValid c ms i true h = record {
  nodes = tt;
  room = omega arith;
  named = h;
  one_master = refl;
}
constructed-IsValid c ms i false h = record {
  nodes = tt;
  room = omega arith;
  named = h;
  one_master = refl;
}

threads_start :
    (c : Config) (name : List ℕ) → c.can_if_str ≡ some name → start_threads c true true ≡ ok tt
unfolding start_threads
threads_start c name e = rw e

new_socket_can_if :
    (str : Option (List ℕ)) (c : Config) (ms : ℕ) (i : Interface) (connects : Bool)
    → is_true c.auto_connect ≡ connects
    → parse_config_str str ≡ ok c
    → HasName c
    → Opens i
    → new_socket_can str ms true true true i ≡ ok (constructed_can c ms i connects)
unfolding new_socket_can WriteBuffer.construct_write_buffer
new_socket_can_if str c ms i true a p (name, e, h) f =
    let (id, g, q) = connect_private_lem i (before_connect c ms) (name, e, h) f in
    rw (p, threads_start c name e, a, q, g) refl
new_socket_can_if str c ms i false a p (name, e, h) f = rw (p, threads_start c name e, a) refl

-- With a configuration that is accepted, whose interface has a name of at most 15 characters, and if
-- the three threads start and the kernel opens the interface, the constructor succeeds: the object is valid
-- and has no devices, it is connected exactly if the configuration asks for that, and only then does
-- its write buffer have the socket.
pub new_socket_can_lem :
    (str : Option (List ℕ)) (c : Config) (ms : ℕ) (i : Interface)
    → parse_config_str str ≡ ok c
    → HasName c
    → Opens i
    → (s : SocketCan) × (new_socket_can str ms true true true i ≡ ok s)
      × IsValid s
      × (s.devices ≡ [])
      × (s.connected ≡ is_true c.auto_connect)
      × (s.write_socket ≡ (if is_true c.auto_connect then i.socket else none))
new_socket_can_lem str c ms i p h f =
    let b = is_true c.auto_connect in
    let s = constructed_can c ms i b in
    (
      s,
      new_socket_can_if str c ms i b refl p h f,
      constructed-IsValid c ms i b h,
      ground arith,
      ground arith,
      ground arith,
    )

-- The object of a constructor that did not connect, after the connect thread has.
abbrev pub connected_later : Config → ℕ → Interface → SocketCan
connected_later c ms i = record (constructed_can c ms i false) {
  socket_id = i.socket;
  connected = true;
}

-- Without an automatic connection, the object that the constructor makes connects when it is asked
-- to and the connect thread runs; but the write buffer was made before, with the socket id -1, and
-- keeps that in every run from then on in which each step fits the object that it finds. The name of
-- the interface has at most 15 characters, the threads start, and the kernel opens the interface.
pub late_connection_cannot_write :
    {S : Type 0} (socket : Socket S) (line : S) (str : Option (List ℕ)) (c : Config) (ms : ℕ)
    (i : Interface) (us : List Turn)
    → parse_config_str str ≡ ok c
    → HasName c
    → Opens i
    → is_true c.auto_connect ≡ false
    → AllFit socket us (record { can = connected_later c ms i; pc = at_top; line = line })
    → (s : SocketCan) × (new_socket_can str ms true true true i ≡ ok s)
      × (connect_worker_step i (connect_external s) ≡ done (connected_later c ms i))
      × (t : System S) × (run socket us
            (record { can = connected_later c ms i; pc = at_top; line = line })
          ≡ done t)
      × (t.can.write_socket ≡ none)
unfolding connect_worker_step connect_external SocketCan.uncaught
late_connection_cannot_write {S} socket line str c ms i us p h f a fits =
    let s = constructed_can c ms i false in
    let (id, g, q) = connect_private_lem i s h f in
    let v1 : IsValid (connected_later c ms i) = record {
      nodes = tt;
      room = omega arith;
      named = h;
      one_master = refl;
    } in
    let t0 : System S = record { can = connected_later c ms i; pc = at_top; line = line } in
    let (t, e, n) = run-Next socket us t0 v1 fits in
    (s, new_socket_can_if str c ms i false a p h f, rw (q, sym g) refl, t, e, n.socket)
