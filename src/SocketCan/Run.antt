-- ===== src/SocketCan/Run.antt =====
-- Runs of the plugin: no step of a thread and no command spoils the object.
use e3_ecmc_plugin_socketcan.Common.{
  ℕ, ◌≡◌, refl, ◌∙◌, subst, inl, inr, Bool, true, false, Option, none, some, List, [], ◌∷◌, arith,
  ◌==◌, if◌then◌else◌, length, Bool-cases, lt→ltb,
}
use e3_ecmc_plugin_socketcan.Common.Memory.{Outcome, done, AfterDone}
use e3_ecmc_plugin_socketcan.Common.Attempt.{Attempt, ok, thrown, crashed}
use e3_ecmc_plugin_socketcan.Frame.{Frame}
use e3_ecmc_plugin_socketcan.Sink.{write_buffer_sink}
use e3_ecmc_plugin_socketcan.WriteBuffer.{WriteBuffer, Socket, worker_step, frame_size}
use e3_ecmc_plugin_socketcan.SocketCan
use e3_ecmc_plugin_socketcan.SocketCan.{
  SocketCan, Interface, ReadReply, failed, got, connect_external, connect_private,
  connect_worker_step, copy_if_name, ifnamsiz, max_devices,
}
use e3_ecmc_plugin_socketcan.SocketCan.Cycle.{
  execute, dispatch, received, publish_write_error, refresh_asyn_params, read_worker_step,
  getlast_writes_error,
}
use e3_ecmc_plugin_socketcan.SocketCan.Invariant.{
  IsValid, Next, HasName, AreTaken, SameTable, execute_devices-TableEnds,
  new_rx_frame_devices-TableEnds,
}
use e3_ecmc_plugin_socketcan.SocketCan.Asyn.{
  WriteEnds, asyn_write_sdo-WriteEnds, asyn_write_pdo-WriteEnds,
}
use e3_ecmc_plugin_socketcan.SocketCan.Keeps.{
  Keeps, add_device-Keeps, add_master-Keeps, add_pdo-Keeps, add_sdo-Keeps,
}
use e3_ecmc_plugin_socketcan.SocketCan.Steps.{
  Event, cycle, connect_call, poll_error, read_work, connect_work, send, new_device_call,
  new_master_call, new_pdo_call, new_sdo_call, sdo_written, pdo_written, Opens, Turn, write_work,
  happens, System, caught, put_buffer, handle, Fits, AllFit, step, run,
}

-- A call ended, in a later state of the object.
abbrev pub Ends : SocketCan → Outcome SocketCan → Type 0
Ends s r = (s' : SocketCan) × (r ≡ done s') × Next s s'

table-Next :
    (s s' : SocketCan)
    → IsValid s
    → SameTable s.devices s'.devices
    → s'.config ≡ s.config
    → s'.master_dev ≡ s.master_dev
    → s'.write_socket ≡ s.write_socket
    → Next s s'
table-Next s s' v t c m w = record {
  valid = record {
    nodes = t.nodes;
    room = omega (arith, t.size, v.room);
    named = rw c v.named;
    one_master = rw (t.masters, m) v.one_master;
  };
  socket = w;
}

-- Only the fields that the invariant does not read are new.
same-Next :
    (s s' : SocketCan)
    → IsValid s
    → s'.devices ≡ s.devices
    → s'.config ≡ s.config
    → s'.master_dev ≡ s.master_dev
    → s'.write_socket ≡ s.write_socket
    → Next s s'
same-Next s s' v d c m w = record {
  valid = record {
    nodes = rw d v.nodes;
    room = rw d v.room;
    named = rw c v.named;
    one_master = rw (d, m) v.one_master;
  };
  socket = w;
}

published-same :
    (s : SocketCan)
    → ((publish_write_error s).devices ≡ s.devices)
      × ((publish_write_error s).config ≡ s.config)
      × ((publish_write_error s).master_dev ≡ s.master_dev)
      × ((publish_write_error s).write_socket ≡ s.write_socket)
unfolding publish_write_error getlast_writes_error refresh_asyn_params
published-same s = ground arith

execute-Ends : (s : SocketCan) → IsValid s → Ends s (execute s)
unfolding execute
execute-Ends s v =
    let (ds, b, e, t) = execute_devices-TableEnds s.devices s.write_buffer v.nodes in
    let s1 : SocketCan = record s { devices = ds; write_buffer = b } in
    let (p, q, r, u) = published-same s1 in
    let n1 = table-Next s s1 v t refl refl refl in
    (
      publish_write_error s1,
      rw e,
      record { valid = (same-Next s1 (publish_write_error s1) n1.valid p q r u).valid; socket = u },
    )

dispatch-Ends :
    (f : Frame) (s : SocketCan) → IsValid s → AreTaken f s.devices → Ends s (dispatch f s)
unfolding dispatch
dispatch-Ends f s v i =
    let (ds, b, e, t) = new_rx_frame_devices-TableEnds f s.devices s.write_buffer v.nodes i in
    let s1 : SocketCan = record s { devices = ds; write_buffer = b } in
    (s1, rw e, table-Next s s1 v t refl refl refl)

stays : (s : SocketCan) → IsValid s → Next s s
stays s v = record { valid = v; socket = refl }

if-Ends :
    (s : SocketCan) (b : Bool) (x y : Outcome SocketCan)
    → Ends s x
    → Ends s y
    → Ends s (if b then x else y)
if-Ends s true x y p q = p
if-Ends s false x y p q = q

received-Ends :
    (reply : ReadReply) (s : SocketCan)
    → IsValid s
    → Fits (read_work reply) s
    → Ends s (received reply s)
unfolding received
received-Ends (failed errno) s v h = (_, refl, same-Next s _ v refl refl refl refl)
received-Ends (got bytes f) s v h =
    if-Ends s (bytes == frame_size) _ _ (dispatch-Ends f s v h)
      (_, refl, same-Next s _ v refl refl refl refl)

read_worker_step-Ends :
    (reply : ReadReply) (s : SocketCan)
    → IsValid s
    → Fits (read_work reply) s
    → Ends s (read_worker_step reply s)
unfolding read_worker_step
read_worker_step-Ends reply s v h =
    if-Ends s s.destructs _ _ (s, refl, stays s v)
      (if-Ends s s.connected _ _ (received-Ends reply s v h) (s, refl, stays s v))

-- Opening the named interface works if the kernel does its part.
pub connect_private_lem :
    (i : Interface) (s : SocketCan)
    → HasName s.config
    → Opens i
    → (id : ℕ) × (i.socket ≡ some id)
      × (connect_private i s ≡ ok (record s { socket_id = some id; connected = true }))
unfolding connect_private copy_if_name
connect_private_lem i s (name, e, h) ((id, g), b) =
    (id, g, rw (g, e, lt→ltb (length name) ifnamsiz h, b))

connect_worker_step-Ends :
    (i : Interface) (s : SocketCan) → IsValid s → Opens i → Ends s (connect_worker_step i s)
unfolding connect_worker_step SocketCan.uncaught
connect_worker_step-Ends i s v h =
    let s1 : SocketCan = record s { connect_event = false } in
    let (id, g, e) = connect_private_lem i s1 v.named h in
    if-Ends s s.destructs _ _ (s, refl, stays s v)
      (if-Ends s s.connect_event _ _ (rw e (_, refl, same-Next s _ v refl refl refl refl))
        (s, refl, stays s v))

pub caught-Ends :
    (s : SocketCan) (r : Attempt SocketCan) → IsValid s → Keeps s r → Ends s (caught s r)
unfolding caught
caught-Ends s (ok s') v k = (s', refl, k)
caught-Ends s (thrown e) v k = (s, refl, stays s v)
caught-Ends s crashed v k = absurd k

put_buffer-Ends :
    (b : Option WriteBuffer) (s : SocketCan) → IsValid s → Ends s (done (put_buffer b s))
unfolding put_buffer
put_buffer-Ends none s v = (s, refl, stays s v)
put_buffer-Ends (some b) s v = (_, refl, same-Next s _ v refl refl refl refl)

connect_external-Ends : (s : SocketCan) → IsValid s → Ends s (done (connect_external s))
unfolding connect_external
connect_external-Ends s v = elim (Bool-cases s.connected) [
  | inl e ↦ (_, refl, ground (arith, v, e))
  | inr e ↦ (_, refl, ground (arith, v, e))
]

write-Ends : (s : SocketCan) (r : Outcome SocketCan) → IsValid s → WriteEnds s r → Ends s r
write-Ends s r v (ds, b, t, e) =
    let s1 : SocketCan = record s { devices = ds; write_buffer = b } in
    (s1, e, table-Next s s1 v t refl refl refl)

pub handle-Ends : (e : Event) (s : SocketCan) → IsValid s → Fits e s → Ends s (handle e s)
unfolding handle
handle-Ends cycle s v h = execute-Ends s v
handle-Ends connect_call s v h = connect_external-Ends s v
handle-Ends poll_error s v h = put_buffer-Ends _ s v
handle-Ends (read_work reply) s v h = read_worker_step-Ends reply s v h
handle-Ends (connect_work i) s v h = connect_worker_step-Ends i s v h
handle-Ends (send can_id len d0 d1 d2 d3 d4 d5 d6 d7) s v h = put_buffer-Ends _ s v
handle-Ends (new_device_call node_id timeout) s v h =
    caught-Ends s _ v (add_device-Keeps node_id timeout s v)
handle-Ends (new_master_call node_id lss sync heart) s v h =
    caught-Ends s _ v (add_master-Keeps node_id lss sync heart s v)
handle-Ends (new_pdo_call node_id cob_id rw size timeout period) s v (h, q) =
    caught-Ends s _ v (add_pdo-Keeps node_id cob_id size timeout period rw s v h q)
handle-Ends (new_sdo_call node_id tx id_rx rw index sub size sample) s v (h, q) =
    caught-Ends s _ v (add_sdo-Keeps node_id tx id_rx index sub size sample rw s v h q)
handle-Ends (sdo_written j i value) s v h =
    write-Ends s _ v (asyn_write_sdo-WriteEnds j i value s v.nodes h)
handle-Ends (pdo_written j i value) s v h =
    write-Ends s _ v (asyn_write_pdo-WriteEnds j i value s v.nodes h)

module _ {S : Type 0} (socket : Socket S) where
  pub run-Next :
      (us : List Turn) (t : System S)
      → IsValid t.can
      → AllFit socket us t
      → (t' : System S) × (run socket us t ≡ done t') × Next t.can t'.can
  unfolding run step
  run-Next [] t v h = (t, refl, stays t.can v)
  run-Next (write_work ∷ us) t v h =
      let (pc, b, line) = worker_step socket t.pc t.can.write_buffer t.line in
      let s1 : SocketCan = record t.can { write_buffer = b } in
      let n1 = same-Next t.can s1 v refl refl refl refl in
      let (t2, e2, n2) = run-Next us (record { can = s1; pc = pc; line = line }) n1.valid h in
      (t2, e2, record { valid = n2.valid; socket = n2.socket })
  run-Next (happens e ∷ us) t v (h, hs) =
      let (s1, e1, n1) = handle-Ends e t.can v h in
      let t1 : System S = record t { can = s1 } in
      let ends : step socket (happens e) t ≡ done t1 = rw e1 in
      let fits = subst (AfterDone (λ x. AllFit socket us x)) ends hs in
      let (t2, e2, n2) = run-Next us t1 n1.valid fits in
      (t2, rw e1 e2, record { valid = n2.valid; socket = n2.socket ∙ n1.socket })

  -- From a valid object, any sequence of the threads' steps, of commands and of values written over
  -- asyn, each of which fits the object that it finds, runs to its end without a fault or an exception
  -- that ends the process, and leaves the object valid: every device keeps its own invariant and a
  -- node id below 128, there are at most 128 devices, and the master flag is set exactly if one of
  -- them is a master, of which there is never a second. Frames without data are to be for no SDO,
  -- values for an SDO as long as the object at least, and those for a PDO of bytes; PDOs
  -- have at most 8 bytes, SDOs less than 2^31, and new objects an even size if a device is in debug mode.
  pub run-IsValid :
      (us : List Turn) (t : System S)
      → IsValid t.can
      → AllFit socket us t
      → (t' : System S) × (run socket us t ≡ done t') × IsValid t'.can
  run-IsValid us t v h = let (t', e, n) = run-Next us t v h in (t', e, n.valid)
