-- ===== src/SocketCan/Explains.antt =====
-- What each event of the plugin calls of the write buffer.
use e3_ecmc_plugin_socketcan.Common.{
  ◌≡◌, refl, sym, ap, subst, ◌∙◌, true, false, List, [], ◌∷◌, ◌++◌, arith,
}
use e3_ecmc_plugin_socketcan.Common.Memory.{Outcome, done, done-injective}
use e3_ecmc_plugin_socketcan.Common.Attempt.{Attempt, ok, thrown, crashed}
use e3_ecmc_plugin_socketcan.Frame.{Frame}
use e3_ecmc_plugin_socketcan.WriteBuffer
use e3_ecmc_plugin_socketcan.WriteBuffer.{
  WriteBuffer, Socket, getlast_writes_error_and_reset, add_write_can_bytes,
}
use e3_ecmc_plugin_socketcan.WriteBuffer.Run
use e3_ecmc_plugin_socketcan.WriteBuffer.Run.{Op, add, work, State}
use e3_ecmc_plugin_socketcan.Sink.Sends.{Leaves}
use e3_ecmc_plugin_socketcan.SocketCan
use e3_ecmc_plugin_socketcan.SocketCan.{
  SocketCan, Interface, connect_external, connect_worker_step, connect_private,
}
use e3_ecmc_plugin_socketcan.SocketCan.Cycle.{add_write_can, getlast_writes_error}
use e3_ecmc_plugin_socketcan.SocketCan.Sends.{
  KeepsBuffer, execute-KeepsBuffer, read_worker_step-KeepsBuffer,
}
use e3_ecmc_plugin_socketcan.SocketCan.Asyn.{asyn_write_sdo-KeepsBuffer, asyn_write_pdo-KeepsBuffer}
use e3_ecmc_plugin_socketcan.SocketCan.SameBuffer.{
  SameBuffer, add_device-SameBuffer, add_master-SameBuffer, add_pdo-SameBuffer, add_sdo-SameBuffer,
}
use e3_ecmc_plugin_socketcan.SocketCan.Steps.{
  Event, cycle, poll_error, connect_call, read_work, connect_work, send, new_device_call,
  new_master_call, new_pdo_call, new_sdo_call, sdo_written, pdo_written, Turn, write_work, happens,
  System, handle, caught, put_buffer,
}

-- Calls of addWriteCAN only.
abbrev pub AreAdds : List Op → Type 0
AreAdds [] = Unit {0}
AreAdds (add f ∷ os) = AreAdds os
AreAdds (Op.poll_error ∷ os) = true ≡ false
AreAdds (Op.unload ∷ os) = true ≡ false
AreAdds (work ∷ os) = true ≡ false

-- The PLC function can_add_write makes one call of addWriteCAN, with the frame of its arguments, and
-- can_last_writes_error one of getlastWritesErrorAndReset. Execute makes calls of addWriteCAN and then
-- one of getlastWritesErrorAndReset; a frame that is read and a value written over asyn make calls of
-- addWriteCAN. Nothing else touches the write buffer.
abbrev pub Explains : Event → List Op → Type 0
Explains cycle now = (adds : List Op) × AreAdds adds × (now ≡ adds ++ (Op.poll_error ∷ []))
Explains (read_work reply) now = AreAdds now
Explains (sdo_written j i value) now = AreAdds now
Explains (pdo_written j i value) now = AreAdds now
Explains poll_error now = now ≡ Op.poll_error ∷ []
Explains (send can_id len d0 d1 d2 d3 d4 d5 d6 d7) now =
    now
    ≡ add (record {
      can_id = can_id;
      can_dlc = len;
      payload = d0 ∷ d1 ∷ d2 ∷ d3 ∷ d4 ∷ d5 ∷ d6 ∷ d7 ∷ [];
    })
      ∷ []
Explains _ now = now ≡ []

-- The calls of a run of the plugin, event by event, with the steps of the write thread among them.
abbrev pub Follows : List Turn → List Op → Type 0
Follows [] os = os ≡ []
Follows (write_work ∷ us) os = (rest : List Op) × (os ≡ work ∷ rest) × Follows us rest
Follows (happens e ∷ us) os =
    (now : List Op) × (rest : List Op) × (os ≡ now ++ rest) × Explains e now × Follows us rest

-- An event that ends with the write buffer of before.
abbrev Keeps : SocketCan → Outcome SocketCan → Type 0
Keeps s r = Leaves (λ (b : WriteBuffer). b ≡ s.write_buffer) (λ (c : SocketCan). c.write_buffer) r

caught-Keeps : (s : SocketCan) (r : Attempt SocketCan) → SameBuffer s r → Keeps s (caught s r)
unfolding caught
caught-Keeps s (ok s') e = e
caught-Keeps s (thrown x) e = refl
caught-Keeps s crashed e = tt

connect-Keeps : (s : SocketCan) → Keeps s (done (connect_external s))
unfolding connect_external
connect-Keeps s = ground arith

connect_work-Keeps : (i : Interface) (s : SocketCan) → Keeps s (connect_worker_step i s)
unfolding connect_worker_step connect_private SocketCan.uncaught SocketCan.copy_if_name
connect_work-Keeps i s = ground arith

append-AreAdds : (os os' : List Op) → AreAdds os → AreAdds os' → AreAdds (os ++ os')
append-AreAdds [] os' h h' = h'
append-AreAdds (add f ∷ os) os' h h' = append-AreAdds os os' h h'
append-AreAdds (Op.poll_error ∷ os) os' h h' = absurd (ground (arith, h))
append-AreAdds (Op.unload ∷ os) os' h h' = absurd (ground (arith, h))
append-AreAdds (work ∷ os) os' h h' = absurd (ground (arith, h))

module _ {S : Type 0} (socket : Socket S) where
  -- What the write buffer, its thread and the bus are in a state of the plugin.
  abbrev pub view : System S → State S
  view t = record { pc = t.pc; buffer = t.can.write_buffer; line = t.line }

  pub run-append :
      (os os' : List Op) (u : State S)
      → Run.run socket (os ++ os') u ≡ Run.run socket os' (Run.run socket os u)
  unfolding Run.run
  run-append [] os' u = refl
  run-append (o ∷ os) os' u = run-append os os' (Run.step socket o u)

  -- The write buffer that some calls lead to.
  abbrev Called : System S → WriteBuffer → Type 0
  Called t b =
      (os : List Op) × AreAdds os
      × (Run.run socket os (view t) ≡ record { pc = t.pc; buffer = b; line = t.line })

  one_more :
      (t : System S) (b : WriteBuffer) (f : Frame)
      → Called t b
      → Called t (WriteBuffer.add_write_can f b).1
  unfolding Run.run Run.step
  one_more t b f (os, h, e) = (
    os ++ (add f ∷ []),
    append-AreAdds os (add f ∷ []) h tt,
    run-append os (add f ∷ []) (view t) ∙ ap (λ x. Run.step socket (add f) x) e,
  )

  -- The write buffer that some calls lead to, and then one that asks for the error.
  abbrev Polled : System S → WriteBuffer → Type 0
  Polled t b =
      (now : List Op) × ((os : List Op) × AreAdds os × (now ≡ os ++ (Op.poll_error ∷ [])))
      × (Run.run socket now (view t) ≡ record { pc = t.pc; buffer = b; line = t.line })

  one_poll :
      (t : System S) (b : WriteBuffer) → Called t b → Polled t (getlast_writes_error_and_reset b).1
  unfolding Run.run Run.step
  one_poll t b (os, h, e) = (
    os ++ (Op.poll_error ∷ []),
    (os, h, refl),
    run-append os (Op.poll_error ∷ []) (view t) ∙ ap (λ x. Run.step socket Op.poll_error x) e,
  )

  -- The event is explained by calls that lead to the write buffer that it leaves.
  abbrev pub Explained : Event → System S → SocketCan → Type 0
  Explained e t s =
      (now : List Op) × Explains e now × (Run.run socket now (view t) ≡ view (record t { can = s }))

  kept :
      (t : System S) (r : Outcome SocketCan) (s : SocketCan)
      → Keeps t.can r
      → r ≡ done s
      → Run.run socket [] (view t) ≡ view (record t { can = s })
  unfolding Run.run
  kept t r s k h =
      let same : s.write_buffer ≡ t.can.write_buffer = subst (Keeps t.can) h k in
      let at : WriteBuffer → State S = λ b. record { pc = t.pc; buffer = b; line = t.line } in
      ap at (sym same)

  called :
      (t : System S) (r : Outcome SocketCan) (s : SocketCan)
      → KeepsBuffer (Called t) r
      → r ≡ done s
      → (now : List Op) × AreAdds now × (Run.run socket now (view t) ≡ view (record t { can = s }))
  called t r s k h = subst (λ x. Leaves (Called t) (λ (c : SocketCan). c.write_buffer) x) h k

  start-Called : (t : System S) → Called t t.can.write_buffer
  unfolding Run.run
  start-Called t = ([], tt, refl)

  pub handle-Explained :
      (e : Event) (t : System S) (s : SocketCan) → handle e t.can ≡ done s → Explained e t s
  unfolding handle put_buffer getlast_writes_error add_write_can add_write_can_bytes Run.run
      Run.step
  handle-Explained cycle t s h =
      let k =
        execute-KeepsBuffer (Called t) (Polled t) (λ f b p. one_more t b f p)
          (λ b p. one_poll t b p) t.can (start-Called t) in
      subst (λ x. Leaves (Polled t) (λ (c : SocketCan). c.write_buffer) x) h k
  handle-Explained (read_work reply) t s h =
      called t _ s
        (read_worker_step-KeepsBuffer (Called t) (λ f b p. one_more t b f p) reply t.can
          (start-Called t))
        h
  handle-Explained (sdo_written j i value) t s h =
      called t _ s
        (asyn_write_sdo-KeepsBuffer (Called t) (λ f b p. one_more t b f p) j i value t.can
          (start-Called t))
        h
  handle-Explained (pdo_written j i value) t s h =
      called t _ s
        (asyn_write_pdo-KeepsBuffer (Called t) (λ f b p. one_more t b f p) j i value t.can
          (start-Called t))
        h
  handle-Explained poll_error t s h =
      (Op.poll_error ∷ [], refl, ap (λ x. view (record t { can = x })) (done-injective h))
  handle-Explained (send can_id len d0 d1 d2 d3 d4 d5 d6 d7) t s h =
      (_, refl, ap (λ x. view (record t { can = x })) (done-injective h))
  handle-Explained connect_call t s h = ([], refl, kept t _ s (connect-Keeps t.can) h)
  handle-Explained (connect_work i) t s h = ([], refl, kept t _ s (connect_work-Keeps i t.can) h)
  handle-Explained (new_device_call node_id timeout) t s h =
      ([], refl, kept t _ s (caught-Keeps t.can _ (add_device-SameBuffer node_id timeout t.can)) h)
  handle-Explained (new_master_call node_id lss sync heart) t s h =
      let same = add_master-SameBuffer node_id lss sync heart t.can in
      ([], refl, kept t _ s (caught-Keeps t.can _ same) h)
  handle-Explained (new_pdo_call node_id cob_id rw size timeout period) t s h =
      let same = add_pdo-SameBuffer node_id cob_id size timeout period rw t.can in
      ([], refl, kept t _ s (caught-Keeps t.can _ same) h)
  handle-Explained (new_sdo_call node_id tx id_rx rw index sub size sample) t s h =
      let same = add_sdo-SameBuffer node_id tx id_rx index sub size sample rw t.can in
      ([], refl, kept t _ s (caught-Keeps t.can _ same) h)
