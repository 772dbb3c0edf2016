-- ===== src/SocketCan/Refinement.antt =====
-- A run of the whole plugin, seen from the write buffer: it is a run of the write buffer alone.
use e3_ecmc_plugin_socketcan.Common.{◌≡◌, refl, sym, ap, ◌∙◌, inl, inr, List, [], ◌∷◌, ◌++◌, arith}
use e3_ecmc_plugin_socketcan.Common.Memory.{done, Outcome-cases, done-injective}
use e3_ecmc_plugin_socketcan.Frame.{Frame}
use e3_ecmc_plugin_socketcan.WriteBuffer.{Socket, worker_step}
use e3_ecmc_plugin_socketcan.WriteBuffer.Order.{pending, write_all}
use e3_ecmc_plugin_socketcan.WriteBuffer.Run
use e3_ecmc_plugin_socketcan.WriteBuffer.Run.{Op, work, State, Inv, accepted, run-order}
use e3_ecmc_plugin_socketcan.SocketCan
use e3_ecmc_plugin_socketcan.SocketCan.Invariant.{IsValid}
use e3_ecmc_plugin_socketcan.SocketCan.Run.{run-IsValid}
use e3_ecmc_plugin_socketcan.SocketCan.Explains.{Follows, view, run-append, handle-Explained}
use e3_ecmc_plugin_socketcan.SocketCan.Steps.{
  Turn, write_work, happens, System, handle, step, AllFit,
}

module _ {S : Type 0} (socket : Socket S) where
  -- Every run of the plugin that ends is, for the write buffer, its thread and the bus, a run of
  -- ecmcSocketCANWriteBuffer with the calls that the events make.
  run-Follows :
      (us : List Turn) (t t' : System S)
      → SocketCan.Steps.run socket us t ≡ done t'
      → (os : List Op) × Follows us os × (Run.run socket os (view socket t) ≡ view socket t')
  unfolding SocketCan.Steps.run SocketCan.Steps.step Run.step Run.run
  run-Follows [] t t' h = ([], refl, ap (λ x. view socket x) (done-injective h))
  run-Follows (write_work ∷ us) t t' h =
      let (pc, b, line) = worker_step socket t.pc t.can.write_buffer t.line in
      let t1 : System S = record {
        can = record t.can { write_buffer = b };
        pc = pc;
        line = line;
      } in
      let (os, f, e) = run-Follows us t1 t' h in (work ∷ os, (os, refl, f), e)
  run-Follows (happens e ∷ us) t t' h = elim (Outcome-cases (handle e t.can)) [
    | inr g ↦ absurd (ground (arith, g, h))
    | inl (s, g) ↦
        let t1 : System S = record t { can = s } in
        let rest : SocketCan.Steps.run socket us t1 ≡ done t' = rw g at h in
        let (now, x, p) = handle-Explained socket e t s g in
        let (os, f, q) = run-Follows us t1 t' rest in
        (
          now ++ os,
          (now, os, refl, x, f),
          run-append socket now os (view socket t) ∙ ap (λ u. Run.run socket os u) p ∙ q,
        )
  ]

  -- From a valid object whose write buffer has its invariant, any sequence of the threads' steps, of
  -- commands and of values written over asyn, each of which fits the object that it finds, ends, and
  -- the write buffer, its thread and the bus take part in it as in a run of ecmcSocketCANWriteBuffer
  -- alone, of the steps of the write thread and the calls that the events make, in their order: for
  -- can_add_write one call of addWriteCAN with the frame of its arguments, for can_last_writes_error
  -- one of getlastWritesErrorAndReset, for execute calls of addWriteCAN and then one of
  -- getlastWritesErrorAndReset, for a frame that is read and a value written over asyn calls of
  -- addWriteCAN, for all else none. So the frames handed to the socket's write(), followed by
  -- those that still wait, are the frames that waited at first, followed by those that these calls of
  -- addWriteCAN took, whichever objects sent them: none is lost, doubled or overtaken.
  pub plugin-order :
      (us : List Turn) (t : System S)
      → IsValid t.can
      → AllFit socket us t
      → Inv S (view socket t)
      → (t' : System S) × (SocketCan.Steps.run socket us t ≡ done t')
        × (os : List Op) × Follows us os
        × (Run.run socket os (view socket t) ≡ view socket t')
        × (sent : List Frame) × (t'.line ≡ write_all socket sent t.line)
        × (sent ++ pending t'.can.write_buffer
            ≡ pending t.can.write_buffer ++ accepted socket os (view socket t))
  plugin-order us t v h i =
      let (t', e, _) = run-IsValid socket us t v h in
      let (os, f, r) = run-Follows us t t' e in
      let (sent, p, q) = run-order socket os (view socket t) i in
      (
        t',
        e,
        os,
        f,
        r,
        sent,
        ap (λ (x : State S). x.line) (sym r) ∙ p,
        ap (λ (x : State S). sent ++ pending x.buffer) (sym r) ∙ q,
      )
