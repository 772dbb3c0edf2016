-- ===== src/WriteBuffer/Run.antt =====
-- Whole runs of ecmcSocketCANWriteBuffer: callers of addWriteCAN, of getlastWritesErrorAndReset and
-- of the destructor, and the worker thread, in any order.
use e3_ecmc_plugin_socketcan.Common.{
  ◌≡◌, refl, sym, ap, ◌∙◌, false, List, [], ◌∷◌, ◌++◌, arith, append-nil, append_assoc, ◌==◌,
  if◌then◌else◌,
}
use e3_ecmc_plugin_socketcan.Frame.{Frame}
use e3_ecmc_plugin_socketcan.WriteBuffer.{
  Socket, WriteBuffer, WorkerPc, at_top, new_write_buffer, add_write_can,
  getlast_writes_error_and_reset, destruct, worker_step,
}
use e3_ecmc_plugin_socketcan.WriteBuffer.Invariant.{
  IsValid, AtPc, add_write_can-IsValid, add_write_can-AtPc, worker_step-IsValid, worker_step-AtPc,
  error_reset-IsValid, error_reset-AtPc, destruct-IsValid, destruct-AtPc,
}
use e3_ecmc_plugin_socketcan.WriteBuffer.Order.{
  pending, add_write_can-Adds, write_all, write_all-append, worker_step-writes, round-drains,
}

-- What the threads do next: one offers a frame, one asks for the error, the plugin unloads, or
-- the worker takes a step.
pub data Op : Type 0 where
  add : Frame → Op
  poll_error unload work : Op

pub record State (S : Type 0) : Type 0 where
  pub pc : WorkerPc
  pub buffer : WriteBuffer
  pub line : S

abbrev pub start : {S : Type 0} → S → State S
start s = record { pc = at_top; buffer = new_write_buffer; line = s }

-- An invariant of every run.
pub record Inv (S : Type 0) (t : State S) : Type 0 where
  pub valid : IsValid t.buffer
  pub at_pc : AtPc t.pc t.buffer

module _ {S : Type 0} (socket : Socket S) where
  unfoldable pub step : Op → State S → State S
  step (add f) t = record t { buffer = (add_write_can f t.buffer).1 }
  step poll_error t = record t { buffer = (getlast_writes_error_and_reset t.buffer).1 }
  step unload t = record t { buffer = destruct t.buffer }
  step work t =
      let (pc, buffer, line) = worker_step socket t.pc t.buffer t.line in
      record { pc = pc; buffer = buffer; line = line }

  unfoldable pub run : List Op → State S → State S
  run [] t = t
  run (o ∷ os) t = run os (step o t)

  -- The frames of a run that addWriteCAN took, by the code that it returned.
  took : Op → State S → List Frame
  took (add f) t = if (add_write_can f t.buffer).0 == 0 then f ∷ [] else []
  took _ t = []

  pub accepted : List Op → State S → List Frame
  accepted [] t = []
  accepted (o ∷ os) t = took o t ++ accepted os (step o t)

  step-Inv : (o : Op) (t : State S) → Inv S t → Inv S (step o t)
  unfolding step
  step-Inv (add f) t v = record {
    valid = add_write_can-IsValid f t.buffer v.valid;
    at_pc = add_write_can-AtPc f t.pc t.buffer v.valid v.at_pc;
  }
  step-Inv poll_error t v = record {
    valid = error_reset-IsValid t.buffer v.valid;
    at_pc = error_reset-AtPc t.pc t.buffer v.at_pc;
  }
  step-Inv unload t v = record {
    valid = destruct-IsValid t.buffer v.valid;
    at_pc = destruct-AtPc t.pc t.buffer v.at_pc;
  }
  step-Inv work t v = record {
    valid = worker_step-IsValid socket t.pc t.buffer t.line v.valid;
    at_pc = worker_step-AtPc socket t.pc t.buffer t.line v.valid v.at_pc;
  }

  step-order :
      (o : Op) (t : State S)
      → Inv S t
      → (sent : List Frame) × ((step o t).line ≡ write_all socket sent t.line)
        × (sent ++ pending (step o t).buffer ≡ pending t.buffer ++ took o t)
  unfolding step took getlast_writes_error_and_reset destruct
  step-order (add f) t v = (
    [],
    refl,
    ground (arith, add_write_can-Adds f t.buffer v.valid, append-nil (pending t.buffer)),
  )
  step-order poll_error t v = ([], refl, sym (append-nil (pending t.buffer)))
  step-order unload t v = ([], refl, sym (append-nil (pending t.buffer)))
  step-order work t v =
      let (sent, p, q) = worker_step-writes socket t.pc t.buffer t.line v.valid v.at_pc in
      (sent, p, q ∙ sym (append-nil (pending t.buffer)))

  -- In any interleaving from a state with the invariant, the frames handed to the socket's write(), followed by those that still
  -- wait, are the frames that waited at first, followed by those that addWriteCAN took since: none
  -- is lost, doubled or overtaken.
  pub run-order :
      (os : List Op) (t : State S)
      → Inv S t
      → (sent : List Frame) × ((run os t).line ≡ write_all socket sent t.line)
        × (sent ++ pending (run os t).buffer ≡ pending t.buffer ++ accepted os t)
  unfolding run accepted
  run-order [] t v = ([], refl, sym (append-nil (pending t.buffer)))
  run-order (o ∷ os) t v =
      let (sent, p, q) = step-order o t v in
      let (more, p', q') = run-order os (step o t) (step-Inv o t v) in
      (
        sent ++ more,
        p' ∙ rw p (sym (write_all-append socket sent more t.line)),
        append_assoc sent more (pending (run os (step o t)).buffer)
            ∙ ap (◌++◌ sent) q'
            ∙ sym (append_assoc sent (pending (step o t).buffer) (accepted os (step o t)))
            ∙ ap (λ l. l ++ accepted os (step o t)) q
            ∙ append_assoc (pending t.buffer) (took o t) (accepted os (step o t)),
      )

  -- In a state with the invariant, a worker at the top of its loop that is not told to stop empties the buffers in three steps:
  -- every frame that waited has been handed to the socket, in order.
  pub work-drains :
      (t : State S)
      → Inv S t
      → t.pc ≡ at_top
      → t.buffer.destructs ≡ false
      → let t' = run (work ∷ work ∷ work ∷ []) t in
        (t'.line ≡ write_all socket (pending t.buffer) t.line)
        × (pending t'.buffer ≡ [])
        × (t'.pc ≡ at_top)
  unfolding run step
  work-drains t v top running =
      rw top (round-drains socket t.buffer t.line v.valid (rw top at v.at_pc) running)
