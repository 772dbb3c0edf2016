-- ===== src/WriteBuffer/Invariant.antt =====
-- What the two buffers and the worker thread of ecmcSocketCANWriteBuffer keep at every moment.
use e3_ecmc_plugin_socketcan.Common.{
  ◌≤◌, ◌≡◌, refl, true, false, List, arith, length, length-set, length-replicate, take,
}
use e3_ecmc_plugin_socketcan.Frame.{Frame, zero_frame}
use e3_ecmc_plugin_socketcan.WriteBuffer.{
  Socket, CanWriteBuffer, BufferId, buffer1, buffer2, WriteBuffer, WorkerPc, at_top, at_switch,
  at_write, returned, max_write_cmds, deref, new_write_buffer, add_write_can,
  getlast_writes_error_and_reset, switch_buffer, destruct, write_buffer, worker_step,
}

-- The frames that wait in one buffer, oldest first.
abbrev pub contents : CanWriteBuffer → List Frame
contents b = take b.frame_counter b.frames

pub record IsBuffer (b : CanWriteBuffer) : Type 0 where
  pub room : length b.frames ≡ max_write_cmds
  pub counted : b.frame_counter ≤ max_write_cmds

abbrev pub other : BufferId → BufferId
other buffer1 = buffer2
other buffer2 = buffer1

-- The two pointers point to different buffers.
pub record IsValid (w : WriteBuffer) : Type 0 where
  pub first : IsBuffer w.first
  pub second : IsBuffer w.second
  pub apart : w.buffer_write ≡ other w.buffer_add

-- Where the thread stands tells whether it is busy, and, before the switch, that nothing is left
-- in the buffer that it writes from.
abbrev pub AtPc : WorkerPc → WriteBuffer → Type 0
AtPc at_top w = (w.write_busy ≡ false) × ((deref w w.buffer_write).frame_counter ≡ 0)
AtPc at_switch w = (w.write_busy ≡ true) × ((deref w w.buffer_write).frame_counter ≡ 0)
AtPc at_write w = w.write_busy ≡ true
AtPc returned w = (w.write_busy ≡ false) × ((deref w w.buffer_write).frame_counter ≡ 0)

pub new_write_buffer-IsValid : IsValid new_write_buffer × AtPc at_top new_write_buffer
unfolding new_write_buffer
new_write_buffer-IsValid =
    let full = length-replicate max_write_cmds zero_frame in
    (
      record {
        first = record { room = full; counted = omega arith };
        second = record { room = full; counted = omega arith };
        apart = refl;
      },
      (refl, refl),
    )

pub add_write_can-IsValid :
    (f : Frame) (w : WriteBuffer) → IsValid w → IsValid (add_write_can f w).1
unfolding add_write_can
add_write_can-IsValid f w v = ground (
  arith,
  length-set w.first.frames w.first.frame_counter f,
  length-set w.second.frames w.second.frame_counter f,
)

pub add_write_can-AtPc :
    (f : Frame) (pc : WorkerPc) (w : WriteBuffer)
    → IsValid w
    → AtPc pc w
    → AtPc pc (add_write_can f w).1
unfolding add_write_can
add_write_can-AtPc f at_top w v p = ground arith
add_write_can-AtPc f at_switch w v p = ground arith
add_write_can-AtPc f at_write w v p = ground arith
add_write_can-AtPc f returned w v p = ground arith

pub error_reset-IsValid :
    (w : WriteBuffer) → IsValid w → IsValid (getlast_writes_error_and_reset w).1
unfolding getlast_writes_error_and_reset
error_reset-IsValid w v = record { first = v.first; second = v.second; apart = v.apart }

pub error_reset-AtPc :
    (pc : WorkerPc) (w : WriteBuffer) → AtPc pc w → AtPc pc (getlast_writes_error_and_reset w).1
unfolding getlast_writes_error_and_reset
error_reset-AtPc at_top w p = ground arith
error_reset-AtPc at_switch w p = ground arith
error_reset-AtPc at_write w p = p
error_reset-AtPc returned w p = ground arith

pub destruct-IsValid : (w : WriteBuffer) → IsValid w → IsValid (destruct w)
unfolding destruct
destruct-IsValid w v = record { first = v.first; second = v.second; apart = v.apart }

pub destruct-AtPc : (pc : WorkerPc) (w : WriteBuffer) → AtPc pc w → AtPc pc (destruct w)
unfolding destruct
destruct-AtPc at_top w p = ground arith
destruct-AtPc at_switch w p = ground arith
destruct-AtPc at_write w p = p
destruct-AtPc returned w p = ground arith

pub switch_busy-IsValid :
    (w : WriteBuffer) → IsValid w → IsValid (switch_buffer (record w { write_busy = true }))
unfolding switch_buffer
switch_busy-IsValid w v = ground arith

module _ {S : Type 0} (socket : Socket S) where
  pub write_buffer-IsValid :
      (w : WriteBuffer) (s : S) → IsValid w → IsValid (write_buffer socket w s).1
  unfolding write_buffer
  write_buffer-IsValid w s v = ground arith

  pub worker_step-IsValid :
      (pc : WorkerPc) (w : WriteBuffer) (s : S) → IsValid w → IsValid (worker_step socket pc w s).1
  unfolding worker_step
  worker_step-IsValid at_top w s v = ground arith
  worker_step-IsValid at_switch w s v = ground arith
  worker_step-IsValid at_write w s v = ground arith
  worker_step-IsValid returned w s v = v

  pub worker_step-AtPc :
      (pc : WorkerPc) (w : WriteBuffer) (s : S)
      → IsValid w
      → AtPc pc w
      → AtPc (worker_step socket pc w s).0 (worker_step socket pc w s).1
  unfolding worker_step
  worker_step-AtPc at_top w s v p = ground arith
  worker_step-AtPc at_switch w s v p = ground arith
  worker_step-AtPc at_write w s v p = ground arith
  worker_step-AtPc returned w s v p = p
