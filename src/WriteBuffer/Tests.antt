-- ===== src/WriteBuffer/Tests.antt =====
-- Runs of the write buffer on a line that takes the first frame whole and the second in part.
use e3_ecmc_plugin_socketcan.Common.{◌≡◌, refl, true, false, List, [], ◌∷◌, ◌++◌}
use e3_ecmc_plugin_socketcan.Frame.{Frame, zero_frame}
use e3_ecmc_plugin_socketcan.WriteBuffer.{
  Socket, WriteReply, wrote, failed, WriteBuffer, at_top, new_write_buffer, add_write_can,
  add_to_buffer, write_buffer, switch_buffer, deref, getlast_writes_error_and_reset,
}
use e3_ecmc_plugin_socketcan.WriteBuffer.Invariant.{
  contents, IsValid, new_write_buffer-IsValid, add_write_can-IsValid, add_write_can-AtPc,
  switch_busy-IsValid,
}
use e3_ecmc_plugin_socketcan.WriteBuffer.Errors.{last_error, reply_errors, write_buffer-error}
use e3_ecmc_plugin_socketcan.WriteBuffer.Order.{pending, write_all}
use e3_ecmc_plugin_socketcan.WriteBuffer.Run.{
  Op, add, poll_error, unload, work, start, Inv, run, accepted, run-order, work-drains,
}

abbrev sync_frame : Frame
sync_frame = record zero_frame { can_id = 0x80 }

-- The line keeps the frames that it was given, newest first.
abbrev reply : List Frame → WriteReply
reply [] = wrote 16
reply (f ∷ []) = wrote 3
reply (f ∷ g ∷ fs) = failed 105

abbrev line : Socket (List Frame)
line = record { write = λ f s. (reply s, f ∷ s) }

start-Inv : Inv (List Frame) (start [])
start-Inv = record { valid = new_write_buffer-IsValid.0; at_pc = new_write_buffer-IsValid.1 }

abbrev script : List Op
script =
    add sync_frame ∷ work ∷ add zero_frame ∷ work ∷ add sync_frame ∷ work ∷ poll_error ∷ unload ∷ []

run-order_example :
    (sent : List Frame) × ((run line script (start [])).line ≡ write_all line sent [])
    × (sent ++ pending (run line script (start [])).buffer
        ≡ pending new_write_buffer ++ accepted line script (start []))
run-order_example = run-order line script (start []) start-Inv

abbrev one_waits : WriteBuffer
one_waits = (add_write_can sync_frame new_write_buffer).1

one_waits-IsValid : IsValid one_waits
one_waits-IsValid = add_write_can-IsValid sync_frame new_write_buffer new_write_buffer-IsValid.0

one_waits-Inv : Inv (List Frame) (record (start []) { buffer = one_waits })
one_waits-Inv = record {
  valid = one_waits-IsValid;
  at_pc =
      add_write_can-AtPc sync_frame at_top new_write_buffer new_write_buffer-IsValid.0
        new_write_buffer-IsValid.1;
}

one_waits-runs : one_waits.destructs ≡ false
unfolding add_write_can add_to_buffer new_write_buffer
one_waits-runs = refl

work-drains_example :
    let t' = run line (work ∷ work ∷ work ∷ []) (record (start []) { buffer = one_waits }) in
    (t'.line ≡ write_all line (pending one_waits) []) × (pending t'.buffer ≡ []) × (t'.pc ≡ at_top)
work-drains_example =
    work-drains line (record (start []) { buffer = one_waits }) one_waits-Inv refl one_waits-runs

abbrev to_write : WriteBuffer
to_write = switch_buffer (record one_waits { write_busy = true })

write_buffer-error_example :
    let (_, w', _) = write_buffer line to_write [] in
    let (code, w'') = getlast_writes_error_and_reset w' in
    (code
      ≡ last_error to_write.last_write_sum_error
          (reply_errors line (contents (deref to_write to_write.buffer_write)) []))
    × ((getlast_writes_error_and_reset w'').0 ≡ 0)
    × (deref w'' w''.buffer_add ≡ deref to_write to_write.buffer_add)
write_buffer-error_example =
    write_buffer-error line to_write [] (switch_busy-IsValid one_waits one_waits-IsValid)
