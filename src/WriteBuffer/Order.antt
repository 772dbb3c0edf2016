-- ===== src/WriteBuffer/Order.antt =====
-- The frames that wait in ecmcSocketCANWriteBuffer, and the order in which they leave it.
use e3_ecmc_plugin_socketcan.Common.{
  ℕ, zero, suc, ◌+◌, ◌≤◌, ◌<◌, ◌≡◌, refl, ◌⊎◌, true, false, List, [], ◌∷◌, ◌++◌, arith, length,
  take, drop, drop-get, set, take-set, append-nil, append_assoc,
}
use e3_ecmc_plugin_socketcan.Frame.{Frame, zero_frame}
use native.Mathlib.Numerals.{add-one}
use e3_ecmc_plugin_socketcan.WriteBuffer.{
  Socket, CanWriteBuffer, WriteBuffer, WorkerPc, at_top, at_switch, at_write, returned,
  max_write_cmds, deref, add_write_can, switch_buffer, write_loop, write_buffer, worker_step,
}
use e3_ecmc_plugin_socketcan.WriteBuffer.Invariant.{
  contents, IsBuffer, IsValid, AtPc, switch_busy-IsValid,
}

-- All frames that wait: those of the buffer that is written out are the older ones.
abbrev pub pending : WriteBuffer → List Frame
pending w = contents (deref w w.buffer_write) ++ contents (deref w w.buffer_add)

add_buffer-grows :
    (b : CanWriteBuffer) (f : Frame)
    → IsBuffer b
    → b.frame_counter < max_write_cmds
    → take (b.frame_counter + 1) (set b.frames b.frame_counter f) ≡ contents b ++ (f ∷ [])
add_buffer-grows b f v h =
    let e : b.frame_counter + 1 ≡ suc b.frame_counter = omega arith in
    rw e (take-set b.frames b.frame_counter f (omega (arith, v.room)))

-- What a call of addWriteCAN does: it queues the frame behind all others, or refuses it with
-- ECMC_CAN_ERROR_WRITE_FULL and changes nothing.
abbrev pub Adds : Frame → WriteBuffer → ℕ × WriteBuffer → Type 0
Adds f w (code, w') =
    (((deref w w.buffer_add).frame_counter < max_write_cmds)
      × (code ≡ 0)
      × (pending w' ≡ pending w ++ (f ∷ [])))
    ⊎ (((deref w w.buffer_add).frame_counter ≡ max_write_cmds) × (code ≡ 10) × (w' ≡ w))

-- In a valid state, addWriteCAN puts the frame behind all that wait and returns 0, if the buffer that
-- is added to holds fewer than 128 frames; if it holds 128, it returns ECMC_CAN_ERROR_WRITE_FULL and
-- changes nothing.
pub add_write_can-Adds : (f : Frame) (w : WriteBuffer) → IsValid w → Adds f w (add_write_can f w)
unfolding add_write_can
add_write_can-Adds f w v = ground (
  arith,
  add_buffer-grows w.first f v.first,
  add_buffer-grows w.second f v.second,
  append_assoc (contents w.first) (contents w.second) (f ∷ []),
  append_assoc (contents w.second) (contents w.first) (f ∷ []),
)

module _ {S : Type 0} (socket : Socket S) where
  -- The socket after a call of write() for each frame of a list.
  abbrev pub write_all : List Frame → S → S
  write_all [] s = s
  write_all (f ∷ fs) s = write_all fs (socket.write f s).1

  pub write_all-append :
      (fs gs : List Frame) (s : S) → write_all (fs ++ gs) s ≡ write_all gs (write_all fs s)
  write_all-append [] gs s = refl
  write_all-append (f ∷ fs) gs s = write_all-append fs gs (socket.write f s).1

  write_loop-writes :
      (n i : ℕ) (fs : List Frame) (e : ℕ) (s : S)
      → i + n ≤ length fs
      → (write_loop socket n i fs e s).1 ≡ write_all (take n (drop i fs)) s
  unfolding write_loop
  write_loop-writes zero i fs e s h = refl
  write_loop-writes (suc n) i fs e s h =
      rw (drop-get fs i zero_frame (omega arith), ← add-one i)
        (write_loop-writes n (i + 1) fs _ _ (omega arith))

  -- writeBuffer hands every frame of `*bufferWrite_` to write() once, oldest first, empties that
  -- buffer, and leaves the other one as it is.
  pub write_buffer-writes :
      (w : WriteBuffer) (s : S)
      → IsValid w
      → let (_, w', s') = write_buffer socket w s in
        (s' ≡ write_all (contents (deref w w.buffer_write)) s)
        × (pending w' ≡ contents (deref w w.buffer_add))
        × ((deref w' w'.buffer_write).frame_counter ≡ 0)
        × (w'.buffer_add ≡ w.buffer_add)
  unfolding write_buffer
  write_buffer-writes w s v = ground (
    arith,
    write_loop-writes w.first.frame_counter 0 w.first.frames w.last_write_sum_error s,
    write_loop-writes w.second.frame_counter 0 w.second.frames w.last_write_sum_error s,
  )

  -- One step of the worker thread: it writes a prefix of what waits, and loses nothing.
  pub worker_step-writes :
      (pc : WorkerPc) (w : WriteBuffer) (s : S)
      → IsValid w
      → AtPc pc w
      → let (_, w', s') = worker_step socket pc w s in
        (sent : List Frame) × (s' ≡ write_all sent s) × (sent ++ pending w' ≡ pending w)
  unfolding worker_step
  worker_step-writes at_top w s v p = ([], ground arith, ground arith)
  worker_step-writes at_switch w s v p =
      ([], refl, ground (arith, append-nil (contents w.first), append-nil (contents w.second)))
  worker_step-writes at_write w s v p = (
    contents (deref w w.buffer_write),
    ground (arith, write_buffer-writes w s v),
    ground (arith, write_buffer-writes w s v),
  )
  worker_step-writes returned w s v p = ([], refl, refl)

  -- Three steps from the top of the loop.
  abbrev round : WriteBuffer → S → WorkerPc × WriteBuffer × S
  round w s =
      let (pc1, w1, s1) = worker_step socket at_top w s in
      let (pc2, w2, s2) = worker_step socket pc1 w1 s1 in worker_step socket pc2 w2 s2

  -- A full round of a worker that is not told to stop empties the buffers.
  pub round-drains :
      (w : WriteBuffer) (s : S)
      → IsValid w
      → AtPc at_top w
      → w.destructs ≡ false
      → let (pc', w', s') = round w s in
        (s' ≡ write_all (pending w) s) × (pending w' ≡ []) × (pc' ≡ at_top)
  unfolding worker_step
  round-drains w s v p running =
      let w2 : WriteBuffer = switch_buffer (record w { write_busy = true }) in
      ground (arith, write_buffer-writes w2 s (switch_busy-IsValid w v))
