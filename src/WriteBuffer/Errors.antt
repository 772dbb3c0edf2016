-- ===== src/WriteBuffer/Errors.antt =====
-- The error that ecmcSocketCANWriteBuffer reports: the code of the last write() that failed.
use native.Mathlib.Numerals.{add-one}
use e3_ecmc_plugin_socketcan.Common.{
  ℕ, zero, suc, ◌+◌, ◌≤◌, ◌≡◌, refl, ◌∙◌, some, List, [], ◌∷◌, arith, length, take, drop, drop-get,
  get_or, ◌==◌, if◌then◌else◌,
}
use e3_ecmc_plugin_socketcan.Frame.{Frame, zero_frame}
use e3_ecmc_plugin_socketcan.WriteBuffer.{
  Socket, WriteReply, failed, wrote, WriteBuffer, deref, getlast_writes_error_and_reset, write_code,
  write_can, write_loop, write_buffer,
}
use e3_ecmc_plugin_socketcan.WriteBuffer.Invariant.{contents, IsValid}

-- The last code of a list that reports an error, or else the one before.
abbrev pub last_error : ℕ → List ℕ → ℕ
last_error e [] = e
last_error e (zero ∷ cs) = last_error e cs
last_error e (suc c ∷ cs) = last_error (suc c) cs

-- The error code that a reply of write() stands for.
abbrev pub reply_error : WriteReply → ℕ
reply_error (failed errno) = errno
reply_error (wrote nbytes) = if nbytes == 16 then 0 else 13

module _ {S : Type 0} (socket : Socket S) where
  abbrev pub reply_errors : List Frame → S → List ℕ
  reply_errors [] s = []
  reply_errors (f ∷ fs) s = reply_error (socket.write f s).0 ∷ reply_errors fs (socket.write f s).1

  write_can-code :
      (f : Frame) (s : S) → (write_can socket (some f) s).0 ≡ reply_error (socket.write f s).0
  unfolding write_can write_code
  write_can-code f s = ground arith

  keep_or_replace :
      (e c : ℕ) (cs : List ℕ) → last_error (if c == 0 then e else c) cs ≡ last_error e (c ∷ cs)
  keep_or_replace e zero cs = refl
  keep_or_replace e (suc c) cs = ground arith

  write_loop-error :
      (n i : ℕ) (fs : List Frame) (e : ℕ) (s : S)
      → i + n ≤ length fs
      → (write_loop socket n i fs e s).0 ≡ last_error e (reply_errors (take n (drop i fs)) s)
  unfolding write_loop write_code
  write_loop-error zero i fs e s h = refl
  write_loop-error (suc n) i fs e s h =
      let f = get_or fs i zero_frame in
      write_loop-error n (i + 1) fs _ _ (omega arith)
      ∙ rw (drop-get fs i zero_frame (omega arith), ← add-one i)
          (ground (
            arith,
            write_can-code f s,
            keep_or_replace e (write_can socket (some f) s).0
                (reply_errors (take n (drop (i + 1) fs)) (socket.write f s).1),
          ))

  -- From a valid state, after writeBuffer the reported error is that of the last frame whose write() failed or was
  -- incomplete, or else the one from before; asking for it returns it once and resets it to 0.
  pub write_buffer-error :
      (w : WriteBuffer) (s : S)
      → IsValid w
      → let (_, w', _) = write_buffer socket w s in
        let (code, w'') = getlast_writes_error_and_reset w' in
        (code
          ≡ last_error w.last_write_sum_error (reply_errors (contents (deref w w.buffer_write)) s))
        × ((getlast_writes_error_and_reset w'').0 ≡ 0)
        × (deref w'' w''.buffer_add ≡ deref w w.buffer_add)
  unfolding write_buffer getlast_writes_error_and_reset
  write_buffer-error w s v = ground (
    arith,
    write_loop-error w.first.frame_counter 0 w.first.frames w.last_write_sum_error s,
    write_loop-error w.second.frame_counter 0 w.second.frames w.last_write_sum_error s,
  )
