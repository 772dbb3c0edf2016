-- ===== src/WriteBuffer.antt =====
-- ecmc_plugin_socketcanApp/src/ecmcSocketCANWriteBuffer.{h,cpp}: the double buffer between the
-- callers of addWriteCAN and the thread that writes to the socket.
-- An `int` error code is a number. The socket's write() is the parameter `Socket`, as the errno or
-- the number of bytes that a call returns. Printouts and the 2 ms pause are left out.
pub mod Invariant
pub mod Errors
pub mod Order
pub mod Run
pub mod Tests
use e3_ecmc_plugin_socketcan.Common.{
  ℕ, zero, suc, ◌+◌, ◌≡◌, Bool, true, false, not, Option, none, some, List, [], ◌∷◌, arith, ltb,
  leb, ◌==◌, if◌then◌else◌, length, get_or, set, take, replicate,
}
use e3_ecmc_plugin_socketcan.Common.Attempt.{Attempt, ok, thrown, runtime_error}
use e3_ecmc_plugin_socketcan.Frame.{Frame, zero_frame}

abbrev pub max_write_cmds : ℕ
max_write_cmds = 128

abbrev pub error_write_full : ℕ
error_write_full = 10

abbrev pub error_write_no_data : ℕ
error_write_no_data = 12

abbrev pub error_write_incomplete : ℕ
error_write_incomplete = 13

-- sizeof(struct can_frame)
abbrev pub frame_size : ℕ
frame_size = 16

-- What a call of write() returns: -1 with errno set, or a number of bytes.
pub data WriteReply : Type 0 where
  failed : ℕ → WriteReply
  wrote : ℕ → WriteReply

pub record Socket (S : Type 0) : Type 0 where
  pub write : Frame → S → WriteReply × S

pub record CanWriteBuffer : Type 0 where
  pub frames : List Frame
  pub frame_counter : ℕ

-- The value of the pointers `bufferAdd_` and `bufferWrite_`.
pub data BufferId : Type 0 where
  buffer1 buffer2 : BufferId

pub record WriteBuffer : Type 0 where
  pub first : CanWriteBuffer
  pub second : CanWriteBuffer
  pub buffer_add : BufferId
  pub buffer_write : BufferId
  pub write_busy : Bool
  pub last_write_sum_error : ℕ
  pub destructs : Bool

-- The buffer that a pointer points to, and a write through the pointer.
abbrev pub deref : WriteBuffer → BufferId → CanWriteBuffer
deref w buffer1 = w.first
deref w buffer2 = w.second

abbrev pub assign : WriteBuffer → BufferId → CanWriteBuffer → WriteBuffer
assign w buffer1 b = record w { first = b }
assign w buffer2 b = record w { second = b }

abbrev empty_buffer : CanWriteBuffer
empty_buffer = record { frames = replicate max_write_cmds zero_frame; frame_counter = 0 }

pub new_write_buffer : WriteBuffer
new_write_buffer = record {
  first = empty_buffer;
  second = empty_buffer;
  buffer_add = buffer1;
  buffer_write = buffer2;
  write_busy = false;
  last_write_sum_error = 0;
  destructs = false;
}

-- The constructor, by whether the write thread can be created.
unfoldable pub construct_write_buffer : Bool → Attempt WriteBuffer
construct_write_buffer write_thread =
    if write_thread then ok new_write_buffer else thrown runtime_error

-- Appends to `*bufferAdd_`, unless that is full.
unfoldable pub add_to_buffer : Frame → WriteBuffer → ℕ × WriteBuffer
add_to_buffer frame w =
    let b = deref w w.buffer_add in
    if leb max_write_cmds b.frame_counter then (error_write_full, w) else (
      0,
      assign w w.buffer_add (record {
        frames = set b.frames b.frame_counter frame;
        frame_counter = b.frame_counter + 1;
      }),
    )

-- addWriteCAN(can_frame*): the mutex makes it one step.
unfoldable pub add_write_can : Frame → WriteBuffer → ℕ × WriteBuffer
unfolding add_to_buffer
add_write_can frame w = add_to_buffer frame w

-- addWriteCAN(canId, len, data0, .., data7)
unfoldable pub add_write_can_bytes :
    ℕ → ℕ → ℕ → ℕ → ℕ → ℕ → ℕ → ℕ → ℕ → ℕ → WriteBuffer → ℕ × WriteBuffer
unfolding add_write_can
add_write_can_bytes can_id len d0 d1 d2 d3 d4 d5 d6 d7 w =
    add_write_can
      (record {
        can_id = can_id;
        can_dlc = len;
        payload = d0 ∷ d1 ∷ d2 ∷ d3 ∷ d4 ∷ d5 ∷ d6 ∷ d7 ∷ [];
      })
      w

pub getlast_writes_error_and_reset : WriteBuffer → ℕ × WriteBuffer
getlast_writes_error_and_reset w = (w.last_write_sum_error, record w { last_write_sum_error = 0 })

pub switch_buffer : WriteBuffer → WriteBuffer
switch_buffer w = record w { buffer_write = w.buffer_add; buffer_add = w.buffer_write }

-- The destructor: the worker stops at its next test.
pub destruct : WriteBuffer → WriteBuffer
destruct w = record w { destructs = true }

-- The thread that runs doWriteWorker stands at the top of its loop, between the test for frames
-- and the switch, or between the switch and the writing; or it has returned.
pub data WorkerPc : Type 0 where
  at_top at_switch at_write returned : WorkerPc

write_code : WriteReply → ℕ
write_code (failed errno) = errno
write_code (wrote nbytes) = if nbytes == frame_size then 0 else error_write_incomplete

module _ {S : Type 0} (socket : Socket S) where
  -- `none` is a null pointer.
  unfoldable pub write_can : Option Frame → S → ℕ × S
  unfolding write_code
  write_can none s = (error_write_no_data, s)
  write_can (some frame) s = let (reply, s') = socket.write frame s in (write_code reply, s')

  -- The loop of writeBuffer: `n` rounds are left, and the index is `i`.
  unfoldable pub write_loop : ℕ → ℕ → List Frame → ℕ → S → ℕ × S
  unfolding write_can
  write_loop zero i frames sum_error s = (sum_error, s)
  write_loop (suc n) i frames sum_error s =
      let (error_code, s') = write_can (some (get_or frames i zero_frame)) s in
      write_loop n (i + 1) frames (if error_code == 0 then sum_error else error_code) s'

  -- Writes all of `*bufferWrite_` to the socket, and empties it.
  unfoldable pub write_buffer : WriteBuffer → S → ℕ × WriteBuffer × S
  unfolding write_loop
  write_buffer w s =
      let b = deref w w.buffer_write in
      let (sum_error, s') = write_loop b.frame_counter 0 b.frames w.last_write_sum_error s in
      let w' = assign w w.buffer_write (record b { frame_counter = 0 }) in
      if b.frame_counter == 0
      then (0, w, s)
      else (sum_error, record w' { last_write_sum_error = sum_error }, s')

  -- doWriteWorker, cut where another thread can come between: the loop's tests, the switch, and
  -- the writing, which touches `*bufferWrite_` alone.
  unfoldable pub worker_step : WorkerPc → WriteBuffer → S → WorkerPc × WriteBuffer × S
  unfolding write_buffer switch_buffer
  worker_step at_top w s =
      if w.destructs
      then (returned, w, s)
      else (if w.write_busy
          then (at_top, w, s)
          else (if (deref w w.buffer_add).frame_counter == 0
              then (at_top, w, s)
              else (at_switch, record w { write_busy = true }, s)))
  worker_step at_switch w s = (at_write, switch_buffer w, s)
  worker_step at_write w s =
      let (code, w', s') = write_buffer w s in (at_top, record w' { write_busy = false }, s')
  worker_step returned w s = (returned, w, s)
