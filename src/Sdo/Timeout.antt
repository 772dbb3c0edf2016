-- ===== src/Sdo/Timeout.antt =====
-- The busy timeout of ecmcCANOpenSDO::execute.
use e3_ecmc_plugin_socketcan.Common.{
  ℕ, zero, suc, ◌+◌, ◌<◌, ◌≡◌, refl, sym, subst, ◌∙◌, inr, true, false, arith, replicate,
}
use e3_ecmc_plugin_socketcan.Common.Memory.{done, ◌>>=◌, done-injective}
use e3_ecmc_plugin_socketcan.Defs.{dir_read, dir_write, read_idle, write_wait_for_conf}
use e3_ecmc_plugin_socketcan.Sink.{FrameSink}
use e3_ecmc_plugin_socketcan.SdoFrames.{write_req_transfer_frame}
use e3_ecmc_plugin_socketcan.Sdo.{Sdo, Shared, Result, refresh_asyn_params}
use e3_ecmc_plugin_socketcan.Sdo.Methods.{send, count_busy, write_if_pending, sample_read, execute}
use e3_ecmc_plugin_socketcan.Sdo.Invariant.{IsValid}
use e3_ecmc_plugin_socketcan.Sdo.Steps.{
  cancelled, cancelled-IsValid, cancel_on_timeout-late, cancel_on_timeout-early, requested,
  write_value-free, execute-Ends,
}

module _ {B : Type 0} ⦃k : FrameSink B⦄ where
  -- Calls of execute with no frame in between.
  pub executes : ℕ → Sdo → Shared B → Result B
  executes zero s w = done (s, w)
  executes (suc n) s w = execute s w >>= λ r. executes n r.0 r.1

  -- A call of execute on a busy reading object, before the timeout.
  record Waited (s : Sdo) (w : Shared B) (r : Result B) : Type 0 where
    object : Sdo
    result : r ≡ done (object, w)
    valid : IsValid B object w
    busy : object.busy ≡ true
    reads : object.rw ≡ dir_read
    counter : object.busy_counter ≡ s.busy_counter + 1
    sample : object.read_sample_time_ms ≡ s.read_sample_time_ms

  execute-Waited :
      (s : Sdo) (w : Shared B)
      → IsValid B s w
      → s.busy ≡ true
      → s.rw ≡ dir_read
      → s.busy_counter < 1000
      → Waited s w (execute s w)
  unfolding execute write_if_pending sample_read count_busy
  execute-Waited s w v b r h =
      let s1 : Sdo = count_busy s in
      let o : Sdo = (sample_read s1 w).0 in
      let e : execute s w ≡ done (o, w) = ground (arith, cancel_on_timeout-early s w (inr h)) in
      let x = execute-Ends s w v in
      record {
        object = o;
        result = e;
        valid =
            subst (λ (p : Sdo × Shared B). IsValid B p.0 p.1) (done-injective (sym x.2 ∙ e)) x.3;
        busy = ground arith;
        reads = ground arith;
        counter = ground arith;
        sample = ground arith;
      }

  execute-times_out :
      (s : Sdo) (w : Shared B)
      → IsValid B s w
      → s.busy ≡ true
      → s.rw ≡ dir_read
      → s.busy_counter ≡ 1000
      → 0 < s.read_sample_time_ms
      → (s' : Sdo) × (execute s w ≡ done (s', record w { sdo1_lock = false }))
        × (s'.busy ≡ false)
        × (s'.read_state ≡ read_idle)
        × (s'.error_code ≡ 111)
        × (s'.error_param ≡ 111)
  unfolding execute write_if_pending sample_read
  execute-times_out s w v b r c pos = (
    refresh_asyn_params (record (cancelled s) { exe_counter = 1 }),
    ground (arith, cancel_on_timeout-late s w v b c, v.in_step.only_writes r),
    ground arith,
    ground arith,
    ground arith,
    ground arith,
  )

  -- A slave that stops answering does not hold the bus for ever. A reading object, with a read sample
  -- time above 0 (with 0 the cancelling call would take the lock again), that has been
  -- busy for c calls of execute is cancelled by call number 1001 - c, if no frame comes: then it is
  -- idle, the lock is free, and the error is ECMC_CAN_ERROR_SDO_TIMEOUT. The limit counts calls, at
  -- whatever period, and nothing has been sent in between.
  pub timeout_releases :
      (n : ℕ) (s : Sdo) (w : Shared B)
      → IsValid B s w
      → s.busy ≡ true
      → s.rw ≡ dir_read
      → s.busy_counter + n ≡ 1000
      → 0 < s.read_sample_time_ms
      → (s' : Sdo) × (executes (suc n) s w ≡ done (s', record w { sdo1_lock = false }))
        × (s'.busy ≡ false)
        × (s'.read_state ≡ read_idle)
        × (s'.error_code ≡ 111)
        × (s'.error_param ≡ 111)
  unfolding executes
  timeout_releases zero s w v b r c pos =
      let t = execute-times_out s w v b r (omega arith) pos in (t.0, rw t.1, t.2, t.3, t.4, t.5)
  timeout_releases (suc n) s w v b r c pos =
      let u = execute-Waited s w v b r (omega arith) in
      let t =
        timeout_releases n u.object w u.valid u.busy u.reads (omega (arith, u.counter))
          (rw u.sample pos) in
      (t.0, rw u.result t.1, t.2, t.3, t.4, t.5)

  -- A write that waits behind a transfer which times out is lost: the cancelling call of execute
  -- clears the waiting value, and at once starts to write zeros in its place.
  pub timeout_writes_zeros :
      (s : Sdo) (w : Shared B)
      → IsValid B s w
      → s.rw ≡ dir_write
      → s.busy ≡ true
      → s.busy_counter ≡ 1000
      → s.write_pending ≡ true
      → (s' : Sdo) × (execute s w
          ≡ done (s', send (write_req_transfer_frame s.config) (record w { sdo1_lock = true })))
        × (s'.data_buffer ≡ replicate s.od_size 0)
        × (s'.write_state ≡ write_wait_for_conf)
        × (s'.write_pending ≡ false)
  unfolding execute write_if_pending refresh_asyn_params
  timeout_writes_zeros s w v r b c p =
      let w0 : Shared B = record w { sdo1_lock = false } in
      let started = write_value-free (cancelled s) w0 (cancelled-IsValid s w v) refl refl in
      (
        refresh_asyn_params (requested (cancelled s)),
        ground (arith, cancel_on_timeout-late s w v b c, started),
        ground arith,
        ground arith,
        ground arith,
      )
