-- ===== src/Pdo/Cycle/Writes.antt =====
-- The write cycle of an ecmcCANOpenPDO.
use e3_ecmc_plugin_socketcan.Common.{
  ℕ, zero, suc, ◌+◌, ◌*◌, ◌≤◌, ◌<◌, ◌≡◌, refl, ◌∙◌, true, [], ◌∷◌, ◌++◌, arith, replicate,
  mul_below,
}
use e3_ecmc_plugin_socketcan.Common.Memory.{Outcome, done}
use e3_ecmc_plugin_socketcan.Defs.{dir_write}
use e3_ecmc_plugin_socketcan.Sink.{FrameSink, put}
use e3_ecmc_plugin_socketcan.Pdo.{Pdo, execute, refresh_asyn_params}
use e3_ecmc_plugin_socketcan.Pdo.Values.{IsValid, data_frame, write_value_lem}
use e3_ecmc_plugin_socketcan.Pdo.Cycle.{tick, handle, run, run-append}

module _ {B : Type 0} ⦃k : FrameSink B⦄ where
  -- What `n` calls of execute leave of an object that writes in a cycle, before the cycle is over.
  record Idles (p : Pdo) (n : ℕ) (b : B) (r : Outcome (Pdo × B)) : Type 0 where
    object : Pdo
    result : r ≡ done (object, b)
    counter : object.exe_counter ≡ p.exe_counter + n
    valid : IsValid object
    writes : object.rw ≡ dir_write
    cycle : object.write_cycle_ms ≡ p.write_cycle_ms
    sample : object.exe_sample_time_ms ≡ p.exe_sample_time_ms
    same : data_frame object ≡ data_frame p

  tick-Idles :
      (p : Pdo) (b : B)
      → IsValid p
      → p.rw ≡ dir_write
      → (p.exe_counter + 1) * p.exe_sample_time_ms < p.write_cycle_ms
      → Idles p 1 b (execute p b)
  unfolding execute
  tick-Idles p b v r h = record {
    object = refresh_asyn_params (record p { exe_counter = p.exe_counter + 1 });
    result = ground arith;
    counter = ground arith;
    valid = ground arith;
    writes = ground arith;
    cycle = ground arith;
    sample = ground arith;
    same = ground arith;
  }

  run-Idles :
      (n : ℕ) (p : Pdo) (b : B)
      → IsValid p
      → p.rw ≡ dir_write
      → (p.exe_counter + n) * p.exe_sample_time_ms < p.write_cycle_ms
      → Idles p n b (run (replicate n tick) p b)
  unfolding run handle
  run-Idles zero p b v r h = record {
    object = p;
    result = refl;
    counter = omega arith;
    valid = v;
    writes = r;
    cycle = refl;
    sample = refl;
    same = refl;
  }
  run-Idles (suc n) p b v r h =
      let below : (p.exe_counter + 1) * p.exe_sample_time_ms < p.write_cycle_ms =
        mul_below (p.exe_counter + 1) (p.exe_counter + suc n) p.exe_sample_time_ms p.write_cycle_ms
          (omega arith) h in
      let w = tick-Idles p b v r below in
      let c : w.object.exe_counter + n ≡ p.exe_counter + suc n = omega (arith, w.counter) in
      let u = run-Idles n w.object b w.valid w.writes (rw (c, w.sample, w.cycle) h) in
      record {
        object = u.object;
        result = rw w.result u.result;
        counter = omega (arith, u.counter, w.counter);
        valid = u.valid;
        writes = u.writes;
        cycle = u.cycle ∙ w.cycle;
        sample = u.sample ∙ w.sample;
        same = u.same ∙ w.same;
      }

  due-tick :
      (p : Pdo) (b : B)
      → IsValid p
      → p.rw ≡ dir_write
      → 0 < p.write_cycle_ms
      → p.write_cycle_ms ≤ (p.exe_counter + 1) * p.exe_sample_time_ms
      → (q : Pdo) × (run (tick ∷ []) p b ≡ done (q, put (data_frame p) b))
        × (q.exe_counter ≡ 0)
        × (q.data_buffer ≡ p.data_buffer)
  unfolding run handle execute
  due-tick p b v r pos h =
      let p' : Pdo = record p { exe_counter = p.exe_counter + 1 } in
      let v' : IsValid p' = ground arith in
      (
        refresh_asyn_params
            (record p' { write_frame = data_frame p'; refresh_needed = true; exe_counter = 0 }),
        ground (arith, (write_value_lem p' b v').0),
        ground arith,
        ground arith,
      )

  -- A valid PDO with a write cycle sends its data once in a cycle: from a fresh count, the calls of
  -- execute send nothing until the time counted reaches the cycle, and the call that reaches it
  -- sends exactly one frame, with the id, the length and the data of the object.
  pub write_cycle_sends_once :
      (n : ℕ) (p : Pdo) (b : B)
      → IsValid p
      → p.rw ≡ dir_write
      → p.exe_counter ≡ 0
      → n * p.exe_sample_time_ms < p.write_cycle_ms
      → p.write_cycle_ms ≤ (n + 1) * p.exe_sample_time_ms
      → (q : Pdo) × (q' : Pdo) × (run (replicate n tick) p b ≡ done (q, b))
        × (run (replicate n tick ++ tick ∷ []) p b ≡ done (q', put (data_frame p) b))
        × (q'.exe_counter ≡ 0)
  write_cycle_sends_once n p b v r c below reached =
      let z : p.exe_counter + n ≡ n = omega arith in
      let w = run-Idles n p b v r (rw z below) in
      let d : w.object.exe_counter + 1 ≡ n + 1 = omega (arith, w.counter) in
      let q =
        due-tick w.object b w.valid w.writes (rw w.cycle (omega arith))
          (rw (d, w.sample, w.cycle) reached) in
      (
        w.object,
        q.0,
        w.result,
        run-append (replicate n tick) (tick ∷ []) p b ∙ rw (w.result, ← w.same) q.1,
        q.2,
      )
