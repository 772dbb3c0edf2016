-- ===== src/Pdo/Cycle.antt =====
-- The timeout of an ecmcCANOpenPDO that reads, over runs of calls of execute and newRxFrame.
pub mod Writes
use e3_ecmc_plugin_socketcan.Common.{
  ℕ, zero, suc, ◌+◌, ◌*◌, ◌≤◌, ◌<◌, ◌≡◌, refl, ◌∙◌, inl, inr, true, List, [], ◌∷◌, ◌++◌, arith,
  replicate, mul_below,
}
use e3_ecmc_plugin_socketcan.Common.Memory.{Outcome, done, ◌>>=◌, Outcome-cases}
use e3_ecmc_plugin_socketcan.Defs.{dir_write, dir_read}
use e3_ecmc_plugin_socketcan.Frame.{Frame, IsFrame}
use e3_ecmc_plugin_socketcan.Sink.{FrameSink, put}
use e3_ecmc_plugin_socketcan.Pdo.{Pdo, new_rx_frame, execute_read, execute, refresh_asyn_params}
use e3_ecmc_plugin_socketcan.Pdo.Values.{
  IsValid, received, received-IsValid, new_rx_frame_lem, data_frame, write_value_lem,
}

-- What happens to an object: the realtime thread calls execute, or the read thread newRxFrame.
pub data Event : Type 0 where
  tick : Event
  rx : Frame → Event

abbrev pub ticks : List Event → ℕ
ticks [] = 0
ticks (tick ∷ es) = suc (ticks es)
ticks (rx f ∷ es) = ticks es

abbrev pub AreFrames : List Event → Type 0
AreFrames [] = Unit {0}
AreFrames (tick ∷ es) = AreFrames es
AreFrames (rx f ∷ es) = IsFrame f × AreFrames es

module _ {B : Type 0} ⦃k : FrameSink B⦄ where
  unfoldable pub handle : Event → Pdo → B → Outcome (Pdo × B)
  handle tick p b = execute p b
  handle (rx f) p b = new_rx_frame f p >>= λ q. done (q, b)

  unfoldable pub run : List Event → Pdo → B → Outcome (Pdo × B)
  run [] p b = done (p, b)
  run (e ∷ es) p b = handle e p b >>= λ r. run es r.0 r.1

  -- What a step of a reading object leaves, below its timeout.
  record Waits (p : Pdo) (n : ℕ) (b : B) (r : Outcome (Pdo × B)) : Type 0 where
    object : Pdo
    result : r ≡ done (object, b)
    counter : object.exe_counter ≡ p.exe_counter + n
    valid : IsValid object
    reads : object.rw ≡ dir_read
    timeout : object.read_timeout_ms ≡ p.read_timeout_ms
    sample : object.exe_sample_time_ms ≡ p.exe_sample_time_ms

  tick-Waits :
      (p : Pdo) (b : B)
      → IsValid p
      → p.rw ≡ dir_read
      → (p.exe_counter + 1) * p.exe_sample_time_ms < p.read_timeout_ms
      → Waits p 1 b (execute p b)
  unfolding execute
  tick-Waits p b v r h = record {
    object = refresh_asyn_params (record p { exe_counter = p.exe_counter + 1 });
    result = ground arith;
    counter = ground arith;
    valid = ground arith;
    reads = ground arith;
    timeout = ground arith;
    sample = ground arith;
  }

  rx-Waits :
      (f : Frame) (p : Pdo) (b : B)
      → IsValid p
      → p.rw ≡ dir_read
      → IsFrame f
      → Waits p 0 b (new_rx_frame f p >>= λ q. done (q, b))
  rx-Waits f p b v r w = elim (new_rx_frame_lem f p v w) [
    | inl (_, e) ↦ record {
      object = received f p;
      result = rw e;
      counter = omega arith;
      valid = received-IsValid f p v w;
      reads = r;
      timeout = refl;
      sample = refl;
    }
    | inr (_, e) ↦ record {
      object = p;
      result = rw e;
      counter = omega arith;
      valid = v;
      reads = r;
      timeout = refl;
      sample = refl;
    }
  ]

  -- One Waits after another.
  Waits-then :
      (p : Pdo) (m n t : ℕ) (b : B) (r : Outcome (Pdo × B)) (rest : Pdo × B → Outcome (Pdo × B))
      → m + n ≡ t
      → (w : Waits p m b r) → Waits w.object n b (rest (w.object, b))
      → Waits p t b (r >>= rest)
  Waits-then p m n t b r rest e w u = record {
    object = u.object;
    result = rw w.result u.result;
    counter = omega (arith, u.counter, w.counter);
    valid = u.valid;
    reads = u.reads;
    timeout = u.timeout ∙ w.timeout;
    sample = u.sample ∙ w.sample;
  }

  run-Waits :
      (es : List Event) (p : Pdo) (b : B)
      → IsValid p
      → p.rw ≡ dir_read
      → AreFrames es
      → (p.exe_counter + ticks es) * p.exe_sample_time_ms < p.read_timeout_ms
      → Waits p (ticks es) b (run es p b)
  unfolding run handle
  run-Waits [] p b v r fs h = record {
    object = p;
    result = refl;
    counter = omega arith;
    valid = v;
    reads = r;
    timeout = refl;
    sample = refl;
  }
  run-Waits (tick ∷ es) p b v r fs h =
      let below : (p.exe_counter + 1) * p.exe_sample_time_ms < p.read_timeout_ms =
        mul_below (p.exe_counter + 1) (p.exe_counter + suc (ticks es)) p.exe_sample_time_ms
          p.read_timeout_ms (omega arith) h in
      let w = tick-Waits p b v r below in
      let c : w.object.exe_counter + ticks es ≡ p.exe_counter + suc (ticks es) =
        omega (arith, w.counter) in
      Waits-then p 1 (ticks es) _ b (execute p b) _ (omega arith) w
        (run-Waits es w.object b w.valid w.reads fs (rw (c, w.sample, w.timeout) h))
  run-Waits (rx f ∷ es) p b v r fs h =
      let w = rx-Waits f p b v r fs.0 in
      let c : w.object.exe_counter + ticks es ≡ p.exe_counter + ticks es =
        omega (arith, w.counter) in
      Waits-then p 0 (ticks es) _ b (new_rx_frame f p >>= λ q. done (q, b)) _ (omega arith) w
        (run-Waits es w.object b w.valid w.reads fs.1 (rw (c, w.sample, w.timeout) h))

  pub run-append :
      (es fs : List Event) (p : Pdo) (b : B)
      → run (es ++ fs) p b ≡ (run es p b >>= λ r. run fs r.0 r.1)
  unfolding run
  run-append [] fs p b = refl
  run-append (e ∷ es) fs p b = elim (Outcome-cases (handle e p b)) [
    | inl (x, h) ↦ rw h (run-append es fs x.0 x.1)
    | inr h ↦ rw h
  ]

  expired-tick :
      (p : Pdo) (b : B)
      → p.rw ≡ dir_read
      → p.read_timeout_ms ≤ (p.exe_counter + 1) * p.exe_sample_time_ms
      → (q : Pdo) × (run (tick ∷ []) p b ≡ done (q, b))
        × (q.error_code ≡ 100)
        × (q.error_param ≡ 100)
        × (q.exe_counter ≡ 0)
  unfolding run handle execute
  expired-tick p b r h = (
    refresh_asyn_params (execute_read (record p { exe_counter = p.exe_counter + 1 })),
    ground arith,
    ground arith,
    ground arith,
    ground arith,
  )

  -- The read timeout of a valid reading object counts calls of execute alone. From a fresh count, the call with which the
  -- time counted reaches the timeout reports ECMC_CAN_ERROR_PDO_TIMEOUT and starts the count
  -- anew, however many frames for the object came in between; before it, nothing is counted
  -- away.
  pub timeout_counts_ticks :
      (es : List Event) (p : Pdo) (b : B)
      → IsValid p
      → p.rw ≡ dir_read
      → p.exe_counter ≡ 0
      → AreFrames es
      → ticks es * p.exe_sample_time_ms < p.read_timeout_ms
      → p.read_timeout_ms ≤ (ticks es + 1) * p.exe_sample_time_ms
      → (q : Pdo) × (run (es ++ tick ∷ []) p b ≡ done (q, b))
        × (q.error_code ≡ 100)
        × (q.error_param ≡ 100)
        × (q.exe_counter ≡ 0)
  timeout_counts_ticks es p b v r c fs below reached =
      let z : p.exe_counter + ticks es ≡ ticks es = omega arith in
      let w = run-Waits es p b v r fs (rw z below) in
      let d : w.object.exe_counter + 1 ≡ ticks es + 1 = omega (arith, w.counter) in
      let q = expired-tick w.object b w.reads (rw (d, w.sample, w.timeout) reached) in
      (q.0, run-append es (tick ∷ []) p b ∙ rw w.result q.1, q.2, q.3, q.4)
