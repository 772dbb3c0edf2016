-- ===== src/Pdo/Sends.antt =====
-- ecmcCANOpenPDO changes the write buffer only by calls of its addWriteCAN.
use e3_ecmc_plugin_socketcan.Common.{List, ℕ, ◌+◌, ltb, arith, if◌then◌else◌, inl, inr}
use e3_ecmc_plugin_socketcan.Common.Memory.{done, memcpy, Outcome-cases}
use e3_ecmc_plugin_socketcan.Common.{length}
use e3_ecmc_plugin_socketcan.Common.Bytes.{le_bytes, of_le_bytes}
use e3_ecmc_plugin_socketcan.Frame.{Frame}
use e3_ecmc_plugin_socketcan.Sink.{FrameSink}
use e3_ecmc_plugin_socketcan.Sink.Sends.{Leaves, bind-Leaves, then-Leaves}
use e3_ecmc_plugin_socketcan.Pdo.{
  Pdo, write_value, execute, execute_write, refresh_asyn_params, set_value, asyn_write_pdo_value,
}

module _ {B : Type 0} ⦃k : FrameSink B⦄ (P : B → Type 0)
    (closed : (f : Frame) (b : B) → P b → P (k.add_write_can f b).1) where
  write_value-Leaves : (p : Pdo) (b : B) → P b → Leaves P (λ r. r.2) (write_value p b)
  unfolding write_value
  write_value-Leaves p b h =
      let dlc = p.write_frame.can_dlc in
      let copied =
        (if ltb 0 dlc
          then memcpy p.write_frame.payload 0 p.data_buffer 0 dlc
          else done p.write_frame.payload) in
      elim (Outcome-cases copied) [
        | inl (payload, e) ↦
            ground (arith, e, closed (record (p.write_frame) { payload = payload }) b h)
        | inr e ↦ ground (arith, e)
      ]

  pub execute-Leaves : (p : Pdo) (b : B) → P b → Leaves P (λ r. r.1) (execute p b)
  unfolding execute execute_write
  execute-Leaves p b h =
      let q : Pdo = record p { exe_counter = p.exe_counter + 1 } in
      ground (
        arith,
        then-Leaves P (λ (r : ℕ × Pdo × B). r.2) (λ (r : Pdo × B). r.1) (write_value q b)
            (λ r. done (refresh_asyn_params (record (r.1) { exe_counter = 0 }), r.2))
            (write_value-Leaves q b h) (λ (r : ℕ × Pdo × B) (c : P r.2). c),
      )

  pub asyn_write-Leaves :
      (value : List ℕ) (p : Pdo) (b : B)
      → P b
      → Leaves P (λ r. r.1) (asyn_write_pdo_value value p b)
  unfolding asyn_write_pdo_value
  asyn_write-Leaves value p b h =
      bind-Leaves P (λ r. r.1)
        (memcpy (le_bytes 8 0) 0 value 0 (if ltb 8 (length value) then 8 else length value)) _
        (λ (temp : List ℕ).
          bind-Leaves P (λ r. r.1) (set_value (of_le_bytes temp) p) _
            (λ (q : Pdo).
              then-Leaves P (λ r. r.2) (λ r. r.1) (write_value q b) _ (write_value-Leaves q b h)
                (λ (r : ℕ × Pdo × B) (c : P r.2). c)))
