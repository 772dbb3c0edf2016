-- ===== src/Pdo/Execute.antt =====
-- How execute and newRxFrame of ecmcCANOpenPDO end.
use e3_ecmc_plugin_socketcan.Common.{ℕ, ◌+◌, ◌*◌, ◌≡◌, inl, inr, true, arith, leb, ◌==◌, Bool-cases}
use e3_ecmc_plugin_socketcan.Common.Memory.{Outcome, done}
use e3_ecmc_plugin_socketcan.Defs.{Direction-cases}
use e3_ecmc_plugin_socketcan.Frame.{Frame, IsFrame}
use e3_ecmc_plugin_socketcan.Sink.{FrameSink, put}
use e3_ecmc_plugin_socketcan.Pdo.{
  Pdo, execute, execute_read, execute_write, refresh_asyn_params, new_rx_frame,
}
use e3_ecmc_plugin_socketcan.Pdo.Values.{
  IsValid, data_frame, write_value_lem, new_rx_frame_lem, received, received-IsValid,
}

pub new_rx_frame-Ends :
    (f : Frame) (p : Pdo)
    → IsValid p
    → IsFrame f
    → (q : Pdo) × (new_rx_frame f p ≡ done q) × IsValid q
new_rx_frame-Ends f p v w = elim (new_rx_frame_lem f p v w) [
  | inl (_, e) ↦ (received f p, e, received-IsValid f p v w)
  | inr (_, e) ↦ (p, e, v)
]

refreshed-IsValid : (p : Pdo) → IsValid p → IsValid (refresh_asyn_params p)
unfolding refresh_asyn_params
refreshed-IsValid p v = ground arith

execute_read-IsValid : (p : Pdo) → IsValid p → IsValid (execute_read p)
unfolding execute_read
execute_read-IsValid p v = ground arith

recounted-IsValid : (n : ℕ) (p : Pdo) → IsValid p → IsValid (record p { exe_counter = n })
recounted-IsValid n p v = record {
  small = v.small;
  buffered = v.buffered;
  framed = v.framed;
  sized = v.sized;
  printable = v.printable;
}

module _ {B : Type 0} ⦃k : FrameSink B⦄ where
  -- A call of execute ended, in a state that is valid again.
  abbrev pub Ends : Outcome (Pdo × B) → Type 0
  Ends r = (q : Pdo) × (b : B) × (r ≡ done (q, b)) × IsValid q

  execute_write-Ends : (p : Pdo) (b : B) → IsValid p → Ends (execute_write p b)
  unfolding execute_write
  execute_write-Ends p b v = elim (Bool-cases (p.write_cycle_ms == 0)) [
    | inl z ↦ (record p { exe_counter = 0 }, b, rw z, recounted-IsValid 0 p v)
    | inr z ↦ elim (Bool-cases (leb p.write_cycle_ms (p.exe_counter * p.exe_sample_time_ms))) [
      | inr e ↦ (refresh_asyn_params p, b, rw (z, e), refreshed-IsValid p v)
      | inl e ↦
          let (sent, _, valid) = write_value_lem p b v in
          let p' : Pdo = record p { write_frame = data_frame p; refresh_needed = true } in
          (
            refresh_asyn_params (record p' { exe_counter = 0 }),
            put (data_frame p) b,
            rw (z, e, sent),
            refreshed-IsValid _ (recounted-IsValid 0 p' valid),
          )
    ]
  ]

  pub execute-Ends : (p : Pdo) (b : B) → IsValid p → Ends (execute p b)
  unfolding execute
  execute-Ends p b v =
      let q : Pdo = record p { exe_counter = p.exe_counter + 1 } in
      let vq : IsValid q = recounted-IsValid (p.exe_counter + 1) p v in
      elim (Direction-cases p.rw) [
        | inl r ↦ let (q', b', e, v') = execute_write-Ends q b vq in (q', b', ground (arith, e), v')
        | inr r ↦ (
          refresh_asyn_params (execute_read q),
          b,
          ground arith,
          refreshed-IsValid _ (execute_read-IsValid q vq),
        )
      ]
