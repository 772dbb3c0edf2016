-- ===== src/Sdo/Steps.antt =====
-- execute and writeValue of ecmcCANOpenSDO, step by step.
use e3_ecmc_plugin_socketcan.Common.{
  ℕ, ◌≤◌, ◌<◌, ◌≡◌, ◌⊎◌, inl, inr, true, false, arith, ltb, length-replicate, Bool-cases, ltb→lt,
  replicate,
}
use e3_ecmc_plugin_socketcan.Common.Memory.{done, memcpy-all, memset-all}
use e3_ecmc_plugin_socketcan.Defs.{
  dir_write, dir_read, Direction-cases, read_idle, write_idle, write_wait_for_conf,
}
use e3_ecmc_plugin_socketcan.Sink.{FrameSink}
use e3_ecmc_plugin_socketcan.SdoFrames.{write_req_transfer_frame}
use e3_ecmc_plugin_socketcan.Sdo.{Sdo, Shared, CodeResult, refresh_asyn_params}
use e3_ecmc_plugin_socketcan.Sdo.Methods.{
  send, execute, write_value, cancel_on_timeout, write_if_pending, sample_read, count_busy,
}
use e3_ecmc_plugin_socketcan.Sdo.Invariant.{IsValid, Ends}

-- The object whose transfer has been cancelled.
abbrev pub cancelled : Sdo → Sdo
cancelled s = record s {
  temp_data_buffer = replicate s.od_size 0;
  read_state = read_idle;
  write_state = write_idle;
  exe_counter = 0;
  busy_counter = 0;
  error_code = 111;
  error_param = 111;
  busy = false;
}

late_or_early :
    (s : Sdo)
    → s.busy_counter ≤ 1000
    → ((s.busy ≡ true) × (s.busy_counter ≡ 1000)) ⊎ ((s.busy ≡ false) ⊎ (s.busy_counter < 1000))
late_or_early s h = elim (Bool-cases s.busy) [
  | inl b ↦ elim (Bool-cases (ltb s.busy_counter 1000)) [
    | inl e ↦ inr (inr (ltb→lt _ _ e))
    | inr e ↦ inl (b, ground arith)
  ]
  | inr b ↦ inr (inl b)
]

-- The object after writeValue has sent its request.
abbrev pub requested : Sdo → Sdo
requested s = record s {
  busy = true;
  write_pending = false;
  data_buffer = s.temp_data_buffer;
  write_state = write_wait_for_conf;
}

module _ {B : Type 0} ⦃k : FrameSink B⦄ where
  pub cancel_on_timeout-late :
      (s : Sdo) (w : Shared B)
      → IsValid B s w
      → s.busy ≡ true
      → s.busy_counter ≡ 1000
      → cancel_on_timeout (count_busy s) w ≡ done (cancelled s, record w { sdo1_lock = false })
  unfolding cancel_on_timeout count_busy
  cancel_on_timeout-late s w v b c =
      ground (arith, memset-all s.temp_data_buffer 0 s.od_size v.sizes.temp)

  pub cancel_on_timeout-early :
      (s : Sdo) (w : Shared B)
      → (s.busy ≡ false) ⊎ (s.busy_counter < 1000)
      → cancel_on_timeout (count_busy s) w ≡ done (count_busy s, w)
  unfolding cancel_on_timeout count_busy
  cancel_on_timeout-early s w h = ground arith

  pub cancelled-IsValid :
      (s : Sdo) (w : Shared B)
      → IsValid B s w
      → IsValid B (cancelled s) (record w { sdo1_lock = false })
  cancelled-IsValid s w v = record {
    sizes = record {
      small = v.sizes.small;
      buffered = v.sizes.buffered;
      temp = length-replicate s.od_size 0;
      framed = v.sizes.framed;
      addressed = v.sizes.addressed;
      recived = v.sizes.recived;
      written = v.sizes.written;
      printable = v.sizes.printable;
    };
    in_step = ground arith;
    holds = λ e. cc;
  }

  count_busy-IsValid :
      (s : Sdo) (w : Shared B)
      → IsValid B s w
      → (s.busy ≡ false) ⊎ (s.busy_counter < 1000)
      → IsValid B (count_busy s) w
  unfolding count_busy
  count_busy-IsValid s w v h = ground arith

  pub cancel_on_timeout-Ends :
      (s : Sdo) (w : Shared B) → IsValid B s w → Ends (cancel_on_timeout (count_busy s) w)
  cancel_on_timeout-Ends s w v = elim (late_or_early s v.in_step.counted) [
    | inl (b, c) ↦ (
      cancelled s,
      record w { sdo1_lock = false },
      cancel_on_timeout-late s w v b c,
      cancelled-IsValid s w v,
    )
    | inr h ↦ (count_busy s, w, cancel_on_timeout-early s w h, count_busy-IsValid s w v h)
  ]

  -- In a valid state, writeValue starts a transfer if the object is idle and the lock is free: it
  -- takes the lock, sends the request and returns 0. Otherwise it changes nothing but to note the
  -- write as pending, and returns ECMC_CAN_ERROR_SDO_WRITE_BUSY.
  pub write_value-cases :
      (s : Sdo) (w : Shared B)
      → IsValid B s w
      → ((s.busy ≡ false)
          × (w.sdo1_lock ≡ false)
          × (write_value s w
              ≡ done (
                0,
                requested s,
                send (write_req_transfer_frame s.config) (record w { sdo1_lock = true }),
              )))
        ⊎ (((s.busy ≡ true) ⊎ (w.sdo1_lock ≡ true))
            × (write_value s w ≡ done (110, record s { write_pending = true }, w)))
  unfolding write_value
  write_value-cases s w v = elim (Bool-cases s.busy) [
    | inl b ↦ inr (inl b, ground arith)
    | inr b ↦ elim (Bool-cases w.sdo1_lock) [
      | inl l ↦ inr (inr l, ground arith)
      | inr l ↦ inl (
        b,
        l,
        ground (
          arith,
          v.in_step.idle_write b,
          memcpy-all s.data_buffer s.temp_data_buffer s.od_size v.sizes.buffered v.sizes.temp,
        ),
      )
    ]
  ]

  requested-IsValid :
      (s : Sdo) (w : Shared B)
      → IsValid B s w
      → s.rw ≡ dir_write
      → s.busy ≡ false
      → IsValid B
          (requested s)
          (send (write_req_transfer_frame s.config) (record w { sdo1_lock = true }))
  requested-IsValid s w v r b = ground arith

  put_off-IsValid :
      (s : Sdo) (w : Shared B)
      → IsValid B s w
      → s.rw ≡ dir_write
      → IsValid B (record s { write_pending = true }) w
  put_off-IsValid s w v r = ground arith

  pub write_value-free :
      (s : Sdo) (w : Shared B)
      → IsValid B s w
      → s.busy ≡ false
      → w.sdo1_lock ≡ false
      → write_value s w
        ≡ done (
          0,
          requested s,
          send (write_req_transfer_frame s.config) (record w { sdo1_lock = true }),
        )
  write_value-free s w v b l = elim (write_value-cases s w v) [
    | inl (_, _, e) ↦ e
    | inr (inl x, _) ↦ absurd (ground arith)
    | inr (inr x, _) ↦ absurd (ground arith)
  ]

  -- What a call of writeValue leaves, its code apart.
  abbrev pub EndsWith : CodeResult B → Type 0
  EndsWith m = (c : ℕ) × (s : Sdo) × (w : Shared B) × (m ≡ done (c, s, w)) × IsValid B s w

  pub write_value-Ends :
      (s : Sdo) (w : Shared B) → IsValid B s w → s.rw ≡ dir_write → EndsWith (write_value s w)
  write_value-Ends s w v r = elim (write_value-cases s w v) [
    | inl (b, _, e) ↦ (0, requested s, _, e, requested-IsValid s w v r b)
    | inr (_, e) ↦ (110, record s { write_pending = true }, w, e, put_off-IsValid s w v r)
  ]

  write_if_pending-Ends : (s : Sdo) (w : Shared B) → IsValid B s w → Ends (write_if_pending s w)
  unfolding write_if_pending
  write_if_pending-Ends s w v = elim (Bool-cases s.busy) [
    | inl b ↦ (s, w, ground arith, v)
    | inr b ↦ elim (Bool-cases s.write_pending) [
      | inr p ↦ (s, w, ground arith, v)
      | inl p ↦ elim (Direction-cases s.rw) [
        | inr r ↦ absurd (ground (arith, v.in_step.only_writes r))
        | inl r ↦
            let (c, s', w', e, v') = write_value-Ends s w v r in (s', w', ground (arith, e), v')
      ]
    ]
  ]

  sample_read-IsValid :
      (s : Sdo) (w : Shared B)
      → IsValid B s w
      → s.rw ≡ dir_read
      → IsValid B (sample_read s w).0 (sample_read s w).1
  unfolding sample_read
  sample_read-IsValid s w v r = ground arith

  refresh-IsValid : (s : Sdo) (w : Shared B) → IsValid B s w → IsValid B (refresh_asyn_params s) w
  unfolding refresh_asyn_params
  refresh-IsValid s w v = ground arith

  -- execute never copies outside a block, and keeps the invariant: an idle object has both
  -- machines idle, a busy one holds the lock and waits for a frame.
  pub execute-Ends : (s : Sdo) (w : Shared B) → IsValid B s w → Ends (execute s w)
  unfolding execute
  execute-Ends s w v =
      let (s1, w1, e1, v1) = cancel_on_timeout-Ends s w v in
      let (s2, w2, e2, v2) = write_if_pending-Ends s1 w1 v1 in
      elim (Direction-cases s2.rw) [
        | inl r ↦ (refresh_asyn_params s2, w2, rw (e1, e2) (ground arith), refresh-IsValid s2 w2 v2)
        | inr r ↦ (
          (sample_read s2 w2).0,
          (sample_read s2 w2).1,
          rw (e1, e2) (ground arith),
          sample_read-IsValid s2 w2 v2 r,
        )
      ]
