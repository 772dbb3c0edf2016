-- ===== src/Sdo/Balance.antt =====
-- How ecmcCANOpenSDO's busy_ and the lock that the device's SDOs share move together.
use e3_ecmc_plugin_socketcan.Common.{
  ℕ, List, ◌+◌, ◌≡◌, refl, sym, subst, ◌∙◌, Bool, true, false, arith, if◌then◌else◌, inl, inr, ltb,
  not,
}
use e3_ecmc_plugin_socketcan.Common.Memory.{done, fault, ◌>>=◌, memcpy, memset, Outcome-cases}
use e3_ecmc_plugin_socketcan.Defs.{write_data}
use e3_ecmc_plugin_socketcan.Frame.{Frame}
use e3_ecmc_plugin_socketcan.Sink.{FrameSink}
use e3_ecmc_plugin_socketcan.Sdo.{Sdo, Shared, Result, CodeResult, refresh_asyn_params, set_value}
use e3_ecmc_plugin_socketcan.Sdo.Methods.{
  count_busy, write_value, read_segment, request_segment, finish_read, write_next_data_to_slave,
  read_data_state_machine, write_data_state_machine, note_error, new_rx_frame, cancel_on_timeout,
  write_if_pending, sample_read, execute, asyn_write_sdo_value,
}
use e3_ecmc_plugin_socketcan.Sdo.Invariant.{Holds}

abbrev pub count : Bool → ℕ
count true = 1
count false = 0

-- The object turned busy exactly if the lock was taken, and idle exactly if it was freed.
abbrev pub Moves : {B : Type 0} → Sdo → Shared B → Sdo → Shared B → Type 0
Moves s w s' w' = count s'.busy + count w.sdo1_lock ≡ count s.busy + count w'.sdo1_lock

abbrev pub Balanced : {B : Type 0} → Sdo → Shared B → Result B → Type 0
Balanced s w (done r) = Moves s w r.0 r.1
Balanced s w fault = Unit {0}

abbrev BalancedCode : {B : Type 0} → Sdo → Shared B → CodeResult B → Type 0
BalancedCode s w (done r) = Moves s w (r.1) (r.2)
BalancedCode s w fault = Unit {0}

read_segment-busy : (f : Frame) (s : Sdo) (s' : Sdo) → read_segment f s ≡ done s' → s'.busy ≡ s.busy
unfolding read_segment memcpy
read_segment-busy f s s' e = ground arith

set_value-busy : (value : List ℕ) (s s' : Sdo) → set_value value s ≡ done s' → s'.busy ≡ s.busy
unfolding set_value memcpy
set_value-busy value s s' e = ground arith

module _ {B : Type 0} ⦃k : FrameSink B⦄ where
  cancel-Balanced : (s : Sdo) (w : Shared B) → Holds s w → Balanced s w (cancel_on_timeout s w)
  unfolding cancel_on_timeout memset
  cancel-Balanced s w h = ground arith

  cancel-Holds :
      (s : Sdo) (w : Shared B) (s' : Sdo) (w' : Shared B)
      → Holds s w
      → cancel_on_timeout s w ≡ done (s', w')
      → Holds s' w'
  unfolding cancel_on_timeout memset
  cancel-Holds s w s' w' h e = ground arith

  write_value-Balanced : (s : Sdo) (w : Shared B) → Holds s w → BalancedCode s w (write_value s w)
  unfolding write_value memcpy
  write_value-Balanced s w h = ground arith

  sample_read-Moves : (s : Sdo) (w : Shared B) → Moves s w (sample_read s w).0 (sample_read s w).1
  unfolding sample_read
  sample_read-Moves s w = ground arith

  finish_read-Balanced : (s : Sdo) (w : Shared B) → Holds s w → BalancedCode s w (finish_read s w)
  unfolding finish_read memcpy
  finish_read-Balanced s w h = ground arith

  write_next-Balanced :
      (t : Bool) (s : Sdo) (w : Shared B) → BalancedCode s w (write_next_data_to_slave t s w)
  unfolding write_next_data_to_slave memcpy
  write_next-Balanced t s w = ground arith

  request-Moves :
      (s : Sdo) (w : Shared B) → Moves s w (request_segment s w).0 (request_segment s w).1
  unfolding request_segment
  request-Moves s w = ground arith

  after_segment-Balanced :
      (s : Sdo) (w : Shared B)
      → Holds s w
      → BalancedCode s w (
          if ltb s.recived_bytes s.od_size
          then (let (s2, w2) = request_segment s w in done (0, s2, w2))
          else finish_read s w)
  after_segment-Balanced s w h = ground (arith, request-Moves s w, finish_read-Balanced s w h)

  read_machine-Balanced :
      (f : Frame) (s : Sdo) (w : Shared B)
      → Holds s w
      → BalancedCode s w (read_data_state_machine f s w)
  unfolding read_data_state_machine
  read_machine-Balanced f s w h = elim (Outcome-cases (read_segment f s)) [
    | inr e ↦ ground (arith, e)
    | inl (s1, e) ↦
        let b = read_segment-busy f s s1 e in
        ground (arith, e, b, after_segment-Balanced s1 w (λ c. h (sym b ∙ c)))
  ]

  -- What follows the sending of a segment leaves busy_ and the lock as they are.
  next-Balanced :
      (s : Sdo) (w : Shared B) (m : CodeResult B) (g : ℕ × Sdo × Shared B → ℕ × Sdo × Shared B)
      → ((r : ℕ × Sdo × Shared B)
          → count (r.1).busy + count (g r).2.sdo1_lock ≡ count (g r).1.busy + count (r.2).sdo1_lock)
      → BalancedCode s w m
      → BalancedCode s w (m >>= λ r. done (g r))
  next-Balanced s w fault g same h = h
  next-Balanced s w (done r) g same h = omega (arith, same r, h)

  write_machine-Balanced :
      (f : Frame) (s : Sdo) (w : Shared B)
      → Holds s w
      → BalancedCode s w (write_data_state_machine f s w)
  unfolding write_data_state_machine
  write_machine-Balanced f s w h =
      let s0 : Sdo = record s { written_bytes = 0; use_tg1_frame = false } in
      let s1 : Sdo = record s { use_tg1_frame = not s.use_tg1_frame } in
      ground (
        arith,
        next-Balanced s w _ (λ r. (0, record (r.1) { write_state = write_data }, r.2)) (λ r. refl)
            (write_next-Balanced false s0 w),
        next-Balanced s w _ (λ r. (0, r.1, r.2)) (λ r. refl)
            (write_next-Balanced (not s.use_tg1_frame) s1 w),
      )

  note_error-Balanced :
      (s : Sdo) (w : Shared B) (m : CodeResult B) → BalancedCode s w m → Balanced s w (note_error m)
  unfolding note_error
  note_error-Balanced s w fault h = h
  note_error-Balanced s w (done r) h = ground arith

  pub new_rx_frame-Balanced :
      (f : Frame) (s : Sdo) (w : Shared B) → Holds s w → Balanced s w (new_rx_frame f s w)
  unfolding new_rx_frame
  new_rx_frame-Balanced f s w h = ground (
    arith,
    note_error-Balanced s w _ (read_machine-Balanced f s w h),
    note_error-Balanced s w _ (write_machine-Balanced f s w h),
  )

  pending-Balanced : (s : Sdo) (w : Shared B) → Holds s w → Balanced s w (write_if_pending s w)
  unfolding write_if_pending
  pending-Balanced s w h = elim (Outcome-cases (write_value s w)) [
    | inr e ↦ ground (arith, e)
    | inl (r, e) ↦ ground (arith, e, subst (BalancedCode s w) e (write_value-Balanced s w h))
  ]

  -- One call of execute after another step.
  then-Balanced :
      (s : Sdo) (w : Shared B) (m : Result B) (g : Sdo × Shared B → Result B)
      → Balanced s w m
      → ((s' : Sdo) (w' : Shared B) → m ≡ done (s', w') → Balanced s' w' (g (s', w')))
      → Balanced s w (m >>= g)
  then-Balanced s w fault g h after = h
  then-Balanced s w (done r) g h after = elim (Outcome-cases (g r)) [
    | inr e ↦ rw e tt
    | inl (q, e) ↦ rw e (omega (arith, h, subst (Balanced r.0 r.1) e (after r.0 r.1 refl)))
  ]

  pub asyn_write-Balanced :
      (value : List ℕ) (s : Sdo) (w : Shared B)
      → Holds s w
      → Balanced s w (asyn_write_sdo_value value s w)
  unfolding asyn_write_sdo_value
  asyn_write-Balanced value s w h = elim (Outcome-cases (set_value value s)) [
    | inr e ↦ rw e tt
    | inl (s1, e) ↦
        let b = set_value-busy value s s1 e in
        elim (Outcome-cases (write_value s1 w)) [
          | inr g ↦ rw (e, g) tt
          | inl (r, g) ↦
              let moved =
                subst (BalancedCode s1 w) g (write_value-Balanced s1 w (λ c. h (sym b ∙ c))) in
              rw (e, g) (rw b at moved)
        ]
  ]

  counted-Holds : (s : Sdo) (w : Shared B) → Holds s w → Holds (count_busy s) w
  unfolding count_busy
  counted-Holds s w h = h

  cancelled-Balanced :
      (s : Sdo) (w : Shared B) → Holds s w → Balanced s w (cancel_on_timeout (count_busy s) w)
  unfolding count_busy
  cancelled-Balanced s w h = cancel-Balanced (count_busy s) w h

  pub execute-Balanced : (s : Sdo) (w : Shared B) → Holds s w → Balanced s w (execute s w)
  unfolding execute refresh_asyn_params
  execute-Balanced s w h =
      then-Balanced s w (cancel_on_timeout (count_busy s) w) _ (cancelled-Balanced s w h)
        (λ s1 w1 e.
          then-Balanced s1 w1 (write_if_pending s1 w1) _
            (pending-Balanced s1 w1 (cancel-Holds (count_busy s) w s1 w1 (counted-Holds s w h) e))
            (λ s2 w2 e2. ground (arith, sample_read-Moves s2 w2)))
