-- ===== src/Plugin/Calls.antt =====
-- The functions that ecmc calls at run time leave a usable plugin.
use e3_ecmc_plugin_socketcan.Common.{
  ℕ, ◌≡◌, refl, sym, ◌∙◌, subst, Bool, true, false, Option, none, some, List, [], ◌∷◌, arith,
  if◌then◌else◌,
}
use e3_ecmc_plugin_socketcan.Common.Memory.{Outcome, done, done-injective}
use e3_ecmc_plugin_socketcan.WriteBuffer.{WriteBuffer}
use e3_ecmc_plugin_socketcan.SocketCan
use e3_ecmc_plugin_socketcan.SocketCan.{SocketCan}
use e3_ecmc_plugin_socketcan.SocketCan.Invariant.{IsValid}
use e3_ecmc_plugin_socketcan.SocketCan.Run
use e3_ecmc_plugin_socketcan.SocketCan.Cycle
use e3_ecmc_plugin_socketcan.SocketCan.Steps
use e3_ecmc_plugin_socketcan.SocketCan.Steps.{put_buffer}
use e3_ecmc_plugin_socketcan.Wrap
use e3_ecmc_plugin_socketcan.Wrap.{
  Can, null, deleted, live, connect_socket_can, get_socket_can_connectd, getlast_writes_error,
  add_write_socket_can, with_buffer,
}
use e3_ecmc_plugin_socketcan.Plugin.{
  Plugin, can_connect, can_connected, can_last_writes_error, can_add_write, plc_result,
}
use e3_ecmc_plugin_socketcan.Plugin.Register.{
  Prototype, PlcFunc, plugin_data_def, call_plc, no_funcs,
}

-- There is no object, or a valid one.
abbrev pub IsUsable : Can → Type 0
IsUsable null = Unit {0}
IsUsable deleted = true ≡ false
IsUsable (live s) = IsValid s

-- The call ended, and left that.
abbrev pub Leaves {ℓ} : {A : Type ℓ} → Outcome (A × Can) → Type ℓ
Leaves {A} r = (a : A) × (c : Can) × (r ≡ done (a, c)) × IsUsable c

abbrev pub LeavesPlugin : {A : Type 0} → Outcome (A × Plugin) → Type 0
LeavesPlugin {A} r = (a : A) × (p : Plugin) × (r ≡ done (a, p)) × IsUsable p.can

-- What an event of the object without conditions leaves.
handled-IsValid :
    (e : SocketCan.Steps.Event) (s s' : SocketCan)
    → IsValid s
    → SocketCan.Steps.Fits e s
    → SocketCan.Steps.handle e s ≡ done s'
    → IsValid s'
handled-IsValid e s s' v f h =
    let (s1, e1, n) = SocketCan.Run.handle-Ends e s v f in
    subst IsValid (done-injective (sym e1 ∙ h)) n.valid

with_buffer_is_put : (b : Option WriteBuffer) (s : SocketCan) → put_buffer b s ≡ with_buffer b s
unfolding with_buffer put_buffer
with_buffer_is_put none s = refl
with_buffer_is_put (some b) s = refl

pub execute-Leaves : (c : Can) → IsUsable c → Leaves (Wrap.execute c)
unfolding Wrap.execute SocketCan.Steps.handle
execute-Leaves null u = (0, null, refl, tt)
execute-Leaves deleted u = absurd (ground (arith, u))
execute-Leaves (live s) u =
    let (s', e, n) = SocketCan.Run.handle-Ends SocketCan.Steps.cycle s u tt in
    (0, live s', rw e refl, n.valid)

connect-Leaves : (c : Can) → IsUsable c → Leaves (connect_socket_can c)
unfolding connect_socket_can SocketCan.Steps.handle
connect-Leaves null u = (1, null, refl, tt)
connect-Leaves deleted u = absurd (ground (arith, u))
connect-Leaves (live s) u = (
  0,
  live (SocketCan.connect_external s),
  refl,
  handled-IsValid SocketCan.Steps.connect_call s _ u tt refl,
)

poll-Leaves : (c : Can) → IsUsable c → Leaves (getlast_writes_error c)
unfolding getlast_writes_error SocketCan.Steps.handle
poll-Leaves null u = (1, null, refl, tt)
poll-Leaves deleted u = absurd (ground (arith, u))
poll-Leaves (live s) u =
    let (code, b) = SocketCan.Cycle.getlast_writes_error (some s.write_buffer) in
    (
      code,
      live (with_buffer b s),
      refl,
      subst IsValid (with_buffer_is_put b s)
          (handled-IsValid SocketCan.Steps.poll_error s (put_buffer b s) u tt refl),
    )

module _ {D : Type 0} (to_double : ℕ → D) (to_uint32 to_uint8 : D → ℕ) where
  add_write-Leaves :
      (can_id len d0 d1 d2 d3 d4 d5 d6 d7 : D) (c : Can)
      → IsUsable c
      → Leaves (add_write_socket_can to_uint32 to_uint8 can_id len d0 d1 d2 d3 d4 d5 d6 d7 c)
  unfolding add_write_socket_can SocketCan.Steps.handle
  add_write-Leaves can_id len d0 d1 d2 d3 d4 d5 d6 d7 null u = (1, null, refl, tt)
  add_write-Leaves can_id len d0 d1 d2 d3 d4 d5 d6 d7 deleted u = absurd (ground (arith, u))
  add_write-Leaves can_id len d0 d1 d2 d3 d4 d5 d6 d7 (live s) u =
      let (code, b) =
        SocketCan.Cycle.add_write_can (to_uint32 can_id) (to_uint8 len) (to_uint8 d0) (to_uint8 d1)
          (to_uint8 d2) (to_uint8 d3) (to_uint8 d4) (to_uint8 d5) (to_uint8 d6) (to_uint8 d7)
          (some s.write_buffer) in
      (
        code,
        live (with_buffer b s),
        refl,
        subst IsValid (with_buffer_is_put b s) (
            handled-IsValid
              (SocketCan.Steps.send (to_uint32 can_id) (to_uint8 len) (to_uint8 d0) (to_uint8 d1)
                (to_uint8 d2) (to_uint8 d3) (to_uint8 d4) (to_uint8 d5) (to_uint8 d6) (to_uint8 d7))
              s (put_buffer b s) u tt refl),
      )

  plc_result-LeavesPlugin :
      (p : Plugin) (m : Outcome (ℕ × Can)) → Leaves m → LeavesPlugin (plc_result to_double p m)
  unfolding plc_result
  plc_result-LeavesPlugin p m (code, c, e, u) = (to_double code, record p { can = c }, rw e refl, u)

  connected_ends : (c : Can) → IsUsable c → (b : Bool) × (get_socket_can_connectd c ≡ done b)
  unfolding get_socket_can_connectd
  connected_ends null u = (false, refl)
  connected_ends deleted u = absurd (ground (arith, u))
  connected_ends (live s) u = (_, refl)

  connected-LeavesPlugin : (p : Plugin) → IsUsable p.can → LeavesPlugin (can_connected to_double p)
  unfolding can_connected
  connected-LeavesPlugin p u =
      let (b, e) = connected_ends p.can u in (to_double (if b then 1 else 0), p, rw e refl, u)

  -- A call that is made ends.
  abbrev pub AnswersPlc : Option (Outcome (D × Plugin)) → Type 0
  AnswersPlc none = Unit {0}
  AnswersPlc (some r) = LeavesPlugin r

  -- Every call of a PLC function ends and leaves a usable plugin, with any number of arguments.
  abbrev pub IsSafe : PlcFunc D → Type 0
  IsSafe f = (args : List D) (p : Plugin) → IsUsable p.can → AnswersPlc (call_plc f args p)

  only_arg0-IsSafe :
      (name : List ℕ) (g : Prototype D 0)
      → ((p : Plugin) → IsUsable p.can → LeavesPlugin (g p))
      → IsSafe (record (no_funcs D name) { func_arg0 = some g })
  only_arg0-IsSafe name g safe [] p u = safe p u
  only_arg0-IsSafe name g safe (a ∷ []) p u = tt
  only_arg0-IsSafe name g safe (a ∷ b ∷ []) p u = tt
  only_arg0-IsSafe name g safe (a ∷ b ∷ c ∷ []) p u = tt
  only_arg0-IsSafe name g safe (a ∷ b ∷ c ∷ d ∷ []) p u = tt
  only_arg0-IsSafe name g safe (a ∷ b ∷ c ∷ d ∷ e ∷ []) p u = tt
  only_arg0-IsSafe name g safe (a ∷ b ∷ c ∷ d ∷ e ∷ h ∷ []) p u = tt
  only_arg0-IsSafe name g safe (a ∷ b ∷ c ∷ d ∷ e ∷ h ∷ i ∷ []) p u = tt
  only_arg0-IsSafe name g safe (a ∷ b ∷ c ∷ d ∷ e ∷ h ∷ i ∷ j ∷ []) p u = tt
  only_arg0-IsSafe name g safe (a ∷ b ∷ c ∷ d ∷ e ∷ h ∷ i ∷ j ∷ k ∷ []) p u = tt
  only_arg0-IsSafe name g safe (a ∷ b ∷ c ∷ d ∷ e ∷ h ∷ i ∷ j ∷ k ∷ l ∷ []) p u = tt
  only_arg0-IsSafe name g safe (a ∷ b ∷ c ∷ d ∷ e ∷ h ∷ i ∷ j ∷ k ∷ l ∷ m ∷ rest) p u = tt

  only_arg10-IsSafe :
      (name : List ℕ) (g : Prototype D 10)
      → ((a b c d e h i j k l : D) (p : Plugin)
          → IsUsable p.can
          → LeavesPlugin (g a b c d e h i j k l p))
      → IsSafe (record (no_funcs D name) { func_arg10 = some g })
  only_arg10-IsSafe name g safe [] p u = tt
  only_arg10-IsSafe name g safe (a ∷ []) p u = tt
  only_arg10-IsSafe name g safe (a ∷ b ∷ []) p u = tt
  only_arg10-IsSafe name g safe (a ∷ b ∷ c ∷ []) p u = tt
  only_arg10-IsSafe name g safe (a ∷ b ∷ c ∷ d ∷ []) p u = tt
  only_arg10-IsSafe name g safe (a ∷ b ∷ c ∷ d ∷ e ∷ []) p u = tt
  only_arg10-IsSafe name g safe (a ∷ b ∷ c ∷ d ∷ e ∷ h ∷ []) p u = tt
  only_arg10-IsSafe name g safe (a ∷ b ∷ c ∷ d ∷ e ∷ h ∷ i ∷ []) p u = tt
  only_arg10-IsSafe name g safe (a ∷ b ∷ c ∷ d ∷ e ∷ h ∷ i ∷ j ∷ []) p u = tt
  only_arg10-IsSafe name g safe (a ∷ b ∷ c ∷ d ∷ e ∷ h ∷ i ∷ j ∷ k ∷ []) p u = tt
  only_arg10-IsSafe name g safe (a ∷ b ∷ c ∷ d ∷ e ∷ h ∷ i ∷ j ∷ k ∷ l ∷ []) p u =
      safe a b c d e h i j k l p u
  only_arg10-IsSafe name g safe (a ∷ b ∷ c ∷ d ∷ e ∷ h ∷ i ∷ j ∷ k ∷ l ∷ m ∷ rest) p u = tt

  abbrev pub AllSafe : List (PlcFunc D) → Type 0
  AllSafe [] = Unit {0}
  AllSafe (f ∷ fs) = IsSafe f × AllSafe fs

  pub table-AllSafe : AllSafe (plugin_data_def to_double to_uint32 to_uint8).funcs
  unfolding plugin_data_def can_connect can_last_writes_error can_add_write
  table-AllSafe = (
    only_arg0-IsSafe [] _
        (λ p u. plc_result-LeavesPlugin p (connect_socket_can p.can) (connect-Leaves p.can u)),
    (
      only_arg0-IsSafe [] _ connected-LeavesPlugin,
      (
        only_arg10-IsSafe [] _ (λ a b c d e h i j k l p u.
            plc_result-LeavesPlugin p
              (add_write_socket_can to_uint32 to_uint8 a b c d e h i j k l p.can)
              (add_write-Leaves a b c d e h i j k l p.can u)),
        (
          only_arg0-IsSafe [] _
              (λ p u. plc_result-LeavesPlugin p (getlast_writes_error p.can) (poll-Leaves p.can u)),
          tt,
        ),
      ),
    ),
  )
