-- ===== src/Plugin/Run.antt =====
-- ecmc at run time: calls of the realtime function and of PLC functions, through the pointers of
-- pluginDataDef, in any order.
use e3_ecmc_plugin_socketcan.Common.{
  ℕ, zero, suc, ◌≡◌, ◌⊎◌, refl, inl, inr, Option, none, some, List, [], ◌∷◌,
}
use e3_ecmc_plugin_socketcan.Common.Int.{ℤ}
use e3_ecmc_plugin_socketcan.Common.Memory.{Outcome, done, ◌>>=◌}
use e3_ecmc_plugin_socketcan.Plugin.{Plugin, can_realtime}
use e3_ecmc_plugin_socketcan.Plugin.Register.{PlcFunc, plugin_data_def, call_plc}
use e3_ecmc_plugin_socketcan.Plugin.Calls.{
  IsUsable, AnswersPlc, AllSafe, table-AllSafe, execute-Leaves,
}

-- A call by ecmc.
pub data Event (D : Type 0) : Type 0 where
  realtime : ℤ → Event D
  plc : ℕ → List D → Event D

-- `call` is how ecmc calls a PLC function: with the arguments that the PLC code has, it calls nothing,
-- or the pointer for their number.
abbrev pub CallsByNumber :
    {D : Type 0} → (PlcFunc D → List D → Plugin → Option (Outcome (D × Plugin))) → Type 0
CallsByNumber {D} call =
    (f : PlcFunc D) (args : List D) (p : Plugin)
    → (call f args p ≡ none) ⊎ (call f args p ≡ call_plc f args p)

module _ {D : Type 0} (to_double : ℕ → D) (to_uint32 to_uint8 : D → ℕ)
    (call : PlcFunc D → List D → Plugin → Option (Outcome (D × Plugin))) where
  -- A call that is made, or none.
  unfoldable pub made : Option (Outcome (D × Plugin)) → Plugin → Outcome Plugin
  made none p = done p
  made (some r) p = r >>= λ q. done q.1

  -- The function at a place, if there is one, with doubles.
  unfoldable pub call_at : ℕ → List (PlcFunc D) → List D → Plugin → Outcome Plugin
  unfolding made
  call_at i [] args p = done p
  call_at zero (f ∷ fs) args p = made (call f args p) p
  call_at (suc i) (f ∷ fs) args p = call_at i fs args p

  unfoldable pub handle : Event D → Plugin → Outcome Plugin
  unfolding plugin_data_def call_at
  handle (realtime ecmc_error) p =
      (plugin_data_def to_double to_uint32 to_uint8).realtime_fnc ecmc_error p >>= λ r. done r.1
  handle (plc i args) p = call_at i (plugin_data_def to_double to_uint32 to_uint8).funcs args p

  unfoldable pub run : List (Event D) → Plugin → Outcome Plugin
  run [] p = done p
  run (e ∷ es) p = handle e p >>= λ q. run es q

  abbrev pub Ends : Outcome Plugin → Type 0
  Ends r = (p : Plugin) × (r ≡ done p) × IsUsable p.can

  safe-Ends :
      (o : Option (Outcome (D × Plugin))) (p : Plugin)
      → IsUsable p.can
      → AnswersPlc to_double to_uint32 to_uint8 o
      → Ends (made o p)
  unfolding made
  safe-Ends none p u h = (p, refl, u)
  safe-Ends (some r) p u (v, p', e, u') = (p', rw e refl, u')

  call_at-Ends :
      (i : ℕ) (fs : List (PlcFunc D)) (args : List D) (p : Plugin)
      → CallsByNumber call
      → AllSafe to_double to_uint32 to_uint8 fs
      → IsUsable p.can
      → Ends (call_at i fs args p)
  unfolding call_at
  call_at-Ends i [] args p c a u = (p, refl, u)
  call_at-Ends zero (f ∷ fs) args p c (h, a) u = elim (c f args p) [
    | inl e ↦ rw e (safe-Ends none p u tt)
    | inr e ↦ rw e (safe-Ends (call_plc f args p) p u (h args p u))
  ]
  call_at-Ends (suc i) (f ∷ fs) args p c (h, a) u = call_at-Ends i fs args p c a u

  handle-Ends : (e : Event D) (p : Plugin) → CallsByNumber call → IsUsable p.can → Ends (handle e p)
  unfolding handle plugin_data_def can_realtime
  handle-Ends (realtime ecmc_error) p c u =
      let (code, can, e, u') = execute-Leaves p.can u in
      (record p { last_ecmc_error = ecmc_error; can = can }, rw e refl, u')
  handle-Ends (plc i args) p c u =
      call_at-Ends i (plugin_data_def to_double to_uint32 to_uint8).funcs args p c
        (table-AllSafe to_double to_uint32 to_uint8) u

  -- Any sequence of calls by ecmc, of the realtime function and of PLC functions of the table with any
  -- number of arguments, of which ecmc calls nothing or the pointer for that number, from a plugin with a valid object or with none, which a failed load leaves,
  -- ends without a fault, and again there is a valid object or none.
  pub run-Ends :
      (es : List (Event D)) (p : Plugin) → CallsByNumber call → IsUsable p.can → Ends (run es p)
  unfolding run
  run-Ends [] p c u = (p, refl, u)
  run-Ends (e ∷ es) p c u =
      let (p1, e1, u1) = handle-Ends e p c u in
      let (p2, e2, u2) = run-Ends es p1 c u1 in (p2, rw e1 e2, u2)
