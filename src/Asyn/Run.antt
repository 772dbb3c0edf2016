-- ===== src/Asyn/Run.antt =====
-- Runs of the plugin with an asyn port that may refuse: a command whose initAsyn throws has no effect
-- on the object, and every other step is as in SocketCan/Steps.
use e3_ecmc_plugin_socketcan.Common.{
  ◌≡◌, refl, sym, ◌∙◌, inl, inr, subst, true, false, Option, List, [], ◌∷◌, arith,
}
use e3_ecmc_plugin_socketcan.Common.Memory.{
  Outcome, done, ◌>>=◌, AfterDone, Outcome-cases, done-injective,
}
use e3_ecmc_plugin_socketcan.WriteBuffer.{Socket}
use e3_ecmc_plugin_socketcan.SocketCan
use e3_ecmc_plugin_socketcan.SocketCan.{SocketCan}
use e3_ecmc_plugin_socketcan.SocketCan.Invariant.{IsValid}
use e3_ecmc_plugin_socketcan.SocketCan.Run.{caught-Ends, run-IsValid}
use e3_ecmc_plugin_socketcan.SocketCan.Steps
use e3_ecmc_plugin_socketcan.SocketCan.Steps.{
  Turn, happens, sdo_written, pdo_written, System, caught,
}
use e3_ecmc_plugin_socketcan.Asyn.{Port, Call}
use e3_ecmc_plugin_socketcan.Asyn.Commands.{Request, perform}
use e3_ecmc_plugin_socketcan.Asyn.Safe.{FitsRequest, perform-Keeps}

-- A step: a command with the port, or a step of the plugin as in SocketCan/Steps, whose commands are
-- those with an initAsyn that succeeds.
pub data Move : Type 0 where
  request : Request → Move
  turn : Turn → Move

-- The plugin, and all calls of the port.
pub record Registered (S : Type 0) : Type 0 where
  pub system : System S
  pub calls : List Call

-- The step is no value written over asyn. After a command whose item for the error was refused the
-- port keeps a pointer to an object that is freed, which such a value would be handed to.
abbrev pub IsNoAsynWrite : Turn → Type 0
IsNoAsynWrite (happens (sdo_written j i value)) = true ≡ false
IsNoAsynWrite (happens (pdo_written j i value)) = true ≡ false
IsNoAsynWrite _ = Unit {0}

module _ {S : Type 0} (socket : Socket S) (port : Option Port) where
  unfoldable pub move : Move → Registered S → Outcome (Registered S)
  move (request r) t =
      let (result, log) = perform r port t.system.can t.calls in
      caught t.system.can result >>= λ s.
      done (record { system = record t.system { can = s }; calls = log })
  move (turn u) t = SocketCan.Steps.step socket u t.system >>= λ x. done (record t { system = x })

  unfoldable pub moves : List Move → Registered S → Outcome (Registered S)
  moves [] t = done t
  moves (m ∷ ms) t = move m t >>= λ t'. moves ms t'

  -- A command fits by its sizes, and a step of the plugin, other than a value written over asyn, fits
  -- as in SocketCan/Steps.
  abbrev pub Fits : Move → Registered S → Type 0
  Fits (request r) t = FitsRequest r t.system.can
  Fits (turn u) t = IsNoAsynWrite u × SocketCan.Steps.AllFit socket (u ∷ []) t.system

  abbrev pub AllFit : List Move → Registered S → Type 0
  AllFit [] t = Unit {0}
  AllFit (m ∷ ms) t = Fits m t × AfterDone (λ t'. AllFit ms t') (move m t)

  abbrev pub Ends : Outcome (Registered S) → Type 0
  Ends r = (t : Registered S) × (r ≡ done t) × IsValid t.system.can

  -- One step of the plugin is a run of one.
  step_ends :
      (u : Turn) (x : System S)
      → IsValid x.can
      → SocketCan.Steps.AllFit socket (u ∷ []) x
      → (y : System S) × (SocketCan.Steps.step socket u x ≡ done y) × IsValid y.can
  unfolding SocketCan.Steps.run
  step_ends u x v h =
      let (y, e, w) = run-IsValid socket (u ∷ []) x v h in
      elim (Outcome-cases (SocketCan.Steps.step socket u x)) [
        | inr g ↦ absurd (ground (arith, g, e))
        | inl (z, g) ↦
            let run_z : SocketCan.Steps.run socket (u ∷ []) x ≡ done z = rw g refl in
            (z, g, subst (λ (q : System S). IsValid q.can) (done-injective (sym e ∙ run_z)) w)
      ]

  move-Ends : (m : Move) (t : Registered S) → IsValid t.system.can → Fits m t → Ends (move m t)
  unfolding move
  move-Ends (request r) t v h =
      let (result, log) = perform r port t.system.can t.calls in
      let (s, e, n) =
        caught-Ends t.system.can result v (perform-Keeps r port t.system.can t.calls v h) in
      (record { system = record t.system { can = s }; calls = log }, rw e refl, n.valid)
  move-Ends (turn u) t v (_, h) =
      let (x, e, w) = step_ends u t.system v h in (record t { system = x }, rw e refl, w)

  -- With an asyn port that may refuse any item, or without one, any sequence of commands and of steps
  -- of the plugin other than values written over asyn, each of which fits the object that it finds, runs from a valid object to its end
  -- without a fault or an exception that ends the process, and leaves a valid object.
  pub moves-IsValid :
      (ms : List Move) (t : Registered S)
      → IsValid t.system.can
      → AllFit ms t
      → (t' : Registered S) × (moves ms t ≡ done t') × IsValid t'.system.can
  unfolding moves
  moves-IsValid [] t v h = (t, refl, v)
  moves-IsValid (m ∷ ms) t v (h, hs) =
      let (t1, e1, v1) = move-Ends m t v h in
      let (t2, e2, v2) = moves-IsValid ms t1 v1 (subst (AfterDone (λ x. AllFit ms x)) e1 hs) in
      (t2, rw e1 e2, v2)
