-- ===== src/Asyn/Status.antt =====
-- The items of the object for the interface: its error, and whether it is connected.
use e3_ecmc_plugin_socketcan.Common.{
  ℕ, ◌≡◌, sym, ap, subst, ◌∙◌, inl, inr, true, false, Option, none, some, List, ◌∷◌, arith, ==_refl,
  ◌==◌,
}
use e3_ecmc_plugin_socketcan.Common.Attempt.{ok}
use e3_ecmc_plugin_socketcan.SocketCan.{SocketCan, Interface, new_socket_can}
use e3_ecmc_plugin_socketcan.Asyn.Commands.{construct_can}
use e3_ecmc_plugin_socketcan.Asyn.Added.{items-ok}
use e3_ecmc_plugin_socketcan.Asyn.{
  Call, add_new_avail_param, set_allow_write_to_ecmc, Port, Given, GivesNew, allowed, handler,
}
use e3_ecmc_plugin_socketcan.Asyn.Names.{com_error_name}
use e3_ecmc_plugin_socketcan.Asyn.Init.{
  Logged, with_answer, error_param, publish, connected_param, connected_added, com_error_added,
  init_asyn_can,
}
use e3_ecmc_plugin_socketcan.Asyn.Outcomes.{Option-cases, old_is_not_new}

-- Nothing may be written to the item, and nothing is called with it.
abbrev pub IsReadOnly : ℕ → List Call → Type 0
IsReadOnly item log = (allowed item log ≡ some false) × (handler item log ≡ none)

-- The calls for the error, and those for both items.
abbrev error_calls : ℕ → List Call → List Call
error_calls err log = publish err (
    set_allow_write_to_ecmc err false
    ∷ add_new_avail_param (error_param com_error_name) (some err)
    ∷ log)

abbrev both_calls : ℕ → ℕ → List Call → List Call
both_calls err item log = publish item (
    set_allow_write_to_ecmc item false
    ∷ add_new_avail_param connected_param (some item)
    ∷ error_calls err log)

both-IsReadOnly :
    (err item : ℕ) (log : List Call)
    → (err == item) ≡ false
    → IsReadOnly err (both_calls err item log) × IsReadOnly item (both_calls err item log)
both-IsReadOnly err item log h = (ground (arith, h, ==_refl err), ground (arith, ==_refl item))

error-Given : (err : ℕ) (log : List Call) → Given err (error_calls err log)
error-Given err log = ground (arith, ==_refl err)

after_com_error :
    (port : Port) (log : List Call) {answer : Option ℕ}
    → port.answer log (error_param com_error_name) ≡ answer
    → init_asyn_can (some port) log
      ≡ with_answer (error_param com_error_name) log (com_error_added port) answer
unfolding init_asyn_can
after_com_error port log e =
    ap (with_answer (error_param com_error_name) log (com_error_added port)) e

after_connected :
    (port : Port) (err : ℕ) (log : List Call) {answer : Option ℕ}
    → port.answer log (error_param com_error_name) ≡ some err
    → port.answer (error_calls err log) connected_param ≡ answer
    → init_asyn_can (some port) log
      ≡ with_answer connected_param (error_calls err log) (connected_added err) answer
unfolding com_error_added with_answer
after_connected port err log e g =
    after_com_error port log e
    ∙ ap (with_answer connected_param (error_calls err log) (connected_added err)) g

-- What holds of the two items of a call that returned.
abbrev ItemsAreReadOnly : Logged (ℕ × ℕ) → Type 0
ItemsAreReadOnly (ok (err, item), log) = (¬ (err ≡ item)) × IsReadOnly err log × IsReadOnly item log
ItemsAreReadOnly _ = Unit {0}

-- When initAsyn of the object for the interface returns, with a port that makes a new item at every
-- call that it does not refuse, its two items are different, and nothing may be written to them.
pub init_asyn_can-IsReadOnly :
    (port : Port) (log log' : List Call) (err item : ℕ)
    → GivesNew port
    → init_asyn_can (some port) log ≡ (ok (err, item), log')
    → (¬ (err ≡ item)) × IsReadOnly err log' × IsReadOnly item log'
unfolding with_answer
init_asyn_can-IsReadOnly port log log' err item new h =
    elim (Option-cases (port.answer log (error_param com_error_name))) [
      | inr e ↦ absurd (ground (arith, sym h ∙ after_com_error port log e))
      | inl (i, e) ↦ elim (Option-cases (port.answer (error_calls i log) connected_param)) [
        | inr g ↦ absurd (ground (arith, sym h ∙ after_connected port i log e g))
        | inl (j, g) ↦
            let same = sym h ∙ after_connected port i log e g in
            let differ =
              old_is_not_new i j (error_calls i log) (error-Given i log)
                (new (error_calls i log) connected_param j g) in
            let (a, b) = both-IsReadOnly i j log differ in
            let distinct : ¬ (i ≡ j) = λ q. absurd (ground (arith, q, differ)) in
            subst ItemsAreReadOnly (sym same) (distinct, a, b)
      ]
    ]

-- When the constructor of ecmcSocketCAN returns, with such a port, the object is the one without the
-- port, whose properties SocketCan/Connect has, and its error and connection have two different items,
-- to which nothing may be written.
pub construct_can_lem :
    (str : Option (List ℕ)) (ms : ℕ) (port : Port) (i : Interface) (s : SocketCan)
    (log log' : List Call)
    → GivesNew port
    → construct_can str ms (some port) i log ≡ (ok s, log')
    → (new_socket_can str ms true true true i ≡ ok s)
      × (err : ℕ) × (item : ℕ) × (¬ (err ≡ item))
      × IsReadOnly err log'
      × IsReadOnly item log'
unfolding construct_can
construct_can_lem str ms port i s log log' new e =
    let ((err, item), f, same) =
      items-ok (new_socket_can str ms true true true i) (init_asyn_can (some port)) log log' s e in
    let (differ, a, b) = init_asyn_can-IsReadOnly port log log' err item new f in
    (same, err, item, differ, a, b)
