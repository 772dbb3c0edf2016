-- ===== src/Asyn/Outcomes.antt =====
-- How initAsyn of an SDO or a PDO can end.
use e3_ecmc_plugin_socketcan.Common.{
  ℕ, ◌≡◌, ◌⊎◌, refl, subst, inl, inr, false, Option, none, some, List, ◌∷◌, arith, ◌==◌, Bool-cases,
  ==_iff,
}
use e3_ecmc_plugin_socketcan.Common.Attempt.{ok, thrown, runtime_error}
use e3_ecmc_plugin_socketcan.Defs.{Direction}
use e3_ecmc_plugin_socketcan.Asyn.{Call, add_new_avail_param, Port, Given, GivesNew, handler}
use e3_ecmc_plugin_socketcan.Asyn.Names.{Kind, error_name}
use e3_ecmc_plugin_socketcan.Asyn.Init.{
  Logged, with_answer, data_param, error_param, init_asyn_object,
}
use e3_ecmc_plugin_socketcan.Asyn.Items.{
  called, ObjectItems, KeepsItems, data_calls, data-calls, data-others, data-Given, all_calls,
  items-ObjectItems, data_answer, error_answer, after_data, after_error,
}

pub Option-cases : {A : Type 0} (o : Option A) → ((a : A) × (o ≡ some a)) ⊎ (o ≡ none)
Option-cases (some a) = inl (a, refl)
Option-cases none = inr refl

-- An item that was given is not the one that was not.
pub old_is_not_new : (i j : ℕ) (log : List Call) → Given i log → ¬ Given j log → (i == j) ≡ false
old_is_not_new i j log g n = elim (Bool-cases (i == j)) [
  | inl e ↦ absurd (n (subst (λ x. Given x log) ((==_iff i j).0 e) g))
  | inr e ↦ e
]

module _ (k : Kind) (this node_id : ℕ) (name : List ℕ) (size : ℕ) (rw : Direction) where
  module _ (port : Port) where
    -- The call threw, since the port refused the item for the data.
    abbrev pub DataRefused : List Call → Logged (ℕ × ℕ) → Type 0
    DataRefused log r =
        (log' : List Call) × (r ≡ (thrown runtime_error, log'))
        × (port.answer log (data_param k node_id name size) ≡ none)
        × KeepsItems log log'

    -- The item for the error is asked for next, and nothing is left but to throw, since the port
    -- refused it; the item for the data stays.
    abbrev pub ErrorRefused : List Call → Logged (ℕ × ℕ) → Type 0
    ErrorRefused log r =
        (item : ℕ) × (log' : List Call) × (r ≡ (thrown runtime_error, log'))
        × (port.answer log (data_param k node_id name size) ≡ some item)
        × KeepsItems log log'
        × (handler item log' ≡ called k this rw)
        × (mid : List Call) × (log'
            ≡ add_new_avail_param (error_param (error_name k node_id name)) none ∷ mid)
        × (port.answer mid (error_param (error_name k node_id name)) ≡ none)

    -- It returned, with both items.
    abbrev pub HasItems : List Call → Logged (ℕ × ℕ) → Type 0
    HasItems log r =
        (item : ℕ) × (err : ℕ) × (log' : List Call) × (r ≡ (ok (item, err), log'))
        × (port.answer log (data_param k node_id name size) ≡ some item)
        × KeepsItems log log'
        × ObjectItems k this size rw item err log'

    data_given :
        GivesNew port
        → (item : ℕ) (log : List Call) → data_answer k this node_id name size port log ≡ some item
        → ErrorRefused log (init_asyn_object k this node_id name size rw (some port) log)
          ⊎ HasItems log (init_asyn_object k this node_id name size rw (some port) log)
    unfolding with_answer
    data_given new item log e =
        let calls = data_calls k this node_id name size rw item log in
        let is_new = new log (data_param k node_id name size) item e in
        elim (Option-cases (error_answer k this node_id name size port rw item log)) [
          | inr g ↦ inl (
            item,
            add_new_avail_param (error_param (error_name k node_id name)) none ∷ calls,
            after_error k this node_id name size port rw item log e g,
            e,
            (λ i h.
                let (p, q, _) =
                  data-others k this node_id name size rw item log i
                    (old_is_not_new i item log h is_new) in
                (p, q)),
            data-calls k this node_id name size rw item log,
            calls,
            refl,
            g,
          )
          | inl (err, g) ↦
              let err_new = new calls (error_param (error_name k node_id name)) err g in
              let differ =
                old_is_not_new item err calls (data-Given k this node_id name size rw item log)
                  err_new in
              inr (
                item,
                err,
                all_calls k this node_id name size rw item err log,
                after_error k this node_id name size port rw item log e g,
                e,
                (λ i h.
                    let (p, q, given) =
                      data-others k this node_id name size rw item log i
                        (old_is_not_new i item log h is_new) in
                    let other = old_is_not_new i err calls (given h) err_new in
                    (ground (arith, other, p), ground (arith, other, q))),
                items-ObjectItems k this node_id name size rw item err log differ,
              )
        ]

    -- initAsyn of an SDO or a PDO, with a port that makes a new item at every call that it does not
    -- refuse, throws or returns. If the port refuses the item for the data, it throws. If it
    -- refuses the one for the error, which is then its last call, the call throws too, but the item for the data stays in the port,
    -- with the function to call, and the object to call it with, if the direction is DIR_WRITE. Otherwise the
    -- object has two different items: values may be written to that of the data, and are handed to the
    -- object, exactly if the direction is DIR_WRITE, and its types are those that fit into the object;
    -- nothing may be written to that of the error. In all cases the items
    -- from before may be written, and are handed to objects, as before.
    pub init_asyn_object_lem :
        GivesNew port
        → (log : List Call)
        → DataRefused log (init_asyn_object k this node_id name size rw (some port) log)
          ⊎ (ErrorRefused log (init_asyn_object k this node_id name size rw (some port) log)
              ⊎ HasItems log (init_asyn_object k this node_id name size rw (some port) log))
    unfolding with_answer
    init_asyn_object_lem new log =
        elim (Option-cases (data_answer k this node_id name size port log)) [
          | inr e ↦ inl (
            add_new_avail_param (data_param k node_id name size) none ∷ log,
            after_data k this node_id name size port rw log e,
            e,
            (λ i h. (refl, refl)),
          )
          | inl (item, e) ↦ inr (data_given new item log e)
        ]
