-- ===== src/Asyn/Added.antt =====
-- What the port has of an object that a command added.
use e3_ecmc_plugin_socketcan.Common.{ℕ, ◌≡◌, sym, ap, subst, ◌∙◌, inl, inr, some, List, arith, min}
use e3_ecmc_plugin_socketcan.Common.Attempt.{Attempt, ok, thrown, crashed}
use e3_ecmc_plugin_socketcan.Defs.{Direction}
use e3_ecmc_plugin_socketcan.SocketCan.{SocketCan}
use e3_ecmc_plugin_socketcan.SocketCan.Table.{add_pdo, add_sdo}
use e3_ecmc_plugin_socketcan.Asyn.{Port, Call, GivesNew}
use e3_ecmc_plugin_socketcan.Asyn.Names.{Kind, sdo, pdo}
use e3_ecmc_plugin_socketcan.Asyn.Init.{Logged, init_asyn_object}
use e3_ecmc_plugin_socketcan.Asyn.Items.{ObjectItems}
use e3_ecmc_plugin_socketcan.Asyn.Outcomes.{init_asyn_object_lem}
use e3_ecmc_plugin_socketcan.Asyn.Commands.{
  behind, with_items, Request, master_request, device_request, pdo_request, sdo_request, perform,
}

-- The port has two items for the object.
abbrev pub HasObjectItems : Kind → ℕ → ℕ → Direction → List Call → Type 0
HasObjectItems k this size rw log = (item : ℕ) × (err : ℕ) × ObjectItems k this size rw item err log

ok-injective : {s s' : SocketCan} → ok s ≡ ok s' → s ≡ s'
ok-injective {s} e = ap (λ (r : Attempt SocketCan). elim r [ ok x ↦ x | _ ↦ s ]) e

behind-ok :
    {A : Type 0} (x : Logged A) (s s' : SocketCan) (log : List Call)
    → behind x s ≡ (ok s', log)
    → (a : A) × (x ≡ (ok a, log)) × (s ≡ s')
behind-ok (ok a, log1) s s' log e = (
  a,
  ap (λ l. (ok a, l)) (ap (λ (y : Logged SocketCan). y.1) e),
  ok-injective (ap (λ (y : Logged SocketCan). y.0) e),
)
behind-ok (thrown x, log1) s s' log e = absurd (ground (arith, e))
behind-ok (crashed, log1) s s' log e = absurd (ground (arith, e))

pub items-ok :
    {A : Type 0} (r : Attempt SocketCan) (init : List Call → Logged A) (log log' : List Call)
    (s' : SocketCan)
    → with_items r init log ≡ (ok s', log')
    → (a : A) × (init log ≡ (ok a, log')) × (r ≡ ok s')
items-ok (ok s) init log log' s' e =
    let (a, f, same) = behind-ok (init log) s s' log' e in (a, f, ap (λ x. ok x) same)
items-ok (thrown x) init log log' s' e = absurd (ground (arith, e))
items-ok crashed init log log' s' e = absurd (ground (arith, e))

object-HasObjectItems :
    (k : Kind) (this node_id : ℕ) (name : List ℕ) (size : ℕ) (rw : Direction) (port : Port)
    (log log' : List Call) (a : ℕ × ℕ)
    → GivesNew port
    → init_asyn_object k this node_id name size rw (some port) log ≡ (ok a, log')
    → HasObjectItems k this size rw log'
object-HasObjectItems k this node_id name size dir port log log' a new e =
    elim (init_asyn_object_lem k this node_id name size dir port new log) [
      | inl (log1, f, _, _) ↦ absurd (ground (arith, e, f))
      | inr (inl (item, log1, f, _, _, _, _, _, _)) ↦ absurd (ground (arith, e, f))
      | inr (inr (item, err, log1, f, _, _, items)) ↦
          let same : log1 ≡ log' = ap (λ (x : Logged (ℕ × ℕ)). x.1) (sym f ∙ e) in
          (item, err, subst (ObjectItems k this size dir item err) same items)
    ]

-- What a command for an SDO or a PDO asks of the port; a PDO keeps at most 8 bytes.
abbrev pub HasItemsOf : Request → List Call → Type 0
HasItemsOf (sdo_request this name node_id tx id_rx rw index sub size sample) log =
    HasObjectItems sdo this size rw log
HasItemsOf (pdo_request this name node_id cob_id rw size timeout period) log =
    HasObjectItems pdo this (min size 8) rw log
HasItemsOf _ log = Unit {0}

-- An SDO or a PDO that a command added, with a port that makes a new item at every call that it does
-- not refuse, has its two items in the port: values may be written to that of its data, and are handed
-- to it, exactly if its direction is DIR_WRITE, in the types that fit its size, and nothing may be
-- written to that of its error.
pub perform-HasItemsOf :
    (r : Request) (port : Port) (s s' : SocketCan) (log log' : List Call)
    → GivesNew port
    → perform r (some port) s log ≡ (ok s', log')
    → HasItemsOf r log'
unfolding perform
perform-HasItemsOf (master_request a b c node_id lss sync heart) port s s' log log' new e = tt
perform-HasItemsOf (device_request node_id timeout) port s s' log log' new e = tt
perform-HasItemsOf (pdo_request this name node_id cob_id dir size timeout period) port s s' log log'
      new e =
    let (a, f, _) = items-ok (add_pdo node_id cob_id dir size timeout period s) _ log log' s' e in
    object-HasObjectItems pdo this node_id name (min size 8) dir port log log' a new f
perform-HasItemsOf (sdo_request this name node_id tx id_rx dir index sub size sample) port s s' log
      log' new e =
    let (a, f, _) =
      items-ok (add_sdo node_id tx id_rx dir index sub size sample s) _ log log' s' e in
    object-HasObjectItems sdo this node_id name size dir port log log' a new f
