-- ===== src/Asyn/Unique.antt =====
-- The names of the asyn parameters of the plugin: parameters that differ in the node id, in what they
-- belong to or in its name have different names.
use mathlib.Core.List.{append_cancel_left, append_cancel_right}
use e3_ecmc_plugin_socketcan.Common.{
  ℕ, suc, ◌<◌, ◌^◌, ◌≡◌, ◌≢◌, refl, sym, ap, ap₂, ◌∙◌, List, [], ◌∷◌, ◌++◌, arith,
}
use e3_ecmc_plugin_socketcan.Common.Int.{ℤ, pos, negsuc}
use e3_ecmc_plugin_socketcan.Common.CString.Terminated.{number}
use e3_ecmc_plugin_socketcan.Config.{codes}
use e3_ecmc_plugin_socketcan.Asyn.Names.{
  Kind, sdo, pdo, to_int, to_string, asyn_prefix, data_name, error_name, nmt_state_name,
  com_error_name, com_connected_name,
}
use e3_ecmc_plugin_socketcan.Asyn.Decimal.{AreDigits, decimal-AreDigits, IsInt, number-to_string}

-- The parameters that the constructors ask for: those of a device, with its node id, and the two
-- of the object for the interface. Objects of one kind and name on devices with one node id, which the
-- code does not refuse, ask for the same parameters, and are not told apart here.
pub data Part : Type 0 where
  data_of error_of : Kind → List ℕ → Part
  nmt_state : Part

pub data Parameter : Type 0 where
  of_device : ℕ → Part → Parameter
  com_error com_connected : Parameter

abbrev pub name_of : Parameter → List ℕ
name_of (of_device node_id p) = elim p [
  | data_of k name ↦ data_name k node_id name
  | error_of k name ↦ error_name k node_id name
  | nmt_state ↦ nmt_state_name node_id
]
name_of com_error = com_error_name
name_of com_connected = com_connected_name

-- The name of an object does not end like that of an error.
abbrev pub IsPlain : Part → Type 0
IsPlain (data_of k name) = (x : List ℕ) → ¬ (name ≡ x ++ codes ".error")
IsPlain (error_of k name) = Unit {0}
IsPlain nmt_state = Unit {0}

-- A node id is a uint32_t.
abbrev pub IsProper : Parameter → Type 0
IsProper (of_device node_id p) = (node_id < 2 ^ 32) × IsPlain p
IsProper com_error = Unit {0}
IsProper com_connected = Unit {0}

-- Digits, perhaps behind a sign, end at the first point.
abbrev IsNumeral : List ℕ → Type 0
IsNumeral [] = Unit {0}
IsNumeral (c ∷ cs) = ¬ (c ≡ b'.') × IsNumeral cs

digits-IsNumeral : (xs : List ℕ) → AreDigits xs → IsNumeral xs
digits-IsNumeral [] p = tt
digits-IsNumeral (x ∷ xs) (l, h, p) = ((λ e. absurd (omega (arith, l, e))), digits-IsNumeral xs p)

to_string-IsNumeral : (z : ℤ) → IsNumeral (to_string z)
unfolding to_string
to_string-IsNumeral (pos n) = digits-IsNumeral _ (decimal-AreDigits 10 n)
to_string-IsNumeral (negsuc n) =
    ((λ e. absurd (omega (arith, e))), digits-IsNumeral _ (decimal-AreDigits 10 (suc n)))

numeral_unique :
    (xs ys us vs : List ℕ)
    → IsNumeral xs
    → IsNumeral ys
    → xs ++ (b'.' ∷ us) ≡ ys ++ (b'.' ∷ vs)
    → (xs ≡ ys) × (us ≡ vs)
numeral_unique [] [] us vs p q e = (refl, ground (arith, e))
numeral_unique [] (y ∷ ys) us vs p (n, q) e = absurd (n (ground (arith, e)))
numeral_unique (x ∷ xs) [] us vs (n, p) q e = absurd (n (ground (arith, e)))
numeral_unique (x ∷ xs) (y ∷ ys) us vs (n, p) (m, q) e =
    let (f, g) = numeral_unique xs ys us vs p q (ground (arith, e)) in (ground (arith, e, f), g)

to_int-IsInt : (n : ℕ) → n < 2 ^ 32 → IsInt (to_int n)
to_int-IsInt n h = ground (arith, h)

to_int-injective : (m n : ℕ) → m < 2 ^ 32 → n < 2 ^ 32 → to_int m ≡ to_int n → m ≡ n
to_int-injective m n p q e = ground (arith, p, q, e)

-- The part of a name that follows the node id, which every name of a device has.
device_unique :
    (m n : ℕ) (us vs : List ℕ)
    → m < 2 ^ 32
    → n < 2 ^ 32
    → asyn_prefix ++ (codes ".dev" ++ (to_string (to_int m) ++ (b'.' ∷ us)))
      ≡ asyn_prefix ++ (codes ".dev" ++ (to_string (to_int n) ++ (b'.' ∷ vs)))
    → (m ≡ n) × (us ≡ vs)
device_unique m n us vs p q e =
    let rest = append_cancel_left (codes ".dev") _ _ (append_cancel_left asyn_prefix _ _ e) in
    let (f, g) =
      numeral_unique (to_string (to_int m)) (to_string (to_int n)) us vs
        (to_string-IsNumeral (to_int m)) (to_string-IsNumeral (to_int n)) rest in
    let same =
      sym (number-to_string (to_int m) (to_int-IsInt m p))
      ∙ ap number f
      ∙ number-to_string (to_int n) (to_int-IsInt n q) in
    (to_int-injective m n p q same, g)

-- What stands behind the point after the node id.
abbrev kind_rest : Kind → List ℕ
kind_rest sdo = codes "sdo."
kind_rest pdo = codes "pdo."

abbrev rest_of : Part → List ℕ
rest_of (data_of k name) = kind_rest k ++ name
rest_of (error_of k name) = kind_rest k ++ (name ++ codes ".error")
rest_of nmt_state = codes "nmtstate"

name_of-device :
    (n : ℕ) (p : Part)
    → name_of (of_device n p)
      ≡ asyn_prefix ++ (codes ".dev" ++ (to_string (to_int n) ++ (b'.' ∷ rest_of p)))
unfolding data_name error_name nmt_state_name
name_of-device n (data_of sdo name) = refl
name_of-device n (data_of pdo name) = refl
name_of-device n (error_of sdo name) = refl
name_of-device n (error_of pdo name) = refl
name_of-device n nmt_state = refl

kind_unique :
    (k l : Kind) (us vs : List ℕ) → kind_rest k ++ us ≡ kind_rest l ++ vs → (k ≡ l) × (us ≡ vs)
kind_unique sdo sdo us vs e = (refl, append_cancel_left (codes "sdo.") us vs e)
kind_unique sdo pdo us vs e = absurd (ground (arith, e))
kind_unique pdo sdo us vs e = absurd (ground (arith, e))
kind_unique pdo pdo us vs e = (refl, append_cancel_left (codes "pdo.") us vs e)

object_is_not_nmt : (k : Kind) (us : List ℕ) → ¬ (kind_rest k ++ us ≡ codes "nmtstate")
object_is_not_nmt sdo us e = absurd (ground (arith, e))
object_is_not_nmt pdo us e = absurd (ground (arith, e))

part_unique : (p q : Part) → IsPlain p → IsPlain q → rest_of p ≡ rest_of q → p ≡ q
part_unique (data_of k x) (data_of l y) u v e =
    let (f, g) = kind_unique k l x y e in ap₂ (λ a b. data_of a b) f g
part_unique (data_of k x) (error_of l y) u v e =
    let (f, g) = kind_unique k l x _ e in absurd (u y g)
part_unique (data_of k x) nmt_state u v e = absurd (object_is_not_nmt k x e)
part_unique (error_of k x) (data_of l y) u v e =
    let (f, g) = kind_unique k l _ y e in absurd (v x (sym g))
part_unique (error_of k x) (error_of l y) u v e =
    let (f, g) = kind_unique k l _ _ e in
    ap₂ (λ a b. error_of a b) f (append_cancel_right x y (codes ".error") g)
part_unique (error_of k x) nmt_state u v e = absurd (object_is_not_nmt k _ e)
part_unique nmt_state (data_of l y) u v e = absurd (object_is_not_nmt l y (sym e))
part_unique nmt_state (error_of l y) u v e = absurd (object_is_not_nmt l _ (sym e))
part_unique nmt_state nmt_state u v e = refl

-- The name of a parameter of a device is no name of the interface.
device_is_not_com :
    (n : ℕ) (p : Part) (us : List ℕ)
    → ¬ (name_of (of_device n p) ≡ asyn_prefix ++ (codes ".com" ++ us))
device_is_not_com n p us e =
    absurd (ground (arith, append_cancel_left asyn_prefix _ _ (sym (name_of-device n p) ∙ e)))

names_unique : (p q : Parameter) → IsProper p → IsProper q → name_of p ≡ name_of q → p ≡ q
names_unique (of_device m a) (of_device n b) (h, u) (l, v) e =
    let (f, g) =
      device_unique m n (rest_of a) (rest_of b) h l
        (sym (name_of-device m a) ∙ e ∙ name_of-device n b) in
    ap₂ (λ x y. of_device x y) f (part_unique a b u v g)
names_unique (of_device m a) com_error u v e = absurd (device_is_not_com m a (codes ".error") e)
names_unique (of_device m a) com_connected u v e =
    absurd (device_is_not_com m a (codes ".connected") e)
names_unique com_error (of_device n b) u v e =
    absurd (device_is_not_com n b (codes ".error") (sym e))
names_unique com_error com_error u v e = refl
names_unique com_error com_connected u v e = absurd (ground (arith, e))
names_unique com_connected (of_device n b) u v e =
    absurd (device_is_not_com n b (codes ".connected") (sym e))
names_unique com_connected com_error u v e = absurd (ground (arith, e))
names_unique com_connected com_connected u v e = refl

-- Parameters that differ in the node id, in being for the data of an object, its error, the NMT state
-- or the interface, in the kind of the object or in its name have different names, if node ids are of
-- 32 bits and no object has a name that ends with ".error".
pub names_distinct : (p q : Parameter) → IsProper p → IsProper q → p ≢ q → name_of p ≢ name_of q
names_distinct p q u v differ e = differ (names_unique p q u v e)

-- An object whose name is that of another one with ".error" behind it asks for the parameter that
-- shows the error of the other.
pub error_name_taken :
    (k : Kind) (n : ℕ) (name : List ℕ)
    → name_of (of_device n (data_of k (name ++ codes ".error")))
      ≡ name_of (of_device n (error_of k name))
unfolding data_name error_name
error_name_taken k n name = refl
