-- ===== src/Asyn/Items.antt =====
-- The items that initAsyn of an SDO or a PDO leaves in the asyn port.
use e3_ecmc_plugin_socketcan.Common.{
  ℕ, ◌≡◌, ap, ◌∙◌, Bool, true, false, Option, none, some, List, ◌∷◌, arith, leb, ◌==◌, ==_refl,
}
use e3_ecmc_plugin_socketcan.Defs.{Direction, dir_write, dir_read}
use e3_ecmc_plugin_socketcan.Asyn.{
  AsynType, int8_array, int16_array, int32_array, float32_array, float64_array, int32, float64,
  uint32_digital, Handler, Call, add_new_avail_param, set_allow_write_to_ecmc, Port, Given, allowed,
  handler, has_type,
}
use e3_ecmc_plugin_socketcan.Asyn.Names.{Kind, error_name}
use e3_ecmc_plugin_socketcan.Asyn.Init.{
  with_answer, data_added, error_added, publish, int16_if, int32_if, float64_if, allow_write,
  is_write, handler_of, data_param, error_param, init_asyn_object,
}

-- The bytes of a value, or of an element of an array, must fit into the object; its bytes themselves
-- are always there.
abbrev pub fits : AsynType → ℕ → Bool
fits int8_array size = true
fits int16_array size = leb 2 size
fits int32_array size = leb 4 size
fits float32_array size = leb 4 size
fits int32 size = leb 4 size
fits float64_array size = leb 8 size
fits float64 size = leb 8 size
fits uint32_digital size = false

-- Only an object that is written is called.
abbrev pub called : Kind → ℕ → Direction → Option (Handler × ℕ)
called k this dir_write = some (handler_of k, this)
called k this dir_read = none

-- An object with its items, for data and for the error, among the calls of the port.
pub record ObjectItems (k : Kind) (this size : ℕ) (rw : Direction) (item err : ℕ) (log : List Call)
    : Type 0 where
  pub distinct : ¬ (item ≡ err)
  pub writable : allowed item log ≡ some (is_write rw)
  pub calls : handler item log ≡ called k this rw
  pub typed : (t : AsynType) → has_type item t log ≡ fits t size
  pub error_fixed : allowed err log ≡ some false
  pub error_silent : handler err log ≡ none

-- What was said of items that were given before is as it was.
abbrev pub KeepsItems : List Call → List Call → Type 0
KeepsItems log log' =
    (i : ℕ) → Given i log → (allowed i log' ≡ allowed i log) × (handler i log' ≡ handler i log)

module _ (k : Kind) (this : ℕ) (node_id : ℕ) (name : List ℕ) (size : ℕ) where
  -- The calls for the item of the data.
  abbrev pub data_calls : Direction → ℕ → List Call → List Call
  data_calls rw item log = publish item (
      allow_write k this rw item (
        float64_if size item (
          int32_if size item (
            int16_if size item
              (add_new_avail_param (data_param k node_id name size) (some item) ∷ log)))))

  typed-fits :
      (rw : Direction) (item : ℕ) (log : List Call) (t : AsynType)
      → has_type item t (data_calls rw item log) ≡ fits t size
  unfolding allow_write float64_if int32_if int16_if
  typed-fits dir_write item log int8_array = ground (arith, ==_refl item)
  typed-fits dir_write item log int16_array = ground (arith, ==_refl item)
  typed-fits dir_write item log int32_array = ground (arith, ==_refl item)
  typed-fits dir_write item log float32_array = ground (arith, ==_refl item)
  typed-fits dir_write item log float64_array = ground (arith, ==_refl item)
  typed-fits dir_write item log int32 = ground (arith, ==_refl item)
  typed-fits dir_write item log float64 = ground (arith, ==_refl item)
  typed-fits dir_write item log uint32_digital = ground (arith, ==_refl item)
  typed-fits dir_read item log int8_array = ground (arith, ==_refl item)
  typed-fits dir_read item log int16_array = ground (arith, ==_refl item)
  typed-fits dir_read item log int32_array = ground (arith, ==_refl item)
  typed-fits dir_read item log float32_array = ground (arith, ==_refl item)
  typed-fits dir_read item log float64_array = ground (arith, ==_refl item)
  typed-fits dir_read item log int32 = ground (arith, ==_refl item)
  typed-fits dir_read item log float64 = ground (arith, ==_refl item)
  typed-fits dir_read item log uint32_digital = ground (arith, ==_refl item)

  data-writable :
      (rw : Direction) (item : ℕ) (log : List Call)
      → allowed item (data_calls rw item log) ≡ some (is_write rw)
  unfolding allow_write
  data-writable dir_write item log = ground (arith, ==_refl item)
  data-writable dir_read item log = ground (arith, ==_refl item)

  pub data-calls :
      (rw : Direction) (item : ℕ) (log : List Call)
      → handler item (data_calls rw item log) ≡ called k this rw
  unfolding allow_write float64_if int32_if int16_if
  data-calls dir_write item log = ground (arith, ==_refl item)
  data-calls dir_read item log = ground (arith, ==_refl item)

  -- Other items are not spoken of.
  pub data-others :
      (rw : Direction) (item : ℕ) (log : List Call) (i : ℕ)
      → (i == item) ≡ false
      → (allowed i (data_calls rw item log) ≡ allowed i log)
        × (handler i (data_calls rw item log) ≡ handler i log)
        × (Given i log → Given i (data_calls rw item log))
  unfolding allow_write float64_if int32_if int16_if
  data-others dir_write item log i h = ground (arith, h)
  data-others dir_read item log i h = ground (arith, h)

  pub data-Given :
      (rw : Direction) (item : ℕ) (log : List Call) → Given item (data_calls rw item log)
  unfolding allow_write float64_if int32_if int16_if
  data-Given dir_write item log = ground (arith, ==_refl item)
  data-Given dir_read item log = ground (arith, ==_refl item)

  -- The calls for both items.
  abbrev pub all_calls : Direction → ℕ → ℕ → List Call → List Call
  all_calls rw item err log = publish err (
      set_allow_write_to_ecmc err false
      ∷ add_new_avail_param (error_param (error_name k node_id name)) (some err)
      ∷ data_calls rw item log)

  pub items-ObjectItems :
      (rw : Direction) (item err : ℕ) (log : List Call)
      → (item == err) ≡ false
      → ObjectItems k this size rw item err (all_calls rw item err log)
  items-ObjectItems rw item err log h = record {
    distinct = λ e. absurd (ground (arith, e, h));
    writable = ground (arith, h, data-writable rw item log);
    calls = ground (arith, h, data-calls rw item log);
    typed = λ t. ground (arith, h, typed-fits rw item log t);
    error_fixed = ground (arith, ==_refl err);
    error_silent = ground (arith, ==_refl err);
  }

  module _ (port : Port) where
    -- The port answers a request for the item of the data, and one for that of the error.
    abbrev pub data_answer : List Call → Option ℕ
    data_answer log = port.answer log (data_param k node_id name size)

    abbrev pub error_answer : Direction → ℕ → List Call → Option ℕ
    error_answer rw item log =
        port.answer (data_calls rw item log) (error_param (error_name k node_id name))

    pub after_data :
        (rw : Direction) (log : List Call) {answer : Option ℕ}
        → data_answer log ≡ answer
        → init_asyn_object k this node_id name size rw (some port) log
          ≡ with_answer
              (data_param k node_id name size)
              log
              (data_added k this node_id name size rw port)
              answer
    unfolding init_asyn_object
    after_data dir log e =
        ap
          (with_answer (data_param k node_id name size) log
            (data_added k this node_id name size dir port))
          e

    pub after_error :
        (rw : Direction) (item : ℕ) (log : List Call) {answer : Option ℕ}
        → data_answer log ≡ some item
        → error_answer rw item log ≡ answer
        → init_asyn_object k this node_id name size rw (some port) log
          ≡ with_answer
              (error_param (error_name k node_id name))
              (data_calls rw item log)
              (error_added item)
              answer
    unfolding data_added with_answer
    after_error dir item log e g =
        after_data dir log e
        ∙ ap
            (with_answer (error_param (error_name k node_id name)) (data_calls dir item log)
              (error_added item))
            g
