-- ===== src/Common/Attempt.antt =====
-- Calls that can throw. An exception carries the class that it is an object of; a fault, which is no
-- exception, ends the run.
use e3_ecmc_plugin_socketcan.Common.Memory
use e3_ecmc_plugin_socketcan.Common.Memory.{Outcome}

pub data Exception : Type 0 where
  invalid_argument out_of_range runtime_error : Exception

pub data Attempt {ℓ} (A : Type ℓ) : Type ℓ where
  ok : A → Attempt A
  thrown : Exception → Attempt A
  crashed : Attempt A

infixl 5 ◌>>=◌
abbrev pub ◌>>=◌ {ℓ κ} : {A : Type ℓ} {B : Type κ} → Attempt A → (A → Attempt B) → Attempt B
ok a >>= f = f a
thrown e >>= f = thrown e
crashed >>= f = crashed

-- A call that does not throw.
abbrev pub lift {ℓ} : {A : Type ℓ} → Outcome A → Attempt A
lift (Memory.done a) = ok a
lift Memory.fault = crashed
