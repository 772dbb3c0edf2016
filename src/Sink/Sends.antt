-- ===== src/Sink/Sends.antt =====
-- What a call leaves in the sink: a property that each call of addWriteCAN keeps.
use e3_ecmc_plugin_socketcan.Common.{Bool, true, false, if◌then◌else◌}
use e3_ecmc_plugin_socketcan.Common.Memory.{Outcome, done, fault, ◌>>=◌}

-- A call that ends leaves `P` of the sink, which `get` finds in its result.
abbrev pub Leaves {ℓ} : {A : Type ℓ} {B : Type 0} → (B → Type 0) → (A → B) → Outcome A → Type 0
Leaves P get (done a) = P (get a)
Leaves P get fault = Unit {0}

pub if-Leaves {ℓ} :
    {A : Type ℓ} {B : Type 0} (P : B → Type 0) (get : A → B) (b : Bool) (x y : Outcome A)
    → Leaves P get x
    → Leaves P get y
    → Leaves P get (if b then x else y)
if-Leaves P get true x y p q = p
if-Leaves P get false x y p q = q

-- Behind a call that does not touch the sink.
pub bind-Leaves {ℓ κ} :
    {X : Type κ} {A : Type ℓ} {B : Type 0} (P : B → Type 0) (get : A → B) (m : Outcome X)
    (g : X → Outcome A)
    → ((x : X) → Leaves P get (g x))
    → Leaves P get (m >>= g)
bind-Leaves P get (done x) g h = h x
bind-Leaves P get fault g h = tt

-- Behind a call that may have touched it, and left `P`.
pub then-Leaves {ℓ κ} :
    {X : Type κ} {A : Type ℓ} {B : Type 0} (P : B → Type 0) (have : X → B) (get : A → B)
    (m : Outcome X) (g : X → Outcome A)
    → Leaves P have m
    → ((x : X) → P (have x) → Leaves P get (g x))
    → Leaves P get (m >>= g)
then-Leaves P have get (done x) g p h = h x p
then-Leaves P have get fault g p h = tt

-- The same, if what follows turns `P` into `Q`.
pub turn-Leaves {ℓ κ} :
    {X : Type κ} {A : Type ℓ} {B : Type 0} (P Q : B → Type 0) (have : X → B) (get : A → B)
    (m : Outcome X) (g : X → Outcome A)
    → Leaves P have m
    → ((x : X) → P (have x) → Leaves Q get (g x))
    → Leaves Q get (m >>= g)
turn-Leaves P Q have get (done x) g p h = h x p
turn-Leaves P Q have get fault g p h = tt
