-- ===== src/Common/Ends.antt =====
-- Results of type Option of which something holds where there is one.
use mathlib.Core.Bool.{Bool, true, false}
use mathlib.Core.Option.{Option, none, some}
use phantomid.Common.Tests.{if◌then◌else◌, ◌>>=◌}

-- What is returned has the property.
pub data Ends {ℓ κ} {A : Type κ} (P : A → Type ℓ) : Option A → Type (ℓ ⊔ κ) where
  fault : Ends P none
  ends : {a : A} → P a → Ends P (some a)

module _ {ℓ κ} {A : Type κ} {P : A → Type ℓ} where
  pub Ends-bind {μ} :
      {B : Type μ} (o : Option B) (f : B → Option A) → ((b : B) → Ends P (f b)) → Ends P (o >>= f)
  Ends-bind none f h = fault
  Ends-bind (some b) f h = h b

  pub Ends-if : (b : Bool) (x y : Option A) → Ends P x → Ends P y → Ends P (if b then x else y)
  Ends-if true x y hx hy = hx
  Ends-if false x y hx hy = hy

  pub Ends-then {μ ν} :
      {B : Type μ} {Q : B → Type ν} (o : Option B) (f : B → Option A)
      → Ends Q o
      → ((b : B) → Q b → Ends P (f b))
      → Ends P (o >>= f)
  Ends-then none f h k = fault
  Ends-then (some b) f (ends q) k = k b q
